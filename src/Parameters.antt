-- ===== src/Parameters.antt =====
-- tools/parameters/core_parameters.py: the parameters of a core that the machine code and the simulator read, the widths
-- that are derived from them. `ceil_log2 n` stands for `int(np.ceil(np.log2(n)))`.
pub mod Platform
pub mod Dictionary
pub mod Validate
use Prim.Native.Nat.{max}
use tia_infrastructure.Prelude.{ℕ, ◌+◌, ◌*◌, ◌≤◌, ◌^◌}

pub record CoreParameters : Type 0 where
  pub device_word_width : ℕ
  pub immediate_width : ℕ
  pub mm_instruction_width : ℕ
  pub num_instructions : ℕ
  pub num_predicates : ℕ
  pub num_registers : ℕ
  pub num_scratchpad_words : ℕ
  pub num_input_channels : ℕ
  pub num_output_channels : ℕ
  pub channel_buffer_depth : ℕ
  pub max_num_input_channels_to_check : ℕ
  pub num_tags : ℕ
  -- the base-two logarithm, rounded up, of numpy
  pub ceil_log2 : ℕ → ℕ

-- The documented behaviour of the logarithm: as many bits as it says hold `n` values.
abbrev pub IsCeilLog2 : (ℕ → ℕ) → Type 0
IsCeilLog2 f = (n : ℕ) → n ≤ 2 ^ f n

-- The members of the enumerations `Op`, `SourceType` and `DestinationType`.
abbrev num_ops : ℕ
num_ops = 63

abbrev num_source_types : ℕ
num_source_types = 4

abbrev pub num_destination_types : ℕ
num_destination_types = 4

abbrev pub true_ptm_width : CoreParameters → ℕ
true_ptm_width cp = cp.num_predicates

abbrev pub false_ptm_width : CoreParameters → ℕ
false_ptm_width cp = cp.num_predicates

abbrev pub ptm_width : CoreParameters → ℕ
ptm_width cp = true_ptm_width cp + false_ptm_width cp

abbrev pub single_ici_width : CoreParameters → ℕ
single_ici_width cp = cp.ceil_log2 (cp.num_input_channels + 1)

abbrev pub ici_width : CoreParameters → ℕ
ici_width cp = cp.max_num_input_channels_to_check * single_ici_width cp

abbrev pub tag_width : CoreParameters → ℕ
tag_width cp = cp.ceil_log2 cp.num_tags

abbrev pub ictb_width : CoreParameters → ℕ
ictb_width cp = cp.max_num_input_channels_to_check

abbrev pub ictv_width : CoreParameters → ℕ
ictv_width cp = cp.max_num_input_channels_to_check * tag_width cp

abbrev pub op_width : CoreParameters → ℕ
op_width cp = cp.ceil_log2 num_ops

abbrev pub single_st_width : CoreParameters → ℕ
single_st_width cp = cp.ceil_log2 num_source_types

abbrev pub st_width : CoreParameters → ℕ
st_width cp = 3 * single_st_width cp

abbrev pub single_si_width : CoreParameters → ℕ
single_si_width cp = cp.ceil_log2 (max cp.num_registers cp.num_input_channels)

abbrev pub si_width : CoreParameters → ℕ
si_width cp = 3 * single_si_width cp

abbrev pub dt_width : CoreParameters → ℕ
dt_width cp = cp.ceil_log2 num_destination_types

abbrev pub di_width : CoreParameters → ℕ
di_width cp = cp.ceil_log2 (max (max cp.num_registers cp.num_output_channels) cp.num_predicates)

abbrev pub oci_width : CoreParameters → ℕ
oci_width cp = cp.num_output_channels

abbrev pub oct_width : CoreParameters → ℕ
oct_width cp = tag_width cp

abbrev pub icd_width : CoreParameters → ℕ
icd_width cp = cp.num_input_channels

abbrev pub true_pum_width : CoreParameters → ℕ
true_pum_width cp = true_ptm_width cp

abbrev pub false_pum_width : CoreParameters → ℕ
false_pum_width cp = false_ptm_width cp

abbrev pub pum_width : CoreParameters → ℕ
pum_width cp = true_pum_width cp + false_pum_width cp

abbrev pub non_immediate_instruction_width : CoreParameters → ℕ
non_immediate_instruction_width cp =
    1
    + ptm_width cp
    + ici_width cp
    + ictb_width cp
    + ictv_width cp
    + op_width cp
    + st_width cp
    + si_width cp
    + dt_width cp
    + di_width cp
    + oci_width cp
    + oct_width cp
    + icd_width cp
    + pum_width cp

abbrev pub phy_instruction_width : CoreParameters → ℕ
phy_instruction_width cp = non_immediate_instruction_width cp + cp.immediate_width
