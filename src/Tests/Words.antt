-- ===== src/Tests/Words.antt =====
-- The machine code of an addition for a small core.
use tia_infrastructure.Prelude.{
  ℕ, ◌+◌, ◌-◌, ◌/◌, ◌%◌, ◌^◌, ◌<◌, ◌≤◌, ◌≡◌, refl, true, to_ℕ, some, List, [], ◌∷◌, ◌++◌, ok, arith,
}
use tia_infrastructure.Prelude.Bits.{bit}
use tia_infrastructure.Prelude.Fields.{bit_length, bit_length-le}
use tia_infrastructure.Prelude.Int.{negsuc}
use tia_infrastructure.Parameters
use tia_infrastructure.Parameters.{CoreParameters, IsCeilLog2}
use tia_infrastructure.Isa.{Op, SourceType, DestinationType, Instruction}
use tia_infrastructure.Isa.Numpy.{wrapping}
use tia_infrastructure.MachineCode.{
  build_ptm, build_ici, build_ictb, build_ictv, build_op, build_st, build_si, build_dt, build_di,
  build_oci, build_oct, build_icd, build_pum, build_immediate, build_true_ptm, build_false_ptm,
  build_true_pum, build_false_pum,
}
use tia_infrastructure.MachineCode.Loops.{contains}
use tia_infrastructure.MachineCode.Masks.{MemberMask}
use tia_infrastructure.MachineCode.Program.{build_machine_code_instruction}
use tia_infrastructure.MachineCode.Word.{
  Slot, slot_width, format, build_machine_code_instruction-format,
  build_machine_code_instruction-IsWide,
}
use tia_infrastructure.MachineCode.Contents.{build_ptm_lem, build_oci_lem}

-- The logarithm rounded up, by the length of `n - 1` in bits.
unfoldable pub ceil_log2 : ℕ → ℕ
ceil_log2 n = bit_length (n - 1)

ceil_log2-IsCeilLog2 : IsCeilLog2 ceil_log2
unfolding ceil_log2
ceil_log2-IsCeilLog2 n =
    let l : n - 1 < 2 ^ bit_length (n - 1) =
      (bit_length-le (n - 1) (bit_length (n - 1))).0 (omega arith) in
    omega (arith, l)

abbrev pub small : CoreParameters
small = record {
  device_word_width = 32;
  immediate_width = 32;
  mm_instruction_width = 128;
  num_instructions = 16;
  num_predicates = 4;
  num_registers = 8;
  num_scratchpad_words = 0;
  num_input_channels = 4;
  num_output_channels = 4;
  channel_buffer_depth = 2;
  max_num_input_channels_to_check = 2;
  num_tags = 4;
  ceil_log2 = ceil_log2;
}

-- Adds -7 to the head of input channel 0 and sends the sum to output channel 2.
abbrev pub addition : Instruction
addition = record {
  trigger = record {
    true_predicates = 1 ∷ [];
    false_predicates = 2 ∷ [];
    input_channels = 0 ∷ [];
    input_channel_tags = 1 ∷ [];
    input_channel_tag_booleans = true ∷ [];
    output_channel_indices = 2 ∷ [];
  };
  op = Op.add;
  source_types = SourceType.channel ∷ SourceType.immediate ∷ SourceType.null ∷ [];
  source_indices = 0 ∷ 0 ∷ 0 ∷ [];
  immediate = some (negsuc 6);
  destination_type = DestinationType.channel;
  destination_index = some 0;
  output_channel_tag = some 0;
  output_channel_indices = 2 ∷ [];
  input_channels_to_dequeue = 0 ∷ [];
  predicate_update_indices = 1 ∷ [];
  predicate_update_values = true ∷ [];
  number = 0;
}

abbrev addition_code : ℕ
addition_code = 194156210776606964764383194335393349632

addition-code : build_machine_code_instruction wrapping small addition ≡ ok addition_code
unfolding build_machine_code_instruction build_ptm build_true_ptm build_false_ptm build_ici
    build_ictb build_ictv build_op build_st build_si build_dt build_di build_oci build_oct build_icd
    build_pum build_true_pum build_false_pum build_immediate ceil_log2 bit_length
addition-code = refl

-- The fields before and after the operation.
before_op : List Slot
before_op =
    record { width = Parameters.ptm_width small; build = build_ptm small addition }
    ∷ record { width = Parameters.ici_width small; build = build_ici small addition }
    ∷ record { width = Parameters.ictb_width small; build = build_ictb small addition }
    ∷ record { width = Parameters.ictv_width small; build = build_ictv small addition }
    ∷ []

op_slot : Slot
op_slot = record { width = Parameters.op_width small; build = build_op small addition }

after_op : List Slot
after_op =
    record { width = Parameters.st_width small; build = build_st small addition }
    ∷ record { width = Parameters.si_width small; build = build_si small addition }
    ∷ record { width = Parameters.dt_width small; build = build_dt small addition }
    ∷ record { width = Parameters.di_width small; build = build_di small addition }
    ∷ record { width = Parameters.oci_width small; build = build_oci small addition }
    ∷ record { width = Parameters.oct_width small; build = build_oct small addition }
    ∷ record { width = Parameters.icd_width small; build = build_icd small addition }
    ∷ record { width = Parameters.pum_width small; build = build_pum small addition }
    ∷ record { width = small.immediate_width; build = build_immediate wrapping small addition }
    ∷ []

format-op : format wrapping small addition ≡ before_op ++ (op_slot ∷ after_op)
unfolding before_op op_slot after_op
format-op = refl

build_machine_code_instruction-format_example :
    (v : ℕ) × (op_slot.build ≡ ok v)
    × (addition_code
          / 2
            ^ (slot_width after_op
                + (small.mm_instruction_width - Parameters.phy_instruction_width small))
          % 2 ^ op_slot.width
        ≡ v)
build_machine_code_instruction-format_example =
    build_machine_code_instruction-format wrapping small addition addition_code ceil_log2-IsCeilLog2
      addition-code before_op after_op op_slot format-op

build_machine_code_instruction-IsWide_example :
    (addition_code / 2 ^ (small.mm_instruction_width - 1) ≡ 1)
    × (Parameters.phy_instruction_width small ≤ small.mm_instruction_width)
build_machine_code_instruction-IsWide_example =
    build_machine_code_instruction-IsWide wrapping small addition addition_code ceil_log2-IsCeilLog2
      addition-code

addition-ptm : build_ptm small addition ≡ ok 0x24
unfolding build_ptm build_true_ptm build_false_ptm bit_length
addition-ptm = refl

build_ptm_lem_example :
    ((p : ℕ)
      → p < small.num_predicates
      → (bit 0x24 p ≡ to_ℕ (contains addition.trigger.false_predicates p))
        × (bit 0x24 (small.num_predicates + p)
            ≡ to_ℕ (contains addition.trigger.true_predicates p)))
    × ((p : ℕ) → contains addition.trigger.false_predicates p ≡ true → p < small.num_predicates)
    × ((p : ℕ) → contains addition.trigger.true_predicates p ≡ true → p < small.num_predicates)
build_ptm_lem_example = build_ptm_lem small addition 0x24 addition-ptm

build_oci_lem_example :
    (m : ℕ) × (build_oci small addition ≡ ok m)
    × MemberMask addition.output_channel_indices small.num_output_channels m
build_oci_lem_example = build_oci_lem small addition
