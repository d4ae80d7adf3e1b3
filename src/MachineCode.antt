-- ===== src/MachineCode.antt =====
-- tools/assembly/machine_code.py: the fields of an instruction, the instruction word and the words
-- of a program. Each function raises what the source raises, in the source's order.
mod Enums
pub mod Loops
pub mod Program
pub mod Masks
pub mod Widths
pub mod Word
pub mod Format
pub mod Contents
use Prim.Native.Nat.{bit_and, bit_or}
use tia_infrastructure.Prelude.{
  ℕ, zero, suc, ◌+◌, ◌-◌, ◌*◌, ◌≤◌, Bool, true, false, not, ◌==◌, ltb, to_ℕ, if◌then◌else◌, Option,
  none, some, List, [], ◌∷◌, ◌++◌, map, length, Result, ok, err, assembly_exception, value_error,
  ◌>>=◌, ◌>>◌, raise_if,
}
use tia_infrastructure.Prelude.Int.{ℤ, pos, negsuc}
use tia_infrastructure.Prelude.Bits.{◌<<<◌}
use tia_infrastructure.Prelude.Fields.{bit_length}
use tia_infrastructure.Parameters
use tia_infrastructure.Parameters.{CoreParameters}
use tia_infrastructure.Isa.{Op, SourceType, DestinationType, Trigger, Instruction}
use tia_infrastructure.Isa.Numpy.{Numpy}
use tia_infrastructure.MachineCode.Enums.{op_value, source_type_value, destination_type_value}
use tia_infrastructure.MachineCode.Loops.{
  checked, reverse, or_predicates, concatenate, three_slots, or_zero, or_members, or_updates,
  immediate_field,
}

unfoldable pub build_true_ptm : CoreParameters → Instruction → Result ℕ
build_true_ptm cp i =
    or_predicates cp.num_predicates 0 (reverse i.trigger.true_predicates)
    >>= checked (Parameters.true_ptm_width cp)

unfoldable pub build_false_ptm : CoreParameters → Instruction → Result ℕ
build_false_ptm cp i =
    or_predicates cp.num_predicates 0 (reverse i.trigger.false_predicates)
    >>= checked (Parameters.false_ptm_width cp)

unfoldable pub build_ptm : CoreParameters → Instruction → Result ℕ
build_ptm cp i = do
  t ← build_true_ptm cp i
  f ← build_false_ptm cp i
  checked (Parameters.ptm_width cp) (bit_or (t <<< Parameters.false_ptm_width cp) f)

unfoldable pub build_ici : CoreParameters → Instruction → Result ℕ
build_ici cp i =
    let channels = i.trigger.input_channels in
    let most = cp.max_num_input_channels_to_check in
    let ici =
      concatenate (Parameters.single_ici_width cp) (length channels) 0 0
        (map suc (reverse channels)) in
    raise_if (ltb most (length channels)) assembly_exception
    >> checked (Parameters.ici_width cp)
        (ici <<< ((most - length channels) * Parameters.single_ici_width cp))

-- The count that both the loop and the empty slots use is that of the input channels.
unfoldable pub build_ictb : CoreParameters → Instruction → Result ℕ
build_ictb cp i =
    let booleans = i.trigger.input_channel_tag_booleans in
    let count = length i.trigger.input_channels in
    let most = cp.max_num_input_channels_to_check in
    let ictb = concatenate 1 count 0 0 (map to_ℕ (reverse booleans)) in
    raise_if (ltb most (length booleans)) assembly_exception
    >> (raise_if (ltb most count) value_error
        >> checked (Parameters.ictb_width cp) (ictb <<< (most - count)))

unfoldable pub build_ictv : CoreParameters → Instruction → Result ℕ
build_ictv cp i =
    let tags = i.trigger.input_channel_tags in
    let most = cp.max_num_input_channels_to_check in
    let ictv = concatenate (Parameters.tag_width cp) (length tags) 0 0 (reverse tags) in
    raise_if (ltb most (length tags)) assembly_exception
    >> checked (Parameters.ictv_width cp)
        (ictv <<< ((most - length tags) * Parameters.tag_width cp))

unfoldable pub build_op : CoreParameters → Instruction → Result ℕ
build_op cp i = checked (Parameters.op_width cp) (op_value i.op)

unfoldable pub build_st : CoreParameters → Instruction → Result ℕ
build_st cp i =
    raise_if (ltb 3 (length i.source_indices)) assembly_exception
    >> checked (Parameters.st_width cp)
        (three_slots (Parameters.single_st_width cp) (map source_type_value i.source_types))

unfoldable pub build_si : CoreParameters → Instruction → Result ℕ
build_si cp i =
    raise_if (ltb 3 (length i.source_indices)) assembly_exception
    >> checked (Parameters.si_width cp)
        (three_slots (Parameters.single_si_width cp) i.source_indices)

-- The source compares with the width of the destination index.
unfoldable pub build_dt : CoreParameters → Instruction → Result ℕ
build_dt cp i = checked (Parameters.di_width cp) (destination_type_value i.destination_type)

unfoldable pub build_di : CoreParameters → Instruction → Result ℕ
build_di cp i = checked (Parameters.di_width cp) (or_zero i.destination_index)

unfoldable pub build_oci : CoreParameters → Instruction → Result ℕ
build_oci cp i =
    checked (Parameters.oci_width cp) (or_members i.output_channel_indices cp.num_output_channels 0)

unfoldable pub build_oct : CoreParameters → Instruction → Result ℕ
build_oct cp i = checked (Parameters.oct_width cp) (or_zero i.output_channel_tag)

unfoldable pub build_icd : CoreParameters → Instruction → Result ℕ
build_icd cp i =
    checked (Parameters.icd_width cp)
      (or_members i.input_channels_to_dequeue cp.num_input_channels 0)

unfoldable pub build_true_pum : CoreParameters → Instruction → Result ℕ
build_true_pum cp i =
    or_updates true cp.num_predicates 0 i.predicate_update_indices i.predicate_update_values
    >>= checked (Parameters.true_pum_width cp)

unfoldable pub build_false_pum : CoreParameters → Instruction → Result ℕ
build_false_pum cp i =
    or_updates false cp.num_predicates 0 i.predicate_update_indices i.predicate_update_values
    >>= checked (Parameters.false_pum_width cp)

unfoldable pub build_pum : CoreParameters → Instruction → Result ℕ
build_pum cp i = do
  t ← build_true_pum cp i
  f ← build_false_pum cp i
  checked (Parameters.ptm_width cp) (bit_or (t <<< Parameters.false_ptm_width cp) f)

unfoldable pub build_immediate : Numpy → CoreParameters → Instruction → Result ℕ
build_immediate np cp i = immediate_field np cp.immediate_width i.immediate
