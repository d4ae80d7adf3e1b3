-- ===== src/Tests/Assembly.antt =====
-- Assembly texts read at concrete inputs.
use tia_infrastructure.Prelude.{
  inl, inr, arith, ℕ, zero, suc, get_elem?, ◌≡◌, refl, Bool, true, false, some, List, [], ◌∷◌,
  Result, ok, err, attribute_error, index_error, value_error, if◌then◌else◌,
}
use tia_infrastructure.Prelude.Int.{pos, negsuc}
use tia_infrastructure.Prelude.Text.{Text, codes, equal, int, int_hexadecimal}
use tia_infrastructure.Isa.{Op, SourceType, DestinationType}
use mathlib.Core.List.{reverse}
use tia_infrastructure.Assembly.Predicates.{
  is_x, is_x_or_z, trigger_parse_predicate_bin_string, parse_predicate_bin_string,
  determine_predicates_to_update, read_predicates,
}
use tia_infrastructure.Assembly.Predicates.Marks.{Reads, parse_predicate_bin_string_lem}
use tia_infrastructure.Assembly.Predicates.Updates.{
  Meets, wanted, determine_predicates_to_update_lem,
}
use tia_infrastructure.Assembly.Fields.{
  from_instruction_string, read_trigger_segment, read_operations,
}
use tia_infrastructure.Assembly.Fields.Errors.{
  Refuses, HasCondition, from_instruction_string-Refuses,
}
use tia_infrastructure.Assembly.Trigger
use tia_infrastructure.Assembly.Trigger.{
  add_predicate_conditions_from_string, add_predicate_conditions_from_bin_string,
  add_input_channels_conditions_from_string, tokenize_input_channel_string, extract_input_channels,
  extract_input_channel_tags, extract_input_channel_tag_booleans,
}
use tia_infrastructure.Assembly.Trigger.Printed.{
  Condition, written, add_input_channels_conditions_from_string-written,
}
use tia_infrastructure.Assembly.Datapath.{
  tokenize_datapath_string, extract_op, extract_source_type, extract_source_index,
  extract_immediate, extract_destination_type, destination_has_multiple_output_channels,
  extract_destination_indices, extract_destination_tag, tokenize_dequeue_input_channels_string,
}
use tia_infrastructure.Assembly.Build.{
  Instruction, from_string, add_datapath_instruction_from_string, add_sources, append_source,
  add_destination, add_channels, add_dequeue_input_channels_from_string,
  add_predicate_updates_from_strings, extract_predicate_bin_string,
  add_predicate_updates_from_bin_strings,
}
use tia_infrastructure.Assembly.Build.Destination.{IsComplete}
use tia_infrastructure.Assembly.Build.Shape.{from_string-IsComplete}
use tia_infrastructure.Core.Execute.{update_predicates}
use tia_infrastructure.Assembly.Program.{
  remove_comments, split_into_register_and_instruction_strings, instruction_strings,
  convert_processing_element_instructions_string_to_instructions,
}

-- Some operations, as Python's `eval` finds them.
abbrev pub eval_op : Text → Result Op
eval_op s =
    if equal s (codes "add")
    then ok Op.add
    else if equal s (codes "mov")
    then ok Op.mov
    else err attribute_error

-- Decimal and hexadecimal numbers.
ints :
    (int (codes " 007 ") ≡ ok (pos 7))
    × (int (codes "-12") ≡ ok (negsuc 11))
    × (int (codes "1__2") ≡ err value_error)
    × (int_hexadecimal (codes "0x_1F") ≡ ok (pos 31))
ints = (refl, refl, refl, refl)

abbrev text : Text
text =
    codes
      "when %p == XXXX1010 with %i0.0, !%i3.1:\n add %o{0, 2}.1, %i0, $-7; deq %i0; set %p = ZZZZ0101;"

abbrev instruction : Instruction
instruction = record {
  trigger = some (record {
    true_predicates = 1 ∷ 3 ∷ [];
    false_predicates = 0 ∷ 2 ∷ [];
    input_channels = pos 0 ∷ pos 3 ∷ [];
    input_channel_tags = pos 0 ∷ pos 1 ∷ [];
    input_channel_tag_booleans = true ∷ false ∷ [];
    output_channel_indices = pos 0 ∷ pos 2 ∷ [];
  });
  op = some Op.add;
  source_types = SourceType.channel ∷ SourceType.immediate ∷ SourceType.null ∷ [];
  source_indices = pos 0 ∷ pos 0 ∷ pos 0 ∷ [];
  immediate = some (negsuc 6);
  destination_type = some DestinationType.channel;
  destination_index = some (pos 0);
  output_channel_tag = some (pos 1);
  output_channel_indices = pos 0 ∷ pos 2 ∷ [];
  input_channels_to_dequeue = pos 0 ∷ [];
  predicate_update_indices = 0 ∷ 1 ∷ 2 ∷ 3 ∷ [];
  predicate_update_values = true ∷ false ∷ true ∷ false ∷ [];
}

read : from_string eval_op text ≡ ok instruction
unfolding from_string from_instruction_string read_trigger_segment read_operations
    add_predicate_conditions_from_string Trigger.extract_predicate_bin_string
    add_predicate_conditions_from_bin_string trigger_parse_predicate_bin_string read_predicates
    add_input_channels_conditions_from_string tokenize_input_channel_string extract_input_channels
    extract_input_channel_tags extract_input_channel_tag_booleans
    add_datapath_instruction_from_string tokenize_datapath_string extract_op add_sources
    append_source extract_source_type extract_source_index extract_immediate add_destination
    add_channels extract_destination_type destination_has_multiple_output_channels
    extract_destination_indices extract_destination_tag add_dequeue_input_channels_from_string
    tokenize_dequeue_input_channels_string add_predicate_updates_from_strings
    extract_predicate_bin_string add_predicate_updates_from_bin_strings
    determine_predicates_to_update parse_predicate_bin_string
read = refl

from_string-IsComplete_example : IsComplete instruction
from_string-IsComplete_example = from_string-IsComplete eval_op text read

from_instruction_string-Refuses_example :
    Refuses HasCondition (from_instruction_string (codes "when %p == X1: nop; deq %i0; deq %i1;"))
from_instruction_string-Refuses_example =
    from_instruction_string-Refuses (codes "when %p == X1: nop; deq %i0; deq %i1;")

-- One channel in braces takes in the source that follows it.
one_channel : from_string eval_op (codes "when %p == X1:\n mov %o{1}.0, %r0;") ≡ err value_error
unfolding from_string from_instruction_string read_trigger_segment read_operations
    add_predicate_conditions_from_string Trigger.extract_predicate_bin_string
    add_predicate_conditions_from_bin_string trigger_parse_predicate_bin_string read_predicates
    add_input_channels_conditions_from_string tokenize_input_channel_string extract_input_channels
    extract_input_channel_tags extract_input_channel_tag_booleans
    add_datapath_instruction_from_string tokenize_datapath_string extract_op add_sources
    append_source extract_source_type extract_source_index extract_immediate add_destination
    add_channels extract_destination_type destination_has_multiple_output_channels
    extract_destination_indices extract_destination_tag add_dequeue_input_channels_from_string
    tokenize_dequeue_input_channels_string add_predicate_updates_from_strings
    extract_predicate_bin_string add_predicate_updates_from_bin_strings
    determine_predicates_to_update parse_predicate_bin_string
one_channel = refl

parse_predicate_bin_string_lem_example :
    Reads is_x 0 (reverse (codes "1X0")) (trigger_parse_predicate_bin_string (codes "1X0"))
    × Reads is_x_or_z 0 (reverse (codes "1X0")) (parse_predicate_bin_string (codes "1X0"))
parse_predicate_bin_string_lem_example = parse_predicate_bin_string_lem (codes "1X0")

abbrev before : List Bool
before = false ∷ true ∷ true ∷ []

before-Meets : Meets (codes "X10") before
before-Meets = record { ones = ones; zeros = zeros }
  where
    ones :
        (k : ℕ) → get_elem? (reverse (codes "X10")) k ≡ some b'1' → get_elem? before k ≡ some true
    ones zero e = ground arith
    ones (suc zero) e = refl
    ones (suc (suc zero)) e = ground arith
    ones (suc (suc (suc k))) e = cc

    zeros :
        (k : ℕ) → get_elem? (reverse (codes "X10")) k ≡ some b'0' → get_elem? before k ≡ some false
    zeros zero e = refl
    zeros (suc zero) e = ground arith
    zeros (suc (suc zero)) e = ground arith
    zeros (suc (suc (suc k))) e = cc

determine_predicates_to_update_lem_example :
    (u : List ℕ × List Bool) × (qs : List Bool) × (determine_predicates_to_update
        (codes "X10")
        (codes "Z01")
      ≡ ok u)
    × (update_predicates u.0 u.1 before ≡ ok qs)
    × ((k : ℕ) → get_elem? qs k ≡ wanted (get_elem? (reverse (codes "Z01")) k) (get_elem? before k))
determine_predicates_to_update_lem_example =
    determine_predicates_to_update_lem (codes "X10") (codes "Z01") before
      (inl refl, (inr (inl refl), (inr (inr (refl, refl)), tt)))
      (inr (inl refl), (inl refl, (inr (inr (refl, refl)), tt))) (omega arith) before-Meets

-- `%i0.0, !%i3.12`
abbrev conditions : List Condition
conditions =
    record { wanted = true; channel = 0 ∷ []; tag = 0 ∷ [] }
    ∷ record { wanted = false; channel = 3 ∷ []; tag = 1 ∷ 2 ∷ [] }
    ∷ []

conditions-written : written conditions ≡ codes "%i0.0, !%i3.12"
conditions-written = refl

add_input_channels_conditions_from_string-written_example :
    add_input_channels_conditions_from_string (written conditions) Trigger.init
    ≡ ok (record Trigger.init {
      input_channels = pos 0 ∷ pos 3 ∷ [];
      input_channel_tags = pos 0 ∷ pos 12 ∷ [];
      input_channel_tag_booleans = true ∷ false ∷ [];
    })
add_input_channels_conditions_from_string-written_example =
    add_input_channels_conditions_from_string-written conditions Trigger.init (
      record { channel = (omega arith, tt); tag = (omega arith, tt) },
      (record { channel = (omega arith, tt); tag = (omega arith, (omega arith, tt)) }, tt),
    )

abbrev pub program : Text
program =
    codes
      "init %r0, $1;\n# two instructions\nwhen %p == X1:\n  mov %r1, %r0; # copy\nwhen %p == X0: mov %r0, $1;"

-- The comments go and the register line is left empty.
program_lines :
    remove_comments false (split_into_register_and_instruction_strings program).1
    ≡ codes "\n\nwhen %p == X1:\n  mov %r1, %r0; \nwhen %p == X0: mov %r0, $1;"
unfolding split_into_register_and_instruction_strings
program_lines = refl

-- A last line that waits for another is no AssemblyException.
unfinished :
    convert_processing_element_instructions_string_to_instructions eval_op (codes "when %p == X1:")
    ≡ err index_error
unfolding convert_processing_element_instructions_string_to_instructions instruction_strings
unfinished = refl
