-- ===== src/Assembly/Fields.antt =====
-- The class InstructionFields of tools/assembly/instruction.py: the statements of an instruction.
pub mod Errors
use tia_infrastructure.Prelude.{
  ℕ, Bool, true, false, not, ◌==◌, if◌then◌else◌, Option, none, some, List, [], ◌∷◌, length, Result,
  ok, err, assembly_exception, ◌>>=◌, ◌>>◌, raise_if, get_item,
}
use tia_infrastructure.Prelude.Text.{
  Text, codes, starts_with, ends_with, contains, drop, drop_last, strip, split,
}
use tia_infrastructure.Assembly.{strip_each}

pub record InstructionFields : Type 0 where
  pub trigger_predicate_conditions_string : Option Text
  pub trigger_input_channel_conditions_string : Option Text
  pub datapath_instruction_string : Option Text
  pub dequeue_input_channels_string : Option Text
  pub predicate_update_string : Option Text

abbrev pub init : InstructionFields
init = record {
  trigger_predicate_conditions_string = none;
  trigger_input_channel_conditions_string = none;
  datapath_instruction_string = none;
  dequeue_input_channels_string = none;
  predicate_update_string = none;
}

-- "Extract any input channel tag requirements."
unfoldable pub read_trigger_segment : Text → InstructionFields → Result InstructionFields
read_trigger_segment segment f =
    if contains (codes "with") segment
    then (do
      conditions ← get_item (split (codes "with") segment) 0
      channels ← get_item (split (codes "with") segment) 1
      ok (record f {
        trigger_predicate_conditions_string = some (strip conditions);
        trigger_input_channel_conditions_string = some (strip channels);
      }))
    else ok (record f { trigger_predicate_conditions_string = some segment })

-- One of two secondary operations, and one of three, where none may come twice.
abbrev pub is_given : Option Text → Bool
is_given none = false
is_given (some s) = true

abbrev pub secondary : Text → InstructionFields → Result InstructionFields
secondary s f =
    if starts_with (codes "deq") s
    then ok (record f { dequeue_input_channels_string = some s })
    else if starts_with (codes "set") s
    then ok (record f { predicate_update_string = some s })
    else err assembly_exception

abbrev pub secondary_once : Text → InstructionFields → Result InstructionFields
secondary_once s f =
    if starts_with (codes "deq") s
    then (raise_if (is_given f.dequeue_input_channels_string) assembly_exception
        >> ok (record f { dequeue_input_channels_string = some s }))
    else if starts_with (codes "set") s
    then (raise_if (is_given f.predicate_update_string) assembly_exception
        >> ok (record f { predicate_update_string = some s }))
    else err assembly_exception

-- "Fill in the the instruction fields for the operation segment": more than three statements leave
-- the fields as they are.
unfoldable pub read_operations : List Text → InstructionFields → Result InstructionFields
read_operations [] f = err assembly_exception
read_operations (a ∷ []) f = ok (record f { datapath_instruction_string = some a })
read_operations (a ∷ b ∷ []) f = secondary b (record f { datapath_instruction_string = some a })
read_operations (a ∷ b ∷ c ∷ []) f =
    secondary_once b (record f { datapath_instruction_string = some a }) >>= λ f'.
    secondary_once c f'
read_operations (a ∷ b ∷ c ∷ d ∷ ss) f = ok f

unfoldable pub from_instruction_string : Text → Result InstructionFields
unfolding read_trigger_segment read_operations
from_instruction_string s = do
  let segments = split (codes ":") s
  raise_if (not (length segments == 2)) assembly_exception
  trigger ← get_item segments 0
  operation ← get_item segments 1
  let trigger_segment = strip trigger
  let operation_segment = strip operation
  raise_if (not (starts_with (codes "when") trigger_segment)) assembly_exception
  f ← read_trigger_segment (strip (drop 4 trigger_segment)) init
  raise_if (not (ends_with b';' operation_segment)) assembly_exception
  read_operations (strip_each (split (codes ";") (drop_last operation_segment))) f
