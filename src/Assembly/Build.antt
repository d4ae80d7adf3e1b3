-- ===== src/Assembly/Build.antt =====
-- The class Instruction of tools/assembly/instruction.py and its reading from text.
pub mod Sources
pub mod Destination
pub mod Shape
use tia_infrastructure.Prelude.{
  ℕ, zero, suc, ◌+◌, Bool, true, false, not, ◌&&◌, ◌||◌, ◌==◌, ltb, if◌then◌else◌, Option, none,
  some, List, [], ◌∷◌, ◌++◌, length, Result, ok, err, assembly_exception, type_error,
  attribute_error, ◌>>=◌, ◌>>◌, raise_if, get_item, or_raise,
}
use tia_infrastructure.Prelude.Int.{ℤ, pos}
use tia_infrastructure.Prelude.Text.{
  Text, codes, equal, starts_with, contains, drop, strip, split, int,
}
use tia_infrastructure.Isa.{Op, SourceType, DestinationType}
use tia_infrastructure.Assembly.{each}
use tia_infrastructure.Assembly.Predicates.{determine_predicates_to_update}
use tia_infrastructure.Assembly.Trigger
use tia_infrastructure.Assembly.Trigger.{
  Trigger, add_predicate_conditions_from_string, add_input_channels_conditions_from_string,
}
use tia_infrastructure.Assembly.Fields.{InstructionFields, from_instruction_string}
use tia_infrastructure.Assembly.Datapath.{
  tokenize_datapath_string, extract_op, extract_special_sw_source_type, extract_source_type,
  extract_special_sw_source_index, extract_source_index, extract_special_sw_immediate,
  extract_immediate, destination_has_multiple_output_channels, extract_destination_type,
  extract_destination_index, extract_destination_indices, extract_destination_tag,
  tokenize_dequeue_input_channels_string, tail,
}

pub record Instruction : Type 0 where
  pub trigger : Option Trigger
  pub op : Option Op
  pub source_types : List SourceType
  pub source_indices : List ℤ
  pub immediate : Option ℤ
  pub destination_type : Option DestinationType
  pub destination_index : Option ℤ
  pub output_channel_tag : Option ℤ
  pub output_channel_indices : List ℤ
  pub input_channels_to_dequeue : List ℤ
  pub predicate_update_indices : List ℕ
  pub predicate_update_values : List Bool

abbrev pub init : Instruction
init = record {
  trigger = none;
  op = none;
  source_types = [];
  source_indices = [];
  immediate = none;
  destination_type = none;
  destination_index = none;
  output_channel_tag = none;
  output_channel_indices = [];
  input_channels_to_dequeue = [];
  predicate_update_indices = [];
  predicate_update_values = [];
}

abbrev pub is_immediate : SourceType → Bool
is_immediate SourceType.immediate = true
is_immediate _ = false

-- A source with its type: an immediate, which goes to the field of its own, or an index.
unfoldable pub append_source :
    Result SourceType → Result ℤ → Result ℤ → ℕ → Instruction → Result Instruction
append_source kind immediate index place i = do
  t ← kind
  let types = i.source_types ++ (t ∷ [])
  here ← get_item types place
  (if is_immediate here
      then (immediate >>= λ v. ok (record i {
        source_types = types;
        source_indices = i.source_indices ++ (pos 0 ∷ []);
        immediate = some v;
      }))
      else (index >>= λ k.
          ok (record i { source_types = types; source_indices = i.source_indices ++ (k ∷ []) })))

-- Source `n` of the tokens goes to a place in the lists.
abbrev pub add_source : List Text → ℕ → ℕ → Instruction → Result Instruction
add_source tokens n place i =
    append_source (extract_source_type tokens n) (extract_immediate tokens n)
      (extract_source_index tokens n) place i

abbrev pub add_special_sw_source : List Text → Instruction → Result Instruction
add_special_sw_source tokens i =
    append_source (extract_special_sw_source_type tokens) (extract_special_sw_immediate tokens)
      (extract_special_sw_source_index tokens) 0 i

abbrev pub add_null : Instruction → Instruction
add_null i = record i {
  source_types = i.source_types ++ (SourceType.null ∷ []);
  source_indices = i.source_indices ++ (pos 0 ∷ []);
}

abbrev pub without_sources : Instruction → Instruction
without_sources i = record i {
  source_types = SourceType.null ∷ SourceType.null ∷ SourceType.null ∷ [];
  source_indices = pos 0 ∷ pos 0 ∷ pos 0 ∷ [];
}

abbrev pub is_ssw : Op → Bool
is_ssw Op.ssw = true
is_ssw _ = false

-- "Handle different numbers of sources and destinations", by the number of tokens.
unfoldable pub add_sources : Op → List Text → ℕ → Instruction → Result Instruction
add_sources op tokens (suc zero) i = ok (without_sources i)
add_sources op tokens (suc (suc zero)) i = ok (without_sources i)
add_sources op tokens (suc (suc (suc zero))) i =
    if is_ssw op
    then (do i₁ ← add_special_sw_source tokens i; i₂ ← add_source tokens 0 1 i₁; ok (add_null i₂))
    else (do i₁ ← add_source tokens 0 0 i; ok (add_null (add_null i₁)))
add_sources op tokens (suc (suc (suc (suc zero)))) i = do
  i₁ ← add_source tokens 0 0 i
  i₂ ← add_source tokens 1 1 i₁
  ok (add_null i₂)
add_sources op tokens (suc (suc (suc (suc (suc zero))))) i = do
  i₁ ← add_source tokens 0 0 i
  i₂ ← add_source tokens 1 1 i₁
  add_source tokens 2 2 i₂
add_sources op tokens n i = err assembly_exception

abbrev pub is_channel : DestinationType → Bool
is_channel DestinationType.channel = true
is_channel _ = false

-- The destination channels, one or several, which the trigger shares.
unfoldable pub add_channels : List Text → Trigger → Instruction → Result Instruction
add_channels tokens t i = do
  several ← destination_has_multiple_output_channels tokens
  (index, indices) ←
      (if several
        then (extract_destination_indices tokens >>= λ ks. ok (pos 0, ks))
        else (extract_destination_index tokens >>= λ k. ok (k, k ∷ [])))
  tag ← extract_destination_tag tokens
  ok (record i {
    destination_index = some index;
    trigger = some (record t { output_channel_indices = indices });
    output_channel_indices = indices;
    output_channel_tag = some tag;
  })

-- "Determine destination information for instructions with destinations, and update the trigger."
unfoldable pub add_destination : Op → List Text → Instruction → Result Instruction
unfolding add_channels
add_destination op tokens i =
    if ltb 1 (length tokens) && not (is_ssw op)
    then (do
      kind ← extract_destination_type tokens
      let i' = record i { destination_type = some kind }
      (if is_channel kind
          then (or_raise i'.trigger assembly_exception >>= λ t. add_channels tokens t i')
          else (extract_destination_index tokens >>= λ k.
              ok (record i' { destination_index = some k }))))
    else ok (record i { destination_type = some DestinationType.null; destination_index = none })

unfoldable pub add_datapath_instruction_from_string :
    (Text → Result Op) → Text → Instruction → Result Instruction
add_datapath_instruction_from_string eval_op s i = do
  tokens ← tokenize_datapath_string s
  op ← extract_op eval_op tokens
  i₁ ← add_sources op tokens (length tokens) (record i { op = some op })
  add_destination op tokens i₁

-- The body of the loop; `raise` of a string raises a TypeError.
abbrev pub dequeue_channel : Text → Result ℤ
dequeue_channel token = get_item (split (codes ",") token) 0 >>= λ s.
    raise_if (not (starts_with (codes "%i") s)) type_error >> int (drop 2 s)

unfoldable pub add_dequeue_input_channels_from_string : Text → Instruction → Result Instruction
add_dequeue_input_channels_from_string s i = do
  tokens ← tokenize_dequeue_input_channels_string s
  channels ← each dequeue_channel (tail tokens)
  ok (record i { input_channels_to_dequeue = i.input_channels_to_dequeue ++ channels })

unfoldable pub add_predicate_updates_from_bin_strings :
    Text → Text → Instruction → Result Instruction
add_predicate_updates_from_bin_strings original desired i =
    determine_predicates_to_update original desired >>= λ u.
    ok (record i { predicate_update_indices = u.0; predicate_update_values = u.1 })

unfoldable pub extract_predicate_bin_string : Text → Result Text
extract_predicate_bin_string s = do
  raise_if (not (starts_with (codes "set") (strip s))) assembly_exception
  let assignment = drop 3 (strip s)
  left ← get_item (split (codes "=") assignment) 0
  raise_if (not (equal (strip left) (codes "%p")) || contains (codes "==") assignment)
      assembly_exception
  right ← get_item (split (codes "=") assignment) 1
  ok (strip right)

unfoldable pub add_predicate_updates_from_strings : Text → Text → Instruction → Result Instruction
add_predicate_updates_from_strings condition update i = do
  original ← Trigger.extract_predicate_bin_string condition
  desired ← extract_predicate_bin_string update
  add_predicate_updates_from_bin_strings original desired i

-- `if field is not None: ...`
abbrev pub if_given {ℓ} : {A : Type ℓ} → Option Text → (Text → A → Result A) → A → Result A
if_given none step a = ok a
if_given (some s) step a = step s a

-- A condition or datapath string that is None has no `split`, and `in` refuses it with a TypeError.
unfoldable pub from_string : (Text → Result Op) → Text → Result Instruction
from_string eval_op s = do
  f ← from_instruction_string s
  condition ← or_raise f.trigger_predicate_conditions_string attribute_error
  t₁ ← add_predicate_conditions_from_string condition Trigger.init
  t₂ ←
      if_given f.trigger_input_channel_conditions_string add_input_channels_conditions_from_string
        t₁
  datapath ← or_raise f.datapath_instruction_string type_error
  i₁ ← add_datapath_instruction_from_string eval_op datapath (record init { trigger = some t₂ })
  i₂ ← if_given f.dequeue_input_channels_string add_dequeue_input_channels_from_string i₁
  if_given f.predicate_update_string (add_predicate_updates_from_strings condition) i₂
