-- ===== src/Assembly/Trigger.antt =====
-- The class Trigger of tools/assembly/instruction.py and its reading from text.
pub mod Printed
use tia_infrastructure.Prelude.{
  ℕ, Bool, not, ◌||◌, if◌then◌else◌, List, [], ◌∷◌, ◌++◌, Result, ok, err, assembly_exception,
  ◌>>=◌, ◌>>◌, raise_if, get_item, map,
}
use tia_infrastructure.Prelude.Int.{ℤ}
use tia_infrastructure.Prelude.Text.{
  Text, codes, equal, starts_with, drop, strip, split, last_part, int,
}
use tia_infrastructure.Assembly.{each, strip_each}
use tia_infrastructure.Assembly.Predicates.{trigger_parse_predicate_bin_string}

pub record Trigger : Type 0 where
  pub true_predicates : List ℕ
  pub false_predicates : List ℕ
  pub input_channels : List ℤ
  pub input_channel_tags : List ℤ
  pub input_channel_tag_booleans : List Bool
  pub output_channel_indices : List ℤ

abbrev pub init : Trigger
init = record {
  true_predicates = [];
  false_predicates = [];
  input_channels = [];
  input_channel_tags = [];
  input_channel_tag_booleans = [];
  output_channel_indices = [];
}

unfoldable pub extract_predicate_bin_string : Text → Result Text
extract_predicate_bin_string s = do
  left ← get_item (split (codes "==") s) 0
  raise_if (not (equal (strip left) (codes "%p"))) assembly_exception
  right ← get_item (split (codes "==") s) 1
  ok (strip right)

unfoldable pub add_predicate_conditions_from_bin_string : Text → Trigger → Result Trigger
add_predicate_conditions_from_bin_string s t = trigger_parse_predicate_bin_string s >>= λ r.
    ok (record t { true_predicates = r.0; false_predicates = r.1 })

unfoldable pub add_predicate_conditions_from_string : Text → Trigger → Result Trigger
add_predicate_conditions_from_string s t =
    extract_predicate_bin_string s >>= λ bits. add_predicate_conditions_from_bin_string bits t

-- The loop that checks the tokens and leaves out the empty ones.
abbrev pub channel_tokens : List Text → Result (List Text)
channel_tokens [] = ok []
channel_tokens (s ∷ ss) =
    let rest = channel_tokens ss in
    if equal s []
    then rest
    else if starts_with (codes "%i") s || starts_with (codes "!%i") s
    then (rest >>= λ tokens. ok (s ∷ tokens))
    else err assembly_exception

unfoldable pub tokenize_input_channel_string : Text → Result (List Text)
tokenize_input_channel_string s = channel_tokens (strip_each (split (codes ",") s))

-- The body of each loop.
abbrev pub input_channel : Text → Result ℤ
input_channel token = get_item (split (codes ".") token) 0 >>= λ left.
    int (drop 2 (last_part (split (codes "!") left)))

abbrev pub input_channel_tag : Text → Result ℤ
input_channel_tag token = get_item (split (codes ".") token) 1 >>= λ tag. int tag

unfoldable pub extract_input_channels : List Text → Result (List ℤ)
extract_input_channels tokens = each input_channel tokens

unfoldable pub extract_input_channel_tags : List Text → Result (List ℤ)
extract_input_channel_tags tokens = each input_channel_tag tokens

unfoldable pub extract_input_channel_tag_booleans : List Text → List Bool
extract_input_channel_tag_booleans tokens =
    map (λ token. not (starts_with (codes "!") token)) tokens

unfoldable pub add_input_channels_conditions_from_string : Text → Trigger → Result Trigger
add_input_channels_conditions_from_string s t = do
  tokens ← tokenize_input_channel_string s
  channels ← extract_input_channels tokens
  tags ← extract_input_channel_tags tokens
  ok (record t {
    input_channels = t.input_channels ++ channels;
    input_channel_tags = t.input_channel_tags ++ tags;
    input_channel_tag_booleans =
        t.input_channel_tag_booleans ++ extract_input_channel_tag_booleans tokens;
  })
