-- ===== src/Assembly/Datapath.antt =====
-- The tokens of a datapath statement in tools/assembly/instruction.py, and what each one names.
use tia_infrastructure.Prelude.{
  ℕ, suc, ◌+◌, Bool, true, false, not, ◌&&◌, ◌||◌, ◌==◌, ltb, if◌then◌else◌, Option, none, some,
  List, [], ◌∷◌, ◌++◌, length, Result, ok, err, assembly_exception, attribute_error, value_error,
  ◌>>=◌, ◌>>◌, raise_if, get_item,
}
use tia_infrastructure.Prelude.Int.{ℤ, pos, negsuc}
use tia_infrastructure.Prelude.Text.{
  Text, codes, starts_with, contains, drop, position, split, int, int_hexadecimal,
}
use tia_infrastructure.Isa.{Op, SourceType, DestinationType}
use tia_infrastructure.Assembly.{each, strip_each, refuse_value}

abbrev pub opens : Text → Bool
opens s = contains (codes "{") s

abbrev pub closes : Text → Bool
closes s = contains (codes "}") s

-- "Reassemble the multiple output channel token", with the enumeration index and `acc`.
abbrev pub reassemble : ℕ → Option Text → List Text → Result (List Text)
reassemble i acc [] = ok []
reassemble i none (s ∷ ss) =
    let rest = reassemble (suc i) (if opens s then some s else none) ss in
    if opens s
    then (raise_if (not (i == 0)) assembly_exception >> rest)
    else (rest >>= λ tokens. ok (s ∷ tokens))
reassemble i (some acc) (s ∷ ss) =
    let acc' = acc ++ codes "," ++ s in
    let rest = reassemble (suc i) (some acc') ss in
    if opens acc' && closes acc'
    then (if ltb (position b'{' acc') (position b'}' acc')
        then ok (acc' ∷ ss)
        else err assembly_exception)
    else rest

-- The loop that checks the tokens.
abbrev pub check_tokens : (Text → Bool) → List Text → Result (List Text)
check_tokens good [] = ok []
check_tokens good (s ∷ ss) =
    if good s then (check_tokens good ss >>= λ tokens. ok (s ∷ tokens)) else err assembly_exception

-- `xs[1:]`
abbrev pub tail : List Text → List Text
tail [] = []
tail (s ∷ ss) = ss

abbrev pub is_operand : Text → Bool
is_operand s = starts_with (codes "%") s || starts_with (codes "$") s

-- Two of its checks make an exception that they do not raise.
unfoldable pub tokenize_datapath_string : Text → Result (List Text)
tokenize_datapath_string s = do
  raise_if (opens s && not (closes s)) assembly_exception
  let parts = strip_each (split (codes ",") s)
  parts' ← (if opens s then reassemble 0 none parts else ok parts)
  first ← get_item parts' 0
  let words = split (codes " ") first
  raise_if (ltb 2 (length words)) assembly_exception
  op ← get_item words 0
  operands ← check_tokens is_operand (tail (words ++ tail parts'))
  ok (op ∷ operands)

abbrev no_attribute : Result Op → Result Op
no_attribute (err attribute_error) = err assembly_exception
no_attribute r = r

-- `eval(f"Op.{op_token}")` is a parameter, for tokens for which it gives a member of `Op` or raises an
-- exception of `Error`. A token that names another attribute of the class, such as `__members__`, or
-- that leaves the interpreter, is not modelled.
unfoldable pub extract_op : (Text → Result Op) → List Text → Result Op
extract_op eval_op tokens = get_item tokens 0 >>= λ token. no_attribute (eval_op token)

abbrev pub source_type : Text → Result SourceType
source_type s =
    if starts_with (codes "$") s
    then ok SourceType.immediate
    else if starts_with (codes "%i") s
    then ok SourceType.channel
    else if starts_with (codes "%r") s
    then ok SourceType.register
    else err assembly_exception

abbrev pub source_index : Text → Result ℤ
source_index s = do
  raise_if (ltb (length s) 3 || not (starts_with (codes "%") s)) assembly_exception
  refuse_value (int (drop 2 s))

abbrev hexadecimal_if_value : Text → Result ℤ → Result ℤ
hexadecimal_if_value s (err value_error) = refuse_value (int_hexadecimal s)
hexadecimal_if_value s r = r

abbrev pub immediate_value : Text → Result ℤ
immediate_value s = do
  raise_if (ltb (length s) 2 || not (starts_with (codes "$") s)) assembly_exception
  hexadecimal_if_value (drop 1 s) (int (drop 1 s))

unfoldable pub extract_special_sw_source_type : List Text → Result SourceType
extract_special_sw_source_type tokens = get_item tokens 1 >>= λ s. source_type s

unfoldable pub extract_source_type : List Text → ℕ → Result SourceType
extract_source_type tokens n = get_item tokens (n + 2) >>= λ s. source_type s

unfoldable pub extract_special_sw_source_index : List Text → Result ℤ
extract_special_sw_source_index tokens = get_item tokens 1 >>= λ s. source_index s

unfoldable pub extract_source_index : List Text → ℕ → Result ℤ
extract_source_index tokens n = get_item tokens (n + 2) >>= λ s. source_index s

unfoldable pub extract_special_sw_immediate : List Text → Result ℤ
extract_special_sw_immediate tokens = get_item tokens 1 >>= λ s. immediate_value s

unfoldable pub extract_immediate : List Text → ℕ → Result ℤ
extract_immediate tokens n = get_item tokens (n + 2) >>= λ s. immediate_value s

unfoldable pub destination_has_multiple_output_channels : List Text → Result Bool
destination_has_multiple_output_channels tokens =
    get_item tokens 1 >>= λ s. ok (starts_with (codes "%o") s && opens s && closes s)

unfoldable pub extract_destination_type : List Text → Result DestinationType
extract_destination_type tokens = get_item tokens 1 >>= λ s.
    if starts_with (codes "%o") s
    then ok DestinationType.channel
    else if starts_with (codes "%r") s
    then ok DestinationType.register
    else if starts_with (codes "%p") s
    then ok DestinationType.predicate
    else err assembly_exception

unfoldable pub extract_destination_index : List Text → Result ℤ
extract_destination_index tokens = do
  token ← get_item tokens 1
  destination ← get_item (split (codes ".") token) 0
  source_index destination

-- "Check syntax", with the enumeration index.
abbrev pub check_braces : ℕ → List Text → Result (Unit {0})
check_braces i [] = ok tt
check_braces i (s ∷ ss) =
    raise_if ((opens s || closes s) && not (i == 1)) assembly_exception >> check_braces (suc i) ss

abbrev pub equal_ℤ : ℤ → ℤ → Bool
equal_ℤ (pos m) (pos n) = m == n
equal_ℤ (negsuc m) (negsuc n) = m == n
equal_ℤ (pos m) (negsuc n) = false
equal_ℤ (negsuc m) (pos n) = false

abbrev pub in_list : ℤ → List ℤ → Bool
in_list x [] = false
in_list x (y ∷ ys) = equal_ℤ x y || in_list x ys

-- `len(set(xs)) == len(xs)`
abbrev pub all_unique : List ℤ → Bool
all_unique [] = true
all_unique (x ∷ xs) = not (in_list x xs) && all_unique xs

unfoldable pub extract_destination_indices : List Text → Result (List ℤ)
extract_destination_indices tokens = do
  check_braces 0 tokens
  token ← get_item tokens 1
  right ← get_item (split (codes "{") token) 1
  indices_string ← get_item (split (codes "}") right) 0
  indices ← each (λ s. refuse_value (int s)) (split (codes ",") indices_string)
  raise_if (not (all_unique indices)) assembly_exception
  ok indices

unfoldable pub extract_destination_tag : List Text → Result ℤ
extract_destination_tag tokens = do
  token ← get_item tokens 1
  raise_if (not (length (split (codes ".") token) == 2)) assembly_exception
  tag ← get_item (split (codes ".") token) 1
  int tag

abbrev pub has_space : Text → Bool
has_space s = contains (codes " ") s

unfoldable pub tokenize_dequeue_input_channels_string : Text → Result (List Text)
tokenize_dequeue_input_channels_string s = do
  let parts = strip_each (split (codes ",") s)
  first ← get_item parts 0
  let words = split (codes " ") first ++ tail parts
  checked ← check_tokens (λ t. not (has_space t)) words
  deq ← get_item checked 0
  channels ← check_tokens (λ t. starts_with (codes "%i") t) (tail checked)
  ok (deq ∷ channels)
