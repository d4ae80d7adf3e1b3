-- ===== src/Assembly/Registers.antt =====
-- tools/assembly/program.py: the register initialization of a program, its construction from a label
-- and a text, and its validation. The regular expressions are scanned from the left: none of them can
-- match in two ways.
pub mod Scan
pub mod Written
pub mod Errors
use tia_infrastructure.Prelude.{
  ℕ, zero, suc, ◌+◌, ◌==◌, Bool, true, false, ◌&&◌, leb, ltb, not, if◌then◌else◌, Option, none,
  some, List, [], ◌∷◌, ◌++◌, set, length, replicate, Result, ok, err, assembly_exception, ◌>>=◌,
  ◌>>◌, raise_if, or_raise, get_item,
}
use tia_infrastructure.Prelude.Fields.{bit_length}
use tia_infrastructure.Prelude.Int.{ℤ, pos, negsuc}
use tia_infrastructure.Prelude.Text.{
  Text, codes, equal, starts_with, contains, drop, is_space, strip, strip_left, split, digits, int,
  int_hexadecimal,
}
use tia_infrastructure.Isa.{Op}
use tia_infrastructure.Parameters.{CoreParameters}
use tia_infrastructure.Assembly.{refuse_value}
use tia_infrastructure.Assembly.Build.{Instruction}
use tia_infrastructure.Assembly.Program.{
  newline, remove_comments, split_into_register_and_instruction_strings,
  convert_processing_element_instructions_string_to_instructions,
}

-- `\d`
abbrev pub is_digit : ℕ → Bool
is_digit c = leb 48 c && leb c 57

abbrev pub is_dash : ℕ → Bool
is_dash c = c == b'-'

-- The longest run of such characters, and what follows it.
abbrev pub run_of : (ℕ → Bool) → Text → Text × Text
run_of test [] = ([], [])
run_of test (c ∷ s) =
    let (run, rest) = run_of test s in if test c then (c ∷ run, rest) else ([], c ∷ s)

-- A part that must come next.
abbrev pub expect : Text → Text → Option Text
expect part s = if starts_with part s then some (drop (length part) s) else none

abbrev pub nonempty : Text × Text → Option (Text × Text)
nonempty ([], rest) = none
nonempty (c ∷ run, rest) = some (c ∷ run, rest)

infixl 5 ◌and_then◌
abbrev pub ◌and_then◌ {ℓ κ} : {A : Type ℓ} {B : Type κ} → Option A → (A → Option B) → Option B
none and_then next = none
some a and_then next = next a

-- `init\s*%r(\d+)\s*,`: the digits of the register, and what follows the comma.
unfoldable pub register_index : Text → Option (Text × Text)
register_index s = expect (codes "init") s and_then λ s₁.
    expect (codes "%r") (strip_left is_space s₁) and_then λ s₂.
    nonempty (run_of is_digit s₂) and_then λ found.
    expect (codes ",") (strip_left is_space found.1) and_then λ s₃. some (found.0, s₃)

-- `\s*\$(-*\d*|-*0x\d*);`: the number as text.
unfoldable pub register_data : Text → Option Text
register_data s = expect (codes "$") (strip_left is_space s) and_then λ s₁.
    let (dashes, s₂) = run_of is_dash s₁ in
    let (decimals, s₃) = run_of is_digit s₂ in
    if starts_with (codes ";") s₃
    then some (dashes ++ decimals)
    else (expect (codes "0x") s₂ and_then λ s₄.
        let (hexadecimals, s₅) = run_of is_digit s₄ in
        if starts_with (codes ";") s₅ then some (dashes ++ codes "0x" ++ hexadecimals) else none)

-- The second pattern repeats the first. `int` of a run of digits is a natural number.
unfoldable pub extract_register_initialization_data_from_statement : Text → Result (ℕ × ℤ)
unfolding register_index register_data
extract_register_initialization_data_from_statement s =
    or_raise (register_index (strip (remove_comments false s))) assembly_exception >>= λ found.
    or_raise (digits 10 0 false found.0) assembly_exception >>= λ index.
    or_raise (register_data found.1) assembly_exception >>= λ data_string.
    refuse_value
      (if contains (codes "0x") data_string then int_hexadecimal data_string else int data_string)
    >>= λ value. ok (index, value)

-- The loop over the statements.
unfoldable pub initialize : List Text → List ℤ → Result (List ℤ)
initialize [] values = ok values
initialize (s ∷ ss) values = elim (equal (strip s) []) [
  | true ↦ initialize ss values
  | false ↦ extract_register_initialization_data_from_statement s >>= λ r.
      get_item values r.0 >>= λ old. initialize ss (set values r.0 r.1)
]

unfoldable pub convert_register_initialization_statements_to_register_values :
    CoreParameters → Text → Result (List ℤ)
convert_register_initialization_statements_to_register_values cp s =
    initialize (split newline s) (replicate cp.num_registers (pos 0))

-- The parameters of the core are left out.
pub record ProcessingElementProgram : Type 0 where
  pub label : Text
  pub register_values : List ℤ
  pub instructions : List (ℕ × Instruction)

-- An `AssemblyException` is raised again as one.
unfoldable pub from_label_and_string :
    (Text → Result Op) → CoreParameters → Text → Text → Result ProcessingElementProgram
unfolding split_into_register_and_instruction_strings
from_label_and_string eval_op cp label s =
    let (registers, instructions) = split_into_register_and_instruction_strings s in
    convert_register_initialization_statements_to_register_values cp registers >>= λ values.
    convert_processing_element_instructions_string_to_instructions eval_op instructions >>= λ is.
    ok (record { label = label; register_values = values; instructions = is })

-- The bits that a value takes, with one for a sign.
unfoldable pub effective_bit_length : ℤ → ℕ
effective_bit_length (pos n) = bit_length n
effective_bit_length (negsuc n) = bit_length (suc n) + 1

-- The loop over the register values; `Instruction.validate` is empty.
unfoldable pub validate : CoreParameters → List ℤ → Result (Unit {0})
validate cp [] = ok tt
validate cp (v ∷ vs) =
    raise_if (ltb cp.device_word_width (effective_bit_length v)) assembly_exception
    >> validate cp vs
