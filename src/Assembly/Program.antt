-- ===== src/Assembly/Program.antt =====
-- tools/assembly/program.py: the text of a processing element's program, as lines of register
-- initialization and as numbered instructions.
pub mod Numbers
use tia_infrastructure.Prelude.{
  ℕ, suc, Bool, true, false, ◌==◌, if◌then◌else◌, Option, none, some, List, [], ◌∷◌, ◌++◌, Result,
  ok, err, assembly_exception, index_error, ◌>>=◌,
}
use tia_infrastructure.Prelude.Text.{
  Text, codes, equal, starts_with, ends_with, contains, strip, split,
}
use tia_infrastructure.Isa.{Op}
use tia_infrastructure.Assembly.Build.{Instruction, from_string}

abbrev pub newline : Text
newline = codes "\n"

-- `"\n".join(lines)`
abbrev pub join_lines : List Text → Text
join_lines [] = []
join_lines (l ∷ []) = l
join_lines (l ∷ m ∷ ls) = l ++ newline ++ join_lines (m ∷ ls)

-- `line.strip().startswith("init")`
abbrev pub is_register_line : Text → Bool
is_register_line l = starts_with (codes "init") (strip l)

-- The loop over the lines: a register line leaves an empty line among the instructions.
abbrev pub sort_lines : List Text → List Text × List Text
sort_lines [] = ([], [])
sort_lines (l ∷ ls) =
    let (registers, instructions) = sort_lines ls in
    if is_register_line l then (l ∷ registers, [] ∷ instructions) else (registers, l ∷ instructions)

unfoldable pub split_into_register_and_instruction_strings : Text → Text × Text
split_into_register_and_instruction_strings s =
    let lines = sort_lines (split newline s) in (join_lines lines.0, join_lines lines.1)

-- `re.sub(r"#.*", "", s)`, inside a comment or not.
abbrev pub remove_comments : Bool → Text → Text
remove_comments inside [] = []
remove_comments inside (c ∷ s) =
    let comment = if inside then (if c == 10 then false else true) else c == b'#' in
    let rest = remove_comments comment s in if comment then rest else c ∷ rest

-- "Break the program into instruction strings": a line that ends in a colon waits for the next.
unfoldable pub instruction_strings : Option Text → List Text → Result (List Text)
instruction_strings none [] = ok []
instruction_strings (some l) [] = err index_error
instruction_strings (some l) (m ∷ ls) = instruction_strings none ls >>= λ ss. ok ((l ++ m) ∷ ss)
instruction_strings none (l ∷ ls) =
    let line = strip l in
    let waits = ends_with b':' line in
    let rest = instruction_strings (if waits then some l else none) ls in
    if equal line []
    then rest
    else if waits
    then rest
    else if contains (codes ":") line
    then (rest >>= λ ss. ok (l ∷ ss))
    else err assembly_exception

-- `except Exception as e: raise AssemblyException(...)`
abbrev pub refuse_any {ℓ} : {A : Type ℓ} → Result A → Result A
refuse_any (err e) = err assembly_exception
refuse_any (ok a) = ok a

-- "Build the list of instructions": each with its number.
unfoldable pub build_instructions :
    (Text → Result Op) → ℕ → List Text → Result (List (ℕ × Instruction))
build_instructions eval_op n [] = ok []
build_instructions eval_op n (s ∷ ss) = do
  i ← refuse_any (from_string eval_op s)
  rest ← build_instructions eval_op (suc n) ss
  ok ((n, i) ∷ rest)

unfoldable pub convert_processing_element_instructions_string_to_instructions :
    (Text → Result Op) → Text → Result (List (ℕ × Instruction))
convert_processing_element_instructions_string_to_instructions eval_op s =
    instruction_strings none (split newline (remove_comments false s)) >>= λ ss.
    build_instructions eval_op 0 ss
