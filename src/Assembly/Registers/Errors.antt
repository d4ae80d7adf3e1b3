-- ===== src/Assembly/Registers/Errors.antt =====
-- The construction and the validation of a program of tools/assembly/program.py, whatever its text.
use native.Mathlib.Nat.{pow-suc}
use tia_infrastructure.Prelude.{
  ℕ, zero, suc, ◌*◌, ◌^◌, ◌≤◌, ◌<◌, ◌≡◌, ◌↔◌, ◌⊎◌, refl, sym, ◌∙◌, inl, inr, Bool, true, false, ltb,
  ltb→lt, Option, none, some, List, [], ◌∷◌, length, All, set, length-set, length-replicate,
  replicate, Result, ok, err, assembly_exception, index_error, value_error, ◌>>=◌, get_item,
  get_elem?, or_raise, if◌then◌else◌, Bool-cases, arith,
}
use tia_infrastructure.Prelude.Fields.{bit_length-le}
use tia_infrastructure.Prelude.Int.{ℤ, pos, negsuc}
use tia_infrastructure.Prelude.Text.{
  Text, codes, equal, contains, strip, split, digits, int, int_hexadecimal,
}
use tia_infrastructure.Isa.{Op}
use tia_infrastructure.Parameters.{CoreParameters}
use tia_infrastructure.Assembly.{refuse_value}
use tia_infrastructure.Assembly.Program.{
  newline, remove_comments, split_into_register_and_instruction_strings,
  convert_processing_element_instructions_string_to_instructions,
}
use tia_infrastructure.Assembly.Program.Numbers.{Raises, Raises-bind, Numbered, convert-Numbered}
use tia_infrastructure.Assembly.Registers.{
  register_index, register_data, extract_register_initialization_data_from_statement, initialize,
  convert_register_initialization_statements_to_register_values, ProcessingElementProgram,
  from_label_and_string, effective_bit_length, validate,
}

abbrev Anything {ℓ} : {A : Type ℓ} → A → Type 0
Anything a = Unit

or_raise-Raises {ℓ} : {A : Type ℓ} (o : Option A) → Raises Anything (or_raise o assembly_exception)
or_raise-Raises none = inl refl
or_raise-Raises (some a) = tt

index-Raises {ℓ} : {A : Type ℓ} (o : Option A) → Raises Anything (or_raise o index_error)
index-Raises none = inr refl
index-Raises (some a) = tt

read-Raises : (o : Option ℤ) → Raises Anything (refuse_value (or_raise o value_error))
read-Raises none = inl refl
read-Raises (some v) = tt

refuse_value-Raises :
    (b : Bool) (s t : Text)
    → Raises Anything (refuse_value (if b then int_hexadecimal s else int t))
refuse_value-Raises true s t = read-Raises _
refuse_value-Raises false s t = read-Raises _

extract-Raises :
    (s : Text) → Raises Anything (extract_register_initialization_data_from_statement s)
unfolding extract_register_initialization_data_from_statement
extract-Raises s =
    Raises-bind Anything Anything
      (or_raise (register_index (strip (remove_comments false s))) assembly_exception) _
      (or_raise-Raises (register_index (strip (remove_comments false s))))
      λ found _.
        Raises-bind Anything Anything (or_raise (digits 10 0 false found.0) assembly_exception) _
          (or_raise-Raises (digits 10 0 false found.0))
          λ index _.
            Raises-bind Anything Anything (or_raise (register_data found.1) assembly_exception) _
              (or_raise-Raises (register_data found.1))
              λ t _.
                Raises-bind Anything Anything _ (λ value. ok (index, value))
                  (refuse_value-Raises (contains (codes "0x") t) t t) λ value _. tt

-- As many values as there are registers.
abbrev HasLength : ℕ → List ℤ → Type 0
HasLength n values = length values ≡ n

initialize-Raises :
    (n : ℕ) (ss : List Text) (values : List ℤ)
    → HasLength n values
    → Raises (HasLength n) (initialize ss values)
unfolding initialize
initialize-Raises n [] values h = h
initialize-Raises n (s ∷ ss) values h =
    by_line (equal (strip s) []) (initialize-Raises n ss values h)
      λ r. initialize-Raises n ss (set values r.0 r.1) (length-set values r.0 r.1 ∙ h)
  where
    by_line :
        (empty : Bool)
        → Raises (HasLength n) (initialize ss values)
        → ((r : ℕ × ℤ) → Raises (HasLength n) (initialize ss (set values r.0 r.1)))
        → Raises (HasLength n) (elim empty [
          | true ↦ initialize ss values
          | false ↦ extract_register_initialization_data_from_statement s >>= λ r.
              get_item values r.0 >>= λ old. initialize ss (set values r.0 r.1)
        ])
    by_line true k next = k
    by_line false k next =
        Raises-bind Anything (HasLength n) (extract_register_initialization_data_from_statement s) _
          (extract-Raises s)
          λ r _.
            Raises-bind Anything (HasLength n) (get_item values r.0)
              (λ old. initialize ss (set values r.0 r.1)) (index-Raises (get_elem? values r.0))
              λ old _. next r

-- A program with a value for each register, and instructions that are complete and numbered.
pub record IsProgram (cp : CoreParameters) (label : Text) (p : ProcessingElementProgram)
    : Type 0 where
  pub same_label : p.label ≡ label
  pub values : length p.register_values ≡ cp.num_registers
  pub numbered : Numbered 0 p.instructions

-- Whatever the text, the construction of a program gives one with its label, a value for each
-- register, and instructions that are complete and numbered from 0 in their order; or it raises an
-- AssemblyException or an IndexError.
pub from_label_and_string-IsProgram :
    (eval_op : Text → Result Op) (cp : CoreParameters) (label s : Text)
    → Raises (IsProgram cp label) (from_label_and_string eval_op cp label s)
unfolding from_label_and_string convert_register_initialization_statements_to_register_values
from_label_and_string-IsProgram eval_op cp label s =
    let parts = split_into_register_and_instruction_strings s in
    Raises-bind (HasLength cp.num_registers) (IsProgram cp label)
      (initialize (split newline parts.0) (replicate cp.num_registers (pos 0))) _
      (initialize-Raises cp.num_registers (split newline parts.0)
        (replicate cp.num_registers (pos 0)) (length-replicate cp.num_registers (pos 0)))
      λ values h.
        Raises-bind (Numbered 0) (IsProgram cp label)
          (convert_processing_element_instructions_string_to_instructions eval_op parts.1) _
          (convert-Numbered eval_op parts.1)
          λ is k. record { same_label = refl; values = h; numbered = k }

-- The values that the width of a word holds: unsigned, or negative and above the lowest signed one.
abbrev pub InRange : ℕ → ℤ → Type 0
InRange w (pos n) = n < 2 ^ w
InRange w (negsuc n) = 2 * suc n < 2 ^ w

effective_bit_length-le : (w : ℕ) (v : ℤ) → (effective_bit_length v ≤ w) ↔ InRange w v
unfolding effective_bit_length
effective_bit_length-le w (pos n) = bit_length-le n w
effective_bit_length-le zero (negsuc n) = ground arith
effective_bit_length-le (suc w) (negsuc n) = ground (arith, bit_length-le (suc n) w, pow-suc 2 w)

-- The validation accepts just the register values in range, and raises an AssemblyException at others.
pub validate_iff :
    (cp : CoreParameters) (vs : List ℤ)
    → ((validate cp vs ≡ ok tt) ↔ All (InRange cp.device_word_width) vs)
      × ((validate cp vs ≡ ok tt) ⊎ (validate cp vs ≡ err assembly_exception))
unfolding validate
validate_iff cp [] = ((λ e. tt, λ h. refl), inl refl)
validate_iff cp (v ∷ vs) =
    let (rest, either) = validate_iff cp vs in
    let fits = effective_bit_length-le cp.device_word_width v in
    elim (Bool-cases (ltb cp.device_word_width (effective_bit_length v))) [
      | inl e ↦
          let raised : validate cp (v ∷ vs) ≡ err assembly_exception = rw e in
          let wide : cp.device_word_width < effective_bit_length v =
            ltb→lt cp.device_word_width (effective_bit_length v) e in
          ((λ h. cc, λ h. absurd (omega (arith, wide, fits.1 h.0))), inr raised)
      | inr e ↦
          let same : validate cp (v ∷ vs) ≡ validate cp vs = rw e in
          let narrow : effective_bit_length v ≤ cp.device_word_width = ground (arith, e) in
          (
            (λ h. (fits.0 narrow, rest.0 (sym same ∙ h)), λ h. same ∙ rest.1 h.1),
            elim either [ inl h ↦ inl (same ∙ h) | inr h ↦ inr (same ∙ h) ],
          )
    ]
