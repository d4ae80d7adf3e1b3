-- ===== src/Assembly/Registers/Written.antt =====
-- Register initialization that is written out is read back by tools/assembly/program.py.
use mathlib.Core.List.{append_assoc}
use tia_infrastructure.Prelude.{
  ℕ, suc, ◌<◌, ◌≡◌, refl, ap, ◌∙◌, Bool, true, false, some, List, [], ◌∷◌, ◌++◌, map, length, All,
  All-map, set, length-set, get_elem?, get_elem?-lt, replicate, length-replicate, Result, ok, ◌>>=◌,
  get_item, arith,
}
use tia_infrastructure.Prelude.Int.{ℤ, pos}
use tia_infrastructure.Prelude.Text.{Text, codes, equal, strip, split, decimal, decimal_digits}
use tia_infrastructure.Prelude.Text.Parts.{Without, split-Without, split-append}
use tia_infrastructure.Prelude.Text.Decimal.{decimal_digits-IsNumeral, value-decimal_digits}
use tia_infrastructure.Parameters.{CoreParameters}
use tia_infrastructure.Assembly.Program.{newline, join_lines}
use tia_infrastructure.Assembly.Registers.{
  extract_register_initialization_data_from_statement, initialize,
  convert_register_initialization_statements_to_register_values,
}
use tia_infrastructure.Assembly.Registers.Scan.{
  sign, signed_value, strip-statement, statement-Without, extract-statement,
}

-- An initialization of a register, as it is written: its number, whether a sign stands before the value,
-- and the value.
pub record Init : Type 0 where
  pub index : ℕ
  pub negative : Bool
  pub magnitude : ℕ

abbrev pub written : Init → Text
written i =
    codes "init %r"
    ++ (decimal i.index ++ (codes ", $" ++ (sign i.negative ++ (decimal i.magnitude ++ codes ";"))))

abbrev pub init_value : Init → ℤ
init_value i = signed_value i.negative i.magnitude

extract-written :
    (i : Init)
    → extract_register_initialization_data_from_statement (written i) ≡ ok (i.index, init_value i)
extract-written i =
    extract-statement (decimal_digits (suc i.index) i.index)
      (decimal_digits (suc i.magnitude) i.magnitude) (decimal_digits-IsNumeral i.index)
      (decimal_digits-IsNumeral i.magnitude) i.negative
    ∙ rw (
      value-decimal_digits (suc i.index) i.index (omega arith),
      value-decimal_digits (suc i.magnitude) i.magnitude (omega arith),
    )

strip-written : (i : Init) → strip (written i) ≡ written i
strip-written i =
    strip-statement (decimal_digits (suc i.index) i.index)
      (decimal_digits (suc i.magnitude) i.magnitude) (decimal_digits-IsNumeral i.index)
      (decimal_digits-IsNumeral i.magnitude) i.negative

written-Without : (i : Init) → Without 10 (written i)
written-Without i =
    statement-Without (decimal_digits (suc i.index) i.index)
      (decimal_digits (suc i.magnitude) i.magnitude) (decimal_digits-IsNumeral i.index)
      (decimal_digits-IsNumeral i.magnitude) 10 i.negative refl refl refl refl
      (λ d l e. omega (arith, e))

-- The values after the initializations, in their order.
abbrev pub assigned : List Init → List ℤ → List ℤ
assigned [] values = values
assigned (i ∷ is) values = assigned is (set values i.index (init_value i))

initialize-cons :
    (s : Text) (ss : List Text) (values : List ℤ) (r : ℕ × ℤ) (old : ℤ)
    → equal (strip s) [] ≡ false
    → extract_register_initialization_data_from_statement s ≡ ok r
    → get_elem? values r.0 ≡ some old
    → initialize (s ∷ ss) values ≡ initialize ss (set values r.0 r.1)
unfolding initialize
initialize-cons s ss values r old h e f =
    ap
      (λ (b : Bool). elim b as (λ _. Result (List ℤ)) [
        | true ↦ initialize ss values
        | false ↦ extract_register_initialization_data_from_statement s >>= λ r.
            get_item values r.0 >>= λ old. initialize ss (set values r.0 r.1)
      ])
      h
    ∙ rw (e, f)

initialize-written :
    (is : List Init) (values : List ℤ)
    → All (λ i. i.index < length values) is
    → initialize (map written is) values ≡ ok (assigned is values)
unfolding initialize
initialize-written [] values h = refl
initialize-written (i ∷ is) values (l, h) =
    let (old, e) = get_elem?-lt values i.index l in
    let nonblank : equal (strip (written i)) [] ≡ false = ap (λ t. equal t []) (strip-written i) in
    let rest =
      initialize-written is (set values i.index (init_value i))
        (All-map (λ j m. omega (arith, m, length-set values i.index (init_value i))) is h) in
    initialize-cons (written i) (map written is) values (i.index, init_value i) old nonblank
      (extract-written i) e
    ∙ rest

split-join_lines :
    (l : Text) (ls : List Text)
    → All (Without 10) (l ∷ ls)
    → split newline (join_lines (l ∷ ls)) ≡ l ∷ ls
split-join_lines l [] h = split-Without 10 l h.0
split-join_lines l (m ∷ ls) h =
    let e : split newline (join_lines (l ∷ m ∷ ls)) ≡ l ∷ split newline (join_lines (m ∷ ls)) =
      ap (split newline) (append_assoc l newline (join_lines (m ∷ ls)))
      ∙ split-append 10 l (join_lines (m ∷ ls)) h.0 in
    e ∙ ap (λ ms. l ∷ ms) (split-join_lines m ls h.1)

lines-Without : (is : List Init) → All (Without 10) (map written is)
lines-Without [] = tt
lines-Without (i ∷ is) = (written-Without i, lines-Without is)

-- Initializations of registers of the core that are written out with decimal numerals, one on a line,
-- are read as the values that they assign in their order, from all zeros.
pub convert-written :
    (cp : CoreParameters) (is : List Init)
    → All (λ i. i.index < cp.num_registers) is
    → convert_register_initialization_statements_to_register_values cp (join_lines (map written is))
      ≡ ok (assigned is (replicate cp.num_registers (pos 0)))
unfolding convert_register_initialization_statements_to_register_values initialize
convert-written cp [] h = refl
convert-written cp (i ∷ is) h =
    rw (split-join_lines (written i) (map written is) (lines-Without (i ∷ is))) (
      initialize-written (i ∷ is) (replicate cp.num_registers (pos 0))
        (All-map (λ j m. omega (arith, m, length-replicate cp.num_registers (pos 0))) (i ∷ is) h))
