-- ===== src/Prelude/Text/Decimal.antt =====
-- Python's `str` of a natural number: its decimal digits, which `int` reads back.
use tia_infrastructure.Prelude.{
  ℕ, zero, suc, ◌+◌, ◌*◌, ◌/◌, ◌%◌, ◌<◌, ◌≤◌, ◌≡◌, refl, ap, ◌∙◌, ltb, List, [], ◌∷◌, ◌++◌, All,
  Bool-cases, ltb→lt, ok, arith, inl, inr,
}
use tia_infrastructure.Prelude.Int.{pos}
use tia_infrastructure.Prelude.Text.{decimal_digits, decimal, int}
use tia_infrastructure.Prelude.Text.Parts.{value_from, value, IsNumeral, All-append, int-numeral}

value_from-append :
    (a d : ℕ) (ds : List ℕ) → value_from a (ds ++ (d ∷ [])) ≡ value_from a ds * 10 + d
value_from-append a d [] = refl
value_from-append a d (e ∷ ds) = value_from-append (a * 10 + e) d ds

pub decimal_digits-lt : (fuel n : ℕ) → All (λ d. d < 10) (decimal_digits fuel n)
decimal_digits-lt zero n = tt
decimal_digits-lt (suc fuel) n = elim (Bool-cases (ltb n 10)) [
  | inl e ↦ rw e (ltb→lt n 10 e, tt)
  | inr e ↦ rw e (
      All-append (λ d. d < 10) (decimal_digits fuel (n / 10)) ((n % 10) ∷ [])
        (decimal_digits-lt fuel (n / 10)) (omega arith, tt))
]

pub value-decimal_digits : (fuel n : ℕ) → n < fuel → value (decimal_digits fuel n) ≡ n
value-decimal_digits zero n h = absurd (omega (arith, h))
value-decimal_digits (suc fuel) n h = elim (Bool-cases (ltb n 10)) [
  | inl e ↦ rw e (omega arith)
  | inr e ↦
      let big : 10 ≤ n = ground (arith, e) in
      let rest = value-decimal_digits fuel (n / 10) (omega (arith, h, big)) in
      rw (e, value_from-append 0 (n % 10) (decimal_digits fuel (n / 10)), rest) (omega arith)
]

append-IsNumeral :
    (ds : List ℕ) (d : ℕ) → All (λ d. d < 10) ds → d < 10 → IsNumeral (ds ++ (d ∷ []))
append-IsNumeral [] d h l = (l, tt)
append-IsNumeral (e ∷ ds) d (k, h) l = (k, All-append (λ d. d < 10) ds (d ∷ []) h (l, tt))

pub decimal_digits-IsNumeral : (n : ℕ) → IsNumeral (decimal_digits (suc n) n)
decimal_digits-IsNumeral n = elim (Bool-cases (ltb n 10)) [
  | inl e ↦ rw e (ltb→lt n 10 e, tt)
  | inr e ↦ rw e (
      append-IsNumeral (decimal_digits n (n / 10)) (n % 10) (decimal_digits-lt n (n / 10))
        (omega arith))
]

-- What `str` writes of a natural number, `int` reads back.
pub int-decimal : (n : ℕ) → int (decimal n) ≡ ok (pos n)
int-decimal n =
    int-numeral (decimal_digits (suc n) n) (decimal_digits-IsNumeral n)
    ∙ ap (λ v. ok (pos v)) (value-decimal_digits (suc n) n (omega arith))
