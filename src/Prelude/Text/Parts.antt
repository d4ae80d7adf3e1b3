-- ===== src/Prelude/Text/Parts.antt =====
-- How texts that are put together from parts split, strip and read as numbers.
use tia_infrastructure.Prelude.{
  ℕ, ◌+◌, ◌*◌, ◌<◌, ◌≡◌, ◌≢◌, refl, ap, ◌∙◌, Bool, true, false, not, ◌&&◌, Bool-cases, inl, inr,
  sym, ◌==◌, Option, none, some, List, [], ◌∷◌, ◌++◌, map, All, ok, or_raise, value_error, arith,
}
use tia_infrastructure.Prelude.Int.{ℤ, pos}
use tia_infrastructure.Prelude.Text.{
  Text, is_blank, strip_left, strip_right, strip_of, split, digit_step, digits, int,
}

-- The text does not have the character.
abbrev pub Without : ℕ → Text → Type 0
Without c s = All (λ x. x ≢ c) s

-- The test, for closed texts.
abbrev pub lacks : ℕ → Text → Bool
lacks c [] = true
lacks c (x ∷ s) = not (x == c) && lacks c s

pub Without-of_lacks : (c : ℕ) (s : Text) → lacks c s ≡ true → Without c s
Without-of_lacks c [] h = tt
Without-of_lacks c (x ∷ s) h = elim (Bool-cases (x == c)) [
  | inl e ↦ let f : lacks c (x ∷ s) ≡ false = rw e in cc
  | inr e ↦
      let f : lacks c (x ∷ s) ≡ lacks c s = rw e in
      ((λ g. ground (arith, e, g)), Without-of_lacks c s (sym f ∙ h))
]

pub All-append {ℓ κ} :
    {A : Type ℓ} (P : A → Type κ) (xs ys : List A) → All P xs → All P ys → All P (xs ++ ys)
All-append P [] ys h k = k
All-append P (x ∷ xs) ys (p, h) k = (p, All-append P xs ys h k)

pub split-Without : (c : ℕ) (s : Text) → Without c s → split (c ∷ []) s ≡ s ∷ []
split-Without c [] h = refl
split-Without c (x ∷ s) (n, h) =
    let e : (c == x) ≡ false = ground arith in rw (e, split-Without c s h)

pub split-append :
    (c : ℕ) (s t : Text) → Without c s → split (c ∷ []) (s ++ (c ∷ t)) ≡ s ∷ split (c ∷ []) t
split-append c [] t h = let e : (c == c) ≡ true = ground arith in rw e
split-append c (x ∷ s) t (n, h) =
    let e : (c == x) ≡ false = ground arith in rw (e, split-append c s t h)

module _ (space : ℕ → Bool) where
  -- The text has no white space.
  abbrev pub Solid : Text → Type 0
  Solid s = All (λ x. space x ≡ false) s

  strip_left-Solid : (s : Text) → Solid s → strip_left space s ≡ s
  strip_left-Solid [] h = refl
  strip_left-Solid (x ∷ s) (e, h) = rw e

  strip_right-Solid : (s : Text) → Solid s → strip_right space s ≡ s
  strip_right-Solid [] h = refl
  strip_right-Solid (x ∷ []) (e, h) = rw e
  strip_right-Solid (x ∷ y ∷ s) (e, h) = rw (strip_right-Solid (y ∷ s) h)

  pub strip-Solid : (s : Text) → Solid s → strip_of space s ≡ s
  strip-Solid s h = rw (strip_left-Solid s h, strip_right-Solid s h)

-- A decimal numeral: its digits as text, and its value.
abbrev pub numeral : List ℕ → Text
numeral ds = map (λ d. 48 + d) ds

abbrev pub value_from : ℕ → List ℕ → ℕ
value_from acc [] = acc
value_from acc (d ∷ ds) = value_from (acc * 10 + d) ds

abbrev pub value : List ℕ → ℕ
value ds = value_from 0 ds

-- One digit at least, and each below ten.
abbrev pub IsNumeral : List ℕ → Type 0
IsNumeral [] = ⊥
IsNumeral (d ∷ ds) = (d < 10) × All (λ d. d < 10) ds

digit_step_lem :
    (d acc : ℕ) (done : Bool) → d < 10 → digit_step 10 (48 + d) acc done ≡ some (acc * 10 + d, true)
digit_step_lem d acc done l = ground arith

pub digits-cons :
    (d acc : ℕ) (done : Bool) (s : Text)
    → d < 10
    → digits 10 acc done ((48 + d) ∷ s) ≡ digits 10 (acc * 10 + d) true s
digits-cons d acc done s l =
    ap
      (λ (o : Option (ℕ × Bool)). elim o as (λ _. Option ℕ) [
        | none ↦ none
        | some step ↦ digits 10 step.0 step.1 s
      ])
      (digit_step_lem d acc done l)

pub digits-numeral :
    (ds : List ℕ) (acc : ℕ)
    → All (λ d. d < 10) ds
    → digits 10 acc true (numeral ds) ≡ some (value_from acc ds)
digits-numeral [] acc h = refl
digits-numeral (d ∷ ds) acc (l, h) =
    digits-cons d acc true (numeral ds) l ∙ digits-numeral ds (acc * 10 + d) h

-- The characters of a numeral are among `0` to `9`.
pub All-numeral {κ} :
    (P : ℕ → Type κ) (ds : List ℕ)
    → ((d : ℕ) → d < 10 → P (48 + d))
    → All (λ d. d < 10) ds
    → All P (numeral ds)
All-numeral P [] f h = tt
All-numeral P (d ∷ ds) f (l, h) = (f d l, All-numeral P ds f h)

pub int-numeral : (ds : List ℕ) → IsNumeral ds → int (numeral ds) ≡ ok (pos (value ds))
int-numeral [] h = absurd h
int-numeral (d ∷ ds) (l, h) =
    let solid : strip_of is_blank (numeral (d ∷ ds)) ≡ numeral (d ∷ ds) =
      strip-Solid is_blank (numeral (d ∷ ds))
        (All-numeral (λ x. is_blank x ≡ false) (d ∷ ds) (λ d l. ground arith) (l, h)) in
    let minus : (48 + d == 45) ≡ false = ground arith in
    let plus : (48 + d == 43) ≡ false = ground arith in
    let read = digits-cons d 0 false (numeral ds) l ∙ digits-numeral ds (0 * 10 + d) h in
    rw (solid, minus, plus)
      (ap
        (λ (o : Option ℕ).
          or_raise (elim o as (λ _. Option ℤ) [ none ↦ none | some n ↦ some (pos n) ]) value_error)
        read)
