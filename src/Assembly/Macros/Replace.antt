-- ===== src/Assembly/Macros/Replace.antt =====
-- Python's `str.replace`, as tools/assembly/program.py uses it for macros: what it does on a text that
-- has no such part, or is just it.
use mathlib.Core.List.{append-nil}
use tia_infrastructure.Prelude.{
  ℕ, zero, ◌-◌, ◌≤◌, ◌≡◌, refl, sym, ap, ◌∙◌, inl, inr, Bool, true, false, ◌==◌, [], ◌∷◌, ◌++◌,
  length, Bool-cases, arith,
}
use tia_infrastructure.Prelude.Text.{Text, starts_with, contains}
use tia_infrastructure.Assembly.Macros.{replace_after, replace}

-- A text without the part is as it was.
replace_after-absent : (old new s : Text) → contains old s ≡ false → replace_after old new 0 s ≡ s
unfolding replace_after
replace_after-absent old new [] h = refl
replace_after-absent old new (c ∷ s) h = elim (Bool-cases (starts_with old (c ∷ s))) [
  | inl e ↦ let f : contains old (c ∷ s) ≡ true = rw e in cc
  | inr e ↦
      let f : contains old (c ∷ s) ≡ contains old s = rw e in
      step e ∙ ap (λ t. c ∷ t) (replace_after-absent old new s (sym f ∙ h))
]
  where
    step :
        starts_with old (c ∷ s) ≡ false
        → replace_after old new 0 (c ∷ s) ≡ c ∷ replace_after old new 0 s
    step e =
        ap
          (λ (b : Bool). elim b as (λ _. Text) [
            | true ↦ new ++ replace_after old new (length old - 1) s
            | false ↦ c ∷ replace_after old new zero s
          ])
          e

starts_with-length : (p s : Text) → starts_with p s ≡ true → length p ≤ length s
starts_with-length [] s h = omega arith
starts_with-length (x ∷ p) [] h = cc
starts_with-length (x ∷ p) (y ∷ s) h = ground (arith, starts_with-length p s)

contains-length : (p s : Text) → contains p s ≡ true → length p ≤ length s
contains-length p [] h = starts_with-length p [] h
contains-length p (x ∷ s) h = elim (Bool-cases (starts_with p (x ∷ s))) [
  | inl e ↦ starts_with-length p (x ∷ s) e
  | inr e ↦
      let f : contains p (x ∷ s) ≡ contains p s = rw e in
      let l = contains-length p s (sym f ∙ h) in omega (arith, l)
]

-- A prefix of the same length is the whole.
starts_with-whole : (p s : Text) → starts_with p s ≡ true → length s ≤ length p → p ≡ s
starts_with-whole [] [] h l = refl
starts_with-whole [] (y ∷ s) h l = absurd (omega (arith, l))
starts_with-whole (x ∷ p) [] h l = cc
starts_with-whole (x ∷ p) (y ∷ s) h l = ground (arith, starts_with-whole p s)

pub contains-whole : (p s : Text) → contains p s ≡ true → length s ≤ length p → p ≡ s
contains-whole p [] h l = starts_with-whole p [] h l
contains-whole p (x ∷ s) h l = elim (Bool-cases (starts_with p (x ∷ s))) [
  | inl e ↦ starts_with-whole p (x ∷ s) e l
  | inr e ↦
      let f : contains p (x ∷ s) ≡ contains p s = rw e in
      let m = contains-length p s (sym f ∙ h) in absurd (omega (arith, l, m))
]

starts_with_self : (s : Text) → starts_with s s ≡ true
starts_with_self [] = refl
starts_with_self (x ∷ s) = let e : (x == x) ≡ true = ground arith in rw (e, starts_with_self s)

skip_all : (old new s : Text) → replace_after old new (length s) s ≡ []
unfolding replace_after
skip_all old new [] = refl
skip_all old new (c ∷ s) = skip_all old new s

-- The whole text is replaced by the value.
replace_after_self : (c : ℕ) (s new : Text) → replace_after (c ∷ s) new 0 (c ∷ s) ≡ new
unfolding replace_after
replace_after_self c s new =
    ap
      (λ (b : Bool). elim b as (λ _. Text) [
        | true ↦ new ++ replace_after (c ∷ s) new (length (c ∷ s) - 1) s
        | false ↦ c ∷ replace_after (c ∷ s) new zero s
      ])
      (starts_with_self (c ∷ s))
    ∙ ap (λ k. new ++ replace_after (c ∷ s) new k s) (omega arith)
    ∙ ap (λ t. new ++ t) (skip_all (c ∷ s) new s)
    ∙ append-nil new

pub replace-absent : (old new s : Text) → contains old s ≡ false → replace old new s ≡ s
replace-absent [] new [] h = cc
replace-absent [] new (c ∷ s) h = cc
replace-absent (x ∷ old) new s h = replace_after-absent (x ∷ old) new s h

pub replace_self : (m v : Text) → contains m v ≡ false → replace m v m ≡ v
replace_self [] [] h = cc
replace_self [] (x ∷ v) h = cc
replace_self (c ∷ m) v h = replace_after_self c m v
