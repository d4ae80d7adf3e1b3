-- ===== src/Assembly/Predicates/Marks.antt =====
-- What the loop over a predicate string reads: the places of its ones and of its zeros.
use mathlib.Core.List.{reverse}
use tia_infrastructure.Prelude.{
  ℕ, zero, suc, ◌+◌, ◌≡◌, ◌≢◌, ◌↔◌, ◌⊎◌, refl, ap, inl, inr, Bool, true, ◌==◌, List, [], ◌∷◌, All,
  Member, get_elem?, some, Result, ok, err, ◌>>=◌, arith, Bool-cases, assembly_exception,
}
use tia_infrastructure.Prelude.Text.{Text}
use tia_infrastructure.Assembly.Predicates.{
  is_alpha, is_x, is_x_or_z, read_one, read_predicates, trigger_parse_predicate_bin_string,
  parse_predicate_bin_string,
}

-- The text has the character at `j`, when its first place is `i`.
abbrev pub At : ℕ → ℕ → Text → ℕ → Type 0
At c i s j = (k : ℕ) × (j ≡ i + k) × (get_elem? s k ≡ some c)

-- The numbers are the places of the character.
abbrev pub Marks : ℕ → ℕ → Text → List ℕ → Type 0
Marks c i s ns = (j : ℕ) → (Member j ns ↔ At c i s j)

Marks-nil : (c i : ℕ) → Marks c i [] []
Marks-nil c i j = (λ m. absurd m, λ (k, e, g). cc)

Marks-add :
    (c i x : ℕ) (s : Text) (ns : List ℕ) → x ≡ c → Marks c (suc i) s ns → Marks c i (x ∷ s) (i ∷ ns)
Marks-add c i x s ns q h j = (forward, backward)
  where
    forward : Member j (i ∷ ns) → At c i (x ∷ s) j
    forward (inl e) = (0, omega (arith, e), ap some q)
    forward (inr m) = let (k, e, g) = (h j).0 m in (suc k, omega (arith, e), g)

    backward : At c i (x ∷ s) j → Member j (i ∷ ns)
    backward (zero, e, g) = inl (omega (arith, e))
    backward (suc k, e, g) = inr ((h j).1 (k, omega (arith, e), g))

Marks-keep :
    (c i x : ℕ) (s : Text) (ns : List ℕ) → x ≢ c → Marks c (suc i) s ns → Marks c i (x ∷ s) ns
Marks-keep c i x s ns n h j = (forward, backward)
  where
    forward : Member j ns → At c i (x ∷ s) j
    forward m = let (k, e, g) = (h j).0 m in (suc k, omega (arith, e), g)

    backward : At c i (x ∷ s) j → Member j ns
    backward (zero, e, g) = let same : x ≡ c = cc in absurd (n same)
    backward (suc k, e, g) = (h j).1 (k, omega (arith, e), g)

-- A character that a predicate string may have.
abbrev pub Readable : (ℕ → Bool) → ℕ → Type 0
Readable skips c = (c ≡ b'0') ⊎ (c ≡ b'1') ⊎ ((is_alpha c ≡ true) × (skips c ≡ true))

-- What reading a text gives: its ones and its zeros, if it has readable characters only; or else an
-- `AssemblyException`.
abbrev pub Reads : (ℕ → Bool) → ℕ → Text → Result (List ℕ × List ℕ) → Type 0
Reads skips i s (ok r) = All (Readable skips) s × Marks b'1' i s r.0 × Marks b'0' i s r.1
Reads skips i s (err e) = (e ≡ assembly_exception) × ¬ (All (Readable skips) s)

-- Reading one more character, with what its tests say.
module _ (skips : ℕ → Bool) (i c : ℕ) (s : Text) where
  zero-Reads :
      (r : Result (List ℕ × List ℕ))
      → c ≡ b'0'
      → Reads skips (suc i) s r
      → Reads skips i (c ∷ s) (r >>= λ r. ok (r.0, i ∷ r.1))
  zero-Reads (ok r) e (a, o, z) =
      ((inl e, a), Marks-keep b'1' i c s r.0 (λ f. ground arith) o, Marks-add b'0' i c s r.1 e z)
  zero-Reads (err e) q (f, n) = (f, λ a. n a.1)

  one-Reads :
      (r : Result (List ℕ × List ℕ))
      → c ≡ b'1'
      → Reads skips (suc i) s r
      → Reads skips i (c ∷ s) (r >>= λ r. ok (i ∷ r.0, r.1))
  one-Reads (ok r) e (a, o, z) = (
    (inr (inl e), a),
    Marks-add b'1' i c s r.0 e o,
    Marks-keep b'0' i c s r.1 (λ f. ground arith) z,
  )
  one-Reads (err e) q (f, n) = (f, λ a. n a.1)

  pass-Reads :
      (r : Result (List ℕ × List ℕ))
      → is_alpha c ≡ true
      → skips c ≡ true
      → Reads skips (suc i) s r
      → Reads skips i (c ∷ s) r
  pass-Reads (ok r) l k (a, o, z) = (
    (inr (inr (l, k)), a),
    Marks-keep b'1' i c s r.0 (λ e. ground arith) o,
    Marks-keep b'0' i c s r.1 (λ e. ground arith) z,
  )
  pass-Reads (err e) l k (f, n) = (f, λ a. n a.1)

  read_one-Reads :
      (r : Result (List ℕ × List ℕ))
      → Reads skips (suc i) s r
      → Reads skips i (c ∷ s) (read_one skips i c r)
  read_one-Reads r h = elim (Bool-cases (is_alpha c)) [
    | inl l ↦ elim (Bool-cases (skips c)) [
      | inl k ↦ rw (l, k) (pass-Reads r l k h)
      | inr k ↦
          rw (l, k)
            (
              refl,
              λ a. elim a.0 [
                | inl e ↦ ground arith
                | inr (inl e) ↦ ground arith
                | inr (inr e) ↦ ground arith
              ],
            )
    ]
    | inr l ↦ elim (Bool-cases (c == b'0')) [
      | inl e ↦ rw (l, e) (zero-Reads r (ground arith) h)
      | inr n ↦ elim (Bool-cases (c == b'1')) [
        | inl e ↦ rw (l, n, e) (one-Reads r (ground arith) h)
        | inr m ↦
            rw (l, n, m)
              (
                refl,
                λ a. elim a.0 [
                  | inl e ↦ ground arith
                  | inr (inl e) ↦ ground arith
                  | inr (inr e) ↦ ground arith
                ],
              )
      ]
    ]
  ]

pub read_predicates-Reads :
    (skips : ℕ → Bool) (i : ℕ) (s : Text) → Reads skips i s (read_predicates skips i s)
unfolding read_predicates
read_predicates-Reads skips i [] = (tt, Marks-nil b'1' i, Marks-nil b'0' i)
read_predicates-Reads skips i (c ∷ s) =
    read_one-Reads skips i c s (read_predicates skips (suc i) s)
      (read_predicates-Reads skips (suc i) s)

-- Both readings of a predicate string give the places of its ones and of its zeros, counted from the
-- right, when it has no other characters than these and X or x, or in an update Z or z too;
-- otherwise they raise an AssemblyException.
pub parse_predicate_bin_string_lem :
    (s : Text)
    → Reads is_x 0 (reverse s) (trigger_parse_predicate_bin_string s)
      × Reads is_x_or_z 0 (reverse s) (parse_predicate_bin_string s)
unfolding trigger_parse_predicate_bin_string parse_predicate_bin_string
parse_predicate_bin_string_lem s =
    (read_predicates-Reads is_x 0 (reverse s), read_predicates-Reads is_x_or_z 0 (reverse s))
