-- ===== src/Prelude/Sort.antt =====
-- Python's `sorted(xs, key=...)` with lists of naturals as keys: a stable sort by their order, which
-- compares the first places that differ.
use mathlib.Core.Path.{subst}
use mathlib.Core.List.{Permᴰ}
use mathlib.Core.List.Permᴰ
use tia_infrastructure.Prelude.{
  ℕ, ◌≡◌, refl, ap, ◌∙◌, Bool, true, false, ltb, if◌then◌else◌, List, [], ◌∷◌, map, All, arith, inl,
  inr, Bool-cases,
}

-- `a < b` on lists
abbrev pub precedes : List ℕ → List ℕ → Bool
precedes a [] = false
precedes [] (y ∷ b) = true
precedes (x ∷ a) (y ∷ b) =
    let rest = precedes a b in if ltb x y then true else if ltb y x then false else rest

-- The item goes before the first that does not precede it.
abbrev pub insert_by {ℓ} : {A : Type ℓ} → (A → List ℕ) → A → List A → List A
insert_by key x [] = x ∷ []
insert_by key x (y ∷ ys) =
    let rest = insert_by key x ys in if precedes (key y) (key x) then y ∷ rest else x ∷ y ∷ ys

abbrev pub sorted_by {ℓ} : {A : Type ℓ} → (A → List ℕ) → List A → List A
sorted_by key [] = []
sorted_by key (x ∷ xs) = insert_by key x (sorted_by key xs)

module _ {ℓ} {A : Type ℓ} (key : A → List ℕ) where
  insert_by_perm : (x : A) (xs : List A) → Permᴰ (insert_by key x xs) (x ∷ xs)
  insert_by_perm x [] = Permᴰ.refl (x ∷ [])
  insert_by_perm x (y ∷ ys) = elim (Bool-cases (precedes (key y) (key x))) [
    | inl e ↦ rw e (Permᴰ.trans (Permᴰ.cons refl (insert_by_perm x ys)) (Permᴰ.swap refl refl))
    | inr e ↦ rw e (Permᴰ.refl (x ∷ y ∷ ys))
  ]

  -- Sorting loses no item and adds none.
  pub sorted_by_perm : (xs : List A) → Permᴰ (sorted_by key xs) xs
  sorted_by_perm [] = Permᴰ.nil
  sorted_by_perm (x ∷ xs) =
      Permᴰ.trans (insert_by_perm x (sorted_by key xs)) (Permᴰ.cons refl (sorted_by_perm xs))

  map-insert_by :
      (x : A) (xs : List A) → map key (insert_by key x xs) ≡ insert_by (λ k. k) (key x) (map key xs)
  map-insert_by x [] = refl
  map-insert_by x (y ∷ ys) = elim (Bool-cases (precedes (key y) (key x))) [
    | inl e ↦ rw (e, map-insert_by x ys)
    | inr e ↦ rw e
  ]

  -- Sorting by a key sorts the keys.
  pub map-sorted_by : (xs : List A) → map key (sorted_by key xs) ≡ sorted_by (λ k. k) (map key xs)
  map-sorted_by [] = refl
  map-sorted_by (x ∷ xs) =
      map-insert_by x (sorted_by key xs) ∙ ap (insert_by (λ k. k) (key x)) (map-sorted_by xs)

precedes_asymm : (a b : List ℕ) → precedes a b ≡ true → precedes b a ≡ false
precedes_asymm a [] h = cc
precedes_asymm [] (y ∷ b) h = refl
precedes_asymm (x ∷ a) (y ∷ b) h = ground (arith, precedes_asymm a b)

precedes_antisymm : (a b : List ℕ) → precedes a b ≡ false → precedes b a ≡ false → a ≡ b
precedes_antisymm [] [] h k = refl
precedes_antisymm [] (y ∷ b) h k = cc
precedes_antisymm (x ∷ a) [] h k = cc
precedes_antisymm (x ∷ a) (y ∷ b) h k = ground (arith, precedes_antisymm a b)

precedes_trans : (a b c : List ℕ) → precedes b a ≡ false → precedes b c ≡ true → precedes a c ≡ true
precedes_trans a b [] h k = cc
precedes_trans [] b (z ∷ c) h k = refl
precedes_trans (x ∷ a) [] (z ∷ c) h k = cc
precedes_trans (x ∷ a) (y ∷ b) (z ∷ c) h k = ground (arith, precedes_trans a b c)

-- Two insertions before everything else commute.
pair_comm :
    (a b : List ℕ) (xs : List (List ℕ))
    → (if precedes b a then b ∷ a ∷ xs else a ∷ b ∷ xs)
      ≡ (if precedes a b then a ∷ b ∷ xs else b ∷ a ∷ xs)
pair_comm a b xs = elim (Bool-cases (precedes b a)) [
  | inl e ↦ rw (e, precedes_asymm b a e)
  | inr e ↦ elim (Bool-cases (precedes a b)) [
    | inl f ↦ rw (e, f)
    | inr f ↦ let same : a ≡ b = precedes_antisymm a b f e in rw (e, f) (cc)
  ]
]

-- Two insertions commute.
insert_by_comm :
    (a b : List ℕ) (xs : List (List ℕ))
    → insert_by (λ k. k) a (insert_by (λ k. k) b xs)
      ≡ insert_by (λ k. k) b (insert_by (λ k. k) a xs)
insert_by_comm a b [] = pair_comm a b []
insert_by_comm a b (x ∷ xs) = elim (Bool-cases (precedes x b)) [
  | inl e ↦ elim (Bool-cases (precedes x a)) [
    | inl f ↦ simp (e, f) (ap (λ zs. x ∷ zs) (insert_by_comm a b xs))
    | inr f ↦ let g = precedes_trans a x b f e in simp (e, f, g)
  ]
  | inr e ↦ elim (Bool-cases (precedes x a)) [
    | inl f ↦ let g = precedes_trans b x a e f in simp (e, f, g)
    | inr f ↦ simp (e, f) (pair_comm a b (x ∷ xs))
  ]
]

-- The sorted keys do not depend on the order that they come in.
pub sorted_by-eq_of_perm :
    {xs ys : List (List ℕ)} → Permᴰ xs ys → sorted_by (λ k. k) xs ≡ sorted_by (λ k. k) ys
sorted_by-eq_of_perm Permᴰ.nil = refl
sorted_by-eq_of_perm (Permᴰ.cons {l₁ = l₁} {l₂ = l₂} e p) = rw (e, sorted_by-eq_of_perm p)
sorted_by-eq_of_perm (Permᴰ.swap {a = a} {b = b} {l = l} e f) =
    rw (← e, ← f) (insert_by_comm a b (sorted_by (λ k. k) l))
sorted_by-eq_of_perm (Permᴰ.trans p q) = sorted_by-eq_of_perm p ∙ sorted_by-eq_of_perm q

pub All-perm {ℓ κ} :
    {A : Type ℓ} (P : A → Type κ) {xs ys : List A} → Permᴰ xs ys → All P xs → All P ys
All-perm P Permᴰ.nil h = tt
All-perm P (Permᴰ.cons e p) (h, hs) = (subst P e h, All-perm P p hs)
All-perm P (Permᴰ.swap e f) (h, (k, hs)) = (subst P f k, (subst P e h, hs))
All-perm P (Permᴰ.trans p q) h = All-perm P q (All-perm P p h)
