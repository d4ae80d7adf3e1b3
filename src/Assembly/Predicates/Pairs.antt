-- ===== src/Assembly/Predicates/Pairs.antt =====
-- The pairs of predicate and value that the assembler collects, by what is in them.
use mathlib.Core.Path.{subst}
use tia_infrastructure.Prelude.{
  ℕ, ◌≡◌, ◌↔◌, ◌⊎◌, refl, sym, inl, inr, Bool, true, false, ◌==◌, leb, if◌then◌else◌, List, [], ◌∷◌,
  ◌++◌, Member, arith, Bool-cases,
}
use tia_infrastructure.Assembly.Predicates.{member, changes, insert, sorted}

-- The pair is in the list.
abbrev pub Has : ℕ → Bool → List (ℕ × Bool) → Type 0
Has k v [] = ⊥
Has k v (u ∷ us) = ((k ≡ u.0) × (v ≡ u.1)) ⊎ Has k v us

Has-of_insert :
    (k : ℕ) (v : Bool) (u : ℕ × Bool) (us : List (ℕ × Bool))
    → Has k v (insert u us)
    → Has k v (u ∷ us)
Has-of_insert k v u [] h = h
Has-of_insert k v u (w ∷ us) h = by_order (λ g. Has-of_insert k v u us g) (leb u.0 w.0) h
  where
    by_order :
        (Has k v (insert u us) → Has k v (u ∷ us))
        → (b : Bool) → Has k v (if b then u ∷ w ∷ us else w ∷ insert u us)
        → Has k v (u ∷ w ∷ us)
    by_order ih true h = h
    by_order ih false (inl e) = inr (inl e)
    by_order ih false (inr h) = elim (ih h) [ inl e ↦ inl e | inr g ↦ inr (inr g) ]

Has-insert :
    (k : ℕ) (v : Bool) (u : ℕ × Bool) (us : List (ℕ × Bool))
    → Has k v (u ∷ us)
    → Has k v (insert u us)
Has-insert k v u [] h = h
Has-insert k v u (w ∷ us) h = by_order (λ g. Has-insert k v u us g) (leb u.0 w.0) h
  where
    by_order :
        (Has k v (u ∷ us) → Has k v (insert u us))
        → (b : Bool) → Has k v (u ∷ w ∷ us)
        → Has k v (if b then u ∷ w ∷ us else w ∷ insert u us)
    by_order ih true h = h
    by_order ih false (inl e) = inr (ih (inl e))
    by_order ih false (inr (inl e)) = inl e
    by_order ih false (inr (inr h)) = inr (ih (inr h))

pub Has-sorted_iff : (k : ℕ) (v : Bool) (us : List (ℕ × Bool)) → Has k v (sorted us) ↔ Has k v us
Has-sorted_iff k v [] = (λ h. h, λ h. h)
Has-sorted_iff k v (u ∷ us) = (
  λ h. elim (Has-of_insert k v u (sorted us) h) [
    | inl e ↦ inl e
    | inr g ↦ inr ((Has-sorted_iff k v us).0 g)
  ],
  λ h.
      Has-insert k v u (sorted us)
        (elim h [ inl e ↦ inl e | inr g ↦ inr ((Has-sorted_iff k v us).1 g) ]),
)

pub Has-of_append :
    (k : ℕ) (v : Bool) (us ws : List (ℕ × Bool)) → Has k v (us ++ ws) → Has k v us ⊎ Has k v ws
Has-of_append k v [] ws h = inr h
Has-of_append k v (u ∷ us) ws (inl e) = inl (inl e)
Has-of_append k v (u ∷ us) ws (inr h) = elim (Has-of_append k v us ws h) [
  | inl g ↦ inl (inr g)
  | inr g ↦ inr g
]

pub Has-append_left : (k : ℕ) (v : Bool) (us ws : List (ℕ × Bool)) → Has k v us → Has k v (us ++ ws)
Has-append_left k v [] ws h = absurd h
Has-append_left k v (u ∷ us) ws (inl e) = inl e
Has-append_left k v (u ∷ us) ws (inr h) = inr (Has-append_left k v us ws h)

pub Has-append_right :
    (k : ℕ) (v : Bool) (us ws : List (ℕ × Bool)) → Has k v ws → Has k v (us ++ ws)
Has-append_right k v [] ws h = h
Has-append_right k v (u ∷ us) ws h = inr (Has-append_right k v us ws h)

Member-of_member : (k : ℕ) (ns : List ℕ) → member k ns ≡ true → Member k ns
Member-of_member k [] e = cc
Member-of_member k (n ∷ ns) e = elim (Bool-cases (k == n)) [
  | inl q ↦ inl (ground arith)
  | inr q ↦ inr (Member-of_member k ns (ground (arith, e, q)))
]

-- A change of a predicate is to the value, and of a predicate of the list.
pub Has-of_changes :
    (k : ℕ) (v w : Bool) (ns old : List ℕ) → Has k w (changes v ns old) → (w ≡ v) × Member k ns
Has-of_changes k v w [] old h = absurd h
Has-of_changes k v w (n ∷ ns) old h =
    by_member (λ g. Has-of_changes k v w ns old g) (member n old) h
  where
    by_member :
        (Has k w (changes v ns old) → (w ≡ v) × Member k ns)
        → (b : Bool) → Has k w (if b then changes v ns old else (n, v) ∷ changes v ns old)
        → (w ≡ v) × Member k (n ∷ ns)
    by_member ih true h = let (e, m) = ih h in (e, inr m)
    by_member ih false (inl (e, q)) = (q, inl e)
    by_member ih false (inr h) = let (e, m) = ih h in (e, inr m)

-- A predicate of the list changes, or was in the other list.
pub changes-Has :
    (k : ℕ) (v : Bool) (ns old : List ℕ) → Member k ns → Member k old ⊎ Has k v (changes v ns old)
changes-Has k v [] old h = absurd h
changes-Has k v (n ∷ ns) old h = elim (Bool-cases (member n old)) [
  | inl e ↦ elim h [
    | inl q ↦ inl (subst (λ n. Member n old) (sym q) (Member-of_member n old e))
    | inr m ↦ rw e (changes-Has k v ns old m)
  ]
  | inr e ↦ elim h [
    | inl q ↦ rw e (inr (inl (q, refl)))
    | inr m ↦ elim (changes-Has k v ns old m) [ inl g ↦ inl g | inr g ↦ rw e (inr (inr g)) ]
  ]
]
