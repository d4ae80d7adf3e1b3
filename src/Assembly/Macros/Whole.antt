-- ===== src/Assembly/Macros/Whole.antt =====
-- The macros of tools/assembly/program.py: one that stands alone is replaced by its value, whatever other
-- macros are parts of its name.
use mathlib.Core.Path.{subst}
use tia_infrastructure.Prelude.{
  ℕ, ◌≤◌, ◌≡◌, ◌⊎◌, refl, ap, ◌∙◌, inl, inr, false, ltb, ltb→lt, List, [], ◌∷◌, length, All,
  All-map, Bool-cases, arith,
}
use tia_infrastructure.Prelude.Text.{Text, contains}
use tia_infrastructure.Assembly.Macros.{
  replace, insert_macro, sort_macros, replace_all, apply_macros,
}
use tia_infrastructure.Assembly.Macros.Replace.{contains-whole, replace-absent, replace_self}

-- What a macro of the dictionary of `m` is to it: another, or one with the value `v`; and it does not
-- occur in `v`.
abbrev pub Plain : Text → Text → Text × Text → Type 0
Plain m v n = (n.0 ≡ m → n.1 ≡ v) × (contains n.0 v ≡ false)

-- The dictionary has the macro `m` with the value `v`.
abbrev pub Has : Text → Text → List (Text × Text) → Type 0
Has m v [] = ⊥
Has m v (n ∷ ns) = ((n.0 ≡ m) × (n.1 ≡ v)) ⊎ Has m v ns

-- From the longest to the shortest.
abbrev Descending : List (Text × Text) → Type 0
Descending [] = Unit
Descending (n ∷ ns) = All (λ (k : Text × Text). length k.0 ≤ length n.0) ns × Descending ns

All-insert_macro :
    (P : Text × Text → Type 0) (n : Text × Text) (ns : List (Text × Text))
    → P n
    → All P ns
    → All P (insert_macro n ns)
All-insert_macro P n [] p h = (p, tt)
All-insert_macro P n (k ∷ ks) p (q, h) = elim (Bool-cases (ltb (length n.0) (length k.0))) [
  | inl e ↦ rw e (q, All-insert_macro P n ks p h)
  | inr e ↦ rw e (p, (q, h))
]

All-sort_macros :
    (P : Text × Text → Type 0) (ns : List (Text × Text)) → All P ns → All P (sort_macros ns)
All-sort_macros P [] h = tt
All-sort_macros P (n ∷ ns) (p, h) = All-insert_macro P n (sort_macros ns) p (All-sort_macros P ns h)

insert_macro-Descending :
    (n : Text × Text) (ns : List (Text × Text)) → Descending ns → Descending (insert_macro n ns)
insert_macro-Descending n [] h = (tt, tt)
insert_macro-Descending n (k ∷ ks) (l, h) = elim (Bool-cases (ltb (length n.0) (length k.0))) [
  | inl e ↦ rw e (
    All-insert_macro (λ (j : Text × Text). length j.0 ≤ length k.0) n ks
        (omega (arith, ltb→lt (length n.0) (length k.0) e)) l,
    insert_macro-Descending n ks h,
  )
  | inr e ↦
      let m : length k.0 ≤ length n.0 = ground (arith, e) in
      rw e ((m, All-map (λ j i. omega (arith, i, m)) ks l), (l, h))
]

sort_macros-Descending : (ns : List (Text × Text)) → Descending (sort_macros ns)
sort_macros-Descending [] = tt
sort_macros-Descending (n ∷ ns) =
    insert_macro-Descending n (sort_macros ns) (sort_macros-Descending ns)

insert_macro-Has :
    (m v : Text) (n : Text × Text) (ns : List (Text × Text))
    → Has m v (n ∷ ns)
    → Has m v (insert_macro n ns)
insert_macro-Has m v n [] h = h
insert_macro-Has m v n (k ∷ ks) h = elim (Bool-cases (ltb (length n.0) (length k.0))) [
  | inl e ↦ rw e (further h (insert_macro-Has m v n ks))
  | inr e ↦ rw e h
]
  where
    further :
        Has m v (n ∷ k ∷ ks)
        → (Has m v (n ∷ ks) → Has m v (insert_macro n ks))
        → Has m v (k ∷ insert_macro n ks)
    further (inl e) ih = inr (ih (inl e))
    further (inr (inl e)) ih = inl e
    further (inr (inr h)) ih = inr (ih (inr h))

sort_macros-Has : (m v : Text) (ns : List (Text × Text)) → Has m v ns → Has m v (sort_macros ns)
sort_macros-Has m v [] h = h
sort_macros-Has m v (n ∷ ns) (inl e) = insert_macro-Has m v n (sort_macros ns) (inl e)
sort_macros-Has m v (n ∷ ns) (inr h) =
    insert_macro-Has m v n (sort_macros ns) (inr (sort_macros-Has m v ns h))

Has-length :
    (m v : Text) (k : ℕ) (ns : List (Text × Text))
    → All (λ (n : Text × Text). length n.0 ≤ k) ns
    → Has m v ns
    → length m ≤ k
Has-length m v k [] h e = absurd e
Has-length m v k (n ∷ ns) (l, h) (inl e) = omega (arith, l, ap length e.0)
Has-length m v k (n ∷ ns) (l, h) (inr e) = Has-length m v k ns h e

-- A text without macros stays.
replace_all-absent :
    (ns : List (Text × Text)) (s : Text)
    → All (λ (n : Text × Text). contains n.0 s ≡ false) ns
    → replace_all ns s ≡ s
unfolding replace_all
replace_all-absent [] s h = refl
replace_all-absent (n ∷ ns) s (e, h) =
    ap (replace_all ns) (replace-absent n.0 n.1 s e) ∙ replace_all-absent ns s h

replace_all-Has :
    (m v : Text) (ns : List (Text × Text))
    → All (Plain m v) ns
    → Descending ns
    → Has m v ns
    → replace_all ns m ≡ v
unfolding replace_all
replace_all-Has m v [] p d h = absurd h
replace_all-Has m v (n ∷ ns) (p, ps) (d, ds) h = by_first h (λ k. replace_all-Has m v ns ps ds k)
  where
    found : n.0 ≡ m → n.1 ≡ v → replace_all ns (replace n.0 n.1 m) ≡ v
    found e f =
        let same : replace n.0 n.1 m ≡ v =
          rw (e, f) (replace_self m v (subst (λ k. contains k v ≡ false) e p.1)) in
        ap (replace_all ns) same ∙ replace_all-absent ns v (All-map (λ k q. q.1) ns ps)

    by_first :
        Has m v (n ∷ ns)
        → (Has m v ns → replace_all ns m ≡ v)
        → replace_all ns (replace n.0 n.1 m) ≡ v
    by_first (inl e) ih = found e.0 e.1
    by_first (inr h) ih = elim (Bool-cases (contains n.0 m)) [
      | inl e ↦
          let same = contains-whole n.0 m e (Has-length m v (length n.0) ns d h) in
          found same (p.0 same)
      | inr e ↦ ap (replace_all ns) (replace-absent n.0 n.1 m e) ∙ ih h
    ]

-- Where a macro has one value, in which no macro occurs, the text that is just the macro becomes that
-- value, even if other macros are parts of its name.
pub apply_macros-Has :
    (ns : List (Text × Text)) (m v : Text) → Has m v ns → All (Plain m v) ns → apply_macros ns m ≡ v
unfolding apply_macros
apply_macros-Has ns m v h p =
    replace_all-Has m v (sort_macros ns) (All-sort_macros (Plain m v) ns p)
      (sort_macros-Descending ns) (sort_macros-Has m v ns h)
