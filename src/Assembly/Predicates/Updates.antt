-- ===== src/Assembly/Predicates/Updates.antt =====
-- What the core does with the predicate updates that the assembler works out.
use mathlib.Core.Path.{subst}
use mathlib.Core.List.{reverse, reverse-cons}
use tia_infrastructure.Prelude.{
  ℕ, ◌≤◌, ◌<◌, ◌≡◌, ◌↔◌, ◌⊎◌, refl, sym, ap, ◌∙◌, inl, inr, Bool, true, false, ◌==◌, if◌then◌else◌,
  Option, none, some, Result, err, List, [], ◌∷◌, ◌++◌, map, length, length-append, length-set,
  Member, All, get_elem?, get_elem?-lt, get_elem?-set_self, get_elem?-set_ne, lt_of_get_elem?, set,
  ok, arith, Bool-cases,
}
use native.Mathlib.Decide.{ℕ_discrete}
use tia_infrastructure.Prelude.Text.{Text}
use tia_infrastructure.Core.Execute.{update_predicates}
use tia_infrastructure.Assembly.Predicates.{
  is_x_or_z, parse_predicate_bin_string, changes, sorted, determine_predicates_to_update,
}
use tia_infrastructure.Assembly.Predicates.Pairs.{
  Has, Has-sorted_iff, Has-of_append, Has-append_left, Has-append_right, Has-of_changes,
  changes-Has,
}
use tia_infrastructure.Assembly.Predicates.Marks.{Marks, Readable, Reads, read_predicates-Reads}

-- The updated predicates have a last value of the pairs, or the old one where there is none.
record Updated (us : List (ℕ × Bool)) (ps qs : List Bool) (k : ℕ) : Type 0 where
  cases :
      ((v : Bool) × Has k v us × (get_elem? qs k ≡ some v))
      ⊎ (((v : Bool) → ¬ (Has k v us)) × (get_elem? qs k ≡ get_elem? ps k))

update_predicates-Updated :
    (us : List (ℕ × Bool)) (ps : List Bool)
    → ((k : ℕ) (v : Bool) → Has k v us → k < length ps)
    → (qs : List Bool) × (update_predicates (map (λ u. u.0) us) (map (λ u. u.1) us) ps ≡ ok qs)
      × ((k : ℕ) → Updated us ps qs k)
unfolding update_predicates
update_predicates-Updated [] ps l = (ps, refl, λ k. record { cases = inr (λ v h. h, refl) })
update_predicates-Updated ((i, v) ∷ us) ps l =
    let il = l i v (inl (refl, refl)) in
    let (x, e) = get_elem?-lt ps i il in
    let (qs, f, h) =
      update_predicates-Updated us (set ps i v) (λ k w g. rw length-set (l k w (inr g))) in
    (
      qs,
      simp e f,
      λ k. elim ((h k).cases) [
        | inl (w, g, q) ↦ record { cases = inl (w, inr g, q) }
        | inr (n, q) ↦ elim (ℕ_discrete i k) [
          | yes same ↦ record {
            cases = inl (
              v,
              inl (sym same, refl),
              q ∙ ap (get_elem? (set ps i v)) (sym same) ∙ get_elem?-set_self ps i v il,
            );
          }
          | no other ↦ record {
            cases = inr (
              λ w g. elim g [ inl (a, b) ↦ other (sym a) | inr g ↦ n w g ],
              q ∙ get_elem?-set_ne ps i k v other,
            );
          }
        ]
      ],
    )

length-reverse : (s : Text) → length (reverse s) ≡ length s
length-reverse [] = refl
length-reverse (x ∷ s) = rw (reverse-cons, length-append, length-reverse s) (omega arith)

-- The predicates are as a string shows them: `1` for true, `0` for false.
pub record Meets (s : Text) (ps : List Bool) : Type 0 where
  pub ones : (k : ℕ) → get_elem? (reverse s) k ≡ some b'1' → get_elem? ps k ≡ some true
  pub zeros : (k : ℕ) → get_elem? (reverse s) k ≡ some b'0' → get_elem? ps k ≡ some false

-- The predicate that a string's character asks for, given the one before.
abbrev pub wanted : Option ℕ → Option Bool → Option Bool
wanted none old = old
wanted (some c) old = if c == b'1' then some true else if c == b'0' then some false else old

-- The numbers are the places of the character.
abbrev Places : ℕ → Text → List ℕ → Type 0
Places c s ns = (j : ℕ) → (Member j ns ↔ (get_elem? s j ≡ some c))

Places-of_Marks : (c : ℕ) (s : Text) (ns : List ℕ) → Marks c 0 s ns → Places c s ns
Places-of_Marks c s ns h j = (
  λ m.
      let (k, e, g) = (h j).0 m in
      let same : k ≡ j = omega (arith, e) in subst (λ x. get_elem? s x ≡ some c) same g,
  λ g. (h j).1 (j, omega arith, g),
)

Reads_total :
    (s : Text)
    → All (Readable is_x_or_z) (reverse s)
    → (r : List ℕ × List ℕ) × (parse_predicate_bin_string s ≡ ok r)
      × Places b'1' (reverse s) r.0
      × Places b'0' (reverse s) r.1
unfolding parse_predicate_bin_string
Reads_total s a =
    by_result (parse_predicate_bin_string s) refl (read_predicates-Reads is_x_or_z 0 (reverse s))
  where
    by_result :
        (m : Result (List ℕ × List ℕ))
        → parse_predicate_bin_string s ≡ m
        → Reads is_x_or_z 0 (reverse s) m
        → (r : List ℕ × List ℕ) × (parse_predicate_bin_string s ≡ ok r)
          × Places b'1' (reverse s) r.0
          × Places b'0' (reverse s) r.1
    by_result (ok r) e (b, o, z) =
        (r, e, Places-of_Marks b'1' (reverse s) r.0 o, Places-of_Marks b'0' (reverse s) r.1 z)
    by_result (err x) e (q, n) = absurd (n a)

-- The changes from predicates that a string shows to those that another asks for.
module _ (original desired : Text) (ps : List Bool) (r q : List ℕ × List ℕ)
    (old_ones : Places b'1' (reverse original) r.0) (old_zeros : Places b'0' (reverse original) r.1)
    (ones : Places b'1' (reverse desired) q.0) (zeros : Places b'0' (reverse desired) q.1) where
  updates : List (ℕ × Bool)
  updates = changes true q.0 r.0 ++ changes false q.1 r.1

  -- A change is one that the desired string asks for.
  asked :
      (k : ℕ) (v : Bool)
      → Has k v updates
      → get_elem? (reverse desired) k ≡ some (if v then b'1' else b'0')
  unfolding updates
  asked k v h = elim (Has-of_append k v (changes true q.0 r.0) (changes false q.1 r.1) h) [
    | inl g ↦ let (e, m) = Has-of_changes k true v q.0 r.0 g in rw e ((ones k).0 m)
    | inr g ↦ let (e, m) = Has-of_changes k false v q.1 r.1 g in rw e ((zeros k).0 m)
  ]

  updates-lt : (k : ℕ) (v : Bool) → length desired ≤ length ps → Has k v updates → k < length ps
  updates-lt k v l h =
      omega (arith, l, length-reverse desired, lt_of_get_elem? (reverse desired) k (asked k v h))

  -- Each predicate ends as the desired string asks.
  Updated-wanted :
      (qs : List Bool) (k : ℕ)
      → Meets original ps
      → Updated updates ps qs k
      → get_elem? qs k ≡ wanted (get_elem? (reverse desired) k) (get_elem? ps k)
  unfolding updates
  Updated-wanted qs k m h = elim (h.cases) [
    | inl (true, g, e) ↦ rw (asked k true g) e
    | inl (false, g, e) ↦ rw (asked k false g) e
    | inr (n, e) ↦ by_character (get_elem? (reverse desired) k) refl n e
  ]
    where
      by_character :
          (o : Option ℕ)
          → get_elem? (reverse desired) k ≡ o
          → ((v : Bool) → ¬ (Has k v updates))
          → get_elem? qs k ≡ get_elem? ps k
          → get_elem? qs k ≡ wanted o (get_elem? ps k)
      by_character none d n e = e
      by_character (some c) d n e = elim (Bool-cases (c == b'1')) [
        | inl t ↦
            let one : c ≡ b'1' = ground arith in
            elim (changes-Has k true q.0 r.0 ((ones k).1 (d ∙ ap some one))) [
              | inl o ↦ rw t (e ∙ m.ones k ((old_ones k).0 o))
              | inr g ↦
                  absurd (
                    n true
                      (Has-append_left k true (changes true q.0 r.0) (changes false q.1 r.1) g))
            ]
        | inr t ↦ elim (Bool-cases (c == b'0')) [
          | inl z ↦
              let zero' : c ≡ b'0' = ground arith in
              elim (changes-Has k false q.1 r.1 ((zeros k).1 (d ∙ ap some zero'))) [
                | inl o ↦ rw (t, z) (e ∙ m.zeros k ((old_zeros k).0 o))
                | inr g ↦ absurd (
                    n false
                      (Has-append_right k false (changes true q.0 r.0) (changes false q.1 r.1) g))
              ]
          | inr z ↦ rw (t, z) e
        ]
      ]

-- When both strings have readable characters only, and the core has all predicates of the desired
-- one, the updates are worked out; and applied by the core to predicates that are as the original
-- string shows, they give those that the desired string asks for: its ones and zeros from the right,
-- and all other predicates as they were.
pub determine_predicates_to_update_lem :
    (original desired : Text) (ps : List Bool)
    → All (Readable is_x_or_z) (reverse original)
    → All (Readable is_x_or_z) (reverse desired)
    → length desired ≤ length ps
    → Meets original ps
    → (u : List ℕ × List Bool) × (qs : List Bool) × (determine_predicates_to_update original desired
        ≡ ok u)
      × (update_predicates u.0 u.1 ps ≡ ok qs)
      × ((k : ℕ) → get_elem? qs k ≡ wanted (get_elem? (reverse desired) k) (get_elem? ps k))
unfolding determine_predicates_to_update updates
determine_predicates_to_update_lem original desired ps a b l m =
    let (r, e, old_ones, old_zeros) = Reads_total original a in
    let (q, f, ones, zeros) = Reads_total desired b in
    let us = updates original desired ps r q old_ones old_zeros ones zeros in
    let (qs, g, h) = update_predicates-Updated (sorted us) ps (λ k v x.
      updates-lt original desired ps r q old_ones old_zeros ones zeros k v l
        ((Has-sorted_iff k v us).0 x)) in
    (
      (map (λ u. u.0) (sorted us), map (λ u. u.1) (sorted us)),
      qs,
      rw (e, f),
      g,
      λ k.
          Updated-wanted original desired ps r q old_ones old_zeros ones zeros qs k m
            (same us qs k (h k)),
    )
  where
    same :
        (us : List (ℕ × Bool)) (qs : List Bool) (k : ℕ)
        → Updated (sorted us) ps qs k
        → Updated us ps qs k
    same us qs k h = record {
      cases = elim (h.cases) [
        | inl (v, g, e) ↦ inl (v, (Has-sorted_iff k v us).0 g, e)
        | inr (n, e) ↦ inr (λ v g. n v ((Has-sorted_iff k v us).1 g), e)
      ];
    }
