-- ===== src/Array/Wires.antt =====
-- The wiring of an array of tools/simulator/array.py, of any size.
use native.Mathlib.Nat.{mul-le-mul_right}
use tia_infrastructure.Prelude.{
  Bool, ℕ, zero, suc, ◌+◌, ◌*◌, ◌≤◌, ◌<◌, ◌≡◌, refl, true, false, ltb, ltb→lt, if◌then◌else◌, List,
  length, Result, ok, arith, Safely, Safely-bind,
}
use tia_infrastructure.Prelude.Text.{Text}
use tia_infrastructure.Direction.{Direction}
use tia_infrastructure.Router.{ProcessingElement, connect_processing_elements}
use tia_infrastructure.Router.Placed.{Placed, connect_processing_elements-Kept}
use tia_infrastructure.Array.{for_range, connect_at, wire_cell, wire}
use tia_infrastructure.Array.Places.{Named, pair-Named}

-- What the body of a loop keeps, the loop keeps.
pub for_range-Safely {ℓ} :
    {S : Type ℓ} (R : Type 0) (P : S → Type 0) (body : ℕ → S → Result S) (first n : ℕ)
    → ((i : ℕ) (s : S) → first ≤ i → i < first + n → P s → Safely R P (body i s))
    → (s : S) → P s
    → Safely R P (for_range first n body s)
for_range-Safely R P body first zero h s p = p
for_range-Safely R P body first (suc n) h s p =
    Safely-bind R P P (body first s) (for_range (suc first) n body)
      (h first s (omega arith) (omega arith) p)
      λ t q.
        for_range-Safely R P body (suc first) n
          (λ i u l m. h i u (omega (arith, l)) (omega (arith, m))) t q

cell-lt : (rows columns i j : ℕ) → i < rows → j < columns → i * columns + j < rows * columns
cell-lt rows columns i j l m =
    let h : suc i * columns ≤ rows * columns = mul-le-mul_right columns (omega (arith, l)) in
    omega (arith, h, m)

-- Elements with these names, that are in a store of `n`.
abbrev pub Elements : ℕ → List Text → List ProcessingElement → Type 0
Elements n ns ps = Named (Placed n) (λ (p : ProcessingElement). p.name) ns ps

module _ (n : ℕ) (ns : List Text) where
  pub connect_at-Elements :
      (a b : ℕ) (d : Direction) (ps : List ProcessingElement)
      → a < length ns
      → b < length ns
      → Elements n ns ps
      → Safely ⊥ (Elements n ns) (connect_at a b d ps)
  unfolding connect_at
  connect_at-Elements a b d ps l m h =
      pair-Named (Placed n) (λ p. p.name) (λ p q. connect_processing_elements p q d)
        (λ p q f g. connect_processing_elements-Kept d p q f g) ps a b h l m

  module _ (rows columns : ℕ) (full : length ns ≡ rows * columns) where
    wire_cell-Elements :
        (i j : ℕ) (ps : List ProcessingElement)
        → i < rows
        → j < columns
        → Elements n ns ps
        → Safely ⊥ (Elements n ns) (wire_cell rows columns i j ps)
    unfolding wire_cell
    wire_cell-Elements i j ps l m h =
        Safely-bind ⊥ (Elements n ns) (Elements n ns)
          (if ltb (j + 1) columns
            then connect_at (i * columns + j) (i * columns + j + 1) Direction.east ps
            else ok ps)
          _ (east (ltb (j + 1) columns) refl) λ qs g. south qs g (ltb (i + 1) rows) refl
      where
        here : i * columns + j < length ns
        here = omega (arith, full, cell-lt rows columns i j l m)

        east :
            (b : Bool)
            → ltb (j + 1) columns ≡ b
            → Safely ⊥ (Elements n ns) (
                if b
                then connect_at (i * columns + j) (i * columns + j + 1) Direction.east ps
                else ok ps)
        east false e = h
        east true e =
            connect_at-Elements _ _ Direction.east ps here
              (omega (arith, full, cell-lt rows columns i (j + 1) l (ltb→lt (j + 1) columns e))) h

        south :
            (qs : List ProcessingElement)
            → Elements n ns qs
            → (b : Bool) → ltb (i + 1) rows ≡ b
            → Safely ⊥ (Elements n ns) (
                if b
                then connect_at (i * columns + j) ((i + 1) * columns + j) Direction.south qs
                else ok qs)
        south qs g false e = g
        south qs g true e =
            connect_at-Elements _ _ Direction.south qs here
              (omega (arith, full, cell-lt rows columns (i + 1) j (ltb→lt (i + 1) rows e) m)) g

    -- Elements of a store that are as many as the cells of an array, each with a link for each
    -- direction, are wired without a raise. They stay in the store, under their names.
    pub wire-Elements :
        (ps : List ProcessingElement)
        → Elements n ns ps
        → Safely ⊥ (Elements n ns) (wire rows columns ps)
    unfolding wire
    wire-Elements ps h =
        for_range-Safely ⊥ (Elements n ns) _ 0 rows
          (λ i qs _ l g.
            for_range-Safely ⊥ (Elements n ns) _ 0 columns
              (λ j rs _ m k. wire_cell-Elements i j rs (omega (arith, l)) (omega (arith, m)) k) qs
              g)
          ps h
