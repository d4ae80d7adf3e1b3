-- ===== src/Array/Block/Squares.antt =====
-- The wiring of four quartets, tools/simulator/block.py, keeps their elements in the store.
use tia_infrastructure.Prelude.{
  ℕ, ◌+◌, ◌*◌, ◌<◌, Bool, true, false, ltb, ltb→lt, if◌then◌else◌, ◌≡◌, refl, ap, ◌∙◌, List, length,
  All, ok, ◌>>=◌, arith, Safely, Safely-bind, Safely-map,
}
use tia_infrastructure.Prelude.Text.{Text}
use tia_infrastructure.Direction.{Direction}
use tia_infrastructure.Router.{ProcessingElement, connect_processing_elements}
use tia_infrastructure.Router.Placed.{Placed, connect_processing_elements-Kept}
use tia_infrastructure.System.Finalize.{names}
use tia_infrastructure.Array.Places.{Named, Pairs, between-Named, pair-Named}
use tia_infrastructure.Array.Wires.{Elements, for_range-Safely}
use tia_infrastructure.Array.Quartet.{connect_between, connect_quartets}
use tia_infrastructure.Array.Block
use tia_infrastructure.Array.Block.{
  quartet_base_indices, quartet_base_indices-length, connect_quartets_at, wire_quartet,
  create_quartets,
}

-- Four elements of a store of `n`.
abbrev pub IsSquare : ℕ → List ProcessingElement → Type 0
IsSquare n ps = All (Placed n) ps × (length (names ps) ≡ 4)

-- Quartets with these names of their elements.
abbrev pub Squares : ℕ → List (List Text) → List (List ProcessingElement) → Type 0
Squares n nss qs = Named (IsSquare n) names nss qs

module _ (n : ℕ) where
  -- The two lists of a pair of quartets.
  abbrev Both : List Text → List Text → List ProcessingElement × List ProcessingElement → Type 0
  Both ns ms z = Elements n ns z.0 × Elements n ms z.1

  connect_between-Both :
      (d : Direction) (i j : ℕ) (ns ms : List Text)
      (z : List ProcessingElement × List ProcessingElement)
      → i < length ns
      → j < length ms
      → Both ns ms z
      → Safely ⊥ (Both ns ms) (connect_between d i j z)
  unfolding connect_between
  connect_between-Both d i j ns ms z l m h =
      between-Named (Placed n) (λ p. p.name) (λ p q. connect_processing_elements p q d)
        (λ p q f g. connect_processing_elements-Kept d p q f g) z.0 z.1 i j h.0 h.1 l m

  -- Two connections between the elements of two quartets.
  seam :
      (d : Direction) (i j i' j' : ℕ) (a b : List ProcessingElement)
      → i < 4
      → j < 4
      → i' < 4
      → j' < 4
      → IsSquare n a
      → IsSquare n b
      → Safely ⊥
          (Pairs (IsSquare n) names a b)
          (connect_between d i j (a, b) >>= λ x. connect_between d i' j' x)
  seam d i j i' j' a b l m l' m' f g =
      Safely-map (connect_between d i j (a, b) >>= λ x. connect_between d i' j' x) (λ e. e)
        (λ z h. ((h.0.0, ap length h.0.1 ∙ f.1), (h.1.0, ap length h.1.1 ∙ g.1), h.0.1, h.1.1))
        (Safely-bind ⊥ (Both (names a) (names b)) (Both (names a) (names b))
          (connect_between d i j (a, b)) (λ x. connect_between d i' j' x)
          (connect_between-Both d i j (names a) (names b) (a, b) (omega (arith, l, f.1))
            (omega (arith, m, g.1)) ((f.0, refl), (g.0, refl)))
          λ x h.
            connect_between-Both d i' j' (names a) (names b) x (omega (arith, l', f.1))
              (omega (arith, m', g.1)) h)

  -- Two quartets are connected along any side without a raise.
  pub connect_quartets-Pairs :
      (d : Direction) (a b : List ProcessingElement)
      → IsSquare n a
      → IsSquare n b
      → Safely ⊥ (Pairs (IsSquare n) names a b) (connect_quartets a b d)
  unfolding connect_quartets
  connect_quartets-Pairs Direction.north a b f g =
      seam Direction.north 0 2 1 3 a b (omega arith) (omega arith) (omega arith) (omega arith) f g
  connect_quartets-Pairs Direction.east a b f g =
      seam Direction.east 1 0 3 2 a b (omega arith) (omega arith) (omega arith) (omega arith) f g
  connect_quartets-Pairs Direction.south a b f g =
      seam Direction.south 2 0 3 1 a b (omega arith) (omega arith) (omega arith) (omega arith) f g
  connect_quartets-Pairs Direction.west a b f g =
      seam Direction.west 0 1 2 3 a b (omega arith) (omega arith) (omega arith) (omega arith) f g

  connect_quartets_at-Squares :
      (a b : ℕ) (d : Direction) (nss : List (List Text)) (qs : List (List ProcessingElement))
      → a < length nss
      → b < length nss
      → Squares n nss qs
      → Safely ⊥ (Squares n nss) (connect_quartets_at a b d qs)
  unfolding connect_quartets_at
  connect_quartets_at-Squares a b d nss qs l m h =
      pair-Named (IsSquare n) names (λ p q. connect_quartets p q d)
        (λ p q f g. connect_quartets-Pairs d p q f g) qs a b h l m

  wire_quartet-Squares :
      (nss : List (List Text)) (i j : ℕ) (qs : List (List ProcessingElement))
      → length nss ≡ 4
      → i < 2
      → j < 2
      → Squares n nss qs
      → Safely ⊥ (Squares n nss) (wire_quartet i j qs)
  unfolding wire_quartet
  wire_quartet-Squares nss i j qs e l m h =
      Safely-bind ⊥ (Squares n nss) (Squares n nss)
        (if ltb j 1
          then connect_quartets_at (i * 2 + j) (i * 2 + j + 1) Direction.east qs
          else ok qs)
        _ (east (ltb j 1) refl) λ ps g. south ps g (ltb i 1) refl
    where
      east :
          (b : Bool)
          → ltb j 1 ≡ b
          → Safely ⊥ (Squares n nss) (
              if b
              then connect_quartets_at (i * 2 + j) (i * 2 + j + 1) Direction.east qs
              else ok qs)
      east false f = h
      east true f =
          let k = ltb→lt j 1 f in
          connect_quartets_at-Squares (i * 2 + j) (i * 2 + j + 1) Direction.east nss qs
            (omega (arith, e, l, k)) (omega (arith, e, l, k)) h

      south :
          (ps : List (List ProcessingElement))
          → Squares n nss ps
          → (b : Bool) → ltb i 1 ≡ b
          → Safely ⊥ (Squares n nss) (
              if b
              then connect_quartets_at (i * 2 + j) ((i + 1) * 2 + j) Direction.south ps
              else ok ps)
      south ps g false f = g
      south ps g true f =
          let k = ltb→lt i 1 f in
          connect_quartets_at-Squares (i * 2 + j) ((i + 1) * 2 + j) Direction.south nss ps
            (omega (arith, e, m, k)) (omega (arith, e, m, k)) g

  -- Four quartets are wired to a block without a raise.
  pub wire-Squares :
      (nss : List (List Text)) (qs : List (List ProcessingElement))
      → length nss ≡ 4
      → Squares n nss qs
      → Safely ⊥ (Squares n nss) (Block.wire qs)
  unfolding Block.wire
  wire-Squares nss qs e h =
      for_range-Safely ⊥ (Squares n nss) _ 0 2
        (λ i ps _ l g.
          for_range-Safely ⊥ (Squares n nss) _ 0 2
            (λ j rs _ m k.
              wire_quartet-Squares nss i j rs e (omega (arith, l)) (omega (arith, m)) k)
            ps g)
        qs h
