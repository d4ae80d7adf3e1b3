-- ===== src/Array/Block/Created.antt =====
-- The construction of a block, tools/simulator/block.py: when it does not raise, its elements have
-- their buffers in the store.
use mathlib.Core.Path.{ap₂}
use tia_infrastructure.Prelude.{
  ℕ, suc, ◌/◌, All-map, ◌≡◌, refl, ap, ◌∙◌, List, [], ◌∷◌, map, length, ok, ◌>>=◌, arith, Safely,
  Safely-bind, Safely-map,
}
use tia_infrastructure.Prelude.Text.{Text}
use tia_infrastructure.Parameters.{CoreParameters}
use tia_infrastructure.Parameters.Platform.{InterconnectParameters}
use tia_infrastructure.Store.{Store}
use tia_infrastructure.Router.{ProcessingElement}
use tia_infrastructure.Router.Placed.{Placed-le}
use tia_infrastructure.Router.Created.{IsFourWay, Grown, Grown-trans}
use tia_infrastructure.Array.Quartet
use tia_infrastructure.Array.Quartet.{processing_element_indices, connect_between, connect_quartets}
use tia_infrastructure.Array.Block
use tia_infrastructure.Array.Block.{
  quartet_base_indices, quartet_base_indices-length, connect_quartets_at, wire_quartet,
  create_quartets,
}
use tia_infrastructure.Array.Created.{quartet_names, Built, quartet-Built}
use tia_infrastructure.Array.Block.Squares.{Squares, wire-Squares}

module _ (cp : CoreParameters) (ip : InterconnectParameters) (w : IsFourWay cp ip) where
  -- Quartets with these names in a store that has grown.
  abbrev pub BuiltSquares :
      List (List Text) → Store → List (List ProcessingElement) × Store → Type 0
  BuiltSquares nss s x = Squares (length x.1) nss x.0 × Grown s x.1

  -- The names of the elements of the quartets with these base indices.
  abbrev pub squares_names : ℕ → List (ℕ × ℕ) → List (List Text)
  squares_names num_columns bases = map (λ b. quartet_names b.0 b.1 num_columns) bases

  length-squares_names :
      (num_columns : ℕ) (bases : List (ℕ × ℕ))
      → length (squares_names num_columns bases) ≡ length bases
  length-squares_names num_columns [] = refl
  length-squares_names num_columns (b ∷ bases) = ap suc (length-squares_names num_columns bases)

  length-quartet_names :
      (row column num_columns : ℕ) → length (quartet_names row column num_columns) ≡ 4
  unfolding processing_element_indices
  length-quartet_names row column num_columns = refl

  create_quartets-BuiltSquares :
      (bases : List (ℕ × ℕ)) (num_columns : ℕ) (s : Store)
      → Safely ⊥
          (BuiltSquares (squares_names num_columns bases) s)
          (create_quartets bases num_columns cp ip s)
  unfolding create_quartets
  create_quartets-BuiltSquares [] num_columns s =
      ((tt, refl), record { longer = omega arith; loose = λ l. l })
  create_quartets-BuiltSquares ((row, column) ∷ bases) num_columns s =
      let ns = quartet_names row column num_columns in
      let nss = squares_names num_columns bases in
      Safely-bind ⊥ (Built cp ip w ns s) (BuiltSquares (ns ∷ nss) s)
        (Quartet.create row column num_columns cp ip s) _
        (quartet-Built cp ip w row column num_columns s)
        λ x c.
          Safely-map (create_quartets bases num_columns cp ip x.1 >>= λ y. ok (x.0 ∷ y.0, y.1))
            (λ e. e) (λ z h. h)
            (Safely-bind ⊥ (BuiltSquares nss x.1) (BuiltSquares (ns ∷ nss) s)
              (create_quartets bases num_columns cp ip x.1) (λ y. ok (x.0 ∷ y.0, y.1))
              (create_quartets-BuiltSquares bases num_columns x.1)
              λ y d. (
                (
                  (
                    (
                      All-map (λ p. Placed-le d.1.longer) x.0 c.0.0,
                      ap length c.0.1 ∙ length-quartet_names row column num_columns,
                    ),
                    d.0.0,
                  ),
                  ap₂ ◌∷◌ c.0.1 d.0.1,
                ),
                Grown-trans c.1 d.1,
              ))

  -- A block whose bases are of one quartet index is built without a raise: its quartets have their
  -- elements in the store, under the names of their places.
  pub block-BuiltSquares :
      (row column num_columns : ℕ) (s : Store)
      → row / 2 ≡ column / 2
      → Safely ⊥
          (BuiltSquares (squares_names num_columns (quartet_base_indices row column)) s)
          (Block.create row column num_columns cp ip s)
  unfolding Block.create
  block-BuiltSquares row column num_columns s e =
      let bases = quartet_base_indices row column in
      let nss = squares_names num_columns bases in
      let four : length nss ≡ 4 = omega (
        arith,
        length-squares_names num_columns bases,
        quartet_base_indices-length row column,
        e,
      ) in
      Safely-bind ⊥ (BuiltSquares nss s) (BuiltSquares nss s)
        (create_quartets bases num_columns cp ip s) _
        (create_quartets-BuiltSquares bases num_columns s)
        λ x c.
          Safely-bind ⊥ (Squares (length x.1) nss) (BuiltSquares nss s) (Block.wire x.0)
            (λ rs. ok (rs, x.1)) (wire-Squares (length x.1) nss x.0 four c.0) λ rs h. (h, c.1)
