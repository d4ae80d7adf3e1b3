-- ===== src/Array/Created.antt =====
-- The construction of arrays and quartets, tools/simulator/array.py and quartet.py: with four-way
-- parameters it does not raise, and all elements have their buffers in the store.
use tia_infrastructure.Prelude.{
  ℕ, zero, suc, ◌*◌, ◌≡◌, refl, ap, List, map, length, ok, Safely, Safely-bind,
}
use tia_infrastructure.Prelude.Text.{Text}
use tia_infrastructure.Parameters.{CoreParameters}
use tia_infrastructure.Parameters.Platform.{InterconnectParameters}
use tia_infrastructure.Store.{Store}
use tia_infrastructure.Router.{ProcessingElement}
use tia_infrastructure.Router.Create.{new_elements}
use tia_infrastructure.Router.Created.{IsFourWay, Grown, new_elements-AllCreated, AllCreated}
use tia_infrastructure.System.Finalize.{processing_element_name, element_names}
use tia_infrastructure.Array
use tia_infrastructure.Array.{create}
use tia_infrastructure.Array.Wires.{Elements, wire-Elements}
use tia_infrastructure.Array.Quartet
use tia_infrastructure.Array.Quartet.{processing_element_indices, connect_between, connect_quartets}

length-element_names : (i n : ℕ) → length (element_names i n) ≡ n
length-element_names i zero = refl
length-element_names i (suc n) = ap suc (length-element_names (suc i) n)

-- The names of a quartet's elements.
abbrev pub quartet_names : ℕ → ℕ → ℕ → List Text
quartet_names row column num_columns =
    map processing_element_name (processing_element_indices row column num_columns)

module _ (cp : CoreParameters) (ip : InterconnectParameters) (w : IsFourWay cp ip) where
  -- Elements with these names in a store that has grown from the given one.
  abbrev pub Built : List Text → Store → List ProcessingElement × Store → Type 0
  Built ns s x = Elements (length x.1) ns x.0 × Grown s x.1

  -- An array of any size is built without a raise.
  pub create-Built :
      (rows columns : ℕ) (s : Store)
      → Safely ⊥ (Built (element_names 0 (rows * columns)) s) (create rows columns cp ip s)
  unfolding create
  create-Built rows columns s =
      let ns = element_names 0 (rows * columns) in
      Safely-bind ⊥ (AllCreated cp ip w ns s) (Built ns s) (new_elements ns cp ip s) _
        (new_elements-AllCreated cp ip w ns s)
        λ x c.
          Safely-bind ⊥ (Elements (length x.1) ns) (Built ns s) (Array.wire rows columns x.0)
            (λ qs. ok (qs, x.1))
            (wire-Elements (length x.1) ns rows columns (length-element_names 0 (rows * columns))
              x.0 (c.0, c.1))
            λ qs h. (h, c.2)

  -- A quartet is built without a raise.
  pub quartet-Built :
      (row column num_columns : ℕ) (s : Store)
      → Safely ⊥
          (Built (quartet_names row column num_columns) s)
          (Quartet.create row column num_columns cp ip s)
  unfolding Quartet.create Quartet.wire processing_element_indices
  quartet-Built row column num_columns s =
      let ns = quartet_names row column num_columns in
      Safely-bind ⊥ (AllCreated cp ip w ns s) (Built ns s) (new_elements ns cp ip s) _
        (new_elements-AllCreated cp ip w ns s)
        λ x c.
          Safely-bind ⊥ (Elements (length x.1) ns) (Built ns s) (Array.wire 2 2 x.0)
            (λ qs. ok (qs, x.1)) (wire-Elements (length x.1) ns 2 2 refl x.0 (c.0, c.1))
            λ qs h. (h, c.2)
