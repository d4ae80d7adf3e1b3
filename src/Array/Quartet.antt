-- ===== src/Array/Quartet.antt =====
-- tools/simulator/quartet.py: four processing elements in a square, and the seams between two squares.
pub mod Links
use tia_infrastructure.Prelude.{
  ℕ, suc, ◌+◌, ◌*◌, List, [], ◌∷◌, set, map, length, not, ◌==◌, raise_if, simulator_exception,
  Result, ok, ◌>>=◌, get_item,
}
use tia_infrastructure.Direction.{Direction}
use tia_infrastructure.Router.{ProcessingElement, connect_processing_elements}
use tia_infrastructure.Array
use tia_infrastructure.Parameters.{CoreParameters}
use tia_infrastructure.Parameters.Platform.{InterconnectParameters}
use tia_infrastructure.Store.{Store}
use tia_infrastructure.Router.Create.{new_elements}
use tia_infrastructure.System.Finalize.{processing_element_name}

-- The numbers in the names of the elements.
unfoldable pub processing_element_indices : ℕ → ℕ → ℕ → List ℕ
processing_element_indices row column num_columns =
    (row * num_columns + column)
    ∷ (row * num_columns + (column + 1))
    ∷ ((row + 1) * num_columns + column)
    ∷ ((row + 1) * num_columns + (column + 1))
    ∷ []

-- "Wire up the processing elements."
unfoldable pub wire : List ProcessingElement → Result (List ProcessingElement)
unfolding Array.wire Array.wire_cell Array.connect_at
wire ps = Array.wire 2 2 ps

-- `connect_processing_elements(a[i], b[j], d)` on the elements of two squares.
unfoldable pub connect_between :
    Direction
    → ℕ
    → ℕ
    → List ProcessingElement × List ProcessingElement
    → Result (List ProcessingElement × List ProcessingElement)
connect_between d i j (a, b) = do
  p ← get_item a i
  q ← get_item b j
  (p', q') ← connect_processing_elements p q d
  ok (set a i p', set b j q')

unfoldable pub connect_quartets :
    List ProcessingElement
    → List ProcessingElement
    → Direction
    → Result (List ProcessingElement × List ProcessingElement)
unfolding connect_between
connect_quartets a b Direction.north =
    connect_between Direction.north 0 2 (a, b) >>= λ x. connect_between Direction.north 1 3 x
connect_quartets a b Direction.east =
    connect_between Direction.east 1 0 (a, b) >>= λ x. connect_between Direction.east 3 2 x
connect_quartets a b Direction.south =
    connect_between Direction.south 2 0 (a, b) >>= λ x. connect_between Direction.south 3 1 x
connect_quartets a b Direction.west =
    connect_between Direction.west 0 1 (a, b) >>= λ x. connect_between Direction.west 2 3 x

-- `Quartet.__init__`
unfoldable pub create :
    ℕ
    → ℕ
    → ℕ
    → CoreParameters
    → InterconnectParameters
    → Store
    → Result (List ProcessingElement × Store)
create row column num_columns cp ip s = do
  let names = map processing_element_name (processing_element_indices row column num_columns)
  nothing ← raise_if (not (length names == 4)) simulator_exception
  (ps, s') ← new_elements names cp ip s
  qs ← wire ps
  ok (qs, s')
