-- ===== src/Array.antt =====
-- tools/simulator/array.py: the construction and wiring of the processing elements of an array. The elements come in a
-- list, row after row; Python shares the objects, so a connection changes them in their places.
pub mod Quartet
pub mod Block
pub mod Places
pub mod Wires
pub mod Created
use tia_infrastructure.Prelude.{
  ℕ, zero, suc, ◌+◌, ◌*◌, ltb, if◌then◌else◌, List, [], ◌∷◌, set, Result, ok, ◌>>=◌, get_item,
}
use tia_infrastructure.Direction.{Direction}
use tia_infrastructure.Router.{ProcessingElement, connect_processing_elements}
use tia_infrastructure.System.{System, register_element}
use tia_infrastructure.Parameters.{CoreParameters}
use tia_infrastructure.Parameters.Platform.{InterconnectParameters}
use tia_infrastructure.Store.{Store}
use tia_infrastructure.Router.Create.{new_elements}
use tia_infrastructure.System.Finalize.{element_names}

-- `for i in range(first, first + n): ...`
abbrev pub for_range {ℓ} : {S : Type ℓ} → ℕ → ℕ → (ℕ → S → Result S) → S → Result S
for_range first zero body s = ok s
for_range first (suc n) body s = body first s >>= λ s'. for_range (suc first) n body s'

-- `connect_processing_elements(elements[a], elements[b], d)`
unfoldable pub connect_at :
    ℕ → ℕ → Direction → List ProcessingElement → Result (List ProcessingElement)
connect_at a b d ps = do
  p ← get_item ps a
  q ← get_item ps b
  (p', q') ← connect_processing_elements p q d
  ok (set (set ps a p') b q')

-- The body of the loops: the connections to the east and to the south.
unfoldable pub wire_cell : ℕ → ℕ → ℕ → ℕ → List ProcessingElement → Result (List ProcessingElement)
wire_cell rows columns i j ps = do
  ps₁ ←
      (if ltb (j + 1) columns
        then connect_at (i * columns + j) (i * columns + j + 1) Direction.east ps
        else ok ps)
  (if ltb (i + 1) rows
      then connect_at (i * columns + j) ((i + 1) * columns + j) Direction.south ps₁
      else ok ps₁)

-- "Wire up the processing elements."
unfoldable pub wire : ℕ → ℕ → List ProcessingElement → Result (List ProcessingElement)
wire rows columns ps =
    for_range 0 rows (λ i qs. for_range 0 columns (λ j rs. wire_cell rows columns i j rs) qs) ps

-- "Call the underlying processing element registration functions."
unfoldable pub register_elements : List ProcessingElement → System → System
register_elements [] y = y
register_elements (p ∷ ps) y = register_elements ps (register_element p y)

-- `Array.__init__`
unfoldable pub create :
    ℕ
    → ℕ
    → CoreParameters
    → InterconnectParameters
    → Store
    → Result (List ProcessingElement × Store)
create rows columns cp ip s = do
  (ps, s') ← new_elements (element_names 0 (rows * columns)) cp ip s
  qs ← wire rows columns ps
  ok (qs, s')
