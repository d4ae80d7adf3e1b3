-- ===== src/Array/Block.antt =====
-- tools/simulator/block.py: four quartets in a square, and the seams between two such squares.
pub mod Squares
pub mod Created
use tia_infrastructure.Prelude.{
  ℕ, zero, suc, ◌+◌, ◌-◌, ◌*◌, ◌/◌, ◌≡◌, arith, ltb, if◌then◌else◌, List, [], ◌∷◌, length, set,
  Result, ok, ◌>>=◌, get_item,
}
use tia_infrastructure.Direction.{Direction}
use tia_infrastructure.Router.{ProcessingElement}
use tia_infrastructure.System.{System}
use tia_infrastructure.Array.{for_range, register_elements}
use tia_infrastructure.Array.Quartet.{connect_quartets, create as create_quartet}
use tia_infrastructure.Parameters.{CoreParameters}
use tia_infrastructure.Parameters.Platform.{InterconnectParameters}
use tia_infrastructure.Store.{Store}

abbrev pub Quartet : Type 0
Quartet = List ProcessingElement

-- The row loop, over so many rows. Its range goes from the row base to the column base and two.
unfoldable pub base_rows : ℕ → ℕ → ℕ → List (ℕ × ℕ)
base_rows i zero column = []
base_rows i (suc n) column =
    (i * 2, column * 2) ∷ (i * 2, (column + 1) * 2) ∷ base_rows (suc i) n column

unfoldable pub quartet_base_indices : ℕ → ℕ → List (ℕ × ℕ)
quartet_base_indices row_base column_base =
    base_rows (row_base / 2) (column_base / 2 + 2 - row_base / 2) (column_base / 2)

-- `connect_quartets(quartets[a], quartets[b], d)`
unfoldable pub connect_quartets_at : ℕ → ℕ → Direction → List Quartet → Result (List Quartet)
connect_quartets_at a b d qs = do
  p ← get_item qs a
  q ← get_item qs b
  (p', q') ← connect_quartets p q d
  ok (set (set qs a p') b q')

-- "Wire up the quartets."
unfoldable pub wire_quartet : ℕ → ℕ → List Quartet → Result (List Quartet)
wire_quartet i j qs = do
  qs₁ ←
      (if ltb j 1 then connect_quartets_at (i * 2 + j) (i * 2 + j + 1) Direction.east qs else ok qs)
  (if ltb i 1
      then connect_quartets_at (i * 2 + j) ((i + 1) * 2 + j) Direction.south qs₁
      else ok qs₁)

unfoldable pub wire : List Quartet → Result (List Quartet)
unfolding wire_quartet
wire qs = for_range 0 2 (λ i ps. for_range 0 2 (λ j rs. wire_quartet i j rs) ps) qs

-- The loop over the base indices of the quartets.
unfoldable pub create_quartets :
    List (ℕ × ℕ)
    → ℕ
    → CoreParameters
    → InterconnectParameters
    → Store
    → Result (List Quartet × Store)
create_quartets [] num_columns cp ip s = ok ([], s)
create_quartets ((row, column) ∷ bases) num_columns cp ip s = do
  (q, s₁) ← create_quartet row column num_columns cp ip s
  (qs, s₂) ← create_quartets bases num_columns cp ip s₁
  ok (q ∷ qs, s₂)

-- `Block.__init__`
unfoldable pub create :
    ℕ → ℕ → ℕ → CoreParameters → InterconnectParameters → Store → Result (List Quartet × Store)
create row column num_columns cp ip s = do
  (qs, s') ← create_quartets (quartet_base_indices row column) num_columns cp ip s
  rs ← wire qs
  ok (rs, s')

-- "Call the underlying quartet registration functions."
unfoldable pub register_quartets : List Quartet → System → System
register_quartets [] y = y
register_quartets (q ∷ qs) y = register_quartets qs (register_elements q y)

-- `connect_quartets(a[i], b[j], d)` on the quartets of two blocks.
unfoldable pub connect_between :
    Direction → ℕ → ℕ → List Quartet × List Quartet → Result (List Quartet × List Quartet)
connect_between d i j (a, b) = do
  p ← get_item a i
  q ← get_item b j
  (p', q') ← connect_quartets p q d
  ok (set a i p', set b j q')

unfoldable pub connect_blocks :
    List Quartet → List Quartet → Direction → Result (List Quartet × List Quartet)
unfolding connect_between
connect_blocks a b Direction.north =
    connect_between Direction.north 0 2 (a, b) >>= λ x. connect_between Direction.north 1 3 x
connect_blocks a b Direction.east =
    connect_between Direction.east 1 0 (a, b) >>= λ x. connect_between Direction.east 3 2 x
connect_blocks a b Direction.south =
    connect_between Direction.south 2 0 (a, b) >>= λ x. connect_between Direction.south 3 1 x
connect_blocks a b Direction.west =
    connect_between Direction.west 0 1 (a, b) >>= λ x. connect_between Direction.west 2 3 x

base_rows-length : (i n column : ℕ) → length (base_rows i n column) ≡ 2 * n
unfolding base_rows
base_rows-length i zero column = omega arith
base_rows-length i (suc n) column = omega (arith, base_rows-length (suc i) n column)

-- A block has two quartets for each row from its row base up to its column base and two, so four
-- only if both bases are of one quartet index.
pub quartet_base_indices-length :
    (row_base column_base : ℕ)
    → length (quartet_base_indices row_base column_base) ≡ 2 * (column_base / 2 + 2 - row_base / 2)
unfolding quartet_base_indices
quartet_base_indices-length row_base column_base =
    base_rows-length (row_base / 2) (column_base / 2 + 2 - row_base / 2) (column_base / 2)
