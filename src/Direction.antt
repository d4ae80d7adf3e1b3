-- ===== src/Direction.antt =====
-- tools/constants/direction.py: the cardinal directions, their vectors and their reverses.
use tia_infrastructure.Prelude.{ℕ, ◌≡◌, refl, List, [], ◌∷◌}
use tia_infrastructure.Prelude.Int.{ℤ, pos, negsuc, ◌+ℤ◌}

pub data Direction : Type 0 where
  north east south west : Direction

-- The `IntEnum` value, which indexes the buffer lists.
abbrev pub index : Direction → ℕ
index Direction.north = 0
index Direction.east = 1
index Direction.south = 2
index Direction.west = 3

abbrev pub directions : List Direction
directions = Direction.north ∷ Direction.east ∷ Direction.south ∷ Direction.west ∷ []

unfoldable pub direction_vector : Direction → ℤ × ℤ
direction_vector Direction.north = (negsuc 0, pos 0)
direction_vector Direction.east = (pos 0, pos 1)
direction_vector Direction.south = (pos 1, pos 0)
direction_vector Direction.west = (pos 0, negsuc 0)

unfoldable pub reverse_direction : Direction → Direction
reverse_direction Direction.north = Direction.south
reverse_direction Direction.east = Direction.west
reverse_direction Direction.south = Direction.north
reverse_direction Direction.west = Direction.east

-- Going in a direction and then in its reverse leads back, and reversing twice changes nothing.
pub reverse_direction_lem :
    (d : Direction)
    → (reverse_direction (reverse_direction d) ≡ d)
      × ((direction_vector d).0 +ℤ (direction_vector (reverse_direction d)).0 ≡ pos 0)
      × ((direction_vector d).1 +ℤ (direction_vector (reverse_direction d)).1 ≡ pos 0)
unfolding reverse_direction direction_vector ◌+ℤ◌
reverse_direction_lem Direction.north = (refl, refl, refl)
reverse_direction_lem _ = (refl, refl, refl)
