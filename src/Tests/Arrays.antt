-- ===== src/Tests/Arrays.antt =====
-- Arrays, quartets and blocks at concrete inputs.
use tia_infrastructure.Prelude.{◌≡◌, refl, [], ◌∷◌, length, ok, err, index_error}
use tia_infrastructure.Direction.{Direction}
use tia_infrastructure.Router.{ProcessingElement}
use tia_infrastructure.Array.Quartet
use tia_infrastructure.Array.Quartet.Links.{Joined, wire-Joined}
use tia_infrastructure.Array.Block
use tia_infrastructure.Array.Block.{quartet_base_indices, base_rows, connect_quartets_at}
use tia_infrastructure.Tests.Buffers.{element, element-HasLinks}

abbrev north_west : ProcessingElement
north_west = element 0 1 2 3

abbrev north_east : ProcessingElement
north_east = element 4 5 6 7

abbrev south_west : ProcessingElement
south_west = element 8 9 10 11

abbrev south_east : ProcessingElement
south_east = element 12 13 14 15

wire-Joined_example :
    (a : ProcessingElement) × (b : ProcessingElement) × (c : ProcessingElement)
    × (d : ProcessingElement) × (Quartet.wire
          (north_west ∷ north_east ∷ south_west ∷ south_east ∷ [])
        ≡ ok (a ∷ b ∷ c ∷ d ∷ []))
    × Joined Direction.east a b
    × Joined Direction.east c d
    × Joined Direction.south a c
    × Joined Direction.south b d
    × (a.core ≡ north_west.core)
    × (b.core ≡ north_east.core)
    × (c.core ≡ south_west.core)
    × (d.core ≡ south_east.core)
wire-Joined_example =
    wire-Joined north_west north_east south_west south_east (element-HasLinks 0 1 2 3)
      (element-HasLinks 4 5 6 7) (element-HasLinks 8 9 10 11) (element-HasLinks 12 13 14 15)

-- The row base 0 with the column base 4 gives eight quartets in place of four.
wide_block : length (quartet_base_indices 0 4) ≡ 8
unfolding quartet_base_indices base_rows
wide_block = refl

-- The row base 4 with the column base 0 gives none, and the wiring finds nothing at its indices.
tall_block : quartet_base_indices 4 0 ≡ []
unfolding quartet_base_indices base_rows
tall_block = refl

tall_block_raises : Block.wire [] ≡ err index_error
unfolding Block.wire connect_quartets_at
tall_block_raises = refl
