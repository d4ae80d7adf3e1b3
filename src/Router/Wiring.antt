-- ===== src/Router/Wiring.antt =====
-- `connect_processing_elements`: each side's destination is the other's input in the reverse
-- direction, and each side's source is the other's output.
use tia_infrastructure.Prelude.{
  ℕ, ◌<◌, ◌≤◌, ◌≡◌, ◌≢◌, refl, some, length, get_elem?, set, get_elem?-set_self, get_elem?-set_ne,
  get_elem?-lt, length-set, ok, arith,
}
use tia_infrastructure.Direction.{Direction, index, reverse_direction}
use tia_infrastructure.Core.{Core}
use tia_infrastructure.Router.{
  RouterType, Router, ProcessingElement, connect_to_processing_element, connect_processing_elements,
}

-- A software router of a core, with a buffer and a link for each direction.
pub record HasLinks (pe : ProcessingElement) : Type 0 where
  pub software : pe.router.router_type ≡ RouterType.software
  pub inputs : 4 ≤ length pe.core.input_channel_buffers
  pub outputs : 4 ≤ length pe.core.output_channel_buffers
  pub sources : 4 ≤ length pe.router.source_buffers
  pub destinations : 4 ≤ length pe.router.destination_buffers

-- The link `d` of a router goes to and from the buffers of `other`, and `before` has the same links
-- in every other direction.
pub record Points (d : Direction) (before after : Router) (other : Core) : Type 0 where
  pub input : ℕ
  pub output : ℕ
  pub input_there : get_elem? other.input_channel_buffers (index (reverse_direction d)) ≡ some input
  pub output_there :
      get_elem? other.output_channel_buffers (index (reverse_direction d)) ≡ some output
  pub sends : get_elem? after.destination_buffers (index d) ≡ some (some input)
  pub receives : get_elem? after.source_buffers (index d) ≡ some (some output)
  pub other_links :
      (e : Direction)
      → index d ≢ index e
      → (get_elem? after.destination_buffers (index e)
          ≡ get_elem? before.destination_buffers (index e))
        × (get_elem? after.source_buffers (index e) ≡ get_elem? before.source_buffers (index e))

pub index-lt : (d : Direction) → index d < 4
index-lt Direction.north = omega arith
index-lt _ = omega arith

connect_lem :
    (d : Direction) (a b : ProcessingElement)
    → HasLinks a
    → HasLinks b
    → (r : Router) × (connect_to_processing_element d b a.router ≡ ok r)
      × Points d a.router r b.core
      × HasLinks (record a { router = r })
unfolding connect_to_processing_element
connect_lem d a b h k =
    let (i, ei) =
      get_elem?-lt b.core.input_channel_buffers (index (reverse_direction d))
        (omega (arith, index-lt (reverse_direction d), k.inputs)) in
    let (o, eo) =
      get_elem?-lt b.core.output_channel_buffers (index (reverse_direction d))
        (omega (arith, index-lt (reverse_direction d), k.outputs)) in
    let ld : index d < length a.router.destination_buffers =
      omega (arith, index-lt d, h.destinations) in
    let ls : index d < length a.router.source_buffers = omega (arith, index-lt d, h.sources) in
    let (x, ex) = get_elem?-lt a.router.destination_buffers (index d) ld in
    let (y, ey) = get_elem?-lt a.router.source_buffers (index d) ls in
    (
      record (a.router) {
        source_buffers = set a.router.source_buffers (index d) (some o);
        destination_buffers = set a.router.destination_buffers (index d) (some i);
      },
      simp (h.software, k.software, ei, eo, ex, ey),
      record {
        input = i;
        output = o;
        input_there = ei;
        output_there = eo;
        sends = get_elem?-set_self a.router.destination_buffers (index d) (some i) ld;
        receives = get_elem?-set_self a.router.source_buffers (index d) (some o) ls;
        other_links = λ e n. (
          get_elem?-set_ne a.router.destination_buffers (index d) (index e) (some i) n,
          get_elem?-set_ne a.router.source_buffers (index d) (index e) (some o) n,
        );
      },
      record {
        software = h.software;
        inputs = h.inputs;
        outputs = h.outputs;
        sources = rw length-set h.sources;
        destinations = rw length-set h.destinations;
      },
    )

-- Connecting two software elements with a link for each direction succeeds. The first then sends to
-- the second's input in the reverse direction and receives from its output there, and the second the
-- other way round; all other links and both cores stay as they were.
pub connect_processing_elements-Points :
    (a b : ProcessingElement) (d : Direction)
    → HasLinks a
    → HasLinks b
    → (x : ProcessingElement × ProcessingElement) × (connect_processing_elements a b d ≡ ok x)
      × Points d a.router x.0.router b.core
      × Points (reverse_direction d) b.router x.1.router a.core
      × (x.0.core ≡ a.core)
      × (x.1.core ≡ b.core)
      × HasLinks x.0
      × HasLinks x.1
unfolding connect_processing_elements
connect_processing_elements-Points a b d h k =
    let (r, e, p, h') = connect_lem d a b h k in
    let (q, f, p', k') = connect_lem (reverse_direction d) b (record a { router = r }) k h' in
    ((record a { router = r }, record b { router = q }), simp (e, f), p, p', refl, refl, h', k')
