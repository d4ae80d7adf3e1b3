-- ===== src/Router/Placed.antt =====
-- Elements whose buffers are in the store: their construction, and what a connection keeps of them.
use tia_infrastructure.Prelude.{
  ℕ, zero, suc, ◌+◌, ◌≤◌, ◌<◌, ◌≡◌, refl, Option, none, some, List, [], ◌∷◌, length, All, All-map,
  All-get_elem?, get_elem?-lt, set, length-set, arith, ok, Safely, Safely-of_eq,
}
use tia_infrastructure.Direction.{Direction, index, reverse_direction}
use tia_infrastructure.Router.{
  Router, ProcessingElement, connect_to_processing_element, connect_processing_elements,
}
use tia_infrastructure.Router.Wiring.{HasLinks, index-lt}
use tia_infrastructure.Router.Total.{Wired, IsWired}

-- An element that is not programmed yet, with a software router that has a link for each direction;
-- the core's buffers and those of the links are in a store of `n`.
pub record Placed (n : ℕ) (pe : ProcessingElement) : Type 0 where
  pub links : HasLinks pe
  pub idle : pe.core.instructions ≡ []
  pub router_inputs : pe.router.input_channel_buffers ≡ pe.core.input_channel_buffers
  pub router_outputs : pe.router.output_channel_buffers ≡ pe.core.output_channel_buffers
  pub inputs_within : All (λ r. r < n) pe.core.input_channel_buffers
  pub outputs_within : All (λ r. r < n) pe.core.output_channel_buffers
  pub wired : IsWired pe.router n

Wired-le :
    (refs : List ℕ) {n m : ℕ} (i : ℕ) (xs : List (Option ℕ))
    → n ≤ m
    → Wired refs n i xs
    → Wired refs m i xs
Wired-le refs i [] l w = tt
Wired-le refs i (none ∷ xs) l w = Wired-le refs (suc i) xs l w
Wired-le refs i (some x ∷ xs) l ((r, e, h), k, w) =
    ((r, e, omega (arith, h, l)), omega (arith, k, l), Wired-le refs (suc i) xs l w)

pub Within-le : {n m : ℕ} (xs : List ℕ) → n ≤ m → All (λ r. r < n) xs → All (λ r. r < m) xs
Within-le xs l h = All-map (λ r k. omega (arith, k, l)) xs h

-- What is in a store is in a longer one.
pub Placed-le : {n m : ℕ} {pe : ProcessingElement} → n ≤ m → Placed n pe → Placed m pe
Placed-le {pe = pe} l p = record {
  links = p.links;
  idle = p.idle;
  router_inputs = p.router_inputs;
  router_outputs = p.router_outputs;
  inputs_within = Within-le pe.core.input_channel_buffers l p.inputs_within;
  outputs_within = Within-le pe.core.output_channel_buffers l p.outputs_within;
  wired = record {
    sources = Wired-le pe.router.input_channel_buffers 0 pe.router.source_buffers l p.wired.sources;
    destinations =
        Wired-le pe.router.output_channel_buffers 0 pe.router.destination_buffers l
          p.wired.destinations;
  };
}

-- A new link to a buffer of the store, at a place that the core has a buffer for.
Wired-set :
    (refs : List ℕ) (n i k v : ℕ) (xs : List (Option ℕ))
    → All (λ r. r < n) refs
    → i + k < length refs
    → v < n
    → Wired refs n i xs
    → Wired refs n i (set xs k (some v))
Wired-set refs n i k v [] h l m w = tt
Wired-set refs n i zero v (none ∷ xs) h l m w =
    let (r, e) = get_elem?-lt refs i (omega (arith, l)) in
    ((r, e, All-get_elem? (λ r. r < n) refs i h e), m, w)
Wired-set refs n i zero v (some x ∷ xs) h l m w =
    let (r, e) = get_elem?-lt refs i (omega (arith, l)) in
    ((r, e, All-get_elem? (λ r. r < n) refs i h e), m, w.2)
Wired-set refs n i (suc k) v (none ∷ xs) h l m w =
    Wired-set refs n (suc i) k v xs h (omega (arith, l)) m w
Wired-set refs n i (suc k) v (some x ∷ xs) h l m w =
    (w.0, w.1, Wired-set refs n (suc i) k v xs h (omega (arith, l)) m w.2)

abbrev pub with_source : Direction → ℕ → ProcessingElement → ProcessingElement
with_source d v pe = record pe {
  router = record (pe.router) { source_buffers = set pe.router.source_buffers (index d) (some v) };
}

abbrev pub with_destination : Direction → ℕ → ProcessingElement → ProcessingElement
with_destination d v pe = record pe {
  router = record (pe.router) {
    destination_buffers = set pe.router.destination_buffers (index d) (some v);
  };
}

pub with_source-Placed :
    {n : ℕ} (d : Direction) (v : ℕ) (pe : ProcessingElement)
    → v < n
    → Placed n pe
    → Placed n (with_source d v pe)
with_source-Placed {n} d v pe l p = record {
  links = record {
    software = p.links.software;
    inputs = p.links.inputs;
    outputs = p.links.outputs;
    sources = rw length-set p.links.sources;
    destinations = p.links.destinations;
  };
  idle = p.idle;
  router_inputs = p.router_inputs;
  router_outputs = p.router_outputs;
  inputs_within = p.inputs_within;
  outputs_within = p.outputs_within;
  wired = record {
    sources =
        Wired-set pe.router.input_channel_buffers n 0 (index d) v pe.router.source_buffers
          (rw p.router_inputs p.inputs_within)
          (rw p.router_inputs (omega (arith, index-lt d, p.links.inputs))) l p.wired.sources;
    destinations = p.wired.destinations;
  };
}

pub with_destination-Placed :
    {n : ℕ} (d : Direction) (v : ℕ) (pe : ProcessingElement)
    → v < n
    → Placed n pe
    → Placed n (with_destination d v pe)
with_destination-Placed {n} d v pe l p = record {
  links = record {
    software = p.links.software;
    inputs = p.links.inputs;
    outputs = p.links.outputs;
    sources = p.links.sources;
    destinations = rw length-set p.links.destinations;
  };
  idle = p.idle;
  router_inputs = p.router_inputs;
  router_outputs = p.router_outputs;
  inputs_within = p.inputs_within;
  outputs_within = p.outputs_within;
  wired = record {
    sources = p.wired.sources;
    destinations =
        Wired-set pe.router.output_channel_buffers n 0 (index d) v pe.router.destination_buffers
          (rw p.router_outputs p.outputs_within)
          (rw p.router_outputs (omega (arith, index-lt d, p.links.outputs))) l p.wired.destinations;
  };
}

-- A connection to an element of the store keeps an element so, and its name.
connect_lem :
    {n : ℕ} (d : Direction) (a b : ProcessingElement)
    → Placed n a
    → Placed n b
    → (r : Router) × (connect_to_processing_element d b a.router ≡ ok r)
      × Placed n (record a { router = r })
unfolding connect_to_processing_element
connect_lem {n} d a b p q =
    let (i, ei) =
      get_elem?-lt b.core.input_channel_buffers (index (reverse_direction d))
        (omega (arith, index-lt (reverse_direction d), q.links.inputs)) in
    let (o, eo) =
      get_elem?-lt b.core.output_channel_buffers (index (reverse_direction d))
        (omega (arith, index-lt (reverse_direction d), q.links.outputs)) in
    let (x, ex) =
      get_elem?-lt a.router.destination_buffers (index d)
        (omega (arith, index-lt d, p.links.destinations)) in
    let (y, ey) =
      get_elem?-lt a.router.source_buffers (index d) (omega (arith, index-lt d, p.links.sources)) in
    let li = All-get_elem? (λ r. r < n) b.core.input_channel_buffers _ q.inputs_within ei in
    let lo = All-get_elem? (λ r. r < n) b.core.output_channel_buffers _ q.outputs_within eo in
    let after = with_source d o (with_destination d i a) in
    (
      after.router,
      simp (p.links.software, q.links.software, ei, eo, ex, ey),
      with_source-Placed d o (with_destination d i a) lo (with_destination-Placed d i a li p),
    )

-- What a connection keeps of its two elements.
abbrev pub Kept :
    ℕ → ProcessingElement → ProcessingElement → ProcessingElement × ProcessingElement → Type 0
Kept n a b x = Placed n x.0 × Placed n x.1 × (x.0.name ≡ a.name) × (x.1.name ≡ b.name)

pub connect_processing_elements-Kept :
    {n : ℕ} (d : Direction) (a b : ProcessingElement)
    → Placed n a
    → Placed n b
    → Safely ⊥ (Kept n a b) (connect_processing_elements a b d)
unfolding connect_processing_elements
connect_processing_elements-Kept {n} d a b p q =
    let (r, e, p') = connect_lem d a b p q in
    let (t, f, q') = connect_lem (reverse_direction d) b (record a { router = r }) q p' in
    Safely-of_eq ⊥ (Kept n a b) (connect_processing_elements a b d)
      ((record a { router = r }, record b { router = t }), simp (e, f), (p', q', refl, refl))
