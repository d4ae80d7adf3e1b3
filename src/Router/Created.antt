-- ===== src/Router/Created.antt =====
-- A new element of tools/simulator/processing_element.py has its buffers in the store.
use mathlib.Core.Path.{ap₂}
use tia_infrastructure.Prelude.{
  ℕ, zero, suc, ◌+◌, ◌≤◌, ◌<◌, ◌≡◌, refl, ap, none, List, [], ◌∷◌, ◌++◌, map, length, All, All-map,
  replicate, length-append, length-replicate, arith, Safely, Safely-of_eq, Safely-bind,
}
use tia_infrastructure.Prelude.Text.{Text, codes}
use tia_infrastructure.Prelude.Text.Parts.{All-append}
use tia_infrastructure.Parameters.{CoreParameters}
use tia_infrastructure.Parameters.Platform.{InterconnectParameters}
use tia_infrastructure.Interconnect.{BufferClass, Buffer, fresh_buffer}
use tia_infrastructure.Interconnect.Invariant.{IsValid, fresh_buffer-IsValid}
use tia_infrastructure.Store.{Store}
use tia_infrastructure.Core
use tia_infrastructure.Router.{RouterType, ProcessingElement, init}
use tia_infrastructure.Router.Total.{Wired}
use tia_infrastructure.Router.Placed.{Placed, Placed-le}
use tia_infrastructure.Router.Create.{
  channel_buffers, positions, new_input_buffers, new_output_buffers, new_core, router_type_named,
  new_element, new_elements,
}

-- Parameters of software routers with a channel and a link for each direction.
pub record IsFourWay (cp : CoreParameters) (ip : InterconnectParameters) : Type 0 where
  pub software : ip.router_type ≡ codes "software"
  pub inputs : 4 ≤ cp.num_input_channels
  pub outputs : 4 ≤ cp.num_output_channels
  pub sources : 4 ≤ ip.num_router_sources
  pub destinations : 4 ≤ ip.num_router_destinations

-- A valid buffer that forwards nothing.
abbrev pub Loose : Buffer → Type 0
Loose b = IsValid b × (b.peripheral_destination ≡ none)

pub fresh_buffer-Loose : (c : BufferClass) (name : Text) (d : ℕ) → Loose (fresh_buffer c name d)
unfolding fresh_buffer
fresh_buffer-Loose c name d = (fresh_buffer-IsValid c name d, refl)

-- The store has new buffers, if any, at its end, and none that forwards.
pub record Grown (s t : Store) : Type 0 where
  pub longer : length s ≤ length t
  pub loose : All Loose s → All Loose t

pub Grown-trans : {s t u : Store} → Grown s t → Grown t u → Grown s u
Grown-trans g h = record {
  longer = omega (arith, g.longer, h.longer);
  loose = λ l. h.loose (g.loose l);
}

pub append-Grown : (s t : Store) → All Loose t → Grown s (s ++ t)
append-Grown s t h = record {
  longer = omega (arith, length-append s t);
  loose = λ l. All-append Loose s t l h;
}

channel_buffers-Loose :
    (c : BufferClass) (prefix : Text) (depth i n : ℕ)
    → All Loose (channel_buffers c prefix depth i n)
      × (length (channel_buffers c prefix depth i n) ≡ n)
unfolding channel_buffers
channel_buffers-Loose c prefix depth i zero = (tt, refl)
channel_buffers-Loose c prefix depth i (suc n) =
    let (h, e) = channel_buffers-Loose c prefix depth (suc i) n in
    ((fresh_buffer-Loose c _ depth, h), ap suc e)

positions-lt : (first n : ℕ) → All (λ r. r < first + n) (positions first n)
positions-lt first zero = tt
positions-lt first (suc n) = (
  omega arith,
  All-map (λ r k. omega (arith, k)) (positions (suc first) n) (positions-lt (suc first) n),
)

length-positions : (first n : ℕ) → length (positions first n) ≡ n
length-positions first zero = refl
length-positions first (suc n) = ap suc (length-positions (suc first) n)

Wired-replicate : (refs : List ℕ) (n i k : ℕ) → Wired refs n i (replicate k none)
Wired-replicate refs n i zero = tt
Wired-replicate refs n i (suc k) = Wired-replicate refs n (suc i) k

module _ (cp : CoreParameters) (ip : InterconnectParameters) (w : IsFourWay cp ip) where
  -- What the construction of an element gives.
  abbrev pub Created : Text → Store → ProcessingElement × Store → Type 0
  Created name s x = Placed (length x.1) x.0 × (x.0.name ≡ name) × Grown s x.1

  new_length :
      (name : Text) (s : Store)
      → length (new_core name cp s).1 ≡ length s + cp.num_input_channels + cp.num_output_channels
  unfolding new_core
  new_length name s =
      let ins =
        channel_buffers-Loose BufferClass.receiver (name ++ codes ": Input Channel Buffer ")
          cp.channel_buffer_depth 0 cp.num_input_channels in
      let outs =
        channel_buffers-Loose BufferClass.sender (name ++ codes ": Output Channel Buffer ")
          cp.channel_buffer_depth 0 cp.num_output_channels in
      omega (
        arith,
        length-append s (new_input_buffers name cp ++ new_output_buffers name cp),
        length-append (new_input_buffers name cp) (new_output_buffers name cp),
        ins.1,
        outs.1,
      )

  new_core-Grown : (name : Text) (s : Store) → Grown s (new_core name cp s).1
  unfolding new_core
  new_core-Grown name s = append-Grown s (new_input_buffers name cp ++ new_output_buffers name cp) (
      All-append Loose (new_input_buffers name cp) (new_output_buffers name cp)
        (channel_buffers-Loose BufferClass.receiver _ _ 0 cp.num_input_channels).0
        (channel_buffers-Loose BufferClass.sender _ _ 0 cp.num_output_channels).0)

  -- The element that the construction makes.
  abbrev created : Text → Store → ProcessingElement
  created name s =
      init name RouterType.software ip.num_router_sources ip.num_router_destinations
        (new_core name cp s).0

  created-Placed :
      (name : Text) (s : Store) → Placed (length (new_core name cp s).1) (created name s)
  unfolding new_core init Core.init
  created-Placed name s = record {
    links = record {
      software = refl;
      inputs = omega (arith, w.inputs, length-positions (length s) cp.num_input_channels);
      outputs = omega (
        arith,
        w.outputs,
        length-positions (length s + cp.num_input_channels) cp.num_output_channels,
      );
      sources = rw length-replicate w.sources;
      destinations = rw length-replicate w.destinations;
    };
    idle = refl;
    router_inputs = refl;
    router_outputs = refl;
    inputs_within =
        All-map (λ r k. omega (arith, k, new_length name s))
          (positions (length s) cp.num_input_channels)
          (positions-lt (length s) cp.num_input_channels);
    outputs_within =
        All-map (λ r k. omega (arith, k, new_length name s))
          (positions (length s + cp.num_input_channels) cp.num_output_channels)
          (positions-lt (length s + cp.num_input_channels) cp.num_output_channels);
    wired = record {
      sources = Wired-replicate _ _ 0 ip.num_router_sources;
      destinations = Wired-replicate _ _ 0 ip.num_router_destinations;
    };
  }

  pub new_element-Created :
      (name : Text) (s : Store) → Safely ⊥ (Created name s) (new_element name cp ip s)
  unfolding new_element router_type_named init
  new_element-Created name s = Safely-of_eq ⊥ (Created name s) (new_element name cp ip s) (
    (created name s, (new_core name cp s).1),
    rw w.software,
    (created-Placed name s, refl, new_core-Grown name s),
  )

  -- Elements that are all created, with these names.
  abbrev pub AllCreated : List Text → Store → List ProcessingElement × Store → Type 0
  AllCreated names s x =
      All (Placed (length x.1)) x.0 × (map (λ p. p.name) x.0 ≡ names) × Grown s x.1

  pub new_elements-AllCreated :
      (names : List Text) (s : Store) → Safely ⊥ (AllCreated names s) (new_elements names cp ip s)
  unfolding new_elements
  new_elements-AllCreated [] s = (tt, refl, record { longer = omega arith; loose = λ l. l })
  new_elements-AllCreated (name ∷ names) s =
      Safely-bind ⊥ (Created name s) (AllCreated (name ∷ names) s) (new_element name cp ip s) _
        (new_element-Created name s)
        λ x c.
          Safely-bind ⊥ (AllCreated names x.1) (AllCreated (name ∷ names) s)
            (new_elements names cp ip x.1) _ (new_elements-AllCreated names x.1)
            λ y d. ((Placed-le d.2.longer c.0, d.0), ap₂ ◌∷◌ c.1 d.1, Grown-trans c.2 d.2)
