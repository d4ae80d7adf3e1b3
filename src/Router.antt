-- ===== src/Router.antt =====
-- tools/simulator/router.py and tools/simulator/processing_element.py: the software router, which is
-- wires between a core's channel buffers and those of its neighbours, and the processing element
-- around a core and a router. A router refers to buffers by their positions in the store.
pub mod Wiring
pub mod Link
pub mod Total
pub mod Create
pub mod Placed
pub mod Created
use tia_infrastructure.Prelude.{
  ℕ, suc, Bool, true, false, if◌then◌else◌, Option, none, some, List, [], ◌∷◌, length, set,
  replicate, ◌+◌, Result, ok, err, simulator_exception, ◌>>=◌, get_item,
}
use tia_infrastructure.Prelude.Text.{Text}
use tia_infrastructure.Direction.{Direction, index, reverse_direction}
use tia_infrastructure.Interconnect.{BufferClass, Buffer}
use tia_infrastructure.Store.{Store, full_at, empty_at, enqueue_at, dequeue_at}
use tia_infrastructure.Isa.Numpy.{Numpy}
use tia_infrastructure.Core.{Core}
use tia_infrastructure.Core.Execute

-- `SwitchRouter` and `VirtualCircuitRouter` inherit the empty methods of `Router`.
pub data RouterType : Type 0 where
  software switch virtual_circuit : RouterType

pub record Router : Type 0 where
  pub router_type : RouterType
  pub input_channel_buffers : List ℕ
  pub output_channel_buffers : List ℕ
  pub source_buffers : List (Option ℕ)
  pub destination_buffers : List (Option ℕ)

pub record ProcessingElement : Type 0 where
  pub name : Text
  pub core : Core
  pub router : Router

abbrev is_software : RouterType → Bool
is_software RouterType.software = true
is_software _ = false

-- `ProcessingElement.__init__` and the routers' `__init__`; the other routers have no such lists.
unfoldable pub init : Text → RouterType → ℕ → ℕ → Core → ProcessingElement
init name t num_sources num_destinations c = record {
  name = name;
  core = c;
  router = record {
    router_type = t;
    input_channel_buffers = c.input_channel_buffers;
    output_channel_buffers = c.output_channel_buffers;
    source_buffers = if is_software t then replicate num_sources none else [];
    destination_buffers = if is_software t then replicate num_destinations none else [];
  };
}

-- `xs[i] = v`
abbrev pub assign {ℓ} : {A : Type ℓ} → List A → ℕ → A → Result (List A)
assign xs i v = get_item xs i >>= λ _. ok (set xs i v)

-- `SoftwareRouter.connect_to_processing_element`, and the empty method of the others.
unfoldable pub connect_to_processing_element :
    Direction → ProcessingElement → Router → Result Router
connect_to_processing_element d pe r =
    if is_software r.router_type
    then (if is_software pe.router.router_type
        then (do
          i ← get_item pe.core.input_channel_buffers (index (reverse_direction d))
          ds ← assign r.destination_buffers (index d) (some i)
          o ← get_item pe.core.output_channel_buffers (index (reverse_direction d))
          ss ← assign r.source_buffers (index d) (some o)
          ok (record r { source_buffers = ss; destination_buffers = ds }))
        else err simulator_exception)
    else ok r

abbrev is_sender : BufferClass → Bool
is_sender BufferClass.sender = true
is_sender _ = false

abbrev is_receiver : BufferClass → Bool
is_receiver BufferClass.receiver = true
is_receiver _ = false

unfoldable pub connect_to_sender_channel_buffer : Direction → ℕ → Store → Router → Result Router
connect_to_sender_channel_buffer d k s r =
    if is_software r.router_type
    then (do
      b ← get_item s k
      ss ←
          (if is_sender b.buffer_class
            then assign r.source_buffers (index d) (some k)
            else err simulator_exception)
      ok (record r { source_buffers = ss }))
    else ok r

unfoldable pub connect_to_receiver_channel_buffer : Direction → ℕ → Store → Router → Result Router
connect_to_receiver_channel_buffer d k s r =
    if is_software r.router_type
    then (do
      b ← get_item s k
      ds ←
          (if is_receiver b.buffer_class
            then assign r.destination_buffers (index d) (some k)
            else err simulator_exception)
      ok (record r { destination_buffers = ds }))
    else ok r

-- `connect_processing_elements`
unfoldable pub connect_processing_elements :
    ProcessingElement
    → ProcessingElement
    → Direction
    → Result (ProcessingElement × ProcessingElement)
connect_processing_elements a b d = do
  r ← connect_to_processing_element d b a.router
  let a' = record a { router = r }
  q ← connect_to_processing_element (reverse_direction d) a' b.router
  ok (a', record b { router = q })

-- `packet = from.dequeue(); to.enqueue(packet)`
unfoldable pub move : ℕ → ℕ → Store → Result Store
move from to s = dequeue_at from s >>= λ x. enqueue_at to x.0 x.1

-- The body of the loop over the sources: a packet to a core's input.
unfoldable pub route_in : ℕ → ℕ → Store → Result Store
route_in source input s = full_at input s >>= λ full.
    if full
    then ok s
    else (empty_at source s >>= λ nothing. if nothing then ok s else move source input s)

-- The body of the loop over the destinations: a packet from a core's output.
unfoldable pub route_out : ℕ → ℕ → Store → Result Store
route_out output destination s = empty_at output s >>= λ nothing.
    if nothing
    then ok s
    else (full_at destination s >>= λ full. if full then ok s else move output destination s)

-- The loops; `i` is the enumeration index.
unfoldable pub route_sources : List ℕ → ℕ → List (Option ℕ) → Store → Result Store
route_sources inputs i [] s = ok s
route_sources inputs i (none ∷ ss) s = route_sources inputs (suc i) ss s
route_sources inputs i (some source ∷ ss) s = do
  input ← get_item inputs i
  s' ← route_in source input s
  route_sources inputs (suc i) ss s'

unfoldable pub route_destinations : List ℕ → ℕ → List (Option ℕ) → Store → Result Store
route_destinations outputs i [] s = ok s
route_destinations outputs i (none ∷ ds) s = route_destinations outputs (suc i) ds s
route_destinations outputs i (some destination ∷ ds) s = do
  output ← get_item outputs i
  s' ← route_out output destination s
  route_destinations outputs (suc i) ds s'

unfoldable pub iterate : Router → Store → Result Store
iterate r s =
    if is_software r.router_type
    then (do
      s' ← route_sources r.input_channel_buffers 0 r.source_buffers s
      route_destinations r.output_channel_buffers 0 r.destination_buffers s')
    else ok s

-- `ProcessingElement.iterate` and `ProcessingElement.reset`; the reset of a router does nothing.
unfoldable pub iterate_element :
    Numpy → Bool → ProcessingElement → Store → Result (ProcessingElement × Store)
iterate_element np keep pe s = do
  (c, s') ← Execute.iterate np keep pe.core s
  s'' ← iterate pe.router s'
  ok (record pe { core = c }, s'')

unfoldable pub reset_element : ProcessingElement → Store → Result (ProcessingElement × Store)
reset_element pe s = do (c, s') ← Execute.reset pe.core s; ok (record pe { core = c }, s')
