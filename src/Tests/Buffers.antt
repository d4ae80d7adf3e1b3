-- ===== src/Tests/Buffers.antt =====
-- Buffers, links and the commit phase at concrete inputs.
use tia_infrastructure.Prelude.{
  ℕ, ◌≡◌, ◌≢◌, refl, Bool, true, false, none, some, List, [], ◌∷◌, ◌++◌, length, All, ok, arith,
}
use tia_infrastructure.Interconnect.{Packet, Buffer, sender, receiver}
use tia_infrastructure.Interconnect.Invariant.{IsValid}
use tia_infrastructure.Interconnect.Fifo.{Cycle, Traffic, run_cycles, Flows, run_cycles-Flows}
use tia_infrastructure.Interconnect.Fifo.Drain.{run_cycles-drains}
use tia_infrastructure.Store.{Store}
use tia_infrastructure.Store.Keeps.{Keeps}
use tia_infrastructure.Direction.{Direction, reverse_direction}
use tia_infrastructure.Router.{
  RouterType, Router, ProcessingElement, route_in, route_out, iterate, connect_processing_elements,
}
use tia_infrastructure.Router.Link.{route_twice}
use tia_infrastructure.Router.Total.{IsWired, iterate_total}
use tia_infrastructure.Router.Wiring.{HasLinks, Points, connect_processing_elements-Points}
use tia_infrastructure.System.{commit_buffers}
use tia_infrastructure.System.Commit.{commit_buffers_total}

abbrev packet : ℕ → Packet
packet n = record { tag = some 1; value = n }

-- A buffer with one packet, and one that is empty.
abbrev pub stocked : Buffer
stocked = record {
  name = [];
  buffer_class = sender;
  depth = 2;
  deque = packet 7 ∷ [];
  staged_enqueue = false;
  staged_packet = none;
  staged_dequeue = false;
  pending = false;
  peripheral_destination = none;
}

abbrev pub empty_buffer : Buffer
empty_buffer = record stocked { buffer_class = receiver; deque = [] }

-- The buffer of one packet, with both an enqueue and a dequeue staged.
abbrev busy : Buffer
busy = record stocked {
  staged_enqueue = true;
  staged_packet = some (packet 8);
  staged_dequeue = true;
  pending = true;
}

pub stocked-IsValid : IsValid stocked
stocked-IsValid = ground arith

pub empty_buffer-IsValid : IsValid empty_buffer
empty_buffer-IsValid = ground arith

busy-IsValid : IsValid busy
busy-IsValid = ground arith

abbrev pub two_buffers : Store
two_buffers = stocked ∷ empty_buffer ∷ []

abbrev traffic : List Cycle
traffic =
    record { offered = some (packet 8); wanted = false }
    ∷ record { offered = some (packet 9); wanted = true }
    ∷ record { offered = none; wanted = true }
    ∷ []

run_cycles-Flows_example : (t : Traffic) × (run_cycles traffic stocked ≡ ok t) × Flows stocked t
run_cycles-Flows_example = run_cycles-Flows traffic stocked-IsValid (refl, refl, refl)

run_cycles-drains_example :
    (t : Traffic) × (rest : List Packet) × (run_cycles
        (record { offered = some (packet 9); wanted = true } ∷ [])
        stocked
      ≡ ok t)
    × (t.delivered ≡ stocked.deque ++ rest)
run_cycles-drains_example =
    run_cycles-drains (record { offered = some (packet 9); wanted = true } ∷ []) stocked
      stocked-IsValid (refl, refl, refl) (refl, tt) (omega arith)

abbrev west_end : ℕ
west_end = 0

apart : west_end ≢ 1
apart e = absurd (omega (arith, e))

route_twice_example :
    (t : Store) × (route_out 0 1 two_buffers ≡ ok t)
    × (route_in 0 1 t ≡ ok t)
    × (route_out 0 1 t ≡ ok t)
route_twice_example = route_twice 0 1 two_buffers apart (omega arith) (omega arith)

abbrev router : Router
router = record {
  router_type = RouterType.software;
  input_channel_buffers = 1 ∷ [];
  output_channel_buffers = 0 ∷ [];
  source_buffers = none ∷ [];
  destination_buffers = some 1 ∷ [];
}

router-IsWired : IsWired router 2
router-IsWired = record { sources = tt; destinations = ((0, refl, omega arith), omega arith, tt) }

iterate_total_example : (t : Store) × (iterate router two_buffers ≡ ok t) × Keeps two_buffers t
iterate_total_example = iterate_total router two_buffers router-IsWired

-- The core of an element with four buffers on each side, from `n` on.
abbrev pub element : ℕ → ℕ → ℕ → ℕ → ProcessingElement
element a b c d = record {
  name = [];
  core = record {
    instructions = [];
    predicates = false ∷ [];
    registers = 0 ∷ [];
    scratchpad = none;
    input_channel_buffers = a ∷ b ∷ c ∷ d ∷ [];
    output_channel_buffers = d ∷ c ∷ b ∷ a ∷ [];
    halt_register = false;
    instructions_retired = 0;
    untriggered_cycles = 0;
    execution_trace = [];
  };
  router = record {
    router_type = RouterType.software;
    input_channel_buffers = a ∷ b ∷ c ∷ d ∷ [];
    output_channel_buffers = d ∷ c ∷ b ∷ a ∷ [];
    source_buffers = none ∷ none ∷ none ∷ none ∷ [];
    destination_buffers = none ∷ none ∷ none ∷ none ∷ [];
  };
}

pub element-HasLinks : (a b c d : ℕ) → HasLinks (element a b c d)
element-HasLinks a b c d = record {
  software = refl;
  inputs = omega arith;
  outputs = omega arith;
  sources = omega arith;
  destinations = omega arith;
}

abbrev west_element : ProcessingElement
west_element = element 0 1 2 3

abbrev east_element : ProcessingElement
east_element = element 4 5 6 7

connect_processing_elements-Points_example :
    (x : ProcessingElement × ProcessingElement) × (connect_processing_elements west_element
        east_element Direction.east
      ≡ ok x)
    × Points Direction.east west_element.router x.0.router east_element.core
    × Points (reverse_direction Direction.east) east_element.router x.1.router west_element.core
    × (x.0.core ≡ west_element.core)
    × (x.1.core ≡ east_element.core)
    × HasLinks x.0
    × HasLinks x.1
connect_processing_elements-Points_example =
    connect_processing_elements-Points west_element east_element Direction.east
      (element-HasLinks 0 1 2 3) (element-HasLinks 4 5 6 7)

commit_buffers_total_example :
    (d : Bool) × (t : Store) × (commit_buffers (0 ∷ 1 ∷ 0 ∷ []) two_buffers ≡ ok (d, t))
    × (length t ≡ length two_buffers)
    × All IsValid t
commit_buffers_total_example =
    commit_buffers_total (0 ∷ 1 ∷ 0 ∷ []) two_buffers (stocked-IsValid, (empty_buffer-IsValid, tt))
      (omega arith, (omega arith, (omega arith, tt)))
