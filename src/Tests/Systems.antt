-- ===== src/Tests/Systems.antt =====
-- Memories and whole systems at concrete inputs.
use tia_infrastructure.Prelude.{
  ℕ, ◌≡◌, refl, true, none, some, List, [], ◌∷◌, All, err, arith, Safely, index_error,
}
use tia_infrastructure.Prelude.Text.{codes}
use tia_infrastructure.Interconnect.{dequeue}
use tia_infrastructure.Store.{dequeue_at}
use tia_infrastructure.Isa.Numpy.{wrapping}
use tia_infrastructure.Router.{RouterType, ProcessingElement}
use tia_infrastructure.Memory
use tia_infrastructure.Memory.{Memory, ReadPort}
use tia_infrastructure.Memory.Safety.{MemoryFits, BadRequest, MemoryCycled, iterate-Safely}
use tia_infrastructure.System
use tia_infrastructure.System.{System, run}
use tia_infrastructure.System.Safety.{
  SystemFits, SystemCycled, Faulty, iterate-SystemFits, Faults, Ended, run-Safely,
}
use tia_infrastructure.Tests.Buffers.{stocked-IsValid, empty_buffer-IsValid}
use tia_infrastructure.Tests.Cores.{store, adder, adder-ProgramFits}

-- A read port whose request is for word 7.
abbrev pub memory : ℕ → Memory
memory size = record (Memory.init (codes "memory") size) {
  read_ports =
      record { addr_in_channel_buffer = 0; data_out_channel_buffer = 1; pending_read_packet = none }
      ∷ [];
}

pub memory-MemoryFits : (size : ℕ) → MemoryFits 4 (memory size)
unfolding Memory.init
memory-MemoryFits size = record {
  reads = (record { address = omega arith; words = omega arith }, tt);
  writes = tt;
}

iterate-Safely_example :
    Safely
      (BadRequest store (memory 8))
      (MemoryCycled (memory 8) store)
      (Memory.iterate (memory 8) store)
iterate-Safely_example =
    iterate-Safely (memory 8) store (memory-MemoryFits 8) (tt, (tt, (tt, (tt, tt))))

-- With four words there is no word 7.
small_raises : Memory.iterate (memory 4) store ≡ err index_error
unfolding Memory.iterate Memory.each_port Memory.output Memory.serve dequeue_at dequeue Memory.init
small_raises = refl

abbrev pub element : ProcessingElement
element = record {
  name = codes "processing_element_0";
  core = adder;
  router = record {
    router_type = RouterType.software;
    input_channel_buffers = adder.input_channel_buffers;
    output_channel_buffers = adder.output_channel_buffers;
    source_buffers = some 1 ∷ [];
    destination_buffers = none ∷ some 2 ∷ none ∷ [];
  };
}

-- The element beside memories, with all four buffers registered.
abbrev pub system : List Memory → System
system ms = record {
  cycle = 0;
  processing_elements = element ∷ [];
  memories = ms;
  buffers = 0 ∷ 1 ∷ 2 ∷ 3 ∷ [];
  store = store;
}

pub system-SystemFits : (ms : List Memory) → All (MemoryFits 4) ms → SystemFits wrapping (system ms)
system-SystemFits ms h = record {
  elements = (
    record {
      program = adder-ProgramFits;
      wired = record {
        sources = ((0, refl, omega arith), omega arith, tt);
        destinations = ((2, refl, omega arith), omega arith, tt);
      };
    },
    tt,
  );
  memories = h;
  registered = (omega arith, (omega arith, (omega arith, (omega arith, tt))));
  valid =
      (stocked-IsValid, (empty_buffer-IsValid, (empty_buffer-IsValid, (empty_buffer-IsValid, tt))));
  forwards = (tt, (tt, (tt, (tt, tt))));
}

iterate-SystemFits_example :
    Safely
      (Faulty (system (memory 8 ∷ [])))
      (SystemCycled wrapping (system (memory 8 ∷ [])))
      (System.iterate wrapping true (system (memory 8 ∷ [])))
iterate-SystemFits_example =
    iterate-SystemFits wrapping true (system (memory 8 ∷ []))
      (system-SystemFits (memory 8 ∷ []) (memory-MemoryFits 8, tt))

run-Safely_example :
    Safely
      (Faults wrapping true (system (memory 8 ∷ [])))
      (Ended wrapping true)
      (run wrapping true 5 (system (memory 8 ∷ [])))
run-Safely_example =
    run-Safely wrapping true 5 (system (memory 8 ∷ []))
      (system-SystemFits (memory 8 ∷ []) (memory-MemoryFits 8, tt))
