-- ===== src/Tests/Instances.antt =====
-- Built systems at concrete parameters.
use mathlib.Core.List.{Permᴰ}
use tia_infrastructure.Prelude.{
  ℕ, ◌≡◌, refl, true, none, some, Option, List, [], ◌∷◌, map, ok, err, Result, attribute_error,
  simulator_exception, arith, Safely,
}
use tia_infrastructure.Prelude.Text.{codes}
use tia_infrastructure.Prelude.Sort.{sorted_by}
use tia_infrastructure.Prelude.Int.{ℤ, pos}
use tia_infrastructure.Isa.{Instruction}
use tia_infrastructure.Parameters.Platform.{InterconnectParameters, SystemParameters}
use tia_infrastructure.Isa.Numpy.{wrapping}
use tia_infrastructure.Interconnect.{fresh_buffer}
use tia_infrastructure.Core
use tia_infrastructure.Memory
use tia_infrastructure.Memory.{add_read_port, add_write_port}
use tia_infrastructure.Router
use tia_infrastructure.Router.Create.{new_element, new_core, router_type_named, channel_buffers}
use tia_infrastructure.Router.{
  ProcessingElement, connect_to_sender_channel_buffer, connect_to_receiver_channel_buffer,
}
use tia_infrastructure.Router.Created.{IsFourWay}
use tia_infrastructure.System.{System, run, register_element, register_memory}
use tia_infrastructure.System.Safety.{Faults, Ended}
use tia_infrastructure.System.Finalize.{finalize, check_names, natural_number_sort_key}
use tia_infrastructure.System.Finalize.Accepts.{finalize_iff, Finalized, HasNames}
use tia_infrastructure.Array.Block
use tia_infrastructure.Array.Block.{quartet_base_indices}
use tia_infrastructure.Array.Block.Created.{BuiltSquares, squares_names, block-BuiltSquares}
use tia_infrastructure.Instances.{
  build_pets_system, build_qts_system, build_bts_system, build_ats_system, load_all, start,
  empty_system, read_port, write_port, new_read_port, new_write_port, to_receiver, from_sender,
  finish,
}
use tia_infrastructure.Instances.Registers.{IsInstance}
use tia_infrastructure.Instances.Systems.{builds-IsInstance, build_ats_system-raises}
use tia_infrastructure.Instances.Programs.{Loaded, load_all-run}
use tia_infrastructure.Tests.Words.{small, addition}
use tia_infrastructure.Tests.Systems.{element, memory, memory-MemoryFits, system, system-SystemFits}
use tia_infrastructure.Tests.Cores.{adder-ProgramFits}

abbrev software : InterconnectParameters
software = record {
  router_type = codes "software";
  num_router_sources = 4;
  num_router_destinations = 4;
  num_input_channels = 4;
  num_output_channels = 4;
  router_buffer_depth = 2;
  num_physical_planes = 2;
}

abbrev test_memory : SystemParameters
test_memory = record {
  host_word_width = 32;
  num_test_data_memory_words = 8;
  test_data_memory_buffer_depth = 2;
}

small-IsFourWay : IsFourWay small software
small-IsFourWay = record {
  software = refl;
  inputs = omega arith;
  outputs = omega arith;
  sources = omega arith;
  destinations = omega arith;
}

builds-IsInstance_example :
    ((z : System) × (build_pets_system small software test_memory ≡ ok z) × IsInstance wrapping 1 z)
    × ((z : System) × (build_qts_system small software test_memory ≡ ok z)
        × IsInstance wrapping 4 z)
    × ((z : System) × (build_bts_system small software test_memory ≡ ok z)
        × IsInstance wrapping 16 z)
builds-IsInstance_example = builds-IsInstance wrapping small software test_memory small-IsFourWay

build_ats_system-raises_example :
    build_ats_system small software test_memory 2 3 ≡ err attribute_error
build_ats_system-raises_example =
    build_ats_system-raises small software test_memory small-IsFourWay 2 3

-- The program of the element, with a value for its register.
abbrev programs : List (List ℤ × List Instruction)
programs = ((pos 5 ∷ []), (addition ∷ [])) ∷ []

load_all-run_example :
    (y : System) × (load_all wrapping 0 programs (system (memory 8 ∷ [])) ≡ ok y)
    × Loaded wrapping 0 programs (system (memory 8 ∷ [])) y
    × ((fuel : ℕ)
        → Safely (Faults wrapping true y) (Ended wrapping true) (run wrapping true fuel y))
load_all-run_example =
    load_all-run wrapping true programs (system (memory 8 ∷ []))
      (system-SystemFits (memory 8 ∷ []) (memory-MemoryFits 8, tt))
      ((element, refl, (adder-ProgramFits, refl)), tt)

-- Two elements, the second first.
abbrev twins : System
twins = record (system []) {
  processing_elements = record element { name = codes "processing_element_1" } ∷ element ∷ [];
}

finalize_iff_example :
    ((n : ℕ) → HasNames twins n → (z : System) × (finalize twins ≡ ok z) × Finalized n twins z)
    × ((z : System) → finalize twins ≡ ok z → (n : ℕ) × HasNames twins n)
finalize_iff_example = finalize_iff twins

twins-HasNames : HasNames twins 2
twins-HasNames = Permᴰ.swap refl refl

-- Number 10 comes after number 9, although "10" is before "9" as text.
decimal_order :
    sorted_by natural_number_sort_key
      (codes "processing_element_10" ∷ codes "processing_element_9" ∷ [])
    ≡ codes "processing_element_9" ∷ codes "processing_element_10" ∷ []
decimal_order = refl

-- Element 0 is missing.
missing_raises :
    finalize (record (system []) {
      processing_elements = record element { name = codes "processing_element_1" } ∷ [];
    })
    ≡ err simulator_exception
unfolding finalize check_names
missing_raises = refl

-- In the element test system the element's north link sends addresses to the first read port, and
-- receives words from it.
abbrev links : Result System → List (List (Option ℕ) × List (Option ℕ))
links (ok z) =
    map (λ (p : ProcessingElement). (p.router.destination_buffers, p.router.source_buffers))
      z.processing_elements
links (err e) = []

pets_links :
    links (build_pets_system small software test_memory)
    ≡ (some 8 ∷ some 10 ∷ some 12 ∷ some 13 ∷ [], some 9 ∷ some 11 ∷ none ∷ none ∷ []) ∷ []
unfolding build_pets_system new_element new_core router_type_named Router.init Core.init
    channel_buffers fresh_buffer register_element start Memory.init empty_system read_port
    write_port new_read_port new_write_port to_receiver from_sender add_read_port add_write_port
    connect_to_sender_channel_buffer connect_to_receiver_channel_buffer finish finalize check_names
    register_memory
pets_links = refl

block-BuiltSquares_example :
    Safely ⊥
      (BuiltSquares small software small-IsFourWay
        (squares_names small software small-IsFourWay 8 (quartet_base_indices 4 4))
        [])
      (Block.create 4 4 8 small software [])
block-BuiltSquares_example = block-BuiltSquares small software small-IsFourWay 4 4 8 [] refl
