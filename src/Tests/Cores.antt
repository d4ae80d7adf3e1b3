-- ===== src/Tests/Cores.antt =====
-- A core whose only instruction fires, and a system that has halted.
use tia_infrastructure.Prelude.{
  ℕ, ◌+◌, ◌≡◌, ◌≢◌, ◌↔◌, refl, ap, Bool, true, false, none, some, [], ◌∷◌, length, ok, arith, inl,
  All,
}
use tia_infrastructure.Prelude.Int.{negsuc}
use tia_infrastructure.Store.{Store, peek_at, commit_at}
use tia_infrastructure.Isa.{Op, SourceType, DestinationType, Instruction}
use tia_infrastructure.Isa.Numpy.{wrapping}
use tia_infrastructure.Isa.Ops.{add, nop, halt, op_implementation}
use tia_infrastructure.Core.{Core, check_trigger, find_instruction, all_of, check_tags}
use tia_infrastructure.Interconnect.{peek, commit}
use tia_infrastructure.Core.Execute.{
  execute, iterate, unpack_three, operand, perform, store_result, dequeue_all, update_predicates,
  set_item,
}
use tia_infrastructure.Core.Guards.{Holds, check_trigger_iff}
use tia_infrastructure.Core.Fits.{layout, Fits, TriggerFits, ProgramFits}
use tia_infrastructure.Core.Safety.{Fired, execute-Fired}
use tia_infrastructure.Core.Cycle.{Cycled, iterate-Cycled}
use tia_infrastructure.Router
use tia_infrastructure.Router.{
  RouterType, iterate_element, route_sources, route_destinations, route_in, route_out,
}
use tia_infrastructure.System
use tia_infrastructure.System.{System, all_halted, run}
use tia_infrastructure.System.Run.{Step, iterate-Step, Runs, last, more, Runs-run}
use tia_infrastructure.System.Halt.{IsHalted, IsDrained}
use tia_infrastructure.Tests.Buffers.{stocked, empty_buffer}
use tia_infrastructure.Tests.Words.{addition}

abbrev pub store : Store
store = stocked ∷ empty_buffer ∷ empty_buffer ∷ empty_buffer ∷ []

abbrev pub adder : Core
adder = record {
  instructions = addition ∷ [];
  predicates = false ∷ true ∷ false ∷ false ∷ [];
  registers = 0 ∷ [];
  scratchpad = none;
  input_channel_buffers = 0 ∷ [];
  output_channel_buffers = 1 ∷ 2 ∷ 3 ∷ [];
  halt_register = false;
  instructions_retired = 0;
  untriggered_cycles = 0;
  execution_trace = [];
}

adder-IsOpen : check_trigger adder store addition.trigger ≡ ok true
unfolding check_trigger all_of check_tags peek_at peek
adder-IsOpen = refl

addition-Holds : Holds adder store addition.trigger
addition-Holds = (check_trigger_iff adder store addition.trigger).0 adder-IsOpen

addition-TriggerFits : TriggerFits (layout adder) (length store) addition.trigger
addition-TriggerFits = record {
  true_fits = (omega arith, tt);
  false_fits = (omega arith, tt);
  input_fits = ((0, refl, omega arith), tt);
  output_fits = ((3, refl, omega arith), tt);
}

-- Where the operations lie in the enumeration, to tell them apart.
is_add : Op → Bool
is_add Op.add = true
is_add _ = false

add-IsFirst : (o : Op) → is_add o ≡ false → Op.add ≢ o
unfolding is_add
add-IsFirst o e q = let t : is_add Op.add ≡ is_add o = ap is_add q in ground arith

addition-Fits : Fits wrapping (layout adder) addition
unfolding op_implementation is_add
addition-Fits = record {
  sources = record {
    a_type = SourceType.channel;
    b_type = SourceType.immediate;
    c_type = SourceType.null;
    a_index = 0;
    b_index = 0;
    c_index = 0;
    types = refl;
    indices = refl;
    a_fits = inl refl;
    b_fits = (negsuc 6, refl);
    c_fits = tt;
  };
  implemented = λ a b c. (add wrapping a b c, refl);
  not_lsw = add-IsFirst Op.lsw refl;
  not_ssw = add-IsFirst Op.ssw refl;
  destination = (inl refl, tt);
  dequeues = (inl refl, tt);
  updates = (omega arith, tt);
  values = omega arith;
}

pub adder-ProgramFits : ProgramFits wrapping (layout adder) (length store) (addition ∷ [])
adder-ProgramFits = ((addition-TriggerFits, addition-Fits), tt)

execute-Fired_example :
    (r : Core × Store) × (execute wrapping addition adder store ≡ ok r)
    × Fired adder store addition r
execute-Fired_example = execute-Fired wrapping addition adder store addition-Holds addition-Fits

iterate-Cycled_example :
    (r : Core × Store) × (iterate wrapping true adder store ≡ ok r)
    × Cycled wrapping true adder store r
iterate-Cycled_example = iterate-Cycled wrapping true adder store adder-ProgramFits

check_trigger_iff_example :
    (check_trigger adder store addition.trigger ≡ ok true) ↔ Holds adder store addition.trigger
check_trigger_iff_example = check_trigger_iff adder store addition.trigger

-- A program that sets its predicate, and halts once it is set.
abbrev plain : Instruction
plain = record {
  trigger = record {
    true_predicates = [];
    false_predicates = 0 ∷ [];
    input_channels = [];
    input_channel_tags = [];
    input_channel_tag_booleans = [];
    output_channel_indices = [];
  };
  op = Op.nop;
  source_types = SourceType.null ∷ SourceType.null ∷ SourceType.null ∷ [];
  source_indices = 0 ∷ 0 ∷ 0 ∷ [];
  immediate = none;
  destination_type = DestinationType.null;
  destination_index = none;
  output_channel_tag = none;
  output_channel_indices = [];
  input_channels_to_dequeue = [];
  predicate_update_indices = 0 ∷ [];
  predicate_update_values = true ∷ [];
  number = 0;
}

abbrev stop : Instruction
stop = record plain {
  trigger = record (plain.trigger) { true_predicates = 0 ∷ []; false_predicates = [] };
  op = Op.halt;
  predicate_update_indices = [];
  predicate_update_values = [];
  number = 1;
}

-- The system after `retired` instructions.
abbrev after : ℕ → ℕ → Bool → Bool → System
after cycle retired set_predicate halted = record {
  cycle = cycle;
  processing_elements =
      record {
        name = [];
        core = record {
          instructions = stop ∷ plain ∷ [];
          predicates = set_predicate ∷ [];
          registers = [];
          scratchpad = none;
          input_channel_buffers = 0 ∷ [];
          output_channel_buffers = 1 ∷ [];
          halt_register = halted;
          instructions_retired = retired;
          untriggered_cycles = 0;
          execution_trace = [];
        };
        router = record {
          router_type = RouterType.software;
          input_channel_buffers = 0 ∷ [];
          output_channel_buffers = 1 ∷ [];
          source_buffers = none ∷ [];
          destination_buffers = none ∷ [];
        };
      }
      ∷ [];
  memories = [];
  buffers = 0 ∷ 1 ∷ [];
  store = empty_buffer ∷ empty_buffer ∷ [];
}

abbrev started : System
started = after 0 0 false false

abbrev middle : System
middle = after 1 1 true false

abbrev ended : System
ended = after 1 2 true true

started-iterate : System.iterate wrapping false started ≡ ok (false, middle)
unfolding System.iterate System.iterate_elements iterate_element iterate find_instruction
    check_trigger all_of check_tags execute unpack_three operand perform op_implementation
    store_result dequeue_all update_predicates set_item nop halt Router.iterate route_sources
    route_destinations route_in route_out System.iterate_memories System.commit_buffers commit_at
    commit all_halted
started-iterate = refl

middle-iterate : System.iterate wrapping false middle ≡ ok (true, ended)
unfolding System.iterate System.iterate_elements iterate_element iterate find_instruction
    check_trigger all_of check_tags execute unpack_three operand perform op_implementation
    store_result dequeue_all update_predicates set_item nop halt Router.iterate route_sources
    route_destinations route_in route_out System.iterate_memories System.commit_buffers commit_at
    commit all_halted
middle-iterate = refl

iterate-Step_example : Step middle true ended
iterate-Step_example = iterate-Step wrapping false middle middle-iterate

started-Runs : Runs wrapping false 1 started ended
started-Runs = more 0 started middle ended started-iterate (last middle ended middle-iterate)

Runs-run_example :
    (run wrapping false (2 + 3) started ≡ ok (some ended))
    × (ended.cycle ≡ started.cycle + 1)
    × All IsHalted ended.processing_elements
    × All (IsDrained ended.store) ended.buffers
Runs-run_example = Runs-run wrapping false 1 3 started-Runs
