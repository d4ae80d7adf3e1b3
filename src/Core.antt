-- ===== src/Core.antt =====
-- tools/simulator/core.py: a processing element core. It refers to its channel buffers by their
-- positions in the store. The name and the debug output are left out.
pub mod Execute
pub mod Guards
pub mod Fits
pub mod Safety
pub mod Cycle
use tia_infrastructure.Prelude.{
  ℕ, suc, ◌+◌, ◌-◌, ◌<◌, Bool, true, false, not, ◌==◌, ltb, if◌then◌else◌, Option, none, some, List,
  [], ◌∷◌, ◌++◌, map, length, get_elem?, set, replicate, Result, ok, err, simulator_exception,
  index_error, type_error, value_error, ◌>>=◌, ◌>>◌, raise_if, or_raise, get_item,
}
use tia_infrastructure.Prelude.Int.{ℤ, pos, negsuc}
use tia_infrastructure.Parameters.{CoreParameters}
use tia_infrastructure.Interconnect.{Packet}
use tia_infrastructure.Store.{Store, full_at, empty_at, peek_at, enqueue_at, dequeue_at, reset_at}
use tia_infrastructure.Isa.{Op, SourceType, DestinationType, Trigger, Instruction}
use tia_infrastructure.Isa.Numpy.{Numpy}
use tia_infrastructure.Isa.Ops.{op_implementation}

pub record Core : Type 0 where
  pub instructions : List Instruction
  pub predicates : List Bool
  pub registers : List ℕ
  pub scratchpad : Option (List ℕ)
  pub input_channel_buffers : List ℕ
  pub output_channel_buffers : List ℕ
  pub halt_register : Bool
  pub instructions_retired : ℕ
  pub untriggered_cycles : ℕ
  -- numbers of instructions, -1 for a cycle with none
  pub execution_trace : List ℤ

-- `Core.__init__`, given the references of its new channel buffers.
unfoldable pub init : CoreParameters → List ℕ → List ℕ → Core
init cp ins outs = record {
  instructions = [];
  predicates = replicate cp.num_predicates false;
  registers = replicate cp.num_registers 0;
  scratchpad =
      if cp.num_scratchpad_words == 0 then none else some (replicate cp.num_scratchpad_words 0);
  input_channel_buffers = ins;
  output_channel_buffers = outs;
  halt_register = false;
  instructions_retired = 0;
  untriggered_cycles = 0;
  execution_trace = [];
}

-- `initialize_registers`
unfoldable pub initialize_registers : Numpy → List ℤ → Core → Result Core
initialize_registers np values c =
    if length values == length c.registers
    then ok (record c { registers = map np.uint32 values })
    else err simulator_exception

-- `program`
unfoldable pub program : Numpy → List ℤ → List Instruction → Core → Result Core
unfolding initialize_registers
program np values instructions c = do
  c' ← initialize_registers np values c
  ok (record c' { instructions = instructions })

-- `for x in xs: if not test(x): return False`, and then `rest`
unfoldable pub all_of : (ℕ → Result Bool) → List ℕ → Result Bool → Result Bool
all_of test [] rest = rest
all_of test (x ∷ xs) rest =
    let next = all_of test xs rest in test x >>= λ b. if b then next else ok false

-- The reference behind an index into the input or the output channel buffers.
abbrev pub input_ref : Core → ℕ → Result ℕ
input_ref c i = get_item c.input_channel_buffers i

abbrev pub output_ref : Core → ℕ → Result ℕ
output_ref c i = get_item c.output_channel_buffers i

-- `packet.tag == tag`
abbrev pub tag_matches : Option ℕ → ℕ → Bool
tag_matches none t = false
tag_matches (some u) t = u == t

abbrev same : Bool → Bool → Bool
same true b = b
same false b = not b

-- The loop over `zip(input_channels, input_channel_tags, input_channel_tag_booleans)`.
unfoldable pub check_tags : Core → Store → List ℕ → List ℕ → List Bool → Result Bool → Result Bool
check_tags c s (i ∷ is) (t ∷ ts) (b ∷ bs) rest =
    let next = check_tags c s is ts bs rest in
    input_ref c i >>= λ r.
    peek_at r s >>= λ p. if same b (tag_matches p.tag t) then next else ok false
check_tags c s _ _ _ rest = rest

abbrev pub is_true : Core → ℕ → Result Bool
is_true c i = get_item c.predicates i

abbrev pub is_false : Core → ℕ → Result Bool
is_false c i = get_item c.predicates i >>= λ b. ok (not b)

abbrev pub is_waiting : Core → Store → ℕ → Result Bool
is_waiting c s i = input_ref c i >>= λ r. empty_at r s >>= λ b. ok (not b)

abbrev pub has_room : Core → Store → ℕ → Result Bool
has_room c s i = output_ref c i >>= λ r. full_at r s >>= λ b. ok (not b)

unfoldable pub check_trigger : Core → Store → Trigger → Result Bool
check_trigger c s t = all_of (is_true c) t.true_predicates (
    all_of (is_false c) t.false_predicates (
      all_of (is_waiting c s) t.input_channels (
        check_tags c s t.input_channels t.input_channel_tags t.input_channel_tag_booleans
          (all_of (has_room c s) t.output_channel_indices (ok true)))))

-- The first instruction whose trigger holds.
unfoldable pub find_instruction : Core → Store → List Instruction → Result (Option Instruction)
find_instruction c s [] = ok none
find_instruction c s (i ∷ is) =
    let next = find_instruction c s is in
    check_trigger c s i.trigger >>= λ b. if b then ok (some i) else next
