-- ===== src/Core/Execute.antt =====
-- tools/simulator/core.py: `iterate`, from the operands of the instruction that fires to the updates
-- it makes, and `reset`.
use tia_infrastructure.Prelude.{
  ℕ, suc, ◌+◌, ◌-◌, Bool, true, false, not, ◌==◌, ltb, if◌then◌else◌, Option, none, some, List, [],
  ◌∷◌, ◌++◌, length, set, replicate, Result, ok, err, simulator_exception, index_error, type_error,
  value_error, ◌>>=◌, or_raise, get_item,
}
use tia_infrastructure.Prelude.Int.{ℤ, pos, negsuc}
use tia_infrastructure.Interconnect.{Packet}
use tia_infrastructure.Store.{Store, peek_at, enqueue_at, dequeue_at, reset_at}
use tia_infrastructure.Isa.{Op, SourceType, DestinationType, Instruction}
use tia_infrastructure.Isa.Numpy.{Numpy}
use tia_infrastructure.Isa.Ops.{op_implementation}
use tia_infrastructure.Core.{Core, input_ref, output_ref, find_instruction}

-- An operand. The assembler gives every instruction with an immediate source an immediate.
unfoldable pub operand : Core → Store → Instruction → SourceType → ℕ → Result ℤ
operand c s i SourceType.immediate index = or_raise i.immediate type_error
operand c s i SourceType.channel index =
    input_ref c index >>= λ r. peek_at r s >>= λ p. ok (pos p.value)
operand c s i SourceType.register index = get_item c.registers index >>= λ w. ok (pos w)
operand c s i SourceType.null index = ok (pos 0)

-- `a_type, b_type, c_type = xs`
unfoldable pub unpack_three {ℓ} : {A : Type ℓ} → List A → Result (A × A × A)
unpack_three (x ∷ y ∷ z ∷ []) = ok (x, y, z)
unpack_three _ = err value_error

-- The position behind an index of an array with `n` words; a negative index counts from the end.
unfoldable pub array_index : ℕ → ℤ → Result ℕ
array_index n (pos i) = if ltb i n then ok i else err index_error
array_index n (negsuc i) = if ltb i n then ok (n - suc i) else err index_error

abbrev is_halt : Op → Bool
is_halt Op.halt = true
is_halt _ = false

-- The performance counter and the halt register, before anything else.
abbrev pub retire : Instruction → Core → Core
retire i c = record c {
  instructions_retired = c.instructions_retired + 1;
  halt_register = if is_halt i.op then true else c.halt_register;
}

-- The last part of `iterate`: `execution_trace.append(...)`.
abbrev pub log : Bool → ℤ → Core → Core
log keep n c = if keep then record c { execution_trace = c.execution_trace ++ (n ∷ []) } else c

module _ (np : Numpy) where
  -- The three branches under "Perform operation".
  unfoldable pub perform : Op → ℤ → ℤ → ℤ → Core → Result (ℕ × Core)
  perform Op.lsw a b c core = do
    words ← or_raise core.scratchpad simulator_exception
    i ← array_index (length words) a
    w ← get_item words i
    ok (w, core)
  perform Op.ssw a b c core = do
    words ← or_raise core.scratchpad simulator_exception
    i ← array_index (length words) b
    ok (0, record core { scratchpad = some (set words i (np.uint32 a)) })
  perform op a b c core = op_implementation np op a b c >>= λ w. ok (w, core)

unfoldable pub enqueue_all : Core → Packet → List ℕ → Store → Result Store
enqueue_all c p [] s = ok s
enqueue_all c p (i ∷ is) s =
    output_ref c i >>= λ r. enqueue_at r p s >>= λ s'. enqueue_all c p is s'

-- `xs[i] = v`
unfoldable pub set_item {ℓ} : {A : Type ℓ} → List A → ℕ → A → Result (List A)
set_item xs i v = get_item xs i >>= λ _. ok (set xs i v)

-- `registers[index] = w` on numpy's array, where the index `None` stands for all of its words.
unfoldable pub set_registers : Option ℕ → ℕ → List ℕ → Result (List ℕ)
unfolding set_item
set_registers none w rs = ok (replicate (length rs) w)
set_registers (some k) w rs = set_item rs k w

-- "Store results in the destination". The predicates are a list, in which `None` is no index.
unfoldable pub store_result : Instruction → ℕ → Core → Store → Result (Core × Store)
unfolding enqueue_all set_item set_registers
store_result i w c s = elim i.destination_type [
  | DestinationType.channel ↦
      enqueue_all c (record { tag = i.output_channel_tag; value = w }) i.output_channel_indices s
      >>= λ s'. ok (c, s')
  | DestinationType.register ↦
      set_registers i.destination_index w c.registers >>= λ rs. ok (record c { registers = rs }, s)
  | DestinationType.predicate ↦ or_raise i.destination_index type_error >>= λ k.
      set_item c.predicates k (not (w == 0)) >>= λ ps. ok (record c { predicates = ps }, s)
  | DestinationType.null ↦ ok (c, s)
]

unfoldable pub dequeue_all : Core → List ℕ → Store → Result Store
dequeue_all c [] s = ok s
dequeue_all c (i ∷ is) s = input_ref c i >>= λ r. dequeue_at r s >>= λ x. dequeue_all c is x.1

-- `predicates[index] = predicate_update_values[i]` for each index
unfoldable pub update_predicates : List ℕ → List Bool → List Bool → Result (List Bool)
unfolding set_item
update_predicates [] vs ps = ok ps
update_predicates (i ∷ is) [] ps = err index_error
update_predicates (i ∷ is) (v ∷ vs) ps = set_item ps i v >>= λ qs. update_predicates is vs qs

module _ (np : Numpy) where
  -- "Execute any valid instruction".
  unfoldable pub execute : Instruction → Core → Store → Result (Core × Store)
  execute i c s = do
    let c₁ = retire i c
    (a_type, b_type, c_type) ← unpack_three i.source_types
    (a_index, b_index, c_index) ← unpack_three i.source_indices
    x ← operand c₁ s i a_type a_index
    y ← operand c₁ s i b_type b_index
    z ← operand c₁ s i c_type c_index
    (w, c₂) ← perform np i.op x y z c₁
    (c₃, s₁) ← store_result i w c₂ s
    s₂ ← dequeue_all c₃ i.input_channels_to_dequeue s₁
    ps ← update_predicates i.predicate_update_indices i.predicate_update_values c₃.predicates
    ok (record c₃ { predicates = ps }, s₂)

  unfoldable pub iterate : Bool → Core → Store → Result (Core × Store)
  iterate keep c s =
      if c.halt_register
      then ok (log keep (negsuc 0) c, s)
      else (find_instruction c s c.instructions >>= λ found. elim found [
        | none ↦
            ok (log keep (negsuc 0) (record c { untriggered_cycles = c.untriggered_cycles + 1 }), s)
        | some i ↦ execute i c s >>= λ r. ok (log keep (pos i.number) r.0, r.1)
      ])

unfoldable pub reset_refs : List ℕ → Store → Result Store
reset_refs [] s = ok s
reset_refs (r ∷ rs) s = reset_at r s >>= λ s'. reset_refs rs s'

-- `reset` leaves the instructions, and the scratchpad too.
unfoldable pub reset : Core → Store → Result (Core × Store)
unfolding reset_refs
reset c s = do
  s₁ ← reset_refs c.input_channel_buffers s
  s₂ ← reset_refs c.output_channel_buffers s₁
  ok (
    record c {
      predicates = replicate (length c.predicates) false;
      registers = replicate (length c.registers) 0;
      halt_register = false;
      instructions_retired = 0;
      untriggered_cycles = 0;
      execution_trace = [];
    },
    s₂,
  )
