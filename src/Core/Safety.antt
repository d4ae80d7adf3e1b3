-- ===== src/Core/Safety.antt =====
-- Firing never raises: the guards of a trigger are enough for every access that its instruction
-- makes, when the instruction fits the core.
use tia_infrastructure.Prelude.{
  ℕ, ◌+◌, ◌≤◌, ◌<◌, ◌≡◌, ◌≢◌, refl, ap, ◌∙◌, Bool, not, ◌==◌, List, [], ◌∷◌, length, All,
  All-Member, All-map, get_elem?-lt, set, length-set, ok, arith,
}
use tia_infrastructure.Prelude.Int.{ℤ, pos}
use tia_infrastructure.Interconnect.{Packet}
use tia_infrastructure.Store.{Store}
use tia_infrastructure.Store.Keeps.{
  Keeps, Keeps_refl, Keeps_trans, Keeps-CanEnqueue, Keeps-CanDequeue, enqueue_at_total,
  dequeue_at_total, enqueue_at-Keeps, dequeue_at-Keeps, peek_at_lem,
}
use tia_infrastructure.Isa.{Op, SourceType, DestinationType, Instruction}
use tia_infrastructure.Isa.Numpy.{Numpy}
use tia_infrastructure.Isa.Ops.{op_implementation}
use tia_infrastructure.Core.{Core}
use tia_infrastructure.Core.Execute.{
  operand, unpack_three, perform, enqueue_all, store_result, dequeue_all, update_predicates,
  execute, retire,
}
use tia_infrastructure.Core.Fits.{Layout, layout, SourceFits, DestinationFits, Fits}
use tia_infrastructure.Core.Guards.{Waiting, Roomy, Holds}

operand_total :
    (c : Core) (s : Store) (i : Instruction) (t : SourceType) (k : ℕ)
    → All (Waiting c.input_channel_buffers s) i.trigger.input_channels
    → SourceFits (layout c) i t k
    → (x : ℤ) × (operand c s i t k ≡ ok x)
unfolding operand
operand_total c s i SourceType.null k w f = (pos 0, refl)
operand_total c s i SourceType.immediate k w f = (f.0, rw f.1)
operand_total c s i SourceType.channel k w f =
    let v = All-Member _ i.trigger.input_channels k w f in
    (pos v.ready.head.value, rw (v.found, peek_at_lem v.ref v.ready))
operand_total c s i SourceType.register k w f =
    let (x, e) = get_elem?-lt c.registers k f in (pos x, rw e)

perform_total :
    (np : Numpy) (op : Op) (a b d : ℤ) (c : Core)
    → op ≢ Op.lsw
    → op ≢ Op.ssw
    → ((w : ℕ) × (op_implementation np op a b d ≡ ok w))
    → (w : ℕ) × (perform np op a b d c ≡ ok (w, c))
unfolding perform
perform_total np Op.lsw a b d c n m h = absurd (n refl)
perform_total np Op.ssw a b d c n m h = absurd (m refl)
perform_total np _ a b d c n m h = (h.0, rw h.1)

enqueue_all_total :
    (c : Core) (p : Packet) (is : List ℕ) {s t : Store}
    → All (Roomy c.output_channel_buffers s) is
    → Keeps s t
    → (u : Store) × (enqueue_all c p is t ≡ ok u) × Keeps s u
unfolding enqueue_all
enqueue_all_total c p [] {t = t} h k = (t, refl, k)
enqueue_all_total c p (i ∷ is) {t = t} (h, hs) k =
    let (u, e) = enqueue_at_total h.ref p (Keeps-CanEnqueue h.ref k h.ready) in
    let (v, f, l) = enqueue_all_total c p is hs (Keeps_trans k (enqueue_at-Keeps h.ref p t e)) in
    (v, rw (h.found, e, f), l)

dequeue_all_total :
    (c : Core) (is : List ℕ) {s t : Store}
    → All (Waiting c.input_channel_buffers s) is
    → Keeps s t
    → (u : Store) × (dequeue_all c is t ≡ ok u) × Keeps s u
unfolding dequeue_all
dequeue_all_total c [] {t = t} h k = (t, refl, k)
dequeue_all_total c (i ∷ is) {t = t} (h, hs) k =
    let (x, e) = dequeue_at_total h.ref (Keeps-CanDequeue h.ref k h.ready) in
    let (v, f, l) = dequeue_all_total c is hs (Keeps_trans k (dequeue_at-Keeps h.ref t e)) in
    (v, rw (h.found, e, f), l)

update_predicates_total :
    (is : List ℕ) (vs ps : List Bool)
    → All (λ k. k < length ps) is
    → length is ≤ length vs
    → (qs : List Bool) × (update_predicates is vs ps ≡ ok qs) × (length qs ≡ length ps)
unfolding update_predicates
update_predicates_total [] vs ps h l = (ps, refl, refl)
update_predicates_total (i ∷ is) [] ps h l = absurd (omega arith)
update_predicates_total (i ∷ is) (v ∷ vs) ps (h, hs) l =
    let (x, e) = get_elem?-lt ps i h in
    let n = length-set ps i v in
    let (qs, f, m) =
      update_predicates_total is vs (set ps i v) (All-map (λ k q. rw n q) is hs) (omega arith) in
    (qs, rw (e, f), m ∙ n)

-- What a store of a result leaves of the core.
record Stored (c : Core) (s : Store) (r : Core × Store) : Type 0 where
  store : Keeps s r.1
  same_layout : layout r.0 ≡ layout c
  counters :
      (r.0.instructions_retired ≡ c.instructions_retired)
      × (r.0.untriggered_cycles ≡ c.untriggered_cycles)
  halted : r.0.halt_register ≡ c.halt_register
  program : r.0.instructions ≡ c.instructions

unchanged : (c : Core) {s : Store} (t : Store) → Keeps s t → Stored c s (c, t)
unchanged c t k = record {
  store = k;
  same_layout = refl;
  counters = (refl, refl);
  halted = refl;
  program = refl;
}

store_result_total :
    (i : Instruction) (w : ℕ) (c : Core) (s : Store)
    → All (Roomy c.output_channel_buffers s) i.trigger.output_channel_indices
    → (t : DestinationType) → i.destination_type ≡ t
    → DestinationFits (layout c) i t
    → (r : Core × Store) × (store_result i w c s ≡ ok r) × Stored c s r
unfolding store_result
store_result_total i w c s h DestinationType.null e f =
    ((c, s), rw (e, store_result), unchanged c s (Keeps_refl s))
store_result_total i w c s h DestinationType.channel e f =
    let rooms =
      All-map (λ k m. All-Member _ i.trigger.output_channel_indices k h m) i.output_channel_indices
        f in
    let (t, q, l) =
      enqueue_all_total c (record { tag = i.output_channel_tag; value = w })
        i.output_channel_indices rooms (Keeps_refl s) in
    ((c, t), rw (e, store_result) (rw q), unchanged c t l)
store_result_total i w c s h DestinationType.register e (k, d, l) =
    let (x, g) = get_elem?-lt c.registers k l in
    (
      (record c { registers = set c.registers k w }, s),
      rw (e, store_result) (rw (d, g)),
      record {
        store = Keeps_refl s;
        same_layout = rw (length-set c.registers k w);
        counters = (refl, refl);
        halted = refl;
        program = refl;
      },
    )
store_result_total i w c s h DestinationType.predicate e (k, d, l) =
    let (x, g) = get_elem?-lt c.predicates k l in
    (
      (record c { predicates = set c.predicates k (not (w == 0)) }, s),
      rw (e, store_result) (rw (d, g)),
      record {
        store = Keeps_refl s;
        same_layout = rw (length-set c.predicates k (not (w == 0)));
        counters = (refl, refl);
        halted = refl;
        program = refl;
      },
    )

-- What one firing does to the core and the store.
pub record Fired (c : Core) (s : Store) (i : Instruction) (r : Core × Store) : Type 0 where
  pub store : Keeps s r.1
  pub same_layout : layout r.0 ≡ layout c
  pub retired : r.0.instructions_retired ≡ c.instructions_retired + 1
  pub untriggered : r.0.untriggered_cycles ≡ c.untriggered_cycles
  pub program : r.0.instructions ≡ c.instructions

-- When each step of `execute` returns, so does the whole.
execute-steps :
    (np : Numpy) (i : Instruction) (c : Core) (s : Store) {ta tb tc : SourceType} {ka kb kc : ℕ}
    {x y z : ℤ} {w : ℕ} {c₂ c₃ : Core} {s₁ s₂ : Store} {ps : List Bool}
    → unpack_three i.source_types ≡ ok (ta, tb, tc)
    → unpack_three i.source_indices ≡ ok (ka, kb, kc)
    → operand (retire i c) s i ta ka ≡ ok x
    → operand (retire i c) s i tb kb ≡ ok y
    → operand (retire i c) s i tc kc ≡ ok z
    → perform np i.op x y z (retire i c) ≡ ok (w, c₂)
    → store_result i w c₂ s ≡ ok (c₃, s₁)
    → dequeue_all c₃ i.input_channels_to_dequeue s₁ ≡ ok s₂
    → update_predicates i.predicate_update_indices i.predicate_update_values c₃.predicates ≡ ok ps
    → execute np i c s ≡ ok (record c₃ { predicates = ps }, s₂)
unfolding execute
execute-steps np i c s t k ex ey ez ew er ed eu = simp (t, k, ex, ey, ez, ew, er, ed, eu)

-- The instruction of a trigger that holds fires without a raise, if it fits the core: every peek,
-- dequeue and enqueue meets a buffer that allows it. It retires one instruction, and within the
-- cycle no queue changes.
pub execute-Fired :
    (np : Numpy) (i : Instruction) (c : Core) (s : Store)
    → Holds c s i.trigger
    → Fits np (layout c) i
    → (r : Core × Store) × (execute np i c s ≡ ok r) × Fired c s i r
unfolding unpack_three
execute-Fired np i c s h f =
    let c₁ = retire i c in
    let (x, ex) = operand_total c₁ s i a_type a_index h.waiting a_fits in
    let (y, ey) = operand_total c₁ s i b_type b_index h.waiting b_fits in
    let (z, ez) = operand_total c₁ s i c_type c_index h.waiting c_fits in
    let (w, ew) = perform_total np i.op x y z c₁ f.not_lsw f.not_ssw (f.implemented x y z) in
    let (r, er, st) = store_result_total i w c₁ s h.room i.destination_type refl f.destination in
    let same_inputs : r.0.input_channel_buffers ≡ c.input_channel_buffers =
      ap (λ (l : Layout). l.inputs) st.same_layout in
    let same_predicates : length r.0.predicates ≡ length c.predicates =
      ap (λ (l : Layout). l.num_predicates) st.same_layout in
    let (t, et, kt) =
      dequeue_all_total r.0 i.input_channels_to_dequeue
        (rw same_inputs (
          All-map (λ k m. All-Member _ i.trigger.input_channels k h.waiting m)
            i.input_channels_to_dequeue f.dequeues))
        st.store in
    let (qs, eq, n) =
      update_predicates_total i.predicate_update_indices i.predicate_update_values r.0.predicates
        (rw same_predicates f.updates) f.values in
    (
      (record (r.0) { predicates = qs }, t),
      execute-steps np i c s (ap unpack_three types) (ap unpack_three indices) ex ey ez ew er et eq,
      record {
        store = kt;
        same_layout = rw n st.same_layout;
        retired = st.counters.0;
        untriggered = st.counters.1;
        program = st.program;
      },
    )
  where
    open f.sources use {
      a_type, b_type, c_type, a_index, b_index, c_index, types, indices, a_fits, b_fits, c_fits,
    }
