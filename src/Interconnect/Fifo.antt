-- ===== src/Interconnect/Fifo.antt =====
-- A buffer against a bounded FIFO queue: a client that offers at most one packet and takes at most
-- one packet in each cycle, under the guards that every client in the simulator tests.
pub mod Drain
use mathlib.Core.Path.{ap₂, ◌≡⟨◌⟩◌, ◌∎}
use mathlib.Core.List.{append-nil, append_assoc}
use tia_infrastructure.Prelude.{
  ◌≡◌, refl, sym, ap, ◌∙◌, Bool, true, false, if◌then◌else◌, Option, none, some, List, [], ◌∷◌,
  ◌++◌, Result, ok, ◌>>=◌, arith, inl, inr, Bool-cases, List-cases,
}
use tia_infrastructure.Interconnect.{Packet, Buffer, is_full, is_empty, enqueue, dequeue, commit}
use tia_infrastructure.Interconnect.Invariant.{
  IsValid, IsCommitted, committed, commit-eq-committed, committed-IsValid, enqueue-IsValid,
  dequeue-IsValid, dequeue-cons, popped, staged,
}

-- What the two ends of a channel do in one cycle, and the packets that go in and out.
pub record Cycle : Type 0 where
  pub offered : Option Packet
  pub wanted : Bool

pub record Traffic : Type 0 where
  pub accepted : List Packet
  pub delivered : List Packet
  pub buffer : Buffer

offer : Option Packet → Buffer → Result (List Packet × Buffer)
offer none b = ok ([], b)
offer (some p) b = if is_full b then ok ([], b) else (enqueue p b >>= λ c. ok (p ∷ [], c))

take_one : Bool → Buffer → Result (List Packet × Buffer)
take_one false b = ok ([], b)
take_one true b = if is_empty b then ok ([], b) else (dequeue b >>= λ r. ok (r.0 ∷ [], r.1))

pub one_cycle : Cycle → Buffer → Result Traffic
unfolding offer take_one
one_cycle a b = do
  (put, b₁) ← offer a.offered b
  (got, b₂) ← take_one a.wanted b₁
  c ← commit b₂
  ok (record { accepted = put; delivered = got; buffer = c })

pub run_cycles : List Cycle → Buffer → Result Traffic
run_cycles [] b = ok (record { accepted = []; delivered = []; buffer = b })
run_cycles (a ∷ as') b = do
  t ← one_cycle a b
  u ← run_cycles as' t.buffer
  ok (record {
    accepted = t.accepted ++ u.accepted;
    delivered = t.delivered ++ u.delivered;
    buffer = u.buffer;
  })

flow :
    (ds ds' ms qs bs as' as'' : List Packet)
    → ds ++ ms ≡ bs ++ as'
    → ds' ++ qs ≡ ms ++ as''
    → (ds ++ ds') ++ qs ≡ bs ++ (as' ++ as'')
flow ds ds' ms qs bs as' as'' p q =
    (ds ++ ds') ++ qs
    ≡⟨ append_assoc ds ds' qs ⟩ ds ++ (ds' ++ qs)
    ≡⟨ ap (λ k. ds ++ k) q ⟩ ds ++ (ms ++ as'')
    ≡⟨ sym (append_assoc ds ms as'') ⟩ (ds ++ ms) ++ as''
    ≡⟨ ap (λ k. k ++ as'') p ⟩ (bs ++ as') ++ as''
    ≡⟨ append_assoc bs as' as'' ⟩ bs ++ (as' ++ as'') ∎

-- What the packets of one or more cycles that start at `b` amount to.
pub record Flows (b : Buffer) (t : Traffic) : Type 0 where
  pub order : t.delivered ++ t.buffer.deque ≡ b.deque ++ t.accepted
  pub valid : IsValid t.buffer
  pub settled : IsCommitted t.buffer
  pub same_depth : t.buffer.depth ≡ b.depth

offer_lem :
    (o : Option Packet) {b : Buffer}
    → IsValid b
    → b.staged_enqueue ≡ false
    → (r : List Packet × Buffer) × (offer o b ≡ ok r)
      × IsValid r.1
      × (r.1.deque ≡ b.deque)
      × (staged r.1.staged_enqueue r.1.staged_packet ≡ r.0)
      × (r.1.staged_dequeue ≡ b.staged_dequeue)
      × (r.1.depth ≡ b.depth)
unfolding offer enqueue
offer_lem none {b} v e = (([], b), refl, v, refl, rw e, refl, refl)
offer_lem (some p) {b} v e = elim (Bool-cases (is_full b)) [
  | inl full ↦ (([], b), rw full, v, refl, rw e, refl, refl)
  | inr free ↦ (
    (p ∷ [], record b { staged_enqueue = true; staged_packet = some p; pending = true }),
    rw free,
    enqueue-IsValid p v (ground arith),
    refl,
    refl,
    refl,
    refl,
  )
]

take_one_lem :
    (t : Bool) {b : Buffer}
    → IsValid b
    → b.staged_dequeue ≡ false
    → (r : List Packet × Buffer) × (take_one t b ≡ ok r)
      × IsValid r.1
      × (r.0 ++ popped r.1.staged_dequeue r.1.deque ≡ b.deque)
      × (staged r.1.staged_enqueue r.1.staged_packet ≡ staged b.staged_enqueue b.staged_packet)
      × (r.1.depth ≡ b.depth)
unfolding take_one
take_one_lem false {b} v e = (([], b), refl, v, rw e, refl, refl)
take_one_lem true {b} v e = elim (List-cases b.deque) [
  | inl nothing ↦ (([], b), rw nothing, v, rw e, refl, refl)
  | inr (p, ps, stock) ↦ (
    (p ∷ [], record b { staged_dequeue = true; pending = true }),
    ground (arith, dequeue-cons b p ps stock),
    dequeue-IsValid v (dequeue-cons b p ps stock),
    ground arith,
    refl,
    refl,
  )
]

one_cycle-Flows :
    (a : Cycle) {b : Buffer}
    → IsValid b
    → IsCommitted b
    → (t : Traffic) × (one_cycle a b ≡ ok t) × Flows b t
unfolding one_cycle
one_cycle-Flows a {b} v s =
    let (r, e, rv, same, put, quiet, d) = offer_lem a.offered v s.0 in
    let (q, f, qv, got, kept, d') = take_one_lem a.wanted rv (quiet ∙ s.1) in
    (
      record { accepted = r.0; delivered = q.0; buffer = committed q.1 },
      rw (e, f, commit-eq-committed qv),
      record {
        order = sym (append_assoc q.0 _ _) ∙ ap₂ ◌++◌ (got ∙ same) (kept ∙ put);
        valid = (committed-IsValid qv).0;
        settled = (committed-IsValid qv).1;
        same_depth = d' ∙ d;
      },
    )

-- Whatever a client offers and wants in each cycle, no call raises; the packets delivered and then
-- those still held are the packets held at first and then those accepted, in order, and at most
-- `depth` packets are held.
pub run_cycles-Flows :
    (as' : List Cycle) {b : Buffer}
    → IsValid b
    → IsCommitted b
    → (t : Traffic) × (run_cycles as' b ≡ ok t) × Flows b t
unfolding run_cycles
run_cycles-Flows [] {b} v s = (
  _,
  refl,
  record { order = sym (append-nil b.deque); valid = v; settled = s; same_depth = refl },
)
run_cycles-Flows (a ∷ as') {b} v s =
    let (t, e, f) = one_cycle-Flows a v s in
    let (u, e', f') = run_cycles-Flows as' f.valid f.settled in
    (
      record {
        accepted = t.accepted ++ u.accepted;
        delivered = t.delivered ++ u.delivered;
        buffer = u.buffer;
      },
      rw (e, e'),
      record {
        order =
            flow t.delivered u.delivered t.buffer.deque u.buffer.deque b.deque t.accepted u.accepted
              f.order f'.order;
        valid = f'.valid;
        settled = f'.settled;
        same_depth = f'.same_depth ∙ f.same_depth;
      },
    )

-- The two ends may act in either order within a cycle.
pub dequeue-enqueue_comm :
    (p : Packet) (b : Buffer)
    → (enqueue p b >>= λ c. dequeue c) ≡ (dequeue b >>= λ r. enqueue p r.1 >>= λ c. ok (r.0, c))
unfolding enqueue dequeue
dequeue-enqueue_comm p b = ground arith
