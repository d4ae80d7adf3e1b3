-- ===== src/Interconnect/Fifo/Drain.antt =====
-- A buffer whose consumer takes a packet in every cycle gives out all that it holds.
use mathlib.Core.Path.{subst}
use mathlib.Core.List.{append_assoc, append-nil}
use tia_infrastructure.Prelude.{
  ◌≤◌, ◌≡◌, refl, sym, ap, ◌∙◌, true, List, [], ◌∷◌, ◌++◌, length, All, ok, >>=-eq-ok, ok-injective,
  arith,
}
use tia_infrastructure.Interconnect.{Packet, Buffer, commit}
use tia_infrastructure.Interconnect.Invariant.{IsValid, IsCommitted, dequeue-cons}
use tia_infrastructure.Interconnect.Fifo.{
  Cycle, Traffic, offer, take_one, one_cycle, run_cycles, offer_lem, one_cycle-Flows,
  run_cycles-Flows,
}

take_one-cons :
    (b : Buffer) (p : Packet) (ps : List Packet) {r : List Packet × Buffer}
    → b.deque ≡ p ∷ ps
    → take_one true b ≡ ok r
    → r.0 ≡ p ∷ []
unfolding take_one
take_one-cons b p ps e h = ground (arith, dequeue-cons b p ps e)

-- A cycle in which a packet is wanted delivers the head.
one_cycle-wanted :
    (a : Cycle) (b : Buffer) (p : Packet) (ps : List Packet) {t : Traffic}
    → IsValid b
    → IsCommitted b
    → a.wanted ≡ true
    → b.deque ≡ p ∷ ps
    → one_cycle a b ≡ ok t
    → t.delivered ≡ p ∷ []
unfolding one_cycle
one_cycle-wanted a b p ps v s w e h =
    let (r, f, _, same, _, _, _) = offer_lem a.offered v s.0 in
    let (r', f', h) = >>=-eq-ok (offer a.offered b) _ h in
    let (q, g, h) = >>=-eq-ok (take_one a.wanted r'.1) _ h in
    let (c, _, h) = >>=-eq-ok (commit q.1) _ h in
    let one : r' ≡ r = ok-injective (sym f' ∙ f) in
    let stock : r'.1.deque ≡ p ∷ ps = ap (λ (x : List Packet × Buffer). x.1.deque) one ∙ same ∙ e in
    ap (λ (t : Traffic). t.delivered) (sym (ok-injective h))
    ∙ take_one-cons r'.1 p ps stock (subst (λ w. take_one w r'.1 ≡ ok q) w g)

-- The packets at the front of the queue come out first, one in each cycle.
drains :
    (as' : List Cycle) (b : Buffer) (ps qs : List Packet)
    → IsValid b
    → IsCommitted b
    → All (λ a. a.wanted ≡ true) as'
    → b.deque ≡ ps ++ qs
    → length ps ≤ length as'
    → (t : Traffic) × (rest : List Packet) × (run_cycles as' b ≡ ok t) × (t.delivered ≡ ps ++ rest)
unfolding run_cycles
drains as' b [] qs v s w e l = let (t, f, _) = run_cycles-Flows as' v s in (t, t.delivered, f, refl)
drains [] b (p ∷ ps) qs v s w e l = absurd (omega (arith, l))
drains (a ∷ as') b (p ∷ ps) qs v s (w, ws) e l =
    let (t, f, flows) = one_cycle-Flows a v s in
    let head = one_cycle-wanted a b p (ps ++ qs) v s w e f in
    let next : p ∷ t.buffer.deque ≡ p ∷ (ps ++ (qs ++ t.accepted)) =
      sym (ap (λ ds. ds ++ t.buffer.deque) head)
      ∙ flows.order
      ∙ ap (λ ds. ds ++ t.accepted) e
      ∙ ap (λ ds. p ∷ ds) (append_assoc ps qs t.accepted) in
    let (u, rest, g, d) =
      drains as' t.buffer ps (qs ++ t.accepted) flows.valid flows.settled ws (cc)
        (omega (arith, l)) in
    (
      record {
        accepted = t.accepted ++ u.accepted;
        delivered = t.delivered ++ u.delivered;
        buffer = u.buffer;
      },
      rest,
      rw (f, g),
      ap (λ ds. ds ++ u.delivered) head ∙ ap (λ ds. p ∷ ds) d,
    )

-- When a packet is wanted in each cycle, and there are as many cycles as a valid committed buffer
-- holds packets, all that it holds is delivered in order, before anything else, whatever is offered
-- meanwhile.
pub run_cycles-drains :
    (as' : List Cycle) (b : Buffer)
    → IsValid b
    → IsCommitted b
    → All (λ a. a.wanted ≡ true) as'
    → length b.deque ≤ length as'
    → (t : Traffic) × (rest : List Packet) × (run_cycles as' b ≡ ok t)
      × (t.delivered ≡ b.deque ++ rest)
run_cycles-drains as' b v s w l = drains as' b b.deque [] v s w (sym (append-nil b.deque)) l
