-- ===== src/Router/Link.antt =====
-- The link between two neighbours is routed twice in a cycle: as a destination of the one and as a
-- source of the other. The second routing changes nothing.
use tia_infrastructure.Prelude.{
  ℕ, zero, suc, ◌<◌, ◌≡◌, ◌≢◌, refl, sym, ap, ◌∙◌, true, false, some, List, [], ◌∷◌, length,
  get_elem?, set, get_elem?-set_self, get_elem?-set_ne, lt_of_get_elem?, get_elem?-lt, ok, arith,
  inl, inr, Bool-cases, List-cases,
}
use tia_infrastructure.Interconnect.{Packet, Buffer, is_full, enqueue}
use tia_infrastructure.Interconnect.Invariant.{dequeue-cons}
use tia_infrastructure.Store.{Store, enqueue_at, dequeue_at}
use tia_infrastructure.Router.{move, route_in, route_out}

-- Writing what is there changes nothing.
set_self {ℓ} :
    {A : Type ℓ} (xs : List A) (i : ℕ) (x : A) → get_elem? xs i ≡ some x → set xs i x ≡ xs
set_self [] i x e = refl
set_self (y ∷ xs) zero x e = ap (λ z. z ∷ xs) (cc)
set_self (y ∷ xs) (suc i) x e = ap (λ zs. y ∷ zs) (set_self xs i x e)

abbrev taken : Buffer → Buffer
taken b = record b { staged_dequeue = true; pending = true }

abbrev given : Packet → Buffer → Buffer
given p b = record b { staged_enqueue = true; staged_packet = some p; pending = true }

dequeue_at-cons :
    (r : ℕ) (s : Store) (b : Buffer) (p : Packet) (ps : List Packet)
    → get_elem? s r ≡ some b
    → b.deque ≡ p ∷ ps
    → dequeue_at r s ≡ ok (p, set s r (taken b))
unfolding dequeue_at
dequeue_at-cons r s b p ps e q = rw (e, dequeue-cons b p ps q)

enqueue_at-room :
    (r : ℕ) (p : Packet) (s : Store) (b : Buffer)
    → get_elem? s r ≡ some b
    → is_full b ≡ false
    → enqueue_at r p s ≡ ok (set s r (given p b))
unfolding enqueue_at enqueue
enqueue_at-room r p s b e f = rw (e, f)

module _ (from to : ℕ) (s : Store) (apart : from ≢ to) (b c : Buffer) (p : Packet)
    (ps : List Packet) (at_from : get_elem? s from ≡ some b) (at_to : get_elem? s to ≡ some c)
    (stock : b.deque ≡ p ∷ ps) (room : is_full c ≡ false) where
  abbrev after : Store
  after = set (set s from (taken b)) to (given p c)

  at_to' : get_elem? (set s from (taken b)) to ≡ some c
  at_to' = get_elem?-set_ne s from to (taken b) apart ∙ at_to

  move_lem : move from to s ≡ ok after
  unfolding move
  move_lem = rw (
    dequeue_at-cons from s b p ps at_from stock,
    enqueue_at-room to p (set s from (taken b)) c at_to' room,
  )

  after_from : get_elem? after from ≡ some (taken b)
  after_from =
      get_elem?-set_ne (set s from (taken b)) to from (given p c) (λ e. apart (sym e))
      ∙ get_elem?-set_self s from (taken b) (lt_of_get_elem? s from at_from)

  after_to : get_elem? after to ≡ some (given p c)
  after_to = get_elem?-set_self (set s from (taken b)) to (given p c) (lt_of_get_elem? _ to at_to')

  move_again : move from to after ≡ ok after
  unfolding move
  move_again = rw (
    dequeue_at-cons from after (taken b) p ps after_from stock,
    set_self after from (taken b) after_from,
    enqueue_at-room to p after (given p c) after_to room,
    set_self after to (given p c) after_to,
  )

-- With a packet to send and room for it, both loops move it.
opens :
    (output input : ℕ) (s : Store) (b c : Buffer) (p : Packet) (ps : List Packet)
    → get_elem? s output ≡ some b
    → get_elem? s input ≡ some c
    → b.deque ≡ p ∷ ps
    → is_full c ≡ false
    → (route_out output input s ≡ move output input s)
      × (route_in output input s ≡ move output input s)
unfolding route_out route_in
opens output input s b c p ps e f stock room =
    (simp (e, f, room, stock) (ground arith), simp (e, f, room, stock) (ground arith))

-- A link from an output buffer to another buffer: routing it from the sender's side never raises, and
-- routing it again in the same cycle, from the receiver's side or from the sender's, changes nothing.
pub route_twice :
    (output input : ℕ) (s : Store)
    → output ≢ input
    → output < length s
    → input < length s
    → (t : Store) × (route_out output input s ≡ ok t)
      × (route_in output input t ≡ ok t)
      × (route_out output input t ≡ ok t)
unfolding route_out route_in
route_twice output input s apart h l =
    let (b, e) = get_elem?-lt s output h in
    let (c, f) = get_elem?-lt s input l in
    elim (Bool-cases (is_full c)) [
      | inl full ↦ (
        s,
        simp (e, f, full) (ground arith),
        simp (e, f, full) (ground arith),
        simp (e, f, full) (ground arith),
      )
      | inr room ↦ elim (List-cases b.deque) [
        | inl nothing ↦ (
          s,
          simp (e, f, room, nothing) (ground arith),
          simp (e, f, room, nothing) (ground arith),
          simp (e, f, room, nothing) (ground arith),
        )
        | inr (p, ps, stock) ↦
            let t = after output input s apart b c p ps e f stock room in
            let m = move_lem output input s apart b c p ps e f stock room in
            let m' = move_again output input s apart b c p ps e f stock room in
            let e' = after_from output input s apart b c p ps e f stock room in
            let f' = after_to output input s apart b c p ps e f stock room in
            (
              t,
              (opens output input s b c p ps e f stock room).0 ∙ m,
              (opens output input t (taken b) (given p c) p ps e' f' stock room).1 ∙ m',
              (opens output input t (taken b) (given p c) p ps e' f' stock room).0 ∙ m',
            )
      ]
    ]
