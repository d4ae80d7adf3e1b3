-- ===== src/Interconnect/Invariant.antt =====
-- The invariant of a buffer, and what each operation does in a state that meets it.
use tia_infrastructure.Prelude.{
  ℕ, ◌≤◌, ◌<◌, ◌≡◌, ◌≢◌, refl, Bool, true, false, Option, none, some, List, [], ◌∷◌, ◌++◌, length,
  length-append, ok, arith, ap, sym, to_ℕ, if◌then◌else◌,
}
use mathlib.Core.List.{append-nil}
use tia_infrastructure.Prelude.Text.{Text}
use tia_infrastructure.Interconnect.{
  Packet, Buffer, BufferClass, fresh_buffer, pop_staged, append_staged, append_bounded, enqueue,
  dequeue, commit, reset,
}

-- Nothing is staged that the buffer has no room for, and `pending` covers what is staged.
pub record IsValid (b : Buffer) : Type 0 where
  pub bounded : length b.deque ≤ b.depth
  pub room : b.staged_enqueue ≡ true → length b.deque < b.depth
  pub packet : b.staged_enqueue ≡ true → b.staged_packet ≢ none
  pub stock : b.staged_dequeue ≡ true → 0 < length b.deque
  pub covered : b.pending ≡ false → (b.staged_enqueue ≡ false) × (b.staged_dequeue ≡ false)

-- Between two cycles nothing is staged.
abbrev pub IsCommitted : Buffer → Type 0
IsCommitted b = (b.staged_enqueue ≡ false) × (b.staged_dequeue ≡ false) × (b.pending ≡ false)

pub fresh_buffer-IsValid : (c : BufferClass) (name : Text) (d : ℕ) → IsValid (fresh_buffer c name d)
unfolding fresh_buffer
fresh_buffer-IsValid c name d = ground arith

pub reset-IsValid : (b : Buffer) → IsValid (reset b) × IsCommitted (reset b)
unfolding reset
reset-IsValid b = ground arith

pub enqueue-IsValid : (p : Packet) {b c : Buffer} → IsValid b → enqueue p b ≡ ok c → IsValid c
unfolding enqueue
enqueue-IsValid p v e = ground arith

pub dequeue-IsValid :
    {b : Buffer} {r : Packet × Buffer} → IsValid b → dequeue b ≡ ok r → IsValid r.1
unfolding dequeue
dequeue-IsValid v e = ground arith

append_bounded_room :
    (n : ℕ) (ps : List Packet) (p : Packet) → length ps < n → append_bounded n ps p ≡ ps ++ (p ∷ [])
append_bounded_room n [] p h = ground arith
append_bounded_room n (q ∷ ps) p h = ground (arith, length-append ps (p ∷ []))

-- The queue that a commit leaves: the head goes if a dequeue is staged, and what is staged to be
-- enqueued comes last.
abbrev pub popped : Bool → List Packet → List Packet
popped true (p ∷ ps) = ps
popped true [] = []
popped false ps = ps

abbrev pub staged : Bool → Option Packet → List Packet
staged true (some p) = p ∷ []
staged true none = []
staged false o = []

abbrev pub next_deque : Buffer → List Packet
next_deque b = popped b.staged_dequeue b.deque ++ staged b.staged_enqueue b.staged_packet

pop_staged-eq-popped :
    (d : Bool) (ps : List Packet) → (d ≡ true → 0 < length ps) → pop_staged d ps ≡ ok (popped d ps)
pop_staged-eq-popped true [] h = absurd (omega (arith, h refl))
pop_staged-eq-popped true (p ∷ ps) h = refl
pop_staged-eq-popped false ps h = refl

append_staged-eq-append :
    (n : ℕ) (e : Bool) (o : Option Packet) (ps : List Packet)
    → (e ≡ true → length ps < n)
    → (e ≡ true → o ≢ none)
    → append_staged n e o ps ≡ ok (ps ++ staged e o)
append_staged-eq-append n true (some p) ps room packet =
    ap ok (append_bounded_room n ps p (room refl))
append_staged-eq-append n true none ps room packet = absurd (packet refl refl)
append_staged-eq-append n false o ps room packet = ap ok (sym (append-nil ps))

length-popped : (d : Bool) (ps : List Packet) → length (popped d ps) ≤ length ps
length-popped true [] = omega arith
length-popped true (p ∷ ps) = omega arith
length-popped false ps = omega arith

length-staged : (e : Bool) (o : Option Packet) → length (staged e o) ≤ to_ℕ e
length-staged true (some p) = omega arith
length-staged true none = omega arith
length-staged false o = omega arith

abbrev pub committed : Buffer → Buffer
committed b = record b {
  deque = next_deque b;
  staged_enqueue = false;
  staged_packet = if b.staged_enqueue then none else b.staged_packet;
  staged_dequeue = false;
  pending = false;
}

-- In a valid buffer a commit never raises, and loses no packet.
pub commit-eq-committed : {b : Buffer} → IsValid b → commit b ≡ ok (committed b)
unfolding commit
commit-eq-committed {b} v = ground (
  arith,
  pop_staged-eq-popped b.staged_dequeue b.deque v.stock,
  append_staged-eq-append b.depth b.staged_enqueue b.staged_packet (popped b.staged_dequeue b.deque)
      (λ e. omega (arith, v.room e, length-popped b.staged_dequeue b.deque)) v.packet,
  append-nil b.deque,
)

-- What a commit leaves is within the depth, with nothing staged.
pub committed-IsValid : {b : Buffer} → IsValid b → IsValid (committed b) × IsCommitted (committed b)
committed-IsValid {b} v = (
  record {
    bounded = fits b.staged_enqueue v.room;
    room = λ e. cc;
    packet = λ e. cc;
    stock = λ e. cc;
    covered = λ e. (refl, refl);
  },
  (refl, refl, refl),
)
  where
    fits :
        (e : Bool)
        → (e ≡ true → length b.deque < b.depth)
        → length (popped b.staged_dequeue b.deque ++ staged e b.staged_packet) ≤ b.depth
    fits true room = omega (
      arith,
      room refl,
      v.bounded,
      length-append (popped b.staged_dequeue b.deque) (staged true b.staged_packet),
      length-popped b.staged_dequeue b.deque,
      length-staged true b.staged_packet,
    )
    fits false room = omega (
      arith,
      v.bounded,
      length-append (popped b.staged_dequeue b.deque) [],
      length-popped b.staged_dequeue b.deque,
    )

-- A commit of a valid buffer returns one that is valid again, with nothing staged.
pub commit-IsValid :
    {b : Buffer} → IsValid b → (c : Buffer) × (commit b ≡ ok c) × IsValid c × IsCommitted c
commit-IsValid {b} v =
    let (w, n) = committed-IsValid v in (committed b, commit-eq-committed v, w, n)

-- A buffer that is not empty hands out its head, and stages the dequeue.
pub dequeue-cons :
    (b : Buffer) (p : Packet) (ps : List Packet)
    → b.deque ≡ p ∷ ps
    → dequeue b ≡ ok (p, record b { staged_dequeue = true; pending = true })
unfolding dequeue
dequeue-cons b p ps e = ground arith
