-- ===== src/Interconnect.antt =====
-- tools/simulator/interconnect.py: packets and the two-phase buffers of the latency-insensitive
-- channels. `enqueue` and `dequeue` only stage; `commit` applies what was staged at the end of a
-- cycle. The name of a buffer serves debug output and the order of the event loop.
pub mod Invariant
pub mod Fifo
use tia_infrastructure.Prelude.{
  ℕ, suc, Bool, true, false, ◌==◌, ltb, ◌-◌, if◌then◌else◌, Option, none, some, List, [], ◌∷◌, ◌++◌,
  length, Result, ok, err, simulator_exception, index_error, type_error, ◌>>=◌,
}
use tia_infrastructure.Prelude.Text.{Text}

-- `tag` is `None` when the instruction that sent the packet names no tag.
pub record Packet : Type 0 where
  pub tag : Option ℕ
  pub value : ℕ

-- The subclass, as `isinstance` sees it.
pub data BufferClass : Type 0 where
  sender receiver routing : BufferClass

-- `peripheral_destination` is a field of `SenderChannelBuffer` only; it is a reference to a buffer.
pub record Buffer : Type 0 where
  pub name : Text
  pub buffer_class : BufferClass
  pub depth : ℕ
  pub deque : List Packet
  pub staged_enqueue : Bool
  pub staged_packet : Option Packet
  pub staged_dequeue : Bool
  pub pending : Bool
  pub peripheral_destination : Option ℕ

unfoldable pub fresh_buffer : BufferClass → Text → ℕ → Buffer
fresh_buffer c name d = record {
  name = name;
  buffer_class = c;
  depth = d;
  deque = [];
  staged_enqueue = false;
  staged_packet = none;
  staged_dequeue = false;
  pending = false;
  peripheral_destination = none;
}

abbrev pub count : Buffer → ℕ
count b = length b.deque

abbrev pub remaining : Buffer → ℕ
remaining b = b.depth - count b

abbrev pub is_full : Buffer → Bool
is_full b = length b.deque == b.depth

abbrev pub is_empty : Buffer → Bool
is_empty b = length b.deque == 0

-- `deque[0]` and `deque.popleft()`
abbrev first : List Packet → Result Packet
first [] = err index_error
first (p ∷ ps) = ok p

abbrev pop_left : List Packet → Result (List Packet)
pop_left [] = err index_error
pop_left (p ∷ ps) = ok ps

-- `deque.append` on a `deque(maxlen=n)`: what does not fit falls out on the left.
abbrev drop_left : ℕ → List Packet → List Packet
drop_left n [] = []
drop_left n (p ∷ ps) = if ltb n (suc (length ps)) then ps else p ∷ ps

abbrev pub append_bounded : ℕ → List Packet → Packet → List Packet
append_bounded n ps p = drop_left n (ps ++ (p ∷ []))

unfoldable pub enqueue : Packet → Buffer → Result Buffer
enqueue p b =
    if is_full b
    then err simulator_exception
    else ok (record b { staged_enqueue = true; staged_packet = some p; pending = true })

unfoldable pub peek : Buffer → Result Packet
peek b = if is_empty b then err simulator_exception else first b.deque

unfoldable pub dequeue : Buffer → Result (Packet × Buffer)
unfolding peek
dequeue b =
    if is_empty b
    then err simulator_exception
    else (do p ← peek b; ok (p, record b { staged_dequeue = true; pending = true }))

-- `if self.staged_dequeue: self.deque.popleft()`
abbrev pub pop_staged : Bool → List Packet → Result (List Packet)
pop_staged true ps = pop_left ps
pop_staged false ps = ok ps

-- `if self.staged_enqueue: self.deque.append(self.staged_packet)`. A staged enqueue with no packet
-- would append `None`; the invariant of `Invariant` rules it out.
abbrev pub append_staged : ℕ → Bool → Option Packet → List Packet → Result (List Packet)
append_staged n true (some p) ps = ok (append_bounded n ps p)
append_staged n true none ps = err type_error
append_staged n false o ps = ok ps

unfoldable pub commit : Buffer → Result Buffer
commit b =
    if b.pending
    then (do
      ps ← pop_staged b.staged_dequeue b.deque
      qs ← append_staged b.depth b.staged_enqueue b.staged_packet ps
      ok (record b {
        deque = qs;
        staged_enqueue = false;
        staged_packet = if b.staged_enqueue then none else b.staged_packet;
        staged_dequeue = false;
        pending = false;
      }))
    else ok b

unfoldable pub reset : Buffer → Buffer
reset b = record b {
  deque = [];
  staged_enqueue = false;
  staged_packet = none;
  staged_dequeue = false;
  pending = false;
}
