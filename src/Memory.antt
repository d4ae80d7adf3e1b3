-- ===== src/Memory.antt =====
-- tools/simulator/memory.py: a word memory with read and write ports. Ports refer to their buffers by
-- position in the store; a word is the natural that it stands for.
pub mod Ports
pub mod Output
pub mod Safety
use tia_infrastructure.Prelude.{
  ℕ, not, ◌&&◌, if◌then◌else◌, Option, none, some, List, [], ◌∷◌, ◌++◌, set, replicate, Result, ok,
  ◌>>=◌, get_item,
}
use tia_infrastructure.Prelude.Text.{Text}
use tia_infrastructure.Interconnect.{Packet}
use tia_infrastructure.Store.{Store, full_at, empty_at, enqueue_at, dequeue_at, reset_at}

pub record ReadPort : Type 0 where
  pub addr_in_channel_buffer : ℕ
  pub data_out_channel_buffer : ℕ
  pub pending_read_packet : Option Packet

pub record WritePort : Type 0 where
  pub addr_in_channel_buffer : ℕ
  pub data_in_channel_buffer : ℕ

pub record Memory : Type 0 where
  pub name : Text
  pub contents : List ℕ
  pub read_ports : List ReadPort
  pub write_ports : List WritePort

unfoldable pub init : Text → ℕ → Memory
init name size = record {
  name = name;
  contents = replicate size 0;
  read_ports = [];
  write_ports = [];
}

unfoldable pub add_read_port : ReadPort → Memory → Memory
add_read_port p m = record m { read_ports = m.read_ports ++ (p ∷ []) }

unfoldable pub add_write_port : WritePort → Memory → Memory
add_write_port p m = record m { write_ports = m.write_ports ++ (p ∷ []) }

-- "Output data packet origination": a packet goes on to the peripheral destination, if there is one.
unfoldable pub forward : ReadPort → Store → Result Store
forward p s = get_item s p.data_out_channel_buffer >>= λ b. elim b.peripheral_destination [
  | none ↦ ok s
  | some d ↦ full_at d s >>= λ full. empty_at p.data_out_channel_buffer s >>= λ nothing.
      if not full && not nothing
      then (dequeue_at p.data_out_channel_buffer s >>= λ x. enqueue_at d x.0 x.1)
      else ok s
]

-- A packet that was read in an earlier cycle goes to the output buffer when that has room.
unfoldable pub emit : ReadPort → Store → Result (ReadPort × Store)
emit p s = elim p.pending_read_packet [
  | none ↦ ok (p, s)
  | some packet ↦ full_at p.data_out_channel_buffer s >>= λ full.
      if full
      then ok (p, s)
      else (enqueue_at p.data_out_channel_buffer packet s >>= λ s'.
          ok (record p { pending_read_packet = none }, s'))
]

unfoldable pub output : ReadPort → Store → Result (ReadPort × Store)
unfolding forward emit
output p s = forward p s >>= λ s'. emit p s'

-- "Serve all valid requests on available ports".
unfoldable pub serve : List ℕ → ReadPort → Store → Result (ReadPort × Store)
serve contents p s = empty_at p.addr_in_channel_buffer s >>= λ nothing.
    if nothing then ok (p, s) else elim p.pending_read_packet [
      | some packet ↦ ok (p, s)
      | none ↦ dequeue_at p.addr_in_channel_buffer s >>= λ x. get_item contents x.0.value >>= λ w.
          ok (record p { pending_read_packet = some (record { tag = x.0.tag; value = w }) }, x.1)
    ]

-- "Perform all valid write requests on available ports".
unfoldable pub write : WritePort → List ℕ → Store → Result (List ℕ × Store)
write p contents s = empty_at p.addr_in_channel_buffer s >>= λ no_addr.
    empty_at p.data_in_channel_buffer s >>= λ no_data.
    if not no_addr && not no_data
    then (do
      (addr, s₁) ← dequeue_at p.addr_in_channel_buffer s
      (word, s₂) ← dequeue_at p.data_in_channel_buffer s₁
      old ← get_item contents addr.value
      ok (set contents addr.value word.value, s₂))
    else ok (contents, s)

-- A loop over the read ports, each with a step that may change it and the store.
unfoldable pub each_port :
    (ReadPort → Store → Result (ReadPort × Store))
    → List ReadPort
    → Store
    → Result (List ReadPort × Store)
each_port step [] s = ok ([], s)
each_port step (p ∷ ps) s = do (q, s₁) ← step p s; (qs, s₂) ← each_port step ps s₁; ok (q ∷ qs, s₂)

unfoldable pub write_all : List WritePort → List ℕ → Store → Result (List ℕ × Store)
write_all [] contents s = ok (contents, s)
write_all (p ∷ ps) contents s = do (contents', s') ← write p contents s; write_all ps contents' s'

unfoldable pub iterate : Memory → Store → Result (Memory × Store)
iterate m s = do
  (ps, s₁) ← each_port output m.read_ports s
  (qs, s₂) ← each_port (serve m.contents) ps s₁
  (contents', s₃) ← write_all m.write_ports m.contents s₂
  ok (record m { contents = contents'; read_ports = qs }, s₃)

abbrev clear : List ReadPort → List ReadPort
clear [] = []
clear (p ∷ ps) = record p { pending_read_packet = none } ∷ clear ps

unfoldable pub reset_read_ports : List ReadPort → Store → Result Store
reset_read_ports [] s = ok s
reset_read_ports (p ∷ ps) s = do
  s₁ ← reset_at p.addr_in_channel_buffer s
  s₂ ← reset_at p.data_out_channel_buffer s₁
  reset_read_ports ps s₂

unfoldable pub reset_write_ports : List WritePort → Store → Result Store
reset_write_ports [] s = ok s
reset_write_ports (p ∷ ps) s = do
  s₁ ← reset_at p.addr_in_channel_buffer s
  s₂ ← reset_at p.data_in_channel_buffer s₁
  reset_write_ports ps s₂

-- The contents persist.
unfoldable pub reset : Memory → Store → Result (Memory × Store)
reset m s = do
  s₁ ← reset_read_ports m.read_ports s
  s₂ ← reset_write_ports m.write_ports s₁
  ok (record m { read_ports = clear m.read_ports }, s₂)
