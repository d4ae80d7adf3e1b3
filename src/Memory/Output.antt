-- ===== src/Memory/Output.antt =====
-- The output of a read port of tools/simulator/memory.py, which never raises.
use mathlib.Core.Path.{subst}
use tia_infrastructure.Prelude.{
  ℕ, ◌<◌, ◌≡◌, refl, inl, inr, Option, none, some, length, All, All-get_elem?, get_elem?,
  get_elem?-lt, ok, arith, Bool-cases, List-cases,
}
use tia_infrastructure.Interconnect.{Packet, Buffer, is_full}
use tia_infrastructure.Store.{Store}
use tia_infrastructure.Store.Keeps.{
  Keeps, Keeps_refl, Keeps_trans, Forwards, Within, enqueue_at_total, enqueue_at-Keeps,
  transfer_total,
}
use tia_infrastructure.Memory.{ReadPort, forward, emit, output}
use tia_infrastructure.Memory.Ports.{ReadPortFits, Served}

forward_total :
    (p : ReadPort) (s : Store)
    → p.data_out_channel_buffer < length s
    → All (Forwards (length s)) s
    → (t : Store) × (forward p s ≡ ok t) × Keeps s t
unfolding forward
forward_total p s l h =
    let (b, e) = get_elem?-lt s p.data_out_channel_buffer l in
    by_destination b e b.peripheral_destination refl
      (All-get_elem? (Forwards (length s)) s p.data_out_channel_buffer h e)
  where
    by_destination :
        (b : Buffer)
        → get_elem? s p.data_out_channel_buffer ≡ some b
        → (o : Option ℕ) → b.peripheral_destination ≡ o
        → Forwards (length s) b
        → (t : Store) × (forward p s ≡ ok t) × Keeps s t
    by_destination b e none g f = (s, simp (e, g), Keeps_refl s)
    by_destination b e (some d) g f =
        let (c, j) = get_elem?-lt s d (subst (Within (length s)) g f) in
        elim (Bool-cases (is_full c)) [
          | inl full ↦ (s, simp (e, g, j, full), Keeps_refl s)
          | inr room ↦ elim (List-cases b.deque) [
            | inl nothing ↦ (s, simp (e, g, j, room, nothing), Keeps_refl s)
            | inr (x, xs, stock) ↦
                let (t, m, k) =
                  transfer_total p.data_out_channel_buffer d
                    (record { buffer = b; head = x; rest = xs; there = e; stock = stock })
                    (record { buffer = c; there = j; room = room }) in
                (t, simp (e, g, j, room, stock) (ground (arith, m)), k)
          ]
        ]

emit_total :
    (p : ReadPort) (s : Store)
    → p.data_out_channel_buffer < length s
    → (x : ReadPort × Store) × (emit p s ≡ ok x) × Served p s x
unfolding emit
emit_total p s l = by_pending p.pending_read_packet refl
  where
    by_pending :
        (o : Option Packet)
        → p.pending_read_packet ≡ o
        → (x : ReadPort × Store) × (emit p s ≡ ok x) × Served p s x
    by_pending none g = (
      (p, s),
      ground (arith, g),
      record { same_address = refl; same_data = refl; store = Keeps_refl s },
    )
    by_pending (some packet) g =
        let (b, e) = get_elem?-lt s p.data_out_channel_buffer l in
        elim (Bool-cases (is_full b)) [
          | inl full ↦ (
            (p, s),
            ground (arith, g, e, full),
            record { same_address = refl; same_data = refl; store = Keeps_refl s },
          )
          | inr room ↦
              let (t, f) =
                enqueue_at_total p.data_out_channel_buffer packet
                  (record { buffer = b; there = e; room = room }) in
              (
                (record p { pending_read_packet = none }, t),
                ground (arith, g, e, room, f),
                record {
                  same_address = refl;
                  same_data = refl;
                  store = enqueue_at-Keeps p.data_out_channel_buffer packet s f;
                },
              )
        ]

-- A port sends on what it has read, and never raises in doing so.
pub output_total :
    (p : ReadPort) (s : Store)
    → ReadPortFits (length s) p
    → All (Forwards (length s)) s
    → (x : ReadPort × Store) × (output p s ≡ ok x) × Served p s x
unfolding output
output_total p s f h =
    let (t, e, k) = forward_total p s f.words h in
    let (x, g, v) = emit_total p t (rw k.same_length f.words) in
    (
      x,
      rw (e, g),
      record {
        same_address = v.same_address;
        same_data = v.same_data;
        store = Keeps_trans k v.store;
      },
    )
