-- ===== src/Memory/Ports.antt =====
-- The ports of tools/simulator/memory.py: what one port does within a cycle, and when it raises.
use mathlib.Core.Path.{subst}
use tia_infrastructure.Prelude.{
  ℕ, zero, suc, ◌<◌, ◌≤◌, ◌≡◌, refl, sym, ◌⊎◌, inl, inr, Option, none, some, List, [], ◌∷◌, length,
  All, get_elem?, get_elem?-lt, length-set, set, arith, List-cases, Safely, Safely-of_eq,
  Safely-of_raise,
}
use tia_infrastructure.Interconnect.{Packet, Buffer}
use tia_infrastructure.Store.{Store}
use tia_infrastructure.Store.Keeps.{
  Keeps, Keeps_refl, Keeps_trans, CanDequeue, Forwards, dequeue_at_head, dequeue_at-Keeps,
  Keeps-CanDequeue,
}
use tia_infrastructure.Memory.{ReadPort, WritePort, serve, write}

-- A port whose buffers are in a store of `n`.
pub record ReadPortFits (n : ℕ) (p : ReadPort) : Type 0 where
  pub address : p.addr_in_channel_buffer < n
  pub words : p.data_out_channel_buffer < n

pub record WritePortFits (n : ℕ) (p : WritePort) : Type 0 where
  pub address : p.addr_in_channel_buffer < n
  pub words : p.data_in_channel_buffer < n

-- A buffer whose first packet is no address of a memory of `size` words.
pub record BadAddress (size : ℕ) (s : Store) (r : ℕ) : Type 0 where
  pub request : CanDequeue s r
  pub beyond : size ≤ request.head.value

-- A port's work leaves its buffers as they were, and the store as a step within a cycle may.
pub record Served (p : ReadPort) (s : Store) (x : ReadPort × Store) : Type 0 where
  pub same_address : x.0.addr_in_channel_buffer ≡ p.addr_in_channel_buffer
  pub same_data : x.0.data_out_channel_buffer ≡ p.data_out_channel_buffer
  pub store : Keeps s x.1

-- In a store that was fitting, a store within the cycle still forwards only within it.
pub Forwards-Keeps :
    {s t : Store} → Keeps s t → All (Forwards (length s)) s → All (Forwards (length t)) t
Forwards-Keeps {s} {t} k h =
    subst (λ n. All (Forwards n) t) (sym k.same_length) (k.forwards (length s) h)

-- A word of the contents, or an address beyond them.
get_item-cases :
    (xs : List ℕ) (i : ℕ)
    → ((w : ℕ) × (get_elem? xs i ≡ some w)) ⊎ ((length xs ≤ i) × (get_elem? xs i ≡ none))
get_item-cases [] i = inr (omega arith, refl)
get_item-cases (x ∷ xs) zero = inl (x, refl)
get_item-cases (x ∷ xs) (suc i) = elim (get_item-cases xs i) [
  | inl h ↦ inl h
  | inr (l, e) ↦ inr (omega arith, e)
]

-- A port serves a request, or raises an `IndexError` for one whose address is beyond the contents.
pub serve-Safely :
    (contents : List ℕ) (p : ReadPort) (s : Store)
    → ReadPortFits (length s) p
    → Safely
        (BadAddress (length contents) s p.addr_in_channel_buffer)
        (Served p s)
        (serve contents p s)
unfolding serve
serve-Safely contents p s f =
    let (b, e) = get_elem?-lt s p.addr_in_channel_buffer f.address in
    elim (List-cases b.deque) [
      | inl nothing ↦ Safely-of_eq _ (Served p s) (serve contents p s) (
        (p, s),
        ground (arith, e, nothing),
        record { same_address = refl; same_data = refl; store = Keeps_refl s },
      )
      | inr (x, xs, stock) ↦ by_pending b e x xs stock p.pending_read_packet refl
    ]
  where
    by_pending :
        (b : Buffer)
        → get_elem? s p.addr_in_channel_buffer ≡ some b
        → (x : Packet) (xs : List Packet) → b.deque ≡ x ∷ xs
        → (o : Option Packet) → p.pending_read_packet ≡ o
        → Safely
            (BadAddress (length contents) s p.addr_in_channel_buffer)
            (Served p s)
            (serve contents p s)
    by_pending b e x xs stock (some q) g = Safely-of_eq _ (Served p s) (serve contents p s) (
      (p, s),
      ground (arith, g, e, stock),
      record { same_address = refl; same_data = refl; store = Keeps_refl s },
    )
    by_pending b e x xs stock none g =
        let h : CanDequeue s p.addr_in_channel_buffer = record {
          buffer = b;
          head = x;
          rest = xs;
          there = e;
          stock = stock;
        } in
        let (t, d) = dequeue_at_head p.addr_in_channel_buffer h in
        elim (get_item-cases contents x.value) [
          | inl (w, a) ↦ Safely-of_eq _ (Served p s) (serve contents p s) (
            (record p { pending_read_packet = some (record { tag = x.tag; value = w }) }, t),
            ground (arith, g, e, stock, d, a),
            record {
              same_address = refl;
              same_data = refl;
              store = dequeue_at-Keeps p.addr_in_channel_buffer s d;
            },
          )
          | inr (l, a) ↦
              Safely-of_raise _ (Served p s) (serve contents p s)
                (ground (arith, g, e, stock, d, a)) (record { request = h; beyond = l })
        ]

-- A write leaves as many words as there were.
pub record Written (contents : List ℕ) (s : Store) (x : List ℕ × Store) : Type 0 where
  pub same_size : length x.0 ≡ length contents
  pub store : Keeps s x.1

-- A port writes a word, or raises an `IndexError` for one whose address is beyond the contents.
pub write-Safely :
    (p : WritePort) (contents : List ℕ) (s : Store)
    → WritePortFits (length s) p
    → Safely
        (BadAddress (length contents) s p.addr_in_channel_buffer)
        (Written contents s)
        (write p contents s)
unfolding write
write-Safely p contents s f =
    let (b, e) = get_elem?-lt s p.addr_in_channel_buffer f.address in
    let (c, j) = get_elem?-lt s p.data_in_channel_buffer f.words in
    elim (List-cases b.deque) [
      | inl nothing ↦ Safely-of_eq _ (Written contents s) (write p contents s) (
        (contents, s),
        ground (arith, e, j, nothing),
        record { same_size = refl; store = Keeps_refl s },
      )
      | inr (x, xs, stock) ↦ elim (List-cases c.deque) [
        | inl nothing ↦ Safely-of_eq _ (Written contents s) (write p contents s) (
          (contents, s),
          ground (arith, e, j, stock, nothing),
          record { same_size = refl; store = Keeps_refl s },
        )
        | inr (y, ys, load) ↦
            both (record { buffer = b; head = x; rest = xs; there = e; stock = stock })
              (record { buffer = c; head = y; rest = ys; there = j; stock = load })
      ]
    ]
  where
    both :
        (h : CanDequeue s p.addr_in_channel_buffer)
        → CanDequeue s p.data_in_channel_buffer
        → Safely
            (BadAddress (length contents) s p.addr_in_channel_buffer)
            (Written contents s)
            (write p contents s)
    both h k =
        let (t, d) = dequeue_at_head p.addr_in_channel_buffer h in
        let keeps = dequeue_at-Keeps p.addr_in_channel_buffer s d in
        let k' = Keeps-CanDequeue p.data_in_channel_buffer keeps k in
        let (u, d') = dequeue_at_head p.data_in_channel_buffer k' in
        elim (get_item-cases contents h.head.value) [
          | inl (w, a) ↦ Safely-of_eq _ (Written contents s) (write p contents s) (
            (set contents h.head.value k'.head.value, u),
            simp (h.there, h.stock, k.there, k.stock, d, d', a) (ground arith),
            record {
              same_size = length-set contents h.head.value k'.head.value;
              store = Keeps_trans keeps (dequeue_at-Keeps p.data_in_channel_buffer t d');
            },
          )
          | inr (l, a) ↦
              Safely-of_raise _ (Written contents s) (write p contents s)
                (simp (h.there, h.stock, k.there, k.stock, d, d', a) (ground arith))
                (record { request = h; beyond = l })
        ]
