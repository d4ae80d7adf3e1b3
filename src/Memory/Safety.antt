-- ===== src/Memory/Safety.antt =====
-- A cycle of tools/simulator/memory.py: its loops over the ports, and when it raises.
use mathlib.Core.Path.{subst}
use tia_infrastructure.Prelude.{
  ℕ, ◌<◌, ◌≡◌, refl, sym, ap, ◌∙◌, ◌⊎◌, inl, inr, List, [], ◌∷◌, length, All, get_elem?-lt,
  lt_of_get_elem?, Result, Safely, Safely-bind, Safely-map, Safely-of_eq, arith,
}
use tia_infrastructure.Interconnect.{Buffer}
use tia_infrastructure.Store.{Store}
use tia_infrastructure.Store.Keeps.{Keeps, Keeps_refl, Keeps_trans, Forwards}
use tia_infrastructure.Memory.{
  ReadPort, WritePort, Memory, output, serve, each_port, write, write_all, iterate,
}
use tia_infrastructure.Memory.Output.{output_total}
use tia_infrastructure.Memory.Ports.{
  ReadPortFits, WritePortFits, BadAddress, Served, Written, Forwards-Keeps, serve-Safely,
  write-Safely,
}

-- A request within the cycle was there when it began.
pub Keeps-BadAddress :
    {s t : Store} (size r : ℕ) → Keeps s t → BadAddress size t r → BadAddress size s r
Keeps-BadAddress {s} {t} size r k h =
    let there = h.request.there in
    let l : r < length s = omega (arith, lt_of_get_elem? t r there, k.same_length) in
    let (b, e) = get_elem?-lt s r l in
    let (c, f, q) = k.frozen r b e in
    let same : h.request.buffer ≡ c = cc in
    record {
      request = record {
        buffer = b;
        head = h.request.head;
        rest = h.request.rest;
        there = e;
        stock = sym q.deque ∙ ap (λ (x : Buffer). x.deque) (sym same) ∙ h.request.stock;
      };
      beyond = h.beyond;
    }

abbrev pub Any {ℓ} : {A : Type ℓ} → (A → Type 0) → List A → Type 0
Any P [] = ⊥
Any P (x ∷ xs) = P x ⊎ Any P xs

Any-bot : {A : Type 0} (xs : List A) → ¬ (Any (λ (x : A). ⊥) xs)
Any-bot [] h = h
Any-bot (x ∷ xs) (inl h) = h
Any-bot (x ∷ xs) (inr h) = Any-bot xs h

-- Ports with the same buffers.
abbrev pub SamePorts : List ReadPort → List ReadPort → Type 0
SamePorts [] [] = Unit
SamePorts [] (q ∷ qs) = ⊥
SamePorts (p ∷ ps) [] = ⊥
SamePorts (p ∷ ps) (q ∷ qs) =
    (q.addr_in_channel_buffer ≡ p.addr_in_channel_buffer)
    × (q.data_out_channel_buffer ≡ p.data_out_channel_buffer)
    × SamePorts ps qs

SamePorts-Fits :
    (n : ℕ) (ps qs : List ReadPort)
    → SamePorts ps qs
    → All (ReadPortFits n) ps
    → All (ReadPortFits n) qs
SamePorts-Fits n [] [] e h = tt
SamePorts-Fits n [] (q ∷ qs) e h = elim e [ ]
SamePorts-Fits n (p ∷ ps) [] e h = elim e [ ]
SamePorts-Fits n (p ∷ ps) (q ∷ qs) (a, d, e) (f, h) =
    (record { address = rw a f.address; words = rw d f.words }, SamePorts-Fits n ps qs e h)

SamePorts-Any :
    (R : ℕ → Type 0) (ps qs : List ReadPort)
    → SamePorts ps qs
    → Any (λ q. R q.addr_in_channel_buffer) qs
    → Any (λ p. R p.addr_in_channel_buffer) ps
SamePorts-Any R [] [] e h = h
SamePorts-Any R [] (q ∷ qs) e h = elim e [ ]
SamePorts-Any R (p ∷ ps) [] e h = elim e [ ]
SamePorts-Any R (p ∷ ps) (q ∷ qs) (a, d, e) (inl h) = inl (subst R a h)
SamePorts-Any R (p ∷ ps) (q ∷ qs) (a, d, e) (inr h) = inr (SamePorts-Any R ps qs e h)

SamePorts-trans : (ps qs rs : List ReadPort) → SamePorts ps qs → SamePorts qs rs → SamePorts ps rs
SamePorts-trans [] [] [] e f = tt
SamePorts-trans [] [] (r ∷ rs) e f = f
SamePorts-trans [] (q ∷ qs) rs e f = elim e [ ]
SamePorts-trans (p ∷ ps) [] rs e f = elim e [ ]
SamePorts-trans (p ∷ ps) (q ∷ qs) [] e f = elim f [ ]
SamePorts-trans (p ∷ ps) (q ∷ qs) (r ∷ rs) (a, d, e) (a', d', f) =
    (a' ∙ a, d' ∙ d, SamePorts-trans ps qs rs e f)

-- What the loops over the ports leave of ports and store, in a cycle that began with store `s`.
pub record Looped (s : Store) (ps : List ReadPort) (x : List ReadPort × Store) : Type 0 where
  pub ports : SamePorts ps x.0
  pub store : Keeps s x.1

-- A cycle that began with store `s`.
module _ (s : Store) where
  each_port-Safely :
      (step : ReadPort → Store → Result (ReadPort × Store)) (R : ReadPort → Type 0)
      → ((p : ReadPort) (t : Store)
          → Keeps s t
          → ReadPortFits (length s) p
          → Safely (R p) (Served p t) (step p t))
      → (ps : List ReadPort) (t : Store) → Keeps s t
      → All (ReadPortFits (length s)) ps
      → Safely (Any R ps) (Looped s ps) (each_port step ps t)
  unfolding each_port
  each_port-Safely step R h [] t k f = record { ports = tt; store = k }
  each_port-Safely step R h (p ∷ ps) t k (f, fs) =
      Safely-bind (Any R (p ∷ ps)) (Served p t) (Looped s (p ∷ ps)) (step p t) _
        (Safely-map (step p t) (λ r. inl r) (λ x v. v) (h p t k f))
        λ x v.
          Safely-bind (Any R (p ∷ ps)) (Looped s ps) (Looped s (p ∷ ps)) (each_port step ps x.1) _
            (Safely-map (each_port step ps x.1) (λ r. inr r) (λ y w. w)
              (each_port-Safely step R h ps x.1 (Keeps_trans k v.store) fs))
            λ y w. record { ports = (v.same_address, v.same_data, w.ports); store = w.store }

  write_all-Safely :
      (size : ℕ) (ps : List WritePort) (contents : List ℕ) (t : Store)
      → Keeps s t
      → length contents ≡ size
      → All (WritePortFits (length s)) ps
      → Safely
          (Any (λ p. BadAddress size s p.addr_in_channel_buffer) ps)
          (λ x. (length x.0 ≡ size) × Keeps s x.1)
          (write_all ps contents t)
  unfolding write_all
  write_all-Safely size [] contents t k l f = (l, k)
  write_all-Safely size (p ∷ ps) contents t k l (f, fs) =
      Safely-bind (Any (λ q. BadAddress size s q.addr_in_channel_buffer) (p ∷ ps))
        (Written contents t) (λ x. (length x.0 ≡ size) × Keeps s x.1) (write p contents t) _
        (Safely-map (write p contents t)
          (λ r. inl (Keeps-BadAddress size p.addr_in_channel_buffer k (rw (← l) r))) (λ x w. w)
          (write-Safely p contents t
            (record { address = rw k.same_length f.address; words = rw k.same_length f.words })))
        λ x w.
          Safely-map (write_all ps x.0 x.1) (λ r. inr r) (λ y e. e)
            (write_all-Safely size ps x.0 x.1 (Keeps_trans k w.store) (w.same_size ∙ l) fs)

-- A memory whose ports' buffers are in a store of `n`.
pub record MemoryFits (n : ℕ) (m : Memory) : Type 0 where
  pub reads : All (ReadPortFits n) m.read_ports
  pub writes : All (WritePortFits n) m.write_ports

-- A port of the memory whose first request is beyond the contents.
abbrev pub BadRequest : Store → Memory → Type 0
BadRequest s m =
    Any (λ p. BadAddress (length m.contents) s p.addr_in_channel_buffer) m.read_ports
    ⊎ Any (λ p. BadAddress (length m.contents) s p.addr_in_channel_buffer) m.write_ports

-- What a cycle of a memory that fits leaves.
pub record MemoryCycled (m : Memory) (s : Store) (x : Memory × Store) : Type 0 where
  pub fits : MemoryFits (length s) x.0
  pub same_size : length x.0.contents ≡ length m.contents
  pub store : Keeps s x.1
  pub read_ports : SamePorts m.read_ports x.0.read_ports
  pub write_ports : x.0.write_ports ≡ m.write_ports

-- A cycle of a memory whose ports have their buffers, in a store that forwards within itself, gives
-- a memory of as many words, with the ports' buffers unchanged, and changes no queue before the
-- commit; or it raises an `IndexError`, and then the first request of a port was beyond the contents.
pub iterate-Safely :
    (m : Memory) (s : Store)
    → MemoryFits (length s) m
    → All (Forwards (length s)) s
    → Safely (BadRequest s m) (MemoryCycled m s) (iterate m s)
unfolding iterate
iterate-Safely m s f h =
    Safely-bind (BadRequest s m) (Looped s m.read_ports) (MemoryCycled m s)
      (each_port output m.read_ports s) _
      (Safely-map (each_port output m.read_ports s) never (λ x l. l)
        (each_port-Safely s output (λ _. ⊥) sends m.read_ports s (Keeps_refl s) f.reads))
      λ x l.
        let qf = SamePorts-Fits (length s) m.read_ports x.0 l.ports f.reads in
        Safely-bind (BadRequest s m) (Looped s x.0) (MemoryCycled m s)
          (each_port (serve m.contents) x.0 x.1) _
          (Safely-map (each_port (serve m.contents) x.0 x.1)
            (λ r. inl (SamePorts-Any (BadAddress (length m.contents) s) m.read_ports x.0 l.ports r))
            (λ y l'. l')
            (each_port-Safely s (serve m.contents)
              (λ p. BadAddress (length m.contents) s p.addr_in_channel_buffer) serves x.0 x.1
              l.store qf))
          λ y l'.
            Safely-bind (BadRequest s m) (λ z. (length z.0 ≡ length m.contents) × Keeps s z.1)
              (MemoryCycled m s) (write_all m.write_ports m.contents y.1) _
              (Safely-map (write_all m.write_ports m.contents y.1) (λ r. inr r) (λ z e. e)
                (write_all-Safely s (length m.contents) m.write_ports m.contents y.1 l'.store refl
                  f.writes))
              λ z e. record {
                fits = record {
                  reads = SamePorts-Fits (length s) x.0 y.0 l'.ports qf;
                  writes = f.writes;
                };
                same_size = e.0;
                store = e.1;
                read_ports = SamePorts-trans m.read_ports x.0 y.0 l.ports l'.ports;
                write_ports = refl;
              }
  where
    never : Any (λ (p : ReadPort). ⊥) m.read_ports → BadRequest s m
    never r = absurd (Any-bot m.read_ports r)

    sends :
        (p : ReadPort) (t : Store)
        → Keeps s t
        → ReadPortFits (length s) p
        → Safely ⊥ (Served p t) (output p t)
    sends p t k g = Safely-of_eq ⊥ (Served p t) (output p t) (
        output_total p t
          (record { address = rw k.same_length g.address; words = rw k.same_length g.words })
          (Forwards-Keeps k h))

    serves :
        (p : ReadPort) (t : Store)
        → Keeps s t
        → ReadPortFits (length s) p
        → Safely
            (BadAddress (length m.contents) s p.addr_in_channel_buffer)
            (Served p t)
            (serve m.contents p t)
    serves p t k g =
        Safely-map (serve m.contents p t)
          (Keeps-BadAddress (length m.contents) p.addr_in_channel_buffer k) (λ x v. v)
          (serve-Safely m.contents p t
            (record { address = rw k.same_length g.address; words = rw k.same_length g.words }))
