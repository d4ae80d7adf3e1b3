-- ===== src/System/Memories.antt =====
-- The memories of tools/simulator/system.py within a cycle that began with a fitting store.
use tia_infrastructure.Prelude.{
  ℕ, suc, ◌≡◌, refl, ap, inl, inr, List, [], ◌∷◌, length, All, Safely, Safely-bind, Safely-map,
}
use tia_infrastructure.Store.{Store}
use tia_infrastructure.Store.Keeps.{Keeps, Keeps_trans, Forwards}
use tia_infrastructure.Memory
use tia_infrastructure.Memory.{Memory}
use tia_infrastructure.Memory.Ports.{BadAddress, Forwards-Keeps}
use tia_infrastructure.Memory.Safety.{
  Any, MemoryFits, BadRequest, MemoryCycled, Keeps-BadAddress, iterate-Safely,
}
use tia_infrastructure.System.{iterate_memories}

-- A memory's request within the cycle was there when it began.
Keeps-Any :
    {s t : Store} (size : ℕ)
    → Keeps s t
    → {A : Type 0} (addr : A → ℕ) (ps : List A) → Any (λ p. BadAddress size t (addr p)) ps
    → Any (λ p. BadAddress size s (addr p)) ps
Keeps-Any size k addr [] h = h
Keeps-Any size k addr (p ∷ ps) (inl h) = inl (Keeps-BadAddress size (addr p) k h)
Keeps-Any size k addr (p ∷ ps) (inr h) = inr (Keeps-Any size k addr ps h)

Keeps-BadRequest : {s t : Store} (m : Memory) → Keeps s t → BadRequest t m → BadRequest s m
Keeps-BadRequest m k (inl h) =
    inl (Keeps-Any (length m.contents) k (λ p. p.addr_in_channel_buffer) m.read_ports h)
Keeps-BadRequest m k (inr h) =
    inr (Keeps-Any (length m.contents) k (λ p. p.addr_in_channel_buffer) m.write_ports h)

-- In a cycle that began with store `s`.
pub record Remembers (s : Store) (ms : List Memory) (x : List Memory × Store) : Type 0 where
  pub fits : All (MemoryFits (length s)) x.0
  pub same_number : length x.0 ≡ length ms
  pub store : Keeps s x.1

pub iterate_memories-Safely :
    (s : Store) (ms : List Memory) (t : Store)
    → Keeps s t
    → All (MemoryFits (length s)) ms
    → All (Forwards (length s)) s
    → Safely (Any (BadRequest s) ms) (Remembers s ms) (iterate_memories ms t)
unfolding iterate_memories
iterate_memories-Safely s [] t k f h = record { fits = tt; same_number = refl; store = k }
iterate_memories-Safely s (m ∷ ms) t k (f, fs) h =
    Safely-bind (Any (BadRequest s) (m ∷ ms)) (MemoryCycled m t) (Remembers s (m ∷ ms))
      (Memory.iterate m t) _
      (Safely-map (Memory.iterate m t) (λ r. inl (Keeps-BadRequest m k r)) (λ x c. c)
        (iterate-Safely m t (rw k.same_length f) (Forwards-Keeps k h)))
      λ x c.
        Safely-bind (Any (BadRequest s) (m ∷ ms)) (Remembers s ms) (Remembers s (m ∷ ms))
          (iterate_memories ms x.1) _
          (Safely-map (iterate_memories ms x.1) (λ r. inr r) (λ y r. r)
            (iterate_memories-Safely s ms x.1 (Keeps_trans k c.store) fs h))
          λ y r. record {
            fits = (rw (← k.same_length) c.fits, r.fits);
            same_number = ap suc r.same_number;
            store = r.store;
          }
