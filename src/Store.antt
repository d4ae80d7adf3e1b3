-- ===== src/Store.antt =====
-- The buffers of a system as cells of a store. Python shares a buffer between its core, the routers
-- of two neighbours and the system's event loop; here each of them holds a reference, the buffer's
-- position, so that what one of them stages the others see.
pub mod Keeps
use tia_infrastructure.Prelude.{ℕ, Bool, List, Result, ok, err, ◌>>=◌, get_item, set}
use tia_infrastructure.Interconnect.{
  Packet, Buffer, is_full, is_empty, enqueue, dequeue, peek, commit, reset,
}

abbrev pub Store : Type 0
Store = List Buffer

-- `b.full` and `b.empty`
abbrev pub full_at : ℕ → Store → Result Bool
full_at r s = get_item s r >>= λ b. ok (is_full b)

abbrev pub empty_at : ℕ → Store → Result Bool
empty_at r s = get_item s r >>= λ b. ok (is_empty b)

unfoldable pub peek_at : ℕ → Store → Result Packet
peek_at r s = get_item s r >>= λ b. peek b

unfoldable pub enqueue_at : ℕ → Packet → Store → Result Store
enqueue_at r p s = do b ← get_item s r; c ← enqueue p b; ok (set s r c)

unfoldable pub dequeue_at : ℕ → Store → Result (Packet × Store)
dequeue_at r s = do b ← get_item s r; (p, c) ← dequeue b; ok (p, set s r c)

unfoldable pub commit_at : ℕ → Store → Result Store
commit_at r s = do b ← get_item s r; c ← commit b; ok (set s r c)

unfoldable pub reset_at : ℕ → Store → Result Store
reset_at r s = get_item s r >>= λ b. ok (set s r (reset b))
