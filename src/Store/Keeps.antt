-- ===== src/Store/Keeps.antt =====
-- Within a cycle every operation only stages: no queue changes, so every test of a buffer gives
-- the same answer from the start of the cycle to its end.
use tia_infrastructure.Prelude.{
  ℕ, ◌<◌, ◌≡◌, refl, sym, ap, ◌∙◌, true, false, Option, none, some, List, ◌∷◌, length, All,
  get_elem?, set, get_item, length-set, get_elem?-set_self, get_elem?-set_ne, lt_of_get_elem?,
  All-get_elem?, All-set, ok, >>=-eq-ok, ok-injective, ◌>>=◌, arith,
}
use mathlib.Core.Path.{subst}
use native.Mathlib.Decide.{ℕ_discrete}
use tia_infrastructure.Interconnect.{Packet, Buffer, is_full, enqueue, dequeue, peek}
use tia_infrastructure.Interconnect.Invariant.{
  IsValid, enqueue-IsValid, dequeue-IsValid, dequeue-cons,
}
use tia_infrastructure.Store.{Store, enqueue_at, dequeue_at, peek_at}

-- What a step within a cycle may do to a buffer.
pub record SameQueue (b c : Buffer) : Type 0 where
  pub deque : c.deque ≡ b.deque
  pub depth : c.depth ≡ b.depth
  pub peripheral : c.peripheral_destination ≡ b.peripheral_destination

-- A buffer that forwards its packets, if at all, to a buffer of a store of `n`.
abbrev pub Within : ℕ → Option ℕ → Type 0
Within n none = Unit
Within n (some d) = d < n

abbrev pub Forwards : ℕ → Buffer → Type 0
Forwards n b = Within n b.peripheral_destination

-- What a step within a cycle may do to the store.
pub record Keeps (s t : Store) : Type 0 where
  pub same_length : length t ≡ length s
  pub frozen :
      (r : ℕ) (b : Buffer)
      → get_elem? s r ≡ some b
      → (c : Buffer) × (get_elem? t r ≡ some c) × SameQueue b c
  pub valid : All IsValid s → All IsValid t
  pub forwards : (n : ℕ) → All (Forwards n) s → All (Forwards n) t

pub Keeps_refl : (s : Store) → Keeps s s
Keeps_refl s = record {
  same_length = refl;
  frozen = λ r b e. (b, e, record { deque = refl; depth = refl; peripheral = refl });
  valid = λ v. v;
  forwards = λ n h. h;
}

pub Keeps_trans : {s t u : Store} → Keeps s t → Keeps t u → Keeps s u
Keeps_trans k l = record {
  same_length = l.same_length ∙ k.same_length;
  frozen = λ r b e.
      let (c, f, q) = k.frozen r b e in
      let (c', f', q') = l.frozen r c f in
      (
        c',
        f',
        record {
          deque = q'.deque ∙ q.deque;
          depth = q'.depth ∙ q.depth;
          peripheral = q'.peripheral ∙ q.peripheral;
        },
      );
  valid = λ v. l.valid (k.valid v);
  forwards = λ n h. l.forwards n (k.forwards n h);
}

-- A write of a cell that changes no queue.
set-Keeps :
    (s : Store) (r : ℕ) (b c : Buffer)
    → get_elem? s r ≡ some b
    → SameQueue b c
    → (IsValid b → IsValid c)
    → Keeps s (set s r c)
set-Keeps s r b c e q v = record {
  same_length = length-set s r c;
  frozen = λ k d f. elim (ℕ_discrete r k) [
    | yes same ↦ (
      c,
      ap (get_elem? (set s r c)) (sym same) ∙ get_elem?-set_self s r c (lt_of_get_elem? s r e),
      same_queue k d same f,
    )
    | no other ↦ (
      d,
      get_elem?-set_ne s r k c other ∙ f,
      record { deque = refl; depth = refl; peripheral = refl },
    )
  ];
  valid = λ a. All-set IsValid s r c a (v (All-get_elem? IsValid s r a e));
  forwards = λ n h.
      All-set (Forwards n) s r c h
        (subst (Within n) (sym q.peripheral) (All-get_elem? (Forwards n) s r h e));
}
  where
    same_queue : (k : ℕ) (d : Buffer) → r ≡ k → get_elem? s k ≡ some d → SameQueue d c
    same_queue k d same f =
        let e' : some b ≡ some d = sym e ∙ ap (get_elem? s) same ∙ f in
        let e'' : b ≡ d = cc in subst (λ x. SameQueue x c) e'' q

enqueue-SameQueue : (p : Packet) (b : Buffer) {c : Buffer} → enqueue p b ≡ ok c → SameQueue b c
unfolding enqueue
enqueue-SameQueue p b e = ground arith

dequeue-SameQueue : (b : Buffer) {p : Packet} {c : Buffer} → dequeue b ≡ ok (p, c) → SameQueue b c
unfolding dequeue
dequeue-SameQueue b e = ground arith

-- `xs[i]` raises unless it finds an item.
pub get_item-eq-ok {ℓ} :
    {A : Type ℓ} (xs : List A) (i : ℕ) {x : A} → get_item xs i ≡ ok x → get_elem? xs i ≡ some x
get_item-eq-ok xs i e = ground arith

pub enqueue_at-Keeps :
    (r : ℕ) (p : Packet) (s : Store) {t : Store} → enqueue_at r p s ≡ ok t → Keeps s t
unfolding enqueue_at
enqueue_at-Keeps r p s {t} h =
    let (b, e, h') = >>=-eq-ok (get_item s r) (λ b. enqueue p b >>= λ c. ok (set s r c)) h in
    let (c, f, h'') = >>=-eq-ok (enqueue p b) (λ c. ok (set s r c)) h' in
    subst (Keeps s) (ok-injective h'') (
      set-Keeps s r b c (get_item-eq-ok s r e) (enqueue-SameQueue p b f)
        (λ v. enqueue-IsValid p v f))

pub dequeue_at-Keeps :
    (r : ℕ) (s : Store) {x : Packet × Store} → dequeue_at r s ≡ ok x → Keeps s x.1
unfolding dequeue_at
dequeue_at-Keeps r s {x} h =
    let (b, e, h') = >>=-eq-ok (get_item s r) (λ b. dequeue b >>= λ y. ok (y.0, set s r y.1)) h in
    let (y, f, h'') = >>=-eq-ok (dequeue b) (λ y. ok (y.0, set s r y.1)) h' in
    subst (λ z. Keeps s z.1) (ok-injective h'')
      (set-Keeps s r b y.1 (get_item-eq-ok s r e) (dequeue-SameQueue b f)
        (λ v. dequeue-IsValid v f))

-- A reference to a buffer with room, and one to a buffer that holds a packet.
pub record CanEnqueue (s : Store) (r : ℕ) : Type 0 where
  pub buffer : Buffer
  pub there : get_elem? s r ≡ some buffer
  pub room : is_full buffer ≡ false

pub record CanDequeue (s : Store) (r : ℕ) : Type 0 where
  pub buffer : Buffer
  pub head : Packet
  pub rest : List Packet
  pub there : get_elem? s r ≡ some buffer
  pub stock : buffer.deque ≡ head ∷ rest

pub Keeps-CanEnqueue : {s t : Store} (r : ℕ) → Keeps s t → CanEnqueue s r → CanEnqueue t r
Keeps-CanEnqueue r k h =
    let (c, e, q) = k.frozen r h.buffer h.there in
    record { buffer = c; there = e; room = rw (q.deque, q.depth) h.room }

pub Keeps-CanDequeue : {s t : Store} (r : ℕ) → Keeps s t → CanDequeue s r → CanDequeue t r
Keeps-CanDequeue r k h =
    let (c, e, q) = k.frozen r h.buffer h.there in
    record { buffer = c; head = h.head; rest = h.rest; there = e; stock = q.deque ∙ h.stock }

-- Under these an operation does not raise.
pub enqueue_at_total :
    {s : Store} (r : ℕ) (p : Packet) → CanEnqueue s r → (t : Store) × (enqueue_at r p s ≡ ok t)
unfolding enqueue_at enqueue
enqueue_at_total {s} r p h = (
  set s r (record (h.buffer) { staged_enqueue = true; staged_packet = some p; pending = true }),
  rw (h.there, h.room),
)

-- What is taken out is the head of the queue.
pub dequeue_at_head :
    {s : Store} (r : ℕ) (h : CanDequeue s r) → (t : Store) × (dequeue_at r s ≡ ok (h.head, t))
unfolding dequeue_at
dequeue_at_head {s} r h = (
  set s r (record (h.buffer) { staged_dequeue = true; pending = true }),
  rw (h.there, dequeue-cons h.buffer h.head h.rest h.stock),
)

pub dequeue_at_total :
    {s : Store} (r : ℕ) → CanDequeue s r → (x : Packet × Store) × (dequeue_at r s ≡ ok x)
dequeue_at_total r h = let (t, e) = dequeue_at_head r h in ((h.head, t), e)

pub peek_at_lem : {s : Store} (r : ℕ) (h : CanDequeue s r) → peek_at r s ≡ ok h.head
unfolding peek_at peek
peek_at_lem {s} r h = ground (arith, h.there, h.stock)

-- A packet that moves from one buffer to another, when the one has it and the other has room.
pub transfer_total :
    (from to : ℕ) {s : Store}
    → CanDequeue s from
    → CanEnqueue s to
    → (t : Store) × ((dequeue_at from s >>= λ x. enqueue_at to x.0 x.1) ≡ ok t) × Keeps s t
transfer_total from to {s} d e =
    let (x, f) = dequeue_at_total from d in
    let k = dequeue_at-Keeps from s f in
    let (t, g) = enqueue_at_total to x.0 (Keeps-CanEnqueue to k e) in
    (t, rw (f, g), Keeps_trans k (enqueue_at-Keeps to x.0 x.1 g))
