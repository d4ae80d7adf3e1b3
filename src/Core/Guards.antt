-- ===== src/Core/Guards.antt =====
-- `check_trigger` against a description of what it means for a trigger to hold, and the choice of
-- the instruction that fires.
use tia_infrastructure.Prelude.{
  ℕ, ◌≡◌, ◌≢◌, ◌↔◌, refl, Bool, true, false, not, if◌then◌else◌, Option, some, List, [], ◌∷◌, All,
  get_elem?, get_item, List-cases, Result, ok, err, >>=-eq-ok, ◌>>=◌, arith, inl, inr,
}
use tia_infrastructure.Interconnect.{Packet, is_full, is_empty}
use tia_infrastructure.Store.{Store, peek_at, full_at, empty_at}
use tia_infrastructure.Store.Keeps.{CanEnqueue, CanDequeue, get_item-eq-ok}
use tia_infrastructure.Isa.{Trigger}
use tia_infrastructure.Core.{
  Core, all_of, check_tags, check_trigger, tag_matches, same, is_true, is_false, is_waiting,
  has_room, input_ref, output_ref,
}

-- Behind an index into a list of references: an input channel that has a packet, and an output channel that has room for one.
pub record Waiting (refs : List ℕ) (s : Store) (i : ℕ) : Type 0 where
  pub ref : ℕ
  pub found : get_elem? refs i ≡ some ref
  pub ready : CanDequeue s ref

pub record Roomy (refs : List ℕ) (s : Store) (i : ℕ) : Type 0 where
  pub ref : ℕ
  pub found : get_elem? refs i ≡ some ref
  pub ready : CanEnqueue s ref

-- The packet at the head of channel `i` has tag `t`, or has not, as `wanted` says.
pub record TagHolds (c : Core) (s : Store) (i t : ℕ) (wanted : Bool) : Type 0 where
  pub ref : ℕ
  pub found : get_elem? c.input_channel_buffers i ≡ some ref
  pub packet : Packet
  pub head : peek_at ref s ≡ ok packet
  pub positive : wanted ≡ true → packet.tag ≡ some t
  pub negative : wanted ≡ false → packet.tag ≢ some t

-- The tag conditions stop with the shortest of the three lists.
abbrev pub TagsHold : Core → Store → List ℕ → List ℕ → List Bool → Type 0
TagsHold c s (i ∷ is) (t ∷ ts) (b ∷ bs) = TagHolds c s i t b × TagsHold c s is ts bs
TagsHold c s _ _ _ = Unit

pub record Holds (c : Core) (s : Store) (t : Trigger) : Type 0 where
  pub true_set : All (λ i. get_elem? c.predicates i ≡ some true) t.true_predicates
  pub false_set : All (λ i. get_elem? c.predicates i ≡ some false) t.false_predicates
  pub waiting : All (Waiting c.input_channel_buffers s) t.input_channels
  pub tags : TagsHold c s t.input_channels t.input_channel_tags t.input_channel_tag_booleans
  pub room : All (Roomy c.output_channel_buffers s) t.output_channel_indices

-- One step of the chain of early returns.
guarded : Result Bool → Result Bool → Result Bool
guarded m next = m >>= λ b. if b then next else ok false

guarded_iff :
    (m next : Result Bool) → (guarded m next ≡ ok true) ↔ ((m ≡ ok true) × (next ≡ ok true))
unfolding guarded
guarded_iff (ok true) next = (λ e. (refl, e), λ p. p.1)
guarded_iff (ok false) next = (λ e. absurd (ground arith), λ p. absurd (ground arith))
guarded_iff (err x) next = (λ e. absurd (ground arith), λ p. absurd (ground arith))

all_of_iff :
    (test : ℕ → Result Bool) (P : ℕ → Type 0)
    → ((i : ℕ) → (test i ≡ ok true) ↔ P i)
    → (xs : List ℕ) (rest : Result Bool)
    → (all_of test xs rest ≡ ok true) ↔ (All P xs × (rest ≡ ok true))
unfolding all_of guarded
all_of_iff test P h [] rest = (λ e. (tt, e), λ p. p.1)
all_of_iff test P h (x ∷ xs) rest =
    let ih = all_of_iff test P h xs rest in
    let step = guarded_iff (test x) (all_of test xs rest) in
    (
      λ e. let (p, q) = step.0 e in (((h x).0 p, (ih.0 q).0), (ih.0 q).1),
      λ p. step.1 ((h x).1 p.0.0, ih.1 (p.0.1, p.1)),
    )

is_true_iff : (c : Core) (i : ℕ) → (is_true c i ≡ ok true) ↔ (get_elem? c.predicates i ≡ some true)
is_true_iff c i = ground arith

is_false_iff :
    (c : Core) (i : ℕ) → (is_false c i ≡ ok true) ↔ (get_elem? c.predicates i ≡ some false)
is_false_iff c i = ground arith

pub is_waiting_iff :
    (c : Core) (s : Store) (i : ℕ)
    → (is_waiting c s i ≡ ok true) ↔ Waiting c.input_channel_buffers s i
is_waiting_iff c s i = (to, from)
  where
    to : is_waiting c s i ≡ ok true → Waiting c.input_channel_buffers s i
    to e =
        let (r, f, g) = >>=-eq-ok (input_ref c i) _ e in
        let (x, h, k) = >>=-eq-ok (empty_at r s) (λ b. ok (not b)) g in
        let (b, l, m) = >>=-eq-ok (get_item s r) (λ b. ok (is_empty b)) h in
        elim (List-cases b.deque) [
          | inl nothing ↦ absurd (ground arith)
          | inr (p, ps, stock) ↦ record {
            ref = r;
            found = get_item-eq-ok c.input_channel_buffers i f;
            ready = record {
              buffer = b;
              head = p;
              rest = ps;
              there = get_item-eq-ok s r l;
              stock = stock;
            };
          }
        ]

    from : Waiting c.input_channel_buffers s i → is_waiting c s i ≡ ok true
    from w = rw (w.found, w.ready.there, w.ready.stock) (ground arith)

has_room_iff :
    (c : Core) (s : Store) (i : ℕ) → (has_room c s i ≡ ok true) ↔ Roomy c.output_channel_buffers s i
has_room_iff c s i = (to, from)
  where
    to : has_room c s i ≡ ok true → Roomy c.output_channel_buffers s i
    to e =
        let (r, f, g) = >>=-eq-ok (output_ref c i) _ e in
        let (x, h, k) = >>=-eq-ok (full_at r s) (λ b. ok (not b)) g in
        let (b, l, m) = >>=-eq-ok (get_item s r) (λ b. ok (is_full b)) h in
        record {
          ref = r;
          found = get_item-eq-ok c.output_channel_buffers i f;
          ready = record { buffer = b; there = get_item-eq-ok s r l; room = ground arith };
        }

    from : Roomy c.output_channel_buffers s i → has_room c s i ≡ ok true
    from w = rw (w.found, w.ready.there, w.ready.room)

-- The comparison of a tag, as the loop makes it.
same_iff :
    (b : Bool) (o : Option ℕ) (t : ℕ)
    → (same b (tag_matches o t) ≡ true) ↔ ((b ≡ true → o ≡ some t) × (b ≡ false → o ≢ some t))
same_iff true o t = ground arith
same_iff false o t = ground arith

branch_true :
    (b : Bool) (next : Result Bool)
    → (if b then next else ok false) ≡ ok true
    → (b ≡ true) × (next ≡ ok true)
branch_true true next e = (refl, e)
branch_true false next e = absurd (ground arith)

check_tags_iff :
    (c : Core) (s : Store) (is ts : List ℕ) (bs : List Bool) (rest : Result Bool)
    → (check_tags c s is ts bs rest ≡ ok true) ↔ (TagsHold c s is ts bs × (rest ≡ ok true))
unfolding check_tags
check_tags_iff c s (i ∷ is) (t ∷ ts) (b ∷ bs) rest =
    (to (check_tags_iff c s is ts bs rest).0, from (check_tags_iff c s is ts bs rest).1)
  where
    to :
        (check_tags c s is ts bs rest ≡ ok true → TagsHold c s is ts bs × (rest ≡ ok true))
        → check_tags c s (i ∷ is) (t ∷ ts) (b ∷ bs) rest ≡ ok true
        → (TagHolds c s i t b × TagsHold c s is ts bs) × (rest ≡ ok true)
    to ih e =
        let (r, f, g) = >>=-eq-ok (input_ref c i) _ e in
        let (p, h, k) = >>=-eq-ok (peek_at r s) _ g in
        let (m, n) = branch_true (same b (tag_matches p.tag t)) (check_tags c s is ts bs rest) k in
        let w = (same_iff b p.tag t).0 m in
        (
          (
            record {
              ref = r;
              found = get_item-eq-ok c.input_channel_buffers i f;
              packet = p;
              head = h;
              positive = w.0;
              negative = w.1;
            },
            (ih n).0,
          ),
          (ih n).1,
        )

    from :
        (TagsHold c s is ts bs × (rest ≡ ok true) → check_tags c s is ts bs rest ≡ ok true)
        → (TagHolds c s i t b × TagsHold c s is ts bs) × (rest ≡ ok true)
        → check_tags c s (i ∷ is) (t ∷ ts) (b ∷ bs) rest ≡ ok true
    from ih ((w, ws), e) =
        rw (w.found, w.head, (same_iff b w.packet.tag t).1 (w.positive, w.negative), ih (ws, e))
check_tags_iff c s _ _ _ rest = (λ e. (tt, e), λ p. p.1)

-- `check_trigger` answers `True` exactly when every predicate, channel and tag that the trigger
-- names is as the trigger wants it, and every output channel that it names has room.
pub check_trigger_iff :
    (c : Core) (s : Store) (t : Trigger) → (check_trigger c s t ≡ ok true) ↔ Holds c s t
unfolding check_trigger
check_trigger_iff c s t = (
  λ e.
      let (p, e₁) = (trues _).0 e in
      let (q, e₂) = (falses _).0 e₁ in
      let (w, e₃) = (waits _).0 e₂ in
      let (g, e₄) = (tags _).0 e₃ in
      record { true_set = p; false_set = q; waiting = w; tags = g; room = ((rooms _).0 e₄).0 },
  λ h. (trues _).1 (
    h.true_set,
    (falses _).1
        (h.false_set, (waits _).1 (h.waiting, (tags _).1 (h.tags, (rooms _).1 (h.room, refl)))),
  ),
)
  where
    trues :
        (rest : Result Bool)
        → (all_of (is_true c) t.true_predicates rest ≡ ok true)
          ↔ (All (λ i. get_elem? c.predicates i ≡ some true) t.true_predicates × (rest ≡ ok true))
    trues rest = all_of_iff _ _ (is_true_iff c) t.true_predicates rest

    falses :
        (rest : Result Bool)
        → (all_of (is_false c) t.false_predicates rest ≡ ok true)
          ↔ (All (λ i. get_elem? c.predicates i ≡ some false) t.false_predicates × (rest ≡ ok true))
    falses rest = all_of_iff _ _ (is_false_iff c) t.false_predicates rest

    waits :
        (rest : Result Bool)
        → (all_of (is_waiting c s) t.input_channels rest ≡ ok true)
          ↔ (All (Waiting c.input_channel_buffers s) t.input_channels × (rest ≡ ok true))
    waits rest = all_of_iff _ _ (is_waiting_iff c s) t.input_channels rest

    tags :
        (rest : Result Bool)
        → (check_tags c s t.input_channels t.input_channel_tags t.input_channel_tag_booleans rest
            ≡ ok true)
          ↔ (TagsHold c s t.input_channels t.input_channel_tags t.input_channel_tag_booleans
              × (rest ≡ ok true))
    tags rest =
        check_tags_iff c s t.input_channels t.input_channel_tags t.input_channel_tag_booleans rest

    rooms :
        (rest : Result Bool)
        → (all_of (has_room c s) t.output_channel_indices rest ≡ ok true)
          ↔ (All (Roomy c.output_channel_buffers s) t.output_channel_indices × (rest ≡ ok true))
    rooms rest = all_of_iff _ _ (has_room_iff c s) t.output_channel_indices rest
