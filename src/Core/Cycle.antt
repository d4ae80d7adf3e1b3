-- ===== src/Core/Cycle.antt =====
-- One cycle of a core: which instruction fires, that none raises, and what the counters do.
use tia_infrastructure.Prelude.{
  ℕ, ◌+◌, ◌<◌, ◌≡◌, refl, ap, ◌∙◌, Bool, true, false, not, ◌==◌, Option, none, some, List, [], ◌∷◌,
  ◌++◌, length, All, All-map, get_elem?, get_elem?-lt, Result, ok, inl, inr, Bool-cases,
  if◌then◌else◌,
}
use tia_infrastructure.Prelude.Int.{ℤ, pos, negsuc}
use tia_infrastructure.Store.{Store}
use tia_infrastructure.Store.Keeps.{Keeps, Keeps_refl, peek_at_lem}
use tia_infrastructure.Isa.{Trigger, Instruction}
use tia_infrastructure.Isa.Numpy.{Numpy}
use tia_infrastructure.Core.{
  Core, all_of, check_tags, check_trigger, find_instruction, is_true, is_false, is_waiting,
  has_room, same, tag_matches,
}
use tia_infrastructure.Core.Execute.{execute, iterate, log}
use tia_infrastructure.Core.Fits.{layout, TriggerFits, Fits, ProgramFits}
use tia_infrastructure.Core.Guards.{Waiting, Holds, check_trigger_iff, is_waiting_iff}
use tia_infrastructure.Core.Safety.{Fired, execute-Fired}

all_of_total :
    (test : ℕ → Result Bool) (xs : List ℕ) (rest : Result Bool)
    → All (λ k. (b : Bool) × (test k ≡ ok b)) xs
    → (All (λ k. test k ≡ ok true) xs → (b : Bool) × (rest ≡ ok b))
    → (b : Bool) × (all_of test xs rest ≡ ok b)
unfolding all_of
all_of_total test [] rest h r = r tt
all_of_total test (x ∷ xs) rest ((true, e), h) r =
    let (b, f) = all_of_total test xs rest h (λ a. r (e, a)) in (b, rw (e, f))
all_of_total test (x ∷ xs) rest ((false, e), h) r = (false, rw e)

-- Once every channel is known to hold a packet, no look at a tag raises.
check_tags_total :
    (c : Core) (s : Store) (is ts : List ℕ) (bs : List Bool) (rest : Result Bool)
    → All (Waiting c.input_channel_buffers s) is
    → ((b : Bool) × (rest ≡ ok b))
    → (b : Bool) × (check_tags c s is ts bs rest ≡ ok b)
unfolding check_tags
check_tags_total c s (i ∷ is) (t ∷ ts) (b ∷ bs) rest (w, ws) r =
    let (x, e) = check_tags_total c s is ts bs rest ws r in
    elim (Bool-cases (same b (tag_matches w.ready.head.tag t))) [
      | inl yes' ↦ (x, rw (w.found, peek_at_lem w.ref w.ready, yes', e))
      | inr no' ↦ (false, rw (w.found, peek_at_lem w.ref w.ready, no'))
    ]
check_tags_total c s _ _ _ rest w r = r

-- A trigger that fits is checked without a raise.
pub check_trigger_total :
    (c : Core) (s : Store) (t : Trigger)
    → TriggerFits (layout c) (length s) t
    → (b : Bool) × (check_trigger c s t ≡ ok b)
unfolding check_trigger
check_trigger_total c s t f =
    all_of_total _ t.true_predicates _
      (All-map (λ k l. get_elem?-lt' k l) t.true_predicates f.true_fits)
      λ _.
        all_of_total _ t.false_predicates _
          (All-map (λ k l. negated k l) t.false_predicates f.false_fits)
          λ _. all_of_total _ t.input_channels _ (All-map waits t.input_channels f.input_fits) λ w.
            check_tags_total c s t.input_channels t.input_channel_tags t.input_channel_tag_booleans
              _ (All-map (λ k e. (is_waiting_iff c s k).0 e) t.input_channels w)
              (all_of_total _ t.output_channel_indices _
                (All-map rooms t.output_channel_indices f.output_fits) λ _. (true, refl))
  where
    get_elem?-lt' : (k : ℕ) → k < length c.predicates → (b : Bool) × (is_true c k ≡ ok b)
    get_elem?-lt' k l = let (b, e) = get_elem?-lt c.predicates k l in (b, rw e)

    negated : (k : ℕ) → k < length c.predicates → (b : Bool) × (is_false c k ≡ ok b)
    negated k l = let (b, e) = get_elem?-lt c.predicates k l in (not b, rw e)

    waits :
        (k : ℕ)
        → ((r : ℕ) × (get_elem? c.input_channel_buffers k ≡ some r) × (r < length s))
        → (b : Bool) × (is_waiting c s k ≡ ok b)
    waits k (r, e, l) = let (b, g) = get_elem?-lt s r l in (not (length b.deque == 0), rw (e, g))

    rooms :
        (k : ℕ)
        → ((r : ℕ) × (get_elem? c.output_channel_buffers k ≡ some r) × (r < length s))
        → (b : Bool) × (has_room c s k ≡ ok b)
    rooms k (r, e, l) =
        let (b, g) = get_elem?-lt s r l in (not (length b.deque == b.depth), rw (e, g))

-- The instruction that fires: the first in order whose trigger holds; none if no trigger holds.
abbrev pub Chosen : Core → Store → List Instruction → Option Instruction → Type 0
Chosen c s is none = All (λ i. ¬ (Holds c s i.trigger)) is
Chosen c s is (some i) =
    (before after : List Instruction) × (is ≡ before ++ (i ∷ after))
    × All (λ j. ¬ (Holds c s j.trigger)) before
    × Holds c s i.trigger

-- The search of a program that fits a core never raises, and finds the instruction with priority.
pub find_instruction-Chosen :
    (np : Numpy) (c : Core) (s : Store) (is : List Instruction)
    → ProgramFits np (layout c) (length s) is
    → (o : Option Instruction) × (find_instruction c s is ≡ ok o) × Chosen c s is o
unfolding find_instruction
find_instruction-Chosen np c s [] f = (none, refl, tt)
find_instruction-Chosen np c s (i ∷ is) ((ft, fi), fs) =
    decide (check_trigger_total c s i.trigger ft) (find_instruction-Chosen np c s is fs)
  where
    fails : check_trigger c s i.trigger ≡ ok false → ¬ (Holds c s i.trigger)
    fails e h = let e' = (check_trigger_iff c s i.trigger).1 h in cc

    later :
        check_trigger c s i.trigger ≡ ok false
        → (o : Option Instruction) → Chosen c s is o
        → Chosen c s (i ∷ is) o
    later e none h = (fails e, h)
    later e (some j) (before, after, q, h, k) =
        (i ∷ before, after, ap (λ (l : List Instruction). i ∷ l) q, (fails e, h), k)

    decide :
        ((b : Bool) × (check_trigger c s i.trigger ≡ ok b))
        → ((o : Option Instruction) × (find_instruction c s is ≡ ok o) × Chosen c s is o)
        → (o : Option Instruction) × (find_instruction c s (i ∷ is) ≡ ok o) × Chosen c s (i ∷ is) o
    decide (true, e) r = (some i, rw e, ([], is, refl, tt, (check_trigger_iff c s i.trigger).0 e))
    decide (false, e) (o, g, h) = (o, rw (e, g), later e o h)

-- The item after a prefix has what every item has.
All-middle {ℓ κ} :
    {A : Type ℓ} (P : A → Type κ) (before after : List A) (x : A)
    → All P (before ++ (x ∷ after))
    → P x
All-middle P [] after x h = h.0
All-middle P (y ∷ before) after x h = All-middle P before after x h.1

-- A core with one more number in its trace, if traces are kept, and nothing else changed.
abbrev pub traced : Bool → ℤ → Core → Core
traced keep n c = record c {
  execution_trace = if keep then c.execution_trace ++ (n ∷ []) else c.execution_trace;
}

log-eq-traced : (keep : Bool) (n : ℤ) (c : Core) → log keep n c ≡ traced keep n c
log-eq-traced true n c = refl
log-eq-traced false n c = refl

-- The three ways in which a cycle ends, each with all that it leaves of the core and the store.
pub data Outcome (np : Numpy) (keep : Bool) (c : Core) (s : Store) (r : Core × Store) : Type 0 where
  halted : c.halt_register ≡ true → r ≡ (traced keep (negsuc 0) c, s) → Outcome np keep c s r
  fired :
      (i : Instruction) (x : Core × Store)
      → c.halt_register ≡ false
      → Chosen c s c.instructions (some i)
      → execute np i c s ≡ ok x
      → Fired c s i x
      → r ≡ (traced keep (pos i.number) x.0, x.1)
      → Outcome np keep c s r
  untriggered :
      c.halt_register ≡ false
      → Chosen c s c.instructions none
      → r ≡ (traced keep (negsuc 0) (record c { untriggered_cycles = c.untriggered_cycles + 1 }), s)
      → Outcome np keep c s r

-- What a cycle of a core that runs a program that fits leaves.
pub record Cycled (np : Numpy) (keep : Bool) (c : Core) (s : Store) (r : Core × Store)
    : Type 0 where
  pub store : Keeps s r.1
  pub same_layout : layout r.0 ≡ layout c
  pub program : r.0.instructions ≡ c.instructions
  pub outcome : Outcome np keep c s r

module _ (np : Numpy) (keep : Bool) (c : Core) (s : Store) where
  Returns : Type 0
  Returns = (r : Core × Store) × (iterate np keep c s ≡ ok r) × Cycled np keep c s r

  idle :
      c.halt_register ≡ false
      → Chosen c s c.instructions none
      → find_instruction c s c.instructions ≡ ok none
      → Returns
  unfolding iterate Returns
  idle e h g =
      let d : Core = record c { untriggered_cycles = c.untriggered_cycles + 1 } in
      let ran : iterate np keep c s ≡ ok (log keep (negsuc 0) d, s) = simp (e, g) in
      (
        (traced keep (negsuc 0) d, s),
        ran ∙ ap (λ x. ok (x, s)) (log-eq-traced keep (negsuc 0) d),
        record {
          store = Keeps_refl s;
          same_layout = refl;
          program = refl;
          outcome = untriggered e h refl;
        },
      )

  fires :
      (i : Instruction) (x : Core × Store)
      → c.halt_register ≡ false
      → Chosen c s c.instructions (some i)
      → find_instruction c s c.instructions ≡ ok (some i)
      → execute np i c s ≡ ok x
      → Fired c s i x
      → Returns
  unfolding iterate Returns
  fires i x e h g a f = (
    (traced keep (pos i.number) x.0, x.1),
    simp (e, g, a, log-eq-traced keep (pos i.number) x.0),
    record {
      store = f.store;
      same_layout = f.same_layout;
      program = f.program;
      outcome = fired i x e h a f refl;
    },
  )

  rests : c.halt_register ≡ true → Returns
  unfolding iterate Returns
  rests e =
      let ran : iterate np keep c s ≡ ok (log keep (negsuc 0) c, s) = rw e in
      (
        (traced keep (negsuc 0) c, s),
        ran ∙ ap (λ x. ok (x, s)) (log-eq-traced keep (negsuc 0) c),
        record {
          store = Keeps_refl s;
          same_layout = refl;
          program = refl;
          outcome = halted e refl;
        },
      )

  -- A cycle of a core whose program fits it never raises, and one of three holds. The core was halted,
  -- and keeps all its state. Or the first instruction whose trigger holds fires: core and store are
  -- what its execution leaves, and it is counted as retired. Or no trigger holds, and only the count
  -- of untriggered cycles changes. In each the cycle is written to the trace, if one is kept. No queue
  -- changes before the commit.
  pub iterate-Cycled :
      ProgramFits np (layout c) (length s) c.instructions
      → (r : Core × Store) × (iterate np keep c s ≡ ok r) × Cycled np keep c s r
  unfolding Returns
  iterate-Cycled f = elim (Bool-cases c.halt_register) [
    | inl e ↦ rests e
    | inr e ↦ running e (find_instruction-Chosen np c s c.instructions f)
  ]
    where
      running :
          c.halt_register ≡ false
          → ((o : Option Instruction) × (find_instruction c s c.instructions ≡ ok o)
              × Chosen c s c.instructions o)
          → Returns
      running e (none, g, h) = idle e h g
      running e (some i, g, h) =
          let (before, after, q, n, holds) = h in
          let fits =
            All-middle (λ j. TriggerFits (layout c) (length s) j.trigger × Fits np (layout c) j)
              before after i (rw (← q) f) in
          let (x, a, d) = execute-Fired np i c s holds fits.1 in fires i x e h g a d
