-- ===== src/Assembly/Fields/Errors.antt =====
-- The split of an instruction into statements raises nothing but an AssemblyException.
use tia_infrastructure.Prelude.{
  ℕ, zero, suc, ◌-◌, ◌≡◌, refl, Bool, true, false, not, ◌==◌, ◌||◌, if◌then◌else◌, some, List, [],
  ◌∷◌, length, Result, ok, err, assembly_exception, ◌>>=◌, ◌>>◌, raise_if, Bool-cases, arith, inl,
  inr,
}
use tia_infrastructure.Prelude.Text.{
  Text, codes, starts_with, ends_with, contains, drop, drop_last, strip, split, split_after,
  cons_first,
}
use tia_infrastructure.Assembly.{strip_each}
use tia_infrastructure.Assembly.Fields.{
  InstructionFields, init, read_trigger_segment, is_given, secondary, secondary_once,
  read_operations, from_instruction_string,
}

-- A call that returns a value with a property or raises an AssemblyException.
abbrev pub Refuses {ℓ} : {A : Type ℓ} → (A → Type 0) → Result A → Type 0
Refuses P (ok a) = P a
Refuses P (err e) = e ≡ assembly_exception

Refuses-bind {ℓ κ} :
    {A : Type ℓ} {B : Type κ} (P : A → Type 0) (Q : B → Type 0) (m : Result A) (f : A → Result B)
    → Refuses P m
    → ((a : A) → P a → Refuses Q (f a))
    → Refuses Q (m >>= f)
Refuses-bind P Q (ok a) f h k = k a h
Refuses-bind P Q (err e) f h k = h

-- `if test: raise AssemblyException(...)`, and what follows it when the test fails.
Refuses-raise_if {ℓ} :
    {A : Type ℓ} (Q : A → Type 0) (b : Bool) (m : Result A)
    → (b ≡ false → Refuses Q m)
    → Refuses Q (raise_if b assembly_exception >> m)
Refuses-raise_if Q true m h = refl
Refuses-raise_if Q false m h = h refl

split_after-cons :
    (sep : Text) (k : ℕ) (s : Text) → (a : Text) × (r : List Text) × (split_after sep k s ≡ a ∷ r)
split_after-cons sep k [] = ([], [], refl)
split_after-cons sep (suc k) (x ∷ s) = split_after-cons sep k s
split_after-cons sep zero (x ∷ s) =
    by_test (starts_with sep (x ∷ s)) (λ k. split_after-cons sep k s)
  where
    by_test :
        (b : Bool)
        → ((k : ℕ) → (a : Text) × (r : List Text) × (split_after sep k s ≡ a ∷ r))
        → (a : Text) × (r : List Text) × ((if b
              then [] ∷ split_after sep (if b then length sep - 1 else 0) s
              else cons_first x (split_after sep (if b then length sep - 1 else 0) s))
            ≡ a ∷ r)
    by_test true h = ([], split_after sep (length sep - 1) s, refl)
    by_test false h = let (a, r, e) = h 0 in (x ∷ a, r, rw e)

-- A separator that occurs splits a text into two parts at least.
split-contains :
    (sep : Text) (s : Text)
    → starts_with sep [] ≡ false
    → contains sep s ≡ true
    → (a : Text) × (b : Text) × (r : List Text) × (split sep s ≡ a ∷ b ∷ r)
split-contains sep [] n e = cc
split-contains sep (x ∷ s) n e = by_test (starts_with sep (x ∷ s)) e (λ f. split-contains sep s n f)
  where
    by_test :
        (b : Bool)
        → (b || contains sep s) ≡ true
        → (contains sep s ≡ true
            → (a : Text) × (b : Text) × (r : List Text) × (split sep s ≡ a ∷ b ∷ r))
        → (a : Text) × (c : Text) × (r : List Text) × ((if b
              then [] ∷ split_after sep (if b then length sep - 1 else 0) s
              else cons_first x (split_after sep (if b then length sep - 1 else 0) s))
            ≡ a ∷ c ∷ r)
    by_test true e h = let (a, r, f) = split_after-cons sep (length sep - 1) s in ([], a, r, rw f)
    by_test false e h = let (a, b, r, f) = h e in (x ∷ a, b, r, rw f)

-- A result names the condition of the trigger.
abbrev pub HasCondition : InstructionFields → Type 0
HasCondition f = (c : Text) × (f.trigger_predicate_conditions_string ≡ some c)

read_trigger_segment-Refuses :
    (s : Text) (f : InstructionFields) → Refuses HasCondition (read_trigger_segment s f)
unfolding read_trigger_segment
read_trigger_segment-Refuses s f = elim (Bool-cases (contains (codes "with") s)) [
  | inl e ↦ let (a, b, r, g) = split-contains (codes "with") s refl e in rw (e, g) (strip a, refl)
  | inr e ↦ rw e (s, refl)
]

secondary-Refuses :
    (s : Text) (f : InstructionFields) → HasCondition f → Refuses HasCondition (secondary s f)
secondary-Refuses s f h = by_test (starts_with (codes "deq") s) (starts_with (codes "set") s)
  where
    by_test :
        (a b : Bool)
        → Refuses HasCondition (
            if a
            then ok (record f { dequeue_input_channels_string = some s })
            else if b
            then ok (record f { predicate_update_string = some s })
            else err assembly_exception)
    by_test true b = h
    by_test false true = h
    by_test false false = refl

secondary_once-Refuses :
    (s : Text) (f : InstructionFields) → HasCondition f → Refuses HasCondition (secondary_once s f)
secondary_once-Refuses s f h = by_test (starts_with (codes "deq") s) (starts_with (codes "set") s)
  where
    by_test :
        (a b : Bool)
        → Refuses HasCondition (
            if a
            then (raise_if (is_given f.dequeue_input_channels_string) assembly_exception
                >> ok (record f { dequeue_input_channels_string = some s }))
            else if b
            then (raise_if (is_given f.predicate_update_string) assembly_exception
                >> ok (record f { predicate_update_string = some s }))
            else err assembly_exception)
    by_test true b =
        Refuses-raise_if HasCondition (is_given f.dequeue_input_channels_string)
          (ok (record f { dequeue_input_channels_string = some s })) (λ _. h)
    by_test false true =
        Refuses-raise_if HasCondition (is_given f.predicate_update_string)
          (ok (record f { predicate_update_string = some s })) (λ _. h)
    by_test false false = refl

read_operations-Refuses :
    (ss : List Text) (f : InstructionFields)
    → HasCondition f
    → Refuses HasCondition (read_operations ss f)
unfolding read_operations
read_operations-Refuses [] f h = refl
read_operations-Refuses (a ∷ []) f h = h
read_operations-Refuses (a ∷ b ∷ []) f h =
    secondary-Refuses b (record f { datapath_instruction_string = some a }) h
read_operations-Refuses (a ∷ b ∷ c ∷ []) f h =
    Refuses-bind HasCondition HasCondition
      (secondary_once b (record f { datapath_instruction_string = some a }))
      (λ g. secondary_once c g)
      (secondary_once-Refuses b (record f { datapath_instruction_string = some a }) h)
      (λ g k. secondary_once-Refuses c g k)
read_operations-Refuses (a ∷ b ∷ c ∷ d ∷ ss) f h = h

two_parts :
    (ss : List Text) → not (length ss == 2) ≡ false → (a : Text) × (b : Text) × (ss ≡ a ∷ b ∷ [])
two_parts [] e = cc
two_parts (a ∷ []) e = cc
two_parts (a ∷ b ∷ []) e = (a, b, refl)
two_parts (a ∷ b ∷ c ∷ ss) e = ground arith

-- Whatever the text, its split into statements either gives fields that name the trigger's condition
-- or raises an AssemblyException.
pub from_instruction_string-Refuses : (s : Text) → Refuses HasCondition (from_instruction_string s)
unfolding from_instruction_string
from_instruction_string-Refuses s =
    Refuses-raise_if HasCondition (not (length (split (codes ":") s) == 2)) _ λ n.
      let (a, b, e) = two_parts (split (codes ":") s) n in
      rw e (
        Refuses-raise_if HasCondition (not (starts_with (codes "when") (strip a))) _ λ _.
          Refuses-bind HasCondition HasCondition
            (read_trigger_segment (strip (drop 4 (strip a))) init) _
            (read_trigger_segment-Refuses (strip (drop 4 (strip a))) init)
            λ f h. Refuses-raise_if HasCondition (not (ends_with b';' (strip b))) _ λ _.
              read_operations-Refuses (strip_each (split (codes ";") (drop_last (strip b)))) f h)
