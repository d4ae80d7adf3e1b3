-- ===== src/Assembly/Build/Sources.antt =====
-- The sources of the instructions that the assembler reads: three, each with a type and an index.
use mathlib.Core.Path.{subst}
use tia_infrastructure.Prelude.{
  ℕ, zero, suc, ◌≡◌, refl, sym, ap, ◌∙◌, Bool, true, false, if◌then◌else◌, Option, some, List, [],
  ◌∷◌, ◌++◌, length, length-append, All, get_elem?, Result, ok, ◌>>=◌, get_item, or_raise,
  >>=-eq-ok, ok-injective, arith, index_error,
}
use tia_infrastructure.Prelude.Int.{ℤ, pos}
use tia_infrastructure.Prelude.Text.{Text}
use tia_infrastructure.Isa.{Op, SourceType}
use tia_infrastructure.Assembly.Datapath.{
  extract_source_type, extract_source_index, extract_immediate, extract_special_sw_source_type,
  extract_special_sw_source_index, extract_special_sw_immediate,
}
use tia_infrastructure.Assembly.Build.{
  Instruction, is_immediate, is_ssw, append_source, add_source, add_special_sw_source, add_null,
  without_sources, add_sources,
}

-- An immediate source has its value.
abbrev pub Supplied : Option ℤ → SourceType → Type 0
Supplied o SourceType.immediate = (v : ℤ) × (o ≡ some v)
Supplied o _ = Unit

supplied_some : (v : ℤ) (t : SourceType) → Supplied (some v) t
supplied_some v SourceType.immediate = (v, refl)
supplied_some v SourceType.null = tt
supplied_some v SourceType.channel = tt
supplied_some v SourceType.register = tt

supplied_other : (o : Option ℤ) (t : SourceType) → is_immediate t ≡ false → Supplied o t
supplied_other o SourceType.immediate e = cc
supplied_other o SourceType.null e = tt
supplied_other o SourceType.channel e = tt
supplied_other o SourceType.register e = tt

All_of_each {ℓ κ} : {A : Type ℓ} {P : A → Type κ} → ((a : A) → P a) → (xs : List A) → All P xs
All_of_each f [] = tt
All_of_each f (x ∷ xs) = (f x, All_of_each f xs)

All-snoc {ℓ κ} :
    {A : Type ℓ} (P : A → Type κ) (xs : List A) (x : A) → All P xs → P x → All P (xs ++ (x ∷ []))
All-snoc P [] x h p = (p, tt)
All-snoc P (y ∷ xs) x (q, h) p = (q, All-snoc P xs x h p)

length-snoc {ℓ} : {A : Type ℓ} (xs : List A) (x : A) → length (xs ++ (x ∷ [])) ≡ suc (length xs)
length-snoc xs x = length-append xs (x ∷ []) ∙ omega arith

get_elem?-snoc {ℓ} :
    {A : Type ℓ} (xs : List A) (x : A) → get_elem? (xs ++ (x ∷ [])) (length xs) ≡ some x
get_elem?-snoc [] x = refl
get_elem?-snoc (y ∷ xs) x = get_elem?-snoc xs x

-- So many sources have a type and an index.
pub record Filled (n : ℕ) (i : Instruction) : Type 0 where
  pub types : length i.source_types ≡ n
  pub indices : length i.source_indices ≡ n
  pub supplied : All (Supplied i.immediate) i.source_types

-- The fields that the sources leave alone.
pub record SameHead (i j : Instruction) : Type 0 where
  pub trigger : j.trigger ≡ i.trigger
  pub op : j.op ≡ i.op
  pub outputs : j.output_channel_indices ≡ i.output_channel_indices
  pub updates : j.predicate_update_indices ≡ i.predicate_update_indices
  pub values : j.predicate_update_values ≡ i.predicate_update_values

SameHead-refl : (i : Instruction) → SameHead i i
SameHead-refl i = record {
  trigger = refl;
  op = refl;
  outputs = refl;
  updates = refl;
  values = refl;
}

SameHead-trans : {i j k : Instruction} → SameHead i j → SameHead j k → SameHead i k
SameHead-trans a b = record {
  trigger = b.trigger ∙ a.trigger;
  op = b.op ∙ a.op;
  outputs = b.outputs ∙ a.outputs;
  updates = b.updates ∙ a.updates;
  values = b.values ∙ a.values;
}

add_null-Filled : (n : ℕ) (i : Instruction) → Filled n i → Filled (suc n) (add_null i)
add_null-Filled n i f = record {
  types = length-snoc i.source_types SourceType.null ∙ ap suc f.types;
  indices = length-snoc i.source_indices (pos 0) ∙ ap suc f.indices;
  supplied = All-snoc (Supplied i.immediate) i.source_types SourceType.null f.supplied tt;
}

append_source-Filled :
    (kind : Result SourceType) (immediate index : Result ℤ) (n : ℕ) (i : Instruction)
    {j : Instruction}
    → Filled n i
    → append_source kind immediate index n i ≡ ok j
    → Filled (suc n) j × SameHead i j
unfolding append_source
append_source-Filled kind immediate index n i {j} f e =
    let (t, _, e) = >>=-eq-ok kind _ e in
    let (here, g, e) = >>=-eq-ok (get_item (i.source_types ++ (t ∷ [])) n) _ e in
    by_test t (is_immediate t) refl (
      subst (λ x. (if is_immediate x then with_immediate t else with_index t) ≡ ok j)
        (placed t here g) e)
  where
    with_immediate : SourceType → Result Instruction
    with_immediate t = immediate >>= λ v. ok (record i {
      source_types = i.source_types ++ (t ∷ []);
      source_indices = i.source_indices ++ (pos 0 ∷ []);
      immediate = some v;
    })

    with_index : SourceType → Result Instruction
    with_index t = index >>= λ k. ok (record i {
      source_types = i.source_types ++ (t ∷ []);
      source_indices = i.source_indices ++ (k ∷ []);
    })

    placed : (t here : SourceType) → get_item (i.source_types ++ (t ∷ [])) n ≡ ok here → here ≡ t
    placed t here g = ok-injective (
        sym g
        ∙ ap (λ o. or_raise o index_error)
            (subst (λ m. get_elem? (i.source_types ++ (t ∷ [])) m ≡ some t) f.types
              (get_elem?-snoc i.source_types t)))

    by_test :
        (t : SourceType) (b : Bool)
        → is_immediate t ≡ b
        → (if b then with_immediate t else with_index t) ≡ ok j
        → Filled (suc n) j × SameHead i j
    by_test t true q e =
        let (v, _, e) = >>=-eq-ok immediate _ e in
        subst (λ j. Filled (suc n) j × SameHead i j) (ok-injective e)
          (
            record {
              types = length-snoc i.source_types t ∙ ap suc f.types;
              indices = length-snoc i.source_indices (pos 0) ∙ ap suc f.indices;
              supplied = All_of_each (supplied_some v) (i.source_types ++ (t ∷ []));
            },
            record { trigger = refl; op = refl; outputs = refl; updates = refl; values = refl },
          )
    by_test t false q e =
        let (k, _, e) = >>=-eq-ok index _ e in
        subst (λ j. Filled (suc n) j × SameHead i j) (ok-injective e)
          (
            record {
              types = length-snoc i.source_types t ∙ ap suc f.types;
              indices = length-snoc i.source_indices k ∙ ap suc f.indices;
              supplied =
                  All-snoc (Supplied i.immediate) i.source_types t f.supplied
                    (supplied_other i.immediate t q);
            },
            record { trigger = refl; op = refl; outputs = refl; updates = refl; values = refl },
          )

then_null :
    (n : ℕ) {i j : Instruction}
    → Filled n j × SameHead i j
    → Filled (suc n) (add_null j) × SameHead i (add_null j)
then_null n {i} {j} (f, h) = (
  add_null-Filled n j f,
  record {
    trigger = h.trigger;
    op = h.op;
    outputs = h.outputs;
    updates = h.updates;
    values = h.values;
  },
)

-- Sources come one after the other.
module _ (tokens : List Text) where
  first_source :
      (i : Instruction) {j : Instruction}
      → Filled 0 i
      → add_source tokens 0 0 i ≡ ok j
      → Filled 1 j × SameHead i j
  first_source i f e =
      append_source-Filled (extract_source_type tokens 0) (extract_immediate tokens 0)
        (extract_source_index tokens 0) 0 i f e

  next_source :
      (n k : ℕ) {i j : Instruction} (x : Instruction)
      → Filled n j × SameHead i j
      → add_source tokens k n j ≡ ok x
      → Filled (suc n) x × SameHead i x
  next_source n k {j = j} x (f, h) e =
      let (g, h') =
        append_source-Filled (extract_source_type tokens k) (extract_immediate tokens k)
          (extract_source_index tokens k) n j f e in
      (g, SameHead-trans h h')

-- The instruction of three null sources.
unsourced : {i j : Instruction} → ok (without_sources i) ≡ ok j → Filled 3 j × SameHead i j
unsourced {i} e =
    subst (λ j. Filled 3 j × SameHead i j) (ok-injective e)
      (
        record { types = refl; indices = refl; supplied = (tt, (tt, (tt, tt))) },
        record { trigger = refl; op = refl; outputs = refl; updates = refl; values = refl },
      )

pub add_sources-Filled :
    (op : Op) (tokens : List Text) (n : ℕ) (i : Instruction) {j : Instruction}
    → Filled 0 i
    → add_sources op tokens n i ≡ ok j
    → Filled 3 j × SameHead i j
unfolding add_sources
add_sources-Filled op tokens zero i f e = cc
add_sources-Filled op tokens (suc zero) i f e = unsourced e
add_sources-Filled op tokens (suc (suc zero)) i f e = unsourced e
add_sources-Filled op tokens (suc (suc (suc zero))) i {j} f e = by_op (is_ssw op) e
  where
    by_op :
        (b : Bool)
        → (if b
            then (add_special_sw_source tokens i >>= λ a.
                add_source tokens 0 1 a >>= λ b. ok (add_null b))
            else (add_source tokens 0 0 i >>= λ a. ok (add_null (add_null a))))
          ≡ ok j
        → Filled 3 j × SameHead i j
    by_op true e =
        let (a, p, e) = >>=-eq-ok (add_special_sw_source tokens i) _ e in
        let (b, q, e) = >>=-eq-ok (add_source tokens 0 1 a) _ e in
        let h =
          append_source-Filled (extract_special_sw_source_type tokens)
            (extract_special_sw_immediate tokens) (extract_special_sw_source_index tokens) 0 i f
            p in
        subst (λ j. Filled 3 j × SameHead i j) (ok-injective e)
          (then_null 2 (next_source tokens 1 0 b h q))
    by_op false e =
        let (a, p, e) = >>=-eq-ok (add_source tokens 0 0 i) _ e in
        subst (λ j. Filled 3 j × SameHead i j) (ok-injective e)
          (then_null 2 (then_null 1 (first_source tokens i f p)))
add_sources-Filled op tokens (suc (suc (suc (suc zero)))) i f e =
    let (a, p, e) = >>=-eq-ok (add_source tokens 0 0 i) _ e in
    let (b, q, e) = >>=-eq-ok (add_source tokens 1 1 a) _ e in
    subst (λ j. Filled 3 j × SameHead i j) (ok-injective e)
      (then_null 2 (next_source tokens 1 1 b (first_source tokens i f p) q))
add_sources-Filled op tokens (suc (suc (suc (suc (suc zero))))) i f e =
    let (a, p, e) = >>=-eq-ok (add_source tokens 0 0 i) _ e in
    let (b, q, e) = >>=-eq-ok (add_source tokens 1 1 a) _ e in
    next_source tokens 2 2 _ (next_source tokens 1 1 b (first_source tokens i f p) q) e
add_sources-Filled op tokens (suc (suc (suc (suc (suc (suc n)))))) i f e = cc
