-- ===== src/MachineCode/Contents.antt =====
-- What the predicate and channel masks of tools/assembly/machine_code.py say of an instruction.
use Prim.Native.Nat.{bit_or, max}
use tia_infrastructure.Prelude.{
  ℕ, ◌+◌, ◌*◌, ◌^◌, ◌<◌, ◌≤◌, ◌≡◌, refl, ap, sym, ◌∙◌, Bool, true, false, Bool-cases, ltb, ltb→lt,
  ◌==◌, to_ℕ, if◌then◌else◌, List, [], ◌∷◌, ◌++◌, ok, assembly_exception, ◌>>=◌, ◌>>◌, raise_if,
  >>=-eq-ok, ok-injective, inl, inr, arith,
}
use tia_infrastructure.Prelude.Bits.{
  ◌<<<◌, bit, bit-below, bit-above, bit-zero, bit-bit_or, bit-pow, bit-lt-pow,
}
use tia_infrastructure.Prelude.Fields.{bit_length, bit_length-le, bit_or-shift}
use tia_infrastructure.Parameters.{CoreParameters}
use tia_infrastructure.Isa.{Instruction}
use tia_infrastructure.MachineCode.{
  build_true_ptm, build_false_ptm, build_ptm, build_oci, build_icd,
}
use tia_infrastructure.MachineCode.Loops.{checked, reverse, contains, or_predicates}
use tia_infrastructure.MachineCode.Masks.{MemberMask, or_members_lem}
use tia_infrastructure.MachineCode.Widths.{raise_if-eq, checked-eq}

checked_total : (w x : ℕ) → x < 2 ^ w → checked w x ≡ ok x
checked_total w x h = elim (Bool-cases (ltb w (bit_length x))) [
  | inl e ↦ absurd (ground (arith, bit_length-le x w))
  | inr e ↦ ap (λ b. raise_if b assembly_exception >> ok x) e
]

-- The output channel field is built for every instruction, with a one at each output channel of the
-- core that the instruction enqueues to and nowhere else: other indices are left out.
pub build_oci_lem :
    (cp : CoreParameters) (i : Instruction)
    → (m : ℕ) × (build_oci cp i ≡ ok m)
      × MemberMask i.output_channel_indices cp.num_output_channels m
unfolding build_oci
build_oci_lem cp i =
    let m = or_members_lem i.output_channel_indices cp.num_output_channels in
    (_, checked_total _ _ m.0, m)

-- The same for the input channels that the instruction dequeues.
pub build_icd_lem :
    (cp : CoreParameters) (i : Instruction)
    → (m : ℕ) × (build_icd cp i ≡ ok m)
      × MemberMask i.input_channels_to_dequeue cp.num_input_channels m
unfolding build_icd
build_icd_lem cp i =
    let m = or_members_lem i.input_channels_to_dequeue cp.num_input_channels in
    (_, checked_total _ _ m.0, m)

either : (b c : Bool) → to_ℕ (if b then true else c) ≡ max (to_ℕ b) (to_ℕ c)
either true true = omega arith
either true false = omega arith
either false c = omega arith

contains-append :
    (xs ys : List ℕ) (p : ℕ)
    → to_ℕ (contains (xs ++ ys) p) ≡ max (to_ℕ (contains xs p)) (to_ℕ (contains ys p))
contains-append [] ys p = omega arith
contains-append (x ∷ xs) ys p = omega (
  arith,
  either (x == p) (contains (xs ++ ys) p),
  either (x == p) (contains xs p),
  contains-append xs ys p,
)

contains-reverse : (xs : List ℕ) (p : ℕ) → to_ℕ (contains (reverse xs) p) ≡ to_ℕ (contains xs p)
contains-reverse [] p = refl
contains-reverse (x ∷ xs) p = omega (
  arith,
  contains-append (reverse xs) (x ∷ []) p,
  contains-reverse xs p,
  either (x == p) (contains xs p),
  either (x == p) false,
)

or_predicates_lem :
    (num mask : ℕ) (ps : List ℕ) {m : ℕ}
    → or_predicates num mask ps ≡ ok m
    → (p : ℕ) → bit m p ≡ max (bit mask p) (to_ℕ (contains ps p))
or_predicates_lem num mask [] h p = ap (λ t. bit t p) (sym (ok-injective h)) ∙ omega arith
or_predicates_lem num mask (x ∷ xs) h p =
    let (_, e) =
      raise_if-eq (ltb num x) assembly_exception (or_predicates num (bit_or mask (1 <<< x)) xs) h in
    let one : 1 <<< x ≡ 2 ^ x = omega arith in
    omega (
      arith,
      or_predicates_lem num (bit_or mask (1 <<< x)) xs e p,
      bit-bit_or mask (1 <<< x) p,
      ap (λ (t : ℕ). bit t p) one,
      bit-pow x p,
      either (x == p) (contains xs p),
    )

-- A predicate mask: a one for each predicate of the list, all of which the core has.
abbrev pub PredicateMask : ℕ → List ℕ → ℕ → Type 0
PredicateMask num ps m =
    (m < 2 ^ num)
    × ((p : ℕ) → bit m p ≡ to_ℕ (contains ps p))
    × ((p : ℕ) → contains ps p ≡ true → p < num)

half_mask :
    (num : ℕ) (ps : List ℕ) {m : ℕ}
    → (or_predicates num 0 (reverse ps) >>= checked num) ≡ ok m
    → PredicateMask num ps m
half_mask num ps {m} h =
    let (x, e, e') = >>=-eq-ok (or_predicates num 0 (reverse ps)) (checked num) h in
    let (q, l) = checked-eq num x e' in
    let bits : (p : ℕ) → bit m p ≡ to_ℕ (contains ps p) = λ p.
      ap (λ t. bit t p) q
      ∙ omega
          (arith, or_predicates_lem num 0 (reverse ps) e p, bit-zero p, contains-reverse ps p) in
    (
      l,
      bits,
      λ p c. elim (Bool-cases (ltb p num)) [
        | inl y ↦ ltb→lt p num y
        | inr n ↦ absurd (
            impossible (bit m p) (contains ps p) (bits p) c
              (bit-lt-pow num m p l (not_below p num n)))
      ],
    )
  where
    not_below : (a b : ℕ) → ltb a b ≡ false → b ≤ a
    not_below a b h = ground arith

    impossible : (x : ℕ) (b : Bool) → x ≡ to_ℕ b → b ≡ true → x ≡ 0 → ⊥
    impossible x b h e z = ground arith

-- When the predicate trigger mask is built, its low half has a one exactly at the predicates that
-- the trigger wants false, its high half exactly at those that it wants true, and the core has
-- every predicate of both lists, although the guard of the loop lets one more pass.
pub build_ptm_lem :
    (cp : CoreParameters) (i : Instruction) (m : ℕ)
    → build_ptm cp i ≡ ok m
    → ((p : ℕ)
        → p < cp.num_predicates
        → (bit m p ≡ to_ℕ (contains i.trigger.false_predicates p))
          × (bit m (cp.num_predicates + p) ≡ to_ℕ (contains i.trigger.true_predicates p)))
      × ((p : ℕ) → contains i.trigger.false_predicates p ≡ true → p < cp.num_predicates)
      × ((p : ℕ) → contains i.trigger.true_predicates p ≡ true → p < cp.num_predicates)
unfolding build_ptm build_true_ptm build_false_ptm
build_ptm_lem cp i m h =
    let n = cp.num_predicates in
    let (t, et, h') =
      >>=-eq-ok (build_true_ptm cp i)
        (λ t. build_false_ptm cp i >>= λ f. checked (n + n) (bit_or (t <<< n) f)) h in
    let (f, ef, h'') =
      >>=-eq-ok (build_false_ptm cp i) (λ f. checked (n + n) (bit_or (t <<< n) f)) h' in
    let (lt, bt, mt) = half_mask n i.trigger.true_predicates et in
    let (lf, bf, mf) = half_mask n i.trigger.false_predicates ef in
    let q : m ≡ t * 2 ^ n + f =
      (checked-eq (n + n) (bit_or (t <<< n) f) h'').0 ∙ bit_or-shift n t f lf in
    (
      λ p l. (
        ap (λ x. bit x p) q ∙ bit-below n p t f l ∙ bf p,
        ap (λ x. bit x (n + p)) q ∙ bit-above n p t f lf ∙ bt p,
      ),
      mf,
      mt,
    )
