-- ===== src/MachineCode/Masks.antt =====
-- The masks that the loops of tools/assembly/machine_code.py build, bit by bit.
use Prim.Native.Nat.{bit_and, bit_or}
use native.Mathlib.Nat.{pow-suc, one-le-pow}
use mathlib.Core.Path.{subst}
use tia_infrastructure.Prelude.{
  ℕ, zero, suc, ◌+◌, ◌-◌, ◌*◌, ◌%◌, ◌^◌, ◌<◌, ◌≤◌, ◌≡◌, ap, sym, ◌∙◌, Bool, true, false, ◌==◌, ltb,
  to_ℕ, List, Bool-cases, if◌then◌else◌, ltb→lt, inl, inr, arith,
}
use tia_infrastructure.Prelude.Int.{ℤ}
use tia_infrastructure.Prelude.Bits.{◌<<<◌, bit, bit-below, bit-at, double-pow}
use tia_infrastructure.Prelude.Fields.{bit_or-shift, bit_and-mask}
use tia_infrastructure.Isa.Numpy.{Numpy}
use tia_infrastructure.MachineCode.Loops.{ones, masked, contains, or_members}

bit_or-one : (a : ℕ) → bit_or (2 * a) 1 ≡ 2 * a + 1
bit_or-one a =
    omega (arith, ap (λ (t : ℕ). bit_or t 1) (double a), bit_or-shift 1 a 1 (omega arith))
  where
    double : (a : ℕ) → a <<< 1 ≡ 2 * a
    double a = omega arith

-- Only the last round of a loop does not shift.
if-suc : (k x y : ℕ) → (if suc k == 0 then x else y) ≡ y
if-suc k x y = ground arith

ones_even : (k a : ℕ) → ones (suc k) (2 * a) ≡ a * 2 ^ suc k + (2 ^ suc k - 1)
ones_even zero a = omega (arith, bit_or-one a)
ones_even (suc k) a =
    ap (ones (suc k)) (if-suc k (bit_or (2 * a) 1) (bit_or (2 * a) 1 <<< 1))
    ∙ ap (ones (suc k)) next
    ∙ ones_even k (2 * a + 1)
    ∙ omega (arith, one-le-pow (suc k) 2, pow-suc 2 (suc k), double-pow a (suc k), split)
  where
    next : bit_or (2 * a) 1 <<< 1 ≡ 2 * (2 * a + 1)
    next = omega (arith, bit_or-one a)

    split : (2 * a + 1) * 2 ^ suc k ≡ 2 * (a * 2 ^ suc k) + 2 ^ suc k
    split = grind arith

-- The loop builds the mask of `k` ones.
pub ones_lem : (k : ℕ) → ones k 0 ≡ 2 ^ k - 1
ones_lem zero = omega arith
ones_lem (suc k) = ones_even k 0 ∙ omega arith

-- What the immediate and the register values are cut down to.
pub masked_lem : (np : Numpy) (w : ℕ) (x : ℤ) → masked np w x ≡ np.uint32 x % 2 ^ w
masked_lem np w x =
    ap (λ (m : ℕ). bit_and (np.uint32 x) m) (ones_lem w) ∙ bit_and-mask w (np.uint32 x)

-- A mask with a bit for each index below `n`, on where the index is a member of the list.
abbrev pub MemberMask : List ℕ → ℕ → ℕ → Type 0
MemberMask xs n r = (r < 2 ^ n) × ((i : ℕ) → i < n → bit r i ≡ to_ℕ (contains xs i))

flag_or : List ℕ → ℕ → ℕ → ℕ
flag_or xs k a = if contains xs k then bit_or (2 * a) 1 else 2 * a

flag_or_lem : (xs : List ℕ) (k a : ℕ) → flag_or xs k a ≡ 2 * a + to_ℕ (contains xs k)
unfolding flag_or
flag_or_lem xs k a = ground (arith, bit_or-one a)

to_ℕ-le : (b : Bool) → to_ℕ b ≤ 1
to_ℕ-le true = omega arith
to_ℕ-le false = omega arith

MemberMask-suc :
    (xs : List ℕ) (k r : ℕ)
    → MemberMask xs k r
    → MemberMask xs (suc k) (to_ℕ (contains xs k) * 2 ^ k + r)
MemberMask-suc xs k r (l, bits) =
    let c = to_ℕ-le (contains xs k) in
    (
      bound (to_ℕ (contains xs k)) k r c l,
      λ i h. elim (Bool-cases (ltb i k)) [
        | inl p ↦ let q = ltb→lt i k p in bit-below k i (to_ℕ (contains xs k)) r q ∙ bits i q
        | inr n ↦
            let e : i ≡ k = ground arith in
            ap (bit (to_ℕ (contains xs k) * 2 ^ k + r)) e
            ∙ bit-at k (to_ℕ (contains xs k)) r l
            ∙ omega arith
            ∙ ap (λ (j : ℕ). to_ℕ (contains xs j)) (sym e)
      ],
    )
  where
    at_most : (c : ℕ) → suc c ≤ 1 → suc c ≡ 1
    at_most c h = omega arith

    bound : (c k r : ℕ) → c ≤ 1 → r < 2 ^ k → c * 2 ^ k + r < 2 ^ suc k
    bound zero k r h l = omega (arith, pow-suc 2 k)
    bound (suc c) k r h l = omega (arith, pow-suc 2 k, ap (λ (t : ℕ). t * 2 ^ k) (at_most c h))

distribute : (x c p : ℕ) → (x + c) * p ≡ x * p + c * p
distribute x c p = grind arith

or_members_even :
    (xs : List ℕ) (k a : ℕ)
    → (r : ℕ) × (or_members xs (suc k) (2 * a) ≡ a * 2 ^ suc k + r) × MemberMask xs (suc k) r
unfolding flag_or
or_members_even xs zero a = (
  to_ℕ (contains xs 0),
  flag_or_lem xs 0 a ∙ omega arith,
  subst (MemberMask xs 1) (omega arith)
      (MemberMask-suc xs 0 0 (omega arith, λ i h. absurd (omega arith))),
)
or_members_even xs (suc k) a =
    let c = to_ℕ (contains xs (suc k)) in
    let (r, e, m) = or_members_even xs k (2 * a + c) in
    (
      c * 2 ^ suc k + r,
      ap (or_members xs (suc k)) (
            if-suc k (flag_or xs (suc k) a) (flag_or xs (suc k) a <<< 1)
            ∙ omega (arith, flag_or_lem xs (suc k) a))
          ∙ e
          ∙ omega (
            arith,
            double-pow a (suc k),
            distribute (2 * a) c (2 ^ suc k),
            ap (λ (t : ℕ). a * t) (pow-suc 2 (suc k)),
          ),
      MemberMask-suc xs (suc k) r m,
    )

-- The loop over the indices below `n` builds the mask of the list's members.
pub or_members_lem : (xs : List ℕ) (n : ℕ) → MemberMask xs n (or_members xs n 0)
or_members_lem xs zero = (omega arith, λ i h. absurd (omega arith))
or_members_lem xs (suc k) =
    let (r, e, m) = or_members_even xs k 0 in subst (MemberMask xs (suc k)) (omega (arith, e)) m
