-- ===== src/Prelude/Bits.antt =====
-- Bits of naturals: `bit x i` is bit `i` of `x`, and Python's `|`, `&`, `<<` and `bit_length` in
-- terms of it. The native operations stand for a digit recursion, from which all follows.
mod Digits
use Prim.Native.Nat.{bit_and, bit_or, min, max, bit_and-bitwise}
use mathlib.Core.Path.{◌≡◌, refl, ap, sym, ◌∙◌}
use mathlib.Core.Logic.{◌↔◌, ◌≢◌}
use mathlib.Core.Bool.{Bool, true, false}
use native.Mathlib.Omega.{arith}
use native.Mathlib.Nat.{pow-suc, one-le-pow, div-div-eq-div-mul, div-one}
use Prim.Native.Nat.{ℕ, zero, suc, ◌+◌, ◌-◌, ◌*◌, ◌/◌, ◌%◌, ◌^◌, ◌≤◌, ◌<◌}
use tia_infrastructure.Prelude.Tests.{to_ℕ, if◌then◌else◌, ◌==◌, leb}
pub use Digits.{bit_or_step, bit_and_step}

-- `x << k`
infixl 70 ◌<<<◌
abbrev pub ◌<<<◌ : ℕ → ℕ → ℕ
x <<< k = x * 2 ^ k

pub bit : ℕ → ℕ → ℕ
bit x zero = x % 2
bit x (suc i) = bit (x / 2) i

-- `(x >> i) & 1` as arithmetic.
pub bit-eq-div-mod : (x i : ℕ) → bit x i ≡ x / 2 ^ i % 2
unfolding bit
bit-eq-div-mod x zero = ap (λ y. y % 2) (sym (div-one x))
bit-eq-div-mod x (suc i) = omega (
  arith,
  bit-eq-div-mod (x / 2) i,
  div-div-eq-div-mul x 2 (2 ^ i),
  pow-suc 2 i,
  ap (λ (k : ℕ). x / k) (pow_suc_left i),
)
  where
    pow_suc_left : (i : ℕ) → 2 * 2 ^ i ≡ 2 ^ suc i
    pow_suc_left i = omega (arith, pow-suc 2 i)

pub bit-bit_or : (x y i : ℕ) → bit (bit_or x y) i ≡ max (bit x i) (bit y i)
unfolding bit
bit-bit_or x y zero = omega (arith, bit_or_step x y)
bit-bit_or x y (suc i) =
    ap (λ z. bit z i) (omega (arith, bit_or_step x y)) ∙ bit-bit_or (x / 2) (y / 2) i

pub bit-bit_and : (x y i : ℕ) → bit (bit_and x y) i ≡ min (bit x i) (bit y i)
unfolding bit
bit-bit_and x y zero = omega (arith, bit_and_step x y)
bit-bit_and x y (suc i) =
    ap (λ z. bit z i) (omega (arith, bit_and_step x y)) ∙ bit-bit_and (x / 2) (y / 2) i

pub bit-zero : (i : ℕ) → bit 0 i ≡ 0
unfolding bit
bit-zero zero = refl
bit-zero (suc i) = bit-zero i

-- The only bit of a power of two.
pub bit-pow : (k i : ℕ) → bit (2 ^ k) i ≡ to_ℕ (k == i)
unfolding bit
bit-pow zero zero = refl
bit-pow zero (suc i) = bit-zero i ∙ ground arith
bit-pow (suc k) zero = ground (arith, pow-suc 2 k)
bit-pow (suc k) (suc i) =
    ap (λ z. bit z i) (omega (arith, pow-suc 2 k)) ∙ bit-pow k i ∙ ground arith

-- Below `2 ^ k` the complement turns every bit.
pub bit-complement : (k x i : ℕ) → x < 2 ^ k → i < k → bit (2 ^ k - 1 - x) i ≡ 1 - bit x i
unfolding bit
bit-complement zero x i h l = absurd (omega arith)
bit-complement (suc k) x zero h l = omega (arith, pow-suc 2 k)
bit-complement (suc k) x (suc i) h l =
    ap (λ z. bit z i) (omega (arith, pow-suc 2 k))
    ∙ bit-complement k (x / 2) i (omega (arith, pow-suc 2 k)) (omega arith)

pub bit-le : (x i : ℕ) → bit x i ≤ 1
unfolding bit
bit-le x zero = omega arith
bit-le x (suc i) = bit-le (x / 2) i

pub bit_or-lt : (k x y : ℕ) → x < 2 ^ k → y < 2 ^ k → bit_or x y < 2 ^ k
bit_or-lt zero zero zero h l = omega (arith, bit_or_step 0 0)
bit_or-lt zero zero (suc y) h l = absurd (omega arith)
bit_or-lt zero (suc x) y h l = absurd (omega arith)
bit_or-lt (suc k) x y h l = omega (
  arith,
  bit_or_step x y,
  pow-suc 2 k,
  bit_or-lt k (x / 2) (y / 2) (omega (arith, pow-suc 2 k)) (omega (arith, pow-suc 2 k)),
)

pub bit_and-lt : (k x y : ℕ) → x < 2 ^ k → bit_and x y < 2 ^ k
bit_and-lt zero zero y h = omega (arith, bit_and-bitwise 0 y)
bit_and-lt zero (suc x) y h = absurd (omega arith)
bit_and-lt (suc k) x y h = omega (
  arith,
  bit_and_step x y,
  pow-suc 2 k,
  bit_and-lt k (x / 2) (y / 2) (omega (arith, pow-suc 2 k)),
)

bit_and-zero : (n x : ℕ) → x ≤ n → bit_and x 0 ≡ 0
bit_and-zero n zero h = bit_and-bitwise 0 0
bit_and-zero zero (suc x) h = absurd (omega arith)
bit_and-zero (suc n) (suc x) h =
    omega (arith, bit_and_step (suc x) 0, bit_and-zero n (suc x / 2) (omega arith))

pub bit_and-one : (x : ℕ) → bit_and x 1 ≡ x % 2
bit_and-one x = omega (arith, bit_and_step x 1, bit_and-zero (x / 2) (x / 2) (omega arith))

-- A number with no bit set is zero.
pub zero_of_bits : (k x : ℕ) → x < 2 ^ k → ((i : ℕ) → i < k → bit x i ≡ 0) → x ≡ 0
unfolding bit
zero_of_bits zero x h bits = omega arith
zero_of_bits (suc k) x h bits = omega (
  arith,
  bits 0 (omega arith),
  zero_of_bits k (x / 2) (omega (arith, pow-suc 2 k)) (λ i l. bits (suc i) (omega arith)),
)

pub double-pow : (a k : ℕ) → a * 2 ^ suc k ≡ 2 * (a * 2 ^ k)
double-pow a k = omega (arith, ap (λ (t : ℕ). a * t) (pow-suc 2 k))

-- The bits of `q * 2 ^ k + r` below `k`, and the one at `k`.
pub bit-below : (k i q r : ℕ) → i < k → bit (q * 2 ^ k + r) i ≡ bit r i
unfolding bit
bit-below zero i q r h = absurd (omega arith)
bit-below (suc k) zero q r h = omega (arith, double-pow q k)
bit-below (suc k) (suc i) q r h =
    let e : (q * 2 ^ suc k + r) / 2 ≡ q * 2 ^ k + r / 2 = omega (arith, double-pow q k) in
    ap (λ (t : ℕ). bit t i) e ∙ bit-below k i q (r / 2) (omega arith)

pub bit-at : (k q r : ℕ) → r < 2 ^ k → bit (q * 2 ^ k + r) k ≡ q % 2
unfolding bit
bit-at zero q r h = omega arith
bit-at (suc k) q r h =
    let e : (q * 2 ^ suc k + r) / 2 ≡ q * 2 ^ k + r / 2 = omega (arith, double-pow q k) in
    ap (λ (t : ℕ). bit t k) e ∙ bit-at k q (r / 2) (omega (arith, pow-suc 2 k))

pub bit-above : (k i q r : ℕ) → r < 2 ^ k → bit (q * 2 ^ k + r) (k + i) ≡ bit q i
unfolding bit
bit-above zero i q r h =
    let e : q * 1 + r ≡ q = omega arith in
    let n : 0 + i ≡ i = omega arith in ap (bit (q * 1 + r)) n ∙ ap (λ (t : ℕ). bit t i) e
bit-above (suc k) i q r h =
    let e : (q * 2 ^ suc k + r) / 2 ≡ q * 2 ^ k + r / 2 = omega (arith, double-pow q k) in
    let n : suc k + i ≡ suc (k + i) = omega arith in
    ap (bit (q * 2 ^ suc k + r)) n
    ∙ ap (λ (t : ℕ). bit t (k + i)) e
    ∙ bit-above k i q (r / 2) (omega (arith, pow-suc 2 k))

-- A number below `2 ^ k` has no bit from `k` on.
pub bit-lt-pow : (k x i : ℕ) → x < 2 ^ k → k ≤ i → bit x i ≡ 0
unfolding bit
bit-lt-pow zero x i h l = let e : x ≡ 0 = omega arith in ap (λ (t : ℕ). bit t i) e ∙ bit-zero i
bit-lt-pow (suc k) x zero h l = absurd (omega arith)
bit-lt-pow (suc k) x (suc i) h l = bit-lt-pow k (x / 2) i (omega (arith, pow-suc 2 k)) (omega arith)
