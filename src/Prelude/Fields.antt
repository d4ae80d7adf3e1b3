-- ===== src/Prelude/Fields.antt =====
-- Fields packed into a number: Python's `int.bit_length`, and `|` after `<<` as a sum.
use Prim.Native.Nat.{
  ℕ, zero, suc, ◌+◌, ◌-◌, ◌*◌, ◌/◌, ◌%◌, ◌^◌, ◌≤◌, ◌<◌, bit_and, bit_or, min, bit_and-bitwise,
}
use mathlib.Core.Path.{◌≡◌, refl, ap, ◌∙◌}
use mathlib.Core.Logic.{◌↔◌}
use native.Mathlib.Omega.{arith}
use native.Mathlib.Nat.{
  pow-suc, one-le-pow, mod-lt, div-add-mod', mul-add-mod_self_right, mod-eq_of_lt,
}
use tia_infrastructure.Prelude.Tests.{if◌then◌else◌, ◌==◌}
use tia_infrastructure.Prelude.Bits.{◌<<<◌, bit_or_step, bit_and_step}

-- `n.bit_length()` for a natural, with enough fuel.
bit_length_fuel : ℕ → ℕ → ℕ
bit_length_fuel zero n = 0
bit_length_fuel (suc f) n = let rest = suc (bit_length_fuel f (n / 2)) in if n == 0 then 0 else rest

unfoldable pub bit_length : ℕ → ℕ
unfolding bit_length_fuel
bit_length n = bit_length_fuel n n

bit_length_fuel-le : (f n w : ℕ) → n ≤ f → (bit_length_fuel f n ≤ w) ↔ (n < 2 ^ w)
unfolding bit_length_fuel
bit_length_fuel-le zero n w h = (λ e. omega (arith, one-le-pow w 2), λ e. omega arith)
bit_length_fuel-le (suc f) n zero h = ground arith
bit_length_fuel-le (suc f) n (suc w) h =
    let ih = bit_length_fuel-le f (n / 2) w in ground (arith, pow-suc 2 w, one-le-pow w 2, ih)

-- A number has at most `w` bits exactly when it is below `2 ^ w`.
pub bit_length-le : (n w : ℕ) → (bit_length n ≤ w) ↔ (n < 2 ^ w)
unfolding bit_length
bit_length-le n w = bit_length_fuel-le n n w (omega arith)

bit_or-zero : (n x : ℕ) → x ≤ n → bit_or x 0 ≡ x
bit_or-zero n zero h = refl
bit_or-zero zero (suc x) h = absurd (omega arith)
bit_or-zero (suc n) (suc x) h =
    omega (arith, bit_or_step (suc x) 0, bit_or-zero n (suc x / 2) (omega arith))

shift-suc : (q k : ℕ) → q <<< suc k ≡ 2 * (q <<< k)
shift-suc q k = omega (arith, ap (λ (t : ℕ). q * t) (pow-suc 2 k))

-- `(q << k) | r` is a sum when `r` fits `k` bits.
pub bit_or-shift : (k q r : ℕ) → r < 2 ^ k → bit_or (q <<< k) r ≡ q <<< k + r
bit_or-shift zero q r h = ground (arith, bit_or-zero q q)
bit_or-shift (suc k) q r h = omega (
  arith,
  bit_or_step (q <<< suc k) r,
  shift-suc q k,
  pow-suc 2 k,
  bit_or-shift k q (r / 2) (omega (arith, pow-suc 2 k)),
  ap (λ (t : ℕ). bit_or t (r / 2)) (half q k),
)
  where
    half : (q k : ℕ) → (q <<< suc k) / 2 ≡ q <<< k
    half q k = omega (arith, shift-suc q k)

bit_and-zero : (n x : ℕ) → x ≤ n → bit_and x 0 ≡ 0
bit_and-zero n zero h = bit_and-bitwise 0 0
bit_and-zero zero (suc x) h = absurd (omega arith)
bit_and-zero (suc n) (suc x) h =
    omega (arith, bit_and_step (suc x) 0, bit_and-zero n (suc x / 2) (omega arith))

mod-pow-suc : (x k : ℕ) → x % 2 ^ suc k ≡ x / 2 % 2 ^ k * 2 + x % 2
mod-pow-suc x k =
    ap (λ (t : ℕ). t % 2 ^ suc k) split
    ∙ mul-add-mod_self_right (x / 2 / 2 ^ k) (2 ^ suc k) (x / 2 % 2 ^ k * 2 + x % 2)
    ∙ mod-eq_of_lt (
        omega (
          arith,
          pow-suc 2 k,
          one-le-pow k 2,
          mod-lt (x / 2) {m = 2 ^ k} (one-le-pow k 2 (omega arith)),
        ))
  where
    split : x ≡ x / 2 / 2 ^ k * 2 ^ suc k + (x / 2 % 2 ^ k * 2 + x % 2)
    split =
        omega (arith, div-add-mod' (x / 2) (2 ^ k), ap (λ (t : ℕ). x / 2 / 2 ^ k * t) (pow-suc 2 k))

-- A mask of `k` ones keeps the remainder by `2 ^ k`.
pub bit_and-mask : (k x : ℕ) → bit_and x (2 ^ k - 1) ≡ x % 2 ^ k
bit_and-mask zero x = omega (arith, bit_and-zero x x (omega arith))
bit_and-mask (suc k) x =
    let e : (2 ^ suc k - 1) / 2 ≡ 2 ^ k - 1 = omega (arith, pow-suc 2 k, one-le-pow k 2) in
    let m : (2 ^ suc k - 1) % 2 ≡ 1 = omega (arith, pow-suc 2 k, one-le-pow k 2) in
    bit_and_step x (2 ^ suc k - 1)
    ∙ ap (λ (t : ℕ). bit_and (x / 2) t * 2 + min (x % 2) ((2 ^ suc k - 1) % 2)) e
    ∙ omega (arith, bit_and-mask k (x / 2), m, mod-pow-suc x k)

shift : (a b : ℕ) → suc a + b ≡ suc (a + b)
shift a b = omega arith

pub pow-add : (a b : ℕ) → 2 ^ (a + b) ≡ 2 ^ a * 2 ^ b
pow-add zero b = ground arith
pow-add (suc a) b =
    ap (λ (t : ℕ). 2 ^ t) (shift a b)
    ∙ omega (
      arith,
      pow-suc 2 (a + b),
      pow-suc 2 a,
      ap (λ (t : ℕ). 2 * t) (pow-add a b),
      ap (λ (t : ℕ). t * 2 ^ b) (pow-suc 2 a),
    )

pub place-lt : (v r p q : ℕ) → v < q → r < p → v * p + r < q * p
place-lt v r p q h l = grind arith
