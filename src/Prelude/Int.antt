-- ===== src/Prelude/Int.antt =====
-- Signed integers over the native numbers, and their reading as 32-bit patterns.
use Prim.Native.Nat.{ℕ, suc, ◌+◌, ◌-◌, ◌*◌, ◌/◌, ◌%◌, ◌^◌, ◌<◌}
use mathlib.Core.Path.{◌≡◌}
use mathlib.Core.Bool.{Bool}
use native.Mathlib.Omega.{arith}
use tia_infrastructure.Prelude.Tests.{ltb, leb, if◌then◌else◌}

-- `negsuc n` is -(n + 1).
pub data ℤ : Type 0 where
  pos : ℕ → ℤ
  negsuc : ℕ → ℤ

abbrev pub pos_part : ℤ → ℕ
pos_part (pos n) = n
pos_part (negsuc n) = 0

abbrev pub neg_part : ℤ → ℕ
neg_part (pos n) = 0
neg_part (negsuc n) = suc n

-- a - b, as an integer.
abbrev pub sub_ℕ : ℕ → ℕ → ℤ
sub_ℕ a b = if leb b a then pos (a - b) else negsuc (b - a - 1)

infixl 65 ◌+ℤ◌ ◌-ℤ◌
infixl 70 ◌*ℤ◌
unfoldable pub ◌+ℤ◌ : ℤ → ℤ → ℤ
a +ℤ b = sub_ℕ (pos_part a + pos_part b) (neg_part a + neg_part b)

unfoldable pub ◌-ℤ◌ : ℤ → ℤ → ℤ
a -ℤ b = sub_ℕ (pos_part a + neg_part b) (neg_part a + pos_part b)

unfoldable pub ◌*ℤ◌ : ℤ → ℤ → ℤ
a *ℤ b =
    sub_ℕ (pos_part a * pos_part b + neg_part a * neg_part b)
      (pos_part a * neg_part b + neg_part a * pos_part b)

abbrev pub ltb_ℤ : ℤ → ℤ → Bool
ltb_ℤ a b = ltb (pos_part a + neg_part b) (pos_part b + neg_part a)

-- Python's truth value of an integer is `x ≠ 0`.
abbrev pub is_zero : ℤ → Bool
is_zero a = leb (pos_part a + neg_part a) 0

-- The residue modulo 2 ^ 32.
abbrev pub wrap32 : ℤ → ℕ
wrap32 (pos n) = n % 2 ^ 32
wrap32 (negsuc n) = 2 ^ 32 - 1 - n % 2 ^ 32

-- The number that a 32-bit pattern stands for in two's complement.
abbrev pub signed32 : ℕ → ℤ
signed32 w = if ltb w (2 ^ 31) then pos w else negsuc (2 ^ 32 - w - 1)

-- `x >> 32` on Python's integers, which rounds down.
abbrev pub shr32 : ℤ → ℤ
shr32 (pos n) = pos (n / 2 ^ 32)
shr32 (negsuc n) = negsuc (n / 2 ^ 32)

pub wrap32-lt : (x : ℤ) → wrap32 x < 2 ^ 32
wrap32-lt (pos n) = omega arith
wrap32-lt (negsuc n) = omega arith

pub wrap32-signed32 : (w : ℕ) → w < 2 ^ 32 → wrap32 (signed32 w) ≡ w
wrap32-signed32 w h = ground arith

pub wrap32-sub_ℕ : (p n : ℕ) → wrap32 (sub_ℕ p n) ≡ (p + (2 ^ 32 - n % 2 ^ 32)) % 2 ^ 32
wrap32-sub_ℕ p n = ground arith

pub wrap32_parts : (x : ℤ) → wrap32 x ≡ (pos_part x + (2 ^ 32 - neg_part x % 2 ^ 32)) % 2 ^ 32
wrap32_parts (pos n) = omega arith
wrap32_parts (negsuc n) = omega arith

pub wrap32-+ℤ : (x y : ℤ) → wrap32 (x +ℤ y) ≡ (wrap32 x + wrap32 y) % 2 ^ 32
unfolding ◌+ℤ◌
wrap32-+ℤ x y = omega (
  arith,
  wrap32-sub_ℕ (pos_part x + pos_part y) (neg_part x + neg_part y),
  wrap32_parts x,
  wrap32_parts y,
)

pub wrap32--ℤ : (x y : ℤ) → wrap32 (x -ℤ y) ≡ (wrap32 x + (2 ^ 32 - wrap32 y)) % 2 ^ 32
unfolding ◌-ℤ◌
wrap32--ℤ x y = omega (
  arith,
  wrap32-sub_ℕ (pos_part x + neg_part y) (neg_part x + pos_part y),
  wrap32_parts x,
  wrap32_parts y,
)
