-- ===== src/Isa/Numpy.antt =====
-- What the operations use of numpy, a package outside the repository: conversions to sized integers
-- and the arithmetic of those. `IsDocumented` states the documented behaviour (the C conversions of
-- the releases before 2.0, which wrap around), and `wrapping` shows that it can be met.
use Prim.Native.Nat.{bit_and, bit_or, bit_xor}
use tia_infrastructure.Prelude.{ℕ, ◌*◌, ◌/◌, ◌%◌, ◌^◌, ◌-◌, ◌<◌, ◌≡◌, refl, arith}
use tia_infrastructure.Prelude.Int.{ℤ, pos, negsuc, ◌+ℤ◌, ◌-ℤ◌, ◌*ℤ◌, wrap32, signed32}

-- An unsigned word is the natural that it stands for, a signed one the integer.
pub record Numpy : Type 0 where
  pub uint32 : ℤ → ℕ
  pub int32 : ℤ → ℤ
  -- sums and differences of two `np.int32`
  pub add_int32 : ℤ → ℤ → ℤ
  pub sub_int32 : ℤ → ℤ → ℤ
  -- shifts of an `np.uint32` and of an `np.int32`, and of a Python integer by an `np.uint32`
  pub shl_uint32 : ℕ → ℕ → ℕ
  pub shr_uint32 : ℕ → ℕ → ℕ
  pub shr_int32 : ℤ → ℕ → ℤ
  pub shl_int : ℤ → ℕ → ℤ
  -- bitwise operations on `np.uint32`
  pub and_uint32 : ℕ → ℕ → ℕ
  pub or_uint32 : ℕ → ℕ → ℕ
  pub xor_uint32 : ℕ → ℕ → ℕ
  pub invert_uint32 : ℕ → ℕ
  -- 64-bit arithmetic
  pub mul_uint64 : ℕ → ℕ → ℕ
  pub mul_int64 : ℤ → ℤ → ℤ
  pub add_int64 : ℤ → ℤ → ℤ
  pub and_int64 : ℤ → ℤ → ℤ

-- `floor(x / 2 ^ k)`
abbrev pub shr_ℤ : ℤ → ℕ → ℤ
shr_ℤ (pos n) k = pos (n / 2 ^ k)
shr_ℤ (negsuc n) k = negsuc (n / 2 ^ k)

pub record IsDocumented (np : Numpy) : Type 0 where
  pub uint32_wraps : (x : ℤ) → np.uint32 x ≡ wrap32 x
  pub int32_wraps : (x : ℤ) → np.int32 x ≡ signed32 (wrap32 x)
  pub add_int32_wraps : (x y : ℤ) → np.add_int32 x y ≡ signed32 (wrap32 (x +ℤ y))
  pub sub_int32_wraps : (x y : ℤ) → np.sub_int32 x y ≡ signed32 (wrap32 (x -ℤ y))
  pub shl_uint32_wraps : (x k : ℕ) → k < 32 → np.shl_uint32 x k ≡ x * 2 ^ k % 2 ^ 32
  pub shr_uint32_divides : (x k : ℕ) → k < 32 → np.shr_uint32 x k ≡ x / 2 ^ k
  pub shr_int32_floors : (x : ℤ) (k : ℕ) → k < 32 → np.shr_int32 x k ≡ shr_ℤ x k
  pub shl_int_one : (k : ℕ) → k < 32 → np.shl_int (pos 1) k ≡ pos (2 ^ k)
  pub and_uint32_bits : (x y : ℕ) → np.and_uint32 x y ≡ bit_and x y
  pub or_uint32_bits : (x y : ℕ) → np.or_uint32 x y ≡ bit_or x y
  pub xor_uint32_bits : (x y : ℕ) → np.xor_uint32 x y ≡ bit_xor x y
  pub invert_uint32_bits : (x : ℕ) → x < 2 ^ 32 → np.invert_uint32 x ≡ 2 ^ 32 - 1 - x
  pub mul_uint64_exact : (x y : ℕ) → x < 2 ^ 32 → y < 2 ^ 32 → np.mul_uint64 x y ≡ x * y
  pub mul_int64_exact :
      (x y : ℕ)
      → x < 2 ^ 32
      → y < 2 ^ 32
      → np.mul_int64 (signed32 x) (signed32 y) ≡ signed32 x *ℤ signed32 y
  -- a sum of an `np.int32` and a product of two
  pub add_int64_exact :
      (x y z : ℕ)
      → x < 2 ^ 32
      → y < 2 ^ 32
      → z < 2 ^ 32
      → np.add_int64 (signed32 x) (signed32 y *ℤ signed32 z)
        ≡ signed32 x +ℤ signed32 y *ℤ signed32 z
  pub and_int64_low : (x : ℤ) → np.and_int64 x (pos 0xffffffff) ≡ pos (wrap32 x)

abbrev pub wrapping : Numpy
wrapping = record {
  uint32 = wrap32;
  int32 = λ x. signed32 (wrap32 x);
  add_int32 = λ x y. signed32 (wrap32 (x +ℤ y));
  sub_int32 = λ x y. signed32 (wrap32 (x -ℤ y));
  shl_uint32 = λ x k. x * 2 ^ k % 2 ^ 32;
  shr_uint32 = λ x k. x / 2 ^ k;
  shr_int32 = shr_ℤ;
  shl_int = λ x k. x *ℤ pos (2 ^ k);
  and_uint32 = bit_and;
  or_uint32 = bit_or;
  xor_uint32 = bit_xor;
  invert_uint32 = λ x. 2 ^ 32 - 1 - x;
  mul_uint64 = λ x y. x * y;
  mul_int64 = ◌*ℤ◌;
  add_int64 = ◌+ℤ◌;
  and_int64 = λ x m. pos (wrap32 x);
}

one_mul : (k : ℕ) → (pos 1 *ℤ pos (2 ^ k)) ≡ pos (2 ^ k)
unfolding ◌*ℤ◌
one_mul k = ground arith

pub wrapping-IsDocumented : IsDocumented wrapping
wrapping-IsDocumented = record {
  uint32_wraps = λ x. refl;
  int32_wraps = λ x. refl;
  add_int32_wraps = λ x y. refl;
  sub_int32_wraps = λ x y. refl;
  shl_uint32_wraps = λ x k h. refl;
  shr_uint32_divides = λ x k h. refl;
  shr_int32_floors = λ x k h. refl;
  shl_int_one = λ k h. one_mul k;
  and_uint32_bits = λ x y. refl;
  or_uint32_bits = λ x y. refl;
  xor_uint32_bits = λ x y. refl;
  invert_uint32_bits = λ x h. refl;
  mul_uint64_exact = λ x y h k. refl;
  mul_int64_exact = λ x y h k. refl;
  add_int64_exact = λ x y z h k l. refl;
  and_int64_low = λ x. refl;
}
