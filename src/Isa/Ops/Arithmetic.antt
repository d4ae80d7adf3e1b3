-- ===== src/Isa/Ops/Arithmetic.antt =====
-- The arithmetic operations against arithmetic modulo 2 ^ 32.
use tia_infrastructure.Prelude.{ℕ, suc, ◌+◌, ◌-◌, ◌*◌, ◌%◌, ◌^◌, ◌<◌, ◌≤◌, ◌≡◌, ap, sym, ◌∙◌, arith}
use tia_infrastructure.Prelude.Int.{
  ℤ, pos, negsuc, pos_part, neg_part, ◌+ℤ◌, ◌*ℤ◌, wrap32, signed32, shr32, wrap32-lt,
  wrap32-signed32, wrap32-+ℤ, wrap32--ℤ,
}
use mathlib.Core.Path.{ap₂}
use native.Mathlib.Nat.{mod-eq_of_lt}
use tia_infrastructure.Isa.Numpy.{Numpy, IsDocumented}
use tia_infrastructure.Isa.Ops.{add, sub, lmul, uhmul, shmul, mac}

mul-lt : (x y : ℕ) → x < 2 ^ 32 → y < 2 ^ 32 → x * y < 2 ^ 64
mul-lt x y h k = grind arith

-- A negative pattern is `2 ^ 32 - x` below zero.
abbrev opposite : ℕ → ℕ
opposite x = suc (2 ^ 32 - x - 1)

mul-opposite : (x y : ℕ) → x < 2 ^ 32 → opposite x * y + x * y ≡ 2 ^ 32 * y
mul-opposite x y h =
    let e : opposite x + x ≡ 2 ^ 32 = omega arith in omega (arith, ap (λ (t : ℕ). t * y) e)

-- Signed and unsigned products agree modulo 2 ^ 32.
wrap32-signed-mul :
    (x y : ℕ) → x < 2 ^ 32 → y < 2 ^ 32 → wrap32 (signed32 x *ℤ signed32 y) ≡ x * y % 2 ^ 32
unfolding ◌*ℤ◌
wrap32-signed-mul x y h k =
    ground (arith, mul-opposite x y h, mul-opposite y x k, mul-opposite x (opposite y) h)

-- An integer of 64 bits is made up of its high word, read as signed, and of its low word.
abbrev InInt64 : ℤ → Type 0
InInt64 z = (pos_part z < 2 ^ 63) × (neg_part z ≤ 2 ^ 63)

high_low : (z : ℤ) → InInt64 z → signed32 (wrap32 (shr32 z)) *ℤ pos (2 ^ 32) +ℤ pos (wrap32 z) ≡ z
unfolding ◌*ℤ◌ ◌+ℤ◌
high_low (pos n) h = ground arith
high_low (negsuc n) h = ground arith

mul-le : (x y : ℕ) → x ≤ 2 ^ 31 → y ≤ 2 ^ 31 → x * y ≤ 2 ^ 62
mul-le x y h k = grind arith

signed-mul-InInt64 : (x y : ℕ) → x < 2 ^ 32 → y < 2 ^ 32 → InInt64 (signed32 x *ℤ signed32 y)
unfolding ◌*ℤ◌
signed-mul-InInt64 x y h k = ground (
  arith,
  mul-le x y,
  mul-le (opposite x) y,
  mul-le x (opposite y),
  mul-le (opposite x) (opposite y),
)

module _ {np : Numpy} (d : IsDocumented np) where
  -- A word that is read as signed and written back is the same word.
  uint32-signed32 : (x : ℤ) → np.uint32 (signed32 (wrap32 x)) ≡ wrap32 x
  uint32-signed32 x = d.uint32_wraps _ ∙ wrap32-signed32 (wrap32 x) (wrap32-lt x)

  int32_pair : (x : ℤ) → wrap32 (np.int32 x) ≡ wrap32 x
  int32_pair x = ap wrap32 (d.int32_wraps x) ∙ wrap32-signed32 (wrap32 x) (wrap32-lt x)

  -- Signed and unsigned operands have the same sum and the same difference modulo 2 ^ 32.
  pub add_sub_lem :
      (a b c : ℤ)
      → (add np a b c ≡ (wrap32 a + wrap32 b) % 2 ^ 32)
        × (sub np a b c ≡ (wrap32 a + (2 ^ 32 - wrap32 b)) % 2 ^ 32)
  unfolding add sub
  add_sub_lem a b c = (
    ap np.uint32 (d.add_int32_wraps _ _)
        ∙ uint32-signed32 _
        ∙ wrap32-+ℤ _ _
        ∙ ap₂ (λ x y. (x + y) % 2 ^ 32) (int32_pair a) (int32_pair b),
    ap np.uint32 (d.sub_int32_wraps _ _)
        ∙ uint32-signed32 _
        ∙ wrap32--ℤ _ _
        ∙ ap₂ (λ x y. (x + (2 ^ 32 - y)) % 2 ^ 32) (int32_pair a) (int32_pair b),
  )

  -- Subtracting what was added gives the word back, and the other way round.
  pub sub-add :
      (a b c : ℤ)
      → (sub np (pos (add np a b c)) b c ≡ wrap32 a) × (add np (pos (sub np a b c)) b c ≡ wrap32 a)
  sub-add a b c = omega (
    arith,
    add_sub_lem a b c,
    add_sub_lem (pos (add np a b c)) b c,
    add_sub_lem (pos (sub np a b c)) b c,
    wrap32-lt a,
    wrap32-lt b,
  )

  mul_uint64_lem : (a b : ℤ) → np.mul_uint64 (np.uint32 a) (np.uint32 b) ≡ wrap32 a * wrap32 b
  mul_uint64_lem a b =
      ap₂ np.mul_uint64 (d.uint32_wraps a) (d.uint32_wraps b)
      ∙ d.mul_uint64_exact (wrap32 a) (wrap32 b) (wrap32-lt a) (wrap32-lt b)

  mul_int64_lem :
      (a b : ℤ)
      → np.mul_int64 (np.int32 a) (np.int32 b) ≡ signed32 (wrap32 a) *ℤ signed32 (wrap32 b)
  mul_int64_lem a b =
      ap₂ np.mul_int64 (d.int32_wraps a) (d.int32_wraps b)
      ∙ d.mul_int64_exact (wrap32 a) (wrap32 b) (wrap32-lt a) (wrap32-lt b)

  lmul_lem : (a b c : ℤ) → lmul np a b c ≡ wrap32 a * wrap32 b % 2 ^ 32
  unfolding lmul
  lmul_lem a b c = d.uint32_wraps _ ∙ ap (λ x. x % 2 ^ 32) (mul_uint64_lem a b)

  -- The high and the low word of the unsigned product make up the whole product.
  pub uhmul-lmul : (a b c : ℤ) → uhmul np a b c * 2 ^ 32 + lmul np a b c ≡ wrap32 a * wrap32 b
  unfolding uhmul
  uhmul-lmul a b c = omega (
    arith,
    d.uint32_wraps,
    mul_uint64_lem a b,
    lmul_lem a b c,
    mul-lt (wrap32 a) (wrap32 b) (wrap32-lt a) (wrap32-lt b),
  )

  -- The high word of the signed product, read as signed, and the low word of the unsigned product
  -- make up the whole signed product.
  pub shmul-lmul :
      (a b c : ℤ)
      → signed32 (shmul np a b c) *ℤ pos (2 ^ 32) +ℤ pos (lmul np a b c)
        ≡ signed32 (wrap32 a) *ℤ signed32 (wrap32 b)
  unfolding shmul
  shmul-lmul a b c =
      let z : ℤ = signed32 (wrap32 a) *ℤ signed32 (wrap32 b) in
      let high : shmul np a b c ≡ wrap32 (shr32 z) =
        d.uint32_wraps _
        ∙ mod-eq_of_lt (wrap32-lt _)
        ∙ ap (λ y. wrap32 (shr32 y)) (mul_int64_lem a b) in
      let low : lmul np a b c ≡ wrap32 z =
        lmul_lem a b c
        ∙ sym (wrap32-signed-mul (wrap32 a) (wrap32 b) (wrap32-lt a) (wrap32-lt b)) in
      ap₂ (λ x y. signed32 x *ℤ pos (2 ^ 32) +ℤ pos y) high low
      ∙ high_low z (signed-mul-InInt64 (wrap32 a) (wrap32 b) (wrap32-lt a) (wrap32-lt b))

  -- Multiply-accumulate is `a + b * c` modulo 2 ^ 32, for signed and unsigned operands alike.
  pub mac_lem : (a b c : ℤ) → mac np a b c ≡ (wrap32 a + wrap32 b * wrap32 c) % 2 ^ 32
  unfolding mac
  mac_lem a b c =
      ap (λ y. np.uint32 (np.and_int64 y (pos 0xffffffff)))
        (ap₂ np.add_int64 (d.int32_wraps a) (mul_int64_lem b c)
          ∙ d.add_int64_exact (wrap32 a) (wrap32 b) (wrap32 c) (wrap32-lt a) (wrap32-lt b)
              (wrap32-lt c))
      ∙ ap np.uint32 (d.and_int64_low _)
      ∙ d.uint32_wraps _
      ∙ mod-eq_of_lt (wrap32-lt _)
      ∙ wrap32-+ℤ _ _
      ∙ omega (
        arith,
        wrap32-signed32 (wrap32 a) (wrap32-lt a),
        wrap32-signed-mul (wrap32 b) (wrap32 c) (wrap32-lt b) (wrap32-lt c),
      )
