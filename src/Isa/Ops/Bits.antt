-- ===== src/Isa/Ops/Bits.antt =====
-- The operations on single bits, counting zeros, and the range of every result.
use Prim.Native.Nat.{bit_and, bit_or}
use native.Mathlib.Nat.{pow-le-pow_right, mod-eq_of_lt}
use tia_infrastructure.Prelude.{
  ℕ, ◌-◌, ◌^◌, ◌<◌, ◌≡◌, ap, ◌∙◌, not, to_ℕ, arith, Result, ok, err, if◌then◌else◌, ◌==◌,
}
use tia_infrastructure.Prelude.Int.{ℤ, pos, wrap32, is_zero, wrap32-lt, sub_ℕ}
use tia_infrastructure.Prelude.Bits.{
  bit, bit-eq-div-mod, bit-bit_or, bit-bit_and, bit-pow, bit-complement, bit-le, bit_or-lt,
  bit_and-lt, bit_and-one,
}
use tia_infrastructure.Isa.{Op}
use tia_infrastructure.Isa.Numpy.{Numpy, IsDocumented}
use tia_infrastructure.Isa.Ops.{
  op_implementation, highest_bit, lowest_bit, nop, mov, add, sub, sl, asr, lsr, eq, ne, sgt, ugt,
  slt, ult, sge, uge, sle, ule, band, bor, bxor, land, lor, lxor, gb, sb, cb, mb, clz, ctz, halt,
  lsw, ssw, lmul, shmul, uhmul, mac,
}

-- A result that is a word; a raise promises nothing.
abbrev pub IsWord : Result ℕ → Type 0
IsWord (ok w) = w < 2 ^ 32
IsWord (err e) = Unit

module _ {np : Numpy} (d : IsDocumented np) where
  uint32-lt : (x : ℤ) → np.uint32 x < 2 ^ 32
  uint32-lt x = omega (arith, d.uint32_wraps x, wrap32-lt x)

  -- Every operation of the map gives a word of 32 bits.
  pub op_implementation-IsWord : (op : Op) (a b c : ℤ) → IsWord (op_implementation np op a b c)
  unfolding op_implementation nop mov add sub sl asr lsr eq ne sgt ugt slt ult sge uge sle ule band
      bor bxor land lor lxor gb sb cb mb clz ctz halt lsw ssw lmul shmul uhmul mac
  op_implementation-IsWord Op.clz a b c =
      ground
        (arith, uint32-lt (pos (highest_bit np a 32)), uint32-lt (sub_ℕ 31 (highest_bit np a 32)))
  op_implementation-IsWord Op.ctz a b c = ground (arith, uint32-lt (pos (lowest_bit np a 32 0)))
  op_implementation-IsWord Op.sb a b c = ground (
    arith,
    uint32-lt (
        pos (
          np.and_uint32 (np.uint32 a)
            (np.invert_uint32 (np.uint32 (np.shl_int (pos 1) (np.uint32 b)))))),
    uint32-lt (pos (np.or_uint32 (np.uint32 a) (np.uint32 (np.shl_int (pos 1) (np.uint32 b))))),
  )
  op_implementation-IsWord _ a b c = omega (arith, uint32-lt)

  pow-word : (k : ℕ) → k < 32 → 2 ^ k < 2 ^ 32
  pow-word k h =
      omega (arith, pow-le-pow_right {n = 2} (omega arith) {i = k} {j = 31} (omega arith))

  -- `1 << b` for a bit index in range.
  mask_lem : (b : ℤ) → wrap32 b < 32 → np.uint32 (np.shl_int (pos 1) (np.uint32 b)) ≡ 2 ^ wrap32 b
  mask_lem b h =
      ap (λ k. np.uint32 (np.shl_int (pos 1) k)) (d.uint32_wraps b)
      ∙ ap np.uint32 (d.shl_int_one (wrap32 b) h)
      ∙ d.uint32_wraps _
      ∙ mod-eq_of_lt (pow-word (wrap32 b) h)

  -- `gb` gives the bit at an index in range.
  pub gb_lem : (a b c : ℤ) → wrap32 b < 32 → gb np a b c ≡ bit (wrap32 a) (wrap32 b)
  unfolding gb
  gb_lem a b c h =
      simp
        (
          d.uint32_wraps,
          d.and_uint32_bits,
          bit_and-one,
          d.shr_uint32_divides (wrap32 a) (wrap32 b) h,
          bit-eq-div-mod,
        )
        (omega arith)

  or_lem :
      (a b : ℤ)
      → wrap32 b < 32
      → np.uint32 (pos (np.or_uint32 (np.uint32 a) (np.uint32 (np.shl_int (pos 1) (np.uint32 b)))))
        ≡ bit_or (wrap32 a) (2 ^ wrap32 b)
  or_lem a b h =
      rw (mask_lem b h, d.uint32_wraps a, d.or_uint32_bits, d.uint32_wraps)
        (mod-eq_of_lt (bit_or-lt 32 _ _ (wrap32-lt a) (pow-word (wrap32 b) h)))

  and_lem :
      (a b : ℤ)
      → wrap32 b < 32
      → np.uint32 (
          pos (
            np.and_uint32
              (np.uint32 a)
              (np.invert_uint32 (np.uint32 (np.shl_int (pos 1) (np.uint32 b))))))
        ≡ bit_and (wrap32 a) (2 ^ 32 - 1 - 2 ^ wrap32 b)
  and_lem a b h =
      rw
        (
          mask_lem b h,
          d.uint32_wraps a,
          d.invert_uint32_bits _ (pow-word (wrap32 b) h),
          d.and_uint32_bits,
          d.uint32_wraps,
        )
        (mod-eq_of_lt (bit_and-lt 32 _ _ (wrap32-lt a)))

  -- For a bit index in range, `mb` sets that bit, `cb` clears it, `sb` does one or the other by its
  -- third operand, and no other bit changes.
  pub set_bit_lem :
      (a b c : ℤ) (j : ℕ)
      → wrap32 b < 32
      → j < 32
      → (bit (mb np a b c) j ≡ (if wrap32 b == j then 1 else bit (wrap32 a) j))
        × (bit (cb np a b c) j ≡ (if wrap32 b == j then 0 else bit (wrap32 a) j))
        × (bit (sb np a b c) j
            ≡ (if wrap32 b == j then to_ℕ (not (is_zero c)) else bit (wrap32 a) j))
  unfolding mb cb sb
  set_bit_lem a b c j h l = ground (
    arith,
    or_lem a b h,
    and_lem a b h,
    bit-bit_or (wrap32 a) (2 ^ wrap32 b) j,
    bit-bit_and (wrap32 a) (2 ^ 32 - 1 - 2 ^ wrap32 b) j,
    bit-complement 32 (2 ^ wrap32 b) j (pow-word (wrap32 b) h) l,
    bit-pow (wrap32 b) j,
    bit-le (wrap32 a) j,
  )
