-- ===== src/Isa/Ops.antt =====
-- tools/assembly/instruction.py: the functions behind the operations, the reference of the
-- simulator. Operands are Python integers or words; an operation gives a word.
pub mod Arithmetic
pub mod Compare
pub mod Bits
pub mod Zeros
use tia_infrastructure.Prelude.{
  ℕ, zero, suc, ◌-◌, ◌^◌, Bool, true, false, not, ◌&&◌, ◌||◌, ◌==◌, ltb, leb, if◌then◌else◌, to_ℕ,
  Result, ok, err, key_error, type_error, ◌>>=◌,
}
use tia_infrastructure.Prelude.Int.{ℤ, pos, ltb_ℤ, is_zero, wrap32, shr32, sub_ℕ}
use tia_infrastructure.Isa.{Op}
use tia_infrastructure.Isa.Numpy.{Numpy}

-- `bool(x)`
abbrev truth : ℤ → Bool
truth x = not (is_zero x)

module _ (np : Numpy) where
  open np use {
    uint32, int32, add_int32, sub_int32, shl_uint32, shr_uint32, shr_int32, shl_int, and_uint32,
    or_uint32, xor_uint32, invert_uint32, mul_uint64, mul_int64, add_int64, and_int64,
  }

  -- `np.uint32(flag)`
  abbrev word_of : Bool → ℕ
  word_of flag = uint32 (pos (to_ℕ flag))

  -- `np.uint32(1 << np.uint32(b))`
  abbrev bit_mask : ℤ → ℕ
  bit_mask b = uint32 (shl_int (pos 1) (uint32 b))

  unfoldable pub nop : ℤ → ℤ → ℤ → ℕ
  nop a b c = uint32 (pos 0)

  unfoldable pub mov : ℤ → ℤ → ℤ → ℕ
  mov a b c = uint32 a

  unfoldable pub add : ℤ → ℤ → ℤ → ℕ
  add a b c = uint32 (add_int32 (int32 a) (int32 b))

  unfoldable pub sub : ℤ → ℤ → ℤ → ℕ
  sub a b c = uint32 (sub_int32 (int32 a) (int32 b))

  unfoldable pub sl : ℤ → ℤ → ℤ → ℕ
  sl a b c = uint32 (pos (shl_uint32 (uint32 a) (uint32 b)))

  unfoldable pub asr : ℤ → ℤ → ℤ → ℕ
  asr a b c = uint32 (shr_int32 (int32 a) (uint32 b))

  unfoldable pub lsr : ℤ → ℤ → ℤ → ℕ
  lsr a b c = uint32 (pos (shr_uint32 (uint32 a) (uint32 b)))

  unfoldable pub eq : ℤ → ℤ → ℤ → ℕ
  eq a b c = word_of (uint32 a == uint32 b)

  unfoldable pub ne : ℤ → ℤ → ℤ → ℕ
  ne a b c = word_of (not (uint32 a == uint32 b))

  unfoldable pub sgt : ℤ → ℤ → ℤ → ℕ
  sgt a b c = word_of (ltb_ℤ (int32 b) (int32 a))

  unfoldable pub ugt : ℤ → ℤ → ℤ → ℕ
  ugt a b c = word_of (ltb (uint32 b) (uint32 a))

  unfoldable pub slt : ℤ → ℤ → ℤ → ℕ
  slt a b c = word_of (ltb_ℤ (int32 a) (int32 b))

  unfoldable pub ult : ℤ → ℤ → ℤ → ℕ
  ult a b c = word_of (ltb (uint32 a) (uint32 b))

  unfoldable pub sge : ℤ → ℤ → ℤ → ℕ
  sge a b c = word_of (not (ltb_ℤ (int32 a) (int32 b)))

  unfoldable pub uge : ℤ → ℤ → ℤ → ℕ
  uge a b c = word_of (leb (uint32 b) (uint32 a))

  unfoldable pub sle : ℤ → ℤ → ℤ → ℕ
  sle a b c = word_of (not (ltb_ℤ (int32 b) (int32 a)))

  unfoldable pub ule : ℤ → ℤ → ℤ → ℕ
  ule a b c = word_of (leb (uint32 a) (uint32 b))

  unfoldable pub band : ℤ → ℤ → ℤ → ℕ
  band a b c = uint32 (pos (and_uint32 (uint32 a) (uint32 b)))

  unfoldable pub bor : ℤ → ℤ → ℤ → ℕ
  bor a b c = uint32 (pos (or_uint32 (uint32 a) (uint32 b)))

  unfoldable pub bxor : ℤ → ℤ → ℤ → ℕ
  bxor a b c = uint32 (pos (xor_uint32 (uint32 a) (uint32 b)))

  unfoldable pub land : ℤ → ℤ → ℤ → ℕ
  land a b c = word_of (truth a && truth b)

  unfoldable pub lor : ℤ → ℤ → ℤ → ℕ
  lor a b c = word_of (truth a || truth b)

  abbrev xor : Bool → Bool → Bool
  xor true b = not b
  xor false b = b

  unfoldable pub lxor : ℤ → ℤ → ℤ → ℕ
  lxor a b c = word_of (xor (truth a) (truth b))

  -- These six call a three-argument function with two arguments, so a call of one raises.
  unfoldable pub bnand : ℤ → ℤ → ℤ → Result ℕ
  bnand a b c = err type_error

  unfoldable pub bnor : ℤ → ℤ → ℤ → Result ℕ
  bnor a b c = err type_error

  unfoldable pub bxnor : ℤ → ℤ → ℤ → Result ℕ
  bxnor a b c = err type_error

  unfoldable pub lnand : ℤ → ℤ → ℤ → Result ℕ
  lnand a b c = err type_error

  unfoldable pub lnor : ℤ → ℤ → ℤ → Result ℕ
  lnor a b c = err type_error

  unfoldable pub lxnor : ℤ → ℤ → ℤ → Result ℕ
  lxnor a b c = err type_error

  unfoldable pub gb : ℤ → ℤ → ℤ → ℕ
  gb a b c = uint32 (pos (and_uint32 (shr_uint32 (uint32 a) (uint32 b)) (uint32 (pos 1))))

  unfoldable pub sb : ℤ → ℤ → ℤ → ℕ
  sb a b c =
      if is_zero c
      then uint32 (pos (and_uint32 (uint32 a) (invert_uint32 (bit_mask b))))
      else uint32 (pos (or_uint32 (uint32 a) (bit_mask b)))

  unfoldable pub cb : ℤ → ℤ → ℤ → ℕ
  cb a b c = uint32 (pos (and_uint32 (uint32 a) (invert_uint32 (bit_mask b))))

  unfoldable pub mb : ℤ → ℤ → ℤ → ℕ
  mb a b c = uint32 (pos (or_uint32 (uint32 a) (bit_mask b)))

  -- `(np.uint32(a) >> i) & 0x1 == 1`
  abbrev pub bit_at : ℤ → ℕ → Bool
  bit_at a i = and_uint32 (shr_uint32 (uint32 a) i) 1 == 1

  -- The index at which `for i in reversed(range(n))` breaks; 32 if it does not.
  unfoldable pub highest_bit : ℤ → ℕ → ℕ
  highest_bit a zero = 32
  highest_bit a (suc i) = let rest = highest_bit a i in if bit_at a i then i else rest

  unfoldable pub clz : ℤ → ℤ → ℤ → ℕ
  clz a b c = let i = highest_bit a 32 in if truth b then uint32 (pos i) else uint32 (sub_ℕ 31 i)

  -- The index at which `for i in range(i, i + n)` breaks; 32 if it does not.
  unfoldable pub lowest_bit : ℤ → ℕ → ℕ → ℕ
  lowest_bit a zero i = 32
  lowest_bit a (suc n) i = let rest = lowest_bit a n (suc i) in if bit_at a i then i else rest

  unfoldable pub ctz : ℤ → ℤ → ℤ → ℕ
  ctz a b c = let i = lowest_bit a 32 0 in if truth b then uint32 (pos i) else uint32 (pos i)

  unfoldable pub halt : ℤ → ℤ → ℤ → ℕ
  halt a b c = 0

  unfoldable pub lsw : ℤ → ℤ → ℤ → ℕ
  lsw a b c = 0

  unfoldable pub ssw : ℤ → ℤ → ℤ → ℕ
  ssw a b c = 0

  unfoldable pub lmul : ℤ → ℤ → ℤ → ℕ
  lmul a b c = uint32 (pos (mul_uint64 (uint32 a) (uint32 b)))

  unfoldable pub shmul : ℤ → ℤ → ℤ → ℕ
  shmul a b c = uint32 (pos (wrap32 (shr32 (mul_int64 (int32 a) (int32 b)))))

  unfoldable pub uhmul : ℤ → ℤ → ℤ → ℕ
  uhmul a b c = uint32 (pos (wrap32 (shr32 (pos (mul_uint64 (uint32 a) (uint32 b))))))

  unfoldable pub mac : ℤ → ℤ → ℤ → ℕ
  mac a b c =
      uint32 (and_int64 (add_int64 (int32 a) (mul_int64 (int32 b) (int32 c))) (pos 0xffffffff))

  -- `op_implementation_map[op](a, b, c)`; an operation that the map lacks raises `KeyError`.
  unfoldable pub op_implementation : Op → ℤ → ℤ → ℤ → Result ℕ
  op_implementation Op.nop a b c = ok (nop a b c)
  op_implementation Op.mov a b c = ok (mov a b c)
  op_implementation Op.add a b c = ok (add a b c)
  op_implementation Op.sub a b c = ok (sub a b c)
  op_implementation Op.sl a b c = ok (sl a b c)
  op_implementation Op.asr a b c = ok (asr a b c)
  op_implementation Op.lsr a b c = ok (lsr a b c)
  op_implementation Op.eq a b c = ok (eq a b c)
  op_implementation Op.ne a b c = ok (ne a b c)
  op_implementation Op.sgt a b c = ok (sgt a b c)
  op_implementation Op.ugt a b c = ok (ugt a b c)
  op_implementation Op.slt a b c = ok (slt a b c)
  op_implementation Op.ult a b c = ok (ult a b c)
  op_implementation Op.sge a b c = ok (sge a b c)
  op_implementation Op.uge a b c = ok (uge a b c)
  op_implementation Op.sle a b c = ok (sle a b c)
  op_implementation Op.ule a b c = ok (ule a b c)
  op_implementation Op.band a b c = ok (band a b c)
  op_implementation Op.bor a b c = ok (bor a b c)
  op_implementation Op.bxor a b c = ok (bxor a b c)
  op_implementation Op.land a b c = ok (land a b c)
  op_implementation Op.lor a b c = ok (lor a b c)
  op_implementation Op.lxor a b c = ok (lxor a b c)
  op_implementation Op.gb a b c = ok (gb a b c)
  op_implementation Op.sb a b c = ok (sb a b c)
  op_implementation Op.cb a b c = ok (cb a b c)
  op_implementation Op.mb a b c = ok (mb a b c)
  op_implementation Op.clz a b c = ok (clz a b c)
  op_implementation Op.ctz a b c = ok (ctz a b c)
  op_implementation Op.halt a b c = ok (halt a b c)
  op_implementation Op.lsw a b c = ok (lsw a b c)
  op_implementation Op.ssw a b c = ok (ssw a b c)
  op_implementation Op.lmul a b c = ok (lmul a b c)
  op_implementation Op.shmul a b c = ok (shmul a b c)
  op_implementation Op.uhmul a b c = ok (uhmul a b c)
  op_implementation Op.mac a b c = ok (mac a b c)
  op_implementation _ a b c = err key_error
