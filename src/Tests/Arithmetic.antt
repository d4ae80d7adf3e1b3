-- ===== src/Tests/Arithmetic.antt =====
-- The operations at concrete words, with the wrapping arithmetic.
use tia_infrastructure.Prelude.{
  ℕ, ◌+◌, ◌-◌, ◌^◌, ◌<◌, ◌≤◌, ◌≡◌, refl, not, to_ℕ, ◌==◌, if◌then◌else◌, arith,
}
use tia_infrastructure.Prelude.Int.{ℤ, pos, negsuc, ◌+ℤ◌, ◌*ℤ◌, wrap32, signed32, is_zero}
use tia_infrastructure.Prelude.Bits.{bit}
use tia_infrastructure.Isa.{Op}
use tia_infrastructure.Isa.Numpy.{wrapping, wrapping-IsDocumented}
use tia_infrastructure.Isa.Ops.{
  lmul, shmul, eq, sgt, slt, ult, sge, sle, mb, cb, sb, clz, op_implementation,
}
use tia_infrastructure.Isa.Ops.Arithmetic.{shmul-lmul}
use tia_infrastructure.Isa.Ops.Compare.{signed_tests}
use tia_infrastructure.Isa.Ops.Bits.{IsWord, op_implementation-IsWord, set_bit_lem}
use tia_infrastructure.Isa.Ops.Zeros.{clz_lem}

-- -7 and 9
abbrev minus_seven : ℤ
minus_seven = negsuc 6

abbrev nine : ℤ
nine = pos 9

abbrev none_given : ℤ
none_given = pos 0

shmul-lmul_example :
    signed32 (shmul wrapping minus_seven nine none_given) *ℤ pos (2 ^ 32)
      +ℤ pos (lmul wrapping minus_seven nine none_given)
    ≡ signed32 (wrap32 minus_seven) *ℤ signed32 (wrap32 nine)
shmul-lmul_example = shmul-lmul wrapping-IsDocumented minus_seven nine none_given

signed_tests_example :
    (slt wrapping nine minus_seven none_given
      ≡ ult wrapping (pos (wrap32 nine + 2 ^ 31)) (pos (wrap32 minus_seven + 2 ^ 31)) none_given)
    × (slt wrapping nine minus_seven none_given
          + eq wrapping nine minus_seven none_given
          + sgt wrapping nine minus_seven none_given
        ≡ 1)
    × (sle wrapping nine minus_seven none_given
        ≡ slt wrapping nine minus_seven none_given + eq wrapping nine minus_seven none_given)
    × (sge wrapping nine minus_seven none_given
        ≡ sgt wrapping nine minus_seven none_given + eq wrapping nine minus_seven none_given)
    × (sgt wrapping nine minus_seven none_given ≡ slt wrapping minus_seven nine none_given)
signed_tests_example = signed_tests wrapping-IsDocumented nine minus_seven none_given

set_bit_lem_example :
    (bit (mb wrapping minus_seven nine none_given) 9
      ≡ (if wrap32 nine == 9 then 1 else bit (wrap32 minus_seven) 9))
    × (bit (cb wrapping minus_seven nine none_given) 9
        ≡ (if wrap32 nine == 9 then 0 else bit (wrap32 minus_seven) 9))
    × (bit (sb wrapping minus_seven nine none_given) 9 ≡ (
        if wrap32 nine == 9 then to_ℕ (not (is_zero none_given)) else bit (wrap32 minus_seven) 9))
set_bit_lem_example =
    set_bit_lem wrapping-IsDocumented minus_seven nine none_given 9 (omega arith) (omega arith)

op_implementation-IsWord_example :
    IsWord (op_implementation wrapping Op.sub nine minus_seven none_given)
op_implementation-IsWord_example =
    op_implementation-IsWord wrapping-IsDocumented Op.sub nine minus_seven none_given

clz_lem_example :
    (clz wrapping nine none_given none_given ≤ 31)
    × (bit (wrap32 nine) (31 - clz wrapping nine none_given none_given) ≡ 1)
    × ((j : ℕ)
        → 31 - clz wrapping nine none_given none_given < j
        → j < 32
        → bit (wrap32 nine) j ≡ 0)
clz_lem_example =
    clz_lem wrapping-IsDocumented nine none_given none_given (λ e. absurd (omega (arith, e))) refl
