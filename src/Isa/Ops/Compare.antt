-- ===== src/Isa/Ops/Compare.antt =====
-- The comparisons: how the ten of them relate, and what decides them.
use tia_infrastructure.Prelude.{
  ℕ, ◌+◌, ◌%◌, ◌^◌, ◌<◌, ◌≡◌, ◌↔◌, Bool, true, false, to_ℕ, arith, ltb,
}
use tia_infrastructure.Prelude.Int.{ℤ, pos, ltb_ℤ, wrap32, signed32, wrap32-lt}
use tia_infrastructure.Isa.Numpy.{Numpy, IsDocumented}
use tia_infrastructure.Isa.Ops.{eq, ne, sgt, ugt, slt, ult, sge, uge, sle, ule}

-- The order of two patterns read as signed numbers is that of the patterns with the sign bit turned.
signed-lt_bias :
    (x y : ℕ)
    → x < 2 ^ 32
    → y < 2 ^ 32
    → ltb_ℤ (signed32 x) (signed32 y) ≡ ltb ((x + 2 ^ 31) % 2 ^ 32) ((y + 2 ^ 31) % 2 ^ 32)
signed-lt_bias x y h k = ground arith

module _ {np : Numpy} (d : IsDocumented np) where
  word_of_lem : (b : Bool) → np.uint32 (pos (to_ℕ b)) ≡ to_ℕ b
  word_of_lem true = d.uint32_wraps (pos 1)
  word_of_lem false = d.uint32_wraps (pos 0)

  -- Unsigned: `ult` is 1 exactly when the word of `a` is below that of `b`, and `eq` exactly when
  -- they are one word. Of `ult`, `eq` and `ugt` exactly one is 1, and the other tests are sums of them.
  pub unsigned_tests :
      (a b c : ℤ)
      → ((ult np a b c ≡ 1) ↔ (wrap32 a < wrap32 b))
        × ((eq np a b c ≡ 1) ↔ (wrap32 a ≡ wrap32 b))
        × (ult np a b c + eq np a b c + ugt np a b c ≡ 1)
        × (ule np a b c ≡ ult np a b c + eq np a b c)
        × (uge np a b c ≡ ugt np a b c + eq np a b c)
        × (ne np a b c ≡ ult np a b c + ugt np a b c)
  unfolding ult eq ugt ule uge ne
  unsigned_tests a b c = simp (word_of_lem, d.uint32_wraps) (ground arith)

  -- Signed: `slt` is `ult` with the sign bits turned; of `slt`, `eq` and `sgt` exactly one is 1,
  -- `sle` and `sge` are sums of them, and `sgt` is `slt` of the swapped operands.
  pub signed_tests :
      (a b c : ℤ)
      → (slt np a b c ≡ ult np (pos (wrap32 a + 2 ^ 31)) (pos (wrap32 b + 2 ^ 31)) c)
        × (slt np a b c + eq np a b c + sgt np a b c ≡ 1)
        × (sle np a b c ≡ slt np a b c + eq np a b c)
        × (sge np a b c ≡ sgt np a b c + eq np a b c)
        × (sgt np a b c ≡ slt np b a c)
  unfolding slt ult eq sgt sle sge
  signed_tests a b c =
      simp (word_of_lem, d.uint32_wraps, d.int32_wraps)
        (ground (
          arith,
          signed-lt_bias (wrap32 a) (wrap32 b) (wrap32-lt a) (wrap32-lt b),
          signed-lt_bias (wrap32 b) (wrap32 a) (wrap32-lt b) (wrap32-lt a),
          wrap32-lt a,
          wrap32-lt b,
        ))
