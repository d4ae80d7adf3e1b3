-- ===== src/Isa/Ops/Zeros.antt =====
-- `clz` and `ctz`: the loops over the bits of a word.
use tia_infrastructure.Prelude.{
  ℕ, zero, suc, ◌+◌, ◌-◌, ◌<◌, ◌≤◌, ◌≡◌, ◌≢◌, ◌⊎◌, refl, true, arith, Bool-cases, inl, inr, ◌==◌,
}
use tia_infrastructure.Prelude.Int.{ℤ, pos, wrap32, is_zero, wrap32-lt, sub_ℕ}
use tia_infrastructure.Prelude.Bits.{bit, bit-eq-div-mod, bit-le, bit_and-one, zero_of_bits}
use tia_infrastructure.Isa.Numpy.{Numpy, IsDocumented}
use tia_infrastructure.Isa.Ops.{highest_bit, lowest_bit, bit_at, clz, ctz}

module _ {np : Numpy} (d : IsDocumented np) where
  bit_at_lem : (a : ℤ) (i : ℕ) → i < 32 → bit_at np a i ≡ (bit (wrap32 a) i == 1)
  bit_at_lem a i h = simp (
    d.uint32_wraps,
    d.and_uint32_bits,
    bit_and-one,
    d.shr_uint32_divides (wrap32 a) i h,
    bit-eq-div-mod,
  )

  -- Where the loop from above stops: at a set bit with none above it, or nowhere.
  record IsHighest (w n r : ℕ) : Type 0 where
    found : (r < n) ⊎ (r ≡ 32)
    set_there : r < n → bit w r ≡ 1
    clear_above : (j : ℕ) → r < j → j < n → bit w j ≡ 0
    clear_all : r ≡ 32 → (j : ℕ) → j < n → bit w j ≡ 0

  highest_bit-IsHighest : (a : ℤ) (n : ℕ) → n ≤ 32 → IsHighest (wrap32 a) n (highest_bit np a n)
  unfolding highest_bit
  highest_bit-IsHighest a zero h = record {
    found = inr refl;
    set_there = λ l. absurd (omega arith);
    clear_above = λ j l m. absurd (omega arith);
    clear_all = λ e j l. absurd (omega arith);
  }
  highest_bit-IsHighest a (suc n) h = elim (Bool-cases (bit_at np a n)) [
    | inl one ↦ rw one (record {
      found = inl (omega arith);
      set_there = λ l. ground (arith, bit_at_lem a n h);
      clear_above = λ j l m. absurd (omega arith);
      clear_all = λ e j l. absurd (omega arith);
    })
    | inr clear ↦ rw clear (
        extend (highest_bit-IsHighest a n (omega arith))
          (ground (arith, bit_at_lem a n h, bit-le (wrap32 a) n)))
  ]
    where
      extend :
          IsHighest (wrap32 a) n (highest_bit np a n)
          → bit (wrap32 a) n ≡ 0
          → IsHighest (wrap32 a) (suc n) (highest_bit np a n)
      extend v e = record {
        found = ground (arith, v.found);
        set_there = λ l. ground (arith, v.found, v.set_there);
        clear_above = λ j l m. ground (arith, v.clear_above j l);
        clear_all = λ q j l. ground (arith, v.clear_all q j);
      }

  clz-eq :
      (a b c : ℤ)
      → highest_bit np a 32 < 32
      → is_zero b ≡ true
      → clz np a b c ≡ 31 - highest_bit np a 32
  unfolding clz
  clz-eq a b c h z = ground (arith, d.uint32_wraps (sub_ℕ 31 (highest_bit np a 32)))

  -- For a word that is not zero, `clz` with a zero second operand counts the zeros above the highest
  -- set bit: that bit is at `31 - clz` and none above it is set.
  pub clz_lem :
      (a b c : ℤ)
      → wrap32 a ≢ 0
      → is_zero b ≡ true
      → (clz np a b c ≤ 31)
        × (bit (wrap32 a) (31 - clz np a b c) ≡ 1)
        × ((j : ℕ) → 31 - clz np a b c < j → j < 32 → bit (wrap32 a) j ≡ 0)
  clz_lem a b c ne z =
      let v = highest_bit-IsHighest a 32 (omega arith) in
      let some_bit : highest_bit np a 32 < 32 = elim v.found [
        | inl l ↦ l
        | inr e ↦ absurd (ne (zero_of_bits 32 (wrap32 a) (wrap32-lt a) (v.clear_all e)))
      ] in
      let e : 31 - clz np a b c ≡ highest_bit np a 32 = omega (arith, clz-eq a b c some_bit z) in
      (
        omega (arith, clz-eq a b c some_bit z),
        rw e (v.set_there some_bit),
        λ j l m. v.clear_above j (omega arith) m,
      )

  -- Where the loop from below, started at `i`, stops.
  record IsLowest (w i r : ℕ) : Type 0 where
    bounded : r ≤ 32
    clear_below : (j : ℕ) → i ≤ j → j < r → bit w j ≡ 0
    set_there : r < 32 → bit w r ≡ 1

  lowest_bit-IsLowest : (a : ℤ) (n i : ℕ) → n + i ≡ 32 → IsLowest (wrap32 a) i (lowest_bit np a n i)
  unfolding lowest_bit
  lowest_bit-IsLowest a zero i h = record {
    bounded = omega arith;
    clear_below = λ j l m. absurd (omega arith);
    set_there = λ l. absurd (omega arith);
  }
  lowest_bit-IsLowest a (suc n) i h = elim (Bool-cases (bit_at np a i)) [
    | inl one ↦ rw one (record {
      bounded = omega arith;
      clear_below = λ j l m. absurd (omega arith);
      set_there = λ l. ground (arith, bit_at_lem a i (omega arith));
    })
    | inr clear ↦ rw clear (
        extend (lowest_bit-IsLowest a n (suc i) (omega arith))
          (ground (arith, bit_at_lem a i (omega arith), bit-le (wrap32 a) i)))
  ]
    where
      extend :
          IsLowest (wrap32 a) (suc i) (lowest_bit np a n (suc i))
          → bit (wrap32 a) i ≡ 0
          → IsLowest (wrap32 a) i (lowest_bit np a n (suc i))
      extend v e = record {
        bounded = v.bounded;
        clear_below = λ j l m. ground (arith, v.clear_below j);
        set_there = v.set_there;
      }

  ctz-eq : (a b c : ℤ) → ctz np a b c ≡ lowest_bit np a 32 0
  unfolding ctz
  ctz-eq a b c = ground (
    arith,
    d.uint32_wraps (pos (lowest_bit np a 32 0)),
    (lowest_bit-IsLowest a 32 0 refl).bounded,
  )

  -- `ctz` counts the zeros below the lowest set bit, and gives 32 for the word zero.
  pub ctz_lem :
      (a b c : ℤ)
      → (ctz np a b c ≤ 32)
        × ((j : ℕ) → j < ctz np a b c → bit (wrap32 a) j ≡ 0)
        × (ctz np a b c < 32 → bit (wrap32 a) (ctz np a b c) ≡ 1)
  ctz_lem a b c =
      let v = lowest_bit-IsLowest a 32 0 refl in
      rw ctz-eq (v.bounded, λ j l. v.clear_below j (omega arith) l, v.set_there)
