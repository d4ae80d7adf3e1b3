-- ===== src/System/Finalize/Accepts.antt =====
-- `finalize` of tools/simulator/system.py: which systems it accepts, and what it leaves of them.
use mathlib.Core.Path.{subst}
use mathlib.Core.List.{Permᴰ}
use mathlib.Core.List.Permᴰ
use tia_infrastructure.Prelude.{ℕ, ◌<◌, ◌≡◌, refl, length, ok, >>=-eq-ok}
use tia_infrastructure.Prelude.Sort.{sorted_by, sorted_by_perm, All-perm}
use tia_infrastructure.Isa.Numpy.{Numpy}
use tia_infrastructure.Memory.Safety.{MemoryFits}
use tia_infrastructure.System.{System}
use tia_infrastructure.System.Safety.{SystemFits, ElementFits}
use tia_infrastructure.System.Finalize.{
  check_names, element_key, memory_key, buffer_key, finalize, element_names, names,
}
use tia_infrastructure.System.Finalize.Order.{names-sorted_by, check_names-ok, ok-check_names}

-- The same components in another order, the elements in that of the numbers in their names.
pub record Finalized (n : ℕ) (y z : System) : Type 0 where
  pub elements : Permᴰ z.processing_elements y.processing_elements
  pub memories : Permᴰ z.memories y.memories
  pub buffers : Permᴰ z.buffers y.buffers
  pub in_order : names z.processing_elements ≡ element_names 0 n
  pub store : z.store ≡ y.store
  pub cycle : z.cycle ≡ y.cycle

module _ (y : System) where
  -- The names of the elements are, in some order, those of `n` elements.
  abbrev pub HasNames : ℕ → Type 0
  HasNames n = Permᴰ (names y.processing_elements) (element_names 0 n)

  pub finalize-Finalized :
      (n : ℕ) → HasNames n → (z : System) × (finalize y ≡ ok z) × Finalized n y z
  unfolding finalize
  finalize-Finalized n p =
      let e = names-sorted_by n y.processing_elements p in
      (
        record y {
          processing_elements = sorted_by element_key y.processing_elements;
          memories = sorted_by memory_key y.memories;
          buffers = sorted_by (buffer_key y.store) y.buffers;
        },
        rw (check_names-ok 0 n (sorted_by element_key y.processing_elements) e),
        record {
          elements = sorted_by_perm element_key y.processing_elements;
          memories = sorted_by_perm memory_key y.memories;
          buffers = sorted_by_perm (buffer_key y.store) y.buffers;
          in_order = e;
          store = refl;
          cycle = refl;
        },
      )

  HasNames-of_finalize : (z : System) → finalize y ≡ ok z → (n : ℕ) × HasNames n
  unfolding finalize
  HasNames-of_finalize z h =
      let (u, e, f) = >>=-eq-ok (check_names 0 (sorted_by element_key y.processing_elements)) _ h in
      let in_order = ok-check_names 0 (sorted_by element_key y.processing_elements) e in
      (
        length (sorted_by element_key y.processing_elements),
        subst (Permᴰ (names y.processing_elements)) in_order (
            Permᴰ.map (λ p. p.name)
              (Permᴰ.symm (sorted_by_perm element_key y.processing_elements))),
      )

  -- A system can be finalized exactly when the names of its elements are, in any order, those of `n`
  -- elements. It has the same components then, with its elements in the order of their numbers.
  pub finalize_iff :
      ((n : ℕ) → HasNames n → (z : System) × (finalize y ≡ ok z) × Finalized n y z)
      × ((z : System) → finalize y ≡ ok z → (n : ℕ) × HasNames n)
  finalize_iff = (finalize-Finalized, HasNames-of_finalize)

-- Finalizing a system whose parts fit leaves one whose parts fit.
pub Finalized-SystemFits :
    (np : Numpy) {n : ℕ} {y z : System} → Finalized n y z → SystemFits np y → SystemFits np z
Finalized-SystemFits np {y = y} {z = z} f s = record {
  elements =
      rw f.store (All-perm (ElementFits np (length y.store)) (Permᴰ.symm f.elements) s.elements);
  memories = rw f.store (All-perm (MemoryFits (length y.store)) (Permᴰ.symm f.memories) s.memories);
  registered = rw f.store (All-perm (λ r. r < length y.store) (Permᴰ.symm f.buffers) s.registered);
  valid = rw f.store s.valid;
  forwards = rw f.store s.forwards;
}
