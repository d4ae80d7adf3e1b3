-- ===== src/System/Run.antt =====
-- The event loop of tools/simulator/system.py: when it stops.
use mathlib.Core.Path.{subst}
use tia_infrastructure.Prelude.{
  ℕ, suc, ◌+◌, ◌≡◌, ◌↔◌, refl, ap, ◌∙◌, Bool, true, false, ◌&&◌, if◌then◌else◌, some, ok, >>=-eq-ok,
  ok-injective, arith, List, All,
}
use tia_infrastructure.Store.{Store}
use tia_infrastructure.Isa.Numpy.{Numpy}
use tia_infrastructure.Router.{ProcessingElement}
use tia_infrastructure.Memory.{Memory}
use tia_infrastructure.System.{
  System, iterate, iterate_elements, iterate_memories, commit_buffers, all_halted, run,
}
use tia_infrastructure.System.Halt.{IsHalted, IsDrained, all_halted_iff, commit_buffers_iff}

-- What one cycle of the event loop leaves, by whether the system halts.
pub record Step (y : System) (halt : Bool) (z : System) : Type 0 where
  pub halts :
      (halt ≡ true) ↔ (All IsHalted z.processing_elements × All (IsDrained z.store) z.buffers)
  pub stands : halt ≡ true → z.cycle ≡ y.cycle
  pub ticks : halt ≡ false → z.cycle ≡ y.cycle + 1

and_iff {κ ι} :
    {P : Type κ} {Q : Type ι} (a b : Bool)
    → (a ≡ true) ↔ P
    → (b ≡ true) ↔ Q
    → ((a && b) ≡ true) ↔ (P × Q)
and_iff true b (f, _) (g, k) = (λ e. (f refl, g e), λ q. k q.1)
and_iff false b (_, h) _ = (λ e. cc, λ q. h q.0)

clock_lem :
    (h : Bool) (n : ℕ)
    → (h ≡ true → (if h then n else n + 1) ≡ n) × (h ≡ false → (if h then n else n + 1) ≡ n + 1)
clock_lem true n = (λ _. refl, λ e. cc)
clock_lem false n = (λ e. cc, λ _. refl)

step :
    (y : System) (pes : List ProcessingElement) (ms : List Memory) (s t : Store) (d : Bool)
    → commit_buffers y.buffers s ≡ ok (d, t)
    → Step y (all_halted pes && d) (record y {
      cycle = if all_halted pes && d then y.cycle else y.cycle + 1;
      processing_elements = pes;
      memories = ms;
      store = t;
    })
step y pes ms s t d e = record {
  halts = and_iff (all_halted pes) d (all_halted_iff pes) (commit_buffers_iff y.buffers s e);
  stands = (clock_lem (all_halted pes && d) y.cycle).0;
  ticks = (clock_lem (all_halted pes && d) y.cycle).1;
}

-- A cycle that returns halts the system exactly when afterwards the halt register of every processing
-- element is set and every registered buffer is empty; the clock stands still then, and otherwise
-- advances by one.
pub iterate-Step :
    (np : Numpy) (keep : Bool) (y : System) {h : Bool} {z : System}
    → iterate np keep y ≡ ok (h, z)
    → Step y h z
unfolding iterate
iterate-Step np keep y e =
    let (a, ea, e) = >>=-eq-ok (iterate_elements np keep y.processing_elements y.store) _ e in
    let (b, eb, e) = >>=-eq-ok (iterate_memories y.memories a.1) _ e in
    let (c, ec, e) = >>=-eq-ok (commit_buffers y.buffers b.1) _ e in
    subst (λ (x : Bool × System). Step y x.0 x.1) (ok-injective e) (step y a.0 b.0 b.1 c.1 c.0 ec)

-- A run that ends: the last cycle halted the system, after `n` cycles that did not.
pub data Runs (np : Numpy) (keep : Bool) : ℕ → System → System → Type 0 where
  last : (y z : System) → iterate np keep y ≡ ok (true, z) → Runs np keep 0 y z
  more :
      (n : ℕ) (y x z : System)
      → iterate np keep y ≡ ok (false, x)
      → Runs np keep n x z
      → Runs np keep (suc n) y z

-- A run of `n + 1` cycles that ends is what the loop gives with that much fuel or more; the clock
-- has counted `n` of them, every processing element is halted and every registered buffer is empty.
pub Runs-run :
    (np : Numpy) (keep : Bool) (n k : ℕ) {y z : System}
    → Runs np keep n y z
    → (run np keep (suc n + k) y ≡ ok (some z))
      × (z.cycle ≡ y.cycle + n)
      × All IsHalted z.processing_elements
      × All (IsDrained z.store) z.buffers
unfolding run
Runs-run np keep _ k (last y z e) =
    let t = iterate-Step np keep y e in
    let n : suc 0 + k ≡ suc k = omega arith in
    (
      ap (λ f. run np keep f y) n ∙ rw e,
      omega (arith, t.stands refl),
      (t.halts.0 refl).0,
      (t.halts.0 refl).1,
    )
Runs-run np keep _ k (more n y x z e r) =
    let t = iterate-Step np keep y e in
    let (f, c, h, b) = Runs-run np keep n k r in
    let m : suc (suc n) + k ≡ suc (suc n + k) = omega arith in
    (ap (λ f. run np keep f y) m ∙ rw e f, omega (arith, t.ticks refl, c), h, b)
