-- ===== src/System/Safety.antt =====
-- A cycle of the event loop of tools/simulator/system.py over elements, memories and buffers that fit:
-- when it raises, and what it keeps.
use tia_infrastructure.Prelude.{
  ℕ, zero, suc, ◌+◌, ◌<◌, ◌≡◌, refl, sym, ap, ◌∙◌, Bool, true, false, ◌&&◌, if◌then◌else◌, Option,
  none, some, List, [], ◌∷◌, length, All, Result, ok, err, ◌>>=◌, Safely, Safely-bind, Safely-map,
  Safely-of_eq, ok_of_Safely,
}
use tia_infrastructure.Interconnect.Invariant.{IsValid}
use tia_infrastructure.Store.{Store}
use tia_infrastructure.Store.Keeps.{Keeps, Keeps_refl, Keeps_trans, Forwards}
use tia_infrastructure.Isa.Numpy.{Numpy}
use tia_infrastructure.Core.Fits.{layout, ProgramFits}
use tia_infrastructure.Core.Cycle.{iterate-Cycled}
use tia_infrastructure.Router.{ProcessingElement, iterate_element}
use tia_infrastructure.Router.Total.{IsWired, iterate_total}
use tia_infrastructure.Memory.{Memory}
use tia_infrastructure.Memory.Safety.{Any, MemoryFits, BadRequest}
use tia_infrastructure.System.{
  System, iterate, iterate_elements, iterate_memories, commit_buffers, all_halted, run,
}
use tia_infrastructure.System.Memories.{Remembers, iterate_memories-Safely}
use tia_infrastructure.System.Commit.{commit_buffers-Commits}

-- An element whose program fits its core and whose router has its buffers in a store of `n`.
pub record ElementFits (np : Numpy) (n : ℕ) (pe : ProcessingElement) : Type 0 where
  pub program : ProgramFits np (layout pe.core) n pe.core.instructions
  pub wired : IsWired pe.router n

-- A system whose parts fit its store, all of whose buffers are valid and forward within it.
pub record SystemFits (np : Numpy) (y : System) : Type 0 where
  pub elements : All (ElementFits np (length y.store)) y.processing_elements
  pub memories : All (MemoryFits (length y.store)) y.memories
  pub registered : All (λ r. r < length y.store) y.buffers
  pub valid : All IsValid y.store
  pub forwards : All (Forwards (length y.store)) y.store

module _ (np : Numpy) (keep : Bool) where
  iterate_element_total :
      (n : ℕ) (pe : ProcessingElement) (s : Store)
      → n ≡ length s
      → ElementFits np n pe
      → (x : ProcessingElement × Store) × (iterate_element np keep pe s ≡ ok x)
        × ElementFits np n x.0
        × Keeps s x.1
  unfolding iterate_element
  iterate_element_total n pe s q f =
      let (r, e, c) = iterate-Cycled np keep pe.core s (rw (← q) f.program) in
      let (t, g, k) = iterate_total pe.router r.1 (rw (c.store.same_length, ← q) f.wired) in
      (
        (record pe { core = r.0 }, t),
        rw (e, g),
        record { program = rw (c.same_layout, c.program) f.program; wired = f.wired },
        Keeps_trans c.store k,
      )

  iterate_elements_total :
      (n : ℕ) (pes : List ProcessingElement) (s : Store)
      → n ≡ length s
      → All (ElementFits np n) pes
      → (x : List ProcessingElement × Store) × (iterate_elements np keep pes s ≡ ok x)
        × All (ElementFits np n) x.0
        × Keeps s x.1
  unfolding iterate_elements
  iterate_elements_total n [] s q f = (([], s), refl, tt, Keeps_refl s)
  iterate_elements_total n (p ∷ ps) s q (f, fs) =
      let (x, e, h, k) = iterate_element_total n p s q f in
      let (y, g, hs, l) = iterate_elements_total n ps x.1 (q ∙ sym k.same_length) fs in
      ((x.0 ∷ y.0, y.1), rw (e, g), (h, hs), Keeps_trans k l)

-- A memory of the system has a port whose first request is beyond its contents.
abbrev pub Faulty : System → Type 0
Faulty y = Any (BadRequest y.store) y.memories

-- What a cycle of a system that fits leaves.
pub record SystemCycled (np : Numpy) (y : System) (x : Bool × System) : Type 0 where
  pub fits : SystemFits np x.1
  pub same_memories : length x.1.memories ≡ length y.memories

module _ (np : Numpy) (keep : Bool) where
  -- A cycle of a system whose parts fit leaves a system whose parts fit, with as many memories; or it
  -- raises an `IndexError`, and then the first request of a port of a memory was beyond the contents.
  pub iterate-SystemFits :
      (y : System) → SystemFits np y → Safely (Faulty y) (SystemCycled np y) (iterate np keep y)
  unfolding iterate
  iterate-SystemFits y f =
      Safely-bind (Faulty y) (Elapsed y) (SystemCycled np y)
        (iterate_elements np keep y.processing_elements y.store) _
        (Safely-of_eq (Faulty y) (Elapsed y)
          (iterate_elements np keep y.processing_elements y.store)
          (let (x, e, h, k) =
              iterate_elements_total np keep (length y.store) y.processing_elements y.store refl
                f.elements in
            (x, e, (h, k))))
        λ x h.
          Safely-bind (Faulty y) (Remembers y.store y.memories) (SystemCycled np y)
            (iterate_memories y.memories x.1) _
            (iterate_memories-Safely y.store y.memories x.1 h.1 f.memories f.forwards)
            λ z r. ends x.0 z.0 z.1 h.0 r
    where
      Elapsed : System → List ProcessingElement × Store → Type 0
      Elapsed y x = All (ElementFits np (length y.store)) x.0 × Keeps y.store x.1

      ends :
          (pes : List ProcessingElement) (ms : List Memory) (s : Store)
          → All (ElementFits np (length y.store)) pes
          → Remembers y.store y.memories (ms, s)
          → Safely (Faulty y) (SystemCycled np y) (
              commit_buffers y.buffers s >>= λ c. ok (
                all_halted pes && c.0,
                record y {
                  cycle = if all_halted pes && c.0 then y.cycle else y.cycle + 1;
                  processing_elements = pes;
                  memories = ms;
                  store = c.1;
                },
              ))
      ends pes ms s h r =
          let k = r.store in
          let (d, t, e, c) =
            commit_buffers-Commits y.buffers s (k.valid f.valid) (rw k.same_length f.registered) in
          let n : length t ≡ length y.store = c.same_length ∙ k.same_length in
          rw e (record {
            fits = record {
              elements = rw n h;
              memories = rw n r.fits;
              registered = rw n f.registered;
              valid = c.valid;
              forwards =
                  rw n (c.forwards (length y.store) (k.forwards (length y.store) f.forwards));
            };
            same_memories = r.same_number;
          })

  -- The systems that cycles reach, none of which halts before the last.
  pub data Reaches : System → System → Type 0 where
    here : (y : System) → Reaches y y
    next : (y x z : System) → iterate np keep y ≡ ok (false, x) → Reaches x z → Reaches y z

  -- The system has reached one with such a memory, among as many memories as it began with.
  pub record Faults (y : System) : Type 0 where
    pub state : System
    pub reached : Reaches y state
    pub same_memories : length state.memories ≡ length y.memories
    pub faulty : Faulty state

  -- What a run gives, when it ends, fits again.
  abbrev pub Ended : Option System → Type 0
  Ended none = Unit
  Ended (some z) = SystemFits np z

  -- With any fuel, a run of a system whose parts fit runs out of fuel or halts with a system whose
  -- parts fit; or it raises an `IndexError`, in a system that it has reached in which the first
  -- request of a port of a memory is beyond the contents.
  pub run-Safely :
      (fuel : ℕ) (y : System) → SystemFits np y → Safely (Faults y) Ended (run np keep fuel y)
  unfolding run
  run-Safely zero y f = tt
  run-Safely (suc fuel) y f =
      by_cycle (iterate np keep y) refl (iterate-SystemFits y f) (λ z g. run-Safely fuel z g)
    where
      by_cycle :
          (m : Result (Bool × System))
          → iterate np keep y ≡ m
          → Safely (Faulty y) (SystemCycled np y) m
          → ((z : System) → SystemFits np z → Safely (Faults z) Ended (run np keep fuel z))
          → Safely (Faults y) Ended (run np keep (suc fuel) y)
      by_cycle (err e) g c ih =
          rw g (c.0, record { state = y; reached = here y; same_memories = refl; faulty = c.1 })
      by_cycle (ok (true, z)) g c ih = rw g c.fits
      by_cycle (ok (false, z)) g c ih = rw g (
          Safely-map (run np keep fuel z)
            (λ r. record {
              state = r.state;
              reached = next y z r.state g r.reached;
              same_memories = r.same_memories ∙ c.same_memories;
              faulty = r.faulty;
            })
            (λ o e. e) (ih z c.fits))

  -- A system without memories whose parts fit never raises, however long it runs.
  pub run_total :
      (fuel : ℕ) (y : System)
      → SystemFits np y
      → y.memories ≡ []
      → (o : Option System) × (run np keep fuel y ≡ ok o) × Ended o
  run_total fuel y f e =
      ok_of_Safely (run np keep fuel y)
        (λ h. none_faulty h.state.store h.state.memories (h.same_memories ∙ ap length e) h.faulty)
        (run-Safely fuel y f)
    where
      none_faulty : (s : Store) (ms : List Memory) → length ms ≡ 0 → ¬ (Any (BadRequest s) ms)
      none_faulty s [] n h = h
      none_faulty s (m ∷ ms) n h = cc
