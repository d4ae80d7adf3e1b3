-- ===== src/Instances/Programs.antt =====
-- Programs are loaded into the elements of a system, and the system runs.
use tia_infrastructure.Prelude.{
  ℕ, suc, ◌+◌, ◌<◌, ◌≤◌, ◌≢◌, ◌≡◌, refl, sym, ap, ◌∙◌, true, some, List, [], ◌∷◌, map, length,
  All-set, All-get_elem?, get_elem?, get_elem?-set_ne, get_elem?-set_self, lt_of_get_elem?, set, ok,
  ◌==◌, Safely, arith, Bool,
}
use tia_infrastructure.Prelude.Int.{ℤ}
use tia_infrastructure.Isa.{Instruction}
use tia_infrastructure.Isa.Numpy.{Numpy}
use tia_infrastructure.Core
use tia_infrastructure.Core.{Core}
use tia_infrastructure.Core.Fits.{layout, ProgramFits}
use tia_infrastructure.Router.{ProcessingElement}
use tia_infrastructure.System.{System, run}
use tia_infrastructure.System.Safety.{SystemFits, ElementFits, Faults, Ended, run-Safely}
use tia_infrastructure.Instances.{load, load_all}

-- A program that fits an element in a store of `n`.
abbrev pub Suits : Numpy → ℕ → ProcessingElement → List ℤ × List Instruction → Type 0
Suits np n p g = ProgramFits np (layout p.core) n g.1 × (length g.0 ≡ length p.core.registers)

-- Programs that fit the elements from number `i` on.
abbrev pub AllSuit :
    Numpy → ℕ → List ProcessingElement → ℕ → List (List ℤ × List Instruction) → Type 0
AllSuit np n ps i [] = Unit
AllSuit np n ps i (g ∷ gs) =
    ((p : ProcessingElement) × (get_elem? ps i ≡ some p) × Suits np n p g)
    × AllSuit np n ps (suc i) gs

length-map {ℓ κ} :
    {A : Type ℓ} {B : Type κ} (f : A → B) (xs : List A) → length (map f xs) ≡ length xs
length-map f [] = refl
length-map f (x ∷ xs) = ap suc (length-map f xs)

-- An element with a program in its core: the program's instructions, and its register values as words.
abbrev pub programmed : Numpy → List ℤ × List Instruction → ProcessingElement → ProcessingElement
programmed np g p = record p {
  core = record (p.core) { registers = map np.uint32 g.0; instructions = g.1 };
}

-- The elements from number `i` on, before and after the programs are loaded.
abbrev pub Carry :
    Numpy
    → List ProcessingElement
    → List ProcessingElement
    → ℕ
    → List (List ℤ × List Instruction)
    → Type 0
Carry np ps qs i [] = Unit
Carry np ps qs i (g ∷ gs) =
    ((p : ProcessingElement) × (get_elem? ps i ≡ some p)
      × (get_elem? qs i ≡ some (programmed np g p)))
    × Carry np ps qs (suc i) gs

-- What loading programs into the elements from number `i` on leaves: each of these elements has its
-- program and is otherwise as it was, and so are all other elements and the rest of the system.
pub record Loaded (np : Numpy) (i : ℕ) (gs : List (List ℤ × List Instruction)) (z y : System)
    : Type 0 where
  pub rest : y ≡ record z { processing_elements = y.processing_elements }
  pub programs : Carry np z.processing_elements y.processing_elements i gs
  pub before :
      (k : ℕ) → k < i → get_elem? y.processing_elements k ≡ get_elem? z.processing_elements k
  pub behind :
      (k : ℕ)
      → i + length gs ≤ k
      → get_elem? y.processing_elements k ≡ get_elem? z.processing_elements k

Carry-of_same :
    (np : Numpy) (ps ps' qs : List ProcessingElement) (i : ℕ)
    (gs : List (List ℤ × List Instruction))
    → ((k : ℕ) → i ≤ k → get_elem? ps' k ≡ get_elem? ps k)
    → Carry np ps' qs i gs
    → Carry np ps qs i gs
Carry-of_same np ps ps' qs i [] h c = tt
Carry-of_same np ps ps' qs i (g ∷ gs) h ((p, e, f), c) = (
  (p, sym (h i (omega arith)) ∙ e, f),
  Carry-of_same np ps ps' qs (suc i) gs (λ k l. h k (omega (arith, l))) c,
)

program_lem :
    (np : Numpy) (g : List ℤ × List Instruction) (p : ProcessingElement)
    → length g.0 ≡ length p.core.registers
    → (Core.program np g.0 g.1 p.core ≡ ok (programmed np g p).core)
      × (layout (programmed np g p).core ≡ layout p.core)
unfolding Core.program Core.initialize_registers
program_lem np g p e =
    let same : (length g.0 == length p.core.registers) ≡ true = ground (arith, e) in
    let n : length (map np.uint32 g.0) ≡ length p.core.registers = length-map np.uint32 g.0 ∙ e in
    (
      rw same,
      ap
          (λ k. record {
            num_predicates = length p.core.predicates;
            num_registers = k;
            inputs = p.core.input_channel_buffers;
            outputs = p.core.output_channel_buffers;
          })
          n,
    )

load-SystemFits :
    (np : Numpy) (i : ℕ) (g : List ℤ × List Instruction) (z : System) (p : ProcessingElement)
    → get_elem? z.processing_elements i ≡ some p
    → Suits np (length z.store) p g
    → SystemFits np z
    → (load np i g z
        ≡ ok (record z { processing_elements = set z.processing_elements i (programmed np g p) }))
      × SystemFits np
          (record z { processing_elements = set z.processing_elements i (programmed np g p) })
unfolding load
load-SystemFits np i g z p e s f =
    let (h, l) = program_lem np g p s.1 in
    let fits =
      All-get_elem? (ElementFits np (length z.store)) z.processing_elements i f.elements e in
    (
      rw (e, h),
      record {
        elements =
            All-set (ElementFits np (length z.store)) z.processing_elements i (programmed np g p)
              f.elements (record { program = rw l s.0; wired = fits.wired });
        memories = f.memories;
        registered = f.registered;
        valid = f.valid;
        forwards = f.forwards;
      },
    )

AllSuit-set :
    (np : Numpy) (n : ℕ) (ps : List ProcessingElement) (k : ℕ) (q : ProcessingElement) (i : ℕ)
    (gs : List (List ℤ × List Instruction))
    → k < i
    → AllSuit np n ps i gs
    → AllSuit np n (set ps k q) i gs
AllSuit-set np n ps k q i [] l h = tt
AllSuit-set np n ps k q i (g ∷ gs) l ((p, e, s), h) = (
  (p, get_elem?-set_ne ps k i q (λ f. omega (arith, l, f)) ∙ e, s),
  AllSuit-set np n ps k q (suc i) gs (omega (arith, l)) h,
)

Loaded-more :
    (np : Numpy) (i : ℕ) (g : List ℤ × List Instruction) (gs : List (List ℤ × List Instruction))
    (z y : System) (p : ProcessingElement)
    → get_elem? z.processing_elements i ≡ some p
    → Loaded np
        (suc i)
        gs
        (record z { processing_elements = set z.processing_elements i (programmed np g p) })
        y
    → Loaded np i (g ∷ gs) z y
Loaded-more np i g gs z y p e l =
    let ps = z.processing_elements in
    let others : (k : ℕ) → i ≢ k → get_elem? (set ps i (programmed np g p)) k ≡ get_elem? ps k =
      λ k n. get_elem?-set_ne ps i k (programmed np g p) n in
    let here : get_elem? y.processing_elements i ≡ some (programmed np g p) =
      l.before i (omega arith)
      ∙ get_elem?-set_self ps i (programmed np g p) (lt_of_get_elem? ps i e) in
    record {
      rest = l.rest;
      programs = (
        (p, e, here),
        Carry-of_same np ps (set ps i (programmed np g p)) y.processing_elements (suc i) gs
            (λ k n. others k (λ q. omega (arith, n, q))) l.programs,
      );
      before = λ k n. l.before k (omega (arith, n)) ∙ others k (λ q. omega (arith, n, q));
      behind = λ k n. l.behind k (omega (arith, n)) ∙ others k (λ q. omega (arith, n, q));
    }

-- Programs that fit the elements are loaded without a raise, and the system fits with them.
pub load_all-Loaded :
    (np : Numpy) (i : ℕ) (gs : List (List ℤ × List Instruction)) (z : System)
    → AllSuit np (length z.store) z.processing_elements i gs
    → SystemFits np z
    → (y : System) × (load_all np i gs z ≡ ok y) × Loaded np i gs z y × SystemFits np y
unfolding load_all
load_all-Loaded np i [] z h f =
    (z, refl, record { rest = refl; programs = tt; before = λ k n. refl; behind = λ k n. refl }, f)
load_all-Loaded np i (g ∷ gs) z ((p, e, s), h) f =
    let (l, k) = load-SystemFits np i g z p e s f in
    let (y, m, d, r) =
      load_all-Loaded np (suc i) gs
        (record z { processing_elements = set z.processing_elements i (programmed np g p) })
        (AllSuit-set np (length z.store) z.processing_elements i (programmed np g p) (suc i) gs
          (omega arith) h)
        k in
    (y, rw l m, Loaded-more np i g gs z y p e d, r)

-- Programs that fit the elements of a system that fits are loaded without a raise: each element has
-- then the instructions of its program and its register values as words, and nothing else of the
-- system has changed. Any run then ends with a system that fits, or out of fuel, or with an
-- `IndexError` at a request beyond a memory's contents.
pub load_all-run :
    (np : Numpy) (keep : Bool) (gs : List (List ℤ × List Instruction)) (z : System)
    → SystemFits np z
    → AllSuit np (length z.store) z.processing_elements 0 gs
    → (y : System) × (load_all np 0 gs z ≡ ok y)
      × Loaded np 0 gs z y
      × ((fuel : ℕ) → Safely (Faults np keep y) (Ended np keep) (run np keep fuel y))
load_all-run np keep gs z f h =
    let (y, e, d, k) = load_all-Loaded np 0 gs z h f in
    (y, e, d, λ fuel. run-Safely np keep fuel y k)
