-- ===== src/System/Finalize.antt =====
-- tools/simulator/system.py, `finalize`: the components in the order of the numbers in their names.
pub mod Order
pub mod Accepts
use tia_infrastructure.Prelude.{
  ℕ, zero, suc, map, ◌+◌, ◌-◌, ◌*◌, Bool, ◌&&◌, leb, not, if◌then◌else◌, Option, none, some, List,
  [], ◌∷◌, ◌++◌, get_elem?, Result, ok, simulator_exception, ◌>>=◌, raise_if,
}
use tia_infrastructure.Prelude.Text.{Text, codes, equal, decimal}
use tia_infrastructure.Prelude.Sort.{sorted_by}
use tia_infrastructure.Interconnect.{Buffer}
use tia_infrastructure.Store.{Store}
use tia_infrastructure.Router.{ProcessingElement}
use tia_infrastructure.Memory.{Memory}
use tia_infrastructure.System.{System}

abbrev pub is_digit : ℕ → Bool
is_digit c = leb 48 c && leb c 57

-- The runs of digits, each read as a number, with what the current run has given so far.
abbrev pub numbers : Option ℕ → Text → List ℕ
numbers none [] = []
numbers (some n) [] = n ∷ []
numbers none (c ∷ s) =
    let inside = numbers (some (c - 48)) s in
    let outside = numbers none s in if is_digit c then inside else outside
numbers (some n) (c ∷ s) =
    let inside = numbers (some (n * 10 + (c - 48))) s in
    let outside = n ∷ numbers none s in if is_digit c then inside else outside

-- `natural_number_sort_key`
abbrev pub natural_number_sort_key : Text → List ℕ
natural_number_sort_key name = numbers none name

-- The key of the buffer at a position of the store.
abbrev pub buffer_key : Store → ℕ → List ℕ
buffer_key s r = elim (get_elem? s r) [ none ↦ [] | some b ↦ natural_number_sort_key b.name ]

-- `f"processing_element_{i}"`
abbrev pub processing_element_name : ℕ → Text
processing_element_name i = codes "processing_element_" ++ decimal i

-- The names of so many elements, from a number on.
abbrev pub element_names : ℕ → ℕ → List Text
element_names i zero = []
element_names i (suc n) = processing_element_name i ∷ element_names (suc i) n

abbrev pub names : List ProcessingElement → List Text
names ps = map (λ p. p.name) ps

-- The loop over the sorted elements; `i` is the enumeration index.
unfoldable pub check_names : ℕ → List ProcessingElement → Result (Unit {0})
check_names i [] = ok tt
check_names i (p ∷ ps) =
    raise_if (not (equal p.name (processing_element_name i))) simulator_exception >>= λ _.
    check_names (suc i) ps

abbrev pub element_key : ProcessingElement → List ℕ
element_key p = natural_number_sort_key p.name

abbrev pub memory_key : Memory → List ℕ
memory_key m = natural_number_sort_key m.name

unfoldable pub finalize : System → Result System
finalize y =
    let pes = sorted_by element_key y.processing_elements in
    check_names 0 pes >>= λ _. ok (record y {
      processing_elements = pes;
      memories = sorted_by memory_key y.memories;
      buffers = sorted_by (buffer_key y.store) y.buffers;
    })
