-- ===== src/System/Finalize/Order.antt =====
-- When `finalize` of tools/simulator/system.py accepts the names of the processing elements.
use mathlib.Core.Path.{ap₂}
use mathlib.Core.List.{Permᴰ}
use mathlib.Core.List.Permᴰ
use tia_infrastructure.Prelude.{
  ℕ, suc, zero, ◌+◌, ◌-◌, ◌*◌, ◌<◌, ◌≡◌, refl, sym, ap, ◌∙◌, true, false, none, some, List, [], ◌∷◌,
  map, length, All, arith, ◌==◌, ok, err, simulator_exception, Bool-cases, inl, inr, ltb,
}
use tia_infrastructure.Prelude.Text.{Text, equal, decimal_digits}
use tia_infrastructure.Prelude.Text.Parts.{numeral, value, value_from, IsNumeral}
use tia_infrastructure.Prelude.Text.Decimal.{decimal_digits-IsNumeral, value-decimal_digits}
use tia_infrastructure.Prelude.Sort.{
  sorted_by, insert_by, sorted_by_perm, map-sorted_by, sorted_by-eq_of_perm, All-perm,
}
use tia_infrastructure.Router.{ProcessingElement}
use tia_infrastructure.System.Finalize.{
  is_digit, numbers, natural_number_sort_key, processing_element_name, check_names, element_key,
  element_names, names,
}

numbers-numeral :
    (ds : List ℕ) (a : ℕ)
    → All (λ d. d < 10) ds
    → numbers (some a) (numeral ds) ≡ value_from a ds ∷ []
numbers-numeral [] a h = refl
numbers-numeral (d ∷ ds) a (l, h) =
    let e : is_digit (48 + d) ≡ true = ground arith in
    let v : 48 + d - 48 ≡ d = omega arith in rw (e, v, numbers-numeral ds (a * 10 + d) h)

numbers-IsNumeral : (ds : List ℕ) → IsNumeral ds → numbers none (numeral ds) ≡ value ds ∷ []
numbers-IsNumeral [] h = absurd h
numbers-IsNumeral (d ∷ ds) (l, h) =
    let e : is_digit (48 + d) ≡ true = ground arith in
    let v : 48 + d - 48 ≡ d = omega arith in
    rw (e, v, numbers-numeral ds d h) (ap (λ a. value_from a ds ∷ []) (omega arith))

-- The key of an element's name is its number.
pub natural_number_sort_key-processing_element_name :
    (i : ℕ) → natural_number_sort_key (processing_element_name i) ≡ i ∷ []
natural_number_sort_key-processing_element_name i =
    numbers-IsNumeral (decimal_digits (suc i) i) (decimal_digits-IsNumeral i)
    ∙ ap (λ v. v ∷ []) (value-decimal_digits (suc i) i (omega arith))

equal_refl : (s : Text) → equal s s ≡ true
equal_refl [] = refl
equal_refl (x ∷ s) = let e : (x == x) ≡ true = ground arith in rw (e, equal_refl s)

equal→eq : (s t : Text) → equal s t ≡ true → s ≡ t
equal→eq [] [] h = refl
equal→eq [] (y ∷ t) h = cc
equal→eq (x ∷ s) [] h = cc
equal→eq (x ∷ s) (y ∷ t) h = ground (arith, equal→eq s t)

-- The check passes just for the names in their order.
pub check_names-ok :
    (i n : ℕ) (ps : List ProcessingElement)
    → names ps ≡ element_names i n
    → check_names i ps ≡ ok tt
unfolding check_names
check_names-ok i n [] e = refl
check_names-ok i zero (p ∷ ps) e = cc
check_names-ok i (suc n) (p ∷ ps) e =
    let e' : p.name ≡ processing_element_name i = cc in
    let f : names ps ≡ element_names (suc i) n = cc in
    rw (e', equal_refl (processing_element_name i), check_names-ok (suc i) n ps f)

pub ok-check_names :
    (i : ℕ) (ps : List ProcessingElement)
    → check_names i ps ≡ ok tt
    → names ps ≡ element_names i (length ps)
unfolding check_names
ok-check_names i [] e = refl
ok-check_names i (p ∷ ps) e = elim (Bool-cases (equal p.name (processing_element_name i))) [
  | inl f ↦
      let g : check_names i (p ∷ ps) ≡ check_names (suc i) ps = rw f in
      ap₂ ◌∷◌ (equal→eq p.name (processing_element_name i) f)
        (ok-check_names (suc i) ps (sym g ∙ e))
  | inr f ↦ let g : check_names i (p ∷ ps) ≡ err simulator_exception = rw f in cc
]

-- The keys of those names.
abbrev keys : ℕ → ℕ → List (List ℕ)
keys i zero = []
keys i (suc n) = (i ∷ []) ∷ keys (suc i) n

map-element_names : (i n : ℕ) → map natural_number_sort_key (element_names i n) ≡ keys i n
map-element_names i zero = refl
map-element_names i (suc n) =
    ap₂ ◌∷◌ (natural_number_sort_key-processing_element_name i) (map-element_names (suc i) n)

sorted_by-keys : (i n : ℕ) → sorted_by (λ k. k) (keys i n) ≡ keys i n
sorted_by-keys i zero = refl
sorted_by-keys i (suc zero) = refl
sorted_by-keys i (suc (suc n)) =
    let e : ltb (suc i) i ≡ false = ground arith in
    let f : ltb i (suc i) ≡ true = ground arith in
    ap (insert_by (λ k. k) (i ∷ [])) (sorted_by-keys (suc i) (suc n)) ∙ rw (e, f)

abbrev IsNumbered : Text → Type 0
IsNumbered s = (j : ℕ) × (s ≡ processing_element_name j)

element_names-IsNumbered : (i n : ℕ) → All IsNumbered (element_names i n)
element_names-IsNumbered i zero = tt
element_names-IsNumbered i (suc n) = ((i, refl), element_names-IsNumbered (suc i) n)

All-of_map :
    (P : Text → Type 0) (ps : List ProcessingElement) → All P (names ps) → All (λ p. P p.name) ps
All-of_map P [] h = tt
All-of_map P (p ∷ ps) h = (h.0, All-of_map P ps h.1)

-- Elements with numbered names have the names that their keys say.
names_of_keys :
    (i n : ℕ) (ps : List ProcessingElement)
    → All (λ p. IsNumbered p.name) ps
    → map element_key ps ≡ keys i n
    → names ps ≡ element_names i n
names_of_keys i zero [] h e = refl
names_of_keys i (suc n) [] h e = cc
names_of_keys i zero (p ∷ ps) h e = cc
names_of_keys i (suc n) (p ∷ ps) ((j, f), h) e =
    let k : element_key p ≡ j ∷ [] =
      ap natural_number_sort_key f ∙ natural_number_sort_key-processing_element_name j in
    let same : j ≡ i = cc in
    let rest : map element_key ps ≡ keys (suc i) n = cc in
    ap₂ ◌∷◌ (f ∙ ap processing_element_name same) (names_of_keys (suc i) n ps h rest)

map-names :
    (ps : List ProcessingElement) → map element_key ps ≡ map natural_number_sort_key (names ps)
map-names [] = refl
map-names (p ∷ ps) = ap (λ ks. element_key p ∷ ks) (map-names ps)

-- Elements whose names are those of `n` elements in any order are sorted into the order of the numbers.
pub names-sorted_by :
    (n : ℕ) (ps : List ProcessingElement)
    → Permᴰ (names ps) (element_names 0 n)
    → names (sorted_by element_key ps) ≡ element_names 0 n
names-sorted_by n ps p =
    names_of_keys 0 n (sorted_by element_key ps)
      (All-perm (λ p. IsNumbered p.name) (Permᴰ.symm (sorted_by_perm element_key ps))
        (All-of_map IsNumbered ps
          (All-perm IsNumbered (Permᴰ.symm p) (element_names-IsNumbered 0 n))))
      (map-sorted_by element_key ps
        ∙ ap (sorted_by (λ k. k)) (map-names ps)
        ∙ sorted_by-eq_of_perm (Permᴰ.map natural_number_sort_key p)
        ∙ ap (sorted_by (λ k. k)) (map-element_names 0 n)
        ∙ sorted_by-keys 0 n)
