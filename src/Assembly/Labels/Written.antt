-- ===== src/Assembly/Labels/Written.antt =====
-- A program that is written with a label for each processing element splits at its labels.
use mathlib.Core.List.{append-nil}
use tia_infrastructure.Prelude.{
  ℕ, suc, ◌≡◌, refl, ap, ◌∙◌, false, ◌==◌, Option, none, some, List, [], ◌∷◌, ◌++◌, map, length,
  All, arith, if◌then◌else◌,
}
use tia_infrastructure.Prelude.Text.{Text, codes, split}
use tia_infrastructure.Prelude.Text.Parts.{Without}
use tia_infrastructure.Assembly.Labels.{
  label, find_labels, last_close, replace_labels, zip, split_program_by_processing_element_label,
}

-- One step of each scan.
find_labels-cons :
    (c : ℕ) (s : Text) (o : Option Text)
    → (if c == 60 then label s else none) ≡ o
    → find_labels 0 (c ∷ s) ≡ elim o as (λ _. List Text) [
      | none ↦ find_labels 0 s
      | some l ↦ l ∷ find_labels (suc (length l)) s
    ]
unfolding find_labels
find_labels-cons c s o e =
    ap
      (λ (o : Option Text). elim o as (λ _. List Text) [
        | none ↦ find_labels 0 s
        | some l ↦ l ∷ find_labels (suc (length l)) s
      ])
      e

replace_labels-cons :
    (c : ℕ) (s : Text) (o : Option ℕ)
    → (if c == 60 then last_close s else none) ≡ o
    → replace_labels 0 (c ∷ s) ≡ elim o as (λ _. Text) [
      | none ↦ c ∷ replace_labels 0 s
      | some n ↦ 60 ∷ 62 ∷ replace_labels n s
    ]
unfolding replace_labels
replace_labels-cons c s o e =
    ap
      (λ (o : Option ℕ). elim o as (λ _. Text) [
        | none ↦ c ∷ replace_labels 0 s
        | some n ↦ 60 ∷ 62 ∷ replace_labels n s
      ])
      e

find_labels-Without : (s t : Text) → Without 60 s → find_labels 0 (s ++ t) ≡ find_labels 0 t
unfolding find_labels
find_labels-Without [] t h = refl
find_labels-Without (c ∷ s) t (n, h) =
    let e : (c == 60) ≡ false = ground arith in
    find_labels-cons c (s ++ t) none (rw e) ∙ find_labels-Without s t h

label-append : (l t : Text) → Without 62 l → Without 10 l → label (l ++ (62 ∷ t)) ≡ some l
label-append [] t h k = refl
label-append (c ∷ l) t (n, h) (m, k) =
    let e : (c == 62) ≡ false = ground arith in
    let f : (c == 10) ≡ false = ground arith in rw (e, f, label-append l t h k)

find_labels-skip :
    (l : Text) (c : ℕ) (t : Text) → find_labels (suc (length l)) (l ++ (c ∷ t)) ≡ find_labels 0 t
unfolding find_labels
find_labels-skip [] c t = refl
find_labels-skip (x ∷ l) c t = find_labels-skip l c t

replace_labels-Without :
    (s t : Text) → Without 60 s → replace_labels 0 (s ++ t) ≡ s ++ replace_labels 0 t
unfolding replace_labels
replace_labels-Without [] t h = refl
replace_labels-Without (c ∷ s) t (n, h) =
    let e : (c == 60) ≡ false = ground arith in
    replace_labels-cons c (s ++ t) none (rw e) ∙ ap (λ u. c ∷ u) (replace_labels-Without s t h)

last_close-append :
    (l t : Text) → Without 10 l → last_close (l ++ (62 ∷ 10 ∷ t)) ≡ some (suc (length l))
last_close-append [] t h = refl
last_close-append (c ∷ l) t (n, h) =
    let e : (c == 10) ≡ false = ground arith in rw (e, last_close-append l t h)

replace_labels-skip :
    (l : Text) (c : ℕ) (t : Text)
    → replace_labels (suc (length l)) (l ++ (c ∷ t)) ≡ replace_labels 0 t
unfolding replace_labels
replace_labels-skip [] c t = refl
replace_labels-skip (x ∷ l) c t = replace_labels-skip l c t

split_labels-Without : (s : Text) → Without 60 s → split (codes "<>") s ≡ s ∷ []
split_labels-Without [] h = refl
split_labels-Without (c ∷ s) (n, h) =
    let e : (60 == c) ≡ false = ground arith in rw (e, split_labels-Without s h)

split_labels-append :
    (s t : Text) → Without 60 s → split (codes "<>") (s ++ (60 ∷ 62 ∷ t)) ≡ s ∷ split (codes "<>") t
split_labels-append [] t h = refl
split_labels-append (c ∷ s) t (n, h) =
    let e : (60 == c) ≡ false = ground arith in rw (e, split_labels-append s t h)

-- The program of a processing element: a label alone on its line, and the lines after it.
pub record Part : Type 0 where
  pub label : Text
  pub lines : Text

-- The label has no end of line and no `>`, and the lines have no `<`.
pub record IsPart (p : Part) : Type 0 where
  pub one_line : Without 10 p.label
  pub no_close : Without 62 p.label
  pub no_open : Without 60 p.lines

abbrev pub written : List Part → Text
written [] = []
written (p ∷ ps) = 60 ∷ (p.label ++ (62 ∷ 10 ∷ (p.lines ++ written ps)))

abbrev replaced : List Part → Text
replaced [] = []
replaced (p ∷ ps) = 60 ∷ 62 ∷ 10 ∷ (p.lines ++ replaced ps)

abbrev labels : List Part → List Text
labels ps = map (λ (p : Part). p.label) ps

find_labels-written : (ps : List Part) → All IsPart ps → find_labels 0 (written ps) ≡ labels ps
unfolding find_labels
find_labels-written [] h = refl
find_labels-written (p ∷ ps) (f, h) =
    find_labels-cons 60 (p.label ++ (62 ∷ 10 ∷ (p.lines ++ written ps))) (some p.label)
      (label-append p.label (10 ∷ (p.lines ++ written ps)) f.no_close f.one_line)
    ∙ (ap (λ ls. p.label ∷ ls)
        (find_labels-skip p.label 62 (10 ∷ (p.lines ++ written ps))
          ∙ find_labels-Without p.lines (written ps) f.no_open
          ∙ find_labels-written ps h))

replace_labels-written :
    (ps : List Part) → All IsPart ps → replace_labels 0 (written ps) ≡ replaced ps
unfolding replace_labels
replace_labels-written [] h = refl
replace_labels-written (p ∷ ps) (f, h) =
    replace_labels-cons 60 (p.label ++ (62 ∷ 10 ∷ (p.lines ++ written ps)))
      (some (suc (length p.label))) (last_close-append p.label (p.lines ++ written ps) f.one_line)
    ∙ (ap (λ s. 60 ∷ 62 ∷ s)
        (replace_labels-skip p.label 62 (10 ∷ (p.lines ++ written ps))
          ∙ ap (λ s. 10 ∷ s)
              (replace_labels-Without p.lines (written ps) f.no_open
                ∙ ap (λ s. p.lines ++ s) (replace_labels-written ps h))))

split-replaced :
    (s : Text) (ps : List Part)
    → Without 60 s
    → All IsPart ps
    → split (codes "<>") (s ++ replaced ps) ≡ s ∷ map (λ (p : Part). 10 ∷ p.lines) ps
split-replaced s [] n h = rw append-nil (split_labels-Without s n)
split-replaced s (p ∷ ps) n (f, h) =
    split_labels-append s (10 ∷ (p.lines ++ replaced ps)) n
    ∙ ap (λ ss. s ∷ ss) (split-replaced (10 ∷ p.lines) ps ((λ e. omega (arith, e)), f.no_open) h)

zip-map :
    (ps : List Part)
    → zip (labels ps) (map (λ (p : Part). 10 ∷ p.lines) ps)
      ≡ map (λ (p : Part). (p.label, 10 ∷ p.lines)) ps
zip-map [] = refl
zip-map (p ∷ ps) = ap (λ ss. (p.label, 10 ∷ p.lines) ∷ ss) (zip-map ps)

-- A program that has, after a beginning without `<`, parts that each stand under a label of their own
-- line, splits into these labels and the lines under them.
pub split-written :
    (s : Text) (ps : List Part)
    → Without 60 s
    → All IsPart ps
    → split_program_by_processing_element_label (s ++ written ps)
      ≡ map (λ (p : Part). (p.label, 10 ∷ p.lines)) ps
unfolding split_program_by_processing_element_label
split-written s ps n h =
    rw
      (
        find_labels-Without s (written ps) n,
        find_labels-written ps h,
        replace_labels-Without s (written ps) n,
        replace_labels-written ps h,
        split-replaced s ps n h,
      )
      (zip-map ps)
