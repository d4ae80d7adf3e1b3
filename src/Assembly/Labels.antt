-- ===== src/Assembly/Labels.antt =====
-- tools/assembly/program.py: the split of a program at its labels, one for each processing element.
-- The scans pass over the characters of a match by a count.
pub mod Written
use tia_infrastructure.Prelude.{
  ℕ, zero, suc, ◌+◌, ◌==◌, if◌then◌else◌, Option, none, some, List, [], ◌∷◌, length,
}
use tia_infrastructure.Prelude.Text.{Text, codes, split}

-- `(.*?)>`: the characters before the next `>` of the line.
abbrev pub label : Text → Option Text
label [] = none
label (c ∷ s) =
    let rest = label s in
    if c == b'>'
    then some []
    else if c == 10
    then none
    else elim rest [ none ↦ none | some l ↦ some (c ∷ l) ]

-- `re.findall(r"<(.*?)>", s)`
unfoldable pub find_labels : ℕ → Text → List Text
find_labels k [] = []
find_labels (suc k) (c ∷ s) = find_labels k s
find_labels zero (c ∷ s) = elim (if c == b'<' then label s else none) [
  | none ↦ find_labels zero s
  | some l ↦ l ∷ find_labels (suc (length l)) s
]

-- `.*>`: how many characters there are up to the last `>` of the line.
abbrev pub last_close : Text → Option ℕ
last_close [] = none
last_close (c ∷ s) =
    let rest = last_close s in
    if c == 10
    then none
    else elim rest [ some n ↦ some (suc n) | none ↦ if c == b'>' then some 1 else none ]

-- `re.sub(r"<.*>", "<>", s)`
unfoldable pub replace_labels : ℕ → Text → Text
replace_labels k [] = []
replace_labels (suc k) (c ∷ s) = replace_labels k s
replace_labels zero (c ∷ s) = elim (if c == b'<' then last_close s else none) [
  | none ↦ c ∷ replace_labels zero s
  | some n ↦ b'<' ∷ b'>' ∷ replace_labels n s
]

-- `del strings[0]` of a split, which has one part at least.
abbrev pub tail : List Text → List Text
tail [] = []
tail (s ∷ ss) = ss

-- `list(zip(labels, strings))`
abbrev pub zip : List Text → List Text → List (Text × Text)
zip (l ∷ ls) (s ∷ ss) = (l, s) ∷ zip ls ss
zip _ _ = []

unfoldable pub split_program_by_processing_element_label : Text → List (Text × Text)
unfolding find_labels replace_labels
split_program_by_processing_element_label s =
    zip (find_labels 0 s) (tail (split (codes "<>") (replace_labels 0 s)))
