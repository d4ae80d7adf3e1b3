-- ===== src/Assembly/Macros.antt =====
-- tools/assembly/program.py: the macros of a program, which are replaced by their values from the
-- longest to the shortest. The values are given as `str` writes them.
pub mod Replace
pub mod Whole
use tia_infrastructure.Prelude.{
  ℕ, zero, suc, ◌-◌, ltb, if◌then◌else◌, List, [], ◌∷◌, ◌++◌, length, true, false,
}
use tia_infrastructure.Prelude.Text.{Text, starts_with}

-- `s.replace(old, new)`, with so many characters of a match still to pass.
unfoldable pub replace_after : Text → Text → ℕ → Text → Text
replace_after old new k [] = []
replace_after old new (suc k) (c ∷ s) = replace_after old new k s
replace_after old new zero (c ∷ s) = elim (starts_with old (c ∷ s)) [
  | true ↦ new ++ replace_after old new (length old - 1) s
  | false ↦ c ∷ replace_after old new zero s
]

-- The replacement of the empty text, which is before and after every character.
abbrev pub interleave : Text → Text → Text
interleave new [] = new
interleave new (c ∷ s) = new ++ (c ∷ interleave new s)

abbrev pub replace : Text → Text → Text → Text
replace [] new s = interleave new s
replace (c ∷ old) new s = replace_after (c ∷ old) new zero s

-- `sorted(macros, key=lambda m: -len(m))`
abbrev pub insert_macro : Text × Text → List (Text × Text) → List (Text × Text)
insert_macro m [] = m ∷ []
insert_macro m (n ∷ ns) =
    let rest = insert_macro m ns in if ltb (length m.0) (length n.0) then n ∷ rest else m ∷ n ∷ ns

abbrev pub sort_macros : List (Text × Text) → List (Text × Text)
sort_macros [] = []
sort_macros (m ∷ ms) = insert_macro m (sort_macros ms)

-- "Replace all the macros with their values."
unfoldable pub replace_all : List (Text × Text) → Text → Text
unfolding replace_after
replace_all [] s = s
replace_all (m ∷ ms) s = replace_all ms (replace m.0 m.1 s)

unfoldable pub apply_macros : List (Text × Text) → Text → Text
unfolding replace_all
apply_macros ms s = replace_all (sort_macros ms) s
