-- ===== src/Assembly/Predicates.antt =====
-- The predicate strings of tools/assembly/instruction.py, for a trigger and for an update.
pub mod Marks
pub mod Pairs
pub mod Updates
use mathlib.Core.List.{reverse}
use tia_infrastructure.Prelude.{
  ℕ, suc, Bool, true, false, not, ◌&&◌, ◌||◌, ◌==◌, leb, ltb, if◌then◌else◌, List, [], ◌∷◌, ◌++◌,
  map, Result, ok, err, assembly_exception, ◌>>=◌,
}
use tia_infrastructure.Prelude.Text.{Text}

-- `c.isalpha()`
abbrev pub is_alpha : ℕ → Bool
is_alpha c = (leb 65 c && leb c 90) || (leb 97 c && leb c 122)

abbrev pub is_x : ℕ → Bool
is_x c = (c == b'X') || (c == b'x')

abbrev pub is_x_or_z : ℕ → Bool
is_x_or_z c = (c == b'X') || (c == b'x') || (c == b'Z') || (c == b'z')

-- The body of the loop, with the enumeration index and what the later characters give; the first
-- test is that of a character to pass over.
abbrev pub read_one : (ℕ → Bool) → ℕ → ℕ → Result (List ℕ × List ℕ) → Result (List ℕ × List ℕ)
read_one skips i c rest =
    if is_alpha c
    then (if skips c then rest else err assembly_exception)
    else if c == b'0'
    then (rest >>= λ r. ok (r.0, i ∷ r.1))
    else if c == b'1'
    then (rest >>= λ r. ok (i ∷ r.0, r.1))
    else err assembly_exception

unfoldable pub read_predicates : (ℕ → Bool) → ℕ → Text → Result (List ℕ × List ℕ)
read_predicates skips i [] = ok ([], [])
read_predicates skips i (c ∷ cs) = read_one skips i c (read_predicates skips (suc i) cs)

-- `Trigger.parse_predicate_bin_string` and `Instruction.parse_predicate_bin_string`
unfoldable pub trigger_parse_predicate_bin_string : Text → Result (List ℕ × List ℕ)
trigger_parse_predicate_bin_string s = read_predicates is_x 0 (reverse s)

unfoldable pub parse_predicate_bin_string : Text → Result (List ℕ × List ℕ)
parse_predicate_bin_string s = read_predicates is_x_or_z 0 (reverse s)

-- `predicate in predicates`
abbrev pub member : ℕ → List ℕ → Bool
member p [] = false
member p (q ∷ qs) = (p == q) || member p qs

-- The update pairs for the predicates of the first list that are not in the second.
abbrev pub changes : Bool → List ℕ → List ℕ → List (ℕ × Bool)
changes v [] old = []
changes v (p ∷ ps) old = let rest = changes v ps old in if member p old then rest else (p, v) ∷ rest

-- `sorted(..., key=lambda t: t[0])`, which is stable.
abbrev pub insert : ℕ × Bool → List (ℕ × Bool) → List (ℕ × Bool)
insert u [] = u ∷ []
insert u (v ∷ vs) = if leb u.0 v.0 then u ∷ v ∷ vs else v ∷ insert u vs

abbrev pub sorted : List (ℕ × Bool) → List (ℕ × Bool)
sorted [] = []
sorted (u ∷ us) = insert u (sorted us)

unfoldable pub determine_predicates_to_update : Text → Text → Result (List ℕ × List Bool)
determine_predicates_to_update original desired = do
  (original_true, original_false) ← parse_predicate_bin_string original
  (desired_true, desired_false) ← parse_predicate_bin_string desired
  let updates =
      sorted (changes true desired_true original_true ++ changes false desired_false original_false)
  ok (map (λ u. u.0) updates, map (λ u. u.1) updates)
