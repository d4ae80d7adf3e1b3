-- ===== src/Prelude/Text.antt =====
-- Python's `str` methods and `int`, on texts of ASCII characters as lists of their code points.
pub mod Parts
pub mod Decimal
use Prim.Native.Char.{code}
use Prim.Native.String.{String}
use tia_infrastructure.Prelude.{
  ℕ, zero, suc, ◌+◌, ◌-◌, ◌*◌, Bool, true, false, ◌&&◌, ◌||◌, ◌==◌, leb, ltb, if◌then◌else◌, Option,
  none, some, List, [], ◌∷◌, ◌++◌, map, length, Result, value_error, or_raise, ◌/◌, ◌%◌,
}
use tia_infrastructure.Prelude.Int.{ℤ, pos, negsuc}

abbrev pub Text : Type 0
Text = List ℕ

abbrev pub codes : String → Text
codes String.[] = []
codes (String.◌∷◌ c s) = code c ∷ codes s

abbrev pub equal : Text → Text → Bool
equal [] [] = true
equal (x ∷ s) (y ∷ t) = (x == y) && equal s t
equal _ _ = false

-- `s.startswith(prefix)`
abbrev pub starts_with : Text → Text → Bool
starts_with [] s = true
starts_with (x ∷ prefix) [] = false
starts_with (x ∷ prefix) (y ∷ s) = (x == y) && starts_with prefix s

-- `part in s`
abbrev pub contains : Text → Text → Bool
contains part [] = starts_with part []
contains part (x ∷ s) = starts_with part (x ∷ s) || contains part s

-- `s.endswith(c)` for one character
abbrev pub ends_with : ℕ → Text → Bool
ends_with c [] = false
ends_with c (x ∷ []) = x == c
ends_with c (x ∷ y ∷ s) = ends_with c (y ∷ s)

-- `s[0:-1]`
abbrev pub drop_last : Text → Text
drop_last [] = []
drop_last (x ∷ []) = []
drop_last (x ∷ y ∷ s) = x ∷ drop_last (y ∷ s)

-- `s[n:]`
abbrev pub drop : ℕ → Text → Text
drop zero s = s
drop (suc n) [] = []
drop (suc n) (x ∷ s) = drop n s

-- The position of the first `c`, for a text that has one.
abbrev pub position : ℕ → Text → ℕ
position c [] = 0
position c (x ∷ s) = if x == c then 0 else suc (position c s)

-- What `strip` takes for white space, and what `int` does.
abbrev pub is_space : ℕ → Bool
is_space c = (leb 9 c && leb c 13) || (leb 28 c && leb c 32)

abbrev pub is_blank : ℕ → Bool
is_blank c = (leb 9 c && leb c 13) || (c == 32)

abbrev pub strip_left : (ℕ → Bool) → Text → Text
strip_left space [] = []
strip_left space (x ∷ s) = if space x then strip_left space s else x ∷ s

abbrev pub kept : (ℕ → Bool) → ℕ → Text → Text
kept space x [] = if space x then [] else x ∷ []
kept space x (y ∷ s) = x ∷ y ∷ s

abbrev pub strip_right : (ℕ → Bool) → Text → Text
strip_right space [] = []
strip_right space (x ∷ s) = kept space x (strip_right space s)

abbrev pub strip_of : (ℕ → Bool) → Text → Text
strip_of space s = strip_right space (strip_left space s)

-- `s.strip()`
abbrev pub strip : Text → Text
strip s = strip_of is_space s

-- A character goes to the first part.
abbrev pub cons_first : ℕ → List Text → List Text
cons_first x [] = (x ∷ []) ∷ []
cons_first x (part ∷ parts) = (x ∷ part) ∷ parts

-- `s.split(sep)`, with so many characters of a separator still to pass.
abbrev pub split_after : Text → ℕ → Text → List Text
split_after sep k [] = [] ∷ []
split_after sep (suc k) (x ∷ s) = split_after sep k s
split_after sep zero (x ∷ s) =
    let here = starts_with sep (x ∷ s) in
    let rest = split_after sep (if here then length sep - 1 else 0) s in
    if here then [] ∷ rest else cons_first x rest

-- `s.split(sep)`, which gives at least one part.
abbrev pub split : Text → Text → List Text
split sep s = split_after sep 0 s

-- The last part of a split.
abbrev pub last_part : List Text → Text
last_part [] = []
last_part (part ∷ []) = part
last_part (part ∷ next ∷ parts) = last_part (next ∷ parts)

-- The value of a digit in a base up to 16.
abbrev pub digit_value : ℕ → ℕ → Option ℕ
digit_value base c =
    let v =
      if leb 48 c && leb c 57
      then c - 48
      else if leb 97 c && leb c 102
      then c - 87
      else if leb 65 c && leb c 70
      then c - 55
      else 16 in
    if ltb v base then some v else none

-- One character of a number: the value so far, and whether the number may end here.
abbrev pub digit_step : ℕ → ℕ → ℕ → Bool → Option (ℕ × Bool)
digit_step base c acc done =
    if c == 95
    then (if done then some (acc, false) else none)
    else elim (digit_value base c) [ none ↦ none | some d ↦ some (acc * base + d, true) ]

abbrev pub digits : ℕ → ℕ → Bool → Text → Option ℕ
digits base acc done [] = if done then some acc else none
digits base acc done (c ∷ s) = elim (digit_step base c acc done) [
  | none ↦ none
  | some step ↦ digits base step.0 step.1 s
]

abbrev pub negate : ℕ → ℤ
negate zero = pos 0
negate (suc n) = negsuc n

abbrev unsigned : (Text → Option ℕ) → Text → Option ℤ
unsigned read s = elim (read s) [ none ↦ none | some n ↦ some (pos n) ]

abbrev signed : (Text → Option ℕ) → Text → Option ℤ
signed read [] = none
signed read (c ∷ s) =
    if c == 45
    then elim (read s) [ none ↦ none | some n ↦ some (negate n) ]
    else if c == 43
    then unsigned read s
    else unsigned read (c ∷ s)

-- After `0x`, one underscore may stand before the digits.
abbrev drop_underscore : Text → Text
drop_underscore [] = []
drop_underscore (c ∷ s) = if c == 95 then s else c ∷ s

abbrev drop_prefix : Text → Text
drop_prefix s =
    if starts_with (codes "0x") s || starts_with (codes "0X") s
    then drop_underscore (drop 2 s)
    else s

-- `int(s)` and `int(s, base=16)`
abbrev pub int : Text → Result ℤ
int s = or_raise (signed (digits 10 0 false) (strip_of is_blank s)) value_error

abbrev pub int_hexadecimal : Text → Result ℤ
int_hexadecimal s =
    or_raise (signed (λ t. digits 16 0 false (drop_prefix t)) (strip_of is_blank s)) value_error

-- The digits of a number, for `fuel` above it.
abbrev pub decimal_digits : ℕ → ℕ → List ℕ
decimal_digits zero n = []
decimal_digits (suc fuel) n =
    let front = decimal_digits fuel (n / 10) in
    if ltb n 10 then n ∷ [] else front ++ ((n % 10) ∷ [])

-- `str(n)`
abbrev pub decimal : ℕ → Text
decimal n = map (λ d. 48 + d) (decimal_digits (suc n) n)
