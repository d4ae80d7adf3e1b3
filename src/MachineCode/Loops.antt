-- ===== src/MachineCode/Loops.antt =====
-- tools/assembly/machine_code.py: the loops and the checks that its builders share.
use Prim.Native.Nat.{bit_and, bit_or}
use tia_infrastructure.Prelude.{
  ℕ, zero, suc, Bool, true, false, not, ◌==◌, ltb, if◌then◌else◌, Option, none, some, List, [], ◌∷◌,
  ◌++◌, Result, ok, assembly_exception, ◌>>=◌, ◌>>◌, raise_if,
}
use tia_infrastructure.Prelude.Int.{ℤ, pos, negsuc}
use tia_infrastructure.Prelude.Bits.{◌<<<◌}
use tia_infrastructure.Prelude.Fields.{bit_length}
use tia_infrastructure.Isa.Numpy.{Numpy}

-- `if field.bit_length() > width: raise AssemblyException`, and then the field
abbrev pub checked : ℕ → ℕ → Result ℕ
checked width field = raise_if (ltb width (bit_length field)) assembly_exception >> ok field

abbrev pub reverse {ℓ} : {A : Type ℓ} → List A → List A
reverse [] = []
reverse (x ∷ xs) = reverse xs ++ (x ∷ [])

-- The loop that ORs in a bit for each predicate.
abbrev pub or_predicates : ℕ → ℕ → List ℕ → Result ℕ
or_predicates num mask [] = ok mask
or_predicates num mask (p ∷ ps) =
    let rest = or_predicates num (bit_or mask (1 <<< p)) ps in
    raise_if (ltb num p) assembly_exception >> rest

-- `for i, x in enumerate(xs): word |= x; if i != count - 1: word <<= width`, from `i` on
abbrev pub concatenate : ℕ → ℕ → ℕ → ℕ → List ℕ → ℕ
concatenate width count i word [] = word
concatenate width count i word (x ∷ xs) =
    let word' = bit_or word x in
    concatenate width count (suc i) (if suc i == count then word' else word' <<< width) xs

-- The first three values, the third in the highest place; one that is missing leaves zeros.
abbrev pub three_slots : ℕ → List ℕ → ℕ
three_slots w [] = ((0 <<< w) <<< w)
three_slots w (x ∷ []) = bit_or ((0 <<< w) <<< w) x
three_slots w (x ∷ y ∷ []) = bit_or (bit_or (0 <<< w) y <<< w) x
three_slots w (x ∷ y ∷ z ∷ _) = bit_or (bit_or (bit_or 0 z <<< w) y <<< w) x

-- `x if x is not None else 0`
abbrev pub or_zero : Option ℕ → ℕ
or_zero none = 0
or_zero (some x) = x

-- `x in xs`
abbrev pub contains : List ℕ → ℕ → Bool
contains [] x = false
contains (y ∷ ys) x = if y == x then true else contains ys x

-- The loop over `reversed(range(n))` that ORs in a one for each index of `xs`.
abbrev pub or_members : List ℕ → ℕ → ℕ → ℕ
or_members xs zero mask = mask
or_members xs (suc k) mask =
    let mask' = if contains xs k then bit_or mask 1 else mask in
    or_members xs k (if k == 0 then mask' else mask' <<< 1)

abbrev same : Bool → Bool → Bool
same true v = v
same false v = not v

-- The loop over the predicate updates, for those whose value is `b`.
abbrev pub or_updates : Bool → ℕ → ℕ → List ℕ → List Bool → Result ℕ
or_updates b num mask (p ∷ ps) (v ∷ vs) =
    let rest = or_updates b num (if same b v then bit_or mask (1 <<< p) else mask) ps vs in
    raise_if (ltb num p) assembly_exception >> rest
or_updates b num mask _ _ = ok mask

-- The loop that builds a mask of ones.
abbrev pub ones : ℕ → ℕ → ℕ
ones zero mask = mask
ones (suc k) mask = let mask' = bit_or mask 1 in ones k (if k == 0 then mask' else mask' <<< 1)

-- `x.bit_length()` on Python's integers is that of the magnitude.
abbrev pub magnitude : ℤ → ℕ
magnitude (pos n) = n
magnitude (negsuc n) = suc n

-- `int(np.uint32(x)) & mask` for a mask of `width` ones
abbrev pub masked : Numpy → ℕ → ℤ → ℕ
masked np width x = bit_and (np.uint32 x) (ones width 0)

abbrev pub immediate_field : Numpy → ℕ → Option ℤ → Result ℕ
immediate_field np width none = ok 0
immediate_field np width (some x) =
    raise_if (ltb width (bit_length (magnitude x))) assembly_exception >> ok (masked np width x)

-- `code <<= width; code |= field`
abbrev pub append_field : ℕ → ℕ → Result ℕ → Result ℕ
append_field code width field = field >>= λ x. ok (bit_or (code <<< width) x)
