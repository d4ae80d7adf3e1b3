-- ===== src/Assembly.antt =====
-- tools/assembly/instruction.py: the text of an assembly instruction and the objects that it is
-- read into. A text is a list of ASCII code points. The indices, tags and immediates are what `int`
-- reads, so any integer: nothing in the source refuses a negative one.
pub mod Predicates
pub mod Trigger
pub mod Fields
pub mod Datapath
pub mod Build
pub mod Program
pub mod Registers
pub mod Labels
pub mod Macros
use tia_infrastructure.Prelude.{
  Bool, true, false, Option, none, some, List, [], ◌∷◌, Result, ok, err, assembly_exception,
  value_error, ◌>>=◌,
}
use tia_infrastructure.Prelude.Int.{ℤ}
use tia_infrastructure.Prelude.Text.{Text, strip}

-- A loop that converts each item, and raises where a conversion does.
abbrev pub each {ℓ κ} : {A : Type ℓ} {B : Type κ} → (A → Result B) → List A → Result (List B)
each f [] = ok []
each f (x ∷ xs) = f x >>= λ y. each f xs >>= λ ys. ok (y ∷ ys)

abbrev pub strip_each : List Text → List Text
strip_each [] = []
strip_each (s ∷ ss) = strip s ∷ strip_each ss

-- `except ValueError: raise AssemblyException(...)`
abbrev pub refuse_value : Result ℤ → Result ℤ
refuse_value (err value_error) = err assembly_exception
refuse_value r = r
