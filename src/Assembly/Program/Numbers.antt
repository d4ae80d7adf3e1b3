-- ===== src/Assembly/Program/Numbers.antt =====
-- The instructions of a program that is read: complete, and numbered in order.
use tia_infrastructure.Prelude.{
  ℕ, suc, ◌≡◌, ◌⊎◌, refl, inl, inr, Bool, true, false, Option, none, some, List, [], ◌∷◌, Result,
  ok, err, assembly_exception, index_error, ◌>>=◌, if◌then◌else◌,
}
use tia_infrastructure.Prelude.Text.{Text, codes, equal, ends_with, contains, strip, split}
use tia_infrastructure.Isa.{Op}
use tia_infrastructure.Assembly.Build.{Instruction, from_string}
use tia_infrastructure.Assembly.Build.Destination.{IsComplete}
use tia_infrastructure.Assembly.Build.Shape.{from_string-IsComplete}
use tia_infrastructure.Assembly.Program.{
  remove_comments, instruction_strings, refuse_any, build_instructions,
  convert_processing_element_instructions_string_to_instructions,
}

-- Complete instructions, numbered from `n`.
abbrev pub Numbered : ℕ → List (ℕ × Instruction) → Type 0
Numbered n [] = Unit
Numbered n ((k, i) ∷ is) = (k ≡ n) × IsComplete i × Numbered (suc n) is

-- A call that returns a value with a property, or raises one of two exceptions.
abbrev pub Raises {ℓ} : {A : Type ℓ} → (A → Type 0) → Result A → Type 0
Raises P (ok a) = P a
Raises P (err e) = (e ≡ assembly_exception) ⊎ (e ≡ index_error)

pub Raises-bind {ℓ κ} :
    {A : Type ℓ} {B : Type κ} (P : A → Type 0) (Q : B → Type 0) (m : Result A) (f : A → Result B)
    → Raises P m
    → ((a : A) → P a → Raises Q (f a))
    → Raises Q (m >>= f)
Raises-bind P Q (ok a) f h k = k a h
Raises-bind P Q (err e) f h k = h

instruction_strings-Raises :
    (o : Option Text) (ls : List Text) → Raises (λ ss. Unit {0}) (instruction_strings o ls)
unfolding instruction_strings
instruction_strings-Raises none [] = tt
instruction_strings-Raises (some l) [] = inr refl
instruction_strings-Raises (some l) (m ∷ ls) =
    Raises-bind (λ ss. Unit) (λ ss. Unit) (instruction_strings none ls) _
      (instruction_strings-Raises none ls) λ ss h. tt
instruction_strings-Raises none (l ∷ ls) =
    by_line (equal (strip l) []) (ends_with b':' (strip l)) (contains (codes ":") (strip l))
      (instruction_strings (if ends_with b':' (strip l) then some l else none) ls)
      (instruction_strings-Raises (if ends_with b':' (strip l) then some l else none) ls)
  where
    by_line :
        (empty waits colon : Bool) (rest : Result (List Text))
        → Raises (λ ss. Unit {0}) rest
        → Raises
            (λ ss. Unit {0})
            (if empty
              then rest
              else if waits
              then rest
              else if colon
              then (rest >>= λ ss. ok (l ∷ ss))
              else err assembly_exception)
    by_line true waits colon rest h = h
    by_line false true colon rest h = h
    by_line false false true rest h =
        Raises-bind (λ ss. Unit) (λ ss. Unit) rest (λ ss. ok (l ∷ ss)) h λ ss k. tt
    by_line false false false rest h = inl refl

refuse_any-Raises :
    (eval_op : Text → Result Op) (s : Text) → Raises IsComplete (refuse_any (from_string eval_op s))
refuse_any-Raises eval_op s = by_result (from_string eval_op s) refl
  where
    by_result :
        (m : Result Instruction) → from_string eval_op s ≡ m → Raises IsComplete (refuse_any m)
    by_result (ok i) e = from_string-IsComplete eval_op s e
    by_result (err x) e = inl refl

build_instructions-Raises :
    (eval_op : Text → Result Op) (n : ℕ) (ss : List Text)
    → Raises (Numbered n) (build_instructions eval_op n ss)
unfolding build_instructions
build_instructions-Raises eval_op n [] = tt
build_instructions-Raises eval_op n (s ∷ ss) =
    Raises-bind IsComplete (Numbered n) (refuse_any (from_string eval_op s)) _
      (refuse_any-Raises eval_op s)
      λ i c.
        Raises-bind (Numbered (suc n)) (Numbered n) (build_instructions eval_op (suc n) ss) _
          (build_instructions-Raises eval_op (suc n) ss) λ is h. (refl, c, h)

-- Whatever the text, reading the instructions of a program gives instructions that are complete and
-- numbered from 0 in their order, or raises an AssemblyException or an IndexError.
pub convert-Numbered :
    (eval_op : Text → Result Op) (s : Text)
    → Raises (Numbered 0) (convert_processing_element_instructions_string_to_instructions eval_op s)
unfolding convert_processing_element_instructions_string_to_instructions
convert-Numbered eval_op s =
    Raises-bind (λ ss. Unit) (Numbered 0)
      (instruction_strings none (split (codes "\n") (remove_comments false s))) _
      (instruction_strings-Raises none (split (codes "\n") (remove_comments false s)))
      λ ss h. build_instructions-Raises eval_op 0 ss
