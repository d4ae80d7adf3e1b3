-- ===== src/Prelude/Results.antt =====
-- What a call gives: a value, or the Python exception that it raises. No caller in the simulator or
-- in the machine code builder catches one, so the state that a raise leaves behind is not kept.
use Prim.Native.Nat.{ℕ}
use mathlib.Core.Path.{◌≡◌, refl, sym, subst}
use mathlib.Core.Bool.{Bool, true, false}
use mathlib.Core.Option.{Option, none, some}
use mathlib.Core.List.{List}
use tia_infrastructure.Prelude.Lists.{get_elem?}

pub data Error : Type 0 where
  simulator_exception assembly_exception index_error key_error type_error value_error
        attribute_error parametrization_exception :
      Error

pub data Result {ℓ} (A : Type ℓ) : Type ℓ where
  ok : A → Result A
  err : Error → Result A

-- `if test: raise error`
abbrev pub raise_if : Bool → Error → Result (Unit {0})
raise_if true e = err e
raise_if false e = ok tt

abbrev pub or_raise {ℓ} : {A : Type ℓ} → Option A → Error → Result A
or_raise (some a) e = ok a
or_raise none e = err e

infixl 5 ◌>>=◌ ◌>>◌
abbrev pub ◌>>=◌ {ℓ κ} : {A : Type ℓ} {B : Type κ} → Result A → (A → Result B) → Result B
err raised >>= next = err raised
ok value >>= next = next value

abbrev pub ◌>>◌ {ℓ} : {B : Type ℓ} → Result (Unit {0}) → Result B → Result B
check >> next = check >>= λ _. next

-- `xs[i]` at an index that is not negative
abbrev pub get_item {ℓ} : {A : Type ℓ} → List A → ℕ → Result A
get_item xs i = or_raise (get_elem? xs i) index_error

-- A chain that returns: its first call returned, and the rest did on what that gave.
pub >>=-eq-ok {ℓ κ} :
    {A : Type ℓ} {B : Type κ} (call : Result A) (next : A → Result B) {result : B}
    → (call >>= next) ≡ ok result
    → (value : A) × (call ≡ ok value) × (next value ≡ ok result)
>>=-eq-ok (err raised) next returns = cc
>>=-eq-ok (ok value) next returns = (value, refl, returns)

pub ok-injective {ℓ} : {A : Type ℓ} {x y : A} → ok x ≡ ok y → x ≡ y
ok-injective same = cc

-- A call that returns a value with a property, or raises an `IndexError` for a reason.
abbrev pub Safely {ℓ} : {A : Type ℓ} → Type 0 → (A → Type 0) → Result A → Type 0
Safely R P (ok a) = P a
Safely R P (err e) = (e ≡ index_error) × R

pub Safely-bind {ℓ κ} :
    {A : Type ℓ} {B : Type κ} (R : Type 0) (P : A → Type 0) (Q : B → Type 0) (m : Result A)
    (f : A → Result B)
    → Safely R P m
    → ((a : A) → P a → Safely R Q (f a))
    → Safely R Q (m >>= f)
Safely-bind R P Q (ok a) f h k = k a h
Safely-bind R P Q (err e) f h k = h

pub Safely-map {ℓ} :
    {A : Type ℓ} {R T : Type 0} {P Q : A → Type 0} (m : Result A)
    → (R → T)
    → ((a : A) → P a → Q a)
    → Safely R P m
    → Safely T Q m
Safely-map (ok a) f g h = g a h
Safely-map (err e) f g h = (h.0, f h.1)

pub Safely-of_eq {ℓ} :
    {A : Type ℓ} (R : Type 0) (P : A → Type 0) (m : Result A)
    → ((a : A) × (m ≡ ok a) × P a)
    → Safely R P m
Safely-of_eq R P m (a, e, p) = subst (Safely R P) (sym e) p

-- Where there is no reason to raise, the call returns.
pub ok_of_Safely {ℓ} :
    {A : Type ℓ} {R : Type 0} {P : A → Type 0} (m : Result A)
    → ¬ R
    → Safely R P m
    → (a : A) × (m ≡ ok a) × P a
ok_of_Safely (ok a) n h = (a, refl, h)
ok_of_Safely (err e) n h = absurd (n h.1)

pub Safely-of_raise {ℓ} :
    {A : Type ℓ} (R : Type 0) (P : A → Type 0) (m : Result A)
    → m ≡ err index_error
    → R
    → Safely R P m
Safely-of_raise R P m e r = subst (Safely R P) (sym e) (refl, r)
