-- ===== src/Assembly/Registers/Scan.antt =====
-- The statement of a register initialization that is written out, as tools/assembly/program.py scans it.
use mathlib.Core.List.{append_assoc}
use tia_infrastructure.Prelude.{
  ℕ, ◌+◌, ◌*◌, ◌<◌, ◌≡◌, ◌≢◌, refl, sym, ap, ◌∙◌, Bool, true, false, ◌==◌, some, List, [], ◌∷◌,
  ◌++◌, All, ok, arith,
}
use tia_infrastructure.Prelude.Int.{ℤ, pos}
use tia_infrastructure.Prelude.Text.{
  Text, codes, contains, strip, strip_right, is_space, is_blank, digits, int, negate,
}
use tia_infrastructure.Prelude.Text.Parts.{
  lacks, Without-of_lacks, Without, All-append, All-numeral, numeral, value, IsNumeral, int-numeral,
  digits-cons, digits-numeral, strip-Solid,
}
use tia_infrastructure.Assembly.Program.{remove_comments}
use tia_infrastructure.Assembly.Registers.{
  is_digit, is_dash, run_of, register_index, register_data,
  extract_register_initialization_data_from_statement,
}

remove_comments-Without : (s : Text) → Without 35 s → remove_comments false s ≡ s
remove_comments-Without [] h = refl
remove_comments-Without (x ∷ s) (n, h) =
    let e : (x == 35) ≡ false = ground arith in rw (e, remove_comments-Without s h)

-- A text that ends in no white space.
strip_right-append :
    (s : Text) (c : ℕ) → is_space c ≡ false → strip_right is_space (s ++ (c ∷ [])) ≡ s ++ (c ∷ [])
strip_right-append [] c h = rw h
strip_right-append (x ∷ []) c h = rw h
strip_right-append (x ∷ y ∷ s) c h = rw (strip_right-append (y ∷ s) c h)

abbrev Ends : Text → Type 0
Ends s = (t : Text) × (c : ℕ) × (s ≡ t ++ (c ∷ [])) × (is_space c ≡ false)

Ends-append : (s t : Text) → Ends t → Ends (s ++ t)
Ends-append s t (u, c, e, h) = (s ++ u, c, ap (λ v. s ++ v) e ∙ sym (append_assoc s u (c ∷ [])), h)

strip_right-Ends : (s : Text) → Ends s → strip_right is_space s ≡ s
strip_right-Ends s (t, c, e, h) = ap (strip_right is_space) e ∙ strip_right-append t c h ∙ sym e

-- A run ends where its test fails.
run_of-append :
    (test : ℕ → Bool) (s : Text) (c : ℕ) (t : Text)
    → All (λ x. test x ≡ true) s
    → test c ≡ false
    → run_of test (s ++ (c ∷ t)) ≡ (s, c ∷ t)
run_of-append test [] c t h e = rw e
run_of-append test (x ∷ s) c t (f, h) e = rw (f, run_of-append test s c t h e)

contains-Without : (s : Text) → Without 120 s → contains (codes "0x") s ≡ false
contains-Without [] h = refl
contains-Without (x ∷ []) h = ground arith
contains-Without (x ∷ y ∷ s) (n, (m, h)) =
    let e : (120 == y) ≡ false = ground arith in
    rw (e, contains-Without (y ∷ s) (m, h)) (ground arith)

digits-IsNumeral : (ds : List ℕ) → IsNumeral ds → digits 10 0 false (numeral ds) ≡ some (value ds)
digits-IsNumeral [] h = absurd h
digits-IsNumeral (d ∷ ds) (l, h) =
    digits-cons d 0 false (numeral ds) l ∙ digits-numeral ds (0 * 10 + d) h

int-negative : (ds : List ℕ) → IsNumeral ds → int (45 ∷ numeral ds) ≡ ok (negate (value ds))
int-negative [] h = absurd h
int-negative (d ∷ ds) (l, h) =
    let solid =
      strip-Solid is_blank (45 ∷ numeral (d ∷ ds))
        (refl, All-numeral (λ x. is_blank x ≡ false) (d ∷ ds) (λ d l. ground arith) (l, h)) in
    rw (solid, digits-IsNumeral (d ∷ ds) (l, h))

IsNumeral-All : (ds : List ℕ) → IsNumeral ds → All (λ d. d < 10) ds
IsNumeral-All [] h = absurd h
IsNumeral-All (d ∷ ds) h = h

abbrev pub sign : Bool → Text
sign true = codes "-"
sign false = []

abbrev pub signed_value : Bool → ℕ → ℤ
signed_value true n = negate n
signed_value false n = pos n

sign-Without : (negative : Bool) → Without 120 (sign negative)
sign-Without true = ((λ e. omega (arith, e)), tt)
sign-Without false = tt

run_of-sign :
    (negative : Bool) (vs : List ℕ)
    → IsNumeral vs
    → run_of is_dash (sign negative ++ (numeral vs ++ (59 ∷ [])))
      ≡ (sign negative, numeral vs ++ (59 ∷ []))
run_of-sign negative [] h = absurd h
run_of-sign true (d ∷ ds) (l, h) = let e : is_dash (48 + d) ≡ false = ground arith in rw e
run_of-sign false (d ∷ ds) (l, h) = let e : is_dash (48 + d) ≡ false = ground arith in rw e

abbrev pub statement_of : List ℕ → Bool → List ℕ → Text
statement_of is negative vs =
    codes "init %r" ++ (numeral is ++ (codes ", $" ++ (sign negative ++ (numeral vs ++ codes ";"))))

int-sign :
    (negative : Bool) (vs : List ℕ)
    → IsNumeral vs
    → int (sign negative ++ numeral vs) ≡ ok (signed_value negative (value vs))
int-sign true vs h = int-negative vs h
int-sign false vs h = int-numeral vs h

module _ (is vs : List ℕ) (hi : IsNumeral is) (hv : IsNumeral vs) where
  register_index-statement :
      (rest : Text)
      → register_index (codes "init %r" ++ (numeral is ++ (44 ∷ rest))) ≡ some (numeral is, rest)
  unfolding register_index
  register_index-statement rest = by_digits is hi
    where
      by_digits :
          (is : List ℕ)
          → IsNumeral is
          → register_index (codes "init %r" ++ (numeral is ++ (44 ∷ rest)))
            ≡ some (numeral is, rest)
      by_digits [] h = absurd h
      by_digits (d ∷ ds) h =
          let e =
            run_of-append is_digit (numeral (d ∷ ds)) 44 rest
              (All-numeral (λ x. is_digit x ≡ true) (d ∷ ds) (λ d l. ground arith) h) refl in
          rw e

  register_data-statement :
      (negative : Bool)
      → register_data (codes " $" ++ (sign negative ++ (numeral vs ++ codes ";")))
        ≡ some (sign negative ++ numeral vs)
  unfolding register_data
  register_data-statement negative = rw (
    run_of-sign negative vs hv,
    run_of-append is_digit (numeral vs) 59 []
        (All-numeral (λ x. is_digit x ≡ true) vs (λ d l. ground arith) (IsNumeral-All vs hv)) refl,
  )

  -- The characters of a statement.
  All-statement :
      (P : ℕ → Type 0) (negative : Bool)
      → All P (codes "init %r")
      → All P (codes ", $")
      → All P (codes "-")
      → All P (codes ";")
      → ((d : ℕ) → d < 10 → P (48 + d))
      → All P (statement_of is negative vs)
  All-statement P negative a b c e f = All-append P (codes "init %r") _ a (
      All-append P (numeral is) _ (All-numeral P is f (IsNumeral-All is hi)) (
        All-append P (codes ", $") _ b (
          All-append P (sign negative) _ (minus negative)
            (All-append P (numeral vs) (codes ";") (All-numeral P vs f (IsNumeral-All vs hv)) e))))
    where
      minus : (negative : Bool) → All P (sign negative)
      minus true = c
      minus false = tt

  pub statement-Without :
      (c : ℕ) (negative : Bool)
      → lacks c (codes "init %r") ≡ true
      → lacks c (codes ", $") ≡ true
      → lacks c (codes "-") ≡ true
      → lacks c (codes ";") ≡ true
      → ((d : ℕ) → d < 10 → 48 + d ≢ c)
      → Without c (statement_of is negative vs)
  statement-Without c negative h k l m f =
      All-statement (λ x. x ≢ c) negative (Without-of_lacks c (codes "init %r") h)
        (Without-of_lacks c (codes ", $") k) (Without-of_lacks c (codes "-") l)
        (Without-of_lacks c (codes ";") m) f

  -- A statement has no white space around it.
  pub strip-statement :
      (negative : Bool) → strip (statement_of is negative vs) ≡ statement_of is negative vs
  strip-statement negative = strip_right-Ends (statement_of is negative vs) (
      Ends-append (codes "init %r") _ (
        Ends-append (numeral is) _ (
          Ends-append (codes ", $") _ (
            Ends-append (sign negative) _
              (Ends-append (numeral vs) (codes ";") ([], 59, refl, refl))))))

  statement-stripped :
      (negative : Bool)
      → strip (remove_comments false (statement_of is negative vs)) ≡ statement_of is negative vs
  statement-stripped negative =
      ap strip (
        remove_comments-Without (statement_of is negative vs)
          (statement-Without 35 negative refl refl refl refl (λ d l e. omega (arith, e))))
      ∙ strip-statement negative

  pub extract-statement :
      (negative : Bool)
      → extract_register_initialization_data_from_statement (statement_of is negative vs)
        ≡ ok (value is, signed_value negative (value vs))
  unfolding extract_register_initialization_data_from_statement
  extract-statement negative =
      let no_prefix : contains (codes "0x") (sign negative ++ numeral vs) ≡ false =
        contains-Without (sign negative ++ numeral vs) (
          All-append (λ x. x ≢ 120) (sign negative) (numeral vs) (sign-Without negative)
            (All-numeral (λ x. x ≢ 120) vs (λ d l e. omega (arith, e)) (IsNumeral-All vs hv))) in
      rw (
        statement-stripped negative,
        register_index-statement (codes " $" ++ (sign negative ++ (numeral vs ++ codes ";"))),
        digits-IsNumeral is hi,
        register_data-statement negative,
        no_prefix,
        int-sign negative vs hv,
      )
