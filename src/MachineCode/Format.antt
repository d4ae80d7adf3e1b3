-- ===== src/MachineCode/Format.antt =====
-- The validation of the instruction format, tools/parameters/core_parameters.py, and the words that
-- tools/assembly/machine_code.py builds.
use tia_infrastructure.Prelude.{
  ℕ, ◌+◌, ◌≤◌, ◌≡◌, ◌≢◌, ◌↔◌, ◌⊎◌, refl, inl, inr, true, false, ltb, [], ◌∷◌, All, Bool-cases, ok,
  err, parametrization_exception, arith, ltb→lt,
}
use tia_infrastructure.Prelude.Text.{Text}
use tia_infrastructure.Parameters
use tia_infrastructure.Parameters.{CoreParameters, IsCeilLog2}
use tia_infrastructure.Parameters.Dictionary.{Value, Dictionary, is_null, check_set}
use tia_infrastructure.Parameters.Validate.{
  sum, non_immediate_instruction_field_bit_counts, validate_instruction_format,
}
use tia_infrastructure.Isa.{Instruction}
use tia_infrastructure.Isa.Numpy.{Numpy}
use tia_infrastructure.MachineCode.Program.{build_machine_code_instruction}
use tia_infrastructure.MachineCode.Word.{build_machine_code_instruction-IsWide}

-- Every attribute has a value.
abbrev pub HasValues : Dictionary → Type 0
HasValues a = All (λ (e : Text × Value). e.1 ≢ Value.null) a

is_null_lem : (v : Value) → (is_null v ≡ true) ⊎ ((is_null v ≡ false) × (v ≢ Value.null))
is_null_lem Value.null = inl refl
is_null_lem (Value.integer n) = inr (refl, λ e. cc)
is_null_lem (Value.boolean b) = inr (refl, λ e. cc)
is_null_lem (Value.text t) = inr (refl, λ e. cc)

check_set_cases :
    (a : Dictionary)
    → ((check_set a ≡ ok tt) × HasValues a)
      ⊎ ((check_set a ≡ err parametrization_exception) × ¬ (HasValues a))
unfolding check_set
check_set_cases [] = inl (refl, tt)
check_set_cases ((k, v) ∷ a) = elim (is_null_lem v) [
  | inl e ↦ inr (rw e, λ h. null_lem v e h.0)
  | inr (e, n) ↦ elim (check_set_cases a) [
    | inl (f, h) ↦ inl (rw (e, f), (n, h))
    | inr (f, h) ↦ inr (rw (e, f), λ g. h g.1)
  ]
]
  where
    null_lem : (v : Value) → is_null v ≡ true → ¬ (v ≢ Value.null)
    null_lem Value.null e h = h refl
    null_lem (Value.integer n) e h = cc
    null_lem (Value.boolean b) e h = cc
    null_lem (Value.text t) e h = cc

-- The validation's own list of widths adds up to the derived width of the instruction.
widths_lem :
    (cp : CoreParameters)
    → sum (non_immediate_instruction_field_bit_counts cp) + cp.immediate_width
      ≡ Parameters.phy_instruction_width cp
widths_lem cp = omega arith

pub validate_instruction_format_iff :
    (a : Dictionary) (cp : CoreParameters)
    → ((validate_instruction_format a cp ≡ ok tt)
        ↔ (HasValues a × (Parameters.phy_instruction_width cp ≤ cp.mm_instruction_width)))
      × ((validate_instruction_format a cp ≡ ok tt)
          ⊎ (validate_instruction_format a cp ≡ err parametrization_exception))
unfolding validate_instruction_format
validate_instruction_format_iff a cp =
    let used = sum (non_immediate_instruction_field_bit_counts cp) + cp.immediate_width in
    let w = Parameters.phy_instruction_width cp in
    let same : used ≡ w = widths_lem cp in
    let again : ltb w used ≡ false = ground (arith, same) in
    elim (check_set_cases a) [
      | inr (e, n) ↦
          let raised : validate_instruction_format a cp ≡ err parametrization_exception = rw e in
          ((λ h. cc, λ h. absurd (n h.0)), inr raised)
      | inl (e, s) ↦ elim (Bool-cases (ltb cp.mm_instruction_width used)) [
        | inl f ↦
            let raised : validate_instruction_format a cp ≡ err parametrization_exception =
              rw (e, f) in
            let l = ltb→lt cp.mm_instruction_width used f in
            ((λ h. cc, λ h. absurd (omega (arith, l, same, h.1))), inr raised)
        | inr f ↦
            let accepted : validate_instruction_format a cp ≡ ok tt = rw (e, f, again) in
            let l : w ≤ cp.mm_instruction_width = ground (arith, f, same) in
            ((λ h. (s, l), λ h. accepted), inl accepted)
      ]
    ]

-- Given that the logarithm gives enough bits: where any instruction is built and every attribute has a
-- value, the validation accepts the format.
pub validate-of_build :
    (np : Numpy) (a : Dictionary) (cp : CoreParameters) (i : Instruction) (code : ℕ)
    → IsCeilLog2 cp.ceil_log2
    → HasValues a
    → build_machine_code_instruction np cp i ≡ ok code
    → validate_instruction_format a cp ≡ ok tt
validate-of_build np a cp i code log s h =
    (validate_instruction_format_iff a cp).0.1
      (s, (build_machine_code_instruction-IsWide np cp i code log h).1)
