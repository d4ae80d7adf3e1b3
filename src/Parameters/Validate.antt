-- ===== src/Parameters/Validate.antt =====
-- tools/parameters/core_parameters.py: `validate_instruction_format`.
use tia_infrastructure.Prelude.{
  ℕ, ◌+◌, List, [], ◌∷◌, ltb, Result, ◌>>◌, raise_if, parametrization_exception,
}
use tia_infrastructure.Parameters.{
  CoreParameters, ptm_width, ici_width, ictb_width, ictv_width, op_width, st_width, si_width,
  dt_width, di_width, oci_width, oct_width, icd_width, pum_width, phy_instruction_width,
}
use tia_infrastructure.Parameters.Dictionary.{Dictionary, check_set}

abbrev pub sum : List ℕ → ℕ
sum [] = 0
sum (n ∷ ns) = n + sum ns

-- "Get the total number of bits for output checking purposes."
abbrev pub non_immediate_instruction_field_bit_counts : CoreParameters → List ℕ
non_immediate_instruction_field_bit_counts cp =
    1
    ∷ ptm_width cp
    ∷ ici_width cp
    ∷ ictb_width cp
    ∷ ictv_width cp
    ∷ op_width cp
    ∷ st_width cp
    ∷ si_width cp
    ∷ dt_width cp
    ∷ di_width cp
    ∷ oci_width cp
    ∷ oct_width cp
    ∷ icd_width cp
    ∷ pum_width cp
    ∷ []

-- `attributes` is the object's `__dict__`, and `cp` has the numbers among them, which are read once
-- none is `None`.
unfoldable pub validate_instruction_format : Dictionary → CoreParameters → Result (Unit {0})
validate_instruction_format attributes cp =
    let used = sum (non_immediate_instruction_field_bit_counts cp) + cp.immediate_width in
    check_set attributes
    >> raise_if (ltb cp.mm_instruction_width used) parametrization_exception
    >> raise_if (ltb (phy_instruction_width cp) used) parametrization_exception
