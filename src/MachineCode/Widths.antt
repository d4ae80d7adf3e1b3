-- ===== src/MachineCode/Widths.antt =====
-- Every field of the machine code fits the width that the parameters allot to it.
use tia_infrastructure.Prelude.{
  ℕ, ◌^◌, ◌<◌, ◌≡◌, refl, Bool, true, false, ltb, lt→ltb, Option, none, some, Result, Error, ok,
  ◌>>=◌, ◌>>◌, raise_if, assembly_exception, value_error, length, sym, >>=-eq-ok, ok-injective,
  arith,
}
use Prim.Native.Nat.{bit_or}
use tia_infrastructure.Prelude.Bits.{◌<<<◌}
use tia_infrastructure.Prelude.Fields.{bit_length, bit_length-le}
use tia_infrastructure.Parameters
use tia_infrastructure.Parameters.{CoreParameters, IsCeilLog2}
use tia_infrastructure.Isa.{DestinationType, channel, register, predicate, Instruction}
use tia_infrastructure.Isa.Numpy.{Numpy}
use tia_infrastructure.MachineCode.{
  build_ptm, build_ici, build_ictb, build_ictv, build_op, build_st, build_si, build_dt, build_di,
  build_oci, build_oct, build_icd, build_pum, build_immediate, build_true_ptm, build_false_ptm,
  build_true_pum, build_false_pum,
}
use tia_infrastructure.MachineCode.Loops.{checked, masked, immediate_field, magnitude}
use tia_infrastructure.MachineCode.Masks.{masked_lem}
use native.Mathlib.Nat.{one-le-pow, mod-lt}
use tia_infrastructure.Prelude.Int.{ℤ}
use tia_infrastructure.MachineCode.Enums.{destination_type_value}

-- Whatever the builder gives has at most `w` bits.
abbrev pub Fits : ℕ → Result ℕ → Type 0
Fits w m = (v : ℕ) → m ≡ ok v → v < 2 ^ w

pub raise_if-eq :
    (b : Bool) (e : Error) {A : Type 0} (m : Result A) {v : A}
    → (raise_if b e >> m) ≡ ok v
    → (b ≡ false) × (m ≡ ok v)
raise_if-eq true e m h = cc
raise_if-eq false e m h = (refl, h)

pub checked-eq : (w x : ℕ) {v : ℕ} → checked w x ≡ ok v → (v ≡ x) × (v < 2 ^ w)
checked-eq w x {v} h =
    let (n, e) = raise_if-eq (ltb w (bit_length x)) assembly_exception (ok x) h in
    let l = lt→ltb w (bit_length x) in
    (sym (ok-injective e), ground (arith, bit_length-le x w, ok-injective e, n, l))

checked-Fits : (w x : ℕ) → Fits w (checked w x)
checked-Fits w x v h = (checked-eq w x h).1

raise_if-Fits :
    (b : Bool) (e : Error) (w : ℕ) {m : Result ℕ} → Fits w m → Fits w (raise_if b e >> m)
raise_if-Fits b e w {m} f v h = f v (raise_if-eq b e m h).1

bind-Fits :
    {A : Type 0} (w : ℕ) (m : Result A) (f : A → Result ℕ)
    → ((a : A) → Fits w (f a))
    → Fits w (m >>= f)
bind-Fits w m f h v e = let (a, _, e') = >>=-eq-ok m f e in h a v e'

pub build_ptm-Fits :
    (cp : CoreParameters) (i : Instruction) → Fits (Parameters.ptm_width cp) (build_ptm cp i)
unfolding build_ptm
build_ptm-Fits cp i = bind-Fits _ (build_true_ptm cp i) _ (λ t.
    bind-Fits _ (build_false_ptm cp i) _
      (λ f. checked-Fits _ (bit_or (t <<< Parameters.false_ptm_width cp) f)))

pub build_ici-Fits :
    (cp : CoreParameters) (i : Instruction) → Fits (Parameters.ici_width cp) (build_ici cp i)
unfolding build_ici
build_ici-Fits cp i = raise_if-Fits _ _ _ (checked-Fits _ _)

pub build_ictb-Fits :
    (cp : CoreParameters) (i : Instruction) → Fits (Parameters.ictb_width cp) (build_ictb cp i)
unfolding build_ictb
build_ictb-Fits cp i =
    raise_if-Fits
      (ltb cp.max_num_input_channels_to_check (length i.trigger.input_channel_tag_booleans))
      assembly_exception _
      (raise_if-Fits (ltb cp.max_num_input_channels_to_check (length i.trigger.input_channels))
        value_error _ (checked-Fits _ _))

pub build_ictv-Fits :
    (cp : CoreParameters) (i : Instruction) → Fits (Parameters.ictv_width cp) (build_ictv cp i)
unfolding build_ictv
build_ictv-Fits cp i = raise_if-Fits _ _ _ (checked-Fits _ _)

pub build_op-Fits :
    (cp : CoreParameters) (i : Instruction) → Fits (Parameters.op_width cp) (build_op cp i)
unfolding build_op
build_op-Fits cp i = checked-Fits _ _

pub build_st-Fits :
    (cp : CoreParameters) (i : Instruction) → Fits (Parameters.st_width cp) (build_st cp i)
unfolding build_st
build_st-Fits cp i = raise_if-Fits _ _ _ (checked-Fits _ _)

pub build_si-Fits :
    (cp : CoreParameters) (i : Instruction) → Fits (Parameters.si_width cp) (build_si cp i)
unfolding build_si
build_si-Fits cp i = raise_if-Fits _ _ _ (checked-Fits _ _)

destination_type_value-lt : (d : DestinationType) → destination_type_value d < 4
destination_type_value-lt DestinationType.null = omega arith
destination_type_value-lt channel = omega arith
destination_type_value-lt register = omega arith
destination_type_value-lt predicate = omega arith

-- The check of this field is on another width, but its values fit its own.
pub build_dt-Fits :
    (cp : CoreParameters) (i : Instruction)
    → IsCeilLog2 cp.ceil_log2
    → Fits (Parameters.dt_width cp) (build_dt cp i)
unfolding build_dt
build_dt-Fits cp i log v h =
    let (e, _) = checked-eq _ _ h in
    omega (arith, e, destination_type_value-lt i.destination_type, log 4)

pub build_di-Fits :
    (cp : CoreParameters) (i : Instruction) → Fits (Parameters.di_width cp) (build_di cp i)
unfolding build_di
build_di-Fits cp i = checked-Fits _ _

pub build_oci-Fits :
    (cp : CoreParameters) (i : Instruction) → Fits (Parameters.oci_width cp) (build_oci cp i)
unfolding build_oci
build_oci-Fits cp i = checked-Fits _ _

pub build_oct-Fits :
    (cp : CoreParameters) (i : Instruction) → Fits (Parameters.oct_width cp) (build_oct cp i)
unfolding build_oct
build_oct-Fits cp i = checked-Fits _ _

pub build_icd-Fits :
    (cp : CoreParameters) (i : Instruction) → Fits (Parameters.icd_width cp) (build_icd cp i)
unfolding build_icd
build_icd-Fits cp i = checked-Fits _ _

pub build_pum-Fits :
    (cp : CoreParameters) (i : Instruction) → Fits (Parameters.pum_width cp) (build_pum cp i)
unfolding build_pum
build_pum-Fits cp i = bind-Fits _ (build_true_pum cp i) _ (λ t.
    bind-Fits _ (build_false_pum cp i) _
      (λ f. checked-Fits _ (bit_or (t <<< Parameters.false_ptm_width cp) f)))

immediate_field-Fits : (np : Numpy) (w : ℕ) (x : Option ℤ) → Fits w (immediate_field np w x)
immediate_field-Fits np w none v h = omega (arith, ok-injective h, one-le-pow w 2)
immediate_field-Fits np w (some x) v h =
    let (_, e) =
      raise_if-eq (ltb w (bit_length (magnitude x))) assembly_exception (ok (masked np w x)) h in
    omega
      (arith, ok-injective e, masked_lem np w x, mod-lt (np.uint32 x) {m = 2 ^ w}, one-le-pow w 2)

pub build_immediate-Fits :
    (np : Numpy) (cp : CoreParameters) (i : Instruction)
    → Fits cp.immediate_width (build_immediate np cp i)
unfolding build_immediate
build_immediate-Fits np cp i = immediate_field-Fits np cp.immediate_width i.immediate
