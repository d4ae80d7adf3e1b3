-- ===== src/MachineCode/Word.antt =====
-- The instruction word of tools/assembly/machine_code.py: every field stands at its place in it.
use tia_infrastructure.Prelude.{
  ℕ, ◌+◌, ◌-◌, ◌*◌, ◌/◌, ◌%◌, ◌^◌, ◌<◌, ◌≤◌, ◌≡◌, refl, ap, sym, ◌∙◌, ltb, List, [], ◌∷◌, ◌++◌,
  Result, ok, false, value_error, ◌>>=◌, ◌>>◌, raise_if, >>=-eq-ok, ok-injective, All, arith,
}
use Prim.Native.Nat.{bit_or}
use mathlib.Core.Path.{subst}
use native.Mathlib.Nat.{
  one-le-pow, mul-add-div_right, mul-add-mod_self_right, mod-eq_of_lt, div-eq_of_lt,
}
use tia_infrastructure.Prelude.Bits.{◌<<<◌}
use tia_infrastructure.Prelude.Fields.{bit_or-shift, pow-add, place-lt}
use tia_infrastructure.Parameters
use tia_infrastructure.Parameters.{CoreParameters, IsCeilLog2}
use tia_infrastructure.Isa.{Instruction}
use tia_infrastructure.Isa.Numpy.{Numpy}
use tia_infrastructure.MachineCode.{
  build_ptm, build_ici, build_ictb, build_ictv, build_op, build_st, build_si, build_dt, build_di,
  build_oci, build_oct, build_icd, build_pum, build_immediate,
}
use tia_infrastructure.MachineCode.Loops.{append_field}
use tia_infrastructure.MachineCode.Program.{build_machine_code_instruction}
use tia_infrastructure.MachineCode.Widths

-- A place in the word: its width, and what fills it.
pub record Slot : Type 0 where
  pub width : ℕ
  pub build : Result ℕ

abbrev pub slot_width : List Slot → ℕ
slot_width [] = 0
slot_width (s ∷ ss) = s.width + slot_width ss

abbrev pub SlotFits : Slot → Type 0
SlotFits s = Widths.Fits s.width s.build

-- The format of the word after the valid bit, the most significant field first.
abbrev pub format : Numpy → CoreParameters → Instruction → List Slot
format np cp i =
    record { width = Parameters.ptm_width cp; build = build_ptm cp i }
    ∷ record { width = Parameters.ici_width cp; build = build_ici cp i }
    ∷ record { width = Parameters.ictb_width cp; build = build_ictb cp i }
    ∷ record { width = Parameters.ictv_width cp; build = build_ictv cp i }
    ∷ record { width = Parameters.op_width cp; build = build_op cp i }
    ∷ record { width = Parameters.st_width cp; build = build_st cp i }
    ∷ record { width = Parameters.si_width cp; build = build_si cp i }
    ∷ record { width = Parameters.dt_width cp; build = build_dt cp i }
    ∷ record { width = Parameters.di_width cp; build = build_di cp i }
    ∷ record { width = Parameters.oci_width cp; build = build_oci cp i }
    ∷ record { width = Parameters.oct_width cp; build = build_oct cp i }
    ∷ record { width = Parameters.icd_width cp; build = build_icd cp i }
    ∷ record { width = Parameters.pum_width cp; build = build_pum cp i }
    ∷ record { width = cp.immediate_width; build = build_immediate np cp i }
    ∷ []

append_all : ℕ → List Slot → (ℕ → Result ℕ) → Result ℕ
append_all code [] last = last code
append_all code (s ∷ ss) last = append_field code s.width s.build >>= λ c. append_all c ss last

pad : CoreParameters → ℕ → Result ℕ
pad cp code =
    raise_if (ltb cp.mm_instruction_width (Parameters.phy_instruction_width cp)) value_error
    >> ok (code <<< (cp.mm_instruction_width - Parameters.phy_instruction_width cp))

build-eq-append_all :
    (np : Numpy) (cp : CoreParameters) (i : Instruction)
    → build_machine_code_instruction np cp i ≡ append_all 1 (format np cp i) (pad cp)
unfolding build_machine_code_instruction append_all pad
build-eq-append_all np cp i = refl

format-Fits :
    (np : Numpy) (cp : CoreParameters) (i : Instruction)
    → IsCeilLog2 cp.ceil_log2
    → All SlotFits (format np cp i)
format-Fits np cp i log = (
  Widths.build_ptm-Fits cp i,
  (
    Widths.build_ici-Fits cp i,
    (
      Widths.build_ictb-Fits cp i,
      (
        Widths.build_ictv-Fits cp i,
        (
          Widths.build_op-Fits cp i,
          (
            Widths.build_st-Fits cp i,
            (
              Widths.build_si-Fits cp i,
              (
                Widths.build_dt-Fits cp i log,
                (
                  Widths.build_di-Fits cp i,
                  (
                    Widths.build_oci-Fits cp i,
                    (
                      Widths.build_oct-Fits cp i,
                      (
                        Widths.build_icd-Fits cp i,
                        (Widths.build_pum-Fits cp i, (Widths.build_immediate-Fits np cp i, tt)),
                      ),
                    ),
                  ),
                ),
              ),
            ),
          ),
        ),
      ),
    ),
  ),
)

padding : CoreParameters → ℕ
padding cp = cp.mm_instruction_width - Parameters.phy_instruction_width cp

-- One field appended: the value is below its bound, and stands below what was there.
append_field-eq :
    (code : ℕ) (s : Slot) (k : ℕ → Result ℕ) {r : ℕ}
    → SlotFits s
    → (append_field code s.width s.build >>= k) ≡ ok r
    → (v : ℕ) × (s.build ≡ ok v) × (v < 2 ^ s.width) × (k (code <<< s.width + v) ≡ ok r)
append_field-eq code s k f h =
    let (c, e, e') = >>=-eq-ok (append_field code s.width s.build) k h in
    let (v, ev, ec) = >>=-eq-ok s.build (λ x. ok (bit_or (code <<< s.width) x)) e in
    let l = f v ev in
    let q : c ≡ code <<< s.width + v = sym (ok-injective ec) ∙ bit_or-shift s.width code v l in
    (v, ev, l, ap k (sym q) ∙ e')

-- `r` is `code` followed by `n` more bits.
Stands : ℕ → ℕ → ℕ → Type 0
Stands code r n = (rest : ℕ) × (rest < 2 ^ n) × (r ≡ code <<< n + rest)

no_fields : (n : ℕ) → n ≡ 0 + n
no_fields n = omega arith

le_of_guard : (a b : ℕ) → ltb a b ≡ false → b ≤ a
le_of_guard a b h = ground arith

-- What is appended stands above what follows.
append_all-place :
    (cp : CoreParameters) (code : ℕ) (ss : List Slot) {r : ℕ}
    → All SlotFits ss
    → append_all code ss (pad cp) ≡ ok r
    → Stands code r (slot_width ss + padding cp)
unfolding append_all pad padding Stands
append_all-place cp code [] {r} f h =
    let (_, e) =
      Widths.raise_if-eq (ltb cp.mm_instruction_width (Parameters.phy_instruction_width cp))
        value_error (ok (code <<< padding cp)) h in
    subst (Stands code r) (no_fields (padding cp))
      (0, one-le-pow (padding cp) 2 (omega arith), sym (ok-injective e) ∙ omega arith)
append_all-place cp code (s ∷ ss) {r} (f, fs) h =
    let (v, _, l, e) = append_field-eq code s (λ c. append_all c ss (pad cp)) f h in
    let (rest, lr, er) = append_all-place cp (code <<< s.width + v) ss fs e in
    let (rest', l', e') = above code v rest s.width (slot_width ss + padding cp) l lr in
    subst (Stands code r) (assoc s.width (slot_width ss) (padding cp)) (rest', l', er ∙ e')
  where
    assoc : (a b c : ℕ) → a + (b + c) ≡ a + b + c
    assoc a b c = omega arith

    above :
        (code v rest w n : ℕ)
        → v < 2 ^ w
        → rest < 2 ^ n
        → (r : ℕ) × (r < 2 ^ (w + n)) × ((code <<< w + v) <<< n + rest ≡ code <<< (w + n) + r)
    above code v rest w n l lr = (
      v <<< n + rest,
      omega (arith, pow-add w n, place-lt v rest (2 ^ n) (2 ^ w) l lr),
      omega (arith, ap (λ (t : ℕ). code * t) (pow-add w n)),
    )

-- Shifted and masked, the word gives a field back.
append_all-slot :
    (cp : CoreParameters) (code : ℕ) (before after : List Slot) (s : Slot) {r : ℕ}
    → All SlotFits (before ++ (s ∷ after))
    → append_all code (before ++ (s ∷ after)) (pad cp) ≡ ok r
    → (v : ℕ) × (s.build ≡ ok v) × (r / 2 ^ (slot_width after + padding cp) % 2 ^ s.width ≡ v)
unfolding append_all Stands
append_all-slot cp code [] after s (f, fs) h =
    let (v, ev, l, e) = append_field-eq code s (λ c. append_all c after (pad cp)) f h in
    let (rest, lr, er) = append_all-place cp (code <<< s.width + v) after fs e in
    (
      v,
      ev,
      ap (λ (t : ℕ). t / 2 ^ (slot_width after + padding cp) % 2 ^ s.width) er
          ∙ ap (λ (t : ℕ). t % 2 ^ s.width)
              (mul-add-div_right (one-le-pow (slot_width after + padding cp) 2 (omega arith))
                  (code <<< s.width + v) rest
                ∙ omega (arith, div-eq_of_lt lr))
          ∙ mul-add-mod_self_right code (2 ^ s.width) v
          ∙ mod-eq_of_lt l,
    )
append_all-slot cp code (b ∷ before) after s (f, fs) h =
    let (v, _, l, e) =
      append_field-eq code b (λ c. append_all c (before ++ (s ∷ after)) (pad cp)) f h in
    append_all-slot cp (code <<< b.width + v) before after s fs e

-- Suppose the logarithm gives enough bits. When the builder gives a word, every field of the format was built, and the word shifted right
-- by the widths of the fields after it and the padding, and cut to the width of the field, is it.
pub build_machine_code_instruction-format :
    (np : Numpy) (cp : CoreParameters) (i : Instruction) (code : ℕ)
    → IsCeilLog2 cp.ceil_log2
    → build_machine_code_instruction np cp i ≡ ok code
    → (before after : List Slot) (s : Slot) → format np cp i ≡ before ++ (s ∷ after)
    → (v : ℕ) × (s.build ≡ ok v)
      × (code
            / 2
              ^ (slot_width after + (cp.mm_instruction_width - Parameters.phy_instruction_width cp))
            % 2 ^ s.width
          ≡ v)
unfolding padding
build_machine_code_instruction-format np cp i code log h before after s e =
    append_all-slot cp 1 before after s (subst (All SlotFits) e (format-Fits np cp i log))
      (ap (λ ss. append_all 1 ss (pad cp)) (sym e) ∙ sym (build-eq-append_all np cp i) ∙ h)

append_all-room :
    (cp : CoreParameters) (code : ℕ) (ss : List Slot) {r : ℕ}
    → append_all code ss (pad cp) ≡ ok r
    → Parameters.phy_instruction_width cp ≤ cp.mm_instruction_width
unfolding append_all pad
append_all-room cp code [] h =
    let phy = Parameters.phy_instruction_width cp in
    let (g, _) =
      Widths.raise_if-eq (ltb cp.mm_instruction_width phy) value_error
        (ok (code <<< (cp.mm_instruction_width - phy))) h in
    le_of_guard cp.mm_instruction_width phy g
append_all-room cp code (s ∷ ss) h =
    let (c, _, e) =
      >>=-eq-ok (append_field code s.width s.build) (λ c. append_all c ss (pad cp)) h in
    append_all-room cp c ss e

-- Suppose the logarithm gives enough bits. A word that the builder gives fills the memory-mapped width exactly, since its highest bit is the
-- valid bit, and the parameters leave room for every field.
pub build_machine_code_instruction-IsWide :
    (np : Numpy) (cp : CoreParameters) (i : Instruction) (code : ℕ)
    → IsCeilLog2 cp.ceil_log2
    → build_machine_code_instruction np cp i ≡ ok code
    → (code / 2 ^ (cp.mm_instruction_width - 1) ≡ 1)
      × (Parameters.phy_instruction_width cp ≤ cp.mm_instruction_width)
unfolding padding Stands
build_machine_code_instruction-IsWide np cp i code log h =
    let e = sym (build-eq-append_all np cp i) ∙ h in
    let room = append_all-room cp 1 (format np cp i) e in
    let (rest, l, er) = append_all-place cp 1 (format np cp i) (format-Fits np cp i log) e in
    let n : slot_width (format np cp i) + padding cp ≡ cp.mm_instruction_width - 1 =
      omega (arith, room) in
    (
      ap (λ (k : ℕ). code / 2 ^ k) (sym n)
          ∙ ap (λ (t : ℕ). t / 2 ^ (slot_width (format np cp i) + padding cp)) er
          ∙ mul-add-div_right
              (one-le-pow (slot_width (format np cp i) + padding cp) 2 (omega arith)) 1 rest
          ∙ omega (arith, div-eq_of_lt l),
      room,
    )
