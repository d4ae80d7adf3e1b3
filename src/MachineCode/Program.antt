-- ===== src/MachineCode/Program.antt =====
-- tools/assembly/machine_code.py: the instruction word and the 32-bit words of a program.
use tia_infrastructure.Prelude.{
  ℕ, zero, suc, ◌-◌, ◌*◌, ◌/◌, ◌%◌, ◌^◌, ◌==◌, ltb, not, List, [], ◌∷◌, ◌++◌, map, length,
  replicate, Result, ok, assembly_exception, value_error, ◌>>=◌, ◌>>◌, raise_if,
}
use Prim.Native.Nat.{bit_and}
use tia_infrastructure.Prelude.Int.{ℤ, pos}
use tia_infrastructure.Prelude.Bits.{◌<<<◌}
use tia_infrastructure.Parameters
use tia_infrastructure.Parameters.{CoreParameters}
use tia_infrastructure.Isa.{Instruction}
use tia_infrastructure.Isa.Numpy.{Numpy}
use tia_infrastructure.MachineCode.{
  build_ptm, build_ici, build_ictb, build_ictv, build_op, build_st, build_si, build_dt, build_di,
  build_oci, build_oct, build_icd, build_pum, build_immediate,
}
use tia_infrastructure.MachineCode.Loops.{append_field, masked}

-- The last shift raises on a negative width.
unfoldable pub build_machine_code_instruction : Numpy → CoreParameters → Instruction → Result ℕ
build_machine_code_instruction np cp i = do
  code ← append_field 1 (Parameters.ptm_width cp) (build_ptm cp i)
  code ← append_field code (Parameters.ici_width cp) (build_ici cp i)
  code ← append_field code (Parameters.ictb_width cp) (build_ictb cp i)
  code ← append_field code (Parameters.ictv_width cp) (build_ictv cp i)
  code ← append_field code (Parameters.op_width cp) (build_op cp i)
  code ← append_field code (Parameters.st_width cp) (build_st cp i)
  code ← append_field code (Parameters.si_width cp) (build_si cp i)
  code ← append_field code (Parameters.dt_width cp) (build_dt cp i)
  code ← append_field code (Parameters.di_width cp) (build_di cp i)
  code ← append_field code (Parameters.oci_width cp) (build_oci cp i)
  code ← append_field code (Parameters.oct_width cp) (build_oct cp i)
  code ← append_field code (Parameters.icd_width cp) (build_icd cp i)
  code ← append_field code (Parameters.pum_width cp) (build_pum cp i)
  code ← append_field code cp.immediate_width (build_immediate np cp i)
  raise_if (ltb cp.mm_instruction_width (Parameters.phy_instruction_width cp)) value_error
      >> ok (code <<< (cp.mm_instruction_width - Parameters.phy_instruction_width cp))

-- `[build_machine_code_instruction(cp, instruction) for instruction in program.instructions]`
abbrev pub assemble : Numpy → CoreParameters → List Instruction → Result (List ℕ)
assemble np cp [] = ok []
assemble np cp (i ∷ is) = do
  code ← build_machine_code_instruction np cp i
  codes ← assemble np cp is
  ok (code ∷ codes)

-- `(code >> i * 32) & 0xffffffff` for the `n` values of `i` from `i` on
abbrev pub slice : ℕ → ℕ → ℕ → List ℕ
slice zero i code = []
slice (suc n) i code = bit_and (code / 2 ^ (i * 32)) (2 ^ 32 - 1) ∷ slice n (suc i) code

abbrev pub slice_all : ℕ → List ℕ → List ℕ
slice_all n [] = []
slice_all n (code ∷ codes) = slice n 0 code ++ slice_all n codes

pub record ProgramBinary : Type 0 where
  pub register_words : List ℕ
  pub instruction_words : List ℕ

unfoldable pub build_program_binary :
    Numpy → CoreParameters → List ℤ → List Instruction → Result ProgramBinary
unfolding build_machine_code_instruction
build_program_binary np cp register_values instructions =
    let register_words =
      map (λ v. np.uint32 (pos (masked np cp.device_word_width v))) register_values in
    let words = cp.mm_instruction_width / 32 in
    raise_if (not (cp.mm_instruction_width % 32 == 0)) assembly_exception
    >> (assemble np cp instructions >>= λ codes.
        let empty = cp.num_instructions - length codes in
        ok (record {
          register_words = register_words;
          instruction_words = slice_all words codes ++ replicate (empty * words) 0;
        }))
