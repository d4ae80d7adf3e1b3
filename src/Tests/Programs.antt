-- ===== src/Tests/Programs.antt =====
-- Programs with registers and labels at concrete inputs.
use tia_infrastructure.Prelude.{
  ◌-◌, ◌≡◌, ◌↔◌, ◌⊎◌, ap, length, inl, inr, ◌≢◌, refl, true, false, List, [], ◌∷◌, ◌++◌, map, All,
  replicate, ok, err, assembly_exception, arith, index_error,
}
use tia_infrastructure.Prelude.Int.{pos, negsuc}
use tia_infrastructure.Prelude.Text.{Text, codes}
use tia_infrastructure.Prelude.Text.Parts.{Without-of_lacks}
use tia_infrastructure.Prelude.Fields.{bit_length}
use tia_infrastructure.Assembly.Program.{join_lines}
use tia_infrastructure.Assembly.Program.Numbers.{Raises}
use tia_infrastructure.Assembly.Registers.{
  register_index, register_data, extract_register_initialization_data_from_statement, initialize,
  convert_register_initialization_statements_to_register_values, from_label_and_string, validate,
  effective_bit_length,
}
use tia_infrastructure.Assembly.Registers.Written.{Init, written, assigned, convert-written}
use tia_infrastructure.Assembly.Registers.Errors.{
  IsProgram, from_label_and_string-IsProgram, InRange, validate_iff,
}
use tia_infrastructure.Assembly.Labels.{
  split_program_by_processing_element_label, find_labels, replace_labels,
}
use tia_infrastructure.Assembly.Labels.Written
use tia_infrastructure.Assembly.Labels.Written.{Part, IsPart, split-written}
use tia_infrastructure.Assembly.Macros.{apply_macros, replace_all, replace_after}
use tia_infrastructure.Assembly.Macros.Whole.{apply_macros-Has}
use tia_infrastructure.Tests.Words.{small}
use tia_infrastructure.Tests.Assembly.{eval_op, program}

abbrev inits : List Init
inits =
    record { index = 3; negative = true; magnitude = 5 }
    ∷ record { index = 7; negative = false; magnitude = 12 }
    ∷ []

convert-written_example :
    convert_register_initialization_statements_to_register_values small
      (join_lines (map written inits))
    ≡ ok (assigned inits (replicate small.num_registers (pos 0)))
convert-written_example = convert-written small inits (omega arith, (omega arith, tt))

inits_text : join_lines (map written inits) ≡ codes "init %r3, $-5;\ninit %r7, $12;"
inits_text = refl

-- White space, a comment and a hexadecimal value.
loose_statement :
    extract_register_initialization_data_from_statement (codes "  init %r2 ,$0x10; # a mask")
    ≡ ok (2, pos 16)
unfolding extract_register_initialization_data_from_statement register_index register_data
loose_statement = refl

-- Of hexadecimal digits the pattern takes the decimal ones alone.
hexadecimal_letters :
    extract_register_initialization_data_from_statement (codes "init %r2, $0xff;")
    ≡ err assembly_exception
unfolding extract_register_initialization_data_from_statement register_index register_data
hexadecimal_letters = refl

-- The core has eight registers.
ninth_register :
    convert_register_initialization_statements_to_register_values small (codes "init %r8, $1;")
    ≡ err index_error
unfolding convert_register_initialization_statements_to_register_values initialize
    extract_register_initialization_data_from_statement register_index register_data
ninth_register = refl

from_label_and_string-IsProgram_example :
    Raises (IsProgram small (codes "pe")) (from_label_and_string eval_op small (codes "pe") program)
from_label_and_string-IsProgram_example =
    from_label_and_string-IsProgram eval_op small (codes "pe") program

validate_iff_example :
    ((validate small (pos 7 ∷ negsuc 6 ∷ []) ≡ ok tt)
      ↔ All (InRange small.device_word_width) (pos 7 ∷ negsuc 6 ∷ []))
    × ((validate small (pos 7 ∷ negsuc 6 ∷ []) ≡ ok tt)
        ⊎ (validate small (pos 7 ∷ negsuc 6 ∷ []) ≡ err assembly_exception))
validate_iff_example = validate_iff small (pos 7 ∷ negsuc 6 ∷ [])

-- The lowest number of two's complement is refused.
lowest_refused : validate small (negsuc (2147483648 - 1) ∷ []) ≡ err assembly_exception
unfolding validate effective_bit_length bit_length
lowest_refused = refl

abbrev parts : List Part
parts =
    record { label = codes "processing_element_0"; lines = codes "init %r0, $1;\n" }
    ∷ record { label = codes "processing_element_1"; lines = codes "when %p == X1: nop;" }
    ∷ []

parts-IsPart : All IsPart parts
parts-IsPart = (
  record {
    one_line = Without-of_lacks 10 (codes "processing_element_0") refl;
    no_close = Without-of_lacks 62 (codes "processing_element_0") refl;
    no_open = Without-of_lacks 60 (codes "init %r0, $1;\n") refl;
  },
  (
    record {
      one_line = Without-of_lacks 10 (codes "processing_element_1") refl;
      no_close = Without-of_lacks 62 (codes "processing_element_1") refl;
      no_open = Without-of_lacks 60 (codes "when %p == X1: nop;") refl;
    },
    tt,
  ),
)

split-written_example :
    split_program_by_processing_element_label (codes "# two\n" ++ Written.written parts)
    ≡ map (λ (p : Part). (p.label, 10 ∷ p.lines)) parts
split-written_example =
    split-written (codes "# two\n") parts (Without-of_lacks 60 (codes "# two\n") refl) parts-IsPart

-- Of two labels on a line the second is lost with the text between them, but its name is kept.
two_on_a_line :
    split_program_by_processing_element_label (codes "<a> x <b> y") ≡ (codes "a", codes " y") ∷ []
unfolding split_program_by_processing_element_label find_labels replace_labels
two_on_a_line = refl

-- A macro whose name is the beginning of another's.
abbrev macros : List (Text × Text)
macros = (codes "REG", codes "%r0") ∷ (codes "REGISTERS", codes "8") ∷ []

apply_macros-Has_example : apply_macros macros (codes "REGISTERS") ≡ codes "8"
apply_macros-Has_example =
    apply_macros-Has macros (codes "REGISTERS") (codes "8") (inr (inl (refl, refl)))
      (((λ e. absurd (different e)), refl), (((λ e. refl), refl), tt))
  where
    different : codes "REG" ≢ codes "REGISTERS"
    different e = omega (arith, ap length e)

in_a_line : apply_macros macros (codes "mov REG, $REGISTERS;") ≡ codes "mov %r0, $8;"
unfolding apply_macros replace_all replace_after
in_a_line = refl
