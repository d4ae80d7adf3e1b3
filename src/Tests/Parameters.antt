-- ===== src/Tests/Parameters.antt =====
-- Parameters at concrete inputs.
use tia_infrastructure.Prelude.{◌≡◌, refl, [], ◌∷◌, ok, err, key_error, parametrization_exception}
use tia_infrastructure.Prelude.Int.{pos}
use tia_infrastructure.Prelude.Text.{codes}
use tia_infrastructure.Parameters
use tia_infrastructure.Parameters.Dictionary.{
  Value, Dictionary, filter_keys, system_from_dictionary, check_set,
}
use tia_infrastructure.Tests.Words.{small}

-- One parameter is not set, and one is of no concern.
abbrev dictionary : Dictionary
dictionary =
    (codes "color", Value.text (codes "red"))
    ∷ (codes "host_word_width", Value.integer (pos 32))
    ∷ (codes "test_data_memory_buffer_depth", Value.null)
    ∷ (codes "num_test_data_memory_words", Value.integer (pos 64))
    ∷ []

abbrev attributes : Dictionary
attributes =
    (codes "host_word_width", Value.integer (pos 32))
    ∷ (codes "num_test_data_memory_words", Value.integer (pos 64))
    ∷ (codes "test_data_memory_buffer_depth", Value.null)
    ∷ []

-- The numbers of the parameters of the test.
abbrev settings : Dictionary
settings =
    (codes "device_word_width", Value.integer (pos small.device_word_width))
    ∷ (codes "immediate_width", Value.integer (pos small.immediate_width))
    ∷ (codes "mm_instruction_width", Value.integer (pos small.mm_instruction_width))
    ∷ []

selected : system_from_dictionary dictionary ≡ ok attributes
unfolding filter_keys
selected = refl

empty_raises : system_from_dictionary [] ≡ err key_error
unfolding filter_keys
empty_raises = refl

unset_raises : check_set attributes ≡ err parametrization_exception
unfolding check_set
unset_raises = refl
