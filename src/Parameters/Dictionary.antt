-- ===== src/Parameters/Dictionary.antt =====
-- tools/parameters: the construction of parameters from a dictionary, which a configuration file gives. A
-- dictionary, and an object's attributes too, is a list of names with values.
use tia_infrastructure.Prelude.{
  Bool, true, false, Option, none, some, List, [], ◌∷◌, Result, ok, err, key_error,
  parametrization_exception, ◌>>=◌, or_raise, if◌then◌else◌,
}
use tia_infrastructure.Prelude.Int.{ℤ}
use tia_infrastructure.Prelude.Text.{Text, codes, equal}

pub data Value : Type 0 where
  integer : ℤ → Value
  boolean : Bool → Value
  text : Text → Value
  null : Value

abbrev pub Dictionary : Type 0
Dictionary = List (Text × Value)

abbrev pub lookup : Text → Dictionary → Option Value
lookup k [] = none
lookup k (e ∷ d) = let rest = lookup k d in if equal k e.0 then some e.1 else rest

-- `{key: dictionary[key] for key in keys}`
unfoldable pub filter_keys : List Text → Dictionary → Result Dictionary
filter_keys [] d = ok []
filter_keys (k ∷ ks) d = do
  v ← or_raise (lookup k d) key_error
  rest ← filter_keys ks d
  ok ((k, v) ∷ rest)

abbrev pub core_keys : List Text
core_keys =
    codes "architecture"
    ∷ codes "device_word_width"
    ∷ codes "immediate_width"
    ∷ codes "mm_instruction_width"
    ∷ codes "num_instructions"
    ∷ codes "num_predicates"
    ∷ codes "num_registers"
    ∷ codes "has_multiplier"
    ∷ codes "has_two_word_product_multiplier"
    ∷ codes "has_scratchpad"
    ∷ codes "num_scratchpad_words"
    ∷ codes "latch_based_instruction_memory"
    ∷ codes "ram_based_immediate_storage"
    ∷ codes "num_input_channels"
    ∷ codes "num_output_channels"
    ∷ codes "channel_buffer_depth"
    ∷ codes "max_num_input_channels_to_check"
    ∷ codes "num_tags"
    ∷ codes "has_speculative_predicate_unit"
    ∷ codes "has_effective_queue_status"
    ∷ codes "has_debug_monitor"
    ∷ codes "has_performance_counters"
    ∷ []

abbrev pub interconnect_keys : List Text
interconnect_keys =
    codes "router_type"
    ∷ codes "num_router_sources"
    ∷ codes "num_router_destinations"
    ∷ codes "num_input_channels"
    ∷ codes "num_output_channels"
    ∷ codes "router_buffer_depth"
    ∷ codes "num_physical_planes"
    ∷ []

abbrev pub system_keys : List Text
system_keys =
    codes "host_word_width"
    ∷ codes "num_test_data_memory_words"
    ∷ codes "test_data_memory_buffer_depth"
    ∷ []

-- `CoreParameters.from_dictionary` and those of the interconnect and of the system: the attributes.
abbrev pub core_from_dictionary : Dictionary → Result Dictionary
core_from_dictionary d = filter_keys core_keys d

abbrev pub interconnect_from_dictionary : Dictionary → Result Dictionary
interconnect_from_dictionary d = filter_keys interconnect_keys d

abbrev pub system_from_dictionary : Dictionary → Result Dictionary
system_from_dictionary d = filter_keys system_keys d

abbrev pub is_null : Value → Bool
is_null Value.null = true
is_null _ = false

-- "Make sure all attributes are set."
unfoldable pub check_set : Dictionary → Result (Unit {0})
check_set [] = ok tt
check_set (e ∷ d) =
    let rest = check_set d in if is_null e.1 then err parametrization_exception else rest
