-- ===== src/Parameters/Platform.antt =====
-- tools/parameters: the parameters of the interconnect and of the system around the elements.
use tia_infrastructure.Prelude.{ℕ}
use tia_infrastructure.Prelude.Text.{Text}

-- tools/parameters/interconnect_parameters.py
pub record InterconnectParameters : Type 0 where
  pub router_type : Text
  pub num_router_sources : ℕ
  pub num_router_destinations : ℕ
  pub num_input_channels : ℕ
  pub num_output_channels : ℕ
  pub router_buffer_depth : ℕ
  pub num_physical_planes : ℕ

-- tools/parameters/system_parameters.py
pub record SystemParameters : Type 0 where
  pub host_word_width : ℕ
  pub num_test_data_memory_words : ℕ
  pub test_data_memory_buffer_depth : ℕ
