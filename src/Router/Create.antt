-- ===== src/Router/Create.antt =====
-- The construction of processing elements, tools/simulator/processing_element.py, and of the channel
-- buffers of their cores, tools/simulator/core.py: new buffers come at the end of the store.
use tia_infrastructure.Prelude.{
  ℕ, zero, suc, ◌+◌, if◌then◌else◌, List, [], ◌∷◌, ◌++◌, length, Result, ok, err,
  simulator_exception, ◌>>=◌,
}
use tia_infrastructure.Prelude.Text.{Text, codes, decimal, equal}
use tia_infrastructure.Parameters.{CoreParameters}
use tia_infrastructure.Parameters.Platform.{InterconnectParameters}
use tia_infrastructure.Interconnect.{BufferClass, Buffer, fresh_buffer}
use tia_infrastructure.Store.{Store}
use tia_infrastructure.Core
use tia_infrastructure.Core.{Core}
use tia_infrastructure.Router.{RouterType, ProcessingElement, init}

-- The buffers that the loop over `range(n)` appends from `i` on, each with its number in its name.
unfoldable pub channel_buffers : BufferClass → Text → ℕ → ℕ → ℕ → List Buffer
channel_buffers class prefix depth i zero = []
channel_buffers class prefix depth i (suc n) =
    fresh_buffer class (prefix ++ decimal i) depth ∷ channel_buffers class prefix depth (suc i) n

-- The positions of `n` new buffers.
abbrev pub positions : ℕ → ℕ → List ℕ
positions first zero = []
positions first (suc n) = first ∷ positions (suc first) n

abbrev pub new_input_buffers : Text → CoreParameters → List Buffer
new_input_buffers name cp =
    channel_buffers BufferClass.receiver (name ++ codes ": Input Channel Buffer ")
      cp.channel_buffer_depth 0 cp.num_input_channels

abbrev pub new_output_buffers : Text → CoreParameters → List Buffer
new_output_buffers name cp =
    channel_buffers BufferClass.sender (name ++ codes ": Output Channel Buffer ")
      cp.channel_buffer_depth 0 cp.num_output_channels

-- `Core(name, cp)`
unfoldable pub new_core : Text → CoreParameters → Store → Core × Store
new_core name cp s = (
  Core.init cp (positions (length s) cp.num_input_channels)
      (positions (length s + cp.num_input_channels) cp.num_output_channels),
  s ++ (new_input_buffers name cp ++ new_output_buffers name cp),
)

-- `router_type_name_type_map`
unfoldable pub router_type_named : Text → Result RouterType
router_type_named t =
    if equal t (codes "software")
    then ok RouterType.software
    else if equal t (codes "switch")
    then ok RouterType.switch
    else if equal t (codes "virtual_circuit")
    then ok RouterType.virtual_circuit
    else err simulator_exception

-- `ProcessingElement(name, cp, ip)`
unfoldable pub new_element :
    Text → CoreParameters → InterconnectParameters → Store → Result (ProcessingElement × Store)
new_element name cp ip s =
    let (c, s') = new_core name cp s in
    router_type_named ip.router_type >>= λ t.
    ok (init name t ip.num_router_sources ip.num_router_destinations c, s')

-- One element for each name.
unfoldable pub new_elements :
    List Text
    → CoreParameters
    → InterconnectParameters
    → Store
    → Result (List ProcessingElement × Store)
new_elements [] cp ip s = ok ([], s)
new_elements (name ∷ names) cp ip s = do
  (p, s₁) ← new_element name cp ip s
  (ps, s₂) ← new_elements names cp ip s₁
  ok (p ∷ ps, s₂)
