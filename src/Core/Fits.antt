-- ===== src/Core/Fits.antt =====
-- When an instruction fits a core: each access that it makes is one that its trigger guards, or is
-- within the sizes of the core, which never change.
use tia_infrastructure.Prelude.{
  ℕ, ◌≤◌, ◌<◌, ◌≡◌, ◌≢◌, some, List, [], ◌∷◌, length, All, Member, get_elem?, ok,
}
use tia_infrastructure.Prelude.Int.{ℤ}
use tia_infrastructure.Isa.{Op, SourceType, DestinationType, Trigger, Instruction}
use tia_infrastructure.Isa.Numpy.{Numpy}
use tia_infrastructure.Isa.Ops.{op_implementation}
use tia_infrastructure.Core.{Core}

-- What of a core never changes while it runs.
pub record Layout : Type 0 where
  pub num_predicates : ℕ
  pub num_registers : ℕ
  pub inputs : List ℕ
  pub outputs : List ℕ

abbrev pub layout : Core → Layout
layout c = record {
  num_predicates = length c.predicates;
  num_registers = length c.registers;
  inputs = c.input_channel_buffers;
  outputs = c.output_channel_buffers;
}

-- A source that the trigger guards: a channel is one that the trigger waits for.
abbrev pub SourceFits : Layout → Instruction → SourceType → ℕ → Type 0
SourceFits l i SourceType.null k = Unit
SourceFits l i SourceType.immediate k = (v : ℤ) × (i.immediate ≡ some v)
SourceFits l i SourceType.channel k = Member k i.trigger.input_channels
SourceFits l i SourceType.register k = k < l.num_registers

abbrev pub DestinationFits : Layout → Instruction → DestinationType → Type 0
DestinationFits l i DestinationType.null = Unit
DestinationFits l i DestinationType.channel =
    All (λ k. Member k i.trigger.output_channel_indices) i.output_channel_indices
DestinationFits l i DestinationType.register =
    (k : ℕ) × (i.destination_index ≡ some k) × (k < l.num_registers)
DestinationFits l i DestinationType.predicate =
    (k : ℕ) × (i.destination_index ≡ some k) × (k < l.num_predicates)

pub record Sources (l : Layout) (i : Instruction) : Type 0 where
  pub a_type : SourceType
  pub b_type : SourceType
  pub c_type : SourceType
  pub a_index : ℕ
  pub b_index : ℕ
  pub c_index : ℕ
  pub types : i.source_types ≡ a_type ∷ b_type ∷ c_type ∷ []
  pub indices : i.source_indices ≡ a_index ∷ b_index ∷ c_index ∷ []
  pub a_fits : SourceFits l i a_type a_index
  pub b_fits : SourceFits l i b_type b_index
  pub c_fits : SourceFits l i c_type c_index

-- An instruction without scratchpad access whose accesses its trigger guards.
pub record Fits (np : Numpy) (l : Layout) (i : Instruction) : Type 0 where
  pub sources : Sources l i
  pub implemented : (a b c : ℤ) → (w : ℕ) × (op_implementation np i.op a b c ≡ ok w)
  pub not_lsw : i.op ≢ Op.lsw
  pub not_ssw : i.op ≢ Op.ssw
  pub destination : DestinationFits l i i.destination_type
  pub dequeues : All (λ k. Member k i.trigger.input_channels) i.input_channels_to_dequeue
  pub updates : All (λ k. k < l.num_predicates) i.predicate_update_indices
  pub values : length i.predicate_update_indices ≤ length i.predicate_update_values

-- A trigger whose indices are within the core and whose channels are buffers of the store.
pub record TriggerFits (l : Layout) (n : ℕ) (t : Trigger) : Type 0 where
  pub true_fits : All (λ k. k < l.num_predicates) t.true_predicates
  pub false_fits : All (λ k. k < l.num_predicates) t.false_predicates
  pub input_fits : All (λ k. (r : ℕ) × (get_elem? l.inputs k ≡ some r) × (r < n)) t.input_channels
  pub output_fits :
      All (λ k. (r : ℕ) × (get_elem? l.outputs k ≡ some r) × (r < n)) t.output_channel_indices

-- A program that fits a core in a store of `n` buffers.
abbrev pub ProgramFits : Numpy → Layout → ℕ → List Instruction → Type 0
ProgramFits np l n is = All (λ i. TriggerFits l n i.trigger × Fits np l i) is
