-- ===== src/Isa.antt =====
-- tools/assembly/instruction.py: operations, source and destination types, triggers and
-- instructions as data. Indices and tags are naturals.
pub mod Numpy
pub mod Ops
use tia_infrastructure.Prelude.{ℕ, Bool, Option, List}
use tia_infrastructure.Prelude.Int.{ℤ}

pub data Op : Type 0 where
  nop mov add sub sl asr lsr eq ne sgt ugt slt ult sge uge sle ule : Op
  band bnand bor bnor bxor bxnor land lnand lor lnor lxor lxnor : Op
  gby sby cby mby gb sb cb mb clz ctz halt : Op
  lsw ssw rlw olw sw : Op
  lmul shmul uhmul mac : Op
  itf utf fti ftu feq fne fgt flt fle fge fadd fsub fmul fmac : Op

pub data SourceType : Type 0 where
  null immediate channel register : SourceType

pub data DestinationType : Type 0 where
  null channel register predicate : DestinationType

pub record Trigger : Type 0 where
  pub true_predicates : List ℕ
  pub false_predicates : List ℕ
  pub input_channels : List ℕ
  pub input_channel_tags : List ℕ
  pub input_channel_tag_booleans : List Bool
  pub output_channel_indices : List ℕ

-- An operand that an instruction names. The assembler fills three types and three indices.
pub record Instruction : Type 0 where
  pub trigger : Trigger
  pub op : Op
  pub source_types : List SourceType
  pub source_indices : List ℕ
  pub immediate : Option ℤ
  pub destination_type : DestinationType
  pub destination_index : Option ℕ
  pub output_channel_tag : Option ℕ
  pub output_channel_indices : List ℕ
  pub input_channels_to_dequeue : List ℕ
  pub predicate_update_indices : List ℕ
  pub predicate_update_values : List Bool
  pub number : ℕ
