-- ===== src/Assembly/Build/Destination.antt =====
-- The destination of an instruction that the assembler reads, which completes its datapath.
use mathlib.Core.Path.{subst}
use tia_infrastructure.Prelude.{
  ◌≡◌, refl, sym, ap, ◌∙◌, Bool, true, false, not, ◌&&◌, ltb, if◌then◌else◌, Option, none, some,
  List, [], ◌∷◌, length, Result, ok, ◌>>=◌, or_raise, >>=-eq-ok, ok-injective, assembly_exception,
}
use tia_infrastructure.Prelude.Int.{ℤ, pos}
use tia_infrastructure.Prelude.Text.{Text}
use tia_infrastructure.Isa.{Op, DestinationType}
use tia_infrastructure.Assembly.Trigger.{Trigger}
use tia_infrastructure.Assembly.Datapath.{
  destination_has_multiple_output_channels, extract_destination_type, extract_destination_index,
  extract_destination_indices, extract_destination_tag,
}
use tia_infrastructure.Assembly.Build.{
  Instruction, is_ssw, is_channel, add_channels, add_destination,
}
use tia_infrastructure.Assembly.Build.Sources.{Filled}

-- What a destination type needs besides: an index and, for channels, a tag.
abbrev pub Aimed : Option ℤ → Option ℤ → DestinationType → Type 0
Aimed index tag DestinationType.null = Unit
Aimed index tag DestinationType.register = (k : ℤ) × (index ≡ some k)
Aimed index tag DestinationType.predicate = (k : ℤ) × (index ≡ some k)
Aimed index tag DestinationType.channel = (k : ℤ) × (g : ℤ) × (index ≡ some k) × (tag ≡ some g)

-- An instruction that has all that a core reads.
pub record IsComplete (i : Instruction) : Type 0 where
  pub condition : Trigger
  pub operation : Op
  pub kind : DestinationType
  pub trigger_given : i.trigger ≡ some condition
  pub op_given : i.op ≡ some operation
  pub sources : Filled 3 i
  pub kind_given : i.destination_type ≡ some kind
  pub aimed : Aimed i.destination_index i.output_channel_tag kind
  -- the trigger waits for room in exactly the channels that the result goes to
  pub outputs : i.output_channel_indices ≡ condition.output_channel_indices
  pub values : length i.predicate_update_values ≡ length i.predicate_update_indices

-- An instruction before its destination: it has a trigger without output channels.
pub record IsSourced (t : Trigger) (op : Op) (i : Instruction) : Type 0 where
  pub trigger_given : i.trigger ≡ some t
  pub op_given : i.op ≡ some op
  pub sources : Filled 3 i
  pub no_outputs : i.output_channel_indices ≡ t.output_channel_indices
  pub values : length i.predicate_update_values ≡ length i.predicate_update_indices

add_channels-IsComplete :
    (tokens : List Text) (t : Trigger) (op : Op) (i : Instruction) {j : Instruction}
    → IsSourced t op i
    → i.destination_type ≡ some DestinationType.channel
    → add_channels tokens t i ≡ ok j
    → IsComplete j
unfolding add_channels
add_channels-IsComplete tokens t op i h c e =
    let (several, _, e) = >>=-eq-ok (destination_has_multiple_output_channels tokens) _ e in
    let (x, _, e) =
      >>=-eq-ok
        (if several
          then (extract_destination_indices tokens >>= λ ks. ok (pos 0, ks))
          else (extract_destination_index tokens >>= λ k. ok (k, k ∷ [])))
        _ e in
    let (tag, _, e) = >>=-eq-ok (extract_destination_tag tokens) _ e in
    subst IsComplete (ok-injective e) (record {
      condition = record t { output_channel_indices = x.1 };
      operation = op;
      kind = DestinationType.channel;
      trigger_given = refl;
      op_given = h.op_given;
      sources = record {
        types = h.sources.types;
        indices = h.sources.indices;
        supplied = h.sources.supplied;
      };
      kind_given = c;
      aimed = (x.0, tag, refl, refl);
      outputs = refl;
      values = h.values;
    })

pub add_destination-IsComplete :
    (tokens : List Text) (t : Trigger) (op : Op) (i : Instruction) {j : Instruction}
    → IsSourced t op i
    → add_destination op tokens i ≡ ok j
    → IsComplete j
unfolding add_destination
add_destination-IsComplete tokens t op i {j} h e =
    by_tokens (ltb 1 (length tokens) && not (is_ssw op)) e
  where
    with_kind : DestinationType → Instruction
    with_kind kind = record i { destination_type = some kind }

    rest : DestinationType → Bool → Result Instruction
    rest kind b =
        if b
        then (or_raise i.trigger assembly_exception >>= λ t. add_channels tokens t (with_kind kind))
        else (extract_destination_index tokens >>= λ k.
            ok (record (with_kind kind) { destination_index = some k }))

    sourced : (kind : DestinationType) → IsSourced t op (with_kind kind)
    sourced kind = record {
      trigger_given = h.trigger_given;
      op_given = h.op_given;
      sources = record {
        types = h.sources.types;
        indices = h.sources.indices;
        supplied = h.sources.supplied;
      };
      no_outputs = h.no_outputs;
      values = h.values;
    }

    aimed :
        (kind : DestinationType) (k : ℤ)
        → is_channel kind ≡ false
        → Aimed (some k) i.output_channel_tag kind
    aimed DestinationType.null k q = tt
    aimed DestinationType.register k q = (k, refl)
    aimed DestinationType.predicate k q = (k, refl)
    aimed DestinationType.channel k q = cc

    indexed :
        (kind : DestinationType) (k : ℤ)
        → is_channel kind ≡ false
        → IsComplete (record (with_kind kind) { destination_index = some k })
    indexed kind k q = record {
      condition = t;
      operation = op;
      kind = kind;
      trigger_given = h.trigger_given;
      op_given = h.op_given;
      sources = record {
        types = h.sources.types;
        indices = h.sources.indices;
        supplied = h.sources.supplied;
      };
      kind_given = refl;
      aimed = aimed kind k q;
      outputs = h.no_outputs;
      values = h.values;
    }

    channel : (kind : DestinationType) → is_channel kind ≡ true → kind ≡ DestinationType.channel
    channel DestinationType.channel q = refl
    channel DestinationType.null q = cc
    channel DestinationType.register q = cc
    channel DestinationType.predicate q = cc

    by_kind :
        (kind : DestinationType)
        → (b : Bool) → is_channel kind ≡ b
        → rest kind b ≡ ok j
        → IsComplete j
    by_kind kind true q e =
        let (u, p, e) = >>=-eq-ok (or_raise i.trigger assembly_exception) _ e in
        let same : t ≡ u =
          ok-injective (sym (ap (λ o. or_raise o assembly_exception) h.trigger_given) ∙ p) in
        add_channels-IsComplete tokens t op (with_kind kind) (sourced kind)
          (ap some (channel kind q))
          (subst (λ u. add_channels tokens u (with_kind kind) ≡ ok j) (sym same) e)
    by_kind kind false q e =
        let (k, _, e) = >>=-eq-ok (extract_destination_index tokens) _ e in
        subst IsComplete (ok-injective e) (indexed kind k q)

    by_tokens :
        (b : Bool)
        → (if b
            then (extract_destination_type tokens >>= λ kind. rest kind (is_channel kind))
            else ok (record i {
              destination_type = some DestinationType.null;
              destination_index = none;
            }))
          ≡ ok j
        → IsComplete j
    by_tokens true e =
        let (kind, _, e) = >>=-eq-ok (extract_destination_type tokens) _ e in
        by_kind kind (is_channel kind) refl e
    by_tokens false e = subst IsComplete (ok-injective e) (record {
      condition = t;
      operation = op;
      kind = DestinationType.null;
      trigger_given = h.trigger_given;
      op_given = h.op_given;
      sources = record {
        types = h.sources.types;
        indices = h.sources.indices;
        supplied = h.sources.supplied;
      };
      kind_given = refl;
      aimed = tt;
      outputs = h.no_outputs;
      values = h.values;
    })
