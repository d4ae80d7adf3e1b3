-- ===== src/Assembly/Build/Shape.antt =====
-- The shape of the instructions that the assembler reads: what a core relies on to run one.
use mathlib.Core.Path.{subst}
use tia_infrastructure.Prelude.{
  ℕ, suc, ◌≡◌, refl, sym, ap, ◌∙◌, Bool, true, false, Option, none, some, List, [], ◌∷◌, ◌++◌, map,
  length, Result, ok, or_raise, >>=-eq-ok, ok-injective, attribute_error, type_error,
}
use tia_infrastructure.Prelude.Text.{Text}
use tia_infrastructure.Isa.{Op}
use tia_infrastructure.Assembly.{each}
use tia_infrastructure.Assembly.Predicates.{
  determine_predicates_to_update, parse_predicate_bin_string, sorted, changes,
  trigger_parse_predicate_bin_string,
}
use tia_infrastructure.Assembly.Trigger
use tia_infrastructure.Assembly.Trigger.{
  Trigger, add_predicate_conditions_from_string, add_predicate_conditions_from_bin_string,
  add_input_channels_conditions_from_string, tokenize_input_channel_string, extract_input_channels,
  extract_input_channel_tags,
}
use tia_infrastructure.Assembly.Fields.{from_instruction_string}
use tia_infrastructure.Assembly.Datapath.{
  tokenize_datapath_string, extract_op, tokenize_dequeue_input_channels_string, tail,
}
use tia_infrastructure.Assembly.Build.{
  Instruction, init, add_sources, dequeue_channel, add_datapath_instruction_from_string,
  add_dequeue_input_channels_from_string, add_predicate_updates_from_bin_strings,
  extract_predicate_bin_string, add_predicate_updates_from_strings, if_given, from_string,
}
use tia_infrastructure.Assembly.Build.Sources.{add_sources-Filled}
use tia_infrastructure.Assembly.Build.Destination.{IsComplete, add_destination-IsComplete}

-- An instruction without its datapath: it has a trigger, and all else as at first.
add_datapath-IsComplete :
    (eval_op : Text → Result Op) (text : Text) (t : Trigger) {j : Instruction}
    → t.output_channel_indices ≡ []
    → add_datapath_instruction_from_string eval_op text (record init { trigger = some t }) ≡ ok j
    → IsComplete j
unfolding add_datapath_instruction_from_string
add_datapath-IsComplete eval_op text t {j} n e =
    let (tokens, _, e) = >>=-eq-ok (tokenize_datapath_string text) _ e in
    let (op, _, e) = >>=-eq-ok (extract_op eval_op tokens) _ e in
    let start : Instruction = record init { trigger = some t; op = some op } in
    let (i, q, e) = >>=-eq-ok (add_sources op tokens (length tokens) start) _ e in
    let (f, h) =
      add_sources-Filled op tokens (length tokens) start
        (record { types = refl; indices = refl; supplied = tt }) q in
    add_destination-IsComplete tokens t op i
      (record {
        trigger_given = h.trigger;
        op_given = h.op;
        sources = f;
        no_outputs = h.outputs ∙ sym n;
        values = ap length h.values ∙ sym (ap length h.updates);
      })
      e

-- The steps that read the trigger leave its output channels alone.
condition-outputs :
    (s : Text) (t : Trigger) {u : Trigger}
    → add_predicate_conditions_from_string s t ≡ ok u
    → u.output_channel_indices ≡ t.output_channel_indices
unfolding add_predicate_conditions_from_string add_predicate_conditions_from_bin_string
condition-outputs s t e =
    let (bits, _, e) = >>=-eq-ok (Trigger.extract_predicate_bin_string s) _ e in
    let (r, _, e) = >>=-eq-ok (trigger_parse_predicate_bin_string bits) _ e in
    ap (λ (u : Trigger). u.output_channel_indices) (sym (ok-injective e))

channels-outputs :
    (s : Text) (t : Trigger) {u : Trigger}
    → add_input_channels_conditions_from_string s t ≡ ok u
    → u.output_channel_indices ≡ t.output_channel_indices
unfolding add_input_channels_conditions_from_string
channels-outputs s t e =
    let (tokens, _, e) = >>=-eq-ok (tokenize_input_channel_string s) _ e in
    let (cs, _, e) = >>=-eq-ok (extract_input_channels tokens) _ e in
    let (ts, _, e) = >>=-eq-ok (extract_input_channel_tags tokens) _ e in
    ap (λ (u : Trigger). u.output_channel_indices) (sym (ok-injective e))

dequeue-IsComplete :
    (s : Text) (i : Instruction) {j : Instruction}
    → IsComplete i
    → add_dequeue_input_channels_from_string s i ≡ ok j
    → IsComplete j
unfolding add_dequeue_input_channels_from_string
dequeue-IsComplete s i c e =
    let (tokens, _, e) = >>=-eq-ok (tokenize_dequeue_input_channels_string s) _ e in
    let (cs, _, e) = >>=-eq-ok (each dequeue_channel (tail tokens)) _ e in
    subst IsComplete (ok-injective e) (record {
      condition = c.condition;
      operation = c.operation;
      kind = c.kind;
      trigger_given = c.trigger_given;
      op_given = c.op_given;
      sources = record {
        types = c.sources.types;
        indices = c.sources.indices;
        supplied = c.sources.supplied;
      };
      kind_given = c.kind_given;
      aimed = c.aimed;
      outputs = c.outputs;
      values = c.values;
    })

length-map : {A B : Type 0} (f : A → B) (xs : List A) → length (map f xs) ≡ length xs
length-map f [] = refl
length-map f (x ∷ xs) = ap suc (length-map f xs)

updates-length :
    (original desired : Text) {u : List ℕ × List Bool}
    → determine_predicates_to_update original desired ≡ ok u
    → length u.1 ≡ length u.0
unfolding determine_predicates_to_update
updates-length original desired e =
    let (r, _, e) = >>=-eq-ok (parse_predicate_bin_string original) _ e in
    let (q, _, e) = >>=-eq-ok (parse_predicate_bin_string desired) _ e in
    let us = sorted (changes true q.0 r.0 ++ changes false q.1 r.1) in
    subst (λ u. length u.1 ≡ length u.0) (ok-injective e)
      (length-map (λ u. u.1) us ∙ sym (length-map (λ u. u.0) us))

updates-IsComplete :
    (condition update : Text) (i : Instruction) {j : Instruction}
    → IsComplete i
    → add_predicate_updates_from_strings condition update i ≡ ok j
    → IsComplete j
unfolding add_predicate_updates_from_strings add_predicate_updates_from_bin_strings
updates-IsComplete condition update i c e =
    let (original, _, e) = >>=-eq-ok (Trigger.extract_predicate_bin_string condition) _ e in
    let (desired, _, e) = >>=-eq-ok (extract_predicate_bin_string update) _ e in
    let (u, q, e) = >>=-eq-ok (determine_predicates_to_update original desired) _ e in
    subst IsComplete (ok-injective e) (record {
      condition = c.condition;
      operation = c.operation;
      kind = c.kind;
      trigger_given = c.trigger_given;
      op_given = c.op_given;
      sources = record {
        types = c.sources.types;
        indices = c.sources.indices;
        supplied = c.sources.supplied;
      };
      kind_given = c.kind_given;
      aimed = c.aimed;
      outputs = c.outputs;
      values = updates-length original desired q;
    })

-- A field that may be missing.
given {ℓ} :
    {A : Type ℓ} (P : A → Type 0) (o : Option Text) (step : Text → A → Result A) (a : A) {b : A}
    → ((s : Text) (b : A) → step s a ≡ ok b → P b)
    → P a
    → if_given o step a ≡ ok b
    → P b
given P none step a f p e = subst P (ok-injective e) p
given P (some s) step a {b} f p e = f s b e

-- An instruction that is read from a text has a trigger, an operation and a destination type; three
-- source types and three indices, with a value for an immediate; an index for a destination that
-- needs one, and a tag for one that is channels; the trigger's output channels are the
-- instruction's; and as many predicate values as indices.
pub from_string-IsComplete :
    (eval_op : Text → Result Op) (s : Text) {i : Instruction}
    → from_string eval_op s ≡ ok i
    → IsComplete i
unfolding from_string
from_string-IsComplete eval_op s e =
    let (f, _, e) = >>=-eq-ok (from_instruction_string s) _ e in
    let (condition, _, e) =
      >>=-eq-ok (or_raise f.trigger_predicate_conditions_string attribute_error) _ e in
    let (t, p, e) = >>=-eq-ok (add_predicate_conditions_from_string condition Trigger.init) _ e in
    let (u, q, e) =
      >>=-eq-ok
        (if_given f.trigger_input_channel_conditions_string
          add_input_channels_conditions_from_string t)
        _ e in
    let (datapath, _, e) = >>=-eq-ok (or_raise f.datapath_instruction_string type_error) _ e in
    let (i, r, e) =
      >>=-eq-ok
        (add_datapath_instruction_from_string eval_op datapath (record init { trigger = some u })) _
        e in
    let (j, d, e) =
      >>=-eq-ok (if_given f.dequeue_input_channels_string add_dequeue_input_channels_from_string i)
        _ e in
    let none_out = condition-outputs condition Trigger.init p in
    let none_out' =
      given (λ (u : Trigger). u.output_channel_indices ≡ [])
        f.trigger_input_channel_conditions_string add_input_channels_conditions_from_string t
        (λ s u g. channels-outputs s t g ∙ none_out) none_out q in
    let c = add_datapath-IsComplete eval_op datapath u none_out' r in
    let c' =
      given IsComplete f.dequeue_input_channels_string add_dequeue_input_channels_from_string i
        (λ s j g. dequeue-IsComplete s i c g) c d in
    given IsComplete f.predicate_update_string (add_predicate_updates_from_strings condition) j
      (λ s k g. updates-IsComplete condition s j c' g) c' e
