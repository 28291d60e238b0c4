-- ===== src/Diff/Events.antt =====
-- Contract events: how diff.go recognises them, and what it matches them by.
use stellar_xdr_lens.Prelude.{
  ◌&&◌, ◌||◌, ◌∷◌, ◌==◌, [], false, none, some, Bool, List, Option, Text, text_eq, codes, not,
  length, map,
}
use stellar_xdr_lens.Tree.Value.{GoLib, Node, children, type_name, join_with}
use stellar_xdr_lens.Diff.Scalar.{with_default, or_else, is_some}
use stellar_xdr_lens.Tree.Query.{child}
use stellar_xdr_lens.Diff.Ledger.Keys.{first_arm, arm_value, scval_arms}

module _ {F : Type 0} where
  -- isEventNode
  unfoldable pub is_event_node : Node F → Bool
  is_event_node n =
      (text_eq (type_name n) (codes "ContractEvent")
        || text_eq (type_name n) (codes "DiagnosticEvent"))
      || (is_some (child n (codes "ContractId")) || is_some (child n (codes "Event")))

  unfoldable pub starts_with_event : List (Node F) → Bool
  starts_with_event [] = false
  starts_with_event (c ∷ cs) = is_event_node c

  -- isEventCollection
  unfoldable pub is_event_collection : Text → Node F → Node F → Bool
  is_event_collection m a b =
      (text_eq m (codes "Events") || text_eq m (codes "DiagnosticEvents"))
      || (starts_with_event (children a) || starts_with_event (children b))

  unfoldable pub child_of : Option (Node F) → Text → Option (Node F)
  child_of none key = none
  child_of (some n) key = child n key

  unfoldable pub children_of : Option (Node F) → List (Node F)
  children_of none = []
  children_of (some n) = children n

-- isOperationCollection
unfoldable pub is_operation_collection : Text → Bool
is_operation_collection m = text_eq m (codes "Operations")

pub record EventLogMeta : Type 0 where
  pub contract_id : Text
  pub primary_topic : Text
  pub full_topics : Text

unfoldable pub first_text : List Text → Text
first_text [] = []
first_text (t ∷ ts) = t

module _ (go : GoLib) where
  unfoldable pub plain_arm : Option (Text × Text) → Option Text
  plain_arm none = none
  plain_arm (some (arm, t)) = some t

  -- scValNodeSummary
  unfoldable pub scval_node_summary : Node go.F → Text
  scval_node_summary n =
      with_default [] (or_else (plain_arm (first_arm go n (scval_arms go))) (arm_value go (some n)))

  -- extractEventLogMeta
  unfoldable pub extract_event_log_meta : Node go.F → EventLogMeta
  extract_event_log_meta n =
      let event = with_default n (child n (codes "Event")) in
      let v0 = child_of (child event (codes "Body")) (codes "V0") in
      let topics = map scval_node_summary (children_of (child_of v0 (codes "Topics"))) in
      record {
        contract_id = with_default [] (arm_value go (child event (codes "ContractId")));
        primary_topic = first_text topics;
        full_topics = join_with (codes "::") topics;
      }

-- The tests of the two passes of diffEventLists.
unfoldable pub same_topics : EventLogMeta → EventLogMeta → Bool
same_topics m p = text_eq m.contract_id p.contract_id && text_eq m.full_topics p.full_topics

unfoldable pub same_primary_topic : EventLogMeta → EventLogMeta → Bool
same_primary_topic m p =
    text_eq m.contract_id p.contract_id
    && (not (length m.primary_topic == 0) && text_eq m.primary_topic p.primary_topic)
