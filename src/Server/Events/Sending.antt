-- ===== src/Server/Events/Sending.antt =====
-- The events that are sent to the subscribers: `send_events` and the altered fields of
-- server/src/ankaios_server/event_handler.rs. The store is gone through in the order of its list.
pub mod Sent
pub mod Empty
use ankaios.Prelude.{
  String, Bool, true, false, ◌&&◌, List, [], ◌∷◌, ◌++◌, Result, ok, err, and_then, collected,
}
use ankaios.Common.Path.{FieldPath}
use ankaios.Common.Yaml.{Yaml, Comparison}
use ankaios.Server.RequestId.{RequestId, to_string_id}
use ankaios.Server.StateQuery.{QueryCodec, QueryError, get_complete_state_by_field_mask}
use ankaios.Server.Comparator.{ComparisonError, no_elements, StateDifferenceTree}
use ankaios.Server.Comparator.Trees.{to_mapping}
use ankaios.Server.Events.{SubscriberStore}
use ankaios.Server.Events.Altered.{create_altered_fields_matching_subscriber_masks}

pub record AlteredFields : Type 0 where
  pub added_fields : List String
  pub removed_fields : List String
  pub updated_fields : List String

unfoldable pub all_empty : AlteredFields → Bool
all_empty a =
    (no_elements a.added_fields && no_elements a.removed_fields) && no_elements a.updated_fields

abbrev pub filter_masks : AlteredFields → List String
filter_masks a = (a.added_fields ++ a.removed_fields) ++ a.updated_fields

-- The five trees as mappings.
pub record DifferenceMappings (y : Yaml) : Type 0 where
  pub added_first_difference_tree : y.Mapping
  pub added_full_difference_tree : y.Mapping
  pub removed_first_difference_tree : y.Mapping
  pub removed_full_difference_tree : y.Mapping
  pub updated_full_difference_tree : y.Mapping

-- The message `complete_state` with its altered fields.
pub record CompleteStateEvent (State : Type 0) : Type 0 where
  pub request_id : String
  pub complete_state : State
  pub altered_fields : AlteredFields

abbrev pub unwrap_or_default : {E A : Type 0} → A → Result E A → A
unwrap_or_default default_value (err e) = default_value
unwrap_or_default default_value (ok a) = a

module _ (y : Yaml) (c : Comparison y) where
  unfoldable pub mappings_of : StateDifferenceTree y → Result ComparisonError (DifferenceMappings y)
  mappings_of t = and_then (to_mapping y t.added_tree.first_difference_tree) (λ added_first.
      and_then (to_mapping y t.added_tree.full_difference_tree) (λ added_full.
        and_then (to_mapping y t.removed_tree.first_difference_tree) (λ removed_first.
          and_then (to_mapping y t.removed_tree.full_difference_tree) (λ removed_full.
            and_then (to_mapping y t.updated_tree) (λ updated_full. ok (record {
              added_first_difference_tree = added_first;
              added_full_difference_tree = added_full;
              removed_first_difference_tree = removed_first;
              removed_full_difference_tree = removed_full;
              updated_full_difference_tree = updated_full;
            }))))))

  unfoldable pub altered_fields_of : DifferenceMappings y → List FieldPath → AlteredFields
  altered_fields_of d subscribed_field_masks = record {
    added_fields =
        create_altered_fields_matching_subscriber_masks y c d.added_full_difference_tree
          d.added_first_difference_tree subscribed_field_masks;
    removed_fields =
        create_altered_fields_matching_subscriber_masks y c d.removed_full_difference_tree
          d.removed_first_difference_tree subscribed_field_masks;
    updated_fields =
        create_altered_fields_matching_subscriber_masks y c d.updated_full_difference_tree
          d.updated_full_difference_tree subscribed_field_masks;
  }

  module _ (codec : QueryCodec y) (default_state : codec.CompleteState)
      (current : codec.CompleteState) where
    abbrev pub event_for : RequestId → AlteredFields → CompleteStateEvent codec.CompleteState
    event_for request_id altered_fields = record {
      request_id = to_string_id request_id;
      complete_state =
          unwrap_or_default default_state
            (get_complete_state_by_field_mask y codec current (filter_masks altered_fields));
      altered_fields = altered_fields;
    }

    unfoldable pub subscriber_events :
        DifferenceMappings y
        → RequestId × List FieldPath
        → List (CompleteStateEvent codec.CompleteState)
    subscriber_events d (request_id, subscribed_field_masks) =
        let altered_fields = altered_fields_of d subscribed_field_masks in
        elim (all_empty altered_fields) [
          | true ↦ []
          | false ↦ event_for request_id altered_fields ∷ []
        ]

    -- `current` is the state that the server has now, with the workloads' states and the agents.
    unfoldable pub send_events :
        SubscriberStore
        → StateDifferenceTree y
        → Result ComparisonError (List (CompleteStateEvent codec.CompleteState))
    send_events subscriber_store field_difference_tree =
        and_then (mappings_of field_difference_tree)
          (λ d. ok (collected (subscriber_events d) subscriber_store))
