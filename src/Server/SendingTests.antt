-- ===== src/Server/SendingTests.antt =====
-- A comparison of two small states, the events that it leads to, and the theorems at them.
use ankaios.Prelude.{
  String, true, false, List, [], ◌∷◌, list_eq, ok, some, ◌≡◌, ◌↔◌, refl, IsIn, work, turns_of,
  member, starts_with, split,
}
use ankaios.Common.Path.{split_last}
use ankaios.Common.Object.{set, set_in, set_from, get, get_part}
use ankaios.Common.Wildcards.{push_keys, follow, expand_loop, cost, total_cost, expand_wildcards}
use ankaios.Common.Sample.{
  Node, Fields, nothing, word, map, end, field, sample, sample_comparison, find_field, put_field,
  list_fields, drop_field, depth_of, depth_of_fields, same_node, same_fields,
}
use ankaios.Server.RequestId.{RequestId, cli_request_id, to_string_id}
use ankaios.Server.StateQuery.{
  QueryCodec, replace_suffix, add_partners, query_filters, collect,
  get_complete_state_by_field_mask,
}
use ankaios.Server.Comparator.{
  StateDifferenceTree, pop, insert_path, insert_first, insert_both, insert_difference, insert_all,
  copy_tree_nodes_without_data, copied, added_key, compare_sequences, compare_values, common_key,
  old_key, push_children, pair_differences, pair_children, compare_loop, pair_cost,
  state_differences, new_state_difference_tree,
}
use ankaios.Server.Comparator.Trees.{
  object_is_empty, difference_tree_is_empty, state_difference_tree_is_empty, to_mapping,
}
use ankaios.Server.Events.{SubscriberStore}
use ankaios.Server.Events.Altered.{
  update_path_with_new_key, keyed_entries, leaf_step, collect_all_leaf_paths_iterative, null_turn,
  pair_turn, extended_turn, wildcard_turn, named_turn, mask_step, fields_of_mask,
  create_altered_fields_matching_subscriber_masks,
}
use ankaios.Server.Events.Altered.Leaves.{path_behind}
use ankaios.Server.Events.Altered.Fields.{value_at, if_leaf, fields_of_mask-if_leaf}
use ankaios.Server.Events.Sending.{
  AlteredFields, CompleteStateEvent, DifferenceMappings, filter_masks, all_empty, mappings_of,
  altered_fields_of, subscriber_events, send_events,
}
use ankaios.Server.Events.Sending.Sent.{IsSent, IsAltered, send_events-IsSent}
use ankaios.Server.Events.Sending.Empty.{send_events-empty}

program : Unit {0}
unfolding split split_last set set_in set_from get get_part push_keys follow expand_loop cost
    total_cost expand_wildcards find_field put_field list_fields drop_field depth_of depth_of_fields
    same_node same_fields to_string_id replace_suffix add_partners query_filters collect
    get_complete_state_by_field_mask pop insert_path insert_first insert_both insert_difference
    insert_all copy_tree_nodes_without_data copied added_key compare_sequences compare_values
    common_key old_key push_children pair_differences pair_children compare_loop pair_cost
    state_differences list_eq object_is_empty difference_tree_is_empty
    state_difference_tree_is_empty to_mapping update_path_with_new_key keyed_entries leaf_step
    collect_all_leaf_paths_iterative null_turn pair_turn extended_turn wildcard_turn named_turn
    mask_step fields_of_mask create_altered_fields_matching_subscriber_masks all_empty mappings_of
    altered_fields_of subscriber_events send_events work turns_of member starts_with
program = tt

abbrev query_codec : QueryCodec sample
query_codec = record {
  CompleteState = Node;
  is_state_filter = λ filter. false;
  is_substate_filter = λ filter. false;
  object_of = λ state. state;
  complete_state_of = λ object. some object;
}

abbrev at : String → Node → Node
at k v = map (field k v end)

-- The workload `a` has another agent, and `c` is new.
abbrev old_state : Fields
old_state = field "w" (at "a" (at "agent" (word "x"))) end

abbrev new_workloads : Fields
new_workloads = field "a" (at "agent" (word "z")) (field "c" (at "tags" (at "t" (word "s"))) end)

abbrev new_state : Fields
new_state = field "w" (map new_workloads) end

abbrev trees : StateDifferenceTree sample
trees = record {
  added_tree = record {
    first_difference_tree = at "w" (at "c" nothing);
    full_difference_tree = at "w" (at "c" (at "tags" (at "t" nothing)));
  };
  removed_tree = record { first_difference_tree = map end; full_difference_tree = map end };
  updated_tree = at "w" (at "a" (at "agent" nothing));
}

compared : state_differences sample sample_comparison old_state new_state ≡ ok trees
unfolding program
compared = refl

abbrev cli : String → RequestId
cli id = cli_request_id (record { cli_name = "cli-conn-1"; request_id = id })

-- The first subscribes to everything, the second to the tags of all workloads, the third to what has not
-- changed, and the fourth to the tags of `c`, which end at a mapping.
abbrev subscribers : SubscriberStore
subscribers =
    (cli "1", [])
    ∷ (cli "2", ("w" ∷ "*" ∷ "tags" ∷ "t" ∷ []) ∷ [])
    ∷ (cli "3", ("agents" ∷ []) ∷ [])
    ∷ (cli "4", ("w" ∷ "c" ∷ "tags" ∷ []) ∷ [])
    ∷ []

abbrev fields : List String → List String → AlteredFields
fields added updated = record {
  added_fields = added;
  removed_fields = [];
  updated_fields = updated;
}

sent :
    send_events sample sample_comparison query_codec nothing (map new_state) subscribers trees
    ≡ ok (
        record {
          request_id = "cli-conn-1@1";
          complete_state = at "w" (
              map (
                field "c" (at "tags" (at "t" (word "s"))) (field "a" (at "agent" (word "z")) end)));
          altered_fields = fields ("w.c" ∷ []) ("w.a.agent" ∷ []);
        }
        ∷ record {
          request_id = "cli-conn-1@2";
          complete_state = at "w" (at "c" (at "tags" (at "t" (word "s"))));
          altered_fields = fields ("w.c.tags.t" ∷ []) [];
        }
        ∷ [])
unfolding program
sent = refl

send_events-IsSent_example :
    (d : DifferenceMappings sample) × (events : List (CompleteStateEvent Node)) × (mappings_of
        sample sample_comparison trees
      ≡ ok d)
    × (send_events sample sample_comparison query_codec nothing (map new_state) subscribers trees
        ≡ ok events)
    × ((e : CompleteStateEvent Node)
        → IsIn e events
          ↔ IsSent sample sample_comparison query_codec nothing (map new_state) subscribers d e)
    × ((p : String)
        → IsIn p (filter_masks (altered_fields_of sample sample_comparison d []))
          ↔ IsAltered sample sample_comparison d p)
send_events-IsSent_example =
    send_events-IsSent sample sample_comparison query_codec nothing (map new_state) old_state
      new_state trees subscribers compared

not_empty : state_difference_tree_is_empty sample trees ≡ some false
unfolding program
not_empty = refl

unchanged : state_difference_tree_is_empty sample (new_state_difference_tree sample) ≡ some true
unfolding program
unchanged = refl

send_events-empty_example :
    send_events sample sample_comparison query_codec nothing
      (map new_state)
      subscribers
      (new_state_difference_tree sample)
    ≡ ok []
send_events-empty_example =
    send_events-empty sample sample_comparison query_codec nothing (map new_state)
      (new_state_difference_tree sample) subscribers unchanged

-- Below the top of the trees: the workload `c` was added, and a mask asks for its tags.
abbrev full_below : Fields
full_below = field "c" (at "tags" (at "t" nothing)) end

first_at : find_field (field "c" nothing end) "c" ≡ some nothing
unfolding program
first_at = refl

full_at : find_field full_below "c" ≡ some (at "tags" (at "t" nothing))
unfolding program
full_at = refl

fields_of_mask-if_leaf_example :
    fields_of_mask sample sample_comparison full_below (field "c" nothing end) ("c" ∷ "tags" ∷ [])
    ≡ if_leaf sample sample_comparison
        (path_behind "" ("c" ∷ "tags" ∷ []))
        (value_at sample sample_comparison (field "tags" (at "t" nothing) end) ("tags" ∷ []))
fields_of_mask-if_leaf_example =
    fields_of_mask-if_leaf sample sample_comparison full_below (field "c" nothing end) "c"
      (at "tags" (at "t" nothing)) (field "tags" (at "t" nothing) end) "tags" [] first_at full_at
      refl (refl, (refl, tt))

-- Nothing is reported, although the tags of the workload are new.
tags_missed :
    fields_of_mask sample sample_comparison full_below (field "c" nothing end) ("c" ∷ "tags" ∷ [])
    ≡ []
unfolding program
tags_missed = refl

-- With a wildcard in the mask the same mapping is reported.
tags_found :
    fields_of_mask sample sample_comparison full_below (field "c" nothing end) ("c" ∷ "*" ∷ [])
    ≡ "c.tags" ∷ []
unfolding program
tags_found = refl
