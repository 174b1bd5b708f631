-- ===== src/Server/ComparatorTests.antt =====
-- Two small states, what their comparison finds, and the theorem at them.
use ankaios.Prelude.{String, list_eq, ok, ◌≡◌, refl}
use ankaios.Common.Path.{split_last}
use ankaios.Common.Object.{set, set_in, set_from}
use ankaios.Common.Sample.{
  Node, Fields, nothing, word, two, map, end, field, sample, sample_comparison, find_field,
  put_field, list_fields, drop_field, depth_of, depth_of_fields, same_node, same_fields,
}
use ankaios.Server.Comparator.{
  pop, insert_path, insert_first, insert_both, insert_difference, insert_all,
  copy_tree_nodes_without_data, copied, added_key, compare_sequences, compare_values, common_key,
  old_key, push_children, pair_differences, pair_children, compare_loop, pair_cost,
  state_differences, StateDifferenceTree,
}
use ankaios.Common.Sample.Keys.{text_keys}
use ankaios.Server.Comparator.Apart.{state_differences-total}

program : Unit {0}
unfolding split_last set set_in set_from find_field put_field list_fields drop_field depth_of
    depth_of_fields same_node same_fields pop insert_path insert_first insert_both insert_difference
    insert_all copy_tree_nodes_without_data copied added_key compare_sequences compare_values
    common_key old_key push_children pair_differences pair_children compare_loop pair_cost
    state_differences list_eq
program = tt

-- The workload `a` has another agent, `b` is gone and `c` is new.
abbrev old_state : Fields
old_state =
    field "w" (map (field "a" (map (field "agent" (word "x") end)) (field "b" (word "y") end))) end

abbrev new_state : Fields
new_state =
    field "w"
      (map (
        field "a" (map (field "agent" (word "z") end))
          (field "c" (map (field "tags" (two (word "s") (word "t")) end)) end)))
      end

abbrev at : String → Node → Node
at k v = map (field k v end)

compared :
    state_differences sample sample_comparison old_state new_state
    ≡ ok (record {
      added_tree = record {
        first_difference_tree = at "w" (at "c" nothing);
        full_difference_tree = at "w" (at "c" (at "tags" nothing));
      };
      removed_tree = record {
        first_difference_tree = at "w" (at "b" nothing);
        full_difference_tree = at "w" (at "b" nothing);
      };
      updated_tree = at "w" (at "a" (at "agent" nothing));
    })
unfolding program
compared = refl

state_differences-total_example :
    (t : StateDifferenceTree sample) × (state_differences sample sample_comparison old_state
        new_state
      ≡ ok t)
state_differences-total_example =
    state_differences-total sample sample_comparison old_state new_state (text_keys (map old_state))
      (text_keys (map new_state))
