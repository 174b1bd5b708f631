-- ===== src/Server/Events/Altered.antt =====
-- The altered fields of an event: `create_altered_fields_matching_subscriber_masks` and
-- `collect_all_leaf_paths_iterative` of server/src/ankaios_server/event_handler.rs.
pub mod Leaves
pub mod Fields
use Prim.Native.String.{◌++◌ as ◌<>◌}
use ankaios.Prelude.{
  ℕ, String, ◌==◌, Bool, true, false, ◌&&◌, if◌then◌else◌, List, [], ◌∷◌, ◌++◌, map, Option, none,
  some, length, work, turns_of, collected,
}
use ankaios.Common.Path.{FieldPath}
use ankaios.Common.Yaml.{Yaml, Comparison}
use ankaios.Common.Wildcards.{wildcard_symbol}

unfoldable pub update_path_with_new_key : String → String → String
update_path_with_new_key current_path new_key =
    if current_path == ""
    then new_key
    else if new_key == ""
    then current_path
    else current_path <> ("." <> new_key)

abbrev pub is_last : FieldPath → Bool
is_last [] = true
is_last (part ∷ parts) = false

module _ (y : Yaml) (c : Comparison y) where
  abbrev pub LeafTask : Type 0
  LeafTask = y.Value × String

  -- The entries with a text as key; the others are skipped.
  unfoldable pub keyed_entries : List (y.Value × y.Value) → List (String × y.Value)
  keyed_entries [] = []
  keyed_entries ((key, value) ∷ entries) = elim (y.as_text key) [
    | none ↦ keyed_entries entries
    | some k ↦ (k, value) ∷ keyed_entries entries
  ]

  abbrev pub leaf_tasks : String → List (String × y.Value) → List LeafTask
  leaf_tasks path [] = []
  leaf_tasks path ((k, value) ∷ entries) =
      (value, update_path_with_new_key path k) ∷ leaf_tasks path entries

  -- One turn of the loop: a path that is found, or the tasks that are pushed.
  unfoldable pub leaf_step : LeafTask → List String × List LeafTask
  leaf_step (current_tree_value, current_tree_path) = elim (y.as_mapping current_tree_value) [
    | none ↦ (current_tree_path ∷ [], [])
    | some current_node ↦
        ([], leaf_tasks current_tree_path (keyed_entries (y.entries current_node)))
  ]

  unfoldable pub collect_all_leaf_paths_iterative : y.Value → List String
  collect_all_leaf_paths_iterative start_node =
      work leaf_step (turns_of leaf_step (c.depth start_node) (start_node, ""))
        ((start_node, "") ∷ []) []

  -- The node in the difference tree and in the extended one, the rest of the mask, and the path.
  abbrev pub MaskTask : Type 0
  MaskTask = y.Mapping × y.Mapping × FieldPath × String

  abbrev pub Turn : Type 0
  Turn = List String × List MaskTask

  -- The last three arms: the difference tree has the value `null`, which stands for a whole subtree.
  unfoldable pub null_turn : y.Value → FieldPath → String → Turn
  null_turn next_extended rest path =
      if is_last rest then (path ∷ [], []) else elim (y.as_mapping next_extended) [
        | none ↦ ([], [])
        | some next_extended_node ↦ ([], (y.empty, next_extended_node, rest, path) ∷ [])
      ]

  -- The match on the values under a key in both trees.
  unfoldable pub pair_turn : y.Value → y.Value → FieldPath → String → Turn
  pair_turn next_node next_extended rest path = elim (y.as_mapping next_node) [
    | none ↦ if c.is_null next_node then null_turn next_extended rest path else ([], [])
    | some node ↦ elim (y.as_mapping next_extended) [
      | none ↦ ([], [])
      | some extended_node ↦ ([], (node, extended_node, rest, path) ∷ [])
    ]
  ]

  -- The key is in the extended tree only.
  unfoldable pub extended_turn : y.Value → FieldPath → String → Turn
  extended_turn next_extended rest path = elim (y.as_mapping next_extended) [
    | some next_extended_node ↦ ([], (y.empty, next_extended_node, rest, path) ∷ [])
    | none ↦ if c.is_null next_extended && is_last rest then (path ∷ [], []) else ([], [])
  ]

  abbrev pub or_null : Option y.Value → y.Value
  or_null none = y.null
  or_null (some value) = value

  abbrev pub then_turn : Turn → Turn → Turn
  then_turn first second = (first.0 ++ second.0, first.1 ++ second.1)

  -- The loop over the children at a wildcard.
  unfoldable pub wildcard_turn : y.Mapping → FieldPath → String → List (String × y.Value) → Turn
  wildcard_turn node rest path [] = ([], [])
  wildcard_turn node rest path ((k, next_extended) ∷ entries) =
      then_turn
        (pair_turn (or_null (y.lookup node (y.text k))) next_extended rest
          (update_path_with_new_key path k))
        (wildcard_turn node rest path entries)

  unfoldable pub named_turn : y.Mapping → y.Mapping → String → FieldPath → String → Turn
  named_turn node extended part rest path = elim (y.lookup extended (y.text part)) [
    | none ↦ ([], [])
    | some next_extended ↦ elim (y.lookup node (y.text part)) [
      | some next_node ↦ pair_turn next_node next_extended rest (update_path_with_new_key path part)
      | none ↦ extended_turn next_extended rest (update_path_with_new_key path part)
    ]
  ]

  unfoldable pub mask_step : MaskTask → Turn
  mask_step (node, extended, [], path) = (
    map (update_path_with_new_key path) (collect_all_leaf_paths_iterative (y.from_mapping node)),
    [],
  )
  mask_step (node, extended, (part ∷ rest), path) = elim (part == wildcard_symbol) [
    | true ↦ wildcard_turn node rest path (keyed_entries (y.entries extended))
    | false ↦ named_turn node extended part rest path
  ]

  unfoldable pub fields_of_mask : y.Mapping → y.Mapping → FieldPath → List String
  fields_of_mask extended_difference_tree difference_tree mask =
      let task : MaskTask = (difference_tree, extended_difference_tree, mask, "") in
      work mask_step (turns_of mask_step (length mask) task) (task ∷ []) []

  unfoldable pub create_altered_fields_matching_subscriber_masks :
      y.Mapping → y.Mapping → List FieldPath → List String
  create_altered_fields_matching_subscriber_masks extended difference_tree [] =
      collect_all_leaf_paths_iterative (y.from_mapping difference_tree)
  create_altered_fields_matching_subscriber_masks extended difference_tree (mask ∷ masks) =
      collected (fields_of_mask extended difference_tree) (mask ∷ masks)
