-- ===== src/Server/Comparator.antt =====
-- The differences of two states: server/src/ankaios_server/state_comparator.rs. The sets of keys are gone
-- through in the order of the mappings. A value of a mapping that is under a key is what `get` gives.
pub mod Reference
pub mod Loop
pub mod Links
pub mod Copies
pub mod Changes
pub mod Kinds
pub mod Building
pub mod Meaning
pub mod Trees
pub mod Inserting
pub mod Apart
use ankaios.Prelude.{
  collected, ℕ, zero, suc, ◌+◌, String, Bool, true, false, not, ◌&&◌, if◌then◌else◌, List, [], ◌∷◌,
  ◌++◌, list_eq, Option, none, some, Result, ok, err, and_then,
}
use ankaios.Common.Path.{FieldPath}
use ankaios.Common.Yaml.{Yaml, Comparison}
use ankaios.Common.Object.{ObjectError, Object, default_object, set}

-- `unwrap_or_illegal_state` on an error, and a loop that is cut off.
pub data ComparisonError : Type 0 where
  illegal_state out_of_fuel : ComparisonError

-- `Vec::pop`
unfoldable pub pop : FieldPath → FieldPath
pop [] = []
pop (k ∷ []) = []
pop (k ∷ (j ∷ mask)) = k ∷ pop (j ∷ mask)

abbrev pub no_elements : {A : Type 0} → List A → Bool
no_elements [] = true
no_elements (x ∷ xs) = false

abbrev pub both : {A B : Type 0} → Option A → Option A → (A → A → B) → B → B
both none b use_both otherwise = otherwise
both (some a) none use_both otherwise = otherwise
both (some a) (some b) use_both otherwise = use_both a b

-- `AddedTree` and `RemovedTree` have the same fields.
pub record DifferenceTree (y : Yaml) : Type 0 where
  pub first_difference_tree : Object y
  pub full_difference_tree : Object y

-- `UpdatedTree` has the full tree only.
pub record StateDifferenceTree (y : Yaml) : Type 0 where
  pub added_tree : DifferenceTree y
  pub removed_tree : DifferenceTree y
  pub updated_tree : Object y

pub data StackTask (y : Yaml) : Type 0 where
  visit_pair : y.Mapping → y.Mapping → StackTask y
  push_field : String → StackTask y
  pop_field : StackTask y

-- What is inserted into the trees at one place of the code: a field with the nodes below it, an
-- element more or less in a sequence, or a value that has changed.
pub data Difference (y : Yaml) : Type 0 where
  added removed : FieldPath → y.Value → Difference y
  filled emptied updated : FieldPath → Difference y

-- What a key of the old mapping leads to: nothing, an insertion, or tasks for the two mappings.
pub data KeyOutcome (y : Yaml) : Type 0 where
  skipped : KeyOutcome y
  differs : Difference y → KeyOutcome y
  descends : String → y.Mapping → y.Mapping → KeyOutcome y

module _ (y : Yaml) where
  abbrev pub new_difference_tree : DifferenceTree y
  new_difference_tree = record {
    first_difference_tree = default_object y;
    full_difference_tree = default_object y;
  }

  -- `StateDifferenceTree::new`
  abbrev pub new_state_difference_tree : StateDifferenceTree y
  new_state_difference_tree = record {
    added_tree = new_difference_tree;
    removed_tree = new_difference_tree;
    updated_tree = default_object y;
  }

  abbrev or_illegal_state : Result ObjectError (Object y) → Result ComparisonError (Object y)
  or_illegal_state (ok o) = ok o
  or_illegal_state (err e) = err illegal_state

  unfoldable pub insert_path : Object y → FieldPath → y.Value → Result ComparisonError (Object y)
  insert_path tree [] new_value = ok tree
  insert_path tree (part ∷ at_path) new_value =
      or_illegal_state (set y tree (part ∷ at_path) new_value)

  unfoldable pub insert_first :
      DifferenceTree y → FieldPath → Result ComparisonError (DifferenceTree y)
  insert_first t path =
      and_then (insert_path t.first_difference_tree path y.null)
        (λ first. ok (record t { first_difference_tree = first }))

  unfoldable pub insert_both :
      DifferenceTree y → FieldPath → y.Value → Result ComparisonError (DifferenceTree y)
  insert_both t path nodes = and_then (insert_first t path) (λ u.
      and_then (insert_path u.full_difference_tree path nodes)
        (λ full. ok (record u { full_difference_tree = full })))

  unfoldable pub insert_difference :
      StateDifferenceTree y → Difference y → Result ComparisonError (StateDifferenceTree y)
  insert_difference t (added path nodes) =
      and_then (insert_both t.added_tree path nodes) (λ u. ok (record t { added_tree = u }))
  insert_difference t (removed path nodes) =
      and_then (insert_both t.removed_tree path nodes) (λ u. ok (record t { removed_tree = u }))
  insert_difference t (filled path) =
      and_then (insert_first t.added_tree path) (λ u. ok (record t { added_tree = u }))
  insert_difference t (emptied path) =
      and_then (insert_first t.removed_tree path) (λ u. ok (record t { removed_tree = u }))
  insert_difference t (updated path) =
      and_then (insert_path t.updated_tree path y.null) (λ u. ok (record t { updated_tree = u }))

  unfoldable pub insert_all :
      StateDifferenceTree y → List (Difference y) → Result ComparisonError (StateDifferenceTree y)
  insert_all t [] = ok t
  insert_all t (d ∷ ds) = and_then (insert_difference t d) (λ u. insert_all u ds)

  abbrev pub copy_entries : (y.Value → y.Value) → List (y.Value × y.Value) → y.Mapping → y.Mapping
  copy_entries copy [] new_map = new_map
  copy_entries copy ((key, next_value) ∷ map) new_map =
      copy_entries copy map (y.put new_map key (copy next_value))

  abbrev pub copy_mapping : (y.Value → y.Value) → List (y.Value × y.Value) → y.Value
  copy_mapping copy [] = y.null
  copy_mapping copy (e ∷ map) = y.from_mapping (copy_entries copy (e ∷ map) y.empty)

  -- The number is the depth of the value: at depth 0 there are no entries.
  unfoldable pub copy_tree_nodes_without_data : ℕ → y.Value → y.Value
  copy_tree_nodes_without_data zero start_node = y.null
  copy_tree_nodes_without_data (suc depth) start_node = elim (y.as_mapping start_node) [
    | none ↦ y.null
    | some map ↦ copy_mapping (copy_tree_nodes_without_data depth) (y.entries map)
  ]

  -- One entry of the stack for each key that is a mapping in both states.
  abbrev pub Child : Type 0
  Child = String × (y.Mapping × y.Mapping)

  abbrev pub difference_of : KeyOutcome y → List (Difference y)
  difference_of skipped = []
  difference_of (differs d) = d ∷ []
  difference_of (descends k old new) = []

  abbrev pub child_of : KeyOutcome y → List Child
  child_of skipped = []
  child_of (differs d) = []
  child_of (descends k old new) = (k, (old, new)) ∷ []

  unfoldable pub push_children : List Child → List (StackTask y) → List (StackTask y)
  push_children [] stack_tasks = stack_tasks
  push_children ((key, (old, new)) ∷ children) stack_tasks =
      push_children children (push_field key ∷ visit_pair old new ∷ pop_field ∷ stack_tasks)

  module _ (c : Comparison y) where
    unfoldable pub copied : y.Value → y.Value
    copied value = copy_tree_nodes_without_data (c.depth value) value

    abbrev pub convert_key_to_string : y.Value → Option String
    convert_key_to_string key = elim (y.as_text key) [ some s ↦ some s | none ↦ c.as_i64 key ]

    -- A key of the new mapping, in the first loop.
    unfoldable pub added_key : FieldPath → y.Mapping → y.Value × y.Value → List (Difference y)
    added_key mask old (key, value) = elim (y.lookup old key) [
      | some _ ↦ []
      | none ↦ elim (convert_key_to_string key) [
        | none ↦ []
        | some k ↦ added (mask ++ k ∷ []) (copied value) ∷ []
      ]
    ]

    unfoldable pub compare_sequences : FieldPath → List y.Value → List y.Value → KeyOutcome y
    compare_sequences path old new =
        if no_elements old && not (no_elements new)
        then differs (filled path)
        else if not (no_elements old) && no_elements new
        then differs (emptied path)
        else if list_eq c.equal old new
        then skipped
        else differs (updated path)

    unfoldable pub compare_values : FieldPath → y.Value → y.Value → KeyOutcome y
    compare_values path old new = if c.equal old new then skipped else differs (updated path)

    -- The match on the values that are under the key in both mappings.
    unfoldable pub common_key : FieldPath → String → y.Value → y.Value → KeyOutcome y
    common_key path k old new = both (y.as_mapping old) (y.as_mapping new) (descends k) (
        both (y.as_sequence old) (y.as_sequence new) (compare_sequences path)
          (compare_values path old new))

    -- A key of the old mapping, in the second loop.
    unfoldable pub old_key : FieldPath → y.Mapping → y.Value × y.Value → KeyOutcome y
    old_key mask new (key, value) = elim (y.lookup new key) [
      | none ↦ elim (convert_key_to_string key) [
        | none ↦ skipped
        | some k ↦ differs (removed (mask ++ k ∷ []) (copied value))
      ]
      | some new_value ↦ elim (convert_key_to_string key) [
        | none ↦ skipped
        | some k ↦ common_key (mask ++ k ∷ []) k value new_value
      ]
    ]

    -- The insertions of one visit, and the mappings below.
    unfoldable pub pair_differences : FieldPath → y.Mapping → y.Mapping → List (Difference y)
    pair_differences mask old new =
        collected (added_key mask old) (y.entries new)
        ++ collected (λ e. difference_of (old_key mask new e)) (y.entries old)

    unfoldable pub pair_children : FieldPath → y.Mapping → y.Mapping → List Child
    pair_children mask old new = collected (λ e. child_of (old_key mask new e)) (y.entries old)

    unfoldable pub compare_loop :
        ℕ
        → List (StackTask y)
        → FieldPath
        → StateDifferenceTree y
        → Result ComparisonError (StateDifferenceTree y)
    compare_loop fuel [] current_field_mask tree = ok tree
    compare_loop zero (task ∷ stack_tasks) current_field_mask tree = err out_of_fuel
    compare_loop (suc fuel) (visit_pair old new ∷ stack_tasks) current_field_mask tree =
        and_then (insert_all tree (pair_differences current_field_mask old new)) (λ changed.
          compare_loop fuel (push_children (pair_children current_field_mask old new) stack_tasks)
            current_field_mask changed)
    compare_loop (suc fuel) (push_field key ∷ stack_tasks) current_field_mask tree =
        compare_loop fuel stack_tasks (current_field_mask ++ key ∷ []) tree
    compare_loop (suc fuel) (pop_field ∷ stack_tasks) current_field_mask tree =
        compare_loop fuel stack_tasks (pop current_field_mask) tree

    -- The tasks that the visit of a pair stands for: itself, and three for each pair below.
    abbrev pub children_cost : (String → y.Mapping → y.Mapping → ℕ) → List Child → ℕ
    children_cost cost [] = 0
    children_cost cost ((key, (old, new)) ∷ children) =
        suc (cost key old new + suc (children_cost cost children))

    unfoldable pub pair_cost : ℕ → FieldPath → y.Mapping → y.Mapping → ℕ
    pair_cost zero mask old new = 1
    pair_cost (suc depth) mask old new =
        suc (children_cost (λ key. pair_cost depth (mask ++ key ∷ [])) (pair_children mask old new))

    unfoldable pub state_differences :
        y.Mapping → y.Mapping → Result ComparisonError (StateDifferenceTree y)
    state_differences old_state new_state =
        compare_loop (pair_cost (c.depth (y.from_mapping old_state)) [] old_state new_state)
          (visit_pair old_state new_state ∷ []) [] new_state_difference_tree
