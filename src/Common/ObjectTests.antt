-- ===== src/Common/ObjectTests.antt =====
-- A small object, and the theorems on paths and objects at these inputs.
use ankaios.Prelude.{
  ◌≡◌, refl, List, [], ◌∷◌, some, ok, err, split, join, has_char, parse_usize, parse_unsigned,
  parse_digits,
}
use ankaios.Common.Path.{FieldPath, split_last}
use ankaios.Common.Object.{
  set_in, set_from, set, remove_in, remove_from, remove, get_part, get, get_mut, head_not_mapping,
  part_not_mapping,
}
use ankaios.Common.Wildcards.{push_keys, follow, expand_loop, cost, total_cost, expand_wildcards}
use ankaios.Common.Wildcards.Reference.{paths_of, all_paths, expand_wildcards-all_paths}
use ankaios.Common.Sample.{
  Node, word, two, map, end, field, find_field, put_field, drop_field, list_fields, sample,
}

program : Unit {0}
unfolding split join has_char split_last parse_usize parse_unsigned parse_digits set_in set_from set
    remove_in remove_from remove get_part get get_mut push_keys follow expand_loop cost total_cost
    expand_wildcards find_field put_field drop_field list_fields paths_of
program = tt

abbrev state : Node
state =
    map
      (field "agents" (map (field "a" (word "x") (field "b" (two (word "y") (word "z")) end))) end)

reads_sequence : get sample state ("agents" ∷ "b" ∷ "1" ∷ []) ≡ some (word "z")
unfolding program
reads_sequence = refl

sets_missing_mapping :
    set sample state ("agents" ∷ "c" ∷ "d" ∷ []) (word "w")
    ≡ ok (
        map (
          field "agents"
            (map (
              field "a" (word "x") (
                field "b"
                  (two (word "y") (word "z"))
                  (field "c" (map (field "d" (word "w") end)) end))))
            end))
unfolding program
sets_missing_mapping = refl

not_through_texts : set sample state ("agents" ∷ "a" ∷ "d" ∷ []) (word "w") ≡ err part_not_mapping
unfolding program
not_through_texts = refl

removes_only_in_mappings :
    remove sample state ("agents" ∷ "b" ∷ "1" ∷ []) ≡ err (head_not_mapping ("agents" ∷ "b" ∷ []))
unfolding program
removes_only_in_mappings = refl

abbrev both_agents : List FieldPath
both_agents = ("agents" ∷ "b" ∷ []) ∷ ("agents" ∷ "a" ∷ []) ∷ []

expands_to_both : all_paths sample state (("agents" ∷ "*" ∷ []) ∷ []) ≡ both_agents
unfolding program
expands_to_both = refl

expand_wildcards-all_paths_example :
    expand_wildcards sample state (("agents" ∷ "*" ∷ []) ∷ [])
    ≡ some (all_paths sample state (("agents" ∷ "*" ∷ []) ∷ []))
expand_wildcards-all_paths_example =
    expand_wildcards-all_paths sample state (("agents" ∷ "*" ∷ []) ∷ [])
