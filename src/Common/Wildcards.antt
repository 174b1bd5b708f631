-- ===== src/Common/Wildcards.antt =====
-- The expansion of paths with wildcards: `Object::expand_wildcards` of
-- common/src/state_manipulation/object.rs, with its double-ended queue as a list.
pub mod Reference
pub mod Expanded
use ankaios.Prelude.{
  ℕ, zero, suc, ◌+◌, true, false, String, ◌==◌, List, [], ◌∷◌, ◌++◌, map, Option, none, some,
}
use ankaios.Common.Path.{FieldPath}
use ankaios.Common.Yaml.{Yaml}
use ankaios.Common.Object.{Object}

-- `WILDCARD_SYMBOL`
abbrev pub wildcard_symbol : String
wildcard_symbol = "*"

abbrev pub push_result : List FieldPath → Option FieldPath → List FieldPath
push_result result none = result
push_result result (some path) = result ++ path ∷ []

module _ (y : Yaml) where
  -- The prefix so far, the value there, and the rest of the path.
  abbrev pub Task : Type 0
  Task = FieldPath × y.Value × FieldPath

  -- A text, or an integer printed; other keys are skipped.
  abbrev pub key_text : y.Value → Option String
  key_text key = elim (y.as_text key) [ some s ↦ some s | none ↦ y.as_integer key ]

  -- The loop over the mapping's entries, with `push_front`.
  unfoldable pub push_keys :
      FieldPath → FieldPath → List (y.Value × y.Value) → List Task → List Task
  push_keys current_prefix remaining_path [] to_do = to_do
  push_keys current_prefix remaining_path ((key, value) ∷ entries) to_do = elim (key_text key) [
    | none ↦ push_keys current_prefix remaining_path entries to_do
    | some k ↦
        push_keys current_prefix remaining_path entries
          ((current_prefix ++ k ∷ [], value, remaining_path) ∷ to_do)
  ]

  abbrev pub push_mapping : FieldPath → FieldPath → Option y.Mapping → List Task → List Task
  push_mapping current_prefix remaining_path none to_do = to_do
  push_mapping current_prefix remaining_path (some map) to_do =
      push_keys current_prefix remaining_path (y.entries map) to_do

  -- The inner loop: the valid result, if any, and the queue behind it.
  unfoldable pub follow : FieldPath → y.Value → FieldPath → List Task → Option FieldPath × List Task
  follow current_prefix current_value [] to_do = (some current_prefix, to_do)
  follow current_prefix current_value (path_element ∷ remaining_path) to_do =
      elim (path_element == wildcard_symbol) [
        | true ↦
            (none, push_mapping current_prefix remaining_path (y.as_mapping current_value) to_do)
        | false ↦ elim (y.index current_value path_element) [
          | none ↦ (none, to_do)
          | some next_element ↦
              follow (current_prefix ++ path_element ∷ []) next_element remaining_path to_do
        ]
      ]

  -- The outer loop. `none` says that the fuel was too little.
  unfoldable pub expand_loop : ℕ → List Task → List FieldPath → Option (List FieldPath)
  expand_loop fuel [] result = some result
  expand_loop zero (task ∷ to_do) result = none
  expand_loop (suc fuel) ((current_prefix, current_value, remaining_path) ∷ to_do) result =
      let (found, rest) = follow current_prefix current_value remaining_path to_do in
      expand_loop fuel rest (push_result result found)

  -- How many tasks a task stands for in the end: itself, and those of the keys that a wildcard
  -- pushes.
  abbrev pub sum_keys : (y.Value → ℕ) → List (y.Value × y.Value) → ℕ
  sum_keys cost [] = 0
  sum_keys cost ((key, value) ∷ entries) = elim (key_text key) [
    | none ↦ sum_keys cost entries
    | some _ ↦ cost value + sum_keys cost entries
  ]

  unfoldable pub cost : FieldPath → y.Value → ℕ
  cost [] v = 1
  cost (e ∷ path) v = elim (e == wildcard_symbol) [
    | true ↦ elim (y.as_mapping v) [ none ↦ 1 | some m ↦ suc (sum_keys (cost path) (y.entries m)) ]
    | false ↦ elim (y.index v e) [ none ↦ 1 | some w ↦ cost path w ]
  ]

  unfoldable pub total_cost : List Task → ℕ
  total_cost [] = 0
  total_cost ((current_prefix, v, path) ∷ to_do) = cost path v + total_cost to_do

  unfoldable pub expand_wildcards : Object y → List FieldPath → Option (List FieldPath)
  expand_wildcards o path =
      let to_do : List Task = map (λ p. ([], o, p)) path in expand_loop (total_cost to_do) to_do []
