-- ===== src/Server/StateTests.antt =====
-- Updates of a small state and requests for it, and the theorems at these inputs.
use ankaios.Prelude.{
  String, ◌==◌, ◌≡◌, ◌≢◌, refl, true, List, [], ◌∷◌, ◌++◌, All, all, Option, none, some, ok, err,
  split, join, member, starts_with,
}
use ankaios.Common.Path.{FieldPath, split_last, path_from}
use ankaios.Common.Object.{set_in, set_from, set, remove_in, remove_from, remove, get_part, get}
use ankaios.Common.Object.Setting.{apart}
use ankaios.Common.Object.Growing.{Alike}
use ankaios.Common.Wildcards.{push_keys, follow, expand_loop, cost, total_cost, expand_wildcards}
use ankaios.Common.Wildcards.Reference.{paths_of, all_paths}
use ankaios.Common.Sample.{
  Node, word, map, Fields, end, field, word_of, find_field, put_field, drop_field, list_fields,
  sample,
}
use ankaios.Common.Sample.Keys.{text_keys}
use ankaios.Server.NewState.{
  StateCodec, StateGenerationResult, apply_field, apply_fields, masked_state, generate_new_state,
  field_not_found,
}
use ankaios.Server.NewState.Generation.{Generated, generate_new_state-fields}
use ankaios.Server.StateQuery.{
  QueryCodec, replace_suffix, add_partners, query_filters, collect, parsed,
  get_complete_state_by_field_mask,
}
use ankaios.Server.StateQuery.Filtered.{get_complete_state-filters}
use ankaios.Server.Tests.{engine, desired, empty_state}

program : Unit {0}
unfolding split join split_last set_in set_from set remove_in remove_from remove get_part get
    push_keys follow expand_loop cost total_cost expand_wildcards find_field put_field drop_field
    list_fields apply_field apply_fields masked_state generate_new_state paths_of member starts_with
    replace_suffix add_partners query_filters collect get_complete_state_by_field_mask
program = tt

-- The object of a state: its version, and one configuration item.
abbrev object_with : Node → Fields → Node
object_with version configs = map (
    field "desiredState" (map (field "apiVersion" version (field "configs" (map configs) end))) end)

abbrev version_of : Node → Option String
version_of o = elim (get sample o ("desiredState" ∷ "apiVersion" ∷ [])) [
  | none ↦ none
  | some v ↦ word_of v
]

abbrev codec : StateCodec engine sample
codec = record {
  Update = Node;
  AgentMap = String;
  object_of_state = λ d. some (object_with (word d.api_version) (field "key" (word "value") end));
  object_of_update = λ update. some update;
  spec_of_update = λ update. none;
  spec_of_object = λ o. elim (version_of o) [
    | none ↦ none
    | some v ↦ some (record (desired []) { api_version = v }, "agents")
  ];
}

abbrev wanted : Node
wanted = object_with (word "v2") end

abbrev mask : List String
mask = "desiredState.configs.key" ∷ "desiredState.apiVersion" ∷ []

abbrev generated_state : StateGenerationResult engine sample codec
generated_state = record {
  old_desired_state = desired [];
  new_desired_state = record (desired []) { api_version = "v2" };
  new_agent_map = "agents";
}

field_not_in_mapping :
    generate_new_state engine sample codec empty_state wanted ("desiredState.apiVersion.x" ∷ [])
    ≡ err (field_not_found "desiredState.apiVersion.x")
unfolding program
field_not_in_mapping = refl

generate_new_state-fields_example :
    Generated engine sample codec empty_state wanted mask
      (λ old wanted new.
        ((rest : FieldPath)
          → get sample new (path_from "desiredState.configs.key" ++ rest)
            ≡ get sample wanted (path_from "desiredState.configs.key" ++ rest))
        × ((q : FieldPath)
            → all (λ f. apart (path_from f) q) mask ≡ true
            → get sample new q ≡ get sample old q))
      generated_state
unfolding program
generate_new_state-fields_example =
    generate_new_state-fields engine sample codec empty_state wanted [] "desiredState.configs.key"
      ("desiredState.apiVersion" ∷ []) generated_state refl refl

abbrev query_codec : QueryCodec sample
query_codec = record {
  CompleteState = Node;
  is_state_filter = λ f. f == "workloadStates.a.w.i.state";
  is_substate_filter = λ f. f == "workloadStates.a.w.i.subState";
  object_of = λ o. o;
  complete_state_of = λ o. some o;
}

abbrev complete : Node
complete = map (
    field "desiredState" (map (field "apiVersion" (word "v1") (field "configs" (map end) end))) (
      field "workloadStates"
        (map (
          field "a"
            (map (
              field "w"
                (map (
                  field "i"
                    (map (
                      field "state" (word "Running")
                        (field "subState" (word "Ok") (field "additionalInfo" (word "") end))))
                    end))
                end))
            end))
        end))

brings_the_partner :
    get_complete_state_by_field_mask sample query_codec complete ("workloadStates.a.w.i.state" ∷ [])
    ≡ ok (
        map (
          field "workloadStates"
            (map (
              field "a"
                (map (
                  field "w"
                    (map (
                      field "i"
                        (map (field "state" (word "Running") (field "subState" (word "Ok") end)))
                        end))
                    end))
                end))
            end))
unfolding program
brings_the_partner = refl

abbrev query : String
query = "desiredState.*"

get_complete_state-filters_example :
    (r : Node) × (get_complete_state_by_field_mask sample query_codec complete (query ∷ [])
      ≡ parsed sample query_codec (ok r))
    × All
        (Alike sample r complete)
        (all_paths sample complete (query_filters sample query_codec (query ∷ [])))
    × ((q : FieldPath)
        → q ≢ []
        → all
            (λ f. apart f q)
            (all_paths sample complete (query_filters sample query_codec (query ∷ [])))
          ≡ true
        → get sample r q ≡ none)
unfolding program
get_complete_state-filters_example =
    get_complete_state-filters sample query_codec complete query [] (text_keys complete)
      ((λ z. cc z), ((λ z. cc z), tt))
