-- ===== src/Server/StateQuery.antt =====
-- The answer to a request for the state: `get_complete_state_by_field_mask` and the filters for
-- workload states of server/src/ankaios_server/server_state.rs.
pub mod Filtered
use ankaios.Prelude.{
  String, ◌==◌, Bool, true, false, starts_with, any, if◌then◌else◌, List, [], ◌∷◌, ◌++◌, map,
  Option, none, some, Result, ok, err, and_then, member,
}
use Prim.Native.String as Text
use ankaios.Common.Path.{FieldPath, path_from}
use ankaios.Common.Yaml.{Yaml}
use ankaios.Common.Object.{Object, ObjectError, default_object, get, set}
use ankaios.Common.Wildcards.{expand_wildcards}

-- What the server calls: the two regular expressions for the filters of a workload state, and the
-- conversions of a complete state to an object and back.
pub record QueryCodec (y : Yaml) : Type 1 where
  pub CompleteState : Type 0
  pub is_state_filter : String → Bool
  pub is_substate_filter : String → Bool
  pub object_of : CompleteState → y.Value
  pub complete_state_of : y.Value → Option CompleteState

pub data QueryError : Type 0 where
  set_error : ObjectError → QueryError
  invalid_result : QueryError
  out_of_fuel : QueryError

abbrev pub state_suffix : String
state_suffix = ".state"

abbrev pub substate_suffix : String
substate_suffix = ".subState"

-- The text ends with the old suffix, since its filter matches.
unfoldable pub replace_suffix : String → String → String → String
replace_suffix Text.[] old_suffix new_suffix = new_suffix
replace_suffix (Text.◌∷◌ c s) old_suffix new_suffix =
    let rest = replace_suffix s old_suffix new_suffix in
    if Text.◌∷◌ c s == old_suffix then new_suffix else Text.◌∷◌ c rest

abbrev pub push_new : List String → String → List String
push_new filters filter = if member filter filters then filters else filters ++ filter ∷ []

module _ (y : Yaml) (codec : QueryCodec y) where
  -- The loop over the filters that are there before it.
  unfoldable pub add_partners : List String → List String → List String
  add_partners [] filters = filters
  add_partners (filter ∷ before) filters = add_partners before (
      if codec.is_state_filter filter
      then push_new filters (replace_suffix filter state_suffix substate_suffix)
      else (if codec.is_substate_filter filter
          then push_new filters (replace_suffix filter substate_suffix state_suffix)
          else filters))

  abbrev pub include_both_state_and_substate_filters : List String → List String
  include_both_state_and_substate_filters filters = add_partners filters filters

  abbrev pub with_api_version : List String → List String
  with_api_version filters =
      if any (λ filter. starts_with filter "desiredState") filters
      then filters ++ "desiredState.apiVersion" ∷ []
      else filters

  unfoldable pub query_filters : List String → List FieldPath
  query_filters field_mask =
      map path_from (include_both_state_and_substate_filters (with_api_version field_mask))

  -- The loop over the expanded filters.
  unfoldable pub collect : Object y → List FieldPath → Object y → Result ObjectError (Object y)
  collect current_complete_state [] return_state = ok return_state
  collect current_complete_state (field ∷ filters) return_state =
      elim (get y current_complete_state field) [
        | none ↦ collect current_complete_state filters return_state
        | some value ↦
            and_then (set y return_state field value)
              (λ changed. collect current_complete_state filters changed)
      ]

  abbrev pub parsed : Result ObjectError (Object y) → Result QueryError codec.CompleteState
  parsed (err e) = err (set_error e)
  parsed (ok return_state) = elim (codec.complete_state_of return_state) [
    | none ↦ err invalid_result
    | some s ↦ ok s
  ]

  -- The complete state is the server's desired state with the states of the workloads and the map
  -- of the agents.
  unfoldable pub get_complete_state_by_field_mask :
      codec.CompleteState → List String → Result QueryError codec.CompleteState
  get_complete_state_by_field_mask current_complete_state [] = ok current_complete_state
  get_complete_state_by_field_mask current_complete_state (field ∷ field_mask) =
      let current = codec.object_of current_complete_state in
      elim (expand_wildcards y current (query_filters (field ∷ field_mask))) [
        | none ↦ err out_of_fuel
        | some filters ↦ parsed (collect current filters (default_object y))
      ]
