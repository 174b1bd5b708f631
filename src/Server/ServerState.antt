-- ===== src/Server/ServerState.antt =====
-- The server's state: server/src/ankaios_server/server_state.rs.
use ankaios.Prelude.{
  Result, ok, err, String, ◌==◌, Bool, false, ◌&&◌, List, [], ◌∷◌, ◌++◌, Option, none, some, Map,
  get, contains_key, is_empty, if◌then◌else◌,
}
use ankaios.Api.Instance.{InstanceName}
use ankaios.Api.StatesMap.{WorkloadState}
use ankaios.Api.Workload.{WorkloadSpec, WorkloadNamed, DeletedWorkload, workload_named_eq}
use ankaios.Server.CycleCheck.Graph.{cycle_at, no_cycle, out_of_fuel, dfs}
use ankaios.Server.DeleteGraph.{
  DeleteGraph, insert_workloads, apply_delete_conditions_to,
  remove_deleted_workloads_from_delete_graph,
}
use ankaios.Server.Render.{Engine, ConfigRenderError, render_workloads}
use ankaios.Server.Validation.{Invalid, validate_workloads}

pub record AddedDeletedWorkloads : Type 0 where
  pub added_workloads : List WorkloadNamed
  pub deleted_workloads : List DeletedWorkload

pub data UpdateStateError : Type 0 where
  render_error : ConfigRenderError → UpdateStateError
  result_invalid : Invalid → UpdateStateError
  cycle_in_dependencies : String → UpdateStateError

abbrev pub deleted_workload : WorkloadNamed → DeletedWorkload
deleted_workload w = record { instance_name = w.instance_name; dependencies = [] }

-- The first loop, over the current workloads.
unfoldable pub updated_or_deleted : Map WorkloadNamed → Map WorkloadNamed → AddedDeletedWorkloads
updated_or_deleted [] new_workloads = record { added_workloads = []; deleted_workloads = [] }
updated_or_deleted ((name, w) ∷ current_workloads) new_workloads =
    let rest = updated_or_deleted current_workloads new_workloads in
    elim (get new_workloads name) [
      | none ↦ record rest { deleted_workloads = deleted_workload w ∷ rest.deleted_workloads }
      | some new_w ↦ if workload_named_eq w new_w then rest else record {
        added_workloads = new_w ∷ rest.added_workloads;
        deleted_workloads = deleted_workload w ∷ rest.deleted_workloads;
      }
    ]

-- The second loop, over the new workloads.
unfoldable pub new_ones : Map WorkloadNamed → Map WorkloadNamed → List WorkloadNamed
new_ones current_workloads [] = []
new_ones current_workloads ((name, w) ∷ new_workloads) =
    let rest = new_ones current_workloads new_workloads in
    if contains_key current_workloads name then rest else w ∷ rest

abbrev pub some_unless_empty : AddedDeletedWorkloads → Option AddedDeletedWorkloads
some_unless_empty r = elim r.added_workloads [
  | [] ↦ elim r.deleted_workloads [ [] ↦ none | _ ∷ _ ↦ some r ]
  | _ ∷ _ ↦ some r
]

unfoldable pub all_differences : Map WorkloadNamed → Map WorkloadNamed → AddedDeletedWorkloads
all_differences current_workloads new_workloads =
    let first = updated_or_deleted current_workloads new_workloads in
    record first {
      added_workloads = first.added_workloads ++ new_ones current_workloads new_workloads;
    }

unfoldable pub extract_added_and_deleted_workloads :
    Map WorkloadNamed → Map WorkloadNamed → Option AddedDeletedWorkloads
extract_added_and_deleted_workloads current_workloads new_workloads =
    some_unless_empty (all_differences current_workloads new_workloads)

-- The added workloads with dependencies.
abbrev pub start_nodes : List WorkloadNamed → List String
start_nodes [] = []
start_nodes (w ∷ added) =
    let rest = start_nodes added in
    if is_empty w.workload.dependencies then rest else w.instance_name.workload_name ∷ rest

module _ (engine : Engine) where
  pub record DesiredState : Type 0 where
    pub api_version : String
    pub workloads : Map WorkloadSpec
    pub configs : Map engine.ConfigItem

  pub record ServerState : Type 0 where
    pub desired_state : DesiredState
    pub rendered_workloads : Map WorkloadNamed
    pub delete_graph : DeleteGraph

  abbrev pub Updated : Type 0
  Updated = ServerState × Result UpdateStateError (Option AddedDeletedWorkloads)

  abbrev pub set_desired_state : ServerState → DesiredState → ServerState
  set_desired_state s new_desired_state = record s { desired_state = new_desired_state }

  -- The update of a state with other workloads, once its dependencies are checked.
  unfoldable pub store_update :
      ServerState → DesiredState → Map WorkloadNamed → AddedDeletedWorkloads → Updated
  store_update s new_desired_state new_rendered r =
      let delete_graph = insert_workloads s.delete_graph r.added_workloads in
      (
        record {
          desired_state = new_desired_state;
          rendered_workloads = new_rendered;
          delete_graph = delete_graph;
        },
        ok (
            some (record r {
              deleted_workloads = apply_delete_conditions_to delete_graph r.deleted_workloads;
            })),
      )

  -- `out_of_fuel` is no result of the code; it stands with `no_cycle`.
  unfoldable pub update_workloads :
      ServerState → DesiredState → Map WorkloadNamed → AddedDeletedWorkloads → Updated
  update_workloads s new_desired_state new_rendered r =
      elim (dfs new_desired_state.workloads (some (start_nodes r.added_workloads))) [
        | cycle_at w ↦ (s, err (cycle_in_dependencies w))
        | no_cycle ↦ store_update s new_desired_state new_rendered r
        | out_of_fuel ↦ store_update s new_desired_state new_rendered r
      ]

  unfoldable pub update_rendered : ServerState → DesiredState → Map WorkloadNamed → Updated
  update_rendered s new_desired_state new_rendered = elim (validate_workloads engine new_rendered) [
    | some e ↦ (s, err (result_invalid e))
    | none ↦ elim (extract_added_and_deleted_workloads s.rendered_workloads new_rendered) [
      | some r ↦ update_workloads s new_desired_state new_rendered r
      | none ↦ (set_desired_state s new_desired_state, ok none)
    ]
  ]

  unfoldable pub update : ServerState → DesiredState → Updated
  update s new_desired_state =
      elim (render_workloads engine new_desired_state.workloads new_desired_state.configs) [
        | err e ↦ (s, err (render_error e))
        | ok new_rendered ↦ update_rendered s new_desired_state new_rendered
      ]

  unfoldable pub workloads_on : String → Map WorkloadNamed → List WorkloadNamed
  workloads_on agent_name [] = []
  workloads_on agent_name ((name, w) ∷ workloads) =
      let rest = workloads_on agent_name workloads in
      if w.instance_name.agent_name == agent_name then w ∷ rest else rest

  unfoldable pub get_workloads_for_agent : ServerState → String → List WorkloadNamed
  get_workloads_for_agent s agent_name = workloads_on agent_name s.rendered_workloads

  unfoldable pub desired_state_contains_instance_name : ServerState → InstanceName → Bool
  desired_state_contains_instance_name s i = elim (get s.rendered_workloads i.workload_name) [
    | none ↦ false
    | some w ↦ w.instance_name.agent_name == i.agent_name && w.instance_name.id == i.id
  ]

  unfoldable pub cleanup_state : ServerState → List WorkloadState → ServerState
  cleanup_state s new_workload_states = record s {
    delete_graph = remove_deleted_workloads_from_delete_graph s.delete_graph new_workload_states;
  }
