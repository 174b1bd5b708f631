-- ===== src/Api/StatesMap.antt =====
-- The map of the execution states of all workloads: ankaios_api/src/ank_base/workload_states_map.rs.
-- A struct around a single map is that map.
use ankaios.Prelude.{
  String, ◌==◌, List, [], ◌∷◌, ◌++◌, Option, none, some, Map, get, insert, remove, entry, modify,
  map_values, is_empty, if◌then◌else◌,
}
use ankaios.Api.Execution.{
  ExecutionState, is_removed, state_agent_disconnected, state_not_scheduled, state_initial,
}
use ankaios.Api.Instance.{InstanceName}

-- From the id of an instance to its state, and from a workload's name to its instances.
abbrev pub IdStateMap : Type 0
IdStateMap = Map ExecutionState

abbrev pub NameStateMap : Type 0
NameStateMap = Map IdStateMap

abbrev pub WorkloadStatesMap : Type 0
WorkloadStatesMap = Map NameStateMap

pub record WorkloadState : Type 0 where
  pub instance_name : InstanceName
  pub execution_state : ExecutionState

-- The inner loops: all instances under one name of one agent, and all names of one agent.
unfoldable pub states_of_ids : String → String → IdStateMap → List WorkloadState
states_of_ids agent name [] = []
states_of_ids agent name ((id, state) ∷ ids) =
    record {
      instance_name = record { workload_name = name; agent_name = agent; id = id };
      execution_state = state;
    }
    ∷ states_of_ids agent name ids

unfoldable pub states_of_names : String → NameStateMap → List WorkloadState
states_of_names agent [] = []
states_of_names agent ((name, ids) ∷ names) =
    states_of_ids agent name ids ++ states_of_names agent names

unfoldable pub get_workload_state_for_agent : WorkloadStatesMap → String → List WorkloadState
get_workload_state_for_agent m agent_name = elim (get m agent_name) [
  | none ↦ []
  | some names ↦ states_of_names agent_name names
]

unfoldable pub get_workload_state_excluding_agent : WorkloadStatesMap → String → List WorkloadState
get_workload_state_excluding_agent [] excluding = []
get_workload_state_excluding_agent ((agent, names) ∷ m) excluding =
    let rest = get_workload_state_excluding_agent m excluding in
    if agent == excluding then rest else states_of_names agent names ++ rest

unfoldable pub get_workload_state_for_workload :
    WorkloadStatesMap → InstanceName → Option ExecutionState
get_workload_state_for_workload m i = elim (get m i.agent_name) [
  | none ↦ none
  | some names ↦ elim (get names i.workload_name) [ none ↦ none | some ids ↦ get ids i.id ]
]

unfoldable pub get_states_for_workload_name : WorkloadStatesMap → String → List WorkloadState
get_states_for_workload_name [] name = []
get_states_for_workload_name ((agent, names) ∷ m) name =
    elim (get names name) [ none ↦ [] | some ids ↦ states_of_ids agent name ids ]
    ++ get_states_for_workload_name m name

-- `agent_disconnected`
unfoldable pub agent_disconnected_on : WorkloadStatesMap → String → WorkloadStatesMap
agent_disconnected_on m agent_name =
    modify m agent_name (map_values (map_values (λ _. state_agent_disconnected)))

-- `entry(..).or_default()` down to the map of ids, which `f` changes.
unfoldable pub at_ids :
    WorkloadStatesMap → InstanceName → (IdStateMap → IdStateMap) → WorkloadStatesMap
at_ids m i f = entry m i.agent_name [] (λ names. entry names i.workload_name [] f)

-- `entry(id).or_insert(s)`
unfoldable pub or_insert : IdStateMap → String → ExecutionState → IdStateMap
or_insert ids id s = elim (get ids id) [ none ↦ insert ids id s | some _ ↦ ids ]

abbrev pub first_state : InstanceName → ExecutionState
first_state i = if i.agent_name == "" then state_not_scheduled else state_initial

-- The loop reads only the instance names of the workloads.
unfoldable pub initial_state : WorkloadStatesMap → List InstanceName → WorkloadStatesMap
initial_state m [] = m
initial_state m (i ∷ workloads) =
    initial_state (at_ids m i (λ ids. or_insert ids i.id (first_state i))) workloads

-- Maps that become empty are removed too.
unfoldable pub remove_names : NameStateMap → InstanceName → IdStateMap → NameStateMap
remove_names names i ids' =
    if is_empty ids' then remove names i.workload_name else insert names i.workload_name ids'

unfoldable pub remove_state : WorkloadStatesMap → InstanceName → WorkloadStatesMap
remove_state m i = elim (get m i.agent_name) [
  | none ↦ m
  | some names ↦ elim (get names i.workload_name) [
    | none ↦ m
    | some ids ↦
        let names' = remove_names names i (remove ids i.id) in
        if is_empty names' then remove m i.agent_name else insert m i.agent_name names'
  ]
]

-- One round of `process_new_states`.
unfoldable pub process_new_state : WorkloadStatesMap → WorkloadState → WorkloadStatesMap
process_new_state m w =
    if is_removed w.execution_state
    then remove_state m w.instance_name
    else at_ids m w.instance_name (λ ids. insert ids w.instance_name.id w.execution_state)

unfoldable pub process_new_states : WorkloadStatesMap → List WorkloadState → WorkloadStatesMap
process_new_states m [] = m
process_new_states m (w ∷ states) = process_new_states (process_new_state m w) states
