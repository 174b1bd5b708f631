-- ===== src/Api/Tests.antt =====
-- Small states maps, and the theorems at these inputs.
use ankaios.Prelude.{◌≡◌, refl, List, [], ◌∷◌, none, get, insert, remove, modify, map_values}
use ankaios.Api.Execution.{
  ExecutionState, transition, keeps_stopping, is_removed, state_running, state_removed,
  state_stopping_requested,
}
use ankaios.Api.Instance.{InstanceName, instance_eq}
use ankaios.Api.StatesMap.{
  WorkloadState, states_of_ids, states_of_names, get_workload_state_for_agent,
  get_workload_state_for_workload, get_states_for_workload_name, agent_disconnected_on, at_ids,
  or_insert, initial_state, remove_names, remove_state, process_new_state, process_new_states,
}
use ankaios.Api.StatesHistory.{latest, lookup-process_new_states}

abbrev web : InstanceName
web = record { workload_name = "web"; agent_name = "a"; id = "1" }

abbrev db : InstanceName
db = record { workload_name = "db"; agent_name = "b"; id = "2" }

abbrev report : InstanceName → ExecutionState → WorkloadState
report i s = record { instance_name = i; execution_state = s }

abbrev reports : List WorkloadState
reports = report web state_running ∷ report db state_running ∷ report web state_removed ∷ []

program : Unit {0}
unfolding get insert remove modify map_values instance_eq is_removed keeps_stopping transition
    states_of_ids states_of_names get_workload_state_for_agent get_workload_state_for_workload
    get_states_for_workload_name agent_disconnected_on at_ids or_insert initial_state remove_names
    remove_state process_new_state process_new_states
program = tt

-- The agent and the name are gone with their only instance.
removed_web : process_new_states [] reports ≡ ("b", ("db", ("2", state_running) ∷ []) ∷ []) ∷ []
unfolding program
removed_web = refl

states_of_db :
    get_states_for_workload_name (process_new_states [] reports) "db" ≡ report db state_running ∷ []
unfolding program
states_of_db = refl

stays_stopping : transition state_stopping_requested state_running ≡ state_stopping_requested
unfolding program
stays_stopping = refl

lookup-process_new_states_example :
    get_workload_state_for_workload (process_new_states [] reports) web ≡ latest web none reports
unfolding program
lookup-process_new_states_example = lookup-process_new_states reports [] web
