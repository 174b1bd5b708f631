-- ===== src/Agent/Dependencies.antt =====
-- When the dependencies of an operation are fulfilled: agent/src/workload_scheduler/
-- dependency_state_validator.rs.
use ankaios.Prelude.{Bool, true, List, [], ◌∷◌, ◌&&◌, Map, any, all, if◌then◌else◌}
use ankaios.Api.Execution.{
  ExecutionState, is_running, is_succeeded, is_failed, is_waiting_to_start,
  is_not_pending_nor_running,
}
use ankaios.Api.StatesMap.{WorkloadState, WorkloadStatesMap, get_states_for_workload_name}
use ankaios.Api.Workload.{
  AddCondition, add_cond_running, add_cond_succeeded, add_cond_failed, DeleteCondition,
  del_cond_running, del_cond_not_pending_nor_running, WorkloadNamed, DeletedWorkload,
}

unfoldable pub add_condition_by_state : AddCondition → ExecutionState → Bool
add_condition_by_state add_cond_running state = is_running state
add_condition_by_state add_cond_succeeded state = is_succeeded state
add_condition_by_state add_cond_failed state = is_failed state

unfoldable pub add_condition_by_any_state : AddCondition → List WorkloadState → Bool
add_condition_by_any_state cond states =
    any (λ s. add_condition_by_state cond s.execution_state) states

unfoldable pub del_condition_by_state : DeleteCondition → ExecutionState → Bool
del_condition_by_state cond state = if is_waiting_to_start state then true else elim cond [
  | del_cond_not_pending_nor_running ↦ is_not_pending_nor_running state
  | del_cond_running ↦ is_running state
]

-- The function is named for any state, and asks for all of them.
unfoldable pub del_condition_by_any_state : DeleteCondition → List WorkloadState → Bool
del_condition_by_any_state cond states =
    all (λ s. del_condition_by_state cond s.execution_state) states

unfoldable pub all_add_conditions : Map AddCondition → WorkloadStatesMap → Bool
all_add_conditions [] db = true
all_add_conditions ((name, cond) ∷ dependencies) db =
    add_condition_by_any_state cond (get_states_for_workload_name db name)
    && all_add_conditions dependencies db

unfoldable pub create_fulfilled : WorkloadNamed → WorkloadStatesMap → Bool
create_fulfilled w db = all_add_conditions w.workload.dependencies db

unfoldable pub all_del_conditions : Map DeleteCondition → WorkloadStatesMap → Bool
all_del_conditions [] db = true
all_del_conditions ((name, cond) ∷ dependencies) db =
    del_condition_by_any_state cond (get_states_for_workload_name db name)
    && all_del_conditions dependencies db

unfoldable pub delete_fulfilled : DeletedWorkload → WorkloadStatesMap → Bool
delete_fulfilled w db = all_del_conditions w.dependencies db
