-- ===== src/Agent/Tests.antt =====
-- A small agent with a workload that waits for another, and the theorems at these inputs.
use ankaios.Prelude.{
  ◌≡◌, refl, true, arith, [], ◌∷◌, none, some, All, get, insert, remove, modify, map_values,
}
use ankaios.Api.Execution.{
  ExecutionState, transition, keeps_stopping, is_removed, is_running, is_succeeded, is_failed,
  state_running, state_stopping_requested, state_succeeded, is_waiting_to_start,
  is_not_pending_nor_running, is_pending,
}
use ankaios.Api.Instance.{InstanceName, instance_eq}
use ankaios.Api.StatesMap.{
  WorkloadState, WorkloadStatesMap, states_of_ids, get_workload_state_for_workload,
  get_states_for_workload_name, at_ids, remove_names, remove_state, process_new_state,
  process_new_states,
}
use ankaios.Api.Workload.{
  WorkloadSpec, WorkloadNamed, DeletedWorkload, add_cond_running, del_cond_not_pending_nor_running,
  never,
}
use ankaios.Agent.Dependencies.{
  add_condition_by_state, add_condition_by_any_state, del_condition_by_state,
  del_condition_by_any_state, all_add_conditions, create_fulfilled, all_del_conditions,
  delete_fulfilled,
}
use ankaios.Agent.Scheduler.{
  ReusableWorkload, create, update, pending_create, Scheduler, put_on_queue, report_state,
  enqueue_pending_create, enqueue_pending_update, enqueue_pending_delete, retry_entry,
  retry_entries, next_workload_operations, enqueue_operation, enqueue_operations,
  enqueue_filtered_workload_operations,
}
use ankaios.Agent.Readiness.{IsReady, next-All-IsReady, enqueue-All-IsReady}
use ankaios.Agent.Waiting.{AllBlocked, next-AllBlocked}
use ankaios.Agent.Progress.{is_handled, next_workload_operations_handles}
use ankaios.Agent.Scheduler.{delete}
use ankaios.Agent.Operations.{
  by_name, deleted_operations, added_operations, transform_into_workload_operations,
  execute_workloads,
}
use ankaios.Agent.Requests.{execute_workloads_handles}
use ankaios.Agent.StateStore.{
  AgentManager, update_workloads_on_fulfilled_dependencies, effective_state,
  store_and_forward_own_workload_states, store_all, stored, store_all-AwaitsStop,
}
use ankaios.Agent.Retry.{
  calc_backoff, invalidate, new_token, is_valid, run_calls, calc_backoff-overflow,
}

abbrev pub plain : WorkloadSpec
plain = record {
  agent = "a";
  tags = [];
  dependencies = ("db", add_cond_running) ∷ [];
  restart_policy = never;
  runtime = "podman";
  runtime_config = "";
  files = [];
  configs = [];
  control_interface_access = record { allow_rules = []; deny_rules = [] };
}

abbrev web : InstanceName
web = record { workload_name = "web"; agent_name = "a"; id = "1" }

abbrev old_web : InstanceName
old_web = record { workload_name = "web"; agent_name = "a"; id = "0" }

abbrev database : InstanceName
database = record { workload_name = "db"; agent_name = "a"; id = "2" }

abbrev named_web : WorkloadNamed
named_web = record { instance_name = web; workload = plain }

abbrev new_web : ReusableWorkload
new_web = record { workload_named = named_web; runtime_workload_id = none }

abbrev deleted_web : DeletedWorkload
deleted_web = record {
  instance_name = old_web;
  dependencies = ("db", del_cond_not_pending_nor_running) ∷ [];
}

abbrev waiting : Scheduler
waiting = record { queue = ("web", pending_create new_web) ∷ []; reported = [] }

abbrev running_db : WorkloadStatesMap
running_db = ("a", ("db", ("2", state_running) ∷ []) ∷ []) ∷ []

abbrev agent : AgentManager
agent = record { workload_state_store = []; scheduler = waiting; to_server = []; executed = [] }

abbrev report : InstanceName → ExecutionState → WorkloadState
report i s = record { instance_name = i; execution_state = s }

program : Unit {0}
unfolding get insert remove modify map_values instance_eq is_removed keeps_stopping transition
    states_of_ids get_workload_state_for_workload get_states_for_workload_name at_ids remove_names
    remove_state process_new_state process_new_states is_running is_succeeded is_failed
    is_waiting_to_start is_pending is_not_pending_nor_running add_condition_by_state
    add_condition_by_any_state del_condition_by_state del_condition_by_any_state all_add_conditions
    create_fulfilled all_del_conditions delete_fulfilled put_on_queue report_state
    enqueue_pending_create enqueue_pending_update enqueue_pending_delete retry_entry retry_entries
    next_workload_operations enqueue_operation enqueue_operations
    enqueue_filtered_workload_operations update_workloads_on_fulfilled_dependencies effective_state
    store_and_forward_own_workload_states store_all calc_backoff invalidate new_token is_valid
    run_calls
program = tt

-- The report of the database lets the waiting workload start.
database_starts_web :
    (store_and_forward_own_workload_states agent (report database state_running)).executed
    ≡ create new_web ∷ []
unfolding program
database_starts_web = refl

-- The deletion waits while the database runs, the creation does not.
update_waits :
    (enqueue_filtered_workload_operations running_db waiting (update named_web deleted_web ∷ [])).1
    ≡ []
unfolding program
update_waits = refl

fourth_backoff : calc_backoff 3 ≡ 4000
unfolding program
fourth_backoff = refl

next-All-IsReady_example : All (IsReady running_db) (next_workload_operations running_db waiting).1
next-All-IsReady_example = next-All-IsReady running_db waiting

enqueue-All-IsReady_example :
    All
      (IsReady running_db)
      (enqueue_filtered_workload_operations running_db waiting
        (update named_web deleted_web ∷ [])).1
enqueue-All-IsReady_example =
    enqueue-All-IsReady running_db waiting (update named_web deleted_web ∷ [])

next-AllBlocked_example : AllBlocked [] (next_workload_operations [] waiting).0
next-AllBlocked_example = next-AllBlocked [] waiting

next_workload_operations_handles_example :
    is_handled (next_workload_operations running_db waiting) "web" ≡ true
unfolding get
next_workload_operations_handles_example =
    next_workload_operations_handles running_db "web" waiting (refl, tt) refl

store_all-AwaitsStop_example :
    stored
      (store_all
        (record agent {
          workload_state_store = ("a", ("web", ("1", state_stopping_requested) ∷ []) ∷ []) ∷ [];
        })
        (report web state_running ∷ report web state_succeeded ∷ []))
      web
    ≡ some state_stopping_requested
unfolding program
store_all-AwaitsStop_example =
    store_all-AwaitsStop web state_stopping_requested
      (record agent {
        workload_state_store = ("a", ("web", ("1", state_stopping_requested) ∷ []) ∷ []) ∷ [];
      })
      (report web state_running ∷ report web state_succeeded ∷ []) refl tt (λ _. tt, (λ _. tt, tt))

calc_backoff-overflow_example : calc_backoff 70 ≡ 0
calc_backoff-overflow_example = calc_backoff-overflow 70 (omega arith)

-- What is added and deleted is an update, and what is only deleted is a deletion.
one_update :
    transform_into_workload_operations []
      (new_web ∷ [])
      (deleted_web ∷ record deleted_web { instance_name = database } ∷ [])
    ≡ update named_web deleted_web ∷ delete (record deleted_web { instance_name = database }) ∷ []
unfolding get insert remove by_name deleted_operations added_operations
    transform_into_workload_operations
one_update = refl

execute_workloads_handles_example :
    is_handled (execute_workloads running_db [] waiting (new_web ∷ []) (deleted_web ∷ [])) "web"
    ≡ true
unfolding get
execute_workloads_handles_example =
    execute_workloads_handles running_db [] waiting (new_web ∷ []) (deleted_web ∷ []) "web"
      (refl, tt) refl
