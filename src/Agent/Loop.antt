-- ===== src/Agent/Loop.antt =====
-- The loop of the agent: `start` and `execute_from_server_command` of agent/src/agent_manager.rs, with the
-- runtime manager that it calls and the store of agent/src/subscription_store.rs.
pub mod Blocked
pub mod Counts
pub mod Collections
use ankaios.Prelude.{
  String, Bool, true, false, ◌==◌, not, List, [], ◌∷◌, ◌++◌, map, Option, none, some, if◌then◌else◌,
  member, keep,
}
use ankaios.Common.RequestPrefix.{detach_prefix_from_request_id}
use ankaios.Api.Instance.{InstanceName}
use ankaios.Api.StatesMap.{WorkloadState, WorkloadStatesMap, process_new_states}
use ankaios.Api.Workload.{WorkloadNamed, DeletedWorkload}
use ankaios.Agent.Scheduler.{Scheduler, Ready, next_workload_operations}
use ankaios.Agent.Operations.{handle_update_workload}
use ankaios.Agent.Reuse.{ReusableWorkloadState, ReuseEffect, with_name, handle_server_hello}
use ankaios.Agent.Execution.{ExecutionEffect, execute_workload_operations}
use ankaios.Agent.StateStore.{effective_state, store_each}

-- What the agent does: the calls of the runtimes and workloads, the messages to the server, the response
-- for a workload's control interface, and the log collections that are started and aborted.
pub data AgentEffect : Type 0 where
  reuse : ReuseEffect → AgentEffect
  execution : ExecutionEffect → AgentEffect
  send_workload_state : List WorkloadState → AgentEffect
  send_load_status : String → AgentEffect
  forward_response_to : String → String → AgentEffect
  start_collecting_logs : String → List InstanceName → AgentEffect
  abort_collecting_logs : String → AgentEffect

-- The requests whose logs are collected.
abbrev pub SubscriptionStore : Type 0
SubscriptionStore = List String

-- `workloads` are the names of the workloads that the agent knows.
pub record Agent : Type 0 where
  pub agent_name : String
  pub workload_state_store : WorkloadStatesMap
  pub scheduler : Scheduler
  pub workloads : List String
  pub subscription_store : SubscriptionStore
  pub done : List AgentEffect

-- A hello comes with what the runtimes answer about the workloads that they have already, and a request for
-- logs with the instance names that can be read and whether their workloads give a log fetcher.
pub data FromServer : Type 0 where
  server_hello :
      List (String × Option (List ReusableWorkloadState)) → List WorkloadNamed → FromServer
  update_workload : List WorkloadNamed → List DeletedWorkload → FromServer
  update_workload_state : List WorkloadState → FromServer
  response : String → FromServer
  logs_request : String → List (Option InstanceName × Bool) → FromServer
  logs_cancel_request : String → FromServer
  server_gone stop : FromServer

-- The last one is the end of a log collection whose workloads send no more lines.
pub data AgentEvent : Type 0 where
  from_server : FromServer → AgentEvent
  own_workload_state : WorkloadState → AgentEvent
  interval_tick : AgentEvent
  log_collection_finished : String → AgentEvent

abbrev pub do_all : Agent → List AgentEffect → Agent
do_all a effects = record a { done = a.done ++ effects }

-- An entry that is replaced or removed is dropped, which aborts its collection.
abbrev pub aborted : SubscriptionStore → String → List AgentEffect
aborted store id = if member id store then abort_collecting_logs id ∷ [] else []

unfoldable pub add_subscription : Agent → String → List InstanceName → Agent
add_subscription a id names =
    record (do_all a (start_collecting_logs id names ∷ aborted a.subscription_store id)) {
      subscription_store = with_name a.subscription_store id;
    }

unfoldable pub delete_subscription : Agent → String → Agent
delete_subscription a id = record (do_all a (aborted a.subscription_store id)) {
  subscription_store = keep (λ other. not (other == id)) a.subscription_store;
}

unfoldable pub delete_all_subscriptions : Agent → Agent
delete_all_subscriptions a =
    record (do_all a (map (λ id. abort_collecting_logs id) a.subscription_store)) {
      subscription_store = [];
    }

unfoldable pub get_log_fetchers :
    List String → List (Option InstanceName × Bool) → List InstanceName
get_log_fetchers workloads [] = []
get_log_fetchers workloads ((none, answer) ∷ workload_names) =
    get_log_fetchers workloads workload_names
get_log_fetchers workloads ((some instance_name, answer) ∷ workload_names) =
    let res = get_log_fetchers workloads workload_names in
    if member instance_name.workload_name workloads
    then (if answer then instance_name ∷ res else res)
    else res

unfoldable pub forward_response : Agent → String → Agent
forward_response a response_id =
    let (workload_name, request_id) = detach_prefix_from_request_id response_id in
    if member workload_name a.workloads
    then do_all a (forward_response_to workload_name request_id ∷ [])
    else a

-- `runtime_map` gives the names of the runtimes that the agent has.
module _ (runtime_map : List String) where
  -- The operations that the scheduler hands out are executed.
  unfoldable pub run_ready : Agent → Ready → Agent
  run_ready a (s, workload_operations) =
      let executed =
        execute_workload_operations runtime_map (record { workloads = a.workloads; done = [] })
          workload_operations in
      record (do_all a (map (λ e. execution e) executed.done)) {
        scheduler = s;
        workloads = executed.workloads;
      }

  unfoldable pub hello_from_server :
      Agent → List (String × Option (List ReusableWorkloadState)) → List WorkloadNamed → Agent
  hello_from_server a answers added_workloads =
      let (resumed, ready) =
        handle_server_hello a.workload_state_store a.workloads a.scheduler answers
          added_workloads in
      run_ready
        (record (do_all a (map (λ e. reuse e) resumed.effects)) { workloads = resumed.workloads })
        ready

  abbrev pub update_on_fulfilled : Agent → Agent
  update_on_fulfilled a = run_ready a (next_workload_operations a.workload_state_store a.scheduler)

  unfoldable pub store_states : Agent → List WorkloadState → Agent
  store_states a [] = a
  store_states a (w ∷ workload_states) =
      update_on_fulfilled (record a {
        workload_state_store = store_each a.workload_state_store (w ∷ workload_states);
      })

  -- `none` ends the loop.
  unfoldable pub execute_from_server_command : Agent → FromServer → Option Agent
  execute_from_server_command a (server_hello answers added_workloads) =
      some (hello_from_server a answers added_workloads)
  execute_from_server_command a (update_workload added_workloads deleted_workloads) = some (
      run_ready a (
        handle_update_workload a.workload_state_store a.workloads a.scheduler added_workloads
          deleted_workloads))
  execute_from_server_command a (update_workload_state workload_states) =
      some (store_states a workload_states)
  execute_from_server_command a (response response_id) = some (forward_response a response_id)
  execute_from_server_command a stop = none
  execute_from_server_command a (logs_request request_id workload_names) =
      some (add_subscription a request_id (get_log_fetchers a.workloads workload_names))
  execute_from_server_command a (logs_cancel_request request_id) =
      some (delete_subscription a request_id)
  execute_from_server_command a server_gone = some (delete_all_subscriptions a)

  unfoldable pub store_own_state : Agent → WorkloadState → Agent
  store_own_state a new_workload_state =
      let stored_state = effective_state a.workload_state_store new_workload_state in
      do_all
        (update_on_fulfilled (record a {
          workload_state_store = process_new_states a.workload_state_store (stored_state ∷ []);
        }))
        (send_workload_state (stored_state ∷ []) ∷ [])

  unfoldable pub handle_agent_event : Agent → AgentEvent → Option Agent
  handle_agent_event a (from_server message) = execute_from_server_command a message
  handle_agent_event a (own_workload_state w) = some (store_own_state a w)
  handle_agent_event a interval_tick = some (do_all a (send_load_status a.agent_name ∷ []))
  handle_agent_event a (log_collection_finished id) = some (delete_subscription a id)

  unfoldable pub run_agent : Agent → List AgentEvent → Agent
  run_agent a [] = a
  run_agent a (event ∷ events) = elim (handle_agent_event a event) [
    | none ↦ a
    | some changed ↦ run_agent changed events
  ]

abbrev pub new_agent : String → Agent
new_agent agent_name = record {
  agent_name = agent_name;
  workload_state_store = [];
  scheduler = record { queue = []; reported = [] };
  workloads = [];
  subscription_store = [];
  done = [];
}
