-- ===== src/Server/NotStarted.antt =====
-- What the server does with the workloads that an update deletes, before it sends them to the agents:
-- `handle_not_started_deleted_workloads` and `cancel_log_requests_of_deleted_workloads` of
-- server/src/ankaios_server.rs, and the messages that end log requests.
pub mod Handled
use ankaios.Prelude.{
  String, ◌==◌, Bool, true, false, not, ◌&&◌, ◌||◌, if◌then◌else◌, List, [], ◌∷◌, ◌++◌, Option,
  none, some, Map, contains_key,
}
use ankaios.Api.Execution.{ExecutionState, is_pending_initial, state_removed}
use ankaios.Api.Instance.{InstanceName}
use ankaios.Api.StatesMap.{
  WorkloadStatesMap, WorkloadState, get_workload_state_for_workload, remove_state,
}
use ankaios.Api.Workload.{DeletedWorkload}
use ankaios.Server.LogCampaigns.{LogCampaignStore, remove_collector_campaign_entry}

-- The messages to the agents that end log requests.
pub data LogMessage : Type 0 where
  logs_cancel_request : String → LogMessage
  logs_stop_response : String → InstanceName → LogMessage

unfoldable pub cancel_log_requests : List String → List LogMessage
cancel_log_requests [] = []
cancel_log_requests (request_id ∷ request_ids) =
    logs_cancel_request request_id ∷ cancel_log_requests request_ids

unfoldable pub cancel_log_requests_of_deleted_workloads :
    LogCampaignStore → List DeletedWorkload → LogCampaignStore × List LogMessage
cancel_log_requests_of_deleted_workloads s [] = (s, [])
cancel_log_requests_of_deleted_workloads s (deleted_workload ∷ deleted_workloads) =
    let removed = remove_collector_campaign_entry s deleted_workload.instance_name.workload_name in
    let rest = cancel_log_requests_of_deleted_workloads removed.0 deleted_workloads in
    (rest.0, cancel_log_requests removed.1 ++ rest.1)

unfoldable pub stop_responses : String → List InstanceName → List LogMessage
stop_responses request_id [] = []
stop_responses request_id (workload_instance_name ∷ stopped_log_providers) =
    logs_stop_response request_id workload_instance_name
    ∷ stop_responses request_id stopped_log_providers

unfoldable pub send_log_stop_response_for_disconnected_agent :
    List (String × List InstanceName) → List LogMessage
send_log_stop_response_for_disconnected_agent [] = []
send_log_stop_response_for_disconnected_agent ((request_id, stopped_log_providers) ∷ stopped) =
    stop_responses request_id stopped_log_providers
    ++ send_log_stop_response_for_disconnected_agent stopped

-- `is_some_and(is_pending_initial)`
abbrev pub initial_there : Option ExecutionState → Bool
initial_there none = false
initial_there (some current_execution_state) = is_pending_initial current_execution_state

abbrev pub removed_state : DeletedWorkload → WorkloadState
removed_state deleted_wl = record {
  instance_name = deleted_wl.instance_name;
  execution_state = state_removed;
}

-- `agents` is the map of the connected agents.
module _ {Agent : Type 0} (agents : Map Agent) where
  unfoldable pub deleted_workload_never_started_on_agent :
      WorkloadStatesMap → DeletedWorkload → Bool
  deleted_workload_never_started_on_agent db deleted_workload =
      not (contains_key agents deleted_workload.instance_name.agent_name)
      && initial_there (get_workload_state_for_workload db deleted_workload.instance_name)

  abbrev pub is_not_started : WorkloadStatesMap → DeletedWorkload → Bool
  is_not_started db deleted_wl =
      deleted_wl.instance_name.agent_name == ""
      || deleted_workload_never_started_on_agent db deleted_wl

  -- The loop of `retain`: the states map, the workloads that stay and the states that are sent.
  unfoldable pub handle_not_started_deleted_workloads :
      WorkloadStatesMap
      → List DeletedWorkload
      → WorkloadStatesMap × (List DeletedWorkload × List WorkloadState)
  handle_not_started_deleted_workloads db [] = (db, ([], []))
  handle_not_started_deleted_workloads db (deleted_wl ∷ deleted_workloads) =
      elim (is_not_started db deleted_wl) [
        | true ↦
            let rest =
              handle_not_started_deleted_workloads (remove_state db deleted_wl.instance_name)
                deleted_workloads in
            (rest.0, (rest.1.0, removed_state deleted_wl ∷ rest.1.1))
        | false ↦
            let rest = handle_not_started_deleted_workloads db deleted_workloads in
            (rest.0, (deleted_wl ∷ rest.1.0, rest.1.1))
      ]
