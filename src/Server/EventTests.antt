-- ===== src/Server/EventTests.antt =====
-- A history of the subscriptions and an update that deletes workloads, and the theorems at them.
use ankaios.Prelude.{
  String, option_then, Map, get, remove, insert, remove_from_set, ◌≡◌, refl, ◌↔◌, true, List, [],
  ◌∷◌, some, split_once, starts_with,
}
use ankaios.Common.Path.{FieldPath}
use ankaios.Server.RequestId.{
  to_string_id, CliRequestId, RequestId, agent_request_id, cli_request_id, cli_id_from,
  agent_id_from, request_id_from, cli_id_eq, agent_id_eq,
}
use ankaios.Api.Execution.{is_pending_initial, plain_state, pending, initial}
use ankaios.Api.Instance.{instance_eq}
use ankaios.Api.StatesMap.{
  WorkloadStatesMap, get_workload_state_for_workload, remove_names, remove_state,
}
use ankaios.Api.Workload.{DeletedWorkload}
use ankaios.Server.LogCampaigns.{
  new_store, retain_other_requests, insert_request_id, insert_log_providers, insert_log_campaign,
  forget_workload_requests, remove_collector_campaign_entry,
}
use ankaios.Server.NotStarted.{
  deleted_workload_never_started_on_agent, handle_not_started_deleted_workloads, removed_state,
  logs_cancel_request, logs_stop_response, cancel_log_requests,
  cancel_log_requests_of_deleted_workloads, stop_responses,
  send_log_stop_response_for_disconnected_agent,
}
use ankaios.Server.NotStarted.Handled.{Handled, handle_not_started_deleted_workloads-Handled}
use ankaios.Server.Events.{
  SubscriberStore, subscription, insert_subscription, retain_ids, add_subscriber, remove_subscriber,
  remove_subscribers_of_agent, remove_cli_subscriber, remove_workload_subscriber, has_subscribers,
  request_id_matches_agent_and_workload_name,
}
use ankaios.Server.Events.Subscriptions.{
  SubscriberOperation, subscribe, agent_gone, cli_gone, latest, replay, replay-subscriptions,
}

program : Unit {0}
unfolding get remove insert get_workload_state_for_workload remove_names remove_state
    is_pending_initial deleted_workload_never_started_on_agent handle_not_started_deleted_workloads
    instance_eq cancel_log_requests cancel_log_requests_of_deleted_workloads stop_responses
    send_log_stop_response_for_disconnected_agent agent_id_eq remove_from_set retain_other_requests
    insert_request_id insert_log_providers insert_log_campaign forget_workload_requests
    remove_collector_campaign_entry to_string_id split_once starts_with cli_id_from agent_id_from
    request_id_from cli_id_eq subscription insert_subscription retain_ids add_subscriber
    remove_subscriber remove_subscribers_of_agent remove_cli_subscriber remove_workload_subscriber
    request_id_matches_agent_and_workload_name
program = tt

abbrev watcher : RequestId
watcher = agent_request_id (record { agent_name = "a"; workload_name = "web"; request_id = "1" })

abbrev cli : CliRequestId
cli = record { cli_name = "cli-conn-1"; request_id = "2" }

-- The command line subscribes and leaves; a workload of agent a subscribes twice, and agent b goes.
abbrev history : List SubscriberOperation
history =
    agent_gone "b"
    ∷ subscribe "a@web@1" (("workloadStates" ∷ []) ∷ [])
    ∷ cli_gone "cli-conn-1"
    ∷ subscribe "a@web@1" []
    ∷ subscribe "cli-conn-1@2" []
    ∷ []

replay-subscriptions_example :
    (s : SubscriberStore) × (replay history ≡ some s)
    × ((id : RequestId) → subscription s id ≡ latest history id)
    × ((has_subscribers s ≡ true) ↔ (
        (id : RequestId) × (field_masks : List FieldPath) × (latest history id ≡ some field_masks)))
unfolding program
replay-subscriptions_example =
    replay-subscriptions history
      (tt, ((watcher, refl), (tt, ((watcher, refl), ((cli_request_id cli, refl), tt)))))

watcher_served : latest history watcher ≡ some (("workloadStates" ∷ []) ∷ [])
unfolding program
watcher_served = refl

-- Agent a is connected, and agent b is not. The map has an initial state for the workloads of both.
abbrev deleted_of : String → DeletedWorkload
deleted_of agent = record {
  instance_name = record { workload_name = "web"; agent_name = agent; id = "1" };
  dependencies = [];
}

abbrev waiting_states : WorkloadStatesMap
waiting_states =
    ("a", ("web", ("1", plain_state (pending initial)) ∷ []) ∷ [])
    ∷ ("b", ("web", ("1", plain_state (pending initial)) ∷ []) ∷ [])
    ∷ []

abbrev connected : Map String
connected = ("a", "tags") ∷ []

handle_not_started_example :
    handle_not_started_deleted_workloads connected waiting_states
      (deleted_of "a" ∷ deleted_of "b" ∷ deleted_of "" ∷ [])
    ≡ (
      ("a", ("web", ("1", plain_state (pending initial)) ∷ []) ∷ []) ∷ [],
      (deleted_of "a" ∷ [], removed_state (deleted_of "b") ∷ removed_state (deleted_of "") ∷ []),
    )
unfolding program
handle_not_started_example = refl

handle_not_started_deleted_workloads-Handled_example :
    Handled connected waiting_states (deleted_of "a" ∷ deleted_of "b" ∷ []) (
      handle_not_started_deleted_workloads connected waiting_states
        (deleted_of "a" ∷ deleted_of "b" ∷ []))
handle_not_started_deleted_workloads-Handled_example =
    handle_not_started_deleted_workloads-Handled connected waiting_states
      (deleted_of "a" ∷ deleted_of "b" ∷ [])

-- The campaign that the deleted workload collects for is cancelled, with a message to the agents.
cancelled_example :
    option_then
      (insert_log_campaign new_store "a@web@1" [])
      (λ s. some (cancel_log_requests_of_deleted_workloads s (deleted_of "a" ∷ [])).1)
    ≡ some (logs_cancel_request "a@web@1" ∷ [])
unfolding program
cancelled_example = refl

stopped_example :
    send_log_stop_response_for_disconnected_agent (("r", (deleted_of "b").instance_name ∷ []) ∷ [])
    ≡ logs_stop_response "r" (deleted_of "b").instance_name ∷ []
unfolding program
stopped_example = refl
