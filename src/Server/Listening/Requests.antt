-- ===== src/Server/Listening/Requests.antt =====
-- What the server does with a request: the arm of `ToServer::Request` in `listen_to_agents`, with
-- `set_agent_tags` and `handle_post_update_steps` of server/src/ankaios_server.rs.
use ankaios.Prelude.{
  String, Bool, true, false, if◌then◌else◌, List, [], ◌∷◌, ◌++◌, map, Option, none, some,
  option_then, ok, err, modify,
}
use ankaios.Common.Path.{path_from}
use ankaios.Api.Instance.{InstanceName, instance_to_string}
use ankaios.Api.StatesMap.{WorkloadState, WorkloadStatesMap, initial_state}
use ankaios.Api.Workload.{WorkloadNamed, DeletedWorkload}
use ankaios.Server.ServerState.{AddedDeletedWorkloads, update, desired_state_contains_instance_name}
use ankaios.Server.NewState.{StateGenerationResult, generate_new_state}
use ankaios.Server.StateQuery.{get_complete_state_by_field_mask}
use ankaios.Server.PreRendering.{validate_pre_rendering}
use ankaios.Server.LogCampaigns.{LogCampaignStore, insert_log_campaign, remove_logs_request_id}
use ankaios.Server.NotStarted.{
  LogMessage, logs_cancel_request as cancel_message, cancel_log_requests_of_deleted_workloads,
  handle_not_started_deleted_workloads,
}
use ankaios.Server.Comparator.{no_elements, StateDifferenceTree}
use ankaios.Server.Comparator.Trees.{state_difference_tree_is_empty}
use ankaios.Server.Events.{has_subscribers, add_subscriber, remove_subscriber}
use ankaios.Server.Listening.{
  Libraries, AgentMap, LogsRequest, no_content, no_new_state, generation_rejected, wrong_format,
  update_rejected, RequestContent, complete_state_request, update_state_request, logs_request,
  logs_cancel_request, events_cancel_request, FromServer, send_workload_state, send_update_workload,
  complete_state_response, error_response, update_state_success, send_logs_request,
  logs_request_accepted, logs_cancel_request_accepted, event_cancel_request_accepted, log_message,
  AnkaiosServer, Handled, current_state, with_differences, events_for,
}

abbrev pub name_of_added : WorkloadNamed → InstanceName
name_of_added w = w.instance_name

abbrev pub name_of_deleted : DeletedWorkload → InstanceName
name_of_deleted w = w.instance_name

module _ (lib : Libraries) where
  abbrev pub Generated : Type 0
  Generated = StateGenerationResult lib.engine lib.yaml lib.states

  abbrev pub reply_only : AnkaiosServer lib → FromServer lib → Handled lib
  reply_only s reply = some (s, reply ∷ [])

  unfoldable pub handle_complete_state_request :
      AnkaiosServer lib → String → List String → Bool → Handled lib
  handle_complete_state_request s request_id field_mask subscribe_for_events =
      elim (get_complete_state_by_field_mask lib.yaml lib.queries (current_state lib s)
        field_mask) [
          | err e ↦
              reply_only s (complete_state_response request_id lib.default_complete_state none)
          | ok state ↦ elim subscribe_for_events [
            | false ↦ reply_only s (complete_state_response request_id state none)
            | true ↦
                option_then (add_subscriber s.event_handler request_id (map path_from field_mask))
                  (λ store. some (
                    record s { event_handler = store },
                    complete_state_response request_id state none ∷ [],
                  ))
          ]
        ]

  unfoldable pub set_agent_tags : AgentMap lib → AgentMap lib → AgentMap lib
  set_agent_tags agents [] = agents
  set_agent_tags agents ((agent_name, new_agent_attributes) ∷ agent_map) =
      set_agent_tags
        (modify agents agent_name
          (λ existing_agent. record existing_agent { tags = new_agent_attributes.tags }))
        agent_map

  -- No events are sent for trees that are empty.
  abbrev pub unless_empty :
      AnkaiosServer lib → StateDifferenceTree lib.yaml → Option (List (FromServer lib))
  unless_empty s t =
      option_then (state_difference_tree_is_empty lib.yaml t)
        (λ is_empty. if is_empty then some [] else events_for lib s t)

  unfoldable pub update_events :
      AnkaiosServer lib
      → lib.queries.CompleteState
      → lib.queries.CompleteState
      → Option (List (FromServer lib))
  update_events s old_state new_state = elim (has_subscribers s.event_handler) [
    | false ↦ some []
    | true ↦ with_differences lib old_state new_state (unless_empty s)
  ]

  -- The states map with the added workloads, the log campaigns that are cancelled, and the deleted
  -- workloads that never started.
  abbrev pub retained_workloads :
      AnkaiosServer lib
      → AddedDeletedWorkloads
      → WorkloadStatesMap × (List DeletedWorkload × List WorkloadState)
  retained_workloads s r =
      handle_not_started_deleted_workloads s.agent_map
        (initial_state s.workload_states_map (map name_of_added r.added_workloads))
        r.deleted_workloads

  abbrev pub cancelled_requests :
      AnkaiosServer lib → AddedDeletedWorkloads → LogCampaignStore × List LogMessage
  cancelled_requests s r =
      cancel_log_requests_of_deleted_workloads s.log_campaign_store r.deleted_workloads

  abbrev pub post_update_server : AnkaiosServer lib → AddedDeletedWorkloads → AnkaiosServer lib
  post_update_server s r = record s {
    workload_states_map = (retained_workloads s r).0;
    log_campaign_store = (cancelled_requests s r).0;
  }

  abbrev pub removed_reports : List WorkloadState → List (FromServer lib)
  removed_reports deleted_workload_states =
      if no_elements deleted_workload_states
      then []
      else send_workload_state deleted_workload_states ∷ []

  abbrev pub post_update_messages :
      AnkaiosServer lib
      → String
      → AddedDeletedWorkloads
      → List (FromServer lib)
      → List (FromServer lib)
  post_update_messages s request_id r events =
      map (λ m. log_message m) (cancelled_requests s r).1
      ++ (events
          ++ (removed_reports (retained_workloads s r).1.1
              ++ send_update_workload r.added_workloads (retained_workloads s r).1.0
                ∷ (update_state_success request_id
                      (map instance_to_string (map name_of_added r.added_workloads))
                      (map instance_to_string (map name_of_deleted r.deleted_workloads))
                    ∷ [])))

  abbrev pub post_update_events :
      AnkaiosServer lib → AddedDeletedWorkloads → Generated → Option (List (FromServer lib))
  post_update_events s r generated =
      update_events (post_update_server s r)
        (lib.complete_state generated.old_desired_state s.workload_states_map [])
        (lib.complete_state generated.new_desired_state (post_update_server s r).workload_states_map
          [])

  unfoldable pub handle_post_update_steps :
      AnkaiosServer lib → String → AddedDeletedWorkloads → Generated → Handled lib
  handle_post_update_steps s request_id r generated =
      option_then (post_update_events s r generated)
        (λ events. some (post_update_server s r, post_update_messages s request_id r events))

  -- Configuration items may have changed.
  abbrev pub same_workloads_events : AnkaiosServer lib → Generated → Option (List (FromServer lib))
  same_workloads_events s generated =
      update_events s (lib.complete_state generated.old_desired_state [] [])
        (lib.complete_state generated.new_desired_state [] [])

  unfoldable pub handle_same_workloads : AnkaiosServer lib → String → Generated → Handled lib
  handle_same_workloads s request_id generated =
      option_then (same_workloads_events s generated)
        (λ events. some (s, update_state_success request_id [] [] ∷ events))

  -- The update of the server's state with a generated one. The state that `update` leaves behind is the server's in each case.
  unfoldable pub update_server_state : AnkaiosServer lib → String → Generated → Handled lib
  update_server_state s request_id generated =
      let updated = update lib.engine s.server_state generated.new_desired_state in
      let stored = record s { server_state = updated.0 } in
      let tagged = record stored {
        agent_map = set_agent_tags s.agent_map (lib.agents_of generated.new_agent_map);
      } in
      elim updated.1 [
        | err e ↦ reply_only stored (error_response request_id (update_rejected e))
        | ok none ↦ handle_same_workloads tagged request_id generated
        | ok (some r) ↦ handle_post_update_steps tagged request_id r generated
      ]

  unfoldable pub handle_update_state_request :
      AnkaiosServer lib → String → Option lib.states.Update → List String → Handled lib
  handle_update_state_request s request_id none update_mask =
      reply_only s (error_response request_id no_new_state)
  handle_update_state_request s request_id (some new_state) update_mask =
      elim (generate_new_state lib.engine lib.yaml lib.states s.server_state new_state
        update_mask) [
          | err e ↦ reply_only s (error_response request_id (generation_rejected e))
          | ok generated ↦
              elim (validate_pre_rendering lib.engine lib.keys generated.new_desired_state) [
                | some e ↦ reply_only s (error_response request_id (wrong_format e))
                | none ↦ update_server_state s request_id generated
              ]
        ]

  abbrev pub retain_known : AnkaiosServer lib → List InstanceName → List InstanceName
  retain_known s [] = []
  retain_known s (name ∷ names) =
      let rest = retain_known s names in
      if desired_state_contains_instance_name lib.engine s.server_state name
      then name ∷ rest
      else rest

  unfoldable pub handle_logs_request :
      AnkaiosServer lib → String → LogsRequest lib.LogOptions → Handled lib
  handle_logs_request s request_id r =
      let known = record r { workload_names = retain_known s r.workload_names } in
      elim (no_elements known.workload_names) [
        | true ↦ reply_only s (logs_request_accepted request_id known)
        | false ↦
            option_then (insert_log_campaign s.log_campaign_store request_id known.workload_names)
              (λ store. some (
                record s { log_campaign_store = store },
                send_logs_request request_id known ∷ (logs_request_accepted request_id known ∷ []),
              ))
      ]

  unfoldable pub handle_request :
      AnkaiosServer lib → String → Option (RequestContent lib) → Handled lib
  handle_request s request_id none = reply_only s (error_response request_id no_content)
  handle_request s request_id (some (complete_state_request field_mask subscribe_for_events)) =
      handle_complete_state_request s request_id field_mask subscribe_for_events
  handle_request s request_id (some (update_state_request new_state update_mask)) =
      handle_update_state_request s request_id new_state update_mask
  handle_request s request_id (some (logs_request r)) = handle_logs_request s request_id r
  handle_request s request_id (some logs_cancel_request) =
      option_then (remove_logs_request_id s.log_campaign_store request_id) (λ store. some (
        record s { log_campaign_store = store },
        log_message (cancel_message request_id) ∷ (logs_cancel_request_accepted request_id ∷ []),
      ))
  handle_request s request_id (some events_cancel_request) =
      option_then (remove_subscriber s.event_handler request_id) (λ store.
        some (record s { event_handler = store }, event_cancel_request_accepted request_id ∷ []))
