-- ===== src/Server/Listening.antt =====
-- The server's state and messages, and what it does with the messages about agents and workloads:
-- `listen_to_agents` of server/src/ankaios_server.rs. A panic is `none`.
pub mod Requests
pub mod Runs
use ankaios.Prelude.{
  String, Bool, true, false, not, if◌then◌else◌, List, [], ◌∷◌, ◌++◌, map, Option, none, some,
  option_then, Result, ok, err, Map, get, insert, remove, modify,
}
use ankaios.Common.Yaml.{Yaml, Comparison}
use ankaios.Api.Execution.{is_removed}
use ankaios.Api.Instance.{InstanceName}
use ankaios.Api.StatesMap.{
  WorkloadState, WorkloadStatesMap, get_workload_state_excluding_agent,
  get_workload_state_for_agent, agent_disconnected_on, process_new_states,
}
use ankaios.Api.Workload.{WorkloadNamed, DeletedWorkload}
use ankaios.Server.Render.{Engine}
use ankaios.Server.ServerState.{
  DesiredState, ServerState, UpdateStateError, get_workloads_for_agent, cleanup_state,
}
use ankaios.Server.NewState.{StateCodec, GenerationError}
use ankaios.Server.StateQuery.{QueryCodec}
use ankaios.Server.PreRendering.{ConfigKeys, PreRenderingError, default_desired_state}
use ankaios.Server.LogCampaigns.{
  LogCampaignStore, new_store, remove_agent_log_campaign_entry, remove_cli_log_campaign_entry,
}
use ankaios.Server.NotStarted.{
  LogMessage, cancel_log_requests, send_log_stop_response_for_disconnected_agent,
}
use ankaios.Server.Comparator.{no_elements, StateDifferenceTree, state_differences}
use ankaios.Server.Events.{
  SubscriberStore, default_subscribers, has_subscribers, remove_subscribers_of_agent,
  remove_cli_subscriber, remove_workload_subscriber,
}
use ankaios.Server.Events.Sending.{AlteredFields, CompleteStateEvent, send_events}

pub record AgentAttributes (Tags Status : Type 0) : Type 0 where
  pub tags : Tags
  pub status : Option Status

-- What the server calls: the libraries and generated conversions of its parts, the conversion of its
-- complete state to a message and of that to a YAML mapping, and the contents that it passes on.
pub record Libraries : Type 1 where
  pub engine : Engine
  pub yaml : Yaml
  pub comparison : Comparison yaml
  pub states : StateCodec engine yaml
  pub queries : QueryCodec yaml
  pub keys : ConfigKeys engine
  pub Tags : Type 0
  pub Status : Type 0
  pub LogOptions : Type 0
  pub LogEntries : Type 0
  pub agents_of : states.AgentMap → Map (AgentAttributes Tags Status)
  pub complete_state :
      DesiredState engine
      → WorkloadStatesMap
      → Map (AgentAttributes Tags Status)
      → queries.CompleteState
  pub default_complete_state : queries.CompleteState
  pub mapping_of : queries.CompleteState → yaml.Mapping

pub record LogsRequest (Options : Type 0) : Type 0 where
  pub workload_names : List InstanceName
  pub options : Options

pub data RequestError : Type 0 where
  no_content no_new_state : RequestError
  generation_rejected : GenerationError → RequestError
  wrong_format : PreRenderingError → RequestError
  update_rejected : UpdateStateError → RequestError

module _ (lib : Libraries) where
  abbrev pub AgentMap : Type 0
  AgentMap = Map (AgentAttributes lib.Tags lib.Status)

  pub data RequestContent : Type 0 where
    complete_state_request : List String → Bool → RequestContent
    update_state_request : Option lib.states.Update → List String → RequestContent
    logs_request : LogsRequest lib.LogOptions → RequestContent
    logs_cancel_request events_cancel_request : RequestContent

  pub data ToServer : Type 0 where
    agent_hello : String → lib.Tags → ToServer
    agent_load_status : String → lib.Status → ToServer
    agent_gone goodbye : String → ToServer
    request : String → Option RequestContent → ToServer
    update_workload_state : List WorkloadState → ToServer
    log_entries_response : String → lib.LogEntries → ToServer
    logs_stop_response : String → InstanceName → ToServer
    stop : ToServer

  pub data FromServer : Type 0 where
    send_workload_state : List WorkloadState → FromServer
    server_hello : String → List WorkloadNamed → FromServer
    send_update_workload : List WorkloadNamed → List DeletedWorkload → FromServer
    complete_state_response : String → lib.queries.CompleteState → Option AlteredFields → FromServer
    error_response : String → RequestError → FromServer
    update_state_success : String → List String → List String → FromServer
    send_logs_request logs_request_accepted : String → LogsRequest lib.LogOptions → FromServer
    logs_cancel_request_accepted event_cancel_request_accepted : String → FromServer
    send_log_entries : String → lib.LogEntries → FromServer
    log_message : LogMessage → FromServer

  pub record AnkaiosServer : Type 0 where
    pub server_state : ServerState lib.engine
    pub workload_states_map : WorkloadStatesMap
    pub agent_map : AgentMap
    pub log_campaign_store : LogCampaignStore
    pub event_handler : SubscriberStore

  abbrev pub new_server : AnkaiosServer
  new_server = record {
    server_state = record {
      desired_state = default_desired_state lib.engine;
      rendered_workloads = [];
      delete_graph = [];
    };
    workload_states_map = [];
    agent_map = [];
    log_campaign_store = new_store;
    event_handler = default_subscribers;
  }

  -- The server after a message, and what it has sent.
  abbrev pub Handled : Type 0
  Handled = Option (AnkaiosServer × List FromServer)

  -- The complete state of the server, and the parts of it that are compared.
  abbrev pub current_state : AnkaiosServer → lib.queries.CompleteState
  current_state s =
      lib.complete_state s.server_state.desired_state s.workload_states_map s.agent_map

  abbrev pub state_with : WorkloadStatesMap → AgentMap → lib.queries.CompleteState
  state_with workload_states agents =
      lib.complete_state (default_desired_state lib.engine) workload_states agents

  abbrev pub event_message : CompleteStateEvent lib.queries.CompleteState → FromServer
  event_message e = complete_state_response e.request_id e.complete_state (some e.altered_fields)

  abbrev pub with_differences :
      lib.queries.CompleteState
      → lib.queries.CompleteState
      → (StateDifferenceTree lib.yaml → Option (List FromServer))
      → Option (List FromServer)
  with_differences old_state new_state next =
      elim (state_differences lib.yaml lib.comparison (lib.mapping_of old_state)
        (lib.mapping_of new_state)) [ err e ↦ none | ok t ↦ next t ]

  abbrev pub events_for : AnkaiosServer → StateDifferenceTree lib.yaml → Option (List FromServer)
  events_for s t =
      elim (send_events lib.yaml lib.comparison lib.queries lib.default_complete_state
        (current_state s) s.event_handler t) [
          | err e ↦ none
          | ok events ↦ some (map event_message events)
        ]

  -- What is sent where there are subscribers.
  unfoldable pub state_events :
      AnkaiosServer
      → lib.queries.CompleteState
      → lib.queries.CompleteState
      → Option (List FromServer)
  state_events s old_state new_state = elim (has_subscribers s.event_handler) [
    | false ↦ some []
    | true ↦ with_differences old_state new_state (events_for s)
  ]

  unfoldable pub handle_agent_hello : AnkaiosServer → String → lib.Tags → Handled
  handle_agent_hello s agent_name tags =
      let workload_states = get_workload_state_excluding_agent s.workload_states_map agent_name in
      let stored = record s {
        agent_map = insert s.agent_map agent_name (record { tags = tags; status = none });
      } in
      option_then (state_events stored (state_with [] s.agent_map) (state_with [] stored.agent_map))
        (λ events. some (
          stored,
          (if no_elements workload_states then [] else send_workload_state workload_states ∷ [])
              ++ server_hello agent_name
                  (get_workloads_for_agent lib.engine s.server_state agent_name)
                ∷ events,
        ))

  unfoldable pub handle_agent_load_status : AnkaiosServer → String → lib.Status → Handled
  handle_agent_load_status s agent_name status =
      let stored = record s {
        agent_map = modify s.agent_map agent_name (λ e. record e { status = some status });
      } in
      option_then (state_events stored (state_with [] s.agent_map) (state_with [] stored.agent_map))
        (λ events. some (stored, events))

  unfoldable pub handle_agent_gone : AnkaiosServer → String → Handled
  handle_agent_gone s agent_name =
      let stored = record s {
        agent_map = remove s.agent_map agent_name;
        workload_states_map = agent_disconnected_on s.workload_states_map agent_name;
      } in
      let removed = remove_agent_log_campaign_entry s.log_campaign_store agent_name in
      option_then
        (state_events stored (state_with s.workload_states_map s.agent_map)
          (state_with stored.workload_states_map stored.agent_map))
        (λ events. some (
          record stored {
            log_campaign_store = removed.0;
            event_handler =
                if has_subscribers s.event_handler
                then remove_subscribers_of_agent s.event_handler agent_name
                else s.event_handler;
          },
          events
              ++ send_workload_state
                  (get_workload_state_for_agent stored.workload_states_map agent_name)
                ∷ (map log_message (cancel_log_requests removed.1.collector_requests)
                    ++ map log_message (
                        send_log_stop_response_for_disconnected_agent
                          removed.1.disconnected_log_providers)),
        ))

  abbrev pub remove_deleted_subscribers : SubscriberStore → List WorkloadState → SubscriberStore
  remove_deleted_subscribers store [] = store
  remove_deleted_subscribers store (w ∷ workload_states) =
      remove_deleted_subscribers
        (if is_removed w.execution_state
          then remove_workload_subscriber store w.instance_name.agent_name
              w.instance_name.workload_name
          else store)
        workload_states

  unfoldable pub handle_update_workload_state : AnkaiosServer → List WorkloadState → Handled
  handle_update_workload_state s workload_states =
      let stored = record s {
        workload_states_map = process_new_states s.workload_states_map workload_states;
        server_state = cleanup_state lib.engine s.server_state workload_states;
      } in
      option_then
        (state_events stored (state_with s.workload_states_map [])
          (state_with stored.workload_states_map []))
        (λ events. some (
          record stored {
            event_handler =
                if has_subscribers s.event_handler
                then remove_deleted_subscribers s.event_handler workload_states
                else s.event_handler;
          },
          events ++ send_workload_state workload_states ∷ [],
        ))

  unfoldable pub handle_goodbye : AnkaiosServer → String → AnkaiosServer × List FromServer
  handle_goodbye s connection_name =
      let removed = remove_cli_log_campaign_entry s.log_campaign_store connection_name in
      (
        record s {
          log_campaign_store = removed.0;
          event_handler = remove_cli_subscriber s.event_handler connection_name;
        },
        map log_message (cancel_log_requests removed.1),
      )
