-- ===== src/Server/Listening/Runs.antt =====
-- The start of the server and its loop over the messages: `start` and `listen_to_agents` of
-- server/src/ankaios_server.rs.
pub mod Answers
pub mod Rejections
pub mod ValidRuns
pub mod Returns
pub mod Answered
use ankaios.Prelude.{
  String, Bool, true, false, List, [], ◌∷◌, ◌++◌, map, Option, none, some, option_then, Result, ok,
  err,
}
use ankaios.Api.StatesMap.{initial_state}
use ankaios.Server.ServerState.{DesiredState, AddedDeletedWorkloads, UpdateStateError, update}
use ankaios.Server.NotStarted.{logs_stop_response as stop_message}
use ankaios.Server.PreRendering.{PreRenderingError, validate_pre_rendering}
use ankaios.Server.Listening.{
  Libraries, ToServer, agent_hello, agent_load_status, agent_gone, goodbye, request,
  update_workload_state, log_entries_response, logs_stop_response, stop, FromServer,
  send_update_workload, send_log_entries, log_message, AnkaiosServer, new_server, Handled,
  handle_agent_hello, handle_agent_load_status, handle_agent_gone, handle_update_workload_state,
  handle_goodbye,
}
use ankaios.Server.Listening.Requests.{name_of_added, handle_request}

pub data StartError : Type 0 where
  invalid_format : PreRenderingError → StartError
  invalid_update : UpdateStateError → StartError

module _ (lib : Libraries) where
  abbrev pub started :
      AnkaiosServer lib → Option AddedDeletedWorkloads → AnkaiosServer lib × List (FromServer lib)
  started s none = (s, [])
  started s (some r) = (
    record s {
      workload_states_map =
          initial_state s.workload_states_map (map name_of_added r.added_workloads);
    },
    send_update_workload r.added_workloads r.deleted_workloads ∷ [],
  )

  -- What happens before the loop.
  unfoldable pub start :
      Option (DesiredState lib.engine)
      → Result StartError (AnkaiosServer lib × List (FromServer lib))
  start none = ok (new_server lib, [])
  start (some desired_state) = elim (validate_pre_rendering lib.engine lib.keys desired_state) [
    | some e ↦ err (invalid_format e)
    | none ↦
        let initial = new_server lib in
        let updated = update lib.engine initial.server_state desired_state in
        elim updated.1 [
          | err e ↦ err (invalid_update e)
          | ok r ↦ ok (started (record initial { server_state = updated.0 }) r)
        ]
  ]

  unfoldable pub handle_message : AnkaiosServer lib → ToServer lib → Handled lib
  handle_message s (agent_hello agent_name tags) = handle_agent_hello lib s agent_name tags
  handle_message s (agent_load_status agent_name status) =
      handle_agent_load_status lib s agent_name status
  handle_message s (agent_gone agent_name) = handle_agent_gone lib s agent_name
  handle_message s (request request_id content) = handle_request lib s request_id content
  handle_message s (update_workload_state workload_states) =
      handle_update_workload_state lib s workload_states
  handle_message s (log_entries_response request_id entries) =
      some (s, send_log_entries request_id entries ∷ [])
  handle_message s (logs_stop_response request_id workload_name) =
      some (s, log_message (stop_message request_id workload_name) ∷ [])
  handle_message s (goodbye connection_name) = some (handle_goodbye lib s connection_name)
  handle_message s stop = some (s, [])

  abbrev pub is_stop : ToServer lib → Bool
  is_stop stop = true
  is_stop _ = false

  -- The loop ends at `stop`, or where the channel is closed.
  unfoldable pub listen_to_agents : AnkaiosServer lib → List (ToServer lib) → Handled lib
  listen_to_agents s [] = some (s, [])
  listen_to_agents s (message ∷ messages) = elim (is_stop message) [
    | true ↦ some (s, [])
    | false ↦ option_then (handle_message s message) (λ (changed, sent).
        option_then (listen_to_agents changed messages)
          (λ (last, later). some (last, sent ++ later)))
  ]
