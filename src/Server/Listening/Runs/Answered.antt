-- ===== src/Server/Listening/Runs/Answered.antt =====
-- The answers that `listen_to_agents` of server/src/ankaios_server.rs sends in a run.
use ankaios.Prelude.{
  String, if◌then◌else◌, List, [], ◌∷◌, ◌++◌, map, Option, some, option_then, ◌≡◌, refl, ◌∙◌,
  Bool-cases, inl, inr, collected,
}
use ankaios.Api.StatesMap.{WorkloadState, get_workload_state_excluding_agent}
use ankaios.Server.RequestId.{RequestId, request_id_from}
use ankaios.Server.LogCampaigns.{remove_agent_log_campaign_entry, remove_cli_log_campaign_entry}
use ankaios.Server.NotStarted.{cancel_log_requests, send_log_stop_response_for_disconnected_agent}
use ankaios.Server.Events.{has_subscribers}
use ankaios.Server.Listening.{
  Libraries, ToServer, agent_hello, agent_load_status, agent_gone, goodbye, request,
  update_workload_state, log_entries_response, logs_stop_response, stop, FromServer, log_message,
  AnkaiosServer, Handled, with_differences, state_events, handle_agent_hello,
  handle_agent_load_status, handle_agent_gone, handle_update_workload_state, handle_goodbye,
}
use ankaios.Server.Listening.Requests.{removed_reports}
use ankaios.Server.Listening.Runs.{handle_message, is_stop, listen_to_agents}
use ankaios.Server.Listening.Runs.Answers.{
  collected-append, answers, IsSilent, silent_first, IsSilent-logs, events_for-IsSilent,
  reports-IsSilent,
}
use ankaios.Server.Listening.Runs.Returns.{
  AreTextKeyed, compared-total, events_for-total, handle_request-returns,
}

module _ (lib : Libraries) where
  -- The requests of a message, and those that come before the loop ends.
  abbrev pub asked_by : ToServer lib → List String
  asked_by (request request_id content) = request_id ∷ []
  asked_by _ = []

  abbrev pub asked : List (ToServer lib) → List String
  asked [] = []
  asked (message ∷ messages) =
      let rest = asked messages in if is_stop lib message then [] else asked_by message ++ rest

  abbrev pub IsReadable : ToServer lib → Type 0
  IsReadable (request request_id content) =
      (id : RequestId) × (request_id_from request_id ≡ some id)
  IsReadable _ = Unit

  abbrev pub AreReadable : List (ToServer lib) → Type 0
  AreReadable [] = Unit
  AreReadable (message ∷ messages) = IsReadable message × AreReadable messages

  abbrev IsAnswered : List String → Handled lib → Type 0
  IsAnswered ids handled =
      (changed : AnkaiosServer lib) × (sent : List (FromServer lib)) × (handled
        ≡ some (changed, sent))
      × (collected (answers lib) sent ≡ ids)

  state_events-total :
      AreTextKeyed lib
      → (s : AnkaiosServer lib) (old_state new_state : lib.queries.CompleteState)
      → (sent : List (FromServer lib)) × (state_events lib s old_state new_state ≡ some sent)
        × IsSilent lib sent
  unfolding state_events
  state_events-total keyed s old_state new_state =
      elim (Bool-cases (has_subscribers s.event_handler)) [
        | inr k ↦ ([], rw (k, state_events) refl, refl)
        | inl k ↦
            let (t, e, m) = compared-total lib keyed old_state new_state in
            let (events, g) = events_for-total lib s t m in
            (
              events,
              rw (k, state_events, with_differences, e) g,
              events_for-IsSilent lib s t events g,
            )
      ]

  with_events :
      (events : Option (List (FromServer lib)))
      → ((sent : List (FromServer lib)) × (events ≡ some sent) × IsSilent lib sent)
      → (changed : AnkaiosServer lib) (messages : List (FromServer lib) → List (FromServer lib))
      → ((sent : List (FromServer lib)) → IsSilent lib sent → IsSilent lib (messages sent))
      → IsAnswered [] (option_then events (λ sent. some (changed, messages sent)))
  with_events events (sent, e, silent) changed messages h =
      (changed, messages sent, rw e refl, h sent silent)

  module _ (keyed : AreTextKeyed lib) where
    agent_hello-IsAnswered :
        (s : AnkaiosServer lib) (agent_name : String) (tags : lib.Tags)
        → IsAnswered [] (handle_agent_hello lib s agent_name tags)
    unfolding handle_agent_hello
    agent_hello-IsAnswered s agent_name tags =
        with_events _ (state_events-total keyed _ _ _) _ _ (λ sent silent.
          silent_first lib
            (removed_reports lib
              (get_workload_state_excluding_agent s.workload_states_map agent_name))
            _
            (reports-IsSilent lib
              (get_workload_state_excluding_agent s.workload_states_map agent_name))
          ∙ silent)

    agent_load_status-IsAnswered :
        (s : AnkaiosServer lib) (agent_name : String) (status : lib.Status)
        → IsAnswered [] (handle_agent_load_status lib s agent_name status)
    unfolding handle_agent_load_status
    agent_load_status-IsAnswered s agent_name status =
        with_events _ (state_events-total keyed _ _ _) _ _ (λ sent silent. silent)

    agent_gone-IsAnswered :
        (s : AnkaiosServer lib) (agent_name : String)
        → IsAnswered [] (handle_agent_gone lib s agent_name)
    unfolding handle_agent_gone
    agent_gone-IsAnswered s agent_name =
        let removed = (remove_agent_log_campaign_entry s.log_campaign_store agent_name).1 in
        let cancelled = cancel_log_requests removed.collector_requests in
        let stopped =
          send_log_stop_response_for_disconnected_agent removed.disconnected_log_providers in
        with_events _ (state_events-total keyed _ _ _) _ _ (λ sent silent.
          silent_first lib sent _ silent
          ∙ silent_first lib (map (λ m. log_message m) cancelled) (map (λ m. log_message m) stopped)
              (IsSilent-logs lib cancelled)
          ∙ IsSilent-logs lib stopped)

    update_workload_state-IsAnswered :
        (s : AnkaiosServer lib) (workload_states : List WorkloadState)
        → IsAnswered [] (handle_update_workload_state lib s workload_states)
    unfolding handle_update_workload_state
    update_workload_state-IsAnswered s workload_states =
        with_events _ (state_events-total keyed _ _ _) _ _
          (λ sent silent. silent_first lib sent _ silent)

    goodbye-IsAnswered :
        (s : AnkaiosServer lib) (connection_name : String)
        → IsAnswered [] (some (handle_goodbye lib s connection_name))
    unfolding handle_goodbye
    goodbye-IsAnswered s connection_name = (
      _,
      _,
      refl,
      IsSilent-logs lib (
          cancel_log_requests
            (remove_cli_log_campaign_entry s.log_campaign_store connection_name).1),
    )

    handle_message-IsAnswered :
        (s : AnkaiosServer lib) (message : ToServer lib)
        → IsReadable message
        → IsAnswered (asked_by message) (handle_message lib s message)
    unfolding handle_message
    handle_message-IsAnswered s (agent_hello agent_name tags) r =
        agent_hello-IsAnswered s agent_name tags
    handle_message-IsAnswered s (agent_load_status agent_name status) r =
        agent_load_status-IsAnswered s agent_name status
    handle_message-IsAnswered s (agent_gone agent_name) r = agent_gone-IsAnswered s agent_name
    handle_message-IsAnswered s (request request_id content) (id, readable) =
        handle_request-returns lib request_id id readable keyed s content
    handle_message-IsAnswered s (update_workload_state workload_states) r =
        update_workload_state-IsAnswered s workload_states
    handle_message-IsAnswered s (log_entries_response request_id entries) r = (_, _, refl, refl)
    handle_message-IsAnswered s (logs_stop_response request_id workload_name) r = (_, _, refl, refl)
    handle_message-IsAnswered s (goodbye connection_name) r = goodbye-IsAnswered s connection_name
    handle_message-IsAnswered s stop r = (_, _, refl, refl)

    -- Where the serialised states have texts as keys and the ids of the requests can be read, the server
    -- does not panic on any sequence of messages, and sends exactly one answer for each request that
    -- comes before it stops, in the order in which they come. No other message is an answer.
    pub listen_to_agents-answers :
        (s : AnkaiosServer lib) (messages : List (ToServer lib))
        → AreReadable messages
        → (last : AnkaiosServer lib) × (sent : List (FromServer lib)) × (listen_to_agents lib s
              messages
            ≡ some (last, sent))
          × (collected (answers lib) sent ≡ asked messages)
    unfolding listen_to_agents
    listen_to_agents-answers s [] r = (s, [], refl, refl)
    listen_to_agents-answers s (message ∷ messages) (r, rs) =
        elim (Bool-cases (is_stop lib message)) [
          | inl k ↦ (s, [], rw (k, listen_to_agents) refl, rw k refl)
          | inr k ↦
              let (changed, sent, e, answered) = handle_message-IsAnswered s message r in
              let (last, later, f, answered_later) = listen_to_agents-answers changed messages rs in
              (
                last,
                sent ++ later,
                rw (k, listen_to_agents, e, f) refl,
                rw k (
                    collected-append (answers lib) sent later ∙ rw (answered, answered_later) refl),
              )
        ]
