-- ===== src/Server/Listening/Runs/ValidRuns.antt =====
-- The workloads that the server keeps while it runs.
use ankaios.Api.StatesMap.{WorkloadState}
use ankaios.Prelude.{
  map, String, Bool, List, [], ◌∷◌, ◌++◌, Option, none, some, option_then, option_then-some, Result,
  ok, err, Result-cases, ◌≡◌, refl, subst, Bool-cases, Option-cases, inl, inr, AllValues,
}
use ankaios.Common.Path.{path_from}
use ankaios.Server.ServerState.{DesiredState, AddedDeletedWorkloads, update, cleanup_state}
use ankaios.Server.Validity.{IsValidWorkload, update-AllValues}
use ankaios.Server.NewState.{generate_new_state}
use ankaios.Server.StateQuery.{get_complete_state_by_field_mask}
use ankaios.Server.PreRendering.{validate_pre_rendering}
use ankaios.Server.LogCampaigns.{insert_log_campaign, remove_logs_request_id}
use ankaios.Server.Comparator.{no_elements}
use ankaios.Server.Events.{add_subscriber, remove_subscriber}
use ankaios.Server.Listening.{
  Libraries, LogsRequest, RequestContent, complete_state_request, update_state_request,
  logs_request, logs_cancel_request, events_cancel_request, ToServer, agent_hello,
  agent_load_status, agent_gone, goodbye, request, update_workload_state, log_entries_response,
  logs_stop_response, stop, FromServer, AnkaiosServer, new_server, Handled, current_state,
  state_events, handle_agent_hello, handle_agent_load_status, handle_agent_gone,
  handle_update_workload_state, handle_goodbye,
}
use ankaios.Server.Listening.Requests.{
  Generated, handle_complete_state_request, post_update_events, post_update_server,
  same_workloads_events, handle_post_update_steps, handle_same_workloads, update_server_state,
  handle_update_state_request, retain_known, handle_logs_request, handle_request,
}
use ankaios.Server.Listening.Runs.{
  StartError, invalid_format, invalid_update, started, start, is_stop, handle_message,
  listen_to_agents,
}

module _ (lib : Libraries) where
  abbrev pub IsValidServer : AnkaiosServer lib → Type 0
  IsValidServer s = AllValues (IsValidWorkload lib.engine) s.server_state.rendered_workloads

  abbrev KeepsValid : AnkaiosServer lib → Handled lib → Type 0
  KeepsValid s handled =
      (t : AnkaiosServer lib) (sent : List (FromServer lib))
      → handled ≡ some (t, sent)
      → IsValidServer s
      → IsValidServer t

  server_is :
      (s t : AnkaiosServer lib) (a sent : List (FromServer lib))
      → ◌≡◌ {A = Option (AnkaiosServer lib × List (FromServer lib))} (some (s, a)) (some (t, sent))
      → s ≡ t
  server_is s t a sent h = cc

  -- The server state stays.
  kept :
      (s u : AnkaiosServer lib) (a : List (FromServer lib))
      → s.server_state.rendered_workloads ≡ u.server_state.rendered_workloads
      → KeepsValid s (some (u, a))
  kept s u a e t sent k v =
      subst IsValidServer (server_is u t a sent k)
        (subst (AllValues (IsValidWorkload lib.engine)) e v)

  kept_then :
      {A : Type 0} (s : AnkaiosServer lib) (o : Option A) (next : A → Handled lib)
      → ((a : A) → KeepsValid s (next a))
      → KeepsValid s (option_then o next)
  kept_then s o next h t sent k =
      let (a, e, l) = option_then-some o next (t, sent) k in h a t sent l

  agent_hello-KeepsValid :
      (s : AnkaiosServer lib) (name : String) (tags : lib.Tags)
      → KeepsValid s (handle_agent_hello lib s name tags)
  unfolding handle_agent_hello
  agent_hello-KeepsValid s name tags t sent k =
      let (events, e, l) = option_then-some (state_events lib _ _ _) _ (t, sent) k in
      kept s _ _ refl t sent l

  agent_load_status-KeepsValid :
      (s : AnkaiosServer lib) (name : String) (status : lib.Status)
      → KeepsValid s (handle_agent_load_status lib s name status)
  unfolding handle_agent_load_status
  agent_load_status-KeepsValid s name status t sent k =
      let (events, e, l) = option_then-some (state_events lib _ _ _) _ (t, sent) k in
      kept s _ _ refl t sent l

  agent_gone-KeepsValid :
      (s : AnkaiosServer lib) (name : String) → KeepsValid s (handle_agent_gone lib s name)
  unfolding handle_agent_gone
  agent_gone-KeepsValid s name t sent k =
      let (events, e, l) = option_then-some (state_events lib _ _ _) _ (t, sent) k in
      kept s _ _ refl t sent l

  update_workload_state-KeepsValid :
      (s : AnkaiosServer lib) (states : List WorkloadState)
      → KeepsValid s (handle_update_workload_state lib s states)
  unfolding handle_update_workload_state cleanup_state
  update_workload_state-KeepsValid s states t sent k =
      let (events, e, l) = option_then-some (state_events lib _ _ _) _ (t, sent) k in
      kept s _ _ refl t sent l

  complete_state_request-KeepsValid :
      (s : AnkaiosServer lib) (request_id : String) (field_mask : List String) (subscribe : Bool)
      → KeepsValid s (handle_complete_state_request lib s request_id field_mask subscribe)
  unfolding handle_complete_state_request
  complete_state_request-KeepsValid s request_id field_mask subscribe =
      elim (Result-cases
        (get_complete_state_by_field_mask lib.yaml lib.queries (current_state lib s) field_mask)) [
          | inl (e, k) ↦ rw (k, handle_complete_state_request) (kept s s _ refl)
          | inr (state, k) ↦ elim (Bool-cases subscribe) [
            | inl b ↦
                rw (k, handle_complete_state_request, b)
                  (kept_then s
                    (add_subscriber s.event_handler request_id (map path_from field_mask)) _
                    (λ store. kept s _ _ refl))
            | inr b ↦ rw (k, handle_complete_state_request, b) (kept s s _ refl)
          ]
        ]

  logs_request-KeepsValid :
      (s : AnkaiosServer lib) (request_id : String) (r : LogsRequest lib.LogOptions)
      → KeepsValid s (handle_logs_request lib s request_id r)
  unfolding handle_logs_request
  logs_request-KeepsValid s request_id r =
      elim (Bool-cases (no_elements (retain_known lib s r.workload_names))) [
        | inl k ↦ rw (k, handle_logs_request) (kept s s _ refl)
        | inr k ↦
            rw (k, handle_logs_request)
              (kept_then s
                (insert_log_campaign s.log_campaign_store request_id
                  (retain_known lib s r.workload_names))
                _ (λ store. kept s _ _ refl))
      ]

  same_workloads-KeepsValid :
      (s : AnkaiosServer lib) (request_id : String) (generated : Generated lib)
      → KeepsValid s (handle_same_workloads lib s request_id generated)
  unfolding handle_same_workloads
  same_workloads-KeepsValid s request_id generated =
      kept_then s (same_workloads_events lib s generated) _ (λ events. kept s s _ refl)

  post_update-KeepsValid :
      (s : AnkaiosServer lib) (request_id : String) (r : AddedDeletedWorkloads)
      (generated : Generated lib)
      → KeepsValid s (handle_post_update_steps lib s request_id r generated)
  unfolding handle_post_update_steps
  post_update-KeepsValid s request_id r generated =
      kept_then s (post_update_events lib s r generated) _
        (λ events. kept s (post_update_server lib s r) _ refl)

  update_server_state-KeepsValid :
      (s : AnkaiosServer lib) (request_id : String) (generated : Generated lib)
      → KeepsValid s (update_server_state lib s request_id generated)
  unfolding update_server_state
  update_server_state-KeepsValid s request_id generated =
      let valid = update-AllValues lib.engine s.server_state generated.new_desired_state in
      elim (Result-cases (update lib.engine s.server_state generated.new_desired_state).1) [
        | inl (e, k) ↦
            rw (k, update_server_state)
              (λ t sent l v.
                kept
                  (record s {
                    server_state = (update lib.engine s.server_state generated.new_desired_state).0;
                  })
                  _ _ refl t sent l (valid v))
        | inr (none, k) ↦
            rw (k, update_server_state)
              (λ t sent l v. same_workloads-KeepsValid _ request_id generated t sent l (valid v))
        | inr (some r, k) ↦
            rw (k, update_server_state)
              (λ t sent l v. post_update-KeepsValid _ request_id r generated t sent l (valid v))
      ]

  update_state_request-KeepsValid :
      (s : AnkaiosServer lib) (request_id : String) (new_state : Option lib.states.Update)
      (update_mask : List String)
      → KeepsValid s (handle_update_state_request lib s request_id new_state update_mask)
  unfolding handle_update_state_request
  update_state_request-KeepsValid s request_id none update_mask = kept s s _ refl
  update_state_request-KeepsValid s request_id (some new_state) update_mask =
      elim (Result-cases
        (generate_new_state lib.engine lib.yaml lib.states s.server_state new_state update_mask)) [
          | inl (e, k) ↦ rw (k, handle_update_state_request) (kept s s _ refl)
          | inr (generated, k) ↦
              elim (Option-cases
                (validate_pre_rendering lib.engine lib.keys generated.new_desired_state)) [
                  | inl v ↦
                      rw (k, handle_update_state_request, v)
                        (update_server_state-KeepsValid s request_id generated)
                  | inr (e, v) ↦ rw (k, handle_update_state_request, v) (kept s s _ refl)
                ]
        ]

  request-KeepsValid :
      (s : AnkaiosServer lib) (request_id : String) (content : Option (RequestContent lib))
      → KeepsValid s (handle_request lib s request_id content)
  unfolding handle_request
  request-KeepsValid s request_id none = kept s s _ refl
  request-KeepsValid s request_id (some (complete_state_request field_mask subscribe)) =
      complete_state_request-KeepsValid s request_id field_mask subscribe
  request-KeepsValid s request_id (some (update_state_request new_state update_mask)) =
      update_state_request-KeepsValid s request_id new_state update_mask
  request-KeepsValid s request_id (some (logs_request r)) = logs_request-KeepsValid s request_id r
  request-KeepsValid s request_id (some logs_cancel_request) =
      kept_then s (remove_logs_request_id s.log_campaign_store request_id) _
        (λ store. kept s _ _ refl)
  request-KeepsValid s request_id (some events_cancel_request) =
      kept_then s (remove_subscriber s.event_handler request_id) _ (λ store. kept s _ _ refl)

  message-KeepsValid :
      (s : AnkaiosServer lib) (message : ToServer lib) → KeepsValid s (handle_message lib s message)
  unfolding handle_message handle_goodbye
  message-KeepsValid s (agent_hello name tags) = agent_hello-KeepsValid s name tags
  message-KeepsValid s (agent_load_status name status) = agent_load_status-KeepsValid s name status
  message-KeepsValid s (agent_gone name) = agent_gone-KeepsValid s name
  message-KeepsValid s (request request_id content) = request-KeepsValid s request_id content
  message-KeepsValid s (update_workload_state states) = update_workload_state-KeepsValid s states
  message-KeepsValid s (log_entries_response request_id entries) = kept s s _ refl
  message-KeepsValid s (logs_stop_response request_id name) = kept s s _ refl
  message-KeepsValid s (goodbye name) = kept s _ _ refl
  message-KeepsValid s stop = kept s s _ refl

  listen-KeepsValid :
      (s : AnkaiosServer lib) (messages : List (ToServer lib))
      → KeepsValid s (listen_to_agents lib s messages)
  unfolding listen_to_agents
  listen-KeepsValid s [] = kept s s _ refl
  listen-KeepsValid s (message ∷ messages) = elim (Bool-cases (is_stop lib message)) [
    | inl b ↦ rw (b, listen_to_agents) (kept s s _ refl)
    | inr b ↦
        rw (b, listen_to_agents)
          (λ t sent k v.
            let ((changed, first), e, l) =
              option_then-some (handle_message lib s message) _ (t, sent) k in
            let ((last, later), f, m) =
              option_then-some (listen_to_agents lib changed messages) _ (t, sent) l in
            let there =
              listen-KeepsValid changed messages last later f
                (message-KeepsValid s message changed first e v) in
            subst IsValidServer (server_is last t (first ++ later) sent m) there)
  ]

  started-IsValidServer :
      (s : AnkaiosServer lib) (r : Option AddedDeletedWorkloads)
      → IsValidServer s
      → IsValidServer (started lib s r).0
  started-IsValidServer s none v = v
  started-IsValidServer s (some r) v = v

  started_is :
      (s t : AnkaiosServer lib) (a sent : List (FromServer lib))
      → ◌≡◌ {A = Result StartError (AnkaiosServer lib × List (FromServer lib))}
          (ok (s, a))
          (ok (t, sent))
      → s ≡ t
  started_is s t a sent h = cc

  start-IsValidServer :
      (startup_state : Option (DesiredState lib.engine)) (s : AnkaiosServer lib)
      (sent : List (FromServer lib))
      → start lib startup_state ≡ ok (s, sent)
      → IsValidServer s
  unfolding start
  start-IsValidServer none s sent h =
      subst IsValidServer (started_is (new_server lib) s [] sent h) tt
  start-IsValidServer (some state) s sent h =
      let initial = new_server lib in
      let updated = update lib.engine initial.server_state state in
      elim (Option-cases (validate_pre_rendering lib.engine lib.keys state)) [
        | inr (e, v) ↦
            let refused : ◌≡◌ {A = Result StartError (AnkaiosServer lib × List (FromServer lib))}
                (err (invalid_format e)) (ok (s, sent)) =
              rw (v, start) at h in
            absurd cc
        | inl v ↦ elim (Result-cases updated.1) [
          | inl (e, k) ↦
              let refused : ◌≡◌ {A = Result StartError (AnkaiosServer lib × List (FromServer lib))}
                  (err (invalid_update e)) (ok (s, sent)) =
                rw (v, start, k) at h in
              absurd cc
          | inr (r, k) ↦
              let result = started lib (record initial { server_state = updated.0 }) r in
              let same : ok result ≡ ok (s, sent) = rw (v, start, k) at h in
              subst IsValidServer (started_is result.0 s result.1 sent same) (
                started-IsValidServer (record initial { server_state = updated.0 }) r
                  (update-AllValues lib.engine initial.server_state state tt))
        ]
      ]

  -- After the start with any state, or with none, and after any messages, the workloads that the server
  -- keeps are valid: a name of 1 to 63 bytes with field characters only, an agent name with field characters
  -- only, which is that of the instance.
  pub listen_to_agents-IsValidServer :
      (startup_state : Option (DesiredState lib.engine)) (s last : AnkaiosServer lib)
      (sent later : List (FromServer lib)) (messages : List (ToServer lib))
      → start lib startup_state ≡ ok (s, sent)
      → listen_to_agents lib s messages ≡ some (last, later)
      → IsValidServer last
  listen_to_agents-IsValidServer startup_state s last sent later messages h k =
      listen-KeepsValid s messages last later k (start-IsValidServer startup_state s sent h)
