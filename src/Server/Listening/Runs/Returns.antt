-- ===== src/Server/Listening/Runs/Returns.antt =====
-- The handling of a request whose id can be read, with the comparison for the subscribers.
use ankaios.Prelude.{
  String, Bool, List, [], ◌∷◌, map, Option, none, some, ok, Result-cases, ◌≡◌, refl, Bool-cases,
  Option-cases, inl, inr, collected,
}
use ankaios.Server.RequestId.{RequestId, request_id_from}
use ankaios.Server.ServerState.{AddedDeletedWorkloads, update}
use ankaios.Server.NewState.{generate_new_state}
use ankaios.Server.StateQuery.{get_complete_state_by_field_mask}
use ankaios.Server.PreRendering.{validate_pre_rendering}
use ankaios.Server.LogCampaigns.{insert_log_campaign, remove_logs_request_id}
use ankaios.Common.Wildcards.Expanded.{TextKeys}
use ankaios.Server.Comparator.{no_elements, StateDifferenceTree, state_differences}
use ankaios.Server.Comparator.Trees.{
  AreMappings, state_differences-AreMappings, state_difference_tree_is_empty-total,
}
use ankaios.Server.Comparator.Apart.{state_differences-total}
use ankaios.Server.Events.Sending.{subscriber_events, send_events}
use ankaios.Server.Events.Sending.Sent.{mappings_of-AreMappings}
use ankaios.Server.Events.{has_subscribers, add_subscriber, remove_subscriber}
use ankaios.Server.Listening.{
  Libraries, LogsRequest, RequestContent, complete_state_request, update_state_request,
  logs_request, logs_cancel_request, events_cancel_request, FromServer, AnkaiosServer, Handled,
  current_state, event_message, with_differences, events_for,
}
use ankaios.Server.Listening.Requests.{
  Generated, handle_complete_state_request, update_events, handle_post_update_steps,
  post_update_server, unless_empty, set_agent_tags, handle_same_workloads, update_server_state,
  handle_update_state_request, retain_known, handle_logs_request, handle_request,
}
use ankaios.Server.Listening.Runs.Answers.{answers, handle_request-answers}

module _ (lib : Libraries) where
  abbrev Returns : Handled lib → Type 0
  Returns handled =
      (changed : AnkaiosServer lib) × (sent : List (FromServer lib)) × (handled
        ≡ some (changed, sent))

  -- A serialised state has texts as keys in all its mappings.
  abbrev pub AreTextKeyed : Type 0
  AreTextKeyed =
      (state : lib.queries.CompleteState)
      → TextKeys lib.yaml (lib.yaml.from_mapping (lib.mapping_of state))

  pub events_for-total :
      (s : AnkaiosServer lib) (t : StateDifferenceTree lib.yaml)
      → AreMappings lib.yaml t
      → (sent : List (FromServer lib)) × (events_for lib s t ≡ some sent)
  unfolding send_events
  events_for-total s t m =
      let (d, e) = mappings_of-AreMappings lib.yaml lib.comparison t m in
      (
        map (event_message lib) (
            collected
              (subscriber_events lib.yaml lib.comparison lib.queries lib.default_complete_state
                (current_state lib s) d)
              s.event_handler),
        rw (events_for, send_events, e) refl,
      )

  pub compared-total :
      AreTextKeyed
      → (old_state new_state : lib.queries.CompleteState)
      → (t : StateDifferenceTree lib.yaml) × (state_differences lib.yaml lib.comparison
            (lib.mapping_of old_state)
            (lib.mapping_of new_state)
          ≡ ok t)
        × AreMappings lib.yaml t
  compared-total keyed old_state new_state =
      let old = lib.mapping_of old_state in
      let new = lib.mapping_of new_state in
      let (t, e) =
        state_differences-total lib.yaml lib.comparison old new (keyed old_state)
          (keyed new_state) in
      (t, e, state_differences-AreMappings lib.yaml lib.comparison old new t e)

  update_events-total :
      AreTextKeyed
      → (s : AnkaiosServer lib) (old_state new_state : lib.queries.CompleteState)
      → (sent : List (FromServer lib)) × (update_events lib s old_state new_state ≡ some sent)
  unfolding update_events
  update_events-total keyed s old_state new_state =
      elim (Bool-cases (has_subscribers s.event_handler)) [
        | inr k ↦ ([], rw (k, update_events) refl)
        | inl k ↦
            let (t, e, m) = compared-total keyed old_state new_state in
            let (b, f) = state_difference_tree_is_empty-total lib.yaml t m in
            let (events, g) = events_for-total s t m in
            elim (Bool-cases b) [
              | inl true_b ↦
                  ([], rw (k, update_events, with_differences, e, unless_empty, f, true_b) refl)
              | inr false_b ↦
                  (events, rw (k, update_events, with_differences, e, unless_empty, f, false_b) g)
            ]
      ]

  module _ (request_id : String) (id : RequestId) (readable : request_id_from request_id ≡ some id)
      (keyed : AreTextKeyed) where
    complete_state_request-Returns :
        (s : AnkaiosServer lib) (field_mask : List String) (subscribe : Bool)
        → Returns (handle_complete_state_request lib s request_id field_mask subscribe)
    unfolding handle_complete_state_request add_subscriber
    complete_state_request-Returns s field_mask subscribe =
        elim (Result-cases (
          get_complete_state_by_field_mask lib.yaml lib.queries (current_state lib s) field_mask)) [
            | inl (e, k) ↦ rw (k, handle_complete_state_request) (_, _, refl)
            | inr (state, k) ↦ elim (Bool-cases subscribe) [
              | inl b ↦
                  rw (k, handle_complete_state_request, b, add_subscriber, readable) (_, _, refl)
              | inr b ↦ rw (k, handle_complete_state_request, b) (_, _, refl)
            ]
          ]

    logs_request-Returns :
        (s : AnkaiosServer lib) (r : LogsRequest lib.LogOptions)
        → Returns (handle_logs_request lib s request_id r)
    unfolding handle_logs_request insert_log_campaign
    logs_request-Returns s r =
        elim (Bool-cases (no_elements (retain_known lib s r.workload_names))) [
          | inl k ↦ rw (k, handle_logs_request) (_, _, refl)
          | inr k ↦ rw (k, handle_logs_request, insert_log_campaign, readable) (_, _, refl)
        ]

    same_workloads-Returns :
        (s : AnkaiosServer lib) (generated : Generated lib)
        → Returns (handle_same_workloads lib s request_id generated)
    unfolding handle_same_workloads
    same_workloads-Returns s generated =
        let (sent, e) =
          update_events-total keyed s (lib.complete_state generated.old_desired_state [] [])
            (lib.complete_state generated.new_desired_state [] []) in
        rw (handle_same_workloads, e) (_, _, refl)

    post_update_steps-Returns :
        (s : AnkaiosServer lib) (r : AddedDeletedWorkloads) (generated : Generated lib)
        → Returns (handle_post_update_steps lib s request_id r generated)
    unfolding handle_post_update_steps
    post_update_steps-Returns s r generated =
        let (sent, e) =
          update_events-total keyed (post_update_server lib s r)
            (lib.complete_state generated.old_desired_state s.workload_states_map [])
            (lib.complete_state generated.new_desired_state
              (post_update_server lib s r).workload_states_map []) in
        rw (handle_post_update_steps, e) (_, _, refl)

    abbrev tagged : AnkaiosServer lib → Generated lib → AnkaiosServer lib
    tagged s generated = record s {
      server_state = (update lib.engine s.server_state generated.new_desired_state).0;
      agent_map = set_agent_tags lib s.agent_map (lib.agents_of generated.new_agent_map);
    }

    update_server_state-Returns :
        (s : AnkaiosServer lib) (generated : Generated lib)
        → Returns (update_server_state lib s request_id generated)
    unfolding update_server_state
    update_server_state-Returns s generated =
        elim (Result-cases (update lib.engine s.server_state generated.new_desired_state).1) [
          | inl (e, k) ↦ rw (k, update_server_state) (_, _, refl)
          | inr (none, k) ↦
              rw (k, update_server_state) (same_workloads-Returns (tagged s generated) generated)
          | inr (some r, k) ↦
              rw (k, update_server_state)
                (post_update_steps-Returns (tagged s generated) r generated)
        ]

    update_state_request-Returns :
        (s : AnkaiosServer lib) (new_state : Option lib.states.Update) (update_mask : List String)
        → Returns (handle_update_state_request lib s request_id new_state update_mask)
    unfolding handle_update_state_request
    update_state_request-Returns s none update_mask = (_, _, refl)
    update_state_request-Returns s (some new_state) update_mask =
        elim (Result-cases (
          generate_new_state lib.engine lib.yaml lib.states s.server_state new_state update_mask)) [
            | inl (e, k) ↦ rw (k, handle_update_state_request) (_, _, refl)
            | inr (generated, k) ↦
                elim (Option-cases
                  (validate_pre_rendering lib.engine lib.keys generated.new_desired_state)) [
                    | inl v ↦
                        rw (k, handle_update_state_request, v)
                          (update_server_state-Returns s generated)
                    | inr (e, v) ↦ rw (k, handle_update_state_request, v) (_, _, refl)
                  ]
          ]

    request-Returns :
        (s : AnkaiosServer lib) (content : Option (RequestContent lib))
        → Returns (handle_request lib s request_id content)
    unfolding handle_request remove_logs_request_id remove_subscriber
    request-Returns s none = (_, _, refl)
    request-Returns s (some (complete_state_request field_mask subscribe)) =
        complete_state_request-Returns s field_mask subscribe
    request-Returns s (some (update_state_request new_state update_mask)) =
        update_state_request-Returns s new_state update_mask
    request-Returns s (some (logs_request r)) = logs_request-Returns s r
    request-Returns s (some logs_cancel_request) =
        rw (handle_request, remove_logs_request_id, readable) (_, _, refl)
    request-Returns s (some events_cancel_request) =
        rw (handle_request, remove_subscriber, readable) (_, _, refl)

    -- Where the serialised states have texts as keys, the server does not panic on a request whose id can
    -- be read, whatever the request holds and whoever is subscribed, and sends exactly one answer to this
    -- id.
    pub handle_request-returns :
        (s : AnkaiosServer lib) (content : Option (RequestContent lib))
        → (changed : AnkaiosServer lib) × (sent : List (FromServer lib)) × (handle_request lib s
              request_id content
            ≡ some (changed, sent))
          × (collected (answers lib) sent ≡ request_id ∷ [])
    handle_request-returns s content =
        let (changed, sent, e) = request-Returns s content in
        (changed, sent, e, handle_request-answers lib s changed request_id content sent e)
