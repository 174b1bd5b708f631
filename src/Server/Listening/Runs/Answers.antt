-- ===== src/Server/Listening/Runs/Answers.antt =====
-- Which messages of the server answer a request.
use mathlib.Core.List.{append_assoc}
use ankaios.Prelude.{
  String, Bool, true, false, if◌then◌else◌, List, [], ◌∷◌, ◌++◌, map, Option, none, some,
  option_then, option_then-some, Result-cases, ◌≡◌, refl, subst, sym, ap, ◌∙◌, Bool-cases,
  Option-cases, inl, inr, collected,
}
use ankaios.Common.Path.{path_from}
use ankaios.Api.StatesMap.{WorkloadState}
use ankaios.Server.ServerState.{AddedDeletedWorkloads, update}
use ankaios.Server.NewState.{generate_new_state}
use ankaios.Server.StateQuery.{get_complete_state_by_field_mask}
use ankaios.Server.PreRendering.{validate_pre_rendering}
use ankaios.Server.LogCampaigns.{insert_log_campaign, remove_logs_request_id}
use ankaios.Server.NotStarted.{LogMessage}
use ankaios.Server.Comparator.{no_elements, StateDifferenceTree, state_differences}
use ankaios.Server.Comparator.Trees.{state_difference_tree_is_empty}
use ankaios.Server.Events.{has_subscribers, add_subscriber, remove_subscriber}
use ankaios.Server.Events.Sending.{CompleteStateEvent, send_events}
use ankaios.Server.Listening.{
  Libraries, LogsRequest, RequestContent, complete_state_request, update_state_request,
  logs_request, logs_cancel_request, events_cancel_request, FromServer, complete_state_response,
  error_response, update_state_success, logs_request_accepted, logs_cancel_request_accepted,
  event_cancel_request_accepted, log_message, event_message, AnkaiosServer, current_state,
  with_differences, events_for,
}
use ankaios.Server.Listening.Requests.{
  removed_reports, post_update_events, post_update_server, post_update_messages, cancelled_requests,
  retained_workloads, same_workloads_events, Generated, handle_complete_state_request, unless_empty,
  update_events, handle_post_update_steps, handle_same_workloads, update_server_state,
  handle_update_state_request, retain_known, handle_logs_request, handle_request,
}

pub collected-append :
    {A B : Type 0} (f : A → List B) (xs ys : List A)
    → collected f (xs ++ ys) ≡ collected f xs ++ collected f ys
collected-append f [] ys = refl
collected-append {B = B} f (x ∷ xs) ys =
    ap (λ (l : List B). f x ++ l) (collected-append f xs ys)
    ∙ sym (append_assoc (f x) (collected f xs) (collected f ys))

same_some : {A : Type 0} (a b : A) → some a ≡ some b → a ≡ b
same_some a b h = cc

module _ (lib : Libraries) where
  -- The request that a message answers. An event answers none.
  abbrev pub answers : FromServer lib → List String
  answers (complete_state_response request_id state none) = request_id ∷ []
  answers (error_response request_id e) = request_id ∷ []
  answers (update_state_success request_id added deleted) = request_id ∷ []
  answers (logs_request_accepted request_id r) = request_id ∷ []
  answers (logs_cancel_request_accepted request_id) = request_id ∷ []
  answers (event_cancel_request_accepted request_id) = request_id ∷ []
  answers _ = []

  abbrev pub IsSilent : List (FromServer lib) → Type 0
  IsSilent sent = collected answers sent ≡ []

  pub silent_first :
      (first second : List (FromServer lib))
      → IsSilent first
      → collected answers (first ++ second) ≡ collected answers second
  silent_first first second h =
      collected-append answers first second
      ∙ ap (λ (l : List String). l ++ collected answers second) h

  pub IsSilent-logs : (messages : List LogMessage) → IsSilent (map (λ m. log_message m) messages)
  IsSilent-logs [] = refl
  IsSilent-logs (m ∷ messages) = IsSilent-logs messages

  IsSilent-events :
      (events : List (CompleteStateEvent lib.queries.CompleteState))
      → IsSilent (map (event_message lib) events)
  IsSilent-events [] = refl
  IsSilent-events (e ∷ events) = IsSilent-events events

  pub events_for-IsSilent :
      (s : AnkaiosServer lib) (t : StateDifferenceTree lib.yaml) (sent : List (FromServer lib))
      → events_for lib s t ≡ some sent
      → IsSilent sent
  events_for-IsSilent s t sent h =
      elim (Result-cases (
        send_events lib.yaml lib.comparison lib.queries lib.default_complete_state
          (current_state lib s) s.event_handler t)) [
            | inl (e, k) ↦ let refused : none ≡ some sent = rw (k, events_for) at h in absurd cc
            | inr (events, k) ↦
                let found : some (map (event_message lib) events) ≡ some sent =
                  rw (k, events_for) at h in
                subst IsSilent (same_some (map (event_message lib) events) sent found)
                  (IsSilent-events events)
          ]

  unless_empty-IsSilent :
      (s : AnkaiosServer lib) (t : StateDifferenceTree lib.yaml) (sent : List (FromServer lib))
      → unless_empty lib s t ≡ some sent
      → IsSilent sent
  unless_empty-IsSilent s t sent h =
      let (is_empty, e, k) =
        option_then-some (state_difference_tree_is_empty lib.yaml t) _ sent h in
      silent_unless is_empty k
    where
      silent_unless :
          (b : Bool) → (if b then some [] else events_for lib s t) ≡ some sent → IsSilent sent
      silent_unless true k = subst IsSilent (same_some [] sent k) refl
      silent_unless false k = events_for-IsSilent s t sent k

  update_events-IsSilent :
      (s : AnkaiosServer lib) (old_state new_state : lib.queries.CompleteState)
      (sent : List (FromServer lib))
      → update_events lib s old_state new_state ≡ some sent
      → IsSilent sent
  unfolding update_events
  update_events-IsSilent s old_state new_state sent h =
      elim (Bool-cases (has_subscribers s.event_handler)) [
        | inr b ↦
            let nothing : some [] ≡ some sent = rw (b, update_events) at h in
            subst IsSilent (same_some [] sent nothing) refl
        | inl b ↦
            let found : with_differences lib old_state new_state (unless_empty lib s) ≡ some sent =
              rw (b, update_events) at h in
            elim (Result-cases (
              state_differences lib.yaml lib.comparison (lib.mapping_of old_state)
                (lib.mapping_of new_state))) [
                  | inl (e, k) ↦
                      let refused : none ≡ some sent = rw (k, with_differences) at found in
                      absurd cc
                  | inr (t, k) ↦ unless_empty-IsSilent s t sent (rw (k, with_differences) at found)
                ]
      ]

  sent_is :
      (s t : AnkaiosServer lib) (a sent : List (FromServer lib))
      → ◌≡◌ {A = Option (AnkaiosServer lib × List (FromServer lib))} (some (s, a)) (some (t, sent))
      → a ≡ sent
  sent_is s t a sent h = cc

  -- The message answers the request only, and so do the messages that are sent.
  abbrev Answers : String → Option (AnkaiosServer lib × List (FromServer lib)) → Type 0
  Answers request_id handled =
      (s : AnkaiosServer lib) (sent : List (FromServer lib))
      → handled ≡ some (s, sent)
      → collected answers sent ≡ request_id ∷ []

  answered :
      (request_id : String) (s : AnkaiosServer lib) (a : List (FromServer lib))
      → collected answers a ≡ request_id ∷ []
      → Answers request_id (some (s, a))
  answered request_id s a h t sent k =
      subst (λ l. collected answers l ≡ request_id ∷ []) (sent_is s t a sent k) h

  answered_then :
      {A : Type 0} (request_id : String) (o : Option A)
      (next : A → Option (AnkaiosServer lib × List (FromServer lib)))
      → ((a : A) → o ≡ some a → Answers request_id (next a))
      → Answers request_id (option_then o next)
  answered_then request_id o next h t sent k =
      let (a, e, l) = option_then-some o next (t, sent) k in h a e t sent l

  complete_state_request-Answers :
      (s : AnkaiosServer lib) (request_id : String) (field_mask : List String) (subscribe : Bool)
      → Answers request_id (handle_complete_state_request lib s request_id field_mask subscribe)
  unfolding handle_complete_state_request
  complete_state_request-Answers s request_id field_mask subscribe =
      elim (Result-cases
        (get_complete_state_by_field_mask lib.yaml lib.queries (current_state lib s) field_mask)) [
          | inl (e, k) ↦ rw (k, handle_complete_state_request) (answered request_id s _ refl)
          | inr (state, k) ↦ rw (k, handle_complete_state_request) (by_subscription subscribe state)
        ]
    where
      by_subscription :
          (b : Bool) (state : lib.queries.CompleteState)
          → Answers request_id (elim b [
            | false ↦ some (s, complete_state_response request_id state none ∷ [])
            | true ↦
                option_then
                  (add_subscriber s.event_handler request_id (map path_from field_mask))
                  (λ store. some (
                    record s { event_handler = store },
                    complete_state_response request_id state none ∷ [],
                  ))
          ])
      by_subscription false state t sent k =
          answered request_id s (complete_state_response request_id state none ∷ []) refl t sent k
      by_subscription true state t sent k =
          let (store, e, l) =
            option_then-some (add_subscriber s.event_handler request_id (map path_from field_mask))
              _ (t, sent) k in
          answered request_id (record s { event_handler = store })
            (complete_state_response request_id state none ∷ []) refl t sent l

  pub reports-IsSilent : (states : List WorkloadState) → IsSilent (removed_reports lib states)
  reports-IsSilent [] = refl
  reports-IsSilent (w ∷ states) = refl

  post_update-Answers :
      (s : AnkaiosServer lib) (request_id : String) (r : AddedDeletedWorkloads)
      (generated : Generated lib)
      → Answers request_id (handle_post_update_steps lib s request_id r generated)
  unfolding handle_post_update_steps
  post_update-Answers s request_id r generated t sent k =
      let (events, e, l) =
        option_then-some (post_update_events lib s r generated)
          (λ events.
            some (post_update_server lib s r, post_update_messages lib s request_id r events))
          (t, sent) k in
      let cancelled = (cancelled_requests lib s r).1 in
      let removed = (retained_workloads lib s r).1.1 in
      answered request_id (post_update_server lib s r)
        (post_update_messages lib s request_id r events)
        (silent_first (map (λ m. log_message m) cancelled) _ (IsSilent-logs cancelled)
          ∙ silent_first events _ (update_events-IsSilent (post_update_server lib s r) _ _ events e)
          ∙ silent_first (removed_reports lib removed) _ (reports-IsSilent removed))
        t sent l

  same_workloads-Answers :
      (s : AnkaiosServer lib) (request_id : String) (generated : Generated lib)
      → Answers request_id (handle_same_workloads lib s request_id generated)
  unfolding handle_same_workloads
  same_workloads-Answers s request_id generated t sent k =
      let (events, e, l) =
        option_then-some (same_workloads_events lib s generated)
          (λ events. some (s, update_state_success request_id [] [] ∷ events)) (t, sent) k in
      answered request_id s (update_state_success request_id [] [] ∷ events)
        (ap (λ (l : List String). request_id ∷ l) (update_events-IsSilent s _ _ events e)) t sent l

  update_server_state-Answers :
      (s : AnkaiosServer lib) (request_id : String) (generated : Generated lib)
      → Answers request_id (update_server_state lib s request_id generated)
  unfolding update_server_state
  update_server_state-Answers s request_id generated =
      elim (Result-cases (update lib.engine s.server_state generated.new_desired_state).1) [
        | inl (e, k) ↦ rw (k, update_server_state) (answered request_id _ _ refl)
        | inr (none, k) ↦
            rw (k, update_server_state) (same_workloads-Answers _ request_id generated)
        | inr (some r, k) ↦
            rw (k, update_server_state) (post_update-Answers _ request_id r generated)
      ]

  update_state_request-Answers :
      (s : AnkaiosServer lib) (request_id : String) (new_state : Option lib.states.Update)
      (update_mask : List String)
      → Answers request_id (handle_update_state_request lib s request_id new_state update_mask)
  unfolding handle_update_state_request
  update_state_request-Answers s request_id none update_mask = answered request_id s _ refl
  update_state_request-Answers s request_id (some new_state) update_mask =
      elim (Result-cases
        (generate_new_state lib.engine lib.yaml lib.states s.server_state new_state update_mask)) [
          | inl (e, k) ↦ rw (k, handle_update_state_request) (answered request_id s _ refl)
          | inr (generated, k) ↦
              elim (Option-cases
                (validate_pre_rendering lib.engine lib.keys generated.new_desired_state)) [
                  | inl v ↦
                      rw (k, handle_update_state_request, v)
                        (update_server_state-Answers s request_id generated)
                  | inr (e, v) ↦
                      rw (k, handle_update_state_request, v) (answered request_id s _ refl)
                ]
        ]

  logs_request-Answers :
      (s : AnkaiosServer lib) (request_id : String) (r : LogsRequest lib.LogOptions)
      → Answers request_id (handle_logs_request lib s request_id r)
  unfolding handle_logs_request
  logs_request-Answers s request_id r =
      elim (Bool-cases (no_elements (retain_known lib s r.workload_names))) [
        | inl k ↦ rw (k, handle_logs_request) (answered request_id s _ refl)
        | inr k ↦
            rw (k, handle_logs_request)
              (answered_then request_id
                (insert_log_campaign s.log_campaign_store request_id
                  (retain_known lib s r.workload_names))
                _ (λ store e. answered request_id _ _ refl))
      ]

  -- Unless the server panics, exactly one of the messages that a request leads to answers a request, and
  -- it answers this one. The events that are sent answer none.
  pub handle_request-answers :
      (s changed : AnkaiosServer lib) (request_id : String) (content : Option (RequestContent lib))
      (sent : List (FromServer lib))
      → handle_request lib s request_id content ≡ some (changed, sent)
      → collected answers sent ≡ request_id ∷ []
  unfolding handle_request
  handle_request-answers s changed request_id none sent h =
      answered request_id s _ refl changed sent h
  handle_request-answers s changed request_id (some (complete_state_request field_mask subscribe))
        sent h =
      complete_state_request-Answers s request_id field_mask subscribe changed sent h
  handle_request-answers s changed request_id (some (update_state_request new_state update_mask))
        sent h =
      update_state_request-Answers s request_id new_state update_mask changed sent h
  handle_request-answers s changed request_id (some (logs_request r)) sent h =
      logs_request-Answers s request_id r changed sent h
  handle_request-answers s changed request_id (some logs_cancel_request) sent h =
      answered_then request_id (remove_logs_request_id s.log_campaign_store request_id) _
        (λ store e. answered request_id _ _ refl) changed sent h
  handle_request-answers s changed request_id (some events_cancel_request) sent h =
      answered_then request_id (remove_subscriber s.event_handler request_id) _
        (λ store e. answered request_id _ _ refl) changed sent h
