-- ===== src/Server/Events/Subscriptions.antt =====
-- Who is subscribed after a history of the store's operations.
use ankaios.Prelude.{
  String, ◌==◌, Bool, true, false, not, ◌&&◌, if◌then◌else◌, List, [], ◌∷◌, All, Option, none, some,
  ◌≡◌, refl, sym, ap, ◌∙◌, ◌↔◌, arith, option_then,
}
use ankaios.Common.Path.{FieldPath}
use ankaios.Server.RequestId.{
  RequestId, cli_request_id, agent_request_id, request_id_from, id_eq, id_eq-decides, reads_as,
  of_agent, of_cli,
}
use ankaios.Server.Events.{
  SubscriberStore, subscription, insert_subscription, retain_ids, add_subscriber, remove_subscriber,
  remove_subscribers_of_agent, remove_cli_subscriber, remove_workload_subscriber,
  request_id_matches_agent_and_workload_name, default_subscribers, has_subscribers, other_agent,
  other_connection, other_workload,
}

subscription-insert_subscription :
    (s : SubscriberStore) (id other : RequestId) (field_masks : List FieldPath)
    → subscription (insert_subscription s id field_masks) other
      ≡ (if id_eq id other then some field_masks else subscription s other)
unfolding subscription insert_subscription
subscription-insert_subscription [] id other field_masks = refl
subscription-insert_subscription ((i, ms) ∷ s) id other field_masks = ground (
  arith,
  id_eq-decides i id,
  id_eq-decides i other,
  id_eq-decides id other,
  subscription-insert_subscription s id other field_masks,
)

subscription-retain_ids :
    (p : RequestId → Bool) (s : SubscriberStore) (id : RequestId)
    → subscription (retain_ids p s) id ≡ (if p id then subscription s id else none)
unfolding subscription retain_ids
subscription-retain_ids p [] id = ground arith
subscription-retain_ids p ((i, ms) ∷ s) id =
    ground (arith, id_eq-decides i id, subscription-retain_ids p s id)

pub data SubscriberOperation : Type 0 where
  subscribe : String → List FieldPath → SubscriberOperation
  unsubscribe : String → SubscriberOperation
  agent_gone : String → SubscriberOperation
  cli_gone : String → SubscriberOperation
  workload_gone : String → String → SubscriberOperation

abbrev pub apply : SubscriberStore → SubscriberOperation → Option SubscriberStore
apply s (subscribe request_id field_masks) = add_subscriber s request_id field_masks
apply s (unsubscribe request_id) = remove_subscriber s request_id
apply s (agent_gone agent_name) = some (remove_subscribers_of_agent s agent_name)
apply s (cli_gone connection_name) = some (remove_cli_subscriber s connection_name)
apply s (workload_gone agent_name workload_name) =
    some (remove_workload_subscriber s agent_name workload_name)

-- The operations of a history, the latest first.
abbrev pub replay : List SubscriberOperation → Option SubscriberStore
replay [] = some default_subscribers
replay (operation ∷ earlier) = option_then (replay earlier) (λ s. apply s operation)

-- Whether an operation decides on the subscription of the id, and what it grants.
abbrev pub concerns : SubscriberOperation → RequestId → Bool
concerns (subscribe request_id field_masks) id = reads_as request_id id
concerns (unsubscribe request_id) id = reads_as request_id id
concerns (agent_gone agent_name) id = of_agent agent_name id
concerns (cli_gone connection_name) id = of_cli connection_name id
concerns (workload_gone agent_name workload_name) (agent_request_id r) =
    r.agent_name == agent_name && r.workload_name == workload_name
concerns (workload_gone agent_name workload_name) (cli_request_id r) = false

abbrev pub granted : SubscriberOperation → Option (List FieldPath)
granted (subscribe request_id field_masks) = some field_masks
granted (unsubscribe request_id) = none
granted (agent_gone agent_name) = none
granted (cli_gone connection_name) = none
granted (workload_gone agent_name workload_name) = none

abbrev pub latest : List SubscriberOperation → RequestId → Option (List FieldPath)
latest [] id = none
latest (operation ∷ earlier) id =
    if concerns operation id then granted operation else latest earlier id

abbrev pub HasId : SubscriberOperation → Type 0
HasId (subscribe request_id field_masks) = (id : RequestId) × (request_id_from request_id ≡ some id)
HasId (unsubscribe request_id) = (id : RequestId) × (request_id_from request_id ≡ some id)
HasId (agent_gone agent_name) = Unit
HasId (cli_gone connection_name) = Unit
HasId (workload_gone agent_name workload_name) = Unit

-- The store after the operation, and what it holds.
abbrev Applied : SubscriberStore → SubscriberOperation → Type 0
Applied s operation =
    (t : SubscriberStore) × (apply s operation ≡ some t)
    × ((id : RequestId)
        → subscription t id
          ≡ (if concerns operation id then granted operation else subscription s id))

by_agent :
    (agent_name : String) (id : RequestId)
    → other_agent agent_name id ≡ not (of_agent agent_name id)
by_agent agent_name (agent_request_id r) = refl
by_agent agent_name (cli_request_id r) = refl

by_connection :
    (connection_name : String) (id : RequestId)
    → other_connection connection_name id ≡ not (of_cli connection_name id)
by_connection connection_name (agent_request_id r) = refl
by_connection connection_name (cli_request_id r) = refl

by_workload :
    (agent_name workload_name : String) (id : RequestId)
    → other_workload agent_name workload_name id
      ≡ not (concerns (workload_gone agent_name workload_name) id)
unfolding request_id_matches_agent_and_workload_name
by_workload agent_name workload_name (agent_request_id r) = refl
by_workload agent_name workload_name (cli_request_id r) = refl

reads_as_lem :
    (text : String) (id other : RequestId)
    → request_id_from text ≡ some id
    → reads_as text other ≡ id_eq other id
reads_as_lem text id other e = rw (e, reads_as) refl

retained :
    (p : RequestId → Bool) (s : SubscriberStore) (operation : SubscriberOperation)
    → granted operation ≡ none
    → ((id : RequestId) → p id ≡ not (concerns operation id))
    → (id : RequestId)
    → subscription (retain_ids p s) id
      ≡ (if concerns operation id then granted operation else subscription s id)
retained p s operation g e id =
    let kept = subscription-retain_ids p s id in
    let complement = e id in ground (arith, kept, complement, g)

apply-Applied :
    (s : SubscriberStore) (operation : SubscriberOperation) → HasId operation → Applied s operation
unfolding add_subscriber remove_subscriber remove_subscribers_of_agent remove_cli_subscriber
    remove_workload_subscriber request_id_matches_agent_and_workload_name
apply-Applied s (subscribe request_id field_masks) (id, e) = (
  insert_subscription s id field_masks,
  rw (e, add_subscriber) refl,
  λ other.
      let reads = reads_as_lem request_id id other e in
      let put = subscription-insert_subscription s id other field_masks in
      ground (arith, reads, put, id_eq-decides id other, id_eq-decides other id),
)
apply-Applied s (unsubscribe request_id) (id, e) = (
  retain_ids (λ other. not (id_eq other id)) s,
  rw (e, remove_subscriber) refl,
  retained (λ other. not (id_eq other id)) s (unsubscribe request_id) refl
      (λ other. ap not (sym (reads_as_lem request_id id other e))),
)
apply-Applied s (agent_gone agent_name) h = (
  retain_ids (other_agent agent_name) s,
  refl,
  retained (other_agent agent_name) s (agent_gone agent_name) refl (by_agent agent_name),
)
apply-Applied s (cli_gone connection_name) h = (
  retain_ids (other_connection connection_name) s,
  refl,
  retained (other_connection connection_name) s (cli_gone connection_name) refl
      (by_connection connection_name),
)
apply-Applied s (workload_gone agent_name workload_name) h = (
  retain_ids (other_workload agent_name workload_name) s,
  refl,
  retained (other_workload agent_name workload_name) s (workload_gone agent_name workload_name) refl
      (by_workload agent_name workload_name),
)

-- The store holds what the history grants.
abbrev pub Grants : List SubscriberOperation → SubscriberStore → Type 0
Grants history s = (id : RequestId) → subscription s id ≡ latest history id

replay-Grants :
    (history : List SubscriberOperation)
    → All HasId history
    → (s : SubscriberStore) × (replay history ≡ some s) × Grants history s
unfolding subscription
replay-Grants [] h = (default_subscribers, refl, λ id. refl)
replay-Grants (operation ∷ earlier) (h, hs) =
    let before = replay-Grants earlier hs in
    let now = apply-Applied before.0 operation h in
    (
      now.0,
      ap (λ o. option_then o (λ s. apply s operation)) before.1 ∙ now.1,
      λ id.
          now.2 id ∙ ap (λ o. if concerns operation id then granted operation else o) (before.2 id),
    )

has_subscribers-subscription :
    (s : SubscriberStore)
    → (has_subscribers s ≡ true)
      ↔ ((id : RequestId) × (field_masks : List FieldPath) × (subscription s id ≡ some field_masks))
unfolding subscription
has_subscribers-subscription [] = ((λ h. absurd cc), (λ h. cc h.2))
has_subscribers-subscription ((id, field_masks) ∷ s) =
    ((λ h. (id, field_masks, rw ((id_eq-decides id id).1 refl) refl)), (λ h. refl))

-- A history whose texts are request ids can be replayed on the empty store. The masks that are then
-- stored for an id are those that the latest operation on this id granted, and nothing where there is none or
-- where it was a cancellation, or the end of the id's agent, workload or connection. The store has
-- subscribers exactly if some id has such masks.
pub replay-subscriptions :
    (history : List SubscriberOperation)
    → All HasId history
    → (s : SubscriberStore) × (replay history ≡ some s)
      × ((id : RequestId) → subscription s id ≡ latest history id)
      × ((has_subscribers s ≡ true) ↔ (
          (id : RequestId) × (field_masks : List FieldPath) × (latest history id
            ≡ some field_masks)))
replay-subscriptions history h =
    let run = replay-Grants history h in
    let has = has_subscribers-subscription run.0 in
    (
      run.0,
      run.1,
      run.2,
      (
        (λ e. let found = has.0 e in (found.0, found.1, sym (run.2 found.0) ∙ found.2)),
        (λ e. has.1 (e.0, e.1, run.2 e.0 ∙ e.2)),
      ),
    )
