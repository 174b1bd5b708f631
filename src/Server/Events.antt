-- ===== src/Server/Events.antt =====
-- The subscribers for events that the server keeps: the store of server/src/ankaios_server/event_handler.rs.
-- A text that is no request id makes the code panic, which is `none` here.
pub mod Subscriptions
pub mod Altered
pub mod Sending
use ankaios.Prelude.{
  String, ◌==◌, Bool, true, false, not, ◌&&◌, if◌then◌else◌, List, [], ◌∷◌, Option, none, some,
}
use ankaios.Common.Path.{FieldPath}
use ankaios.Server.RequestId.{
  AgentRequestId, RequestId, cli_request_id, agent_request_id, request_id_from, id_eq,
}

-- `HashMap<RequestId, SubscribedFieldMasks>`
abbrev pub SubscriberStore : Type 0
SubscriberStore = List (RequestId × List FieldPath)

abbrev pub default_subscribers : SubscriberStore
default_subscribers = []

-- `get`, `insert` and `retain` of the map.
unfoldable pub subscription : SubscriberStore → RequestId → Option (List FieldPath)
subscription [] id = none
subscription ((other, field_masks) ∷ s) id =
    if id_eq other id then some field_masks else subscription s id

unfoldable pub insert_subscription : SubscriberStore → RequestId → List FieldPath → SubscriberStore
insert_subscription [] id field_masks = (id, field_masks) ∷ []
insert_subscription ((other, others_masks) ∷ s) id field_masks =
    let rest = insert_subscription s id field_masks in
    if id_eq other id then (id, field_masks) ∷ s else (other, others_masks) ∷ rest

unfoldable pub retain_ids : (RequestId → Bool) → SubscriberStore → SubscriberStore
retain_ids p [] = []
retain_ids p ((id, field_masks) ∷ s) =
    let rest = retain_ids p s in if p id then (id, field_masks) ∷ rest else rest

unfoldable pub add_subscriber : SubscriberStore → String → List FieldPath → Option SubscriberStore
add_subscriber s request_id field_masks = elim (request_id_from request_id) [
  | none ↦ none
  | some id ↦ some (insert_subscription s id field_masks)
]

unfoldable pub remove_subscriber : SubscriberStore → String → Option SubscriberStore
remove_subscriber s request_id = elim (request_id_from request_id) [
  | none ↦ none
  | some id ↦ some (retain_ids (λ other. not (id_eq other id)) s)
]

abbrev pub other_agent : String → RequestId → Bool
other_agent agent_name (agent_request_id r) = not (r.agent_name == agent_name)
other_agent agent_name (cli_request_id r) = true

unfoldable pub remove_subscribers_of_agent : SubscriberStore → String → SubscriberStore
remove_subscribers_of_agent s agent_name = retain_ids (other_agent agent_name) s

abbrev pub other_connection : String → RequestId → Bool
other_connection cli_connection_name (agent_request_id r) = true
other_connection cli_connection_name (cli_request_id r) = not (r.cli_name == cli_connection_name)

unfoldable pub remove_cli_subscriber : SubscriberStore → String → SubscriberStore
remove_cli_subscriber s cli_connection_name = retain_ids (other_connection cli_connection_name) s

unfoldable pub request_id_matches_agent_and_workload_name : AgentRequestId → String → String → Bool
request_id_matches_agent_and_workload_name r agent_name workload_name =
    r.agent_name == agent_name && r.workload_name == workload_name

abbrev pub other_workload : String → String → RequestId → Bool
other_workload agent_name workload_name (agent_request_id r) =
    not (request_id_matches_agent_and_workload_name r agent_name workload_name)
other_workload agent_name workload_name (cli_request_id r) = true

unfoldable pub remove_workload_subscriber : SubscriberStore → String → String → SubscriberStore
remove_workload_subscriber s agent_name workload_name =
    retain_ids (other_workload agent_name workload_name) s

abbrev pub has_subscribers : SubscriberStore → Bool
has_subscribers [] = false
has_subscribers (e ∷ s) = true
