-- ===== src/Server/LogCampaigns.antt =====
-- The log campaigns that the server keeps: server/src/ankaios_server/log_campaign_store.rs. A text
-- that is no request id makes the code panic, which is `none` here.
pub mod Campaigns
pub mod Texts
pub mod Providers
pub mod Held
pub mod Keeping
pub mod Loops
pub mod Ids
pub mod Refinement
use ankaios.Prelude.{
  String, ◌==◌, Bool, ◌&&◌, if◌then◌else◌, List, [], ◌∷◌, ◌++◌, map, Option, none, some, Map, get,
  remove, get_or, entry, is_empty, set_insert, remove_from_set,
}
use ankaios.Api.Instance.{InstanceName}
use ankaios.Server.RequestId.{
  agent_id_eq, cli_id_eq, CliRequestId, AgentRequestId, RequestId, cli_request_id, agent_request_id,
  to_string_id, request_id_from,
}

-- `to_string_ids`
abbrev pub agent_ids_to_string : List AgentRequestId → List String
agent_ids_to_string request_ids = map (λ r. to_string_id (agent_request_id r)) request_ids

abbrev pub cli_ids_to_string : List CliRequestId → List String
cli_ids_to_string request_ids = map (λ r. to_string_id (cli_request_id r)) request_ids

pub record RemovedLogRequests : Type 0 where
  pub collector_requests : List String
  pub disconnected_log_providers : List (String × List InstanceName)

pub record LogCampaignStore : Type 0 where
  pub agent_log_request_ids_store : Map (List AgentRequestId)
  pub workload_name_request_id_store : Map (List AgentRequestId)
  pub log_providers_store : Map (Map (List InstanceName))
  pub cli_log_request_id_store : Map (List CliRequestId)

abbrev pub new_store : LogCampaignStore
new_store = record {
  agent_log_request_ids_store = [];
  workload_name_request_id_store = [];
  log_providers_store = [];
  cli_log_request_id_store = [];
}

-- The two `retain` calls: the request leaves each agent's map, and an empty map leaves the store.
unfoldable pub retain_other_requests :
    Map (Map (List InstanceName)) → String → Map (Map (List InstanceName))
retain_other_requests [] request_id = []
retain_other_requests ((agent_name, provider_map) ∷ store) request_id =
    let rest = retain_other_requests store request_id in
    if is_empty (remove provider_map request_id)
    then rest
    else (agent_name, remove provider_map request_id) ∷ rest

abbrev pub remove_request_from_log_providers_store : LogCampaignStore → String → LogCampaignStore
remove_request_from_log_providers_store s request_id = record s {
  log_providers_store = retain_other_requests s.log_providers_store request_id;
}

abbrev pub remove_request_from_agent_log_campaign_store :
    LogCampaignStore → AgentRequestId → LogCampaignStore
remove_request_from_agent_log_campaign_store s r = record s {
  agent_log_request_ids_store =
      remove_from_set agent_id_eq s.agent_log_request_ids_store r.agent_name r;
}

abbrev pub remove_request_from_cli_log_campaign_store :
    LogCampaignStore → CliRequestId → LogCampaignStore
remove_request_from_cli_log_campaign_store s r = record s {
  cli_log_request_id_store = remove_from_set cli_id_eq s.cli_log_request_id_store r.cli_name r;
}

abbrev pub remove_request_from_workload_log_campaign_store :
    LogCampaignStore → AgentRequestId → LogCampaignStore
remove_request_from_workload_log_campaign_store s r = record s {
  workload_name_request_id_store =
      remove_from_set agent_id_eq s.workload_name_request_id_store r.workload_name r;
}

-- The id of an inserted campaign, in the stores of its kind.
unfoldable pub insert_request_id : LogCampaignStore → RequestId → LogCampaignStore
insert_request_id s (cli_request_id r) = record s {
  cli_log_request_id_store =
      entry s.cli_log_request_id_store r.cli_name [] (λ ids. set_insert cli_id_eq ids r);
}
insert_request_id s (agent_request_id r) = record s {
  workload_name_request_id_store =
      entry s.workload_name_request_id_store r.workload_name []
        (λ ids. set_insert agent_id_eq ids r);
  agent_log_request_ids_store =
      entry s.agent_log_request_ids_store r.agent_name [] (λ ids. set_insert agent_id_eq ids r);
}

unfoldable pub insert_log_providers :
    Map (Map (List InstanceName)) → String → List InstanceName → Map (Map (List InstanceName))
insert_log_providers store request_id [] = store
insert_log_providers store request_id (i ∷ log_providers) =
    insert_log_providers
      (entry store i.agent_name [] (λ m. entry m request_id [] (λ names. names ++ i ∷ [])))
      request_id log_providers

unfoldable pub insert_log_campaign :
    LogCampaignStore → String → List InstanceName → Option LogCampaignStore
insert_log_campaign s input_request_id log_providers = elim (request_id_from input_request_id) [
  | none ↦ none
  | some request_id ↦ some (record (insert_request_id s request_id) {
    log_providers_store = insert_log_providers s.log_providers_store input_request_id log_providers;
  })
]

-- The loop over the requests of a disconnected agent.
unfoldable pub forget_agent_requests : LogCampaignStore → List AgentRequestId → LogCampaignStore
forget_agent_requests s [] = s
forget_agent_requests s (r ∷ requests) =
    forget_agent_requests
      (remove_request_from_log_providers_store
        (record s {
          workload_name_request_id_store = remove s.workload_name_request_id_store r.workload_name;
        })
        (to_string_id (agent_request_id r)))
      requests

unfoldable pub remove_agent_log_campaign_entry :
    LogCampaignStore → String → LogCampaignStore × RemovedLogRequests
remove_agent_log_campaign_entry s agent_name =
    let requests = get_or [] (get s.agent_log_request_ids_store agent_name) in
    let forgotten =
      forget_agent_requests
        (record s { agent_log_request_ids_store = remove s.agent_log_request_ids_store agent_name })
        requests in
    (
      record forgotten { log_providers_store = remove forgotten.log_providers_store agent_name },
      record {
        collector_requests = agent_ids_to_string requests;
        disconnected_log_providers = get_or [] (get forgotten.log_providers_store agent_name);
      },
    )

unfoldable pub forget_cli_requests : LogCampaignStore → List CliRequestId → LogCampaignStore
forget_cli_requests s [] = s
forget_cli_requests s (r ∷ requests) =
    forget_cli_requests
      (remove_request_from_log_providers_store s (to_string_id (cli_request_id r))) requests

unfoldable pub remove_cli_log_campaign_entry :
    LogCampaignStore → String → LogCampaignStore × List String
remove_cli_log_campaign_entry s cli_connection_name =
    let requests = get_or [] (get s.cli_log_request_id_store cli_connection_name) in
    (
      forget_cli_requests
          (record s {
            cli_log_request_id_store = remove s.cli_log_request_id_store cli_connection_name;
          })
          requests,
      cli_ids_to_string requests,
    )

-- The id of a cancelled campaign, in the stores of its kind.
unfoldable pub remove_request_id : LogCampaignStore → RequestId → LogCampaignStore
remove_request_id s (cli_request_id r) = remove_request_from_cli_log_campaign_store s r
remove_request_id s (agent_request_id r) =
    remove_request_from_workload_log_campaign_store
      (remove_request_from_agent_log_campaign_store s r) r

unfoldable pub remove_logs_request_id : LogCampaignStore → String → Option LogCampaignStore
remove_logs_request_id s input_request_id = elim (request_id_from input_request_id) [
  | none ↦ none
  | some request_id ↦
      some
        (remove_request_id (remove_request_from_log_providers_store s input_request_id) request_id)
]

-- The loop over the requests of a deleted workload.
unfoldable pub forget_workload_requests : LogCampaignStore → List AgentRequestId → LogCampaignStore
forget_workload_requests s [] = s
forget_workload_requests s (r ∷ requests) =
    forget_workload_requests
      (remove_request_from_log_providers_store (remove_request_from_agent_log_campaign_store s r)
        (to_string_id (agent_request_id r)))
      requests

unfoldable pub remove_collector_campaign_entry :
    LogCampaignStore → String → LogCampaignStore × List String
remove_collector_campaign_entry s workload_name =
    let requests = get_or [] (get s.workload_name_request_id_store workload_name) in
    (
      forget_workload_requests
          (record s {
            workload_name_request_id_store = remove s.workload_name_request_id_store workload_name;
          })
          requests,
      agent_ids_to_string requests,
    )
