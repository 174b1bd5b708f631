-- ===== src/Server/LogCampaigns/Campaigns.antt =====
-- The set of running campaigns as the abstract view of the log campaign store.
use ankaios.Prelude.{
  String, ◌==◌, Bool, true, false, not, ◌&&◌, ◌||◌, List, Option, some, holds, ◌≡◌,
}
use ankaios.Api.Instance.{InstanceName}
use ankaios.Server.RequestId.{
  reads_as, of_agent, of_cli, agent_id_eq, cli_id_eq, CliRequestId, AgentRequestId, RequestId,
  cli_request_id, agent_request_id,
}
use ankaios.Server.LogCampaigns.{
  LogCampaignStore, insert_log_campaign, remove_agent_log_campaign_entry,
  remove_cli_log_campaign_entry, remove_logs_request_id, remove_collector_campaign_entry,
}

-- The running campaigns, by their ids.
abbrev pub Campaigns : Type 0
Campaigns = RequestId → Bool

pub data LogOperation : Type 0 where
  insert_campaign : String → List InstanceName → LogOperation
  cancel : String → LogOperation
  agent_gone : String → LogOperation
  cli_gone : String → LogOperation
  collector_deleted : String → LogOperation

abbrev pub apply : LogCampaignStore → LogOperation → Option LogCampaignStore
apply s (insert_campaign request_id log_providers) = insert_log_campaign s request_id log_providers
apply s (cancel request_id) = remove_logs_request_id s request_id
apply s (agent_gone agent_name) = some (remove_agent_log_campaign_entry s agent_name).0
apply s (cli_gone connection_name) = some (remove_cli_log_campaign_entry s connection_name).0
apply s (collector_deleted workload_name) = some (remove_collector_campaign_entry s workload_name).0

abbrev pub of_workload : String → RequestId → Bool
of_workload workload_name (cli_request_id r) = false
of_workload workload_name (agent_request_id r) = r.workload_name == workload_name

-- What an operation does with the campaigns that run.
abbrev pub after : Campaigns → LogOperation → Campaigns
after held (insert_campaign request_id log_providers) id = held id || reads_as request_id id
after held (cancel request_id) id = held id && not (reads_as request_id id)
after held (agent_gone agent_name) id = held id && not (of_agent agent_name id)
after held (cli_gone connection_name) id = held id && not (of_cli connection_name id)
after held (collector_deleted workload_name) id = held id && not (of_workload workload_name id)

-- The store's three maps of ids hold exactly the campaigns, each under its agent's, its workload's or
-- its connection's name.
abbrev pub Represents : LogCampaignStore → Campaigns → Type 0
Represents s held =
    ((k : String) (i : AgentRequestId)
      → holds agent_id_eq s.agent_log_request_ids_store k i
        ≡ (i.agent_name == k && held (agent_request_id i)))
    × ((k : String) (i : AgentRequestId)
        → holds agent_id_eq s.workload_name_request_id_store k i
          ≡ (i.workload_name == k && held (agent_request_id i)))
    × ((k : String) (i : CliRequestId)
        → holds cli_id_eq s.cli_log_request_id_store k i
          ≡ (i.cli_name == k && held (cli_request_id i)))

-- All campaigns from workloads of one name are from one agent.
abbrev pub OneAgent : Campaigns → Type 0
OneAgent held =
    (i j : AgentRequestId)
    → held (agent_request_id i) ≡ true
    → held (agent_request_id j) ≡ true
    → i.workload_name ≡ j.workload_name
    → i.agent_name ≡ j.agent_name
