-- ===== src/Server/LogTests.antt =====
-- A run of the log campaign store, and the theorem at this run.
use ankaios.Prelude.{
  ◌≡◌, ◌∙◌, sym, ap, refl, List, [], ◌∷◌, some, get, remove, insert, remove_from_set, split_once,
  starts_with,
}
use ankaios.Api.Instance.{InstanceName}
use ankaios.Server.RequestId.{
  agent_id_eq, agent_id_eq-decides, cli_id_eq, AgentRequestId, CliRequestId, agent_request_id,
  cli_request_id, to_string_id, cli_id_from, agent_id_from, request_id_from,
}
use ankaios.Server.LogCampaigns.{
  LogCampaignStore, new_store, retain_other_requests, insert_request_id, insert_log_providers,
  insert_log_campaign, forget_agent_requests, remove_agent_log_campaign_entry, forget_cli_requests,
  remove_cli_log_campaign_entry, remove_request_id, remove_logs_request_id,
  forget_workload_requests, remove_collector_campaign_entry,
}
use ankaios.Server.LogCampaigns.Campaigns.{
  LogOperation, insert_campaign, cancel, agent_gone, Represents,
}
use ankaios.Server.LogCampaigns.Refinement.{
  run, run_after, run_provided, no_providers, AlwaysOneAgent, no_campaigns, run-refines,
}
use ankaios.Server.LogCampaigns.Held.{HasProviders}

program : Unit {0}
unfolding split_once starts_with cli_id_from agent_id_from request_id_from to_string_id get remove
    insert remove_from_set agent_id_eq cli_id_eq retain_other_requests insert_request_id
    insert_log_providers insert_log_campaign forget_agent_requests remove_agent_log_campaign_entry
    forget_cli_requests remove_cli_log_campaign_entry remove_request_id remove_logs_request_id
    forget_workload_requests remove_collector_campaign_entry
program = tt

abbrev provider : InstanceName
provider = record { workload_name = "db"; agent_name = "b"; id = "1" }

abbrev collector : AgentRequestId
collector = record { agent_name = "a"; workload_name = "web"; request_id = "r" }

abbrev cli : CliRequestId
cli = record { cli_name = "cli-conn-1"; request_id = "x" }

abbrev cancelled : CliRequestId
cancelled = record { cli_name = "cli-conn-1"; request_id = "y" }

abbrev operations : List LogOperation
operations =
    insert_campaign "cli-conn-1@y" (provider ∷ [])
    ∷ cancel "cli-conn-1@y"
    ∷ insert_campaign "cli-conn-1@x" (provider ∷ [])
    ∷ (insert_campaign "a@web@r" (provider ∷ []) ∷ (agent_gone "a" ∷ []))

-- The campaign of the command line that was not cancelled is left, with its provider.
abbrev left_over : LogCampaignStore
left_over = record {
  agent_log_request_ids_store = [];
  workload_name_request_id_store = [];
  log_providers_store = ("b", ("cli-conn-1@x", provider ∷ []) ∷ []) ∷ [];
  cli_log_request_id_store = ("cli-conn-1", cli ∷ []) ∷ [];
}

runs_to_left_over : run new_store operations ≡ some left_over
unfolding program
runs_to_left_over = refl

one_agent : AlwaysOneAgent no_campaigns operations
unfolding program
one_agent = (
  (λ i j h k e. cc h),
  (
    (λ i j h k e. cc h),
    (
      (λ i j h k e. cc h),
      (
        (λ i j h k e. cc h),
        (
          (λ i j h k e.
              ap (λ (r : AgentRequestId). r.agent_name)
                ((agent_id_eq-decides i collector).0 h
                  ∙ sym ((agent_id_eq-decides j collector).0 k))),
          tt,
        ),
      ),
    ),
  ),
)

run-refines_example :
    (s : LogCampaignStore) × (run new_store operations ≡ some s)
    × Represents s (run_after no_campaigns operations)
    × HasProviders s.log_providers_store (run_provided no_providers operations)
unfolding program
run-refines_example = run-refines operations one_agent (
  (cli_request_id cancelled, refl),
  (
    (cli_request_id cancelled, refl),
    ((cli_request_id cli, refl), ((agent_request_id collector, refl), (tt, tt))),
  ),
)
