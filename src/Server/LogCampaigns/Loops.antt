-- ===== src/Server/LogCampaigns/Loops.antt =====
-- What the loops over the removed requests leave in the maps of the log campaign store.
use ankaios.Prelude.{
  String, ◌==◌, not, ◌&&◌, List, [], ◌∷◌, any, remove, holds, ◌≡◌, refl, ap, ◌∙◌, arith,
  holds-remove, holds-remove_from_set,
}
use ankaios.Server.RequestId.{
  agent_id_eq, agent_id_eq-decides, CliRequestId, AgentRequestId, cli_request_id, agent_request_id,
  to_string_id,
}
use ankaios.Server.LogCampaigns.{
  LogCampaignStore, forget_agent_requests, forget_cli_requests, forget_workload_requests,
  remove_request_from_log_providers_store, remove_request_from_agent_log_campaign_store,
}
use ankaios.Server.LogCampaigns.Campaigns.{}

abbrev pub SameIds : LogCampaignStore → LogCampaignStore → Type 0
SameIds s t =
    (s.agent_log_request_ids_store ≡ t.agent_log_request_ids_store)
    × (s.workload_name_request_id_store ≡ t.workload_name_request_id_store)
    × (s.cli_log_request_id_store ≡ t.cli_log_request_id_store)

pub forget_workload_requests-holds :
    (s : LogCampaignStore) (requests : List AgentRequestId) (k : String) (i : AgentRequestId)
    → holds agent_id_eq (forget_workload_requests s requests).agent_log_request_ids_store k i ≡ (
        holds agent_id_eq s.agent_log_request_ids_store k i
        && not (any (λ r. r.agent_name == k && agent_id_eq i r) requests))
unfolding forget_workload_requests
forget_workload_requests-holds s [] k i = ground arith
forget_workload_requests-holds s (r ∷ requests) k i =
    let next =
      remove_request_from_log_providers_store (remove_request_from_agent_log_campaign_store s r)
        (to_string_id (agent_request_id r)) in
    let ih = forget_workload_requests-holds next requests k i in
    let step =
      holds-remove_from_set agent_id_eq agent_id_eq-decides s.agent_log_request_ids_store
        r.agent_name k i r in
    ih
    ∙ ap (λ b. b && not (any (λ x. x.agent_name == k && agent_id_eq i x) requests)) step
    ∙ ground arith

pub forget_workload_requests-others :
    (s : LogCampaignStore) (requests : List AgentRequestId)
    → ((forget_workload_requests s requests).workload_name_request_id_store
        ≡ s.workload_name_request_id_store)
      × ((forget_workload_requests s requests).cli_log_request_id_store
          ≡ s.cli_log_request_id_store)
unfolding forget_workload_requests
forget_workload_requests-others s [] = (refl, refl)
forget_workload_requests-others s (r ∷ requests) =
    forget_workload_requests-others
      (remove_request_from_log_providers_store (remove_request_from_agent_log_campaign_store s r)
        (to_string_id (agent_request_id r)))
      requests

abbrev pub forget_agent_request : LogCampaignStore → AgentRequestId → LogCampaignStore
forget_agent_request s r =
    remove_request_from_log_providers_store
      (record s {
        workload_name_request_id_store = remove s.workload_name_request_id_store r.workload_name;
      })
      (to_string_id (agent_request_id r))

pub forget_agent_requests-holds :
    (s : LogCampaignStore) (requests : List AgentRequestId) (k : String) (i : AgentRequestId)
    → holds agent_id_eq (forget_agent_requests s requests).workload_name_request_id_store k i ≡ (
        holds agent_id_eq s.workload_name_request_id_store k i
        && not (any (λ r. r.workload_name == k) requests))
unfolding forget_agent_requests
forget_agent_requests-holds s [] k i = ground arith
forget_agent_requests-holds s (r ∷ requests) k i =
    let ih = forget_agent_requests-holds (forget_agent_request s r) requests k i in
    let step =
      holds-remove agent_id_eq agent_id_eq-decides s.workload_name_request_id_store r.workload_name
        k i in
    ih
    ∙ ap (λ b. b && not (any (λ (x : AgentRequestId). x.workload_name == k) requests)) step
    ∙ ground arith

pub forget_agent_requests-others :
    (s : LogCampaignStore) (requests : List AgentRequestId)
    → ((forget_agent_requests s requests).agent_log_request_ids_store
        ≡ s.agent_log_request_ids_store)
      × ((forget_agent_requests s requests).cli_log_request_id_store ≡ s.cli_log_request_id_store)
unfolding forget_agent_requests
forget_agent_requests-others s [] = (refl, refl)
forget_agent_requests-others s (r ∷ requests) =
    forget_agent_requests-others (forget_agent_request s r) requests

pub forget_cli_requests-SameIds :
    (s : LogCampaignStore) (requests : List CliRequestId)
    → SameIds (forget_cli_requests s requests) s
unfolding forget_cli_requests
forget_cli_requests-SameIds s [] = (refl, refl, refl)
forget_cli_requests-SameIds s (r ∷ requests) =
    forget_cli_requests-SameIds
      (remove_request_from_log_providers_store s (to_string_id (cli_request_id r))) requests
