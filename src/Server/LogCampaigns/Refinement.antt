-- ===== src/Server/LogCampaigns/Refinement.antt =====
-- The log campaign store implements a set of running campaigns with their providers.
use ankaios.Prelude.{
  false, not, ◌&&◌, ◌||◌, List, [], ◌∷◌, All, Option, some, get, ◌≡◌, refl, arith, inl, option_then,
}
use ankaios.Server.RequestId.{
  reads_as, id_eq, RequestId, cli_request_id, agent_request_id, request_id_from,
}
use ankaios.Server.LogCampaigns.{
  insert_log_providers, remove_request_from_log_providers_store, LogCampaignStore, new_store,
  insert_request_id, insert_log_campaign, remove_request_id, remove_logs_request_id,
}
use ankaios.Server.LogCampaigns.Campaigns.{
  Campaigns, LogOperation, insert_campaign, cancel, agent_gone, cli_gone, collector_deleted, apply,
  after, Represents, OneAgent,
}
use ankaios.Server.LogCampaigns.Ids.{
  insert_request_id-Represents, remove_request_id-Represents, agent_gone-Represents,
  cli_gone-Represents, collector_deleted-Represents, Represents-same,
}
use ankaios.Server.LogCampaigns.Held.{Provided, provided_after, HasProviders, Provides}
use ankaios.Server.LogCampaigns.Keeping.{
  insert-Provides, cancel-Provides, agent_gone-Provides, cli_gone-Provides,
  collector_deleted-Provides,
}

-- The text of the operation is a request id.
abbrev pub IsReadable : LogOperation → Type 0
IsReadable (insert_campaign text log_providers) =
    (id : RequestId) × (request_id_from text ≡ some id)
IsReadable (cancel text) = (id : RequestId) × (request_id_from text ≡ some id)
IsReadable (agent_gone agent_name) = Unit
IsReadable (cli_gone connection_name) = Unit
IsReadable (collector_deleted workload_name) = Unit

providers-remove_request_id :
    (s : LogCampaignStore) (id : RequestId)
    → (remove_request_id s id).log_providers_store ≡ s.log_providers_store
unfolding remove_request_id
providers-remove_request_id s (cli_request_id r) = refl
providers-remove_request_id s (agent_request_id r) = refl

-- The ids and the providers of the store.
abbrev Mirrors : LogCampaignStore → Campaigns → Provided → Type 0
Mirrors s held p = Represents s held × Provides s.log_providers_store held p

apply-Mirrors :
    (s : LogCampaignStore) (held : Campaigns) (p : Provided) (op : LogOperation)
    → Mirrors s held p
    → OneAgent held
    → IsReadable op
    → (s' : LogCampaignStore) × (apply s op ≡ some s')
      × Mirrors s' (after held op) (provided_after p op)
unfolding insert_log_campaign remove_logs_request_id
apply-Mirrors s held p (insert_campaign text log_providers) (h, k) one (id, e) = (
  record (insert_request_id s id) {
    log_providers_store = insert_log_providers s.log_providers_store text log_providers;
  },
  rw (e, insert_log_campaign) refl,
  (
    Represents-same (insert_request_id s id) (λ other. held other || id_eq other id)
        (after held (insert_campaign text log_providers)) (λ other. rw (reads_as, e) refl)
        (insert_request_id-Represents s held id h),
    insert-Provides s.log_providers_store held p text log_providers id e k,
  ),
)
apply-Mirrors s held p (cancel text) (h, k) one (id, e) =
    let cleaned = remove_request_from_log_providers_store s text in
    (
      remove_request_id cleaned id,
      rw (e, remove_logs_request_id) refl,
      (
        Represents-same (remove_request_id cleaned id) (λ other. held other && not (id_eq other id))
            (after held (cancel text)) (λ other. rw (reads_as, e) refl)
            (remove_request_id-Represents cleaned held id h),
        rw (providers-remove_request_id cleaned id)
            (cancel-Provides s.log_providers_store held p text k),
      ),
    )
apply-Mirrors s held p (agent_gone a) (h, k) one r =
    (_, refl, (agent_gone-Represents s held a h one, agent_gone-Provides s held p a h k))
apply-Mirrors s held p (cli_gone c) (h, k) one r =
    (_, refl, (cli_gone-Represents s held c h, cli_gone-Provides s held p c h k))
apply-Mirrors s held p (collector_deleted w) (h, k) one r =
    (_, refl, (collector_deleted-Represents s held w h, collector_deleted-Provides s held p w h k))

abbrev pub run : LogCampaignStore → List LogOperation → Option LogCampaignStore
run s [] = some s
run s (op ∷ ops) = option_then (apply s op) (λ next. run next ops)

abbrev pub run_after : Campaigns → List LogOperation → Campaigns
run_after held [] = held
run_after held (op ∷ ops) = run_after (after held op) ops

abbrev pub run_provided : Provided → List LogOperation → Provided
run_provided p [] = p
run_provided p (op ∷ ops) = run_provided (provided_after p op) ops

-- Before each operation, the campaigns from workloads of one name are from one agent.
abbrev pub AlwaysOneAgent : Campaigns → List LogOperation → Type 0
AlwaysOneAgent held [] = Unit
AlwaysOneAgent held (op ∷ ops) = OneAgent held × AlwaysOneAgent (after held op) ops

run-Mirrors :
    (s : LogCampaignStore) (held : Campaigns) (p : Provided) (ops : List LogOperation)
    → Mirrors s held p
    → AlwaysOneAgent held ops
    → All IsReadable ops
    → (s' : LogCampaignStore) × (run s ops ≡ some s')
      × Mirrors s' (run_after held ops) (run_provided p ops)
run-Mirrors s held p [] h one r = (s, refl, h)
run-Mirrors s held p (op ∷ ops) h (one, ones) (r, rs) =
    let (next, e, k) = apply-Mirrors s held p op h one r in
    let (s', f, g) = run-Mirrors next (after held op) (provided_after p op) ops k ones rs in
    (s', rw e f, g)

abbrev pub no_campaigns : Campaigns
no_campaigns id = false

abbrev pub no_providers : Provided
no_providers agent_name text = []

-- Where the texts are request ids and, before each operation, the campaigns from workloads of one
-- name are from one agent, a run of the store's operations from the empty store ends; its three maps
-- of ids hold exactly the campaigns that the run leaves in a set: those inserted, without the
-- cancelled ones, those of agents and connections that went, and those of deleted workloads; and its
-- providers, for each agent and each text, are exactly those of this agent that were inserted with
-- this text, in their order, since the campaign of the text last ended in one of these ways or the
-- agent went.
pub run-refines :
    (ops : List LogOperation)
    → AlwaysOneAgent no_campaigns ops
    → All IsReadable ops
    → (s : LogCampaignStore) × (run new_store ops ≡ some s)
      × Represents s (run_after no_campaigns ops)
      × HasProviders s.log_providers_store (run_provided no_providers ops)
unfolding get
run-refines ops one r =
    let (s, e, (ids, (d, agree, only, read))) =
      run-Mirrors new_store no_campaigns no_providers ops
        (
          ((λ k i. ground arith), (λ k i. ground arith), (λ k i. ground arith)),
          (tt, (λ a text. refl), (λ a text. inl refl), (λ id h. absurd cc)),
        )
        one r in
    (s, e, ids, agree)
