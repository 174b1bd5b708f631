-- ===== src/Server/LogCampaigns/Keeping.antt =====
-- What the operations of server/src/ankaios_server/log_campaign_store.rs do with the providers.
use ankaios.Prelude.{
  String, ◌==◌, Bool, true, false, not, ◌&&◌, ◌||◌, List, [], ◌++◌, some, get, get_or, remove,
  member, and-eq-true, eq_iff, if◌then◌else◌, ◌≡◌, ◌⊎◌, refl, sym, ap, ◌∙◌, arith, Bool-cases, inl,
  inr,
}
use ankaios.Api.Instance.{InstanceName}
use ankaios.Server.RequestId.{
  RequestId, AgentRequestId, CliRequestId, agent_request_id, cli_request_id, agent_id_eq,
  agent_id_eq-decides, cli_id_eq, cli_id_eq-decides, id_eq-decides, reads_as, of_agent, of_cli,
  request_id_from,
}
use ankaios.Server.LogCampaigns.{
  LogCampaignStore, remove_agent_log_campaign_entry, remove_cli_log_campaign_entry,
  remove_collector_campaign_entry, retain_other_requests, insert_log_providers, agent_ids_to_string,
}
use ankaios.Server.LogCampaigns.Campaigns.{
  Campaigns, insert_campaign, cancel, agent_gone, cli_gone, collector_deleted, after, of_workload,
  Represents,
}
use ankaios.Server.LogCampaigns.Texts.{request_id-text}
use ankaios.Server.LogCampaigns.Providers.{
  ProviderStore, providers_at, on_agent, remove-IsDistinct, retain-IsDistinct,
  insert_log_providers-IsDistinct, providers_at-retain, providers_at-remove, providers_at-insert,
  retain_all, retain_all-IsDistinct, providers_at-retain_all, forget_agent-providers,
  forget_cli-providers, forget_workload-providers,
}
use ankaios.Server.LogCampaigns.Held.{
  Provided, reads_by, provided_after, Runs, AreRead, Provides, member-reads, read-Is,
}

pub insert-Provides :
    (store : ProviderStore) (held : Campaigns) (p : Provided) (text : String)
    (names : List InstanceName) (id : RequestId)
    → request_id_from text ≡ some id
    → Provides store held p
    → Provides
        (insert_log_providers store text names)
        (after held (insert_campaign text names))
        (provided_after p (insert_campaign text names))
insert-Provides store held p text names id e (d, agree, only, read) = (
  insert_log_providers-IsDistinct store text names d,
  λ a j.
      providers_at-insert store text a j names
      ∙ ap (λ l. l ++ (if text == j then on_agent a names else [])) (agree a j),
  λ a j. elim (Bool-cases (text == j)) [
    | inl f ↦
        let here : request_id_from j ≡ some id =
          ap request_id_from (sym ((eq_iff text j).0 f)) ∙ e in
        inr (id, here, rw (reads_as, e) (ground (arith, (id_eq-decides id id).1 refl)))
    | inr f ↦ elim (only a j) [
      | inl none_at ↦ inl (rw (f, none_at) refl)
      | inr (other, k, runs) ↦ inr (other, k, rw runs refl)
    ]
  ],
  λ other runs. elim (Bool-cases (held other)) [
    | inl f ↦ read other f
    | inr f ↦
        let reads : reads_as text other ≡ true = rw f at runs in
        let k = read-Is text other reads in ap request_id_from (request_id-text text other k) ∙ k
  ],
)

less-AreRead :
    (held : Campaigns) (q : RequestId → Bool) → AreRead held → AreRead (λ id. held id && not (q id))
less-AreRead held q read id runs = read id (and-eq-true (held id) (not (q id)) runs).0

pub cancel-Provides :
    (store : ProviderStore) (held : Campaigns) (p : Provided) (text : String)
    → Provides store held p
    → Provides
        (retain_other_requests store text)
        (after held (cancel text))
        (provided_after p (cancel text))
cancel-Provides store held p text (d, agree, only, read) = (
  retain-IsDistinct store text d,
  λ a j.
      providers_at-retain store text a j d
      ∙ ap (λ (l : List InstanceName). if text == j then [] else l) (agree a j),
  λ a j. elim (Bool-cases (text == j)) [
    | inl f ↦ inl (rw f refl)
    | inr f ↦ elim (only a j) [
      | inl none_at ↦ inl (rw (f, none_at) refl)
      | inr (id, k, runs) ↦ inr (
        id,
        k,
        elim (Bool-cases (reads_as text id)) [
          | inr g ↦ rw (runs, g) refl
          | inl g ↦
              let same : text ≡ j =
                sym (request_id-text text id (read-Is text id g)) ∙ request_id-text j id k in
              let yes = (eq_iff text j).1 same in let no : true ≡ false = sym yes ∙ f in absurd cc
        ],
      )
    ]
  ],
  less-AreRead held (reads_as text) read,
)

forgotten :
    (store : ProviderStore) (held : Campaigns) (p : Provided) (q : RequestId → Bool)
    (texts : List String) (a j : String)
    → Provides store held p
    → ((text : String) → Runs held text → member text texts ≡ reads_by q text)
    → providers_at (retain_all store texts) a j ≡ (if reads_by q j then [] else p a j)
forgotten store held p q texts a j (d, agree, only, read) h =
    providers_at-retain_all store texts a j d
    ∙ ap (λ (l : List InstanceName). if member j texts then [] else l) (agree a j)
    ∙ elim (only a j) [
      | inr runs ↦ ap (λ (b : Bool). if b then [] else p a j) (h j runs)
      | inl none_at ↦ rw none_at (elim (Bool-cases (member j texts)) [
        | inl e ↦ rw e (elim (Bool-cases (reads_by q j)) [ inl f ↦ rw f refl | inr f ↦ rw f refl ])
        | inr e ↦ rw e (elim (Bool-cases (reads_by q j)) [ inl f ↦ rw f refl | inr f ↦ rw f refl ])
      ])
    ]

-- Where those that an operation stops have no providers, the others still run.
still_running :
    (held : Campaigns) (p : Provided) (q : RequestId → Bool) (here : Bool) (a j : String)
    → (p a j ≡ []) ⊎ Runs held j
    → ((if here || reads_by q j then [] else p a j) ≡ []) ⊎ Runs (λ id. held id && not (q id)) j
still_running held p q true a j h = inl refl
still_running held p q false a j (inl none_at) = elim (Bool-cases (reads_by q j)) [
  | inl f ↦ inl (rw f refl)
  | inr f ↦ inl (rw (f, none_at) refl)
]
still_running held p q false a j (inr (id, k, runs)) = elim (Bool-cases (q id)) [
  | inl f ↦ inl (rw (reads_by, k, f) refl)
  | inr f ↦ inr (id, k, rw (runs, f) refl)
]

forget-Provides :
    (store : ProviderStore) (held : Campaigns) (p : Provided) (q : RequestId → Bool)
    (texts : List String)
    → Provides store held p
    → ((text : String) → Runs held text → member text texts ≡ reads_by q text)
    → Provides
        (retain_all store texts)
        (λ id. held id && not (q id))
        (λ a j. if reads_by q j then [] else p a j)
forget-Provides store held p q texts (d, agree, only, read) h = (
  retain_all-IsDistinct store texts d,
  λ a j. forgotten store held p q texts a j (d, agree, only, read) h,
  λ a j. still_running held p q false a j (only a j),
  less-AreRead held q read,
)

is_cli :
    (c : String) (id : RequestId)
    → of_cli c id ≡ true
    → (r : CliRequestId) × (cli_request_id r ≡ id)
is_cli c (cli_request_id r) h = (r, refl)
is_cli c (agent_request_id r) h = absurd cc

is_agent :
    (a : String) (id : RequestId)
    → of_agent a id ≡ true
    → (r : AgentRequestId) × (agent_request_id r ≡ id)
is_agent a (cli_request_id r) h = absurd cc
is_agent a (agent_request_id r) h = (r, refl)

is_workload :
    (w : String) (id : RequestId)
    → of_workload w id ≡ true
    → (r : AgentRequestId) × (agent_request_id r ≡ id)
is_workload w (cli_request_id r) h = absurd cc
is_workload w (agent_request_id r) h = (r, refl)

pub cli_gone-Provides :
    (s : LogCampaignStore) (held : Campaigns) (p : Provided) (c : String)
    → Represents s held
    → Provides s.log_providers_store held p
    → Provides
        (remove_cli_log_campaign_entry s c).0.log_providers_store
        (after held (cli_gone c))
        (provided_after p (cli_gone c))
unfolding remove_cli_log_campaign_entry
cli_gone-Provides s held p c (ag, wl, cli) (d, agree, only, read) =
    let requests = get_or [] (get s.cli_log_request_id_store c) in
    let start = record s { cli_log_request_id_store = remove s.cli_log_request_id_store c } in
    rw (forget_cli-providers start requests) (
      forget-Provides s.log_providers_store held p (of_cli c) _ (d, agree, only, read)
        (member-reads cli_id_eq cli_id_eq-decides cli_request_id (of_cli c) held requests
          (λ r. cli c r) (is_cli c) read))

pub collector_deleted-Provides :
    (s : LogCampaignStore) (held : Campaigns) (p : Provided) (w : String)
    → Represents s held
    → Provides s.log_providers_store held p
    → Provides
        (remove_collector_campaign_entry s w).0.log_providers_store
        (after held (collector_deleted w))
        (provided_after p (collector_deleted w))
unfolding remove_collector_campaign_entry
collector_deleted-Provides s held p w (ag, wl, cli) (d, agree, only, read) =
    let requests = get_or [] (get s.workload_name_request_id_store w) in
    let start = record s {
      workload_name_request_id_store = remove s.workload_name_request_id_store w;
    } in
    rw (forget_workload-providers start requests) (
      forget-Provides s.log_providers_store held p (of_workload w) _ (d, agree, only, read)
        (member-reads agent_id_eq agent_id_eq-decides agent_request_id (of_workload w) held requests
          (λ r. wl w r) (is_workload w) read))

gone_or_read :
    (here b : Bool) (names : List InstanceName)
    → (if here then [] else if b then [] else names) ≡ (if here || b then [] else names)
gone_or_read true b names = refl
gone_or_read false b names = refl

pub agent_gone-Provides :
    (s : LogCampaignStore) (held : Campaigns) (p : Provided) (g : String)
    → Represents s held
    → Provides s.log_providers_store held p
    → Provides
        (remove_agent_log_campaign_entry s g).0.log_providers_store
        (after held (agent_gone g))
        (provided_after p (agent_gone g))
unfolding remove_agent_log_campaign_entry
agent_gone-Provides s held p g (ag, wl, cli) (d, agree, only, read) =
    let requests = get_or [] (get s.agent_log_request_ids_store g) in
    let start = record s { agent_log_request_ids_store = remove s.agent_log_request_ids_store g } in
    let texts = agent_ids_to_string requests in
    let kept = retain_all s.log_providers_store texts in
    rw (forget_agent-providers start requests) (
      remove-IsDistinct kept g (retain_all-IsDistinct s.log_providers_store texts d),
      λ a j.
          providers_at-remove kept g a j
          ∙ ap (λ (l : List InstanceName). if g == a then [] else l)
              (forgotten s.log_providers_store held p (of_agent g) texts a j (d, agree, only, read)
                (member-reads agent_id_eq agent_id_eq-decides agent_request_id (of_agent g) held
                  requests (λ r. ag g r) (is_agent g) read))
          ∙ gone_or_read (g == a) (reads_by (of_agent g) j) (p a j),
      λ a j. still_running held p (of_agent g) (g == a) a j (only a j),
      less-AreRead held (of_agent g) read,
    )
