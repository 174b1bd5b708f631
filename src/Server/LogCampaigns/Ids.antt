-- ===== src/Server/LogCampaigns/Ids.antt =====
-- What each operation of the log campaign store does with the three maps of ids.
use ankaios.Prelude.{
  String, ◌==◌, Bool, true, not, ◌&&◌, ◌||◌, List, [], ◌∷◌, any, get, get_or, remove, holds, has,
  ◌≡◌, sym, ap, ◌∙◌, arith, holds-entry, holds-remove, holds-remove_from_set, any-has, has-any,
  Bool-cases, and-eq-true, inl, inr, eq_iff, ◌↔◌,
}
use ankaios.Server.RequestId.{
  agent_id_eq, agent_id_eq-decides, cli_id_eq, cli_id_eq-decides, id_eq, CliRequestId,
  AgentRequestId, RequestId, cli_request_id, agent_request_id,
}
use ankaios.Server.LogCampaigns.{
  LogCampaignStore, insert_request_id, remove_agent_log_campaign_entry,
  remove_cli_log_campaign_entry, remove_request_id, remove_collector_campaign_entry,
}
use ankaios.Server.LogCampaigns.Campaigns.{
  Campaigns, agent_gone, cli_gone, collector_deleted, after, Represents, OneAgent,
}
use ankaios.Server.LogCampaigns.Loops.{
  forget_workload_requests-holds, forget_workload_requests-others, forget_agent_requests-holds,
  forget_agent_requests-others, forget_cli_requests-SameIds,
}

-- Equal elements stand under the same key.
keyed_eq :
    {A : Type 0} (eq : A → A → Bool)
    → ((x y : A) → (eq x y ≡ true) ↔ (x ≡ y))
    → (f : A → String) (k : String) (i r : A) → (f r == k && eq i r) ≡ (f i == k && eq i r)
keyed_eq eq decides f k i r = elim (Bool-cases (eq i r)) [
  | inl e ↦ ap (λ x. f x == k && eq i r) (sym ((decides i r).0 e))
  | inr e ↦ rw e (ground arith)
]

by_agent :
    (k : String) (i r : AgentRequestId)
    → (r.agent_name == k && agent_id_eq i r) ≡ (i.agent_name == k && agent_id_eq i r)
by_agent k i r = keyed_eq agent_id_eq agent_id_eq-decides (λ x. x.agent_name) k i r

by_workload :
    (k : String) (i r : AgentRequestId)
    → (r.workload_name == k && agent_id_eq i r) ≡ (i.workload_name == k && agent_id_eq i r)
by_workload k i r = keyed_eq agent_id_eq agent_id_eq-decides (λ x. x.workload_name) k i r

by_cli :
    (k : String) (i r : CliRequestId)
    → (r.cli_name == k && cli_id_eq i r) ≡ (i.cli_name == k && cli_id_eq i r)
by_cli k i r = keyed_eq cli_id_eq cli_id_eq-decides (λ x. x.cli_name) k i r

pub insert_request_id-Represents :
    (s : LogCampaignStore) (held : Campaigns) (id : RequestId)
    → Represents s held
    → Represents (insert_request_id s id) (λ other. held other || id_eq other id)
unfolding insert_request_id
insert_request_id-Represents s held (cli_request_id r) (a, w, c) = (
  λ k i. a k i ∙ ground arith,
  λ k i. w k i ∙ ground arith,
  λ k i.
      holds-entry cli_id_eq cli_id_eq-decides s.cli_log_request_id_store r.cli_name k i r
      ∙ ground (arith, c k i, by_cli k i r),
)
insert_request_id-Represents s held (agent_request_id r) (a, w, c) = (
  λ k i.
      holds-entry agent_id_eq agent_id_eq-decides s.agent_log_request_ids_store r.agent_name k i r
      ∙ ground (arith, a k i, by_agent k i r),
  λ k i.
      holds-entry agent_id_eq agent_id_eq-decides s.workload_name_request_id_store r.workload_name k
        i r
      ∙ ground (arith, w k i, by_workload k i r),
  λ k i. c k i ∙ ground arith,
)

pub remove_request_id-Represents :
    (s : LogCampaignStore) (held : Campaigns) (id : RequestId)
    → Represents s held
    → Represents (remove_request_id s id) (λ other. held other && not (id_eq other id))
unfolding remove_request_id
remove_request_id-Represents s held (cli_request_id r) (a, w, c) = (
  λ k i. a k i ∙ ground arith,
  λ k i. w k i ∙ ground arith,
  λ k i.
      holds-remove_from_set cli_id_eq cli_id_eq-decides s.cli_log_request_id_store r.cli_name k i r
      ∙ ground (arith, c k i, by_cli k i r),
)
remove_request_id-Represents s held (agent_request_id r) (a, w, c) = (
  λ k i.
      holds-remove_from_set agent_id_eq agent_id_eq-decides s.agent_log_request_ids_store
        r.agent_name k i r
      ∙ ground (arith, a k i, by_agent k i r),
  λ k i.
      holds-remove_from_set agent_id_eq agent_id_eq-decides s.workload_name_request_id_store
        r.workload_name k i r
      ∙ ground (arith, w k i, by_workload k i r),
  λ k i. c k i ∙ ground arith,
)

any_by_agent :
    (k : String) (i : AgentRequestId) (requests : List AgentRequestId)
    → any (λ r. r.agent_name == k && agent_id_eq i r) requests
      ≡ (i.agent_name == k && has agent_id_eq i requests)
any_by_agent k i [] = ground arith
any_by_agent k i (r ∷ requests) = ground (arith, by_agent k i r, any_by_agent k i requests)

-- Whether the agent that is gone has a campaign of a workload that has one.
any_by_workload :
    (held : Campaigns) (a k : String) (i : AgentRequestId) (requests : List AgentRequestId)
    → ((j : AgentRequestId)
        → has agent_id_eq j requests ≡ (j.agent_name == a && held (agent_request_id j)))
    → OneAgent held
    → i.workload_name == k ≡ true
    → held (agent_request_id i) ≡ true
    → any (λ r. r.workload_name == k) requests ≡ (i.agent_name == a)
any_by_workload held a k i requests h one at_k runs = elim (Bool-cases (i.agent_name == a)) [
  | inl e ↦ rw e (
      has-any agent_id_eq agent_id_eq-decides (λ r. r.workload_name == k) i requests at_k
        (ground (arith, h i, e, runs)))
  | inr e ↦ rw e (elim (Bool-cases (any (λ (r : AgentRequestId). r.workload_name == k) requests)) [
    | inr f ↦ f
    | inl f ↦
        let (r, r_at_k, g) =
          any-has agent_id_eq agent_id_eq-decides (λ (r : AgentRequestId). r.workload_name == k)
            requests f in
        let (of_a, r_runs) =
          and-eq-true (r.agent_name == a) (held (agent_request_id r)) (sym (h r) ∙ g) in
        let same =
          one i r runs r_runs
            ((eq_iff i.workload_name k).0 at_k ∙ sym ((eq_iff r.workload_name k).0 r_at_k)) in
        cc (e, of_a, ap (λ (n : String). n == a) same)
  ])
]

forgotten_workloads :
    (s : LogCampaignStore) (held : Campaigns) (a k : String) (i : AgentRequestId)
    → Represents s held
    → OneAgent held
    → (holds agent_id_eq s.workload_name_request_id_store k i
        && not (any (λ r. r.workload_name == k) (get_or [] (get s.agent_log_request_ids_store a))))
      ≡ (i.workload_name == k && (held (agent_request_id i) && not (i.agent_name == a)))
forgotten_workloads s held a k i (ag, wl, cli) one = elim (Bool-cases (i.workload_name == k)) [
  | inr e ↦ ground (arith, wl k i, e)
  | inl e ↦ elim (Bool-cases (held (agent_request_id i))) [
    | inr f ↦ ground (arith, wl k i, e, f)
    | inl f ↦ ground (
      arith,
      wl k i,
      e,
      f,
      any_by_workload held a k i (get_or [] (get s.agent_log_request_ids_store a)) (ag a) one e f,
    )
  ]
]

pub agent_gone-Represents :
    (s : LogCampaignStore) (held : Campaigns) (a : String)
    → Represents s held
    → OneAgent held
    → Represents (remove_agent_log_campaign_entry s a).0 (after held (agent_gone a))
unfolding remove_agent_log_campaign_entry
agent_gone-Represents s held a (ag, wl, cli) one =
    let start = record s { agent_log_request_ids_store = remove s.agent_log_request_ids_store a } in
    let requests = get_or [] (get s.agent_log_request_ids_store a) in
    let (e1, e2) = forget_agent_requests-others start requests in
    (
      (λ k i.
          ap (λ m. holds agent_id_eq m k i) e1
          ∙ holds-remove agent_id_eq agent_id_eq-decides s.agent_log_request_ids_store a k i
          ∙ ground (arith, ag k i, eq_iff a k, eq_iff i.agent_name k, eq_iff i.agent_name a)),
      (λ k i.
          forget_agent_requests-holds start requests k i
          ∙ forgotten_workloads s held a k i (ag, wl, cli) one),
      (λ k i. ap (λ m. holds cli_id_eq m k i) e2 ∙ cli k i ∙ ground arith),
    )

pub cli_gone-Represents :
    (s : LogCampaignStore) (held : Campaigns) (c : String)
    → Represents s held
    → Represents (remove_cli_log_campaign_entry s c).0 (after held (cli_gone c))
unfolding remove_cli_log_campaign_entry
cli_gone-Represents s held c (ag, wl, cli) =
    let start = record s { cli_log_request_id_store = remove s.cli_log_request_id_store c } in
    let (e1, e2, e3) =
      forget_cli_requests-SameIds start (get_or [] (get s.cli_log_request_id_store c)) in
    (
      (λ k i. ap (λ m. holds agent_id_eq m k i) e1 ∙ ag k i ∙ ground arith),
      (λ k i. ap (λ m. holds agent_id_eq m k i) e2 ∙ wl k i ∙ ground arith),
      (λ k i.
          ap (λ m. holds cli_id_eq m k i) e3
          ∙ holds-remove cli_id_eq cli_id_eq-decides s.cli_log_request_id_store c k i
          ∙ ground (arith, cli k i, eq_iff c k, eq_iff i.cli_name k, eq_iff i.cli_name c)),
    )

pub collector_deleted-Represents :
    (s : LogCampaignStore) (held : Campaigns) (w : String)
    → Represents s held
    → Represents (remove_collector_campaign_entry s w).0 (after held (collector_deleted w))
unfolding remove_collector_campaign_entry
collector_deleted-Represents s held w (ag, wl, cli) =
    let start = record s {
      workload_name_request_id_store = remove s.workload_name_request_id_store w;
    } in
    let requests = get_or [] (get s.workload_name_request_id_store w) in
    let (e1, e2) = forget_workload_requests-others start requests in
    (
      (λ k i.
          forget_workload_requests-holds start requests k i
          ∙ ground (arith, ag k i, wl w i, any_by_agent k i requests)),
      (λ k i.
          ap (λ m. holds agent_id_eq m k i) e1
          ∙ holds-remove agent_id_eq agent_id_eq-decides s.workload_name_request_id_store w k i
          ∙ ground (arith, wl k i, eq_iff w k, eq_iff i.workload_name k, eq_iff i.workload_name w)),
      (λ k i. ap (λ m. holds cli_id_eq m k i) e2 ∙ cli k i ∙ ground arith),
    )

pub Represents-same :
    (s : LogCampaignStore) (held other : Campaigns)
    → ((id : RequestId) → held id ≡ other id)
    → Represents s held
    → Represents s other
Represents-same s held other e (ag, wl, cli) = (
  (λ k i. ag k i ∙ ap (λ b. i.agent_name == k && b) (e (agent_request_id i))),
  (λ k i. wl k i ∙ ap (λ b. i.workload_name == k && b) (e (agent_request_id i))),
  (λ k i. cli k i ∙ ap (λ b. i.cli_name == k && b) (e (cli_request_id i))),
)
