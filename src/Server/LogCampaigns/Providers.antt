-- ===== src/Server/LogCampaigns/Providers.antt =====
-- The providers that the log campaign store of server/src/ankaios_server/log_campaign_store.rs holds for an agent
-- and the text of a request.
use mathlib.Core.List.{append_assoc, append-nil}
use ankaios.Prelude.{
  String, ◌==◌, Bool, true, false, List, [], ◌∷◌, ◌++◌, keep, Option, none, some, Map, get, insert,
  remove, get_or, entry, is_empty, get-insert, get-remove, get-is_empty, member, eq_iff,
  if◌then◌else◌, ◌≡◌, refl, sym, ap, ◌∙◌, arith, Bool-cases, Option-cases, inl, inr,
}
use ankaios.Api.Instance.{InstanceName}
use ankaios.Server.RequestId.{
  AgentRequestId, CliRequestId, agent_request_id, cli_request_id, to_string_id,
}
use ankaios.Server.LogCampaigns.{
  LogCampaignStore, retain_other_requests, insert_log_providers, agent_ids_to_string,
  cli_ids_to_string, remove_request_from_log_providers_store,
  remove_request_from_agent_log_campaign_store, forget_agent_requests, forget_cli_requests,
  forget_workload_requests,
}

abbrev pub ProviderStore : Type 0
ProviderStore = Map (Map (List InstanceName))

abbrev pub providers_at : ProviderStore → String → String → List InstanceName
providers_at store agent_name text = get_or [] (get (get_or [] (get store agent_name)) text)

-- No agent has two entries.
abbrev pub IsDistinct : ProviderStore → Type 0
IsDistinct [] = Unit
IsDistinct ((agent_name, m) ∷ store) = (get store agent_name ≡ none) × IsDistinct store

abbrev pub on_agent : String → List InstanceName → List InstanceName
on_agent agent_name names = keep (λ i. i.agent_name == agent_name) names

insert-IsDistinct :
    (store : ProviderStore) (a : String) (m : Map (List InstanceName))
    → IsDistinct store
    → IsDistinct (insert store a m)
unfolding insert get
insert-IsDistinct [] a m h = (refl, tt)
insert-IsDistinct ((b, n) ∷ store) a m (h, hs) = elim (Bool-cases (b == a)) [
  | inl e ↦ rw e (ap (get store) (sym ((eq_iff b a).0 e)) ∙ h, hs)
  | inr e ↦
      let other : (a == b) ≡ false = ground (arith, e, eq_iff a b, eq_iff b a) in
      rw e (rw (get-insert store a b m, other) h, insert-IsDistinct store a m hs)
]

pub remove-IsDistinct :
    (store : ProviderStore) (a : String) → IsDistinct store → IsDistinct (remove store a)
unfolding remove
remove-IsDistinct [] a h = tt
remove-IsDistinct ((b, n) ∷ store) a (h, hs) = elim (Bool-cases (b == a)) [
  | inl e ↦ rw e (remove-IsDistinct store a hs)
  | inr e ↦
      let other : (a == b) ≡ false = ground (arith, e, eq_iff a b, eq_iff b a) in
      rw e (rw (get-remove store a b, other) h, remove-IsDistinct store a hs)
]

-- What the two `retain` calls leave of the map of one agent.
abbrev retained : Map (List InstanceName) → String → Option (Map (List InstanceName))
retained m text = if is_empty (remove m text) then none else some (remove m text)

abbrev retained_in : Option (Map (List InstanceName)) → String → Option (Map (List InstanceName))
retained_in none text = none
retained_in (some m) text = retained m text

get-retain :
    (store : ProviderStore) (text a : String)
    → IsDistinct store
    → get (retain_other_requests store text) a ≡ retained_in (get store a) text
unfolding get retain_other_requests
get-retain [] text a h = refl
get-retain ((b, m) ∷ store) text a (h, hs) = elim (Bool-cases (b == a)) [
  | inl e ↦
      let gone : get store a ≡ none = ap (get store) (sym ((eq_iff b a).0 e)) ∙ h in
      elim (Bool-cases (is_empty (remove m text))) [
        | inl f ↦ rw (e, f, get-retain store text a hs, gone) refl
        | inr f ↦ rw (e, f, e) refl
      ]
  | inr e ↦ elim (Bool-cases (is_empty (remove m text))) [
    | inl f ↦ rw (e, f) (get-retain store text a hs)
    | inr f ↦ rw (e, f, e) (get-retain store text a hs)
  ]
]

pub retain-IsDistinct :
    (store : ProviderStore) (text : String)
    → IsDistinct store
    → IsDistinct (retain_other_requests store text)
unfolding retain_other_requests
retain-IsDistinct [] text h = tt
retain-IsDistinct ((b, m) ∷ store) text (h, hs) = elim (Bool-cases (is_empty (remove m text))) [
  | inl f ↦ rw f (retain-IsDistinct store text hs)
  | inr f ↦ rw f (rw (get-retain store text b hs, h) refl, retain-IsDistinct store text hs)
]

pub providers_at-retain :
    (store : ProviderStore) (text a j : String)
    → IsDistinct store
    → providers_at (retain_other_requests store text) a j
      ≡ (if text == j then [] else providers_at store a j)
unfolding get
providers_at-retain store text a j h = elim (Option-cases (get store a)) [
  | inl e ↦ rw (get-retain store text a h, e) (ground arith)
  | inr (m, e) ↦ elim (Bool-cases (is_empty (remove m text))) [
    | inl f ↦
        let nothing = get-is_empty (remove m text) j f in
        rw (get-retain store text a h, e, f) (ground (arith, nothing, get-remove m text j))
    | inr f ↦ rw (get-retain store text a h, e, f) (ground (arith, get-remove m text j))
  ]
]

pub providers_at-remove :
    (store : ProviderStore) (b a j : String)
    → providers_at (remove store b) a j ≡ (if b == a then [] else providers_at store a j)
unfolding get
providers_at-remove store b a j =
    rw (get-remove store b a) (elim (Bool-cases (b == a)) [ inl e ↦ rw e refl | inr e ↦ rw e refl ])

no_more : (b : Bool) (names : List InstanceName) → names ≡ names ++ (if b then [] else [])
no_more true names = sym (append-nil names)
no_more false names = sym (append-nil names)

more_for_text :
    (m : Map (List InstanceName)) (text j : String) (i : InstanceName)
    → get_or [] (get (entry m text [] (λ names. names ++ i ∷ [])) j)
      ≡ get_or [] (get m j) ++ (if text == j then i ∷ [] else [])
more_for_text m text j i =
    rw (get-insert m text j (get_or [] (get m text) ++ i ∷ [])) (elim (Bool-cases (text == j)) [
      | inl e ↦ rw (e, (eq_iff text j).0 e) refl
      | inr e ↦ rw e (sym (append-nil (get_or [] (get m j))))
    ])

abbrev with_provider : ProviderStore → String → InstanceName → ProviderStore
with_provider store text i =
    entry store i.agent_name [] (λ m. entry m text [] (λ names. names ++ i ∷ []))

insert_one :
    (store : ProviderStore) (text a j : String) (i : InstanceName)
    → providers_at (with_provider store text i) a j
      ≡ providers_at store a j ++ (if text == j then on_agent a (i ∷ []) else [])
insert_one store text a j i =
    rw
      (get-insert store i.agent_name a
        (entry (get_or [] (get store i.agent_name)) text [] (λ names. names ++ i ∷ [])))
      (elim (Bool-cases (i.agent_name == a)) [
        | inl e ↦
            rw (e, ap (get store) ((eq_iff i.agent_name a).0 e))
              (more_for_text (get_or [] (get store a)) text j i)
        | inr e ↦ rw e (no_more (text == j) (providers_at store a j))
      ])

join :
    (b here : Bool) (names rest : List InstanceName) (i : InstanceName)
    → (names ++ (if b then (if here then i ∷ [] else []) else [])) ++ (if b then rest else [])
      ≡ names ++ (if b then (if here then i ∷ rest else rest) else [])
join true true names rest i = append_assoc names (i ∷ []) rest
join true false names rest i = append_assoc names [] rest
join false here names rest i = append_assoc names [] []

pub insert_log_providers-IsDistinct :
    (store : ProviderStore) (text : String) (names : List InstanceName)
    → IsDistinct store
    → IsDistinct (insert_log_providers store text names)
unfolding insert_log_providers
insert_log_providers-IsDistinct store text [] h = h
insert_log_providers-IsDistinct store text (i ∷ names) h =
    insert_log_providers-IsDistinct (with_provider store text i) text names
      (insert-IsDistinct store i.agent_name _ h)

pub providers_at-insert :
    (store : ProviderStore) (text a j : String) (names : List InstanceName)
    → providers_at (insert_log_providers store text names) a j
      ≡ providers_at store a j ++ (if text == j then on_agent a names else [])
unfolding insert_log_providers
providers_at-insert store text a j [] = no_more (text == j) (providers_at store a j)
providers_at-insert store text a j (i ∷ names) =
    providers_at-insert (with_provider store text i) text a j names
    ∙ ap (λ l. l ++ (if text == j then on_agent a names else [])) (insert_one store text a j i)
    ∙ join (text == j) (i.agent_name == a) (providers_at store a j) (on_agent a names) i

-- The loops over the texts of removed requests.
abbrev pub retain_all : ProviderStore → List String → ProviderStore
retain_all store [] = store
retain_all store (text ∷ texts) = retain_all (retain_other_requests store text) texts

pub retain_all-IsDistinct :
    (store : ProviderStore) (texts : List String)
    → IsDistinct store
    → IsDistinct (retain_all store texts)
retain_all-IsDistinct store [] h = h
retain_all-IsDistinct store (text ∷ texts) h =
    retain_all-IsDistinct (retain_other_requests store text) texts (retain-IsDistinct store text h)

pub providers_at-retain_all :
    (store : ProviderStore) (texts : List String) (a j : String)
    → IsDistinct store
    → providers_at (retain_all store texts) a j
      ≡ (if member j texts then [] else providers_at store a j)
unfolding member
providers_at-retain_all store [] a j h = refl
providers_at-retain_all store (text ∷ texts) a j h =
    providers_at-retain_all (retain_other_requests store text) texts a j
      (retain-IsDistinct store text h)
    ∙ (elim (Bool-cases (text == j)) [
      | inl e ↦
          rw (e, providers_at-retain store text a j h, e)
            (elim (Bool-cases (member j texts)) [ inl f ↦ rw f refl | inr f ↦ rw f refl ])
      | inr e ↦ rw (e, providers_at-retain store text a j h, e) refl
    ])

pub forget_agent-providers :
    (s : LogCampaignStore) (requests : List AgentRequestId)
    → (forget_agent_requests s requests).log_providers_store
      ≡ retain_all s.log_providers_store (agent_ids_to_string requests)
unfolding forget_agent_requests
forget_agent-providers s [] = refl
forget_agent-providers s (r ∷ requests) =
    forget_agent-providers
      (remove_request_from_log_providers_store
        (record s {
          workload_name_request_id_store = remove s.workload_name_request_id_store r.workload_name;
        })
        (to_string_id (agent_request_id r)))
      requests

pub forget_cli-providers :
    (s : LogCampaignStore) (requests : List CliRequestId)
    → (forget_cli_requests s requests).log_providers_store
      ≡ retain_all s.log_providers_store (cli_ids_to_string requests)
unfolding forget_cli_requests
forget_cli-providers s [] = refl
forget_cli-providers s (r ∷ requests) =
    forget_cli-providers
      (remove_request_from_log_providers_store s (to_string_id (cli_request_id r))) requests

pub forget_workload-providers :
    (s : LogCampaignStore) (requests : List AgentRequestId)
    → (forget_workload_requests s requests).log_providers_store
      ≡ retain_all s.log_providers_store (agent_ids_to_string requests)
unfolding forget_workload_requests
forget_workload-providers s [] = refl
forget_workload-providers s (r ∷ requests) =
    forget_workload-providers
      (remove_request_from_log_providers_store (remove_request_from_agent_log_campaign_store s r)
        (to_string_id (agent_request_id r)))
      requests
