-- ===== src/Server/LogCampaigns/Held.antt =====
-- Which providers the log campaign store of server/src/ankaios_server/log_campaign_store.rs keeps for each agent and
-- request, next to the set of running campaigns.
use ankaios.Prelude.{
  String, ◌==◌, Bool, true, false, ◌&&◌, ◌||◌, List, [], ◌∷◌, ◌++◌, map, any, none, some, has,
  member, any-has, has-any, and-eq-true, eq_iff, if◌then◌else◌, ◌≡◌, ◌↔◌, ◌⊎◌, refl, sym, ap, ◌∙◌,
  arith, Bool-cases, Option-cases, inl, inr,
}
use ankaios.Api.Instance.{InstanceName}
use ankaios.Server.RequestId.{
  RequestId, id_eq-decides, reads_as, of_agent, of_cli, to_string_id, request_id_from,
}
use ankaios.Server.LogCampaigns.Campaigns.{
  Campaigns, LogOperation, insert_campaign, cancel, agent_gone, cli_gone, collector_deleted,
  of_workload,
}
use ankaios.Server.LogCampaigns.Texts.{request_id-text}
use ankaios.Server.LogCampaigns.Providers.{ProviderStore, IsDistinct, providers_at, on_agent}

-- The providers for an agent's name and the text of a request.
abbrev pub Provided : Type 0
Provided = String → String → List InstanceName

abbrev pub reads_by : (RequestId → Bool) → String → Bool
reads_by p text = elim (request_id_from text) [ none ↦ false | some id ↦ p id ]

-- What an operation does with the providers.
abbrev pub provided_after : Provided → LogOperation → Provided
provided_after p (insert_campaign request_id log_providers) a text =
    p a text ++ (if request_id == text then on_agent a log_providers else [])
provided_after p (cancel request_id) a text = if request_id == text then [] else p a text
provided_after p (agent_gone agent_name) a text =
    if agent_name == a || reads_by (of_agent agent_name) text then [] else p a text
provided_after p (cli_gone connection_name) a text =
    if reads_by (of_cli connection_name) text then [] else p a text
provided_after p (collector_deleted workload_name) a text =
    if reads_by (of_workload workload_name) text then [] else p a text

abbrev pub Runs : Campaigns → String → Type 0
Runs held text = (id : RequestId) × (request_id_from text ≡ some id) × (held id ≡ true)

-- The texts of running campaigns are read as their ids.
abbrev pub AreRead : Campaigns → Type 0
AreRead held = (id : RequestId) → held id ≡ true → request_id_from (to_string_id id) ≡ some id

abbrev pub OnlyRunning : Campaigns → Provided → Type 0
OnlyRunning held p = (a text : String) → (p a text ≡ []) ⊎ Runs held text

abbrev pub HasProviders : ProviderStore → Provided → Type 0
HasProviders store p = (a text : String) → providers_at store a text ≡ p a text

-- The store has the providers, and they are providers of running campaigns.
abbrev pub Provides : ProviderStore → Campaigns → Provided → Type 0
Provides store held p = IsDistinct store × HasProviders store p × OnlyRunning held p × AreRead held

member-map :
    {A : Type 0} (f : A → String) (text : String) (xs : List A)
    → member text (map f xs) ≡ any (λ x. f x == text) xs
unfolding member
member-map f text [] = refl
member-map f text (x ∷ xs) = ground (arith, member-map f text xs)

same_some : {A : Type 0} (x y : A) → some x ≡ some y → x ≡ y
same_some x y e = cc

pub member-reads :
    {A : Type 0} (eq : A → A → Bool) (decides : (x y : A) → (eq x y ≡ true) ↔ (x ≡ y))
    (wrap : A → RequestId) (p : RequestId → Bool) (held : Campaigns) (xs : List A)
    → ((x : A) → has eq x xs ≡ (p (wrap x) && held (wrap x)))
    → ((id : RequestId) → p id ≡ true → (x : A) × (wrap x ≡ id))
    → AreRead held
    → (text : String) → Runs held text
    → member text (map (λ x. to_string_id (wrap x)) xs) ≡ reads_by p text
member-reads eq decides wrap p held xs h wraps read text (id, e, runs) =
    member-map (λ x. to_string_id (wrap x)) text xs ∙ elim (Bool-cases (p id)) [
      | inl k ↦
          let (x, same) = wraps id k in
          let at_text : to_string_id (wrap x) ≡ text =
            ap to_string_id same ∙ request_id-text text id e in
          let found : has eq x xs ≡ true = h x ∙ rw (same, k, runs) refl in
          rw (reads_by, e, k)
            (has-any eq decides (λ y. to_string_id (wrap y) == text) x xs
              ((eq_iff (to_string_id (wrap x)) text).1 at_text) found)
      | inr k ↦
          rw (reads_by, e, k)
            (elim (Bool-cases (any (λ y. to_string_id (wrap y) == text) xs)) [
              | inr f ↦ f
              | inl f ↦
                  let (x, at_text, in_xs) =
                    any-has eq decides (λ y. to_string_id (wrap y) == text) xs f in
                  let (of_p, x_runs) =
                    and-eq-true (p (wrap x)) (held (wrap x)) (sym (h x) ∙ in_xs) in
                  let same_text : to_string_id (wrap x) ≡ text =
                    (eq_iff (to_string_id (wrap x)) text).0 at_text in
                  let same : wrap x ≡ id =
                    same_some (wrap x) id
                      (sym (read (wrap x) x_runs) ∙ ap request_id_from same_text ∙ e) in
                  let yes : p id ≡ true = sym (ap p same) ∙ of_p in
                  let no : true ≡ false = sym yes ∙ k in absurd cc
            ])
    ]

pub read-Is :
    (text : String) (id : RequestId) → reads_as text id ≡ true → request_id_from text ≡ some id
read-Is text id h = elim (Option-cases (request_id_from text)) [
  | inl e ↦ let no : false ≡ true = rw (reads_as, e) at h in absurd cc
  | inr (other, e) ↦ e ∙ ap some (sym ((id_eq-decides id other).0 (rw (reads_as, e) at h)))
]
