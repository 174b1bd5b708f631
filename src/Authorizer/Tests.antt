-- ===== src/Authorizer/Tests.antt =====
-- Small access rights, what the authorizer does with them, and the theorems at these inputs.
use mathlib.Core.Bool.{false≢true}
use Prim.Native.String.{◌++◌ as ◌<>◌}
use ankaios.Prelude.{
  String, ◌≡◌, ◌≢◌, refl, ◌↔◌, true, false, [], ◌∷◌, ◌++◌, map, some, Any, All, eq_iff, split,
  split_once, starts_with, ends_with, has_char, member, sym, ◌∙◌, starts_with-append,
}
use ankaios.Authorizer.Pattern.{
  path_from, wildcard, text, sections_from, section_from, section_matches, first_is_wildcard,
  zip_matches, match_rule_with_path, allow_from, deny_from, allow_matches, deny_matches,
}
use ankaios.Authorizer.Coverage.{
  path_of, allow_of, deny_of, allow_matches-wildcard_first, deny_matches-wildcard_mask,
}
use ankaios.Authorizer.Rules.{
  wildcard_char, first_match, state_rule_matches, rules_match, affixes_match, log_patterns_match,
  log_rule_matches,
}
use ankaios.Authorizer.LogMatching.{log_rule_of, IsBetween, log_rule_matches-stops_at_wildcard}
use ankaios.Authorizer.Service.{
  complete_state_request, update_state_request, logs_request, RequestContent, Request, mask_allowed,
  check_state_rules, any_log_rule, check_log_rules, authorize_content, authorize, rw_read,
  rw_read_write, state_rule, log_rule, ControlInterfaceAccess, push_rule, split_rules_from,
  split_rules, authorizer_from,
}
use ankaios.Authorizer.RuleSplit.{reads}
use ankaios.Authorizer.Decision.{IsGranted, authorize-read}
use ankaios.Authorizer.Below.{authorize-read_below}
use ankaios.Authorizer.LogDecision.{MatchesName, authorize-logs}

-- May read all workloads but `secret`, write the tags of `app`, and collect logs of `app*`.
abbrev access : ControlInterfaceAccess
access = record {
  allow_rules =
      state_rule rw_read ("desiredState.workloads" ∷ [])
      ∷ state_rule rw_read_write ("desiredState.workloads.app.tags" ∷ [])
      ∷ log_rule ("app*" ∷ "db" ∷ [])
      ∷ [];
  deny_rules =
      state_rule rw_read ("desiredState.workloads.secret" ∷ []) ∷ log_rule ("app-x" ∷ []) ∷ [];
}

abbrev request : RequestContent → Request
request content = record { request_id = "1"; request_content = some content }

program : Unit {0}
unfolding path_from sections_from section_from section_matches zip_matches match_rule_with_path
    allow_from deny_from allow_matches deny_matches first_match state_rule_matches rules_match
    affixes_match log_patterns_match log_rule_matches mask_allowed check_state_rules any_log_rule
    check_log_rules authorize_content authorize push_rule split_rules_from split_rules
    authorizer_from split split_once starts_with ends_with has_char member
program = tt

reads_app :
    authorize
      (authorizer_from access)
      (request (complete_state_request ("desiredState.workloads.app" ∷ [])))
    ≡ true
unfolding program
reads_app = refl

-- The request for all workloads is denied, since the secret one lies below it.
reads_all : authorize (authorizer_from access) (request (complete_state_request [])) ≡ false
unfolding program
reads_all = refl

-- The wildcard in a mask is taken for a name, so that the deny rule does not apply.
reads_any :
    authorize
      (authorizer_from access)
      (request (complete_state_request ("desiredState.workloads.*" ∷ [])))
    ≡ true
unfolding program
reads_any = refl

writes_tags :
    authorize
      (authorizer_from access)
      (request (update_state_request ("desiredState.workloads.app.tags.owner" ∷ [])))
    ≡ true
unfolding program
writes_tags = refl

-- The second pattern of the log rule is not reached.
logs_db : authorize (authorizer_from access) (request (logs_request ("db" ∷ []))) ≡ false
unfolding program
logs_db = refl

logs_app : authorize (authorizer_from access) (request (logs_request ("app1" ∷ []))) ≡ true
unfolding program
logs_app = refl

allow_matches-wildcard_first_example :
    ((allow_matches (allow_of (wildcard ∷ text "agents" ∷ [])) (path_of [])).0 ≡ true)
    × ((allow_matches (allow_of (wildcard ∷ text "agents" ∷ [])) (path_of ("desiredState" ∷ []))).0
        ≡ true)
allow_matches-wildcard_first_example =
    allow_matches-wildcard_first (text "agents" ∷ []) "desiredState"

secret_ne_star : ◌≢◌ {A = String} "secret" "*"
secret_ne_star e = false≢true ((eq_iff "secret" "*").1 e)

deny_matches-wildcard_mask_example :
    ((deny_matches
        (deny_of (map text ("workloads" ∷ []) ++ text "secret" ∷ []))
        (path_of ("workloads" ∷ "secret" ∷ []))).0
      ≡ true)
    × ((deny_matches
          (deny_of (map text ("workloads" ∷ []) ++ text "secret" ∷ []))
          (path_of ("workloads" ∷ "*" ∷ []))).0
        ≡ false)
deny_matches-wildcard_mask_example =
    deny_matches-wildcard_mask ("workloads" ∷ []) "secret" [] [] secret_ne_star

authorize-read_example :
    (authorize
        (authorizer_from access)
        (request (complete_state_request ("desiredState.workloads.app" ∷ [])))
      ≡ true)
    ↔ IsGranted reads access ("desiredState.workloads.app" ∷ [])
authorize-read_example = authorize-read access "1" ("desiredState.workloads.app" ∷ [])

app_below :
    (path_from "desiredState.workloads.app.runtime").sections
    ≡ (path_from "desiredState.workloads.app").sections ++ "runtime" ∷ []
unfolding path_from split
app_below = refl

rooted :
    All (λ f. first_is_wildcard (allow_from f).sections ≡ false) ("desiredState.workloads" ∷ [])
unfolding program
rooted = (refl, tt)

rooted_tags :
    All
      (λ f. first_is_wildcard (allow_from f).sections ≡ false)
      ("desiredState.workloads.app.tags" ∷ [])
unfolding program
rooted_tags = (refl, tt)

authorize-read_below_example :
    authorize
      (authorizer_from access)
      (request (complete_state_request ("desiredState.workloads.app.runtime" ∷ [])))
    ≡ true
authorize-read_below_example =
    authorize-read_below "desiredState.workloads.app" "desiredState.workloads.app.runtime"
      ("runtime" ∷ []) app_below access "1" (rooted, (rooted_tags, (tt, tt))) reads_app

authorize-logs_example :
    (authorize (authorizer_from access) (request (logs_request ("app1" ∷ []))) ≡ true)
    ↔ All
        (λ n. Any (MatchesName n) access.allow_rules × ¬ Any (MatchesName n) access.deny_rules)
        ("app1" ∷ [])
authorize-logs_example = authorize-logs access "1" ("app1" ∷ [])

plain_app : has_char wildcard_char "app" ≡ false
unfolding has_char
plain_app = refl

not-IsBetween : ¬ IsBetween "app" "" "db"
not-IsBetween (mid, e) = false≢true (sym starts ∙ starts_with-append "app" (mid <> ""))
  where
    starts : starts_with ("app" <> (mid <> "")) "app" ≡ false
    starts = rw (← e) (unfold starts_with in refl)

log_rule_matches-stops_at_wildcard_example :
    log_rule_matches (log_rule_of ("app*" ∷ "db" ∷ [])) "db" ≡ false
log_rule_matches-stops_at_wildcard_example =
    log_rule_matches-stops_at_wildcard "app" "*" "" plain_app refl "db" ("db" ∷ []) not-IsBetween

plain_names : All (λ p. has_char wildcard_char p ≡ false) ("app" ∷ "db" ∷ [])
unfolding has_char
plain_names = (refl, (refl, tt))
