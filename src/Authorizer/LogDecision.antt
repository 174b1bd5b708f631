-- ===== src/Authorizer/LogDecision.antt =====
-- What `Authorizer::authorize` decides for a logs request: agent/src/control_interface/authorizer.rs.
use mathlib.Core.Bool.{false≢true}
use ankaios.Prelude.{
  any-append, String, ◌≡◌, refl, sym, ap, ◌∙◌, ◌↔◌, inl, inr, Bool, true, false, not, ◌||◌, List,
  [], ◌∷◌, some, any, find, Any, All, any-Any, Any-any, arith, Bool-cases, Option-cases, find-none,
  none-find, All-both, All-map,
}
use ankaios.Authorizer.Pattern.{
  PathPattern, AllowPathPattern, DenyPathPattern, allow_pattern, deny_pattern,
}
use ankaios.Authorizer.Rules.{LogRule, log_rule_matches}
use ankaios.Authorizer.Service.{
  logs_request, any_log_rule, check_log_rules, authorize_content, authorize, rw_nothing, rw_read,
  rw_write, rw_read_write, AccessRightsRule, state_rule, log_rule, ControlInterfaceAccess,
  ReadWriteFiltered, push_rule, split_rules_from, split_rules, authorizer_from,
}

-- The access rule is a log rule that matches the workload name.
abbrev pub log_hits : String → AccessRightsRule → Bool
log_hits name (state_rule operation filters) = false
log_hits name (log_rule names) = log_rule_matches (record { patterns = names }) name

abbrev pub MatchesName : String → AccessRightsRule → Type 0
MatchesName name rule = log_hits name rule ≡ true

module _ (P : Type 0) ⦃pattern : PathPattern P⦄ (name : String) where
  push_logs :
      (res : ReadWriteFiltered P) (rule : AccessRightsRule)
      → any_log_rule (push_rule res rule).log name
        ≡ (any_log_rule res.log name || log_hits name rule)
  unfolding push_rule any_log_rule
  push_logs res (state_rule rw_nothing masks) = ground arith
  push_logs res (state_rule rw_read masks) = ground arith
  push_logs res (state_rule rw_write masks) = ground arith
  push_logs res (state_rule rw_read_write masks) = ground arith
  push_logs res (log_rule names) = rw any-append (ground arith)

  split_logs_from :
      (res : ReadWriteFiltered P) (rules : List AccessRightsRule)
      → any_log_rule (split_rules_from res rules).log name
        ≡ (any_log_rule res.log name || any (log_hits name) rules)
  unfolding split_rules_from
  split_logs_from res [] = ground arith
  split_logs_from res (rule ∷ rules) =
      split_logs_from (push_rule res rule) rules ∙ ground (arith, push_logs res rule)

  split_logs :
      (rules : List AccessRightsRule)
      → any_log_rule (split_rules {P = P} rules).log name ≡ any (log_hits name) rules
  unfolding split_rules any_log_rule
  split_logs rules = split_logs_from (record { state_read = []; state_write = []; log = [] }) rules

check_log_rules_lem :
    (allow deny : List LogRule) (names : List String)
    → (check_log_rules allow deny names ≡ true)
      ↔ All (λ n. (any_log_rule allow n ≡ true) × (any_log_rule deny n ≡ false)) names
unfolding check_log_rules
check_log_rules_lem allow deny names = (
  λ h. elim (Option-cases (find refused names)) [
    | inl e ↦ elim (Option-cases (find (any_log_rule deny) names)) [
      | inl k ↦
          All-both _ _ names
            (All-map _ _ names (λ n. not_false (any_log_rule allow n)) (find-none refused names e))
            (find-none (any_log_rule deny) names k)
      | inr (n, k) ↦ absurd (false≢true (rw (e, k, check_log_rules) at h))
    ]
    | inr (n, e) ↦ absurd (false≢true (rw (e, check_log_rules) at h))
  ],
  λ h. rw (
    none-find refused names (All-map _ _ names (λ n (a, _). ap not a) h),
    none-find (any_log_rule deny) names (All-map _ _ names (λ n (_, d). d) h),
    check_log_rules,
  ),
)
  where
    refused : String → Bool
    refused n = not (any_log_rule allow n)

    not_false : (b : Bool) → not b ≡ false → b ≡ true
    not_false true h = refl
    not_false false h = cc

-- A logs request is authorized exactly if every workload name in it is matched by an allow log rule
-- and by no deny log rule of the access rights.
pub authorize-logs :
    (access : ControlInterfaceAccess) (id : String) (names : List String)
    → (authorize
          (authorizer_from access)
          (record { request_id = id; request_content = some (logs_request names) })
        ≡ true)
      ↔ All
          (λ n. Any (MatchesName n) access.allow_rules × ¬ Any (MatchesName n) access.deny_rules)
          names
unfolding authorize authorize_content authorizer_from
authorize-logs access id names = (
  λ h.
      All-map _ _ names
        (λ n (a, d). (
          any-Any (log_hits n) (MatchesName n) access.allow_rules (λ r e. e) (sym (allow n) ∙ a),
          λ x. absurd (
              false≢true (
                sym d
                ∙ deny n
                ∙ Any-any (log_hits n) (MatchesName n) access.deny_rules (λ r e. e) x)),
        ))
        ((check_log_rules_lem _ _ names).0 h),
  λ h. (check_log_rules_lem _ _ names).1 (
      All-map _ _ names
        (λ n (a, d). (
          allow n ∙ Any-any (log_hits n) (MatchesName n) access.allow_rules (λ r e. e) a,
          deny n ∙ none_denies n d,
        ))
        h),
)
  where
    allow :
        (n : String)
        → any_log_rule (split_rules {P = AllowPathPattern} access.allow_rules).log n
          ≡ any (log_hits n) access.allow_rules
    allow n = split_logs AllowPathPattern n access.allow_rules

    deny :
        (n : String)
        → any_log_rule (split_rules {P = DenyPathPattern} access.deny_rules).log n
          ≡ any (log_hits n) access.deny_rules
    deny n = split_logs DenyPathPattern n access.deny_rules

    none_denies :
        (n : String)
        → ¬ Any (MatchesName n) access.deny_rules
        → any (log_hits n) access.deny_rules ≡ false
    none_denies n d = elim (Bool-cases (any (log_hits n) access.deny_rules)) [
      | inl e ↦ absurd (d (any-Any (log_hits n) (MatchesName n) access.deny_rules (λ r k. k) e))
      | inr e ↦ e
    ]
