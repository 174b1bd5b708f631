-- ===== src/Authorizer/Decision.antt =====
-- What `Authorizer::authorize` decides for an authorizer made of a workload's access rights:
-- agent/src/control_interface/authorizer.rs.
use mathlib.Core.Bool.{false≢true}
use ankaios.Prelude.{
  String, ◌≡◌, sym, ◌∙◌, ◌↔◌, inl, inr, Bool, true, List, some, any, Any, All, any-Any, Any-any,
  all-All, All-all, arith, Bool-cases, and-eq-true,
}
use ankaios.Authorizer.Pattern.{
  path_from, AllowPathPattern, DenyPathPattern, allow_from, deny_from, allow_matches, deny_matches,
  allow_pattern, deny_pattern,
}
use ankaios.Authorizer.Rules.{StateRule, rules_match}
use ankaios.Authorizer.RuleSplit.{reads, writes, rule_hits, hit, split_reads, split_writes}
use ankaios.Authorizer.Service.{
  complete_state_request, update_state_request, mask_allowed, request_mask, check_state_rules,
  authorize_content, authorize, ReadWriteEnum, AccessRightsRule, state_rule, log_rule,
  ControlInterfaceAccess, split_rules, authorizer_from,
}

-- Some access rule holds a filter mask that matches the requested mask.
abbrev pub Allows : (ReadWriteEnum → Bool) → String → AccessRightsRule → Type 0
Allows want mask (state_rule operation filters) =
    (want operation ≡ true)
    × Any (λ f. (allow_matches (allow_from f) (path_from mask)).0 ≡ true) filters
Allows want mask (log_rule names) = ⊥

abbrev pub Denies : (ReadWriteEnum → Bool) → String → AccessRightsRule → Type 0
Denies want mask (state_rule operation filters) =
    (want operation ≡ true)
    × Any (λ f. (deny_matches (deny_from f) (path_from mask)).0 ≡ true) filters
Denies want mask (log_rule names) = ⊥

-- Every requested mask is allowed by some rule and denied by none; an empty request asks for all.
abbrev pub IsGranted : (ReadWriteEnum → Bool) → ControlInterfaceAccess → List String → Type 0
IsGranted want access masks =
    All (λ m. Any (Allows want m) access.allow_rules × ¬ Any (Denies want m) access.deny_rules)
      (request_mask masks)

module _ (want : ReadWriteEnum → Bool) (mask : String) where
  allows→ :
      (r : AccessRightsRule)
      → rule_hits want (hit AllowPathPattern (path_from mask)) r ≡ true
      → Allows want mask r
  allows→ (state_rule op fs) h =
      let (w, a) = and-eq-true (want op) (any (hit AllowPathPattern (path_from mask)) fs) h in
      (w, any-Any _ _ fs (λ f e. e) a)
  allows→ (log_rule ns) h = absurd (false≢true h)

  allows← :
      (r : AccessRightsRule)
      → Allows want mask r
      → rule_hits want (hit AllowPathPattern (path_from mask)) r ≡ true
  allows← (state_rule op fs) (w, a) = rw w (Any-any _ _ fs (λ f e. e) a)
  allows← (log_rule ns) h = absurd h

  denies→ :
      (r : AccessRightsRule)
      → rule_hits want (hit DenyPathPattern (path_from mask)) r ≡ true
      → Denies want mask r
  denies→ (state_rule op fs) h =
      let (w, a) = and-eq-true (want op) (any (hit DenyPathPattern (path_from mask)) fs) h in
      (w, any-Any _ _ fs (λ f e. e) a)
  denies→ (log_rule ns) h = absurd (false≢true h)

  denies← :
      (r : AccessRightsRule)
      → Denies want mask r
      → rule_hits want (hit DenyPathPattern (path_from mask)) r ≡ true
  denies← (state_rule op fs) (w, a) = rw w (Any-any _ _ fs (λ f e. e) a)
  denies← (log_rule ns) h = absurd h

  mask_iff :
      (allow : List (StateRule AllowPathPattern)) (deny : List (StateRule DenyPathPattern))
      (allow_rules deny_rules : List AccessRightsRule)
      → (rules_match allow (path_from mask)).0
        ≡ any (rule_hits want (hit AllowPathPattern (path_from mask))) allow_rules
      → (rules_match deny (path_from mask)).0
        ≡ any (rule_hits want (hit DenyPathPattern (path_from mask))) deny_rules
      → (mask_allowed allow deny mask ≡ true)
        ↔ (Any (Allows want mask) allow_rules × ¬ Any (Denies want mask) deny_rules)
  unfolding mask_allowed
  mask_iff allow deny allow_rules deny_rules ea ed = (
    λ h. (
      any-Any _ _ allow_rules allows→ (sym ea ∙ ground arith),
      λ d. absurd (false≢true (ground (arith, Any-any _ _ deny_rules denies← d))),
    ),
    λ (a, nd).
        elim (Bool-cases (any (rule_hits want (hit DenyPathPattern (path_from mask))) deny_rules)) [
          | inl e ↦ absurd (nd (any-Any _ _ deny_rules denies→ e))
          | inr e ↦ ground (arith, ea, ed, Any-any _ _ allow_rules allows← a)
        ],
  )

-- A read request is authorized exactly if each mask is allowed by a read rule and denied by none.
pub authorize-read :
    (access : ControlInterfaceAccess) (id : String) (masks : List String)
    → (authorize
          (authorizer_from access)
          (record { request_id = id; request_content = some (complete_state_request masks) })
        ≡ true)
      ↔ IsGranted reads access masks
unfolding authorize authorize_content check_state_rules authorizer_from
authorize-read access id masks = (
  all-All _ _ (request_mask masks) (λ m e. (granted m).0 e),
  All-all _ _ (request_mask masks) (λ m e. (granted m).1 e),
)
  where
    granted :
        (m : String)
        → (mask_allowed
              (split_rules access.allow_rules).state_read
              (split_rules access.deny_rules).state_read
              m
            ≡ true)
          ↔ (Any (Allows reads m) access.allow_rules × ¬ Any (Denies reads m) access.deny_rules)
    granted m =
        mask_iff reads m _ _ access.allow_rules access.deny_rules
          (split_reads AllowPathPattern (path_from m) access.allow_rules)
          (split_reads DenyPathPattern (path_from m) access.deny_rules)

-- An update request is authorized exactly if each mask is allowed by a write rule and denied by none.
authorize-write :
    (access : ControlInterfaceAccess) (id : String) (masks : List String)
    → (authorize
          (authorizer_from access)
          (record { request_id = id; request_content = some (update_state_request masks) })
        ≡ true)
      ↔ IsGranted writes access masks
unfolding authorize authorize_content check_state_rules authorizer_from
authorize-write access id masks = (
  all-All _ _ (request_mask masks) (λ m e. (granted m).0 e),
  All-all _ _ (request_mask masks) (λ m e. (granted m).1 e),
)
  where
    granted :
        (m : String)
        → (mask_allowed
              (split_rules access.allow_rules).state_write
              (split_rules access.deny_rules).state_write
              m
            ≡ true)
          ↔ (Any (Allows writes m) access.allow_rules × ¬ Any (Denies writes m) access.deny_rules)
    granted m =
        mask_iff writes m _ _ access.allow_rules access.deny_rules
          (split_writes AllowPathPattern (path_from m) access.allow_rules)
          (split_writes DenyPathPattern (path_from m) access.deny_rules)
