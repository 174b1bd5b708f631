-- ===== src/Authorizer/Below.antt =====
-- What a granted mask implies for the fields below it: agent/src/control_interface/authorizer.rs.
use mathlib.Core.List.{append_assoc}
use ankaios.Prelude.{
  String, ◌≡◌, refl, ap, inl, inr, true, false, List, [], ◌∷◌, ◌++◌, some, Any, All, arith,
}
use ankaios.Authorizer.Pattern.{
  path_from, PathPatternSection, zip_matches, match_rule_with_path, first_is_wildcard, allow_from,
  deny_from, allow_matches, deny_matches,
}
use ankaios.Authorizer.PatternMatching.{IsAbove}
use ankaios.Authorizer.Coverage.{path_of, allow_of, deny_of, allow_matches_lem}
use ankaios.Authorizer.Service.{
  complete_state_request, authorize, AccessRightsRule, state_rule, log_rule, ControlInterfaceAccess,
  authorizer_from,
}
use ankaios.Authorizer.RuleSplit.{reads}
use ankaios.Authorizer.Decision.{Allows, Denies, authorize-read}

-- No filter mask of the rule begins with the wildcard.
abbrev pub IsRooted : AccessRightsRule → Type 0
IsRooted (state_rule operation filters) =
    All (λ f. first_is_wildcard (allow_from f).sections ≡ false) filters
IsRooted (log_rule names) = Unit

zip_prefix :
    (pattern : List PathPatternSection) (path more : List String)
    → zip_matches pattern (path ++ more) ≡ true
    → zip_matches pattern path ≡ true
unfolding zip_matches
zip_prefix [] path more h = refl
zip_prefix (a ∷ pattern) [] more h = refl
zip_prefix (a ∷ pattern) (b ∷ path) more h = ground (arith, zip_prefix pattern path more)

deny_prefix :
    (pattern : List PathPatternSection) (path more : List String)
    → (deny_matches (deny_of pattern) (path_of (path ++ more))).0 ≡ true
    → (deny_matches (deny_of pattern) (path_of path)).0 ≡ true
unfolding deny_matches match_rule_with_path
deny_prefix [] path more h = h
deny_prefix (a ∷ pattern) path more h = ground (arith, zip_prefix (a ∷ pattern) path more)

IsAbove-append :
    (pattern : List PathPatternSection) (path more : List String)
    → IsAbove pattern path
    → IsAbove pattern (path ++ more)
IsAbove-append pattern path more u = record {
  head = u.head;
  rest = u.rest ++ more;
  split = rw (← append_assoc) (ap (λ (l : List String). l ++ more) u.split);
  fits = u.fits;
}

allow_append :
    (pattern : List PathPatternSection) (path more : List String)
    → first_is_wildcard pattern ≡ false
    → (allow_matches (allow_of pattern) (path_of path)).0 ≡ true
    → (allow_matches (allow_of pattern) (path_of (path ++ more))).0 ≡ true
allow_append pattern path more w h =
    let (ne, above) = (allow_matches_lem pattern path w).0 h in
    (allow_matches_lem pattern (path ++ more) w).1 (ne, IsAbove-append pattern path more above)

module _ (mask field : String) (more : List String)
    (below : (path_from field).sections ≡ (path_from mask).sections ++ more) where
  paths : path_from field ≡ path_of ((path_from mask).sections ++ more)
  paths = ap path_of below

  filters_below :
      (filters : List String)
      → All (λ f. first_is_wildcard (allow_from f).sections ≡ false) filters
      → Any (λ f. (allow_matches (allow_from f) (path_from mask)).0 ≡ true) filters
      → Any (λ f. (allow_matches (allow_from f) (path_from field)).0 ≡ true) filters
  filters_below [] r h = h
  filters_below (f ∷ filters) r (inl h) =
      inl (rw paths (allow_append (allow_from f).sections (path_from mask).sections more r.0 h))
  filters_below (f ∷ filters) r (inr h) = inr (filters_below filters r.1 h)

  Allows-below :
      (rules : List AccessRightsRule)
      → All IsRooted rules
      → Any (Allows reads mask) rules
      → Any (Allows reads field) rules
  Allows-below [] r h = h
  Allows-below (state_rule op filters ∷ rules) r (inl (w, h)) = inl (w, filters_below filters r.0 h)
  Allows-below (log_rule names ∷ rules) r (inl h) = absurd h
  Allows-below (state_rule op filters ∷ rules) r (inr h) = inr (Allows-below rules r.1 h)
  Allows-below (log_rule names ∷ rules) r (inr h) = inr (Allows-below rules r.1 h)

  filters_above :
      (filters : List String)
      → Any (λ f. (deny_matches (deny_from f) (path_from field)).0 ≡ true) filters
      → Any (λ f. (deny_matches (deny_from f) (path_from mask)).0 ≡ true) filters
  filters_above [] h = h
  filters_above (f ∷ filters) (inl h) =
      inl (deny_prefix (deny_from f).sections (path_from mask).sections more (rw paths at h))
  filters_above (f ∷ filters) (inr h) = inr (filters_above filters h)

  Denies-above :
      (rules : List AccessRightsRule)
      → Any (Denies reads field) rules
      → Any (Denies reads mask) rules
  Denies-above [] h = h
  Denies-above (state_rule op filters ∷ rules) (inl (w, h)) = inl (w, filters_above filters h)
  Denies-above (log_rule names ∷ rules) (inl h) = absurd h
  Denies-above (r ∷ rules) (inr h) = inr (Denies-above rules h)

  -- A workload that may read a mask may read each field below it, where the masks of its allow rules
  -- do not begin with the wildcard. Both texts are taken section by section.
  pub authorize-read_below :
      (access : ControlInterfaceAccess) (id : String)
      → All IsRooted access.allow_rules
      → authorize
          (authorizer_from access)
          (record { request_id = id; request_content = some (complete_state_request (mask ∷ [])) })
        ≡ true
      → authorize
          (authorizer_from access)
          (record { request_id = id; request_content = some (complete_state_request (field ∷ [])) })
        ≡ true
  authorize-read_below access id rooted h =
      let (allowed, free) = ((authorize-read access id (mask ∷ [])).0 h).0 in
      (authorize-read access id (field ∷ [])).1 (
        (
          Allows-below access.allow_rules rooted allowed,
          λ d. free (Denies-above access.deny_rules d),
        ),
        tt,
      )
