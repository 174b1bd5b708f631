-- ===== src/Authorizer/RuleSplit.antt =====
-- `split_rules` of agent/src/control_interface/authorizer.rs hands each operation its own rules.
use ankaios.Prelude.{
  any-append, String, ◌≡◌, refl, ◌∙◌, Bool, true, false, ◌&&◌, ◌||◌, List, [], ◌∷◌, ◌++◌, map, any,
  arith,
}
use ankaios.Authorizer.Pattern.{MaskPath, PathPattern, allow_pattern, deny_pattern, MatchResult}
use ankaios.Authorizer.Rules.{StateRule, first_match, state_rule_matches, rules_match}
use ankaios.Authorizer.Service.{
  ReadWriteEnum, rw_nothing, rw_read, rw_write, rw_read_write, AccessRightsRule, state_rule,
  log_rule, ReadWriteFiltered, push_rule, split_rules_from, split_rules,
}

abbrev pub reads : ReadWriteEnum → Bool
reads rw_read = true
reads rw_read_write = true
reads _ = false

abbrev pub writes : ReadWriteEnum → Bool
writes rw_write = true
writes rw_read_write = true
writes _ = false

any-map :
    {A B : Type 0} (p : B → Bool) (f : A → B) (xs : List A)
    → any p (map f xs) ≡ any (λ x. p (f x)) xs
any-map p f [] = refl
any-map p f (x ∷ xs) = ground (arith, any-map p f xs)

first_match-any :
    {A : Type 0} (test : A → MaskPath → MatchResult) (rules : List A) (path : MaskPath)
    → (first_match test rules path).0 ≡ any (λ r. (test r path).0) rules
unfolding first_match
first_match-any test [] path = refl
first_match-any test (r ∷ rules) path = ground (arith, first_match-any test rules path)

-- One access rule holds a mask with `hit`, for an operation that `want` selects.
abbrev pub rule_hits : (ReadWriteEnum → Bool) → (String → Bool) → AccessRightsRule → Bool
rule_hits want hit (state_rule operation masks) = want operation && any hit masks
rule_hits want hit (log_rule names) = false

module _ (P : Type 0) ⦃pattern : PathPattern P⦄ (path : MaskPath) where
  abbrev pub hit : String → Bool
  hit mask = (pattern.matches (pattern.from mask) path).0

  one_rule :
      (masks : List String)
      → (state_rule_matches {P = P} (record { patterns = map pattern.from masks }) path).0
        ≡ any hit masks
  unfolding state_rule_matches
  one_rule masks =
      first_match-any pattern.matches (map pattern.from masks) path
      ∙ any-map (λ p. (pattern.matches p path).0) pattern.from masks

  pushed_hits :
      (masks : List String) (rules : List (StateRule P))
      → (rules_match (rules ++ record { patterns = map pattern.from masks } ∷ []) path).0
        ≡ ((rules_match rules path).0 || any hit masks)
  unfolding rules_match
  pushed_hits masks rules =
      rw
        (
          first_match-any (state_rule_matches {P = P}),
          first_match-any (state_rule_matches {P = P}),
          any-append,
        )
        (ground (arith, one_rule masks))

  push_reads :
      (res : ReadWriteFiltered P) (rule : AccessRightsRule)
      → (rules_match (push_rule res rule).state_read path).0
        ≡ ((rules_match res.state_read path).0 || rule_hits reads hit rule)
  unfolding push_rule
  push_reads res (state_rule rw_nothing masks) = ground arith
  push_reads res (state_rule rw_read masks) = pushed_hits masks res.state_read
  push_reads res (state_rule rw_write masks) = ground arith
  push_reads res (state_rule rw_read_write masks) = pushed_hits masks res.state_read
  push_reads res (log_rule names) = ground arith

  push_writes :
      (res : ReadWriteFiltered P) (rule : AccessRightsRule)
      → (rules_match (push_rule res rule).state_write path).0
        ≡ ((rules_match res.state_write path).0 || rule_hits writes hit rule)
  unfolding push_rule
  push_writes res (state_rule rw_nothing masks) = ground arith
  push_writes res (state_rule rw_read masks) = ground arith
  push_writes res (state_rule rw_write masks) = pushed_hits masks res.state_write
  push_writes res (state_rule rw_read_write masks) = pushed_hits masks res.state_write
  push_writes res (log_rule names) = ground arith

  split_reads_from :
      (res : ReadWriteFiltered P) (rules : List AccessRightsRule)
      → (rules_match (split_rules_from res rules).state_read path).0
        ≡ ((rules_match res.state_read path).0 || any (rule_hits reads hit) rules)
  unfolding split_rules_from
  split_reads_from res [] = ground arith
  split_reads_from res (rule ∷ rules) =
      split_reads_from (push_rule res rule) rules ∙ ground (arith, push_reads res rule)

  split_writes_from :
      (res : ReadWriteFiltered P) (rules : List AccessRightsRule)
      → (rules_match (split_rules_from res rules).state_write path).0
        ≡ ((rules_match res.state_write path).0 || any (rule_hits writes hit) rules)
  unfolding split_rules_from
  split_writes_from res [] = ground arith
  split_writes_from res (rule ∷ rules) =
      split_writes_from (push_rule res rule) rules ∙ ground (arith, push_writes res rule)

  pub split_reads :
      (rules : List AccessRightsRule)
      → (rules_match (split_rules {P = P} rules).state_read path).0
        ≡ any (rule_hits reads hit) rules
  unfolding split_rules rules_match first_match
  split_reads rules =
      split_reads_from (record { state_read = []; state_write = []; log = [] }) rules

  pub split_writes :
      (rules : List AccessRightsRule)
      → (rules_match (split_rules {P = P} rules).state_write path).0
        ≡ any (rule_hits writes hit) rules
  unfolding split_rules rules_match first_match
  split_writes rules =
      split_writes_from (record { state_read = []; state_write = []; log = [] }) rules
