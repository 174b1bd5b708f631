-- ===== src/Authorizer/Rules.antt =====
-- State rules and log rules: agent/src/control_interface/authorizer/rules.rs.
use Prim.Native.String.{len}
use ankaios.Prelude.{
  ℕ, ◌+◌, String, Bool, true, false, ◌&&◌, ◌||◌, ◌==◌, List, [], ◌∷◌, none, some, leb, split_once,
  starts_with, ends_with, if◌then◌else◌,
}
use ankaios.Authorizer.Pattern.{MaskPath, PathPattern, MatchResult, wildcard_symbol}

pub record StateRule (P : Type 0) : Type 0 where
  pub patterns : List P

-- What both loops over matchers do: the first match, with its reason.
module _ {A : Type 0} (test : A → MaskPath → MatchResult) where
  unfoldable pub first_match : List A → MaskPath → MatchResult
  first_match [] path = (false, "")
  first_match (r ∷ rules) path =
      let rest = first_match rules path in
      let (matched, reason) = test r path in if matched then (true, reason) else rest

module _ {P : Type 0} ⦃pattern : PathPattern P⦄ where
  -- `StateRule::matches`: `find_map` over the patterns.
  unfoldable pub state_rule_matches : StateRule P → MaskPath → MatchResult
  state_rule_matches rule path = first_match pattern.matches rule.patterns path

  -- `matches` of a vector of rules.
  unfoldable pub rules_match : List (StateRule P) → MaskPath → MatchResult
  rules_match rules path = first_match state_rule_matches rules path

pub record LogRule : Type 0 where
  pub patterns : List String

-- The character of `WILDCARD_SYMBOL`.
abbrev pub wildcard_char : ℕ
wildcard_char = b'*'

-- The test at a pattern with a wildcard, between the prefix and the suffix around it.
unfoldable pub affixes_match : String → String → String → Bool
affixes_match prefix suffix workload_name =
    starts_with workload_name prefix
    && (ends_with workload_name suffix && leb (len prefix + len suffix) (len workload_name))

-- `LogRule::matches`: the loop returns at the first pattern that is equal, is the wildcard, or holds
-- one.
unfoldable pub log_patterns_match : List String → String → Bool
log_patterns_match [] workload_name = false
log_patterns_match (pattern ∷ patterns) workload_name =
    let rest = log_patterns_match patterns workload_name in
    if pattern == workload_name || pattern == wildcard_symbol
    then true
    else elim (split_once wildcard_char pattern) [
      | none ↦ rest
      | some (prefix, suffix) ↦ affixes_match prefix suffix workload_name
    ]

unfoldable pub log_rule_matches : LogRule → String → Bool
log_rule_matches rule workload_name = log_patterns_match rule.patterns workload_name
