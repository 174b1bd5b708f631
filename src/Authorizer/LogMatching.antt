-- ===== src/Authorizer/LogMatching.antt =====
-- Which workload names a log rule matches: `LogRule::matches` of agent/src/control_interface/
-- authorizer/rules.rs.
use Prim.Native.Char.{Char, code}
use Prim.Native.String.{[] as nil, ◌∷◌ as ◌▹◌, ◌++◌ as ◌<>◌, len}
use Prim.Native.String.append
use mathlib.Core.Bool.{false≢true}
use text.Mathlib.TextLemmas.{
  append_assoc, append-nil, tail-eq_of_cons-eq, append-ne-nil_of_right_ne-nil, cons-ne-nil,
}
use text.Mathlib.TextPositions.{len-append}
use ankaios.Prelude.{
  ℕ, ◌+◌, ◌≤◌, String, ◌≡◌, refl, sym, ap, ◌∙◌, ◌↔◌, inl, inr, true, false, ◌==◌, List, [], ◌∷◌,
  leb, arith, eq_iff, has_char, starts_with, ends_with, starts_with→append, starts_with-append,
  ends_with→append, ends_with-append, append_split, split_once-append, split_once-none, member, All,
  Bool-cases, and-eq-true,
}
use ankaios.Authorizer.Pattern.{wildcard_symbol}
use ankaios.Authorizer.Rules.{
  LogRule, wildcard_char, affixes_match, log_patterns_match, log_rule_matches,
}

abbrev pub log_rule_of : List String → LogRule
log_rule_of patterns = record { patterns = patterns }

-- `prefix`, anything, `suffix`
abbrev pub IsBetween : String → String → String → Type 0
IsBetween prefix suffix name = (mid : String) × (name ≡ prefix <> (mid <> suffix))

affixes→between :
    (prefix suffix name : String)
    → affixes_match prefix suffix name ≡ true
    → IsBetween prefix suffix name
unfolding affixes_match
affixes→between prefix suffix name h =
    let (ends, fits) =
      and-eq-true (ends_with name suffix) (leb (len prefix + len suffix) (len name))
        (and-eq-true (starts_with name prefix) _ h).1 in
    let (r, e1) = starts_with→append name prefix (and-eq-true (starts_with name prefix) _ h).0 in
    let (q, e2) = ends_with→append name suffix ends in
    let room : len prefix ≤ len q = omega (
      arith,
      ap len e2,
      len-append q suffix,
      le_of_leb (len prefix + len suffix) (len name) fits,
    ) in
    let (mid, e3, e4) = append_split prefix suffix q r (sym e1 ∙ e2) room in
    (mid, e1 ∙ ap (λ (t : String). prefix <> t) e4)
  where
    le_of_leb : (a b : ℕ) → leb a b ≡ true → a ≤ b
    le_of_leb a b k = ground arith

between→affixes :
    (prefix suffix mid : String) → affixes_match prefix suffix (prefix <> (mid <> suffix)) ≡ true
unfolding affixes_match
between→affixes prefix suffix mid =
    rw
      (
        starts_with-append prefix (mid <> suffix),
        ← append_assoc prefix mid suffix,
        ends_with-append (prefix <> mid) suffix,
      )
      (ground (arith, len-append (prefix <> mid) suffix, len-append prefix mid))

star_alone :
    (prefix : String) (c : Char) (suffix : String)
    → prefix <> (c ▹ suffix) ≡ wildcard_symbol
    → (prefix ≡ nil) × (suffix ≡ nil)
star_alone nil c suffix e = (refl, tail-eq_of_cons-eq (sym (append.nil (c ▹ suffix)) ∙ e))
star_alone (d ▹ p) c suffix e = absurd (
    append-ne-nil_of_right_ne-nil p (cons-ne-nil c suffix)
      (tail-eq_of_cons-eq (sym (append.cons d p (c ▹ suffix)) ∙ e)))

equal-IsBetween :
    (prefix : String) (c : Char) (suffix : String)
    → IsBetween prefix suffix (prefix <> (c ▹ suffix))
equal-IsBetween prefix c suffix = (
  c ▹ nil,
  ap (λ (t : String). prefix <> t)
      (sym (append.cons c nil suffix ∙ ap (◌▹◌ c) (append.nil suffix))),
)

star-IsBetween :
    (prefix suffix name : String) → (prefix ≡ nil) × (suffix ≡ nil) → IsBetween prefix suffix name
star-IsBetween prefix suffix name (e1, e2) =
    (name, rw (e1, e2) (sym (append.nil (name <> nil) ∙ append-nil name)))

module _ (prefix : String) (c : Char) (suffix : String)
    (plain : has_char wildcard_char prefix ≡ false) (is_star : code c ≡ wildcard_char) where
  -- A rule of one pattern with a wildcard matches exactly the names that consist of the text before
  -- the first wildcard, any text, and the text behind that wildcard.
  log_rule_matches-wildcard :
      (name : String)
      → (log_rule_matches (log_rule_of ((prefix <> (c ▹ suffix)) ∷ [])) name ≡ true)
        ↔ IsBetween prefix suffix name
  unfolding log_rule_matches log_patterns_match
  log_rule_matches-wildcard name =
      rw (split_once-append wildcard_char prefix c suffix plain is_star)
        (elim (Bool-cases (prefix <> (c ▹ suffix) == name)) [
          | inl e ↦
              rw e (λ _. rw (← (eq_iff _ name).0 e) (equal-IsBetween prefix c suffix), λ _. refl)
          | inr e ↦ rw e (elim (Bool-cases (prefix <> (c ▹ suffix) == wildcard_symbol)) [
            | inl k ↦ rw k (
              λ _.
                  star-IsBetween prefix suffix name (star_alone prefix c suffix ((eq_iff _ _).0 k)),
              λ _. refl,
            )
            | inr k ↦ rw k (
              affixes→between prefix suffix name,
              λ (mid, b). rw b (between→affixes prefix suffix mid),
            )
          ])
        ])

  -- The loop returns at the first pattern with a wildcard: a name that does not fit it is refused,
  -- whatever patterns stand behind, the name itself included.
  pub log_rule_matches-stops_at_wildcard :
      (name : String) (patterns : List String)
      → ¬ IsBetween prefix suffix name
      → log_rule_matches (log_rule_of ((prefix <> (c ▹ suffix)) ∷ patterns)) name ≡ false
  unfolding log_rule_matches log_patterns_match
  log_rule_matches-stops_at_wildcard name patterns outside =
      rw (split_once-append wildcard_char prefix c suffix plain is_star)
        (ground (arith, differs, not_star, unfit))
    where
      pattern : String
      pattern = prefix <> (c ▹ suffix)

      differs : (pattern == name) ≡ false
      differs = elim (Bool-cases (pattern == name)) [
        | inl e ↦
            absurd (outside (rw (← (eq_iff pattern name).0 e) (equal-IsBetween prefix c suffix)))
        | inr e ↦ e
      ]

      not_star : (pattern == wildcard_symbol) ≡ false
      not_star = elim (Bool-cases (pattern == wildcard_symbol)) [
        | inl e ↦ absurd (
            outside (
              star-IsBetween prefix suffix name
                (star_alone prefix c suffix ((eq_iff pattern wildcard_symbol).0 e))))
        | inr e ↦ e
      ]

      unfit : affixes_match prefix suffix name ≡ false
      unfit = elim (Bool-cases (affixes_match prefix suffix name)) [
        | inl e ↦ absurd (outside (affixes→between prefix suffix name e))
        | inr e ↦ e
      ]

star_has_char : (p : String) → has_char wildcard_char p ≡ false → (p == wildcard_symbol) ≡ false
unfolding has_char
star_has_char p h = elim (Bool-cases (p == wildcard_symbol)) [
  | inl e ↦
      absurd (false≢true (sym h ∙ ap (has_char wildcard_char) ((eq_iff p wildcard_symbol).0 e)))
  | inr e ↦ e
]

plain_patterns :
    (patterns : List String) (name : String)
    → All (λ p. has_char wildcard_char p ≡ false) patterns
    → log_patterns_match patterns name ≡ member name patterns
unfolding log_patterns_match member
plain_patterns [] name h = refl
plain_patterns (p ∷ patterns) name (h, hs) =
    rw (split_once-none wildcard_char p h, star_has_char p h, plain_patterns patterns name hs)
      (ground arith)

-- A rule whose patterns hold no wildcard matches exactly the names that it lists.
log_rule_matches-plain :
    (patterns : List String) (name : String)
    → All (λ p. has_char wildcard_char p ≡ false) patterns
    → log_rule_matches (log_rule_of patterns) name ≡ member name patterns
unfolding log_rule_matches
log_rule_matches-plain patterns name h = plain_patterns patterns name h
