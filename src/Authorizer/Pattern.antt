-- ===== src/Authorizer/Pattern.antt =====
-- Paths and path patterns: agent/src/control_interface/authorizer/path.rs and path_pattern.rs.
use ankaios.Prelude.{
  ℕ, String, Bool, true, false, not, ◌&&◌, ◌==◌, List, [], ◌∷◌, map, length, ltb, split, join,
  if◌then◌else◌,
}

-- PATH_SEPARATOR and WILDCARD_SYMBOL
abbrev pub path_separator : ℕ
path_separator = b'.'

abbrev pub wildcard_symbol : String
wildcard_symbol = "*"

pub record MaskPath : Type 0 where
  pub sections : List String

-- `Path::from(&str)`
unfoldable pub path_from : String → MaskPath
path_from value = record { sections = if value == "" then [] else split path_separator value }

pub data PathPatternSection : Type 0 where
  wildcard : PathPatternSection
  text : String → PathPatternSection

unfoldable pub section_from : String → PathPatternSection
section_from value = if value == wildcard_symbol then wildcard else text value

unfoldable pub section_matches : PathPatternSection → String → Bool
section_matches wildcard other = true
section_matches (text self_string) other = self_string == other

abbrev pub section_to_string : PathPatternSection → String
section_to_string wildcard = "*"
section_to_string (text s) = s

abbrev pub is_wildcard : PathPatternSection → Bool
is_wildcard wildcard = true
is_wildcard (text s) = false

-- `sections.first() == Some(&Wildcard)`
abbrev pub first_is_wildcard : List PathPatternSection → Bool
first_is_wildcard [] = false
first_is_wildcard (s ∷ rest) = is_wildcard s

unfoldable pub sections_from : String → List PathPatternSection
sections_from value = if value == "" then [] else map section_from (split path_separator value)

-- A match and the reason for it.
abbrev pub MatchResult : Type 0
MatchResult = Bool × String

-- The loop of `match_rule_with_path`, over the pairs of `zip`.
unfoldable pub zip_matches : List PathPatternSection → List String → Bool
zip_matches [] path = true
zip_matches (a ∷ pattern) [] = true
zip_matches (a ∷ pattern) (b ∷ path) =
    let rest = zip_matches pattern path in if not (section_matches a b) then false else rest

unfoldable pub match_rule_with_path : List PathPatternSection → MaskPath → MatchResult
match_rule_with_path [] other = (false, "Empty filter masks in rules never match.")
match_rule_with_path (s ∷ rest) other =
    if zip_matches (s ∷ rest) other.sections
    then (true, join "." (map section_to_string (s ∷ rest)))
    else (false, "")

pub record AllowPathPattern : Type 0 where
  pub sections : List PathPatternSection

unfoldable pub allow_from : String → AllowPathPattern
allow_from value = record { sections = sections_from value }

unfoldable pub allow_matches : AllowPathPattern → MaskPath → MatchResult
allow_matches p other =
    if ltb (length other.sections) (length p.sections) && not (first_is_wildcard p.sections)
    then (false, "")
    else match_rule_with_path p.sections other

pub record DenyPathPattern : Type 0 where
  pub sections : List PathPatternSection

unfoldable pub deny_from : String → DenyPathPattern
deny_from value = record { sections = sections_from value }

unfoldable pub deny_matches : DenyPathPattern → MaskPath → MatchResult
deny_matches p other = match_rule_with_path p.sections other

-- The trait `PathPattern`, with the conversion from a filter mask that `split_rules` wants.
pub record PathPattern (P : Type 0) : Type 0 where
  pub from : String → P
  pub matches : P → MaskPath → MatchResult

instance abbrev pub allow_pattern : PathPattern AllowPathPattern
allow_pattern = record { from = allow_from; matches = allow_matches }

instance abbrev pub deny_pattern : PathPattern DenyPathPattern
deny_pattern = record { from = deny_from; matches = deny_matches }
