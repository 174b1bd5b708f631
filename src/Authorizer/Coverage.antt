-- ===== src/Authorizer/Coverage.antt =====
-- What `matches` of the two kinds of path pattern decides: agent/src/control_interface/authorizer/
-- path_pattern.rs.
use mathlib.Core.Bool.{false≢true}
use ankaios.Prelude.{
  ◌≤◌, String, ◌≡◌, ◌≢◌, refl, sym, ap, ◌∙◌, ◌↔◌, ◌⊎◌, inl, inr, true, false, List, [], ◌∷◌, ◌++◌,
  length, length-append, arith, eq_iff, eq_refl, map,
}
use ankaios.Authorizer.Pattern.{
  MaskPath, PathPatternSection, wildcard, text, first_is_wildcard, zip_matches, section_matches,
  match_rule_with_path, AllowPathPattern, allow_matches, DenyPathPattern, deny_matches,
}
use ankaios.Authorizer.PatternMatching.{
  IsAbove, IsBelow, IsBelow→IsAbove, zip_matches→prefix, zip→matches, IsAbove→zip, IsBelow→zip,
  Fits-length, zip_text, matches-eq-zip,
}

abbrev pub path_of : List String → MaskPath
path_of sections = record { sections = sections }

abbrev pub allow_of : List PathPatternSection → AllowPathPattern
allow_of sections = record { sections = sections }

abbrev pub deny_of : List PathPatternSection → DenyPathPattern
deny_of sections = record { sections = sections }

empty_never : (path : List String) → (match_rule_with_path [] (path_of path)).0 ≡ false
unfolding match_rule_with_path
empty_never path = refl

zip_nil : (pattern : List PathPatternSection) → zip_matches pattern [] ≡ true
unfolding zip_matches
zip_nil [] = refl
zip_nil (a ∷ pattern) = refl

cons-ne-nil : {A : Type 0} (x : A) (xs : List A) → x ∷ xs ≢ []
cons-ne-nil x xs e = cc

IsAbove-length :
    (pattern : List PathPatternSection) (path : List String)
    → IsAbove pattern path
    → length pattern ≤ length path
IsAbove-length pattern path u =
    omega
      (arith, Fits-length pattern u.head u.fits, ap length u.split ∙ length-append u.head u.rest)

-- A deny pattern matches a path exactly if it has a section and one of the two is a prefix of the
-- other, section by section: the denied part, what lies below it, and what contains it.
deny_matches_lem :
    (pattern : List PathPatternSection) (path : List String)
    → ((deny_matches (deny_of pattern) (path_of path)).0 ≡ true)
      ↔ ((pattern ≢ []) × (IsAbove pattern path ⊎ IsBelow pattern path))
unfolding deny_matches
deny_matches_lem [] path =
    (λ h. absurd (false≢true (sym (empty_never path) ∙ h)), λ (ne, _). absurd (ne refl))
deny_matches_lem (a ∷ pattern) path = (
  λ h. (
    cons-ne-nil a pattern,
    zip_matches→prefix (a ∷ pattern) path ((zip→matches a pattern path).0 h),
  ),
  λ (_, u). (zip→matches a pattern path).1 (elim u [
    | inl above ↦ IsAbove→zip (a ∷ pattern) path above
    | inr below ↦ IsBelow→zip (a ∷ pattern) path below
  ]),
)

-- The test on the lengths of an allow pattern that does not begin with the wildcard.
short_refused :
    (pattern : List PathPatternSection) (path : List String)
    → first_is_wildcard pattern ≡ false
    → (allow_matches (allow_of pattern) (path_of path)).0 ≡ true
    → length pattern ≤ length path
unfolding allow_matches
short_refused pattern path w h = ground arith

long_matched :
    (pattern : List PathPatternSection) (path : List String)
    → length pattern ≤ length path
    → (allow_matches (allow_of pattern) (path_of path)).0
      ≡ (match_rule_with_path pattern (path_of path)).0
unfolding allow_matches
long_matched pattern path le = ground arith

-- An allow pattern that does not begin with the wildcard matches a path exactly if it has a section
-- and is a prefix of the path, section by section.
pub allow_matches_lem :
    (pattern : List PathPatternSection) (path : List String)
    → first_is_wildcard pattern ≡ false
    → ((allow_matches (allow_of pattern) (path_of path)).0 ≡ true)
      ↔ ((pattern ≢ []) × IsAbove pattern path)
allow_matches_lem [] path w = (
  λ h. absurd (false≢true (sym (empty_never path) ∙ sym (long_matched [] path (omega arith)) ∙ h)),
  λ (ne, _). absurd (ne refl),
)
allow_matches_lem (a ∷ pattern) path w = (
  λ h.
      let le = short_refused (a ∷ pattern) path w h in
      let z = (zip→matches a pattern path).0 (sym (long_matched (a ∷ pattern) path le) ∙ h) in
      (
        cons-ne-nil a pattern,
        elim (zip_matches→prefix (a ∷ pattern) path z) [
          | inl above ↦ above
          | inr below ↦ IsBelow→IsAbove (a ∷ pattern) path le below
        ],
      ),
  λ (_, u).
      long_matched (a ∷ pattern) path (IsAbove-length (a ∷ pattern) path u)
      ∙ (zip→matches a pattern path).1 (IsAbove→zip (a ∷ pattern) path u),
)

-- An allow pattern that begins with the wildcard matches the empty path and every path of one
-- section, whatever sections follow the wildcard, so that it grants all that lies below them.
pub allow_matches-wildcard_first :
    (pattern : List PathPatternSection) (root : String)
    → ((allow_matches (allow_of (wildcard ∷ pattern)) (path_of [])).0 ≡ true)
      × ((allow_matches (allow_of (wildcard ∷ pattern)) (path_of (root ∷ []))).0 ≡ true)
unfolding allow_matches match_rule_with_path zip_matches section_matches
allow_matches-wildcard_first [] root = (ground arith, ground arith)
allow_matches-wildcard_first (a ∷ pattern) root = (ground arith, ground arith)

-- A deny pattern of plain names matches the path to its name, and lets the mask pass in which the
-- wildcard stands for the name, although that mask asks for this path too.
pub deny_matches-wildcard_mask :
    (head : List String) (name : String) (rest : List PathPatternSection) (more : List String)
    → name ≢ "*"
    → ((deny_matches (deny_of (map text head ++ text name ∷ rest)) (path_of (head ++ name ∷ []))).0
        ≡ true)
      × ((deny_matches
            (deny_of (map text head ++ text name ∷ rest))
            (path_of (head ++ "*" ∷ more))).0
          ≡ false)
unfolding deny_matches
deny_matches-wildcard_mask head name rest more ne = (
  rw (matches-eq-zip, zip_text, eq_refl) (zip_nil rest),
  rw (matches-eq-zip, zip_text) (ground (arith, eq_iff name "*")),
)
