-- ===== src/Authorizer/PatternMatching.antt =====
-- Which paths an allow pattern and a deny pattern of authorizer/path_pattern.rs match.
use mathlib.Core.Bool.{false≢true}
use native.Mathlib.Omega.{arith}
use mathlib.Core.List.{append-nil}
use ankaios.Prelude.{
  map, ◌==◌, eq_refl, false, if◌then◌else◌, suc, ◌+◌, sym, ap, ◌∙◌, ◌≤◌, String, ◌≡◌, refl, ◌↔◌,
  ◌⊎◌, inl, inr, true, List, [], ◌∷◌, ◌++◌, length, length-append, eq_iff, Bool-cases,
}
use ankaios.Authorizer.Pattern.{
  PathPatternSection, wildcard, text, section_matches, zip_matches, match_rule_with_path,
}

abbrev pub FitsSection : PathPatternSection → String → Type 0
FitsSection wildcard b = Unit
FitsSection (text s) b = s ≡ b

-- The pattern and the path have as many sections, and each fits.
abbrev pub Fits : List PathPatternSection → List String → Type 0
Fits [] [] = Unit
Fits [] (b ∷ path) = ⊥
Fits (a ∷ pattern) [] = ⊥
Fits (a ∷ pattern) (b ∷ path) = FitsSection a b × Fits pattern path

-- The pattern is the path or a prefix of it.
pub record IsAbove (pattern : List PathPatternSection) (path : List String) : Type 0 where
  pub head : List String
  pub rest : List String
  pub split : path ≡ head ++ rest
  pub fits : Fits pattern head

-- The path is the pattern or a prefix of it.
pub record IsBelow (pattern : List PathPatternSection) (path : List String) : Type 0 where
  pub head : List PathPatternSection
  pub rest : List PathPatternSection
  pub split : pattern ≡ head ++ rest
  pub fits : Fits head path

section_fits : (a : PathPatternSection) (b : String) → section_matches a b ≡ true → FitsSection a b
unfolding section_matches
section_fits wildcard b h = tt
section_fits (text s) b h = (eq_iff s b).0 h

fits_section : (a : PathPatternSection) (b : String) → FitsSection a b → section_matches a b ≡ true
unfolding section_matches
fits_section wildcard b h = refl
fits_section (text s) b h = (eq_iff s b).1 h

zip_cons :
    (a : PathPatternSection) (pattern : List PathPatternSection) (b : String) (path : List String)
    → zip_matches (a ∷ pattern) (b ∷ path) ≡ true
    → FitsSection a b × (zip_matches pattern path ≡ true)
unfolding zip_matches
zip_cons a pattern b path h = elim (Bool-cases (section_matches a b)) [
  | inl e ↦ (section_fits a b e, rw e at h)
  | inr e ↦ absurd (false≢true (rw e at h))
]

cons_zip :
    (a : PathPatternSection) (pattern : List PathPatternSection) (b : String) (path : List String)
    → FitsSection a b
    → zip_matches pattern path ≡ true
    → zip_matches (a ∷ pattern) (b ∷ path) ≡ true
unfolding zip_matches
cons_zip a pattern b path f h = rw (fits_section a b f) h

IsAbove-cons :
    (a : PathPatternSection) (pattern : List PathPatternSection) (b : String) (path : List String)
    → FitsSection a b
    → IsAbove pattern path
    → IsAbove (a ∷ pattern) (b ∷ path)
IsAbove-cons a pattern b path f h = record {
  head = b ∷ h.head;
  rest = h.rest;
  split = cc (h.split);
  fits = (f, h.fits);
}

IsBelow-cons :
    (a : PathPatternSection) (pattern : List PathPatternSection) (b : String) (path : List String)
    → FitsSection a b
    → IsBelow pattern path
    → IsBelow (a ∷ pattern) (b ∷ path)
IsBelow-cons a pattern b path f h = record {
  head = a ∷ h.head;
  rest = h.rest;
  split = cc (h.split);
  fits = (f, h.fits);
}

-- The loop over the shorter of both: one is a prefix of the other.
pub zip_matches→prefix :
    (pattern : List PathPatternSection) (path : List String)
    → zip_matches pattern path ≡ true
    → IsAbove pattern path ⊎ IsBelow pattern path
zip_matches→prefix [] path h = inl (record { head = []; rest = path; split = refl; fits = tt })
zip_matches→prefix (a ∷ pattern) [] h =
    inr (record { head = []; rest = a ∷ pattern; split = refl; fits = tt })
zip_matches→prefix (a ∷ pattern) (b ∷ path) h =
    let (f, k) = zip_cons a pattern b path h in
    elim (zip_matches→prefix pattern path k) [
      | inl u ↦ inl (IsAbove-cons a pattern b path f u)
      | inr u ↦ inr (IsBelow-cons a pattern b path f u)
    ]

fits→zip :
    (pattern more : List PathPatternSection) (path rest : List String)
    → Fits pattern path
    → (more ≡ []) ⊎ (rest ≡ [])
    → zip_matches (pattern ++ more) (path ++ rest) ≡ true
unfolding zip_matches
fits→zip [] more [] rest f (inl e) = rw e
fits→zip [] [] [] rest f (inr e) = refl
fits→zip [] (m ∷ more) [] rest f (inr e) = rw e
fits→zip [] more (b ∷ path) rest f e = absurd f
fits→zip (a ∷ pattern) more [] rest f e = absurd f
fits→zip (a ∷ pattern) more (b ∷ path) rest f e =
    rw (fits_section a b f.0) (fits→zip pattern more path rest f.1 e)

pub Fits-length :
    (pattern : List PathPatternSection) (path : List String)
    → Fits pattern path
    → length pattern ≡ length path
Fits-length [] [] f = refl
Fits-length [] (b ∷ path) f = absurd f
Fits-length (a ∷ pattern) [] f = absurd f
Fits-length (a ∷ pattern) (b ∷ path) f = ap suc (Fits-length pattern path f.1)

length-zero : {A : Type 0} (xs : List A) → length xs ≤ 0 → xs ≡ []
length-zero [] h = refl
length-zero (x ∷ xs) h = absurd (omega arith)

-- A path below the pattern that is not shorter is the pattern.
pub IsBelow→IsAbove :
    (pattern : List PathPatternSection) (path : List String)
    → length pattern ≤ length path
    → IsBelow pattern path
    → IsAbove pattern path
IsBelow→IsAbove pattern path le b = record {
  head = path;
  rest = [];
  split = sym (append-nil path);
  fits = rw (b.split, rest_nil, append-nil) b.fits;
}
  where
    lengths : length pattern ≡ length b.head + length b.rest
    lengths = ap length b.split ∙ length-append b.head b.rest

    rest_nil : b.rest ≡ []
    rest_nil = length-zero b.rest (omega (arith, lengths, Fits-length b.head path b.fits))

pub zip→matches :
    (a : PathPatternSection) (pattern : List PathPatternSection) (path : List String)
    → ((match_rule_with_path (a ∷ pattern) (record { sections = path })).0 ≡ true)
      ↔ (zip_matches (a ∷ pattern) path ≡ true)
unfolding match_rule_with_path
zip→matches a pattern path = elim (Bool-cases (zip_matches (a ∷ pattern) path)) [
  | inl e ↦ rw e (λ _. refl, λ _. refl)
  | inr e ↦ rw e (λ h. h, λ h. absurd (false≢true h))
]

pub IsAbove→zip :
    (pattern : List PathPatternSection) (path : List String)
    → IsAbove pattern path
    → zip_matches pattern path ≡ true
IsAbove→zip pattern path u =
    rw u.split (rw append-nil at (fits→zip pattern [] u.head u.rest u.fits (inl refl)))

pub IsBelow→zip :
    (pattern : List PathPatternSection) (path : List String)
    → IsBelow pattern path
    → zip_matches pattern path ≡ true
IsBelow→zip pattern path u =
    rw u.split (rw append-nil at (fits→zip u.head u.rest path [] u.fits (inr refl)))

-- A text and the same text meet; a name and the wildcard character of a mask do not.
pub zip_text :
    (head : List String) (name other : String) (rest : List PathPatternSection) (more : List String)
    → zip_matches (map text head ++ text name ∷ rest) (head ++ other ∷ more)
      ≡ (if name == other then zip_matches rest more else false)
unfolding zip_matches section_matches
zip_text [] name other rest more = ground arith
zip_text (h ∷ head) name other rest more = rw (eq_refl h) (zip_text head name other rest more)

pub matches-eq-zip :
    (head : List String) (name : String) (rest : List PathPatternSection) (path : List String)
    → (match_rule_with_path (map text head ++ text name ∷ rest) (record { sections = path })).0
      ≡ zip_matches (map text head ++ text name ∷ rest) path
unfolding match_rule_with_path
matches-eq-zip [] name rest path = ground arith
matches-eq-zip (h ∷ head) name rest path = ground arith
