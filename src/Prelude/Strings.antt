-- ===== src/Prelude/Strings.antt =====
-- What the program uses of Rust's `str`: split, join, affixes, and the order of texts.
use Prim.Native.Nat.{ℕ, ◌+◌, ◌≤◌, Ordering}
use Prim.Native.Char.{Char, code, len_utf8}
use Prim.Native.String.{String, [], ◌∷◌, ◌++◌, len, compare}
use Prim.Native.String.append
use Prim.Native.String.len as len_clauses
use mathlib.Core.Path.{◌≡◌, refl, sym, ap, ◌∙◌}
use mathlib.Core.Logic.{inl, inr}
use mathlib.Core.Bool.{Bool, true, false, ◌&&◌, ◌||◌, false≢true}
use mathlib.Core.Option.{Option, none, some}
use mathlib.Core.List.{List}
use native.Mathlib.Omega.{arith}
use text.Mathlib.Text.{◌==◌}
use text.Mathlib.TextEquality.{eq_iff, Char-path}
use text.Mathlib.TextPositions.{eq_refl, len_utf8-pos}
use text.Mathlib.TextLemmas.{cons-eq-cons}
use ankaios.Prelude.Tests.{eqb, if◌then◌else◌, and-eq-true, or-eq-true}

-- The character joins the first part. `split` never returns the empty list.
abbrev pub glue : Char → List String → List String
glue c List.[] = List.◌∷◌ (c ∷ []) List.[]
glue c (List.◌∷◌ s rest) = List.◌∷◌ (c ∷ s) rest

-- `value.split(c)`: the empty text has one part, and each separator opens another.
unfoldable pub split : ℕ → String → List String
split sep [] = List.◌∷◌ [] List.[]
split sep (c ∷ s) =
    let rest = split sep s in if eqb (code c) sep then List.◌∷◌ [] rest else glue c rest

-- `parts.join(sep)`
unfoldable pub join : String → List String → String
join sep List.[] = []
join sep (List.◌∷◌ s List.[]) = s
join sep (List.◌∷◌ s (List.◌∷◌ t rest)) = s ++ (sep ++ join sep (List.◌∷◌ t rest))

-- `value.contains(c)` at a character.
unfoldable pub has_char : ℕ → String → Bool
has_char k [] = false
has_char k (c ∷ s) = eqb (code c) k || has_char k s

-- `value.split_once(c)`: what stands before and behind the first occurrence.
unfoldable pub split_once : ℕ → String → Option (String × String)
split_once k [] = none
split_once k (c ∷ s) =
    let rest = split_once k s in
    if eqb (code c) k
    then some ([], s)
    else elim rest [ none ↦ none | some (p, q) ↦ some (c ∷ p, q) ]

unfoldable pub starts_with : String → String → Bool
starts_with s [] = true
starts_with [] (d ∷ t) = false
starts_with (c ∷ s) (d ∷ t) = eqb (code c) (code d) && starts_with s t

unfoldable pub ends_with : String → String → Bool
ends_with [] t = [] == t
ends_with (c ∷ s) t = (c ∷ s) == t || ends_with s t

-- The order of Rust's strings, for `sort`.
abbrev pub str_le : String → String → Bool
str_le s t = elim (compare s t) [ Ordering.gt ↦ false | _ ↦ true ]

pub eqb→Char : (c d : Char) → eqb (code c) (code d) ≡ true → c ≡ d
eqb→Char c d h = Char-path c d (ground arith)

eqb_self : (n : ℕ) → eqb n n ≡ true
eqb_self n = ground arith

pub starts_with→append : (s t : String) → starts_with s t ≡ true → (r : String) × (s ≡ t ++ r)
unfolding starts_with
starts_with→append s [] h = (s, sym (append.nil s))
starts_with→append [] (d ∷ t) h = absurd (false≢true h)
starts_with→append (c ∷ s) (d ∷ t) h =
    let (here, there) = and-eq-true (eqb (code c) (code d)) (starts_with s t) h in
    let (r, e) = starts_with→append s t there in (r, cc (eqb→Char c d here, e, append.cons d t r))

pub starts_with-append : (t r : String) → starts_with (t ++ r) t ≡ true
unfolding starts_with
starts_with-append [] r = refl
starts_with-append (d ∷ t) r =
    rw (append.cons d t r) (rw (eqb_self (code d)) (starts_with-append t r))

pub ends_with→append : (s t : String) → ends_with s t ≡ true → (r : String) × (s ≡ r ++ t)
unfolding ends_with
ends_with→append [] t h = ([], (eq_iff [] t).0 h ∙ sym (append.nil t))
ends_with→append (c ∷ s) t h = elim (or-eq-true ((c ∷ s) == t) (ends_with s t) h) [
  | inl e ↦ ([], (eq_iff (c ∷ s) t).0 e ∙ sym (append.nil t))
  | inr e ↦ let (r, p) = ends_with→append s t e in (c ∷ r, ap (◌∷◌ c) p ∙ sym (append.cons c r t))
]

ends_with_self : (s : String) → ends_with s s ≡ true
unfolding ends_with
ends_with_self [] = eq_refl []
ends_with_self (c ∷ s) = rw (eq_refl (c ∷ s))

pub ends_with-append : (r t : String) → ends_with (r ++ t) t ≡ true
unfolding ends_with
ends_with-append [] t = rw (append.nil t) (ends_with_self t)
ends_with-append (c ∷ r) t = rw (append.cons c r t) (ground (arith, ends_with-append r t))

len-cons : (c : Char) (s : String) → len (c ∷ s) ≡ len_utf8 c + len s
len-cons c s = len_clauses.cons c s

-- Two ways to cut one text: the shorter front is a part of the longer one.
pub append_split :
    (p r q s : String)
    → p ++ s ≡ q ++ r
    → len p ≤ len q
    → (mid : String) × (q ≡ p ++ mid) × (s ≡ mid ++ r)
append_split [] r q s e le = (q, sym (append.nil q), sym (append.nil s) ∙ e)
append_split (c ∷ p) r [] s e le =
    let (k, pos) = len_utf8-pos c in absurd (omega (arith, len-cons c p, pos, len_clauses.nil))
append_split (c ∷ p) r (d ∷ q) s e le =
    let (same, rest) = cons-eq-cons.0 (sym (append.cons c p s) ∙ e ∙ append.cons d q r) in
    let width : len_utf8 c ≡ len_utf8 d = ap len_utf8 same in
    let (mid, e1, e2) =
      append_split p r q s rest (omega (arith, len-cons c p, len-cons d q, width)) in
    (mid, cc (same, e1, append.cons c p mid), e2)

pub split_once-append :
    (k : ℕ) (p : String) (c : Char) (q : String)
    → has_char k p ≡ false
    → code c ≡ k
    → split_once k (p ++ (c ∷ q)) ≡ some (p, q)
unfolding split_once has_char
split_once-append k [] c q none_before at = rw (append.nil (c ∷ q)) (ground arith)
split_once-append k (d ∷ p) c q none_before at =
    rw (append.cons d p (c ∷ q)) (ground (arith, split_once-append k p c q (ground arith) at))

pub split_once-none : (k : ℕ) (s : String) → has_char k s ≡ false → split_once k s ≡ none
unfolding split_once has_char
split_once-none k [] h = refl
split_once-none k (c ∷ s) h = ground (arith, split_once-none k s (ground arith))

pub split-append :
    (k : ℕ) (p : String) (c : Char) (q : String)
    → has_char k p ≡ false
    → code c ≡ k
    → split k (p ++ (c ∷ q)) ≡ List.◌∷◌ p (split k q)
unfolding split has_char
split-append k [] c q none_before at = rw (append.nil (c ∷ q)) (ground arith)
split-append k (d ∷ p) c q none_before at =
    rw (append.cons d p (c ∷ q)) (ground (arith, split-append k p c q (ground arith) at))

pub split-none : (k : ℕ) (s : String) → has_char k s ≡ false → split k s ≡ List.◌∷◌ s List.[]
unfolding split has_char
split-none k [] h = refl
split-none k (c ∷ s) h = ground (arith, split-none k s (ground arith))
