-- ===== src/Common/Path/RoundTrip.antt =====
-- A path's text and the path of a text: common/src/state_manipulation/path.rs.
use Prim.Native.String as Text
use Prim.Native.String.append
use Prim.Native.Char.{Char, code}
use ankaios.Prelude.{
  ℕ, String, Bool, true, List, [], ◌∷◌, all, not, has_char, eqb, split, join, glue, Bool-cases, inl,
  inr, ◌≡◌, refl, sym, ap, ◌∙◌, ◌==◌, eq_iff, ◌≢◌, split-append, split-none, arith, and-eq-true,
  eqb→Char,
}
use ankaios.Common.Path.{FieldPath, path_from, path_to_string}

-- `split` has a first part.
split-cons : (k : ℕ) (s : String) → (p : String) × (rest : List String) × (split k s ≡ p ∷ rest)
unfolding split
split-cons k Text.[] = (Text.[], [], refl)
split-cons k (Text.◌∷◌ c s) = elim (Bool-cases (eqb (code c) k)) [
  | inl e ↦ (Text.[], split k s, rw e refl)
  | inr e ↦ let (p, rest, h) = split-cons k s in (Text.◌∷◌ c p, rest, rw (e, h) refl)
]

abbrev dot : Char
dot = "."

dot_append : (s : String) → Text.◌++◌ "." s ≡ Text.◌∷◌ dot s
dot_append s = append.cons dot Text.[] s ∙ ap (Text.◌∷◌ dot) (append.nil s)

join-glue :
    (c : Char) (p : String) (rest : List String)
    → join "." (glue c (p ∷ rest)) ≡ Text.◌∷◌ c (join "." (p ∷ rest))
unfolding join
join-glue c p [] = refl
join-glue c p (q ∷ rest) = append.cons c p _

join-split : (s : String) → join "." (split 46 s) ≡ s
unfolding join split
join-split Text.[] = refl
join-split (Text.◌∷◌ c s) =
    let (p, rest, h) = split-cons 46 s in
    let whole = join-split s in
    let ih : join "." (p ∷ rest) ≡ s = rw h at whole in
    elim (Bool-cases (eqb (code c) 46)) [
      | inl e ↦ rw (e, h) (append.nil _ ∙ dot_append _ ∙ cc (ih, eqb→Char c dot e))
      | inr e ↦ rw (e, h) (join-glue c p rest ∙ ap (Text.◌∷◌ c) ih)
    ]

path_to_string-path_from : (s : String) → path_to_string (path_from s) ≡ s
unfolding join
path_to_string-path_from s = elim (Bool-cases (s == "")) [
  | inl e ↦ rw e (sym ((eq_iff s "").0 e))
  | inr e ↦ rw e (join-split s)
]

abbrev pub no_dot : String → Bool
no_dot p = not (has_char 46 p)

split-join :
    (p : String) (path : FieldPath)
    → all no_dot (p ∷ path) ≡ true
    → split 46 (join "." (p ∷ path)) ≡ p ∷ path
unfolding join
split-join p [] h = split-none 46 p (ground arith)
split-join p (q ∷ path) h =
    let (here, there) = and-eq-true (no_dot p) _ h in
    rw (dot_append (join "." (q ∷ path))) (
      split-append 46 p dot (join "." (q ∷ path)) (ground arith) refl
      ∙ ap (λ (l : FieldPath). p ∷ l) (split-join q path there))

path_from-path_to_string :
    (path : FieldPath)
    → all no_dot path ≡ true
    → path ≢ "" ∷ []
    → path_from (path_to_string path) ≡ path
unfolding join split
path_from-path_to_string [] h n = refl
path_from-path_to_string (p ∷ path) h n = elim (Bool-cases (join "." (p ∷ path) == "")) [
  | inl e ↦
      absurd (n (sym (split-join p path h) ∙ ap (split 46) ((eq_iff (join "." (p ∷ path)) "").0 e)))
  | inr e ↦ rw e (split-join p path h)
]
