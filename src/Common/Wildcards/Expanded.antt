-- ===== src/Common/Wildcards/Expanded.antt =====
-- What the expanded paths lead to, in an object whose keys are texts.
use mathlib.Core.List.{append_assoc, append-nil}
use ankaios.Prelude.{
  String, ◌==◌, List, [], ◌∷◌, ◌++◌, All, All-append, some, ◌≡◌, refl, sym, ◌∙◌, Option-cases,
  Bool-cases, inl, inr, subst, ◌≢◌,
}
use ankaios.Common.Path.{FieldPath}
use ankaios.Common.Yaml.{Yaml}
use ankaios.Common.Object.{Object, get}
use ankaios.Common.Object.Setting.{get-mapping}
use ankaios.Common.Object.Within.{Direct, get-here}
use ankaios.Common.Wildcards.{wildcard_symbol}
use ankaios.Common.Wildcards.Reference.{paths_of, paths_of_keys, all_paths}

module _ (y : Yaml) where
  abbrev pub HasTextKey : y.Value × y.Value → Type 0
  HasTextKey e = (s : String) × (y.as_text e.0 ≡ some s)

  -- All mappings at the object's paths have texts as keys.
  abbrev pub TextKeys : y.Value → Type 0
  TextKeys v =
      (q : FieldPath) (w : y.Value) (m : y.Mapping)
      → get y v q ≡ some w
      → y.as_mapping w ≡ some m
      → All HasTextKey (y.entries m)

  pub TextKeys-child :
      (v w : y.Value) (m : y.Mapping) (k : String)
      → y.as_mapping v ≡ some m
      → y.lookup m (y.text k) ≡ some w
      → TextKeys v
      → TextKeys w
  TextKeys-child v w m k e f h q u n g a =
      let to : get y v (k ∷ q) ≡ get y w q = rw (get-mapping y v m k q e, f) refl in
      h (k ∷ q) u n (to ∙ g) a

  -- What stands behind the prefix is direct, and empty only for the empty path.
  abbrev pub DirectBehind : y.Value → FieldPath → FieldPath → FieldPath → Type 0
  DirectBehind v prefix path q =
      (s : FieldPath) × (q ≡ prefix ++ s) × Direct y v s × (s ≡ [] → path ≡ [])

  lift_path :
      (v w : y.Value) (m : y.Mapping) (k : String) (prefix path longer q : FieldPath)
      → y.as_mapping v ≡ some m
      → y.lookup m (y.text k) ≡ some w
      → DirectBehind w (prefix ++ k ∷ []) path q
      → DirectBehind v prefix longer q
  lift_path v w m k prefix path longer q e f (s, p, d, n) =
      (k ∷ s, p ∙ append_assoc prefix (k ∷ []) s, (m, w, e, f, d), λ z. absurd (cc z))

  All-map :
      {A : Type 0} (P Q : A → Type 0) (xs : List A) → ((x : A) → P x → Q x) → All P xs → All Q xs
  All-map P Q [] f h = tt
  All-map P Q (x ∷ xs) f (h, hs) = (f x h, All-map P Q xs f hs)

  paths_of_keys-All :
      (P : FieldPath → Type 0) (paths : String → y.Value → List FieldPath) (m : y.Mapping)
      (entries : List (y.Value × y.Value))
      → All HasTextKey entries
      → All (λ e. y.lookup m e.0 ≡ some e.1) entries
      → ((k : String) (w : y.Value) → y.lookup m (y.text k) ≡ some w → All P (paths k w))
      → All P (paths_of_keys y paths entries)
  paths_of_keys-All P paths m [] t l h = tt
  paths_of_keys-All P paths m ((key, w) ∷ entries) ((k, e), t) (at, l) h =
      let rest = paths_of_keys-All P paths m entries t l h in
      rw (e, paths_of_keys)
        (All-append P (paths_of_keys y paths entries) (paths k w) rest
          (h k w (subst (λ x. y.lookup m x ≡ some w) (y.text-as_text key k e) at)))

  paths_of-Direct :
      (prefix path : FieldPath) (v : y.Value)
      → TextKeys v
      → All (DirectBehind v prefix path) (paths_of y prefix path v)
  unfolding paths_of
  paths_of-Direct prefix [] v t = (([], sym (append-nil prefix), tt, λ z. refl), tt)
  paths_of-Direct prefix (e ∷ path) v t = elim (Option-cases (y.as_mapping v)) [
    | inl n ↦ elim (Bool-cases (e == wildcard_symbol)) [
      | inl star ↦ rw (star, paths_of, n) tt
      | inr name ↦ rw (name, paths_of, y.index_only_mappings v e n) tt
    ]
    | inr (m, a) ↦ elim (Bool-cases (e == wildcard_symbol)) [
      | inl star ↦
          rw (star, paths_of, a)
            (paths_of_keys-All (DirectBehind v prefix (e ∷ path)) _ m (y.entries m)
              (t [] v m (get-here y v) a) (y.lookup-entries m)
              (λ k w f.
                All-map (DirectBehind w (prefix ++ k ∷ []) path) (DirectBehind v prefix (e ∷ path))
                  _ (λ q. lift_path v w m k prefix path (e ∷ path) q a f)
                  (paths_of-Direct (prefix ++ k ∷ []) path w (TextKeys-child v w m k a f t))))
      | inr name ↦ elim (Option-cases (y.lookup m (y.text e))) [
        | inl f ↦ rw (name, paths_of, y.index-mapping v m e a ∙ f) tt
        | inr (w, f) ↦
            rw (name, paths_of, y.index-mapping v m e a ∙ f)
              (All-map (DirectBehind w (prefix ++ e ∷ []) path) (DirectBehind v prefix (e ∷ path)) _
                (λ q. lift_path v w m e prefix path (e ∷ path) q a f)
                (paths_of-Direct (prefix ++ e ∷ []) path w (TextKeys-child v w m e a f t)))
      ]
    ]
  ]

  -- Every expanded path is in the object, behind mappings only, and is empty only for an empty path.
  pub all_paths-Direct :
      (o : Object y) (paths : List FieldPath)
      → TextKeys o
      → All (λ path. path ≢ []) paths
      → All (λ q. Direct y o q × (q ≢ [])) (all_paths y o paths)
  all_paths-Direct o [] t h = tt
  all_paths-Direct o (path ∷ paths) t (n, h) =
      All-append (λ q. Direct y o q × (q ≢ [])) (paths_of y [] path o) (all_paths y o paths)
        (All-map (DirectBehind o [] path) (λ q. Direct y o q × (q ≢ [])) _
          (λ q (s, e, d, k). (subst (Direct y o) (sym e) d, λ z. n (k (sym e ∙ z))))
          (paths_of-Direct [] path o t))
        (all_paths-Direct o paths t h)
