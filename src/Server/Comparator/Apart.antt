-- ===== src/Server/Comparator/Apart.antt =====
-- How the paths of the differences lie to each other that server/src/ankaios_server/state_comparator.rs finds.
use ankaios.Prelude.{
  String, List, [], ◌∷◌, ◌++◌, All, Option, none, some, ok, ◌≡◌, ◌≢◌, refl, sym, ap, ◌∙◌, subst,
  Option-cases, Bool-cases, not, ◌&&◌, list_eq, inl, inr, IsIn, collected, collected-IsIn,
  Any-append_cases,
}
use ankaios.Common.Path.{FieldPath}
use ankaios.Common.Yaml.{Yaml, Comparison}
use ankaios.Server.Comparator.{convert_key_to_string}
use ankaios.Common.Wildcards.Expanded.{HasTextKey, TextKeys, TextKeys-child}
use ankaios.Common.Object.Opening.{Covers-empty}
use ankaios.Common.Object.Within.{ProperPrefix, get-here}
use ankaios.Server.Comparator.{
  Difference, added, removed, filled, emptied, updated, no_elements, copied, StateDifferenceTree,
  both, added_key, compare_sequences, compare_values, common_key, old_key, difference_of,
  pair_differences, new_state_difference_tree, state_differences, Child,
}
use ankaios.Server.Comparator.Links.{AreLinked}
use ankaios.Server.Comparator.Meaning.{
  Reaches, here, through, IsVisited, state_differences-IsVisited,
}
use ankaios.Server.Comparator.Inserting.{path_of, AreApart, insert_all-total}

snoc_prefix :
    (p q : FieldPath) (j k : String)
    → ProperPrefix (p ++ j ∷ []) (q ++ k ∷ [])
    → (rest : FieldPath) × (q ≡ p ++ j ∷ rest)
snoc_prefix [] [] j k h = absurd h.1
snoc_prefix [] (a ∷ q) j k (e, h) = (q, ap (λ (z : String). z ∷ q) (sym e))
snoc_prefix (b ∷ []) [] j k (e, h) = absurd h
snoc_prefix (b ∷ (c ∷ p)) [] j k (e, h) = absurd h
snoc_prefix (b ∷ p) (a ∷ q) j k (e, h) =
    let (rest, same) = snoc_prefix p q j k h in (rest, cc (e, same))

snoc-ne-nil : (p : FieldPath) (k : String) → p ++ k ∷ [] ≢ []
snoc-ne-nil [] k e = cc
snoc-ne-nil (a ∷ p) k e = cc

module _ (y : Yaml) (c : Comparison y) where
  -- Both mappings have a mapping under the key.
  abbrev BothMappings : y.Mapping → y.Mapping → String → y.Mapping → y.Mapping → Type 0
  BothMappings old new k m n =
      (v : y.Value) × (w : y.Value) × (y.lookup old (y.text k) ≡ some v)
      × (y.lookup new (y.text k) ≡ some w)
      × (y.as_mapping v ≡ some m)
      × (y.as_mapping w ≡ some n)

  text_key :
      (entries : List (y.Value × y.Value)) (e : y.Value × y.Value) (k : String)
      → All (HasTextKey y) entries
      → IsIn e entries
      → convert_key_to_string y c e.0 ≡ some k
      → e.0 ≡ y.text k
  text_key [] e k h i t = absurd i
  text_key (f ∷ entries) e k (h, hs) (inr i) t = text_key entries e k hs i t
  text_key (f ∷ entries) e k ((s, h), hs) (inl same) t =
      let at : y.as_text e.0 ≡ some s =
        subst (λ (z : y.Value × y.Value). y.as_text z.0 ≡ some s) same h in
      let found : some s ≡ some k = rw (at, convert_key_to_string) at t in
      y.text-as_text e.0 k (at ∙ found)

  looked_up :
      (m : y.Mapping) (entries : List (y.Value × y.Value)) (e : y.Value × y.Value)
      → All (λ z. y.lookup m z.0 ≡ some z.1) entries
      → IsIn e entries
      → y.lookup m e.0 ≡ some e.1
  looked_up m [] e h i = absurd i
  looked_up m (f ∷ entries) e (h, hs) (inl same) =
      subst (λ (z : y.Value × y.Value). y.lookup m z.0 ≡ some z.1) same h
  looked_up m (f ∷ entries) e (h, hs) (inr i) = looked_up m entries e hs i

  abbrev HasTexts : y.Mapping → Type 0
  HasTexts m = TextKeys y (y.from_mapping m)

  entries_texts : (m : y.Mapping) → HasTexts m → All (HasTextKey y) (y.entries m)
  entries_texts m t =
      t [] (y.from_mapping m) m (get-here y (y.from_mapping m)) (y.as_mapping-from m)

  texts_below :
      (m n : y.Mapping) (k : String) (v : y.Value)
      → y.lookup m (y.text k) ≡ some v
      → y.as_mapping v ≡ some n
      → HasTexts m
      → HasTexts n
  texts_below m n k v e f t =
      subst (TextKeys y) (sym (y.from-as_mapping v n f))
        (TextKeys-child y (y.from_mapping m) v m k (y.as_mapping-from m) e t)

  linked-both :
      (old new : y.Mapping) (child : Child y)
      → HasTexts old
      → AreLinked y c old new child
      → BothMappings old new child.0 child.1.0 child.1.1
  linked-both old new child t (e, w, there, a, k, m, n) =
      let key = text_key (y.entries old) e child.0 (entries_texts old t) there k in
      (
        e.1,
        w,
        ap (y.lookup old) (sym key) ∙ looked_up old (y.entries old) e (y.lookup-entries old) there,
        ap (y.lookup new) (sym key) ∙ a,
        m,
        n,
      )

  abbrev Steps : y.Mapping → y.Mapping → FieldPath → y.Mapping → y.Mapping → Type 0
  Steps old new [] o n = (old ≡ o) × (new ≡ n)
  Steps old new (k ∷ path) o n =
      (m : y.Mapping) × (m' : y.Mapping) × BothMappings old new k m m' × Steps m m' path o n

  Steps-of :
      {old new o n : y.Mapping} {path : FieldPath}
      → HasTexts old
      → Reaches y c old new path o n
      → Steps old new path o n
  Steps-of t (here old new) = (refl, refl)
  Steps-of {old} {new} t (through child link reaches) =
      let both_there = linked-both old new child t link in
      let (v, w, a, b, m, n) = both_there in
      (
        child.1.0,
        child.1.1,
        both_there,
        Steps-of {old = child.1.0} {new = child.1.1} (texts_below old child.1.0 child.0 v a m t)
            reaches,
      )

  same_child :
      (old new m m' n n' : y.Mapping) (k : String)
      → BothMappings old new k m m'
      → BothMappings old new k n n'
      → (m ≡ n) × (m' ≡ n')
  same_child old new m m' n n' k (v, w, a, b, c, d) (v', w', a', b', c', d') =
      (cc (a, a', c, c'), cc (b, b', d, d'))

  -- A path that goes on behind another one goes through mappings there.
  goes_on :
      (old new o n o' n' : y.Mapping) (path : FieldPath) (k : String) (rest : FieldPath)
      → Steps old new path o n
      → Steps old new (path ++ k ∷ rest) o' n'
      → (m : y.Mapping) × (m' : y.Mapping) × BothMappings o n k m m'
  goes_on old new o n o' n' [] k rest (e, f) (m, m', b, s) =
      (m, m', subst (λ z. BothMappings o z k m m') f (subst (λ z. BothMappings z new k m m') e b))
  goes_on old new o n o' n' (j ∷ path) k rest (m, m', b, s) (i, i', c, s') =
      let (same, same') = same_child old new i i' m m' j c b in
      goes_on m m' o n o' n' path k rest s (
        subst (λ z. Steps m z (path ++ k ∷ rest) o' n') same'
          (subst (λ z. Steps z i' (path ++ k ∷ rest) o' n') same s'))

  -- The difference is at a key of the two mappings under which there are not mappings in both.
  abbrev IsAt : FieldPath → y.Mapping → y.Mapping → Difference y → Type 0
  IsAt mask old new d =
      (k : String) × (path_of y d ≡ mask ++ k ∷ [])
      × ((m : y.Mapping) (m' : y.Mapping) → BothMappings old new k m m' → ⊥)

  added_key-IsAt :
      (mask : FieldPath) (old new : y.Mapping) (e : y.Value × y.Value) (d : Difference y)
      → HasTexts new
      → IsIn e (y.entries new)
      → IsIn d (added_key y c mask old e)
      → IsAt mask old new d
  unfolding added_key
  added_key-IsAt mask old new e d t there h = elim (Option-cases (y.lookup old e.0)) [
    | inr (v, a) ↦ absurd (rw (a, added_key) at h)
    | inl a ↦ elim (Option-cases (convert_key_to_string y c e.0)) [
      | inl k ↦ absurd (rw (a, k, added_key) at h)
      | inr (s, k) ↦
          let found : IsIn d (added (mask ++ s ∷ []) (copied_of e.1) ∷ []) =
            rw (a, k, added_key) at h in
          let key = text_key (y.entries new) e s (entries_texts new t) there k in
          elim found [
            | inl same ↦ (
              s,
              ap (path_of y) (sym same),
              λ m m' (v, w, b, _, _, _). cc (b, a, ap (y.lookup old) key),
            )
            | inr more ↦ absurd more
          ]
    ]
  ]
    where
      copied_of : y.Value → y.Value
      copied_of v = copied y c v

  sequences-path :
      (path : FieldPath) (old new : List y.Value) (d : Difference y)
      → IsIn d (difference_of y (compare_sequences y c path old new))
      → path_of y d ≡ path
  unfolding compare_sequences
  sequences-path path old new d h = elim (Bool-cases (no_elements old && not (no_elements new))) [
    | inl a ↦ one_path (filled path) (rw (a, compare_sequences) at h)
    | inr a ↦ elim (Bool-cases (not (no_elements old) && no_elements new)) [
      | inl b ↦ one_path (emptied path) (rw (a, b, compare_sequences) at h)
      | inr b ↦ elim (Bool-cases (list_eq c.equal old new)) [
        | inl e ↦ absurd (rw (a, b, e, compare_sequences) at h)
        | inr e ↦ one_path (updated path) (rw (a, b, e, compare_sequences) at h)
      ]
    ]
  ]
    where
      one_path : (f : Difference y) → IsIn d (f ∷ []) → path_of y d ≡ path_of y f
      one_path f (inl same) = ap (path_of y) (sym same)
      one_path f (inr more) = absurd more

  values-path :
      (path : FieldPath) (old new : y.Value) (d : Difference y)
      → IsIn d (difference_of y (compare_values y c path old new))
      → path_of y d ≡ path
  unfolding compare_values
  values-path path old new d h = elim (Bool-cases (c.equal old new)) [
    | inl e ↦ absurd (rw (e, compare_values) at h)
    | inr e ↦
        let found : IsIn d (updated path ∷ []) = rw (e, compare_values) at h in
        elim found [ inl same ↦ ap (path_of y) (sym same) | inr more ↦ absurd more ]
  ]

  unmapped-path :
      (path : FieldPath) (vs ws : Option (List y.Value)) (v w : y.Value) (d : Difference y)
      → IsIn d
          (difference_of y (both vs ws (compare_sequences y c path) (compare_values y c path v w)))
      → path_of y d ≡ path
  unmapped-path path none ws v w d h = values-path path v w d h
  unmapped-path path (some vs) none v w d h = values-path path v w d h
  unmapped-path path (some vs) (some ws) v w d h = sequences-path path vs ws d h

  common_key-path :
      (path : FieldPath) (k : String) (v w : y.Value) (d : Difference y)
      → IsIn d (difference_of y (common_key y c path k v w))
      → (path_of y d ≡ path)
        × ((m m' : y.Mapping) → y.as_mapping v ≡ some m → y.as_mapping w ≡ some m' → ⊥)
  unfolding common_key
  common_key-path path k v w d h = elim (Option-cases (y.as_mapping v)) [
    | inl e ↦ (
      unmapped-path path (y.as_sequence v) (y.as_sequence w) v w d (rw (e, common_key, both) at h),
      λ m m' a b. cc (a, e),
    )
    | inr (m, e) ↦ elim (Option-cases (y.as_mapping w)) [
      | inl f ↦ (
        unmapped-path path (y.as_sequence v) (y.as_sequence w) v w d
            (rw (e, f, common_key, both) at h),
        λ m m' a b. cc (b, f),
      )
      | inr (n, f) ↦ absurd (rw (e, f, common_key, both) at h)
    ]
  ]

  old_key-IsAt :
      (mask : FieldPath) (old new : y.Mapping) (e : y.Value × y.Value) (d : Difference y)
      → HasTexts old
      → IsIn e (y.entries old)
      → IsIn d (difference_of y (old_key y c mask new e))
      → IsAt mask old new d
  unfolding old_key
  old_key-IsAt mask old new e d t there h = elim (Option-cases (convert_key_to_string y c e.0)) [
    | inl k ↦ elim (Option-cases (y.lookup new e.0)) [
      | inl a ↦ absurd (rw (a, k, old_key) at h)
      | inr (w, a) ↦ absurd (rw (a, k, old_key) at h)
    ]
    | inr (s, k) ↦
        let key = text_key (y.entries old) e s (entries_texts old t) there k in
        elim (Option-cases (y.lookup new e.0)) [
          | inl a ↦
              let found : IsIn d (removed (mask ++ s ∷ []) (copied y c e.1) ∷ []) =
                rw (a, k, old_key) at h in
              elim found [
                | inl same ↦ (
                  s,
                  ap (path_of y) (sym same),
                  λ m m' (v, w, _, b, _, _). cc (b, a, ap (y.lookup new) key),
                )
                | inr more ↦ absurd more
              ]
          | inr (w, a) ↦
              let (path, apart) =
                common_key-path (mask ++ s ∷ []) s e.1 w d (rw (a, k, old_key) at h) in
              (
                s,
                path,
                λ m m' (v, w', b, b', f, g).
                    apart m m'
                      (cc (
                        f,
                        b,
                        looked_up old (y.entries old) e (y.lookup-entries old) there,
                        ap (y.lookup old) key,
                      ))
                      (cc (g, b', a, ap (y.lookup new) key)),
              )
        ]
  ]

  pair_differences-IsAt :
      (mask : FieldPath) (old new : y.Mapping) (d : Difference y)
      → HasTexts old
      → HasTexts new
      → IsIn d (pair_differences y c mask old new)
      → IsAt mask old new d
  unfolding pair_differences
  pair_differences-IsAt mask old new d t u h =
      elim (Any-append_cases (λ z. z ≡ d) (collected (added_key y c mask old) (y.entries new))
        (collected (λ e. difference_of y (old_key y c mask new e)) (y.entries old)) h) [
          | inl k ↦
              let (e, there, from) = collected-IsIn (added_key y c mask old) d (y.entries new) k in
              added_key-IsAt mask old new e d u there from
          | inr k ↦
              let (e, there, from) =
                collected-IsIn (λ e. difference_of y (old_key y c mask new e)) d (y.entries old)
                  k in
              old_key-IsAt mask old new e d t there from
        ]

  texts_reached :
      (old new o n : y.Mapping) (path : FieldPath)
      → HasTexts old
      → HasTexts new
      → Steps old new path o n
      → HasTexts o × HasTexts n
  texts_reached old new o n [] t u (e, f) = (subst HasTexts e t, subst HasTexts f u)
  texts_reached old new o n (k ∷ path) t u (m, m', (v, w, a, b, f, g), s) =
      texts_reached m m' o n path (texts_below old m k v a f t) (texts_below new m' k w b g u) s

  found-AreApart :
      (old new : y.Mapping) (ds : List (Difference y))
      → HasTexts old
      → HasTexts new
      → ((d : Difference y) → IsIn d ds → IsVisited y c [] old new d)
      → AreApart y ds
  found-AreApart old new ds t u found d i =
      let (path, o, n, reaches, there) = found d i in
      let steps = Steps-of {old = old} {new = new} t reaches in
      let (texts, texts') = texts_reached old new o n path t u steps in
      let (k, at, _) = pair_differences-IsAt path o n d texts texts' there in
      (
        λ e. snoc-ne-nil path k (sym at ∙ e),
        λ other j prefix.
            let (path1, o1, n1, reaches1, there1) = found other j in
            let steps1 = Steps-of {old = old} {new = new} t reaches1 in
            let (texts1, texts1') = texts_reached old new o1 n1 path1 t u steps1 in
            let (k1, at1, apart) = pair_differences-IsAt path1 o1 n1 other texts1 texts1' there1 in
            let (rest, longer) = snoc_prefix path1 path k1 k (
              subst (ProperPrefix (path1 ++ k1 ∷ [])) at
                (subst (λ z. ProperPrefix z (path_of y d)) at1 prefix)) in
            let (m, m', both_there) =
              goes_on old new o1 n1 o n path1 k1 rest steps1
                (subst (λ z. Steps old new z o n) longer steps) in
            apart m m' both_there,
      )

  -- The comparison of two states whose mappings have texts as keys succeeds: each difference that it finds
  -- can be inserted, since no path of one leads through the end of another.
  pub state_differences-total :
      (old_state new_state : y.Mapping)
      → TextKeys y (y.from_mapping old_state)
      → TextKeys y (y.from_mapping new_state)
      → (t : StateDifferenceTree y) × (state_differences y c old_state new_state ≡ ok t)
  state_differences-total old_state new_state t u =
      let (ds, e, found) = state_differences-IsVisited y c old_state new_state in
      let empty_covered = Covers-empty y in
      let (tree, f) =
        insert_all-total y ds (new_state_difference_tree y)
          (found-AreApart old_state new_state ds t u (λ d i. (found d).0 i))
          ((empty_covered, empty_covered), ((empty_covered, empty_covered), empty_covered)) in
      (tree, e ∙ f)
