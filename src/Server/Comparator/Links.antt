-- ===== src/Server/Comparator/Links.antt =====
-- Which pairs of mappings the comparison visits below a pair.
use ankaios.Prelude.{
  String, List, [], ◌∷◌, ◌++◌, Option, none, some, ◌≡◌, refl, ap, ◌∙◌, Option-cases, inl, inr, IsIn,
  collected-IsIn, IsIn-collected,
}
use ankaios.Common.Path.{FieldPath}
use ankaios.Common.Yaml.{Yaml, Comparison}
use ankaios.Server.Comparator.{convert_key_to_string}
use ankaios.Server.Comparator.{
  Child, both, compare_sequences, compare_values, common_key, old_key, child_of, pair_children,
}
use ankaios.Server.Comparator.Reference.{compare_sequences-child, compare_values-child}

-- Under one key of both mappings stand mappings again.
abbrev pub AreLinked : (y : Yaml) → Comparison y → y.Mapping → y.Mapping → Child y → Type 0
AreLinked y c old new child =
    (e : y.Value × y.Value) × (v : y.Value) × IsIn e (y.entries old)
    × (y.lookup new e.0 ≡ some v)
    × (convert_key_to_string y c e.0 ≡ some child.0)
    × (y.as_mapping e.1 ≡ some child.1.0)
    × (y.as_mapping v ≡ some child.1.1)

module _ (y : Yaml) (c : Comparison y) where
  -- Both values are mappings, which are those of the child, and the key is its key.
  abbrev AreBelow : String → y.Value → y.Value → Child y → Type 0
  AreBelow k v w child =
      (k ≡ child.0) × (y.as_mapping v ≡ some child.1.0) × (y.as_mapping w ≡ some child.1.1)

  not_both :
      (path : FieldPath) (vs ws : Option (List y.Value)) (v w : y.Value) (child : Child y)
      → IsIn child
          (child_of y (both vs ws (compare_sequences y c path) (compare_values y c path v w)))
      → ⊥
  not_both path none ws v w child h = rw (compare_values-child y c path v w) at h
  not_both path (some vs) none v w child h = rw (compare_values-child y c path v w) at h
  not_both path (some vs) (some ws) v w child h = rw (compare_sequences-child y c path vs ws) at h

  common_key-below :
      (path : FieldPath) (k : String) (v w : y.Value) (child : Child y)
      → IsIn child (child_of y (common_key y c path k v w))
      → AreBelow k v w child
  unfolding common_key
  common_key-below path k v w child h = elim (Option-cases (y.as_mapping v)) [
    | inl e ↦ absurd (
        not_both path (y.as_sequence v) (y.as_sequence w) v w child (rw (e, common_key, both) at h))
    | inr (m, e) ↦ elim (Option-cases (y.as_mapping w)) [
      | inl f ↦ absurd (
          not_both path (y.as_sequence v) (y.as_sequence w) v w child
            (rw (e, f, common_key, both) at h))
      | inr (n, f) ↦
          let found : IsIn child ((k, (m, n)) ∷ []) = rw (e, f, common_key, both) at h in
          elim found [
            | inl same ↦ (
              ap (λ (d : Child y). d.0) same,
              e ∙ ap (λ (d : Child y). some d.1.0) same,
              f ∙ ap (λ (d : Child y). some d.1.1) same,
            )
            | inr more ↦ absurd more
          ]
    ]
  ]

  below-common_key :
      (path : FieldPath) (k : String) (v w : y.Value) (child : Child y)
      → AreBelow k v w child
      → IsIn child (child_of y (common_key y c path k v w))
  unfolding common_key
  below-common_key path k v w (j, (m, n)) (e, f, g) =
      rw (f, g, common_key, both) (inl (ap (λ (i : String). (i, (m, n))) e))

  old_key-below :
      (mask : FieldPath) (new : y.Mapping) (e : y.Value × y.Value) (child : Child y)
      → IsIn child (child_of y (old_key y c mask new e))
      → (w : y.Value) × (y.lookup new e.0 ≡ some w)
        × (convert_key_to_string y c e.0 ≡ some child.0)
        × (y.as_mapping e.1 ≡ some child.1.0)
        × (y.as_mapping w ≡ some child.1.1)
  unfolding old_key
  old_key-below mask new e child h = elim (Option-cases (y.lookup new e.0)) [
    | inl k ↦ elim (Option-cases (convert_key_to_string y c e.0)) [
      | inl t ↦ absurd (rw (k, t, old_key) at h)
      | inr (s, t) ↦ absurd (rw (k, t, old_key) at h)
    ]
    | inr (w, k) ↦ elim (Option-cases (convert_key_to_string y c e.0)) [
      | inl t ↦ absurd (rw (k, t, old_key) at h)
      | inr (s, t) ↦
          let (same, m, n) =
            common_key-below (mask ++ s ∷ []) s e.1 w child (rw (k, t, old_key) at h) in
          (w, k, t ∙ ap (λ (i : String). some i) same, m, n)
    ]
  ]

  below-old_key :
      (mask : FieldPath) (new : y.Mapping) (e : y.Value × y.Value) (child : Child y) (w : y.Value)
      → y.lookup new e.0 ≡ some w
      → convert_key_to_string y c e.0 ≡ some child.0
      → y.as_mapping e.1 ≡ some child.1.0
      → y.as_mapping w ≡ some child.1.1
      → IsIn child (child_of y (old_key y c mask new e))
  unfolding old_key
  below-old_key mask new e child w k t m n =
      rw (k, t, old_key) (below-common_key (mask ++ child.0 ∷ []) child.0 e.1 w child (refl, m, n))

  pub children-linked :
      (mask : FieldPath) (old new : y.Mapping) (child : Child y)
      → IsIn child (pair_children y c mask old new)
      → AreLinked y c old new child
  unfolding pair_children
  children-linked mask old new child h =
      let (e, there, from) =
        collected-IsIn (λ e. child_of y (old_key y c mask new e)) child (y.entries old) h in
      let (w, k, t, m, n) = old_key-below mask new e child from in (e, w, there, k, t, m, n)

  pub linked-children :
      (mask : FieldPath) (old new : y.Mapping) (child : Child y)
      → AreLinked y c old new child
      → IsIn child (pair_children y c mask old new)
  unfolding pair_children
  linked-children mask old new child (e, w, there, k, t, m, n) =
      IsIn-collected (λ e. child_of y (old_key y c mask new e)) child (y.entries old) e there
        (below-old_key mask new e child w k t m n)
