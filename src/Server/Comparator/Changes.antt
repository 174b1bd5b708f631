-- ===== src/Server/Comparator/Changes.antt =====
-- How two values under one key differ, and what the comparison of
-- server/src/ankaios_server/state_comparator.rs inserts for them.
use ankaios.Prelude.{
  String, false, List, [], ◌∷◌, list_eq, none, some, ◌≡◌, ◌⊎◌, refl, sym, ap, subst, Option-cases,
  Bool-cases, inl, inr, IsIn,
}
use ankaios.Common.Path.{FieldPath}
use ankaios.Common.Yaml.{Yaml, Comparison}
use ankaios.Server.Comparator.{
  Difference, added, removed, filled, emptied, updated, KeyOutcome, both, no_elements,
  difference_of, compare_sequences, compare_values, common_key,
}

module _ (y : Yaml) (c : Comparison y) where
  abbrev pub AreSequences : y.Value → y.Value → List y.Value → List y.Value → Type 0
  AreSequences v w xs ys = (y.as_sequence v ≡ some xs) × (y.as_sequence w ≡ some ys)

  -- Two sequences with elements differ, or two values that are not both sequences.
  abbrev pub IsUpdate : y.Value → y.Value → Type 0
  IsUpdate v w =
      ((xs : List y.Value) × (ys : List y.Value) × AreSequences v w xs ys
        × (no_elements xs ≡ false)
        × (no_elements ys ≡ false)
        × (list_eq c.equal xs ys ≡ false))
      ⊎ (((y.as_sequence v ≡ none) ⊎ (y.as_sequence w ≡ none)) × (c.equal v w ≡ false))

  -- How the old value and the new one under a path differ.
  abbrev pub HowDiffers : FieldPath → y.Value → y.Value → Difference y → Type 0
  HowDiffers path v w (added p nodes) = ⊥
  HowDiffers path v w (removed p nodes) = ⊥
  HowDiffers path v w (filled p) =
      (p ≡ path) × ((x : y.Value) × (xs : List y.Value) × AreSequences v w [] (x ∷ xs))
  HowDiffers path v w (emptied p) =
      (p ≡ path) × ((x : y.Value) × (xs : List y.Value) × AreSequences v w (x ∷ xs) [])
  HowDiffers path v w (updated p) = (p ≡ path) × IsUpdate v w

  abbrev pub NotBothMappings : y.Value → y.Value → Type 0
  NotBothMappings v w = (y.as_mapping v ≡ none) ⊎ (y.as_mapping w ≡ none)

  pub only_this : (d f : Difference y) (P : Difference y → Type 0) → IsIn d (f ∷ []) → P f → P d
  only_this d f P (inl same) h = subst P same h
  only_this d f P (inr more) h = absurd more

  sequences-HowDiffers :
      (path : FieldPath) (v w : y.Value) (xs ys : List y.Value) (d : Difference y)
      → AreSequences v w xs ys
      → IsIn d (difference_of y (compare_sequences y c path xs ys))
      → HowDiffers path v w d
  unfolding compare_sequences list_eq
  sequences-HowDiffers path v w [] [] d s h = absurd h
  sequences-HowDiffers path v w [] (x ∷ ys) d s h =
      only_this d (filled path) (HowDiffers path v w) h (refl, (x, ys, s))
  sequences-HowDiffers path v w (x ∷ xs) [] d s h =
      only_this d (emptied path) (HowDiffers path v w) h (refl, (x, xs, s))
  sequences-HowDiffers path v w (x ∷ xs) (z ∷ ys) d s h =
      elim (Bool-cases (list_eq c.equal (x ∷ xs) (z ∷ ys))) [
        | inl e ↦ absurd (rw (e, compare_sequences) at h)
        | inr e ↦
            let found : IsIn d (updated path ∷ []) = rw (e, compare_sequences) at h in
            only_this d (updated path) (HowDiffers path v w) found
              (refl, inl (x ∷ xs, z ∷ ys, s, refl, refl, e))
      ]

  values-HowDiffers :
      (path : FieldPath) (v w : y.Value) (d : Difference y)
      → (y.as_sequence v ≡ none) ⊎ (y.as_sequence w ≡ none)
      → IsIn d (difference_of y (compare_values y c path v w))
      → HowDiffers path v w d
  unfolding compare_values
  values-HowDiffers path v w d s h = elim (Bool-cases (c.equal v w)) [
    | inl e ↦ absurd (rw (e, compare_values) at h)
    | inr e ↦
        let found : IsIn d (updated path ∷ []) = rw (e, compare_values) at h in
        only_this d (updated path) (HowDiffers path v w) found (refl, inr (s, e))
  ]

  -- What is compared where there are not mappings in both.
  abbrev pub unmapped : FieldPath → y.Value → y.Value → KeyOutcome y
  unmapped path v w =
      both (y.as_sequence v) (y.as_sequence w) (compare_sequences y c path)
        (compare_values y c path v w)

  unmapped-HowDiffers :
      (path : FieldPath) (v w : y.Value) (d : Difference y)
      → IsIn d (difference_of y (unmapped path v w))
      → HowDiffers path v w d
  unmapped-HowDiffers path v w d h = elim (Option-cases (y.as_sequence v)) [
    | inl e ↦ values-HowDiffers path v w d (inl e) (rw (e, both) at h)
    | inr (xs, e) ↦ elim (Option-cases (y.as_sequence w)) [
      | inl f ↦ values-HowDiffers path v w d (inr f) (rw (e, f, both) at h)
      | inr (ys, f) ↦ sequences-HowDiffers path v w xs ys d (e, f) (rw (e, f, both) at h)
    ]
  ]

  updated-here :
      (p path : FieldPath) → p ≡ path → IsIn {A = Difference y} (updated p) (updated path ∷ [])
  updated-here p path e = inl (ap (λ z. updated z) (sym e))

  pub HowDiffers-unmapped :
      (path : FieldPath) (v w : y.Value) (d : Difference y)
      → HowDiffers path v w d
      → IsIn d (difference_of y (unmapped path v w))
  unfolding compare_sequences compare_values
  HowDiffers-unmapped path v w (added p nodes) h = absurd h
  HowDiffers-unmapped path v w (removed p nodes) h = absurd h
  HowDiffers-unmapped path v w (filled p) (e, (x, xs, (f, g))) =
      rw (f, g, both) (inl (ap (λ z. filled z) (sym e)))
  HowDiffers-unmapped path v w (emptied p) (e, (x, xs, (f, g))) =
      rw (f, g, both) (inl (ap (λ z. emptied z) (sym e)))
  HowDiffers-unmapped path v w (updated p) (e, inl (xs, ys, (f, g), a, b, q)) =
      rw (f, g, both, compare_sequences, a, b, q) (updated-here p path e)
  HowDiffers-unmapped path v w (updated p) (e, inr (inl f, q)) =
      rw (f, both, compare_values, q) (updated-here p path e)
  HowDiffers-unmapped path v w (updated p) (e, inr (inr g, q)) =
      elim (Option-cases (y.as_sequence v)) [
        | inl f ↦ rw (f, both, compare_values, q) (updated-here p path e)
        | inr (xs, f) ↦ rw (f, g, both, compare_values, q) (updated-here p path e)
      ]

  pub common_key-unmapped :
      (path : FieldPath) (k : String) (v w : y.Value)
      → NotBothMappings v w
      → common_key y c path k v w ≡ unmapped path v w
  unfolding common_key
  common_key-unmapped path k v w (inl e) = rw (e, common_key, both) refl
  common_key-unmapped path k v w (inr f) = elim (Option-cases (y.as_mapping v)) [
    | inl e ↦ rw (e, common_key, both) refl
    | inr (m, e) ↦ rw (e, f, common_key, both) refl
  ]

  pub common_key-HowDiffers :
      (path : FieldPath) (k : String) (v w : y.Value) (d : Difference y)
      → IsIn d (difference_of y (common_key y c path k v w))
      → NotBothMappings v w × HowDiffers path v w d
  unfolding common_key
  common_key-HowDiffers path k v w d h = elim (Option-cases (y.as_mapping v)) [
    | inl e ↦ (
      inl e,
      unmapped-HowDiffers path v w d
          (subst (λ o. IsIn d (difference_of y o)) (common_key-unmapped path k v w (inl e)) h),
    )
    | inr (m, e) ↦ elim (Option-cases (y.as_mapping w)) [
      | inl f ↦ (
        inr f,
        unmapped-HowDiffers path v w d
            (subst (λ o. IsIn d (difference_of y o)) (common_key-unmapped path k v w (inr f)) h),
      )
      | inr (n, f) ↦ absurd (rw (e, f, common_key, both) at h)
    ]
  ]
