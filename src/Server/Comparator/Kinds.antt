-- ===== src/Server/Comparator/Kinds.antt =====
-- How two mappings differ at one of their keys, and what the comparison of
-- server/src/ankaios_server/state_comparator.rs inserts for it.
use ankaios.Prelude.{
  String, [], ◌∷◌, ◌++◌, none, some, ◌≡◌, refl, Option-cases, inl, inr, IsIn, collected,
  collected-IsIn, IsIn-collected, Any-append_left, Any-append_right, Any-append_cases,
}
use ankaios.Common.Path.{FieldPath}
use ankaios.Common.Yaml.{Yaml, Comparison}
use ankaios.Server.Comparator.{
  Difference, added, removed, filled, emptied, updated, difference_of, copied,
  convert_key_to_string, added_key, old_key, pair_differences,
}
use ankaios.Server.Comparator.Copies.{IsCopy, copied-IsCopy, IsCopy-copied}
use ankaios.Server.Comparator.Changes.{
  HowDiffers, NotBothMappings, only_this, HowDiffers-unmapped, common_key-unmapped,
  common_key-HowDiffers,
}

module _ (y : Yaml) (c : Comparison y) where
  -- A key of the first mapping that the other one does not have, with the nodes of its value.
  abbrev pub IsOnlyIn : y.Mapping → y.Mapping → FieldPath → FieldPath → y.Value → Type 0
  IsOnlyIn m other path p nodes =
      (e : y.Value × y.Value) × (k : String) × IsIn e (y.entries m)
      × (y.lookup other e.0 ≡ none)
      × (convert_key_to_string y c e.0 ≡ some k)
      × (p ≡ path ++ k ∷ [])
      × IsCopy y e.1 nodes

  -- A key of both mappings, under which there are not mappings in both, but values that differ.
  abbrev pub IsInBoth : y.Mapping → y.Mapping → FieldPath → Difference y → Type 0
  IsInBoth old new path d =
      (e : y.Value × y.Value) × (w : y.Value) × (k : String) × IsIn e (y.entries old)
      × (y.lookup new e.0 ≡ some w)
      × (convert_key_to_string y c e.0 ≡ some k)
      × NotBothMappings y c e.1 w
      × HowDiffers y c (path ++ k ∷ []) e.1 w d

  -- What a difference says of two mappings under a path.
  abbrev pub IsDifference : FieldPath → y.Mapping → y.Mapping → Difference y → Type 0
  IsDifference path old new (added p nodes) = IsOnlyIn new old path p nodes
  IsDifference path old new (removed p nodes) = IsOnlyIn old new path p nodes
  IsDifference path old new (filled p) = IsInBoth old new path (filled p)
  IsDifference path old new (emptied p) = IsInBoth old new path (emptied p)
  IsDifference path old new (updated p) = IsInBoth old new path (updated p)

  IsInBoth-IsDifference :
      (path : FieldPath) (old new : y.Mapping) (d : Difference y)
      → IsInBoth old new path d
      → IsDifference path old new d
  IsInBoth-IsDifference path old new (added p nodes) (e, w, k, _, _, _, _, h) = absurd h
  IsInBoth-IsDifference path old new (removed p nodes) (e, w, k, _, _, _, _, h) = absurd h
  IsInBoth-IsDifference path old new (filled p) h = h
  IsInBoth-IsDifference path old new (emptied p) h = h
  IsInBoth-IsDifference path old new (updated p) h = h

  added_key-IsDifference :
      (path : FieldPath) (old new : y.Mapping) (e : y.Value × y.Value) (d : Difference y)
      → IsIn e (y.entries new)
      → IsIn d (added_key y c path old e)
      → IsDifference path old new d
  unfolding added_key
  added_key-IsDifference path old new e d there h = elim (Option-cases (y.lookup old e.0)) [
    | inr (v, a) ↦ absurd (rw (a, added_key) at h)
    | inl a ↦ elim (Option-cases (convert_key_to_string y c e.0)) [
      | inl k ↦ absurd (rw (a, k, added_key) at h)
      | inr (s, k) ↦
          let d' : Difference y = added (path ++ s ∷ []) (copied y c e.1) in
          let found : IsIn d (d' ∷ []) = rw (a, k, added_key) at h in
          only_this y c d d' (IsDifference path old new) found
            (e, s, there, a, k, refl, copied-IsCopy y c e.1)
    ]
  ]

  old_key-IsDifference :
      (path : FieldPath) (old new : y.Mapping) (e : y.Value × y.Value) (d : Difference y)
      → IsIn e (y.entries old)
      → IsIn d (difference_of y (old_key y c path new e))
      → IsDifference path old new d
  unfolding old_key
  old_key-IsDifference path old new e d there h =
      elim (Option-cases (convert_key_to_string y c e.0)) [
        | inl k ↦ elim (Option-cases (y.lookup new e.0)) [
          | inl a ↦ absurd (rw (a, k, old_key) at h)
          | inr (w, a) ↦ absurd (rw (a, k, old_key) at h)
        ]
        | inr (s, k) ↦ elim (Option-cases (y.lookup new e.0)) [
          | inl a ↦
              let d' : Difference y = removed (path ++ s ∷ []) (copied y c e.1) in
              let found : IsIn d (d' ∷ []) = rw (a, k, old_key) at h in
              only_this y c d d' (IsDifference path old new) found
                (e, s, there, a, k, refl, copied-IsCopy y c e.1)
          | inr (w, a) ↦
              let (apart, how) =
                common_key-HowDiffers y c (path ++ s ∷ []) s e.1 w d (rw (a, k, old_key) at h) in
              IsInBoth-IsDifference path old new d (e, w, s, there, a, k, apart, how)
        ]
      ]

  pub pair_differences-IsDifference :
      (path : FieldPath) (old new : y.Mapping) (d : Difference y)
      → IsIn d (pair_differences y c path old new)
      → IsDifference path old new d
  unfolding pair_differences
  pair_differences-IsDifference path old new d h =
      elim (Any-append_cases (λ z. z ≡ d) (collected (added_key y c path old) (y.entries new))
        (collected (λ e. difference_of y (old_key y c path new e)) (y.entries old)) h) [
          | inl l ↦
              let (e, there, from) = collected-IsIn (added_key y c path old) d (y.entries new) l in
              added_key-IsDifference path old new e d there from
          | inr r ↦
              let (e, there, from) =
                collected-IsIn (λ e. difference_of y (old_key y c path new e)) d (y.entries old)
                  r in
              old_key-IsDifference path old new e d there from
        ]

  from_old :
      (path : FieldPath) (old new : y.Mapping) (d : Difference y) (e : y.Value × y.Value)
      → IsIn e (y.entries old)
      → IsIn d (difference_of y (old_key y c path new e))
      → IsIn d (pair_differences y c path old new)
  unfolding pair_differences
  from_old path old new d e there h =
      Any-append_right (λ z. z ≡ d) (collected (added_key y c path old) (y.entries new))
        (collected (λ e. difference_of y (old_key y c path new e)) (y.entries old))
        (IsIn-collected (λ e. difference_of y (old_key y c path new e)) d (y.entries old) e there h)

  IsInBoth-pair_differences :
      (path : FieldPath) (old new : y.Mapping) (d : Difference y)
      → IsInBoth old new path d
      → IsIn d (pair_differences y c path old new)
  unfolding old_key
  IsInBoth-pair_differences path old new d (e, w, k, there, a, t, apart, how) =
      from_old path old new d e there (
        rw (a, t, old_key, common_key-unmapped y c (path ++ k ∷ []) k e.1 w apart)
          (HowDiffers-unmapped y c (path ++ k ∷ []) e.1 w d how))

  pub IsDifference-pair_differences :
      (path : FieldPath) (old new : y.Mapping) (d : Difference y)
      → IsDifference path old new d
      → IsIn d (pair_differences y c path old new)
  unfolding added_key old_key pair_differences
  IsDifference-pair_differences path old new (added p nodes) (e, k, there, a, t, same, copy) =
      Any-append_left (λ z. z ≡ added p nodes) (collected (added_key y c path old) (y.entries new))
        (collected (λ e. difference_of y (old_key y c path new e)) (y.entries old))
        (IsIn-collected (added_key y c path old) (added p nodes) (y.entries new) e there
          (rw (a, t, added_key, same, IsCopy-copied y c e.1 nodes copy) (inl refl)))
  IsDifference-pair_differences path old new (removed p nodes) (e, k, there, a, t, same, copy) =
      from_old path old new (removed p nodes) e there
        (rw (a, t, old_key, same, IsCopy-copied y c e.1 nodes copy) (inl refl))
  IsDifference-pair_differences path old new (filled p) h =
      IsInBoth-pair_differences path old new (filled p) h
  IsDifference-pair_differences path old new (emptied p) h =
      IsInBoth-pair_differences path old new (emptied p) h
  IsDifference-pair_differences path old new (updated p) h =
      IsInBoth-pair_differences path old new (updated p) h
