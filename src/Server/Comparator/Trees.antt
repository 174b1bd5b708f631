-- ===== src/Server/Comparator/Trees.antt =====
-- The tests for empty trees of server/src/ankaios_server/state_comparator.rs, the conversion of a tree to a
-- mapping, and that all trees of a comparison are mappings.
use ankaios.Prelude.{
  Bool, true, false, if◌then◌else◌, List, [], ◌∷◌, Option, none, some, refl, Result, ok, err,
  and_then, and_then-ok, Result-cases, option_then, subst, ◌≡◌, sym, ap, ◌∙◌, Option-cases, inl,
  inr,
}
use ankaios.Common.Path.{FieldPath, split_last}
use ankaios.Common.Yaml.{Yaml, Comparison}
use ankaios.Common.Object.{Object, empty_path, root_not_mapping, set, set_from, set_in}
use ankaios.Server.Comparator.{
  ComparisonError, illegal_state, no_elements, DifferenceTree, StateDifferenceTree, Difference,
  added, removed, filled, emptied, updated, insert_path, insert_first, insert_both,
  insert_difference, insert_all, new_state_difference_tree, state_differences,
}
use ankaios.Server.Comparator.Meaning.{state_differences-IsFound}

same_ok : {E A : Type 0} (a b : A) → ◌≡◌ {A = Result E A} (ok a) (ok b) → a ≡ b
same_ok a b h = cc

module _ (y : Yaml) where
  -- A panic is `none`: the data of the object is no mapping.
  unfoldable pub object_is_empty : Object y → Option Bool
  object_is_empty o = option_then (y.as_mapping o) (λ m. some (no_elements (y.entries m)))

  abbrev pub and_also : Option Bool → Option Bool → Option Bool
  and_also first second = option_then first (λ b. if b then second else some false)

  unfoldable pub difference_tree_is_empty : DifferenceTree y → Option Bool
  difference_tree_is_empty t =
      and_also (object_is_empty t.first_difference_tree) (object_is_empty t.full_difference_tree)

  unfoldable pub state_difference_tree_is_empty : StateDifferenceTree y → Option Bool
  state_difference_tree_is_empty t =
      and_also (difference_tree_is_empty t.added_tree)
        (and_also (difference_tree_is_empty t.removed_tree) (object_is_empty t.updated_tree))

  -- `TryFrom<Object> for Mapping` with `unwrap_or_illegal_state`
  unfoldable pub to_mapping : Object y → Result ComparisonError y.Mapping
  to_mapping o = elim (y.as_mapping o) [ none ↦ err illegal_state | some m ↦ ok m ]

  abbrev pub IsMapping : Object y → Type 0
  IsMapping o = (m : y.Mapping) × (y.as_mapping o ≡ some m)

  abbrev pub AreMappings : StateDifferenceTree y → Type 0
  AreMappings t =
      IsMapping t.added_tree.first_difference_tree
      × IsMapping t.added_tree.full_difference_tree
      × IsMapping t.removed_tree.first_difference_tree
      × IsMapping t.removed_tree.full_difference_tree
      × IsMapping t.updated_tree

  set-IsMapping :
      (o : Object y) (path : FieldPath) (v : y.Value) (r : Object y)
      → set y o path v ≡ ok r
      → IsMapping r
  unfolding set set_from
  set-IsMapping o path v r h =
      let (s, e, g) = and_then-ok (split_last empty_path path) (set_from y o v) r h in
      elim (Option-cases (y.as_mapping o)) [
        | inl n ↦ let refused : err root_not_mapping ≡ ok r = rw (n, set_from) at g in absurd cc
        | inr (root, n) ↦
            let inserted : and_then (set_in y root s.0 s.1 v)
                  (λ changed. ok (y.from_mapping changed))
                ≡ ok r =
              rw (n, set_from) at g in
            let (changed, k, last) = and_then-ok (set_in y root s.0 s.1 v) _ r inserted in
            (changed, cc (last, y.as_mapping-from changed))
      ]

  insert-IsMapping :
      (o : Object y) (path : FieldPath) (v : y.Value) (r : Object y)
      → IsMapping o
      → insert_path y o path v ≡ ok r
      → IsMapping r
  unfolding insert_path
  insert-IsMapping o [] v r m h = subst IsMapping (same_ok o r h) m
  insert-IsMapping o (part ∷ path) v r m h = elim (Result-cases (set y o (part ∷ path) v)) [
    | inl (e, k) ↦ let refused : err illegal_state ≡ ok r = rw k at h in absurd cc
    | inr (u, k) ↦ set-IsMapping o (part ∷ path) v r (k ∙ ap ok (same_ok u r (rw k at h)))
  ]

  abbrev BothMappings : DifferenceTree y → Type 0
  BothMappings t = IsMapping t.first_difference_tree × IsMapping t.full_difference_tree

  insert_first-BothMappings :
      (t r : DifferenceTree y) (path : FieldPath)
      → BothMappings t
      → insert_first y t path ≡ ok r
      → BothMappings r
  unfolding insert_first
  insert_first-BothMappings t r path (m, n) h =
      let (first, e, k) = and_then-ok (insert_path y t.first_difference_tree path y.null) _ r h in
      subst BothMappings (same_ok _ r k)
        (insert-IsMapping t.first_difference_tree path y.null first m e, n)

  insert_both-BothMappings :
      (t r : DifferenceTree y) (path : FieldPath) (nodes : y.Value)
      → BothMappings t
      → insert_both y t path nodes ≡ ok r
      → BothMappings r
  unfolding insert_both
  insert_both-BothMappings t r path nodes b h =
      let (u, e, k) = and_then-ok (insert_first y t path) _ r h in
      let (m, n) = insert_first-BothMappings t u path b e in
      let (full, f, l) = and_then-ok (insert_path y u.full_difference_tree path nodes) _ r k in
      subst BothMappings (same_ok _ r l)
        (m, insert-IsMapping u.full_difference_tree path nodes full n f)

  insert_difference-AreMappings :
      (t r : StateDifferenceTree y) (d : Difference y)
      → AreMappings t
      → insert_difference y t d ≡ ok r
      → AreMappings r
  unfolding insert_difference
  insert_difference-AreMappings t r (added path nodes) (a, b, c, d, last) h =
      let (u, e, k) = and_then-ok (insert_both y t.added_tree path nodes) _ r h in
      let (m, n) = insert_both-BothMappings t.added_tree u path nodes (a, b) e in
      subst AreMappings (same_ok _ r k) (m, n, c, d, last)
  insert_difference-AreMappings t r (removed path nodes) (a, b, c, d, last) h =
      let (u, e, k) = and_then-ok (insert_both y t.removed_tree path nodes) _ r h in
      let (m, n) = insert_both-BothMappings t.removed_tree u path nodes (c, d) e in
      subst AreMappings (same_ok _ r k) (a, b, m, n, last)
  insert_difference-AreMappings t r (filled path) (a, b, c, d, last) h =
      let (u, e, k) = and_then-ok (insert_first y t.added_tree path) _ r h in
      let (m, n) = insert_first-BothMappings t.added_tree u path (a, b) e in
      subst AreMappings (same_ok _ r k) (m, n, c, d, last)
  insert_difference-AreMappings t r (emptied path) (a, b, c, d, last) h =
      let (u, e, k) = and_then-ok (insert_first y t.removed_tree path) _ r h in
      let (m, n) = insert_first-BothMappings t.removed_tree u path (c, d) e in
      subst AreMappings (same_ok _ r k) (a, b, m, n, last)
  insert_difference-AreMappings t r (updated path) (a, b, c, d, last) h =
      let (u, e, k) = and_then-ok (insert_path y t.updated_tree path y.null) _ r h in
      subst AreMappings (same_ok _ r k)
        (a, b, c, d, insert-IsMapping t.updated_tree path y.null u last e)

  insert_all-AreMappings :
      (t r : StateDifferenceTree y) (ds : List (Difference y))
      → AreMappings t
      → insert_all y t ds ≡ ok r
      → AreMappings r
  unfolding insert_all
  insert_all-AreMappings t r [] m h = subst AreMappings (same_ok t r h) m
  insert_all-AreMappings t r (d ∷ ds) m h =
      let (u, e, k) = and_then-ok (insert_difference y t d) _ r h in
      insert_all-AreMappings u r ds (insert_difference-AreMappings t u d m e) k

  no_differences-AreMappings : AreMappings (new_state_difference_tree y)
  no_differences-AreMappings =
      let empty : IsMapping (y.from_mapping y.empty) = (y.empty, y.as_mapping-from y.empty) in
      (empty, empty, empty, empty, empty)

  pub state_differences-AreMappings :
      (c : Comparison y) (old_state new_state : y.Mapping) (t : StateDifferenceTree y)
      → state_differences y c old_state new_state ≡ ok t
      → AreMappings t
  state_differences-AreMappings c old_state new_state t h =
      let (ds, e, _, _) = state_differences-IsFound y c old_state new_state in
      insert_all-AreMappings (new_state_difference_tree y) t ds no_differences-AreMappings
        (sym e ∙ h)

  object_is_empty-total : (o : Object y) → IsMapping o → (b : Bool) × (object_is_empty o ≡ some b)
  unfolding object_is_empty
  object_is_empty-total o (m, e) = (no_elements (y.entries m), rw (e, object_is_empty) refl)

  and_also-total :
      (a b : Option Bool)
      → (x : Bool) × (a ≡ some x)
      → (z : Bool) × (b ≡ some z)
      → (r : Bool) × (and_also a b ≡ some r)
  and_also-total a b (true, e) (z, f) = (z, rw e f)
  and_also-total a b (false, e) h = (false, rw e refl)

  pub state_difference_tree_is_empty-total :
      (t : StateDifferenceTree y)
      → AreMappings t
      → (b : Bool) × (state_difference_tree_is_empty t ≡ some b)
  unfolding state_difference_tree_is_empty difference_tree_is_empty
  state_difference_tree_is_empty-total t (m1, m2, m3, m4, m5) =
      and_also-total (difference_tree_is_empty t.added_tree) _
        (and_also-total (object_is_empty t.added_tree.first_difference_tree)
          (object_is_empty t.added_tree.full_difference_tree)
          (object_is_empty-total t.added_tree.first_difference_tree m1)
          (object_is_empty-total t.added_tree.full_difference_tree m2))
        (and_also-total (difference_tree_is_empty t.removed_tree) (object_is_empty t.updated_tree)
          (and_also-total (object_is_empty t.removed_tree.first_difference_tree)
            (object_is_empty t.removed_tree.full_difference_tree)
            (object_is_empty-total t.removed_tree.first_difference_tree m3)
            (object_is_empty-total t.removed_tree.full_difference_tree m4))
          (object_is_empty-total t.updated_tree m5))
