-- ===== src/Server/Comparator/Building.antt =====
-- Which differences go into which tree: the insertions of server/src/ankaios_server/state_comparator.rs.
use ankaios.Prelude.{
  List, [], ◌∷◌, ok, err, and_then-ok, collected, Result-cases, inl, inr, ◌≡◌, refl, sym, subst, ap,
  ◌∙◌, ok_value,
}
use ankaios.Common.Path.{FieldPath}
use ankaios.Common.Yaml.{Yaml}
use ankaios.Common.Object.{Object, set}
use ankaios.Server.Comparator.{
  DifferenceTree, StateDifferenceTree, Difference, added, removed, filled, emptied, updated,
  insert_path, insert_first, insert_both, insert_difference, insert_all,
}

module _ (y : Yaml) where
  -- What is set in a tree, in this order.
  abbrev pub Settings : Type 0
  Settings = List (FieldPath × y.Value)

  -- The fields of both trees of the added ones, of both trees of the removed ones, and of the updated ones. A
  -- sequence that was filled or emptied is in the first tree only.
  abbrev pub first_added : Difference y → Settings
  first_added (added path nodes) = (path, y.null) ∷ []
  first_added (filled path) = (path, y.null) ∷ []
  first_added _ = []

  abbrev pub full_added : Difference y → Settings
  full_added (added path nodes) = (path, nodes) ∷ []
  full_added _ = []

  abbrev pub first_removed : Difference y → Settings
  first_removed (removed path nodes) = (path, y.null) ∷ []
  first_removed (emptied path) = (path, y.null) ∷ []
  first_removed _ = []

  abbrev pub full_removed : Difference y → Settings
  full_removed (removed path nodes) = (path, nodes) ∷ []
  full_removed _ = []

  abbrev pub all_updated : Difference y → Settings
  all_updated (updated path) = (path, y.null) ∷ []
  all_updated _ = []

  -- The second tree is the first one with the values set; nothing is set under the empty path.
  abbrev pub IsBuilt : Object y → Settings → Object y → Type 0
  IsBuilt o [] w = o ≡ w
  IsBuilt o (([], value) ∷ settings) w = IsBuilt o settings w
  IsBuilt o ((part ∷ path, value) ∷ settings) w =
      (u : Object y) × (set y o (part ∷ path) value ≡ ok u) × IsBuilt u settings w

  abbrev pub AreBuilt : StateDifferenceTree y → List (Difference y) → StateDifferenceTree y → Type 0
  AreBuilt t ds u =
      IsBuilt t.added_tree.first_difference_tree (collected first_added ds)
        u.added_tree.first_difference_tree
      × IsBuilt t.added_tree.full_difference_tree (collected full_added ds)
          u.added_tree.full_difference_tree
      × IsBuilt t.removed_tree.first_difference_tree (collected first_removed ds)
          u.removed_tree.first_difference_tree
      × IsBuilt t.removed_tree.full_difference_tree (collected full_removed ds)
          u.removed_tree.full_difference_tree
      × IsBuilt t.updated_tree (collected all_updated ds) u.updated_tree

  path-IsBuilt :
      (o u w : Object y) (path : FieldPath) (value : y.Value) (settings : Settings)
      → insert_path y o path value ≡ ok u
      → IsBuilt u settings w
      → IsBuilt o ((path, value) ∷ settings) w
  unfolding insert_path
  path-IsBuilt o u w [] value settings h built =
      subst (λ z. IsBuilt z settings w) (sym (ok_value o u (ok o) refl h)) built
  path-IsBuilt o u w (part ∷ path) value settings h built =
      elim (Result-cases (set y o (part ∷ path) value)) [
        | inl (e, f) ↦ absurd (let no : err _ ≡ ok u = rw f at h in cc)
        | inr (v, f) ↦
            let same : ok v ≡ ok u = rw f at h in
            (v, f, subst (λ z. IsBuilt z settings w) (sym (ok_value v u (ok v) refl same)) built)
      ]

  first_lem :
      (t u : DifferenceTree y) (path : FieldPath)
      → insert_first y t path ≡ ok u
      → (insert_path y t.first_difference_tree path y.null ≡ ok u.first_difference_tree)
        × (t.full_difference_tree ≡ u.full_difference_tree)
  unfolding insert_first
  first_lem t u path h =
      let (first, e, f) = and_then-ok (insert_path y t.first_difference_tree path y.null) _ u h in
      let same = ok_value _ u _ refl f in
      (
        e ∙ ap (λ (z : DifferenceTree y). ok z.first_difference_tree) same,
        ap (λ (z : DifferenceTree y). z.full_difference_tree) same,
      )

  both_lem :
      (t u : DifferenceTree y) (path : FieldPath) (nodes : y.Value)
      → insert_both y t path nodes ≡ ok u
      → (insert_path y t.first_difference_tree path y.null ≡ ok u.first_difference_tree)
        × (insert_path y t.full_difference_tree path nodes ≡ ok u.full_difference_tree)
  unfolding insert_both
  both_lem t u path nodes h =
      let (v, e, f) = and_then-ok (insert_first y t path) _ u h in
      let (first, kept) = first_lem t v path e in
      let (full, g, k) = and_then-ok (insert_path y v.full_difference_tree path nodes) _ u f in
      let same = ok_value _ u _ refl k in
      (
        first ∙ ap (λ (z : DifferenceTree y). ok z.first_difference_tree) same,
        ap (λ o. insert_path y o path nodes) kept
            ∙ g
            ∙ ap (λ (z : DifferenceTree y). ok z.full_difference_tree) same,
      )

  -- One difference, then the others.
  step :
      (d : Difference y) (ds : List (Difference y)) (t v u : StateDifferenceTree y)
      → insert_difference y t d ≡ ok v
      → AreBuilt v ds u
      → AreBuilt t (d ∷ ds) u
  unfolding insert_difference
  step (added path nodes) ds t v u h built =
      let (w, e, f) = and_then-ok (insert_both y t.added_tree path nodes) _ v h in
      let (first, full) = both_lem t.added_tree w path nodes e in
      subst (λ z. AreBuilt z ds u → AreBuilt t (added path nodes ∷ ds) u) (ok_value _ v _ refl f)
        (λ (a1, a2, r1, r2, up). (
          path-IsBuilt _ _ _ path y.null _ first a1,
          path-IsBuilt _ _ _ path nodes _ full a2,
          r1,
          r2,
          up,
        ))
        built
  step (removed path nodes) ds t v u h built =
      let (w, e, f) = and_then-ok (insert_both y t.removed_tree path nodes) _ v h in
      let (first, full) = both_lem t.removed_tree w path nodes e in
      subst (λ z. AreBuilt z ds u → AreBuilt t (removed path nodes ∷ ds) u) (ok_value _ v _ refl f)
        (λ (a1, a2, r1, r2, up). (
          a1,
          a2,
          path-IsBuilt _ _ _ path y.null _ first r1,
          path-IsBuilt _ _ _ path nodes _ full r2,
          up,
        ))
        built
  step (filled path) ds t v u h built =
      let (w, e, f) = and_then-ok (insert_first y t.added_tree path) _ v h in
      let (first, kept) = first_lem t.added_tree w path e in
      subst (λ z. AreBuilt z ds u → AreBuilt t (filled path ∷ ds) u) (ok_value _ v _ refl f)
        (λ (a1, a2, r1, r2, up). (
          path-IsBuilt _ _ _ path y.null _ first a1,
          subst (λ z. IsBuilt z (collected full_added ds) u.added_tree.full_difference_tree)
              (sym kept) a2,
          r1,
          r2,
          up,
        ))
        built
  step (emptied path) ds t v u h built =
      let (w, e, f) = and_then-ok (insert_first y t.removed_tree path) _ v h in
      let (first, kept) = first_lem t.removed_tree w path e in
      subst (λ z. AreBuilt z ds u → AreBuilt t (emptied path ∷ ds) u) (ok_value _ v _ refl f)
        (λ (a1, a2, r1, r2, up). (
          a1,
          a2,
          path-IsBuilt _ _ _ path y.null _ first r1,
          subst (λ z. IsBuilt z (collected full_removed ds) u.removed_tree.full_difference_tree)
              (sym kept) r2,
          up,
        ))
        built
  step (updated path) ds t v u h built =
      let (w, e, f) = and_then-ok (insert_path y t.updated_tree path y.null) _ v h in
      subst (λ z. AreBuilt z ds u → AreBuilt t (updated path ∷ ds) u) (ok_value _ v _ refl f)
        (λ (a1, a2, r1, r2, up). (a1, a2, r1, r2, path-IsBuilt _ _ _ path y.null _ e up)) built

  pub insert_all-AreBuilt :
      (ds : List (Difference y)) (t u : StateDifferenceTree y)
      → insert_all y t ds ≡ ok u
      → AreBuilt t ds u
  unfolding insert_all
  insert_all-AreBuilt [] t u h =
      subst (λ z. AreBuilt t [] z) (ok_value t u (ok t) refl h) (refl, refl, refl, refl, refl)
  insert_all-AreBuilt (d ∷ ds) t u h =
      let (v, e, f) = and_then-ok (insert_difference y t d) _ u h in
      step d ds t v u e (insert_all-AreBuilt ds v u f)
