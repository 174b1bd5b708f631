-- ===== src/Server/Events/Altered/Leaves.antt =====
-- The paths of a difference tree's leaves.
use ankaios.Prelude.{
  ℕ, ◌<◌, String, List, [], ◌∷◌, All, none, some, IsIn, work_iff, ComesFrom, itself, by_way, ◌≡◌,
  ◌↔◌, refl, sym, ap, subst, Option-cases, inl, inr,
}
use ankaios.Common.Yaml.{Yaml, Comparison}
use ankaios.Server.Events.Altered.{
  update_path_with_new_key, LeafTask, keyed_entries, leaf_tasks, leaf_step,
  collect_all_leaf_paths_iterative,
}

-- A value that is no mapping stands under the texts.
pub data LeafAt (y : Yaml) (c : Comparison y) : y.Value → List String → Type 0 where
  leaf : (v : y.Value) → y.as_mapping v ≡ none → LeafAt y c v []
  inside :
      (v : y.Value) (m : y.Mapping) (k : String) (w : y.Value) (keys : List String)
      → y.as_mapping v ≡ some m
      → IsIn (k, w) (keyed_entries y c (y.entries m))
      → LeafAt y c w keys
      → LeafAt y c v (k ∷ keys)

abbrev pub path_behind : String → List String → String
path_behind path [] = path
path_behind path (k ∷ keys) = path_behind (update_path_with_new_key path k) keys

module _ (y : Yaml) (c : Comparison y) where
  keyed_depth :
      (bound : ℕ) (path : String) (entries : List (y.Value × y.Value))
      → All (λ e. c.depth e.1 < bound) entries
      → All
          (λ (t : LeafTask y c). c.depth t.0 < bound)
          (leaf_tasks y c path (keyed_entries y c entries))
  unfolding keyed_entries
  keyed_depth bound path [] h = tt
  keyed_depth bound path ((key, v) ∷ entries) (h, hs) = elim (Option-cases (y.as_text key)) [
    | inl e ↦ rw (e, keyed_entries) (keyed_depth bound path entries hs)
    | inr (k, e) ↦ rw (e, keyed_entries) (h, keyed_depth bound path entries hs)
  ]

  leaf_falls :
      (t : LeafTask y c) → All (λ (u : LeafTask y c). c.depth u.0 < c.depth t.0) (leaf_step y c t).1
  unfolding leaf_step
  leaf_falls (v, path) = elim (Option-cases (y.as_mapping v)) [
    | inl e ↦ rw (e, leaf_step) tt
    | inr (m, e) ↦
        rw (e, leaf_step) (keyed_depth (c.depth v) path (y.entries m) (c.depth-entries v m e))
  ]

  task_entry :
      (path : String) (entries : List (String × y.Value)) (t : LeafTask y c)
      → IsIn t (leaf_tasks y c path entries)
      → (e : String × y.Value) × IsIn e entries × ((e.1, update_path_with_new_key path e.0) ≡ t)
  task_entry path [] t h = absurd h
  task_entry path ((k, w) ∷ entries) t (inl e) = ((k, w), inl refl, e)
  task_entry path ((k, w) ∷ entries) t (inr h) =
      let (e, there, same) = task_entry path entries t h in (e, inr there, same)

  entry_task :
      (path : String) (entries : List (String × y.Value)) (k : String) (w : y.Value)
      → IsIn (k, w) entries
      → IsIn (w, update_path_with_new_key path k) (leaf_tasks y c path entries)
  entry_task path [] k w h = absurd h
  entry_task path ((j, v) ∷ entries) k w (inl e) =
      inl (ap (λ (f : String × y.Value). (f.1, update_path_with_new_key path f.0)) e)
  entry_task path ((j, v) ∷ entries) k w (inr h) = inr (entry_task path entries k w h)

  abbrev IsLeafPath : LeafTask y c → String → Type 0
  IsLeafPath t p = (keys : List String) × LeafAt y c t.0 keys × (path_behind t.1 keys ≡ p)

  found_leaf : (t : LeafTask y c) (p : String) → IsIn p (leaf_step y c t).0 → IsLeafPath t p
  unfolding leaf_step
  found_leaf (v, path) p h = elim (Option-cases (y.as_mapping v)) [
    | inl e ↦
        let here : IsIn p (path ∷ []) = rw (e, leaf_step) at h in
        elim here [ inl same ↦ ([], leaf v e, same) | inr more ↦ absurd more ]
    | inr (m, e) ↦ absurd (rw (e, leaf_step) at h)
  ]

  IsFound-below :
      (t next : LeafTask y c) (p : String)
      → IsIn next (leaf_step y c t).1
      → IsLeafPath next p
      → IsLeafPath t p
  unfolding leaf_step
  IsFound-below (v, path) next p h found = elim (Option-cases (y.as_mapping v)) [
    | inl e ↦ absurd (rw (e, leaf_step) at h)
    | inr (m, e) ↦
        let pushed : IsIn next (leaf_tasks y c path (keyed_entries y c (y.entries m))) =
          rw (e, leaf_step) at h in
        let (entry, there, same) = task_entry path (keyed_entries y c (y.entries m)) next pushed in
        let (keys, at, path_eq) = subst (λ u. IsLeafPath u p) (sym same) found in
        (entry.0 ∷ keys, inside v m entry.0 entry.1 keys e there at, path_eq)
  ]

  leaves-of_tasks :
      {t last : LeafTask y c} (p : String)
      → ComesFrom (leaf_step y c) t last
      → IsIn p (leaf_step y c last).0
      → IsLeafPath t p
  leaves-of_tasks {t} p (itself _) h = found_leaf t p h
  leaves-of_tasks {t} {last} p (by_way next pushed way) h =
      IsFound-below t next p pushed (leaves-of_tasks {t = next} {last = last} p way h)

  tasks-of_leaves :
      {v : y.Value} {keys : List String} (path : String)
      → LeafAt y c v keys
      → (last : LeafTask y c) × ComesFrom (leaf_step y c) (v, path) last
        × IsIn (path_behind path keys) (leaf_step y c last).0
  unfolding leaf_step
  tasks-of_leaves path (leaf v e) = ((v, path), itself (v, path), rw (e, leaf_step) (inl refl))
  tasks-of_leaves path (inside v m k w keys e there at) =
      let next : LeafTask y c = (w, update_path_with_new_key path k) in
      let (last, way, found) =
        tasks-of_leaves {v = w} {keys = keys} (update_path_with_new_key path k) at in
      (
        last,
        by_way next
            (rw (e, leaf_step) (entry_task path (keyed_entries y c (y.entries m)) k w there)) way,
        found,
      )

  -- The paths of the leaves are the joined texts under which the values stand that are no mappings.
  pub collect_all_leaf_paths-LeafAt :
      (v : y.Value) (p : String)
      → IsIn p (collect_all_leaf_paths_iterative y c v)
        ↔ ((keys : List String) × LeafAt y c v keys × (path_behind "" keys ≡ p))
  unfolding collect_all_leaf_paths_iterative
  collect_all_leaf_paths-LeafAt v p =
      let both = work_iff (leaf_step y c) (λ t. c.depth t.0) leaf_falls (v, "") p in
      (
        λ h. let (last, way, found) = both.0 h in leaves-of_tasks p way found,
        λ (keys, at, same).
            let (last, way, found) = tasks-of_leaves "" at in
            both.1 (last, way, subst (λ q. IsIn q (leaf_step y c last).0) same found),
      )
