-- ===== src/Server/Comparator/Inserting.antt =====
-- The insertion of differences into the trees of server/src/ankaios_server/state_comparator.rs.
use ankaios.Prelude.{List, [], ◌∷◌, ◌++◌, Result, ok, ◌≡◌, ◌≢◌, refl, sym, subst, inl, inr, IsIn}
use ankaios.Common.Path.{FieldPath}
use ankaios.Common.Yaml.{Yaml}
use ankaios.Common.Object.{Object}
use ankaios.Common.Object.Within.{ProperPrefix}
use ankaios.Common.Object.Opening.{IsOpen, set-open, Covers, Covers-more, Covers-set}
use ankaios.Server.Comparator.{
  ComparisonError, DifferenceTree, StateDifferenceTree, Difference, added, removed, filled, emptied,
  updated, insert_path, insert_first, insert_both, insert_difference, insert_all,
}

ProperPrefix-front : (p rest path : FieldPath) → ProperPrefix (p ++ rest) path → ProperPrefix p path
ProperPrefix-front [] [] path h = h
ProperPrefix-front [] (k ∷ rest) [] h = absurd h
ProperPrefix-front [] (k ∷ rest) (j ∷ path) h = tt
ProperPrefix-front (a ∷ p) rest [] h = absurd h
ProperPrefix-front (a ∷ p) rest (j ∷ path) (e, h) = (e, ProperPrefix-front p rest path h)

module _ (y : Yaml) where
  abbrev pub path_of : Difference y → FieldPath
  path_of (added path nodes) = path
  path_of (removed path nodes) = path
  path_of (filled path) = path
  path_of (emptied path) = path
  path_of (updated path) = path

  -- None of the paths is a proper prefix of the path.
  abbrev pub IsReachable : List FieldPath → FieldPath → Type 0
  IsReachable paths path = (path ≢ []) × ((p : FieldPath) → IsIn p paths → ¬ ProperPrefix p path)

  IsOpen-path :
      (o : Object y) (paths : List FieldPath) (path : FieldPath)
      → Covers y paths o
      → IsReachable paths path
      → IsOpen y o path
  IsOpen-path o paths path h (_, r) q w p g n =
      let (d, rest, there, e) = h q w g n in
      r d there (ProperPrefix-front d rest path (subst (λ z. ProperPrefix z path) e p))

  abbrev Inserts : List FieldPath → FieldPath → Result ComparisonError (Object y) → Type 0
  Inserts paths path r = (o : Object y) × (r ≡ ok o) × Covers y (path ∷ paths) o

  insert_path-Inserts :
      (o : Object y) (paths : List FieldPath) (path : FieldPath) (v : y.Value)
      → Covers y paths o
      → IsReachable paths path
      → Inserts paths path (insert_path y o path v)
  unfolding insert_path
  insert_path-Inserts o paths [] v h (n, r) = absurd (n refl)
  insert_path-Inserts o paths (k ∷ path) v h r =
      let (o', e) = set-open y o (k ∷ path) v r.0 (IsOpen-path o paths (k ∷ path) h r) in
      (o', rw e refl, Covers-set y o (k ∷ path) v o' paths h e)

  abbrev BothCover : List FieldPath → DifferenceTree y → Type 0
  BothCover paths t = Covers y paths t.first_difference_tree × Covers y paths t.full_difference_tree

  abbrev pub AllCover : List FieldPath → StateDifferenceTree y → Type 0
  AllCover paths t =
      BothCover paths t.added_tree
      × (BothCover paths t.removed_tree × Covers y paths t.updated_tree)

  more :
      (p : FieldPath) (paths : List FieldPath) (t : DifferenceTree y)
      → BothCover paths t
      → BothCover (p ∷ paths) t
  more p paths t (a, b) = (
    Covers-more y p paths t.first_difference_tree a,
    Covers-more y p paths t.full_difference_tree b,
  )

  first-BothCover :
      (t : DifferenceTree y) (paths : List FieldPath) (path : FieldPath)
      → BothCover paths t
      → IsReachable paths path
      → (u : DifferenceTree y) × (insert_first y t path ≡ ok u)
        × Covers y (path ∷ paths) u.first_difference_tree
        × (u.full_difference_tree ≡ t.full_difference_tree)
  unfolding insert_first
  first-BothCover t paths path (a, b) r =
      let (o, e, h) = insert_path-Inserts t.first_difference_tree paths path y.null a r in
      (record t { first_difference_tree = o }, rw (e, insert_first) refl, h, refl)

  both-BothCover :
      (t : DifferenceTree y) (paths : List FieldPath) (path : FieldPath) (nodes : y.Value)
      → BothCover paths t
      → IsReachable paths path
      → (u : DifferenceTree y) × (insert_both y t path nodes ≡ ok u) × BothCover (path ∷ paths) u
  unfolding insert_both
  both-BothCover t paths path nodes (a, b) r =
      let (u, e, h, same) = first-BothCover t paths path (a, b) r in
      let (o, f, k) =
        insert_path-Inserts u.full_difference_tree paths path nodes
          (subst (Covers y paths) (sym same) b) r in
      (record u { full_difference_tree = o }, rw (e, insert_both, f) refl, (h, k))

  insert_difference-AllCover :
      (t : StateDifferenceTree y) (paths : List FieldPath) (d : Difference y)
      → AllCover paths t
      → IsReachable paths (path_of d)
      → (u : StateDifferenceTree y) × (insert_difference y t d ≡ ok u)
        × AllCover (path_of d ∷ paths) u
  unfolding insert_difference
  insert_difference-AllCover t paths (added path nodes) (a, (b, h)) r =
      let (u, e, k) = both-BothCover t.added_tree paths path nodes a r in
      (
        record t { added_tree = u },
        rw (e, insert_difference) refl,
        (k, (more path paths t.removed_tree b, Covers-more y path paths t.updated_tree h)),
      )
  insert_difference-AllCover t paths (removed path nodes) (a, (b, h)) r =
      let (u, e, k) = both-BothCover t.removed_tree paths path nodes b r in
      (
        record t { removed_tree = u },
        rw (e, insert_difference) refl,
        (more path paths t.added_tree a, (k, Covers-more y path paths t.updated_tree h)),
      )
  insert_difference-AllCover t paths (filled path) (a, (b, h)) r =
      let (u, e, k, same) = first-BothCover t.added_tree paths path a r in
      (
        record t { added_tree = u },
        rw (e, insert_difference) refl,
        (
          (
            k,
            subst (Covers y (path ∷ paths)) (sym same)
                (Covers-more y path paths t.added_tree.full_difference_tree a.1),
          ),
          (more path paths t.removed_tree b, Covers-more y path paths t.updated_tree h),
        ),
      )
  insert_difference-AllCover t paths (emptied path) (a, (b, h)) r =
      let (u, e, k, same) = first-BothCover t.removed_tree paths path b r in
      (
        record t { removed_tree = u },
        rw (e, insert_difference) refl,
        (
          more path paths t.added_tree a,
          (
            (
              k,
              subst (Covers y (path ∷ paths)) (sym same)
                  (Covers-more y path paths t.removed_tree.full_difference_tree b.1),
            ),
            Covers-more y path paths t.updated_tree h,
          ),
        ),
      )
  insert_difference-AllCover t paths (updated path) (a, (b, h)) r =
      let (o, e, k) = insert_path-Inserts t.updated_tree paths path y.null h r in
      (
        record t { updated_tree = o },
        rw (e, insert_difference) refl,
        (more path paths t.added_tree a, (more path paths t.removed_tree b, k)),
      )

  -- The paths of the differences do not lead through one another.
  abbrev pub AreApart : List (Difference y) → Type 0
  AreApart ds =
      (d : Difference y)
      → IsIn d ds
      → (path_of d ≢ []) × ((e : Difference y) → IsIn e ds → ¬ ProperPrefix (path_of e) (path_of d))

  -- The inserted paths are those of differences of the list.
  abbrev AreFrom : List (Difference y) → List FieldPath → Type 0
  AreFrom ds paths =
      (p : FieldPath) → IsIn p paths → (d : Difference y) × IsIn d ds × (path_of d ≡ p)

  insert_rest :
      (all ds : List (Difference y)) (paths : List FieldPath) (t : StateDifferenceTree y)
      → AreApart all
      → ((d : Difference y) → IsIn d ds → IsIn d all)
      → AreFrom all paths
      → AllCover paths t
      → (u : StateDifferenceTree y) × (insert_all y t ds ≡ ok u)
  unfolding insert_all
  insert_rest all [] paths t a part from h = (t, refl)
  insert_rest all (d ∷ ds) paths t a part from h =
      let (n, apart_from) = a d (part d (inl refl)) in
      let reachable : IsReachable paths (path_of d) = (
        n,
        λ p k z.
            let (e, there, same) = from p k in
            apart_from e there (subst (λ q. ProperPrefix q (path_of d)) (sym same) z),
      ) in
      let (u, e, k) = insert_difference-AllCover t paths d h reachable in
      let (last, f) =
        insert_rest all ds (path_of d ∷ paths) u a (λ e i. part e (inr i))
          (λ p i. elim i [ inl same ↦ (d, part d (inl refl), same) | inr j ↦ from p j ]) k in
      (last, rw (e, insert_all) f)

  pub insert_all-total :
      (ds : List (Difference y)) (t : StateDifferenceTree y)
      → AreApart ds
      → AllCover [] t
      → (u : StateDifferenceTree y) × (insert_all y t ds ≡ ok u)
  insert_all-total ds t a h = insert_rest ds ds [] t a (λ d i. i) (λ p i. absurd i) h
