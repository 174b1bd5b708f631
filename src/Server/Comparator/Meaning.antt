-- ===== src/Server/Comparator/Meaning.antt =====
-- Which differences the comparison of two states finds.
use mathlib.Core.List.{append-nil}
use ankaios.Prelude.{
  ℕ, zero, suc, ◌≤◌, String, List, [], ◌∷◌, ◌++◌, All, Any-append_left, Any-append_right,
  Any-append_cases, ok, ◌∙◌, ◌≡◌, ◌↔◌, refl, sym, ap, subst, arith, inl, inr, IsIn, collected,
  collected-IsIn, IsIn-collected, IsIn-pushed_on, pushed_on-IsIn, pushed_on,
}
use ankaios.Common.Path.{FieldPath}
use ankaios.Common.Yaml.{Yaml, Comparison}
use ankaios.Server.Comparator.{
  Difference, Child, insert_all, pair_differences, pair_children, new_state_difference_tree,
  state_differences, StateDifferenceTree,
}
use ankaios.Server.Comparator.Building.{AreBuilt, insert_all-AreBuilt}
use ankaios.Server.Comparator.Reference.{differences, IsShallow, pair_children-IsShallow}
use ankaios.Server.Comparator.Loop.{state_differences-differences}
use ankaios.Server.Comparator.Kinds.{
  IsDifference, pair_differences-IsDifference, IsDifference-pair_differences,
}
use ankaios.Server.Comparator.Links.{AreLinked, children-linked, linked-children}

-- The path leads to mappings in both states.
pub data Reaches (y : Yaml) (c : Comparison y)
    : y.Mapping → y.Mapping → FieldPath → y.Mapping → y.Mapping → Type 0 where
  here : (old new : y.Mapping) → Reaches y c old new [] old new
  through :
      {old new old_end new_end : y.Mapping} {path : FieldPath} (child : Child y)
      → AreLinked y c old new child
      → Reaches y c child.1.0 child.1.1 path old_end new_end
      → Reaches y c old new (child.0 ∷ path) old_end new_end

snoc_append : (xs : FieldPath) (x : String) (ys : FieldPath) → (xs ++ x ∷ []) ++ ys ≡ xs ++ x ∷ ys
snoc_append [] x ys = refl
snoc_append (z ∷ xs) x ys = ap (λ (l : FieldPath). z ∷ l) (snoc_append xs x ys)

module _ (y : Yaml) (c : Comparison y) where
  -- The difference is one of a pair of mappings that stand under the same path in both states.
  abbrev pub IsVisited : FieldPath → y.Mapping → y.Mapping → Difference y → Type 0
  IsVisited mask old new d =
      (path : FieldPath) × (old_end : y.Mapping) × (new_end : y.Mapping) × Reaches y c old new path
        old_end new_end
      × IsIn d (pair_differences y c (mask ++ path) old_end new_end)

  IsVisited-here :
      (mask : FieldPath) (old new : y.Mapping) (d : Difference y)
      → IsIn d (pair_differences y c mask old new)
      → IsVisited mask old new d
  IsVisited-here mask old new d h = (
    [],
    old,
    new,
    here old new,
    subst (λ m. IsIn d (pair_differences y c m old new)) (sym (append-nil mask)) h,
  )

  IsVisited-below :
      (mask : FieldPath) (old new : y.Mapping) (d : Difference y) (child : Child y)
      → AreLinked y c old new child
      → IsVisited (mask ++ child.0 ∷ []) child.1.0 child.1.1 d
      → IsVisited mask old new d
  IsVisited-below mask old new d child link (path, o, n, reaches, there) = (
    child.0 ∷ path,
    o,
    n,
    through child link reaches,
    subst (λ m. IsIn d (pair_differences y c m o n)) (snoc_append mask child.0 path) there,
  )

  differences-IsVisited :
      (depth : ℕ) (mask : FieldPath) (old new : y.Mapping) (d : Difference y)
      → IsIn d (differences y c depth mask old new)
      → IsVisited mask old new d
  unfolding differences
  differences-IsVisited zero mask old new d h = IsVisited-here mask old new d h
  differences-IsVisited (suc depth) mask old new d h =
      let children = pair_children y c mask old new in
      let deeper =
        λ (child : Child y). differences y c depth (mask ++ child.0 ∷ []) child.1.0 child.1.1 in
      elim (Any-append_cases (λ z. z ≡ d) (pair_differences y c mask old new)
        (collected deeper (pushed_on children [])) h) [
          | inl flat ↦ IsVisited-here mask old new d flat
          | inr later ↦
              let (child, there, from) = collected-IsIn deeper d (pushed_on children []) later in
              elim (IsIn-pushed_on child children [] there) [
                | inl k ↦
                    IsVisited-below mask old new d child (children-linked y c mask old new child k)
                      (differences-IsVisited depth (mask ++ child.0 ∷ []) child.1.0 child.1.1 d
                        from)
                | inr k ↦ absurd k
              ]
        ]

  is_shallow :
      (bound : ℕ) (child : Child y) (children : List (Child y))
      → All (IsShallow y c bound) children
      → IsIn child children
      → IsShallow y c bound child
  is_shallow bound child [] h k = absurd k
  is_shallow bound child (other ∷ children) (h, hs) (inl e) = subst (IsShallow y c bound) e h
  is_shallow bound child (other ∷ children) (h, hs) (inr k) = is_shallow bound child children hs k

  IsVisited-differences :
      {old new old_end new_end : y.Mapping} {path : FieldPath} (depth : ℕ) (mask : FieldPath)
      (d : Difference y)
      → c.depth (y.from_mapping old) ≤ depth
      → Reaches y c old new path old_end new_end
      → IsIn d (pair_differences y c (mask ++ path) old_end new_end)
      → IsIn d (differences y c depth mask old new)
  unfolding differences
  IsVisited-differences zero mask d b (here old new) h =
      subst (λ m. IsIn d (pair_differences y c m old new)) (append-nil mask) h
  IsVisited-differences (suc depth) mask d b (here old new) h =
      Any-append_left (λ z. z ≡ d) (pair_differences y c mask old new) _
        (subst (λ m. IsIn d (pair_differences y c m old new)) (append-nil mask) h)
  IsVisited-differences {old} {new} zero mask d b (through child link reaches) h =
      let there = linked-children y c mask old new child link in
      let shallow =
        is_shallow (c.depth (y.from_mapping old)) child (pair_children y c mask old new)
          (pair_children-IsShallow y c mask old new) there in
      absurd (omega (arith, b, shallow))
  IsVisited-differences {old} {new} {old_end} {new_end} (suc depth) mask d b
        (through {path = path} child link reaches) h =
      let there = linked-children y c mask old new child link in
      let shallow =
        is_shallow (c.depth (y.from_mapping old)) child (pair_children y c mask old new)
          (pair_children-IsShallow y c mask old new) there in
      let deeper =
        λ (child : Child y). differences y c depth (mask ++ child.0 ∷ []) child.1.0 child.1.1 in
      Any-append_right (λ z. z ≡ d) (pair_differences y c mask old new) _
        (IsIn-collected deeper d (pushed_on (pair_children y c mask old new) []) child
          (pushed_on-IsIn child (pair_children y c mask old new) [] (inl there))
          (IsVisited-differences {old = child.1.0} {new = child.1.1} depth (mask ++ child.0 ∷ []) d
            (omega (arith, b, shallow)) reaches
            (subst (λ m. IsIn d (pair_differences y c m old_end new_end))
              (sym (snoc_append mask child.0 path)) h)))

  pub state_differences-IsVisited :
      (old_state new_state : y.Mapping)
      → (ds : List (Difference y)) × (state_differences y c old_state new_state
          ≡ insert_all y (new_state_difference_tree y) ds)
        × ((d : Difference y) → IsIn d ds ↔ IsVisited [] old_state new_state d)
  state_differences-IsVisited old_state new_state =
      let depth = c.depth (y.from_mapping old_state) in
      (
        differences y c depth [] old_state new_state,
        state_differences-differences y c old_state new_state,
        λ d. (
          differences-IsVisited depth [] old_state new_state d,
          λ f. IsVisited-differences depth [] d (omega arith) f.3 f.4,
        ),
      )

  -- Two mappings that stand under the same path in both states differ so at one of their keys.
  abbrev pub IsFound : y.Mapping → y.Mapping → Difference y → Type 0
  IsFound old new d =
      (path : FieldPath) × (old_end : y.Mapping) × (new_end : y.Mapping) × Reaches y c old new path
        old_end new_end
      × IsDifference y c path old_end new_end d

  pub state_differences-IsFound :
      (old_state new_state : y.Mapping)
      → (ds : List (Difference y)) × (state_differences y c old_state new_state
          ≡ insert_all y (new_state_difference_tree y) ds)
        × ((t : StateDifferenceTree y)
            → state_differences y c old_state new_state ≡ ok t
            → AreBuilt y (new_state_difference_tree y) ds t)
        × ((d : Difference y) → IsIn d ds ↔ IsFound old_state new_state d)
  state_differences-IsFound old_state new_state =
      let (ds, e, visited) = state_differences-IsVisited old_state new_state in
      (
        ds,
        e,
        λ t built. insert_all-AreBuilt y ds (new_state_difference_tree y) t (sym e ∙ built),
        λ d. (
          λ h.
              let (path, o, n, reaches, there) = (visited d).0 h in
              (path, o, n, reaches, pair_differences-IsDifference y c path o n d there),
          λ (path, o, n, reaches, differs).
              (visited d).1
                (path, o, n, reaches, IsDifference-pair_differences y c path o n d differs),
        ),
      )
