-- ===== src/Server/Comparator/Loop.antt =====
-- The loop over the stack inserts the differences in the order of the recursion, and ends.
use ankaios.Prelude.{
  ℕ, zero, suc, ◌+◌, ◌≤◌, String, List, [], ◌∷◌, ◌++◌, All, All-map, ◌≡◌, refl, sym, ap, ◌∙◌, arith,
  Result, ok, err, and_then, Result-cases, inl, inr, pushed_on,
}
use ankaios.Common.Path.{FieldPath}
use ankaios.Common.Yaml.{Yaml, Comparison}
use ankaios.Server.Comparator.{
  pop, StateDifferenceTree, StackTask, visit_pair, pop_field, Difference, Child, insert_difference,
  insert_all, push_children, pair_differences, pair_children, compare_loop, children_cost,
  pair_cost, state_differences, new_state_difference_tree,
}
use ankaios.Server.Comparator.Reference.{
  below, child_tasks, push_children_lem, differences, pushed_on-cost_lem, IsShallow, pushed_on-All,
  pair_children-IsShallow,
}

pop-push : (mask : FieldPath) (k : String) → pop (mask ++ k ∷ []) ≡ mask
unfolding pop
pop-push [] k = refl
pop-push (j ∷ []) k = refl
pop-push (j ∷ (i ∷ mask)) k = ap (λ (l : FieldPath). j ∷ l) (pop-push (i ∷ mask) k)

and_then_assoc :
    {E A B C : Type 0} (r : Result E A) (f : A → Result E B) (g : B → Result E C)
    → and_then (and_then r f) g ≡ and_then r (λ a. and_then (f a) g)
and_then_assoc (ok a) f g = refl
and_then_assoc (err e) f g = refl

and_then_ok : {E A : Type 0} (r : Result E A) → and_then r (λ a. ok a) ≡ r
and_then_ok (ok a) = refl
and_then_ok (err e) = refl

and_then_ext :
    {E A B : Type 0} (r : Result E A) (f g : A → Result E B)
    → ((a : A) → f a ≡ g a)
    → and_then r f ≡ and_then r g
and_then_ext (ok a) f g h = h a
and_then_ext (err e) f g h = refl

module _ (y : Yaml) where
  insert_all-append :
      (t : StateDifferenceTree y) (xs ys : List (Difference y))
      → insert_all y t (xs ++ ys) ≡ and_then (insert_all y t xs) (λ u. insert_all y u ys)
  unfolding insert_all
  insert_all-append t [] ys = refl
  insert_all-append t (x ∷ xs) ys = elim (Result-cases (insert_difference y t x)) [
    | inl (e, k) ↦ rw k refl
    | inr (u, k) ↦ rw k (insert_all-append u xs ys)
  ]

  module _ (c : Comparison y) where
    -- What is left to do after the differences.
    abbrev Continues :
        ℕ
        → List (StackTask y)
        → FieldPath
        → StateDifferenceTree y
        → List (Difference y)
        → List (StackTask y)
        → ℕ
        → Type 0
    Continues fuel stack mask tree ds rest left =
        compare_loop y c fuel stack mask tree
        ≡ and_then (insert_all y tree ds) (λ t. compare_loop y c left rest mask t)

    abbrev RunsPairs : ℕ → Type 0
    RunsPairs depth =
        (mask : FieldPath) (old new : y.Mapping) (rest : List (StackTask y)) (left : ℕ)
        (tree : StateDifferenceTree y)
        → c.depth (y.from_mapping old) ≤ depth
        → Continues (pair_cost y c depth mask old new + left) (visit_pair old new ∷ rest) mask tree
            (differences y c depth mask old new) rest left

    run_children :
        (depth : ℕ)
        → RunsPairs depth
        → (mask : FieldPath) (children : List (Child y)) (rest : List (StackTask y)) (left : ℕ)
          (tree : StateDifferenceTree y)
        → All (IsShallow y c (suc depth)) children
        → Continues
            (children_cost y c (λ key. pair_cost y c depth (mask ++ key ∷ [])) children + left)
            (child_tasks y children rest)
            mask
            tree
            (below y (λ key. differences y c depth (mask ++ key ∷ [])) children)
            rest
            left
    unfolding compare_loop insert_all
    run_children depth runs mask [] rest left tree h =
        ap (λ (fuel : ℕ). compare_loop y c fuel rest mask tree) (omega arith)
    run_children depth runs mask ((key, (old, new)) ∷ children) rest left tree (h, hs) =
        let here = pair_cost y c depth (mask ++ key ∷ []) old new in
        let later = children_cost y c (λ k. pair_cost y c depth (mask ++ k ∷ [])) children in
        let first = differences y c depth (mask ++ key ∷ []) old new in
        let others = below y (λ k. differences y c depth (mask ++ k ∷ [])) children in
        let fuel : suc (here + suc later) + left ≡ suc (here + suc (later + left)) = omega arith in
        let next = λ (t : StateDifferenceTree y).
          ap (λ (m : FieldPath). compare_loop y c (later + left) (child_tasks y children rest) m t)
            (pop-push mask key)
          ∙ run_children depth runs mask children rest left t hs in
        rw fuel (
          runs (mask ++ key ∷ []) old new (pop_field ∷ child_tasks y children rest)
            (suc (later + left)) tree (omega (arith, h))
          ∙ and_then_ext (insert_all y tree first) _ _ next
          ∙ sym (and_then_assoc (insert_all y tree first) (λ t. insert_all y t others) _)
          ∙ ap (λ r. and_then r (λ t. compare_loop y c left rest mask t))
              (sym (insert_all-append tree first others)))

    no_children :
        (bound : ℕ) (children : List (Child y))
        → bound ≤ 0
        → All (IsShallow y c bound) children
        → children ≡ []
    no_children bound [] b h = refl
    no_children bound (child ∷ children) b (h, hs) = absurd (omega (arith, b, h))

    run_pair : (depth : ℕ) → RunsPairs depth
    unfolding compare_loop pair_cost differences push_children
    run_pair zero mask old new rest left tree h =
        let fuel : 1 + left ≡ suc left = omega arith in
        let none_below =
          no_children (c.depth (y.from_mapping old)) (pair_children y c mask old new) h
            (pair_children-IsShallow y c mask old new) in
        rw fuel (
          and_then_ext (insert_all y tree (pair_differences y c mask old new)) _ _ (λ t.
            ap (λ (cs : List (Child y)). compare_loop y c left (push_children y cs rest) mask t)
              none_below))
    run_pair (suc depth) mask old new rest left tree h =
        let children = pair_children y c mask old new in
        let cost = λ (key : String). pair_cost y c depth (mask ++ key ∷ []) in
        let flat = pair_differences y c mask old new in
        let others =
          below y (λ key. differences y c depth (mask ++ key ∷ [])) (pushed_on children []) in
        let fuel : suc (children_cost y c cost children) + left
            ≡ suc (children_cost y c cost (pushed_on children []) + left) =
          omega (arith, pushed_on-cost_lem y c cost children) in
        let shallow =
          pushed_on-All y c (suc depth) children []
            (All-map _ _ children (λ child k. omega (arith, k, h))
              (pair_children-IsShallow y c mask old new))
            tt in
        rw fuel (
          and_then_ext (insert_all y tree flat) _ _ (λ t.
            ap
              (λ (stack : List (StackTask y)).
                compare_loop y c (children_cost y c cost (pushed_on children []) + left) stack mask
                  t)
              (push_children_lem y children rest)
            ∙ run_children depth (run_pair depth) mask (pushed_on children []) rest left t shallow)
          ∙ sym (and_then_assoc (insert_all y tree flat) (λ t. insert_all y t others) _)
          ∙ ap (λ r. and_then r (λ t. compare_loop y c left rest mask t))
              (sym (insert_all-append tree flat others)))

    -- The comparison of two states ends, and its trees are those that the differences give which are
    -- found by recursion: the insertions are the same, in the same order.
    pub state_differences-differences :
        (old_state new_state : y.Mapping)
        → state_differences y c old_state new_state
          ≡ insert_all y
              (new_state_difference_tree y)
              (differences y c (c.depth (y.from_mapping old_state)) [] old_state new_state)
    unfolding state_differences compare_loop
    state_differences-differences old_state new_state =
        let depth = c.depth (y.from_mapping old_state) in
        let cost = pair_cost y c depth [] old_state new_state in
        let start = new_state_difference_tree y in
        let fuel : cost ≡ cost + 0 = omega arith in
        ap (λ (n : ℕ). compare_loop y c n (visit_pair old_state new_state ∷ []) [] start) fuel
        ∙ run_pair depth [] old_state new_state [] 0 start (omega arith)
        ∙ and_then_ok (insert_all y start (differences y c depth [] old_state new_state))
