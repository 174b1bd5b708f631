-- ===== src/Server/Comparator/Reference.antt =====
-- The differences of two states by recursion, in the order of their insertions.
use ankaios.Prelude.{
  ℕ, zero, suc, ◌+◌, ◌<◌, String, List, [], ◌∷◌, ◌++◌, All, All-append, none, some, ◌≡◌, refl, sym,
  subst, arith, Option-cases, inl, inr, Option, collected, pushed_on,
}
use ankaios.Common.Path.{FieldPath}
use ankaios.Common.Yaml.{Yaml, Comparison}
use ankaios.Server.Comparator.{convert_key_to_string}
use ankaios.Server.Comparator.{
  Child, Difference, KeyOutcome, StackTask, visit_pair, push_field, pop_field, push_children, both,
  compare_sequences, compare_values, common_key, old_key, child_of, pair_differences, pair_children,
  children_cost,
}

module _ (y : Yaml) where
  abbrev pub below :
      (String → y.Mapping → y.Mapping → List (Difference y)) → List (Child y) → List (Difference y)
  below differences children =
      collected (λ (child : Child y). differences child.0 child.1.0 child.1.1) children

  abbrev pub child_tasks : List (Child y) → List (StackTask y) → List (StackTask y)
  child_tasks [] stack = stack
  child_tasks ((key, (old, new)) ∷ children) stack =
      push_field key ∷ visit_pair old new ∷ pop_field ∷ child_tasks children stack

  push_children-tasks :
      (children done : List (Child y)) (stack : List (StackTask y))
      → push_children y children (child_tasks done stack)
        ≡ child_tasks (pushed_on children done) stack
  unfolding push_children
  push_children-tasks [] done stack = refl
  push_children-tasks ((key, (old, new)) ∷ children) done stack =
      push_children-tasks children ((key, (old, new)) ∷ done) stack

  pub push_children_lem :
      (children : List (Child y)) (stack : List (StackTask y))
      → push_children y children stack ≡ child_tasks (pushed_on children []) stack
  push_children_lem children stack = push_children-tasks children [] stack

  module _ (c : Comparison y) where
    unfoldable pub differences : ℕ → FieldPath → y.Mapping → y.Mapping → List (Difference y)
    differences zero mask old new = pair_differences y c mask old new
    differences (suc depth) mask old new =
        pair_differences y c mask old new
        ++ below (λ key. differences depth (mask ++ key ∷ []))
            (pushed_on (pair_children y c mask old new) [])

    pushed_on-cost :
        (cost : String → y.Mapping → y.Mapping → ℕ) (children done : List (Child y))
        → children_cost y c cost (pushed_on children done)
          ≡ children_cost y c cost children + children_cost y c cost done
    pushed_on-cost cost [] done = omega arith
    pushed_on-cost cost ((key, (old, new)) ∷ children) done =
        let rest = pushed_on-cost cost children ((key, (old, new)) ∷ done) in omega (arith, rest)

    pub pushed_on-cost_lem :
        (cost : String → y.Mapping → y.Mapping → ℕ) (children : List (Child y))
        → children_cost y c cost (pushed_on children []) ≡ children_cost y c cost children
    pushed_on-cost_lem cost children =
        let whole = pushed_on-cost cost children [] in omega (arith, whole)

    -- The old mapping of the child is less deep.
    abbrev pub IsShallow : ℕ → Child y → Type 0
    IsShallow bound child = c.depth (y.from_mapping child.1.0) < bound

    pub pushed_on-All :
        (bound : ℕ) (children done : List (Child y))
        → All (IsShallow bound) children
        → All (IsShallow bound) done
        → All (IsShallow bound) (pushed_on children done)
    pushed_on-All bound [] done h k = k
    pushed_on-All bound (child ∷ children) done (h, hs) k =
        pushed_on-All bound children (child ∷ done) hs (h, k)

    -- A child's old mapping is the value under its key.
    abbrev IsValueOf : y.Value → Child y → Type 0
    IsValueOf v child = y.from_mapping child.1.0 ≡ v

    -- No tasks come from values that are not both mappings.
    pub compare_sequences-child :
        (path : FieldPath) (old new : List y.Value)
        → child_of y (compare_sequences y c path old new) ≡ []
    unfolding compare_sequences
    compare_sequences-child path old new = ground arith

    pub compare_values-child :
        (path : FieldPath) (old new : y.Value) → child_of y (compare_values y c path old new) ≡ []
    unfolding compare_values
    compare_values-child path old new = ground arith

    no_child :
        (v : y.Value) (outcome : KeyOutcome y)
        → child_of y outcome ≡ []
        → All (IsValueOf v) (child_of y outcome)
    no_child v outcome e = rw e tt

    unmapped :
        (u : y.Value) (path : FieldPath) (vs ws : Option (List y.Value)) (v w : y.Value)
        → All
            (IsValueOf u)
            (child_of y (both vs ws (compare_sequences y c path) (compare_values y c path v w)))
    unmapped u path none ws v w =
        no_child u (compare_values y c path v w) (compare_values-child path v w)
    unmapped u path (some vs) none v w =
        no_child u (compare_values y c path v w) (compare_values-child path v w)
    unmapped u path (some vs) (some ws) v w =
        no_child u (compare_sequences y c path vs ws) (compare_sequences-child path vs ws)

    common_key-children :
        (path : FieldPath) (k : String) (v w : y.Value)
        → All (IsValueOf v) (child_of y (common_key y c path k v w))
    unfolding common_key
    common_key-children path k v w = elim (Option-cases (y.as_mapping v)) [
      | inl e ↦ rw (e, common_key, both) (unmapped v path (y.as_sequence v) (y.as_sequence w) v w)
      | inr (m, e) ↦ elim (Option-cases (y.as_mapping w)) [
        | inl f ↦
            rw (e, f, common_key, both) (unmapped v path (y.as_sequence v) (y.as_sequence w) v w)
        | inr (n, f) ↦ rw (e, f, common_key, both) (y.from-as_mapping v m e, tt)
      ]
    ]

    old_key-children :
        (mask : FieldPath) (new : y.Mapping) (e : y.Value × y.Value)
        → All (IsValueOf e.1) (child_of y (old_key y c mask new e))
    unfolding old_key
    old_key-children mask new e = elim (Option-cases (y.lookup new e.0)) [
      | inl k ↦ elim (Option-cases (convert_key_to_string y c e.0)) [
        | inl t ↦ rw (k, t, old_key) tt
        | inr (s, t) ↦ rw (k, t, old_key) tt
      ]
      | inr (w, k) ↦ elim (Option-cases (convert_key_to_string y c e.0)) [
        | inl t ↦ rw (k, t, old_key) tt
        | inr (s, t) ↦ rw (k, t, old_key) (common_key-children (mask ++ s ∷ []) s e.1 w)
      ]
    ]

    IsShallow-values :
        (bound : ℕ) (v : y.Value) (children : List (Child y))
        → c.depth v < bound
        → All (IsValueOf v) children
        → All (IsShallow bound) children
    IsShallow-values bound v [] h k = tt
    IsShallow-values bound v (child ∷ children) h (e, k) =
        (subst (λ u. c.depth u < bound) (sym e) h, IsShallow-values bound v children h k)

    IsShallow-entries :
        (bound : ℕ) (mask : FieldPath) (new : y.Mapping) (entries : List (y.Value × y.Value))
        → All (λ e. c.depth e.1 < bound) entries
        → All (IsShallow bound) (collected (λ e. child_of y (old_key y c mask new e)) entries)
    IsShallow-entries bound mask new [] h = tt
    IsShallow-entries bound mask new (e ∷ entries) (h, hs) =
        All-append (IsShallow bound) (child_of y (old_key y c mask new e)) _
          (IsShallow-values bound e.1 (child_of y (old_key y c mask new e)) h
            (old_key-children mask new e))
          (IsShallow-entries bound mask new entries hs)

    pub pair_children-IsShallow :
        (mask : FieldPath) (old new : y.Mapping)
        → All (IsShallow (c.depth (y.from_mapping old))) (pair_children y c mask old new)
    unfolding pair_children
    pair_children-IsShallow mask old new =
        IsShallow-entries (c.depth (y.from_mapping old)) mask new (y.entries old)
          (c.depth-entries (y.from_mapping old) old (y.as_mapping-from old))
