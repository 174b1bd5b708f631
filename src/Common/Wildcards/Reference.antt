-- ===== src/Common/Wildcards/Reference.antt =====
-- The expansion of wildcards by recursion over a path, and the loop that computes it.
use mathlib.Core.List.{append_assoc, append-nil}
use ankaios.Prelude.{
  ℕ, zero, suc, ◌+◌, ◌≤◌, String, ◌==◌, true, false, List, [], ◌∷◌, ◌++◌, map, Option, none, some,
  ◌≡◌, refl, sym, ap, ◌∙◌, arith, Option-cases, Bool-cases, inl, inr,
}
use ankaios.Common.Path.{FieldPath}
use ankaios.Common.Yaml.{Yaml}
use ankaios.Common.Object.{Object}
use ankaios.Common.Wildcards.{
  Task, wildcard_symbol, key_text, push_keys, follow, push_result, expand_loop, sum_keys, cost,
  total_cost, expand_wildcards,
}

module _ (y : Yaml) where
  -- The paths behind the keys of a mapping, the last key first.
  abbrev pub paths_of_keys :
      (String → y.Value → List FieldPath) → List (y.Value × y.Value) → List FieldPath
  paths_of_keys paths [] = []
  paths_of_keys paths ((key, value) ∷ entries) = elim (key_text y key) [
    | none ↦ paths_of_keys paths entries
    | some k ↦ paths_of_keys paths entries ++ paths k value
  ]

  -- The concrete paths of a path with wildcards, each behind the prefix.
  unfoldable pub paths_of : FieldPath → FieldPath → y.Value → List FieldPath
  paths_of prefix [] v = prefix ∷ []
  paths_of prefix (e ∷ path) v = elim (e == wildcard_symbol) [
    | true ↦ elim (y.as_mapping v) [
      | none ↦ []
      | some m ↦ paths_of_keys (λ k. paths_of (prefix ++ k ∷ []) path) (y.entries m)
    ]
    | false ↦ elim (y.index v e) [ none ↦ [] | some w ↦ paths_of (prefix ++ e ∷ []) path w ]
  ]

  abbrev pub paths_of_tasks : List (Task y) → List FieldPath
  paths_of_tasks [] = []
  paths_of_tasks ((prefix, v, path) ∷ to_do) = paths_of prefix path v ++ paths_of_tasks to_do

  push_keys-paths :
      (prefix path : FieldPath) (entries : List (y.Value × y.Value)) (to_do : List (Task y))
      → paths_of_tasks (push_keys y prefix path entries to_do)
        ≡ paths_of_keys (λ k. paths_of (prefix ++ k ∷ []) path) entries ++ paths_of_tasks to_do
  unfolding push_keys
  push_keys-paths prefix path [] to_do = refl
  push_keys-paths prefix path ((key, v) ∷ entries) to_do = elim (Option-cases (key_text y key)) [
    | inl e ↦ rw (e, push_keys, paths_of_keys) (push_keys-paths prefix path entries to_do)
    | inr (k, e) ↦
        rw (e, push_keys, paths_of_keys)
          (push_keys-paths prefix path entries ((prefix ++ k ∷ [], v, path) ∷ to_do)
            ∙ sym (
                append_assoc (paths_of_keys (λ k. paths_of (prefix ++ k ∷ []) path) entries)
                  (paths_of (prefix ++ k ∷ []) path v) (paths_of_tasks to_do)))
  ]

  push_keys-cost :
      (prefix path : FieldPath) (entries : List (y.Value × y.Value)) (to_do : List (Task y))
      → total_cost y (push_keys y prefix path entries to_do)
        ≡ sum_keys y (cost y path) entries + total_cost y to_do
  unfolding push_keys total_cost
  push_keys-cost prefix path [] to_do = omega arith
  push_keys-cost prefix path ((key, v) ∷ entries) to_do = elim (Option-cases (key_text y key)) [
    | inl e ↦ rw (e, push_keys, sum_keys) (push_keys-cost prefix path entries to_do)
    | inr (k, e) ↦
        let ih = push_keys-cost prefix path entries ((prefix ++ k ∷ [], v, path) ∷ to_do) in
        rw (e, push_keys, sum_keys) (omega (arith, ih))
  ]

  abbrev pub as_list : Option FieldPath → List FieldPath
  as_list none = []
  as_list (some path) = path ∷ []

  -- One turn of the outer loop: what it leaves, and that it leaves one task less.
  follow-paths :
      (prefix : FieldPath) (v : y.Value) (path : FieldPath) (to_do : List (Task y))
      → as_list (follow y prefix v path to_do).0 ++ paths_of_tasks (follow y prefix v path to_do).1
        ≡ paths_of prefix path v ++ paths_of_tasks to_do
  unfolding follow paths_of
  follow-paths prefix v [] to_do = refl
  follow-paths prefix v (e ∷ path) to_do = elim (Bool-cases (e == wildcard_symbol)) [
    | inl star ↦ elim (Option-cases (y.as_mapping v)) [
      | inl f ↦ rw (star, follow, paths_of, f) refl
      | inr (m, f) ↦
          rw (star, follow, paths_of, f) (push_keys-paths prefix path (y.entries m) to_do)
    ]
    | inr name ↦ elim (Option-cases (y.index v e)) [
      | inl f ↦ rw (name, follow, paths_of, f) refl
      | inr (w, f) ↦ rw (name, follow, paths_of, f) (follow-paths (prefix ++ e ∷ []) w path to_do)
    ]
  ]

  follow-cost :
      (prefix : FieldPath) (v : y.Value) (path : FieldPath) (to_do : List (Task y))
      → suc (total_cost y (follow y prefix v path to_do).1) ≡ cost y path v + total_cost y to_do
  unfolding follow cost
  follow-cost prefix v [] to_do = omega arith
  follow-cost prefix v (e ∷ path) to_do = elim (Bool-cases (e == wildcard_symbol)) [
    | inl star ↦ elim (Option-cases (y.as_mapping v)) [
      | inl f ↦ rw (star, follow, cost, f) (omega arith)
      | inr (m, f) ↦
          rw (star, follow, cost, f) (omega (arith, push_keys-cost prefix path (y.entries m) to_do))
    ]
    | inr name ↦ elim (Option-cases (y.index v e)) [
      | inl f ↦ rw (name, follow, cost, f) (omega arith)
      | inr (w, f) ↦ rw (name, follow, cost, f) (follow-cost (prefix ++ e ∷ []) w path to_do)
    ]
  ]

  push_result-append :
      (result : List FieldPath) (found : Option FieldPath) (rest : List FieldPath)
      → push_result result found ++ rest ≡ result ++ (as_list found ++ rest)
  push_result-append result none rest = refl
  push_result-append result (some path) rest = append_assoc result (path ∷ []) rest

  expand_loop-paths :
      (fuel : ℕ) (to_do : List (Task y)) (result : List FieldPath)
      → total_cost y to_do ≤ fuel
      → expand_loop y fuel to_do result ≡ some (result ++ paths_of_tasks to_do)
  unfolding expand_loop total_cost
  expand_loop-paths fuel [] result h = ap (λ (l : List FieldPath). some l) (sym (append-nil result))
  expand_loop-paths zero ((prefix, v, path) ∷ to_do) result h =
      absurd (omega (arith, follow-cost prefix v path to_do, h))
  expand_loop-paths (suc fuel) ((prefix, v, path) ∷ to_do) result h =
      let turn = follow y prefix v path to_do in
      expand_loop-paths fuel turn.1 (push_result result turn.0)
        (omega (arith, follow-cost prefix v path to_do, h))
      ∙ ap (λ (l : List FieldPath). some l)
          (push_result-append result turn.0 (paths_of_tasks turn.1)
            ∙ ap (λ (l : List FieldPath). result ++ l) (follow-paths prefix v path to_do))

  -- The loop ends, with the concrete paths of each path, in the order of the reference.
  abbrev pub all_paths : Object y → List FieldPath → List FieldPath
  all_paths o [] = []
  all_paths o (path ∷ paths) = paths_of [] path o ++ all_paths o paths

  first_tasks :
      (o : Object y) (paths : List FieldPath)
      → paths_of_tasks (map (λ p. ([], o, p)) paths) ≡ all_paths o paths
  first_tasks o [] = refl
  first_tasks o (path ∷ paths) =
      ap (λ (l : List FieldPath). paths_of [] path o ++ l) (first_tasks o paths)

  pub expand_wildcards-all_paths :
      (o : Object y) (paths : List FieldPath)
      → expand_wildcards y o paths ≡ some (all_paths o paths)
  unfolding expand_wildcards
  expand_wildcards-all_paths o paths =
      expand_loop-paths (total_cost y (map (λ p. ([], o, p)) paths)) (map (λ p. ([], o, p)) paths)
        [] (omega arith)
      ∙ ap (λ (l : List FieldPath). some l) (first_tasks o paths)
