-- ===== src/Server/Events/Altered/Fields.antt =====
-- The altered fields in a subtree that was added or removed as a whole, for a mask that goes on below it.
use mathlib.Core.List.{append-nil}
use ankaios.Prelude.{
  ℕ, suc, ◌<◌, String, ◌==◌, false, ◌&&◌, if◌then◌else◌, List, [], ◌∷◌, ◌++◌, All, All-append, map,
  length, none, some, Option, option_then, ◌≡◌, refl, ap, ◌∙◌, arith, Bool-cases, Option-cases, inl,
  inr, walk, work-walk, work-nothing, collected, pushed_on,
}
use ankaios.Common.Path.{FieldPath}
use ankaios.Common.Yaml.{Yaml, Comparison}
use ankaios.Common.Wildcards.{wildcard_symbol}
use ankaios.Server.Events.Altered.{
  update_path_with_new_key, is_last, keyed_entries, leaf_tasks, leaf_step,
  collect_all_leaf_paths_iterative, MaskTask, null_turn, pair_turn, extended_turn, or_null,
  wildcard_turn, named_turn, mask_step, fields_of_mask,
}
use ankaios.Server.Events.Altered.Leaves.{path_behind}

module _ (y : Yaml) (c : Comparison y) where
  abbrev rest_length : MaskTask y c → ℕ
  rest_length t = length t.2

  abbrev Falls : FieldPath → List (MaskTask y c) → Type 0
  Falls rest tasks = All (λ t. rest_length t < suc (length rest)) tasks

  null_turn-Falls :
      (w : y.Value) (rest : FieldPath) (path : String) → Falls rest (null_turn y c w rest path).1
  unfolding null_turn
  null_turn-Falls w [] path = tt
  null_turn-Falls w (part ∷ rest) path = elim (Option-cases (y.as_mapping w)) [
    | inl e ↦ rw (e, null_turn) tt
    | inr (m, e) ↦ rw (e, null_turn) (omega arith, tt)
  ]

  pair_turn-Falls :
      (v w : y.Value) (rest : FieldPath) (path : String)
      → Falls rest (pair_turn y c v w rest path).1
  unfolding pair_turn
  pair_turn-Falls v w rest path = elim (Option-cases (y.as_mapping v)) [
    | inl e ↦ elim (Bool-cases (c.is_null v)) [
      | inl n ↦ rw (e, n, pair_turn) (null_turn-Falls w rest path)
      | inr n ↦ rw (e, n, pair_turn) tt
    ]
    | inr (m, e) ↦ elim (Option-cases (y.as_mapping w)) [
      | inl f ↦ rw (e, f, pair_turn) tt
      | inr (n, f) ↦ rw (e, f, pair_turn) (omega arith, tt)
    ]
  ]

  extended_turn-Falls :
      (w : y.Value) (rest : FieldPath) (path : String)
      → Falls rest (extended_turn y c w rest path).1
  unfolding extended_turn
  extended_turn-Falls w rest path = elim (Option-cases (y.as_mapping w)) [
    | inl e ↦ elim (Bool-cases (c.is_null w && is_last rest)) [
      | inl n ↦ rw (e, n, extended_turn) tt
      | inr n ↦ rw (e, n, extended_turn) tt
    ]
    | inr (m, e) ↦ rw (e, extended_turn) (omega arith, tt)
  ]

  wildcard_turn-Falls :
      (node : y.Mapping) (rest : FieldPath) (path : String) (entries : List (String × y.Value))
      → Falls rest (wildcard_turn y c node rest path entries).1
  unfolding wildcard_turn
  wildcard_turn-Falls node rest path [] = tt
  wildcard_turn-Falls node rest path ((k, w) ∷ entries) =
      All-append _
        (pair_turn y c (or_null y c (y.lookup node (y.text k))) w rest
          (update_path_with_new_key path k)).1
        _
        (pair_turn-Falls (or_null y c (y.lookup node (y.text k))) w rest
          (update_path_with_new_key path k))
        (wildcard_turn-Falls node rest path entries)

  named_turn-Falls :
      (node extended : y.Mapping) (part : String) (rest : FieldPath) (path : String)
      → Falls rest (named_turn y c node extended part rest path).1
  unfolding named_turn
  named_turn-Falls node extended part rest path =
      elim (Option-cases (y.lookup extended (y.text part))) [
        | inl e ↦ rw (e, named_turn) tt
        | inr (w, e) ↦ elim (Option-cases (y.lookup node (y.text part))) [
          | inl f ↦
              rw (e, f, named_turn)
                (extended_turn-Falls w rest (update_path_with_new_key path part))
          | inr (v, f) ↦
              rw (e, f, named_turn) (pair_turn-Falls v w rest (update_path_with_new_key path part))
        ]
      ]

  mask_falls : (t : MaskTask y c) → All (λ u. rest_length u < rest_length t) (mask_step y c t).1
  unfolding mask_step
  mask_falls (node, extended, [], path) = tt
  mask_falls (node, extended, (part ∷ rest), path) = elim (Bool-cases (part == wildcard_symbol)) [
    | inl star ↦
        rw (star, mask_step)
          (wildcard_turn-Falls node rest path (keyed_entries y c (y.entries extended)))
    | inr name ↦ rw (name, mask_step) (named_turn-Falls node extended part rest path)
  ]

  abbrev pub AreNames : FieldPath → Type 0
  AreNames parts = All (λ part. part == wildcard_symbol ≡ false) parts

  -- The value under the parts in the extended tree.
  abbrev pub value_at : y.Mapping → FieldPath → Option y.Value
  value_at extended [] = some (y.from_mapping extended)
  value_at extended (part ∷ []) = y.lookup extended (y.text part)
  value_at extended (part ∷ (next ∷ parts)) =
      option_then (y.lookup extended (y.text part))
        (λ w. option_then (y.as_mapping w) (λ m. value_at m (next ∷ parts)))

  -- A leaf is reported, a mapping is not.
  abbrev pub if_leaf : String → Option y.Value → List String
  if_leaf path none = []
  if_leaf path (some w) = elim (y.as_mapping w) [
    | some m ↦ []
    | none ↦ if c.is_null w then path ∷ [] else []
  ]

  no_keys :
      (entries : List (y.Value × y.Value))
      → All (λ e. y.lookup y.empty e.0 ≡ some e.1) entries
      → keyed_entries y c entries ≡ []
  unfolding keyed_entries
  no_keys [] h = refl
  no_keys ((key, v) ∷ entries) (h, hs) = elim (Option-cases (y.as_text key)) [
    | inl e ↦ rw (e, keyed_entries) (no_keys entries hs)
    | inr (k, e) ↦ absurd (cc (h, y.text-as_text key k e, y.lookup-empty k))
  ]

  step_nothing :
      (m : y.Mapping)
      → keyed_entries y c (y.entries m) ≡ []
      → leaf_step y c (y.from_mapping m, "") ≡ ([], [])
  unfolding leaf_step
  step_nothing m h =
      rw (y.as_mapping-from m, leaf_step)
        (ap (λ (es : List (String × y.Value)). ([], leaf_tasks y c "" es)) h)

  pub no_leaves :
      (m : y.Mapping)
      → keyed_entries y c (y.entries m) ≡ []
      → collect_all_leaf_paths_iterative y c (y.from_mapping m) ≡ []
  unfolding collect_all_leaf_paths_iterative
  no_leaves m h =
      work-nothing (leaf_step y c) (c.depth (y.from_mapping m)) (y.from_mapping m, "")
        (step_nothing m h)

  -- The results of a turn and of what it pushes.
  abbrev finish : ℕ → List String × List (MaskTask y c) → List String
  finish bound turn = turn.0 ++ collected (walk (mask_step y c) bound) (pushed_on turn.1 [])

  step_below :
      (extended : y.Mapping) (part : String) (rest : FieldPath) (path : String)
      → part == wildcard_symbol ≡ false
      → mask_step y c (y.empty, extended, part ∷ rest, path)
        ≡ (elim (y.lookup extended (y.text part)) [
          | none ↦ ([], [])
          | some w ↦ extended_turn y c w rest (update_path_with_new_key path part)
        ])
  unfolding mask_step named_turn
  step_below extended part rest path name = elim (Option-cases (y.lookup extended (y.text part))) [
    | inl e ↦ rw (name, mask_step, e, named_turn) refl
    | inr (w, e) ↦ rw (name, mask_step, e, named_turn, y.lookup-empty part) refl
  ]

  last_value :
      (w : y.Value) (path : String) → finish 0 (extended_turn y c w [] path) ≡ if_leaf path (some w)
  unfolding extended_turn walk mask_step
  last_value w path = elim (Option-cases (y.as_mapping w)) [
    | inl f ↦ elim (Bool-cases (c.is_null w)) [
      | inl n ↦ rw (f, extended_turn, if_leaf, n) refl
      | inr n ↦ rw (f, extended_turn, if_leaf, n) refl
    ]
    | inr (m, f) ↦
        rw (f, extended_turn, if_leaf)
          (ap (λ (l : List String). map (update_path_with_new_key path) l ++ [])
            (no_leaves y.empty (no_keys (y.entries y.empty) (y.lookup-entries y.empty))))
  ]

  walk-below :
      (extended : y.Mapping) (part : String) (parts : FieldPath) (path : String)
      → AreNames (part ∷ parts)
      → walk (mask_step y c) (length (part ∷ parts)) (y.empty, extended, part ∷ parts, path)
        ≡ if_leaf (path_behind path (part ∷ parts)) (value_at extended (part ∷ parts))
  unfolding walk mask_step extended_turn
  walk-below extended part [] path (name, names) =
      ap (finish 0) (step_below extended part [] path name)
      ∙ elim (Option-cases (y.lookup extended (y.text part))) [
        | inl e ↦ rw e refl
        | inr (w, e) ↦ rw e (last_value w (update_path_with_new_key path part))
      ]
  walk-below extended part (next ∷ parts) path (name, names) =
      ap (finish (length (next ∷ parts))) (step_below extended part (next ∷ parts) path name)
      ∙ elim (Option-cases (y.lookup extended (y.text part))) [
        | inl e ↦ rw e refl
        | inr (w, e) ↦ elim (Option-cases (y.as_mapping w)) [
          | inl f ↦ elim (Bool-cases (c.is_null w)) [
            | inl n ↦ rw (e, f, extended_turn, n) refl
            | inr n ↦ rw (e, f, extended_turn, n) refl
          ]
          | inr (m, f) ↦
              rw (e, f, extended_turn)
                (append-nil (
                    walk (mask_step y c) (length (next ∷ parts))
                      (y.empty, m, next ∷ parts, update_path_with_new_key path part))
                  ∙ walk-below m next parts (update_path_with_new_key path part) names)
        ]
      ]

  step_at_null :
      (full first : y.Mapping) (top : String) (v : y.Value) (m : y.Mapping) (rest : FieldPath)
      → y.lookup first (y.text top) ≡ some y.null
      → y.lookup full (y.text top) ≡ some v
      → y.as_mapping v ≡ some m
      → top == wildcard_symbol ≡ false
      → mask_step y c (first, full, top ∷ rest, "")
        ≡ null_turn y c v rest (update_path_with_new_key "" top)
  unfolding mask_step named_turn pair_turn
  step_at_null full first top v m rest a b d name =
      rw (name, mask_step, b, named_turn, a, pair_turn, c.as_mapping-null, c.is_null-null) refl

  null_below :
      (v : y.Value) (m : y.Mapping) (part : String) (parts : FieldPath) (path : String)
      → y.as_mapping v ≡ some m
      → null_turn y c v (part ∷ parts) path ≡ ([], (y.empty, m, part ∷ parts, path) ∷ [])
  unfolding null_turn
  null_below v m part parts path d = rw (d, null_turn) refl

  -- The first tree has `null` at the mask's first part, where a whole subtree was added or removed. If
  -- the other parts are names, the field below it is reported exactly if it is a leaf of the full
  -- tree: a mask that ends at a mapping there gives no altered field.
  pub fields_of_mask-if_leaf :
      (full first : y.Mapping) (top : String) (v : y.Value) (m : y.Mapping) (part : String)
      (parts : FieldPath)
      → y.lookup first (y.text top) ≡ some y.null
      → y.lookup full (y.text top) ≡ some v
      → y.as_mapping v ≡ some m
      → AreNames (top ∷ part ∷ parts)
      → fields_of_mask y c full first (top ∷ part ∷ parts)
        ≡ if_leaf (path_behind "" (top ∷ part ∷ parts)) (value_at m (part ∷ parts))
  unfolding fields_of_mask walk
  fields_of_mask-if_leaf full first top v m part parts a b d (name, names) =
      let task : MaskTask y c = (first, full, top ∷ part ∷ parts, "") in
      let below : MaskTask y c = (y.empty, m, part ∷ parts, update_path_with_new_key "" top) in
      let step : mask_step y c task ≡ ([], below ∷ []) =
        step_at_null full first top v m (part ∷ parts) a b d name
        ∙ null_below v m part parts (update_path_with_new_key "" top) d in
      work-walk (mask_step y c) rest_length mask_falls task
      ∙ ap (finish (length (part ∷ parts))) step
      ∙ append-nil (walk (mask_step y c) (length (part ∷ parts)) below)
      ∙ walk-below m part parts (update_path_with_new_key "" top) names
