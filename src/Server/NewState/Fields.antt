-- ===== src/Server/NewState/Fields.antt =====
-- What the fields of an update mask change of the state.
use ankaios.Prelude.{
  String, true, List, [], ◌∷◌, ◌++◌, all, ok, ◌≡◌, refl, sym, ap, ◌∙◌, and_then-ok, ok_value,
  Option-cases, Result-cases, and-eq-true, inl, inr,
}
use ankaios.Common.Yaml.{Yaml}
use ankaios.Common.Path.{FieldPath, path_from}
use ankaios.Common.Object.{Object, get, set, remove}
use ankaios.Common.Object.Within.{apart-append, get-append}
use ankaios.Common.Object.Setting.{apart, below, set-get}
use ankaios.Common.Object.Removing.{remove-Removed}
use ankaios.Server.NewState.{apply_field, apply_fields}

all-apart :
    (fields : List String) (path rest : FieldPath)
    → all (λ field. apart (path_from field) path) fields ≡ true
    → all (λ field. apart (path_from field) (path ++ rest)) fields ≡ true
all-apart [] path rest h = refl
all-apart (field ∷ fields) path rest h =
    let (here, there) = and-eq-true (apart (path_from field) path) _ h in
    rw (apart-append (path_from field) path rest here) (all-apart fields path rest there)

module _ (y : Yaml) where
  -- Field by field: the update's value or none below the field, everything apart as before.
  abbrev pub Applied : Object y → Object y → FieldPath → Object y → Type 0
  Applied update old path new =
      ((rest : FieldPath) → get y new (path ++ rest) ≡ get y update (path ++ rest))
      × ((q : FieldPath) → apart path q ≡ true → get y new q ≡ get y old q)

  apply_field-Applied :
      (update old : Object y) (field : String) (new : Object y)
      → apply_field y update old field ≡ ok new
      → Applied update old (path_from field) new
  unfolding apply_field
  apply_field-Applied update old field new h =
      elim (Option-cases (get y update (path_from field))) [
        | inl e ↦ elim (Result-cases (remove y old (path_from field))) [
          | inl (x, f) ↦ absurd (cc (rw (e, f, apply_field) at h))
          | inr (r, f) ↦
              let (_, gone, others) = remove-Removed y old (path_from field) r f in
              let same =
                ok_value r.1 new (apply_field y update old field) (rw (apply_field, e, f) refl) h in
              rw (sym same) (
                λ rest.
                    gone rest
                    ∙ sym (get-append y update (path_from field) rest ∙ ap (λ o. below y o rest) e),
                others,
              )
        ]
        | inr (v, e) ↦ elim (Result-cases (set y old (path_from field) v)) [
          | inl (x, f) ↦ absurd (cc (rw (e, f, apply_field) at h))
          | inr (o, f) ↦
              let (there, others) = set-get y old (path_from field) v o f in
              let same =
                ok_value o new (apply_field y update old field) (rw (apply_field, e, f) refl) h in
              rw (sym same) (
                λ rest.
                    there rest
                    ∙ sym (get-append y update (path_from field) rest ∙ ap (λ o. below y o rest) e),
                others,
              )
        ]
      ]

  pub apply_fields-apart :
      (update old : Object y) (mask : List String) (new : Object y) (q : FieldPath)
      → apply_fields y update old mask ≡ ok new
      → all (λ field. apart (path_from field) q) mask ≡ true
      → get y new q ≡ get y old q
  unfolding apply_fields
  apply_fields-apart update old [] new q h d =
      ap (λ o. get y o q) (sym (ok_value old new (ok old) refl h))
  apply_fields-apart update old (field ∷ mask) new q h d =
      let (next, e1, h1) = and_then-ok (apply_field y update old field) _ new h in
      let (here, there) = and-eq-true (apart (path_from field) q) _ d in
      let (_, others) = apply_field-Applied update old field next e1 in
      apply_fields-apart update next mask new q h1 there ∙ others q here

  pub apply_fields-below :
      (update old : Object y) (before : List String) (field : String) (after : List String)
      (new : Object y) (rest : FieldPath)
      → apply_fields y update old (before ++ field ∷ after) ≡ ok new
      → all (λ later. apart (path_from later) (path_from field)) after ≡ true
      → get y new (path_from field ++ rest) ≡ get y update (path_from field ++ rest)
  unfolding apply_fields
  apply_fields-below update old [] field after new rest h d =
      let (next, e1, h1) = and_then-ok (apply_field y update old field) _ new h in
      let (here, _) = apply_field-Applied update old field next e1 in
      apply_fields-apart update next after new (path_from field ++ rest) h1
        (all-apart after (path_from field) rest d)
      ∙ here rest
  apply_fields-below update old (first ∷ before) field after new rest h d =
      let (next, e1, h1) = and_then-ok (apply_field y update old first) _ new h in
      apply_fields-below update next before field after new rest h1 d
