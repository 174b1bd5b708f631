-- ===== src/Server/NewState/Generation.antt =====
-- The state that `generate_new_state` makes for a nonempty update mask.
use ankaios.Prelude.{
  String, all, ◌++◌, true, List, [], ◌∷◌, Option, none, some, ok, ◌≡◌, refl, sym, ap, ◌∙◌,
  and_then-ok, ok_value,
}
use ankaios.Common.Yaml.{Yaml}
use ankaios.Common.Object.{Object, get}
use ankaios.Common.Object.Setting.{apart}
use ankaios.Common.Path.{FieldPath, path_from}
use ankaios.Server.NewState.Fields.{apply_fields-apart, apply_fields-below}
use ankaios.Server.Render.{Engine}
use ankaios.Server.ServerState.{ServerState}
use ankaios.Server.NewState.{
  StateCodec, StateGenerationResult, apply_fields, masked_state, or_parse_error, generated,
  generate_new_state,
}

or_parse_error-ok : {A : Type 0} (o : Option A) (a : A) → or_parse_error o ≡ ok a → o ≡ some a
or_parse_error-ok none a h = cc
or_parse_error-ok (some b) a h = cc

module _ (engine : Engine) (y : Yaml) (codec : StateCodec engine y) where
  -- The generated state is the one that the object `new` holds, where `new` differs from the old
  -- state's object by the update's fields.
  abbrev pub Generated :
      ServerState engine
      → codec.Update
      → List String
      → (Object y → Object y → Object y → Type 0)
      → StateGenerationResult engine y codec
      → Type 0
  Generated s update mask Relation r =
      (old : Object y) × (wanted : Object y) × (new : Object y) × (codec.object_of_state
          s.desired_state
        ≡ some old)
      × (codec.object_of_update update ≡ some wanted)
      × (codec.spec_of_object new ≡ some (r.new_desired_state, r.new_agent_map))
      × (r.old_desired_state ≡ s.desired_state)
      × Relation old wanted new

  generate_new_state-Generated :
      (s : ServerState engine) (update : codec.Update) (mask : List String)
      (r : StateGenerationResult engine y codec)
      → (mask ≡ [] → ⊥)
      → generate_new_state engine y codec s update mask ≡ ok r
      → Generated s update mask (λ old wanted new. apply_fields y wanted old mask ≡ ok new) r
  unfolding generate_new_state masked_state
  generate_new_state-Generated s update [] r h e = absurd (h refl)
  generate_new_state-Generated s update (field ∷ mask) r h e =
      let (new, e1, h1) = and_then-ok (masked_state engine y codec s update (field ∷ mask)) _ r e in
      let (spec, e2, h2) = and_then-ok (or_parse_error (codec.spec_of_object new)) _ r h1 in
      let (old, e3, h3) =
        and_then-ok (or_parse_error (codec.object_of_state s.desired_state)) _ new e1 in
      let (wanted, e4, h4) =
        and_then-ok (or_parse_error (codec.object_of_update update)) _ new h3 in
      let same : generated engine y codec s spec ≡ r =
        ok_value _ r (ok (generated engine y codec s spec)) refl h2 in
      (
        old,
        wanted,
        new,
        or_parse_error-ok _ old e3,
        or_parse_error-ok _ wanted e4,
        or_parse_error-ok _ spec e2
            ∙ ap
                (λ (g : StateGenerationResult engine y codec).
                  some (g.new_desired_state, g.new_agent_map))
                same,
        sym (ap (λ (g : StateGenerationResult engine y codec). g.old_desired_state) same),
        h4,
      )

  -- Where a state is generated for a nonempty mask, the object it holds has the following fields,
  -- for each field of the mask from which all later fields of the mask part: below the field it is
  -- read as the update's object, absent where that is absent; and each path from which all fields
  -- of the mask part is read as in the old state's object.
  pub generate_new_state-fields :
      (s : ServerState engine) (update : codec.Update) (before : List String) (field : String)
      (after : List String) (r : StateGenerationResult engine y codec)
      → generate_new_state engine y codec s update (before ++ field ∷ after) ≡ ok r
      → all (λ later. apart (path_from later) (path_from field)) after ≡ true
      → Generated s update
          (before ++ field ∷ after)
          (λ old wanted new.
            ((rest : FieldPath)
              → get y new (path_from field ++ rest) ≡ get y wanted (path_from field ++ rest))
            × ((q : FieldPath)
                → all (λ f. apart (path_from f) q) (before ++ field ∷ after) ≡ true
                → get y new q ≡ get y old q))
          r
  generate_new_state-fields s update before field after r e d =
      let (old, wanted, new, e1, e2, e3, e4, e5) =
        generate_new_state-Generated s update (before ++ field ∷ after) r
          (nonempty before field after) e in
      (
        old,
        wanted,
        new,
        e1,
        e2,
        e3,
        e4,
        (
          λ rest. apply_fields-below y wanted old before field after new rest e5 d,
          λ q h. apply_fields-apart y wanted old (before ++ field ∷ after) new q e5 h,
        ),
      )
    where
      nonempty : (xs : List String) (x : String) (ys : List String) → xs ++ x ∷ ys ≡ [] → ⊥
      nonempty [] x ys h = cc
      nonempty (z ∷ xs) x ys h = cc
