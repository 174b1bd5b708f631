-- ===== src/Server/StateQuery/Filtered.antt =====
-- What the filtered state holds.
use ankaios.Prelude.{
  String, true, List, [], ◌∷◌, All, none, ok, ◌≡◌, refl, ◌∙◌, ◌≢◌, all, and-eq-true,
}
use ankaios.Common.Path.{FieldPath}
use ankaios.Common.Yaml.{Yaml}
use ankaios.Common.Object.{Object, default_object, get}
use ankaios.Common.Object.Setting.{apart, set-get, get_from}
use ankaios.Common.Object.Within.{Direct, Within, Within-empty, Direct-get}
use ankaios.Common.Object.Growing.{set-total, Within-set, Alike, Alike-set, set-Alike}
use ankaios.Common.Wildcards.Reference.{all_paths, expand_wildcards-all_paths}
use ankaios.Common.Wildcards.Expanded.{TextKeys, all_paths-Direct}
use ankaios.Server.StateQuery.{
  QueryCodec, collect, query_filters, parsed, get_complete_state_by_field_mask,
}

module _ (y : Yaml) (codec : QueryCodec y) where
  -- The loop ends with an object that holds only values of the current one, is read like it below
  -- the filters and below what was read alike before, and is read as before where all filters part.
  abbrev pub Collected : Object y → List FieldPath → Object y → Object y → Type 0
  Collected c filters before r =
      Within y r c
      × All (Alike y r c) filters
      × ((f : FieldPath) → Alike y before c f → Alike y r c f)
      × ((q : FieldPath) → all (λ f. apart f q) filters ≡ true → get y r q ≡ get y before q)

  collect-Collected :
      (c : Object y) (filters : List FieldPath) (before : Object y)
      → All (λ q. Direct y c q × (q ≢ [])) filters
      → Within y before c
      → (r : Object y) × (collect y codec c filters before ≡ ok r) × Collected c filters before r
  unfolding collect
  collect-Collected c [] before d h = (before, refl, (h, tt, (λ f a. a), λ q e. refl))
  collect-Collected c (field ∷ filters) before ((d, n), ds) h =
      let (v, g) = Direct-get y c field d in
      let (next, e) = set-total y before c field v h d n in
      let within = Within-set y before c field v next h g e in
      let (r, loop, (within_r, alike, kept, others)) = collect-Collected c filters next ds within in
      (
        r,
        rw (g, collect, e) loop,
        (
          within_r,
          (kept field (set-Alike y before c field v next g e), alike),
          (λ f a. kept f (Alike-set y before c field v next f h n d g e a)),
          (λ q p.
              let (here, there) = and-eq-true (apart field q) _ p in
              others q there ∙ (set-get y before field v next e).1 q here),
        ),
      )

  get-default : (q : FieldPath) → q ≢ [] → get y (default_object y) q ≡ none
  get-default [] n = absurd (n refl)
  get-default (k ∷ q) n = rw (get_from y y.empty k q, y.lookup-empty k) refl

  -- Where the current state's mappings have texts as keys and no filter is empty, a request with a
  -- nonempty mask is answered by the state that some object holds, or says that this object holds
  -- none. The object is read like the current state's below each path that the filters expand to,
  -- and has nothing at the paths from which all of these part.
  pub get_complete_state-filters :
      (state : codec.CompleteState) (field : String) (field_mask : List String)
      → TextKeys y (codec.object_of state)
      → All (λ path. path ≢ []) (query_filters y codec (field ∷ field_mask))
      → (r : Object y) × (get_complete_state_by_field_mask y codec state (field ∷ field_mask)
          ≡ parsed y codec (ok r))
        × All
            (Alike y r (codec.object_of state))
            (all_paths y (codec.object_of state) (query_filters y codec (field ∷ field_mask)))
        × ((q : FieldPath)
            → q ≢ []
            → all
                (λ f. apart f q)
                (all_paths y (codec.object_of state) (query_filters y codec (field ∷ field_mask)))
              ≡ true
            → get y r q ≡ none)
  unfolding get_complete_state_by_field_mask
  get_complete_state-filters state field field_mask t n =
      let current = codec.object_of state in
      let filters = query_filters y codec (field ∷ field_mask) in
      let (r, e, (_, alike, _, others)) =
        collect-Collected current (all_paths y current filters) (default_object y)
          (all_paths-Direct y current filters t n) (Within-empty y current) in
      (
        r,
        rw (expand_wildcards-all_paths y current filters, get_complete_state_by_field_mask, e) refl,
        alike,
        λ q k p. others q p ∙ get-default q k,
      )
