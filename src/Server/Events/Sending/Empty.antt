-- ===== src/Server/Events/Sending/Empty.antt =====
-- The server sends no events where all trees are empty. No subscriber misses one for it.
use ankaios.Prelude.{
  length, String, ◌==◌, Bool, true, false, List, [], ◌∷◌, ◌++◌, Option, none, some, map, ok, ◌≡◌,
  refl, ap, ◌∙◌, subst, Bool-cases, Option-cases, inl, inr, IsIn, collected, work-nothing,
}
use ankaios.Common.Path.{FieldPath}
use ankaios.Common.Yaml.{Yaml, Comparison}
use ankaios.Common.Wildcards.{wildcard_symbol}
use ankaios.Server.StateQuery.{QueryCodec}
use ankaios.Server.Comparator.{no_elements, StateDifferenceTree}
use ankaios.Server.Comparator.Trees.{
  object_is_empty, and_also, difference_tree_is_empty, state_difference_tree_is_empty, to_mapping,
}
use ankaios.Server.Events.{SubscriberStore}
use ankaios.Server.Events.Altered.{
  update_path_with_new_key, keyed_entries, wildcard_turn, named_turn, mask_step, fields_of_mask,
  create_altered_fields_matching_subscriber_masks,
}
use ankaios.Server.Events.Altered.Fields.{no_leaves}
use ankaios.Server.Events.Sending.{
  all_empty, DifferenceMappings, mappings_of, altered_fields_of, subscriber_events, send_events,
}

no_elements_nil : {A : Type 0} (xs : List A) → no_elements xs ≡ true → xs ≡ []
no_elements_nil [] h = refl
no_elements_nil (x ∷ xs) h = absurd cc

module _ (y : Yaml) (c : Comparison y) where
  abbrev Nothing : y.Mapping → Type 0
  Nothing m = y.entries m ≡ []

  not_keyed : (m : y.Mapping) → Nothing m → keyed_entries y c (y.entries m) ≡ []
  unfolding keyed_entries
  not_keyed m h = rw h refl

  not_there : (m : y.Mapping) (part : String) → Nothing m → y.lookup m (y.text part) ≡ none
  not_there m part h = elim (Option-cases (y.lookup m (y.text part))) [
    | inl e ↦ e
    | inr (v, e) ↦ absurd (subst (IsIn (y.text part, v)) h (c.entries_hold m part v e))
  ]

  no_step :
      (first full : y.Mapping) (mask : FieldPath)
      → Nothing first
      → Nothing full
      → mask_step y c (first, full, mask, "") ≡ ([], [])
  unfolding mask_step wildcard_turn named_turn
  no_step first full [] h k =
      ap (λ (l : List String). (map (update_path_with_new_key "") l, []))
        (no_leaves y c first (not_keyed first h))
  no_step first full (part ∷ rest) h k = elim (Bool-cases (part == wildcard_symbol)) [
    | inl star ↦ rw (star, mask_step) (ap (wildcard_turn y c first rest "") (not_keyed full k))
    | inr name ↦ rw (name, mask_step, not_there full part k, named_turn) refl
  ]

  no_fields_of :
      (first full : y.Mapping) (masks : List FieldPath)
      → Nothing first
      → Nothing full
      → collected (fields_of_mask y c full first) masks ≡ []
  unfolding fields_of_mask
  no_fields_of first full [] h k = refl
  no_fields_of first full (m ∷ ms) h k =
      ap (λ (l : List String). l ++ collected (fields_of_mask y c full first) ms)
        (work-nothing (mask_step y c) (length m) (first, full, m, "") (no_step first full m h k))
      ∙ no_fields_of first full ms h k

  no_fields :
      (first full : y.Mapping) (masks : List FieldPath)
      → Nothing first
      → Nothing full
      → create_altered_fields_matching_subscriber_masks y c full first masks ≡ []
  unfolding create_altered_fields_matching_subscriber_masks
  no_fields first full [] h k = no_leaves y c first (not_keyed first h)
  no_fields first full (mask ∷ masks) h k = no_fields_of first full (mask ∷ masks) h k

  and_also-both :
      (a b : Option Bool) → and_also y a b ≡ some true → (a ≡ some true) × (b ≡ some true)
  and_also-both none b h = absurd cc
  and_also-both (some true) b h = (refl, h)
  and_also-both (some false) b h = absurd cc

  abbrev HoldsNothing : y.Value → Type 0
  HoldsNothing o = (m : y.Mapping) × (y.as_mapping o ≡ some m) × Nothing m

  object-Nothing : (o : y.Value) → object_is_empty y o ≡ some true → HoldsNothing o
  unfolding object_is_empty
  object-Nothing o h = elim (Option-cases (y.as_mapping o)) [
    | inl e ↦ let refused : none ≡ some true = rw (e, object_is_empty) at h in absurd cc
    | inr (m, e) ↦
        let found : some (no_elements (y.entries m)) ≡ some true = rw (e, object_is_empty) at h in
        (m, e, no_elements_nil (y.entries m) cc)
  ]

  trees-Nothing :
      (t : StateDifferenceTree y)
      → state_difference_tree_is_empty y t ≡ some true
      → HoldsNothing t.added_tree.first_difference_tree
        × HoldsNothing t.added_tree.full_difference_tree
        × HoldsNothing t.removed_tree.first_difference_tree
        × HoldsNothing t.removed_tree.full_difference_tree
        × HoldsNothing t.updated_tree
  unfolding state_difference_tree_is_empty difference_tree_is_empty
  trees-Nothing t h =
      let (a, r) = and_also-both (difference_tree_is_empty y t.added_tree) _ h in
      let (b, u) = and_also-both (difference_tree_is_empty y t.removed_tree) _ r in
      let (a1, a2) = and_also-both (object_is_empty y t.added_tree.first_difference_tree) _ a in
      let (b1, b2) = and_also-both (object_is_empty y t.removed_tree.first_difference_tree) _ b in
      (
        object-Nothing _ a1,
        object-Nothing _ a2,
        object-Nothing _ b1,
        object-Nothing _ b2,
        object-Nothing _ u,
      )

  module _ (codec : QueryCodec y) (default_state : codec.CompleteState)
      (current : codec.CompleteState) where
    no_events :
        (d : DifferenceMappings y) (store : SubscriberStore)
        → ((masks : List FieldPath) → all_empty (altered_fields_of y c d masks) ≡ true)
        → collected (subscriber_events y c codec default_state current d) store ≡ []
    unfolding subscriber_events
    no_events d [] h = refl
    no_events d ((id, masks) ∷ store) h = rw (h masks, subscriber_events) (no_events d store h)

    -- If the trees are empty by the test that the server makes before it sends events, then sending them
    -- would send none, whoever subscribes.
    pub send_events-empty :
        (t : StateDifferenceTree y) (store : SubscriberStore)
        → state_difference_tree_is_empty y t ≡ some true
        → send_events y c codec default_state current store t ≡ ok []
    unfolding send_events mappings_of to_mapping altered_fields_of all_empty
    send_events-empty t store h =
        let ((m1, e1, n1), (m2, e2, n2), (m3, e3, n3), (m4, e4, n4), (m5, e5, n5)) =
          trees-Nothing t h in
        let d : DifferenceMappings y = record {
          added_first_difference_tree = m1;
          added_full_difference_tree = m2;
          removed_first_difference_tree = m3;
          removed_full_difference_tree = m4;
          updated_full_difference_tree = m5;
        } in
        let none_altered : (masks : List FieldPath)
            → all_empty (altered_fields_of y c d masks) ≡ true =
          λ masks.
            rw
              (
                all_empty,
                altered_fields_of,
                no_fields m1 m2 masks n1 n2,
                no_fields m3 m4 masks n3 n4,
                no_fields m5 m5 masks n5 n5,
              )
              refl in
        rw (send_events, mappings_of, to_mapping, e1, e2, e3, e4, e5)
          (ap ok (no_events d store none_altered))
