-- ===== src/Server/Events/Sending/Sent.antt =====
-- Which events are sent for the trees of a comparison.
use ankaios.Prelude.{
  String, Bool, false, ◌&&◌, List, [], ◌∷◌, ◌++◌, ok, ◌≡◌, ◌↔◌, ◌⊎◌, refl, sym, ap, ◌∙◌, Bool-cases,
  inl, inr, IsIn, collected, collected-IsIn, IsIn-collected, Any-append_left, Any-append_right,
  Any-append_cases,
}
use ankaios.Common.Path.{FieldPath}
use ankaios.Common.Yaml.{Yaml, Comparison}
use ankaios.Server.RequestId.{RequestId}
use ankaios.Server.StateQuery.{QueryCodec}
use ankaios.Server.Comparator.{no_elements, StateDifferenceTree, state_differences}
use ankaios.Server.Comparator.Trees.{to_mapping, AreMappings, state_differences-AreMappings}
use ankaios.Server.Events.{SubscriberStore}
use ankaios.Server.Events.Altered.{create_altered_fields_matching_subscriber_masks}
use ankaios.Server.Events.Altered.Leaves.{LeafAt, path_behind, collect_all_leaf_paths-LeafAt}
use ankaios.Server.Events.Sending.{
  AlteredFields, all_empty, filter_masks, DifferenceMappings, CompleteStateEvent, mappings_of,
  altered_fields_of, event_for, subscriber_events, send_events,
}

no_elements_iff : {A : Type 0} (xs : List A) → (no_elements xs ≡ false) ↔ ((x : A) × IsIn x xs)
no_elements_iff [] = (λ h. absurd cc, λ (x, h). absurd h)
no_elements_iff (x ∷ xs) = (λ h. (x, inl refl), λ h. refl)

no_elements-append :
    {A : Type 0} (xs ys : List A) → no_elements (xs ++ ys) ≡ (no_elements xs && no_elements ys)
no_elements-append [] ys = refl
no_elements-append (x ∷ xs) ys = refl

-- No fields are altered exactly if the filter masks are no elements.
all_empty-filter_masks : (a : AlteredFields) → all_empty a ≡ no_elements (filter_masks a)
unfolding all_empty
all_empty-filter_masks a = sym (
    no_elements-append (a.added_fields ++ a.removed_fields) a.updated_fields
    ∙ ap (λ (b : Bool). b && no_elements a.updated_fields)
        (no_elements-append a.added_fields a.removed_fields))

module _ (y : Yaml) (c : Comparison y) where
  pub mappings_of-AreMappings :
      (t : StateDifferenceTree y)
      → AreMappings y t
      → (d : DifferenceMappings y) × (mappings_of y c t ≡ ok d)
  unfolding mappings_of to_mapping
  mappings_of-AreMappings t ((m1, e1), (m2, e2), (m3, e3), (m4, e4), (m5, e5)) = (
    record {
      added_first_difference_tree = m1;
      added_full_difference_tree = m2;
      removed_first_difference_tree = m3;
      removed_full_difference_tree = m4;
      updated_full_difference_tree = m5;
    },
    rw (mappings_of, to_mapping, e1, e2, e3, e4, e5) refl,
  )

  abbrev pub HasLeaf : y.Mapping → String → Type 0
  HasLeaf tree p =
      (keys : List String) × LeafAt y c (y.from_mapping tree) keys × (path_behind "" keys ≡ p)

  abbrev pub IsAltered : DifferenceMappings y → String → Type 0
  IsAltered d p =
      HasLeaf d.added_first_difference_tree p
      ⊎ (HasLeaf d.removed_first_difference_tree p ⊎ HasLeaf d.updated_full_difference_tree p)

  without_masks :
      (d : DifferenceMappings y) (p : String)
      → IsIn p (filter_masks (altered_fields_of y c d [])) ↔ IsAltered d p
  unfolding altered_fields_of create_altered_fields_matching_subscriber_masks
  without_masks d p =
      let leaves = λ (m : y.Mapping). collect_all_leaf_paths-LeafAt y c (y.from_mapping m) p in
      let a = altered_fields_of y c d [] in
      (
        λ h.
            elim (Any-append_cases (λ z. z ≡ p) (a.added_fields ++ a.removed_fields)
              a.updated_fields h) [
                | inl k ↦ elim (Any-append_cases (λ z. z ≡ p) a.added_fields a.removed_fields k) [
                  | inl l ↦ inl ((leaves d.added_first_difference_tree).0 l)
                  | inr l ↦ inr (inl ((leaves d.removed_first_difference_tree).0 l))
                ]
                | inr k ↦ inr (inr ((leaves d.updated_full_difference_tree).0 k))
              ],
        λ h. elim h [
          | inl k ↦
              Any-append_left (λ z. z ≡ p) (a.added_fields ++ a.removed_fields) a.updated_fields
                (Any-append_left (λ z. z ≡ p) a.added_fields a.removed_fields
                  ((leaves d.added_first_difference_tree).1 k))
          | inr r ↦ elim r [
            | inl k ↦
                Any-append_left (λ z. z ≡ p) (a.added_fields ++ a.removed_fields) a.updated_fields
                  (Any-append_right (λ z. z ≡ p) a.added_fields a.removed_fields
                    ((leaves d.removed_first_difference_tree).1 k))
            | inr k ↦
                Any-append_right (λ z. z ≡ p) (a.added_fields ++ a.removed_fields) a.updated_fields
                  ((leaves d.updated_full_difference_tree).1 k)
          ]
        ],
      )

  module _ (codec : QueryCodec y) (default_state : codec.CompleteState)
      (current : codec.CompleteState) where
    -- The event of a subscriber for whom some field is altered.
    abbrev pub IsSent :
        SubscriberStore → DifferenceMappings y → CompleteStateEvent codec.CompleteState → Type 0
    IsSent store d e =
        (s : RequestId × List FieldPath) × IsIn s store
        × ((p : String) × IsIn p (filter_masks (altered_fields_of y c d s.1)))
        × (event_for y c codec default_state current s.0 (altered_fields_of y c d s.1) ≡ e)

    altered_iff :
        (d : DifferenceMappings y) (masks : List FieldPath)
        → (all_empty (altered_fields_of y c d masks) ≡ false)
          ↔ ((p : String) × IsIn p (filter_masks (altered_fields_of y c d masks)))
    altered_iff d masks =
        let a = altered_fields_of y c d masks in
        let both = no_elements_iff (filter_masks a) in
        (λ h. both.0 (sym (all_empty-filter_masks a) ∙ h), λ h. all_empty-filter_masks a ∙ both.1 h)

    events-IsSent :
        (store : SubscriberStore) (d : DifferenceMappings y)
        (e : CompleteStateEvent codec.CompleteState)
        → IsIn e (collected (subscriber_events y c codec default_state current d) store)
          ↔ IsSent store d e
    unfolding subscriber_events
    events-IsSent store d e =
        let one = subscriber_events y c codec default_state current d in
        (
          λ h.
              let (s, there, from) = collected-IsIn one e store h in
              elim (Bool-cases (all_empty (altered_fields_of y c d s.1))) [
                | inl k ↦ absurd (rw (k, subscriber_events) at from)
                | inr k ↦
                    let here : IsIn e (
                        event_for y c codec default_state current s.0 (altered_fields_of y c d s.1)
                        ∷ []) =
                      rw (k, subscriber_events) at from in
                    elim here [
                      | inl same ↦ (s, there, (altered_iff d s.1).0 k, same)
                      | inr more ↦ absurd more
                    ]
              ],
          λ (s, there, altered, same).
              IsIn-collected one e store s there
                (rw ((altered_iff d s.1).1 altered, subscriber_events) (inl same)),
        )

    -- The trees of a comparison make no conversion to a mapping fail. The events that are then sent are
    -- those of the subscribers for whom some field is altered, each with these fields. Where a
    -- subscriber has no masks, the altered fields are the paths of the leaves of the trees of first
    -- differences and of the tree of updates.
    pub send_events-IsSent :
        (old_state new_state : y.Mapping) (t : StateDifferenceTree y) (store : SubscriberStore)
        → state_differences y c old_state new_state ≡ ok t
        → (d : DifferenceMappings y) × (events : List (CompleteStateEvent codec.CompleteState))
          × (mappings_of y c t ≡ ok d)
          × (send_events y c codec default_state current store t ≡ ok events)
          × ((e : CompleteStateEvent codec.CompleteState) → IsIn e events ↔ IsSent store d e)
          × ((p : String) → IsIn p (filter_masks (altered_fields_of y c d [])) ↔ IsAltered d p)
    unfolding send_events
    send_events-IsSent old_state new_state t store h =
        let (d, e) =
          mappings_of-AreMappings t (state_differences-AreMappings y c old_state new_state t h) in
        (
          d,
          collected (subscriber_events y c codec default_state current d) store,
          e,
          rw (send_events, e) refl,
          events-IsSent store d,
          without_masks d,
        )
