-- ===== src/Agent/Loop/Counts.antt =====
-- How many log collections of a request run: agent/src/subscription_store.rs.
use ankaios.Prelude.{
  ℕ, ◌+◌, ◌≤◌, String, ◌==◌, eq_iff, Bool, true, false, not, List, [], ◌∷◌, ◌++◌, map, member, keep,
  if◌then◌else◌, ◌≡◌, refl, Bool-cases, inl, inr, arith,
}
use ankaios.Api.Instance.{InstanceName}
use ankaios.Agent.Loop.{
  AgentEffect, reuse, execution, send_workload_state, send_load_status, forward_response_to,
  start_collecting_logs, abort_collecting_logs, SubscriptionStore, aborted, do_all, Agent,
  add_subscription, delete_subscription, delete_all_subscriptions,
}

abbrev pub one_if : Bool → ℕ
one_if b = if b then 1 else 0

module _ (id : String) where
  -- How often the logs of a request were started to be collected, and how often a collection was dropped.
  abbrev pub started_collections : List AgentEffect → ℕ
  started_collections [] = 0
  started_collections (start_collecting_logs other names ∷ effects) =
      one_if (other == id) + started_collections effects
  started_collections (effect ∷ effects) = started_collections effects

  abbrev pub dropped_collections : List AgentEffect → ℕ
  dropped_collections [] = 0
  dropped_collections (abort_collecting_logs other ∷ effects) =
      one_if (other == id) + dropped_collections effects
  dropped_collections (effect ∷ effects) = dropped_collections effects

  abbrev pub entries : SubscriptionStore → ℕ
  entries [] = 0
  entries (other ∷ store) = one_if (other == id) + entries store

  -- A collection of the request runs for each of its entries, of which there is one at most.
  abbrev pub IsCollected : Agent → Type 0
  IsCollected a =
      (started_collections a.done ≡ dropped_collections a.done + entries a.subscription_store)
      × (entries a.subscription_store ≤ 1)

  started_collections-append :
      (first second : List AgentEffect)
      → started_collections (first ++ second)
        ≡ started_collections first + started_collections second
  started_collections-append [] second = omega arith
  started_collections-append (start_collecting_logs other names ∷ first) second =
      let rest = started_collections-append first second in omega (arith, rest)
  started_collections-append (reuse e ∷ first) second = started_collections-append first second
  started_collections-append (execution e ∷ first) second = started_collections-append first second
  started_collections-append (send_workload_state states ∷ first) second =
      started_collections-append first second
  started_collections-append (send_load_status name ∷ first) second =
      started_collections-append first second
  started_collections-append (forward_response_to name other ∷ first) second =
      started_collections-append first second
  started_collections-append (abort_collecting_logs other ∷ first) second =
      started_collections-append first second

  dropped_collections-append :
      (first second : List AgentEffect)
      → dropped_collections (first ++ second)
        ≡ dropped_collections first + dropped_collections second
  dropped_collections-append [] second = omega arith
  dropped_collections-append (abort_collecting_logs other ∷ first) second =
      let rest = dropped_collections-append first second in omega (arith, rest)
  dropped_collections-append (reuse e ∷ first) second = dropped_collections-append first second
  dropped_collections-append (execution e ∷ first) second = dropped_collections-append first second
  dropped_collections-append (send_workload_state states ∷ first) second =
      dropped_collections-append first second
  dropped_collections-append (send_load_status name ∷ first) second =
      dropped_collections-append first second
  dropped_collections-append (forward_response_to name other ∷ first) second =
      dropped_collections-append first second
  dropped_collections-append (start_collecting_logs other names ∷ first) second =
      dropped_collections-append first second

  entries-append : (xs ys : SubscriptionStore) → entries (xs ++ ys) ≡ entries xs + entries ys
  entries-append [] ys = omega arith
  entries-append (x ∷ xs) ys = let rest = entries-append xs ys in omega (arith, rest)

  pub entries-absent : (store : SubscriptionStore) → member id store ≡ false → entries store ≡ 0
  unfolding member
  entries-absent [] h = refl
  entries-absent (x ∷ store) h = ground (arith, entries-absent store)

  entries-keep :
      (other : String) (store : SubscriptionStore)
      → entries (keep (λ x. not (x == other)) store) ≡ (if other == id then 0 else entries store)
  entries-keep other [] = ground arith
  entries-keep other (x ∷ store) =
      let rest = entries-keep other store in
      elim (Bool-cases (x == other)) [
        | inl e ↦
            let same : x ≡ other = (eq_iff x other).0 e in
            elim (Bool-cases (other == id)) [
              | inl f ↦ rw (e, f) (rw f at rest)
              | inr f ↦ rw (e, f, same, f) (omega (arith, rw f at rest))
            ]
        | inr e ↦ elim (Bool-cases (other == id)) [
          | inl f ↦
              let same : other ≡ id = (eq_iff other id).0 f in
              let apart : (x == id) ≡ false = rw same at e in
              rw (e, f, apart) (omega (arith, rw f at rest))
          | inr f ↦ rw (e, f) (omega (arith, rw f at rest))
        ]
      ]

  dropped_collections-all :
      (store : SubscriptionStore)
      → dropped_collections (map (λ x. abort_collecting_logs x) store) ≡ entries store
  dropped_collections-all [] = refl
  dropped_collections-all (x ∷ store) =
      let rest = dropped_collections-all store in omega (arith, rest)

  started_collections-all :
      (store : SubscriptionStore)
      → started_collections (map (λ x. abort_collecting_logs x) store) ≡ 0
  started_collections-all [] = refl
  started_collections-all (x ∷ store) = started_collections-all store

  pub entries-present : (store : SubscriptionStore) → member id store ≡ true → 1 ≤ entries store
  unfolding member
  entries-present [] h = absurd cc
  entries-present (x ∷ store) h = elim (Bool-cases (x == id)) [
    | inl e ↦ rw e (omega arith)
    | inr e ↦ rw e (let rest = entries-present store (rw e at h) in omega (arith, rest))
  ]

  -- The effects and the change of the store keep the balance.
  pub changed-IsCollected :
      (a : Agent) (effects : List AgentEffect) (store : SubscriptionStore)
      → started_collections effects + entries a.subscription_store
        ≡ dropped_collections effects + entries store
      → entries store ≤ 1
      → IsCollected a
      → IsCollected (record (do_all a effects) { subscription_store = store })
  changed-IsCollected a effects store h k (balance, one) =
      let s = started_collections-append a.done effects in
      let d = dropped_collections-append a.done effects in
      (omega (arith, s, d, h, k, balance, one), k)

  new_entry :
      (other : String) (store : SubscriptionStore)
      → member other store ≡ false
      → entries store ≤ 1
      → entries (store ++ other ∷ []) ≤ 1
  new_entry other store m one =
      let more = entries-append store (other ∷ []) in
      elim (Bool-cases (other == id)) [
        | inl e ↦
            let absent = entries-absent store (rw ((eq_iff other id).0 e) at m) in
            rw (more, e) (omega (arith, absent))
        | inr e ↦ rw (more, e) (omega (arith, one))
      ]

  pub add-IsCollected :
      (a : Agent) (other : String) (names : List InstanceName)
      → IsCollected a
      → IsCollected (add_subscription a other names)
  unfolding add_subscription
  add-IsCollected a other names (balance, one) =
      let store = a.subscription_store in
      elim (Bool-cases (member other store)) [
        | inl m ↦ rw m (
            changed-IsCollected a
              (start_collecting_logs other names ∷ abort_collecting_logs other ∷ []) store
              (omega arith) one (balance, one))
        | inr m ↦
            let more = entries-append store (other ∷ []) in
            rw m (
              changed-IsCollected a (start_collecting_logs other names ∷ []) (store ++ other ∷ [])
                (omega (arith, more)) (new_entry other store m one) (balance, one))
      ]

  entries-removed :
      (other : String) (store : SubscriptionStore)
      → entries store ≤ 1
      → entries store
        ≡ dropped_collections (aborted store other) + entries (keep (λ x. not (x == other)) store)
  entries-removed other store one =
      let left = entries-keep other store in
      elim (Bool-cases (other == id)) [
        | inl e ↦ elim (Bool-cases (member other store)) [
          | inl m ↦
              let there = entries-present store (rw ((eq_iff other id).0 e) at m) in
              rw (left, m, e) (omega (arith, there, one))
          | inr m ↦
              let absent = entries-absent store (rw ((eq_iff other id).0 e) at m) in
              rw (left, m, e) (omega (arith, absent))
        ]
        | inr e ↦ elim (Bool-cases (member other store)) [
          | inl m ↦ rw (left, m, e) (omega arith)
          | inr m ↦ rw (left, m, e) (omega arith)
        ]
      ]

  started_collections-aborted :
      (other : String) (store : SubscriptionStore) → started_collections (aborted store other) ≡ 0
  started_collections-aborted other store = elim (Bool-cases (member other store)) [
    | inl m ↦ rw m refl
    | inr m ↦ rw m refl
  ]

  pub delete-IsCollected :
      (a : Agent) (other : String) → IsCollected a → IsCollected (delete_subscription a other)
  unfolding delete_subscription
  delete-IsCollected a other (balance, one) =
      let store = a.subscription_store in
      let removed = entries-removed other store one in
      let none_started = started_collections-aborted other store in
      changed-IsCollected a (aborted store other) (keep (λ x. not (x == other)) store)
        (omega (arith, removed, none_started)) (omega (arith, removed, one)) (balance, one)

  pub delete_all-IsCollected :
      (a : Agent) → IsCollected a → IsCollected (delete_all_subscriptions a)
  unfolding delete_all_subscriptions
  delete_all-IsCollected a (balance, one) =
      let s = started_collections-all a.subscription_store in
      let d = dropped_collections-all a.subscription_store in
      changed-IsCollected a (map (λ x. abort_collecting_logs x) a.subscription_store) []
        (omega (arith, s, d)) (omega arith) (balance, one)
