-- ===== src/Agent/Reuse/Kept.antt =====
-- What becomes of the added workloads when the server says hello.
use ankaios.Prelude.{
  ℕ, ◌+◌, String, ◌==◌, Bool, if◌then◌else◌, List, [], ◌∷◌, ◌++◌, Option, none, some, Map, get,
  get_or, insert, member, ◌≡◌, refl, ap, subst, ◌∙◌, arith, Bool-cases, Option-cases, inl, inr,
}
use ankaios.Api.Workload.{WorkloadNamed}
use ankaios.Api.Instance.{InstanceName}
use ankaios.Agent.Scheduler.{ReusableWorkload}
use ankaios.Agent.Operations.{into_reusable_workloads}
use ankaios.Agent.Reuse.{
  ReusableWorkloadState, ReuseEffect, resume_workload, resume_replaced, delete_workload,
  delete_known, Reuse, per_runtime, take_named, take_added, handle_needed, handle_unneeded,
  handle_existing, handle_all_existing, handle_runtimes, flatten, default_workload,
  control_interface_info, is_resumable_workload, is_reusable_workload,
  resume_and_remove_from_added_workloads,
}

some_same : {A : Type 0} {x y : A} → some x ≡ some y → x ≡ y
some_same e = cc

module _ (p : WorkloadNamed → Bool) where
  abbrev one : WorkloadNamed → ℕ
  one w = if p w then 1 else 0

  -- How many workloads of a list, of the new ones and of the resumed ones the test holds of.
  unfoldable pub count : List WorkloadNamed → ℕ
  count [] = 0
  count (w ∷ ws) = one w + count ws

  unfoldable pub count_new : List ReusableWorkload → ℕ
  count_new [] = 0
  count_new (r ∷ rs) = one r.workload_named + count_new rs

  unfoldable pub count_resumed : List ReuseEffect → ℕ
  count_resumed [] = 0
  count_resumed (resume_workload runtime w info ∷ effects) = one w + count_resumed effects
  count_resumed (resume_replaced runtime w ∷ effects) = count_resumed effects
  count_resumed (delete_workload runtime i ∷ effects) = count_resumed effects
  count_resumed (delete_known name ∷ effects) = count_resumed effects

  unfoldable count_all : Map (List WorkloadNamed) → ℕ
  count_all [] = 0
  count_all ((runtime, ws) ∷ m) = count ws + count_all m

  count-append : (xs ys : List WorkloadNamed) → count (xs ++ ys) ≡ count xs + count ys
  unfolding count
  count-append [] ys = omega arith
  count-append (x ∷ xs) ys = let h = count-append xs ys in omega (arith, h)

  count_new-append :
      (xs ys : List ReusableWorkload) → count_new (xs ++ ys) ≡ count_new xs + count_new ys
  unfolding count_new
  count_new-append [] ys = omega arith
  count_new-append (x ∷ xs) ys = let h = count_new-append xs ys in omega (arith, h)

  count_new-push :
      (xs : List ReusableWorkload) (w : WorkloadNamed) (id : Option String)
      → count_new (xs ++ record { workload_named = w; runtime_workload_id = id } ∷ [])
        ≡ count_new xs + one w
  unfolding count_new
  count_new-push xs w id =
      let h = count_new-append xs (record { workload_named = w; runtime_workload_id = id } ∷ []) in
      omega (arith, h)

  count_resumed-append :
      (xs ys : List ReuseEffect) → count_resumed (xs ++ ys) ≡ count_resumed xs + count_resumed ys
  unfolding count_resumed
  count_resumed-append [] ys = omega arith
  count_resumed-append (resume_workload runtime w info ∷ xs) ys =
      let h = count_resumed-append xs ys in omega (arith, h)
  count_resumed-append (resume_replaced runtime w ∷ xs) ys = count_resumed-append xs ys
  count_resumed-append (delete_workload runtime i ∷ xs) ys = count_resumed-append xs ys
  count_resumed-append (delete_known name ∷ xs) ys = count_resumed-append xs ys

  count_new-into_reusable :
      (ws : List WorkloadNamed) → count_new (into_reusable_workloads ws) ≡ count ws
  unfolding count count_new
  count_new-into_reusable [] = refl
  count_new-into_reusable (w ∷ ws) = ap (λ (n : ℕ). one w + n) (count_new-into_reusable ws)

  count_new-flatten : (m : Map (List WorkloadNamed)) → count_new (flatten m) ≡ count_all m
  unfolding count_new flatten count_all
  count_new-flatten [] = refl
  count_new-flatten ((runtime, ws) ∷ m) =
      let h = count_new-append (into_reusable_workloads ws) (flatten m) in
      let i = count_new-into_reusable ws in let j = count_new-flatten m in omega (arith, h, i, j)

  -- The entry of a key is replaced.
  count_all-insert :
      (m : Map (List WorkloadNamed)) (k : String) (v : List WorkloadNamed)
      → count_all (insert m k v) + count (get_or [] (get m k)) ≡ count_all m + count v
  unfolding count_all insert get count
  count_all-insert [] k v = omega arith
  count_all-insert ((j, ws) ∷ m) k v = elim (Bool-cases (j == k)) [
    | inl e ↦ rw e (omega arith)
    | inr e ↦ let h = count_all-insert m k v in rw e (omega (arith, h))
  ]

  count_all-per_runtime :
      (m : Map (List WorkloadNamed)) (added : List WorkloadNamed)
      → count_all (per_runtime m added) ≡ count_all m + count added
  unfolding per_runtime count
  count_all-per_runtime m [] = omega arith
  count_all-per_runtime m (w ∷ added) =
      let there = get_or [] (get m w.workload.runtime) in
      let entered = count_all-insert m w.workload.runtime (there ++ w ∷ []) in
      let longer = count-append there (w ∷ []) in
      let rest = count_all-per_runtime (insert m w.workload.runtime (there ++ w ∷ [])) added in
      omega (arith, entered, longer, rest)

  count-take_named :
      (name : String) (ws : List WorkloadNamed) (taken : WorkloadNamed × List WorkloadNamed)
      → take_named name ws ≡ some taken
      → count ws ≡ one taken.0 + count taken.1
  unfolding take_named count
  count-take_named name [] taken h = absurd cc
  count-take_named name (w ∷ ws) taken h =
      elim (Bool-cases (w.instance_name.workload_name == name)) [
        | inl e ↦
            let same : (w, ws) ≡ taken = some_same (rw e at h) in
            subst (λ t. one w + count ws ≡ one t.0 + count t.1) same refl
        | inr e ↦ elim (Option-cases (take_named name ws)) [
          | inl k ↦ absurd (cc (rw (e, k) at h))
          | inr (rest, k) ↦
              let same : (rest.0, w ∷ rest.1) ≡ taken = some_same (rw (e, k) at h) in
              let before = count-take_named name ws rest k in
              subst (λ t. one w + count ws ≡ one t.0 + count t.1) same (omega (arith, before))
        ]
      ]

  count_all-take_added :
      (m : Map (List WorkloadNamed)) (runtime name : String)
      (taken : WorkloadNamed × Map (List WorkloadNamed))
      → take_added m runtime name ≡ some taken
      → count_all m ≡ one taken.0 + count_all taken.1
  unfolding take_added
  count_all-take_added m runtime name taken h = elim (Option-cases (get m runtime)) [
    | inl e ↦ absurd (cc (rw (e, take_added) at h))
    | inr (ws, e) ↦ elim (Option-cases (take_named name ws)) [
      | inl k ↦ absurd (cc (rw (e, k, take_added) at h))
      | inr (rest, k) ↦
          let same : (rest.0, insert m runtime rest.1) ≡ taken =
            some_same (rw (e, k, take_added) at h) in
          let before = count-take_named name ws rest k in
          let entered : count_all (insert m runtime rest.1) + count ws
              ≡ count_all m + count rest.1 =
            rw e at (count_all-insert m runtime rest.1) in
          subst (λ t. count_all m ≡ one t.0 + count_all t.1) same (omega (arith, before, entered))
    ]
  ]

  -- The workloads that are still looked for, those that are new, and those that were resumed.
  abbrev total : Reuse → ℕ
  total s =
      count_all s.added_workloads_per_runtime
      + (count_new s.new_added_workloads + count_resumed s.effects)

  total-handle_needed :
      (runtime : String) (e : ReusableWorkloadState) (w : WorkloadNamed) (s : Reuse)
      → total (handle_needed runtime e w s) ≡ one w + total s
  unfolding handle_needed count_new count_resumed
  total-handle_needed runtime e w s =
      let pushed = count_new-push s.new_added_workloads in
      elim (Bool-cases (is_resumable_workload e.workload_state w.instance_name)) [
        | inl a ↦
            let more =
              count_resumed-append s.effects
                (resume_workload runtime w (control_interface_info w) ∷ []) in
            rw (a, handle_needed) (omega (arith, more))
        | inr a ↦
            elim (Bool-cases
              (is_reusable_workload e.workload_state e.workload_id w.instance_name)) [
                | inl b ↦
                    let more = pushed w e.workload_id in
                    rw (a, b, handle_needed) (omega (arith, more))
                | inr b ↦
                    let more = pushed w none in
                    let name = e.workload_state.instance_name.workload_name in
                    elim (Bool-cases (member name s.workloads)) [
                      | inl c ↦ rw (a, b, c, handle_needed) (omega (arith, more))
                      | inr c ↦
                          let replaced = count_resumed-append s.effects (
                            resume_replaced runtime
                              (default_workload e.workload_state.instance_name)
                            ∷ []) in
                          rw (a, b, c, handle_needed) (omega (arith, more, replaced))
                    ]
              ]
      ]

  total-handle_unneeded :
      (runtime : String) (i : InstanceName) (s : Reuse)
      → total (handle_unneeded runtime i s) ≡ total s
  unfolding handle_unneeded count_resumed
  total-handle_unneeded runtime i s = elim (Bool-cases (member i.workload_name s.workloads)) [
    | inl a ↦
        let more = count_resumed-append s.effects (delete_known i.workload_name ∷ []) in
        rw (a, handle_unneeded) (omega (arith, more))
    | inr a ↦
        let more = count_resumed-append s.effects (delete_workload runtime i ∷ []) in
        rw (a, handle_unneeded) (omega (arith, more))
  ]

  total-handle_existing :
      (runtime : String) (s : Reuse) (e : ReusableWorkloadState)
      → total (handle_existing runtime s e) ≡ total s
  unfolding handle_existing
  total-handle_existing runtime s e =
      let name = e.workload_state.instance_name.workload_name in
      elim (Option-cases (take_added s.added_workloads_per_runtime runtime name)) [
        | inl k ↦
            rw (k, handle_existing) (total-handle_unneeded runtime e.workload_state.instance_name s)
        | inr (taken, k) ↦
            let found = count_all-take_added s.added_workloads_per_runtime runtime name taken k in
            let step =
              total-handle_needed runtime e taken.0
                (record s { added_workloads_per_runtime = taken.1 }) in
            rw (k, handle_existing) (omega (arith, found, step))
      ]

  total-handle_all_existing :
      (runtime : String) (s : Reuse) (found : List ReusableWorkloadState)
      → total (handle_all_existing runtime s found) ≡ total s
  unfolding handle_all_existing
  total-handle_all_existing runtime s [] = refl
  total-handle_all_existing runtime s (e ∷ found) =
      total-handle_all_existing runtime (handle_existing runtime s e) found
      ∙ total-handle_existing runtime s e

  total-handle_runtimes :
      (s : Reuse) (answers : List (String × Option (List ReusableWorkloadState)))
      → total (handle_runtimes s answers) ≡ total s
  unfolding handle_runtimes
  total-handle_runtimes s [] = refl
  total-handle_runtimes s ((runtime, none) ∷ answers) = total-handle_runtimes s answers
  total-handle_runtimes s ((runtime, some found) ∷ answers) =
      total-handle_runtimes (handle_all_existing runtime s found) answers
      ∙ total-handle_all_existing runtime s found

  -- Each added workload is resumed once or stays among the new workloads once, and no others do: as many of
  -- the added ones have a property as of the resumed ones and of the new ones together, whatever the property
  -- and whatever the runtimes answer.
  pub resume_and_remove-counts :
      (workloads : List String) (answers : List (String × Option (List ReusableWorkloadState)))
      (added : List WorkloadNamed)
      → let r = resume_and_remove_from_added_workloads workloads answers added in
        count added ≡ count_resumed r.effects + count_new r.new_added_workloads
  unfolding resume_and_remove_from_added_workloads count_new count_resumed count_all
  resume_and_remove-counts workloads answers added =
      let start : Reuse = record {
        workloads = workloads;
        added_workloads_per_runtime = per_runtime [] added;
        new_added_workloads = [];
        deleted_workloads = [];
        effects = [];
      } in
      let s = handle_runtimes start answers in
      let kept = total-handle_runtimes start answers in
      let sorted = count_all-per_runtime [] added in
      let last = count_new-append s.new_added_workloads (flatten s.added_workloads_per_runtime) in
      let flat = count_new-flatten s.added_workloads_per_runtime in
      omega (arith, kept, sorted, last, flat)
