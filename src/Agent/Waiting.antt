-- ===== src/Agent/Waiting.antt =====
-- The operations that wait in the scheduler's queue: agent/src/workload_scheduler/scheduler.rs.
use ankaios.Prelude.{
  String, ◌≡◌, refl, false, List, [], ◌∷◌, Map, AllEntries, AllEntries-insert, Bool-cases, inl, inr,
}
use ankaios.Api.StatesMap.{WorkloadStatesMap}
use ankaios.Api.Workload.{WorkloadNamed, DeletedWorkload}
use ankaios.Agent.Dependencies.{create_fulfilled, delete_fulfilled}
use ankaios.Agent.Scheduler.{
  ReusableWorkload, WorkloadOperation, PendingEntry, pending_create, pending_delete, update_create,
  update_delete, Scheduler, put_on_queue, enqueue_pending_create, enqueue_pending_update,
  enqueue_pending_delete, retry_entry, retry_entries, next_workload_operations, enqueue_operations,
  enqueue_filtered_workload_operations,
}

module _ (db : WorkloadStatesMap) where
  -- The entry stands under its workload's name, and a condition that it waits for is not fulfilled.
  abbrev pub IsBlocked : String → PendingEntry → Type 0
  IsBlocked name (pending_create new) =
      (name ≡ new.workload_named.instance_name.workload_name)
      × (create_fulfilled new.workload_named db ≡ false)
  IsBlocked name (pending_delete deleted) =
      (name ≡ deleted.instance_name.workload_name) × (delete_fulfilled deleted db ≡ false)
  IsBlocked name (update_create new deleted) =
      (name ≡ new.instance_name.workload_name) × (create_fulfilled new db ≡ false)
  IsBlocked name (update_delete new deleted) =
      (name ≡ new.instance_name.workload_name) × (delete_fulfilled deleted db ≡ false)

  abbrev pub AllBlocked : Scheduler → Type 0
  AllBlocked s = AllEntries IsBlocked s.queue

  put-AllBlocked :
      (s : Scheduler) (name : String) (entry : PendingEntry)
      → IsBlocked name entry
      → AllBlocked s
      → AllBlocked (put_on_queue s name entry)
  unfolding put_on_queue
  put-AllBlocked s name entry b h = AllEntries-insert IsBlocked s.queue name entry b h

  create-AllBlocked :
      (s : Scheduler) (new : ReusableWorkload)
      → AllBlocked s
      → AllBlocked (enqueue_pending_create db s new false).0
  unfolding enqueue_pending_create
  create-AllBlocked s new h = elim (Bool-cases (create_fulfilled new.workload_named db)) [
    | inl e ↦ rw e h
    | inr e ↦ rw e (put-AllBlocked s _ (pending_create new) (refl, e) h)
  ]

  update-AllBlocked :
      (s : Scheduler) (new : WorkloadNamed) (deleted : DeletedWorkload)
      → AllBlocked s
      → AllBlocked (enqueue_pending_update db s new deleted false).0
  unfolding enqueue_pending_update
  update-AllBlocked s new deleted h = elim (Bool-cases (delete_fulfilled deleted db)) [
    | inl d ↦ elim (Bool-cases (create_fulfilled new db)) [
      | inl c ↦ rw (d, c) h
      | inr c ↦
          rw (d, c) (AllEntries-insert IsBlocked s.queue _ (update_create new deleted) (refl, c) h)
    ]
    | inr d ↦ elim (Bool-cases (create_fulfilled new db)) [
      | inl c ↦ rw (d, c) (put-AllBlocked s _ (update_delete new deleted) (refl, d) h)
      | inr c ↦ rw (d, c) (put-AllBlocked s _ (update_delete new deleted) (refl, d) h)
    ]
  ]

  delete-AllBlocked :
      (s : Scheduler) (deleted : DeletedWorkload)
      → AllBlocked s
      → AllBlocked (enqueue_pending_delete db s deleted false).0
  unfolding enqueue_pending_delete
  delete-AllBlocked s deleted h = elim (Bool-cases (delete_fulfilled deleted db)) [
    | inl e ↦ rw e h
    | inr e ↦ rw e (put-AllBlocked s _ (pending_delete deleted) (refl, e) h)
  ]

  retry-AllBlocked :
      (s : Scheduler) (entry : PendingEntry) → AllBlocked s → AllBlocked (retry_entry db s entry).0
  unfolding retry_entry
  retry-AllBlocked s (pending_create new) h = create-AllBlocked s new h
  retry-AllBlocked s (update_create new deleted) h = elim (Bool-cases (create_fulfilled new db)) [
    | inl e ↦ rw e h
    | inr e ↦ rw e (put-AllBlocked s _ (update_create new deleted) (refl, e) h)
  ]
  retry-AllBlocked s (update_delete new deleted) h = update-AllBlocked s new deleted h
  retry-AllBlocked s (pending_delete deleted) h = delete-AllBlocked s deleted h

  retries-AllBlocked :
      (s : Scheduler) (entries : Map PendingEntry)
      → AllBlocked s
      → AllBlocked (retry_entries db s entries).0
  unfolding retry_entries
  retries-AllBlocked s [] h = h
  retries-AllBlocked s ((name, entry) ∷ entries) h =
      retries-AllBlocked (retry_entry db s entry).0 entries (retry-AllBlocked s entry h)

  -- After `next_workload_operations` each entry of the queue stands under its workload's name and
  -- waits for a condition that is not fulfilled, whatever the queue held before.
  pub next-AllBlocked : (s : Scheduler) → AllBlocked (next_workload_operations db s).0
  unfolding next_workload_operations
  next-AllBlocked s = retries-AllBlocked (record s { queue = [] }) s.queue tt

  -- The same after new operations were scheduled.
  pub enqueue-AllBlocked :
      (s : Scheduler) (ops : List WorkloadOperation)
      → AllBlocked (enqueue_filtered_workload_operations db s ops).0
  unfolding enqueue_filtered_workload_operations
  enqueue-AllBlocked s ops = next-AllBlocked (enqueue_operations db s ops).0
