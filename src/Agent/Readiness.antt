-- ===== src/Agent/Readiness.antt =====
-- The operations that the scheduler hands out: agent/src/workload_scheduler/scheduler.rs.
use ankaios.Prelude.{
  ◌≡◌, Bool, true, false, List, [], ◌∷◌, All, All-append, Map, Bool-cases, inl, inr,
}
use ankaios.Api.StatesMap.{WorkloadStatesMap}
use ankaios.Api.Workload.{WorkloadNamed, DeletedWorkload}
use ankaios.Agent.Dependencies.{create_fulfilled, delete_fulfilled}
use ankaios.Agent.Scheduler.{
  ReusableWorkload, WorkloadOperation, create, update, update_delete_only, delete, PendingEntry,
  pending_create, pending_delete, update_create, update_delete, Scheduler, enqueue_pending_create,
  enqueue_pending_update, enqueue_pending_delete, retry_entry, retry_entries,
  next_workload_operations, enqueue_operation, enqueue_operations,
  enqueue_filtered_workload_operations,
}

module _ (db : WorkloadStatesMap) where
  -- The conditions of what the operation does at once. The old workload of an update was deleted
  -- before, or its delete conditions are fulfilled too.
  abbrev pub IsReady : WorkloadOperation → Type 0
  IsReady (create new) = create_fulfilled new.workload_named db ≡ true
  IsReady (update new deleted) = create_fulfilled new db ≡ true
  IsReady (update_delete_only deleted) = delete_fulfilled deleted db ≡ true
  IsReady (delete deleted) = delete_fulfilled deleted db ≡ true

  create-IsReady :
      (s : Scheduler) (new : ReusableWorkload) (notify : Bool)
      → All IsReady (enqueue_pending_create db s new notify).1
  unfolding enqueue_pending_create
  create-IsReady s new notify = elim (Bool-cases (create_fulfilled new.workload_named db)) [
    | inl e ↦ rw e (e, tt)
    | inr e ↦ rw e tt
  ]

  update-IsReady :
      (s : Scheduler) (new : WorkloadNamed) (deleted : DeletedWorkload) (notify : Bool)
      → All IsReady (enqueue_pending_update db s new deleted notify).1
  unfolding enqueue_pending_update
  update-IsReady s new deleted notify = elim (Bool-cases (delete_fulfilled deleted db)) [
    | inl d ↦ elim (Bool-cases (create_fulfilled new db)) [
      | inl c ↦ rw (d, c) (c, tt)
      | inr c ↦ rw (d, c) (d, tt)
    ]
    | inr d ↦ elim (Bool-cases (create_fulfilled new db)) [
      | inl c ↦ rw (d, c) tt
      | inr c ↦ rw (d, c) tt
    ]
  ]

  delete-IsReady :
      (s : Scheduler) (deleted : DeletedWorkload) (notify : Bool)
      → All IsReady (enqueue_pending_delete db s deleted notify).1
  unfolding enqueue_pending_delete
  delete-IsReady s deleted notify = elim (Bool-cases (delete_fulfilled deleted db)) [
    | inl e ↦ rw e (e, tt)
    | inr e ↦ rw e tt
  ]

  retry-IsReady : (s : Scheduler) (entry : PendingEntry) → All IsReady (retry_entry db s entry).1
  unfolding retry_entry
  retry-IsReady s (pending_create new) = create-IsReady s new false
  retry-IsReady s (update_create new deleted) = elim (Bool-cases (create_fulfilled new db)) [
    | inl e ↦ rw e (e, tt)
    | inr e ↦ rw e tt
  ]
  retry-IsReady s (update_delete new deleted) = update-IsReady s new deleted false
  retry-IsReady s (pending_delete deleted) = delete-IsReady s deleted false

  retries-IsReady :
      (s : Scheduler) (entries : Map PendingEntry) → All IsReady (retry_entries db s entries).1
  unfolding retry_entries
  retries-IsReady s [] = tt
  retries-IsReady s ((name, entry) ∷ entries) =
      All-append IsReady _ _ (retry-IsReady s entry)
        (retries-IsReady (retry_entry db s entry).0 entries)

  -- Every operation that `next_workload_operations` returns has its conditions fulfilled.
  pub next-All-IsReady : (s : Scheduler) → All IsReady (next_workload_operations db s).1
  unfolding next_workload_operations
  next-All-IsReady s = retries-IsReady (record s { queue = [] }) s.queue

  operation-IsReady :
      (s : Scheduler) (op : WorkloadOperation) → All IsReady (enqueue_operation db s op).1
  unfolding enqueue_operation
  operation-IsReady s (create new) = create-IsReady s new true
  operation-IsReady s (update new deleted) = update-IsReady s new deleted true
  operation-IsReady s (delete deleted) = delete-IsReady s deleted true
  operation-IsReady s (update_delete_only deleted) = tt

  operations-IsReady :
      (s : Scheduler) (ops : List WorkloadOperation) → All IsReady (enqueue_operations db s ops).1
  unfolding enqueue_operations
  operations-IsReady s [] = tt
  operations-IsReady s (op ∷ ops) =
      All-append IsReady _ _ (operation-IsReady s op)
        (operations-IsReady (enqueue_operation db s op).0 ops)

  -- Every operation that the scheduler returns for new operations, the ones that waited included, has
  -- its conditions fulfilled: a create and an update those to create, a delete those to delete.
  pub enqueue-All-IsReady :
      (s : Scheduler) (ops : List WorkloadOperation)
      → All IsReady (enqueue_filtered_workload_operations db s ops).1
  unfolding enqueue_filtered_workload_operations
  enqueue-All-IsReady s ops =
      All-append IsReady _ _ (operations-IsReady s ops)
        (next-All-IsReady (enqueue_operations db s ops).0)
