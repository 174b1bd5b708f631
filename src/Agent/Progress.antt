-- ===== src/Agent/Progress.antt =====
-- What becomes of the workloads that wait and of those that are scheduled: agent/src/workload_scheduler/scheduler.rs.
use ankaios.Prelude.{
  any-append, String, ◌≡◌, refl, Bool, true, false, ◌||◌, ◌==◌, List, [], ◌∷◌, any, Map, get,
  insert, get-insert, contains_key, AllEntries, AllEntries-insert, arith, eq_iff, eq_refl,
  Bool-cases, inl, inr,
}
use ankaios.Api.Execution.{ExecutionState, state_waiting_to_start}
use ankaios.Api.Instance.{InstanceName}
use ankaios.Api.StatesMap.{WorkloadStatesMap}
use ankaios.Api.Workload.{WorkloadNamed, DeletedWorkload}
use ankaios.Agent.Dependencies.{create_fulfilled, delete_fulfilled}
use ankaios.Agent.Scheduler.{
  ReusableWorkload, WorkloadOperation, create, update, update_delete_only, delete, PendingEntry,
  pending_create, pending_delete, update_create, update_delete, Scheduler, Ready, put_on_queue,
  report_state, report_if, enqueue_pending_create, enqueue_pending_update, enqueue_pending_delete,
  retry_entry, retry_entries, next_workload_operations, enqueue_operation, enqueue_operations,
  enqueue_filtered_workload_operations,
}

abbrev pub operation_name : WorkloadOperation → String
operation_name (create new) = new.workload_named.instance_name.workload_name
operation_name (update new deleted) = new.instance_name.workload_name
operation_name (update_delete_only deleted) = deleted.instance_name.workload_name
operation_name (delete deleted) = deleted.instance_name.workload_name

abbrev pub entry_name : PendingEntry → String
entry_name (pending_create new) = new.workload_named.instance_name.workload_name
entry_name (pending_delete deleted) = deleted.instance_name.workload_name
entry_name (update_create new deleted) = new.instance_name.workload_name
entry_name (update_delete new deleted) = new.instance_name.workload_name

-- The scheduler is never given an operation that only deletes for an update: it makes them itself.
abbrev pub names_operation : String → WorkloadOperation → Bool
names_operation name (update_delete_only deleted) = false
names_operation name (create new) = operation_name (create new) == name
names_operation name (update new deleted) = operation_name (update new deleted) == name
names_operation name (delete deleted) = operation_name (delete deleted) == name

-- Each entry stands under the name of its workload.
abbrev pub IsKeyed : Map PendingEntry → Type 0
IsKeyed queue = AllEntries (λ name entry. name ≡ entry_name entry) queue

-- An operation on the workload waits, or is among those returned.
abbrev pub is_handled : Ready → String → Bool
is_handled (s, ready) name =
    contains_key s.queue name || any (λ op. operation_name op == name) ready

contains_key-insert :
    (m : Map PendingEntry) (k j : String) (v : PendingEntry)
    → contains_key (insert m k v) j ≡ (k == j || contains_key m j)
contains_key-insert m k j v = ground (arith, get-insert m k j v)

-- What handling an entry has to do: the entry's workload is handled, and the names that
-- waited wait on.
abbrev Handles : Scheduler → String → Ready → Type 0
Handles s name r =
    (is_handled r name ≡ true)
    × ((other : String) → contains_key s.queue other ≡ true → contains_key r.0.queue other ≡ true)
    × (IsKeyed s.queue → IsKeyed r.0.queue)

put-Handles :
    (s : Scheduler) (entry : PendingEntry) (ready : List WorkloadOperation)
    → Handles s (entry_name entry) (put_on_queue s (entry_name entry) entry, ready)
unfolding put_on_queue
put-Handles s entry ready = (
  ground (
    arith,
    contains_key-insert s.queue (entry_name entry) (entry_name entry) entry,
    eq_refl (entry_name entry),
  ),
  λ other h. ground (arith, contains_key-insert s.queue (entry_name entry) other entry),
  λ h. AllEntries-insert (λ n e. n ≡ entry_name e) s.queue (entry_name entry) entry refl h,
)

report-Handles :
    (notify : Bool) (s : Scheduler) (i : InstanceName) (state : ExecutionState)
    (entry : PendingEntry)
    → Handles s
        (entry_name entry)
        (put_on_queue (report_if notify s i state) (entry_name entry) entry, [])
unfolding report_state
report-Handles true s i state entry = put-Handles (report_state s i state) entry []
report-Handles false s i state entry = put-Handles s entry []

return-Handles :
    (s : Scheduler) (op : WorkloadOperation) → Handles s (operation_name op) (s, op ∷ [])
return-Handles s op = (ground (arith, eq_refl (operation_name op)), λ other h. h, λ h. h)

module _ (db : WorkloadStatesMap) (s : Scheduler) where
  create-Handles :
      (new : ReusableWorkload) (notify : Bool)
      → Handles s (entry_name (pending_create new)) (enqueue_pending_create db s new notify)
  unfolding enqueue_pending_create
  create-Handles new notify = elim (Bool-cases (create_fulfilled new.workload_named db)) [
    | inl e ↦ rw e (return-Handles s (create new))
    | inr e ↦ rw e (report-Handles notify s _ _ (pending_create new))
  ]

  update_waits :
      (new : WorkloadNamed) (deleted : DeletedWorkload)
      → Handles s new.instance_name.workload_name (
        put_on_queue
            (report_state s new.instance_name state_waiting_to_start)
            new.instance_name.workload_name
            (update_create new deleted),
        update_delete_only deleted ∷ [],
      )
  unfolding report_state
  update_waits new deleted =
      put-Handles (report_state s new.instance_name state_waiting_to_start)
        (update_create new deleted) (update_delete_only deleted ∷ [])

  update-Handles :
      (new : WorkloadNamed) (deleted : DeletedWorkload) (notify : Bool)
      → Handles s new.instance_name.workload_name (enqueue_pending_update db s new deleted notify)
  unfolding enqueue_pending_update report_state
  update-Handles new deleted notify = elim (Bool-cases (delete_fulfilled deleted db)) [
    | inl d ↦ elim (Bool-cases (create_fulfilled new db)) [
      | inl c ↦ rw (d, c) (return-Handles s (update new deleted))
      | inr c ↦ rw (d, c) (update_waits new deleted)
    ]
    | inr d ↦ elim (Bool-cases (create_fulfilled new db)) [
      | inl c ↦ rw (d, c) (report-Handles notify s _ _ (update_delete new deleted))
      | inr c ↦ rw (d, c) (report-Handles notify s _ _ (update_delete new deleted))
    ]
  ]

  delete-Handles :
      (deleted : DeletedWorkload) (notify : Bool)
      → Handles s deleted.instance_name.workload_name (enqueue_pending_delete db s deleted notify)
  unfolding enqueue_pending_delete
  delete-Handles deleted notify = elim (Bool-cases (delete_fulfilled deleted db)) [
    | inl e ↦ rw e (return-Handles s (delete deleted))
    | inr e ↦ rw e (report-Handles notify s _ _ (pending_delete deleted))
  ]

  retry-Handles : (entry : PendingEntry) → Handles s (entry_name entry) (retry_entry db s entry)
  unfolding retry_entry
  retry-Handles (pending_create new) = create-Handles new false
  retry-Handles (update_create new deleted) = elim (Bool-cases (create_fulfilled new db)) [
    | inl e ↦ rw e (return-Handles s (update new deleted))
    | inr e ↦ rw e (put-Handles s (update_create new deleted) [])
  ]
  retry-Handles (update_delete new deleted) = update-Handles new deleted false
  retry-Handles (pending_delete deleted) = delete-Handles deleted false

module _ (db : WorkloadStatesMap) (name : String) where
  retries_keep :
      (s : Scheduler) (entries : Map PendingEntry)
      → contains_key s.queue name ≡ true
      → contains_key (retry_entries db s entries).0.queue name ≡ true
  unfolding retry_entries
  retries_keep s [] h = h
  retries_keep s ((n, entry) ∷ entries) h =
      retries_keep (retry_entry db s entry).0 entries ((retry-Handles db s entry).1 name h)

  retries_handle :
      (s : Scheduler) (entries : Map PendingEntry)
      → IsKeyed entries
      → contains_key entries name ≡ true
      → is_handled (retry_entries db s entries) name ≡ true
  unfolding retry_entries get
  retries_handle s [] k h = ground arith
  retries_handle s ((n, entry) ∷ entries) (e, k) h =
      let h1 : is_handled (retry_entry db s entry) n ≡ true = rw e ((retry-Handles db s entry).0) in
      ground (
        arith,
        h1,
        eq_iff n name,
        retries_keep (retry_entry db s entry).0 entries,
        retries_handle (retry_entry db s entry).0 entries k,
        any-append (λ op. operation_name op == name) (retry_entry db s entry).1
            (retry_entries db (retry_entry db s entry).0 entries).1,
      )

  -- Each workload that waits in a queue whose entries stand under their workloads' names still waits
  -- after `next_workload_operations`, or an operation on it is among those returned.
  pub next_workload_operations_handles :
      (s : Scheduler)
      → IsKeyed s.queue
      → contains_key s.queue name ≡ true
      → is_handled (next_workload_operations db s) name ≡ true
  unfolding next_workload_operations
  next_workload_operations_handles s k h = retries_handle (record s { queue = [] }) s.queue k h

  -- What follows from `Handles` for a name that waited or is the operation's.
  Handles-either :
      (s : Scheduler) (n : String) (r : Ready)
      → Handles s n r
      → (contains_key s.queue name || n == name) ≡ true
      → is_handled r name ≡ true
  Handles-either s n r (a, b, c) h = ground (arith, eq_iff n name, b name, a)

  operation_handles :
      (s : Scheduler) (op : WorkloadOperation)
      → ((contains_key s.queue name || names_operation name op) ≡ true
          → is_handled (enqueue_operation db s op) name ≡ true)
        × (IsKeyed s.queue → IsKeyed (enqueue_operation db s op).0.queue)
  unfolding enqueue_operation
  operation_handles s (create new) = (
    Handles-either s _ (enqueue_pending_create db s new true) (create-Handles db s new true),
    (create-Handles db s new true).2,
  )
  operation_handles s (update new deleted) = (
    Handles-either s _ (enqueue_pending_update db s new deleted true)
        (update-Handles db s new deleted true),
    (update-Handles db s new deleted true).2,
  )
  operation_handles s (delete deleted) = (
    Handles-either s _ (enqueue_pending_delete db s deleted true)
        (delete-Handles db s deleted true),
    (delete-Handles db s deleted true).2,
  )
  operation_handles s (update_delete_only deleted) = (λ h. ground (arith, h), λ h. h)

  operations_handle :
      (s : Scheduler) (ops : List WorkloadOperation)
      → ((contains_key s.queue name || any (names_operation name) ops) ≡ true
          → is_handled (enqueue_operations db s ops) name ≡ true)
        × (IsKeyed s.queue → IsKeyed (enqueue_operations db s ops).0.queue)
  unfolding enqueue_operations
  operations_handle s [] = (λ h. ground (arith, h), λ h. h)
  operations_handle s (op ∷ ops) =
      let (a, k) = operation_handles s op in
      let (b, l) = operations_handle (enqueue_operation db s op).0 ops in
      (
        λ h. ground (
          arith,
          h,
          a,
          b,
          any-append (λ o. operation_name o == name) (enqueue_operation db s op).1
              (enqueue_operations db (enqueue_operation db s op).0 ops).1,
        ),
        λ h. l (k h),
      )

  -- When operations are scheduled and the queue's entries stand under their workloads' names, each
  -- workload that waited or that an operation other than `update_delete_only` is on still waits
  -- afterwards, or an operation on it is among those returned.
  pub enqueue_filtered_workload_operations_handles :
      (s : Scheduler) (ops : List WorkloadOperation)
      → IsKeyed s.queue
      → (contains_key s.queue name || any (names_operation name) ops) ≡ true
      → is_handled (enqueue_filtered_workload_operations db s ops) name ≡ true
  unfolding enqueue_filtered_workload_operations
  enqueue_filtered_workload_operations_handles s ops k h =
      let (a, l) = operations_handle s ops in
      ground (
        arith,
        a h,
        next_workload_operations_handles (enqueue_operations db s ops).0 (l k),
        any-append (λ o. operation_name o == name) (enqueue_operations db s ops).1
            (next_workload_operations db (enqueue_operations db s ops).0).1,
      )
