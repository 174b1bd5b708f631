-- ===== src/Agent/Scheduler.antt =====
-- The scheduler of workload operations: agent/src/workload_scheduler/scheduler.rs, and the operations
-- of agent/src/workload_operation.rs. The states that it reports are collected in the order in which
-- they are sent.
use ankaios.Prelude.{
  String, Bool, true, false, List, [], ◌∷◌, ◌++◌, ◌&&◌, Option, Map, insert, if◌then◌else◌,
}
use ankaios.Api.Execution.{ExecutionState, state_waiting_to_start, state_waiting_to_stop}
use ankaios.Api.Instance.{InstanceName}
use ankaios.Api.StatesMap.{WorkloadState, WorkloadStatesMap}
use ankaios.Api.Workload.{WorkloadNamed, DeletedWorkload}
use ankaios.Agent.Dependencies.{create_fulfilled, delete_fulfilled}

pub record ReusableWorkload : Type 0 where
  pub workload_named : WorkloadNamed
  pub runtime_workload_id : Option String

pub data WorkloadOperation : Type 0 where
  create : ReusableWorkload → WorkloadOperation
  update : WorkloadNamed → DeletedWorkload → WorkloadOperation
  update_delete_only : DeletedWorkload → WorkloadOperation
  delete : DeletedWorkload → WorkloadOperation

-- What waits, and for which of its two conditions an update does.
pub data PendingEntry : Type 0 where
  pending_create : ReusableWorkload → PendingEntry
  pending_delete : DeletedWorkload → PendingEntry
  update_create : WorkloadNamed → DeletedWorkload → PendingEntry
  update_delete : WorkloadNamed → DeletedWorkload → PendingEntry

pub record Scheduler : Type 0 where
  pub queue : Map PendingEntry
  pub reported : List WorkloadState

unfoldable pub put_on_queue : Scheduler → String → PendingEntry → Scheduler
put_on_queue s name entry = record s { queue = insert s.queue name entry }

unfoldable pub report_state : Scheduler → InstanceName → ExecutionState → Scheduler
report_state s i state = record s {
  reported = s.reported ++ record { instance_name = i; execution_state = state } ∷ [];
}

abbrev pub report_if : Bool → Scheduler → InstanceName → ExecutionState → Scheduler
report_if true s i state = report_state s i state
report_if false s i state = s

-- A method returns the scheduler and the operations that are ready.
abbrev pub Ready : Type 0
Ready = Scheduler × List WorkloadOperation

module _ (db : WorkloadStatesMap) where
  unfoldable pub enqueue_pending_create : Scheduler → ReusableWorkload → Bool → Ready
  unfolding put_on_queue report_state
  enqueue_pending_create s new notify =
      let i = new.workload_named.instance_name in
      if create_fulfilled new.workload_named db then (s, create new ∷ []) else (
        put_on_queue (report_if notify s i state_waiting_to_start) i.workload_name
            (pending_create new),
        [],
      )

  unfoldable pub enqueue_pending_update : Scheduler → WorkloadNamed → DeletedWorkload → Bool → Ready
  unfolding put_on_queue report_state
  enqueue_pending_update s new deleted notify =
      if create_fulfilled new db && delete_fulfilled deleted db
      then (s, update new deleted ∷ [])
      else if delete_fulfilled deleted db
      then (
        put_on_queue (report_state s new.instance_name state_waiting_to_start)
            new.instance_name.workload_name (update_create new deleted),
        update_delete_only deleted ∷ [],
      )
      else (
        put_on_queue (report_if notify s deleted.instance_name state_waiting_to_stop)
            new.instance_name.workload_name (update_delete new deleted),
        [],
      )

  unfoldable pub enqueue_pending_delete : Scheduler → DeletedWorkload → Bool → Ready
  unfolding put_on_queue report_state
  enqueue_pending_delete s deleted notify =
      if delete_fulfilled deleted db then (s, delete deleted ∷ []) else (
        put_on_queue (report_if notify s deleted.instance_name state_waiting_to_stop)
            deleted.instance_name.workload_name (pending_delete deleted),
        [],
      )

  -- One entry of the drained queue.
  unfoldable pub retry_entry : Scheduler → PendingEntry → Ready
  unfolding put_on_queue
  retry_entry s (pending_create new) = enqueue_pending_create s new false
  retry_entry s (update_create new deleted) =
      if create_fulfilled new db
      then (s, update new deleted ∷ [])
      else (put_on_queue s new.instance_name.workload_name (update_create new deleted), [])
  retry_entry s (update_delete new deleted) = enqueue_pending_update s new deleted false
  retry_entry s (pending_delete deleted) = enqueue_pending_delete s deleted false

  unfoldable pub retry_entries : Scheduler → Map PendingEntry → Ready
  retry_entries s [] = (s, [])
  retry_entries s ((name, entry) ∷ entries) =
      let (s', ready) = retry_entry s entry in
      let (s'', more) = retry_entries s' entries in (s'', ready ++ more)

  -- The queue is drained before its entries are looked at.
  unfoldable pub next_workload_operations : Scheduler → Ready
  next_workload_operations s = retry_entries (record s { queue = [] }) s.queue

  unfoldable pub enqueue_operation : Scheduler → WorkloadOperation → Ready
  enqueue_operation s (create new) = enqueue_pending_create s new true
  enqueue_operation s (update new deleted) = enqueue_pending_update s new deleted true
  enqueue_operation s (delete deleted) = enqueue_pending_delete s deleted true
  enqueue_operation s (update_delete_only deleted) = (s, [])

  unfoldable pub enqueue_operations : Scheduler → List WorkloadOperation → Ready
  enqueue_operations s [] = (s, [])
  enqueue_operations s (op ∷ operations) =
      let (s', ready) = enqueue_operation s op in
      let (s'', more) = enqueue_operations s' operations in (s'', ready ++ more)

  unfoldable pub enqueue_filtered_workload_operations : Scheduler → List WorkloadOperation → Ready
  enqueue_filtered_workload_operations s operations =
      let (s', ready) = enqueue_operations s operations in
      let (s'', more) = next_workload_operations s' in (s'', ready ++ more)
