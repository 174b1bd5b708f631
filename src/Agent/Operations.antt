-- ===== src/Agent/Operations.antt =====
-- The operations that an update of workloads asks for: agent/src/runtime_manager.rs. `workloads` are the
-- names of the workloads that the agent knows.
use ankaios.Prelude.{
  String, List, [], ◌∷◌, ◌++◌, none, some, Map, get, insert, remove, member, if◌then◌else◌,
}
use ankaios.Api.StatesMap.{WorkloadStatesMap}
use ankaios.Api.Workload.{WorkloadNamed, DeletedWorkload}
use ankaios.Agent.Scheduler.{
  ReusableWorkload, WorkloadOperation, create, update, delete, Scheduler, Ready,
  enqueue_filtered_workload_operations,
}

-- The added workloads by their names; the last of a name stays.
unfoldable pub by_name : Map ReusableWorkload → List ReusableWorkload → Map ReusableWorkload
by_name m [] = m
by_name m (r ∷ added) = by_name (insert m r.workload_named.instance_name.workload_name r) added

-- The loop over the deleted workloads: the added ones that are left, and the operations.
unfoldable pub deleted_operations :
    Map ReusableWorkload → List DeletedWorkload → Map ReusableWorkload × List WorkloadOperation
deleted_operations added [] = (added, [])
deleted_operations added (d ∷ deleted) =
    let (rest, operations) =
      deleted_operations (remove added d.instance_name.workload_name) deleted in
    (
      rest,
      elim (get added d.instance_name.workload_name) [
        | some updated ↦ update updated.workload_named d
        | none ↦ delete d
      ]
          ∷ operations,
    )

abbrev pub added_operation : List String → ReusableWorkload → WorkloadOperation
added_operation workloads r =
    if member r.workload_named.instance_name.workload_name workloads
    then update r.workload_named
        (record { instance_name = r.workload_named.instance_name; dependencies = [] })
    else create r

-- The loop over the added workloads that are left.
unfoldable pub added_operations : List String → Map ReusableWorkload → List WorkloadOperation
added_operations workloads [] = []
added_operations workloads ((name, r) ∷ added) =
    added_operation workloads r ∷ added_operations workloads added

unfoldable pub transform_into_workload_operations :
    List String → List ReusableWorkload → List DeletedWorkload → List WorkloadOperation
transform_into_workload_operations workloads added deleted =
    let (rest, operations) = deleted_operations (by_name [] added) deleted in
    operations ++ added_operations workloads rest

abbrev pub into_reusable_workloads : List WorkloadNamed → List ReusableWorkload
into_reusable_workloads [] = []
into_reusable_workloads (w ∷ added) =
    record { workload_named = w; runtime_workload_id = none } ∷ into_reusable_workloads added

-- The operations that are executed are returned.
unfoldable pub execute_workloads :
    WorkloadStatesMap
    → List String
    → Scheduler
    → List ReusableWorkload
    → List DeletedWorkload
    → Ready
execute_workloads db workloads s added deleted =
    enqueue_filtered_workload_operations db s
      (transform_into_workload_operations workloads added deleted)

unfoldable pub handle_update_workload :
    WorkloadStatesMap → List String → Scheduler → List WorkloadNamed → List DeletedWorkload → Ready
handle_update_workload db workloads s added deleted =
    execute_workloads db workloads s (into_reusable_workloads added) deleted
