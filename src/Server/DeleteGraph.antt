-- ===== src/Server/DeleteGraph.antt =====
-- What waits for the end of which workload: server/src/ankaios_server/delete_graph.rs.
use ankaios.Prelude.{
  String, List, [], ◌∷◌, none, some, Map, get, insert, remove, entry, if◌then◌else◌,
}
use ankaios.Api.Execution.{is_removed}
use ankaios.Api.StatesMap.{WorkloadState}
use ankaios.Api.Workload.{
  AddCondition, add_cond_running, add_condition_eq, DeleteCondition,
  del_cond_not_pending_nor_running, WorkloadNamed, DeletedWorkload,
}

-- From a workload to those that may run while it is being deleted, with the condition on each.
abbrev pub DeleteGraph : Type 0
DeleteGraph = Map (Map DeleteCondition)

-- The inner loop of `insert`, for the workload `name`.
unfoldable pub insert_dependencies : DeleteGraph → String → Map AddCondition → DeleteGraph
insert_dependencies g name [] = g
insert_dependencies g name ((dependency, condition) ∷ dependencies) =
    insert_dependencies
      (if add_condition_eq condition add_cond_running
        then entry g dependency [] (λ m. insert m name del_cond_not_pending_nor_running)
        else g)
      name dependencies

unfoldable pub insert_workloads : DeleteGraph → List WorkloadNamed → DeleteGraph
insert_workloads g [] = g
insert_workloads g (w ∷ new_workloads) =
    insert_workloads (insert_dependencies g w.instance_name.workload_name w.workload.dependencies)
      new_workloads

unfoldable pub apply_delete_conditions_to :
    DeleteGraph → List DeletedWorkload → List DeletedWorkload
apply_delete_conditions_to g [] = []
apply_delete_conditions_to g (w ∷ deleted_workloads) =
    elim (get g w.instance_name.workload_name) [
      | none ↦ w
      | some delete_conditions ↦ record w { dependencies = delete_conditions }
    ]
    ∷ apply_delete_conditions_to g deleted_workloads

unfoldable pub remove_deleted_workloads_from_delete_graph :
    DeleteGraph → List WorkloadState → DeleteGraph
remove_deleted_workloads_from_delete_graph g [] = g
remove_deleted_workloads_from_delete_graph g (s ∷ workload_states) =
    remove_deleted_workloads_from_delete_graph
      (if is_removed s.execution_state then remove g s.instance_name.workload_name else g)
      workload_states
