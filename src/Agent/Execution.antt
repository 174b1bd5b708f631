-- ===== src/Agent/Execution.antt =====
-- The execution of workload operations: `execute_workload_operations` of agent/src/runtime_manager.rs and
-- the methods that it calls. The calls of the runtimes and of the workloads are a list of effects.
pub mod Known
pub mod Reached
use ankaios.Prelude.{
  String, ◌==◌, Bool, not, List, [], ◌∷◌, ◌++◌, keep, Option, none, some, member, if◌then◌else◌,
}
use ankaios.Api.Instance.{InstanceName}
use ankaios.Api.Workload.{WorkloadNamed, DeletedWorkload}
use ankaios.Agent.Scheduler.{
  ReusableWorkload, WorkloadOperation, create, update, update_delete_only, delete,
}
use ankaios.Agent.Reuse.{ControlInterfaceInfo, control_interface_info, with_name}

-- `create_workload` of the runtime of a name, or of the one that answers as unsupported; `update` and
-- `delete` of a workload that the agent knows; and the report that a workload is removed.
pub data ExecutionEffect : Type 0 where
  create_on_runtime : String → ReusableWorkload → Option ControlInterfaceInfo → ExecutionEffect
  create_unsupported : ReusableWorkload → Option ControlInterfaceInfo → ExecutionEffect
  update_known : String → Option WorkloadNamed → Option ControlInterfaceInfo → ExecutionEffect
  delete_known : String → ExecutionEffect
  report_removed : InstanceName → ExecutionEffect

-- The names of the workloads that the agent knows, and what was done.
pub record Executed : Type 0 where
  pub workloads : List String
  pub done : List ExecutionEffect

abbrev pub do_also : Executed → ExecutionEffect → Executed
do_also s effect = record s { done = s.done ++ effect ∷ [] }

-- `runtime_map` gives the names of the runtimes that the agent has.
module _ (runtime_map : List String) where
  unfoldable pub add_workload : Executed → ReusableWorkload → Executed
  add_workload s r =
      let info = control_interface_info r.workload_named in
      let runtime = r.workload_named.workload.runtime in
      record (do_also s (
        if member runtime runtime_map
        then create_on_runtime runtime r info
        else create_unsupported r info)) {
          workloads = with_name s.workloads r.workload_named.instance_name.workload_name;
        }

  unfoldable pub delete_workload : Executed → DeletedWorkload → Executed
  delete_workload s d =
      if member d.instance_name.workload_name s.workloads
      then record (do_also s (delete_known d.instance_name.workload_name)) {
        workloads = keep (λ name. not (name == d.instance_name.workload_name)) s.workloads;
      }
      else do_also s (report_removed d.instance_name)

  unfoldable pub update_workload : Executed → WorkloadNamed → Executed
  update_workload s w =
      if member w.instance_name.workload_name s.workloads
      then do_also s
          (update_known w.instance_name.workload_name (some w) (control_interface_info w))
      else add_workload s (record { workload_named = w; runtime_workload_id = none })

  unfoldable pub delete_only : Executed → DeletedWorkload → Executed
  delete_only s d =
      if member d.instance_name.workload_name s.workloads
      then do_also s (update_known d.instance_name.workload_name none none)
      else s

  unfoldable pub execute_operation : Executed → WorkloadOperation → Executed
  execute_operation s (create r) = add_workload s r
  execute_operation s (update w d) = update_workload s w
  execute_operation s (update_delete_only d) = delete_only s d
  execute_operation s (delete d) = delete_workload s d

  unfoldable pub execute_workload_operations : Executed → List WorkloadOperation → Executed
  execute_workload_operations s [] = s
  execute_workload_operations s (wl_operation ∷ workload_operations) =
      execute_workload_operations (execute_operation s wl_operation) workload_operations
