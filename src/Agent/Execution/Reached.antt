-- ===== src/Agent/Execution/Reached.antt =====
-- What a list of executed operations does to the workloads that it names.
use ankaios.Prelude.{
  not, if◌then◌else◌, ◌||◌, ◌&&◌, String, ◌==◌, Bool, true, false, List, [], ◌∷◌, any, member, none,
  some, ◌≡◌,
}
use ankaios.Api.Instance.{instance_eq}
use ankaios.Api.Workload.{WorkloadNamed, DeletedWorkload}
use ankaios.Agent.Scheduler.{WorkloadOperation, create, update, update_delete_only, delete}
use ankaios.Agent.Execution.Known.{known_after}
use ankaios.Agent.Execution.{
  ExecutionEffect, create_on_runtime, create_unsupported, update_known, delete_known,
  report_removed, Executed,
}

abbrev pub deletes_known : DeletedWorkload → ExecutionEffect → Bool
deletes_known d (delete_known name) = name == d.instance_name.workload_name
deletes_known d _ = false

abbrev pub reports : DeletedWorkload → ExecutionEffect → Bool
reports d (report_removed i) = instance_eq i d.instance_name
reports d _ = false

-- The update of a known workload to another one, and to none, which only deletes.
abbrev pub updates : WorkloadNamed → ExecutionEffect → Bool
updates w (update_known name (some v) info) =
    name == w.instance_name.workload_name && instance_eq v.instance_name w.instance_name
updates w _ = false

abbrev pub only_deletes : DeletedWorkload → ExecutionEffect → Bool
only_deletes d (update_known name none none) = name == d.instance_name.workload_name
only_deletes d _ = false

module _ (runtime_map : List String) where
  -- The effect creates the workload: on its runtime if the agent has it, and otherwise as unsupported.
  abbrev pub creates : WorkloadNamed → ExecutionEffect → Bool
  creates w (create_on_runtime runtime r info) =
      member w.workload.runtime runtime_map
      && (runtime == w.workload.runtime
          && instance_eq r.workload_named.instance_name w.instance_name)
  creates w (create_unsupported r info) =
      not (member w.workload.runtime runtime_map)
      && instance_eq r.workload_named.instance_name w.instance_name
  creates w _ = false

  -- What an operation has to do, where `known` tells which workloads the agent knows before it.
  abbrev pub does : (String → Bool) → WorkloadOperation → ExecutionEffect → Bool
  does known (create r) = creates r.workload_named
  does known (update w d) = if known w.instance_name.workload_name then updates w else creates w
  does known (update_delete_only d) = only_deletes d
  does known (delete d) = if known d.instance_name.workload_name then deletes_known d else reports d

  -- Only the deletion for an update of a workload that is not known does nothing.
  abbrev pub does_nothing : (String → Bool) → WorkloadOperation → Bool
  does_nothing known (update_delete_only d) = not (known d.instance_name.workload_name)
  does_nothing known _ = false

  abbrev pub IsReached : List ExecutionEffect → (String → Bool) → WorkloadOperation → Type 0
  IsReached effects known o = (does_nothing known o || any (does known o) effects) ≡ true

  -- Each operation, where the agent knows what the operations before it leave known.
  abbrev pub AllReached : List ExecutionEffect → (String → Bool) → List WorkloadOperation → Type 0
  AllReached effects known [] = Unit
  AllReached effects known (o ∷ operations) =
      IsReached effects known o
      × AllReached effects (λ n. known_after n (known n) (o ∷ [])) operations

  abbrev known_in : Executed → String → Bool
  known_in s n = member n s.workloads
