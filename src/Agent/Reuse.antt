-- ===== src/Agent/Reuse.antt =====
-- The workloads that the runtimes have already when the server says hello:
-- `resume_and_remove_from_added_workloads` and `handle_server_hello` of agent/src/runtime_manager.rs.
-- What the runtimes answer is given in the order in which the code goes through them.
pub mod Kept
pub mod Hello
use ankaios.Prelude.{
  String, ◌==◌, Bool, true, false, not, ◌&&◌, if◌then◌else◌, List, [], ◌∷◌, ◌++◌, keep, Option,
  none, some, Map, get, insert, entry, member,
}
use ankaios.Api.Execution.{is_running, is_succeeded}
use ankaios.Api.Instance.{InstanceName, instance_eq}
use ankaios.Api.StatesMap.{WorkloadState, WorkloadStatesMap}
use ankaios.Api.Workload.{WorkloadNamed, WorkloadSpec, DeletedWorkload, never}
use ankaios.Authorizer.Service.{Authorizer, authorizer_from, ControlInterfaceAccess}
use ankaios.Agent.Scheduler.{ReusableWorkload, Scheduler, Ready}
use ankaios.Agent.Operations.{into_reusable_workloads, execute_workloads}

pub record ReusableWorkloadState : Type 0 where
  pub workload_state : WorkloadState
  pub workload_id : Option String

-- What the control interface of a workload is made from, next to the agent's own folder and channel.
pub record ControlInterfaceInfo : Type 0 where
  pub workload_instance_name : InstanceName
  pub authorizer : Authorizer

-- The calls of the runtime of a name, and of a workload that the agent knows. `resume_replaced` is
-- `resume_workload` with the old workload that an update then replaces.
pub data ReuseEffect : Type 0 where
  resume_workload : String → WorkloadNamed → Option ControlInterfaceInfo → ReuseEffect
  resume_replaced : String → WorkloadNamed → ReuseEffect
  delete_workload : String → InstanceName → ReuseEffect
  delete_known : String → ReuseEffect

-- The names of the workloads that the agent knows, and the variables of the function.
pub record Reuse : Type 0 where
  pub workloads : List String
  pub added_workloads_per_runtime : Map (List WorkloadNamed)
  pub new_added_workloads : List ReusableWorkload
  pub deleted_workloads : List DeletedWorkload
  pub effects : List ReuseEffect

unfoldable pub per_runtime :
    Map (List WorkloadNamed) → List WorkloadNamed → Map (List WorkloadNamed)
per_runtime m [] = m
per_runtime m (w ∷ added_workloads) =
    per_runtime (entry m w.workload.runtime [] (λ workload_vec. workload_vec ++ w ∷ []))
      added_workloads

-- `position` of the name, and `remove` there.
unfoldable pub take_named :
    String → List WorkloadNamed → Option (WorkloadNamed × List WorkloadNamed)
take_named name [] = none
take_named name (w ∷ workload_vec) =
    let rest = take_named name workload_vec in
    if w.instance_name.workload_name == name
    then some (w, workload_vec)
    else elim rest [ none ↦ none | some taken ↦ some (taken.0, w ∷ taken.1) ]

abbrev pub taken_from :
    Map (List WorkloadNamed)
    → String
    → Option (WorkloadNamed × List WorkloadNamed)
    → Option (WorkloadNamed × Map (List WorkloadNamed))
taken_from m runtime none = none
taken_from m runtime (some taken) = some (taken.0, insert m runtime taken.1)

unfoldable pub take_added :
    Map (List WorkloadNamed) → String → String → Option (WorkloadNamed × Map (List WorkloadNamed))
take_added m runtime name = elim (get m runtime) [
  | none ↦ none
  | some workload_vec ↦ taken_from m runtime (take_named name workload_vec)
]

unfoldable pub is_resumable_workload : WorkloadState → InstanceName → Bool
is_resumable_workload existing new_instance_name =
    is_running existing.execution_state && instance_eq existing.instance_name new_instance_name

abbrev pub has_id : Option String → Bool
has_id none = false
has_id (some id) = true

unfoldable pub is_reusable_workload : WorkloadState → Option String → InstanceName → Bool
is_reusable_workload existing id new_instance_name =
    is_succeeded existing.execution_state
    && (has_id id && instance_eq existing.instance_name new_instance_name)

unfoldable pub needs_control_interface : ControlInterfaceAccess → Bool
needs_control_interface access = elim access.allow_rules [ [] ↦ false | _ ∷ _ ↦ true ]

abbrev pub control_interface_info : WorkloadNamed → Option ControlInterfaceInfo
control_interface_info w =
    if needs_control_interface w.workload.control_interface_access
    then some (record {
      workload_instance_name = w.instance_name;
      authorizer = authorizer_from w.workload.control_interface_access;
    })
    else none

-- `WorkloadNamed { instance_name, ..Default::default() }`
abbrev pub default_workload : InstanceName → WorkloadNamed
default_workload i = record {
  instance_name = i;
  workload = record {
    agent = "";
    tags = [];
    dependencies = [];
    restart_policy = never;
    runtime = "";
    runtime_config = "";
    files = [];
    configs = [];
    control_interface_access = record { allow_rules = []; deny_rules = [] };
  };
}

abbrev pub with_name : List String → String → List String
with_name workloads name = if member name workloads then workloads else workloads ++ name ∷ []

abbrev pub push_new : Reuse → WorkloadNamed → Option String → Reuse
push_new s w id = record s {
  new_added_workloads =
      s.new_added_workloads ++ record { workload_named = w; runtime_workload_id = id } ∷ [];
}

-- The workload is put into both lists, which the scheduler takes as an update.
abbrev pub push_both : Reuse → WorkloadNamed → InstanceName → Reuse
push_both s w old = record (push_new s w none) {
  deleted_workloads = s.deleted_workloads ++ record { instance_name = old; dependencies = [] } ∷ [];
}

unfoldable pub handle_needed : String → ReusableWorkloadState → WorkloadNamed → Reuse → Reuse
handle_needed runtime e w s =
    if is_resumable_workload e.workload_state w.instance_name
    then record s {
      workloads = with_name s.workloads w.instance_name.workload_name;
      effects = s.effects ++ resume_workload runtime w (control_interface_info w) ∷ [];
    }
    else if is_reusable_workload e.workload_state e.workload_id w.instance_name
    then push_new s w e.workload_id
    else if member e.workload_state.instance_name.workload_name s.workloads
    then push_both s w e.workload_state.instance_name
    else push_both
        (record s {
          workloads = with_name s.workloads w.instance_name.workload_name;
          effects =
              s.effects
              ++ resume_replaced runtime (default_workload e.workload_state.instance_name) ∷ [];
        })
        w e.workload_state.instance_name

unfoldable pub handle_unneeded : String → InstanceName → Reuse → Reuse
handle_unneeded runtime i s =
    if member i.workload_name s.workloads
    then record s {
      workloads = keep (λ name. not (name == i.workload_name)) s.workloads;
      effects = s.effects ++ delete_known i.workload_name ∷ [];
    }
    else record s { effects = s.effects ++ delete_workload runtime i ∷ [] }

unfoldable pub handle_existing : String → Reuse → ReusableWorkloadState → Reuse
handle_existing runtime s e =
    elim (take_added s.added_workloads_per_runtime runtime
      e.workload_state.instance_name.workload_name) [
        | none ↦ handle_unneeded runtime e.workload_state.instance_name s
        | some taken ↦
            handle_needed runtime e taken.0 (record s { added_workloads_per_runtime = taken.1 })
      ]

unfoldable pub handle_all_existing : String → Reuse → List ReusableWorkloadState → Reuse
handle_all_existing runtime s [] = s
handle_all_existing runtime s (e ∷ workload_states) =
    handle_all_existing runtime (handle_existing runtime s e) workload_states

-- The loop over the runtimes. A runtime that answers with an error is passed over.
unfoldable pub handle_runtimes : Reuse → List (String × Option (List ReusableWorkloadState)) → Reuse
handle_runtimes s [] = s
handle_runtimes s ((runtime, none) ∷ answers) = handle_runtimes s answers
handle_runtimes s ((runtime, some workload_states) ∷ answers) =
    handle_runtimes (handle_all_existing runtime s workload_states) answers

unfoldable pub flatten : Map (List WorkloadNamed) → List ReusableWorkload
flatten [] = []
flatten ((runtime, workload_vec) ∷ m) = into_reusable_workloads workload_vec ++ flatten m

unfoldable pub resume_and_remove_from_added_workloads :
    List String → List (String × Option (List ReusableWorkloadState)) → List WorkloadNamed → Reuse
resume_and_remove_from_added_workloads workloads answers added_workloads =
    let s =
      handle_runtimes
        (record {
          workloads = workloads;
          added_workloads_per_runtime = per_runtime [] added_workloads;
          new_added_workloads = [];
          deleted_workloads = [];
          effects = [];
        })
        answers in
    record s {
      new_added_workloads = s.new_added_workloads ++ flatten s.added_workloads_per_runtime;
    }

-- What was done with the existing workloads, and the scheduler with the operations that are executed.
unfoldable pub handle_server_hello :
    WorkloadStatesMap
    → List String
    → Scheduler
    → List (String × Option (List ReusableWorkloadState))
    → List WorkloadNamed
    → Reuse × Ready
handle_server_hello db workloads s answers added_workloads =
    let reuse = resume_and_remove_from_added_workloads workloads answers added_workloads in
    (
      reuse,
      execute_workloads db reuse.workloads s reuse.new_added_workloads reuse.deleted_workloads,
    )
