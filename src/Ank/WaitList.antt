-- ===== src/Ank/WaitList.antt =====
-- The workloads that the command line waits for after an update: ank/src/cli_commands/wait_list.rs. A
-- hash set of instance names is a list, and `completed` collects the calls of `set_complete`; what the
-- display shows else is left out.
use ankaios.Prelude.{
  String, Bool, true, false, not, List, [], ◌∷◌, ◌++◌, any, keep, member, if◌then◌else◌,
}
use ankaios.Api.Execution.{
  ExecutionStateEnum, pending, starting_failed, running, succeeded, failed, removed,
  agent_disconnected, not_scheduled,
}
use ankaios.Api.Instance.{InstanceName, instance_eq}
use ankaios.Api.StatesMap.{WorkloadState}

abbrev pub has_name : List InstanceName → InstanceName → Bool
has_name names i = any (λ j. instance_eq j i) names

abbrev pub remove_name : List InstanceName → InstanceName → List InstanceName
remove_name names i = keep (λ j. not (instance_eq j i)) names

pub record WaitList : Type 0 where
  pub added_workloads : List InstanceName
  pub deleted_workloads : List InstanceName
  pub connected_agents : List String
  pub completed : List InstanceName

unfoldable pub complete_added : WaitList → InstanceName → WaitList
complete_added w i =
    if has_name w.added_workloads i
    then record w {
      added_workloads = remove_name w.added_workloads i;
      completed = w.completed ++ i ∷ [];
    }
    else w

unfoldable pub complete_deleted : WaitList → InstanceName → WaitList
complete_deleted w i =
    if has_name w.deleted_workloads i
    then record w {
      deleted_workloads = remove_name w.deleted_workloads i;
      completed = w.completed ++ i ∷ [];
    }
    else w

-- The `match` on the reported state.
unfoldable pub update_by_state : WaitList → InstanceName → ExecutionStateEnum → WaitList
update_by_state w i running = complete_added w i
update_by_state w i succeeded = complete_added w i
update_by_state w i (failed f) = complete_added w i
update_by_state w i not_scheduled = complete_added w i
update_by_state w i (pending starting_failed) = complete_added w i
update_by_state w i removed = complete_deleted w i
update_by_state w i agent_disconnected = complete_deleted (complete_added w i) i
update_by_state w i _ = w

unfoldable pub update_each : WaitList → List WorkloadState → WaitList
update_each w [] = w
update_each w (s ∷ values) =
    update_each (update_by_state w s.instance_name s.execution_state.state) values

abbrev pub is_connected : WaitList → InstanceName → Bool
is_connected w i = member i.agent_name w.connected_agents

-- Both calls of `retain_workloads_of_connected_agents`.
unfoldable pub retain_connected : WaitList → WaitList
retain_connected w = record w {
  added_workloads = keep (is_connected w) w.added_workloads;
  deleted_workloads = keep (is_connected w) w.deleted_workloads;
  completed =
      w.completed
      ++ (keep (λ i. not (is_connected w i)) w.added_workloads
          ++ keep (λ i. not (is_connected w i)) w.deleted_workloads);
}

unfoldable pub update_wait_list : WaitList → List WorkloadState → WaitList
update_wait_list w values = retain_connected (update_each w values)

unfoldable pub nothing_to_wait_for : WaitList → Bool
nothing_to_wait_for w = elim w.added_workloads [
  | [] ↦ elim w.deleted_workloads [ [] ↦ true | _ ∷ _ ↦ false ]
  | _ ∷ _ ↦ false
]
