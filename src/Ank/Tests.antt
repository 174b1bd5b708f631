-- ===== src/Ank/Tests.antt =====
-- A small wait list, and the theorem at this input.
use ankaios.Prelude.{◌≡◌, refl, true, ◌&&◌, not, List, [], ◌∷◌, member}
use ankaios.Api.Execution.{state_running}
use ankaios.Api.Instance.{InstanceName, instance_eq}
use ankaios.Api.StatesMap.{WorkloadState}
use ankaios.Ank.WaitList.{
  has_name, WaitList, complete_added, complete_deleted, update_by_state, update_each, is_connected,
  retain_connected, update_wait_list, nothing_to_wait_for,
}
use ankaios.Ank.Waits.{reported, ends_adding, ends_deleting, has_name-update_wait_list}

abbrev web : InstanceName
web = record { workload_name = "web"; agent_name = "a"; id = "1" }

abbrev lost : InstanceName
lost = record { workload_name = "lost"; agent_name = "gone"; id = "2" }

abbrev waiting : WaitList
waiting = record {
  added_workloads = web ∷ lost ∷ [];
  deleted_workloads = [];
  connected_agents = "a" ∷ [];
  completed = [];
}

abbrev reports : List WorkloadState
reports = record { instance_name = web; execution_state = state_running } ∷ []

-- Nothing is waited for once the one runs and the agent of the other is gone.
all_done : nothing_to_wait_for (update_wait_list waiting reports) ≡ true
unfolding instance_eq member complete_added complete_deleted update_by_state update_each
    retain_connected update_wait_list nothing_to_wait_for
all_done = refl

has_name-update_wait_list_example :
    (has_name (update_wait_list waiting reports).added_workloads web ≡ (
      (has_name waiting.added_workloads web && not (reported ends_adding web reports))
      && is_connected waiting web))
    × (has_name (update_wait_list waiting reports).deleted_workloads web ≡ (
        (has_name waiting.deleted_workloads web && not (reported ends_deleting web reports))
        && is_connected waiting web))
has_name-update_wait_list_example = has_name-update_wait_list waiting reports web
