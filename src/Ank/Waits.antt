-- ===== src/Ank/Waits.antt =====
-- What the command line still waits for: ank/src/cli_commands/wait_list.rs.
use ankaios.Prelude.{
  ◌≡◌, refl, ap, ◌∙◌, inl, inr, Bool, true, false, ◌&&◌, not, List, [], ◌∷◌, any, keep, member,
  arith, Bool-cases, if◌then◌else◌,
}
use ankaios.Api.Execution.{
  ExecutionStateEnum, pending, starting_failed, running, succeeded, failed, removed,
  agent_disconnected, not_scheduled,
}
use ankaios.Api.Instance.{InstanceName, instance_eq, instance_eq_iff}
use ankaios.Api.StatesMap.{WorkloadState}
use ankaios.Ank.WaitList.{
  has_name, remove_name, WaitList, complete_added, complete_deleted, update_by_state, update_each,
  is_connected, retain_connected, update_wait_list,
}

-- States after which an added workload, and a deleted one, is not waited for any longer.
abbrev pub ends_adding : ExecutionStateEnum → Bool
ends_adding running = true
ends_adding succeeded = true
ends_adding (failed f) = true
ends_adding not_scheduled = true
ends_adding (pending starting_failed) = true
ends_adding agent_disconnected = true
ends_adding _ = false

abbrev pub ends_deleting : ExecutionStateEnum → Bool
ends_deleting removed = true
ends_deleting agent_disconnected = true
ends_deleting _ = false

abbrev pub reported : (ExecutionStateEnum → Bool) → InstanceName → List WorkloadState → Bool
reported ends i values =
    any (λ s. instance_eq s.instance_name i && ends s.execution_state.state) values

has-keep :
    (p : InstanceName → Bool) (names : List InstanceName) (i : InstanceName)
    → has_name (keep p names) i ≡ (has_name names i && p i)
has-keep p [] i = refl
has-keep p (j ∷ names) i = elim (Bool-cases (instance_eq j i)) [
  | inl e ↦
      let h : p j ≡ p i = ap p ((instance_eq_iff j i).0 e) in
      ground (arith, has-keep p names i, h, e)
  | inr e ↦ ground (arith, has-keep p names i, e)
]

-- One report, for the names of either kind.
abbrev Keeps : List InstanceName → List InstanceName → InstanceName → InstanceName → Bool → Type 0
Keeps before after k i ends =
    has_name after i ≡ (has_name before i && not (instance_eq k i && ends))

absent-Keeps :
    (names : List InstanceName) (k i : InstanceName)
    → has_name names k ≡ false
    → Keeps names names k i true
absent-Keeps names k i f = elim (Bool-cases (instance_eq k i)) [
  | inl e ↦
      let h : has_name names k ≡ has_name names i =
        ap (has_name names) ((instance_eq_iff k i).0 e) in
      ground (arith, e, f, h)
  | inr e ↦ ground (arith, e)
]

removed-Keeps :
    (names : List InstanceName) (k i : InstanceName)
    → Keeps names (if has_name names k then remove_name names k else names) k i true
removed-Keeps names k i =
    let h = has-keep (λ j. not (instance_eq j k)) names i in
    elim (Bool-cases (has_name names k)) [
      | inl f ↦ rw f (ground (arith, h, instance_eq_iff k i, instance_eq_iff i k))
      | inr f ↦ rw f (absent-Keeps names k i f)
    ]

same-Keeps : (names : List InstanceName) (k i : InstanceName) → Keeps names names k i false
same-Keeps names k i = ground arith

module _ (w : WaitList) (k i : InstanceName) where
  complete_added-Keeps :
      Keeps w.added_workloads (complete_added w k).added_workloads k i true
      × Keeps w.deleted_workloads (complete_added w k).deleted_workloads k i false
  unfolding complete_added
  complete_added-Keeps = elim (Bool-cases (has_name w.added_workloads k)) [
    | inl e ↦
        rw e ((rw e at (removed-Keeps w.added_workloads k i)), same-Keeps w.deleted_workloads k i)
    | inr e ↦
        rw e ((rw e at (removed-Keeps w.added_workloads k i)), same-Keeps w.deleted_workloads k i)
  ]

  complete_deleted-Keeps :
      Keeps w.added_workloads (complete_deleted w k).added_workloads k i false
      × Keeps w.deleted_workloads (complete_deleted w k).deleted_workloads k i true
  unfolding complete_deleted
  complete_deleted-Keeps = elim (Bool-cases (has_name w.deleted_workloads k)) [
    | inl e ↦
        rw e (same-Keeps w.added_workloads k i, (rw e at (removed-Keeps w.deleted_workloads k i)))
    | inr e ↦
        rw e (same-Keeps w.added_workloads k i, (rw e at (removed-Keeps w.deleted_workloads k i)))
  ]

update_by_state-Keeps :
    (w : WaitList) (k i : InstanceName) (s : ExecutionStateEnum)
    → Keeps w.added_workloads (update_by_state w k s).added_workloads k i (ends_adding s)
      × Keeps w.deleted_workloads (update_by_state w k s).deleted_workloads k i (ends_deleting s)
unfolding update_by_state
update_by_state-Keeps w k i running = complete_added-Keeps w k i
update_by_state-Keeps w k i succeeded = complete_added-Keeps w k i
update_by_state-Keeps w k i (failed f) = complete_added-Keeps w k i
update_by_state-Keeps w k i not_scheduled = complete_added-Keeps w k i
update_by_state-Keeps w k i (pending starting_failed) = complete_added-Keeps w k i
update_by_state-Keeps w k i removed = complete_deleted-Keeps w k i
update_by_state-Keeps w k i agent_disconnected =
    let (a, b) = complete_added-Keeps w k i in
    let (c, d) = complete_deleted-Keeps (complete_added w k) k i in
    (ground (arith, a, c), ground (arith, b, d))
update_by_state-Keeps w k i _ =
    (same-Keeps w.added_workloads k i, same-Keeps w.deleted_workloads k i)

added_agents :
    (w : WaitList) (k : InstanceName) → (complete_added w k).connected_agents ≡ w.connected_agents
unfolding complete_added
added_agents w k = elim (Bool-cases (has_name w.added_workloads k)) [
  | inl e ↦ rw e refl
  | inr e ↦ rw e refl
]

deleted_agents :
    (w : WaitList) (k : InstanceName) → (complete_deleted w k).connected_agents ≡ w.connected_agents
unfolding complete_deleted
deleted_agents w k = elim (Bool-cases (has_name w.deleted_workloads k)) [
  | inl e ↦ rw e refl
  | inr e ↦ rw e refl
]

agents_lem :
    (w : WaitList) (k : InstanceName) (s : ExecutionStateEnum)
    → (update_by_state w k s).connected_agents ≡ w.connected_agents
unfolding update_by_state
agents_lem w k running = added_agents w k
agents_lem w k succeeded = added_agents w k
agents_lem w k (failed f) = added_agents w k
agents_lem w k not_scheduled = added_agents w k
agents_lem w k (pending starting_failed) = added_agents w k
agents_lem w k removed = deleted_agents w k
agents_lem w k agent_disconnected = deleted_agents (complete_added w k) k ∙ added_agents w k
agents_lem w k _ = refl

update_each_lem :
    (values : List WorkloadState) (w : WaitList) (i : InstanceName)
    → (has_name (update_each w values).added_workloads i
        ≡ (has_name w.added_workloads i && not (reported ends_adding i values)))
      × ((has_name (update_each w values).deleted_workloads i
            ≡ (has_name w.deleted_workloads i && not (reported ends_deleting i values)))
          × ((update_each w values).connected_agents ≡ w.connected_agents))
unfolding update_each
update_each_lem [] w i = (ground arith, (ground arith, refl))
update_each_lem (s ∷ values) w i =
    let w' = update_by_state w s.instance_name s.execution_state.state in
    let (a, b) = update_by_state-Keeps w s.instance_name i s.execution_state.state in
    let (c, (d, e)) = update_each_lem values w' i in
    (
      ground (arith, a, c),
      (ground (arith, b, d), e ∙ agents_lem w s.instance_name s.execution_state.state),
    )

-- After an update with reported states, an added workload is waited for exactly if it was before, no
-- report on it says running, succeeded, failed, not scheduled, starting failed or agent disconnected, and
-- its agent is connected; a deleted one exactly if it was before, no report on it says removed or
-- agent disconnected, and its agent is connected.
pub has_name-update_wait_list :
    (w : WaitList) (values : List WorkloadState) (i : InstanceName)
    → (has_name (update_wait_list w values).added_workloads i ≡ (
        (has_name w.added_workloads i && not (reported ends_adding i values)) && is_connected w i))
      × (has_name (update_wait_list w values).deleted_workloads i ≡ (
          (has_name w.deleted_workloads i && not (reported ends_deleting i values))
          && is_connected w i))
unfolding update_wait_list retain_connected
has_name-update_wait_list w values i =
    let u = update_each w values in
    let (a, (b, e)) = update_each_lem values w i in
    let c : is_connected u i ≡ is_connected w i = ap (member i.agent_name) e in
    (
      ground (arith, a, c, has-keep (is_connected u) u.added_workloads i),
      ground (arith, b, c, has-keep (is_connected u) u.deleted_workloads i),
    )
