-- ===== src/Server/NotStarted/Handled.antt =====
-- Which deleted workloads the server reports as removed itself, and which it hands on.
use ankaios.Prelude.{
  ◌==◌, Bool, true, false, not, ◌&&◌, ◌||◌, if◌then◌else◌, List, [], ◌∷◌, All, All-map, any, none,
  Map, contains_key, ◌≡◌, refl, ◌∙◌, arith, Bool-cases, inl, inr,
}
use ankaios.Api.Instance.{InstanceName, instance_eq}
use ankaios.Api.StatesMap.{
  WorkloadStatesMap, WorkloadState, get_workload_state_for_workload, remove_state,
}
use ankaios.Api.StatesLookup.{find-remove}
use ankaios.Api.Workload.{DeletedWorkload}
use ankaios.Server.NotStarted.{
  initial_there, deleted_workload_never_started_on_agent, is_not_started, removed_state,
  handle_not_started_deleted_workloads,
}

abbrev pub is_reported : List WorkloadState → InstanceName → Bool
is_reported states i = any (λ (s : WorkloadState). instance_eq s.instance_name i) states

-- Each deleted workload is handed on or reported as removed, in the order of the list.
pub data Splits : List DeletedWorkload → List DeletedWorkload → List WorkloadState → Type 0 where
  all_split : Splits [] [] []
  stays :
      (d : DeletedWorkload) {deleted retained : List DeletedWorkload} {states : List WorkloadState}
      → Splits deleted retained states
      → Splits (d ∷ deleted) (d ∷ retained) states
  reported :
      (d : DeletedWorkload) {deleted retained : List DeletedWorkload} {states : List WorkloadState}
      → Splits deleted retained states
      → Splits (d ∷ deleted) retained (removed_state d ∷ states)

module _ {Agent : Type 0} (agents : Map Agent) where
  -- The workload has no agent, or its agent is away and has not started it.
  abbrev pub never_started : WorkloadStatesMap → InstanceName → Bool
  never_started db i =
      i.agent_name == ""
      || (not (contains_key agents i.agent_name)
          && initial_there (get_workload_state_for_workload db i))

  abbrev pub Handled :
      WorkloadStatesMap
      → List DeletedWorkload
      → WorkloadStatesMap × (List DeletedWorkload × List WorkloadState)
      → Type 0
  Handled db deleted (after, (retained, states)) =
      Splits deleted retained states
      × ((i : InstanceName)
          → get_workload_state_for_workload after i
            ≡ (if is_reported states i then none else get_workload_state_for_workload db i))
      × All (λ (s : WorkloadState). never_started db s.instance_name ≡ true) states
      × All
          (λ (d : DeletedWorkload).
            (never_started db d.instance_name && not (is_reported states d.instance_name)) ≡ false)
          retained

  after_removal :
      (db : WorkloadStatesMap) (i j : InstanceName)
      → never_started (remove_state db i) j
        ≡ (j.agent_name == "" || (not (instance_eq i j) && never_started db j))
  after_removal db i j = elim (Bool-cases (instance_eq i j)) [
    | inl e ↦
        let gone : get_workload_state_for_workload (remove_state db i) j ≡ none =
          find-remove db i j ∙ rw e refl in
        rw (e, gone) (ground arith)
    | inr e ↦
        let kept : get_workload_state_for_workload (remove_state db i) j
            ≡ get_workload_state_for_workload db j =
          find-remove db i j ∙ rw e refl in
        rw (e, kept) (ground arith)
  ]

  is_not_started_lem :
      (db : WorkloadStatesMap) (d : DeletedWorkload)
      → is_not_started agents db d ≡ never_started db d.instance_name
  unfolding deleted_workload_never_started_on_agent
  is_not_started_lem db d = refl

  -- A workload that is not started is removed and reported, and the others are handled afterwards.
  reported-Handled :
      (db : WorkloadStatesMap) (d : DeletedWorkload) (deleted retained : List DeletedWorkload)
      (after : WorkloadStatesMap) (states : List WorkloadState)
      → never_started db d.instance_name ≡ true
      → Handled (remove_state db d.instance_name) deleted (after, (retained, states))
      → Handled db (d ∷ deleted) (after, (retained, removed_state d ∷ states))
  reported-Handled db d deleted retained after states n (split, found, gone, started) = (
    reported d split,
    λ i.
        let step = found i in
        let removal = find-remove db d.instance_name i in ground (arith, step, removal),
    (
      n,
      All-map _ _ states
          (λ s g.
            let removal = after_removal db d.instance_name s.instance_name in
            ground (arith, g, removal, n))
          gone,
    ),
    All-map _ _ retained
        (λ e k.
          let removal = after_removal db d.instance_name e.instance_name in
          ground (arith, k, removal, n))
        started,
  )

  -- The handled workloads are split into those that are handed on and those that are reported as removed,
  -- each in the order of the list. The state of a reported one is taken from the states map, the others'
  -- stay. A reported one has no agent, or an agent that is not connected and the initial state; one
  -- that is handed on does not, or its instance is reported already.
  pub handle_not_started_deleted_workloads-Handled :
      (db : WorkloadStatesMap) (deleted : List DeletedWorkload)
      → Handled db deleted (handle_not_started_deleted_workloads agents db deleted)
  unfolding handle_not_started_deleted_workloads
  handle_not_started_deleted_workloads-Handled db [] = (all_split, (λ i. refl), tt, tt)
  handle_not_started_deleted_workloads-Handled db (d ∷ deleted) =
      elim (Bool-cases (is_not_started agents db d)) [
        | inl e ↦
            let rest =
              handle_not_started_deleted_workloads-Handled (remove_state db d.instance_name)
                deleted in
            let run =
              handle_not_started_deleted_workloads agents (remove_state db d.instance_name)
                deleted in
            let n = is_not_started_lem db d in
            rw (e, handle_not_started_deleted_workloads)
              (reported-Handled db d deleted run.1.0 run.0 run.1.1 (ground (arith, e, n)) rest)
        | inr e ↦
            let (split, found, gone, started) =
              handle_not_started_deleted_workloads-Handled db deleted in
            let n = is_not_started_lem db d in
            rw (e, handle_not_started_deleted_workloads)
              (stays d split, found, gone, (ground (arith, e, n), started))
      ]
