-- ===== src/Agent/StateStore.antt =====
-- What the agent does with workload states: agent/src/agent_manager.rs.
use ankaios.Prelude.{
  ◌≡◌, refl, ◌∙◌, ap, true, false, List, [], ◌∷◌, ◌++◌, Option, none, some, All, arith, Bool-cases,
  inl, inr, Option-cases,
}
use ankaios.Api.Execution.{
  ExecutionState, ExecutionStateEnum, stopping, requested_at_runtime, waiting_to_stop, removed,
  transition, is_removed,
}
use ankaios.Api.Hysteresis.{AwaitsStop, transition-AwaitsStop, IsOwnProgress}
use ankaios.Api.Instance.{InstanceName, instance_eq, instance_eq_iff}
use ankaios.Api.StatesMap.{
  WorkloadState, WorkloadStatesMap, get_workload_state_for_workload, process_new_states,
}
use ankaios.Api.StatesHistory.{latest, lookup-process_new_states}
use ankaios.Agent.Scheduler.{WorkloadOperation, Scheduler, next_workload_operations}

-- `to_server` and `executed` collect the messages and the operations in the order of the calls.
pub record AgentManager : Type 0 where
  pub workload_state_store : WorkloadStatesMap
  pub scheduler : Scheduler
  pub to_server : List (List WorkloadState)
  pub executed : List WorkloadOperation

unfoldable pub update_workloads_on_fulfilled_dependencies : AgentManager → AgentManager
update_workloads_on_fulfilled_dependencies a =
    let (s, operations) = next_workload_operations a.workload_state_store a.scheduler in
    record a { scheduler = s; executed = a.executed ++ operations }

-- The state that is stored for a report.
unfoldable pub effective_state : WorkloadStatesMap → WorkloadState → WorkloadState
effective_state db w = elim (get_workload_state_for_workload db w.instance_name) [
  | none ↦ w
  | some old ↦ record w { execution_state = transition old w.execution_state }
]

unfoldable pub store_and_forward_own_workload_states : AgentManager → WorkloadState → AgentManager
store_and_forward_own_workload_states a w =
    let w' = effective_state a.workload_state_store w in
    let stored = record a {
      workload_state_store = process_new_states a.workload_state_store (w' ∷ []);
    } in
    let updated = update_workloads_on_fulfilled_dependencies stored in
    record updated { to_server = updated.to_server ++ (w' ∷ []) ∷ [] }

-- The states that the server sends are stored one by one.
unfoldable pub store_each : WorkloadStatesMap → List WorkloadState → WorkloadStatesMap
store_each db [] = db
store_each db (w ∷ states) = store_each (process_new_states db (w ∷ [])) states

unfoldable pub handle_update_workload_state : AgentManager → List WorkloadState → AgentManager
handle_update_workload_state a [] = a
handle_update_workload_state a (w ∷ states) =
    update_workloads_on_fulfilled_dependencies
      (record a { workload_state_store = store_each a.workload_state_store (w ∷ states) })

unfoldable pub store_all : AgentManager → List WorkloadState → AgentManager
store_all a [] = a
store_all a (w ∷ reports) = store_all (store_and_forward_own_workload_states a w) reports

abbrev pub stored : AgentManager → InstanceName → Option ExecutionState
stored a i = get_workload_state_for_workload a.workload_state_store i

stored-store_and_forward :
    (a : AgentManager) (w : WorkloadState) (j : InstanceName)
    → stored (store_and_forward_own_workload_states a w) j
      ≡ latest j (stored a j) (effective_state a.workload_state_store w ∷ [])
unfolding store_and_forward_own_workload_states update_workloads_on_fulfilled_dependencies
stored-store_and_forward a w j =
    lookup-process_new_states (effective_state a.workload_state_store w ∷ []) a.workload_state_store
      j

effective_state_lem :
    (db : WorkloadStatesMap) (w : WorkloadState) (s : ExecutionState)
    → get_workload_state_for_workload db w.instance_name ≡ some s
    → effective_state db w ≡ record w { execution_state = transition s w.execution_state }
unfolding effective_state
effective_state_lem db w s e = rw (e, effective_state) refl

awaits_case :
    (e : ExecutionStateEnum) → AwaitsStop e → (elim e [ removed ↦ true | _ ↦ false ]) ≡ false
awaits_case (stopping requested_at_runtime) h = refl
awaits_case (stopping waiting_to_stop) h = refl
awaits_case e h = ground arith

awaits-not_removed : (s : ExecutionState) → AwaitsStop s.state → is_removed s ≡ false
unfolding is_removed
awaits-not_removed s h = awaits_case s.state h

effective-name :
    (db : WorkloadStatesMap) (w : WorkloadState)
    → (effective_state db w).instance_name ≡ w.instance_name
unfolding effective_state
effective-name db w = elim (Option-cases (get_workload_state_for_workload db w.instance_name)) [
  | inl e ↦ rw (e, effective_state) refl
  | inr (s, e) ↦ rw (e, effective_state) refl
]

module _ (i : InstanceName) (s : ExecutionState) where
  -- A report on `i` says nothing of the stop.
  abbrev pub SaysNothing : WorkloadState → Type 0
  SaysNothing w = instance_eq w.instance_name i ≡ true → IsOwnProgress w.execution_state.state

  stopping-effective :
      (a : AgentManager) (w : WorkloadState)
      → stored a i ≡ some s
      → AwaitsStop s.state
      → IsOwnProgress w.execution_state.state
      → w.instance_name ≡ i
      → effective_state a.workload_state_store w ≡ record w { execution_state = s }
  stopping-effective a w e h p q =
      effective_state_lem a.workload_state_store w s (rw q e)
      ∙ ap (λ (r : ExecutionState). record w { execution_state = r })
          (transition-AwaitsStop s w.execution_state h p)

  stop_kept :
      (a : AgentManager) (w : WorkloadState)
      → stored a i ≡ some s
      → AwaitsStop s.state
      → SaysNothing w
      → stored (store_and_forward_own_workload_states a w) i ≡ some s
  stop_kept a w e h p = elim (Bool-cases (instance_eq w.instance_name i)) [
    | inl q ↦
        let f = stopping-effective a w e h (p q) ((instance_eq_iff w.instance_name i).0 q) in
        rw (stored-store_and_forward a w i, f, q, awaits-not_removed s h) refl
    | inr q ↦ rw (stored-store_and_forward a w i, effective-name a.workload_state_store w, q) e
  ]

  -- While the store holds a state of an instance that awaits its stop, reports of running, succeeded or
  -- failed on that instance, and any reports on others, leave the stored state as it is.
  pub store_all-AwaitsStop :
      (a : AgentManager) (reports : List WorkloadState)
      → stored a i ≡ some s
      → AwaitsStop s.state
      → All SaysNothing reports
      → stored (store_all a reports) i ≡ some s
  unfolding store_all
  store_all-AwaitsStop a [] e h k = e
  store_all-AwaitsStop a (w ∷ reports) e h (k, ks) =
      store_all-AwaitsStop (store_and_forward_own_workload_states a w) reports (stop_kept a w e h k)
        h ks
