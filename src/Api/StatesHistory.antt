-- ===== src/Api/StatesHistory.antt =====
-- What a look-up returns after whole messages: the loops of ankaios_api/src/ank_base/
-- workload_states_map.rs.
use ankaios.Prelude.{
  ◌≡◌, refl, ap, ◌∙◌, Bool, true, List, [], ◌∷◌, Option, none, some, get_or, any, arith, Bool-cases,
  inl, inr, if◌then◌else◌,
}
use ankaios.Api.Execution.{ExecutionState, is_removed}
use ankaios.Api.Instance.{InstanceName, instance_eq, instance_eq_iff}
use ankaios.Api.StatesMap.{
  WorkloadStatesMap, WorkloadState, get_workload_state_for_workload, at_ids, or_insert, first_state,
  initial_state, process_new_state, process_new_states,
}
use ankaios.Api.StatesLookup.{find-insert, find-or_insert, find-remove}

-- What is known of instance `j` after the reports, if `o` was known before: the last report wins, and
-- a removal leaves nothing.
abbrev pub latest :
    InstanceName → Option ExecutionState → List WorkloadState → Option ExecutionState
latest j o [] = o
latest j o (w ∷ states) =
    latest j
      (if instance_eq w.instance_name j
        then (if is_removed w.execution_state then none else some w.execution_state)
        else o)
      states

find-process :
    (m : WorkloadStatesMap) (w : WorkloadState) (j : InstanceName)
    → get_workload_state_for_workload (process_new_state m w) j ≡ (
        if instance_eq w.instance_name j
        then (if is_removed w.execution_state then none else some w.execution_state)
        else get_workload_state_for_workload m j)
unfolding process_new_state
find-process m w j = elim (Bool-cases (is_removed w.execution_state)) [
  | inl e ↦ rw e (find-remove m w.instance_name j)
  | inr e ↦ rw e (find-insert m w.instance_name j w.execution_state)
]

-- After `process_new_states` a look-up returns the state of the last report on its instance; nothing
-- if that report says removed, and what it returned before if there is no such report.
pub lookup-process_new_states :
    (states : List WorkloadState) (m : WorkloadStatesMap) (j : InstanceName)
    → get_workload_state_for_workload (process_new_states m states) j
      ≡ latest j (get_workload_state_for_workload m j) states
unfolding process_new_states
lookup-process_new_states [] m j = refl
lookup-process_new_states (w ∷ states) m j =
    lookup-process_new_states states (process_new_state m w) j
    ∙ ap (λ (o : Option ExecutionState). latest j o states) (find-process m w j)

initial_step :
    (i j : InstanceName) (o : Option ExecutionState)
    → instance_eq i j ≡ true
    → some (get_or (first_state i) o) ≡ some (get_or (first_state j) o)
initial_step i j o e =
    ap (λ (k : InstanceName). some (get_or (first_state k) o)) ((instance_eq_iff i j).0 e)

abbrev pub listed : InstanceName → List InstanceName → Bool
listed j workloads = any (λ i. instance_eq i j) workloads

-- After `initial_state` a look-up of a listed workload returns the state that was there, or else the
-- first state for its agent (not scheduled without an agent); other look-ups are unchanged.
pub lookup-initial_state :
    (workloads : List InstanceName) (m : WorkloadStatesMap) (j : InstanceName)
    → get_workload_state_for_workload (initial_state m workloads) j ≡ (
        if listed j workloads
        then some (get_or (first_state j) (get_workload_state_for_workload m j))
        else get_workload_state_for_workload m j)
unfolding initial_state
lookup-initial_state [] m j = refl
lookup-initial_state (i ∷ workloads) m j = ground (
  arith,
  lookup-initial_state workloads (at_ids m i (λ ids. or_insert ids i.id (first_state i))) j,
  find-or_insert m i j (first_state i),
  instance_eq_iff i j,
)
