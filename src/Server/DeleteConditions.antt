-- ===== src/Server/DeleteConditions.antt =====
-- The delete conditions that the graph holds: server/src/ankaios_server/delete_graph.rs.
use ankaios.Prelude.{
  String, ◌≡◌, ◌==◌, refl, inl, inr, Bool, ◌&&◌, List, [], ◌∷◌, Option, none, some, Map, get,
  insert, remove, get_or, get-insert, get-remove, any, arith, eq_iff, Bool-cases, Option-cases, All,
  if◌then◌else◌,
}
use ankaios.Api.Execution.{is_removed}
use ankaios.Api.StatesMap.{WorkloadState}
use ankaios.Api.Workload.{
  AddCondition, add_cond_running, add_condition_eq, DeleteCondition,
  del_cond_not_pending_nor_running, WorkloadNamed, DeletedWorkload,
}
use ankaios.Server.DeleteGraph.{
  apply_delete_conditions_to, DeleteGraph, insert_dependencies, insert_workloads,
  remove_deleted_workloads_from_delete_graph,
}

-- The condition on `name` for the deletion of `dependency`.
unfoldable pub condition_on : DeleteGraph → String → String → Option DeleteCondition
condition_on g dependency name = elim (get g dependency) [
  | none ↦ none
  | some conditions ↦ get conditions name
]

abbrev pub runs_with : String → Map AddCondition → Bool
runs_with dependency dependencies =
    any (λ (d, c). add_condition_eq c add_cond_running && d == dependency) dependencies

-- The workload `name` is among the workloads, and is to be created once `dependency` runs.
abbrev pub needs_running : String → String → List WorkloadNamed → Bool
needs_running dependency name workloads =
    any (λ w. w.instance_name.workload_name == name && runs_with dependency w.workload.dependencies)
      workloads

entry_lem :
    (g : DeleteGraph) (name dependency d n : String)
    → condition_on
        (insert g dependency
          (insert (get_or [] (get g dependency)) name del_cond_not_pending_nor_running))
        d
        n
      ≡ (if dependency == d && name == n
          then some del_cond_not_pending_nor_running
          else condition_on g d n)
unfolding condition_on get
entry_lem g name dependency d n = ground (
  arith,
  get-insert g dependency d
      (insert (get_or [] (get g dependency)) name del_cond_not_pending_nor_running),
  get-insert (get_or [] (get g dependency)) name n del_cond_not_pending_nor_running,
  eq_iff dependency d,
)

condition-insert_dependencies :
    (dependencies : Map AddCondition) (g : DeleteGraph) (name d n : String)
    → condition_on (insert_dependencies g name dependencies) d n ≡ (
        if name == n && runs_with d dependencies
        then some del_cond_not_pending_nor_running
        else condition_on g d n)
unfolding insert_dependencies
condition-insert_dependencies [] g name d n = ground arith
condition-insert_dependencies ((dependency, condition) ∷ dependencies) g name d n =
    elim (Bool-cases (add_condition_eq condition add_cond_running)) [
      | inl e ↦ rw e (
          ground (
            arith,
            entry_lem g name dependency d n,
            condition-insert_dependencies dependencies
                (insert g dependency
                  (insert (get_or [] (get g dependency)) name del_cond_not_pending_nor_running))
                name d n,
          ))
      | inr e ↦ rw e (ground (arith, condition-insert_dependencies dependencies g name d n))
    ]

pub condition-insert_workloads :
    (workloads : List WorkloadNamed) (g : DeleteGraph) (d n : String)
    → condition_on (insert_workloads g workloads) d n ≡ (
        if needs_running d n workloads
        then some del_cond_not_pending_nor_running
        else condition_on g d n)
unfolding insert_workloads
condition-insert_workloads [] g d n = refl
condition-insert_workloads (w ∷ workloads) g d n = ground (
  arith,
  condition-insert_workloads workloads
      (insert_dependencies g w.instance_name.workload_name w.workload.dependencies) d n,
  condition-insert_dependencies w.workload.dependencies g w.instance_name.workload_name d n,
)

-- The deleted workloads again, each with the conditions that the graph has for its deletion.
abbrev pub HaveConditions : DeleteGraph → List DeletedWorkload → List DeletedWorkload → Type 0
HaveConditions g [] [] = Unit
HaveConditions g [] (r ∷ returned) = ⊥
HaveConditions g (w ∷ deleted) [] = ⊥
HaveConditions g (w ∷ deleted) (r ∷ returned) =
    (r.instance_name ≡ w.instance_name)
    × ((n : String) → get r.dependencies n ≡ condition_on g w.instance_name.workload_name n)
    × HaveConditions g deleted returned

pub apply-HaveConditions :
    (g : DeleteGraph) (deleted : List DeletedWorkload)
    → All (λ w. w.dependencies ≡ []) deleted
    → HaveConditions g deleted (apply_delete_conditions_to g deleted)
unfolding apply_delete_conditions_to condition_on get
apply-HaveConditions g [] h = tt
apply-HaveConditions g (w ∷ deleted) (e, h) =
    elim (Option-cases (get g w.instance_name.workload_name)) [
      | inl k ↦
          rw (k, condition_on) (refl, (λ n. rw (e, get) refl), apply-HaveConditions g deleted h)
      | inr (conditions, k) ↦
          rw (k, condition_on) (refl, (λ n. refl), apply-HaveConditions g deleted h)
    ]

abbrev pub reports_removed : String → List WorkloadState → Bool
reports_removed name states =
    any (λ s. is_removed s.execution_state && s.instance_name.workload_name == name) states

condition-remove_deleted :
    (states : List WorkloadState) (g : DeleteGraph) (d n : String)
    → condition_on (remove_deleted_workloads_from_delete_graph g states) d n
      ≡ (if reports_removed d states then none else condition_on g d n)
unfolding remove_deleted_workloads_from_delete_graph condition_on
condition-remove_deleted [] g d n = refl
condition-remove_deleted (s ∷ states) g d n = elim (Bool-cases (is_removed s.execution_state)) [
  | inl e ↦ rw e (
      ground (
        arith,
        get-remove g s.instance_name.workload_name d,
        condition-remove_deleted states (remove g s.instance_name.workload_name) d n,
      ))
  | inr e ↦ rw e (condition-remove_deleted states g d n)
]

-- After new workloads were inserted and removals reported, the deletion of `d` waits for the workload
-- `n` if and only if no removal of `d` was reported and a new workload `n` needs `d` running, or it
-- waited before; the condition of a new workload is that it is neither pending nor running.
condition-insert_and_remove :
    (g : DeleteGraph) (workloads : List WorkloadNamed) (states : List WorkloadState) (d n : String)
    → condition_on
        (remove_deleted_workloads_from_delete_graph (insert_workloads g workloads) states)
        d
        n
      ≡ (if reports_removed d states
          then none
          else if needs_running d n workloads
          then some del_cond_not_pending_nor_running
          else condition_on g d n)
condition-insert_and_remove g workloads states d n = ground (
  arith,
  condition-remove_deleted states (insert_workloads g workloads) d n,
  condition-insert_workloads workloads g d n,
)
