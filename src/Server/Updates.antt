-- ===== src/Server/Updates.antt =====
-- What an update does to the server's state: server/src/ankaios_server/server_state.rs.
use ankaios.Prelude.{
  Result, ok, err, String, ◌≡◌, refl, Option, none, some, Map, get, List, [], ◌∷◌, not, ◌&&◌, ◌||◌,
  ◌==◌, any, member, is_empty, ap, if◌then◌else◌, Bool-cases, inl, inr,
}
use ankaios.Api.Workload.{WorkloadSpec, WorkloadNamed, del_cond_not_pending_nor_running}
use ankaios.Server.CycleCheck.Graph.{DfsResult, cycle_at, no_cycle, out_of_fuel, dfs, Reaches}
use ankaios.Server.CycleCheck.Soundness.{dfs-Reaches}
use ankaios.Server.DeleteGraph.{DeleteGraph, insert_workloads}
use ankaios.Server.DeleteConditions.{
  condition_on, needs_running, condition-insert_workloads, HaveConditions, apply-HaveConditions,
}
use ankaios.Server.CycleCheck.Termination.{dfs-Completes}
use ankaios.Server.Render.{Engine, ConfigRenderError, render_workloads}
use ankaios.Server.Validation.{Invalid, validate_workloads}
use ankaios.Server.ServerState.{
  AddedDeletedWorkloads, render_error, result_invalid, cycle_in_dependencies,
  extract_added_and_deleted_workloads, start_nodes, DesiredState, ServerState, Updated,
  set_desired_state, store_update, update_workloads, update_rendered, update,
}
use ankaios.Server.Differences.{
  Agrees, Expected, extract-bare, extract_added_and_deleted_workloads-Differs,
}

-- A search from the added workloads that have dependencies finds no cycle.
abbrev pub HasNoCycle : Map WorkloadSpec → List WorkloadNamed → Type 0
HasNoCycle workloads added =
    (starts : List String) × ((n : String)
      → member n starts
        ≡ any (λ w. not (is_empty w.workload.dependencies) && w.instance_name.workload_name == n)
            added)
    × (dfs workloads (some starts) ≡ no_cycle)

-- The graph has the conditions from before, and for each added workload that needs another one running the
-- condition that the deletion of that one waits for it.
abbrev pub IsExtended : DeleteGraph → DeleteGraph → List WorkloadNamed → Type 0
IsExtended before after added =
    (dependency n : String)
    → condition_on after dependency n ≡ (
        if needs_running dependency n added
        then some del_cond_not_pending_nor_running
        else condition_on before dependency n)

member-start_nodes :
    (added : List WorkloadNamed) (n : String)
    → member n (start_nodes added)
      ≡ any
          (λ w. not (is_empty w.workload.dependencies) && w.instance_name.workload_name == n)
          added
unfolding member
member-start_nodes [] n = refl
member-start_nodes (w ∷ added) n = elim (Bool-cases (is_empty w.workload.dependencies)) [
  | inl e ↦ rw e (member-start_nodes added n)
  | inr e ↦ rw e (ap (λ b. w.instance_name.workload_name == n || b) (member-start_nodes added n))
]

module _ (engine : Engine) where
  -- What the result of an update says of the state before and after it.
  abbrev pub UpdateEffect : ServerState engine → DesiredState engine → Updated engine → Type 0
  UpdateEffect s new (s', err (render_error e)) =
      (s' ≡ s) × (render_workloads engine new.workloads new.configs ≡ err e)
  UpdateEffect s new (s', err (result_invalid e)) =
      (s' ≡ s)
      × ((rendered : Map WorkloadNamed) × ((render_workloads engine new.workloads new.configs
              ≡ ok rendered)
            × (validate_workloads engine rendered ≡ some e)))
  UpdateEffect s new (s', err (cycle_in_dependencies w)) = (s' ≡ s) × Reaches new.workloads w w
  UpdateEffect s new (s', ok none) =
      (s' ≡ record s { desired_state = new })
      × ((rendered : Map WorkloadNamed) × ((render_workloads engine new.workloads new.configs
              ≡ ok rendered)
            × ((n : String) → Agrees (get s.rendered_workloads n) (get rendered n))))
  UpdateEffect s new (s', ok (some r)) =
      (s'.desired_state ≡ new)
      × (render_workloads engine new.workloads new.configs ≡ ok s'.rendered_workloads)
      × (validate_workloads engine s'.rendered_workloads ≡ none)
      × HasNoCycle new.workloads r.added_workloads
      × IsExtended s.delete_graph s'.delete_graph r.added_workloads
      × ((d : AddedDeletedWorkloads) × (extract_added_and_deleted_workloads s.rendered_workloads
              s'.rendered_workloads
            ≡ some d)
          × ((n : String) → Expected (get s.rendered_workloads n) (get s'.rendered_workloads n) d)
          × (r.added_workloads ≡ d.added_workloads)
          × HaveConditions s'.delete_graph d.deleted_workloads r.deleted_workloads)

  module _ (s : ServerState engine) (new : DesiredState engine) (rendered : Map WorkloadNamed) where
    store_update-Effect :
        (d : AddedDeletedWorkloads)
        → render_workloads engine new.workloads new.configs ≡ ok rendered
        → validate_workloads engine rendered ≡ none
        → extract_added_and_deleted_workloads s.rendered_workloads rendered ≡ some d
        → dfs new.workloads (some (start_nodes d.added_workloads)) ≡ no_cycle
        → UpdateEffect s new (store_update engine s new rendered d)
    unfolding store_update
    store_update-Effect d r v e c =
        let graph = insert_workloads s.delete_graph d.added_workloads in
        (
          refl,
          r,
          v,
          (start_nodes d.added_workloads, member-start_nodes d.added_workloads, c),
          condition-insert_workloads d.added_workloads s.delete_graph,
          (
            d,
            e,
            (λ n.
                rw e at
                  (extract_added_and_deleted_workloads-Differs s.rendered_workloads rendered n)),
            refl,
            apply-HaveConditions graph d.deleted_workloads
                (extract-bare s.rendered_workloads rendered d e),
          ),
        )

    result-Effect :
        (d : AddedDeletedWorkloads) (c : DfsResult)
        → dfs new.workloads (some (start_nodes d.added_workloads)) ≡ c
        → (c ≡ no_cycle → UpdateEffect s new (store_update engine s new rendered d))
        → UpdateEffect s new (elim c [
          | cycle_at w ↦ (s, err (cycle_in_dependencies w))
          | no_cycle ↦ store_update engine s new rendered d
          | out_of_fuel ↦ store_update engine s new rendered d
        ])
    result-Effect d (cycle_at w) e h =
        (refl, dfs-Reaches new.workloads (some (start_nodes d.added_workloads)) w e)
    result-Effect d no_cycle e h = h refl
    result-Effect d out_of_fuel e h =
        absurd (dfs-Completes new.workloads (some (start_nodes d.added_workloads)) e)

    update_workloads-Effect :
        (d : AddedDeletedWorkloads)
        → (dfs new.workloads (some (start_nodes d.added_workloads)) ≡ no_cycle
            → UpdateEffect s new (store_update engine s new rendered d))
        → UpdateEffect s new (update_workloads engine s new rendered d)
    unfolding update_workloads
    update_workloads-Effect d h =
        result-Effect d (dfs new.workloads (some (start_nodes d.added_workloads))) refl h

    differences-Effect :
        (o : Option AddedDeletedWorkloads)
        → extract_added_and_deleted_workloads s.rendered_workloads rendered ≡ o
        → render_workloads engine new.workloads new.configs ≡ ok rendered
        → validate_workloads engine rendered ≡ none
        → UpdateEffect s new (elim o [
          | some r ↦ update_workloads engine s new rendered r
          | none ↦ (set_desired_state engine s new, ok none)
        ])
    differences-Effect none e r v = (
      refl,
      (
        rendered,
        (
          r,
          λ n.
              rw e at (extract_added_and_deleted_workloads-Differs s.rendered_workloads rendered n),
        ),
      ),
    )
    differences-Effect (some d) e r v = update_workloads-Effect d (store_update-Effect d r v e)

    validated-Effect :
        (o : Option Invalid)
        → validate_workloads engine rendered ≡ o
        → render_workloads engine new.workloads new.configs ≡ ok rendered
        → UpdateEffect s new (elim o [
          | some e ↦ (s, err (result_invalid e))
          | none ↦ elim (extract_added_and_deleted_workloads s.rendered_workloads rendered) [
            | some r ↦ update_workloads engine s new rendered r
            | none ↦ (set_desired_state engine s new, ok none)
          ]
        ])
    validated-Effect none v r =
        differences-Effect (extract_added_and_deleted_workloads s.rendered_workloads rendered) refl
          r v
    validated-Effect (some e) v r = (refl, (rendered, (r, v)))

    update_rendered-Effect :
        render_workloads engine new.workloads new.configs ≡ ok rendered
        → UpdateEffect s new (update_rendered engine s new rendered)
    unfolding update_rendered
    update_rendered-Effect r = validated-Effect (validate_workloads engine rendered) refl r

  rendering-Effect :
      (s : ServerState engine) (new : DesiredState engine)
      (o : Result ConfigRenderError (Map WorkloadNamed))
      → render_workloads engine new.workloads new.configs ≡ o
      → UpdateEffect s new (elim o [
        | err e ↦ (s, err (render_error e))
        | ok rendered ↦ update_rendered engine s new rendered
      ])
  rendering-Effect s new (err e) r = (refl, r)
  rendering-Effect s new (ok rendered) r = update_rendered-Effect s new rendered r

  pub update-Effect :
      (s : ServerState engine) (new : DesiredState engine)
      → UpdateEffect s new (update engine s new)
  unfolding update
  update-Effect s new =
      rendering-Effect s new (render_workloads engine new.workloads new.configs) refl
