-- ===== src/Server/CycleCheck/Soundness.antt =====
-- What the search reports: server/src/ankaios_server/cycle_check.rs.
use mathlib.Core.Path.{subst}
use ankaios.Prelude.{
  ℕ, zero, suc, String, ◌≡◌, ◌⊎◌, inl, inr, refl, List, [], ◌∷◌, Option, none, some, Map, member,
  Bool-cases, arith,
}
use ankaios.Api.Workload.{WorkloadSpec}
use ankaios.Server.CycleCheck.Graph.{
  Search, Outcome, found, ended, round, search, visit_all, DfsResult, cycle_at, no_cycle,
  out_of_fuel, dfs, new_search, enough_fuel, workloads_to_visit, Reaches,
}
use ankaios.Server.CycleCheck.Frames.{bottom, sub_nil}
use ankaios.Server.CycleCheck.Rounds.{IsSound, OutcomeIsSound, searching}
use ankaios.Server.CycleCheck.Visits.{round-IsSound}

List-cases : (xs : List String) → (xs ≡ []) ⊎ ((x : String) × ((ys : List String) × (xs ≡ x ∷ ys)))
List-cases [] = inl refl
List-cases (x ∷ xs) = inr (x, (xs, refl))

module _ (g : Map WorkloadSpec) where
  abbrev pub SearchIsSound : Option Outcome → Type 0
  SearchIsSound none = Unit
  SearchIsSound (some (found d)) = Reaches g d d
  SearchIsSound (some (ended s)) = IsSound g s × (s.stack ≡ [])

  after_round :
      (fuel : ℕ)
      → ((s : Search) → IsSound g s → SearchIsSound (search g fuel s))
      → (o : Outcome) → OutcomeIsSound g o
      → SearchIsSound (elim o [ found d ↦ some (found d) | ended s ↦ search g fuel s ])
  after_round fuel ih (found d) k = k
  after_round fuel ih (ended s) k = ih s k

  pub search-IsSound : (fuel : ℕ) (s : Search) → IsSound g s → SearchIsSound (search g fuel s)
  unfolding search
  search-IsSound zero s k = elim (List-cases s.stack) [
    | inl e ↦ rw (e, search) (k, e)
    | inr (h, (stack, e)) ↦ rw (e, search) tt
  ]
  search-IsSound (suc fuel) s k = elim (List-cases s.stack) [
    | inl e ↦ rw (e, search) (k, e)
    | inr (h, (stack, e)) ↦
        rw (e, search)
          (after_round fuel (search-IsSound fuel) (round g s h) (round-IsSound g s h stack e k))
  ]

  restart :
      (visited path : List String) (w : String)
      → IsSound g (searching visited path [])
      → IsSound g (searching visited path (w ∷ []))
  restart visited path w (_, (_, (bottom _, (t, k)))) = (w ∷ [], ([], (bottom (w ∷ []), (tt, k))))

  -- Between the searches the stack is empty, so that nothing is open.
  pub start-IsSound :
      (s : Search) (w : String)
      → IsSound g s
      → s.stack ≡ []
      → IsSound g (record s { stack = w ∷ s.stack })
  start-IsSound s w k e = rw e (restart s.visited s.path w (rw e at k))

  abbrev DfsIsSound : DfsResult → Type 0
  DfsIsSound (cycle_at w) = Reaches g w w
  DfsIsSound no_cycle = Unit
  DfsIsSound out_of_fuel = Unit

  after_search :
      (fuel : ℕ) (ws : List String)
      → ((s : Search) → IsSound g s → s.stack ≡ [] → DfsIsSound (visit_all g fuel s ws))
      → (o : Option Outcome) → SearchIsSound o
      → DfsIsSound (elim o [
        | none ↦ out_of_fuel
        | some (found d) ↦ cycle_at d
        | some (ended s') ↦ visit_all g fuel s' ws
      ])
  after_search fuel ws ih none k = tt
  after_search fuel ws ih (some (found d)) k = k
  after_search fuel ws ih (some (ended s)) (k, e) = ih s k e

  visit_all-IsSound :
      (fuel : ℕ) (s : Search) (ws : List String)
      → IsSound g s
      → s.stack ≡ []
      → DfsIsSound (visit_all g fuel s ws)
  unfolding visit_all
  visit_all-IsSound fuel s [] k e = tt
  visit_all-IsSound fuel s (w ∷ ws) k e = elim (Bool-cases (member w s.visited)) [
    | inl n ↦ rw (n, visit_all) (visit_all-IsSound fuel s ws k e)
    | inr n ↦
        rw (n, visit_all)
          (after_search fuel ws (λ s' k' e'. visit_all-IsSound fuel s' ws k' e')
            (search g fuel (record s { stack = w ∷ s.stack }))
            (search-IsSound fuel (record s { stack = w ∷ s.stack }) (start-IsSound s w k e)))
  ]

  -- If the check names a workload, that workload depends on itself through one or more dependencies.
  pub dfs-Reaches :
      (start_nodes : Option (List String)) (w : String)
      → dfs g start_nodes ≡ cycle_at w
      → Reaches g w w
  unfolding dfs member
  dfs-Reaches start_nodes w e = subst DfsIsSound e (
      visit_all-IsSound (enough_fuel g (workloads_to_visit g start_nodes)) (new_search g)
        (workloads_to_visit g start_nodes)
        ([], ([], (bottom [], (tt, (sub_nil, (tt, (tt, λ n h. ground (arith, h)))))))) refl)
