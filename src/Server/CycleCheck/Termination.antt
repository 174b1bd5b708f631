-- ===== src/Server/CycleCheck/Termination.antt =====
-- The fuel of the search: server/src/ankaios_server/cycle_check.rs.
use ankaios.Prelude.{
  ℕ, zero, suc, ◌+◌, ◌≤◌, String, ◌≡◌, ◌≢◌, inl, inr, refl, ap, List, [], ◌∷◌, Option, none, some,
  Map, keys, member, Bool-cases, arith,
}
use ankaios.Api.Workload.{WorkloadSpec}
use ankaios.Server.CycleCheck.Graph.{
  Search, Outcome, found, ended, round, search, visit_all, DfsResult, cycle_at, out_of_fuel, dfs,
  new_search, enough_fuel, workloads_to_visit, weight, weights, costs,
}
use ankaios.Server.CycleCheck.Frames.{bottom, sub_nil}
use ankaios.Server.CycleCheck.Rounds.{IsSound, OutcomeIsSound, searching}
use ankaios.Server.CycleCheck.Visits.{round-IsSound}
use ankaios.Server.CycleCheck.Soundness.{SearchIsSound, search-IsSound, start-IsSound}
use ankaios.Server.CycleCheck.Ranks.{rank, Ranked, round_case}

module _ (g : Map WorkloadSpec) where
  -- The search ends, with no more to do than before.
  SearchEnds : ℕ → Option Outcome → Type 0
  SearchEnds bound none = ⊥
  SearchEnds bound (some (found d)) = Unit
  SearchEnds bound (some (ended s)) = rank g s ≤ bound

  SearchEnds-le : (a b : ℕ) (o : Option Outcome) → a ≤ b → SearchEnds a o → SearchEnds b o
  unfolding SearchEnds
  SearchEnds-le a b none h k = k
  SearchEnds-le a b (some (found d)) h k = tt
  SearchEnds-le a b (some (ended s)) h k = omega (arith, h, k)

  after_round :
      (fuel bound : ℕ)
      → ((s : Search) → IsSound g s → rank g s ≤ fuel → SearchEnds (rank g s) (search g fuel s))
      → (o : Outcome) → OutcomeIsSound g o
      → Ranked g bound o
      → bound ≤ suc fuel
      → SearchEnds bound (elim o [ found d ↦ some (found d) | ended s ↦ search g fuel s ])
  unfolding SearchEnds Ranked
  after_round fuel bound ih (found d) k r b = tt
  after_round fuel bound ih (ended s) k r b =
      SearchEnds-le (rank g s) bound (search g fuel s) (omega (arith, r))
        (ih s k (omega (arith, r, b)))

  search-SearchEnds :
      (fuel : ℕ) (visited path stack : List String)
      → IsSound g (searching visited path stack)
      → rank g (searching visited path stack) ≤ fuel
      → SearchEnds
          (rank g (searching visited path stack))
          (search g fuel (searching visited path stack))
  unfolding search SearchEnds rank weights weight
  search-SearchEnds zero visited path [] k r = omega arith
  search-SearchEnds zero visited path (h ∷ stack) k r = omega (arith, r)
  search-SearchEnds (suc fuel) visited path [] k r = omega arith
  search-SearchEnds (suc fuel) visited path (h ∷ stack) k r =
      after_round fuel (rank g (searching visited path (h ∷ stack)))
        (λ s. search-SearchEnds fuel s.visited s.path s.stack)
        (round g (searching visited path (h ∷ stack)) h)
        (round-IsSound g (searching visited path (h ∷ stack)) h stack refl k)
        (round_case g visited path stack h k) r

  -- The whole check.
  abbrev Completes : DfsResult → Type 0
  Completes r = r ≢ out_of_fuel

  after_search :
      (fuel bound : ℕ) (ws : List String)
      → ((s : Search)
          → IsSound g s
          → s.stack ≡ []
          → weights g ws + costs g s.visited (keys g) ≤ fuel
          → Completes (visit_all g fuel s ws))
      → (o : Option Outcome) → SearchIsSound g o
      → SearchEnds bound o
      → weights g ws + bound ≤ fuel
      → Completes (elim o [
        | none ↦ out_of_fuel
        | some (found d) ↦ cycle_at d
        | some (ended s') ↦ visit_all g fuel s' ws
      ])
  unfolding SearchEnds rank
  after_search fuel bound ws ih none k r b = absurd r
  after_search fuel bound ws ih (some (found d)) k r b = λ e. cc
  after_search fuel bound ws ih (some (ended s)) (k, e) r b = ih s k e (omega (arith, r, b))

  visit_all-Completes :
      (fuel : ℕ) (ws : List String) (s : Search)
      → IsSound g s
      → s.stack ≡ []
      → weights g ws + costs g s.visited (keys g) ≤ fuel
      → Completes (visit_all g fuel s ws)
  unfolding visit_all rank weights
  visit_all-Completes fuel [] s k e b = λ e. cc
  visit_all-Completes fuel (w ∷ ws) s k e b = elim (Bool-cases (member w s.visited)) [
    | inl n ↦ rw (n, visit_all) (visit_all-Completes fuel ws s k e (omega (arith, b)))
    | inr n ↦
        let k' = start-IsSound g s w k e in
        let b' : weights g ws + (weight g w + (weights g s.stack + costs g s.visited (keys g)))
            ≤ fuel =
          omega (arith, b, ap (weights g) e) in
        rw (n, visit_all)
          (after_search fuel (rank g (record s { stack = w ∷ s.stack })) ws
            (visit_all-Completes fuel ws) (search g fuel (record s { stack = w ∷ s.stack }))
            (search-IsSound g fuel (record s { stack = w ∷ s.stack }) k')
            (search-SearchEnds fuel s.visited s.path (w ∷ s.stack) k' (omega (arith, b')))
            (omega (arith, b')))
  ]

  -- The check always comes to a result.
  pub dfs-Completes : (start_nodes : Option (List String)) → dfs g start_nodes ≢ out_of_fuel
  unfolding dfs member enough_fuel
  dfs-Completes start_nodes =
      visit_all-Completes (enough_fuel g (workloads_to_visit g start_nodes))
        (workloads_to_visit g start_nodes) (new_search g)
        ([], ([], (bottom [], (tt, (sub_nil, (tt, (tt, λ n h. ground (arith, h)))))))) refl
        (omega arith)
