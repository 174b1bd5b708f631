-- ===== src/Server/CycleCheck/Ranks.antt =====
-- What the rounds of the search have still to do: server/src/ankaios_server/cycle_check.rs.
use mathlib.Core.Bool.{false≢true}
use ankaios.Prelude.{
  ℕ, suc, ◌+◌, ◌≤◌, ◌<◌, String, ◌≡◌, inl, inr, refl, sym, ◌∙◌, ap, true, false, List, [], ◌∷◌, Map,
  get, keys, contains_key, member, length, sort, Bool-cases, Option-cases, arith, eq_iff, All,
}
use ankaios.Api.Workload.{WorkloadSpec}
use ankaios.Server.CycleCheck.Graph.{
  Search, Outcome, found, ended, pop, push_dependencies, visit_or_pop, round, dependency_names,
  weight, weights, costs,
}
use ankaios.Server.CycleCheck.Rounds.{IsSound, searching}
use ankaios.Server.CycleCheck.Visits.{removal_dependencies, names_lem, contains_lem, All-member}

module _ (g : Map WorkloadSpec) where
  -- What the rounds still have to do.
  unfoldable pub rank : Search → ℕ
  rank s = weights g s.stack + costs g s.visited (keys g)

  Bounded : List String → ℕ → Outcome → Type 0
  Bounded visited bound (found d) = Unit
  Bounded visited bound (ended s) = (s.visited ≡ visited) × (weights g s.stack ≤ bound)

  Bounded-le :
      (visited : List String) (a b : ℕ) (o : Outcome)
      → a ≤ b
      → Bounded visited a o
      → Bounded visited b o
  unfolding Bounded
  Bounded-le visited a b (found d) h k = tt
  Bounded-le visited a b (ended s) h (e, k) = (e, omega (arith, h, k))

  push-Bounded :
      (ds : List String) (s : Search)
      → Bounded s.visited (weights g s.stack + weights g ds) (push_dependencies s ds)
  unfolding push_dependencies Bounded weights
  push-Bounded [] s = (refl, omega arith)
  push-Bounded (d ∷ ds) s = elim (Bool-cases (member d s.visited)) [
    | inr n ↦
        rw (n, push_dependencies)
          (Bounded-le s.visited (weights g (d ∷ s.stack) + weights g ds)
            (weights g s.stack + weights g (d ∷ ds))
            (push_dependencies (record s { stack = d ∷ s.stack }) ds) (omega arith)
            (push-Bounded ds (record s { stack = d ∷ s.stack })))
    | inl n ↦ elim (Bool-cases (member d s.path)) [
      | inl p ↦ rw (n, p, push_dependencies) tt
      | inr p ↦
          rw (n, p, push_dependencies)
            (Bounded-le s.visited (weights g s.stack + weights g ds)
              (weights g s.stack + weights g (d ∷ ds)) (push_dependencies s ds) (omega arith)
              (push-Bounded ds s))
    ]
  ]

  weight-missing : (d : String) → contains_key g d ≡ false → weight g d ≡ 1
  unfolding weight dependency_names
  weight-missing d x = elim (Option-cases (get g d)) [
    | inl e ↦ rw (e, weight, dependency_names) refl
    | inr (w, e) ↦ absurd (false≢true (sym x ∙ contains_lem g d w e))
  ]

  costs-le : (visited ks : List String) (h : String) → costs g (h ∷ visited) ks ≤ costs g visited ks
  unfolding costs member
  costs-le visited [] h = omega arith
  costs-le visited (n ∷ ks) h = ground (arith, costs-le visited ks h)

  costs-visit :
      (visited ks : List String) (h : String)
      → member h visited ≡ false
      → member h ks ≡ true
      → costs g (h ∷ visited) ks + suc (weights g (dependency_names g h)) ≤ costs g visited ks
  unfolding costs member
  costs-visit visited [] h n m = ground arith
  costs-visit visited (k ∷ ks) h n m =
      ground (arith, eq_iff h k, eq_iff k h, costs-le visited ks h, costs-visit visited ks h n)

  member-keys :
      (m : Map WorkloadSpec) (h : String) → contains_key m h ≡ true → member h (keys m) ≡ true
  unfolding member get
  member-keys [] h e = ground arith
  member-keys ((k, v) ∷ m) h e = ground (arith, member-keys m h)

  -- Missing dependencies have none of their own.
  missing-Bounded :
      (visited path ds stack : List String)
      → All (λ d. contains_key g d ≡ true → member d visited ≡ true) ds
      → Bounded visited
          (weights g stack + length ds)
          (push_dependencies (searching visited path stack) ds)
  unfolding push_dependencies Bounded weights
  missing-Bounded visited path [] stack k = (refl, omega arith)
  missing-Bounded visited path (d ∷ ds) stack (k, ks) = elim (Bool-cases (member d visited)) [
    | inr n ↦
        rw (n, push_dependencies)
          (Bounded-le visited (weights g (d ∷ stack) + length ds)
            (weights g stack + length (d ∷ ds))
            (push_dependencies (searching visited path (d ∷ stack)) ds)
            (omega (arith, weight-missing d (ground (arith, k, n))))
            (missing-Bounded visited path ds (d ∷ stack) ks))
    | inl n ↦ elim (Bool-cases (member d path)) [
      | inl p ↦ rw (n, p, push_dependencies) tt
      | inr p ↦
          rw (n, p, push_dependencies)
            (Bounded-le visited (weights g stack + length ds) (weights g stack + length (d ∷ ds))
              (push_dependencies (searching visited path stack) ds) (omega arith)
              (missing-Bounded visited path ds stack ks))
    ]
  ]

  unfoldable pub Ranked : ℕ → Outcome → Type 0
  Ranked bound (found d) = Unit
  Ranked bound (ended s) = rank s < bound

  Bounded-Ranked :
      (visited : List String) (a b : ℕ) (o : Outcome)
      → a + costs g visited (keys g) < b
      → Bounded visited a o
      → Ranked b o
  unfolding Bounded Ranked rank
  Bounded-Ranked visited a b (found d) h k = tt
  Bounded-Ranked visited a b (ended s) h (e, k) =
      omega (arith, h, k, ap (λ (v : List String). costs g v (keys g)) e)

  pub round_case :
      (visited path stack : List String) (h : String)
      → IsSound g (searching visited path (h ∷ stack))
      → Ranked
          (rank (searching visited path (h ∷ stack)))
          (round g (searching visited path (h ∷ stack)) h)
  unfolding Ranked rank round visit_or_pop weights weight
  round_case visited path stack h k = elim (Option-cases (get g h)) [
    | inl e ↦ rw (e, round) (omega arith)
    | inr (w, e) ↦ elim (Bool-cases (member h visited)) [
      | inl n ↦
          rw (e, round, n, visit_or_pop)
            (Bounded-Ranked visited (weights g stack + length (sort (keys w.dependencies)))
              (rank (searching visited path (h ∷ stack)))
              (push_dependencies (searching visited (pop path) stack) (sort (keys w.dependencies)))
              (omega (arith, ap length (names_lem g h w e)))
              (missing-Bounded visited (pop path) (sort (keys w.dependencies)) stack (
                rw (names_lem g h w e) at (
                  All-member (λ d. contains_key g d ≡ true → member d visited ≡ true)
                    (dependency_names g h)
                    (removal_dependencies g (searching visited path (h ∷ stack)) stack h refl k
                      (contains_lem g h w e) n)))))
      | inr n ↦
          rw (e, round, n, visit_or_pop)
            (Bounded-Ranked (h ∷ visited)
              (weights g (h ∷ stack) + weights g (sort (keys w.dependencies)))
              (rank (searching visited path (h ∷ stack)))
              (push_dependencies (searching (h ∷ visited) (h ∷ path) (h ∷ stack))
                (sort (keys w.dependencies)))
              (omega (
                arith,
                ap (weights g) (names_lem g h w e),
                costs-visit visited (keys g) h n (member-keys g h (contains_lem g h w e)),
              ))
              (push-Bounded (sort (keys w.dependencies))
                (searching (h ∷ visited) (h ∷ path) (h ∷ stack))))
    ]
  ]
