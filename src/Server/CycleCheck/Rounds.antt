-- ===== src/Server/CycleCheck/Rounds.antt =====
-- The rounds of the search, their loops over the dependencies and what holds between them:
-- server/src/ankaios_server/cycle_check.rs.
use ankaios.Prelude.{
  String, ◌≡◌, ◌==◌, ◌⊎◌, inl, inr, refl, true, false, ◌||◌, List, [], ◌∷◌, Map, contains_key,
  member, arith, eq_iff, All, Bool-cases,
}
use ankaios.Api.Workload.{WorkloadSpec}
use ankaios.Server.CycleCheck.Graph.{
  Search, Outcome, found, ended, push_dependencies, Edge, Reaches, step, Reaches-trans,
  dependency_names,
}
use ankaios.Server.CycleCheck.Frames.{
  Closed, ClosedTop, Frames, bottom, waits, Chain, Sub, member-Sub, ClosedTop-push,
}

abbrev pub AllVisited : List String → List String → Type 0
AllVisited visited active = All (λ t. member t visited ≡ true) active

abbrev pub searching : List String → List String → List String → Search
searching visited path stack = record { stack = stack; visited = visited; path = path }

module _ (g : Map WorkloadSpec) where
  -- A visited workload that is not open has none but visited dependencies.
  abbrev pub Finished : List String → List String → Type 0
  Finished visited active =
      (n : String) → member n visited ≡ true → member n active ≡ false → Closed g visited [] n

  abbrev pub IsSound : Search → Type 0
  IsSound s =
      (waiting : List String) × ((active : List String) × (Frames g s.visited waiting s.stack active
          × (ClosedTop g s.visited waiting active
              × (Sub s.path active
                  × (Chain g active × (AllVisited s.visited active × Finished s.visited active))))))

  abbrev pub OutcomeIsSound : Outcome → Type 0
  OutcomeIsSound (found d) = Reaches g d d
  OutcomeIsSound (ended s) = IsSound s

  -- An unvisited workload is not open.
  not_active :
      (visited active : List String) (d : String)
      → AllVisited visited active
      → member d visited ≡ false
      → member d active ≡ false
  unfolding member
  not_active visited [] d v e = refl
  not_active visited (t ∷ active) d (h, v) e =
      ground (arith, not_active visited active d v e, eq_iff t d)

  -- Every open workload leads to the innermost.
  pub Chain-Reaches :
      (h : String) (active : List String) (d : String)
      → Chain g (h ∷ active)
      → member d (h ∷ active) ≡ true
      → (d ≡ h) ⊎ Reaches g d h
  unfolding member
  Chain-Reaches h [] d c e = inl (ground (arith, eq_iff h d))
  Chain-Reaches h (u ∷ active) d (c, cs) e = elim (Bool-cases (h == d)) [
    | inl q ↦ inl (ground (arith, eq_iff h d))
    | inr q ↦ elim (Chain-Reaches u active d cs (rw q at e)) [
      | inl p ↦ inr (rw p (step c))
      | inr p ↦ inr (Reaches-trans g d u h p (step c))
    ]
  ]

  push_missing :
      (visited active waiting stack : List String) (d : String)
      → AllVisited visited active
      → member d visited ≡ false
      → contains_key g d ≡ false
      → ClosedTop g visited waiting active
      → Frames g visited waiting stack active
      → (waiting' : List String) × (ClosedTop g visited waiting' active
          × Frames g visited waiting' (d ∷ stack) active)
  push_missing visited [] waiting stack d v n x t f = (d ∷ stack, (tt, bottom (d ∷ stack)))
  push_missing visited (u ∷ active) waiting stack d v n x t f = (
    d ∷ waiting,
    (
      ClosedTop-push g visited waiting (u ∷ active) d t,
      waits (inr x, not_active visited (u ∷ active) d v n) f,
    ),
  )

  -- The loops change the stack only.
  module _ (visited path active : List String) where
    -- After a visit of `h`, whose dependencies still have to be looked at.
    pub visit-IsSound :
        (h : String) (waiting stack ds : List String)
        → Sub path (h ∷ active)
        → Chain g (h ∷ active)
        → AllVisited visited (h ∷ active)
        → Finished visited (h ∷ active)
        → All (Edge g h) ds
        → ((d : String)
            → member d (dependency_names g h) ≡ true
            → contains_key g d ≡ true
            → (member d visited || (member d waiting || member d ds)) ≡ true)
        → Frames g visited waiting stack (h ∷ active)
        → OutcomeIsSound (push_dependencies (searching visited path stack) ds)
    unfolding push_dependencies member
    visit-IsSound h waiting stack [] s c v r e k f =
        (waiting, (h ∷ active, (f, ((λ d i x. ground (arith, k d i x)), (s, (c, (v, r)))))))
    visit-IsSound h waiting stack (d ∷ ds) s c v r (e, es) k f =
        elim (Bool-cases (member d visited)) [
          | inr n ↦
              rw (n, push_dependencies)
                (visit-IsSound h (d ∷ waiting) (d ∷ stack) ds s c v r es
                  (λ b i x. ground (arith, k b i x))
                  (waits (inl e, not_active visited (h ∷ active) d v n) f))
          | inl n ↦ elim (Bool-cases (member d path)) [
            | inl p ↦
                rw (n, p, push_dependencies)
                  (elim (Chain-Reaches h active d c (member-Sub d s p)) [
                    | inl q ↦ rw q (step (rw q at e))
                    | inr q ↦ Reaches-trans g d h d q (step e)
                  ])
            | inr p ↦
                rw (n, p, push_dependencies)
                  (visit-IsSound h waiting stack ds s c v r es
                    (λ b i x. ground (arith, k b i x, eq_iff d b)) f)
          ]
        ]

    -- After a removal of `h`, whose dependencies are looked at once more.
    pub removal-IsSound :
        (h : String) (waiting stack ds : List String)
        → Sub path active
        → Chain g active
        → AllVisited visited active
        → Finished visited active
        → All (Edge g h) ds
        → All (λ d. contains_key g d ≡ true → member d visited ≡ true) ds
        → ((d : String) → member d active ≡ true → Reaches g d h)
        → ClosedTop g visited waiting active
        → Frames g visited waiting stack active
        → OutcomeIsSound (push_dependencies (searching visited path stack) ds)
    unfolding push_dependencies member
    removal-IsSound h waiting stack [] s c v r e k l t f =
        (waiting, (active, (f, (t, (s, (c, (v, r)))))))
    removal-IsSound h waiting stack (d ∷ ds) s c v r (e, es) (k, ks) l t f =
        elim (Bool-cases (member d visited)) [
          | inr n ↦
              let (waiting', (t', f')) =
                push_missing visited active waiting stack d v n (ground (arith, k, n)) t f in
              rw (n, push_dependencies)
                (removal-IsSound h waiting' (d ∷ stack) ds s c v r es ks l t' f')
          | inl n ↦ elim (Bool-cases (member d path)) [
            | inl p ↦
                rw (n, p, push_dependencies)
                  (Reaches-trans g d h d (l d (member-Sub d s p)) (step e))
            | inr p ↦
                rw (n, p, push_dependencies)
                  (removal-IsSound h waiting stack ds s c v r es ks l t f)
          ]
        ]
