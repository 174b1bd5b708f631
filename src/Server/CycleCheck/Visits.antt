-- ===== src/Server/CycleCheck/Visits.antt =====
-- A whole round, by what its head is: server/src/ankaios_server/cycle_check.rs.
use mathlib.Core.Path.{subst}
use ankaios.Prelude.{
  String, ◌≡◌, ◌==◌, inl, inr, refl, true, false, List, [], ◌∷◌, some, Map, get, keys, sort,
  contains_key, member, arith, eq_iff, eq_refl, All, Bool-cases, Option-cases,
}
use ankaios.Api.Workload.{WorkloadSpec}
use ankaios.Server.CycleCheck.Graph.{
  Search, pop, push_dependencies, visit_or_pop, round, Edge, Reaches, step, Reaches-trans,
  dependency_names,
}
use ankaios.Server.CycleCheck.Frames.{
  Closed, ClosedTop, Frames, bottom, waits, active_frame, Chain, sub_keep, Sub-pop, Sub-pop_left,
  ClosedTop-visit, ClosedTop-pop, Closed-visited, Frames-visited,
}
use ankaios.Server.CycleCheck.Rounds.{
  AllVisited, Finished, IsSound, OutcomeIsSound, Chain-Reaches, searching, visit-IsSound,
  removal-IsSound,
}

pub All-member :
    (P : String → Type 0) (xs : List String) → ((x : String) → member x xs ≡ true → P x) → All P xs
unfolding member
All-member P [] h = tt
All-member P (x ∷ xs) h =
    (h x (ground (arith, eq_refl x)), All-member P xs (λ y e. h y (ground (arith, e))))

module _ (g : Map WorkloadSpec) where
  pub names_lem :
      (h : String) (w : WorkloadSpec)
      → get g h ≡ some w
      → dependency_names g h ≡ sort (keys w.dependencies)
  unfolding dependency_names
  names_lem h w e = rw (e, dependency_names) refl

  -- A visit opens the head's frame.
  visit-Frames :
      {visited waiting stack active : List String} {h : String}
      → contains_key g h ≡ true
      → member h visited ≡ false
      → ClosedTop g visited waiting active
      → Chain g active
      → AllVisited visited active
      → Frames g visited waiting (h ∷ stack) active
      → Frames g (h ∷ visited) [] (h ∷ stack) (h ∷ active) × Chain g (h ∷ active)
  visit-Frames x n t c v (bottom s) = (active_frame x tt (bottom _), tt)
  visit-Frames {visited} {h} x n t c v
        (waits {waiting = waiting} {active = rest} {t = u} (inl e, m) f) =
      (
        active_frame x (ClosedTop-visit g visited waiting (u ∷ rest) h t) (Frames-visited g h f),
        (e, c),
      )
  visit-Frames x n t c v (waits (inr y, m) f) = ground (arith, x, y)
  visit-Frames x n t c v (active_frame y u f) = ground (arith, n, v.0)

  AllVisited-visit :
      (visited active : List String) (h : String)
      → AllVisited visited active
      → AllVisited (h ∷ visited) active
  unfolding member
  AllVisited-visit visited [] h v = tt
  AllVisited-visit visited (t ∷ active) h (e, v) =
      (ground (arith, e), AllVisited-visit visited active h v)

  Finished-visit :
      (visited active : List String) (h : String)
      → Finished g visited active
      → Finished g (h ∷ visited) (h ∷ active)
  unfolding member
  Finished-visit visited active h r n e m =
      Closed-visited g visited [] h n (r n (ground (arith, e, m)) (ground (arith, m)))

  pub contains_lem : (h : String) (w : WorkloadSpec) → get g h ≡ some w → contains_key g h ≡ true
  contains_lem h w e = rw (e, contains_key) refl

  visit_round :
      (visited path stack : List String) (h : String)
      → IsSound g (searching visited path (h ∷ stack))
      → contains_key g h ≡ true
      → member h visited ≡ false
      → OutcomeIsSound g (
          push_dependencies (searching (h ∷ visited) (h ∷ path) (h ∷ stack)) (dependency_names g h))
  unfolding member Edge
  visit_round visited path stack h (waiting, (active, (f, (t, (s, (c, (v, r))))))) x n =
      let (f', c') = visit-Frames x n t c v f in
      visit-IsSound g (h ∷ visited) (h ∷ path) active h [] (h ∷ stack) (dependency_names g h)
        (sub_keep s) c' (ground (arith, eq_refl h), AllVisited-visit visited active h v)
        (Finished-visit visited active h r)
        (All-member (Edge g h) (dependency_names g h) (λ d e. e)) (λ d i y. ground (arith, i)) f'

  missing_round :
      (visited path stack : List String) (h : String)
      → IsSound g (searching visited path (h ∷ stack))
      → contains_key g h ≡ false
      → IsSound g (searching visited path stack)
  missing_round visited path stack h (_, (_, (bottom _, (t, (s, (c, (v, r))))))) x =
      (stack, ([], (bottom stack, (tt, (s, (c, (v, r)))))))
  missing_round visited path stack h
        (_, (_, (waits {waiting = waiting} {active = rest} {t = u} w f, (t, (s, (c, (v, r))))))) x =
      (
        waiting,
        (
          u ∷ rest,
          (
            f,
            (
              ClosedTop-pop g visited waiting (u ∷ rest) h (λ y. ground (arith, x, y)) t,
              (s, (c, (v, r))),
            ),
          ),
        ),
      )
  missing_round visited path stack h (_, (_, (active_frame y u f, (t, (s, (c, (v, r))))))) x =
      ground (arith, x, y)

  leads :
      (u : String) (rest : List String) (h : String)
      → Edge g u h
      → Chain g (u ∷ rest)
      → (d : String) → member d (u ∷ rest) ≡ true
      → Reaches g d h
  leads u rest h e c d i = elim (Chain-Reaches g u rest d c i) [
    | inl p ↦ rw p (step e)
    | inr q ↦ Reaches-trans g d u h q (step e)
  ]

  leads_tail :
      (rest : List String) (h : String)
      → Chain g (h ∷ rest)
      → (d : String) → member d rest ≡ true
      → Reaches g d h
  unfolding member
  leads_tail [] h c d i = ground (arith, i)
  leads_tail (u ∷ rest) h (e, c) d i = leads u rest h e c d i

  Chain-tail : (h : String) (rest : List String) → Chain g (h ∷ rest) → Chain g rest
  Chain-tail h [] c = tt
  Chain-tail h (u ∷ rest) (e, c) = c

  -- The frame of `h` is left.
  Finished-removal :
      (visited rest : List String) (h : String)
      → Closed g visited [] h
      → Finished g visited (h ∷ rest)
      → Finished g visited rest
  unfolding member
  Finished-removal visited rest h t r n e m = elim (Bool-cases (h == n)) [
    | inl q ↦ subst (λ (k : String). Closed g visited [] k) ((eq_iff h n).0 q) t
    | inr q ↦ r n e (ground (arith, q, m))
  ]

  dependencies_case :
      (visited path stack : List String) (h : String)
      → IsSound g (searching visited path (h ∷ stack))
      → contains_key g h ≡ true
      → member h visited ≡ true
      → (d : String) → member d (dependency_names g h) ≡ true
      → contains_key g d ≡ true
      → member d visited ≡ true
  unfolding member
  dependencies_case visited path stack h (_, (_, (bottom _, (t, (s, (c, (v, r))))))) x n d e y =
      ground (arith, r h n refl d e y)
  dependencies_case visited path stack h (_, (_, (waits (_, m) f, (t, (s, (c, (v, r))))))) x n d e
        y =
      ground (arith, r h n m d e y)
  dependencies_case visited path stack h (_, (_, (active_frame _ u f, (t, (s, (c, (v, r))))))) x n d
        e y =
      ground (arith, t d e y)

  -- The existing dependencies of a head that was visited are visited.
  pub removal_dependencies :
      (s : Search) (stack : List String) (h : String)
      → s.stack ≡ h ∷ stack
      → IsSound g s
      → contains_key g h ≡ true
      → member h s.visited ≡ true
      → (d : String) → member d (dependency_names g h) ≡ true
      → contains_key g d ≡ true
      → member d s.visited ≡ true
  removal_dependencies s stack h q k = dependencies_case s.visited s.path stack h (rw q at k)

  module _ (visited path stack : List String) (h : String) where
    -- The head was visited, and its frame is closed or it waited twice.
    removal_round :
        IsSound g (searching visited path (h ∷ stack))
        → contains_key g h ≡ true
        → member h visited ≡ true
        → OutcomeIsSound g
            (push_dependencies (searching visited (pop path) stack) (dependency_names g h))
    unfolding member Edge
    removal_round (_, (_, (bottom _, (t, (s, (c, (v, r))))))) x n =
        removal-IsSound g visited (pop path) [] h stack stack (dependency_names g h)
          (Sub-pop_left s) tt tt r (All-member (Edge g h) (dependency_names g h) (λ d e. e))
          (All-member (λ d. contains_key g d ≡ true → member d visited ≡ true)
            (dependency_names g h)
            (dependencies_case visited path stack h
              (h ∷ stack, ([], (bottom (h ∷ stack), (t, (s, (c, (v, r))))))) x n))
          (λ d e. ground (arith, e)) tt (bottom stack)
    removal_round
          (
            _,
            (
              _,
              (
                waits {waiting = waiting} {active = rest} {t = u} (inl e, m) f,
                (t, (s, (c, (v, r)))),
              ),
            ),
          )
          x n =
        removal-IsSound g visited (pop path) (u ∷ rest) h waiting stack (dependency_names g h)
          (Sub-pop_left s) c v r (All-member (Edge g h) (dependency_names g h) (λ d e. e))
          (All-member (λ d. contains_key g d ≡ true → member d visited ≡ true)
            (dependency_names g h) (λ d b y. ground (arith, r h n m d b y)))
          (leads u rest h e c) (ClosedTop-pop g visited waiting (u ∷ rest) h (λ y. n) t) f
    removal_round (_, (_, (waits (inr y, m) f, _))) x n = ground (arith, x, y)
    removal_round
          (_, (_, (active_frame {waiting = waiting} {active = rest} y u f, (t, (s, (c, (v, r)))))))
          x n =
        removal-IsSound g visited (pop path) rest h waiting stack (dependency_names g h) (Sub-pop s)
          (Chain-tail h rest c) v.1 (Finished-removal visited rest h t r)
          (All-member (Edge g h) (dependency_names g h) (λ d e. e))
          (All-member (λ d. contains_key g d ≡ true → member d visited ≡ true)
            (dependency_names g h) (λ d e z. ground (arith, t d e z)))
          (leads_tail rest h c) u f

  -- A round keeps what holds between rounds, and what it finds is on a cycle.
  pub round-IsSound :
      (s : Search) (h : String) (stack : List String)
      → s.stack ≡ h ∷ stack
      → IsSound g s
      → OutcomeIsSound g (round g s h)
  unfolding round visit_or_pop
  round-IsSound s h stack q k =
      let k' : IsSound g (searching s.visited s.path (h ∷ stack)) = rw q at k in
      elim (Option-cases (get g h)) [
        | inl e ↦
            rw (e, round, q) (missing_round s.visited s.path stack h k' (rw (e, contains_key) refl))
        | inr (w, e) ↦ elim (Bool-cases (member h s.visited)) [
          | inl n ↦
              rw (e, round, n, visit_or_pop, q)
                (rw (names_lem h w e) at
                  (removal_round s.visited s.path stack h k' (contains_lem h w e) n))
          | inr n ↦
              rw (e, round, n, visit_or_pop, q)
                (rw (names_lem h w e) at
                  (visit_round s.visited s.path stack h k' (contains_lem h w e) n))
        ]
      ]
