-- ===== src/Server/CycleCheck/Frames.antt =====
-- What holds between the rounds of the search: the stack is made of frames, one for each workload
-- whose dependencies are being visited, with the workload's dependencies that still wait above it.
use ankaios.Prelude.{
  String, ◌≡◌, ◌⊎◌, true, false, ◌||◌, List, [], ◌∷◌, Map, contains_key, member, arith, eq_iff,
}
use ankaios.Api.Workload.{WorkloadSpec}
use ankaios.Server.CycleCheck.Graph.{pop, Edge, dependency_names}

module _ (g : Map WorkloadSpec) where
  -- The existing dependencies of `n` are visited or wait.
  abbrev pub Closed : List String → List String → String → Type 0
  Closed visited waiting n =
      (d : String)
      → member d (dependency_names g n) ≡ true
      → contains_key g d ≡ true
      → (member d visited || member d waiting) ≡ true

  abbrev pub ClosedTop : List String → List String → List String → Type 0
  ClosedTop visited waiting [] = Unit
  ClosedTop visited waiting (t ∷ active) = Closed visited waiting t

  -- A dependency that waits in the frame of `t`, the first of the active workloads.
  abbrev pub Waits : String → List String → String → Type 0
  Waits t active d = (Edge g t d ⊎ contains_key g d ≡ false) × (member d (t ∷ active) ≡ false)

  -- The top frame's waiting dependencies, the stack and the active workloads, the innermost first.
  pub data Frames (visited : List String) : List String → List String → List String → Type 0 where
    bottom : (stack : List String) → Frames visited stack stack []
    waits :
        {waiting stack active : List String} {t d : String}
        → Waits t active d
        → Frames visited waiting stack (t ∷ active)
        → Frames visited (d ∷ waiting) (d ∷ stack) (t ∷ active)
    active_frame :
        {waiting stack active : List String} {t : String}
        → contains_key g t ≡ true
        → ClosedTop visited waiting active
        → Frames visited waiting stack active
        → Frames visited [] (t ∷ stack) (t ∷ active)

  -- Each active workload depends on the next inner one.
  abbrev pub Chain : List String → Type 0
  Chain [] = Unit
  Chain (t ∷ []) = Unit
  Chain (t ∷ u ∷ active) = Edge g u t × Chain (u ∷ active)

-- The path is the active workloads, less some of them.
pub data Sub : List String → List String → Type 0 where
  sub_nil : {ys : List String} → Sub [] ys
  sub_keep : {x : String} {xs ys : List String} → Sub xs ys → Sub (x ∷ xs) (x ∷ ys)
  sub_skip : {y : String} {xs ys : List String} → Sub xs ys → Sub xs (y ∷ ys)

pub Sub-pop_left : {xs ys : List String} → Sub xs ys → Sub (pop xs) ys
Sub-pop_left sub_nil = sub_nil
Sub-pop_left (sub_keep s) = sub_skip s
Sub-pop_left (sub_skip s) = sub_skip (Sub-pop_left s)

pub Sub-pop : {y : String} {xs ys : List String} → Sub xs (y ∷ ys) → Sub (pop xs) ys
Sub-pop sub_nil = sub_nil
Sub-pop (sub_keep s) = s
Sub-pop (sub_skip s) = Sub-pop_left s

pub member-Sub :
    {xs ys : List String} (a : String) → Sub xs ys → member a xs ≡ true → member a ys ≡ true
unfolding member
member-Sub a sub_nil h = ground arith
member-Sub a (sub_keep s) h = ground (arith, member-Sub a s)
member-Sub a (sub_skip s) h = ground (arith, member-Sub a s h)

module _ (g : Map WorkloadSpec) where
  pub Closed-visited :
      (visited waiting : List String) (h n : String)
      → Closed g visited waiting n
      → Closed g (h ∷ visited) waiting n
  unfolding member
  Closed-visited visited waiting h n c = λ d e x. ground (arith, c d e x)

  ClosedTop-visited :
      (visited waiting active : List String) (h : String)
      → ClosedTop g visited waiting active
      → ClosedTop g (h ∷ visited) waiting active
  ClosedTop-visited visited waiting [] h c = tt
  ClosedTop-visited visited waiting (t ∷ active) h c = Closed-visited visited waiting h t c

  -- The head is visited, and waits no longer.
  pub ClosedTop-visit :
      (visited waiting active : List String) (h : String)
      → ClosedTop g visited (h ∷ waiting) active
      → ClosedTop g (h ∷ visited) waiting active
  unfolding member
  ClosedTop-visit visited waiting [] h c = tt
  ClosedTop-visit visited waiting (t ∷ active) h c = λ d e x. ground (arith, c d e x)

  -- The head was visited before, and waits no longer.
  pub ClosedTop-pop :
      (visited waiting active : List String) (h : String)
      → (contains_key g h ≡ true → member h visited ≡ true)
      → ClosedTop g visited (h ∷ waiting) active
      → ClosedTop g visited waiting active
  unfolding member
  ClosedTop-pop visited waiting [] h v c = tt
  ClosedTop-pop visited waiting (t ∷ active) h v c = λ d e x. ground (arith, c d e x, eq_iff h d)

  pub ClosedTop-push :
      (visited waiting active : List String) (h : String)
      → ClosedTop g visited waiting active
      → ClosedTop g visited (h ∷ waiting) active
  unfolding member
  ClosedTop-push visited waiting [] h c = tt
  ClosedTop-push visited waiting (t ∷ active) h c = λ d e x. ground (arith, c d e x)

  pub Frames-visited :
      {visited waiting stack active : List String} (h : String)
      → Frames g visited waiting stack active
      → Frames g (h ∷ visited) waiting stack active
  Frames-visited h (bottom stack) = bottom stack
  Frames-visited h (waits w f) = waits w (Frames-visited h f)
  Frames-visited {visited} h (active_frame {waiting} {stack} {active} e c f) =
      active_frame e (ClosedTop-visited visited waiting active h c) (Frames-visited h f)
