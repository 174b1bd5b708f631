-- ===== src/Server/CycleCheck/Graph.antt =====
-- The search of server/src/ankaios_server/cycle_check.rs, and the graph that it goes through. A deque
-- is a list with its front first for the stack, and with its back first for the path.
use Prim.Native.Nat.{zero, suc, ◌+◌}
use ankaios.Prelude.{
  ℕ, String, ◌≡◌, true, false, List, [], ◌∷◌, Option, none, some, Map, get, keys, member, length,
  sort, if◌then◌else◌,
}
use ankaios.Api.Workload.{WorkloadSpec}

pub record Search : Type 0 where
  pub stack : List String
  pub visited : List String
  pub path : List String

-- A loop either returns the cycle's workload or ends with its state.
pub data Outcome : Type 0 where
  found : String → Outcome
  ended : Search → Outcome

pub data DfsResult : Type 0 where
  cycle_at : String → DfsResult
  no_cycle out_of_fuel : DfsResult

abbrev pub pop {ℓ} : {A : Type ℓ} → List A → List A
pop [] = []
pop (x ∷ xs) = xs

-- The loop over the dependencies of the head.
unfoldable pub push_dependencies : Search → List String → Outcome
push_dependencies s [] = ended s
push_dependencies s (d ∷ ds) = elim (member d s.visited) [
  | false ↦ push_dependencies (record s { stack = d ∷ s.stack }) ds
  | true ↦ elim (member d s.path) [ true ↦ found d | false ↦ push_dependencies s ds ]
]

unfoldable pub visit_or_pop : Search → String → Search
visit_or_pop s head = elim (member head s.visited) [
  | false ↦ record s { visited = head ∷ s.visited; path = head ∷ s.path }
  | true ↦ record s { path = pop s.path; stack = pop s.stack }
]

module _ (workloads : Map WorkloadSpec) where
  -- One round of `while let Some(head) = stack.front()`.
  unfoldable pub round : Search → String → Outcome
  round s head = elim (get workloads head) [
    | some workload ↦ push_dependencies (visit_or_pop s head) (sort (keys workload.dependencies))
    | none ↦ ended (record s { stack = pop s.stack })
  ]

  -- The whole loop; nothing if the rounds do not suffice.
  unfoldable pub search : ℕ → Search → Option Outcome
  search zero s = elim s.stack [ [] ↦ some (ended s) | head ∷ stack ↦ none ]
  search (suc fuel) s = elim s.stack [
    | [] ↦ some (ended s)
    | head ∷ stack ↦ elim (round s head) [ found d ↦ some (found d) | ended s' ↦ search fuel s' ]
  ]

  unfoldable pub visit_all : ℕ → Search → List String → DfsResult
  visit_all fuel s [] = no_cycle
  visit_all fuel s (w ∷ ws) = elim (member w s.visited) [
    | true ↦ visit_all fuel s ws
    | false ↦ elim (search fuel (record s { stack = w ∷ s.stack })) [
      | none ↦ out_of_fuel
      | some (found d) ↦ cycle_at d
      | some (ended s') ↦ visit_all fuel s' ws
    ]
  ]

  unfoldable pub dependency_names : String → List String
  dependency_names n = elim (get workloads n) [
    | none ↦ []
    | some workload ↦ sort (keys workload.dependencies)
  ]

  -- A workload on the stack is popped once, and pushes its missing dependencies then.
  unfoldable pub weight : String → ℕ
  weight n = suc (length (dependency_names n))

  unfoldable pub weights : List String → ℕ
  weights [] = 0
  weights (n ∷ ns) = weight n + weights ns

  -- A workload is visited once, and pushes dependencies then.
  unfoldable pub costs : List String → List String → ℕ
  costs visited [] = 0
  costs visited (n ∷ ns) =
      let rest = costs visited ns in
      if member n visited then rest else suc (weights (dependency_names n)) + rest

  unfoldable pub enough_fuel : List String → ℕ
  enough_fuel starts = weights starts + costs [] (keys workloads)

  abbrev pub new_search : Search
  new_search = record { stack = []; visited = []; path = [] }

  abbrev pub workloads_to_visit : Option (List String) → List String
  workloads_to_visit (some nodes) = sort nodes
  workloads_to_visit none = sort (keys workloads)

  unfoldable pub dfs : Option (List String) → DfsResult
  dfs start_nodes =
      let starts = workloads_to_visit start_nodes in
      visit_all (enough_fuel starts) new_search starts

  -- `n` depends on `d`, and `a` on `b` by one or more steps.
  unfoldable pub Edge : String → String → Type 0
  Edge n d = member d (dependency_names n) ≡ true

  pub data Reaches : String → String → Type 0 where
    step : {a b : String} → Edge a b → Reaches a b
    via : {a b c : String} → Edge a b → Reaches b c → Reaches a c

  pub Reaches-trans : (a b c : String) → Reaches a b → Reaches b c → Reaches a c
  Reaches-trans a b c (step e) q = via e q
  Reaches-trans a b c (via e p) q = via e (Reaches-trans _ b c p q)
