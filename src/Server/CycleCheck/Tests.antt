-- ===== src/Server/CycleCheck/Tests.antt =====
-- A graph with a cycle that is missed.
use ankaios.Prelude.{String, List, [], ◌∷◌, Map, ◌≡◌, refl, none, get, member, insert_sorted, sort}
use ankaios.Prelude.{◌≢◌, some}
use ankaios.Api.Workload.{WorkloadSpec, AddCondition, add_cond_running, never}
use ankaios.Server.CycleCheck.Graph.{
  Reaches, out_of_fuel, cycle_at, no_cycle, push_dependencies, visit_or_pop, round, search,
  visit_all, dependency_names, weight, weights, costs, enough_fuel, dfs,
}
use ankaios.Server.CycleCheck.Soundness.{dfs-Reaches}
use ankaios.Server.CycleCheck.Termination.{dfs-Completes}

abbrev depends_on : Map AddCondition → WorkloadSpec
depends_on dependencies = record {
  agent = "a";
  tags = [];
  dependencies = dependencies;
  restart_policy = never;
  runtime = "podman";
  runtime_config = "";
  files = [];
  configs = [];
  control_interface_access = record { allow_rules = []; deny_rules = [] };
}

abbrev on : List String → Map AddCondition
on [] = []
on (d ∷ ds) = (d, add_cond_running) ∷ on ds

abbrev missed : Map WorkloadSpec
missed =
    ("a", depends_on (on ("d" ∷ "x" ∷ "y" ∷ [])))
    ∷ ("d", depends_on (on ("a" ∷ [])))
    ∷ ("x", depends_on [])
    ∷ ("y", depends_on (on ("x" ∷ [])))
    ∷ []

abbrev cyclic : Map WorkloadSpec
cyclic =
    ("a", depends_on (on ("b" ∷ "c" ∷ []))) ∷ ("b", depends_on (on ("a" ∷ "missing" ∷ []))) ∷ []

program : Unit {0}
unfolding get member insert_sorted sort push_dependencies visit_or_pop round search visit_all
    dependency_names weight weights costs enough_fuel dfs
program = tt

finds_cycle : dfs cyclic none ≡ cycle_at "a"
unfolding program
finds_cycle = refl

-- `a` and `d` depend on each other. `x` is on the stack twice, and its second removal takes `a` from
-- the path.
misses_cycle : dfs missed none ≡ no_cycle
unfolding program
misses_cycle = refl

dfs-Reaches_example : Reaches cyclic "a" "a"
unfolding program
dfs-Reaches_example = dfs-Reaches cyclic none "a" refl

dfs-Completes_example : dfs missed (some ("y" ∷ "a" ∷ [])) ≢ out_of_fuel
dfs-Completes_example = dfs-Completes missed (some ("y" ∷ "a" ∷ []))
