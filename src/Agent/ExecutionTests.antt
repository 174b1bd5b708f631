-- ===== src/Agent/ExecutionTests.antt =====
-- A run of some operations, and the theorem at this run.
use ankaios.Prelude.{List, [], ◌∷◌, none, some, member, ◌≡◌, refl}
use ankaios.Api.Workload.{WorkloadNamed, DeletedWorkload}
use ankaios.Agent.Scheduler.{
  ReusableWorkload, WorkloadOperation, create, update, update_delete_only, delete,
}
use ankaios.Agent.Reuse.{needs_control_interface}
use ankaios.Agent.Execution.{
  Executed, create_on_runtime, create_unsupported, update_known, delete_known, report_removed,
  add_workload, delete_workload, update_workload, delete_only, execute_operation,
  execute_workload_operations,
}
use ankaios.Agent.Tests.{plain}

program : Unit {0}
unfolding member needs_control_interface add_workload delete_workload update_workload delete_only
    execute_operation execute_workload_operations
program = tt

abbrev web : WorkloadNamed
web = record {
  instance_name = record { workload_name = "web"; agent_name = "a"; id = "1" };
  workload = plain;
}

abbrev new_web : ReusableWorkload
new_web = record { workload_named = web; runtime_workload_id = none }

abbrev gone : DeletedWorkload
gone = record {
  instance_name = record { workload_name = "old"; agent_name = "a"; id = "0" };
  dependencies = [];
}

abbrev start : Executed
start = record { workloads = []; done = [] }

-- A workload whose runtime the agent does not have.
abbrev other : ReusableWorkload
other = record {
  workload_named = record {
    instance_name = record { workload_name = "log"; agent_name = "a"; id = "1" };
    workload = record plain { runtime = "nerdctl" };
  };
  runtime_workload_id = none;
}

abbrev gone_web : DeletedWorkload
gone_web = record { instance_name = web.instance_name; dependencies = [] }

-- A workload is created, updated, and deleted for an update. Another one is created, whose runtime the agent does
-- not have. One that is not known is reported as removed, and is not deleted for an update. The first is deleted.
abbrev operations : List WorkloadOperation
operations =
    create new_web
    ∷ update web gone
    ∷ update_delete_only gone_web
    ∷ create other
    ∷ delete gone
    ∷ update_delete_only gone
    ∷ delete gone_web
    ∷ []

executed : execute_workload_operations ("podman" ∷ []) start operations ≡ record {
  workloads = "log" ∷ [];
  done =
      create_on_runtime "podman" new_web none
      ∷ update_known "web" (some web) none
      ∷ update_known "web" none none
      ∷ create_unsupported other none
      ∷ report_removed gone.instance_name
      ∷ delete_known "web"
      ∷ [];
}
unfolding program
executed = refl
