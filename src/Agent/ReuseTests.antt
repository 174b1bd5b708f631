-- ===== src/Agent/ReuseTests.antt =====
-- A start of the server while a runtime has workloads, and the theorems at this start.
use ankaios.Prelude.{
  String, ◌==◌, Bool, List, [], ◌∷◌, Option, none, some, get, insert, member, ◌≡◌, refl, ◌⊎◌, ◌+◌,
  true,
}
use ankaios.Api.Execution.{state_running, is_running, is_succeeded}
use ankaios.Api.Instance.{InstanceName, instance_eq}
use ankaios.Api.Workload.{WorkloadNamed}
use ankaios.Agent.Scheduler.{ReusableWorkload, Scheduler}
use ankaios.Agent.Progress.{is_handled}
use ankaios.Agent.Reuse.{
  ReusableWorkloadState, resume_workload, resume_replaced, delete_workload, per_runtime, take_named,
  take_added, is_resumable_workload, is_reusable_workload, needs_control_interface,
  default_workload, handle_needed, handle_unneeded, handle_existing, handle_all_existing,
  handle_runtimes, flatten, resume_and_remove_from_added_workloads, handle_server_hello,
}
use ankaios.Agent.Reuse.Kept.{count, count_new, count_resumed, resume_and_remove-counts}
use ankaios.Agent.Reuse.Hello.{resumes, handle_server_hello_handles}
use ankaios.Agent.Tests.{plain}

program : Unit {0}
unfolding get insert member is_running is_succeeded instance_eq per_runtime take_named take_added
    is_resumable_workload is_reusable_workload needs_control_interface handle_needed handle_unneeded
    handle_existing handle_all_existing handle_runtimes flatten
    resume_and_remove_from_added_workloads count count_new count_resumed
program = tt

abbrev instance : String → String → InstanceName
instance name id = record { workload_name = name; agent_name = "a"; id = id }

abbrev added_as : InstanceName → WorkloadNamed
added_as i = record { instance_name = i; workload = plain }

-- One workload goes on, one has changed, one is new, and one that exists is not needed.
abbrev added : List WorkloadNamed
added =
    added_as (instance "web" "1")
    ∷ added_as (instance "db" "2")
    ∷ added_as (instance "log" "3")
    ∷ []

abbrev found : String → String → ReusableWorkloadState
found name id = record {
  workload_state = record { instance_name = instance name id; execution_state = state_running };
  workload_id = some "x";
}

abbrev answers : List (String × Option (List ReusableWorkloadState))
answers =
    ("podman", some (found "web" "1" ∷ found "db" "1" ∷ found "old" "1" ∷ []))
    ∷ ("nerdctl", none)
    ∷ []

abbrev new_of : WorkloadNamed → ReusableWorkload
new_of w = record { workload_named = w; runtime_workload_id = none }

resumed_and_removed : resume_and_remove_from_added_workloads [] answers added ≡ record {
  workloads = "web" ∷ "db" ∷ [];
  added_workloads_per_runtime = ("podman", added_as (instance "log" "3") ∷ []) ∷ [];
  new_added_workloads =
      new_of (added_as (instance "db" "2")) ∷ new_of (added_as (instance "log" "3")) ∷ [];
  deleted_workloads = record { instance_name = instance "db" "1"; dependencies = [] } ∷ [];
  effects =
      resume_workload "podman" (added_as (instance "web" "1")) none
      ∷ resume_replaced "podman" (default_workload (instance "db" "1"))
      ∷ delete_workload "podman" (instance "old" "1")
      ∷ [];
}
unfolding program
resumed_and_removed = refl

abbrev is_web : WorkloadNamed → Bool
is_web w = w.instance_name.workload_name == "web"

resume_and_remove-counts_example :
    count is_web added
    ≡ count_resumed is_web (resume_and_remove_from_added_workloads [] answers added).effects
      + count_new is_web
          (resume_and_remove_from_added_workloads [] answers added).new_added_workloads
resume_and_remove-counts_example = resume_and_remove-counts is_web [] answers added

abbrev empty_queue : Scheduler
empty_queue = record { queue = []; reported = [] }

handle_server_hello_handles_example :
    (resumes
        (λ w. w.instance_name.workload_name == "db")
        (handle_server_hello [] [] empty_queue answers added).0.effects
      ≡ true)
    ⊎ (is_handled (handle_server_hello [] [] empty_queue answers added).1 "db" ≡ true)
handle_server_hello_handles_example =
    handle_server_hello_handles [] [] empty_queue answers added "db" tt refl
