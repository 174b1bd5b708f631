-- ===== src/Agent/LoopTests.antt =====
-- Passes of the control loop of a workload, and the theorems at these inputs.
use ankaios.Prelude.{ℕ, String, ◌≡◌, refl, true, false, arith, [], ◌∷◌, none, some}
use ankaios.Api.Execution.{is_failed, is_succeeded, state_stopping_requested, state_succeeded}
use ankaios.Api.Instance.{InstanceName, instance_eq}
use ankaios.Api.Workload.{WorkloadNamed, always}
use ankaios.Agent.Retry.{RetryToken, invalidate, new_token, is_valid}
use ankaios.Agent.ControlLoop.{
  decimal_from, state_starting_triggered, state_retry_starting, state_delete_failed,
  restart_policy_matches_execution_state, LoopState, CreateAnswer, created, unsupported,
  create_error, Answers, delete, update, retry, create, Event, state_received, command_received,
  report, ask_create, ask_delete, start_retry, delete_files, Pass, goes_on, send_retry_for_workload,
  handle_mount_point_creation, handle_create_answer, create_workload_on_runtime,
  create_with_new_token, finish_delete, delete_workload_on_runtime, create_updated, finish_update,
  update_workload_on_runtime, restart_workload_with_bundle_reuse, restart_workload_on_runtime,
  retry_create_workload_on_runtime, handle_state, handle_command, handle_event, run,
}
use ankaios.Agent.ControlLoop.Passes.{Settled, handle_event-Settled}
use ankaios.Agent.ControlLoop.Tokens.{initial_state, outdated-retry}
use ankaios.Agent.Tests.{plain}

program : Unit {0}
unfolding instance_eq is_failed is_succeeded invalidate new_token is_valid decimal_from
    restart_policy_matches_execution_state send_retry_for_workload handle_mount_point_creation
    handle_create_answer create_workload_on_runtime create_with_new_token finish_delete
    delete_workload_on_runtime create_updated finish_update update_workload_on_runtime
    restart_workload_with_bundle_reuse restart_workload_on_runtime retry_create_workload_on_runtime
    handle_state handle_command handle_event run
program = tt

abbrev web_name : InstanceName
web_name = record { workload_name = "web"; agent_name = "a"; id = "1" }

abbrev web : WorkloadNamed
web = record { instance_name = web_name; workload = record plain { restart_policy = always } }

abbrev answers : CreateAnswer String String → Answers String String
answers answer = record {
  delete_error = none;
  files_error = none;
  create_answer = answer;
  found_id = none;
  started_checker = none;
}

abbrev token : ℕ → ℕ → RetryToken
token counter valid = record { counter = counter; valid = valid }

abbrev start : LoopState String String
start = initial_state String String web none

abbrev no_creation : LoopState String String
no_creation = record start {
  retry_manager = record { channels = false ∷ true ∷ []; current_token_is_valid_sink = 1 };
}

abbrev event_create : Event String String
event_create = command_received create

abbrev event_update : Event String String
event_update = command_received (update (some web) none)

failed_creation_is_retried :
    handle_event String String start event_create (answers (create_error "boom")) ≡ (
      some no_creation,
      report web_name state_starting_triggered
          ∷ (ask_create web none none
              ∷ (delete_files web_name
                  ∷ (report web_name (state_retry_starting 1 "boom")
                      ∷ (start_retry web_name (token 0 1) ∷ [])))),
    )
unfolding program
failed_creation_is_retried = refl

retry_text : decimal_from 10 4096 "" ≡ "4096"
unfolding program
retry_text = refl

abbrev created_state : LoopState String String
created_state = record start {
  workload_id = some "id";
  state_checker = some "checker";
  retry_manager = record { channels = false ∷ false ∷ true ∷ []; current_token_is_valid_sink = 2 };
}

failed_deletion_can_be_repeated :
    (handle_event String String created_state
      (command_received delete)
      (record (answers (created "id" "checker")) { delete_error = some "busy" })).1
    ≡ report web_name state_stopping_requested
      ∷ (ask_delete "id" ∷ (report web_name (state_delete_failed "busy") ∷ []))
unfolding program
failed_deletion_can_be_repeated = refl

outdated-retry_example :
    handle_event String String created_state
      (command_received (retry web_name (token 1 1)))
      (answers (created "other" "checker"))
    ≡ (some created_state, [])
unfolding program
outdated-retry_example =
    outdated-retry String String web none ((event_create, answers (create_error "boom")) ∷ []) []
      event_update (answers (created "id" "checker")) (answers (created "other" "checker"))
      no_creation created_state created_state web_name (token 1 1) refl tt refl refl (omega arith)

abbrev finished : Event String String
finished = state_received (record { instance_name = web_name; execution_state = state_succeeded })

handle_event-Settled_example :
    (next : Pass String String) × (handle_event String String created_state finished
        (answers (unsupported "no"))
      ≡ goes_on String String next)
    × Settled String String next
unfolding program
handle_event-Settled_example =
    handle_event-Settled String String created_state finished (answers (unsupported "no"))
      (refl, refl)
