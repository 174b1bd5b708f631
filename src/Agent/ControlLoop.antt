-- ===== src/Agent/ControlLoop.antt =====
-- The control loop of a workload: agent/src/workload/workload_control_loop.rs and
-- control_loop_state.rs. Each pass handles one event; what the runtime and the file system answer
-- within the pass is given beside it, and what the loop asks them to do is a list of effects.
pub mod Passes
pub mod Runs
pub mod Tokens
use Prim.Native.Nat.{zero, suc}
use Prim.Native.String.{◌++◌ as ◌<>◌}
use ankaios.Prelude.{
  ℕ, ◌+◌, ◌/◌, ◌%◌, ◌^◌, ltb, String, Bool, true, false, ◌&&◌, ◌||◌, if◌then◌else◌, List, [], ◌∷◌,
  ◌++◌, Option, none, some, get_or, get_elem?,
}
use ankaios.Api.Execution.{
  ExecutionState, pending, starting, starting_failed, stopping, delete_failed,
  state_stopping_requested, state_removed, is_succeeded, is_failed,
}
use ankaios.Api.Instance.{InstanceName, instance_eq}
use ankaios.Api.StatesMap.{WorkloadState}
use ankaios.Api.Workload.{WorkloadNamed, RestartPolicy, never, on_failure, always}
use ankaios.Agent.Retry.{RetryManager, RetryToken, invalidate, new_token, is_valid}

abbrev digit : ℕ → String
digit n = get_or "" (get_elem? ("0" ∷ "1" ∷ "2" ∷ "3" ∷ "4" ∷ "5" ∷ "6" ∷ "7" ∷ "8" ∷ "9" ∷ []) n)

-- A `u32` has at most ten digits.
unfoldable pub decimal_from : ℕ → ℕ → String → String
decimal_from zero n behind = behind
decimal_from (suc fuel) n behind =
    let longer = decimal_from fuel (n / 10) (digit (n % 10) <> behind) in
    if ltb n 10 then digit n <> behind else longer

abbrev pub decimal : ℕ → String
decimal n = decimal_from 10 n ""

-- `starting_failed`, `retry_starting`, `delete_failed` and `starting_triggered`.
abbrev pub state_starting_failed : String → ExecutionState
state_starting_failed message = record {
  state = pending starting_failed;
  additional_info = message;
}

abbrev pub state_retry_starting : ℕ → String → ExecutionState
state_retry_starting retry_count message = record {
  state = pending starting;
  additional_info = "Retry " <> (decimal retry_count <> (": " <> message));
}

abbrev pub state_delete_failed : String → ExecutionState
state_delete_failed message = record { state = stopping delete_failed; additional_info = message }

abbrev pub state_starting_triggered : ExecutionState
state_starting_triggered = record {
  state = pending starting;
  additional_info = "Triggered at runtime.";
}

unfoldable pub restart_policy_matches_execution_state : RestartPolicy → ExecutionState → Bool
restart_policy_matches_execution_state never s = false
restart_policy_matches_execution_state on_failure s = is_failed s
restart_policy_matches_execution_state always s = is_failed s || is_succeeded s

-- The runtime's ids of workloads and its state checkers.
module _ (WorkloadId StChecker : Type 0) where
  pub record LoopState : Type 0 where
    pub workload_named : WorkloadNamed
    pub control_interface_path : Option String
    pub workload_id : Option WorkloadId
    pub state_checker : Option StChecker
    pub retry_manager : RetryManager

  abbrev pub instance_name : LoopState → InstanceName
  instance_name s = s.workload_named.instance_name

  -- The runtime's answer to the creation of a workload.
  pub data CreateAnswer : Type 0 where
    created : WorkloadId → StChecker → CreateAnswer
    unsupported : String → CreateAnswer
    create_error : String → CreateAnswer

  -- The answers within one pass: the error of a deletion, the error of the creation of the
  -- workload's files, the result of a creation, and for a resumed workload its id and its checker.
  pub record Answers : Type 0 where
    pub delete_error : Option String
    pub files_error : Option String
    pub create_answer : CreateAnswer
    pub found_id : Option WorkloadId
    pub started_checker : Option StChecker

  pub data Command : Type 0 where
    delete : Command
    update : Option WorkloadNamed → Option String → Command
    retry : InstanceName → RetryToken → Command
    create : Command
    resume : Command
    start_log_fetcher : Command

  pub data Event : Type 0 where
    state_received : WorkloadState → Event
    command_received : Command → Event
    commands_closed : Event

  -- `start_retry` hands a token to the task that sends it back after the backoff.
  pub data Effect : Type 0 where
    report : InstanceName → ExecutionState → Effect
    ask_delete : WorkloadId → Effect
    ask_create : WorkloadNamed → Option WorkloadId → Option String → Effect
    ask_id : InstanceName → Effect
    ask_checker : WorkloadId → Effect
    ask_log_fetcher : WorkloadId → Effect
    stop_checker : StChecker → Effect
    start_retry : InstanceName → RetryToken → Effect
    write_files : InstanceName → Effect
    delete_files : InstanceName → Effect
    delete_pipes : InstanceName → Effect

  abbrev pub Pass : Type 0
  Pass = LoopState × List Effect

  -- What is done before a pass.
  abbrev pub behind : List Effect → Pass → Pass
  behind before (s, effects) = (s, before ++ effects)

  abbrev pub stop_checkers : Option StChecker → List Effect
  stop_checkers none = []
  stop_checkers (some c) = stop_checker c ∷ []

  unfoldable pub send_retry_for_workload : LoopState → InstanceName → RetryToken → String → Pass
  send_retry_for_workload s name token error_msg = (
    record s { workload_id = none; state_checker = none },
    report name (state_retry_starting ((token.counter + 1) % 2 ^ 32) error_msg)
        ∷ (start_retry name token ∷ []),
  )

  -- The error of the creation of the files, if any.
  unfoldable pub handle_mount_point_creation : LoopState → Answers → Option String × List Effect
  handle_mount_point_creation s a = elim s.workload_named.workload.files [
    | [] ↦ (none, [])
    | _ ∷ _ ↦ elim a.files_error [
      | none ↦ (none, write_files (instance_name s) ∷ [])
      | some e ↦ (
        some e,
        write_files (instance_name s)
            ∷ (delete_files (instance_name s)
                ∷ (report (instance_name s) (state_starting_failed e) ∷ [])),
      )
    ]
  ]

  -- The arms for the runtime's answer.
  unfoldable pub handle_create_answer : LoopState → RetryToken → CreateAnswer → Pass
  handle_create_answer s token (created new_workload_id new_state_checker) =
      (record s { workload_id = some new_workload_id; state_checker = some new_state_checker }, [])
  handle_create_answer s token (unsupported message) = (
    s,
    delete_files (instance_name s)
        ∷ (report (instance_name s) (state_starting_failed message) ∷ []),
  )
  handle_create_answer s token (create_error message) =
      behind (delete_files (instance_name s) ∷ [])
        (send_retry_for_workload s (instance_name s) token message)

  unfoldable pub create_workload_on_runtime : LoopState → RetryToken → Answers → Pass
  create_workload_on_runtime s token a =
      let (files_error, effects) = handle_mount_point_creation s a in
      elim files_error [
        | some e ↦ (s, effects)
        | none ↦
            behind
              (effects ++ ask_create s.workload_named s.workload_id s.control_interface_path ∷ [])
              (handle_create_answer s token a.create_answer)
      ]

  -- A new token, and the creation with it.
  unfoldable pub create_with_new_token : LoopState → Answers → Pass
  create_with_new_token s a =
      let (retry_manager, token) = new_token s.retry_manager in
      behind (report (instance_name s) state_starting_triggered ∷ [])
        (create_workload_on_runtime (record s { retry_manager = retry_manager }) token a)

  -- Behind a deletion that the runtime has done or that was not needed.
  unfoldable pub finish_delete : LoopState → List Effect
  finish_delete s = delete_pipes (instance_name s) ∷ (report (instance_name s) state_removed ∷ [])

  unfoldable pub delete_workload_on_runtime : LoopState → Answers → Option LoopState × List Effect
  delete_workload_on_runtime s a =
      let requested = report (instance_name s) state_stopping_requested in
      elim s.workload_id [
        | none ↦ (none, requested ∷ finish_delete s)
        | some old_id ↦ elim a.delete_error [
          | some e ↦ (
            some s,
            requested
                ∷ (ask_delete old_id ∷ (report (instance_name s) (state_delete_failed e) ∷ [])),
          )
          | none ↦ (
            none,
            requested ∷ (ask_delete old_id ∷ (stop_checkers s.state_checker ++ finish_delete s)),
          )
        ]
      ]

  -- The pipes of a workload with another instance name are deleted.
  abbrev pub delete_other_pipes : LoopState → Option WorkloadNamed → List Effect
  delete_other_pipes s none = []
  delete_other_pipes s (some new_named) =
      if instance_eq (instance_name s) new_named.instance_name
      then []
      else delete_pipes (instance_name s) ∷ []

  -- The creation of the new workload, if any.
  unfoldable pub create_updated : LoopState → Option WorkloadNamed → Option String → Answers → Pass
  create_updated s none path a = (s, [])
  create_updated s (some named) path a =
      create_with_new_token (record s { workload_named = named; control_interface_path = path }) a

  -- Behind the deletion of the old workload.
  unfoldable pub finish_update : LoopState → Option WorkloadNamed → Option String → Answers → Pass
  finish_update s new_workload_named path a =
      behind
        (delete_files (instance_name s)
          ∷ (delete_other_pipes s new_workload_named
              ++ report (instance_name s) state_removed ∷ []))
        (create_updated s new_workload_named path a)

  unfoldable pub update_workload_on_runtime :
      LoopState → Option WorkloadNamed → Option String → Answers → Pass
  update_workload_on_runtime s new_workload_named path a =
      let requested = report (instance_name s) state_stopping_requested in
      elim s.workload_id [
        | none ↦ behind (requested ∷ []) (finish_update s new_workload_named path a)
        | some old_id ↦ elim a.delete_error [
          | some e ↦ (
            s,
            requested
                ∷ (ask_delete old_id ∷ (report (instance_name s) (state_delete_failed e) ∷ [])),
          )
          | none ↦ behind (requested ∷ (ask_delete old_id ∷ stop_checkers s.state_checker)) (
              finish_update (record s { workload_id = none; state_checker = none })
                new_workload_named path a)
        ]
      ]

  unfoldable pub restart_workload_with_bundle_reuse :
      LoopState → Option WorkloadNamed → Option String → Answers → Pass
  restart_workload_with_bundle_reuse s new_workload_named path a =
      behind (stop_checkers s.state_checker ++ delete_other_pipes s new_workload_named)
        (create_updated (record s { state_checker = none }) new_workload_named path a)

  abbrev pub is_some : Option WorkloadId → Bool
  is_some none = false
  is_some (some i) = true

  unfoldable pub restart_workload_on_runtime : LoopState → ExecutionState → Answers → Pass
  restart_workload_on_runtime s execution_state a =
      if is_succeeded execution_state && is_some s.workload_id
      then restart_workload_with_bundle_reuse s (some s.workload_named) s.control_interface_path a
      else update_workload_on_runtime s (some s.workload_named) s.control_interface_path a

  unfoldable pub retry_create_workload_on_runtime : LoopState → RetryToken → Answers → Pass
  retry_create_workload_on_runtime s token a =
      if is_valid s.retry_manager token then create_workload_on_runtime s token a else (s, [])

  unfoldable pub resume_workload_on_runtime : LoopState → Answers → Pass
  resume_workload_on_runtime s a = elim a.found_id [
    | none ↦ (record s { workload_id = none; state_checker = none }, ask_id (instance_name s) ∷ [])
    | some i ↦ (
      record s { workload_id = some i; state_checker = a.started_checker },
      ask_id (instance_name s) ∷ (ask_checker i ∷ []),
    )
  ]

  abbrev pub create_log_fetcher : LoopState → List Effect
  create_log_fetcher s = elim s.workload_id [ none ↦ [] | some i ↦ ask_log_fetcher i ∷ [] ]

  unfoldable pub handle_state : LoopState → WorkloadState → Answers → Pass
  handle_state s w a =
      if instance_eq (instance_name s) w.instance_name
      then behind (report w.instance_name w.execution_state ∷ []) (
          if restart_policy_matches_execution_state s.workload_named.workload.restart_policy
            w.execution_state
          then restart_workload_on_runtime s w.execution_state a
          else (s, []))
      else (s, [])

  abbrev pub invalidated : LoopState → LoopState
  invalidated s = record s { retry_manager = invalidate s.retry_manager }

  abbrev pub goes_on : Pass → Option LoopState × List Effect
  goes_on (s, effects) = (some s, effects)

  unfoldable pub handle_command : LoopState → Command → Answers → Option LoopState × List Effect
  handle_command s delete a = delete_workload_on_runtime (invalidated s) a
  handle_command s (update new_workload_named path) a =
      goes_on (update_workload_on_runtime (invalidated s) new_workload_named path a)
  handle_command s (retry name token) a = goes_on (retry_create_workload_on_runtime s token a)
  handle_command s create a = goes_on (create_with_new_token s a)
  handle_command s resume a = goes_on (resume_workload_on_runtime s a)
  handle_command s start_log_fetcher a = goes_on (s, create_log_fetcher s)

  -- One pass of the loop; nothing is left of the state when the loop returns.
  unfoldable pub handle_event : LoopState → Event → Answers → Option LoopState × List Effect
  handle_event s (state_received w) a = goes_on (handle_state s w a)
  handle_event s (command_received c) a = handle_command s c a
  handle_event s commands_closed a = (none, [])

  unfoldable pub run : LoopState → List (Event × Answers) → Option LoopState × List Effect
  run s [] = (some s, [])
  run s ((event, a) ∷ events) =
      let pass = handle_event s event a in
      elim pass.0 [ none ↦ pass | some next ↦ ((run next events).0, pass.1 ++ (run next events).1) ]
