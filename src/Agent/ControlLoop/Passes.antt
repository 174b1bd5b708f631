-- ===== src/Agent/ControlLoop/Passes.antt =====
-- What becomes of a workload that a pass of the control loop starts.
use ankaios.Prelude.{
  String, true, ◌&&◌, List, [], ◌∷◌, ◌++◌, Any, Any-append_right, Option, none, some, ◌≡◌, refl,
  ◌⊎◌, inl, inr, Bool-cases, Option-cases,
}
use ankaios.Api.Execution.{ExecutionState, state_removed, state_stopping_requested, is_succeeded}
use ankaios.Api.Instance.{InstanceName, instance_eq}
use ankaios.Api.Workload.{WorkloadNamed, FileSpec}
use ankaios.Agent.Retry.{RetryToken, invalidate, new_token, is_valid, value_at-length}
use ankaios.Agent.ControlLoop.{
  state_starting_triggered, ask_delete, delete_files, is_some, goes_on, state_starting_failed,
  state_delete_failed, restart_policy_matches_execution_state, LoopState, instance_name,
  CreateAnswer, created, unsupported, create_error, Answers, delete, update, retry, create, resume,
  start_log_fetcher, Event, state_received, command_received, commands_closed, Effect, report,
  start_retry, Pass, behind, stop_checkers, send_retry_for_workload, handle_mount_point_creation,
  handle_create_answer, create_workload_on_runtime, create_with_new_token, finish_update,
  create_updated, delete_other_pipes, update_workload_on_runtime,
  restart_workload_with_bundle_reuse, restart_workload_on_runtime, retry_create_workload_on_runtime,
  handle_state, invalidated, handle_command, handle_event,
}

module _ (WorkloadId StChecker : Type 0) where
  abbrev pub Reported : (String → ExecutionState) → List (Effect WorkloadId StChecker) → Type 0
  Reported state effects =
      (name : InstanceName) × (message : String) × Any (λ e. e ≡ report name (state message))
        effects

  -- The workload is created, or its failure is reported, or a valid retry is on its way.
  abbrev pub Settled : Pass WorkloadId StChecker → Type 0
  Settled (s, effects) =
      ((i : WorkloadId) × (c : StChecker) × (s.workload_id ≡ some i) × (s.state_checker ≡ some c))
      ⊎ (Reported state_starting_failed effects
          ⊎ (Reported state_delete_failed effects
              ⊎ ((name : InstanceName) × (token : RetryToken) × Any
                    (λ e. e ≡ start_retry name token) effects
                  × (is_valid s.retry_manager token ≡ true))))

  behind-Settled :
      (before : List (Effect WorkloadId StChecker)) (p : Pass WorkloadId StChecker)
      → Settled p
      → Settled (behind WorkloadId StChecker before p)
  behind-Settled before (s, effects) (inl h) = inl h
  behind-Settled before (s, effects) (inr (inl (n, m, a))) =
      inr (inl (n, m, Any-append_right _ before effects a))
  behind-Settled before (s, effects) (inr (inr (inl (n, m, a)))) =
      inr (inr (inl (n, m, Any-append_right _ before effects a)))
  behind-Settled before (s, effects) (inr (inr (inr (n, t, a, v)))) =
      inr (inr (inr (n, t, Any-append_right _ before effects a, v)))

  handle_create_answer-Settled :
      (s : LoopState WorkloadId StChecker) (token : RetryToken)
      (answer : CreateAnswer WorkloadId StChecker)
      → is_valid s.retry_manager token ≡ true
      → Settled (handle_create_answer WorkloadId StChecker s token answer)
  unfolding handle_create_answer send_retry_for_workload
  handle_create_answer-Settled s token (created i c) v = inl (i, c, refl, refl)
  handle_create_answer-Settled s token (unsupported message) v =
      inr (inl (instance_name WorkloadId StChecker s, message, inr (inl refl)))
  handle_create_answer-Settled s token (create_error message) v =
      inr (inr (inr (instance_name WorkloadId StChecker s, token, inr (inr (inl refl)), v)))

  -- Where the files are not written, nothing is created, and the failure is reported.
  mount_points-Reported :
      (s : LoopState WorkloadId StChecker) (a : Answers WorkloadId StChecker) (error : String)
      → (handle_mount_point_creation WorkloadId StChecker s a).0 ≡ some error
      → Reported state_starting_failed (handle_mount_point_creation WorkloadId StChecker s a).1
  unfolding handle_mount_point_creation
  mount_points-Reported s a error h = elim (files-cases s.workload_named.workload.files) [
    | inl e ↦ absurd (cc (rw (e, handle_mount_point_creation) at h))
    | inr (f, fs, e) ↦ elim (Option-cases a.files_error) [
      | inl g ↦ absurd (cc (rw (e, handle_mount_point_creation, g) at h))
      | inr (m, g) ↦
          rw (e, handle_mount_point_creation, g)
            (instance_name WorkloadId StChecker s, m, inr (inr (inl refl)))
    ]
  ]
    where
      files-cases :
          (xs : List FileSpec) → (xs ≡ []) ⊎ ((f : FileSpec) × (fs : List FileSpec) × (xs ≡ f ∷ fs))
      files-cases [] = inl refl
      files-cases (f ∷ fs) = inr (f, fs, refl)

  create-Settled :
      (s : LoopState WorkloadId StChecker) (token : RetryToken) (a : Answers WorkloadId StChecker)
      → is_valid s.retry_manager token ≡ true
      → Settled (create_workload_on_runtime WorkloadId StChecker s token a)
  unfolding create_workload_on_runtime
  create-Settled s token a v =
      let mounted = handle_mount_point_creation WorkloadId StChecker s a in
      elim (Option-cases mounted.0) [
        | inl e ↦
            rw (e, create_workload_on_runtime)
              (behind-Settled _ (handle_create_answer WorkloadId StChecker s token a.create_answer)
                (handle_create_answer-Settled s token a.create_answer v))
        | inr (m, e) ↦
            rw (e, create_workload_on_runtime) (inr (inl (mount_points-Reported s a m e)))
      ]

  create_with_new_token-Settled :
      (s : LoopState WorkloadId StChecker) (a : Answers WorkloadId StChecker)
      → Settled (create_with_new_token WorkloadId StChecker s a)
  unfolding create_with_new_token new_token is_valid
  create_with_new_token-Settled s a =
      let (retry_manager, token) = new_token s.retry_manager in
      let start = record s { retry_manager = retry_manager } in
      behind-Settled (report (instance_name WorkloadId StChecker s) state_starting_triggered ∷ [])
        (create_workload_on_runtime WorkloadId StChecker start token a)
        (create-Settled start token a (value_at-length (invalidate s.retry_manager).channels))

  finish_update-Settled :
      (s : LoopState WorkloadId StChecker) (named : WorkloadNamed) (path : Option String)
      (a : Answers WorkloadId StChecker)
      → Settled (finish_update WorkloadId StChecker s (some named) path a)
  unfolding finish_update create_updated
  finish_update-Settled s named path a =
      let next = record s { workload_named = named; control_interface_path = path } in
      behind-Settled
        (delete_files (instance_name WorkloadId StChecker s)
          ∷ (delete_other_pipes WorkloadId StChecker s (some named)
              ++ report (instance_name WorkloadId StChecker s) state_removed ∷ []))
        (create_with_new_token WorkloadId StChecker next a) (create_with_new_token-Settled next a)

  update-Settled :
      (s : LoopState WorkloadId StChecker) (named : WorkloadNamed) (path : Option String)
      (a : Answers WorkloadId StChecker)
      → Settled (update_workload_on_runtime WorkloadId StChecker s (some named) path a)
  unfolding update_workload_on_runtime
  update-Settled s named path a =
      let requested = report (instance_name WorkloadId StChecker s) state_stopping_requested ∷ [] in
      let gone = record s { workload_id = none; state_checker = none } in
      elim (Option-cases s.workload_id) [
        | inl e ↦
            rw (e, update_workload_on_runtime)
              (behind-Settled requested (finish_update WorkloadId StChecker s (some named) path a)
                (finish_update-Settled s named path a))
        | inr (i, e) ↦ elim (Option-cases a.delete_error) [
          | inl f ↦
              rw (e, update_workload_on_runtime, f)
                (behind-Settled
                  (report (instance_name WorkloadId StChecker s) state_stopping_requested
                    ∷ (ask_delete i ∷ stop_checkers WorkloadId StChecker s.state_checker))
                  (finish_update WorkloadId StChecker gone (some named) path a)
                  (finish_update-Settled gone named path a))
          | inr (m, f) ↦
              rw (e, update_workload_on_runtime, f)
                (inr (inr (inl (instance_name WorkloadId StChecker s, m, inr (inr (inl refl))))))
        ]
      ]

  restart-Settled :
      (s : LoopState WorkloadId StChecker) (execution_state : ExecutionState)
      (a : Answers WorkloadId StChecker)
      → Settled (restart_workload_on_runtime WorkloadId StChecker s execution_state a)
  unfolding restart_workload_on_runtime restart_workload_with_bundle_reuse create_updated
  restart-Settled s execution_state a =
      let name = instance_name WorkloadId StChecker s in
      let stopped = record s { state_checker = none } in
      elim (Bool-cases
        (is_succeeded execution_state && is_some WorkloadId StChecker s.workload_id)) [
          | inl e ↦
              rw (e, restart_workload_on_runtime)
                (behind-Settled
                  (stop_checkers WorkloadId StChecker s.state_checker
                    ++ delete_other_pipes WorkloadId StChecker s (some s.workload_named))
                  (create_with_new_token WorkloadId StChecker stopped a)
                  (create_with_new_token-Settled stopped a))
          | inr e ↦
              rw (e, restart_workload_on_runtime)
                (update-Settled s s.workload_named s.control_interface_path a)
        ]

  -- The passes that start a workload.
  abbrev pub Starts : LoopState WorkloadId StChecker → Event WorkloadId StChecker → Type 0
  Starts s (command_received create) = Unit
  Starts s (command_received (update (some named) path)) = Unit
  Starts s (command_received (retry name token)) = is_valid s.retry_manager token ≡ true
  Starts s (state_received w) =
      (instance_eq (instance_name WorkloadId StChecker s) w.instance_name ≡ true)
      × (restart_policy_matches_execution_state s.workload_named.workload.restart_policy
            w.execution_state
          ≡ true)
  Starts s _ = ⊥

  -- A pass that starts a workload goes on with the loop, and then the workload has an id and a state
  -- checker, or the failure of its creation or of the deletion before it is reported, or a retry
  -- with a valid token is started. A pass starts one for a creation, an update with a workload, a
  -- retry with a valid token, and a reported state of its workload that its restart policy matches.
  pub handle_event-Settled :
      (s : LoopState WorkloadId StChecker) (event : Event WorkloadId StChecker)
      (a : Answers WorkloadId StChecker)
      → Starts s event
      → (next : Pass WorkloadId StChecker) × (handle_event WorkloadId StChecker s event a
          ≡ goes_on WorkloadId StChecker next)
        × Settled next
  unfolding handle_event handle_command handle_state retry_create_workload_on_runtime
  handle_event-Settled s (command_received create) a h =
      (create_with_new_token WorkloadId StChecker s a, refl, create_with_new_token-Settled s a)
  handle_event-Settled s (command_received (update (some named) path)) a h =
      let start = invalidated WorkloadId StChecker s in
      (
        update_workload_on_runtime WorkloadId StChecker start (some named) path a,
        refl,
        update-Settled start named path a,
      )
  handle_event-Settled s (command_received (retry name token)) a h = (
    create_workload_on_runtime WorkloadId StChecker s token a,
    rw (h) refl,
    create-Settled s token a h,
  )
  handle_event-Settled s (state_received w) a (h, k) =
      let restarted = restart_workload_on_runtime WorkloadId StChecker s w.execution_state a in
      let before = report w.instance_name w.execution_state ∷ [] in
      (
        behind WorkloadId StChecker before restarted,
        rw (h, k) refl,
        behind-Settled before restarted (restart-Settled s w.execution_state a),
      )
  handle_event-Settled s (command_received delete) a h = absurd h
  handle_event-Settled s (command_received (update none path)) a h = absurd h
  handle_event-Settled s (command_received resume) a h = absurd h
  handle_event-Settled s (command_received start_log_fetcher) a h = absurd h
  handle_event-Settled s commands_closed a h = absurd h
