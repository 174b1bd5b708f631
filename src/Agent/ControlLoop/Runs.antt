-- ===== src/Agent/ControlLoop/Runs.antt =====
-- The retry tokens in a run of the control loop.
use ankaios.Prelude.{
  String, List, [], ◌∷◌, ◌++◌, Option, none, some, ◌≡◌, refl, sym, ap, ◌∙◌, inl, inr, Bool-cases,
  Option-cases, some_value, ◌&&◌,
}
use ankaios.Api.Execution.{ExecutionState, is_succeeded}
use ankaios.Api.Instance.{instance_eq}
use ankaios.Api.StatesMap.{WorkloadState}
use ankaios.Api.Workload.{WorkloadNamed}
use ankaios.Agent.Retry.{
  RetryManager, RetryToken, RetryCall, call_invalidate, call_new_token, run_calls, invalidate,
  new_token, is_valid,
}
use ankaios.Agent.ControlLoop.{
  restart_policy_matches_execution_state, LoopState, instance_name, CreateAnswer, created,
  unsupported, create_error, Answers, Pass, is_some, send_retry_for_workload,
  handle_mount_point_creation, handle_create_answer, create_workload_on_runtime,
  create_with_new_token, finish_update, create_updated, update_workload_on_runtime,
  delete_workload_on_runtime, restart_workload_with_bundle_reuse, restart_workload_on_runtime,
  retry_create_workload_on_runtime, resume_workload_on_runtime, handle_state,
}

-- The second manager is the first one after some calls.
unfoldable pub Evolves : RetryManager → RetryManager → Type 0
Evolves m n = (calls : List RetryCall) × (n ≡ run_calls m calls)

pub Evolves-same : (m n : RetryManager) → n ≡ m → Evolves m n
unfolding Evolves run_calls
Evolves-same m n e = ([], e)

pub Evolves-step :
    (call : RetryCall) (m n : RetryManager) → Evolves (run_calls m (call ∷ [])) n → Evolves m n
unfolding Evolves run_calls
Evolves-step call_invalidate m n (calls, e) = (call_invalidate ∷ calls, e)
Evolves-step call_new_token m n (calls, e) = (call_new_token ∷ calls, e)

run_calls-append :
    (m : RetryManager) (xs ys : List RetryCall)
    → run_calls m (xs ++ ys) ≡ run_calls (run_calls m xs) ys
unfolding run_calls
run_calls-append m [] ys = refl
run_calls-append m (call_invalidate ∷ xs) ys = run_calls-append (invalidate m) xs ys
run_calls-append m (call_new_token ∷ xs) ys = run_calls-append (new_token m).0 xs ys

pub Evolves-both : (m n o : RetryManager) → Evolves m n → Evolves n o → Evolves m o
unfolding Evolves
Evolves-both m n o (calls, e) (more, f) =
    (calls ++ more, f ∙ ap (λ x. run_calls x more) e ∙ sym (run_calls-append m calls more))

module _ (WorkloadId StChecker : Type 0) where
  -- The retry manager behind a pass.
  abbrev pub manager : Pass WorkloadId StChecker → RetryManager
  manager p = p.0.retry_manager

  answer-manager :
      (s : LoopState WorkloadId StChecker) (token : RetryToken)
      (answer : CreateAnswer WorkloadId StChecker)
      → manager (handle_create_answer WorkloadId StChecker s token answer) ≡ s.retry_manager
  unfolding handle_create_answer send_retry_for_workload
  answer-manager s token (created i c) = refl
  answer-manager s token (unsupported m) = refl
  answer-manager s token (create_error m) = refl

  create-manager :
      (s : LoopState WorkloadId StChecker) (token : RetryToken) (a : Answers WorkloadId StChecker)
      → manager (create_workload_on_runtime WorkloadId StChecker s token a) ≡ s.retry_manager
  unfolding create_workload_on_runtime
  create-manager s token a =
      elim (Option-cases (handle_mount_point_creation WorkloadId StChecker s a).0) [
        | inr (m, e) ↦ rw (e, create_workload_on_runtime) refl
        | inl e ↦ rw (e, create_workload_on_runtime) (answer-manager s token a.create_answer)
      ]

  pub create_with_new_token-Evolves :
      (s : LoopState WorkloadId StChecker) (a : Answers WorkloadId StChecker)
      → Evolves
          (new_token s.retry_manager).0
          (manager (create_with_new_token WorkloadId StChecker s a))
  unfolding create_with_new_token
  create_with_new_token-Evolves s a =
      let n = new_token s.retry_manager in
      Evolves-same n.0 _ (create-manager (record s { retry_manager = n.0 }) n.1 a)

  create_updated-Evolves :
      (s : LoopState WorkloadId StChecker) (new_named : Option WorkloadNamed) (path : Option String)
      (a : Answers WorkloadId StChecker)
      → Evolves s.retry_manager (manager (create_updated WorkloadId StChecker s new_named path a))
  unfolding create_updated run_calls
  create_updated-Evolves s none path a = Evolves-same s.retry_manager s.retry_manager refl
  create_updated-Evolves s (some named) path a = Evolves-step call_new_token s.retry_manager _ (
      create_with_new_token-Evolves
        (record s { workload_named = named; control_interface_path = path }) a)

  pub update-Evolves :
      (s : LoopState WorkloadId StChecker) (new_named : Option WorkloadNamed) (path : Option String)
      (a : Answers WorkloadId StChecker)
      → Evolves s.retry_manager
          (manager (update_workload_on_runtime WorkloadId StChecker s new_named path a))
  unfolding update_workload_on_runtime finish_update
  update-Evolves s new_named path a = elim (Option-cases s.workload_id) [
    | inl e ↦ rw (e, update_workload_on_runtime) (create_updated-Evolves s new_named path a)
    | inr (i, e) ↦ elim (Option-cases a.delete_error) [
      | inl f ↦
          rw (e, update_workload_on_runtime, f)
            (create_updated-Evolves (record s { workload_id = none; state_checker = none })
              new_named path a)
      | inr (m, f) ↦
          rw (e, update_workload_on_runtime, f) (Evolves-same s.retry_manager s.retry_manager refl)
    ]
  ]

  restart-Evolves :
      (s : LoopState WorkloadId StChecker) (execution_state : ExecutionState)
      (a : Answers WorkloadId StChecker)
      → Evolves s.retry_manager
          (manager (restart_workload_on_runtime WorkloadId StChecker s execution_state a))
  unfolding restart_workload_on_runtime restart_workload_with_bundle_reuse
  restart-Evolves s execution_state a =
      elim (Bool-cases
        (is_succeeded execution_state && is_some WorkloadId StChecker s.workload_id)) [
          | inl e ↦
              rw (e, restart_workload_on_runtime)
                (create_updated-Evolves (record s { state_checker = none }) (some s.workload_named)
                  s.control_interface_path a)
          | inr e ↦
              rw (e, restart_workload_on_runtime)
                (update-Evolves s (some s.workload_named) s.control_interface_path a)
        ]

  pub handle_state-Evolves :
      (s : LoopState WorkloadId StChecker) (w : WorkloadState) (a : Answers WorkloadId StChecker)
      → Evolves s.retry_manager (manager (handle_state WorkloadId StChecker s w a))
  unfolding handle_state
  handle_state-Evolves s w a =
      let same = Evolves-same s.retry_manager s.retry_manager refl in
      elim (Bool-cases (instance_eq (instance_name WorkloadId StChecker s) w.instance_name)) [
        | inr e ↦ rw (e, handle_state) same
        | inl e ↦
            elim (Bool-cases (
              restart_policy_matches_execution_state s.workload_named.workload.restart_policy
                w.execution_state)) [
                  | inl f ↦ rw (e, handle_state, f) (restart-Evolves s w.execution_state a)
                  | inr f ↦ rw (e, handle_state, f) same
                ]
      ]

  pub retry-Evolves :
      (s : LoopState WorkloadId StChecker) (token : RetryToken) (a : Answers WorkloadId StChecker)
      → Evolves s.retry_manager
          (manager (retry_create_workload_on_runtime WorkloadId StChecker s token a))
  unfolding retry_create_workload_on_runtime
  retry-Evolves s token a = elim (Bool-cases (is_valid s.retry_manager token)) [
    | inl e ↦
        rw (e, retry_create_workload_on_runtime)
          (Evolves-same s.retry_manager _ (create-manager s token a))
    | inr e ↦
        rw (e, retry_create_workload_on_runtime) (Evolves-same s.retry_manager s.retry_manager refl)
  ]

  pub resume-manager :
      (s : LoopState WorkloadId StChecker) (a : Answers WorkloadId StChecker)
      → manager (resume_workload_on_runtime WorkloadId StChecker s a) ≡ s.retry_manager
  unfolding resume_workload_on_runtime
  resume-manager s a = elim (Option-cases a.found_id) [
    | inl e ↦ rw (e, resume_workload_on_runtime) refl
    | inr (i, e) ↦ rw (e, resume_workload_on_runtime) refl
  ]

  pub delete-manager :
      (s next : LoopState WorkloadId StChecker) (a : Answers WorkloadId StChecker)
      → (delete_workload_on_runtime WorkloadId StChecker s a).0 ≡ some next
      → next.retry_manager ≡ s.retry_manager
  unfolding delete_workload_on_runtime
  delete-manager s next a h = elim (Option-cases s.workload_id) [
    | inl e ↦ cc (rw (e, delete_workload_on_runtime) at h)
    | inr (i, e) ↦ elim (Option-cases a.delete_error) [
      | inl f ↦ cc (rw (e, delete_workload_on_runtime, f) at h)
      | inr (m, f) ↦
          let same : some s ≡ some next = rw (e, delete_workload_on_runtime, f) at h in
          ap (λ (x : LoopState WorkloadId StChecker). x.retry_manager)
            (sym (some_value (some s) s next refl same))
    ]
  ]
