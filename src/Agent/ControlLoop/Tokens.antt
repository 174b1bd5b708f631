-- ===== src/Agent/ControlLoop/Tokens.antt =====
-- Which retries are ignored in a run of the control loop.
use ankaios.Prelude.{
  ℕ, ◌<◌, length, String, List, [], ◌∷◌, Option, none, some, ◌≡◌, refl, sym, ap, ◌∙◌, inl, inr,
  Bool-cases, Option-cases, some_value, subst,
}
use ankaios.Api.Instance.{InstanceName}
use ankaios.Api.Workload.{WorkloadNamed}
use ankaios.Agent.Retry.{
  RetryManager, RetryToken, RetryCall, call_invalidate, call_new_token, run_calls, default_manager,
  invalidate, new_token, is_valid, IsSingle, IsDead, calls-IsSingle, later-IsDead,
  invalidate-IsDead_all, default-IsSingle,
}
use ankaios.Agent.ControlLoop.{
  LoopState, Answers, delete, update, retry, create, resume, start_log_fetcher, Event,
  state_received, command_received, commands_closed, invalidated, retry_create_workload_on_runtime,
  handle_command, handle_event, run,
}
use ankaios.Agent.ControlLoop.Runs.{
  Evolves, Evolves-same, Evolves-step, Evolves-both, create_with_new_token-Evolves, update-Evolves,
  handle_state-Evolves, retry-Evolves, resume-manager, delete-manager,
}

module _ (WorkloadId StChecker : Type 0) where
  same_manager :
      (s next : LoopState WorkloadId StChecker)
      → some s ≡ some next
      → s.retry_manager ≡ next.retry_manager
  same_manager s next h =
      ap (λ (x : LoopState WorkloadId StChecker). x.retry_manager)
        (some_value (some s) s next refl h)

  -- The commands that make all earlier tokens invalid.
  abbrev pub Invalidates : Event WorkloadId StChecker → Type 0
  Invalidates (command_received delete) = Unit
  Invalidates (command_received (update named path)) = Unit
  Invalidates (command_received create) = Unit
  Invalidates _ = ⊥

  -- Such a command makes at least one call.
  handle_event-Evolves_invalidated :
      (s next : LoopState WorkloadId StChecker) (event : Event WorkloadId StChecker)
      (a : Answers WorkloadId StChecker)
      → (handle_event WorkloadId StChecker s event a).0 ≡ some next
      → Invalidates event
      → (call : RetryCall) × Evolves (run_calls s.retry_manager (call ∷ [])) next.retry_manager
  unfolding handle_event handle_command run_calls
  handle_event-Evolves_invalidated s next (command_received delete) a h i = (
    call_invalidate,
    Evolves-same (invalidate s.retry_manager) next.retry_manager
        (delete-manager WorkloadId StChecker (invalidated WorkloadId StChecker s) next a h),
  )
  handle_event-Evolves_invalidated s next (command_received (update named path)) a h i = (
    call_invalidate,
    subst (Evolves (invalidate s.retry_manager)) (same_manager _ next h)
        (update-Evolves WorkloadId StChecker (invalidated WorkloadId StChecker s) named path a),
  )
  handle_event-Evolves_invalidated s next (command_received create) a h i = (
    call_new_token,
    subst (Evolves (new_token s.retry_manager).0) (same_manager _ next h)
        (create_with_new_token-Evolves WorkloadId StChecker s a),
  )
  handle_event-Evolves_invalidated s next (state_received w) a h i = absurd i
  handle_event-Evolves_invalidated s next (command_received (retry name token)) a h i = absurd i
  handle_event-Evolves_invalidated s next (command_received resume) a h i = absurd i
  handle_event-Evolves_invalidated s next (command_received start_log_fetcher) a h i = absurd i
  handle_event-Evolves_invalidated s next commands_closed a h i = absurd i

  handle_event-Evolves_step :
      (s next : LoopState WorkloadId StChecker) (event : Event WorkloadId StChecker)
      (a : Answers WorkloadId StChecker)
      → (handle_event WorkloadId StChecker s event a).0 ≡ some next
      → Invalidates event
      → Evolves s.retry_manager next.retry_manager
  handle_event-Evolves_step s next event a h i =
      let (call, e) = handle_event-Evolves_invalidated s next event a h i in
      Evolves-step call s.retry_manager next.retry_manager e

  handle_event-Evolves :
      (s next : LoopState WorkloadId StChecker) (event : Event WorkloadId StChecker)
      (a : Answers WorkloadId StChecker)
      → (handle_event WorkloadId StChecker s event a).0 ≡ some next
      → Evolves s.retry_manager next.retry_manager
  unfolding handle_event handle_command
  handle_event-Evolves s next (state_received w) a h =
      subst (Evolves s.retry_manager) (same_manager _ next h)
        (handle_state-Evolves WorkloadId StChecker s w a)
  handle_event-Evolves s next (command_received delete) a h =
      handle_event-Evolves_step s next (command_received delete) a h tt
  handle_event-Evolves s next (command_received (update named path)) a h =
      handle_event-Evolves_step s next (command_received (update named path)) a h tt
  handle_event-Evolves s next (command_received create) a h =
      handle_event-Evolves_step s next (command_received create) a h tt
  handle_event-Evolves s next (command_received (retry name token)) a h =
      subst (Evolves s.retry_manager) (same_manager _ next h)
        (retry-Evolves WorkloadId StChecker s token a)
  handle_event-Evolves s next (command_received resume) a h =
      Evolves-same s.retry_manager next.retry_manager
        (sym (same_manager _ next h) ∙ resume-manager WorkloadId StChecker s a)
  handle_event-Evolves s next (command_received start_log_fetcher) a h =
      Evolves-same s.retry_manager next.retry_manager (sym (same_manager _ next h))
  handle_event-Evolves s next commands_closed a h = cc

  run-Evolves :
      (s next : LoopState WorkloadId StChecker)
      (events : List (Event WorkloadId StChecker × Answers WorkloadId StChecker))
      → (run WorkloadId StChecker s events).0 ≡ some next
      → Evolves s.retry_manager next.retry_manager
  unfolding run
  run-Evolves s next [] h = Evolves-same s.retry_manager next.retry_manager (
      ap (λ (x : LoopState WorkloadId StChecker). x.retry_manager)
        (sym (some_value (some s) s next refl h)))
  run-Evolves s next ((event, a) ∷ events) h =
      elim (Option-cases (handle_event WorkloadId StChecker s event a).0) [
        | inl e ↦ absurd (cc (rw (e, run) at h, e))
        | inr (mid, e) ↦
            Evolves-both s.retry_manager mid.retry_manager next.retry_manager
              (handle_event-Evolves s mid event a e)
              (run-Evolves mid next events (rw (e, run) at h))
      ]

  -- The state in which the loop of a workload starts.
  abbrev pub initial_state : WorkloadNamed → Option String → LoopState WorkloadId StChecker
  initial_state named path = record {
    workload_named = named;
    control_interface_path = path;
    workload_id = none;
    state_checker = none;
    retry_manager = default_manager;
  }

  evolved-IsSingle : (n : RetryManager) → Evolves default_manager n → IsSingle n
  unfolding Evolves
  evolved-IsSingle n (calls, e) =
      subst IsSingle (sym e) (calls-IsSingle default_manager calls default-IsSingle)

  evolved-IsDead :
      (m n o : RetryManager) (call : RetryCall) (k : ℕ)
      → IsSingle m
      → k < length m.channels
      → Evolves (run_calls m (call ∷ [])) n
      → Evolves n o
      → IsDead o k
  unfolding Evolves run_calls
  evolved-IsDead m n o call_invalidate k single b e f =
      let (calls, p) = Evolves-both (invalidate m) n o e f in
      subst (λ x. IsDead x k) (sym p)
        (later-IsDead m call_invalidate calls k (invalidate-IsDead_all m k single b))
  evolved-IsDead m n o call_new_token k single b e f =
      let (calls, p) = Evolves-both (new_token m).0 n o e f in
      subst (λ x. IsDead x k) (sym p)
        (later-IsDead m call_new_token calls k (invalidate-IsDead_all m k single b))

  -- In a run of the loop from its start, a retry has no effect, and changes nothing, if its token
  -- was there before a deletion, an update or a creation of the run, whatever happened since.
  pub outdated-retry :
      (named : WorkloadNamed) (path : Option String)
      (before after : List (Event WorkloadId StChecker × Answers WorkloadId StChecker))
      (event : Event WorkloadId StChecker) (a b : Answers WorkloadId StChecker)
      (s next last : LoopState WorkloadId StChecker) (name : InstanceName) (token : RetryToken)
      → (run WorkloadId StChecker (initial_state named path) before).0 ≡ some s
      → Invalidates event
      → (handle_event WorkloadId StChecker s event a).0 ≡ some next
      → (run WorkloadId StChecker next after).0 ≡ some last
      → token.valid < length s.retry_manager.channels
      → handle_event WorkloadId StChecker last (command_received (retry name token)) b
        ≡ (some last, [])
  unfolding handle_event handle_command retry_create_workload_on_runtime is_valid IsDead
  outdated-retry named path before after event a b s next last name token h i g k l =
      let single =
        evolved-IsSingle s.retry_manager (run-Evolves (initial_state named path) s before h) in
      let (call, e) = handle_event-Evolves_invalidated s next event a g i in
      let dead =
        evolved-IsDead s.retry_manager next.retry_manager last.retry_manager call token.valid single
          l e (run-Evolves next last after k) in
      elim (Bool-cases (is_valid last.retry_manager token)) [
        | inl v ↦ absurd (dead.1 v)
        | inr v ↦ rw (v, retry_create_workload_on_runtime) refl
      ]
