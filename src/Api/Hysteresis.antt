-- ===== src/Api/Hysteresis.antt =====
-- What `transition` of ankaios_api/src/ank_base/workload_state.rs holds back.
use ankaios.Prelude.{◌≡◌, refl, true, false, List, [], ◌∷◌, All, arith}
use mathlib.Core.List.{foldl, foldl-append, ◌++◌}
use ankaios.Api.Execution.{
  ExecutionState, ExecutionStateEnum, running, succeeded, stopping, failed, waiting_to_stop,
  requested_at_runtime, keeps_stopping, transition,
}

-- The stop was requested, or waits for dependencies.
abbrev pub AwaitsStop : ExecutionStateEnum → Type 0
AwaitsStop (stopping requested_at_runtime) = Unit
AwaitsStop (stopping waiting_to_stop) = Unit
AwaitsStop _ = ⊥

-- A report of the workload itself, which says nothing of the stop.
abbrev pub IsOwnProgress : ExecutionStateEnum → Type 0
IsOwnProgress running = Unit
IsOwnProgress succeeded = Unit
IsOwnProgress (failed f) = Unit
IsOwnProgress _ = ⊥

held : (a b : ExecutionStateEnum) → AwaitsStop a → IsOwnProgress b → keeps_stopping a b ≡ true
unfolding keeps_stopping
held (stopping requested_at_runtime) running h k = refl
held (stopping requested_at_runtime) succeeded h k = refl
held (stopping requested_at_runtime) (failed f) h k = refl
held (stopping waiting_to_stop) running h k = refl
held (stopping waiting_to_stop) succeeded h k = refl
held (stopping waiting_to_stop) (failed f) h k = refl
held a b h k = ground arith

taken : (a b : ExecutionStateEnum) → ¬ IsOwnProgress b → keeps_stopping a b ≡ false
unfolding keeps_stopping
taken (stopping requested_at_runtime) running n = absurd (n tt)
taken (stopping requested_at_runtime) succeeded n = absurd (n tt)
taken (stopping requested_at_runtime) (failed f) n = absurd (n tt)
taken (stopping waiting_to_stop) running n = absurd (n tt)
taken (stopping waiting_to_stop) succeeded n = absurd (n tt)
taken (stopping waiting_to_stop) (failed f) n = absurd (n tt)
taken a b n = refl

transition-held :
    (s r : ExecutionState) → keeps_stopping s.state r.state ≡ true → transition s r ≡ s
unfolding transition
transition-held s r e = rw (e, transition)

transition-taken :
    (s r : ExecutionState) → keeps_stopping s.state r.state ≡ false → transition s r ≡ r
unfolding transition
transition-taken s r e = rw (e, transition)

pub transition-AwaitsStop :
    (s r : ExecutionState) → AwaitsStop s.state → IsOwnProgress r.state → transition s r ≡ s
transition-AwaitsStop s r h k = transition-held s r (held s.state r.state h k)

stays :
    (s : ExecutionState) (reports : List ExecutionState)
    → AwaitsStop s.state
    → All (λ r. IsOwnProgress r.state) reports
    → foldl transition s reports ≡ s
stays s [] h k = refl
stays s (r ∷ reports) h (k, ks) = rw (transition-AwaitsStop s r h k) (stays s reports h ks)

-- A state that awaits its stop stays as it is under any reports of running, succeeded or failed, and
-- the first other report replaces it.
transition_hysteresis :
    (s : ExecutionState) (reports : List ExecutionState) (r : ExecutionState)
    → AwaitsStop s.state
    → All (λ q. IsOwnProgress q.state) reports
    → ¬ IsOwnProgress r.state
    → (foldl transition s reports ≡ s) × (foldl transition s (reports ++ r ∷ []) ≡ r)
transition_hysteresis s reports r h k n = (
  stays s reports h k,
  rw (foldl-append, stays s reports h k) (transition-taken s r (taken s.state r.state n)),
)
