-- ===== src/Api/Execution.antt =====
-- Execution states and their transition: ankaios_api/src/ank_base/workload_state.rs.
use ankaios.Prelude.{String, Bool, true, false, not, ◌&&◌}

pub data Pending : Type 0 where
  initial waiting_to_start starting starting_failed : Pending

pub data Stopping : Type 0 where
  stopping waiting_to_stop requested_at_runtime delete_failed : Stopping

pub data Failed : Type 0 where
  exec_failed unknown lost : Failed

-- A substate that has one value is left out.
pub data ExecutionStateEnum : Type 0 where
  agent_disconnected not_scheduled removed : ExecutionStateEnum
  pending : Pending → ExecutionStateEnum
  running succeeded : ExecutionStateEnum
  stopping : Stopping → ExecutionStateEnum
  failed : Failed → ExecutionStateEnum

pub record ExecutionState : Type 0 where
  pub state : ExecutionStateEnum
  pub additional_info : String

-- The pattern of the first arm of `transition`.
unfoldable pub keeps_stopping : ExecutionStateEnum → ExecutionStateEnum → Bool
keeps_stopping (stopping requested_at_runtime) running = true
keeps_stopping (stopping requested_at_runtime) succeeded = true
keeps_stopping (stopping requested_at_runtime) (failed f) = true
keeps_stopping (stopping waiting_to_stop) running = true
keeps_stopping (stopping waiting_to_stop) succeeded = true
keeps_stopping (stopping waiting_to_stop) (failed f) = true
keeps_stopping _ _ = false

unfoldable pub transition : ExecutionState → ExecutionState → ExecutionState
transition self incoming = elim (keeps_stopping self.state incoming.state) [
  | true ↦ self
  | false ↦ incoming
]

unfoldable pub is_removed : ExecutionState → Bool
is_removed s = elim s.state [ removed ↦ true | _ ↦ false ]

unfoldable pub is_pending : ExecutionState → Bool
is_pending s = elim s.state [ pending _ ↦ true | _ ↦ false ]

unfoldable pub is_pending_initial : ExecutionState → Bool
is_pending_initial s = elim s.state [ pending initial ↦ true | _ ↦ false ]

unfoldable pub is_running : ExecutionState → Bool
is_running s = elim s.state [ running ↦ true | _ ↦ false ]

unfoldable pub is_succeeded : ExecutionState → Bool
is_succeeded s = elim s.state [ succeeded ↦ true | _ ↦ false ]

unfoldable pub is_failed : ExecutionState → Bool
is_failed s = elim s.state [ failed exec_failed ↦ true | _ ↦ false ]

unfoldable pub is_not_pending_nor_running : ExecutionState → Bool
unfolding is_pending is_running
is_not_pending_nor_running s = not (is_pending s) && not (is_running s)

unfoldable pub is_waiting_to_start : ExecutionState → Bool
is_waiting_to_start s = elim s.state [ pending waiting_to_start ↦ true | _ ↦ false ]

-- The constructors of a state with no additional information.
abbrev pub plain_state : ExecutionStateEnum → ExecutionState
plain_state s = record { state = s; additional_info = "" }

abbrev pub state_agent_disconnected : ExecutionState
state_agent_disconnected = plain_state agent_disconnected

abbrev pub state_removed : ExecutionState
state_removed = plain_state removed

abbrev pub state_succeeded : ExecutionState
state_succeeded = plain_state succeeded

abbrev pub state_running : ExecutionState
state_running = plain_state running

abbrev pub state_stopping_requested : ExecutionState
state_stopping_requested = plain_state (stopping requested_at_runtime)

abbrev pub state_lost : ExecutionState
state_lost = plain_state (failed lost)

abbrev pub state_waiting_to_start : ExecutionState
state_waiting_to_start = plain_state (pending waiting_to_start)

abbrev pub state_waiting_to_stop : ExecutionState
state_waiting_to_stop = plain_state (stopping waiting_to_stop)

abbrev pub state_initial : ExecutionState
state_initial = plain_state (pending initial)

abbrev pub state_not_scheduled : ExecutionState
state_not_scheduled = plain_state not_scheduled
