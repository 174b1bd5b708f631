-- ===== src/Agent/RunTests.antt =====
-- A run of the agent in which a workload waits and logs are asked for, and the theorems at this run.
use ankaios.Prelude.{has_char, String, List, [], ◌∷◌, none, some, true, member, ◌≡◌, refl}
use ankaios.Api.Execution.{state_running}
use ankaios.Api.Instance.{InstanceName}
use ankaios.Api.Workload.{WorkloadNamed}
use ankaios.Common.RequestPrefix.{
  prepend_request_id, detach_prefix_from_request_id,
  detach_prefix_from_request_id-prepend_request_id,
}
use ankaios.Agent.Loop.{
  AgentEvent, from_server, own_workload_state, log_collection_finished, interval_tick, server_hello,
  logs_request, start_collecting_logs, abort_collecting_logs, new_agent, get_log_fetchers,
  add_subscription, delete_subscription, execute_from_server_command, handle_agent_event, run_agent,
}
use ankaios.Agent.Loop.Blocked.{IsWaiting, run_agent-IsWaiting}
use ankaios.Agent.Loop.Collections.{IsCollectedOnce, run_agent-collections}
use ankaios.Agent.Tests.{plain}

abbrev instance : String → InstanceName
instance name = record { workload_name = name; agent_name = "a"; id = "1" }

abbrev added : List WorkloadNamed
added = record { instance_name = instance "web"; workload = plain } ∷ []

-- The workload waits for another one. Its logs are asked for twice.
abbrev events : List AgentEvent
events =
    from_server (server_hello [] added)
    ∷ own_workload_state
        (record { instance_name = instance "log"; execution_state = state_running })
    ∷ from_server (logs_request "r" ((some (instance "web"), true) ∷ (none, true) ∷ []))
    ∷ from_server (logs_request "r" [])
    ∷ interval_tick
    ∷ []

asked_twice :
    (run_agent [] (new_agent "a") (
      from_server (logs_request "r" ((some (instance "web"), true) ∷ []))
      ∷ from_server (logs_request "r" [])
      ∷ log_collection_finished "r"
      ∷ [])).done
    ≡ start_collecting_logs "r" []
      ∷ start_collecting_logs "r" []
      ∷ abort_collecting_logs "r"
      ∷ abort_collecting_logs "r"
      ∷ []
unfolding member get_log_fetchers add_subscription delete_subscription execute_from_server_command
    handle_agent_event run_agent
asked_twice = refl

run_agent-IsWaiting_example : IsWaiting (run_agent ("podman" ∷ []) (new_agent "a") events)
run_agent-IsWaiting_example = run_agent-IsWaiting ("podman" ∷ []) "a" events

run_agent-collections_example :
    IsCollectedOnce "r" (run_agent ("podman" ∷ []) (new_agent "a") events)
run_agent-collections_example = run_agent-collections "r" ("podman" ∷ []) "a" events

detach_prefix_from_request_id-prepend_request_id_example :
    detach_prefix_from_request_id (prepend_request_id "web@7" "agent_A") ≡ ("agent_A", "web@7")
unfolding has_char
detach_prefix_from_request_id-prepend_request_id_example =
    detach_prefix_from_request_id-prepend_request_id "web@7" "agent_A" refl refl refl
