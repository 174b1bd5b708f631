-- ===== src/Agent/Loop/Blocked.antt =====
-- What waits in the queue of the agent between the events of agent/src/agent_manager.rs.
use ankaios.Prelude.{
  String, List, [], ◌∷◌, Option, none, some, Option-cases, Bool-cases, member, inl, inr,
}
use ankaios.Common.RequestPrefix.{detach_prefix_from_request_id}
use ankaios.Agent.Scheduler.{Ready}
use ankaios.Agent.Operations.{execute_workloads, handle_update_workload}
use ankaios.Agent.Reuse.{handle_server_hello}
use ankaios.Agent.Waiting.{AllBlocked, next-AllBlocked, enqueue-AllBlocked}
use ankaios.Agent.Loop.{
  FromServer, server_hello, update_workload, update_workload_state, response, logs_request,
  logs_cancel_request, server_gone, stop, AgentEvent, from_server, own_workload_state,
  interval_tick, log_collection_finished, Agent, new_agent, add_subscription, delete_subscription,
  delete_all_subscriptions, forward_response, run_ready, hello_from_server, store_states,
  execute_from_server_command, store_own_state, handle_agent_event, run_agent,
}

-- Each entry of the agent's queue stands under its workload's name and waits for a condition that the
-- states that the agent has do not fulfil.
abbrev pub IsWaiting : Agent → Type 0
IsWaiting a = AllBlocked a.workload_state_store a.scheduler

abbrev WaitsAfter : Option Agent → Type 0
WaitsAfter none = Unit
WaitsAfter (some a) = IsWaiting a

module _ (runtime_map : List String) where
  ready-IsWaiting :
      (a : Agent) (r : Ready)
      → AllBlocked a.workload_state_store r.0
      → IsWaiting (run_ready runtime_map a r)
  unfolding run_ready
  ready-IsWaiting a (s, ops) h = h

  forward-IsWaiting : (a : Agent) (id : String) → IsWaiting a → IsWaiting (forward_response a id)
  unfolding forward_response
  forward-IsWaiting a id h =
      elim (Bool-cases (member (detach_prefix_from_request_id id).0 a.workloads)) [
        | inl k ↦ rw (forward_response, k) h
        | inr k ↦ rw (forward_response, k) h
      ]

  command-IsWaiting :
      (a : Agent) (m : FromServer)
      → IsWaiting a
      → WaitsAfter (execute_from_server_command runtime_map a m)
  unfolding execute_from_server_command hello_from_server handle_server_hello handle_update_workload
      execute_workloads store_states forward_response add_subscription delete_subscription
      delete_all_subscriptions
  command-IsWaiting a (server_hello answers added) h =
      ready-IsWaiting _ _ (enqueue-AllBlocked _ _ _)
  command-IsWaiting a (update_workload added deleted) h =
      ready-IsWaiting a _ (enqueue-AllBlocked _ _ _)
  command-IsWaiting a (update_workload_state []) h = h
  command-IsWaiting a (update_workload_state (w ∷ states)) h =
      ready-IsWaiting _ _ (next-AllBlocked _ _)
  command-IsWaiting a (response id) h = forward-IsWaiting a id h
  command-IsWaiting a (logs_request id names) h = h
  command-IsWaiting a (logs_cancel_request id) h = h
  command-IsWaiting a server_gone h = h
  command-IsWaiting a stop h = tt

  event-IsWaiting :
      (a : Agent) (e : AgentEvent) → IsWaiting a → WaitsAfter (handle_agent_event runtime_map a e)
  unfolding handle_agent_event store_own_state delete_subscription
  event-IsWaiting a (from_server m) h = command-IsWaiting a m h
  event-IsWaiting a (own_workload_state w) h = ready-IsWaiting _ _ (next-AllBlocked _ _)
  event-IsWaiting a interval_tick h = h
  event-IsWaiting a (log_collection_finished id) h = h

  later-IsWaiting :
      (a : Agent) (events : List AgentEvent)
      → IsWaiting a
      → IsWaiting (run_agent runtime_map a events)
  unfolding run_agent
  later-IsWaiting a [] h = h
  later-IsWaiting a (e ∷ events) h = elim (Option-cases (handle_agent_event runtime_map a e)) [
    | inl k ↦ rw (k, run_agent) h
    | inr (changed, k) ↦
        let after : IsWaiting changed = rw k at (event-IsWaiting a e h) in
        rw (k, run_agent) (later-IsWaiting changed events after)
  ]

  -- Between any two events of the agent, from its start on, each entry of its queue stands under its
  -- workload's name and waits for a condition that is not fulfilled by the states that the agent has, the
  -- latest ones included: no operation is kept waiting that could be carried out.
  pub run_agent-IsWaiting :
      (agent_name : String) (events : List AgentEvent)
      → IsWaiting (run_agent runtime_map (new_agent agent_name) events)
  run_agent-IsWaiting agent_name events = later-IsWaiting (new_agent agent_name) events tt
