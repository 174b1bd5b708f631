-- ===== src/Agent/Loop/Collections.antt =====
-- The log collections of the agent: agent/src/subscription_store.rs, in the loop of agent/src/agent_manager.rs.
use ankaios.Prelude.{
  ◌+◌, String, List, [], ◌∷◌, map, Option, none, some, member, ◌≡◌, refl, Bool-cases, Option-cases,
  inl, inr, arith,
}
use ankaios.Common.RequestPrefix.{detach_prefix_from_request_id}
use ankaios.Api.StatesMap.{process_new_states}
use ankaios.Agent.Scheduler.{Ready, next_workload_operations}
use ankaios.Agent.StateStore.{effective_state}
use ankaios.Agent.Operations.{handle_update_workload}
use ankaios.Agent.Reuse.{ReuseEffect, handle_server_hello}
use ankaios.Agent.Execution.{ExecutionEffect, execute_workload_operations}
use ankaios.Agent.Loop.{
  AgentEffect, reuse, execution, send_workload_state, send_load_status, forward_response_to, do_all,
  FromServer, server_hello, update_workload, update_workload_state, response, logs_request,
  logs_cancel_request, server_gone, stop, AgentEvent, from_server, own_workload_state,
  interval_tick, log_collection_finished, Agent, new_agent, get_log_fetchers, forward_response,
  run_ready, hello_from_server, store_states, execute_from_server_command, store_own_state,
  handle_agent_event, run_agent,
}
use ankaios.Agent.Loop.Counts.{
  one_if, started_collections, dropped_collections, IsCollected, changed-IsCollected,
  add-IsCollected, delete-IsCollected, delete_all-IsCollected, entries-absent, entries-present,
}

module _ (id : String) where
  abbrev AreOthers : List AgentEffect → Type 0
  AreOthers effects = (started_collections id effects ≡ 0) × (dropped_collections id effects ≡ 0)

  executions-AreOthers :
      (effects : List ExecutionEffect) → AreOthers (map (λ e. execution e) effects)
  executions-AreOthers [] = (refl, refl)
  executions-AreOthers (e ∷ effects) = executions-AreOthers effects

  reuses-AreOthers : (effects : List ReuseEffect) → AreOthers (map (λ e. reuse e) effects)
  reuses-AreOthers [] = (refl, refl)
  reuses-AreOthers (e ∷ effects) = reuses-AreOthers effects

  others-IsCollected :
      (a : Agent) (effects : List AgentEffect)
      → AreOthers effects
      → IsCollected id a
      → IsCollected id (do_all a effects)
  others-IsCollected a effects (s, d) (balance, one) =
      changed-IsCollected id a effects a.subscription_store (omega (arith, s, d)) one (balance, one)

  abbrev pub IsCollectedOnce : Agent → Type 0
  IsCollectedOnce a =
      started_collections id a.done
      ≡ dropped_collections id a.done + one_if (member id a.subscription_store)

  abbrev CollectedAfter : Option Agent → Type 0
  CollectedAfter none = Unit
  CollectedAfter (some a) = IsCollected id a

  module _ (runtime_map : List String) where
    ready-IsCollected :
        (a : Agent) (r : Ready) → IsCollected id a → IsCollected id (run_ready runtime_map a r)
    unfolding run_ready
    ready-IsCollected a (s, operations) h =
        let executed =
          execute_workload_operations runtime_map (record { workloads = a.workloads; done = [] })
            operations in
        others-IsCollected a (map (λ e. execution e) executed.done)
          (executions-AreOthers executed.done) h

    forward-IsCollected :
        (a : Agent) (response_id : String)
        → IsCollected id a
        → IsCollected id (forward_response a response_id)
    unfolding forward_response
    forward-IsCollected a response_id h =
        elim (Bool-cases (member (detach_prefix_from_request_id response_id).0 a.workloads)) [
          | inl k ↦
              rw (forward_response, k)
                (others-IsCollected a
                  (forward_response_to (detach_prefix_from_request_id response_id).0
                      (detach_prefix_from_request_id response_id).1
                    ∷ [])
                  (refl, refl) h)
          | inr k ↦ rw (forward_response, k) h
        ]

    command-IsCollected :
        (a : Agent) (m : FromServer)
        → IsCollected id a
        → CollectedAfter (execute_from_server_command runtime_map a m)
    unfolding execute_from_server_command hello_from_server store_states
    command-IsCollected a (server_hello answers added) h =
        let resumed =
          handle_server_hello a.workload_state_store a.workloads a.scheduler answers added in
        let effects = map (λ e. reuse e) resumed.0.effects in
        ready-IsCollected (record (do_all a effects) { workloads = resumed.0.workloads }) resumed.1
          (others-IsCollected a effects (reuses-AreOthers resumed.0.effects) h)
    command-IsCollected a (update_workload added deleted) h =
        ready-IsCollected a
          (handle_update_workload a.workload_state_store a.workloads a.scheduler added deleted) h
    command-IsCollected a (update_workload_state []) h = h
    command-IsCollected a (update_workload_state (w ∷ states)) h = ready-IsCollected _ _ h
    command-IsCollected a (response response_id) h = forward-IsCollected a response_id h
    command-IsCollected a (logs_request request_id names) h =
        add-IsCollected id a request_id (get_log_fetchers a.workloads names) h
    command-IsCollected a (logs_cancel_request request_id) h = delete-IsCollected id a request_id h
    command-IsCollected a server_gone h = delete_all-IsCollected id a h
    command-IsCollected a stop h = tt

    event-IsCollected :
        (a : Agent) (e : AgentEvent)
        → IsCollected id a
        → CollectedAfter (handle_agent_event runtime_map a e)
    unfolding handle_agent_event store_own_state
    event-IsCollected a (from_server m) h = command-IsCollected a m h
    event-IsCollected a (own_workload_state w) h =
        let state = effective_state a.workload_state_store w in
        let stored_state = record a {
          workload_state_store = process_new_states a.workload_state_store (state ∷ []);
        } in
        let ready = next_workload_operations stored_state.workload_state_store a.scheduler in
        others-IsCollected (run_ready runtime_map stored_state ready)
          (send_workload_state (state ∷ []) ∷ []) (refl, refl)
          (ready-IsCollected stored_state ready h)
    event-IsCollected a interval_tick h =
        others-IsCollected a (send_load_status a.agent_name ∷ []) (refl, refl) h
    event-IsCollected a (log_collection_finished request_id) h =
        delete-IsCollected id a request_id h

    later-IsCollected :
        (a : Agent) (events : List AgentEvent)
        → IsCollected id a
        → IsCollected id (run_agent runtime_map a events)
    unfolding run_agent
    later-IsCollected a [] h = h
    later-IsCollected a (e ∷ events) h = elim (Option-cases (handle_agent_event runtime_map a e)) [
      | inl k ↦ rw (k, run_agent) h
      | inr (changed, k) ↦
          let after : IsCollected id changed = rw k at (event-IsCollected a e h) in
          rw (k, run_agent) (later-IsCollected changed events after)
    ]

    -- After any events from the start of the agent, the collections that were started for a request are
    -- those that were dropped and one more exactly if the request has an entry in the store: at most one
    -- runs, and none without an entry.
    pub run_agent-collections :
        (agent_name : String) (events : List AgentEvent)
        → IsCollectedOnce (run_agent runtime_map (new_agent agent_name) events)
    run_agent-collections agent_name events =
        let a = run_agent runtime_map (new_agent agent_name) events in
        let (balance, one) =
          later-IsCollected (new_agent agent_name) events (omega arith, omega arith) in
        elim (Bool-cases (member id a.subscription_store)) [
          | inl m ↦
              let present = entries-present id a.subscription_store m in
              rw m (omega (arith, balance, one, present))
          | inr m ↦
              let absent = entries-absent id a.subscription_store m in
              rw m (omega (arith, balance, absent))
        ]
