-- ===== src/Lib.antt =====
-- A verification library for Ankaios, an orchestrator of workloads for vehicle computers.
--
-- A server keeps the desired state and sends each agent the workloads to add and to delete; the agents
-- run the workloads, order them by their dependencies, and report execution states, which the server
-- and all agents collect in a states map. Workloads talk to their agent through a control interface,
-- whose requests an authorizer checks against the workload's access rights.
--
-- Which file models which part:
--   Prelude: Boolean tests, lists, strings, sorting, results, decimal numbers, hash maps and sets as
--     lists with the laws of their look-ups, and Worklist: loops over a stack of tasks.
--   Api: ankaios_api/src/ank_base/. Execution and Hysteresis: workload_state.rs, the execution
--     states and `transition`. Instance and InstanceText: workload_instance_name.rs. Workload:
--     workload.rs and the generated structures of proto/ank_base.proto. StatesMap:
--     workload_states_map.rs; `agent_disconnected_on` is its `agent_disconnected`, `remove_state` its
--     `remove`. StatesLookup, StatesHistory and StatesShape hold what is proved of the map.
--   Authorizer: agent/src/control_interface/authorizer.rs and authorizer/. Pattern: path.rs and
--     path_pattern.rs. Rules: rules.rs. Service: the split of the access rights and `authorize`. The
--     other files hold what is proved of patterns, log rules and decisions.
--   Agent: agent/src/. Dependencies and Scheduler: workload_scheduler/, with the states that are sent
--     in the list `reported`; Readiness, Waiting and Progress hold what is proved of it. StateStore:
--     agent_manager.rs and runtime_manager.rs, what happens with reported states. Retry:
--     workload/retry_manager.rs. Operations and Requests: runtime_manager.rs, the operations that an
--     update asks for. Reuse, with Kept and Hello: its `handle_server_hello`, and what it does
--     with the workloads that the runtimes have already. Execution, with Known and Reached: its
--     `execute_workload_operations`. ControlLoop: workload/workload_control_loop.rs, with the retries, the restarts
--     and the commands; Passes holds what one event leaves behind, Runs what a sequence of events does
--     to the retry manager, and Tokens what follows for an outdated retry. Loop: the loop of agent_manager.rs over
--     all its events, with the runtime manager that it calls and subscription_store.rs; Blocked, Counts and
--     Collections hold what is proved of it.
--   Server: server/src/ankaios_server/. CycleCheck/Graph: cycle_check.rs; Frames, Rounds and Visits
--     hold the invariant of the search, Soundness and Ranks with Termination what follows.
--     DeleteGraph and DeleteConditions: delete_graph.rs. Render: config_renderer.rs and
--     `WorkloadNamed::from`. Validation: ankaios_api/src/helpers.rs, workload.rs, control_interface_access.rs
--     and rendered_workloads.rs. ServerState: server_state.rs, with Differences and Updates.
--     Validity holds what an update keeps. RequestId and RequestTexts: request_id.rs. NewState, with
--     Fields and Generation: `generate_new_state` of server_state.rs, which merges the masked fields of
--     an update into the old state. StateQuery, with Filtered: its `get_complete_state_by_field_mask`.
--     LogCampaigns: log_campaign_store.rs; Campaigns is the abstract store that forgets the indexes, Loops
--     and Ids follow its maps of ids, Texts, Providers, Held and Keeping the providers, and Refinement shows
--     that the store implements it. Comparator: state_comparator.rs; Reference is the recursion that Loop
--     shows the loop to follow, Links, Copies, Changes, Kinds and Meaning say which differences it finds,
--     Building which tree takes which of them, Apart and Inserting how their paths lie and that trees take them in, and
--     Trees holds the tests for empty trees. Events: event_handler.rs,
--     with Subscriptions for the subscribers, Altered for the altered fields (Leaves and Fields hold what
--     is proved of them) and Sending for the events (Sent and Empty). NotStarted,
--     with Handled: what ankaios_server.rs does with deleted workloads that never started, and with log
--     requests that end. PreRendering: the checks of ankaios_api/src/ank_base/complete_state.rs. Listening:
--     the loop of ankaios_server.rs, which uses all of these; Requests holds what it does with a request, Runs
--     the start and the loop, and Answers, Returns, Answered, Rejections and ValidRuns what is proved of them.
--   Ank: ank/src/. WaitList and Waits: cli_commands/wait_list.rs.
--   Common: common/src/. MessageSize, with Truncation and Splitting: message_size.rs. RequestPrefix: request_id_prepending.rs. Path, with RoundTrip, and Object,
--     with Setting, Opening, Removing, Within and Growing: state_manipulation/path.rs and object.rs. Wildcards,
--     with Reference and Expanded: the expansion of `*` in object.rs against its recursive
--     description. Yaml is the interface of the YAML values that they work on, and Sample, with Keys, an instance.
--     Comparison in Yaml is what the comparison of states needs besides: equality, the keys that are
--     integers of 64 bits with a sign, and that values are finite.
--   The files named Tests hold small inputs, runs and instances of the theorems.
--
-- How the code is read:
--   A method that changes `self` takes the state and returns it. A message that is sent, or an operation
--   that is handed out, is appended to a list. A hash map is an association list, and an iteration
--   goes through it in the order of that list. Texts of errors and log lines are left out.
--   The template engine, the hash of a runtime configuration and the regular expressions are the fields of
--   `Server.Render.Engine`. The sizes of encoded log messages are
--   parameters too, with what Protobuf promises of them in `Common.Splitting.HasFrames`.
--   The YAML library is the record `Common.Yaml.Yaml` with the laws of its look-ups and updates, and the
--   conversions between structures and YAML values are `Server.NewState.StateCodec` and
--   `Server.StateQuery.QueryCodec`. A request id that makes the log campaigns or the event handler panic
--   gives `none`.
--   The libraries of all parts of the server are one record, `Server.Listening.Libraries`. A message to
--   the server is handled as a whole, and a panic there is `none`.
--   What a runtime or the file system answers to the control loop comes with each event, and what
--   the loop does outside its own state is a list of effects.
--   What the runtimes and workloads answer to the agent comes with each message. A state that the scheduler
--   reports comes back to the agent's loop as one of its own states.
--   A 64-bit number of the backoff is a natural number modulo 2 ^ 64, as in a release build.
--   A `watch` channel of the retry manager is a number in the list of the values last sent.
--
-- Fuel: the search for cycles runs on `enough_fuel` rounds. The first visit of a workload is counted
-- with one round and with one and the number of its dependencies for each workload that it pushes;
-- an entry of the stack is removed once, and pushes at most its dependencies that do not exist.
-- The expansion of wildcards runs on `total_cost`, which counts one turn for each task, those that a turn
-- adds included, and is the number of turns that the loop takes.
-- The comparison of states runs on `pair_cost`, with one turn for a pair of mappings and three for each
-- pair below it, and the loops over a tree on `turns_of`, which counts the tasks that a task leads to.
-- The recursion goes as deep as the values and the masks are.
--
-- Not modelled: the runtime connectors, pipes, gRPC streams and the rest of the command line, which are
-- input and output; the lines of logs, and the conversion
-- of complete states to YAML mappings, which is left to the libraries.
pub mod Prelude
pub mod Api
pub mod Authorizer
pub mod Agent
pub mod Server
pub mod Ank
pub mod Common
