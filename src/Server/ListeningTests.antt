-- ===== src/Server/ListeningTests.antt =====
-- A server at small libraries: a client subscribes and adds a workload, an agent connects, and the
-- theorems at this run.
use ankaios.Prelude.{
  String, ◌≡◌, refl, true, false, List, [], ◌∷◌, none, some, ok, Map, collected, get, insert,
  remove, member, insert_sorted, sort, list_eq, sub_map, map_eq, starts_with, work, turns_of,
  remove_from_set, split_once, modify,
}
use ankaios.Common.Sample.{
  Node, Fields, word, map, end, field, sample, sample_comparison, find_field, put_field, drop_field,
  list_fields, depth_of, depth_of_fields, same_node, same_fields,
}
use ankaios.Api.Workload.{WorkloadSpec, workload_spec_eq, workload_named_eq}
use ankaios.Server.Tests.{engine, workload, desired}
use ankaios.Server.ServerState.{
  DesiredState, updated_or_deleted, new_ones, all_differences, extract_added_and_deleted_workloads,
  store_update, update_workloads, update_rendered, update, workloads_on, get_workloads_for_agent,
  desired_state_contains_instance_name, cleanup_state,
}
use ankaios.Server.NewState.{StateCodec, generate_new_state}
use ankaios.Server.StateQuery.{QueryCodec, get_complete_state_by_field_mask}
use ankaios.Server.PreRendering.{
  string, unsupported_api_version, validate_api_version, validate_references,
  validate_config_reference_format, validate_all_references, validate_key, validate_configs_format,
  validate_pre_rendering, validate_config_map, validate_value, validate_items,
}
use ankaios.Server.Listening.{
  AgentAttributes, Libraries, ToServer, agent_hello, agent_gone, request, stop,
  complete_state_request, update_state_request, FromServer, error_response, AnkaiosServer, Handled,
  new_server, wrong_format, state_events, handle_agent_hello, handle_agent_load_status,
  handle_agent_gone, handle_update_workload_state, handle_goodbye,
}
use ankaios.Server.Listening.Runs.Answers.{answers}
use ankaios.Server.Listening.Runs.Answered.{AreReadable, listen_to_agents-answers}
use ankaios.Common.Sample.Keys.{text_keys}
use ankaios.Server.Listening.Runs.Rejections.{IsRejected, handle_update_state_request-rejects}
use ankaios.Server.Listening.Runs.ValidRuns.{IsValidServer, listen_to_agents-IsValidServer}
use ankaios.Api.Execution.{is_removed, is_pending_initial}
use ankaios.Api.Instance.{instance_eq, instance_to_string}
use ankaios.Server.CycleCheck.Graph.{
  push_dependencies, visit_or_pop, round, search, visit_all, dependency_names, weight, weights,
  costs, enough_fuel, dfs,
}
use ankaios.Server.DeleteGraph.{
  insert_dependencies, insert_workloads, apply_delete_conditions_to,
  remove_deleted_workloads_from_delete_graph,
}
use ankaios.Server.Render.{
  workload_named_from, create_config_map, render_content, render_files_field,
  render_workload_fields, render_workload, render_from, render_workloads,
}
use ankaios.Server.Validation.{
  validate_field_not_empty, validate_max_field_length, validate_field_pattern,
  validate_workload_name_format, validate_access, validate_rule, validate_fields_format,
  validate_workloads,
}
use ankaios.Common.Path.{split_last}
use ankaios.Common.Object.{set_in, set_from, set}
use ankaios.Server.RequestId.{
  to_string_id, agent_id_eq, cli_id_from, agent_id_from, request_id_from, cli_id_eq,
}
use ankaios.Server.Comparator.{
  pop, insert_path, insert_first, insert_both, insert_difference, insert_all,
  copy_tree_nodes_without_data, copied, added_key, compare_sequences, compare_values, common_key,
  old_key, push_children, pair_differences, pair_children, compare_loop, pair_cost,
  state_differences,
}
use ankaios.Server.Comparator.Trees.{
  object_is_empty, difference_tree_is_empty, state_difference_tree_is_empty, to_mapping,
}
use ankaios.Server.Events.Altered.{
  update_path_with_new_key, keyed_entries, leaf_step, collect_all_leaf_paths_iterative, null_turn,
  pair_turn, extended_turn, wildcard_turn, named_turn, mask_step, fields_of_mask,
  create_altered_fields_matching_subscriber_masks,
}
use ankaios.Server.Events.Sending.{
  all_empty, mappings_of, altered_fields_of, subscriber_events, send_events,
}
use ankaios.Api.StatesMap.{
  get_workload_state_for_workload, states_of_ids, states_of_names, get_workload_state_for_agent,
  get_workload_state_excluding_agent, agent_disconnected_on, at_ids, or_insert, initial_state,
  process_new_state, process_new_states,
}
use ankaios.Server.NotStarted.{
  deleted_workload_never_started_on_agent, handle_not_started_deleted_workloads,
  cancel_log_requests, cancel_log_requests_of_deleted_workloads, stop_responses,
  send_log_stop_response_for_disconnected_agent,
}
use ankaios.Server.LogCampaigns.{
  retain_other_requests, insert_request_id, insert_log_providers, insert_log_campaign,
  forget_workload_requests, remove_collector_campaign_entry, forget_agent_requests,
  remove_agent_log_campaign_entry, forget_cli_requests, remove_cli_log_campaign_entry,
  remove_request_id, remove_logs_request_id,
}
use ankaios.Server.Events.{
  insert_subscription, retain_ids, add_subscriber, remove_subscriber, remove_subscribers_of_agent,
  remove_cli_subscriber, remove_workload_subscriber, request_id_matches_agent_and_workload_name,
}
use ankaios.Server.Listening.Requests.{
  handle_complete_state_request, set_agent_tags, update_events, handle_post_update_steps,
  handle_same_workloads, update_server_state, handle_update_state_request, handle_logs_request,
  handle_request,
}
use ankaios.Server.Listening.Runs.{start, handle_message, listen_to_agents}

program : Unit {0}
unfolding get insert remove member insert_sorted sort list_eq sub_map map_eq is_removed instance_eq
    workload_spec_eq workload_named_eq push_dependencies visit_or_pop round search visit_all
    dependency_names weight weights costs enough_fuel dfs insert_dependencies insert_workloads
    apply_delete_conditions_to remove_deleted_workloads_from_delete_graph workload_named_from
    create_config_map render_content render_files_field render_workload_fields render_workload
    render_from render_workloads validate_field_not_empty validate_max_field_length
    validate_field_pattern validate_workload_name_format validate_access validate_rule
    validate_fields_format validate_workloads updated_or_deleted new_ones all_differences
    extract_added_and_deleted_workloads store_update update_workloads update_rendered update
    split_last set_in set_from set find_field put_field drop_field list_fields generate_new_state
    starts_with get_complete_state_by_field_mask depth_of depth_of_fields same_node same_fields
    to_string_id pop insert_path insert_first insert_both insert_difference insert_all
    copy_tree_nodes_without_data copied added_key compare_sequences compare_values common_key
    old_key push_children pair_differences pair_children compare_loop pair_cost state_differences
    object_is_empty difference_tree_is_empty state_difference_tree_is_empty to_mapping
    update_path_with_new_key keyed_entries leaf_step collect_all_leaf_paths_iterative null_turn
    pair_turn extended_turn wildcard_turn named_turn mask_step fields_of_mask
    create_altered_fields_matching_subscriber_masks all_empty mappings_of altered_fields_of
    subscriber_events send_events work turns_of get_workload_state_for_workload is_pending_initial
    deleted_workload_never_started_on_agent handle_not_started_deleted_workloads cancel_log_requests
    cancel_log_requests_of_deleted_workloads stop_responses
    send_log_stop_response_for_disconnected_agent agent_id_eq remove_from_set retain_other_requests
    insert_request_id insert_log_providers insert_log_campaign forget_workload_requests
    remove_collector_campaign_entry split_once cli_id_from agent_id_from request_id_from cli_id_eq
    insert_subscription retain_ids add_subscriber remove_subscriber remove_subscribers_of_agent
    remove_cli_subscriber remove_workload_subscriber request_id_matches_agent_and_workload_name
    forget_agent_requests remove_agent_log_campaign_entry forget_cli_requests
    remove_cli_log_campaign_entry remove_request_id remove_logs_request_id states_of_ids
    states_of_names get_workload_state_for_agent get_workload_state_excluding_agent
    agent_disconnected_on at_ids or_insert initial_state process_new_state process_new_states
    validate_api_version validate_references validate_config_reference_format
    validate_all_references validate_key validate_configs_format validate_pre_rendering state_events
    handle_agent_hello handle_agent_load_status handle_agent_gone handle_update_workload_state
    handle_goodbye handle_complete_state_request set_agent_tags update_events
    handle_post_update_steps handle_same_workloads update_server_state handle_update_state_request
    handle_logs_request handle_request start handle_message listen_to_agents workloads_on
    get_workloads_for_agent desired_state_contains_instance_name cleanup_state instance_to_string
    validate_config_map validate_value validate_items modify
program = tt

abbrev codec : StateCodec engine sample
codec = record {
  Update = DesiredState engine;
  AgentMap = String;
  object_of_state = λ d. none;
  object_of_update = λ update. none;
  spec_of_update = λ update. some (update, "agents");
  spec_of_object = λ o. none;
}

abbrev query_codec : QueryCodec sample
query_codec = record {
  CompleteState = Node;
  is_state_filter = λ filter. false;
  is_substate_filter = λ filter. false;
  object_of = λ state. state;
  complete_state_of = λ object. some object;
}

abbrev pub agents_on : Map WorkloadSpec → Fields
agents_on [] = end
agents_on ((name, w) ∷ workloads) = field name (word w.agent) (agents_on workloads)

abbrev pub tags_of : Map (AgentAttributes String String) → Fields
tags_of [] = end
tags_of ((name, a) ∷ agents) = field name (word a.tags) (tags_of agents)

abbrev pub mapping_in : Node → Fields
mapping_in (map m) = m
mapping_in _ = end

abbrev library : Libraries
library = record {
  engine = engine;
  yaml = sample;
  comparison = sample_comparison;
  states = codec;
  queries = query_codec;
  keys = record { matches_key = λ key. true; config_item = λ text. string text };
  Tags = String;
  Status = String;
  LogOptions = String;
  LogEntries = String;
  agents_of = λ agents. [];
  complete_state = λ d states agents.
      map (
        field "workloads" (map (agents_on d.workloads))
          (field "agents" (map (tags_of agents)) end));
  default_complete_state = map end;
  mapping_of = mapping_in;
}

abbrev first_result : Handled library → AnkaiosServer library × List (FromServer library)
first_result none = (new_server library, [])
first_result (some r) = r

-- A client asks for the state and its events, and agent `a` connects.
abbrev messages : List (ToServer library)
messages =
    request "cli-conn-1@1" (some (complete_state_request [] true))
    ∷ agent_hello "a" "fast"
    ∷ request "cli-conn-1@2"
        (some (update_state_request (some (desired (("web", workload []) ∷ []))) []))
    ∷ stop
    ∷ agent_gone "a"
    ∷ []

abbrev run : Handled library
run = listen_to_agents library (new_server library) messages

abbrev reached : AnkaiosServer library
reached = (first_result run).0

runs_to : run ≡ some (reached, (first_result run).1)
unfolding program
runs_to = refl

starts : start library none ≡ ok (new_server library, [])
unfolding program
starts = refl

listen_to_agents-IsValidServer_example : IsValidServer library reached
listen_to_agents-IsValidServer_example =
    listen_to_agents-IsValidServer library none (new_server library) reached [] (first_result run).1
      messages starts runs_to

-- The ids of the requests can be read.
readable : AreReadable library messages
unfolding program
readable = ((_, refl), (tt, ((_, refl), (tt, (tt, tt)))))

-- The answers of the run: one for each request.
listen_to_agents-answers_example :
    (last : AnkaiosServer library) × (sent : List (FromServer library)) × (listen_to_agents library
        (new_server library)
        messages
      ≡ some (last, sent))
    × (collected (answers library) sent ≡ "cli-conn-1@1" ∷ "cli-conn-1@2" ∷ [])
listen_to_agents-answers_example =
    listen_to_agents-answers library (λ state. text_keys (map (mapping_in state)))
      (new_server library) messages readable

-- An update with a version that the server does not know.
abbrev unknown_version : DesiredState engine
unknown_version = record (desired []) { api_version = "v7" }

is_rejected :
    IsRejected library reached
      (some unknown_version)
      []
      (wrong_format (unsupported_api_version "v7"))
unfolding program
is_rejected = refl

handle_update_state_request-rejects_example :
    handle_update_state_request library reached "cli-conn-1@4" (some unknown_version) []
    ≡ some
        (reached, error_response "cli-conn-1@4" (wrong_format (unsupported_api_version "v7")) ∷ [])
handle_update_state_request-rejects_example =
    handle_update_state_request-rejects library reached "cli-conn-1@4" (some unknown_version) []
      (wrong_format (unsupported_api_version "v7")) is_rejected
