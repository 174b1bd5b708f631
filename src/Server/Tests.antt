-- ===== src/Server/Tests.antt =====
-- A small server, and the theorems at these inputs.
use ankaios.Prelude.{
  ok, err, String, ◌≡◌, refl, true, [], ◌∷◌, some, Map, get, insert, remove, member, insert_sorted,
  sort, list_eq, sub_map, map_eq,
}
use ankaios.Api.Execution.{is_removed}
use ankaios.Api.Instance.{instance_eq}
use ankaios.Api.Workload.{
  AddCondition, add_cond_running, del_cond_not_pending_nor_running, never, WorkloadSpec,
  WorkloadNamed, workload_spec_eq, workload_named_eq,
}
use ankaios.Server.CycleCheck.Graph.{
  push_dependencies, visit_or_pop, round, search, visit_all, dependency_names, weight, weights,
  costs, enough_fuel, dfs,
}
use ankaios.Server.DeleteGraph.{
  insert_dependencies, insert_workloads, apply_delete_conditions_to,
  remove_deleted_workloads_from_delete_graph,
}
use ankaios.Server.Render.{
  Engine, workload_named_from, create_config_map, render_content, render_files_field,
  render_workload_fields, render_workload, render_from, render_workloads,
}
use ankaios.Server.Validation.{
  validate_field_not_empty, validate_max_field_length, validate_field_pattern,
  validate_workload_name_format, validate_access, validate_rule, validate_fields_format,
  validate_workloads,
}
use ankaios.Server.ServerState.{
  deleted_workload, cycle_in_dependencies, DesiredState, ServerState, updated_or_deleted, new_ones,
  all_differences, extract_added_and_deleted_workloads, store_update, update_workloads,
  update_rendered, update,
}
use ankaios.Server.RequestId.{AgentRequestId, agent_request_id, to_string_id, request_id_from}
use ankaios.Server.RequestTexts.{request_id_from-to_string_id}
use ankaios.Prelude.{starts_with, has_char}

-- Templates without placeholders, and a hash that is the text itself.
abbrev pub engine : Engine
engine = record {
  ConfigItem = String;
  render_template = λ text configs. some text;
  hash_config = λ text. text;
  matches_field = λ text. true;
  matches_mask = λ text. true;
}

abbrev pub workload : Map AddCondition → WorkloadSpec
workload dependencies = record {
  agent = "a";
  tags = [];
  dependencies = dependencies;
  restart_policy = never;
  runtime = "podman";
  runtime_config = "image";
  files = [];
  configs = ("alias", "key") ∷ [];
  control_interface_access = record { allow_rules = []; deny_rules = [] };
}

abbrev pub desired : Map WorkloadSpec → DesiredState engine
desired workloads = record {
  api_version = "v1";
  workloads = workloads;
  configs = ("key", "value") ∷ [];
}

abbrev pub empty_state : ServerState engine
empty_state = record { desired_state = desired []; rendered_workloads = []; delete_graph = [] }

abbrev web_on_db : DesiredState engine
web_on_db = desired (("web", workload (("db", add_cond_running) ∷ [])) ∷ ("db", workload []) ∷ [])

abbrev cyclic : DesiredState engine
cyclic = desired (("web", workload (("web", add_cond_running) ∷ [])) ∷ [])

abbrev named : String → Map AddCondition → WorkloadNamed
named name dependencies = record {
  instance_name = record { workload_name = name; agent_name = "a"; id = "image" };
  workload = record (workload dependencies) { configs = [] };
}

program : Unit {0}
unfolding get insert remove member insert_sorted sort list_eq sub_map map_eq is_removed instance_eq
    workload_spec_eq workload_named_eq push_dependencies visit_or_pop round search visit_all
    dependency_names weight weights costs enough_fuel dfs insert_dependencies insert_workloads
    apply_delete_conditions_to remove_deleted_workloads_from_delete_graph workload_named_from
    create_config_map render_content render_files_field render_workload_fields render_workload
    render_from render_workloads validate_field_not_empty validate_max_field_length
    validate_field_pattern validate_workload_name_format validate_access validate_rule
    validate_fields_format validate_workloads updated_or_deleted new_ones all_differences
    extract_added_and_deleted_workloads store_update update_workloads update_rendered update
program = tt

rejects_cycle : (update engine empty_state cyclic).1 ≡ err (cycle_in_dependencies "web")
unfolding program
rejects_cycle = refl

adds_both :
    (update engine empty_state web_on_db).1
    ≡ ok (
        some (record {
          added_workloads = named "web" (("db", add_cond_running) ∷ []) ∷ named "db" [] ∷ [];
          deleted_workloads = [];
        }))
unfolding program
adds_both = refl

-- The database is deleted after the workload that needs it.
deletes_with_condition :
    (update engine (update engine empty_state web_on_db).0 (desired [])).1
    ≡ ok (
        some (record {
          added_workloads = [];
          deleted_workloads =
              deleted_workload (named "web" [])
              ∷ record (deleted_workload (named "db" [])) {
                dependencies = ("web", del_cond_not_pending_nor_running) ∷ [];
              }
              ∷ [];
        }))
unfolding program
deletes_with_condition = refl

abbrev updated_state : ServerState engine
updated_state = (update engine empty_state web_on_db).0

abbrev log_request : AgentRequestId
log_request = record { agent_name = "agent_A"; workload_name = "web"; request_id = "1@a" }

request_id_from-to_string_id_example :
    request_id_from (to_string_id (agent_request_id log_request))
    ≡ some (agent_request_id log_request)
unfolding to_string_id starts_with has_char
request_id_from-to_string_id_example =
    request_id_from-to_string_id (agent_request_id log_request) (refl, (refl, refl))
