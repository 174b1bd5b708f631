-- ===== src/Server/Render.antt =====
-- The rendering of the workloads' templates: server/src/ankaios_server/config_renderer.rs, and
-- `WorkloadNamed::from` of ankaios_api/src/ank_base/workload.rs.
use ankaios.Prelude.{
  true, false, String, List, [], ◌∷◌, Option, none, some, Bool, Map, get, insert, is_empty, Result,
  ok, err, and_then,
}
use ankaios.Api.Instance.{InstanceName}
use ankaios.Api.Workload.{
  FileContent, text_data, binary_data, FileSpec, WorkloadSpec, WorkloadNamed,
}

-- The libraries that the server calls: the template engine with its strict mode, the hash of a
-- runtime configuration, and the regular expressions for fields and for filter masks.
pub record Engine : Type 1 where
  pub ConfigItem : Type 0
  pub render_template : String → Map ConfigItem → Option String
  pub hash_config : String → String
  pub matches_field : String → Bool
  pub matches_mask : String → Bool

pub data ConfigRenderError : Type 0 where
  field : String → ConfigRenderError
  files_with_mount_point : String → ConfigRenderError
  not_existing_config_key : String → ConfigRenderError

-- `map_err` of a template's error, whose text is left out, and `?`.
abbrev pub rendered :
    {A : Type 0}
    → Option String
    → ConfigRenderError
    → (String → Result ConfigRenderError A)
    → Result ConfigRenderError A
rendered none error next = err error
rendered (some text) error next = next text

-- The private data model of the server's state.
module _ (engine : Engine) where
  abbrev pub Configs : Type 0
  Configs = Map engine.ConfigItem

  -- The builder of instance names.
  abbrev pub build_instance_name : String → String → String → InstanceName
  build_instance_name agent name config = record {
    agent_name = agent;
    workload_name = name;
    id = engine.hash_config config;
  }

  unfoldable pub workload_named_from : String → WorkloadSpec → WorkloadNamed
  workload_named_from name workload = record {
    instance_name = build_instance_name workload.agent name workload.runtime_config;
    workload = workload;
  }

  unfoldable pub create_config_map :
      Configs → Map String → Configs → Result ConfigRenderError Configs
  create_config_map configs [] wl_config_map = ok wl_config_map
  create_config_map configs ((config_alias, config_key) ∷ aliases) wl_config_map =
      elim (get configs config_key) [
        | none ↦ err (not_existing_config_key config_key)
        | some config_value ↦
            create_config_map configs aliases (insert wl_config_map config_alias config_value)
      ]

  unfoldable pub render_content :
      Configs → String → FileContent → Result ConfigRenderError FileContent
  render_content config_map mount_point (text_data text) =
      rendered (engine.render_template text config_map) (files_with_mount_point mount_point)
        (λ t. ok (text_data t))
  render_content config_map mount_point (binary_data text) =
      rendered (engine.render_template text config_map) (files_with_mount_point mount_point)
        (λ t. ok (binary_data t))

  unfoldable pub render_files_field :
      Configs → List FileSpec → Result ConfigRenderError (List FileSpec)
  render_files_field config_map [] = ok []
  render_files_field config_map (f ∷ files) =
      and_then (render_content config_map f.mount_point f.file_content) (λ content.
        and_then (render_files_field config_map files)
          (λ rest. ok (record f { file_content = content } ∷ rest)))

  unfoldable pub render_workload_fields :
      String → WorkloadSpec → Configs → Result ConfigRenderError WorkloadNamed
  render_workload_fields name workload config_map =
      rendered (engine.render_template workload.runtime_config config_map) (field "runtimeConfig")
        (λ runtime_config.
          rendered (engine.render_template workload.agent config_map) (field "agent") (λ agent.
            and_then (render_files_field config_map workload.files) (λ files. ok (record {
              instance_name = build_instance_name agent name runtime_config;
              workload = record workload {
                agent = agent;
                runtime_config = runtime_config;
                files = files;
                configs = [];
              };
            }))))

  -- One workload of `render_workloads`.
  unfoldable pub render_workload :
      Configs → String → WorkloadSpec → Result ConfigRenderError WorkloadNamed
  render_workload configs name workload = elim (is_empty workload.configs) [
    | true ↦ ok (workload_named_from name workload)
    | false ↦
        and_then (create_config_map configs workload.configs [])
          (render_workload_fields name workload)
  ]

  unfoldable pub render_from :
      Configs → Map WorkloadSpec → Map WorkloadNamed → Result ConfigRenderError (Map WorkloadNamed)
  render_from configs [] done = ok done
  render_from configs ((name, workload) ∷ workloads) done =
      and_then (render_workload configs name workload)
        (λ w. render_from configs workloads (insert done name w))

  unfoldable pub render_workloads :
      Map WorkloadSpec → Configs → Result ConfigRenderError (Map WorkloadNamed)
  render_workloads workloads configs = render_from configs workloads []
