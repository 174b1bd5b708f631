-- ===== src/Server/PreRendering.antt =====
-- What is checked of a desired state before its workloads are rendered: `validate_pre_rendering` of
-- ankaios_api/src/ank_base/complete_state.rs, with the references of workload.rs.
use Prim.Native.String.{len}
use ankaios.Prelude.{
  ltb, String, ◌==◌, Bool, not, ◌||◌, if◌then◌else◌, [], ◌∷◌, Option, none, some, Map,
}
use ankaios.Api.Workload.{WorkloadSpec}
use ankaios.Server.Render.{Engine}
use ankaios.Server.Validation.{
  max_field_length, then_check, validate_field_not_empty, validate_max_field_length,
  validate_field_pattern,
}
use ankaios.Server.ServerState.{DesiredState}

mutual
  pub data ConfigItemSpec : Type 0 where
    string : String → ConfigItemSpec
    array : ConfigItems → ConfigItemSpec
    object : ConfigFields → ConfigItemSpec

  pub data ConfigItems : Type 0 where
    no_items : ConfigItems
    item : ConfigItemSpec → ConfigItems → ConfigItems

  pub data ConfigFields : Type 0 where
    no_fields : ConfigFields
    config_field : String → ConfigItemSpec → ConfigFields → ConfigFields

pub data PreRenderingError : Type 0 where
  unsupported_api_version unsupported_config_key : String → PreRenderingError
  unsupported_config_alias unsupported_config_reference : String → PreRenderingError

-- The regular expression for the keys, and the structure of an item.
pub record ConfigKeys (engine : Engine) : Type 0 where
  pub matches_key : String → Bool
  pub config_item : engine.ConfigItem → ConfigItemSpec

abbrev pub current_api_version : String
current_api_version = "v1"

abbrev pub previous_api_version : String
previous_api_version = "v0.1"

module _ (engine : Engine) where
  -- `StateSpec::default`
  abbrev pub default_desired_state : DesiredState engine
  default_desired_state = record { api_version = current_api_version; workloads = []; configs = [] }

  unfoldable pub validate_api_version : DesiredState engine → Option PreRenderingError
  validate_api_version state =
      if state.api_version == current_api_version || state.api_version == previous_api_version
      then none
      else some (unsupported_api_version state.api_version)

  abbrev pub check_field : String → PreRenderingError → Option PreRenderingError
  check_field value error =
      elim (then_check (validate_field_not_empty value)
        (then_check (validate_max_field_length value) (validate_field_pattern engine value))) [
          | none ↦ none
          | some e ↦ some error
        ]

  abbrev pub or_next :
      Option PreRenderingError → Option PreRenderingError → Option PreRenderingError
  or_next none next = next
  or_next (some e) next = some e

  unfoldable pub validate_references : Map String → Option PreRenderingError
  validate_references [] = none
  validate_references ((config_alias, referenced_config) ∷ configs) =
      or_next (check_field config_alias (unsupported_config_alias config_alias)) (
        or_next (check_field referenced_config (unsupported_config_reference referenced_config))
          (validate_references configs))

  unfoldable pub validate_config_reference_format : WorkloadSpec → Option PreRenderingError
  validate_config_reference_format w = validate_references w.configs

  unfoldable pub validate_all_references : Map WorkloadSpec → Option PreRenderingError
  validate_all_references [] = none
  validate_all_references ((name, w) ∷ workloads) =
      or_next (validate_config_reference_format w) (validate_all_references workloads)

  module _ (keys : ConfigKeys engine) where
    unfoldable pub validate_key : String → Option PreRenderingError
    validate_key key =
        if ltb max_field_length (len key) || not (keys.matches_key key)
        then some (unsupported_config_key key)
        else none

    unfoldable mutual
      pub validate_config_map : ConfigFields → Option PreRenderingError
      validate_config_map no_fields = none
      validate_config_map (config_field key value fields) =
          or_next (validate_key key) (or_next (validate_value value) (validate_config_map fields))

      pub validate_value : ConfigItemSpec → Option PreRenderingError
      validate_value (string text) = none
      validate_value (array values) = validate_items values
      validate_value (object fields) = validate_config_map fields

      -- Only the objects among the elements are checked.
      pub validate_items : ConfigItems → Option PreRenderingError
      validate_items no_items = none
      validate_items (item (object fields) values) =
          or_next (validate_config_map fields) (validate_items values)
      validate_items (item (string text) values) = validate_items values
      validate_items (item (array nested) values) = validate_items values

    -- The map of a state.
    abbrev pub config_fields_of : Map engine.ConfigItem → ConfigFields
    config_fields_of [] = no_fields
    config_fields_of ((key, value) ∷ configs) =
        config_field key (keys.config_item value) (config_fields_of configs)

    unfoldable pub validate_configs_format : DesiredState engine → Option PreRenderingError
    validate_configs_format state =
        or_next (validate_config_map (config_fields_of state.configs))
          (validate_all_references state.workloads)

    unfoldable pub validate_pre_rendering : DesiredState engine → Option PreRenderingError
    validate_pre_rendering state =
        or_next (validate_api_version state) (validate_configs_format state)
