-- ===== src/Server/Validation.antt =====
-- The format of a rendered workload's fields: ankaios_api/src/helpers.rs, and the `validate` functions of
-- ankaios_api/src/ank_base/workload.rs and control_interface_access.rs. The texts of the errors are
-- left out.
use Prim.Native.String.{len}
use ankaios.Prelude.{
  ℕ, String, ◌+◌, ◌==◌, ltb, List, [], ◌∷◌, ◌++◌, Option, none, some, Map, split_once, has_char,
  if◌then◌else◌,
}
use ankaios.Api.Workload.{WorkloadNamed}
use ankaios.Authorizer.Service.{AccessRightsRule, state_rule, log_rule, ControlInterfaceAccess}
use ankaios.Server.Render.{Engine}

pub data Invalid : Type 0 where
  empty_field field_characters field_length filter_length : Invalid
  agent_name_mismatch empty_filter_mask unsupported_filter_mask many_wildcards : Invalid

abbrev pub max_field_length : ℕ
max_field_length = 63

-- A check returns its error, if any; `and_then` of checks.
abbrev pub then_check : Option Invalid → Option Invalid → Option Invalid
then_check none next = next
then_check (some e) next = some e

-- `try_for_each`
abbrev pub check_each {ℓ} : {A : Type ℓ} → (A → Option Invalid) → List A → Option Invalid
check_each f [] = none
check_each f (x ∷ xs) = then_check (f x) (check_each f xs)

unfoldable pub validate_field_not_empty : String → Option Invalid
validate_field_not_empty value = if value == "" then some empty_field else none

unfoldable pub validate_max_field_length : String → Option Invalid
validate_max_field_length value =
    if ltb max_field_length (len value) then some field_length else none

unfoldable pub validate_max_length_filter : String → Option Invalid
validate_max_length_filter value =
    if ltb (max_field_length + 1) (len value) then some filter_length else none

module _ (engine : Engine) where
  unfoldable pub validate_field_pattern : String → Option Invalid
  validate_field_pattern value = if engine.matches_field value then none else some field_characters

  unfoldable pub validate_workload_name_format : String → Option Invalid
  validate_workload_name_format name =
      then_check (validate_field_not_empty name)
        (then_check (validate_field_pattern name) (validate_max_field_length name))

  unfoldable pub validate_wildcard_workload_filter_format :
      String → String → String → Option Invalid
  validate_wildcard_workload_filter_format workload_filter prefix suffix =
      then_check (validate_field_not_empty workload_filter) (
        then_check (validate_max_length_filter workload_filter)
          (then_check (validate_field_pattern prefix) (validate_field_pattern suffix)))

  -- The first and the last wildcard are the same if none follows the first.
  unfoldable pub validate_log_rule_workload_name : String → Option Invalid
  validate_log_rule_workload_name name = elim (split_once b'*' name) [
    | none ↦ validate_workload_name_format name
    | some (prefix, suffix) ↦
        if has_char b'*' suffix
        then some many_wildcards
        else validate_wildcard_workload_filter_format name prefix suffix
  ]

  unfoldable pub validate_filter_mask : String → Option Invalid
  validate_filter_mask filter =
      if filter == ""
      then some empty_filter_mask
      else if engine.matches_mask filter
      then none
      else some unsupported_filter_mask

  unfoldable pub validate_rule : AccessRightsRule → Option Invalid
  validate_rule (state_rule operation filter_masks) = check_each validate_filter_mask filter_masks
  validate_rule (log_rule workload_names) =
      check_each validate_log_rule_workload_name workload_names

  unfoldable pub validate_access : ControlInterfaceAccess → Option Invalid
  validate_access access = check_each validate_rule (access.allow_rules ++ access.deny_rules)

  -- An empty agent name is allowed.
  unfoldable pub validate_fields_format : WorkloadNamed → Option Invalid
  validate_fields_format w =
      then_check (validate_workload_name_format w.instance_name.workload_name) (
        then_check (validate_field_pattern w.workload.agent) (
          then_check
            (if w.instance_name.agent_name == w.workload.agent
              then none
              else some agent_name_mismatch)
            (validate_access w.workload.control_interface_access)))

  -- `RenderedWorkloads::validate`
  unfoldable pub validate_workloads : Map WorkloadNamed → Option Invalid
  validate_workloads [] = none
  validate_workloads ((name, w) ∷ workloads) =
      then_check (validate_fields_format w) (validate_workloads workloads)
