-- ===== src/Api/Workload.antt =====
-- Workloads: ankaios_api/src/ank_base/workload.rs, and the generated structures of its fields.
use ankaios.Prelude.{String, Bool, true, false, ◌&&◌, ◌==◌, List, Map, map_eq, list_eq}
use ankaios.Api.Instance.{InstanceName, instance_eq}
use ankaios.Authorizer.Service.{
  ControlInterfaceAccess, AccessRightsRule, state_rule, log_rule, ReadWriteEnum, rw_nothing,
  rw_read, rw_write, rw_read_write,
}

pub data AddCondition : Type 0 where
  add_cond_running add_cond_succeeded add_cond_failed : AddCondition

pub data DeleteCondition : Type 0 where
  del_cond_running del_cond_not_pending_nor_running : DeleteCondition

pub data RestartPolicy : Type 0 where
  never on_failure always : RestartPolicy

pub data FileContent : Type 0 where
  text_data binary_data : String → FileContent

pub record FileSpec : Type 0 where
  pub mount_point : String
  pub file_content : FileContent

pub record WorkloadSpec : Type 0 where
  pub agent : String
  pub tags : Map String
  pub dependencies : Map AddCondition
  pub restart_policy : RestartPolicy
  pub runtime : String
  pub runtime_config : String
  pub files : List FileSpec
  pub configs : Map String
  pub control_interface_access : ControlInterfaceAccess

pub record WorkloadNamed : Type 0 where
  pub instance_name : InstanceName
  pub workload : WorkloadSpec

pub record DeletedWorkload : Type 0 where
  pub instance_name : InstanceName
  pub dependencies : Map DeleteCondition

-- The derived `==` of each type.
abbrev pub add_condition_eq : AddCondition → AddCondition → Bool
add_condition_eq add_cond_running add_cond_running = true
add_condition_eq add_cond_succeeded add_cond_succeeded = true
add_condition_eq add_cond_failed add_cond_failed = true
add_condition_eq _ _ = false

abbrev restart_policy_eq : RestartPolicy → RestartPolicy → Bool
restart_policy_eq never never = true
restart_policy_eq on_failure on_failure = true
restart_policy_eq always always = true
restart_policy_eq _ _ = false

abbrev read_write_eq : ReadWriteEnum → ReadWriteEnum → Bool
read_write_eq rw_nothing rw_nothing = true
read_write_eq rw_read rw_read = true
read_write_eq rw_write rw_write = true
read_write_eq rw_read_write rw_read_write = true
read_write_eq _ _ = false

abbrev file_content_eq : FileContent → FileContent → Bool
file_content_eq (text_data s) (text_data t) = s == t
file_content_eq (binary_data s) (binary_data t) = s == t
file_content_eq _ _ = false

abbrev file_eq : FileSpec → FileSpec → Bool
file_eq f g = f.mount_point == g.mount_point && file_content_eq f.file_content g.file_content

abbrev rule_eq : AccessRightsRule → AccessRightsRule → Bool
rule_eq (state_rule o m) (state_rule p n) = read_write_eq o p && list_eq ◌==◌ m n
rule_eq (log_rule m) (log_rule n) = list_eq ◌==◌ m n
rule_eq _ _ = false

abbrev access_eq : ControlInterfaceAccess → ControlInterfaceAccess → Bool
access_eq a b =
    list_eq rule_eq a.allow_rules b.allow_rules && list_eq rule_eq a.deny_rules b.deny_rules

unfoldable pub workload_spec_eq : WorkloadSpec → WorkloadSpec → Bool
unfolding map_eq list_eq
workload_spec_eq v w =
    v.agent == w.agent
    && (map_eq ◌==◌ v.tags w.tags
        && (map_eq add_condition_eq v.dependencies w.dependencies
            && (restart_policy_eq v.restart_policy w.restart_policy
                && (v.runtime == w.runtime
                    && (v.runtime_config == w.runtime_config
                        && (list_eq file_eq v.files w.files
                            && (map_eq ◌==◌ v.configs w.configs
                                && access_eq v.control_interface_access
                                    w.control_interface_access)))))))

unfoldable pub workload_named_eq : WorkloadNamed → WorkloadNamed → Bool
workload_named_eq v w =
    instance_eq v.instance_name w.instance_name && workload_spec_eq v.workload w.workload
