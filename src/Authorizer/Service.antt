-- ===== src/Authorizer/Service.antt =====
-- The authorizer: agent/src/control_interface/authorizer.rs. The logging of a decision is left out.
use ankaios.Prelude.{
  String, Bool, true, false, not, List, [], ◌∷◌, ◌++◌, map, Option, none, some, any, all, find,
  if◌then◌else◌,
}
use ankaios.Authorizer.Pattern.{
  path_from, PathPattern, AllowPathPattern, DenyPathPattern, allow_pattern, deny_pattern,
}
use ankaios.Authorizer.Rules.{StateRule, LogRule, rules_match, log_rule_matches}

pub record Authorizer : Type 0 where
  pub state_allow_write : List (StateRule AllowPathPattern)
  pub state_allow_read : List (StateRule AllowPathPattern)
  pub state_deny_write : List (StateRule DenyPathPattern)
  pub state_deny_read : List (StateRule DenyPathPattern)
  pub log_allow : List LogRule
  pub log_deny : List LogRule

-- What the authorizer reads of a `Request`: the masks, and the workload names of a logs request.
pub data RequestContent : Type 0 where
  complete_state_request : (field_mask : List String) → RequestContent
  update_state_request : (update_mask : List String) → RequestContent
  logs_request : (workload_names : List String) → RequestContent
  logs_cancel_request : RequestContent
  events_cancel_request : RequestContent

pub record Request : Type 0 where
  pub request_id : String
  pub request_content : Option RequestContent

-- The test of one mask: an allow rule matches, and no deny rule does.
unfoldable pub mask_allowed :
    List (StateRule AllowPathPattern) → List (StateRule DenyPathPattern) → String → Bool
mask_allowed allow_rules deny_rules path_string =
    let path = path_from path_string in
    if not (rules_match allow_rules path).0
    then false
    else if not (rules_match deny_rules path).0
    then true
    else false

-- An empty mask asks for the whole state.
abbrev pub request_mask : List String → List String
request_mask [] = "" ∷ []
request_mask (m ∷ masks) = m ∷ masks

unfoldable pub check_state_rules :
    List String → List (StateRule AllowPathPattern) → List (StateRule DenyPathPattern) → Bool
check_state_rules state_request_mask allow_rules deny_rules =
    all (mask_allowed allow_rules deny_rules) (request_mask state_request_mask)

unfoldable pub any_log_rule : List LogRule → String → Bool
any_log_rule rules workload_name = any (λ rule. log_rule_matches rule workload_name) rules

unfoldable pub check_log_rules : List LogRule → List LogRule → List String → Bool
check_log_rules log_allow log_deny workload_names =
    elim (find (λ name. not (any_log_rule log_allow name)) workload_names) [
      | some not_allowed ↦ false
      | none ↦ elim (find (any_log_rule log_deny) workload_names) [
        | some denied ↦ false
        | none ↦ true
      ]
    ]

unfoldable pub authorize_content : Authorizer → RequestContent → Bool
authorize_content a (complete_state_request field_mask) =
    check_state_rules field_mask a.state_allow_read a.state_deny_read
authorize_content a (update_state_request update_mask) =
    check_state_rules update_mask a.state_allow_write a.state_deny_write
authorize_content a (logs_request workload_names) =
    check_log_rules a.log_allow a.log_deny workload_names
authorize_content a logs_cancel_request = true
authorize_content a events_cancel_request = true

unfoldable pub authorize : Authorizer → Request → Bool
authorize a request = elim request.request_content [
  | none ↦ false
  | some content ↦ authorize_content a content
]

pub data ReadWriteEnum : Type 0 where
  rw_nothing rw_read rw_write rw_read_write : ReadWriteEnum

pub data AccessRightsRule : Type 0 where
  state_rule : (operation : ReadWriteEnum) (filter_masks : List String) → AccessRightsRule
  log_rule : (workload_names : List String) → AccessRightsRule

pub record ControlInterfaceAccess : Type 0 where
  pub allow_rules : List AccessRightsRule
  pub deny_rules : List AccessRightsRule

pub record ReadWriteFiltered (P : Type 0) : Type 0 where
  pub state_read : List (StateRule P)
  pub state_write : List (StateRule P)
  pub log : List LogRule

module _ {P : Type 0} ⦃pattern : PathPattern P⦄ where
  -- The body of the loop of `split_rules`: one rule is pushed to the lists that it belongs to.
  unfoldable pub push_rule : ReadWriteFiltered P → AccessRightsRule → ReadWriteFiltered P
  push_rule res (state_rule operation filter_masks) =
      let rule : StateRule P = record { patterns = map pattern.from filter_masks } in
      elim operation [
        | rw_nothing ↦ res
        | rw_read ↦ record res { state_read = res.state_read ++ rule ∷ [] }
        | rw_write ↦ record res { state_write = res.state_write ++ rule ∷ [] }
        | rw_read_write ↦ record res {
          state_read = res.state_read ++ rule ∷ [];
          state_write = res.state_write ++ rule ∷ [];
        }
      ]
  push_rule res (log_rule workload_names) = record res {
    log = res.log ++ record { patterns = workload_names } ∷ [];
  }

  unfoldable pub split_rules_from :
      ReadWriteFiltered P → List AccessRightsRule → ReadWriteFiltered P
  split_rules_from res [] = res
  split_rules_from res (access_rule ∷ rule_list) =
      split_rules_from (push_rule res access_rule) rule_list

  unfoldable pub split_rules : List AccessRightsRule → ReadWriteFiltered P
  split_rules = split_rules_from (record { state_read = []; state_write = []; log = [] })

-- `Authorizer::from(&ControlInterfaceAccessSpec)`
unfoldable pub authorizer_from : ControlInterfaceAccess → Authorizer
authorizer_from value =
    let allow_rules : ReadWriteFiltered AllowPathPattern = split_rules value.allow_rules in
    let deny_rules : ReadWriteFiltered DenyPathPattern = split_rules value.deny_rules in
    record {
      state_allow_write = allow_rules.state_write;
      state_allow_read = allow_rules.state_read;
      state_deny_write = deny_rules.state_write;
      state_deny_read = deny_rules.state_read;
      log_allow = allow_rules.log;
      log_deny = deny_rules.log;
    }
