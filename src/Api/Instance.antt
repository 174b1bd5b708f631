-- ===== src/Api/Instance.antt =====
-- Workload instance names: ankaios_api/src/ank_base/workload_instance_name.rs.
use Prim.Native.String.{◌++◌ as ◌<>◌}
use ankaios.Prelude.{
  ℕ, String, ◌≡◌, ◌↔◌, Bool, true, ◌&&◌, ◌==◌, List, [], ◌∷◌, Option, none, some, eq_iff, split,
  arith,
}

pub record InstanceName : Type 0 where
  pub workload_name : String
  pub agent_name : String
  pub id : String

-- `==` of the derived `PartialEq`.
unfoldable pub instance_eq : InstanceName → InstanceName → Bool
instance_eq i j =
    i.workload_name == j.workload_name && (i.agent_name == j.agent_name && i.id == j.id)

-- INSTANCE_NAME_SEPARATOR
abbrev pub instance_name_separator : ℕ
instance_name_separator = b'.'

-- `try_from(&str)`: three parts, in the order of `InstanceNameParts`. The error text is left out.
unfoldable pub parts_to_instance : List String → Option InstanceName
parts_to_instance (w ∷ i ∷ a ∷ []) = some (record { workload_name = w; id = i; agent_name = a })
parts_to_instance _ = none

unfoldable pub instance_from : String → Option InstanceName
instance_from value = parts_to_instance (split instance_name_separator value)

-- `Display`
unfoldable pub instance_to_string : InstanceName → String
instance_to_string n = n.workload_name <> ("." <> (n.id <> ("." <> n.agent_name)))

pub instance_eq_iff : (i j : InstanceName) → (instance_eq i j ≡ true) ↔ (i ≡ j)
unfolding instance_eq
instance_eq_iff i j = ground (
  arith,
  eq_iff i.workload_name j.workload_name,
  eq_iff i.agent_name j.agent_name,
  eq_iff i.id j.id,
)
