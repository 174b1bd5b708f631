-- ===== src/Common/Yaml.antt =====
-- What the program uses of serde_yaml: the kinds of a value, mappings keyed by values, and lookup by
-- a text. The laws are what the library documents of its ordered mappings and of their values.
use ankaios.Prelude.{
  ℕ, ◌<◌, Bool, true, String, ◌==◌, if◌then◌else◌, List, All, IsIn, Option, none, some, ◌≡◌,
}

pub record Yaml : Type 1 where
  pub Value : Type 0
  pub Mapping : Type 0
  -- `Value::Null`, `Value::String` and `Value::Mapping`, and the tests for the kinds.
  pub null : Value
  pub text : String → Value
  pub from_mapping : Mapping → Value
  pub as_mapping : Value → Option Mapping
  pub as_sequence : Value → Option (List Value)
  pub as_text : Value → Option String
  -- An integer, printed.
  pub as_integer : Value → Option String
  -- `Mapping`
  pub empty : Mapping
  pub lookup : Mapping → Value → Option Value
  pub put : Mapping → Value → Value → Mapping
  pub delete : Mapping → Value → Mapping
  pub entries : Mapping → List (Value × Value)
  -- `value.get(text)`
  pub index : Value → String → Option Value
  pub as_mapping-from : (m : Mapping) → as_mapping (from_mapping m) ≡ some m
  pub from-as_mapping : (v : Value) (m : Mapping) → as_mapping v ≡ some m → from_mapping m ≡ v
  pub lookup-empty : (k : String) → lookup empty (text k) ≡ none
  pub lookup-put :
      (m : Mapping) (k j : String) (v : Value)
      → lookup (put m (text k) v) (text j) ≡ (if k == j then some v else lookup m (text j))
  pub lookup-delete :
      (m : Mapping) (k j : String)
      → lookup (delete m (text k)) (text j) ≡ (if k == j then none else lookup m (text j))
  pub put_same :
      (m : Mapping) (k : String) (v : Value) → lookup m (text k) ≡ some v → put m (text k) v ≡ m
  pub index-mapping :
      (v : Value) (m : Mapping) (k : String) → as_mapping v ≡ some m → index v k ≡ lookup m (text k)
  pub index_only_mappings : (v : Value) (k : String) → as_mapping v ≡ none → index v k ≡ none
  pub text-as_text : (k : Value) (s : String) → as_text k ≡ some s → k ≡ text s
  pub lookup-entries : (m : Mapping) → All (λ e. lookup m e.0 ≡ some e.1) (entries m)

-- `==` of values, the test for `Value::Null`, integers, and that a value is a finite tree.
pub record Comparison (y : Yaml) : Type 0 where
  pub is_null : y.Value → Bool
  pub is_null-null : is_null y.null ≡ true
  pub as_mapping-null : y.as_mapping y.null ≡ none
  -- A number for which `is_i64` holds, printed.
  pub as_i64 : y.Value → Option String
  pub equal : y.Value → y.Value → Bool
  pub depth : y.Value → ℕ
  pub depth-entries :
      (v : y.Value) (m : y.Mapping)
      → y.as_mapping v ≡ some m
      → All (λ e. depth e.1 < depth v) (y.entries m)
  pub entries_hold :
      (m : y.Mapping) (k : String) (v : y.Value)
      → y.lookup m (y.text k) ≡ some v
      → IsIn (y.text k, v) (y.entries m)
