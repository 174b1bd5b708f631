-- ===== src/Common/Object.antt =====
-- The objects that hold a state as a YAML value: common/src/state_manipulation/object.rs. A path is
-- followed by recursion over its parts, which stands for the loops' moving reference.
pub mod Setting
pub mod Removing
pub mod Within
pub mod Growing
pub mod Opening
use ankaios.Prelude.{
  String, Bool, true, false, List, [], ◌∷◌, Option, none, some, Result, ok, err, and_then,
  option_then, parse_usize, get_elem?,
}
use ankaios.Common.Path.{FieldPath, split_last}
use ankaios.Common.Yaml.{Yaml}

pub data ObjectError : Type 0 where
  empty_path : ObjectError
  root_not_mapping : ObjectError
  part_not_mapping : ObjectError
  head_not_mapping : FieldPath → ObjectError

module _ (y : Yaml) where
  -- `data` is the only field of an object.
  abbrev pub Object : Type 0
  Object = y.Value

  abbrev pub default_object : Object
  default_object = y.from_mapping y.empty

  -- The `entry` of a part, with an empty mapping where it is vacant.
  abbrev pub entry_or_mapping : Option y.Value → y.Value
  entry_or_mapping (some value) = value
  entry_or_mapping none = y.from_mapping y.empty

  unfoldable pub set_in : y.Mapping → List String → String → y.Value → Result ObjectError y.Mapping
  set_in current [] path_last value = ok (y.put current (y.text path_last) value)
  set_in current (part ∷ path_head) path_last value =
      elim (y.as_mapping (entry_or_mapping (y.lookup current (y.text part)))) [
        | none ↦ err part_not_mapping
        | some next ↦
            and_then (set_in next path_head path_last value)
              (λ changed. ok (y.put current (y.text part) (y.from_mapping changed)))
      ]

  -- `set` behind `split_last`. An error comes before the first change.
  unfoldable pub set_from : Object → y.Value → FieldPath × String → Result ObjectError Object
  set_from o value r = elim (y.as_mapping o) [
    | none ↦ err root_not_mapping
    | some root ↦ and_then (set_in root r.0 r.1 value) (λ changed. ok (y.from_mapping changed))
  ]

  unfoldable pub set : Object → FieldPath → y.Value → Result ObjectError Object
  set o path value = and_then (split_last empty_path path) (set_from o value)

  -- `get_as_mapping_mut` and the removal there: the removed value and the changed object.
  unfoldable pub remove_in : y.Value → List String → String → Option (Option y.Value × y.Value)
  remove_in current [] path_last = option_then (y.as_mapping current) (λ mapping.
      some
        (y.lookup mapping (y.text path_last), y.from_mapping (y.delete mapping (y.text path_last))))
  remove_in current (part ∷ path_head) path_last = option_then (y.as_mapping current) (λ mapping.
      option_then (y.lookup mapping (y.text part)) (λ next.
        option_then (remove_in next path_head path_last)
          (λ r. some (r.0, y.from_mapping (y.put mapping (y.text part) r.1)))))

  -- `remove` behind `split_last`.
  unfoldable pub remove_from :
      Object → FieldPath × String → Result ObjectError (Option y.Value × Object)
  remove_from o r = elim (remove_in o r.0 r.1) [
    | none ↦ err (head_not_mapping r.0)
    | some removed ↦ ok removed
  ]

  unfoldable pub remove : Object → FieldPath → Result ObjectError (Option y.Value × Object)
  remove o path = and_then (split_last empty_path path) (remove_from o)

  -- One part of a path of `get`: the key of a mapping or the position in a sequence.
  unfoldable pub get_part : y.Value → String → Option y.Value
  get_part current p = elim (y.as_mapping current) [
    | some mapping ↦ y.lookup mapping (y.text p)
    | none ↦ elim (y.as_sequence current) [
      | none ↦ none
      | some sequence ↦ elim (parse_usize p) [ none ↦ none | some i ↦ get_elem? sequence i ]
    ]
  ]

  unfoldable pub get : Object → FieldPath → Option y.Value
  get current [] = some current
  get current (p ∷ path) = option_then (get_part current p) (λ next. get next path)

  unfoldable pub get_mut : Object → FieldPath → Option y.Value
  get_mut current [] = some current
  get_mut current (p ∷ path) =
      option_then (y.as_mapping current)
        (λ mapping. option_then (y.lookup mapping (y.text p)) (λ next. get_mut next path))

  abbrev pub check_if_provided_path_exists : Object → FieldPath → Bool
  check_if_provided_path_exists o path = elim (get o path) [ none ↦ false | some _ ↦ true ]
