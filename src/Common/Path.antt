-- ===== src/Common/Path.antt =====
-- The paths of fields: common/src/state_manipulation/path.rs.
pub mod RoundTrip
use ankaios.Prelude.{
  String, List, [], ◌∷◌, split, join, Result, ok, err, and_then, if◌then◌else◌, ◌==◌,
}

abbrev pub FieldPath : Type 0
FieldPath = List String

-- `FieldPath::split_last`: the front of the path and its last part, or nothing of the empty path.
unfoldable pub split_last : {E : Type 0} → E → FieldPath → Result E (FieldPath × String)
split_last empty_path [] = err empty_path
split_last empty_path (p ∷ []) = ok ([], p)
split_last empty_path (p ∷ (q ∷ path)) =
    and_then (split_last empty_path (q ∷ path)) (λ r. ok (p ∷ r.0, r.1))

-- The separator is the dot.
abbrev pub path_from : String → FieldPath
path_from value = if value == "" then [] else split 46 value

abbrev pub path_to_string : FieldPath → String
path_to_string path = join "." path
