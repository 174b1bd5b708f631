-- ===== src/Common/Sample/Keys.antt =====
-- The keys of the small YAML library are texts.
use ankaios.Prelude.{String, ◌==◌, refl, List, [], ◌∷◌, All, Bool-cases, inl, inr}
use ankaios.Common.Wildcards.Expanded.{HasTextKey, TextKeys}
use ankaios.Common.Sample.{Node, Fields, end, field, drop_key, list_fields, sample}

-- Every key of a sample mapping is a text.
drop_key-HasTextKey :
    (k : String) (entries : List (Node × Node))
    → All (HasTextKey sample) entries
    → All (HasTextKey sample) (drop_key k entries)
drop_key-HasTextKey k [] h = tt
drop_key-HasTextKey k ((key, v) ∷ entries) ((j, e), h) =
    let rest = drop_key-HasTextKey k entries h in
    elim (Bool-cases (k == j)) [
      | inl same ↦ rw (e, drop_key, same) rest
      | inr other ↦ rw (e, drop_key, other) ((j, e), rest)
    ]

list_fields-HasTextKey : (m : Fields) → All (HasTextKey sample) (list_fields m)
unfolding list_fields
list_fields-HasTextKey end = tt
list_fields-HasTextKey (field k v m) =
    ((k, refl), drop_key-HasTextKey k (list_fields m) (list_fields-HasTextKey m))

pub text_keys : (o : Node) → TextKeys sample o
text_keys o q w m g e = list_fields-HasTextKey m
