-- ===== src/Common/Sample.antt =====
-- A small YAML library with the laws of `Yaml`: mappings are lists of fields, and the only sequences
-- have two elements.
pub mod Keys
use ankaios.Prelude.{
  ℕ, suc, ◌+◌, ◌<◌, Bool, true, false, ◌&&◌, String, ◌==◌, eq_refl, eq_iff, Bool-cases, inl, inr,
  if◌then◌else◌, List, [], ◌∷◌, All, IsIn, Option, none, some, ◌≡◌, refl, arith, sym, ap, subst,
}
use ankaios.Common.Yaml.{Yaml, Comparison}

mutual
  pub data Node : Type 0 where
    nothing : Node
    word : String → Node
    two : Node → Node → Node
    map : Fields → Node

  pub data Fields : Type 0 where
    end : Fields
    field : String → Node → Fields → Fields

abbrev pub word_of : Node → Option String
word_of nothing = none
word_of (word s) = some s
word_of (two a b) = none
word_of (map m) = none

abbrev fields_of : Node → Option Fields
fields_of nothing = none
fields_of (word s) = none
fields_of (two a b) = none
fields_of (map m) = some m

abbrev elements_of : Node → Option (List Node)
elements_of nothing = none
elements_of (word s) = none
elements_of (two a b) = some (a ∷ b ∷ [])
elements_of (map m) = none

unfoldable pub find_field : Fields → String → Option Node
find_field end k = none
find_field (field j v m) k = if j == k then some v else find_field m k

unfoldable pub put_field : Fields → String → Node → Fields
put_field end k v = field k v end
put_field (field j w m) k v =
    let rest = put_field m k v in if j == k then field k v m else field j w rest

unfoldable pub drop_field : Fields → String → Fields
drop_field end k = end
drop_field (field j w m) k = let rest = drop_field m k in if j == k then rest else field j w rest

abbrev pub drop_key : String → List (Node × Node) → List (Node × Node)
drop_key k [] = []
drop_key k ((key, v) ∷ entries) =
    let rest = drop_key k entries in
    elim (word_of key) [ none ↦ rest | some j ↦ if k == j then rest else (key, v) ∷ rest ]

unfoldable pub list_fields : Fields → List (Node × Node)
list_fields end = []
list_fields (field k v m) = (word k, v) ∷ drop_key k (list_fields m)

abbrev at_word : {A : Type 0} → Node → A → (String → A) → A
at_word key otherwise f = elim (word_of key) [ none ↦ otherwise | some k ↦ f k ]

abbrev find_node : Fields → Node → Option Node
find_node m key = at_word key none (find_field m)

pub find-put :
    (m : Fields) (k j : String) (v : Node)
    → find_field (put_field m k v) j ≡ (if k == j then some v else find_field m j)
unfolding find_field put_field
find-put end k j v = refl
find-put (field i w m) k j v = ground (arith, eq_iff i k, eq_iff i j, eq_iff k j, find-put m k j v)

pub find-drop :
    (m : Fields) (k j : String)
    → find_field (drop_field m k) j ≡ (if k == j then none else find_field m j)
unfolding find_field drop_field
find-drop end k j = ground arith
find-drop (field i w m) k j = ground (arith, eq_iff i k, eq_iff i j, eq_iff k j, find-drop m k j)

pub put_field_same :
    (m : Fields) (k : String) (v : Node) → find_field m k ≡ some v → put_field m k v ≡ m
unfolding find_field put_field
put_field_same end k v h = cc
put_field_same (field i w m) k v h = elim (Bool-cases (i == k)) [
  | inl e ↦ rw e (cc (rw e at h, (eq_iff i k).0 e))
  | inr e ↦ rw e (cc (put_field_same m k v (rw e at h)))
]

pub find-end : (k : String) → find_field end k ≡ none
unfolding find_field
find-end k = refl

found_behind :
    (k : String) (v : Node) (m : Fields) (entries : List (Node × Node))
    → All (λ e. find_node m e.0 ≡ some e.1) entries
    → All (λ e. find_node (field k v m) e.0 ≡ some e.1) (drop_key k entries)
unfolding find_field
found_behind k v m [] h = tt
found_behind k v m ((nothing, w) ∷ entries) (h, hs) = found_behind k v m entries hs
found_behind k v m ((two a b, w) ∷ entries) (h, hs) = found_behind k v m entries hs
found_behind k v m ((map n, w) ∷ entries) (h, hs) = found_behind k v m entries hs
found_behind k v m ((word j, w) ∷ entries) (h, hs) = elim (Bool-cases (k == j)) [
  | inl e ↦ rw e (found_behind k v m entries hs)
  | inr e ↦
      let here : find_field (field k v m) j ≡ some w = rw e h in
      rw e (here, found_behind k v m entries hs)
]

pub find-list_fields : (m : Fields) → All (λ e. find_node m e.0 ≡ some e.1) (list_fields m)
unfolding list_fields find_field
find-list_fields end = tt
find-list_fields (field k v m) =
    (rw (eq_refl k) refl, found_behind k v m (list_fields m) (find-list_fields m))

abbrev index_node : Node → String → Option Node
index_node v k = elim (fields_of v) [ none ↦ none | some m ↦ find_field m k ]

pub map-fields_of : (v : Node) (m : Fields) → fields_of v ≡ some m → map m ≡ v
map-fields_of nothing m h = cc
map-fields_of (word s) m h = cc
map-fields_of (two a b) m h = cc
map-fields_of (map n) m h = cc

pub word-word_of : (v : Node) (s : String) → word_of v ≡ some s → v ≡ word s
word-word_of nothing s h = cc
word-word_of (word t) s h = cc
word-word_of (two a b) s h = cc
word-word_of (map n) s h = cc

abbrev pub sample : Yaml
sample = record {
  Value = Node;
  Mapping = Fields;
  null = nothing;
  text = λ s. word s;
  from_mapping = λ m. map m;
  as_mapping = fields_of;
  as_sequence = elements_of;
  as_text = word_of;
  as_integer = λ v. none;
  empty = end;
  lookup = find_node;
  put = λ m key v. at_word key m (λ k. put_field m k v);
  delete = λ m key. at_word key m (λ k. drop_field m k);
  entries = list_fields;
  index = index_node;
  as_mapping-from = λ m. refl;
  from-as_mapping = map-fields_of;
  lookup-empty = find-end;
  lookup-put = find-put;
  lookup-delete = find-drop;
  put_same = put_field_same;
  index-mapping = λ v m k h. rw (h, index_node) refl;
  index_only_mappings = λ v k h. rw (h, index_node) refl;
  text-as_text = word-word_of;
  lookup-entries = find-list_fields;
}

same_word : (i k : String) → word i ≡ word k → i ≡ k
same_word i k h = cc

some_same : (w v : Node) → some w ≡ some v → w ≡ v
some_same w v h = cc

same_entry : {a b w v : Node} → a ≡ b → w ≡ v → ◌≡◌ {A = Node × Node} (a, w) (b, v)
same_entry h k = cc

kept_behind :
    (j k : String) (v : Node) (entries : List (Node × Node))
    → j == k ≡ false
    → IsIn (word k, v) entries
    → IsIn (word k, v) (drop_key j entries)
kept_behind j k v [] n h = absurd h
kept_behind j k v ((nothing, w) ∷ entries) n (inl e) = absurd cc
kept_behind j k v ((nothing, w) ∷ entries) n (inr h) = kept_behind j k v entries n h
kept_behind j k v ((two a b, w) ∷ entries) n (inl e) = absurd cc
kept_behind j k v ((two a b, w) ∷ entries) n (inr h) = kept_behind j k v entries n h
kept_behind j k v ((map m, w) ∷ entries) n (inl e) = absurd cc
kept_behind j k v ((map m, w) ∷ entries) n (inr h) = kept_behind j k v entries n h
kept_behind j k v ((word i, w) ∷ entries) n (inl e) =
    let same : i ≡ k = same_word i k (ap (λ (p : Node × Node). p.0) e) in
    let other : j == i ≡ false = subst (λ l. j == l ≡ false) (sym same) n in rw other (inl e)
kept_behind j k v ((word i, w) ∷ entries) n (inr h) = elim (Bool-cases (j == i)) [
  | inl s ↦ rw s (kept_behind j k v entries n h)
  | inr s ↦ rw s (inr (kept_behind j k v entries n h))
]

pub found-entry :
    (m : Fields) (k : String) (v : Node)
    → find_field m k ≡ some v
    → IsIn (word k, v) (list_fields m)
unfolding find_field list_fields
found-entry end k v h = absurd cc
found-entry (field j w m) k v h = elim (Bool-cases (j == k)) [
  | inl e ↦
      let here : some w ≡ some v = rw e at h in
      inl (same_entry (ap word ((eq_iff j k).0 e)) (some_same w v here))
  | inr e ↦
      let later : find_field m k ≡ some v = rw e at h in
      inr (kept_behind j k v (list_fields m) e (found-entry m k v later))
]

-- The depth of a node, and equality of nodes in the order of their fields.
unfoldable mutual
  pub depth_of : Node → ℕ
  depth_of nothing = 0
  depth_of (word s) = 0
  depth_of (two a b) = 0
  depth_of (map m) = suc (depth_of_fields m)

  pub depth_of_fields : Fields → ℕ
  depth_of_fields end = 0
  depth_of_fields (field k v m) = depth_of v + depth_of_fields m

unfoldable mutual
  pub same_node : Node → Node → Bool
  same_node nothing nothing = true
  same_node (word s) (word t) = s == t
  same_node (two a b) (two c d) = same_node a c && same_node b d
  same_node (map m) (map n) = same_fields m n
  same_node _ _ = false

  pub same_fields : Fields → Fields → Bool
  same_fields end end = true
  same_fields (field j v m) (field k w n) = j == k && (same_node v w && same_fields m n)
  same_fields _ _ = false

abbrev pub is_nothing : Node → Bool
is_nothing nothing = true
is_nothing _ = false

depth_behind :
    (k : String) (bound : ℕ) (entries : List (Node × Node))
    → All (λ e. depth_of e.1 < bound) entries
    → All (λ e. depth_of e.1 < bound) (drop_key k entries)
depth_behind k bound [] h = tt
depth_behind k bound ((nothing, w) ∷ entries) (h, hs) = depth_behind k bound entries hs
depth_behind k bound ((two a b, w) ∷ entries) (h, hs) = depth_behind k bound entries hs
depth_behind k bound ((map n, w) ∷ entries) (h, hs) = depth_behind k bound entries hs
depth_behind k bound ((word j, w) ∷ entries) (h, hs) = elim (Bool-cases (k == j)) [
  | inl e ↦ rw e (depth_behind k bound entries hs)
  | inr e ↦ rw e (h, depth_behind k bound entries hs)
]

depth_below :
    (bound : ℕ) (m : Fields)
    → depth_of_fields m < bound
    → All (λ e. depth_of e.1 < bound) (list_fields m)
unfolding depth_of_fields list_fields
depth_below bound end h = tt
depth_below bound (field k v m) h = (
  omega (arith, h),
  depth_behind k bound (list_fields m) (depth_below bound m (omega (arith, h))),
)

same_fields_of : (n m : Fields) → some n ≡ some m → n ≡ m
same_fields_of n m h = cc

pub depth-list_fields :
    (v : Node) (m : Fields)
    → fields_of v ≡ some m
    → All (λ e. depth_of e.1 < depth_of v) (list_fields m)
unfolding depth_of
depth-list_fields nothing m h = cc
depth-list_fields (word s) m h = cc
depth-list_fields (two a b) m h = cc
depth-list_fields (map n) m h =
    rw (same_fields_of n m h) (depth_below (suc (depth_of_fields m)) m (omega arith))

abbrev pub sample_comparison : Comparison sample
sample_comparison = record {
  is_null = is_nothing;
  is_null-null = refl;
  as_mapping-null = refl;
  as_i64 = λ v. none;
  equal = same_node;
  depth = depth_of;
  depth-entries = depth-list_fields;
  entries_hold = found-entry;
}
