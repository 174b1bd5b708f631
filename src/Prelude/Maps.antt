-- ===== src/Prelude/Maps.antt =====
-- `HashMap<String, V>` and `HashSet<String>` as association lists. An iteration goes through a map
-- in the order of the list, which stands for the order that the hash map happens to have.
use Prim.Native.String.{String}
use mathlib.Core.Logic.{inl, inr}
use mathlib.Core.Path.{subst, ◌≡◌, refl}
use mathlib.Core.Bool.{◌&&◌, false≢true, Bool, true, false, ◌||◌}
use mathlib.Core.Option
use mathlib.Core.Option.{Option, none, some}
use mathlib.Core.List.{List, [], ◌∷◌, ◌++◌}
use native.Mathlib.Omega.{arith}
use text.Mathlib.Text.{◌==◌}
use text.Mathlib.TextEquality.{eq_iff}
use text.Mathlib.TextPositions.{eq_refl}
use ankaios.Prelude.Lists.{length}
use ankaios.Prelude.Tests.{eqb, Bool-cases, if◌then◌else◌}

abbrev pub Map {ℓ} : Type ℓ → Type ℓ
Map V = List (String × V)

module _ {ℓ} {V : Type ℓ} where
  unfoldable pub get : Map V → String → Option V
  get [] k = none
  get ((j, v) ∷ m) k = if j == k then some v else get m k

  unfoldable pub remove : Map V → String → Map V
  remove [] k = []
  remove ((j, v) ∷ m) k = let rest = remove m k in if j == k then rest else (j, v) ∷ rest

  unfoldable pub insert : Map V → String → V → Map V
  insert [] k v = (k, v) ∷ []
  insert ((j, w) ∷ m) k v = let rest = insert m k v in if j == k then (k, v) ∷ m else (j, w) ∷ rest

  abbrev pub get_or : V → Option V → V
  get_or d none = d
  get_or d (some v) = v

  -- `entry(k).or_default()`, changed by `f`.
  abbrev pub entry : Map V → String → V → (V → V) → Map V
  entry m k d f = insert m k (f (get_or d (get m k)))

  abbrev pub contains_key : Map V → String → Bool
  contains_key m k = elim (get m k) [ none ↦ false | some _ ↦ true ]

  pub get-remove :
      (m : Map V) (k j : String) → get (remove m k) j ≡ (if k == j then none else get m j)
  unfolding get remove
  get-remove [] k j = ground arith
  get-remove ((i, v) ∷ m) k j = ground (arith, eq_iff i k, eq_iff i j, eq_iff k j, get-remove m k j)

  pub get-insert :
      (m : Map V) (k j : String) (v : V)
      → get (insert m k v) j ≡ (if k == j then some v else get m j)
  unfolding get insert
  get-insert [] k j v = refl
  get-insert ((i, w) ∷ m) k j v =
      ground (arith, eq_iff i k, eq_iff i j, eq_iff k j, get-insert m k j v)

  pub get-insert_self : (m : Map V) (k : String) (v : V) → get (insert m k v) k ≡ some v
  get-insert_self m k v = simp (get-insert, eq_refl)

module _ {V : Type 0} where
  -- `get_mut(k)`, changed by `f` where the key is there.
  unfoldable pub modify : Map V → String → (V → V) → Map V
  modify [] k f = []
  modify ((j, v) ∷ m) k f =
      let rest = modify m k f in if j == k then (j, f v) ∷ m else (j, v) ∷ rest

  -- `values_mut()` or `iter_mut()`, each value changed by `f`.
  unfoldable pub map_values : (V → V) → Map V → Map V
  map_values f [] = []
  map_values f ((k, v) ∷ m) = (k, f v) ∷ map_values f m

  abbrev pub is_empty : Map V → Bool
  is_empty [] = true
  is_empty (e ∷ m) = false

  pub get-modify :
      (m : Map V) (k j : String) (f : V → V)
      → get (modify m k f) j ≡ (if k == j then Option.map f (get m j) else get m j)
  unfolding get modify
  get-modify [] k j f = ground arith
  get-modify ((i, w) ∷ m) k j f =
      ground (arith, eq_iff i k, eq_iff i j, eq_iff k j, get-modify m k j f)

  pub get-map_values :
      (f : V → V) (m : Map V) (j : String) → get (map_values f m) j ≡ Option.map f (get m j)
  unfolding get map_values
  get-map_values f [] j = refl
  get-map_values f ((i, w) ∷ m) j = ground (arith, get-map_values f m j)

  pub get-is_empty : (m : Map V) (k : String) → is_empty m ≡ true → get m k ≡ none
  unfolding get
  get-is_empty [] k h = refl
  get-is_empty (e ∷ m) k h = absurd (false≢true h)

same_value : {V : Type 0} {v w : V} → some v ≡ some w → v ≡ w
same_value e = cc

-- Every value of the map has the property.
module _ {V : Type 0} where
  abbrev pub AllValues : (V → Type 0) → Map V → Type 0
  AllValues P [] = Unit
  AllValues P ((k, v) ∷ m) = P v × AllValues P m

  pub AllValues-get :
      (P : V → Type 0) (m : Map V) (k : String) (v : V) → AllValues P m → get m k ≡ some v → P v
  unfolding get
  AllValues-get P [] k v h e = cc
  AllValues-get P ((j, w) ∷ m) k v (h, hs) e = elim (Bool-cases (j == k)) [
    | inl b ↦ subst P (same_value (rw b at e)) h
    | inr b ↦ AllValues-get P m k v hs (rw b at e)
  ]

  pub AllValues-insert :
      (P : V → Type 0) (m : Map V) (k : String) (v : V)
      → P v
      → AllValues P m
      → AllValues P (insert m k v)
  unfolding insert
  AllValues-insert P [] k v p h = (p, tt)
  AllValues-insert P ((j, w) ∷ m) k v p (h, hs) = elim (Bool-cases (j == k)) [
    | inl b ↦ rw b (p, hs)
    | inr b ↦ rw b (h, AllValues-insert P m k v p hs)
  ]

  pub AllValues-remove :
      (P : V → Type 0) (m : Map V) (k : String) → AllValues P m → AllValues P (remove m k)
  unfolding remove
  AllValues-remove P [] k h = tt
  AllValues-remove P ((j, w) ∷ m) k (h, hs) = elim (Bool-cases (j == k)) [
    | inl b ↦ rw b (AllValues-remove P m k hs)
    | inr b ↦ rw b (h, AllValues-remove P m k hs)
  ]

module _ {V : Type 0} where
  abbrev pub AllEntries : (String → V → Type 0) → Map V → Type 0
  AllEntries P [] = Unit
  AllEntries P ((k, v) ∷ m) = P k v × AllEntries P m

  pub AllEntries-insert :
      (P : String → V → Type 0) (m : Map V) (k : String) (v : V)
      → P k v
      → AllEntries P m
      → AllEntries P (insert m k v)
  unfolding insert
  AllEntries-insert P [] k v p h = (p, tt)
  AllEntries-insert P ((j, w) ∷ m) k v p (h, hs) = elim (Bool-cases (j == k)) [
    | inl b ↦ rw b (p, hs)
    | inr b ↦ rw b (h, AllEntries-insert P m k v p hs)
  ]

-- `==` of vectors and of hash maps: as many entries, and each key of the one has an equal value in
-- the other.
module _ {V : Type 0} where
  unfoldable pub list_eq : (V → V → Bool) → List V → List V → Bool
  list_eq eq [] [] = true
  list_eq eq (x ∷ xs) (y ∷ ys) = eq x y && list_eq eq xs ys
  list_eq eq _ _ = false

  unfoldable pub sub_map : (V → V → Bool) → Map V → Map V → Bool
  sub_map eq [] n = true
  sub_map eq ((k, v) ∷ m) n = elim (get n k) [ none ↦ false | some w ↦ eq v w ] && sub_map eq m n

  unfoldable pub map_eq : (V → V → Bool) → Map V → Map V → Bool
  unfolding sub_map
  map_eq eq m n = eqb (length m) (length n) && sub_map eq m n

abbrev pub keys {ℓ} : {V : Type ℓ} → Map V → List String
keys [] = []
keys ((k, v) ∷ m) = k ∷ keys m

-- A set is a list of its elements.
unfoldable pub member : String → List String → Bool
member a [] = false
member a (x ∷ xs) = x == a || member a xs

pub member-append :
    (a : String) (xs ys : List String) → member a (xs ++ ys) ≡ (member a xs || member a ys)
unfolding member
member-append a [] ys = refl
member-append a (x ∷ xs) ys = ground (arith, member-append a xs ys)
