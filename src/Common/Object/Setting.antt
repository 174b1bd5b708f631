-- ===== src/Common/Object/Setting.antt =====
-- What `set` changes of an object: common/src/state_manipulation/object.rs.
use ankaios.Prelude.{
  String, Bool, true, false, [], ◌∷◌, ◌++◌, Option, none, some, ok, ◌≡◌, refl, and_then-ok,
  ok_value, some_value, Option-cases, Bool-cases, inl, inr, ◌==◌, if◌then◌else◌, sym, ap, ◌∙◌,
  eq_refl, eq_iff,
}
use ankaios.Common.Path.{FieldPath, split_last}
use ankaios.Common.Yaml.{Yaml}
use ankaios.Common.Object.{
  empty_path, set_from, Object, set_in, set, get_part, get, entry_or_mapping,
}

-- The paths part at some position: none of the two leads to the other.
abbrev pub apart : FieldPath → FieldPath → Bool
apart [] q = false
apart (a ∷ p) [] = false
apart (a ∷ p) (b ∷ q) = let rest = apart p q in if a == b then rest else true

snoc_append : (xs : FieldPath) (x : String) (ys : FieldPath) → (xs ++ x ∷ []) ++ ys ≡ xs ++ x ∷ ys
snoc_append [] x ys = refl
snoc_append (z ∷ xs) x ys = ap (λ (l : FieldPath). z ∷ l) (snoc_append xs x ys)

apart_nil : (p : FieldPath) → apart p [] ≡ false
apart_nil [] = refl
apart_nil (a ∷ p) = refl

pub split_last-append :
    {E : Type 0} (e : E) (path : FieldPath) (r : FieldPath × String)
    → split_last e path ≡ ok r
    → path ≡ r.0 ++ r.1 ∷ []
unfolding split_last
split_last-append e [] r h = cc
split_last-append e (p ∷ []) r h = cc
split_last-append e (p ∷ (q ∷ path)) r h =
    let (front, e1, e2) =
      and_then-ok (split_last e (q ∷ path)) (λ (f : FieldPath × String). ok (p ∷ f.0, f.1)) r h in
    cc (split_last-append e (q ∷ path) front e1, e2)

module _ (y : Yaml) where
  get_part-mapping :
      (v : y.Value) (m : y.Mapping) (p : String)
      → y.as_mapping v ≡ some m
      → get_part y v p ≡ y.lookup m (y.text p)
  unfolding get_part
  get_part-mapping v m p h = rw (h, get_part)

  abbrev pub below : Option y.Value → FieldPath → Option y.Value
  below none path = none
  below (some next) path = get y next path

  pub get-mapping :
      (v : y.Value) (m : y.Mapping) (p : String) (path : FieldPath)
      → y.as_mapping v ≡ some m
      → get y v (p ∷ path) ≡ below (y.lookup m (y.text p)) path
  unfolding get
  get-mapping v m p path h = elim (Option-cases (y.lookup m (y.text p))) [
    | inl e ↦ rw (get_part-mapping v m p h ∙ e, get, e)
    | inr (next, e) ↦ rw (get_part-mapping v m p h ∙ e, get, e)
  ]

  pub get_from :
      (m : y.Mapping) (p : String) (path : FieldPath)
      → get y (y.from_mapping m) (p ∷ path) ≡ below (y.lookup m (y.text p)) path
  get_from m p path = get-mapping (y.from_mapping m) m p path (y.as_mapping-from m)

  pub get-put_self :
      (m : y.Mapping) (k : String) (w : y.Value) (path : FieldPath)
      → get y (y.from_mapping (y.put m (y.text k) w)) (k ∷ path) ≡ get y w path
  get-put_self m k w path =
      rw (get_from (y.put m (y.text k) w) k path, y.lookup-put m k k w, eq_refl k) refl

  pub get-put_other :
      (m : y.Mapping) (k : String) (w : y.Value) (p : String) (path : FieldPath)
      → (k == p) ≡ false
      → get y (y.from_mapping (y.put m (y.text k) w)) (p ∷ path)
        ≡ get y (y.from_mapping m) (p ∷ path)
  get-put_other m k w p path h =
      rw (get_from (y.put m (y.text k) w) p path, get_from m p path, y.lookup-put m k p w, h) refl

  -- What a successful step of `set_in` did.
  pub set_in-step :
      (m : y.Mapping) (p : String) (head : FieldPath) (last : String) (v : y.Value) (m' : y.Mapping)
      → set_in y m (p ∷ head) last v ≡ ok m'
      → (next : y.Mapping) × (changed : y.Mapping) × (y.as_mapping
            (entry_or_mapping y (y.lookup m (y.text p)))
          ≡ some next)
        × (set_in y next head last v ≡ ok changed)
        × (m' ≡ y.put m (y.text p) (y.from_mapping changed))
  unfolding set_in
  set_in-step m p head last v m' h =
      elim (Option-cases (y.as_mapping (entry_or_mapping y (y.lookup m (y.text p))))) [
        | inl e ↦ absurd (cc (rw (e, set_in) at h))
        | inr (next, e) ↦
            let (changed, e1, e2) =
              and_then-ok (set_in y next head last v)
                (λ changed. ok (y.put m (y.text p) (y.from_mapping changed))) m'
                (rw (e, set_in) at h) in
            (next, changed, e, e1, cc (e2))
      ]

  set_in-get :
      (m : y.Mapping) (head : FieldPath) (last : String) (v : y.Value) (m' : y.Mapping)
      (rest : FieldPath)
      → set_in y m head last v ≡ ok m'
      → get y (y.from_mapping m') (head ++ last ∷ rest) ≡ get y v rest
  unfolding set_in
  set_in-get m [] last v m' rest h =
      rw (sym (ok_value (y.put m (y.text last) v) m' (set_in y m [] last v) refl h))
        (get-put_self m last v rest)
  set_in-get m (p ∷ head) last v m' rest h =
      let (next, changed, e1, e2, e3) = set_in-step m p head last v m' h in
      rw e3 (get-put_self m p (y.from_mapping changed) (head ++ last ∷ rest))
      ∙ set_in-get next head last v changed rest e2

  -- Below a part: its value, or an empty mapping.
  pub get-entry :
      (m : y.Mapping) (p : String) (next : y.Mapping) (q : String) (path : FieldPath)
      → y.as_mapping (entry_or_mapping y (y.lookup m (y.text p))) ≡ some next
      → get y (y.from_mapping m) (p ∷ (q ∷ path)) ≡ get y (y.from_mapping next) (q ∷ path)
  get-entry m p next q path h = elim (Option-cases (y.lookup m (y.text p))) [
    | inl e ↦
        let vacant : y.empty ≡ next =
          some_value (y.as_mapping (y.from_mapping y.empty)) y.empty next
            (y.as_mapping-from y.empty) (rw e at h) in
        rw (get_from m p (q ∷ path), e, sym vacant, get_from y.empty q path, y.lookup-empty q) refl
    | inr (w, e) ↦ rw (get_from m p (q ∷ path), e, y.from-as_mapping w next (rw e at h)) refl
  ]

  entry_changed :
      (m : y.Mapping) (p : String) (next changed : y.Mapping) (to q : FieldPath)
      → y.as_mapping (entry_or_mapping y (y.lookup m (y.text p))) ≡ some next
      → apart to q ≡ true
      → get y (y.from_mapping changed) q ≡ get y (y.from_mapping next) q
      → get y (y.from_mapping (y.put m (y.text p) (y.from_mapping changed))) (p ∷ q)
        ≡ get y (y.from_mapping m) (p ∷ q)
  entry_changed m p next changed to [] e d ih = cc (apart_nil to)
  entry_changed m p next changed to (c ∷ q) e d ih =
      get-put_self m p (y.from_mapping changed) (c ∷ q) ∙ ih ∙ sym (get-entry m p next c q e)

  set_in-get-apart :
      (m : y.Mapping) (head : FieldPath) (last : String) (v : y.Value) (m' : y.Mapping)
      (q : FieldPath)
      → set_in y m head last v ≡ ok m'
      → apart (head ++ last ∷ []) q ≡ true
      → get y (y.from_mapping m') q ≡ get y (y.from_mapping m) q
  unfolding set_in
  set_in-get-apart m [] last v m' [] h d = cc
  set_in-get-apart m (p ∷ head) last v m' [] h d = cc
  set_in-get-apart m [] last v m' (b ∷ q) h d = elim (Bool-cases (last == b)) [
    | inl same ↦ cc (rw same at d)
    | inr other ↦
        rw (sym (ok_value (y.put m (y.text last) v) m' (set_in y m [] last v) refl h))
          (get-put_other m last v b q other)
  ]
  set_in-get-apart m (p ∷ head) last v m' (b ∷ q) h d =
      let (next, changed, e1, e2, e3) = set_in-step m p head last v m' h in
      elim (Bool-cases (p == b)) [
        | inl same ↦
            let d' : apart (head ++ last ∷ []) q ≡ true = rw same at d in
            let ih = set_in-get-apart next head last v changed q e2 d' in
            rw (e3, sym ((eq_iff p b).0 same))
              (entry_changed m p next changed (head ++ last ∷ []) q e1 d' ih)
        | inr other ↦
            ap (λ (n : y.Mapping). get y (y.from_mapping n) (b ∷ q)) e3
            ∙ get-put_other m p (y.from_mapping changed) b q other
      ]

  -- A successful `set` is a change of the mapping at the root.
  pub set-set_in :
      (o : Object y) (path : FieldPath) (v : y.Value) (o' : Object y)
      → set y o path v ≡ ok o'
      → (r : FieldPath × String) × (root : y.Mapping) × (changed : y.Mapping) × (path
          ≡ r.0 ++ r.1 ∷ [])
        × (y.as_mapping o ≡ some root)
        × (set_in y root r.0 r.1 v ≡ ok changed)
        × (o' ≡ y.from_mapping changed)
  unfolding set set_from
  set-set_in o path v o' h =
      let (r, e1, e2) = and_then-ok (split_last empty_path path) (set_from y o v) o' h in
      elim (Option-cases (y.as_mapping o)) [
        | inl e ↦ absurd (cc (rw (e, set_from) at e2))
        | inr (root, e) ↦
            let (changed, e3, e4) =
              and_then-ok (set_in y root r.0 r.1 v) (λ changed. ok (y.from_mapping changed)) o'
                (rw (e, set_from) at e2) in
            (r, root, changed, split_last-append empty_path path r e1, e, e3, cc e4)
      ]

  -- After a successful `set`, everything below the path is read from the new value, and every path that parts from it is read as before.
  pub set-get :
      (o : Object y) (path : FieldPath) (v : y.Value) (o' : Object y)
      → set y o path v ≡ ok o'
      → ((rest : FieldPath) → get y o' (path ++ rest) ≡ get y v rest)
        × ((q : FieldPath) → apart path q ≡ true → get y o' q ≡ get y o q)
  set-get o path v o' h =
      let (r, root, changed, e1, e2, e3, e4) = set-set_in o path v o' h in
      (
        λ rest. rw (e1, e4, snoc_append r.0 r.1 rest) (set_in-get root r.0 r.1 v changed rest e3),
        λ q d.
            rw (e4, sym (y.from-as_mapping o root e2))
              (set_in-get-apart root r.0 r.1 v changed q e3 (rw e1 at d)),
      )
