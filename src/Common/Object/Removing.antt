-- ===== src/Common/Object/Removing.antt =====
-- What `remove` changes of an object: common/src/state_manipulation/object.rs.
use ankaios.Prelude.{
  String, true, [], ◌∷◌, ◌++◌, Option, none, some, ok, ◌≡◌, refl, and_then-ok, option_then-some,
  ok_value, some_value, Option-cases, Bool-cases, inl, inr, ◌==◌, if◌then◌else◌, sym, subst, ◌∙◌,
  eq_refl, eq_iff,
}
use ankaios.Common.Path.{FieldPath, split_last}
use ankaios.Common.Yaml.{Yaml}
use ankaios.Common.Object.{Object, empty_path, remove_in, remove_from, remove, get}
use ankaios.Common.Object.Setting.{
  apart, split_last-append, get-mapping, get-put_self, get-put_other, get_from,
}

module _ (y : Yaml) where
  get-delete :
      (m : y.Mapping) (k : String) (p : String) (path : FieldPath)
      → get y (y.from_mapping (y.delete m (y.text k))) (p ∷ path)
        ≡ (if k == p then none else get y (y.from_mapping m) (p ∷ path))
  get-delete m k p path = elim (Bool-cases (k == p)) [
    | inl e ↦
        rw
          (get_from y (y.delete m (y.text k)) p path, get_from y m p path, y.lookup-delete m k p, e)
          refl
    | inr e ↦
        rw
          (get_from y (y.delete m (y.text k)) p path, get_from y m p path, y.lookup-delete m k p, e)
          refl
  ]

  -- What a successful step of `remove_in` did.
  remove_in-step :
      (v : y.Value) (p : String) (head : FieldPath) (last : String) (r : Option y.Value × y.Value)
      → remove_in y v (p ∷ head) last ≡ some r
      → (m : y.Mapping) × (next : y.Value) × (c : Option y.Value × y.Value) × (y.as_mapping v
          ≡ some m)
        × (y.lookup m (y.text p) ≡ some next)
        × (remove_in y next head last ≡ some c)
        × (some (c.0, y.from_mapping (y.put m (y.text p) c.1)) ≡ some r)
  unfolding remove_in
  remove_in-step v p head last r h =
      let (m, e1, h1) = option_then-some (y.as_mapping v) _ r h in
      let (next, e2, h2) = option_then-some (y.lookup m (y.text p)) _ r h1 in
      let (c, e3, h3) = option_then-some (remove_in y next head last) _ r h2 in
      (m, next, c, e1, e2, e3, h3)

  -- The last step.
  remove_in-last :
      (v : y.Value) (last : String) (r : Option y.Value × y.Value)
      → remove_in y v [] last ≡ some r
      → (m : y.Mapping) × (y.as_mapping v ≡ some m)
        × (some (y.lookup m (y.text last), y.from_mapping (y.delete m (y.text last))) ≡ some r)
  unfolding remove_in
  remove_in-last v last r h = option_then-some (y.as_mapping v) _ r h

  -- The removed value was read at the path; nothing is read there and below, and every path that
  -- parts from it is read as before.
  abbrev pub Removed : y.Value → FieldPath → Option y.Value × y.Value → Type 0
  Removed v path r =
      (r.0 ≡ get y v path)
      × ((rest : FieldPath) → get y r.1 (path ++ rest) ≡ none)
      × ((q : FieldPath) → apart path q ≡ true → get y r.1 q ≡ get y v q)

  get-singleton :
      (v : y.Value) (m : y.Mapping) (k : String)
      → y.as_mapping v ≡ some m
      → get y v (k ∷ []) ≡ y.lookup m (y.text k)
  unfolding get
  get-singleton v m k e = elim (Option-cases (y.lookup m (y.text k))) [
    | inl f ↦ rw (get-mapping y v m k [] e, f) refl
    | inr (w, f) ↦ rw (get-mapping y v m k [] e, f) refl
  ]

  deleted-apart :
      (v : y.Value) (m : y.Mapping) (k : String) (q : FieldPath)
      → y.as_mapping v ≡ some m
      → apart (k ∷ []) q ≡ true
      → get y (y.from_mapping (y.delete m (y.text k))) q ≡ get y v q
  deleted-apart v m k [] e d = cc
  deleted-apart v m k (b ∷ q) e d = elim (Bool-cases (k == b)) [
    | inl f ↦ cc (rw f at d)
    | inr f ↦ rw (get-delete m k b q, f, y.from-as_mapping v m e) refl
  ]

  deleted-Removed :
      (v : y.Value) (m : y.Mapping) (k : String)
      → y.as_mapping v ≡ some m
      → Removed v (k ∷ []) (y.lookup m (y.text k), y.from_mapping (y.delete m (y.text k)))
  deleted-Removed v m k e = (
    sym (get-singleton v m k e),
    λ rest. rw (get-delete m k k rest, eq_refl k) refl,
    λ q d. deleted-apart v m k q e d,
  )

  changed-apart :
      (v : y.Value) (m : y.Mapping) (k : String) (next changed : y.Value) (path q : FieldPath)
      → y.as_mapping v ≡ some m
      → y.lookup m (y.text k) ≡ some next
      → ((q : FieldPath) → apart path q ≡ true → get y changed q ≡ get y next q)
      → apart (k ∷ path) q ≡ true
      → get y (y.from_mapping (y.put m (y.text k) changed)) q ≡ get y v q
  changed-apart v m k next changed path [] e f h d = cc
  changed-apart v m k next changed path (b ∷ q) e f h d = elim (Bool-cases (k == b)) [
    | inl same ↦
        let to : get y v (k ∷ q) ≡ get y next q = rw (get-mapping y v m k q e, f) refl in
        rw (sym ((eq_iff k b).0 same)) (get-put_self y m k changed q ∙ h q (rw same at d) ∙ sym to)
    | inr other ↦ rw (get-put_other y m k changed b q other, y.from-as_mapping v m e) refl
  ]

  changed-Removed :
      (v : y.Value) (m : y.Mapping) (k : String) (next : y.Value) (path : FieldPath)
      (c : Option y.Value × y.Value)
      → y.as_mapping v ≡ some m
      → y.lookup m (y.text k) ≡ some next
      → Removed next path c
      → Removed v (k ∷ path) (c.0, y.from_mapping (y.put m (y.text k) c.1))
  changed-Removed v m k next path c e f (h1, h2, h3) = (
    rw (get-mapping y v m k path e, f) h1,
    λ rest. get-put_self y m k c.1 (path ++ rest) ∙ h2 rest,
    λ q d. changed-apart v m k next c.1 path q e f h3 d,
  )

  remove_in-Removed :
      (v : y.Value) (head : FieldPath) (last : String) (r : Option y.Value × y.Value)
      → remove_in y v head last ≡ some r
      → Removed v (head ++ last ∷ []) r
  remove_in-Removed v [] last r h =
      let (m, e, h1) = remove_in-last v last r h in
      subst (Removed v (last ∷ [])) (some_value _ _ r refl h1) (deleted-Removed v m last e)
  remove_in-Removed v (p ∷ head) last r h =
      let (m, next, c, e1, e2, e3, h1) = remove_in-step v p head last r h in
      subst (Removed v (p ∷ (head ++ last ∷ []))) (some_value _ _ r refl h1) (
        changed-Removed v m p next (head ++ last ∷ []) c e1 e2
          (remove_in-Removed next head last c e3))

  -- A successful `remove`.
  pub remove-Removed :
      (o : Object y) (path : FieldPath) (r : Option y.Value × Object y)
      → remove y o path ≡ ok r
      → Removed o path r
  unfolding remove remove_from
  remove-Removed o path r h =
      let (f, e1, h1) = and_then-ok (split_last empty_path path) (remove_from y o) r h in
      elim (Option-cases (remove_in y o f.0 f.1)) [
        | inl e ↦ absurd (cc (rw (e, remove_from) at h1))
        | inr (s, e) ↦
            let same = ok_value s r (remove_from y o f) (rw (remove_from, e) refl) h1 in
            rw (split_last-append empty_path path f e1, sym same) (remove_in-Removed o f.0 f.1 s e)
      ]
