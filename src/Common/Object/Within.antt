-- ===== src/Common/Object/Within.antt =====
-- Objects that hold a part of another object, and paths that go through mappings only:
-- common/src/state_manipulation/object.rs.
use ankaios.Prelude.{
  String, true, [], ◌∷◌, ◌++◌, none, some, ◌≡◌, refl, Option-cases, Bool-cases, inl, inr, ◌⊎◌, ◌==◌,
  sym, ◌∙◌, eq_iff,
}
use ankaios.Common.Path.{FieldPath}
use ankaios.Common.Yaml.{Yaml}
use ankaios.Common.Object.{get_part, get}
use ankaios.Common.Object.Setting.{apart, below, get-mapping, get_from}

-- The first path is a proper prefix of the second.
abbrev pub ProperPrefix : FieldPath → FieldPath → Type 0
ProperPrefix [] [] = ⊥
ProperPrefix [] (b ∷ f) = Unit
ProperPrefix (a ∷ q) [] = ⊥
ProperPrefix (a ∷ q) (b ∷ f) = (a ≡ b) × ProperPrefix q f

pub ProperPrefix-append : (q f : FieldPath) → ProperPrefix q f → (s : FieldPath) × (f ≡ q ++ s)
ProperPrefix-append [] [] p = absurd p
ProperPrefix-append [] (b ∷ f) p = (b ∷ f, refl)
ProperPrefix-append (a ∷ q) [] p = absurd p
ProperPrefix-append (a ∷ q) (b ∷ f) (same, p) =
    let (s, e) = ProperPrefix-append q f p in (s, cc (same, e))

pub path-cases :
    (f q : FieldPath)
    → (apart f q ≡ true) ⊎ (((rest : FieldPath) × (q ≡ f ++ rest)) ⊎ ProperPrefix q f)
path-cases [] q = inr (inl (q, refl))
path-cases (a ∷ f) [] = inr (inr tt)
path-cases (a ∷ f) (b ∷ q) = elim (Bool-cases (a == b)) [
  | inr e ↦ inl (rw e refl)
  | inl e ↦ elim (path-cases f q) [
    | inl d ↦ inl (rw e d)
    | inr (inl (rest, p)) ↦ inr (inl (rest, cc (p, (eq_iff a b).0 e)))
    | inr (inr p) ↦ inr (inr (sym ((eq_iff a b).0 e), p))
  ]
]

pub apart-append : (p q rest : FieldPath) → apart p q ≡ true → apart p (q ++ rest) ≡ true
apart-append [] q rest h = h
apart-append (a ∷ p) [] rest h = cc
apart-append (a ∷ p) (b ∷ q) rest h = elim (Bool-cases (a == b)) [
  | inl e ↦ rw e (apart-append p q rest (rw e at h))
  | inr e ↦ rw e refl
]

module _ (y : Yaml) where
  -- A longer path goes through a shorter one.
  pub get-append :
      (v : y.Value) (p rest : FieldPath) → get y v (p ++ rest) ≡ below y (get y v p) rest
  unfolding get
  get-append v [] rest = refl
  get-append v (k ∷ p) rest = elim (Option-cases (get_part y v k)) [
    | inl e ↦ rw (e, get) refl
    | inr (w, e) ↦ rw (e, get) (get-append w p rest)
  ]

  -- The path is in the value, and only its end may be other than a mapping.
  abbrev pub Direct : y.Value → FieldPath → Type 0
  Direct v [] = Unit
  Direct v (k ∷ path) =
      (m : y.Mapping) × (w : y.Value) × (y.as_mapping v ≡ some m)
      × (y.lookup m (y.text k) ≡ some w)
      × Direct w path

  -- What is no mapping in the first value is the same in the second.
  abbrev pub Within : y.Value → y.Value → Type 0
  Within r c =
      (q : FieldPath) (w : y.Value)
      → get y r q ≡ some w
      → y.as_mapping w ≡ none
      → get y c q ≡ some w

  pub get-here : (v : y.Value) → get y v [] ≡ some v
  unfolding get
  get-here v = refl

  pub Within-empty : (c : y.Value) → Within (y.from_mapping y.empty) c
  Within-empty c [] w h n = cc (get-here (y.from_mapping y.empty), y.as_mapping-from y.empty)
  Within-empty c (k ∷ q) w h n = cc (get_from y y.empty k q, y.lookup-empty k)

  pub Within-step :
      (r c : y.Value) (mr mc : y.Mapping) (k : String) (rw' cw : y.Value)
      → y.as_mapping r ≡ some mr
      → y.as_mapping c ≡ some mc
      → y.lookup mr (y.text k) ≡ some rw'
      → y.lookup mc (y.text k) ≡ some cw
      → Within r c
      → Within rw' cw
  Within-step r c mr mc k rw' cw e1 e2 e3 e4 h q w g n =
      let to : get y r (k ∷ q) ≡ get y rw' q = rw (get-mapping y r mr k q e1, e3) refl in
      let from : get y c (k ∷ q) ≡ get y cw q = rw (get-mapping y c mc k q e2, e4) refl in
      sym from ∙ h (k ∷ q) w (to ∙ g) n

  -- Where a mapping is in the second value, the first has one or nothing.
  pub Within-mapping :
      (r c : y.Value) (m : y.Mapping)
      → Within r c
      → y.as_mapping c ≡ some m
      → (n : y.Mapping) × (y.as_mapping r ≡ some n)
  Within-mapping r c m h e = elim (Option-cases (y.as_mapping r)) [
    | inl f ↦ absurd (cc (h [] r (get-here r) f, get-here c, e, f))
    | inr n ↦ n
  ]

  pub Direct-get :
      (v : y.Value) (path : FieldPath) → Direct v path → (w : y.Value) × (get y v path ≡ some w)
  Direct-get v [] h = (v, get-here v)
  Direct-get v (k ∷ path) (m, w, e, f, h) =
      let (u, g) = Direct-get w path h in (u, rw (get-mapping y v m k path e, f) g)

  -- A path of the second value that is also in the first is direct there.
  pub Direct-Within :
      (r c v : y.Value) (path : FieldPath)
      → Within r c
      → Direct c path
      → get y r path ≡ some v
      → Direct r path
  Direct-Within r c v [] h d g = tt
  Direct-Within r c v (k ∷ path) h (m, cw, e, f, d) g =
      let (mr, er) = Within-mapping r c m h e in
      elim (Option-cases (y.lookup mr (y.text k))) [
        | inl n ↦ absurd (cc (get-mapping y r mr k path er, n, g))
        | inr (w, s) ↦ (
          mr,
          w,
          er,
          s,
          let below_it : get y r (k ∷ path) ≡ get y w path =
                rw (get-mapping y r mr k path er, s) refl in
              Direct-Within w cw v path (Within-step r c mr m k w cw er e s f h) d
                (sym below_it ∙ g),
        )
      ]
