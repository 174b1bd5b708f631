-- ===== src/Common/Object/Growing.antt =====
-- An object that is filled with values of another one: common/src/state_manipulation/object.rs.
use mathlib.Core.List.{append_assoc}
use ankaios.Prelude.{
  String, [], ◌∷◌, ◌++◌, none, some, ok, ◌≡◌, refl, ok_value, some_value, Option-cases, inl, inr,
  sym, ap, ◌∙◌, subst, ◌≢◌,
}
use ankaios.Common.Path.{FieldPath, split_last}
use ankaios.Common.Yaml.{Yaml}
use ankaios.Common.Object.{Object, set_in, set_from, set, get, empty_path, entry_or_mapping}
use ankaios.Common.Object.Setting.{
  below, get_from, get-put_self, set-set_in, set-get, set_in-step, split_last-append,
}
use ankaios.Common.Object.Within.{
  ProperPrefix, ProperPrefix-append, path-cases, Direct, Within, Within-empty, Within-step,
  Within-mapping, Direct-Within, get-here, apart-append, get-append,
}

pub split_last-total :
    {E : Type 0} (e : E) (path : FieldPath)
    → path ≢ []
    → (r : FieldPath × String) × (split_last e path ≡ ok r)
unfolding split_last
split_last-total e [] n = absurd (n refl)
split_last-total e (p ∷ []) n = (([], p), refl)
split_last-total e (p ∷ (q ∷ path)) n =
    let (r, h) = split_last-total e (q ∷ path) (λ (z : q ∷ path ≡ []). cc z) in
    ((p ∷ r.0, r.1), rw h refl)

module _ (y : Yaml) where
  -- The entry below a part of a path that is direct in the second object.
  entry-Within :
      (mr : y.Mapping) (c cw : y.Value) (mc : y.Mapping) (k : String)
      → y.as_mapping c ≡ some mc
      → y.lookup mc (y.text k) ≡ some cw
      → Within y (y.from_mapping mr) c
      → Within y (entry_or_mapping y (y.lookup mr (y.text k))) cw
  entry-Within mr c cw mc k e f h = elim (Option-cases (y.lookup mr (y.text k))) [
    | inl n ↦ rw n (Within-empty y cw)
    | inr (w, s) ↦
        rw s (Within-step y (y.from_mapping mr) c mr mc k w cw (y.as_mapping-from mr) e s f h)
  ]

  Direct-as_mapping :
      (w : y.Value) (head : FieldPath) (last : String)
      → Direct y w (head ++ last ∷ [])
      → (m : y.Mapping) × (y.as_mapping w ≡ some m)
  Direct-as_mapping w [] last (m, u, e, f, d) = (m, e)
  Direct-as_mapping w (p ∷ head) last (m, u, e, f, d) = (m, e)

  set_in-total :
      (mr : y.Mapping) (c : y.Value) (head : FieldPath) (last : String) (v : y.Value)
      → Within y (y.from_mapping mr) c
      → Direct y c (head ++ last ∷ [])
      → (m' : y.Mapping) × (set_in y mr head last v ≡ ok m')
  unfolding set_in
  set_in-total mr c [] last v h d = (y.put mr (y.text last) v, refl)
  set_in-total mr c (p ∷ head) last v h (mc, cw, e, f, d) =
      let within = entry-Within mr c cw mc p e f h in
      let (mw, g) = Direct-as_mapping cw head last d in
      let (next, n) =
        Within-mapping y (entry_or_mapping y (y.lookup mr (y.text p))) cw mw within g in
      let (changed, s) =
        set_in-total next cw head last v
          (subst (λ x. Within y x cw) (sym (y.from-as_mapping _ next n)) within) d in
      (y.put mr (y.text p) (y.from_mapping changed), rw (n, set_in, s) refl)

  -- Where a path is direct in an object that holds this one, its value can be set.
  pub set-total :
      (r c : Object y) (path : FieldPath) (v : y.Value)
      → Within y r c
      → Direct y c path
      → path ≢ []
      → (r' : Object y) × (set y r path v ≡ ok r')
  unfolding set set_from
  set-total r c path v h d n =
      let (s, e) = split_last-total empty_path path n in
      let d' : Direct y c (s.0 ++ s.1 ∷ []) =
        subst (Direct y c) (split_last-append empty_path path s e) d in
      let (mc, g) = Direct-as_mapping c s.0 s.1 d' in
      let (root, k) = Within-mapping y r c mc h g in
      let (changed, f) =
        set_in-total root c s.0 s.1 v
          (subst (λ x. Within y x c) (sym (y.from-as_mapping r root k)) h) d' in
      (y.from_mapping changed, rw (e, set_from, k, f) refl)

  -- Above the path there are mappings afterwards.
  set_in-above :
      (m : y.Mapping) (head : FieldPath) (last : String) (v : y.Value) (m' : y.Mapping)
      (q : FieldPath) (w : y.Value)
      → set_in y m head last v ≡ ok m'
      → ProperPrefix q (head ++ last ∷ [])
      → get y (y.from_mapping m') q ≡ some w
      → y.as_mapping w ≢ none
  set_in-above m head last v m' [] w h p g n =
      cc (get-here y (y.from_mapping m'), y.as_mapping-from m')
  set_in-above m [] last v m' (b ∷ []) w h p g n = absurd p.1
  set_in-above m [] last v m' (b ∷ (a ∷ q)) w h p g n = absurd p.1
  set_in-above m (k ∷ head) last v m' (b ∷ q) w h (same, p) g n =
      let (next, changed, e1, e2, e3) = set_in-step y m k head last v m' h in
      set_in-above next head last v changed q w e2 p
        (sym (get-put_self y m k (y.from_mapping changed) q) ∙ (rw (e3, same) at g)) n

  -- Setting what is there already changes nothing.
  set_in-same :
      (m : y.Mapping) (head : FieldPath) (last : String) (v : y.Value)
      → Direct y (y.from_mapping m) (head ++ last ∷ [])
      → get y (y.from_mapping m) (head ++ last ∷ []) ≡ some v
      → set_in y m head last v ≡ ok m
  unfolding set_in
  set_in-same m [] last v (mc, w, e, f, d) g =
      let same : mc ≡ m =
        some_value (y.as_mapping (y.from_mapping m)) mc m e (y.as_mapping-from m) in
      let there : y.lookup m (y.text last) ≡ some w = rw same at f in
      let at_w : get y (y.from_mapping m) (last ∷ []) ≡ get y w [] =
        rw (get_from y m last [], there) refl in
      let value : w ≡ v = some_value (get y w []) w v (get-here y w) (sym at_w ∙ g) in
      ap (λ (n : y.Mapping). ok n) (y.put_same m last v (rw value at there))
  set_in-same m (k ∷ head) last v (mc, cw, e, f, d) g =
      let same : mc ≡ m =
        some_value (y.as_mapping (y.from_mapping m)) mc m e (y.as_mapping-from m) in
      let there : y.lookup m (y.text k) ≡ some cw = rw same at f in
      let (next, n) = Direct-as_mapping cw head last d in
      let back : y.from_mapping next ≡ cw = y.from-as_mapping cw next n in
      let at_cw : get y (y.from_mapping m) (k ∷ (head ++ last ∷ []))
          ≡ get y cw (head ++ last ∷ []) =
        rw (get_from y m k (head ++ last ∷ []), there) refl in
      let ih =
        set_in-same next head last v (subst (λ x. Direct y x (head ++ last ∷ [])) (sym back) d)
          (ap (λ x. get y x (head ++ last ∷ [])) back ∙ sym at_cw ∙ g) in
      rw (there, set_in, n, ih)
        (ap (λ (z : y.Mapping). ok z)
          (y.put_same m k (y.from_mapping next) (there ∙ ap (λ (z : y.Value). some z) (sym back))))

  pub set-above :
      (r : Object y) (path : FieldPath) (v : y.Value) (r' : Object y) (q : FieldPath) (w : y.Value)
      → set y r path v ≡ ok r'
      → ProperPrefix q path
      → get y r' q ≡ some w
      → y.as_mapping w ≢ none
  set-above r path v r' q w h p g =
      let (s, root, changed, e1, e2, e3, e4) = set-set_in y r path v r' h in
      set_in-above root s.0 s.1 v changed q w e3 (subst (ProperPrefix q) e1 p)
        (ap (λ x. get y x q) (sym e4) ∙ g)

  set-same :
      (r : Object y) (path : FieldPath) (v : y.Value)
      → path ≢ []
      → Direct y r path
      → get y r path ≡ some v
      → set y r path v ≡ ok r
  unfolding set set_from
  set-same r path v n d g =
      let (s, e) = split_last-total empty_path path n in
      let parts = split_last-append empty_path path s e in
      let d' : Direct y r (s.0 ++ s.1 ∷ []) = subst (Direct y r) parts d in
      let (root, k) = Direct-as_mapping r s.0 s.1 d' in
      let back = y.from-as_mapping r root k in
      let f =
        set_in-same root s.0 s.1 v (subst (λ x. Direct y x (s.0 ++ s.1 ∷ [])) (sym back) d')
          (ap (λ x. get y x (s.0 ++ s.1 ∷ [])) back ∙ ap (λ p. get y r p) (sym parts) ∙ g) in
      rw (e, set_from, k, f) (ap (λ (z : y.Value). ok z) back)

  -- The object still holds only values of the other one after a value of that one is set.
  pub Within-set :
      (r c : Object y) (path : FieldPath) (v : y.Value) (r' : Object y)
      → Within y r c
      → get y c path ≡ some v
      → set y r path v ≡ ok r'
      → Within y r' c
  Within-set r c path v r' h g e q w there n =
      let (below_it, others) = set-get y r path v r' e in
      elim (path-cases path q) [
        | inl d ↦ h q w (sym (others q d) ∙ there) n
        | inr (inl (rest, p)) ↦
            ap (λ x. get y c x) p
            ∙ get-append y c path rest
            ∙ ap (λ o. below y o rest) g
            ∙ sym (below_it rest)
            ∙ sym (ap (λ x. get y r' x) p)
            ∙ there
        | inr (inr p) ↦ absurd (set-above r path v r' q w e p there n)
      ]

  -- Both objects are read alike below the path.
  abbrev pub Alike : Object y → Object y → FieldPath → Type 0
  Alike r c path = (rest : FieldPath) → get y r (path ++ rest) ≡ get y c (path ++ rest)

  pub set-Alike :
      (r c : Object y) (path : FieldPath) (v : y.Value) (r' : Object y)
      → get y c path ≡ some v
      → set y r path v ≡ ok r'
      → Alike r' c path
  set-Alike r c path v r' g e rest =
      (set-get y r path v r' e).0 rest ∙ sym (get-append y c path rest ∙ ap (λ o. below y o rest) g)

  -- What was read alike below a path is so after a value of the other object is set.
  pub Alike-set :
      (r c : Object y) (path : FieldPath) (v : y.Value) (r' : Object y) (f : FieldPath)
      → Within y r c
      → path ≢ []
      → Direct y c path
      → get y c path ≡ some v
      → set y r path v ≡ ok r'
      → Alike r c f
      → Alike r' c f
  Alike-set r c path v r' f h n d g e alike rest = elim (path-cases path f) [
    | inl a ↦ (set-get y r path v r' e).1 (f ++ rest) (apart-append path f rest a) ∙ alike rest
    | inr (inl (t, p)) ↦
        let longer : f ++ rest ≡ path ++ (t ++ rest) =
          ap (λ (l : FieldPath). l ++ rest) p ∙ append_assoc path t rest in
        subst (λ l. get y r' l ≡ get y c l) (sym longer) (set-Alike r c path v r' g e (t ++ rest))
    | inr (inr p) ↦
        let (s, p2) = ProperPrefix-append f path p in
        let in_r : get y r path ≡ some v =
          subst (λ l. get y r l ≡ get y c l) (sym p2) (alike s) ∙ g in
        let same =
          ok_value r r' (set y r path v)
            (set-same r path v n (Direct-Within y r c v path h d in_r) in_r) e in
        ap (λ x. get y x (f ++ rest)) (sym same) ∙ alike rest
  ]
