-- ===== src/Common/Object/Opening.antt =====
-- When a value can be set, and where an object that is filled step by step has other values than mappings:
-- common/src/state_manipulation/object.rs.
use ankaios.Prelude.{
  String, List, [], ◌∷◌, ◌++◌, none, some, ok, ◌≡◌, ◌≢◌, refl, sym, ◌∙◌, subst, Option-cases, inl,
  inr, IsIn,
}
use ankaios.Common.Path.{FieldPath}
use ankaios.Common.Yaml.{Yaml}
use ankaios.Common.Object.{Object, set_in, set_from, set, get, empty_path, entry_or_mapping}
use ankaios.Common.Object.Setting.{get_from, get-entry, set-get, split_last-append}
use ankaios.Common.Object.Within.{ProperPrefix, path-cases, get-here}
use ankaios.Common.Object.Growing.{split_last-total, set-above}

ProperPrefix-snoc : (head : FieldPath) (last : String) → ProperPrefix [] (head ++ last ∷ [])
ProperPrefix-snoc [] last = tt
ProperPrefix-snoc (k ∷ head) last = tt

module _ (y : Yaml) where
  -- Above the path there are mappings only.
  abbrev pub IsOpen : Object y → FieldPath → Type 0
  IsOpen o path =
      (q : FieldPath) (w : y.Value)
      → ProperPrefix q path
      → get y o q ≡ some w
      → y.as_mapping w ≢ none

  entry_open :
      (m : y.Mapping) (part : String) (rest : FieldPath)
      → ProperPrefix [] rest
      → IsOpen (y.from_mapping m) (part ∷ rest)
      → y.as_mapping (entry_or_mapping y (y.lookup m (y.text part))) ≢ none
  entry_open m part rest p h n = elim (Option-cases (y.lookup m (y.text part))) [
    | inl e ↦ cc (y.as_mapping-from y.empty, rw e at n)
    | inr (w, e) ↦
        h (part ∷ []) w (refl, p) (rw (get_from y m part [], e) (get-here y w)) (rw e at n)
  ]

  IsOpen-below :
      (m next : y.Mapping) (part : String) (rest : FieldPath)
      → y.as_mapping (entry_or_mapping y (y.lookup m (y.text part))) ≡ some next
      → IsOpen (y.from_mapping m) (part ∷ rest)
      → IsOpen (y.from_mapping next) rest
  IsOpen-below m next part rest e h [] w p g n =
      cc (get-here y (y.from_mapping next), y.as_mapping-from next)
  IsOpen-below m next part rest e h (a ∷ q) w p g n =
      h (part ∷ (a ∷ q)) w (refl, p) (get-entry y m part next a q e ∙ g) n

  set_in-open :
      (m : y.Mapping) (head : FieldPath) (last : String) (v : y.Value)
      → IsOpen (y.from_mapping m) (head ++ last ∷ [])
      → (changed : y.Mapping) × (set_in y m head last v ≡ ok changed)
  unfolding set_in
  set_in-open m [] last v h = (y.put m (y.text last) v, refl)
  set_in-open m (part ∷ head) last v h =
      elim (Option-cases (y.as_mapping (entry_or_mapping y (y.lookup m (y.text part))))) [
        | inl n ↦ absurd (entry_open m part (head ++ last ∷ []) (ProperPrefix-snoc head last) h n)
        | inr (next, n) ↦
            let (changed, s) =
              set_in-open next head last v (IsOpen-below m next part (head ++ last ∷ []) n h) in
            (y.put m (y.text part) (y.from_mapping changed), rw (n, set_in, s) refl)
      ]

  pub set-open :
      (o : Object y) (path : FieldPath) (v : y.Value)
      → path ≢ []
      → IsOpen o path
      → (o' : Object y) × (set y o path v ≡ ok o')
  unfolding set set_from
  set-open o path v n h =
      let (s, e) = split_last-total empty_path path n in
      let parts = split_last-append empty_path path s e in
      elim (Option-cases (y.as_mapping o)) [
        | inl k ↦ absurd (
            h [] o (subst (ProperPrefix []) (sym parts) (ProperPrefix-snoc s.0 s.1)) (get-here y o)
              k)
        | inr (root, k) ↦
            let (changed, f) = set_in-open root s.0 s.1 v (
              subst (λ (z : Object y). IsOpen z (s.0 ++ s.1 ∷ []))
                (sym (y.from-as_mapping o root k)) (subst (IsOpen o) parts h)) in
            (y.from_mapping changed, rw (e, set_from, k, f) refl)
      ]

  -- What is no mapping stands at one of the paths, or below it.
  abbrev pub Covers : List FieldPath → Object y → Type 0
  Covers paths o =
      (q : FieldPath) (w : y.Value)
      → get y o q ≡ some w
      → y.as_mapping w ≡ none
      → (p : FieldPath) × (rest : FieldPath) × IsIn p paths × (q ≡ p ++ rest)

  pub Covers-empty : Covers [] (y.from_mapping y.empty)
  Covers-empty [] w g n =
      absurd (cc (get-here y (y.from_mapping y.empty), y.as_mapping-from y.empty))
  Covers-empty (k ∷ q) w g n = absurd (cc (get_from y y.empty k q, y.lookup-empty k))

  pub Covers-more :
      (p : FieldPath) (paths : List FieldPath) (o : Object y)
      → Covers paths o
      → Covers (p ∷ paths) o
  Covers-more p paths o h q w g n = let (d, rest, there, e) = h q w g n in (d, rest, inr there, e)

  pub Covers-set :
      (o : Object y) (path : FieldPath) (v : y.Value) (o' : Object y) (paths : List FieldPath)
      → Covers paths o
      → set y o path v ≡ ok o'
      → Covers (path ∷ paths) o'
  Covers-set o path v o' paths h e q w g n = elim (path-cases path q) [
    | inl d ↦
        let (p, rest, there, same) = h q w (sym ((set-get y o path v o' e).1 q d) ∙ g) n in
        (p, rest, inr there, same)
    | inr (inl (rest, p)) ↦ (path, rest, inl refl, p)
    | inr (inr p) ↦ absurd (set-above y o path v o' q w e p g n)
  ]
