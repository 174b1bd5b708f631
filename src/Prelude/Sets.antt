-- ===== src/Prelude/Sets.antt =====
-- Hash sets as lists of their elements, under an equality test, and maps from texts to such sets.
use mathlib.Core.Path.{◌≡◌, refl, sym, ap, ◌∙◌}
use mathlib.Core.Logic.{inl, inr, ◌↔◌}
use mathlib.Core.Bool.{Bool, true, false, not, ◌&&◌, ◌||◌}
use mathlib.Core.Option.{none, some}
use mathlib.Core.List.{List, [], ◌∷◌, ◌++◌}
use Prim.Native.String.{String}
use native.Mathlib.Omega.{arith}
use text.Mathlib.Text.{◌==◌}
use text.Mathlib.TextEquality.{eq_iff}
use ankaios.Prelude.Tests.{Bool-cases, Option-cases, if◌then◌else◌}
use ankaios.Prelude.Lists.{any, keep}
use ankaios.Prelude.Maps.{Map, get, insert, remove, get_or, entry, get-insert, get-remove}

module _ {A : Type 0} (eq : A → A → Bool) where
  abbrev pub has : A → List A → Bool
  has x xs = any (eq x) xs

  -- `insert` and `remove` of a hash set.
  abbrev pub set_insert : List A → A → List A
  set_insert xs x = if has x xs then xs else xs ++ x ∷ []

  abbrev pub set_remove : List A → A → List A
  set_remove xs x = keep (λ y. not (eq y x)) xs

  abbrev pub none_left : List A → Bool
  none_left [] = true
  none_left (x ∷ xs) = false

  -- An element is removed from the set of a key, and the key with its last element.
  unfoldable pub remove_from_set : Map (List A) → String → A → Map (List A)
  remove_from_set store key x = elim (get store key) [
    | none ↦ store
    | some requests ↦
        let rest = set_remove requests x in
        if none_left rest then remove store key else insert store key rest
  ]

  -- The set of the key has the element.
  abbrev pub holds : Map (List A) → String → A → Bool
  holds store key x = has x (get_or [] (get store key))

module _ {A : Type 0} (eq : A → A → Bool) (decides : (x y : A) → (eq x y ≡ true) ↔ (x ≡ y)) where
  has-append : (x y : A) (xs : List A) → has eq x (xs ++ y ∷ []) ≡ (has eq x xs || eq x y)
  has-append x y [] = ground arith
  has-append x y (z ∷ xs) = ground (arith, has-append x y xs)

  has_same : (x y : A) (xs : List A) → eq x y ≡ true → has eq y xs ≡ true → has eq x xs ≡ true
  has_same x y xs e h = ap (λ z. has eq z xs) ((decides x y).0 e) ∙ h

  has-set_insert : (x y : A) (xs : List A) → has eq x (set_insert eq xs y) ≡ (has eq x xs || eq x y)
  has-set_insert x y xs = elim (Bool-cases (has eq y xs)) [
    | inl e ↦ rw e (elim (Bool-cases (eq x y)) [
      | inl f ↦ ground (arith, has_same x y xs f e)
      | inr f ↦ ground arith
    ])
    | inr e ↦ rw e (has-append x y xs)
  ]

  has-set_remove :
      (x y : A) (xs : List A) → has eq x (set_remove eq xs y) ≡ (has eq x xs && not (eq x y))
  has-set_remove x y [] = refl
  has-set_remove x y (z ∷ xs) =
      let ih = has-set_remove x y xs in
      elim (Bool-cases (eq z y)) [
        | inl f ↦
            let same : eq x z ≡ eq x y = ap (eq x) ((decides z y).0 f) in
            rw f (ground (arith, ih, same))
        | inr f ↦ elim (Bool-cases (eq x z)) [
          | inl g ↦
              let other : eq x y ≡ false = ap (λ u. eq u y) ((decides x z).0 g) ∙ f in
              rw f (ground (arith, ih, other, g))
          | inr g ↦ rw f (ground (arith, ih, g))
        ]
      ]

  pub holds-entry :
      (store : Map (List A)) (k j : String) (x y : A)
      → holds eq (entry store k [] (λ xs. set_insert eq xs y)) j x
        ≡ (holds eq store j x || ((k == j) && eq x y))
  holds-entry store k j x y =
      let changed = set_insert eq (get_or [] (get store k)) y in
      elim (Bool-cases (k == j)) [
        | inl e ↦
            let at_j : has eq x (get_or [] (get store k)) ≡ holds eq store j x =
              ap (λ i. holds eq store i x) ((eq_iff k j).0 e) in
            rw (get-insert store k j changed, e)
              (has-set_insert x y (get_or [] (get store k)) ∙ ap (λ b. b || eq x y) at_j)
        | inr e ↦ rw (get-insert store k j changed, e) (ground arith)
      ]

  pub holds-remove :
      (store : Map (List A)) (k j : String) (x : A)
      → holds eq (remove store k) j x ≡ (holds eq store j x && not (k == j))
  holds-remove store k j x = elim (Bool-cases (k == j)) [
    | inl e ↦ rw (get-remove store k j, e) (ground arith)
    | inr e ↦ rw (get-remove store k j, e) (ground arith)
  ]

  none_left-has : (xs : List A) (x : A) → none_left eq xs ≡ true → has eq x xs ≡ false
  none_left-has [] x h = refl
  none_left-has (y ∷ xs) x h = cc

  pub holds-remove_from_set :
      (store : Map (List A)) (k j : String) (x y : A)
      → holds eq (remove_from_set eq store k y) j x
        ≡ (holds eq store j x && not ((k == j) && eq x y))
  unfolding remove_from_set
  holds-remove_from_set store k j x y = elim (Option-cases (get store k)) [
    | inl n ↦ elim (Bool-cases (k == j)) [
      | inl e ↦
          let gone : get store j ≡ none = ap (get store) (sym ((eq_iff k j).0 e)) ∙ n in
          rw (n, remove_from_set, gone) refl
      | inr e ↦ rw (n, remove_from_set, e) (ground arith)
    ]
    | inr (requests, n) ↦
        let removed = has-set_remove x y requests in
        elim (Bool-cases (k == j)) [
          | inl e ↦
              let there : get store j ≡ some requests =
                ap (get store) (sym ((eq_iff k j).0 e)) ∙ n in
              elim (Bool-cases (none_left eq (set_remove eq requests y))) [
                | inl l ↦
                    rw (n, remove_from_set, l, get-remove store k j, e, there)
                      (ground (arith, removed, none_left-has (set_remove eq requests y) x l))
                | inr l ↦
                    rw
                      (
                        n,
                        remove_from_set,
                        l,
                        get-insert store k j (set_remove eq requests y),
                        e,
                        there,
                      )
                      (ground (arith, removed))
              ]
          | inr e ↦ elim (Bool-cases (none_left eq (set_remove eq requests y))) [
            | inl l ↦ rw (n, remove_from_set, l, get-remove store k j, e) (ground arith)
            | inr l ↦
                rw (n, remove_from_set, l, get-insert store k j (set_remove eq requests y), e)
                  (ground arith)
          ]
        ]
  ]

  -- A search that succeeds finds an element.
  pub any-has :
      (p : A → Bool) (xs : List A) → any p xs ≡ true → (x : A) × (p x ≡ true) × (has eq x xs ≡ true)
  any-has p [] h = cc
  any-has p (y ∷ xs) h = elim (Bool-cases (p y)) [
    | inl e ↦ (y, e, rw ((decides y y).1 refl) refl)
    | inr e ↦ let (x, f, g) = any-has p xs (rw e at h) in (x, f, ground (arith, g))
  ]

  pub has-any :
      (p : A → Bool) (x : A) (xs : List A) → p x ≡ true → has eq x xs ≡ true → any p xs ≡ true
  has-any p x [] h g = cc
  has-any p x (y ∷ xs) h g = elim (Bool-cases (eq x y)) [
    | inl e ↦ let at_y : p y ≡ true = ap p (sym ((decides x y).0 e)) ∙ h in ground (arith, at_y)
    | inr e ↦ ground (arith, has-any p x xs h (rw e at g))
  ]
