-- ===== src/Server/Comparator/Copies.antt =====
-- The nodes that the comparison of server/src/ankaios_server/state_comparator.rs copies.
use ankaios.Prelude.{
  ℕ, zero, suc, ◌≤◌, ◌<◌, List, [], ◌∷◌, All, none, some, ◌≡◌, refl, ap, ◌∙◌, subst, Option-cases,
  inl, inr, arith,
}
use ankaios.Common.Yaml.{Yaml, Comparison}
use ankaios.Server.Comparator.{copy_entries, copy_mapping, copy_tree_nodes_without_data, copied}

-- The second value has the nodes of the first: a mapping with entries becomes one with the copies of its
-- values under its keys, and any other value becomes `null`.
mutual
  pub data IsCopy (y : Yaml) : y.Value → y.Value → Type 0 where
    leaf : (v : y.Value) → y.as_mapping v ≡ none → IsCopy y v y.null
    no_entries :
        (v : y.Value) (m : y.Mapping)
        → y.as_mapping v ≡ some m
        → y.entries m ≡ []
        → IsCopy y v y.null
    some_entries :
        (v : y.Value) (m : y.Mapping) (e : y.Value × y.Value) (es : List (y.Value × y.Value))
        (r : y.Mapping)
        → y.as_mapping v ≡ some m
        → y.entries m ≡ e ∷ es
        → AreCopied y (e ∷ es) y.empty r
        → IsCopy y v (y.from_mapping r)

  pub data AreCopied (y : Yaml) : List (y.Value × y.Value) → y.Mapping → y.Mapping → Type 0 where
    all_copied : (r : y.Mapping) → AreCopied y [] r r
    copied_next :
        (key value node : y.Value) (es : List (y.Value × y.Value)) (m r : y.Mapping)
        → IsCopy y value node
        → AreCopied y es (y.put m key node) r
        → AreCopied y ((key, value) ∷ es) m r

module _ (y : Yaml) (c : Comparison y) where
  abbrev AreBelow : ℕ → List (y.Value × y.Value) → Type 0
  AreBelow d es = All (λ e. c.depth e.1 ≤ d) es

  below :
      (d : ℕ) (v : y.Value) (es : List (y.Value × y.Value))
      → c.depth v ≤ suc d
      → All (λ e. c.depth e.1 < c.depth v) es
      → AreBelow d es
  below d v [] h k = tt
  below d v (e ∷ es) h (k, ks) = (omega (arith, h, k), below d v es h ks)

  entries_below :
      (d : ℕ) (v : y.Value) (m : y.Mapping) (es : List (y.Value × y.Value))
      → c.depth v ≤ suc d
      → y.as_mapping v ≡ some m
      → y.entries m ≡ es
      → AreBelow d es
  entries_below d v m es h e f =
      below d v es h (subst (λ z. All (λ e. c.depth e.1 < c.depth v) z) f (c.depth-entries v m e))

  no_depth :
      (v : y.Value) (m : y.Mapping) (e : y.Value × y.Value) (es : List (y.Value × y.Value))
      → c.depth v ≤ 0
      → y.as_mapping v ≡ some m
      → y.entries m ≡ e ∷ es
      → ⊥
  no_depth v m e es h a f =
      let deeper : All (λ z. c.depth z.1 < c.depth v) (e ∷ es) =
        subst (λ z. All (λ e. c.depth e.1 < c.depth v) z) f (c.depth-entries v m a) in
      absurd (omega (arith, h, deeper.0))

  abbrev tree : ℕ → y.Value → y.Value
  tree = copy_tree_nodes_without_data y

  copied-entries :
      (d : ℕ)
      → ((v : y.Value) → c.depth v ≤ d → IsCopy y v (tree d v))
      → (es : List (y.Value × y.Value)) (m : y.Mapping) → AreBelow d es
      → AreCopied y es m (copy_entries y (tree d) es m)
  copied-entries d one [] m h = all_copied m
  copied-entries d one ((key, value) ∷ es) m (h, hs) =
      copied_next key value (tree d value) es m _ (one value h)
        (copied-entries d one es (y.put m key (tree d value)) hs)

  tree-IsCopy : (d : ℕ) (v : y.Value) → c.depth v ≤ d → IsCopy y v (tree d v)
  unfolding copy_tree_nodes_without_data
  tree-IsCopy zero v h = elim (Option-cases (y.as_mapping v)) [
    | inl e ↦ leaf v e
    | inr (m, e) ↦ at_zero m e (y.entries m) refl
  ]
    where
      at_zero :
          (m : y.Mapping)
          → y.as_mapping v ≡ some m
          → (es : List (y.Value × y.Value)) → y.entries m ≡ es
          → IsCopy y v y.null
      at_zero m e [] f = no_entries v m e f
      at_zero m e (x ∷ es) f = absurd (no_depth v m x es h e f)
  tree-IsCopy (suc d) v h = elim (Option-cases (y.as_mapping v)) [
    | inl e ↦ rw (e, copy_tree_nodes_without_data) (leaf v e)
    | inr (m, e) ↦
        rw (e, copy_tree_nodes_without_data) (at_suc (tree-IsCopy d) m e (y.entries m) refl)
  ]
    where
      at_suc :
          ((u : y.Value) → c.depth u ≤ d → IsCopy y u (tree d u))
          → (m : y.Mapping) → y.as_mapping v ≡ some m
          → (es : List (y.Value × y.Value)) → y.entries m ≡ es
          → IsCopy y v (copy_mapping y (tree d) es)
      at_suc one m e [] f = no_entries v m e f
      at_suc one m e (x ∷ es) f =
          some_entries v m x es _ e f
            (copied-entries d one (x ∷ es) y.empty (entries_below d v m (x ∷ es) h e f))

  entries_unique :
      (d : ℕ)
      → ((v node : y.Value) → c.depth v ≤ d → IsCopy y v node → node ≡ tree d v)
      → {es : List (y.Value × y.Value)} {m r : y.Mapping} → AreCopied y es m r
      → AreBelow d es
      → r ≡ copy_entries y (tree d) es m
  entries_unique d one (all_copied r) h = refl
  entries_unique d one (copied_next key value node es m r k ks) (h, hs) =
      entries_unique d one {es = es} {m = y.put m key node} {r = r} ks hs
      ∙ ap (λ z. copy_entries y (tree d) es (y.put m key z)) (one value node h k)

  tree_unique : (d : ℕ) (v node : y.Value) → c.depth v ≤ d → IsCopy y v node → node ≡ tree d v
  unfolding copy_tree_nodes_without_data
  tree_unique zero _ _ h (leaf v e) = refl
  tree_unique zero _ _ h (no_entries v m e f) = refl
  tree_unique zero _ _ h (some_entries v m x es r e f k) = absurd (no_depth v m x es h e f)
  tree_unique (suc d) _ _ h (leaf v e) = rw (e, copy_tree_nodes_without_data) refl
  tree_unique (suc d) _ _ h (no_entries v m e f) = rw (e, copy_tree_nodes_without_data, f) refl
  tree_unique (suc d) _ _ h (some_entries v m x es r e f k) =
      rw (e, copy_tree_nodes_without_data, f)
        (ap y.from_mapping (
          entries_unique d (tree_unique d) {es = x ∷ es} {m = y.empty} {r = r} k
            (entries_below d v m (x ∷ es) h e f)))

  pub copied-IsCopy : (v : y.Value) → IsCopy y v (copied y c v)
  unfolding copied
  copied-IsCopy v = tree-IsCopy (c.depth v) v (omega arith)

  pub IsCopy-copied : (v node : y.Value) → IsCopy y v node → node ≡ copied y c v
  unfolding copied
  IsCopy-copied v node h = tree_unique (c.depth v) v node (omega arith) h
