-- ===== src/Server/Differences.antt =====
-- Which workloads an update adds and deletes: server/src/ankaios_server/server_state.rs.
use mathlib.Core.Path.{subst}
use ankaios.Prelude.{
  String, ◌≡◌, ◌==◌, refl, inl, inr, true, false, List, [], ◌∷◌, ◌++◌, Option, none, some, Map, get,
  contains_key, Option-cases, All, sym, ap, Any, Any-append_left, Any-append_right, eq_iff,
  Bool-cases, if◌then◌else◌,
}
use ankaios.Api.Workload.{WorkloadNamed, DeletedWorkload, workload_named_eq}
use ankaios.Server.ServerState.{
  AddedDeletedWorkloads, deleted_workload, updated_or_deleted, new_ones, some_unless_empty,
  all_differences, extract_added_and_deleted_workloads,
}

abbrev pub IsAdded : WorkloadNamed → AddedDeletedWorkloads → Type 0
IsAdded w r = Any (λ v. v ≡ w) r.added_workloads

abbrev pub IsDeleted : WorkloadNamed → AddedDeletedWorkloads → Type 0
IsDeleted w r = Any (λ d. d ≡ deleted_workload w) r.deleted_workloads

-- What has to happen with a name, by what it stands for before and after.
abbrev pub Expected : Option WorkloadNamed → Option WorkloadNamed → AddedDeletedWorkloads → Type 0
Expected none none r = Unit
Expected none (some w) r = IsAdded w r
Expected (some v) none r = IsDeleted v r
Expected (some v) (some w) r = workload_named_eq v w ≡ false → IsAdded w r × IsDeleted v r

-- The first loop treats the names that it goes through.
abbrev First : Option WorkloadNamed → Option WorkloadNamed → AddedDeletedWorkloads → Type 0
First none o r = Unit
First (some v) none r = IsDeleted v r
First (some v) (some w) r = workload_named_eq v w ≡ false → IsAdded w r × IsDeleted v r

entry-First :
    (v : WorkloadNamed) (o : Option WorkloadNamed) (rest : AddedDeletedWorkloads)
    → First (some v) o (elim o [
      | none ↦ record rest { deleted_workloads = deleted_workload v ∷ rest.deleted_workloads }
      | some new_w ↦ if workload_named_eq v new_w then rest else record {
        added_workloads = new_w ∷ rest.added_workloads;
        deleted_workloads = deleted_workload v ∷ rest.deleted_workloads;
      }
    ])
entry-First v none rest = inl refl
entry-First v (some w) rest = λ e. rw e (inl refl, inl refl)

rest-First :
    (x : Option WorkloadNamed) (v : WorkloadNamed) (o p : Option WorkloadNamed)
    (rest : AddedDeletedWorkloads)
    → First x p rest
    → First x p (elim o [
      | none ↦ record rest { deleted_workloads = deleted_workload v ∷ rest.deleted_workloads }
      | some new_w ↦ if workload_named_eq v new_w then rest else record {
        added_workloads = new_w ∷ rest.added_workloads;
        deleted_workloads = deleted_workload v ∷ rest.deleted_workloads;
      }
    ])
rest-First none v o p rest h = tt
rest-First (some u) v none none rest h = inr h
rest-First (some u) v none (some q) rest h = λ e. ((h e).0, inr (h e).1)
rest-First (some u) v (some w) none rest h = elim (Bool-cases (workload_named_eq v w)) [
  | inl e ↦ rw e h
  | inr e ↦ rw e (inr h)
]
rest-First (some u) v (some w) (some q) rest h = elim (Bool-cases (workload_named_eq v w)) [
  | inl e ↦ rw e h
  | inr e ↦ rw e (λ k. (inr (h k).0, inr (h k).1))
]

updated_or_deleted-First :
    (current new : Map WorkloadNamed) (n : String)
    → First (get current n) (get new n) (updated_or_deleted current new)
unfolding updated_or_deleted get
updated_or_deleted-First [] new n = tt
updated_or_deleted-First ((name, v) ∷ current) new n = elim (Bool-cases (name == n)) [
  | inl e ↦ rw e (
      subst
        (λ (k : String). First (some v) (get new k) (updated_or_deleted ((name, v) ∷ current) new))
        ((eq_iff name n).0 e) (entry-First v (get new name) (updated_or_deleted current new)))
  | inr e ↦ rw e (
      rest-First (get current n) v (get new name) (get new n) (updated_or_deleted current new)
        (updated_or_deleted-First current new n))
]

same_workload : (v w : WorkloadNamed) → some v ≡ some w → v ≡ w
same_workload v w e = cc

new_ones-Any :
    (current new : Map WorkloadNamed) (n : String) (w : WorkloadNamed)
    → get current n ≡ none
    → get new n ≡ some w
    → Any (λ v. v ≡ w) (new_ones current new)
unfolding new_ones get
new_ones-Any current [] n w h e = cc
new_ones-Any current ((name, v) ∷ new) n w h e = elim (Bool-cases (name == n)) [
  | inl q ↦
      let c : contains_key current name ≡ false = rw ((eq_iff name n).0 q, h, contains_key) refl in
      rw c (inl (same_workload v w (rw q at e)))
  | inr q ↦ elim (Bool-cases (contains_key current name)) [
    | inl c ↦ rw c (new_ones-Any current new n w h (rw q at e))
    | inr c ↦ rw c (inr (new_ones-Any current new n w h (rw q at e)))
  ]
]

combine :
    (x o : Option WorkloadNamed) (first : AddedDeletedWorkloads) (more : List WorkloadNamed)
    → First x o first
    → ((w : WorkloadNamed) → x ≡ none → o ≡ some w → Any (λ v. v ≡ w) more)
    → Expected x o (record first { added_workloads = first.added_workloads ++ more })
combine none none first more f k = tt
combine none (some w) first more f k =
    Any-append_right (λ v. v ≡ w) first.added_workloads more (k w refl refl)
combine (some v) none first more f k = f
combine (some v) (some w) first more f k =
    λ e. (Any-append_left (λ u. u ≡ w) first.added_workloads more (f e).0, (f e).1)

all_differences-Expected :
    (current new : Map WorkloadNamed) (n : String)
    → Expected (get current n) (get new n) (all_differences current new)
unfolding all_differences
all_differences-Expected current new n =
    combine (get current n) (get new n) (updated_or_deleted current new) (new_ones current new)
      (updated_or_deleted-First current new n) (new_ones-Any current new n)

-- Nothing is different: the name stands for equal workloads, or for none in both.
abbrev pub Agrees : Option WorkloadNamed → Option WorkloadNamed → Type 0
Agrees none none = Unit
Agrees none (some w) = ⊥
Agrees (some v) none = ⊥
Agrees (some v) (some w) = workload_named_eq v w ≡ true

abbrev pub Differs :
    Option WorkloadNamed → Option WorkloadNamed → Option AddedDeletedWorkloads → Type 0
Differs x o none = Agrees x o
Differs x o (some r) = Expected x o r

empty-Agrees :
    (x o : Option WorkloadNamed)
    → Expected x o (record { added_workloads = []; deleted_workloads = [] })
    → Agrees x o
empty-Agrees none none h = tt
empty-Agrees none (some w) h = h
empty-Agrees (some v) none h = h
empty-Agrees (some v) (some w) h = elim (Bool-cases (workload_named_eq v w)) [
  | inl e ↦ e
  | inr e ↦ absurd ((h e).0)
]

some-Differs :
    (x o : Option WorkloadNamed) (added : List WorkloadNamed) (deleted : List DeletedWorkload)
    → Expected x o (record { added_workloads = added; deleted_workloads = deleted })
    → Differs x o
        (some_unless_empty (record { added_workloads = added; deleted_workloads = deleted }))
some-Differs x o [] [] h = empty-Agrees x o h
some-Differs x o [] (d ∷ deleted) h = h
some-Differs x o (w ∷ added) deleted h = h

-- For every name: if the differences are nothing, it stands for equal workloads before and after or
-- for none; otherwise a workload that is new under the name is added, one that is gone is deleted,
-- and of two unequal ones the later is added and the former deleted.
pub extract_added_and_deleted_workloads-Differs :
    (current new : Map WorkloadNamed) (n : String)
    → Differs (get current n) (get new n) (extract_added_and_deleted_workloads current new)
unfolding extract_added_and_deleted_workloads
extract_added_and_deleted_workloads-Differs current new n =
    some-Differs (get current n) (get new n) (all_differences current new).added_workloads
      (all_differences current new).deleted_workloads (all_differences-Expected current new n)

deleted-bare :
    (current new : Map WorkloadNamed)
    → All (λ d. d.dependencies ≡ []) (updated_or_deleted current new).deleted_workloads
unfolding updated_or_deleted
deleted-bare [] new = tt
deleted-bare ((name, v) ∷ current) new = elim (Option-cases (get new name)) [
  | inl e ↦ rw (e, All, updated_or_deleted) (refl, deleted-bare current new)
  | inr (w, e) ↦ elim (Bool-cases (workload_named_eq v w)) [
    | inl same ↦ rw (e, All, updated_or_deleted, same) (deleted-bare current new)
    | inr other ↦ rw (e, All, updated_or_deleted, other) (refl, deleted-bare current new)
  ]
]

same_differences :
    (added : List WorkloadNamed) (deleted : List DeletedWorkload) (d : AddedDeletedWorkloads)
    → some_unless_empty (record { added_workloads = added; deleted_workloads = deleted }) ≡ some d
    → d.deleted_workloads ≡ deleted
same_differences [] [] d e = absurd cc
same_differences [] (x ∷ deleted) d e =
    let same : record { added_workloads = []; deleted_workloads = x ∷ deleted } ≡ d = cc in
    sym (ap (λ r. r.deleted_workloads) same)
same_differences (w ∷ added) deleted d e =
    let same : record { added_workloads = w ∷ added; deleted_workloads = deleted } ≡ d = cc in
    sym (ap (λ r. r.deleted_workloads) same)

-- The deleted workloads of the differences have no conditions yet.
pub extract-bare :
    (current new : Map WorkloadNamed) (d : AddedDeletedWorkloads)
    → extract_added_and_deleted_workloads current new ≡ some d
    → All (λ w. w.dependencies ≡ []) d.deleted_workloads
unfolding extract_added_and_deleted_workloads all_differences
extract-bare current new d e =
    subst (All (λ w. w.dependencies ≡ []))
      (sym (
        same_differences ((all_differences current new).added_workloads)
          (all_differences current new).deleted_workloads d e))
      (deleted-bare current new)
