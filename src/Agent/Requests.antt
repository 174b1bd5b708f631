-- ===== src/Agent/Requests.antt =====
-- The workloads of an update and what becomes of them: agent/src/runtime_manager.rs.
use ankaios.Prelude.{
  any-append, String, ◌≡◌, ◌==◌, refl, sym, ap, ◌∙◌, inl, inr, Bool, true, false, ◌||◌, List, [],
  ◌∷◌, ◌++◌, none, some, any, Map, get, insert, remove, get-insert, get-remove, member,
  contains_key, AllEntries, AllEntries-insert, arith, eq_iff, Bool-cases, Option-cases,
  if◌then◌else◌,
}
use ankaios.Api.StatesMap.{WorkloadStatesMap}
use ankaios.Api.Workload.{DeletedWorkload}
use ankaios.Agent.Scheduler.{ReusableWorkload, WorkloadOperation, update, delete, Scheduler}
use ankaios.Agent.Progress.{
  IsKeyed, is_handled, names_operation, enqueue_filtered_workload_operations_handles,
}
use ankaios.Agent.Operations.{
  by_name, deleted_operations, added_operation, added_operations,
  transform_into_workload_operations, execute_workloads,
}

abbrev reusable_name : ReusableWorkload → String
reusable_name r = r.workload_named.instance_name.workload_name

abbrev AddedKeyed : Map ReusableWorkload → Type 0
AddedKeyed m = AllEntries (λ name r. name ≡ reusable_name r) m

abbrev pub adds : String → List ReusableWorkload → Bool
adds n added = any (λ r. reusable_name r == n) added

abbrev pub deletes : String → List DeletedWorkload → Bool
deletes n deleted = any (λ (d : DeletedWorkload). d.instance_name.workload_name == n) deleted

by_name-AddedKeyed :
    (added : List ReusableWorkload) (m : Map ReusableWorkload)
    → AddedKeyed m
    → AddedKeyed (by_name m added)
unfolding by_name
by_name-AddedKeyed [] m k = k
by_name-AddedKeyed (r ∷ added) m k =
    by_name-AddedKeyed added (insert m (reusable_name r) r)
      (AllEntries-insert (λ name r. name ≡ reusable_name r) m (reusable_name r) r refl k)

contains_insert :
    (m : Map ReusableWorkload) (k j : String) (v : ReusableWorkload)
    → contains_key (insert m k v) j ≡ (k == j || contains_key m j)
contains_insert m k j v = ground (arith, get-insert m k j v)

contains-by_name :
    (added : List ReusableWorkload) (m : Map ReusableWorkload) (n : String)
    → contains_key (by_name m added) n ≡ (contains_key m n || adds n added)
unfolding by_name
contains-by_name [] m n = ground arith
contains-by_name (r ∷ added) m n = ground (
  arith,
  contains-by_name added (insert m (reusable_name r) r) n,
  contains_insert m (reusable_name r) n r,
)

remove-AddedKeyed : (m : Map ReusableWorkload) (k : String) → AddedKeyed m → AddedKeyed (remove m k)
unfolding remove
remove-AddedKeyed [] k h = tt
remove-AddedKeyed ((j, r) ∷ m) k (e, h) = elim (Bool-cases (j == k)) [
  | inl b ↦ rw b (remove-AddedKeyed m k h)
  | inr b ↦ rw b (e, remove-AddedKeyed m k h)
]

same_workload : (s r : ReusableWorkload) → some s ≡ some r → s ≡ r
same_workload s r e = cc

keyed_value :
    (j k : String) (s r : ReusableWorkload)
    → j ≡ k
    → j ≡ reusable_name s
    → some s ≡ some r
    → k ≡ reusable_name r
keyed_value j k s r p q e = sym p ∙ (q ∙ ap reusable_name (same_workload s r e))

get-AddedKeyed :
    (m : Map ReusableWorkload) (k : String) (r : ReusableWorkload)
    → AddedKeyed m
    → get m k ≡ some r
    → k ≡ reusable_name r
unfolding get
get-AddedKeyed [] k r h e = cc
get-AddedKeyed ((j, s) ∷ m) k r (e, h) g = elim (Bool-cases (j == k)) [
  | inl b ↦ keyed_value j k s r ((eq_iff j k).0 b) e (rw b at g)
  | inr b ↦ get-AddedKeyed m k r h (rw b at g)
]

contains_remove :
    (m : Map ReusableWorkload) (k j : String)
    → contains_key (remove m k) j ≡ (if k == j then false else contains_key m j)
contains_remove m k j = ground (arith, get-remove m k j)

-- The operation of one deleted workload is on that workload.
operation_on :
    (m : Map ReusableWorkload) (d : DeletedWorkload) (n : String)
    → AddedKeyed m
    → names_operation n (elim (get m d.instance_name.workload_name) [
      | some updated ↦ update updated.workload_named d
      | none ↦ delete d
    ])
      ≡ (d.instance_name.workload_name == n)
operation_on m d n k = elim (Option-cases (get m d.instance_name.workload_name)) [
  | inl e ↦ rw e refl
  | inr (r, e) ↦
      rw e
        (ap (λ (s : String). s == n) (sym (get-AddedKeyed m d.instance_name.workload_name r k e)))
]

deleted_operations_lem :
    (deleted : List DeletedWorkload) (m : Map ReusableWorkload) (n : String)
    → AddedKeyed m
    → ((any (names_operation n) (deleted_operations m deleted).1
          || contains_key (deleted_operations m deleted).0 n)
        ≡ (contains_key m n || deletes n deleted))
      × AddedKeyed (deleted_operations m deleted).0
unfolding deleted_operations
deleted_operations_lem [] m n k = (ground arith, k)
deleted_operations_lem (d ∷ deleted) m n k =
    let m' = remove m d.instance_name.workload_name in
    let (e, h) =
      deleted_operations_lem deleted m' n (remove-AddedKeyed m d.instance_name.workload_name k) in
    (ground (arith, operation_on m d n k, e, contains_remove m d.instance_name.workload_name n), h)

added_operation_lem :
    (workloads : List String) (r : ReusableWorkload) (n : String)
    → names_operation n (added_operation workloads r) ≡ (reusable_name r == n)
added_operation_lem workloads r n = elim (Bool-cases (member (reusable_name r) workloads)) [
  | inl e ↦ rw e refl
  | inr e ↦ rw e refl
]

added_operations_lem :
    (workloads : List String) (m : Map ReusableWorkload) (n : String)
    → AddedKeyed m
    → any (names_operation n) (added_operations workloads m) ≡ contains_key m n
unfolding added_operations get
added_operations_lem workloads [] n k = refl
added_operations_lem workloads ((j, r) ∷ m) n (e, k) = ground (
  arith,
  added_operation_lem workloads r n,
  added_operations_lem workloads m n k,
  ap (λ (s : String). s == n) e,
)

any_operations-append :
    (n : String) (xs ys : List WorkloadOperation)
    → any (names_operation n) (xs ++ ys)
      ≡ (any (names_operation n) xs || any (names_operation n) ys)
any_operations-append n xs ys = any-append (names_operation n) xs ys

-- The operations made for an update are on a name exactly if a workload of that name is added or
-- deleted.
names_operation-transform :
    (workloads : List String) (added : List ReusableWorkload) (deleted : List DeletedWorkload)
    (n : String)
    → any (names_operation n) (transform_into_workload_operations workloads added deleted)
      ≡ (adds n added || deletes n deleted)
unfolding transform_into_workload_operations get
names_operation-transform workloads added deleted n =
    let m = by_name [] added in
    let (e, k) = deleted_operations_lem deleted m n (by_name-AddedKeyed added [] tt) in
    ground (
      arith,
      e,
      added_operations_lem workloads (deleted_operations m deleted).0 n k,
      any_operations-append n (deleted_operations m deleted).1
          (added_operations workloads (deleted_operations m deleted).0),
      contains-by_name added [] n,
    )

-- When workloads are added and deleted and the queue's entries stand under their workloads' names, each
-- workload of the request, and each that waited, waits afterwards or an operation on it is executed.
pub execute_workloads_handles :
    (db : WorkloadStatesMap) (workloads : List String) (s : Scheduler)
    (added : List ReusableWorkload) (deleted : List DeletedWorkload) (n : String)
    → IsKeyed s.queue
    → (contains_key s.queue n || (adds n added || deletes n deleted)) ≡ true
    → is_handled (execute_workloads db workloads s added deleted) n ≡ true
unfolding execute_workloads
execute_workloads_handles db workloads s added deleted n k h =
    enqueue_filtered_workload_operations_handles db n s
      (transform_into_workload_operations workloads added deleted) k
      (ap (λ (b : Bool). contains_key s.queue n || b)
          (names_operation-transform workloads added deleted n)
        ∙ h)
