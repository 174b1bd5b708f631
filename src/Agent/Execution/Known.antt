-- ===== src/Agent/Execution/Known.antt =====
-- Which workloads the agent knows after a list of executed operations.
use ankaios.Prelude.{
  String, ◌==◌, Bool, true, not, ◌&&◌, ◌||◌, List, [], ◌∷◌, keep, member, member-append, ◌≡◌, refl,
  sym, ap, ◌∙◌, arith, Bool-cases, inl, inr, eq_iff,
}
use ankaios.Agent.Scheduler.{WorkloadOperation, create, update, update_delete_only, delete}
use ankaios.Agent.Reuse.{with_name}
use ankaios.Agent.Execution.{
  Executed, add_workload, delete_workload, update_workload, delete_only, execute_operation,
  execute_workload_operations,
}

-- Whether a workload of the name is known after the operations, as the latest create, update or delete
-- of the name says.
abbrev pub known_after : String → Bool → List WorkloadOperation → Bool
known_after n known [] = known
known_after n known (create r ∷ operations) =
    known_after n (r.workload_named.instance_name.workload_name == n || known) operations
known_after n known (update w d ∷ operations) =
    known_after n (w.instance_name.workload_name == n || known) operations
known_after n known (update_delete_only d ∷ operations) = known_after n known operations
known_after n known (delete d ∷ operations) =
    known_after n (not (d.instance_name.workload_name == n) && known) operations

member_same : (ns : List String) (k n : String) → k == n ≡ true → member n ns ≡ member k ns
member_same ns k n e = ap (λ j. member j ns) (sym ((eq_iff k n).0 e))

member-with_name :
    (ns : List String) (k n : String) → member n (with_name ns k) ≡ (k == n || member n ns)
unfolding member
member-with_name ns k n = elim (Bool-cases (member k ns)) [
  | inl e ↦ rw e (elim (Bool-cases (k == n)) [
    | inl same ↦ rw same (member_same ns k n same ∙ e)
    | inr other ↦ rw other refl
  ])
  | inr e ↦ rw e (let h = member-append n ns (k ∷ []) in ground (arith, h))
]

member-keep_others :
    (ns : List String) (k n : String)
    → member n (keep (λ name. not (name == k)) ns) ≡ (not (k == n) && member n ns)
unfolding member
member-keep_others [] k n = ground arith
member-keep_others (j ∷ ns) k n =
    ground (arith, eq_iff j k, eq_iff j n, eq_iff k n, member-keep_others ns k n)

known_after-step :
    (n : String) (known : Bool) (o : WorkloadOperation) (operations : List WorkloadOperation)
    → known_after n (known_after n known (o ∷ [])) operations ≡ known_after n known (o ∷ operations)
known_after-step n known (create r) operations = refl
known_after-step n known (update w d) operations = refl
known_after-step n known (update_delete_only d) operations = refl
known_after-step n known (delete d) operations = refl

module _ (runtime_map : List String) where
  pub operation-known :
      (s : Executed) (operation : WorkloadOperation) (n : String)
      → member n (execute_operation runtime_map s operation).workloads
        ≡ known_after n (member n s.workloads) (operation ∷ [])
  unfolding execute_operation add_workload delete_workload update_workload delete_only
  operation-known s (create r) n =
      member-with_name s.workloads r.workload_named.instance_name.workload_name n
  operation-known s (update w d) n =
      elim (Bool-cases (member w.instance_name.workload_name s.workloads)) [
        | inl e ↦
            rw (e, update_workload)
              (elim (Bool-cases (w.instance_name.workload_name == n)) [
                | inl same ↦
                    rw same (member_same s.workloads w.instance_name.workload_name n same ∙ e)
                | inr other ↦ rw other refl
              ])
        | inr e ↦
            let added = member-with_name s.workloads w.instance_name.workload_name n in
            rw (e, update_workload) (ground (arith, e, added))
      ]
  operation-known s (update_delete_only d) n =
      elim (Bool-cases (member d.instance_name.workload_name s.workloads)) [
        | inl e ↦ rw (e, delete_only) refl
        | inr e ↦ rw (e, delete_only) refl
      ]
  operation-known s (delete d) n =
      elim (Bool-cases (member d.instance_name.workload_name s.workloads)) [
        | inl e ↦
            rw (e, delete_workload) (member-keep_others s.workloads d.instance_name.workload_name n)
        | inr e ↦
            rw (e, delete_workload)
              (elim (Bool-cases (d.instance_name.workload_name == n)) [
                | inl same ↦
                    rw same (member_same s.workloads d.instance_name.workload_name n same ∙ e)
                | inr other ↦ rw other refl
              ])
      ]

  pub known-run :
      (s : Executed) (operations : List WorkloadOperation) (n : String)
      → member n (execute_workload_operations runtime_map s operations).workloads
        ≡ known_after n (member n s.workloads) operations
  unfolding execute_workload_operations
  known-run s [] n = refl
  known-run s (o ∷ operations) n =
      known-run (execute_operation runtime_map s o) operations n
      ∙ ap (λ known. known_after n known operations) (operation-known s o n)
      ∙ known_after-step n (member n s.workloads) o operations
