-- ===== src/Agent/Reuse/Hello.antt =====
-- No added workload is lost when the server says hello.
use ankaios.Prelude.{
  ◌+◌, ◌≤◌, String, ◌==◌, Bool, true, false, ◌||◌, List, [], ◌∷◌, any, Option, ◌≡◌, refl, ◌⊎◌, inl,
  inr, arith, Bool-cases,
}
use ankaios.Api.StatesMap.{WorkloadStatesMap}
use ankaios.Api.Workload.{WorkloadNamed}
use ankaios.Agent.Scheduler.{ReusableWorkload, Scheduler}
use ankaios.Agent.Progress.{IsKeyed, is_handled}
use ankaios.Agent.Requests.{execute_workloads_handles}
use ankaios.Agent.Reuse.{
  ReusableWorkloadState, ReuseEffect, resume_workload, resume_replaced, delete_workload,
  delete_known, resume_and_remove_from_added_workloads, handle_server_hello,
}
use ankaios.Agent.Reuse.Kept.{count, count_new, count_resumed, resume_and_remove-counts}

abbrev pub resumes : (WorkloadNamed → Bool) → List ReuseEffect → Bool
resumes p [] = false
resumes p (resume_workload runtime w info ∷ effects) = p w || resumes p effects
resumes p (resume_replaced runtime w ∷ effects) = resumes p effects
resumes p (delete_workload runtime i ∷ effects) = resumes p effects
resumes p (delete_known name ∷ effects) = resumes p effects

module _ (p : WorkloadNamed → Bool) where
  any-counted : (ws : List WorkloadNamed) → any p ws ≡ true → 1 ≤ count p ws
  unfolding count
  any-counted [] h = absurd cc
  any-counted (w ∷ ws) h = elim (Bool-cases (p w)) [
    | inl e ↦ rw e (omega arith)
    | inr e ↦ let rest = any-counted ws (rw e at h) in rw e (omega (arith, rest))
  ]

  counted_new :
      (rs : List ReusableWorkload) → 1 ≤ count_new p rs → any (λ r. p r.workload_named) rs ≡ true
  unfolding count_new
  counted_new [] h = absurd (omega (arith, h))
  counted_new (r ∷ rs) h = elim (Bool-cases (p r.workload_named)) [
    | inl e ↦ rw e refl
    | inr e ↦
        let more : 1 ≤ 0 + count_new p rs = rw e at h in
        let rest = counted_new rs (omega (arith, more)) in rw (e, rest) refl
  ]

  not_resumed :
      (effects : List ReuseEffect) → resumes p effects ≡ false → count_resumed p effects ≡ 0
  unfolding count_resumed
  not_resumed [] h = refl
  not_resumed (resume_workload runtime w info ∷ effects) h = elim (Bool-cases (p w)) [
    | inl e ↦ absurd (cc (rw e at h))
    | inr e ↦ let rest = not_resumed effects (rw e at h) in rw e (omega (arith, rest))
  ]
  not_resumed (resume_replaced runtime w ∷ effects) h = not_resumed effects h
  not_resumed (delete_workload runtime i ∷ effects) h = not_resumed effects h
  not_resumed (delete_known name ∷ effects) h = not_resumed effects h

-- When the server says hello and the queue's entries stand under their workloads' names, each added
-- workload is resumed, or it waits afterwards or an operation on it is executed, whatever the runtimes answer.
pub handle_server_hello_handles :
    (db : WorkloadStatesMap) (workloads : List String) (s : Scheduler)
    (answers : List (String × Option (List ReusableWorkloadState))) (added : List WorkloadNamed)
    (n : String)
    → IsKeyed s.queue
    → any (λ (w : WorkloadNamed). w.instance_name.workload_name == n) added ≡ true
    → (resumes
          (λ w. w.instance_name.workload_name == n)
          (handle_server_hello db workloads s answers added).0.effects
        ≡ true)
      ⊎ (is_handled (handle_server_hello db workloads s answers added).1 n ≡ true)
unfolding handle_server_hello
handle_server_hello_handles db workloads s answers added n k h =
    let named : WorkloadNamed → Bool = λ w. w.instance_name.workload_name == n in
    let r = resume_and_remove_from_added_workloads workloads answers added in
    elim (Bool-cases (resumes named r.effects)) [
      | inl e ↦ inl e
      | inr e ↦
          let here = any-counted named added h in
          let counts = resume_and_remove-counts named workloads answers added in
          let none_resumed = not_resumed named r.effects e in
          let new =
            counted_new named r.new_added_workloads (omega (arith, here, counts, none_resumed)) in
          inr (
            execute_workloads_handles db r.workloads s r.new_added_workloads r.deleted_workloads n k
              (ground (arith, new)))
    ]
