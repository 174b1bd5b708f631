-- ===== src/Prelude/Worklist.antt =====
-- A loop over a stack of tasks, each of which gives results and pushes tasks, against the recursion that
-- goes through the tasks depth first.
use Prim.Native.Nat.{ℕ, zero, suc, ◌+◌, ◌≤◌, ◌<◌}
use mathlib.Core.Path.{◌≡◌, refl, sym, ap, subst, ◌∙◌}
use mathlib.Core.Logic.{inl, inr, ◌⊎◌, ◌↔◌}
use mathlib.Core.List.{List, [], ◌∷◌, ◌++◌, append_assoc, append-nil}
use native.Mathlib.Omega.{arith}
use ankaios.Prelude.Lists.{All, Any, Any-append_left, Any-append_right, Any-append_cases}
use ankaios.Prelude.Searches.{All-map}

module _ {A B : Type 0} where
  -- The results for all elements, in their order.
  abbrev pub collected : (A → List B) → List A → List B
  collected f [] = []
  collected f (x ∷ xs) = f x ++ collected f xs

module _ {A : Type 0} where
  -- Pushed in their order, so that the last one is on top.
  abbrev pub pushed_on : List A → List A → List A
  pushed_on [] stack = stack
  pushed_on (x ∷ xs) stack = pushed_on xs (x ∷ stack)

abbrev pub IsIn : {A : Type 0} → A → List A → Type 0
IsIn x xs = Any (λ z. z ≡ x) xs

module _ {A B : Type 0} (f : A → List B) (b : B) where
  pub collected-IsIn : (xs : List A) → IsIn b (collected f xs) → (x : A) × IsIn x xs × IsIn b (f x)
  collected-IsIn [] h = absurd h
  collected-IsIn (x ∷ xs) h = elim (Any-append_cases (λ z. z ≡ b) (f x) (collected f xs) h) [
    | inl first ↦ (x, inl refl, first)
    | inr later ↦ let (z, k, there) = collected-IsIn xs later in (z, inr k, there)
  ]

  pub IsIn-collected : (xs : List A) (x : A) → IsIn x xs → IsIn b (f x) → IsIn b (collected f xs)
  IsIn-collected [] x h k = absurd h
  IsIn-collected (z ∷ xs) x (inl e) k =
      Any-append_left (λ w. w ≡ b) (f z) (collected f xs) (subst (λ w. IsIn b (f w)) (sym e) k)
  IsIn-collected (z ∷ xs) x (inr h) k =
      Any-append_right (λ w. w ≡ b) (f z) (collected f xs) (IsIn-collected xs x h k)

module _ {A : Type 0} (x : A) where
  pub IsIn-pushed_on : (xs done : List A) → IsIn x (pushed_on xs done) → IsIn x xs ⊎ IsIn x done
  IsIn-pushed_on [] done h = inr h
  IsIn-pushed_on (z ∷ xs) done h = elim (IsIn-pushed_on xs (z ∷ done) h) [
    | inl k ↦ inl (inr k)
    | inr k ↦ elim k [ inl e ↦ inl (inl e) | inr r ↦ inr r ]
  ]

  pub pushed_on-IsIn : (xs done : List A) → IsIn x xs ⊎ IsIn x done → IsIn x (pushed_on xs done)
  pushed_on-IsIn [] done (inl h) = absurd h
  pushed_on-IsIn [] done (inr h) = h
  pushed_on-IsIn (z ∷ xs) done (inl (inl e)) = pushed_on-IsIn xs (z ∷ done) (inr (inl e))
  pushed_on-IsIn (z ∷ xs) done (inl (inr k)) = pushed_on-IsIn xs (z ∷ done) (inl k)
  pushed_on-IsIn (z ∷ xs) done (inr k) = pushed_on-IsIn xs (z ∷ done) (inr (inr k))

module _ {T R : Type 0} (step : T → List R × List T) where
  -- `while let Some(task) = stack.pop()`, with as many turns as the number says.
  unfoldable pub work : ℕ → List T → List R → List R
  work turns [] results = results
  work zero (task ∷ stack) results = results
  work (suc turns) (task ∷ stack) results =
      work turns (pushed_on (step task).1 stack) (results ++ (step task).0)

  unfoldable pub walk : ℕ → T → List R
  walk zero task = (step task).0
  walk (suc bound) task = (step task).0 ++ collected (walk bound) (pushed_on (step task).1 [])

  -- The task leads to the other one by way of the tasks that are pushed.
  pub data ComesFrom : T → T → Type 0 where
    itself : (task : T) → ComesFrom task task
    by_way :
        {task last : T} (next : T)
        → IsIn next (step task).1
        → ComesFrom next last
        → ComesFrom task last

  abbrev pub sum_turns : (T → ℕ) → List T → ℕ
  sum_turns turns [] = 0
  sum_turns turns (task ∷ tasks) = turns task + sum_turns turns tasks

  -- The turns for a task and all that come from it.
  unfoldable pub turns_of : ℕ → T → ℕ
  turns_of zero task = 1
  turns_of (suc bound) task = suc (sum_turns (turns_of bound) (step task).1)

  -- One turn ends the loop.
  pub work-nothing :
      (bound : ℕ) (task : T) → step task ≡ ([], []) → work (turns_of bound task) (task ∷ []) [] ≡ []
  unfolding work turns_of
  work-nothing zero task h = rw (h, work) refl
  work-nothing (suc bound) task h = rw (h, work) refl

  module _ (rank : T → ℕ) (falls : (t : T) → All (λ u. rank u < rank t) (step t).1) where
    pushed_on-append :
        (xs done stack : List T) → pushed_on xs (done ++ stack) ≡ pushed_on xs done ++ stack
    pushed_on-append [] done stack = refl
    pushed_on-append (x ∷ xs) done stack = pushed_on-append xs (x ∷ done) stack

    sum_turns-pushed_on :
        (turns : T → ℕ) (xs done : List T)
        → sum_turns turns (pushed_on xs done) ≡ sum_turns turns xs + sum_turns turns done
    sum_turns-pushed_on turns [] done = omega arith
    sum_turns-pushed_on turns (x ∷ xs) done =
        let rest = sum_turns-pushed_on turns xs (x ∷ done) in omega (arith, rest)

    All-pushed_on :
        (P : T → Type 0) (xs done : List T) → All P xs → All P done → All P (pushed_on xs done)
    All-pushed_on P [] done h k = k
    All-pushed_on P (x ∷ xs) done (h, hs) k = All-pushed_on P xs (x ∷ done) hs (h, k)

    no_tasks : (bound : ℕ) (xs : List T) → bound ≤ 0 → All (λ u. rank u < bound) xs → xs ≡ []
    no_tasks bound [] b h = refl
    no_tasks bound (x ∷ xs) b (h, hs) = absurd (omega (arith, b, h))

    -- The tasks on top of the stack are worked off, and the rest is left.
    abbrev WorksOff : ℕ → Type 0
    WorksOff bound =
        (task : T) (stack : List T) (left : ℕ) (results : List R)
        → rank task ≤ bound
        → work (turns_of bound task + left) (task ∷ stack) results
          ≡ work left stack (results ++ walk bound task)

    WorksOff-All :
        (bound : ℕ)
        → WorksOff bound
        → (tasks stack : List T) (left : ℕ) (results : List R) → All (λ u. rank u < suc bound) tasks
        → work (sum_turns (turns_of bound) tasks + left) (tasks ++ stack) results
          ≡ work left stack (results ++ collected (walk bound) tasks)
    unfolding work
    WorksOff-All bound one [] stack left results h =
        ap (λ (n : ℕ). work n stack results) (omega arith)
        ∙ ap (λ (l : List R). work left stack l) (sym (append-nil results))
    WorksOff-All bound one (t ∷ tasks) stack left results (h, hs) =
        let rest = sum_turns (turns_of bound) tasks in
        let fuel : turns_of bound t + rest + left ≡ turns_of bound t + (rest + left) =
          omega arith in
        rw fuel (
          one t (tasks ++ stack) (rest + left) results (omega (arith, h))
          ∙ WorksOff-All bound one tasks stack left (results ++ walk bound t) hs
          ∙ ap (λ (l : List R). work left stack l)
              (append_assoc results (walk bound t) (collected (walk bound) tasks)))

    works_off : (bound : ℕ) → WorksOff bound
    unfolding work walk turns_of
    works_off zero task stack left results h =
        let fuel : 1 + left ≡ suc left = omega arith in
        let none_left = no_tasks (rank task) (step task).1 h (falls task) in
        rw fuel (
          ap (λ (ts : List T). work left (pushed_on ts stack) (results ++ (step task).0)) none_left)
    works_off (suc bound) task stack left results h =
        let tasks = pushed_on (step task).1 [] in
        let fuel : suc (sum_turns (turns_of bound) (step task).1) + left
            ≡ suc (sum_turns (turns_of bound) tasks + left) =
          let same = sum_turns-pushed_on (turns_of bound) (step task).1 [] in omega (arith, same) in
        let below = All-map _ _ (step task).1 (λ u k. omega (arith, k, h)) (falls task) in
        rw fuel (
          ap
            (λ (l : List T).
              work (sum_turns (turns_of bound) tasks + left) l (results ++ (step task).0))
            (pushed_on-append (step task).1 [] stack)
          ∙ WorksOff-All bound (works_off bound) tasks stack left (results ++ (step task).0)
              (All-pushed_on (λ u. rank u < suc bound) (step task).1 [] below tt)
          ∙ ap (λ (l : List R). work left stack l)
              (append_assoc results (step task).0 (collected (walk bound) tasks)))

    -- With a rank that falls, the loop ends with an empty stack, and its results are those of the walk.
    pub work-walk :
        (task : T) → work (turns_of (rank task) task) (task ∷ []) [] ≡ walk (rank task) task
    unfolding work
    work-walk task =
        ap (λ (n : ℕ). work n (task ∷ []) []) (omega arith)
        ∙ works_off (rank task) task [] 0 [] (omega arith)

    -- The result is one of a task that comes from the first.
    abbrev pub IsResultFrom : T → R → Type 0
    IsResultFrom task r = (last : T) × ComesFrom task last × IsIn r (step last).0

    walk-from : (bound : ℕ) (task : T) (r : R) → IsIn r (walk bound task) → IsResultFrom task r
    unfolding walk
    walk-from zero task r h = (task, itself task, h)
    walk-from (suc bound) task r h =
        elim (Any-append_cases (λ z. z ≡ r) (step task).0
          (collected (walk bound) (pushed_on (step task).1 [])) h) [
            | inl k ↦ (task, itself task, k)
            | inr k ↦
                let (next, there, from) =
                  collected-IsIn (walk bound) r (pushed_on (step task).1 []) k in
                let (last, way, found) = walk-from bound next r from in
                elim (IsIn-pushed_on next (step task).1 [] there) [
                  | inl pushed ↦ (last, by_way next pushed way, found)
                  | inr absent ↦ absurd absent
                ]
          ]

    falls_in :
        (bound : ℕ) (u : T) (ts : List T)
        → All (λ t. rank t < bound) ts
        → IsIn u ts
        → rank u < bound
    falls_in bound u [] h k = absurd k
    falls_in bound u (t ∷ ts) (h, hs) (inl e) = subst (λ t. rank t < bound) e h
    falls_in bound u (t ∷ ts) (h, hs) (inr k) = falls_in bound u ts hs k

    from-walk :
        {task last : T} (bound : ℕ) (r : R)
        → rank task ≤ bound
        → ComesFrom task last
        → IsIn r (step last).0
        → IsIn r (walk bound task)
    unfolding walk
    from-walk zero r b (itself task) h = h
    from-walk (suc bound) r b (itself task) h = Any-append_left (λ z. z ≡ r) (step task).0 _ h
    from-walk {task} zero r b (by_way next pushed way) h =
        let below = falls_in (rank task) next (step task).1 (falls task) pushed in
        absurd (omega (arith, b, below))
    from-walk {task} {last} (suc bound) r b (by_way next pushed way) h =
        let below = falls_in (rank task) next (step task).1 (falls task) pushed in
        Any-append_right (λ z. z ≡ r) (step task).0 _
          (IsIn-collected (walk bound) r (pushed_on (step task).1 []) next
            (pushed_on-IsIn next (step task).1 [] (inl pushed))
            (from-walk {task = next} {last = last} bound r (omega (arith, b, below)) way h))

    -- The loop's results are those of all tasks that come from the first.
    pub work_iff :
        (task : T) (r : R)
        → IsIn r (work (turns_of (rank task) task) (task ∷ []) []) ↔ IsResultFrom task r
    work_iff task r = (
      λ h. walk-from (rank task) task r (subst (IsIn r) (work-walk task) h),
      λ f. subst (IsIn r) (sym (work-walk task)) (from-walk (rank task) r (omega arith) f.1 f.2),
    )
