-- ===== src/Api/StatesShape.antt =====
-- The states map holds no empty inner map: an agent is listed while a workload of it is, and a name
-- while an instance of it is. About ankaios_api/src/ank_base/workload_states_map.rs.
use ankaios.Prelude.{
  String, ◌≡◌, refl, false, List, [], ◌∷◌, Map, AllValues, AllValues-get, AllValues-insert,
  AllValues-remove, get, insert, remove, is_empty, get_or, arith, Bool-cases, Option-cases, inl,
  inr,
}
use ankaios.Api.Execution.{is_removed}
use ankaios.Api.Instance.{InstanceName}
use ankaios.Api.StatesMap.{
  IdStateMap, NameStateMap, WorkloadStatesMap, WorkloadState, at_ids, or_insert, first_state,
  initial_state, remove_names, remove_state, process_new_state, process_new_states,
}

abbrev pub HasIds : IdStateMap → Type 0
HasIds ids = is_empty ids ≡ false

abbrev pub HasNames : NameStateMap → Type 0
HasNames names = (is_empty names ≡ false) × AllValues HasIds names

abbrev pub IsCompact : WorkloadStatesMap → Type 0
IsCompact m = AllValues HasNames m

insert-ne-empty : {V : Type 0} (m : Map V) (k : String) (v : V) → is_empty (insert m k v) ≡ false
unfolding insert
insert-ne-empty [] k v = refl
insert-ne-empty ((j, w) ∷ m) k v = ground arith

old_names :
    (m : WorkloadStatesMap) (a : String) → IsCompact m → AllValues HasIds (get_or [] (get m a))
old_names m a h = elim (Option-cases (get m a)) [
  | inl e ↦ rw e tt
  | inr (names, e) ↦ rw e (AllValues-get HasNames m a names h e).1
]

at_ids-IsCompact :
    (m : WorkloadStatesMap) (i : InstanceName) (f : IdStateMap → IdStateMap)
    → ((ids : IdStateMap) → HasIds (f ids))
    → IsCompact m
    → IsCompact (at_ids m i f)
unfolding at_ids
at_ids-IsCompact m i f filled h =
    AllValues-insert HasNames m i.agent_name _
      (
        insert-ne-empty (get_or [] (get m i.agent_name)) i.workload_name _,
        AllValues-insert HasIds (get_or [] (get m i.agent_name)) i.workload_name _ (filled _)
            (old_names m i.agent_name h),
      )
      h

or_insert-HasIds :
    (ids : IdStateMap) (i : InstanceName) → HasIds (or_insert ids i.id (first_state i))
unfolding or_insert get insert
or_insert-HasIds [] i = refl
or_insert-HasIds (e ∷ ids) i = elim (Option-cases (get (e ∷ ids) i.id)) [
  | inl k ↦ rw (k, or_insert) (insert-ne-empty (e ∷ ids) i.id (first_state i))
  | inr (s, k) ↦ rw (k, or_insert)
]

remove_names-HasIds :
    (names : NameStateMap) (i : InstanceName) (ids : IdStateMap)
    → AllValues HasIds names
    → AllValues HasIds (remove_names names i ids)
unfolding remove_names
remove_names-HasIds names i ids h = elim (Bool-cases (is_empty ids)) [
  | inl e ↦ rw e (AllValues-remove HasIds names i.workload_name h)
  | inr e ↦ rw e (AllValues-insert HasIds names i.workload_name ids e h)
]

remove_state-IsCompact :
    (m : WorkloadStatesMap) (i : InstanceName) → IsCompact m → IsCompact (remove_state m i)
unfolding remove_state
remove_state-IsCompact m i h = elim (Option-cases (get m i.agent_name)) [
  | inl e ↦ rw (e, remove_state) h
  | inr (names, e) ↦ elim (Option-cases (get names i.workload_name)) [
    | inl k ↦ rw (e, k, remove_state) h
    | inr (ids, k) ↦
        let names' = remove_names names i (remove ids i.id) in
        rw (e, k, remove_state)
          (elim (Bool-cases (is_empty names')) [
            | inl b ↦ rw b (AllValues-remove HasNames m i.agent_name h)
            | inr b ↦ rw b (
                AllValues-insert HasNames m i.agent_name names'
                  (
                    b,
                    remove_names-HasIds names i _
                        (AllValues-get HasNames m i.agent_name names h e).1,
                  )
                  h)
          ])
  ]
]

process_step :
    (m : WorkloadStatesMap) (w : WorkloadState) → IsCompact m → IsCompact (process_new_state m w)
unfolding process_new_state
process_step m w h = elim (Bool-cases (is_removed w.execution_state)) [
  | inl e ↦ rw e (remove_state-IsCompact m w.instance_name h)
  | inr e ↦ rw e (
      at_ids-IsCompact m w.instance_name _
        (λ ids. insert-ne-empty ids w.instance_name.id w.execution_state) h)
]

-- `process_new_states` keeps the map free of empty inner maps, also where it removes states.
process_new_states-IsCompact :
    (states : List WorkloadState) (m : WorkloadStatesMap)
    → IsCompact m
    → IsCompact (process_new_states m states)
unfolding process_new_states
process_new_states-IsCompact [] m h = h
process_new_states-IsCompact (w ∷ states) m h =
    process_new_states-IsCompact states (process_new_state m w) (process_step m w h)

-- `initial_state` keeps the map free of empty inner maps.
initial_state-IsCompact :
    (workloads : List InstanceName) (m : WorkloadStatesMap)
    → IsCompact m
    → IsCompact (initial_state m workloads)
unfolding initial_state
initial_state-IsCompact [] m h = h
initial_state-IsCompact (i ∷ workloads) m h =
    initial_state-IsCompact workloads _ (at_ids-IsCompact m i _ (λ ids. or_insert-HasIds ids i) h)
