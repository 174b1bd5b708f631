-- ===== src/Api/StatesLookup.antt =====
-- What a look-up of an instance returns after each operation on the states map: the operations of
-- ankaios_api/src/ank_base/workload_states_map.rs as changes of a function from instances to states.
use mathlib.Core.Option
use mathlib.Core.Bool.{false≢true}
use ankaios.Prelude.{
  String, ◌≡◌, refl, Bool, true, ◌&&◌, ◌==◌, [], ◌∷◌, Option, none, some, Map, get, insert, remove,
  get_or, inl, inr, map_values, is_empty, get-insert, get-remove, get-modify, get-map_values,
  get-is_empty, eq_iff, arith, Bool-cases, Option-cases, if◌then◌else◌,
}
use ankaios.Api.Execution.{ExecutionState, state_agent_disconnected}
use ankaios.Api.Instance.{InstanceName, instance_eq}
use ankaios.Api.StatesMap.{
  IdStateMap, NameStateMap, WorkloadStatesMap, get_workload_state_for_workload,
  agent_disconnected_on, at_ids, or_insert, remove_names, remove_state,
}

-- The instances under the agent and the name of `i`.
abbrev ids_of : WorkloadStatesMap → InstanceName → IdStateMap
ids_of m i = get_or [] (get (get_or [] (get m i.agent_name)) i.workload_name)

abbrev same_place : InstanceName → InstanceName → Bool
same_place i j = i.agent_name == j.agent_name && i.workload_name == j.workload_name

find-ids_of :
    (m : WorkloadStatesMap) (i : InstanceName)
    → get_workload_state_for_workload m i ≡ get (ids_of m i) i.id
unfolding get_workload_state_for_workload get
find-ids_of m i = ground arith

ids_of-at_ids :
    (m : WorkloadStatesMap) (i j : InstanceName) (f : IdStateMap → IdStateMap)
    → ids_of (at_ids m i f) j ≡ (if same_place i j then f (ids_of m i) else ids_of m j)
unfolding at_ids
ids_of-at_ids m i j f = ground (
  arith,
  get-insert m i.agent_name j.agent_name
      (insert (get_or [] (get m i.agent_name)) i.workload_name (f (ids_of m i))),
  get-insert (get_or [] (get m i.agent_name)) i.workload_name j.workload_name (f (ids_of m i)),
  eq_iff i.agent_name j.agent_name,
  eq_iff i.workload_name j.workload_name,
)

eq-nil_of_is_empty : {V : Type 0} (m : Map V) → is_empty m ≡ true → m ≡ []
eq-nil_of_is_empty [] h = refl
eq-nil_of_is_empty (e ∷ m) h = absurd (false≢true h)

get_or-remove_names :
    (names : NameStateMap) (i : InstanceName) (ids : IdStateMap) (w : String)
    → get_or [] (get (remove_names names i ids) w)
      ≡ (if i.workload_name == w then ids else get_or [] (get names w))
unfolding remove_names
get_or-remove_names names i ids w = elim (Bool-cases (is_empty ids)) [
  | inl e ↦ rw (e, get-remove) (ground (arith, eq-nil_of_is_empty ids e))
  | inr e ↦ rw (e, get-insert) (ground arith)
]

get_or-drop_empty :
    (m : WorkloadStatesMap) (a b : String) (names : NameStateMap) (w : String)
    → get_or []
        (get (get_or [] (get (if is_empty names then remove m a else insert m a names) b)) w)
      ≡ (if a == b then get_or [] (get names w) else get_or [] (get (get_or [] (get m b)) w))
unfolding get
get_or-drop_empty m a b names w = elim (Bool-cases (is_empty names)) [
  | inl e ↦ rw (e, get-remove) (ground (arith, get-is_empty names w e))
  | inr e ↦ rw (e, get-insert) (ground arith)
]

ids_of-missing :
    (m : WorkloadStatesMap) (i j : InstanceName)
    → ids_of m i ≡ []
    → ids_of m j ≡ (if same_place i j then remove (ids_of m i) i.id else ids_of m j)
unfolding remove
ids_of-missing m i j e =
    ground (arith, eq_iff i.agent_name j.agent_name, eq_iff i.workload_name j.workload_name)

get-nil : (w : String) → get_or [] (get {V = IdStateMap} [] w) ≡ []
unfolding get
get-nil w = refl

remove_state-no_agent :
    (m : WorkloadStatesMap) (i : InstanceName) → get m i.agent_name ≡ none → remove_state m i ≡ m
unfolding remove_state
remove_state-no_agent m i e = rw (e, remove_state)

remove_state-no_name :
    (m : WorkloadStatesMap) (i : InstanceName) (names : NameStateMap)
    → get m i.agent_name ≡ some names
    → get names i.workload_name ≡ none
    → remove_state m i ≡ m
unfolding remove_state
remove_state-no_name m i names e k = rw (e, k, remove_state)

ids_of-remove :
    (m : WorkloadStatesMap) (i j : InstanceName)
    → ids_of (remove_state m i) j
      ≡ (if same_place i j then remove (ids_of m i) i.id else ids_of m j)
unfolding remove_state
ids_of-remove m i j = elim (Option-cases (get m i.agent_name)) [
  | inl e ↦ rw (remove_state-no_agent m i e) (ids_of-missing m i j (rw e (get-nil i.workload_name)))
  | inr (names, e) ↦ elim (Option-cases (get names i.workload_name)) [
    | inl k ↦ rw (remove_state-no_name m i names e k) (ids_of-missing m i j (rw (e, k)))
    | inr (ids, k) ↦
        rw (e, k, remove_state)
          (ground (
            arith,
            e,
            k,
            get_or-drop_empty m i.agent_name j.agent_name (remove_names names i (remove ids i.id))
                j.workload_name,
            get_or-remove_names names i (remove ids i.id) j.workload_name,
            eq_iff i.agent_name j.agent_name,
            eq_iff i.workload_name j.workload_name,
          ))
  ]
]

abbrev find_ids : Option IdStateMap → String → Option ExecutionState
find_ids none id = none
find_ids (some ids) id = get ids id

abbrev find_names : Option NameStateMap → InstanceName → Option ExecutionState
find_names none j = none
find_names (some names) j = find_ids (get names j.workload_name) j.id

find-names :
    (m : WorkloadStatesMap) (j : InstanceName)
    → get_workload_state_for_workload m j ≡ find_names (get m j.agent_name) j
unfolding get_workload_state_for_workload
find-names m j = ground arith

disconnect_ids :
    (o : Option IdStateMap) (id : String)
    → find_ids (Option.map (map_values (λ _. state_agent_disconnected)) o) id
      ≡ Option.map (λ _. state_agent_disconnected) (find_ids o id)
disconnect_ids none id = refl
disconnect_ids (some ids) id = get-map_values (λ _. state_agent_disconnected) ids id

disconnect_names :
    (o : Option NameStateMap) (j : InstanceName)
    → find_names (Option.map (map_values (map_values (λ _. state_agent_disconnected))) o) j
      ≡ Option.map (λ _. state_agent_disconnected) (find_names o j)
disconnect_names none j = refl
disconnect_names (some names) j =
    rw (get-map_values (map_values (λ _. state_agent_disconnected)) names j.workload_name)
      (disconnect_ids (get names j.workload_name) j.id)

module _ (m : WorkloadStatesMap) (i j : InstanceName) where
  pub find-insert :
      (s : ExecutionState)
      → get_workload_state_for_workload (at_ids m i (λ ids. insert ids i.id s)) j
        ≡ (if instance_eq i j then some s else get_workload_state_for_workload m j)
  unfolding instance_eq
  find-insert s = ground (
    arith,
    find-ids_of (at_ids m i (λ ids. insert ids i.id s)) j,
    find-ids_of m j,
    ids_of-at_ids m i j (λ ids. insert ids i.id s),
    get-insert (ids_of m i) i.id j.id s,
    eq_iff i.agent_name j.agent_name,
    eq_iff i.workload_name j.workload_name,
  )

  pub find-or_insert :
      (s : ExecutionState)
      → get_workload_state_for_workload (at_ids m i (λ ids. or_insert ids i.id s)) j ≡ (
          if instance_eq i j
          then some (get_or s (get_workload_state_for_workload m i))
          else get_workload_state_for_workload m j)
  unfolding instance_eq or_insert
  find-or_insert s = ground (
    arith,
    find-ids_of (at_ids m i (λ ids. or_insert ids i.id s)) j,
    find-ids_of m i,
    find-ids_of m j,
    ids_of-at_ids m i j (λ ids. or_insert ids i.id s),
    get-insert (ids_of m i) i.id j.id s,
    eq_iff i.agent_name j.agent_name,
    eq_iff i.workload_name j.workload_name,
    eq_iff i.id j.id,
  )

  pub find-remove :
      get_workload_state_for_workload (remove_state m i) j
      ≡ (if instance_eq i j then none else get_workload_state_for_workload m j)
  unfolding instance_eq
  find-remove = ground (
    arith,
    find-ids_of (remove_state m i) j,
    find-ids_of m j,
    ids_of-remove m i j,
    get-remove (ids_of m i) i.id j.id,
    eq_iff i.agent_name j.agent_name,
    eq_iff i.workload_name j.workload_name,
  )

-- After `agent_disconnected` a look-up returns agent-disconnected for the known instances of the
-- agent, and what it returned before for all others.
lookup-agent_disconnected :
    (m : WorkloadStatesMap) (agent : String) (j : InstanceName)
    → get_workload_state_for_workload (agent_disconnected_on m agent) j ≡ (
        if agent == j.agent_name
        then Option.map (λ _. state_agent_disconnected) (get_workload_state_for_workload m j)
        else get_workload_state_for_workload m j)
unfolding agent_disconnected_on
lookup-agent_disconnected m agent j =
    rw
      (
        find-names (agent_disconnected_on m agent) j,
        find-names m j,
        agent_disconnected_on,
        get-modify,
      )
      (elim (Bool-cases (agent == j.agent_name)) [
        | inl b ↦ rw b (disconnect_names (get m j.agent_name) j)
        | inr b ↦ rw b
      ])
