-- ===== src/Server/NewState.antt =====
-- The state that an update asks for: `generate_new_state` of
-- server/src/ankaios_server/server_state.rs.
pub mod Fields
pub mod Generation
use ankaios.Prelude.{String, List, [], ◌∷◌, Option, none, some, Result, ok, err, and_then}
use ankaios.Common.Yaml.{Yaml}
use ankaios.Common.Path.{path_from, path_to_string}
use ankaios.Common.Object.{Object, get, set, remove}
use ankaios.Server.Render.{Engine}
use ankaios.Server.ServerState.{DesiredState, ServerState}

-- The conversions that serde and the generated message types provide: the objects of a state and of
-- an update, and the state that either holds, where it has the fields of one. An update is a
-- `CompleteState`; the states have the types that the server checks, with the map of the agents.
pub record StateCodec (engine : Engine) (y : Yaml) : Type 1 where
  pub Update : Type 0
  pub AgentMap : Type 0
  pub object_of_state : DesiredState engine → Option y.Value
  pub object_of_update : Update → Option y.Value
  pub spec_of_update : Update → Option (DesiredState engine × AgentMap)
  pub spec_of_object : y.Value → Option (DesiredState engine × AgentMap)

-- The variants of `UpdateStateError` that the generation of a state returns; the reason of a state
-- that does not parse is left out.
pub data GenerationError : Type 0 where
  field_not_found : String → GenerationError
  parse_error : GenerationError

abbrev pub or_parse_error : {A : Type 0} → Option A → Result GenerationError A
or_parse_error none = err parse_error
or_parse_error (some a) = ok a

-- One field of the update mask.
module _ (y : Yaml) where
  unfoldable pub apply_field : Object y → Object y → String → Result GenerationError (Object y)
  apply_field state_from_update new_state field =
      let path = path_from field in
      elim (get y state_from_update path) [
        | some field_from_update ↦ elim (set y new_state path field_from_update) [
          | err _ ↦ err (field_not_found (path_to_string path))
          | ok changed ↦ ok changed
        ]
        | none ↦ elim (remove y new_state path) [
          | err _ ↦ err (field_not_found (path_to_string path))
          | ok r ↦ ok r.1
        ]
      ]

  unfoldable pub apply_fields :
      Object y → Object y → List String → Result GenerationError (Object y)
  apply_fields state_from_update new_state [] = ok new_state
  apply_fields state_from_update new_state (field ∷ update_mask) =
      and_then (apply_field state_from_update new_state field)
        (λ changed. apply_fields state_from_update changed update_mask)

module _ (engine : Engine) (y : Yaml) (codec : StateCodec engine y) where
  pub record StateGenerationResult : Type 0 where
    pub old_desired_state : DesiredState engine
    pub new_desired_state : DesiredState engine
    pub new_agent_map : codec.AgentMap

  abbrev pub generated :
      ServerState engine → DesiredState engine × codec.AgentMap → StateGenerationResult
  generated s spec = record {
    old_desired_state = s.desired_state;
    new_desired_state = spec.0;
    new_agent_map = spec.1;
  }

  -- The object that a nonempty mask makes of the current state.
  unfoldable pub masked_state :
      ServerState engine → codec.Update → List String → Result GenerationError (Object y)
  masked_state s updated_state update_mask =
      and_then (or_parse_error (codec.object_of_state s.desired_state)) (λ old_state.
        and_then (or_parse_error (codec.object_of_update updated_state))
          (λ state_from_update. apply_fields y state_from_update old_state update_mask))

  unfoldable pub generate_new_state :
      ServerState engine → codec.Update → List String → Result GenerationError StateGenerationResult
  generate_new_state s updated_state [] =
      and_then (or_parse_error (codec.spec_of_update updated_state)) (λ spec. ok (generated s spec))
  generate_new_state s updated_state (field ∷ update_mask) =
      and_then (masked_state s updated_state (field ∷ update_mask)) (λ new_state.
        and_then (or_parse_error (codec.spec_of_object new_state)) (λ spec. ok (generated s spec)))
