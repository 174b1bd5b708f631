-- ===== src/Server/Listening/Runs/Rejections.antt =====
-- Updates that are rejected.
use ankaios.Prelude.{
  String, List, [], ◌∷◌, Option, none, some, ok, err, Result-cases, ◌≡◌, sym, ap, ◌∙◌, Option-cases,
  inl, inr,
}
use ankaios.Server.ServerState.{
  ServerState, DesiredState, Updated, UpdateStateError, render_error, result_invalid,
  cycle_in_dependencies, update,
}
use ankaios.Server.Updates.{UpdateEffect, update-Effect}
use ankaios.Server.NewState.{generate_new_state}
use ankaios.Server.PreRendering.{validate_pre_rendering}
use ankaios.Server.Listening.{
  Libraries, RequestError, generation_rejected, wrong_format, update_rejected, no_new_state,
  error_response, AnkaiosServer,
}
use ankaios.Server.Listening.Requests.{update_server_state, handle_update_state_request}

module _ (lib : Libraries) where
  failed_update :
      (s : ServerState lib.engine) (new : DesiredState lib.engine) (e : UpdateStateError)
      → (update lib.engine s new).1 ≡ err e
      → (update lib.engine s new).0 ≡ s
  failed_update s new e h = go (update lib.engine s new) h (update-Effect lib.engine s new)
    where
      go : (u : Updated lib.engine) → u.1 ≡ err e → UpdateEffect lib.engine s new u → u.0 ≡ s
      go (s', err (render_error x)) k (p, q) = p
      go (s', err (result_invalid x)) k (p, q) = p
      go (s', err (cycle_in_dependencies x)) k (p, q) = p
      go (s', ok r) k f = absurd cc

  -- Why an update is not carried out: it holds no state, or no state is generated from it, or the generated
  -- state fails the checks before the rendering, or the server's state cannot be updated with it.
  abbrev pub IsRejected :
      AnkaiosServer lib → Option lib.states.Update → List String → RequestError → Type 0
  IsRejected s none update_mask e = e ≡ no_new_state
  IsRejected s (some new_state) update_mask e =
      elim (generate_new_state lib.engine lib.yaml lib.states s.server_state new_state
        update_mask) [
          | err x ↦ e ≡ generation_rejected x
          | ok generated ↦
              elim (validate_pre_rendering lib.engine lib.keys generated.new_desired_state) [
                | some x ↦ e ≡ wrong_format x
                | none ↦
                    (x : UpdateStateError) × ((update lib.engine s.server_state
                        generated.new_desired_state).1
                      ≡ err x)
                    × (e ≡ update_rejected x)
              ]
        ]

  -- An update that is rejected leaves the whole server as it is, sends the error to the request's id, and
  -- nothing else.
  pub handle_update_state_request-rejects :
      (s : AnkaiosServer lib) (request_id : String) (new_state : Option lib.states.Update)
      (update_mask : List String) (e : RequestError)
      → IsRejected s new_state update_mask e
      → handle_update_state_request lib s request_id new_state update_mask
        ≡ some (s, error_response request_id e ∷ [])
  unfolding handle_update_state_request update_server_state
  handle_update_state_request-rejects s request_id none update_mask e h =
      ap (λ (x : RequestError). some (s, error_response request_id x ∷ [])) (sym h)
  handle_update_state_request-rejects s request_id (some new_state) update_mask e h =
      elim (Result-cases
        (generate_new_state lib.engine lib.yaml lib.states s.server_state new_state update_mask)) [
          | inl (x, k) ↦
              let same : e ≡ generation_rejected x = rw (k, IsRejected) at h in
              rw (k, handle_update_state_request)
                (ap (λ (x : RequestError). some (s, error_response request_id x ∷ [])) (sym same))
          | inr (generated, k) ↦
              elim (Option-cases
                (validate_pre_rendering lib.engine lib.keys generated.new_desired_state)) [
                  | inr (x, v) ↦
                      let same : e ≡ wrong_format x = rw (k, IsRejected, v) at h in
                      rw (k, handle_update_state_request, v)
                        (ap (λ (x : RequestError). some (s, error_response request_id x ∷ []))
                          (sym same))
                  | inl v ↦
                      let (x, u, same) : (x : UpdateStateError) × ((update lib.engine s.server_state
                              generated.new_desired_state).1
                            ≡ err x)
                          × (e ≡ update_rejected x) =
                        rw (k, IsRejected, v) at h in
                      rw (k, handle_update_state_request, v, update_server_state, u)
                        (ap
                            (λ (u : ServerState lib.engine). some (
                              record s { server_state = u },
                              error_response request_id (update_rejected x) ∷ [],
                            ))
                            (failed_update s.server_state generated.new_desired_state x u)
                          ∙ ap (λ (x : RequestError). some (s, error_response request_id x ∷ []))
                              (sym same))
                ]
        ]
