-- ===== src/Server/Validity.antt =====
-- The validity of the workloads that the server keeps: server/src/ankaios_server/server_state.rs.
use Prim.Native.String.{len}
use ankaios.Prelude.{
  ok, err, ◌≡◌, ◌≤◌, ◌==◌, refl, Bool, true, false, ltb, [], ◌∷◌, Option, none, some, Map,
  AllValues, arith, if◌then◌else◌,
}
use ankaios.Api.Workload.{WorkloadNamed}
use ankaios.Server.Render.{Engine}
use ankaios.Server.Validation.{
  Invalid, empty_field, field_characters, field_length, agent_name_mismatch, then_check,
  validate_field_not_empty, validate_max_field_length, validate_field_pattern,
  validate_workload_name_format, validate_access, validate_fields_format, validate_workloads,
  max_field_length,
}
use ankaios.Server.ServerState.{
  ServerState, DesiredState, Updated, update, render_error, result_invalid, cycle_in_dependencies,
}
use ankaios.Server.Updates.{UpdateEffect, update-Effect}

module _ (engine : Engine) where
  -- The name has 1 to 63 bytes and only field characters, the agent's name only field characters, and
  -- the instance's agent is the workload's.
  abbrev pub IsValidWorkload : WorkloadNamed → Type 0
  IsValidWorkload w =
      (w.instance_name.workload_name == "" ≡ false)
      × ((engine.matches_field w.instance_name.workload_name ≡ true)
          × ((len w.instance_name.workload_name ≤ 63)
              × ((engine.matches_field w.workload.agent ≡ true)
                  × (w.instance_name.agent_name == w.workload.agent ≡ true))))

  then_check-none : (a b : Option Invalid) → then_check a b ≡ none → (a ≡ none) × (b ≡ none)
  then_check-none none b h = (refl, h)
  then_check-none (some e) b h = cc

  refused_if : (b : Bool) (e : Invalid) → (if b then some e else none) ≡ none → b ≡ false
  refused_if true e h = cc
  refused_if false e h = refl

  accepted_if : (b : Bool) (e : Invalid) → (if b then none else some e) ≡ none → b ≡ true
  accepted_if true e h = refl
  accepted_if false e h = cc

  validate_fields_format-IsValidWorkload :
      (w : WorkloadNamed) → validate_fields_format engine w ≡ none → IsValidWorkload w
  unfolding validate_fields_format validate_workload_name_format validate_field_not_empty
      validate_max_field_length validate_field_pattern
  validate_fields_format-IsValidWorkload w h =
      let name = w.instance_name.workload_name in
      let (a, h1) = then_check-none (validate_workload_name_format engine name) _ h in
      let (empty, a1) = then_check-none (validate_field_not_empty name) _ a in
      let (pattern_ok, length_ok) =
        then_check-none (validate_field_pattern engine name) (validate_max_field_length name) a1 in
      let (agent_ok, h2) = then_check-none (validate_field_pattern engine w.workload.agent) _ h1 in
      let (same_agent, h3) =
        then_check-none _ (validate_access engine w.workload.control_interface_access) h2 in
      (
        refused_if (name == "") empty_field empty,
        (
          accepted_if (engine.matches_field name) field_characters pattern_ok,
          (
            ground (arith, refused_if (ltb max_field_length (len name)) field_length length_ok),
            (
              accepted_if (engine.matches_field w.workload.agent) field_characters agent_ok,
              accepted_if (w.instance_name.agent_name == w.workload.agent) agent_name_mismatch
                  same_agent,
            ),
          ),
        ),
      )

  validate_workloads-AllValues :
      (m : Map WorkloadNamed) → validate_workloads engine m ≡ none → AllValues IsValidWorkload m
  unfolding validate_workloads
  validate_workloads-AllValues [] h = tt
  validate_workloads-AllValues ((name, w) ∷ m) h =
      let (a, b) =
        then_check-none (validate_fields_format engine w) (validate_workloads engine m) h in
      (validate_fields_format-IsValidWorkload w a, validate_workloads-AllValues m b)

  effect-AllValues :
      (s : ServerState engine) (new : DesiredState engine) (u : Updated engine)
      → UpdateEffect engine s new u
      → AllValues IsValidWorkload s.rendered_workloads
      → AllValues IsValidWorkload u.0.rendered_workloads
  effect-AllValues s new (s', err (render_error e)) (p, k) h = rw p h
  effect-AllValues s new (s', err (result_invalid e)) (p, k) h = rw p h
  effect-AllValues s new (s', err (cycle_in_dependencies w)) (p, k) h = rw p h
  effect-AllValues s new (s', ok none) (p, k) h = rw p h
  effect-AllValues s new (s', ok (some r)) (p, q, v, _, _, _) h =
      validate_workloads-AllValues s'.rendered_workloads v

  -- If the workloads that the server keeps are valid, they are so after any update, failed ones
  -- included.
  pub update-AllValues :
      (s : ServerState engine) (new : DesiredState engine)
      → AllValues IsValidWorkload s.rendered_workloads
      → AllValues IsValidWorkload (update engine s new).0.rendered_workloads
  update-AllValues s new h =
      effect-AllValues s new (update engine s new) (update-Effect engine s new) h
