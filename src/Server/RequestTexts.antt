-- ===== src/Server/RequestTexts.antt =====
-- The texts of request ids: server/src/ankaios_server/request_id.rs.
use Prim.Native.String.{[] as ε, ◌∷◌ as ◌∷ₛ◌, ◌++◌ as ◌<>◌}
use Prim.Native.String.append
use ankaios.Prelude.{
  String, ◌≡◌, refl, ap, ◌∙◌, true, false, some, split_once, split_once-append, has_char,
  starts_with,
}
use ankaios.Server.RequestId.{
  CliRequestId, AgentRequestId, RequestId, cli_request_id, agent_request_id, cli_prefix,
  to_string_id, cli_id_from, agent_id_from, request_id_from,
}

at_lem : (s : String) → "@" <> s ≡ ("@" ∷ₛ s)
at_lem s = append.cons "@" ε s ∙ ap (λ (t : String). "@" ∷ₛ t) (append.nil s)

once_lem :
    (p q : String) → has_char b'@' p ≡ false → split_once b'@' (p <> ("@" <> q)) ≡ some (p, q)
once_lem p q h = rw (at_lem q) (split_once-append b'@' p "@" q h refl)

-- The parts before the last hold no separator, and the text begins with the prefix of the command line's
-- connections exactly if the id is one of these.
abbrev pub IsReadable : RequestId → Type 0
IsReadable (cli_request_id r) =
    (has_char b'@' r.cli_name ≡ false)
    × (starts_with (to_string_id (cli_request_id r)) cli_prefix ≡ true)
IsReadable (agent_request_id r) =
    (has_char b'@' r.agent_name ≡ false)
    × ((has_char b'@' r.workload_name ≡ false)
        × (starts_with (to_string_id (agent_request_id r)) cli_prefix ≡ false))

cli_case :
    (r : CliRequestId)
    → has_char b'@' r.cli_name ≡ false
    → cli_id_from (to_string_id (cli_request_id r)) ≡ some (cli_request_id r)
unfolding cli_id_from to_string_id
cli_case r h = rw (once_lem r.cli_name r.request_id h, cli_id_from) refl

agent_case :
    (r : AgentRequestId)
    → has_char b'@' r.agent_name ≡ false
    → has_char b'@' r.workload_name ≡ false
    → agent_id_from (to_string_id (agent_request_id r)) ≡ some (agent_request_id r)
unfolding agent_id_from to_string_id
agent_case r h k =
    rw
      (
        once_lem r.agent_name (r.workload_name <> ("@" <> r.request_id)) h,
        agent_id_from,
        once_lem r.workload_name r.request_id k,
      )
      refl

-- The text of a request id is read as that id, if the parts before the last hold no separator and the
-- text begins with the prefix of the command line's connections exactly if the id is one of these.
pub request_id_from-to_string_id :
    (id : RequestId) → IsReadable id → request_id_from (to_string_id id) ≡ some id
unfolding request_id_from
request_id_from-to_string_id (cli_request_id r) (h, p) = rw p (cli_case r h)
request_id_from-to_string_id (agent_request_id r) (h, (k, p)) = rw p (agent_case r h k)
