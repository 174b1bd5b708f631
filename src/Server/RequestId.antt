-- ===== src/Server/RequestId.antt =====
-- The ids of requests for logs: server/src/ankaios_server/request_id.rs.
use Prim.Native.String.{◌++◌ as ◌<>◌}
use ankaios.Prelude.{
  ℕ, String, Bool, true, false, ◌&&◌, ◌==◌, Option, none, some, split_once, starts_with,
  if◌then◌else◌, ◌≡◌, ◌↔◌, arith, eq_iff,
}

pub record CliRequestId : Type 0 where
  pub cli_name : String
  pub request_id : String

pub record AgentRequestId : Type 0 where
  pub agent_name : String
  pub workload_name : String
  pub request_id : String

pub data RequestId : Type 0 where
  cli_request_id : CliRequestId → RequestId
  agent_request_id : AgentRequestId → RequestId

abbrev pub cli_prefix : String
cli_prefix = "cli-conn"

abbrev separator : ℕ
separator = b'@'

unfoldable pub to_string_id : RequestId → String
to_string_id (cli_request_id r) = r.cli_name <> ("@" <> r.request_id)
to_string_id (agent_request_id r) =
    r.agent_name <> ("@" <> (r.workload_name <> ("@" <> r.request_id)))

-- `splitn(2, '@')` with its two parts. The code panics where a part is missing, which is `none` here.
unfoldable pub cli_id_from : String → Option RequestId
cli_id_from text = elim (split_once separator text) [
  | none ↦ none
  | some (cli_name, request_id) ↦
      some (cli_request_id (record { cli_name = cli_name; request_id = request_id }))
]

-- `splitn(3, '@')` with its three parts.
unfoldable pub agent_id_from : String → Option RequestId
agent_id_from text = elim (split_once separator text) [
  | none ↦ none
  | some (agent_name, rest) ↦ elim (split_once separator rest) [
    | none ↦ none
    | some (workload_name, request_id) ↦ some (
        agent_request_id (record {
          agent_name = agent_name;
          workload_name = workload_name;
          request_id = request_id;
        }))
  ]
]

unfoldable pub request_id_from : String → Option RequestId
request_id_from text = if starts_with text cli_prefix then cli_id_from text else agent_id_from text

-- `==` of the derived `PartialEq`.
unfoldable pub agent_id_eq : AgentRequestId → AgentRequestId → Bool
agent_id_eq i j =
    i.agent_name == j.agent_name
    && (i.workload_name == j.workload_name && i.request_id == j.request_id)

unfoldable pub cli_id_eq : CliRequestId → CliRequestId → Bool
cli_id_eq i j = i.cli_name == j.cli_name && i.request_id == j.request_id

abbrev pub id_eq : RequestId → RequestId → Bool
id_eq (cli_request_id i) (cli_request_id j) = cli_id_eq i j
id_eq (cli_request_id i) (agent_request_id j) = false
id_eq (agent_request_id i) (cli_request_id j) = false
id_eq (agent_request_id i) (agent_request_id j) = agent_id_eq i j

-- The text is the text of the id.
abbrev pub reads_as : String → RequestId → Bool
reads_as text id = elim (request_id_from text) [ none ↦ false | some other ↦ id_eq id other ]

abbrev pub of_agent : String → RequestId → Bool
of_agent agent_name (cli_request_id r) = false
of_agent agent_name (agent_request_id r) = r.agent_name == agent_name

abbrev pub of_cli : String → RequestId → Bool
of_cli connection_name (cli_request_id r) = r.cli_name == connection_name
of_cli connection_name (agent_request_id r) = false

pub agent_id_eq-decides : (i j : AgentRequestId) → (agent_id_eq i j ≡ true) ↔ (i ≡ j)
unfolding agent_id_eq
agent_id_eq-decides i j = ground (
  arith,
  eq_iff i.agent_name j.agent_name,
  eq_iff i.workload_name j.workload_name,
  eq_iff i.request_id j.request_id,
)

pub cli_id_eq-decides : (i j : CliRequestId) → (cli_id_eq i j ≡ true) ↔ (i ≡ j)
unfolding cli_id_eq
cli_id_eq-decides i j =
    ground (arith, eq_iff i.cli_name j.cli_name, eq_iff i.request_id j.request_id)

pub id_eq-decides : (i j : RequestId) → (id_eq i j ≡ true) ↔ (i ≡ j)
id_eq-decides (cli_request_id i) (cli_request_id j) = ground (arith, cli_id_eq-decides i j)
id_eq-decides (cli_request_id i) (agent_request_id j) = ground arith
id_eq-decides (agent_request_id i) (cli_request_id j) = ground arith
id_eq-decides (agent_request_id i) (agent_request_id j) = ground (arith, agent_id_eq-decides i j)
