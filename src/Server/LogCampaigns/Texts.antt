-- ===== src/Server/LogCampaigns/Texts.antt =====
-- A text that is read as a request id is the text of this id: server/src/ankaios_server/request_id.rs.
use Prim.Native.Char.{code}
use Prim.Native.String.{[] as ε, ◌∷◌ as ◌∷ₛ◌, ◌++◌ as ◌<>◌}
use Prim.Native.String.append
use text.Mathlib.TextEquality.{Char-path}
use ankaios.Prelude.{
  String, none, some, split_once, starts_with, eqb, ◌≡◌, sym, ap, ◌∙◌, arith, Bool-cases,
  Option-cases, inl, inr,
}
use ankaios.Server.RequestId.{
  RequestId, cli_request_id, agent_request_id, cli_prefix, to_string_id, cli_id_from, agent_id_from,
  request_id_from,
}

at_lem : (s : String) → "@" <> s ≡ ("@" ∷ₛ s)
at_lem s = append.cons "@" ε s ∙ ap (λ (t : String). "@" ∷ₛ t) (append.nil s)

split_once-parts : (s p q : String) → split_once b'@' s ≡ some (p, q) → p <> ("@" <> q) ≡ s
unfolding split_once
split_once-parts ε p q h = absurd cc
split_once-parts (c ∷ₛ s) p q h = elim (Bool-cases (eqb (code c) b'@')) [
  | inl e ↦
      let at : code c ≡ b'@' = ground (arith, e) in
      let same : c ≡ "@" = Char-path c "@" at in
      let found : some (ε, s) ≡ some (p, q) = rw e at h in
      let first : ε ≡ p = cc found in
      let rest : s ≡ q = cc found in
      rw (sym first, sym rest, same) (append.nil ("@" <> s) ∙ at_lem s)
  | inr e ↦ elim (Option-cases (split_once b'@' s)) [
    | inl k ↦ let nothing : none ≡ some (p, q) = rw (e, k) at h in absurd cc
    | inr ((p', q'), k) ↦
        let found : some ((c ∷ₛ p'), q') ≡ some (p, q) = rw (e, k) at h in
        let first : (c ∷ₛ p') ≡ p = cc found in
        let rest : q' ≡ q = cc found in
        rw (sym first, sym rest)
          (append.cons c p' ("@" <> q') ∙ ap (λ (t : String). c ∷ₛ t) (split_once-parts s p' q' k))
  ]
]

same_id : (i j : RequestId) → some i ≡ some j → i ≡ j
same_id i j h = cc

cli_id-text : (text : String) (id : RequestId) → cli_id_from text ≡ some id → to_string_id id ≡ text
unfolding cli_id_from to_string_id
cli_id-text text id h = elim (Option-cases (split_once b'@' text)) [
  | inl k ↦ let nothing : none ≡ some id = rw (k, cli_id_from) at h in absurd cc
  | inr ((p, q), k) ↦
      let read = cli_request_id (record { cli_name = p; request_id = q }) in
      let same : read ≡ id = same_id read id (rw (k, cli_id_from) at h) in
      ap to_string_id (sym same) ∙ split_once-parts text p q k
]

agent_id-text :
    (text : String) (id : RequestId) → agent_id_from text ≡ some id → to_string_id id ≡ text
unfolding agent_id_from to_string_id
agent_id-text text id h = elim (Option-cases (split_once b'@' text)) [
  | inl k ↦ let nothing : none ≡ some id = rw (k, agent_id_from) at h in absurd cc
  | inr ((p, rest), k) ↦ elim (Option-cases (split_once b'@' rest)) [
    | inl l ↦ let nothing : none ≡ some id = rw (k, l, agent_id_from) at h in absurd cc
    | inr ((w, q), l) ↦
        let read =
          agent_request_id (record { agent_name = p; workload_name = w; request_id = q }) in
        let same : read ≡ id = same_id read id (rw (k, l, agent_id_from) at h) in
        ap to_string_id (sym same)
        ∙ ap (λ (t : String). p <> ("@" <> t)) (split_once-parts rest w q l)
        ∙ split_once-parts text p rest k
  ]
]

pub request_id-text :
    (text : String) (id : RequestId) → request_id_from text ≡ some id → to_string_id id ≡ text
unfolding request_id_from
request_id-text text id h = elim (Bool-cases (starts_with text cli_prefix)) [
  | inl e ↦ cli_id-text text id (rw (e, request_id_from) at h)
  | inr e ↦ agent_id-text text id (rw (e, request_id_from) at h)
]
