-- ===== src/Common/RequestPrefix.antt =====
-- The prefix of a request id: common/src/request_id_prepending.rs.
use Prim.Native.String.{[], ◌∷◌, ◌++◌ as ◌<>◌}
use Prim.Native.String.append
use Prim.Native.String.compare
use ankaios.Prelude.{
  ℕ, String, ◌==◌, false, if◌then◌else◌, none, some, split_once, split_once-append, has_char, ◌≡◌,
  refl, ap, ◌∙◌,
}

-- `@`
abbrev separator : ℕ
separator = 64

unfoldable pub prepend_request_id : String → String → String
prepend_request_id request_id agent_name =
    if request_id == ""
    then ""
    else if agent_name == ""
    then request_id
    else agent_name <> ("@" <> request_id)

unfoldable pub detach_prefix_from_request_id : String → String × String
detach_prefix_from_request_id request_id =
    if request_id == ""
    then ("", "")
    else (elim (split_once separator request_id) [ some parts ↦ parts | none ↦ ("", request_id) ])

at_lem : (s : String) → "@" <> s ≡ ("@" ∷ s)
at_lem s = append.cons "@" [] s ∙ ap (λ (t : String). "@" ∷ t) (append.nil s)

behind_name-nonempty : (name request_id : String) → ((name <> ("@" ∷ request_id)) == "") ≡ false
behind_name-nonempty [] request_id =
    rw (append.nil ("@" ∷ request_id), compare.cons-nil "@" request_id) refl
behind_name-nonempty (c ∷ name) request_id =
    rw (append.cons c name ("@" ∷ request_id), compare.cons-nil c (name <> ("@" ∷ request_id))) refl

-- A prefix that is prepended to a request id that is not empty is detached again, and the id is as it
-- was, if the prefix is not empty and holds no `@`.
pub detach_prefix_from_request_id-prepend_request_id :
    (request_id name : String)
    → (request_id == "") ≡ false
    → (name == "") ≡ false
    → has_char separator name ≡ false
    → detach_prefix_from_request_id (prepend_request_id request_id name) ≡ (name, request_id)
unfolding prepend_request_id detach_prefix_from_request_id
detach_prefix_from_request_id-prepend_request_id request_id name r n h =
    rw
      (
        r,
        n,
        at_lem request_id,
        behind_name-nonempty name request_id,
        split_once-append separator name "@" request_id h refl,
      )
      refl
