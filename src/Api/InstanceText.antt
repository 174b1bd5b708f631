-- ===== src/Api/InstanceText.antt =====
-- Instance names as texts: ankaios_api/src/ank_base/workload_instance_name.rs.
use Prim.Native.String.{[] as ε, ◌∷◌ as ◌∷ₛ◌, ◌++◌ as ◌<>◌}
use Prim.Native.String.append
use ankaios.Prelude.{
  String, ◌≡◌, refl, ap, ◌∙◌, false, List, [], ◌∷◌, some, split, has_char, split-append, split-none,
}
use ankaios.Api.Instance.{
  InstanceName, instance_name_separator, parts_to_instance, instance_from, instance_to_string,
}

dot_lem : (s : String) → "." <> s ≡ ("." ∷ₛ s)
dot_lem s = append.cons "." ε s ∙ ap (λ (t : String). "." ∷ₛ t) (append.nil s)

parts_lem :
    (w i a : String)
    → has_char instance_name_separator w ≡ false
    → has_char instance_name_separator i ≡ false
    → has_char instance_name_separator a ≡ false
    → split instance_name_separator (w <> ("." <> (i <> ("." <> a)))) ≡ w ∷ i ∷ a ∷ []
parts_lem w i a hw hi ha =
    rw (dot_lem (i <> ("." <> a)), dot_lem a)
      (split-append instance_name_separator w "." (i <> ("." ∷ₛ a)) hw refl
        ∙ ap (λ (l : List String). w ∷ l)
            (split-append instance_name_separator i "." a hi refl
              ∙ ap (λ (l : List String). i ∷ l) (split-none instance_name_separator a ha)))

-- The text of an instance name none of whose parts holds a full stop is read as that instance name.
instance_from-instance_to_string :
    (n : InstanceName)
    → has_char instance_name_separator n.workload_name ≡ false
    → has_char instance_name_separator n.id ≡ false
    → has_char instance_name_separator n.agent_name ≡ false
    → instance_from (instance_to_string n) ≡ some n
unfolding instance_from instance_to_string parts_to_instance
instance_from-instance_to_string n hw hi ha =
    ap parts_to_instance (parts_lem n.workload_name n.id n.agent_name hw hi ha)
