-- ===== src/Catalog/References.antt =====
-- `ProfileDocument.validate_references` of services/gateway/src/local_ai_hub/config.py: what the models
-- and the experiences of a catalog name is there.
use agent_ui.Prelude.{
  String, Bool, true, ◌&&◌, some, Result, ok, raise, case_option, if◌then◌else◌, is_some, string_eq,
  ◌≡◌, arith, Bool-cases, inl, inr, [], ◌∷◌, ◌==◌,
}
use agent_ui.Prelude.Dict.{Dict, get}
use agent_ui.Catalog.{ModelSpec, has_capability, Profile, truthy_text, ProfileDocument}

-- The three messages, without the names in them.
pub data ReferenceError : Type 0 where
  unknown_backends unknown_models incompatible_experiences : ReferenceError

-- Whether a test holds of every value of a dict.
unfoldable pub all_values : {V : Type 0} → (V → Bool) → Dict String V → Bool
all_values test [] = true
all_values test ((k, v) ∷ d) = test v && all_values test d

unfoldable pub backend_known : ProfileDocument → ModelSpec → Bool
unfolding get
backend_known doc m = is_some (get m.backend doc.backends)

unfoldable pub pinned_known : ProfileDocument → Profile → Bool
unfolding get
pinned_known doc p =
    case_option (truthy_text p.backend_model) true (λ id. is_some (get id doc.models))

unfoldable pub pinned_fits : ProfileDocument → Profile → Bool
unfolding get has_capability
pinned_fits doc p = case_option (truthy_text p.backend_model) true λ id.
    case_option (truthy_text p.capability) true
      λ capability. case_option (get id doc.models) true λ m. has_capability m capability

unfoldable pub validate_references : ProfileDocument → Result ReferenceError ProfileDocument
unfolding all_values backend_known pinned_known pinned_fits
validate_references doc =
    if all_values (backend_known doc) doc.models
    then (if all_values (pinned_known doc) doc.profiles
        then (if all_values (pinned_fits doc) doc.profiles
            then ok doc
            else raise incompatible_experiences)
        else raise unknown_models)
    else raise unknown_backends

pub all_values-get :
    {V : Type 0} (test : V → Bool) (d : Dict String V) (k : String) (v : V)
    → all_values test d ≡ true
    → get k d ≡ some v
    → test v ≡ true
unfolding all_values get
all_values-get test [] k v all at = absurd (ground (arith, at))
all_values-get test ((j, w) ∷ d) k v all at = elim (Bool-cases (j == k)) [
  | inl same ↦ let own : w ≡ v = ground (arith, rw same at at) in rw (← own) (ground (arith, all))
  | inr other ↦ all_values-get test d k v (ground (arith, all)) (rw other at at)
]

-- What a document that passes has passed.
pub validate_references-all :
    (doc out : ProfileDocument)
    → validate_references doc ≡ ok out
    → (all_values (backend_known doc) doc.models ≡ true)
      × (all_values (pinned_known doc) doc.profiles ≡ true)
      × (all_values (pinned_fits doc) doc.profiles ≡ true)
unfolding validate_references
validate_references-all doc out h = (ground (arith, h), ground (arith, h), ground (arith, h))
