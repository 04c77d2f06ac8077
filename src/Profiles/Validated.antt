-- ===== src/Profiles/Validated.antt =====
-- What `resolve` promises of a catalog whose references were validated.
use agent_ui.Prelude.{
  String, true, false, List, none, some, ◌≡◌, ◌⊎◌, inl, inr, refl, arith, string_eq, Option-cases,
  Bool-cases, ok,
}
use agent_ui.Prelude.Dict.{get}
use agent_ui.Prelude.Json.{Fields}
use agent_ui.Host.{Host}
use agent_ui.Catalog.{ModelSpec, Backend, Profile, ProfileDocument, truthy_text}
use agent_ui.Catalog.References.{
  validate_references, validate_references-all, all_values-get, backend_known, pinned_known,
  pinned_fits,
}
use agent_ui.Profiles.{
  has_optional, select_model, pinned_model, experience_selected, named_profile, ResolvedProfile,
  resolve_selected, resolve,
}

-- The pinned model and its backend are stored, and the model can do what the experience asks for.
pub record IsPinned (doc : ProfileDocument) (p : Profile) (pin : String) : Type 0 where
  pub model : ModelSpec
  pub backend : Backend
  pub model_stored : get pin doc.models ≡ some model
  pub backend_stored : get model.backend doc.backends ≡ some backend
  pub capable : has_optional p.capability model ≡ true

validated-IsPinned :
    (doc out : ProfileDocument) (id : String) (p : Profile) (pin : String)
    → validate_references doc ≡ ok out
    → get id doc.profiles ≡ some p
    → truthy_text p.backend_model ≡ some pin
    → IsPinned doc p pin
unfolding backend_known pinned_known pinned_fits has_optional
validated-IsPinned doc out id p pin valid stored pinned =
    let (backends, models, fits) = validate_references-all doc out valid in
    let known : pinned_known doc p ≡ true =
      all_values-get {V = Profile} (pinned_known doc) doc.profiles id p models stored in
    let fit : pinned_fits doc p ≡ true =
      all_values-get {V = Profile} (pinned_fits doc) doc.profiles id p fits stored in
    elim (Option-cases (get pin doc.models)) [
      | inl absent ↦ absurd (ground (arith, rw (pinned, absent) at known))
      | inr (m, at) ↦
          let served : backend_known doc m ≡ true =
            all_values-get {V = ModelSpec} (backend_known doc) doc.models pin m backends at in
          elim (Option-cases (get m.backend doc.backends)) [
            | inl absent ↦ absurd (ground (arith, rw absent at served))
            | inr (b, found) ↦ record {
              model = m;
              backend = b;
              model_stored = at;
              backend_stored = found;
              capable = ground (arith, rw (pinned, at) at fit);
            }
          ]
    ]

abbrev pinned_answer : String → Profile → String → ModelSpec → Backend → ResolvedProfile
pinned_answer id p pin m b = record {
  requested_model = id;
  profile_id = id;
  profile = p;
  backend_model = pin;
  route_reason = (experience_selected, pinned_model);
  model = m;
  backend_id = m.backend;
  backend = b;
}

select_pinned :
    (doc : ProfileDocument) (id : String) (p : Profile) (pin : String) (m : ModelSpec)
    → truthy_text p.backend_model ≡ some pin
    → get pin doc.models ≡ some m
    → m.enabled ≡ true
    → has_optional p.capability m ≡ true
    → select_model doc id p ≡ ok (pin, pinned_model)
unfolding select_model
select_pinned doc id p pin m pinned at on capable = rw (pinned, at, on, capable) refl

resolve_enabled :
    (h : Host) (doc : ProfileDocument) (id : String) (p : Profile) (pin : String)
    (messages : List Fields) (m : ModelSpec) (b : Backend)
    → get id doc.profiles ≡ some p
    → p.is_auto ≡ false
    → select_model doc id p ≡ ok (pin, pinned_model)
    → get pin doc.models ≡ some m
    → get m.backend doc.backends ≡ some b
    → b.enabled ≡ true
    → resolve h doc id messages none none ≡ ok (pinned_answer id p pin m b)
unfolding resolve named_profile resolve_selected has_optional
resolve_enabled h doc id p pin messages m b stored named selected at found on =
    rw (stored, named, selected, at, found, on) refl

-- In a catalog whose references are valid, an experience that is not automatic and pins a model is
-- served by that model when it is asked for by its name, unless the model or its backend is there
-- but disabled.
pub resolve_pinned :
    (h : Host) (doc out : ProfileDocument) (id : String) (p : Profile) (pin : String)
    (messages : List Fields)
    → validate_references doc ≡ ok out
    → get id doc.profiles ≡ some p
    → p.is_auto ≡ false
    → truthy_text p.backend_model ≡ some pin
    → ((r : ResolvedProfile) × (resolve h doc id messages none none ≡ ok r)
        × (r.profile_id ≡ id)
        × (r.backend_model ≡ pin))
      ⊎ ((m : ModelSpec) × (get pin doc.models ≡ some m)
          × ((m.enabled ≡ false)
              ⊎ ((b : Backend) × (get m.backend doc.backends ≡ some b) × (b.enabled ≡ false))))
resolve_pinned h doc out id p pin messages valid stored named pinned =
    let held = validated-IsPinned doc out id p pin valid stored pinned in
    elim (Bool-cases held.model.enabled) [
      | inr off ↦ inr (held.model, held.model_stored, inl off)
      | inl model_on ↦ elim (Bool-cases held.backend.enabled) [
        | inr off ↦
            inr (held.model, held.model_stored, inr (held.backend, held.backend_stored, off))
        | inl on ↦
            let selected =
              select_pinned doc id p pin held.model pinned held.model_stored model_on
                held.capable in
            inl (
              pinned_answer id p pin held.model held.backend,
              resolve_enabled h doc id p pin messages held.model held.backend stored named selected
                  held.model_stored held.backend_stored on,
              refl,
              refl,
            )
      ]
    ]
