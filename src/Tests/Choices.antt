-- ===== src/Tests/Choices.antt =====
-- The theorems on the choice of a model, for a small document.
use agent_ui.Prelude.{
  ℕ, String, true, false, [], ◌∷◌, none, some, ◌≡◌, ◌⊎◌, refl, ok, raise, string_eq, select,
}
use agent_ui.Prelude.Dict.{get, IsDict}
use agent_ui.Prelude.Text.{strip}
use agent_ui.Prelude.Json.{end, field, obj, pos}
use agent_ui.Catalog.{Backend, ModelSpec, Profile, ProfileDocument, openai_compatible, off}
use agent_ui.Routing.{choose_automatic_profile}
use agent_ui.Profiles.{
  is_candidate, select_model, highest_priority, no_automatic_route, resolve_auto, resolve,
  ResolvedProfile, experience_available, experience_selected,
}
use agent_ui.Catalog.References.{validate_references}
use agent_ui.Profiles.Validated.{resolve_pinned}
use agent_ui.Profiles.Best.{IsBest, select_model-IsBest}
use agent_ui.Profiles.Resolution.{
  IsServed, resolve-IsServed, resolve_auto_refused, resolve_available,
}
use agent_ui.Host.{lower}
use agent_ui.Tests.Demo.{machine}

abbrev pub local : Backend
local = record {
  kind = openai_compatible;
  enabled = true;
  base_url = some "http://localhost";
  base_url_env = none;
  api_key_env = none;
  coordinator = off;
  serialize_requests = false;
  options = end;
}

abbrev pub model_of : ℕ → ModelSpec
model_of priority = record {
  display_name = "";
  enabled = true;
  backend = "local";
  upstream_model = none;
  capabilities = field "chat" (obj end) end;
  reasoning = none;
  defaults = end;
  priority = pos priority;
  metadata = end;
}

abbrev pub chat : Profile
chat = record {
  advertised = true;
  is_auto = false;
  backend_model = none;
  model = none;
  capability = some "chat";
  reasoning_effort = none;
  system_prompt = none;
  defaults = end;
  namespaces = [];
}

abbrev document : ProfileDocument
document = record {
  backends = ("local", local) ∷ [];
  models = ("large", model_of 1) ∷ ("zeta", model_of 5) ∷ ("beta", model_of 5) ∷ [];
  profiles = ("chat", chat) ∷ [];
}

models-IsDict : IsDict document.models
unfolding get
models-IsDict = (refl, (refl, (refl, tt)))

chosen_run : select_model document "chat" chat ≡ ok ("beta", highest_priority)
unfolding select_model select
chosen_run = refl

select_model-IsBest_example :
    (m : ModelSpec) × IsBest (is_candidate document (some "chat")) document.models ("beta", m)
select_model-IsBest_example =
    select_model-IsBest document "chat" chat "beta" models-IsDict refl chosen_run

abbrev pub served : ResolvedProfile
served = record {
  requested_model = "chat";
  profile_id = "chat";
  profile = chat;
  backend_model = "beta";
  route_reason = (experience_selected, highest_priority);
  model = model_of 5;
  backend_id = "local";
  backend = local;
}

served_run : resolve machine document "chat" [] none (some "chat") ≡ ok served
unfolding resolve select
served_run = refl

resolve-IsServed_example : IsServed document (some "chat") served
resolve-IsServed_example =
    resolve-IsServed machine document "chat" [] none (some "chat") served models-IsDict served_run

available_run : experience_available document chat ≡ true
unfolding experience_available select
available_run = refl

stored_run : get "chat" document.profiles ≡ some chat
unfolding get
stored_run = refl

resolve_available_example :
    (r : ResolvedProfile) × (resolve machine document "chat" [] none none ≡ ok r)
    × (r.profile_id ≡ "chat")
    × (r.profile ≡ chat)
resolve_available_example =
    resolve_available machine document "chat" chat [] models-IsDict stored_run refl available_run

abbrev empty_document : ProfileDocument
empty_document = record { backends = []; models = []; profiles = ("chat", chat) ∷ [] }

refused_run : resolve_auto machine empty_document [] ≡ raise no_automatic_route
unfolding resolve_auto lower strip select
refused_run = refl

resolve_auto_refused_example :
    (no_automatic_route ≡ no_automatic_route)
    × (get (choose_automatic_profile machine []).0 empty_document.profiles ≡ none)
    × ((id : String) (p : Profile)
        → get id empty_document.profiles ≡ some p
        → p.is_auto ≡ false
        → experience_available empty_document p ≡ false)
resolve_auto_refused_example =
    resolve_auto_refused machine empty_document [] no_automatic_route refused_run

-- An experience that pins a model, next to the others.
abbrev pinning : Profile
pinning = record chat { backend_model = some "beta" }

abbrev pinned_document : ProfileDocument
pinned_document = record document { profiles = ("pinned", pinning) ∷ document.profiles }

valid_run : validate_references pinned_document ≡ ok pinned_document
unfolding validate_references
valid_run = refl

pinned_run : get "pinned" pinned_document.profiles ≡ some pinning
unfolding get
pinned_run = refl

resolve_pinned_example :
    ((r : ResolvedProfile) × (resolve machine pinned_document "pinned" [] none none ≡ ok r)
      × (r.profile_id ≡ "pinned")
      × (r.backend_model ≡ "beta"))
    ⊎ ((m : ModelSpec) × (get "beta" pinned_document.models ≡ some m)
        × ((m.enabled ≡ false)
            ⊎ ((b : Backend) × (get m.backend pinned_document.backends ≡ some b)
                × (b.enabled ≡ false))))
resolve_pinned_example =
    resolve_pinned machine pinned_document pinned_document "pinned" pinning "beta" [] valid_run
      pinned_run refl refl
