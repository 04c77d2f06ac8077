-- ===== src/Profiles.antt =====
-- services/gateway/src/local_ai_hub/profiles.py: from the model or experience that a request names to
-- the model and backend that serve it. An error is named after its `raise`.
pub mod Best
pub mod Resolution
pub mod Validated
use agent_ui.Prelude.{
  ℕ, String, Bool, true, false, ◌&&◌, ◌||◌, not, List, [], ◌∷◌, Option, none, some, Result, ok,
  raise, and_then, case_option, is_some, select, leb, ltb, nat_beq, string_eq, if◌then◌else◌,
}
use agent_ui.Prelude.Dict.{Dict, get}
use agent_ui.Prelude.Text.{codes}
use agent_ui.Prelude.Json.{Fields, leb_ℤ, end}
use agent_ui.Host.{Host}
use agent_ui.Catalog.{
  Backend, ModelSpec, Profile, ProfileDocument, ProfileError, has_capability, is_given, truthy_text,
  normalize_target,
}
use agent_ui.Routing.{Reason, choose_automatic_profile}

-- The order of Python's texts, by code points.
unfoldable pub codes_leb : List ℕ → List ℕ → Bool
codes_leb [] ys = true
codes_leb (x ∷ xs) [] = false
codes_leb (x ∷ xs) (y ∷ ys) = ltb x y || nat_beq x y && codes_leb xs ys

abbrev pub Entry : Type 0
Entry = String × ModelSpec

-- `(-priority, id)` is at most the other one's.
unfoldable pub precedes : Entry → Entry → Bool
unfolding codes_leb
precedes (i, m) (j, n) =
    if leb_ℤ m.priority n.priority
    then leb_ℤ n.priority m.priority && codes_leb (codes i) (codes j)
    else true

unfoldable pub insert_entry : Entry → List Entry → List Entry
unfolding precedes
insert_entry x [] = x ∷ []
insert_entry x (y ∷ ys) = if precedes x y then x ∷ y ∷ ys else y ∷ insert_entry x ys

unfoldable pub sort_entries : List Entry → List Entry
unfolding insert_entry
sort_entries [] = []
sort_entries (x ∷ xs) = insert_entry x (sort_entries xs)

-- `self.document.backends.get(id)` is there and enabled.
unfoldable pub backend_enabled : ProfileDocument → String → Bool
unfolding get
backend_enabled doc id = case_option (get id doc.backends) false (λ b. b.enabled)

-- `not capability or model.has_capability(capability)`
unfoldable pub has_optional : Option String → ModelSpec → Bool
unfolding has_capability
has_optional capability m = case_option (truthy_text capability) true (λ c. has_capability m c)

unfoldable pub is_candidate : ProfileDocument → Option String → ModelSpec → Bool
unfolding backend_enabled has_optional
is_candidate doc capability m =
    m.enabled && backend_enabled doc m.backend && has_optional capability m

unfoldable pub candidates : ProfileDocument → Option String → List Entry
unfolding is_candidate sort_entries
candidates doc capability = sort_entries (select (λ e. is_candidate doc capability e.1) doc.models)

abbrev pub first : List Entry → Option Entry
first [] = none
first (e ∷ es) = some e

unfoldable pub experience_available : ProfileDocument → Profile → Bool
unfolding candidates is_candidate
experience_available doc p =
    if p.is_auto
    then is_some (first (candidates doc none))
    else case_option (truthy_text p.backend_model) (is_some (first (candidates doc p.capability)))
        (λ id. case_option (get id doc.models) false (λ m. is_candidate doc p.capability m))

pub data ResolveError : Type 0 where
  unknown_experience unknown_model : String → ResolveError
  no_automatic_route : ResolveError
  pinned_unavailable pinned_lacks no_matching_model : String → ResolveError
  backend_unavailable endpoint_lacks : String → ResolveError
  invalid_profile : ProfileError → ResolveError
  key_error : String → ResolveError

pub data RouteReason : Type 0 where
  experience_override experience_selected model_selected : RouteReason
  automatic : Reason → RouteReason
  available_fallback first_fallback : RouteReason

pub data SelectionReason : Type 0 where
  pinned_model highest_priority : SelectionReason

abbrev pub Selected : Type 0
Selected = String × (Profile × RouteReason)

abbrev pub preferred : List String
preferred = "chat" ∷ "code" ∷ "story" ∷ "agent" ∷ []

-- The first loop of `_resolve_auto`.
unfoldable pub preferred_loop : ProfileDocument → List String → Option Selected
unfolding experience_available
preferred_loop doc [] = none
preferred_loop doc (id ∷ ids) =
    let rest = preferred_loop doc ids in
    case_option (get id doc.profiles) rest
      (λ p. if experience_available doc p then some (id, (p, available_fallback)) else rest)

-- The second loop of `_resolve_auto`.
unfoldable pub profile_loop : ProfileDocument → Dict String Profile → Option Selected
unfolding experience_available
profile_loop doc [] = none
profile_loop doc ((id, p) ∷ ps) =
    let rest = profile_loop doc ps in
    if not p.is_auto && experience_available doc p then some (id, (p, first_fallback)) else rest

-- `_resolve_auto`, with the profile that it names
unfoldable pub resolve_auto : Host → ProfileDocument → List Fields → Result ResolveError Selected
unfolding preferred_loop profile_loop choose_automatic_profile
resolve_auto h doc messages =
    let decision = choose_automatic_profile h messages in
    case_option (get decision.0 doc.profiles)
      (case_option (preferred_loop doc preferred)
        (case_option (profile_loop doc doc.profiles) (raise no_automatic_route) (λ s. ok s))
        (λ s. ok s))
      (λ p. ok (decision.0, (p, automatic decision.1)))

unfoldable pub select_model :
    ProfileDocument → String → Profile → Result ResolveError (String × SelectionReason)
unfolding candidates has_optional
select_model doc profile_id p =
    case_option (truthy_text p.backend_model)
      (case_option (first (candidates doc p.capability)) (raise (no_matching_model profile_id))
        (λ e. ok (e.0, highest_priority)))
      (λ id. case_option (get id doc.models) (raise (pinned_unavailable id)) (λ m.
        if not m.enabled
        then raise (pinned_unavailable id)
        else if has_optional p.capability m
        then ok (id, pinned_model)
        else raise (pinned_lacks id)))

-- The `Profile(...)` of a model that is named directly, before its validation.
abbrev pub direct_profile : String → Option String → Profile
direct_profile requested required = record {
  advertised = false;
  is_auto = false;
  backend_model = none;
  model = some requested;
  capability = required;
  reasoning_effort = none;
  system_prompt = none;
  defaults = end;
  namespaces = [];
}

abbrev as_resolve : Result ProfileError Profile → Result ResolveError Profile
as_resolve (ok p) = ok p
as_resolve (raise e) = raise (invalid_profile e)

-- The first part of `resolve`: what the request names.
unfoldable pub named_profile :
    ProfileDocument → String → Option String → Option String → Result ResolveError Selected
unfolding normalize_target
named_profile doc requested explicit required =
    case_option (truthy_text explicit)
      (case_option (get requested doc.profiles)
        (case_option (get requested doc.models) (raise (unknown_model requested)) (λ m.
          and_then (as_resolve (normalize_target (direct_profile requested required)))
            (λ p. ok (requested, (p, model_selected)))))
        (λ p. ok (requested, (p, experience_selected))))
      (λ id.
        case_option (get id doc.profiles) (raise (unknown_experience id))
          (λ p. ok (id, (p, experience_override))))

pub record ResolvedProfile : Type 0 where
  pub requested_model : String
  pub profile_id : String
  pub profile : Profile
  pub backend_model : String
  pub route_reason : RouteReason × SelectionReason
  pub model : ModelSpec
  pub backend_id : String
  pub backend : Backend

-- The last part of `resolve`: the model is selected and its backend looked up.
unfoldable pub resolve_selected :
    ProfileDocument → String → Option String → Selected → Result ResolveError ResolvedProfile
unfolding select_model has_optional
resolve_selected doc requested required (profile_id, (p, reason)) =
    and_then (select_model doc profile_id p) λ chosen.
      case_option (get chosen.0 doc.models) (raise (key_error chosen.0)) λ m.
        case_option (get m.backend doc.backends) (raise (backend_unavailable chosen.0)) λ b.
          if not b.enabled
          then raise (backend_unavailable chosen.0)
          else if has_optional required m
          then ok (record {
            requested_model = requested;
            profile_id = profile_id;
            profile = p;
            backend_model = chosen.0;
            route_reason = (reason, chosen.1);
            model = m;
            backend_id = m.backend;
            backend = b;
          })
          else raise (endpoint_lacks chosen.0)

abbrev pub routed : Host → ProfileDocument → List Fields → Selected → Result ResolveError Selected
routed h doc messages named = if named.1.0.is_auto then resolve_auto h doc messages else ok named

-- `resolve`: requested model, messages, override, capability of the endpoint
unfoldable pub resolve :
    Host
    → ProfileDocument
    → String
    → List Fields
    → Option String
    → Option String
    → Result ResolveError ResolvedProfile
unfolding named_profile resolve_auto resolve_selected
resolve h doc requested messages explicit required =
    and_then (named_profile doc requested explicit required) λ named.
      and_then (routed h doc messages named)
        λ selected. resolve_selected doc requested required selected
