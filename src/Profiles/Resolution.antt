-- ===== src/Profiles/Resolution.antt =====
-- What `resolve` promises.
use agent_ui.Prelude.{
  String, true, false, List, [], ◌∷◌, Option, none, some, ◌≡◌, ◌≢◌, refl, arith, string_eq, eq_iff,
  Option-cases, inl, inr, ok, raise, Result,
}
use agent_ui.Prelude.Bind.{and_then-Ran}
use agent_ui.Prelude.Dict.{Dict, get, IsDict}
use agent_ui.Prelude.Json.{Fields}
use agent_ui.Host.{Host}
use agent_ui.Catalog.{ModelSpec, Profile, ProfileDocument, truthy_text}
use agent_ui.Routing.{choose_automatic_profile}
use agent_ui.Profiles.{
  first, is_candidate, candidates, backend_enabled, has_optional, experience_available,
  select_model, SelectionReason, pinned_model, highest_priority, ResolveError, no_automatic_route,
  Selected, preferred_loop, profile_loop, resolve_auto, named_profile, ResolvedProfile,
  resolve_selected, resolve, routed, preferred, experience_selected,
}
use agent_ui.Profiles.Best.{select_model-IsBest}

-- The model that `select_model` names is stored, enabled, and has the experience's capability.
select_model-lem :
    (doc : ProfileDocument) (id : String) (p : Profile) (chosen : String) (why : SelectionReason)
    → IsDict doc.models
    → select_model doc id p ≡ ok (chosen, why)
    → (m : ModelSpec) × (get chosen doc.models ≡ some m)
      × (m.enabled ≡ true)
      × (has_optional p.capability m ≡ true)
unfolding select_model is_candidate
select_model-lem doc id p chosen why dict h = elim (Option-cases (truthy_text p.backend_model)) [
  | inr (pin, pinned) ↦ elim (Option-cases (get pin doc.models)) [
    | inl absent ↦ absurd (ground (arith, rw (pinned, absent) at h))
    | inr (m, at) ↦
        let own : pin ≡ chosen = ground (arith, rw (pinned, at) at h) in
        (
          m,
          rw (← own) at,
          ground (arith, rw (pinned, at) at h),
          ground (arith, rw (pinned, at) at h),
        )
  ]
  | inl free ↦
      let why_so : why ≡ highest_priority = ground (arith, rw free at h) in
      let (m, best) = select_model-IsBest doc id p chosen dict free (rw why_so at h) in
      let passes = best.passes in (m, best.stored, ground arith, ground arith)
]

-- A resolved request is served by a model and a backend that are stored and enabled, and the model
-- has the capabilities that the experience and the endpoint ask for.
pub record IsServed (doc : ProfileDocument) (required : Option String) (r : ResolvedProfile)
    : Type 0 where
  pub model_stored : get r.backend_model doc.models ≡ some r.model
  pub model_enabled : r.model.enabled ≡ true
  pub backend_named : r.backend_id ≡ r.model.backend
  pub backend_stored : get r.backend_id doc.backends ≡ some r.backend
  pub backend_on : r.backend.enabled ≡ true
  pub for_experience : has_optional r.profile.capability r.model ≡ true
  pub for_endpoint : has_optional required r.model ≡ true

resolve_selected-IsServed :
    (doc : ProfileDocument) (requested : String) (required : Option String) (s : Selected)
    (r : ResolvedProfile)
    → IsDict doc.models
    → resolve_selected doc requested required s ≡ ok r
    → IsServed doc required r
unfolding resolve_selected
resolve_selected-IsServed doc requested required (id, (p, reason)) r dict h =
    let (chosen, selected, rest) = and_then-Ran (select_model doc id p) _ r h in
    let (m, at, enabled, capable) = select_model-lem doc id p chosen.0 chosen.1 dict selected in
    let after = rw at at rest in
    elim (Option-cases (get m.backend doc.backends)) [
      | inl absent ↦ absurd (ground (arith, rw absent at after))
      | inr (b, found) ↦
          let last = rw found at after in
          record {
            model_stored = ground (arith, last, at);
            model_enabled = ground (arith, last, enabled);
            backend_named = ground (arith, last);
            backend_stored = ground (arith, last, found);
            backend_on = ground (arith, last);
            for_experience = ground (arith, last, capable);
            for_endpoint = ground (arith, last);
          }
    ]

-- With the models in a dict, whatever `resolve` returns can be served: the model and its backend
-- are stored and enabled, and the model has the capabilities that the experience and the endpoint
-- ask for.
pub resolve-IsServed :
    (h : Host) (doc : ProfileDocument) (requested : String) (messages : List Fields)
    (explicit required : Option String) (r : ResolvedProfile)
    → IsDict doc.models
    → resolve h doc requested messages explicit required ≡ ok r
    → IsServed doc required r
unfolding resolve
resolve-IsServed h doc requested messages explicit required r dict ran =
    let (named, ran_named, rest) =
      and_then-Ran (named_profile doc requested explicit required) _ r ran in
    let (selected, ran_auto, last) = and_then-Ran (routed h doc messages named) _ r rest in
    resolve_selected-IsServed doc requested required selected r dict last

-- No experience that the loop goes over is available, if it finds none.
profile_loop-none :
    (doc : ProfileDocument) (ps : Dict String Profile) (id : String) (p : Profile)
    → profile_loop doc ps ≡ none
    → get id ps ≡ some p
    → p.is_auto ≡ false
    → experience_available doc p ≡ false
unfolding profile_loop get
profile_loop-none doc [] id p h at named = absurd (ground arith)
profile_loop-none doc ((j, q) ∷ ps) id p h at named =
    ground (arith, profile_loop-none doc ps id p, eq_iff j id)

ok_is_no_raise : (s : Selected) (e : ResolveError) → ok s ≢ raise e
ok_is_no_raise s e h = ground arith

raised :
    (e : ResolveError)
    → ◌≡◌ {A = Result ResolveError Selected} (raise no_automatic_route) (raise e)
    → e ≡ no_automatic_route
raised e h = ground arith

-- The automatic route is refused only with the error of a missing route, and only where the chosen
-- experience is not stored and no stored experience but automatic ones is available.
pub resolve_auto_refused :
    (h : Host) (doc : ProfileDocument) (messages : List Fields) (e : ResolveError)
    → resolve_auto h doc messages ≡ raise e
    → (e ≡ no_automatic_route)
      × (get (choose_automatic_profile h messages).0 doc.profiles ≡ none)
      × ((id : String) (p : Profile)
          → get id doc.profiles ≡ some p
          → p.is_auto ≡ false
          → experience_available doc p ≡ false)
unfolding resolve_auto
resolve_auto_refused h doc messages e refused =
    elim (Option-cases (get (choose_automatic_profile h messages).0 doc.profiles)) [
      | inr (p, at) ↦ absurd (ok_is_no_raise _ e (rw at at refused))
      | inl absent ↦ elim (Option-cases (preferred_loop doc preferred)) [
        | inr (s, found) ↦ absurd (ok_is_no_raise s e (rw (absent, found) at refused))
        | inl none_preferred ↦ elim (Option-cases (profile_loop doc doc.profiles)) [
          | inr (s, found) ↦
              absurd (ok_is_no_raise s e (rw (absent, none_preferred, found) at refused))
          | inl nothing ↦ (
            raised e (rw (absent, none_preferred, nothing) at refused),
            absent,
            λ id p at named. profile_loop-none doc doc.profiles id p nothing at named,
          )
        ]
      ]
    ]

pinned_answer :
    (doc : ProfileDocument) (id : String) (p : Profile) (pin : String) (m : ModelSpec)
    → is_candidate doc p.capability m ≡ true
    → truthy_text p.backend_model ≡ some pin
    → get pin doc.models ≡ some m
    → select_model doc id p ≡ ok (pin, pinned_model)
unfolding is_candidate select_model
pinned_answer doc id p pin m fit pinned at = rw (pinned, at) (ground (arith, fit))

-- An experience that is available and not automatic gets a model that is a candidate for it.
select_model_available :
    (doc : ProfileDocument) (id : String) (p : Profile)
    → IsDict doc.models
    → p.is_auto ≡ false
    → experience_available doc p ≡ true
    → (chosen : String) × (why : SelectionReason) × (m : ModelSpec) × (select_model doc id p
        ≡ ok (chosen, why))
      × (get chosen doc.models ≡ some m)
      × (is_candidate doc p.capability m ≡ true)
unfolding experience_available select_model
select_model_available doc id p dict named available =
    elim (Option-cases (truthy_text p.backend_model)) [
      | inr (pin, pinned) ↦ elim (Option-cases (get pin doc.models)) [
        | inl absent ↦ absurd (ground (arith, rw (named, pinned, absent) at available))
        | inr (m, at) ↦
            let fit : is_candidate doc p.capability m ≡ true =
              rw (named, pinned, at) at available in
            (pin, pinned_model, m, pinned_answer doc id p pin m fit pinned at, at, fit)
      ]
      | inl free ↦ elim (Option-cases (first (candidates doc p.capability))) [
        | inl absent ↦ absurd (ground (arith, rw (named, free, absent) at available))
        | inr (best, found) ↦
            let answer : select_model doc id p ≡ ok (best.0, highest_priority) =
              rw (free, found) refl in
            let (m, is_best) = select_model-IsBest doc id p best.0 dict free answer in
            (best.0, highest_priority, m, answer, is_best.stored, is_best.passes)
      ]
    ]

-- With the models in a dict, a request by name, with no override and no capability of the
-- endpoint, for a stored experience that is not automatic and that `experience_available` answers
-- for is resolved, to that experience.
pub resolve_available :
    (h : Host) (doc : ProfileDocument) (id : String) (p : Profile) (messages : List Fields)
    → IsDict doc.models
    → get id doc.profiles ≡ some p
    → p.is_auto ≡ false
    → experience_available doc p ≡ true
    → (r : ResolvedProfile) × (resolve h doc id messages none none ≡ ok r)
      × (r.profile_id ≡ id)
      × (r.profile ≡ p)
unfolding resolve named_profile resolve_selected is_candidate backend_enabled has_optional
resolve_available h doc id p messages dict stored named available =
    let (chosen, why, m, selected, at, fit) =
      select_model_available doc id p dict named available in
    elim (Option-cases (get m.backend doc.backends)) [
      | inl absent ↦ absurd (ground (arith, absent, fit))
      | inr (b, found) ↦
          let on : b.enabled ≡ true = ground (arith, rw found at fit) in
          let served : ResolvedProfile = record {
            requested_model = id;
            profile_id = id;
            profile = p;
            backend_model = chosen;
            route_reason = (experience_selected, why);
            model = m;
            backend_id = m.backend;
            backend = b;
          } in
          let answer : resolve h doc id messages none none ≡ ok served =
            rw (stored, named, selected, at, found, on) refl in
          (served, answer, refl, refl)
    ]
