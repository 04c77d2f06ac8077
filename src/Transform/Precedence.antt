-- ===== src/Transform/Precedence.antt =====
-- Which value a request is sent with.
use agent_ui.Prelude.{
  String, true, false, Option, none, some, ◌≡◌, ◌≢◌, refl, arith, ok, string_eq, eq_iff, ◌==◌,
  if◌then◌else◌, Option-cases, Bool-cases, inl, inr, sym, ◌∙◌, ap,
}
use agent_ui.Prelude.Bind.{and_then-Ran}
use agent_ui.Prelude.Text.{is_empty}
use agent_ui.Prelude.Json.{
  Value, Fields, null, boolean, int, float, arr, str, obj, end, field, get_field, put_field,
  pop_field, set_default, get-put_field, get-put_other,
}
use agent_ui.Catalog.{
  Transport, ReasoningFeature, UnsupportedPolicy, ignore, reject, body, chat_template_kwargs,
}
use agent_ui.Profiles.{ResolvedProfile}
use agent_ui.Transform.{
  set_defaults, with_effort, apply_request_defaults, kwargs_with, place_effort, forward_mapped,
  mapped_effort, unsupported, apply_effort, apply_requested, apply_reasoning, sent_model,
  prepare_passthrough_payload,
}

abbrev pub or_else : Option Value → Option Value → Option Value
or_else none b = b
or_else (some v) b = some v

get-set_default :
    (j k : String) (v : Value) (d : Fields)
    → get_field j (set_default k v d) ≡ or_else (get_field j d) (if k == j then some v else none)
unfolding set_default
get-set_default j k v d = elim (Option-cases (get_field k d)) [
  | inl absent ↦
      rw (absent, set_default) (ground (arith, get-put_field k j v d, eq_iff k j, absent))
  | inr (w, there) ↦ rw (there, set_default) (ground (arith, eq_iff k j, there))
]

get-set_defaults :
    (j : String) (defaults payload : Fields)
    → get_field j (set_defaults defaults payload)
      ≡ or_else (get_field j payload) (get_field j defaults)
unfolding set_defaults get_field
get-set_defaults j end payload = ground arith
get-set_defaults j (field k v fs) payload =
    ground (arith, get-set_defaults j fs (set_default k v payload), get-set_default j k v payload)

get-pop_field : (j k : String) (d : Fields) → k ≢ j → get_field j (pop_field k d) ≡ get_field j d
unfolding get_field pop_field
get-pop_field j k end other = refl
get-pop_field j k (field i v fs) other =
    ground (arith, get-pop_field j k fs, eq_iff i k, eq_iff i j, other)

-- The keys that the reasoning control may write for a model.
abbrev pub IsOther : Option ReasoningFeature → String → Type 0
IsOther none j = Unit
IsOther (some feature) j = (feature.request_field ≢ j) × ("chat_template_kwargs" ≢ j)

place_effort-other :
    (transport : Transport) (name : String) (mapped : Value) (payload out : Fields) (j : String)
    → name ≢ j
    → "chat_template_kwargs" ≢ j
    → place_effort transport name mapped payload ≡ ok out
    → get_field j out ≡ get_field j payload
unfolding place_effort
place_effort-other body name mapped payload out j other no_kwargs h =
    ground (arith, h, get-put_field name j mapped payload, eq_iff name j)
place_effort-other chat_template_kwargs name mapped payload out j other no_kwargs h =
    let (kwargs, made, last) =
      and_then-Ran (kwargs_with name mapped (get_field "chat_template_kwargs" payload)) _ out h in
    ground (
      arith,
      last,
      get-put_field "chat_template_kwargs" j (obj kwargs) payload,
      eq_iff "chat_template_kwargs" j,
    )

module _ (j : String) (payload out : Fields) where
  forward_mapped-other :
      (feature : ReasoningFeature) (mapped : Value)
      → IsOther (some feature) j
      → forward_mapped feature mapped payload ≡ ok out
      → get_field j out ≡ get_field j payload
  unfolding forward_mapped
  forward_mapped-other f null o h = ground (arith, h)
  forward_mapped-other f (boolean false) o h = ground (arith, h)
  forward_mapped-other f (boolean true) o h = place_effort-other _ _ _ payload out j o.0 o.1 h
  forward_mapped-other f (int n) o h = place_effort-other _ _ _ payload out j o.0 o.1 h
  forward_mapped-other f (float x) o h = place_effort-other _ _ _ payload out j o.0 o.1 h
  forward_mapped-other f (str t) o h = place_effort-other _ _ _ payload out j o.0 o.1 h
  forward_mapped-other f (arr t) o h = place_effort-other _ _ _ payload out j o.0 o.1 h
  forward_mapped-other f (obj t) o h = place_effort-other _ _ _ payload out j o.0 o.1 h

  unsupported-other :
      (policy : UnsupportedPolicy) → unsupported policy payload ≡ ok out → out ≡ payload
  unsupported-other ignore h = ground (arith, h)
  unsupported-other reject h = absurd (ground (arith, h))

  apply_effort-other :
      (feature : Option ReasoningFeature) (effort : String)
      → IsOther feature j
      → apply_effort feature effort payload ≡ ok out
      → get_field j out ≡ get_field j payload
  unfolding apply_effort
  apply_effort-other none effort o h = ap (get_field j) (unsupported-other ignore h)
  apply_effort-other (some f) effort o h = elim (Bool-cases f.supported) [
    | inr not_supported ↦
        ap (get_field j) (unsupported-other f.unsupported_policy (rw not_supported at h))
    | inl supported ↦ elim (Option-cases (mapped_effort f.values effort)) [
      | inl refused ↦ absurd (ground (arith, rw (supported, refused) at h))
      | inr (mapped, found) ↦ forward_mapped-other f mapped o (rw (supported, found) at h)
    ]
  ]

  apply_requested-other :
      (feature : Option ReasoningFeature) (requested : Option Value)
      → IsOther feature j
      → apply_requested feature requested payload ≡ ok out
      → get_field j out ≡ get_field j payload
  unfolding apply_requested
  apply_requested-other f none o h = ground (arith, h)
  apply_requested-other f (some null) o h = ground (arith, h)
  apply_requested-other f (some (boolean b)) o h = absurd (ground (arith, h))
  apply_requested-other f (some (int n)) o h = absurd (ground (arith, h))
  apply_requested-other f (some (float x)) o h = absurd (ground (arith, h))
  apply_requested-other f (some (arr xs)) o h = absurd (ground (arith, h))
  apply_requested-other f (some (obj fs)) o h = absurd (ground (arith, h))
  apply_requested-other f (some (str effort)) o h = elim (Bool-cases (is_empty effort)) [
    | inl blank ↦ absurd (ground (arith, rw blank at h))
    | inr given ↦ apply_effort-other f effort o (rw given at h)
  ]

get-with_effort :
    (j : String) (o : Option String) (payload : Fields)
    → "reasoning_effort" ≢ j
    → get_field j (with_effort o payload) ≡ get_field j payload
unfolding with_effort
get-with_effort j none payload other = refl
get-with_effort j (some effort) payload other =
    ground (
      arith,
      get-set_default j "reasoning_effort" (str effort) payload,
      eq_iff "reasoning_effort" j,
    )

get-apply_request_defaults :
    (j : String) (raw : Fields) (r : ResolvedProfile)
    → "reasoning_effort" ≢ j
    → get_field j (apply_request_defaults raw r)
      ≡ or_else
          (or_else (get_field j raw) (get_field j r.profile.defaults))
          (get_field j r.model.defaults)
unfolding apply_request_defaults
get-apply_request_defaults j raw r other =
    let first = with_effort r.profile.reasoning_effort raw in
    ground (
      arith,
      get-with_effort j r.profile.reasoning_effort raw other,
      get-set_defaults j r.profile.defaults first,
      get-set_defaults j r.model.defaults (set_defaults r.profile.defaults first),
    )

-- A prepared request is sent with the model name of the resolved model, and, under every key that
-- is neither that nor one of the reasoning control, with the value of the request, or else the
-- experience default, or else the model default, or none.
pub prepare_passthrough_payload-get :
    (raw out : Fields) (r : ResolvedProfile) (override : Option String) (j : String)
    → "model" ≢ j
    → "reasoning_effort" ≢ j
    → IsOther r.model.reasoning j
    → prepare_passthrough_payload raw r override ≡ ok out
    → (get_field "model" out ≡ some (str (sent_model r)))
      × (get_field j out
          ≡ or_else
              (or_else (get_field j raw) (get_field j r.profile.defaults))
              (get_field j r.model.defaults))
unfolding prepare_passthrough_payload apply_reasoning
prepare_passthrough_payload-get raw out r override j no_model no_effort other h =
    let defaulted = apply_request_defaults raw r in
    let (payload, ran, last) = and_then-Ran (apply_reasoning defaulted r override) _ out h in
    let kept =
      apply_requested-other j (pop_field "reasoning_effort" defaulted) payload r.model.reasoning _
        other ran in
    let sent : put_field "model" (str (sent_model r)) payload ≡ out = ground (arith, last) in
    (
      ap (get_field "model") (sym sent)
          ∙ (get-put_field "model" "model" (str (sent_model r)) payload),
      ap (get_field j) (sym sent)
          ∙ get-put_other "model" j (str (sent_model r)) payload no_model
          ∙ kept
          ∙ get-pop_field j "reasoning_effort" defaulted no_effort
          ∙ get-apply_request_defaults j raw r no_effort,
    )
