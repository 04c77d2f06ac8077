-- ===== src/Transform.antt =====
-- The defaults and the reasoning controls of services/gateway/src/local_ai_hub/transform.py. An
-- `InvalidChatRequest` is its text, without the names and values in it.
pub mod Chat
pub mod Messages
pub mod Precedence
pub mod Sent
use agent_ui.Prelude.{
  String, Bool, true, false, ◌||◌, not, Option, none, some, Result, ok, raise, and_then,
  case_option, if◌then◌else◌,
}
use agent_ui.Prelude.Text.{is_empty}
use agent_ui.Prelude.Json.{
  Value, Fields, null, boolean, str, obj, end, field, get_field, put_field, pop_field, set_default,
}
use agent_ui.Catalog.{
  Transport, body, chat_template_kwargs, UnsupportedPolicy, ignore, reject, ReasoningFeature,
  truthy_text,
}
use agent_ui.Profiles.{ResolvedProfile}

-- `for key, value in defaults.items(): payload.setdefault(key, deepcopy(value))`
unfoldable pub set_defaults : Fields → Fields → Fields
unfolding set_default
set_defaults end payload = payload
set_defaults (field k v fs) payload = set_defaults fs (set_default k v payload)

unfoldable pub with_effort : Option String → Fields → Fields
unfolding set_default
with_effort none payload = payload
with_effort (some effort) payload = set_default "reasoning_effort" (str effort) payload

unfoldable pub apply_request_defaults : Fields → ResolvedProfile → Fields
unfolding set_defaults with_effort
apply_request_defaults payload r =
    set_defaults r.model.defaults
      (set_defaults r.profile.defaults (with_effort r.profile.reasoning_effort payload))

-- `kwargs[feature.request_field] = mapped`, for the dictionary that is there or a new one
abbrev pub kwargs_with : String → Value → Option Value → Result String Fields
kwargs_with name mapped none = ok (field name mapped end)
kwargs_with name mapped (some (obj kwargs)) = ok (put_field name mapped kwargs)
kwargs_with name mapped (some _) = raise "chat_template_kwargs must be an object"

-- The place of the mapped effort.
unfoldable pub place_effort : Transport → String → Value → Fields → Result String Fields
unfolding get_field put_field
place_effort body name mapped payload = ok (put_field name mapped payload)
place_effort chat_template_kwargs name mapped payload =
    and_then (kwargs_with name mapped (get_field "chat_template_kwargs" payload))
      λ kwargs. ok (put_field "chat_template_kwargs" (obj kwargs) payload)

unfoldable pub forward_mapped : ReasoningFeature → Value → Fields → Result String Fields
unfolding place_effort
forward_mapped feature null payload = ok payload
forward_mapped feature (boolean false) payload = ok payload
forward_mapped feature mapped payload =
    place_effort feature.transport feature.request_field mapped payload

abbrev pub mapped_effort : Fields → String → Option Value
mapped_effort end effort = some (str effort)
mapped_effort values effort = get_field effort values

abbrev pub unsupported : UnsupportedPolicy → Fields → Result String Fields
unsupported reject payload = raise "model does not support reasoning effort"
unsupported ignore payload = ok payload

unfoldable pub apply_effort : Option ReasoningFeature → String → Fields → Result String Fields
unfolding forward_mapped
apply_effort none effort payload = unsupported ignore payload
apply_effort (some feature) effort payload =
    if feature.supported
    then case_option (mapped_effort feature.values effort) (raise "unsupported reasoning effort")
        (λ mapped. forward_mapped feature mapped payload)
    else unsupported feature.unsupported_policy payload

-- `payload` is without the requested effort.
unfoldable pub apply_requested :
    Option ReasoningFeature → Option Value → Fields → Result String Fields
unfolding apply_effort
apply_requested feature none payload = ok payload
apply_requested feature (some null) payload = ok payload
apply_requested feature (some (str effort)) payload =
    if is_empty effort
    then raise "reasoning effort must be a non-empty string"
    else apply_effort feature effort payload
apply_requested feature (some _) payload = raise "reasoning effort must be a non-empty string"

-- `_apply_reasoning`
unfoldable pub apply_reasoning : Fields → ResolvedProfile → Option String → Result String Fields
unfolding apply_requested get_field pop_field
apply_reasoning payload r override =
    apply_requested r.model.reasoning
      (case_option override (get_field "reasoning_effort" payload) (λ effort. some (str effort)))
      (pop_field "reasoning_effort" payload)

-- `resolved.model.upstream_model or resolved.backend_model`
abbrev pub sent_model : ResolvedProfile → String
sent_model r = case_option (truthy_text r.model.upstream_model) r.backend_model (λ m. m)

unfoldable pub prepare_passthrough_payload :
    Fields → ResolvedProfile → Option String → Result String Fields
unfolding apply_request_defaults apply_reasoning put_field
prepare_passthrough_payload raw r override =
    and_then (apply_reasoning (apply_request_defaults raw r) r override)
      λ payload. ok (put_field "model" (str (sent_model r)) payload)
