-- ===== src/Catalog.antt =====
-- The catalog of services/gateway/src/local_ai_hub/config.py, as it is after validation. Fields
-- that no function of the development reads are left out.
pub mod References
use agent_ui.Prelude.{
  String, Bool, true, false, ◌&&◌, not, List, Option, none, some, Result, ok, raise, case_option,
  if◌then◌else◌,
}
use agent_ui.Prelude.Dict.{Dict}
use agent_ui.Prelude.Text.{is_empty}
use agent_ui.Prelude.Json.{Fields, ℤ, null, boolean, get_field}

pub data BackendKind : Type 0 where
  llama_cpp openai_compatible comfyui : BackendKind

pub data CoordinatorMode : Type 0 where
  explicit autoload off : CoordinatorMode

pub record Backend : Type 0 where
  pub kind : BackendKind
  pub enabled : Bool
  pub base_url : Option String
  pub base_url_env : Option String
  pub api_key_env : Option String
  pub coordinator : CoordinatorMode
  pub serialize_requests : Bool
  pub options : Fields

pub data Transport : Type 0 where
  body chat_template_kwargs : Transport

pub data UnsupportedPolicy : Type 0 where
  ignore reject : UnsupportedPolicy

pub record ReasoningFeature : Type 0 where
  pub supported : Bool
  pub request_field : String
  pub transport : Transport
  pub values : Fields
  pub unsupported_policy : UnsupportedPolicy

pub record ModelSpec : Type 0 where
  pub display_name : String
  pub enabled : Bool
  pub backend : String
  pub upstream_model : Option String
  pub capabilities : Fields
  pub reasoning : Option ReasoningFeature
  pub defaults : Fields
  pub priority : ℤ
  pub metadata : Fields

-- `has_capability`
unfoldable pub has_capability : ModelSpec → String → Bool
unfolding get_field
has_capability model capability = elim (get_field capability model.capabilities) [
  | none ↦ false
  | some null ↦ false
  | some (boolean b) ↦ b
  | some _ ↦ true
]

pub record Profile : Type 0 where
  pub advertised : Bool
  -- `route: auto`
  pub is_auto : Bool
  pub backend_model : Option String
  pub model : Option String
  pub capability : Option String
  pub reasoning_effort : Option String
  pub system_prompt : Option String
  pub defaults : Fields
  pub namespaces : List String

-- A text that is given and not empty.
abbrev pub truthy_text : Option String → Option String
truthy_text none = none
truthy_text (some t) = if is_empty t then none else some t

abbrev pub is_given : Option String → Bool
is_given o = case_option (truthy_text o) false (λ _. true)

-- The three rules of `normalize_target`.
pub data ProfileError : Type 0 where
  automatic_with_model no_target : ProfileError

unfoldable pub normalize_target : Profile → Result ProfileError Profile
normalize_target p =
    let named =
      if is_given p.model && not (is_given p.backend_model)
      then record p { backend_model = p.model }
      else p in
    if p.is_auto
    then case_option named.backend_model (ok named) (λ _. raise automatic_with_model)
    else if not (is_given named.backend_model) && not (is_given named.capability)
    then raise no_target
    else ok named

pub record ProfileDocument : Type 0 where
  pub backends : Dict String Backend
  pub models : Dict String ModelSpec
  pub profiles : Dict String Profile
