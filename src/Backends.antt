-- ===== src/Backends.antt =====
-- services/gateway/src/local_ai_hub/backends.py: the registry of backends, and the URL of a call. An
-- HTTP client is kept as the headers it sends.
pub mod Answers
pub mod Registry
use agent_ui.Prelude.{
  String, Bool, true, false, ◌&&◌, not, List, [], ◌∷◌, Option, none, some, Result, ok, raise,
  case_option, if◌then◌else◌, nat_beq, string_eq,
}
use agent_ui.Prelude.Text.{is_empty, join_two, starts_char}
use agent_ui.Prelude.Dict.{Dict, get, put}
use agent_ui.Prelude.Json.{Fields, null, get_field, truthy}
use agent_ui.Host.{Host}
use agent_ui.Catalog.{
  Backend, BackendKind, CoordinatorMode, llama_cpp, openai_compatible, comfyui, explicit, autoload,
  off, truthy_text,
}
use agent_ui.GpuGate.{Gate, new_gate}
use Prim.Native.Char.{code}

-- What `build` reads of the settings.
pub record BackendSettings : Type 0 where
  pub llama_base_url : String
  pub llama_api_key : String
  pub model_coordinator_mode : CoordinatorMode

-- A coordinator has the lock of the gate, where there is one.
pub record CoordinatorHandle : Type 0 where
  pub base_url : String
  pub mode : CoordinatorMode
  pub has_lock : Bool

pub record BackendRuntime : Type 0 where
  pub backend_id : String
  pub spec : Backend
  pub authorization : Option String
  pub base_url : String
  pub coordinator : Option CoordinatorHandle
  pub gate : Option Gate

-- The characters of a text without those at its end that are `c`.
unfoldable pub rstrip_char : Prim.Native.Nat.ℕ → String → String
rstrip_char n String.[] = String.[]
rstrip_char n (String.◌∷◌ c s) =
    let r = rstrip_char n s in
    if is_empty r && nat_beq (code c) n then String.[] else String.◌∷◌ c r

abbrev getenv_or : Host → String → String → String
getenv_or h name s = case_option (h.getenv name) s (λ v. v)

-- `resolved_base_url`
unfoldable pub resolved_base_url : Host → Backend → Option String
resolved_base_url h spec =
    case_option (truthy_text spec.base_url_env) spec.base_url
      λ name. case_option (truthy_text (h.getenv name)) spec.base_url some

-- `resolved_api_key`
unfoldable pub resolved_api_key : Host → Backend → String
resolved_api_key h spec =
    case_option (truthy_text spec.api_key_env) "" (λ name. getenv_or h name "")

abbrev pub is_llama : Backend → Bool
is_llama spec = elim spec.kind [ llama_cpp ↦ true | _ ↦ false ]

abbrev pub coordinates : Backend → Bool
coordinates spec = elim spec.coordinator [ off ↦ false | _ ↦ true ]

-- A legacy llama.cpp backend is that of the settings.
unfoldable pub is_legacy : Backend → Bool
unfolding get_field
is_legacy spec = case_option (get_field "legacy" spec.options) false truthy && is_llama spec

module _ (h : Host) (settings : BackendSettings) where
  unfoldable pub effective : Backend → Backend
  unfolding is_legacy
  effective spec =
      if is_legacy spec then record spec { coordinator = settings.model_coordinator_mode } else spec

  unfoldable pub effective_url : Backend → Option String
  unfolding is_legacy resolved_base_url
  effective_url spec =
      truthy_text
        (if is_legacy spec then some settings.llama_base_url else resolved_base_url h spec)

  unfoldable pub effective_key : Backend → String
  unfolding resolved_api_key
  effective_key spec =
      let own = resolved_api_key h spec in
      if is_llama spec && is_empty own then settings.llama_api_key else own

  -- The runtime of a backend at its URL.
  unfoldable pub runtime_of : String → Backend → String → BackendRuntime
  unfolding effective effective_key rstrip_char
  runtime_of backend_id spec base_url =
      let built = effective spec in
      let key = effective_key spec in
      record {
        backend_id = backend_id;
        spec = built;
        authorization = if is_empty key then none else some (join_two "Bearer " key);
        base_url = base_url;
        coordinator =
            if is_llama built && coordinates built
            then some (record {
              base_url = rstrip_char b'/' base_url;
              mode = built.coordinator;
              has_lock = built.serialize_requests;
            })
            else none;
        gate = if built.serialize_requests then some (new_gate 1) else none;
      }

  -- The runtime of a backend, or the reason why there is none.
  unfoldable pub build_one : String → Backend → Result String BackendRuntime
  unfolding effective_url runtime_of
  build_one backend_id spec =
      if not spec.enabled
      then raise "disabled"
      else case_option (effective_url spec) (raise "base URL is not configured")
          (λ base_url. ok (runtime_of backend_id spec base_url))

  -- `BackendRuntimeRegistry`
  pub record Registered : Type 0 where
    pub runtimes : Dict String BackendRuntime
    pub unavailable : Dict String String

  -- What a round of the loop of `build` adds.
  unfoldable pub add_built : String → Result String BackendRuntime → Registered → Registered
  unfolding put
  add_built backend_id (ok runtime) r = record r { runtimes = put backend_id runtime r.runtimes }
  add_built backend_id (raise reason) r = record r {
    unavailable = put backend_id reason r.unavailable;
  }

  unfoldable pub build_loop : Dict String Backend → Registered → Registered
  unfolding build_one add_built
  build_loop [] r = r
  build_loop ((backend_id, spec) ∷ rest) r =
      build_loop rest (add_built backend_id (build_one backend_id spec) r)

  unfoldable pub build : Dict String Backend → Registered
  unfolding build_loop
  build backends = build_loop backends (record { runtimes = []; unavailable = [] })

  -- `get`, with the reason of the error
  unfoldable pub get_runtime : String → Registered → Result String BackendRuntime
  unfolding get
  get_runtime backend_id r =
      case_option (get backend_id r.runtimes)
        (raise (case_option (get backend_id r.unavailable) "not registered" (λ reason. reason))) ok
