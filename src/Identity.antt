-- ===== src/Identity.antt =====
-- services/gateway/src/local_ai_hub/identity.py: who makes a request.
pub mod Sources
use agent_ui.Prelude.{
  ℕ, zero, suc, ◌+◌, ◌-◌, ◌%◌, String, Bool, true, false, ◌&&◌, ◌||◌, not, List, [], ◌∷◌, Option,
  none, some, Result, ok, raise, and_then, case_option, leb, nat_beq, ◌==◌, string_eq,
  if◌then◌else◌, contains,
}
use agent_ui.Prelude.Text.{is_empty, strip, text_length, text_starts, join_two, codes}
use agent_ui.Prelude.Json.{
  Value, Fields, Float, nan, plus_inf, minus_inf, finite, null, str, arr, obj, end, field,
  get_field, leb_ℤ,
}
use agent_ui.Host.{Host}
use agent_ui.MemoryConfig.{IdentityConfig}
use agent_ui.Provider.{Error, identity_error, other_error}
use agent_ui.Service.Candidates.{Converted, to_float, overflow_message, value, refused, overflowed}
use Prim.Native.Char.{code}
use agent_ui.Jwt.{Codec, guard, decode_hs256_jwt, principal_claim}

pub record KeyBinding : Type 0 where
  pub token : String
  pub principal : String
  pub kind : String

abbrev binding_error : Error
binding_error = identity_error "invalid principal API key binding"

-- The test of one binding; a kind that cannot be hashed makes the set test raise.
unfoldable pub check_binding : String → Option Value → Value → Result Error KeyBinding
check_binding token (some (str p)) (str kind) =
    if is_empty p || not (contains kind ("user" ∷ "service" ∷ []))
    then raise binding_error
    else ok (record { token = token; principal = p; kind = kind })
check_binding token (some (str p)) (arr xs) =
    if is_empty p then raise binding_error else raise (other_error "TypeError")
check_binding token (some (str p)) (obj fs) =
    if is_empty p then raise binding_error else raise (other_error "TypeError")
check_binding token _ kind = raise binding_error

unfoldable pub parse_binding : String → Value → Result Error KeyBinding
unfolding check_binding
parse_binding token v =
    guard (not (is_empty token)) "principal API key entries require non-empty tokens" (elim v [
      | str s ↦ check_binding token (some (str s)) (str "user")
      | obj fs ↦
          check_binding token (get_field "principal" fs)
            (case_option (get_field "kind" fs) (str "user") (λ k. k))
      | _ ↦ raise (identity_error "principal API key bindings must be strings or objects")
    ])

unfoldable pub parse_bindings : Fields → Result Error (List KeyBinding)
unfolding parse_binding
parse_bindings end = ok []
parse_bindings (field token v fs) =
    and_then (parse_binding token v) λ b. and_then (parse_bindings fs) λ bs. ok (b ∷ bs)

pub record IdentitySettings : Type 0 where
  pub principal_api_keys_json : String
  pub gateway_api_key : String
  pub default_user_id : String

unfoldable pub parse_principal_key_map : Codec → IdentitySettings → Result Error (List KeyBinding)
unfolding parse_bindings
parse_principal_key_map k settings =
    let raw = strip settings.principal_api_keys_json in
    if is_empty raw then ok [] else elim (k.loads raw) [
      | none ↦ raise (identity_error "PRINCIPAL_API_KEYS_JSON must be valid JSON")
      | some (obj fs) ↦ parse_bindings fs
      | some _ ↦ raise (identity_error "PRINCIPAL_API_KEYS_JSON must be an object")
    ]

abbrev pub is_ascii : String → Bool
is_ascii String.[] = true
is_ascii (String.◌∷◌ c s) = leb (code c) 127 && is_ascii s

-- `hmac.compare_digest` of two texts
unfoldable pub compare_digest : String → String → Result Error Bool
compare_digest a b =
    if is_ascii a && is_ascii b then ok (a == b) else raise (other_error "TypeError")

pub record Request : Type 0 where
  pub header : String → Option String
  pub cookie : String → Option String
  pub client_host : Option String

pub data Source : Type 0 where
  forwarded_jwt browser_cookie api_key legacy_loopback : Source

pub record PrincipalContext : Type 0 where
  pub principal_id : String
  pub source : Source
  pub kind : String
  pub cookie_authenticated : Bool

abbrev pub user_context : String → Source → Bool → PrincipalContext
user_context p source by_cookie = record {
  principal_id = p;
  source = source;
  kind = "user";
  cookie_authenticated = by_cookie;
}

abbrev drop_text : ℕ → String → String
drop_text zero s = s
drop_text (suc n) String.[] = String.[]
drop_text (suc n) (String.◌∷◌ c s) = drop_text n s

unfoldable pub bearer_of : Request → String
bearer_of r =
    let provided = case_option (r.header "Authorization") "" (λ s. s) in
    if text_starts provided "Bearer " then drop_text 7 provided else ""

abbrev pub is_loopback : Request → Bool
is_loopback r =
    contains (case_option r.client_host "" (λ s. s))
      ("127.0.0.1" ∷ "::1" ∷ "localhost" ∷ "testclient" ∷ [])

-- The loop over the keys: the first one that matches.
unfoldable pub key_loop : String → List KeyBinding → Result Error (Option KeyBinding)
unfolding compare_digest
key_loop bearer [] = ok none
key_loop bearer (b ∷ bs) =
    let rest = key_loop bearer bs in
    if is_empty bearer
    then rest
    else and_then (compare_digest bearer b.token) λ same. if same then ok (some b) else rest

-- A text that is there and not empty.
abbrev pub present : Option String → Option String
present none = none
present (some s) = if is_empty s then none else some s

abbrev pub or_present : Option String → Option String → Option String
or_present a b = case_option (present a) (present b) (λ s. some s)

unfoldable pub signed :
    Host → Codec → Float → String → String → Source → Bool → Result Error PrincipalContext
unfolding decode_hs256_jwt principal_claim
signed h k now token secret source by_cookie =
    and_then (decode_hs256_jwt h k now token secret)
      λ claims. and_then (principal_claim claims) λ p. ok (user_context p source by_cookie)

abbrev pub secret_in : Host → String → String
secret_in h name = case_option (h.getenv name) "" (λ s. s)

-- The part of `authenticate_request` for a request without a forwarded identity or a cookie.
unfoldable pub unsigned :
    IdentitySettings → IdentityConfig → Request → Bool → Result Error PrincipalContext
unsigned settings config r by_gateway =
    case_option (or_present (r.header "X-Agent-UI-User") (r.header "X-Local-AI-User"))
      (guard by_gateway "invalid or missing API key"
        (ok (user_context settings.default_user_id api_key false)))
      (λ user. guard by_gateway "legacy identity requires the gateway API key" (
        guard (config.allow_legacy_loopback_headers && is_loopback r)
          "unsigned user identity headers are disabled"
          (ok (user_context user legacy_loopback false))))

abbrev pub cookie_of : IdentityConfig → Request → Bool → Option String
cookie_of config r allow = if allow then present (r.cookie config.browser_cookie_name) else none

-- The part of `authenticate_request` after the API keys; `by_gateway` is `gateway_authenticated`.
unfoldable pub by_headers :
    Host
    → Codec
    → Float
    → IdentitySettings
    → IdentityConfig
    → Request
    → Bool
    → Bool
    → Result Error PrincipalContext
unfolding signed unsigned
by_headers h k now settings config r allow by_gateway =
    case_option (present (r.header config.forwarded_jwt_header))
      (case_option (cookie_of config r allow) (unsigned settings config r by_gateway) (λ token.
        signed h k now token (secret_in h config.browser_cookie_secret_env) browser_cookie true))
      (λ token.
        guard by_gateway "forwarded identity requires the gateway API key"
          (signed h k now token (secret_in h config.forwarded_jwt_secret_env) forwarded_jwt false))

-- `bool(bearer) and hmac.compare_digest(bearer, gateway_key)`
unfoldable pub gateway_test : IdentitySettings → String → Result Error Bool
unfolding compare_digest
gateway_test settings bearer =
    if is_empty bearer then ok false else compare_digest bearer settings.gateway_api_key

unfoldable pub authenticate_request :
    Host
    → Codec
    → Float
    → IdentitySettings
    → IdentityConfig
    → Request
    → Bool
    → Result Error PrincipalContext
unfolding parse_principal_key_map key_loop by_headers bearer_of gateway_test
authenticate_request h k now settings config r allow =
    and_then (parse_principal_key_map k settings) λ bindings.
      and_then (key_loop (bearer_of r) bindings) λ matched.
        case_option matched
          (and_then (gateway_test settings (bearer_of r))
            λ by_gateway. by_headers h k now settings config r allow by_gateway)
          (λ b. ok (record {
            principal_id = b.principal;
            source = api_key;
            kind = b.kind;
            cookie_authenticated = false;
          }))
