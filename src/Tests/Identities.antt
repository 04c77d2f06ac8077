-- ===== src/Tests/Identities.antt =====
-- The theorems on identity, for a codec that knows one token.
use agent_ui.Prelude.{
  String, false, ◌&&◌, Option, none, some, ◌≡◌, refl, ok, string_eq, ◌==◌, if◌then◌else◌,
}
use agent_ui.Prelude.Text.{strip, is_space}
use agent_ui.Prelude.Json.{Value, Fields, str, obj, end, field, float_zero, get_field}
use agent_ui.Jwt.{Codec, decode_hs256_jwt}
use agent_ui.Identity.{
  IdentitySettings, Request, PrincipalContext, forwarded_jwt, user_context, authenticate_request,
}
use agent_ui.Jwt.Acceptance.{IsAccepted, decode_hs256_jwt-IsAccepted}
use agent_ui.Identity.Sources.{IsBacked, authenticate_request-IsBacked}
use agent_ui.Tests.Demo.{machine, config}

abbrev key : String
key = "0123456789abcdef0123456789abcdef"

abbrev token : String
token = "head.body.sign"

abbrev claims : Fields
claims = field "sub" (str "alice") end

abbrev read : String → Option Value
read s =
    if s == "head"
    then some (obj (field "alg" (str "HS256") end))
    else if s == "body"
    then some (obj claims)
    else none

abbrev codec : Codec
codec = record {
  decode_base64 = λ s. some s;
  loads = λ s. read s;
  digest = λ secret message. if secret == key && message == "head.body" then "sign" else "other";
}

abbrev settings : IdentitySettings
settings = record {
  principal_api_keys_json = "";
  gateway_api_key = "gate";
  default_user_id = "local";
}

abbrev sent : String → Option String
sent name =
    if name == "Authorization"
    then some "Bearer gate"
    else if name == "header"
    then some token
    else none

abbrev request : Request
request = record {
  header = λ name. sent name;
  cookie = λ name. none;
  client_host = some "10.0.0.1";
}

decoded_run : decode_hs256_jwt machine codec float_zero token key ≡ ok claims
unfolding decode_hs256_jwt get_field
decoded_run = refl

decode_hs256_jwt-IsAccepted_example : IsAccepted machine codec float_zero key token claims
decode_hs256_jwt-IsAccepted_example =
    decode_hs256_jwt-IsAccepted machine codec float_zero key token claims decoded_run

abbrev alice : PrincipalContext
alice = user_context "alice" forwarded_jwt false

authenticated_run :
    authenticate_request machine codec float_zero settings config.identity request false ≡ ok alice
unfolding authenticate_request strip get_field is_space
authenticated_run = refl

authenticate_request-IsBacked_example :
    IsBacked machine codec float_zero settings config.identity request false alice
authenticate_request-IsBacked_example =
    authenticate_request-IsBacked machine codec float_zero settings config.identity request false
      alice authenticated_run
