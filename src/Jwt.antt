-- ===== src/Jwt.antt =====
-- The signed tokens of services/gateway/src/local_ai_hub/identity.py: `decode_hs256_jwt` and the
-- subject of its claims.
pub mod Acceptance
use agent_ui.Prelude.{
  ℕ, zero, suc, ◌+◌, ◌-◌, ◌%◌, String, Bool, true, false, ◌&&◌, ◌||◌, not, List, [], ◌∷◌, Option,
  none, some, Result, ok, raise, and_then, case_option, leb, nat_beq, ◌==◌, string_eq,
  if◌then◌else◌, contains,
}
use agent_ui.Prelude.Text.{is_empty, strip, text_length, text_starts, join_two, codes}
use agent_ui.Prelude.Json.{
  Value, Fields, Float, nan, plus_inf, minus_inf, finite, null, str, arr, obj, end, field,
  get_field, leb_ℤ,
}
use agent_ui.Host.{Host}
use agent_ui.MemoryConfig.{IdentityConfig}
use agent_ui.Provider.{Error, identity_error, other_error}
use agent_ui.Service.Candidates.{Converted, to_float, overflow_message, value, refused, overflowed}
use Prim.Native.Char.{code}

-- Bytes are texts here. The codecs of the Python library, with `none` for an exception.
pub record Codec : Type 0 where
  -- `base64.urlsafe_b64decode`
  pub decode_base64 : String → Option String
  -- `json.loads`
  pub loads : String → Option Value
  -- `hmac.new(secret, message, sha256).digest()`
  pub digest : String → String → String

abbrev pub float_leb : Float → Float → Bool
float_leb nan b = false
float_leb minus_inf nan = false
float_leb minus_inf b = true
float_leb (finite a) nan = false
float_leb (finite a) plus_inf = true
float_leb (finite a) minus_inf = false
float_leb (finite a) (finite b) = leb_ℤ a b
float_leb plus_inf plus_inf = true
float_leb plus_inf b = false

abbrev pub float_ltb : Float → Float → Bool
float_ltb a b = float_leb a b && not (float_leb b a)

-- `s.split(".")`
unfoldable pub split_dots : String → List String
split_dots String.[] = "" ∷ []
split_dots (String.◌∷◌ c s) =
    let rest = split_dots s in if nat_beq (code c) b'.' then "" ∷ rest else onto c rest
  where
    onto : Prim.Native.Char.Char → List String → List String
    onto c [] = String.◌∷◌ c String.[] ∷ []
    onto c (w ∷ ws) = String.◌∷◌ c w ∷ ws

-- `"=" * (-len(value) % 4)`
abbrev padding : ℕ → String
padding n =
    if nat_beq n 1 then "===" else if nat_beq n 2 then "==" else if nat_beq n 3 then "=" else ""

unfoldable pub decode_segment : Codec → String → Result Error String
decode_segment k s =
    case_option (k.decode_base64 (join_two s (padding (text_length s % 4))))
      (raise (identity_error "invalid JWT encoding")) (λ b. ok b)

unfoldable pub load_segment : Codec → String → Result Error Value
unfolding decode_segment
load_segment k s =
    and_then (decode_segment k s)
      λ b. case_option (k.loads b) (raise (identity_error "invalid JWT payload")) (λ v. ok v)

abbrev pub is_hs256 : Value → Bool
is_hs256 (obj fs) = elim (get_field "alg" fs) [ some (str a) ↦ a == "HS256" | _ ↦ false ]
is_hs256 _ = false

abbrev as_claims : Value → Result Error Fields
as_claims (obj fs) = ok fs
as_claims _ = raise (identity_error "invalid JWT claims")

abbrev time_of : Converted → Result Error (Option Float)
time_of (value x) = ok (some x)
time_of refused = raise (identity_error "invalid JWT time claim")
time_of overflowed = raise (other_error overflow_message)

-- `float(payload[name]) if name in payload else None`
unfoldable pub time_claim : Host → String → Fields → Result Error (Option Float)
unfolding to_float
time_claim h name claims =
    case_option (get_field name claims) (ok none) (λ v. time_of (to_float h v))

abbrev pub is_past : Float → Option Float → Bool
is_past now none = false
is_past now (some t) = float_leb t now

abbrev pub is_future : Float → Option Float → Bool
is_future now none = false
is_future now (some t) = float_ltb now t

abbrev pub guard : {A : Type 0} → Bool → String → Result Error A → Result Error A
guard true message r = r
guard false message r = raise (identity_error message)

-- The checks of the three parts of a token.
unfoldable pub check_parts :
    Host → Codec → Float → String → String → String → String → Result Error Fields
unfolding load_segment time_claim
check_parts h k now secret header payload signature = and_then (load_segment k header) λ head.
    and_then (load_segment k payload) λ body. guard (is_hs256 head) "JWT must use HS256" (
      and_then (as_claims body) λ claims. and_then (decode_segment k signature) λ supplied.
        guard (supplied == k.digest secret (join_two header (join_two "." payload)))
          "invalid JWT signature"
          (and_then (time_claim h "exp" claims) λ expires.
            and_then (time_claim h "nbf" claims) λ not_before.
              guard (not (is_past now expires)) "JWT has expired"
                (guard (not (is_future now not_before)) "JWT is not active" (ok claims))))

unfoldable pub decode_hs256_jwt : Host → Codec → Float → String → String → Result Error Fields
unfolding check_parts split_dots
decode_hs256_jwt h k now token secret =
    guard (not (is_empty secret)) "signed identity is not configured" (elim (split_dots token) [
      | header ∷ payload ∷ signature ∷ [] ↦ check_parts h k now secret header payload signature
      | _ ↦ raise (identity_error "invalid JWT")
    ])

-- A claim that is a text with more than spaces in it.
abbrev subject_of : Option Value → Option String
subject_of (some (str s)) = if is_empty (strip s) then none else some (strip s)
subject_of _ = none

-- The loop of `_principal_claim`, and the error behind it.
unfoldable pub claim_loop : Fields → List String → Result Error String
claim_loop claims [] = raise (identity_error "signed identity has no subject claim")
claim_loop claims (name ∷ names) =
    let rest = claim_loop claims names in
    case_option (subject_of (get_field name claims)) rest (λ s. ok s)

unfoldable pub principal_claim : Fields → Result Error String
unfolding claim_loop
principal_claim claims = claim_loop claims ("sub" ∷ "id" ∷ "user_id" ∷ [])
