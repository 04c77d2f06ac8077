-- ===== src/Identity/Sources.antt =====
-- What stands behind an identity.
use agent_ui.Prelude.{
  String, Bool, true, false, ◌&&◌, List, [], ◌∷◌, some, ◌≡◌, arith, ok, string_eq, eq_iff, ◌==◌,
  find, Bool-cases, Option-cases, inl, inr,
}
use agent_ui.Prelude.Bind.{and_then-Ran}
use agent_ui.Prelude.Text.{is_empty}
use agent_ui.Prelude.Json.{Fields, Float}
use agent_ui.Host.{Host}
use agent_ui.MemoryConfig.{IdentityConfig}
use agent_ui.Jwt.{Codec, principal_claim}
use agent_ui.Identity.{
  IdentitySettings, Request, PrincipalContext, KeyBinding, Source, forwarded_jwt, browser_cookie,
  api_key, legacy_loopback, user_context, compare_digest, is_ascii, key_loop, bearer_of,
  is_loopback, present, or_present, signed, unsigned, secret_in, cookie_of, by_headers,
  gateway_test, parse_principal_key_map, authenticate_request,
}
use agent_ui.Jwt.Acceptance.{IsAccepted, guard-Ran, decode_hs256_jwt-IsAccepted}

compare_digest-lem : (a b : String) → compare_digest a b ≡ ok true → a ≡ b
unfolding compare_digest
compare_digest-lem a b h = elim (Bool-cases (is_ascii a && is_ascii b)) [
  | inl plain ↦ (eq_iff a b).0 (ground (arith, rw plain at h))
  | inr other ↦ absurd (ground (arith, rw other at h))
]

compare_digest-false : (a b : String) → compare_digest a b ≡ ok false → (b == a) ≡ false
unfolding compare_digest
compare_digest-false a b h = elim (Bool-cases (is_ascii a && is_ascii b)) [
  | inl plain ↦ ground (arith, rw plain at h, eq_iff a b, eq_iff b a)
  | inr other ↦ absurd (ground (arith, rw other at h))
]

key_loop-lem :
    (bearer : String) (bs : List KeyBinding) (b : KeyBinding)
    → key_loop bearer bs ≡ ok (some b)
    → (is_empty bearer ≡ false) × (find (λ x. x.token == bearer) bs ≡ some b)
unfolding key_loop find
key_loop-lem bearer [] b h = absurd (ground arith)
key_loop-lem bearer (x ∷ bs) b h = elim (Bool-cases (is_empty bearer)) [
  | inl blank ↦ absurd (ground (arith, blank, key_loop-lem bearer bs b (rw blank at h)))
  | inr given ↦
      let (same, compared, rest) =
        and_then-Ran (compare_digest bearer x.token) _ (some b) (rw given at h) in
      elim (Bool-cases same) [
        | inl matches ↦
            let equal : bearer ≡ x.token =
              compare_digest-lem bearer x.token (rw matches at compared) in
            (given, ground (arith, rw matches at rest, eq_iff x.token bearer, equal))
        | inr differs ↦ (
          given,
          ground (
            arith,
            compare_digest-false bearer x.token (rw differs at compared),
            key_loop-lem bearer bs b (rw differs at rest),
          ),
        )
      ]
]

module _ (h : Host) (k : Codec) (now : Float) (settings : IdentitySettings)
    (config : IdentityConfig) (r : Request) (allow : Bool) where
  -- The request carries the gateway's key, which is not empty.
  pub record IsGateway : Type 0 where
    pub given : is_empty (bearer_of r) ≡ false
    pub matches : bearer_of r ≡ settings.gateway_api_key

  -- The claims of a token that is accepted name the principal.
  pub record IsNamed (token secret name : String) : Type 0 where
    pub claims : Fields
    pub accepted : IsAccepted h k now secret token claims
    pub named : principal_claim claims ≡ ok name

  -- The evidence for an identity.
  pub data IsBacked (p : PrincipalContext) : Type 0 where
    by_key :
        (bs : List KeyBinding) (b : KeyBinding)
        → parse_principal_key_map k settings ≡ ok bs
        → is_empty (bearer_of r) ≡ false
        → find (λ x. x.token == bearer_of r) bs ≡ some b
        → p ≡ (record {
          principal_id = b.principal;
          source = api_key;
          kind = b.kind;
          cookie_authenticated = false;
        })
        → IsBacked p
    by_gateway : IsGateway → p ≡ user_context settings.default_user_id api_key false → IsBacked p
    by_forwarded :
        (token name : String)
        → IsGateway
        → present (r.header config.forwarded_jwt_header) ≡ some token
        → IsNamed token (secret_in h config.forwarded_jwt_secret_env) name
        → p ≡ user_context name forwarded_jwt false
        → IsBacked p
    by_cookie :
        (token name : String)
        → cookie_of config r allow ≡ some token
        → IsNamed token (secret_in h config.browser_cookie_secret_env) name
        → p ≡ user_context name browser_cookie true
        → IsBacked p
    by_legacy :
        (name : String)
        → IsGateway
        → config.allow_legacy_loopback_headers ≡ true
        → is_loopback r ≡ true
        → or_present (r.header "X-Agent-UI-User") (r.header "X-Local-AI-User") ≡ some name
        → p ≡ user_context name legacy_loopback false
        → IsBacked p

  signed-IsNamed :
      (token secret : String) (source : Source) (cookie : Bool) (p : PrincipalContext)
      → signed h k now token secret source cookie ≡ ok p
      → (name : String) × IsNamed token secret name × (p ≡ user_context name source cookie)
  unfolding signed
  signed-IsNamed token secret source cookie p ran =
      let (claims, decoded, rest) = and_then-Ran _ _ p ran in
      let (name, named, last) = and_then-Ran (principal_claim claims) _ p rest in
      (
        name,
        record {
          claims = claims;
          accepted = decode_hs256_jwt-IsAccepted h k now secret token claims decoded;
          named = named;
        },
        ground (arith, last),
      )

  unsigned-IsBacked :
      (gateway : Bool) (p : PrincipalContext)
      → (gateway ≡ true → IsGateway)
      → unsigned settings config r gateway ≡ ok p
      → IsBacked p
  unfolding unsigned
  unsigned-IsBacked gateway p known ran =
      elim (Option-cases (or_present (r.header "X-Agent-UI-User") (r.header "X-Local-AI-User"))) [
        | inl nobody ↦
            let (yes_gateway, last) = guard-Ran gateway _ _ p (rw nobody at ran) in
            by_gateway (known yes_gateway) (ground (arith, last))
        | inr (user, named) ↦
            let (yes_gateway, rest) = guard-Ran gateway _ _ p (rw named at ran) in
            let (local, last) =
              guard-Ran (config.allow_legacy_loopback_headers && is_loopback r) _ _ p rest in
            by_legacy user (known yes_gateway) (ground (arith, local)) (ground (arith, local)) named
              (ground (arith, last))
      ]

  by_headers-IsBacked :
      (gateway : Bool) (p : PrincipalContext)
      → (gateway ≡ true → IsGateway)
      → by_headers h k now settings config r allow gateway ≡ ok p
      → IsBacked p
  unfolding by_headers
  by_headers-IsBacked gateway p known ran =
      elim (Option-cases (present (r.header config.forwarded_jwt_header))) [
        | inr (token, there) ↦
            let (yes_gateway, rest) = guard-Ran gateway _ _ p (rw there at ran) in
            let (name, named, same) = signed-IsNamed token _ forwarded_jwt false p rest in
            by_forwarded token name (known yes_gateway) there named same
        | inl absent ↦ elim (Option-cases (cookie_of config r allow)) [
          | inr (token, there) ↦
              let (name, named, same) =
                signed-IsNamed token _ browser_cookie true p (rw (absent, there) at ran) in
              by_cookie token name there named same
          | inl no_cookie ↦ unsigned-IsBacked gateway p known (rw (absent, no_cookie) at ran)
        ]
      ]

  gateway_test-IsGateway : gateway_test settings (bearer_of r) ≡ ok true → IsGateway
  unfolding gateway_test
  gateway_test-IsGateway ran = elim (Bool-cases (is_empty (bearer_of r))) [
    | inl blank ↦ absurd (ground (arith, rw blank at ran))
    | inr given ↦ record {
      given = given;
      matches = compare_digest-lem (bearer_of r) settings.gateway_api_key (rw given at ran);
    }
  ]

  -- An identity that `authenticate_request` returns is backed: by the first configured key that is
  -- the bearer; by the gateway key, for the default user; by an accepted token that came with the
  -- gateway key, or in a cookie where cookies are allowed; or, with the gateway key, by a user
  -- header from the machine itself where that is enabled.
  pub authenticate_request-IsBacked :
      (p : PrincipalContext)
      → authenticate_request h k now settings config r allow ≡ ok p
      → IsBacked p
  unfolding authenticate_request
  authenticate_request-IsBacked p ran =
      let (bs, parsed, r1) = and_then-Ran (parse_principal_key_map k settings) _ p ran in
      let (matched, looped, r2) = and_then-Ran (key_loop (bearer_of r) bs) _ p r1 in
      elim (Option-cases matched) [
        | inr (b, one) ↦
            let (given, first) = key_loop-lem (bearer_of r) bs b (rw one at looped) in
            by_key bs b parsed given first (ground (arith, rw one at r2))
        | inl nobody ↦
            let (gateway, tested, r3) =
              and_then-Ran (gateway_test settings (bearer_of r)) _ p (rw nobody at r2) in
            by_headers-IsBacked gateway p
              (λ yes_gateway. gateway_test-IsGateway (rw yes_gateway at tested)) r3
      ]
