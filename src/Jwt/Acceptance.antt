-- ===== src/Jwt/Acceptance.antt =====
-- What a token that is accepted shows.
use agent_ui.Prelude.{
  String, Bool, true, false, not, List, [], ◌∷◌, Option, ◌≡◌, refl, arith, ok, raise, Result,
  string_eq, eq_iff, ◌==◌, ◌∙◌, ap, subst,
}
use agent_ui.Prelude.Bind.{and_then-Ran}
use agent_ui.Prelude.Text.{is_empty, join_two}
use agent_ui.Prelude.Json.{Value, Fields, Float, null, boolean, int, float, str, arr, obj}
use agent_ui.Host.{Host}
use agent_ui.Provider.{Error, identity_error}
use agent_ui.Jwt.{
  Codec, split_dots, decode_segment, load_segment, is_hs256, time_claim, is_past, is_future, guard,
  as_claims, check_parts, decode_hs256_jwt,
}

pub guard-Ran :
    {A : Type 0} (b : Bool) (message : String) (r : Result Error A) (a : A)
    → guard b message r ≡ ok a
    → (b ≡ true) × (r ≡ ok a)
guard-Ran true message r a h = (refl, h)
guard-Ran false message r a h = absurd (ground arith)

as_claims-lem : (body : Value) (claims : Fields) → as_claims body ≡ ok claims → body ≡ obj claims
as_claims-lem null claims h = absurd (ground arith)
as_claims-lem (boolean b) claims h = absurd (ground arith)
as_claims-lem (int n) claims h = absurd (ground arith)
as_claims-lem (float x) claims h = absurd (ground arith)
as_claims-lem (str s) claims h = absurd (ground arith)
as_claims-lem (arr xs) claims h = absurd (ground arith)
as_claims-lem (obj fs) claims h = ground (arith, h)

-- The token has three parts, the last one the digest of the first two under the secret, which is not
-- empty; the claims are those of the second part; they have not expired and are in force.
pub record IsAccepted (h : Host) (k : Codec) (now : Float) (secret token : String) (claims : Fields)
    : Type 0 where
  pub header : String
  pub payload : String
  pub signature : String
  pub head : Value
  pub expires : Option Float
  pub not_before : Option Float
  pub parts : split_dots token ≡ header ∷ payload ∷ signature ∷ []
  pub keyed : is_empty secret ≡ false
  pub head_read : load_segment k header ≡ ok head
  pub by_hs256 : is_hs256 head ≡ true
  pub claims_read : load_segment k payload ≡ ok (obj claims)
  pub is_signed :
      decode_segment k signature ≡ ok (k.digest secret (join_two header (join_two "." payload)))
  pub expiry : time_claim h "exp" claims ≡ ok expires
  pub not_past : is_past now expires ≡ false
  pub start : time_claim h "nbf" claims ≡ ok not_before
  pub not_future : is_future now not_before ≡ false

module _ (h : Host) (k : Codec) (now : Float) (secret token : String) (claims : Fields) where
  check_parts-IsAccepted :
      (header payload signature : String)
      → is_empty secret ≡ false
      → split_dots token ≡ header ∷ payload ∷ signature ∷ []
      → check_parts h k now secret header payload signature ≡ ok claims
      → IsAccepted h k now secret token claims
  unfolding check_parts
  check_parts-IsAccepted header payload signature keyed parts ran =
      let (head, head_read, r1) = and_then-Ran _ _ claims ran in
      let (body, body_read, r2) = and_then-Ran (load_segment k payload) _ claims r1 in
      let (by_hs256, r3) = guard-Ran (is_hs256 head) _ _ claims r2 in
      let (cs, is_object, r4) = and_then-Ran (as_claims body) _ claims r3 in
      let (supplied, sig_read, r5) = and_then-Ran (decode_segment k signature) _ claims r4 in
      let message = join_two header (join_two "." payload) in
      let (matches, r6) = guard-Ran (supplied == k.digest secret message) _ _ claims r5 in
      let (expires, expiry, r7) = and_then-Ran (time_claim h "exp" cs) _ claims r6 in
      let (not_before, start, r8) = and_then-Ran (time_claim h "nbf" cs) _ claims r7 in
      let (fresh, r9) = guard-Ran (not (is_past now expires)) _ _ claims r8 in
      let (active, last) = guard-Ran (not (is_future now not_before)) _ _ claims r9 in
      let same : cs ≡ claims = ground (arith, last) in
      subst (IsAccepted h k now secret token) same (record {
        header = header;
        payload = payload;
        signature = signature;
        head = head;
        expires = expires;
        not_before = not_before;
        parts = parts;
        keyed = keyed;
        head_read = head_read;
        by_hs256 = by_hs256;
        claims_read = body_read ∙ ap (λ x. ok x) (as_claims-lem body cs is_object);
        is_signed =
            sig_read ∙ ap (λ x. ok x) ((eq_iff supplied (k.digest secret message)).0 matches);
        expiry = expiry;
        not_past = ground (arith, fresh);
        start = start;
        not_future = ground (arith, active);
      })

  -- A token that is accepted has three parts and is signed with the secret, which is not empty;
  -- its claims are those of its second part, its header says HS256, and it is neither expired nor
  -- early.
  pub decode_hs256_jwt-IsAccepted :
      decode_hs256_jwt h k now token secret ≡ ok claims → IsAccepted h k now secret token claims
  unfolding decode_hs256_jwt
  decode_hs256_jwt-IsAccepted ran =
      let (keyed, rest) = guard-Ran (not (is_empty secret)) _ _ claims ran in
      by_parts (split_dots token) refl (ground (arith, keyed)) rest
    where
      by_parts :
          (parts : List String)
          → split_dots token ≡ parts
          → is_empty secret ≡ false
          → elim parts [
            | header ∷ payload ∷ signature ∷ [] ↦
                check_parts h k now secret header payload signature
            | _ ↦ raise (identity_error "invalid JWT")
          ]
            ≡ ok claims
          → IsAccepted h k now secret token claims
      by_parts [] same keyed r = absurd (ground arith)
      by_parts (a ∷ []) same keyed r = absurd (ground arith)
      by_parts (a ∷ b ∷ []) same keyed r = absurd (ground arith)
      by_parts (a ∷ b ∷ c ∷ []) same keyed r = check_parts-IsAccepted a b c keyed same r
      by_parts (a ∷ b ∷ c ∷ d ∷ ds) same keyed r = absurd (ground arith)
