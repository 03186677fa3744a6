-- ===== src/Auth/Token/Laws.antt =====
-- What the verifiers of tokens accept (src/auth/token.ts), given a runtime that does what its
-- documentation says.
use tide_guard.Base.{
  ℕ, ◌≡◌, refl, ◌∙◌, ap, true, false, Option, none, some, List, ◌∷◌, ◌++◌, str_eq, if◌then◌else◌,
  arith,
}
use tide_guard.Js.{int, is_nat, floor}
use tide_guard.Auth.{Text, Json, Runtime, is_empty, get_field, find_field}
use tide_guard.Auth.Encoding.{
  dot, split_on, two_parts, timing_safe_equal, hmac_sign, encode_json, decode_json, parse_bytes,
}
use tide_guard.Auth.Encoding.RoundTrip.{Base64Law, decode-encode}
use tide_guard.Auth.Encoding.Compare.{Bytes, equal_refl}
use tide_guard.Auth.Encoding.Pieces.{base64_url-Clear, base64_url-empty, two_parts-pieces}
use tide_guard.Auth.Token.{
  AccessTokenClaims, accepted, refused, exp_reached, differs, epoch_differs, expired_token,
  queue_mismatch, revoked, TokenOptions, claims_object, sign_access_token, access_claims,
  open_payload, check_access, verify_access_token,
}

-- What the documentation of the runtime says of every text and every array of bytes.
pub record RuntimeLaws (rt : Runtime) : Type 0 where
  pub base64 : (bytes : List ℕ) → Bytes bytes → Base64Law rt bytes
  pub encode_bytes : (t : Text) → Bytes (rt.encode t)
  pub encode_empty : (t : Text) → is_empty (rt.encode t) ≡ is_empty t
  pub stringify_some : (v : Json) → is_empty (rt.stringify v) ≡ false
  pub hmac_bytes : (key message : List ℕ) → Bytes (rt.hmac key message)
  pub hmac_some : (key message : List ℕ) → is_empty (rt.hmac key message) ≡ false

-- A value that JSON and UTF-8 carry there and back, as they do every object of texts and finite
-- numbers.
abbrev pub Carried : Runtime → Json → Type 0
Carried rt v = rt.parse (rt.decode (rt.encode (rt.stringify v))) ≡ some v

module _ (rt : Runtime) (laws : RuntimeLaws rt) where
  pub decode-encode_json : (v : Json) → Carried rt v → decode_json rt (encode_json rt v) ≡ some v
  unfolding decode_json encode_json
  decode-encode_json v h =
      ap (parse_bytes rt) (decode-encode rt _ (laws.base64 _ (laws.encode_bytes _))) ∙ h

  signature-equal :
      (secret payload : Text)
      → timing_safe_equal rt (hmac_sign rt secret payload) (hmac_sign rt secret payload) ≡ true
  unfolding timing_safe_equal
  signature-equal secret payload = equal_refl _ (laws.encode_bytes _)

  pieces :
      (secret : Text) (v : Json)
      → two_parts (split_on dot (encode_json rt v ++ dot ∷ hmac_sign rt secret (encode_json rt v)))
        ≡ some (encode_json rt v, hmac_sign rt secret (encode_json rt v))
  unfolding encode_json hmac_sign
  pieces secret v =
      let law = laws.base64 _ (laws.encode_bytes (rt.stringify v)) in
      let tag = laws.base64 _ (laws.hmac_bytes _ _) in
      two_parts-pieces _ _ (base64_url-Clear rt _ law) (base64_url-Clear rt _ tag)
        (base64_url-empty rt _ law ∙ laws.encode_empty _ ∙ laws.stringify_some v)
        (base64_url-empty rt _ tag ∙ laws.hmac_some _ _)

  pub open-signed :
      (secret : Text) (v : Json)
      → Carried rt v
      → open_payload rt secret (encode_json rt v ++ dot ∷ hmac_sign rt secret (encode_json rt v))
        ≡ accepted v
  unfolding open_payload
  open-signed secret v h =
      rw (pieces secret v, signature-equal secret (encode_json rt v), decode-encode_json v h) refl

whole : (n : ℕ) → (is_nat (int n) ≡ true) × (floor (int n) ≡ n)
whole n = (ground arith, ground arith)

abbrev claims_with : AccessTokenClaims → Option ℕ → AccessTokenClaims
claims_with c epoch = record c { epoch = epoch }

read_claims :
    (c : AccessTokenClaims) (epoch : Option ℕ)
    → str_eq c.sub "" ≡ false
    → str_eq c.queue "" ≡ false
    → access_claims (claims_object (claims_with c epoch)) ≡ accepted (claims_with c epoch)
unfolding access_claims claims_object get_field find_field
read_claims c none hs hq = rw (hs, hq) refl
read_claims c (some n) hs hq = rw (hs, hq, (whole n).0, (whole n).1) refl

access_claims-object :
    (c : AccessTokenClaims)
    → str_eq c.sub "" ≡ false
    → str_eq c.queue "" ≡ false
    → access_claims (claims_object c) ≡ accepted c
access_claims-object c = read_claims c (c.epoch)

-- A signed admission token is verified by the same secret to exactly its claims, unless it has
-- expired, names another queue than the expected one, or carries another epoch (an absent epoch
-- counts as 0); each of these is refused, in this order. The visitor and the queue of the claims
-- are not empty, the runtime does what its documentation says, and JSON carries the claims.
pub verify-sign :
    (rt : Runtime)
    → RuntimeLaws rt
    → (secret : Text) (options : TokenOptions) (c : AccessTokenClaims)
    → Carried rt (claims_object c)
    → str_eq c.sub "" ≡ false
    → str_eq c.queue "" ≡ false
    → verify_access_token rt secret options (sign_access_token rt secret c) ≡ (
        if exp_reached c.exp options.now_seconds
        then refused expired_token
        else (if differs options.expected_queue c.queue
            then refused queue_mismatch
            else (if epoch_differs options.expected_epoch c.epoch
                then refused revoked
                else accepted c)))
unfolding verify_access_token sign_access_token check_access
verify-sign rt laws secret options c carried hs hq =
    rw (open-signed rt laws secret (claims_object c) carried, access_claims-object c hs hq)
      (ground arith)
