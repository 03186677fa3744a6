-- ===== src/Auth/Token.antt =====
-- Admission tokens: src/auth/token.ts. A promise that rejects is a value of the result type.
pub mod Laws
pub mod Soundness
use tide_guard.Base.{
  ℕ, ◌+◌, ◌*◌, ◌/◌, ◌%◌, Bool, true, false, not, ◌&&◌, Option, none, some, List, [], ◌∷◌, ◌++◌,
  String, str_eq, leb, ◌==◌, if◌then◌else◌, get_or,
}
use tide_guard.Js.{JsNumber, nan, infinity, neg_infinity, frac, neg, int, is_nat, floor, micros}
use tide_guard.Auth.{
  Text, Json, null, array, boolean, number, string, object, done, field, get_field, Runtime,
}
use tide_guard.Auth.Encoding.{
  dot, split_on, two_parts, timing_safe_equal, hmac_sign, encode_json, decode_json,
}

-- Why a token is refused: the messages of the `TokenError`s.
pub data Refusal : Type 0 where
  malformed bad_signature bad_payload bad_claims expired_token : Refusal
  visitor_mismatch queue_mismatch revoked : Refusal

pub data ErrorCode : Type 0 where
  invalid_token expired : ErrorCode

abbrev pub code_of : Refusal → ErrorCode
code_of expired_token = expired
code_of _ = invalid_token

pub data Verified {ℓ} (A : Type ℓ) : Type ℓ where
  accepted : A → Verified A
  refused : Refusal → Verified A

infixl 5 ◌>>=◌ ◌>>◌
abbrev pub ◌>>=◌ {ℓ ℓ'} : {A : Type ℓ} {B : Type ℓ'} → Verified A → (A → Verified B) → Verified B
accepted a >>= f = f a
refused e >>= f = refused e

abbrev pub ◌>>◌ {ℓ ℓ'} : {A : Type ℓ} {B : Type ℓ'} → Verified A → Verified B → Verified B
m >> k = m >>= λ _. k

-- A guard that throws.
abbrev pub refuse_if : Refusal → Bool → Verified (Unit {0})
refuse_if e true = refused e
refuse_if e false = accepted tt

abbrev pub or_refuse {ℓ} : {A : Type ℓ} → Refusal → Option A → Verified A
or_refuse e none = refused e
or_refuse e (some a) = accepted a

-- An epoch of none is a claim that is absent.
pub record AccessTokenClaims : Type 0 where
  pub sub : String
  pub queue : String
  pub exp : JsNumber
  pub iat : JsNumber
  pub epoch : Option ℕ

-- The object that `encodeJson` is given, in the order of the literal of `buildAdmissionClaims`.
unfoldable pub claims_object : AccessTokenClaims → Json
claims_object c = object (
    field "sub" (string c.sub) (
      field "queue" (string c.queue) (
        field "iat" (number c.iat) (
          field "exp" (number c.exp)
            (elim (c.epoch) [ none ↦ done | some n ↦ field "epoch" (number (int n)) done ])))))

unfoldable pub sign_access_token : Runtime → Text → AccessTokenClaims → Text
unfolding claims_object encode_json
sign_access_token rt secret claims =
    let payload = encode_json rt (claims_object claims) in
    payload ++ dot ∷ hmac_sign rt secret payload

abbrev pub some_text : Option Json → Option String
some_text (some (string s)) = if str_eq s "" then none else some s
some_text _ = none

abbrev pub some_number : Option Json → Option JsNumber
some_number (some (number n)) = some n
some_number _ = none

-- `undefined`, or an integer from 0: none if the check refuses the value.
abbrev pub some_epoch : Option Json → Option (Option ℕ)
some_epoch none = some none
some_epoch (some (number n)) = if is_nat n then some (some (floor n)) else none
some_epoch (some _) = none

-- `isClaimsShape`, with the claims read from the value that passes.
unfoldable pub access_claims : Json → Verified AccessTokenClaims
unfolding get_field
access_claims v = do
  sub ← or_refuse bad_claims (some_text (get_field "sub" v))
  queue ← or_refuse bad_claims (some_text (get_field "queue" v))
  exp ← or_refuse bad_claims (some_number (get_field "exp" v))
  iat ← or_refuse bad_claims (some_number (get_field "iat" v))
  epoch ← or_refuse bad_claims (some_epoch (get_field "epoch" v))
  accepted (record { sub = sub; queue = queue; exp = exp; iat = iat; epoch = epoch })

-- `claims.exp <= now` for a whole number of seconds. `JSON.parse` gives no NaN.
abbrev pub exp_reached : JsNumber → ℕ → Bool
exp_reached (frac n) now = leb n (now * micros)
exp_reached (neg n) now = true
exp_reached neg_infinity now = true
exp_reached _ now = false

-- `options.expected && value !== options.expected`: an empty text asks for nothing.
abbrev pub differs : Option String → String → Bool
differs none value = false
differs (some wanted) value = not (str_eq wanted "") && not (str_eq value wanted)

abbrev pub epoch_differs : Option ℕ → Option ℕ → Bool
epoch_differs none epoch = false
epoch_differs (some wanted) epoch = not (get_or epoch 0 == wanted)

-- The lines that both verifiers begin with, down to `decodeJson`.
unfoldable pub open_payload : Runtime → Text → Text → Verified Json
unfolding split_on two_parts timing_safe_equal hmac_sign decode_json
open_payload rt secret token = do
  parts ← or_refuse malformed (two_parts (split_on dot token))
  refuse_if bad_signature (not (timing_safe_equal rt (parts.1) (hmac_sign rt secret (parts.0))))
  or_refuse bad_payload (decode_json rt (parts.0))

pub record TokenOptions : Type 0 where
  pub now_seconds : ℕ
  pub expected_queue : Option String
  pub expected_epoch : Option ℕ

unfoldable pub check_access : TokenOptions → AccessTokenClaims → Verified AccessTokenClaims
check_access options claims = do
  refuse_if expired_token (exp_reached claims.exp options.now_seconds)
  refuse_if queue_mismatch (differs options.expected_queue claims.queue)
  refuse_if revoked (epoch_differs options.expected_epoch claims.epoch)
  accepted claims

unfoldable pub verify_access_token :
    Runtime → Text → TokenOptions → Text → Verified AccessTokenClaims
unfolding open_payload access_claims check_access
verify_access_token rt secret options token = do
  value ← open_payload rt secret token
  claims ← access_claims value
  check_access options claims

unfoldable pub build_admission_claims : String → String → ℕ → Option ℕ → ℕ → AccessTokenClaims
build_admission_claims visitor_id queue token_ttl_seconds epoch now_ms = record {
  sub = visitor_id;
  queue = queue;
  exp = int (now_ms / 1000 + token_ttl_seconds);
  iat = int (now_ms / 1000);
  epoch = some (get_or epoch 0);
}
