-- ===== src/Auth/Token/Soundness.antt =====
-- What a token must be to pass `verifyAccessToken` (src/auth/token.ts).
use tide_guard.Base.{
  ℕ, ◌+◌, ◌≡◌, refl, sym, ◌∙◌, ap, subst, Bool, true, false, not, Option, none, some, ◌∷◌, ◌++◌,
  arith, Bool-cases, inl, inr,
}
use tide_guard.Auth.{Text, Json, Runtime}
use tide_guard.Auth.Encoding.{dot, split_on, two_parts, timing_safe_equal, hmac_sign, decode_json}
use tide_guard.Auth.Encoding.Compare.{equal_same_list}
use tide_guard.Auth.Encoding.Pieces.{token-parts}
use tide_guard.Auth.Token.{
  AccessTokenClaims, Verified, accepted, refused, Refusal, ◌>>=◌, ◌>>◌, refuse_if, or_refuse,
  exp_reached, differs, epoch_differs, expired_token, queue_mismatch, revoked, bad_payload,
  bad_signature, malformed, TokenOptions, access_claims, open_payload, check_access,
  verify_access_token,
}
use tide_guard.Auth.Token.Laws.{RuntimeLaws}

pub step-accepted {ℓ ℓ'} :
    {A : Type ℓ} {B : Type ℓ'} (m : Verified A) (f : A → Verified B) (b : B)
    → (m >>= f) ≡ accepted b
    → (a : A) × (m ≡ accepted a) × (f a ≡ accepted b)
step-accepted (accepted a) f b h = (a, refl, h)
step-accepted (refused e) f b h = cc

or_refuse-accepted {ℓ} :
    {A : Type ℓ} (e : Refusal) (o : Option A) (a : A) → or_refuse e o ≡ accepted a → o ≡ some a
or_refuse-accepted e none a h = cc
or_refuse-accepted e (some x) a h = cc

pub guard-accepted {ℓ} :
    {A : Type ℓ} (e : Refusal) (b : Bool) (k : Verified A) (a : A)
    → (refuse_if e b >> k) ≡ accepted a
    → (b ≡ false) × (k ≡ accepted a)
guard-accepted e true k a h = cc
guard-accepted e false k a h = (refl, h)

not-false : (b : Bool) → not b ≡ false → b ≡ true
not-false b h = ground arith

pub open-accepted :
    (rt : Runtime) (secret token : Text) (v : Json)
    → open_payload rt secret token ≡ accepted v
    → (payload : Text) × (signature : Text) × (token ≡ payload ++ dot ∷ signature)
      × (timing_safe_equal rt signature (hmac_sign rt secret payload) ≡ true)
      × (decode_json rt payload ≡ some v)
unfolding open_payload
open-accepted rt secret token v h =
    let (parts, cut, rest) =
      step-accepted (or_refuse malformed (two_parts (split_on dot token))) _ v h in
    let (signed, decoded) =
      guard-accepted bad_signature
        (not (timing_safe_equal rt (parts.1) (hmac_sign rt secret (parts.0)))) _ v rest in
    (
      parts.0,
      parts.1,
      token-parts token _ _ (or_refuse-accepted malformed _ parts cut),
      not-false _ signed,
      or_refuse-accepted bad_payload _ v decoded,
    )

pub accepted-eq {ℓ} : {A : Type ℓ} (a b : A) → accepted a ≡ accepted b → a ≡ b
accepted-eq a b h = cc

pub check-accepted :
    (options : TokenOptions) (d c : AccessTokenClaims)
    → check_access options d ≡ accepted c
    → (d ≡ c)
      × (exp_reached d.exp options.now_seconds ≡ false)
      × (differs options.expected_queue d.queue ≡ false)
      × (epoch_differs options.expected_epoch d.epoch ≡ false)
unfolding check_access
check-accepted options d c h =
    let (live, h1) = guard-accepted expired_token (exp_reached d.exp options.now_seconds) _ c h in
    let (queue, h2) =
      guard-accepted queue_mismatch (differs options.expected_queue d.queue) _ c h1 in
    let (epoch, h3) =
      guard-accepted revoked (epoch_differs options.expected_epoch d.epoch) _ c h2 in
    (accepted-eq d c h3, live, queue, epoch)

-- A token that is verified consists of a payload, a dot and a signature; the signature has the
-- bytes of the HMAC of that very payload under the secret; the payload decodes to the claims that
-- are returned; they have not expired, and their queue and their epoch are the expected ones.
-- The text encoder gives bytes, as the runtime's laws say.
pub verify-accepted :
    (rt : Runtime)
    → RuntimeLaws rt
    → (secret : Text) (options : TokenOptions) (token : Text) (c : AccessTokenClaims)
    → verify_access_token rt secret options token ≡ accepted c
    → (payload : Text) × (signature : Text) × (v : Json) × (token ≡ payload ++ dot ∷ signature)
      × (rt.encode signature ≡ rt.encode (hmac_sign rt secret payload))
      × (decode_json rt payload ≡ some v)
      × (access_claims v ≡ accepted c)
      × (exp_reached c.exp options.now_seconds ≡ false)
      × (differs options.expected_queue c.queue ≡ false)
      × (epoch_differs options.expected_epoch c.epoch ≡ false)
unfolding verify_access_token timing_safe_equal
verify-accepted rt laws secret options token c h =
    let (v, opened, rest) = step-accepted (open_payload rt secret token) _ c h in
    let (d, shaped, checked) = step-accepted (access_claims v) _ c rest in
    let (payload, signature, cut, signed, decoded) = open-accepted rt secret token v opened in
    let (same, live, queue, epoch) = check-accepted options d c checked in
    (
      payload,
      signature,
      v,
      cut,
      equal_same_list _ _ (laws.encode_bytes _) (laws.encode_bytes _) signed,
      decoded,
      shaped ∙ ap accepted same,
      subst (λ e. exp_reached e.exp options.now_seconds ≡ false) same live,
      subst (λ e. differs options.expected_queue e.queue ≡ false) same queue,
      subst (λ e. epoch_differs options.expected_epoch e.epoch ≡ false) same epoch,
    )

-- Whoever verifies a token reads the same claims in it.
pub verify-again :
    (rt : Runtime) (secret : Text) (first second : TokenOptions) (token : Text)
    (c : AccessTokenClaims)
    → verify_access_token rt secret first token ≡ accepted c
    → verify_access_token rt secret second token ≡ check_access second c
unfolding verify_access_token
verify-again rt secret first second token c h =
    let (v, opened, rest) = step-accepted (open_payload rt secret token) _ c h in
    let (d, shaped, checked) = step-accepted (access_claims v) _ c rest in
    rw (opened, shaped) (ap (check_access second) ((check-accepted first d c checked).0))

next :
    (e : ℕ) (epoch : Option ℕ)
    → epoch_differs (some e) epoch ≡ false
    → epoch_differs (some (e + 1)) epoch ≡ true
next e none pass = ground arith
next e (some n) pass = ground arith

outdated :
    (e : ℕ) (epoch first second : Option ℕ)
    → first ≡ some e
    → second ≡ some (e + 1)
    → epoch_differs first epoch ≡ false
    → epoch_differs second epoch ≡ true
outdated e epoch first second h k pass =
    ap (λ o. epoch_differs o epoch) k
    ∙ next e epoch (ap (λ o. epoch_differs o epoch) (sym h) ∙ pass)

-- Claims that pass under one epoch do not pass under the next.
pub check-Outdated :
    (first second : TokenOptions) (e : ℕ) (c : AccessTokenClaims)
    → first.expected_epoch ≡ some e
    → second.expected_epoch ≡ some (e + 1)
    → epoch_differs first.expected_epoch c.epoch ≡ false
    → (why : Refusal) × (check_access second c ≡ refused why)
unfolding check_access
check-Outdated first second e c h k pass =
    let late : epoch_differs second.expected_epoch c.epoch ≡ true =
      outdated e c.epoch _ _ h k pass in
    elim (Bool-cases (exp_reached c.exp second.now_seconds)) [
      | inl x ↦ (expired_token, rw x refl)
      | inr x ↦ elim (Bool-cases (differs second.expected_queue c.queue)) [
        | inl y ↦ (queue_mismatch, rw (x, y) refl)
        | inr y ↦ (revoked, rw (x, y, late) refl)
      ]
    ]
