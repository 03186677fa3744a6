-- ===== src/Gate/Priority.antt =====
-- What the order of the checks in `resolveAccessGate` (src/auth/access-gate.ts) means for a
-- visitor, and for the tokens of a room whose operator revokes them.
use tide_guard.Base.{
  ℕ, ◌+◌, ◌≡◌, refl, sym, ◌∙◌, ap, Bool, true, false, Option, none, some, String, length, ltb,
  if◌then◌else◌, arith,
}
use tide_guard.Config.{QueueConfig}
use tide_guard.Auth.{Text, Runtime, is_empty}
use tide_guard.Auth.Token.{AccessTokenClaims, Verified, accepted, refused, verify_access_token}
use tide_guard.Auth.Token.Soundness.{verify-again, check-Outdated, check-accepted}
use tide_guard.Room.{Room}
use tide_guard.Room.Controls.{bump_token_epoch}
use tide_guard.Gate.{
  GateEnv, Extracted, missing, bad_uri, token, extract_access_token, Admission, admission,
  unauthorized, failed, admission_of, admit_extracted, options_of, admit_client, require_admission,
  IpBypass, no_bypass, bypass_failed, bypassed, mint_bypass, maybe_admit_ip_bypass, GateResult,
  admitted_by, geo_blocked, redirect_wait, gate_closed, gate_geo, gate_ip, gate_token, gate_rule,
  resolve_access_gate,
}
use tide_guard.Gate.Rules.{WebRequest, RuleBypass, evaluate_room_rule_bypass}
use tide_guard.Gate.Clients.{
  is_ip_allowlisted, client_connecting_ip, evaluate_geo_block, effective_blocked_countries,
  GeoBlockDecision,
}

-- The request reaches the page, or fails because its cookie does not decode.
abbrev pub lets_in : GateResult → Bool
lets_in (geo_blocked c) = false
lets_in redirect_wait = false
lets_in _ = true

abbrev pub has_config : Option QueueConfig → Bool
has_config none = false
has_config (some c) = true

abbrev pub is_bypassed : IpBypass → Bool
is_bypassed (bypassed ip t) = true
is_bypassed _ = false

true≢false : true ≡ false → ⊥
true≢false h = cc

mint-bypassed :
    (env : GateEnv) (queue : String) (e now : ℕ) (ip : Text) (config : Option QueueConfig)
    → has_config config ≡ true
    → ltb (length (env.token_secret)) 16 ≡ false
    → is_bypassed (mint_bypass env queue e now ip config) ≡ true
mint-bypassed env queue e now ip none h k = ground arith
mint-bypassed env queue e now ip (some c) h k = rw k refl

allowlisted-bypassed :
    (env : GateEnv) (client : Option Text) (queue : String) (e now : ℕ)
    → is_ip_allowlisted client (env.bypass) ≡ true
    → has_config (env.config) ≡ true
    → ltb (length (env.token_secret)) 16 ≡ false
    → is_bypassed (admit_client env queue e now client) ≡ true
unfolding admit_client is_ip_allowlisted
allowlisted-bypassed env none queue e now h config secret = ground arith
allowlisted-bypassed env (some ip) queue e now h config secret =
    rw h (mint-bypassed env queue e now ip (env.config) config secret)

past_ip :
    (b : IpBypass) (other : GateResult) → is_bypassed b ≡ true → lets_in (gate_ip b other) ≡ true
past_ip no_bypass other h = ground arith
past_ip bypass_failed other h = refl
past_ip (bypassed ip t) other h = refl

past_token :
    (a : Admission) (other : GateResult)
    → lets_in other ≡ true
    → lets_in (gate_token a other) ≡ true
past_token (admission c t) other h = refl
past_token unauthorized other h = h
past_token failed other h = refl

past_rule :
    (b : Option RuleBypass) (other : GateResult)
    → lets_in other ≡ true
    → lets_in (gate_rule b other) ≡ true
past_rule none other h = h
past_rule (some b) other h = refl

same_sides {ℓ} : {A : Type ℓ} (b : Bool) (x : A) → (if b then x else x) ≡ x
same_sides true x = refl
same_sides false x = refl

-- A client on the allowlist is never blocked for its country and never sent to the waiting page,
-- whatever its token, the geo block and the schedule of the room are, and the geo block by itself
-- does not block it. The secret is long enough and the queue's configuration parses.
pub allowlisted_passes :
    (env : GateEnv) (req : WebRequest) (queue : String) (r : Room) (now : ℕ)
    → is_ip_allowlisted (client_connecting_ip req) (env.bypass) ≡ true
    → has_config (env.config) ≡ true
    → ltb (length (env.token_secret)) 16 ≡ false
    → (lets_in (resolve_access_gate env req queue r now) ≡ true)
      × ((evaluate_geo_block req (env.geo) (env.bypass) now).blocked ≡ false)
unfolding resolve_access_gate evaluate_geo_block
allowlisted_passes env req queue r now h config secret = (
  past_rule (evaluate_room_rule_bypass req (env.rules)) _ (
      past_token (require_admission env req queue (r.meta.token_epoch) now) _ (
        past_ip (maybe_admit_ip_bypass env req queue (r.meta.token_epoch) now)
          (gate_geo (evaluate_geo_block req (env.geo) (env.bypass) now) (gate_closed r now))
          (allowlisted-bypassed env (client_connecting_ip req) queue (r.meta.token_epoch) now h
            config secret))),
  rw h (
      ap (λ (d : GeoBlockDecision). d.blocked)
        (same_sides (is_empty (effective_blocked_countries (env.geo) now)) _)),
)

abbrev pub is_admitted : GateResult → Bool
is_admitted (admitted_by c t) = true
is_admitted _ = false

abbrev pub is_token_admission : Admission → Bool
is_token_admission (admission c t) = true
is_token_admission _ = false

admission-accepted :
    (t : Text) (v : Verified AccessTokenClaims)
    → is_token_admission (admission_of t v) ≡ true
    → (c : AccessTokenClaims) × (v ≡ accepted c)
admission-accepted t (accepted c) h = (c, refl)
admission-accepted t (refused e) h = absurd (true≢false (sym h))

-- Only the check of the token admits by a token.
other_closed : (r : Room) (now : ℕ) → is_admitted (gate_closed r now) ≡ false
other_closed r now = ground arith

other_geo :
    (d : GeoBlockDecision) (other : GateResult)
    → is_admitted other ≡ false
    → is_admitted (gate_geo d other) ≡ false
other_geo d other h = ground (arith, h)

other_ip :
    (b : IpBypass) (other : GateResult)
    → is_admitted other ≡ false
    → is_admitted (gate_ip b other) ≡ false
other_ip no_bypass other h = h
other_ip bypass_failed other h = refl
other_ip (bypassed ip t) other h = refl

other_rule :
    (b : Option RuleBypass) (other : GateResult)
    → is_admitted other ≡ false
    → is_admitted (gate_rule b other) ≡ false
other_rule none other h = h
other_rule (some b) other h = refl

behind_guard :
    (b : Bool) (x y : Admission)
    → is_token_admission (if b then failed else x) ≡ true
    → (is_token_admission x ≡ true → y ≡ unauthorized)
    → (if b then failed else y) ≡ unauthorized
behind_guard true x y h f = absurd (true≢false (sym h))
behind_guard false x y h f = f h

token-Revoked :
    (rt : Runtime) (secret t : Text) (queue : String) (epoch now later : ℕ)
    → is_token_admission
        (admission_of t (verify_access_token rt secret (options_of queue epoch now) t))
      ≡ true
    → admission_of t (verify_access_token rt secret (options_of queue (epoch + 1) later) t)
      ≡ unauthorized
token-Revoked rt secret t queue epoch now later h =
    let first = options_of queue epoch now in
    let second = options_of queue (epoch + 1) later in
    let (c, ok) = admission-accepted t _ h in
    let checked = sym (verify-again rt secret first first t c ok) ∙ ok in
    let (why, late) =
      check-Outdated first second epoch c refl refl ((check-accepted first c c checked).3) in
    ap (admission_of t) (verify-again rt secret first second t c ok ∙ late)

admit-Revoked :
    (env : GateEnv) (x : Extracted) (queue : String) (epoch now later : ℕ)
    → is_token_admission (admit_extracted env x queue epoch now) ≡ true
    → admit_extracted env x queue (epoch + 1) later ≡ unauthorized
unfolding admit_extracted
admit-Revoked env missing queue epoch now later h = refl
admit-Revoked env bad_uri queue epoch now later h = absurd (true≢false (sym h))
admit-Revoked env (token t) queue epoch now later h =
    behind_guard (ltb (length (env.token_secret)) 16) _ _ h
      (token-Revoked (env.runtime) (env.token_secret) t queue epoch now later)

-- Once the operator has revoked the tokens of a room, no token that the room still accepted before
-- is accepted: a request that the gate admitted by its token is not admitted by it at any later
-- time, and its admission is refused as unauthorized.
pub bump-Revoked :
    (env : GateEnv) (req : WebRequest) (queue : String) (r : Room) (now later : ℕ)
    → is_token_admission (require_admission env req queue (r.meta.token_epoch) now) ≡ true
    → let bumped = (bump_token_epoch r).0 in
      (require_admission env req queue (bumped.meta.token_epoch) later ≡ unauthorized)
      × (is_admitted (resolve_access_gate env req queue bumped later) ≡ false)
unfolding require_admission bump_token_epoch resolve_access_gate
bump-Revoked env req queue r now later h =
    let bumped = (bump_token_epoch r).0 in
    let refused_later =
      admit-Revoked env (extract_access_token env req) queue (r.meta.token_epoch) now later h in
    (
      refused_later,
      rw refused_later (
          other_rule (evaluate_room_rule_bypass req (env.rules)) _ (
            other_ip (maybe_admit_ip_bypass env req queue (bumped.meta.token_epoch) later) _ (
              other_geo (evaluate_geo_block req (env.geo) (env.bypass) later) _
                (other_closed bumped later)))),
    )
