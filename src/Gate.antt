-- ===== src/Gate.antt =====
-- Whether a request may reach a protected page: src/auth/access-gate.ts, with what it calls in
-- src/auth/admission.ts, src/auth/cookies.ts and src/admin (room rules, bypass, geo block).
pub mod Rules
pub mod Clients
pub mod Priority
use tide_guard.Base.{
  ℕ, ◌+◌, ◌/◌, Bool, true, false, not, ◌&&◌, ◌||◌, Option, none, some, List, [], ◌∷◌, ◌++◌, map,
  length, drop, take, ltb, ◌==◌, if◌then◌else◌, String,
}
use tide_guard.Config.{QueueConfig}
use tide_guard.Auth.{Text, codes, Runtime, is_empty}
use tide_guard.Auth.Encoding.{split_on}
use tide_guard.Auth.Token.{
  AccessTokenClaims, TokenOptions, Verified, accepted, refused, sign_access_token,
  verify_access_token, build_admission_claims,
}
use tide_guard.Auth.Texts.{trim, trim_start, same_text}
use tide_guard.Auth.Ip.Allowlist.{to_lower_char}
use tide_guard.Room.{Room, CloseAction, passthrough}
use tide_guard.Room.Settings.{RoomPhase, closed, room_phase}
use tide_guard.Gate.Rules.{
  RoomRules, RuleBypass, WebRequest, starts_with, evaluate_room_rule_bypass,
}
use tide_guard.Gate.Clients.{
  BypassSettings, GeoBlockSettings, is_ip_allowlisted, client_connecting_ip, evaluate_geo_block,
  GeoBlockDecision, bypass_visitor,
}

-- What the gate reads of the Worker: the runtime with `decodeURIComponent`, the secret, the queue's
-- configuration (none if it does not parse), the stored settings. `to_string` is the same text as
-- a native string.
pub record GateEnv : Type 0 where
  pub runtime : Runtime
  pub decode_uri_component : Text → Option Text
  pub to_string : Text → String
  pub token_secret : Text
  pub config : Option QueueConfig
  pub rules : RoomRules
  pub bypass : BypassSettings
  pub geo : GeoBlockSettings

pub data Extracted : Type 0 where
  missing bad_uri : Extracted
  token : Text → Extracted

abbrev pub some_token : Text → Extracted
some_token [] = missing
some_token (c ∷ cs) = token (c ∷ cs)

abbrev pub decoded : Option Text → Extracted
decoded none = bad_uri
decoded (some t) = some_token t

abbrev pub access_prefix : Text
access_prefix = codes "tg_access="

abbrev pub bearer_prefix : Text
bearer_prefix = codes "bearer "

-- `\s*` is skipped behind a semicolon only.
abbrev pub cookie_parts : List Text → List Text
cookie_parts [] = []
cookie_parts (p ∷ ps) = p ∷ map trim_start ps

-- The first part that has the name and a value.
unfoldable pub find_access : List Text → Option Text
unfolding starts_with is_empty
find_access [] = none
find_access (p ∷ ps) =
    let value = drop 10 p in
    let rest = find_access ps in
    if starts_with access_prefix p && not (is_empty value) then some value else rest

abbrev pub from_cookie : (Text → Option Text) → Option Text → Extracted
from_cookie decode none = missing
from_cookie decode (some cookie) = elim (find_access (cookie_parts (split_on b';' cookie))) [
  | none ↦ missing
  | some value ↦ decoded (decode value)
]

abbrev pub from_query : (Text → Option Text) → Option Text → Option Text → Extracted
from_query decode none cookie = from_cookie decode cookie
from_query decode (some []) cookie = from_cookie decode cookie
from_query decode (some (c ∷ cs)) cookie = token (c ∷ cs)

abbrev pub from_header : Option Text → Extracted → Extracted
from_header none other = other
from_header (some h) other =
    if starts_with bearer_prefix (map to_lower_char h) then some_token (trim (drop 7 h)) else other

unfoldable pub extract_access_token : GateEnv → WebRequest → Extracted
unfolding find_access split_on starts_with trim
extract_access_token env req =
    from_header (req.authorization)
      (from_query (env.decode_uri_component) (req.query_token) (req.cookie))

pub data Admission : Type 0 where
  admission : AccessTokenClaims → Text → Admission
  unauthorized : Admission
  failed : Admission

abbrev pub admission_of : Text → Verified AccessTokenClaims → Admission
admission_of t (accepted c) = admission c t
admission_of t (refused e) = unauthorized

abbrev pub options_of : String → ℕ → ℕ → TokenOptions
options_of queue epoch now = record {
  now_seconds = now / 1000;
  expected_queue = some queue;
  expected_epoch = some epoch;
}

-- `requireTokenSecret` throws `invalid_config` below 16 characters.
unfoldable pub admit_extracted : GateEnv → Extracted → String → ℕ → ℕ → Admission
unfolding verify_access_token
admit_extracted env missing queue epoch now = unauthorized
admit_extracted env bad_uri queue epoch now = failed
admit_extracted env (token t) queue epoch now =
    if ltb (length (env.token_secret)) 16
    then failed
    else admission_of t
        (verify_access_token (env.runtime) (env.token_secret) (options_of queue epoch now) t)

unfoldable pub require_admission : GateEnv → WebRequest → String → ℕ → ℕ → Admission
unfolding extract_access_token admit_extracted
require_admission env req queue epoch now =
    admit_extracted env (extract_access_token env req) queue epoch now

pub data IpBypass : Type 0 where
  no_bypass bypass_failed : IpBypass
  bypassed : Text → Text → IpBypass

abbrev pub mint_bypass : GateEnv → String → ℕ → ℕ → Text → Option QueueConfig → IpBypass
mint_bypass env queue epoch now ip none = bypass_failed
mint_bypass env queue epoch now ip (some config) =
    if ltb (length (env.token_secret)) 16
    then bypass_failed
    else bypassed ip (
        sign_access_token (env.runtime) (env.token_secret) (
          build_admission_claims (env.to_string (bypass_visitor ip)) queue
            (config.token_ttl_seconds) (some epoch) now))

unfoldable pub admit_client : GateEnv → String → ℕ → ℕ → Option Text → IpBypass
unfolding is_ip_allowlisted sign_access_token build_admission_claims bypass_visitor
admit_client env queue epoch now none = no_bypass
admit_client env queue epoch now (some ip) =
    if not (is_ip_allowlisted (some ip) (env.bypass))
    then no_bypass
    else mint_bypass env queue epoch now ip (env.config)

-- `maybeAdmitIpBypass`.
unfoldable pub maybe_admit_ip_bypass : GateEnv → WebRequest → String → ℕ → ℕ → IpBypass
unfolding client_connecting_ip admit_client
maybe_admit_ip_bypass env req queue epoch now =
    admit_client env queue epoch now (client_connecting_ip req)

pub data GateResult : Type 0 where
  rule_bypass : RuleBypass → GateResult
  admitted_by : AccessTokenClaims → Text → GateResult
  ip_bypass : Text → Text → GateResult
  geo_blocked : Option Text → GateResult
  pass_through : GateResult
  redirect_wait : GateResult
  error : GateResult

abbrev pub is_closed : RoomPhase → Bool
is_closed closed = true
is_closed _ = false

abbrev pub is_passthrough : CloseAction → Bool
is_passthrough passthrough = true
is_passthrough _ = false

abbrev pub gate_closed : Room → ℕ → GateResult
gate_closed r now =
    if is_closed (room_phase r now) && is_passthrough (r.meta.close_action)
    then pass_through
    else redirect_wait

abbrev pub gate_geo : GeoBlockDecision → GateResult → GateResult
gate_geo d other = if d.blocked then geo_blocked (d.country) else other

abbrev pub gate_ip : IpBypass → GateResult → GateResult
gate_ip no_bypass other = other
gate_ip bypass_failed other = error
gate_ip (bypassed ip t) other = ip_bypass ip t

abbrev pub gate_token : Admission → GateResult → GateResult
gate_token (admission c t) other = admitted_by c t
gate_token unauthorized other = other
gate_token failed other = error

abbrev pub gate_rule : Option RuleBypass → GateResult → GateResult
gate_rule none other = other
gate_rule (some b) other = rule_bypass b

-- `resolveAccessGate`; `now` is in milliseconds.
unfoldable pub resolve_access_gate : GateEnv → WebRequest → String → Room → ℕ → GateResult
unfolding evaluate_room_rule_bypass require_admission maybe_admit_ip_bypass evaluate_geo_block
resolve_access_gate env req queue r now = gate_rule (evaluate_room_rule_bypass req (env.rules)) (
    gate_token (require_admission env req queue (r.meta.token_epoch) now) (
      gate_ip (maybe_admit_ip_bypass env req queue (r.meta.token_epoch) now)
        (gate_geo (evaluate_geo_block req (env.geo) (env.bypass) now) (gate_closed r now))))
