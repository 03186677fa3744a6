-- ===== src/Routes.antt =====
-- The visitors' routes: src/routes/queue.ts (handleJoin, handleStatus, handleEnter, handleLeave,
-- handleHeartbeat). A handler takes the room of its queue and gives it back with its answer.
pub mod Body
pub mod Ownership
pub mod Issue
pub mod Opens
use tide_guard.Base.{
  ℕ, ◌*◌, ◌/◌, Bool, true, false, not, ◌&&◌, Option, none, some, List, [], ◌∷◌, length, ltb, ◌==◌,
  if◌then◌else◌, String,
}
use tide_guard.Config.{QueueConfig}
use tide_guard.Auth.{Text, Json, string, null, get_field, Runtime}
use tide_guard.Auth.Token.{Verified, accepted, refused, sign_access_token, build_admission_claims}
use tide_guard.Auth.Ticket.{
  TicketOptions, VisitorTicketClaims, sign_visitor_ticket, verify_visitor_ticket,
}
use tide_guard.Room.{Room, Status, waiting, admitted}
use tide_guard.Room.View.{View}
use tide_guard.Room.Admission.{Random}
use tide_guard.Room.Handlers.{
  Request, JoinResult, joined, duplicate_id, StatusResult, found, not_admitted, join, status, enter,
  heartbeat,
}
use tide_guard.Room.Departure.{LeaveResult, leave}
use tide_guard.Gate.{Extracted, missing, bad_uri, token}
use tide_guard.Gate.Rules.{WebRequest}
use tide_guard.Gate.Clients.{BypassSettings, GeoBlockSettings, evaluate_geo_block}
use tide_guard.Routes.Body.{
  ApiError, unauthorized, forbidden, not_found, conflict, invalid_config, internal, Result, ok,
  fail, ◌>>=◌, ◌>>◌, fail_if, or_fail, parse_queue_name, parse_optional_visitor_id,
  parse_required_visitor_id, read_json_body, read_ticket_cookie,
}

-- The Worker as a handler sees it. `config` is none where the variables do not parse.
pub record RouteEnv : Type 0 where
  pub runtime : Runtime
  pub decode_uri_component : Text → Option Text
  pub token_secret : Text
  pub config : Option QueueConfig
  pub default_queue : String
  pub bypass : BypassSettings
  pub geo : GeoBlockSettings

-- `queue_param` and `id_param` are of the URL's query.
pub record HttpRequest : Type 0 where
  pub web : WebRequest
  pub content_type : Option Text
  pub body : Text
  pub queue_param : Option String
  pub id_param : Option String

-- What the branding, the settings and the remote check of Turnstile make of a join.
pub data Turnstile : Type 0 where
  not_asked unavailable rejected passed : Turnstile

-- The cookies carry the same texts as the answer.
pub record Reply : Type 0 where
  pub code : ℕ
  pub view : View
  pub access_token : Option Text
  pub ticket : Option Text

abbrev pub ticket_ttl_seconds : ℕ
ticket_ttl_seconds = 60 * 60 * 26

abbrev pub load_config : RouteEnv → Result QueueConfig
load_config env = or_fail invalid_config (env.config)

abbrev pub require_token_secret : RouteEnv → Result Text
require_token_secret env =
    if ltb (length (env.token_secret)) 16 then fail invalid_config else ok (env.token_secret)

unfoldable pub check_extracted : RouteEnv → Extracted → String → String → ℕ → Result (Unit {0})
unfolding verify_visitor_ticket
check_extracted env missing id queue now = fail unauthorized
check_extracted env bad_uri id queue now = fail internal
check_extracted env (token t) id queue now =
    elim (verify_visitor_ticket (env.runtime) (env.token_secret)
      (record {
        expected_visitor_id = some id;
        expected_queue = some queue;
        now_seconds = now / 1000;
      })
      t) [ accepted c ↦ ok tt | refused e ↦ fail unauthorized ]

unfoldable pub require_visitor_ticket :
    RouteEnv → HttpRequest → String → String → ℕ → Result (Unit {0})
unfolding check_extracted read_ticket_cookie
require_visitor_ticket env req id queue now =
    check_extracted env (read_ticket_cookie (env.decode_uri_component) (req.web.cookie)) id queue
      now

abbrev pub or_else : Option Json → Option Json → Option Json
or_else none b = b
or_else (some null) b = b
or_else (some v) b = some v

abbrev pub param : Option String → Option Json
param none = none
param (some s) = some (string s)

abbrev pub request_of : QueueConfig → String → String → ℕ → Request
request_of config queue id now = record {
  queue = queue;
  config = config;
  visitor_id = id;
  now = now;
  clock = now;
}

-- What enter, leave and heartbeat do before they call the room.
unfoldable pub owned_request : RouteEnv → HttpRequest → ℕ → Result Request
unfolding read_json_body parse_queue_name parse_required_visitor_id require_visitor_ticket get_field
owned_request env req now = do
  body ← read_json_body (env.runtime) (req.content_type) (req.body)
  config ← load_config env
  secret ← require_token_secret env
  queue ← parse_queue_name (get_field "queue" body) (env.default_queue)
  id ← parse_required_visitor_id (or_else (get_field "visitorId" body) (get_field "id" body))
  require_visitor_ticket env req id queue now
  ok (request_of config queue id now)

unfoldable pub status_request : RouteEnv → HttpRequest → ℕ → Result Request
unfolding parse_queue_name parse_required_visitor_id require_visitor_ticket
status_request env req now = do
  config ← load_config env
  secret ← require_token_secret env
  queue ← parse_queue_name (param (req.queue_param)) (env.default_queue)
  id ← parse_required_visitor_id (param (req.id_param))
  require_visitor_ticket env req id queue now
  ok (request_of config queue id now)

abbrev pub is_admitted_status : Status → Bool
is_admitted_status admitted = true
is_admitted_status _ = false

abbrev pub can_issue_access_token : View → Bool
can_issue_access_token v = is_admitted_status (v.status) && v.entered

abbrev pub issue : RouteEnv → Request → Room → View → ℕ → Text
issue env q r v issued_at = sign_access_token (env.runtime) (env.token_secret) (
    build_admission_claims (v.id) (q.queue) (q.config.token_ttl_seconds) (some (r.meta.token_epoch))
      issued_at)

abbrev pub issue_if : RouteEnv → Request → Room → View → ℕ → Option Text
issue_if env q r v issued_at =
    if can_issue_access_token v then some (issue env q r v issued_at) else none

-- `admittedAt ? { nowMs: admittedAt } : {}`.
abbrev pub issued_at : View → ℕ → ℕ
issued_at v now = elim (v.admitted_at) [ none ↦ now | some t ↦ if t == 0 then now else t ]

abbrev pub status_reply : RouteEnv → Request → Room × StatusResult → Room × Result Reply
status_reply env q (r, found v) = (
  r,
  ok (record {
    code = 200;
    view = v;
    access_token = issue_if env q r v (issued_at v (q.now));
    ticket = none;
  }),
)
status_reply env q (r, _) = (r, fail not_found)

abbrev pub enter_reply : RouteEnv → Request → Room × StatusResult → Room × Result Reply
enter_reply env q (r, found v) = (
  r,
  ok (record {
    code = 200;
    view = v;
    access_token = some (issue env q r v (issued_at v (q.now)));
    ticket = none;
  }),
)
enter_reply env q (r, not_admitted) = (r, fail conflict)
enter_reply env q (r, StatusResult.not_found) = (r, fail not_found)

abbrev pub heartbeat_reply : Room × StatusResult → Room × Result Reply
heartbeat_reply (r, found v) =
    (r, ok (record { code = 200; view = v; access_token = none; ticket = none }))
heartbeat_reply (r, _) = (r, fail not_found)

abbrev pub leave_reply : Room × LeaveResult → Room × Result LeaveResult
leave_reply (r, l) = (r, ok l)

-- The room is called once the request is in order.
abbrev pub call_room {ℓ} :
    {A : Type ℓ} → Result Request → Room → (Request → Room × Result A) → Room × Result A
call_room (fail e) r f = (r, fail e)
call_room (ok q) r f = f q

-- The visitor of a ticket of this queue: a tab of the same browser.
unfoldable pub resumed_visitor : RouteEnv → Extracted → String → ℕ → Result (Option String)
unfolding verify_visitor_ticket
resumed_visitor env missing queue now = ok none
resumed_visitor env bad_uri queue now = fail internal
resumed_visitor env (token t) queue now =
    elim (verify_visitor_ticket (env.runtime) (env.token_secret)
      (record { expected_visitor_id = none; expected_queue = some queue; now_seconds = now / 1000 })
      t) [ accepted c ↦ ok (some (c.sub)) | refused e ↦ ok none ]

-- A visitor with a ticket is not asked to prove anything else.
abbrev pub check_turnstile : Option String → Turnstile → Result (Unit {0})
check_turnstile (some id) t = ok tt
check_turnstile none unavailable = fail invalid_config
check_turnstile none rejected = fail unauthorized
check_turnstile none _ = ok tt

abbrev pub or_fresh : Option String → String → String
or_fresh none fresh = fresh
or_fresh (some String.[]) fresh = fresh
or_fresh (some s) fresh = s

abbrev pub or_given : Option String → Option String → Option String
or_given none given = given
or_given (some id) given = some id

-- What a join does before it calls the room; `fresh` is the id that the room would make.
unfoldable pub join_request : RouteEnv → HttpRequest → Turnstile → String → ℕ → Result Request
unfolding read_json_body parse_queue_name parse_optional_visitor_id evaluate_geo_block
    read_ticket_cookie resumed_visitor get_field
join_request env req turnstile fresh now = do
  body ← read_json_body (env.runtime) (req.content_type) (req.body)
  config ← load_config env
  secret ← require_token_secret env
  queue ← parse_queue_name (get_field "queue" body) (env.default_queue)
  fail_if forbidden ((evaluate_geo_block (req.web) (env.geo) (env.bypass) now).blocked)
  given ← parse_optional_visitor_id (get_field "visitorId" body)
  resumed ←
      resumed_visitor env (read_ticket_cookie (env.decode_uri_component) (req.web.cookie)) queue now
  check_turnstile resumed turnstile
  ok (request_of config queue (or_fresh (or_given resumed given) fresh) now)

abbrev pub ticket_of : RouteEnv → Request → View → Text
ticket_of env q v = sign_visitor_ticket (env.runtime) (env.token_secret) (record {
  visitor_id = v.id;
  queue = q.queue;
  ttl_seconds = ticket_ttl_seconds;
  now_ms = q.now;
})

abbrev pub join_reply : RouteEnv → Request → Room × JoinResult → Room × Result Reply
join_reply env q (r, joined v) = (
  r,
  ok (record {
    code = if is_admitted_status (v.status) then 200 else 202;
    view = v;
    access_token = issue_if env q r v (q.now);
    ticket = some (ticket_of env q v);
  }),
)
join_reply env q (r, JoinResult.queue_full) = (r, fail ApiError.queue_full)
join_reply env q (r, duplicate_id) = (r, fail internal)

unfoldable pub handle_join :
    RouteEnv → HttpRequest → Turnstile → String → ℕ → Room → Room × Result Reply
unfolding join_request join sign_visitor_ticket sign_access_token build_admission_claims
handle_join env req turnstile fresh now r =
    call_room (join_request env req turnstile fresh now) r λ q. join_reply env q (join q r)

unfoldable pub handle_status : RouteEnv → HttpRequest → ℕ → Room → Room × Result Reply
unfolding status_request status sign_access_token build_admission_claims
handle_status env req now r =
    call_room (status_request env req now) r λ q. status_reply env q (status q r)

unfoldable pub handle_enter : RouteEnv → HttpRequest → ℕ → Room → Room × Result Reply
unfolding owned_request enter sign_access_token build_admission_claims
handle_enter env req now r =
    call_room (owned_request env req now) r λ q. enter_reply env q (enter q r)

unfoldable pub handle_leave : RouteEnv → Random → HttpRequest → ℕ → Room → Room × Result LeaveResult
unfolding owned_request leave
handle_leave env rnd req now r =
    call_room (owned_request env req now) r λ q. leave_reply (leave rnd q r)

unfoldable pub handle_heartbeat : RouteEnv → HttpRequest → ℕ → Room → Room × Result Reply
unfolding owned_request heartbeat
handle_heartbeat env req now r =
    call_room (owned_request env req now) r λ q. heartbeat_reply (heartbeat q r)
