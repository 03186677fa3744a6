-- ===== src/Examples/Visits.antt =====
-- Requests to the routes on the small room, and the theorems applied to them.
use tide_guard.Base.{◌≡◌, arith, refl, true, false, none, some, [], ◌++◌}
use tide_guard.Config.{QueueConfig}
use tide_guard.Auth.{codes}
use tide_guard.Auth.Encoding.{encode_json, bytes_to_base64_url}
use tide_guard.Auth.Token.{claims_object, build_admission_claims, sign_access_token}
use tide_guard.Auth.Token.Laws.{Carried}
use tide_guard.Room.{new_room}
use tide_guard.Room.View.{View, to_view}
use tide_guard.Room.Handlers.{Request, status, enter, heartbeat}
use tide_guard.Room.Departure.{leave}
use tide_guard.Auth.Ticket.{sign_visitor_ticket}
use tide_guard.Gate.{token, admission, extract_access_token, require_admission}
use tide_guard.Gate.Rules.{WebRequest, RoomRules}
use tide_guard.Routes.{
  RouteEnv, HttpRequest, not_asked, issue, status_reply, enter_reply, leave_reply, heartbeat_reply,
  handle_join, handle_status, handle_enter, handle_leave, handle_heartbeat,
}
use tide_guard.Routes.Ownership.{Guarded, ticket_owned}
use tide_guard.Routes.Issue.{token_earned, tokens_earned}
use tide_guard.Routes.Opens.{gate_env, claims_of, issue-Admits}
use tide_guard.Examples.{two_slots, small_room, ann, fixed}
use tide_guard.Examples.Runtime.{small_runtime, small_laws, ann_input, stringify, parse}

abbrev config : QueueConfig
config = record two_slots { token_ttl_seconds = 900 }

abbrev worker : RouteEnv
worker = record {
  runtime = small_runtime;
  decode_uri_component = some;
  token_secret = codes "0123456789abcdef";
  config = some config;
  default_queue = "q";
  bypass = record { allowlist = [] };
  geo = record { enabled = false; countries = []; expires_at = none };
}

abbrev browser : WebRequest
browser = record {
  user_agent = none;
  cookie = none;
  authorization = none;
  query_token = none;
  connecting_ip = none;
  ip_country = none;
  header = λ name. none;
}

-- No cookie, an empty body, and `ann` in the query.
abbrev bare : HttpRequest
bare = record {
  web = browser;
  content_type = none;
  body = [];
  queue_param = some "q";
  id_param = some "ann";
}

-- The same with the cookie of `ann`'s ticket.
abbrev ticketed : HttpRequest
ticketed = record bare {
  web = record browser {
    cookie =
        some
          (codes "tg_ticket=" ++ sign_visitor_ticket small_runtime worker.token_secret ann_input);
  };
}

ticket_owned_example :
    Guarded worker ticketed 4_000 small_room
      (handle_status worker ticketed 4_000 small_room)
      (λ q. status_reply worker q (status q small_room))
    × Guarded worker ticketed 4_000 small_room
        (handle_enter worker ticketed 4_000 small_room)
        (λ q. enter_reply worker q (enter q small_room))
    × Guarded worker ticketed 4_000 small_room
        (handle_leave worker fixed ticketed 4_000 small_room)
        (λ q. leave_reply (leave fixed q small_room))
    × Guarded worker ticketed 4_000 small_room
        (handle_heartbeat worker ticketed 4_000 small_room)
        (λ q. heartbeat_reply (heartbeat q small_room))
ticket_owned_example = ticket_owned worker small_laws ticketed 4_000 fixed small_room

tokens_earned_example :
    (token_earned (handle_join worker bare not_asked "dee" 4_000 small_room).1 ≡ true)
    × (token_earned (handle_status worker bare 4_000 small_room).1 ≡ true)
    × (token_earned (handle_enter worker bare 4_000 small_room).1 ≡ true)
tokens_earned_example = tokens_earned worker bare not_asked "dee" 4_000 small_room

abbrev visit : Request
visit = record { queue = "q"; config = config; visitor_id = "ann"; now = 0; clock = 0 }

abbrev shown : View
shown = (to_view new_room ann config 0).1

abbrev rules : RoomRules
rules = record {
  seo_crawler_bypass = false;
  cookie_bypass_name = [];
  header_bypass_name = [];
  header_bypass_value = [];
}

abbrev back_again : WebRequest
back_again = record browser { query_token = some (issue worker visit new_room shown 0) }

shown-Carried : Carried small_runtime (claims_object (claims_of visit new_room shown 0))
unfolding stringify parse claims_object build_admission_claims to_view
shown-Carried = refl

token_read :
    extract_access_token (gate_env worker rules (λ t. "")) back_again
    ≡ token (issue worker visit new_room shown 0)
unfolding extract_access_token sign_access_token encode_json bytes_to_base64_url stringify
    build_admission_claims
token_read = refl

issue-Admits_example :
    require_admission (gate_env worker rules (λ t. "")) back_again "q" 0 100_000
    ≡ admission (claims_of visit new_room shown 0) (issue worker visit new_room shown 0)
unfolding to_view
issue-Admits_example =
    issue-Admits worker rules (λ t. "") small_laws visit new_room shown back_again 0 100_000
      shown-Carried refl refl refl token_read (omega arith)
