-- ===== src/Auth/Ticket.antt =====
-- Visitor tickets: src/auth/visitor-ticket.ts.
pub mod Kinds
pub mod Soundness
use tide_guard.Base.{
  ℕ, ◌+◌, ◌/◌, Bool, true, false, not, Option, none, some, ◌∷◌, ◌++◌, String, str_eq, if◌then◌else◌,
}
use tide_guard.Js.{JsNumber, int}
use tide_guard.Auth.{Text, Json, number, string, object, done, field, get_field, Runtime}
use tide_guard.Auth.Encoding.{dot, hmac_sign, encode_json}
use tide_guard.Auth.Token.{
  Verified, accepted, refused, ◌>>=◌, ◌>>◌, refuse_if, or_refuse, some_number, exp_reached, differs,
  open_payload, bad_claims, expired_token, visitor_mismatch, queue_mismatch,
}

-- The `typ` of every ticket is the text `ticket`.
pub record VisitorTicketClaims : Type 0 where
  pub sub : String
  pub queue : String
  pub iat : JsNumber
  pub exp : JsNumber

unfoldable pub ticket_object : VisitorTicketClaims → Json
ticket_object c = object (
    field "typ" (string "ticket") (
      field "sub" (string c.sub) (
        field "queue" (string c.queue)
          (field "iat" (number c.iat) (field "exp" (number c.exp) done)))))

pub record TicketInput : Type 0 where
  pub visitor_id : String
  pub queue : String
  pub ttl_seconds : ℕ
  pub now_ms : ℕ

unfoldable pub ticket_claims : TicketInput → VisitorTicketClaims
ticket_claims input = record {
  sub = input.visitor_id;
  queue = input.queue;
  iat = int (input.now_ms / 1000);
  exp = int (input.now_ms / 1000 + input.ttl_seconds);
}

unfoldable pub sign_visitor_ticket : Runtime → Text → TicketInput → Text
unfolding ticket_object ticket_claims encode_json
sign_visitor_ticket rt secret input =
    let payload = encode_json rt (ticket_object (ticket_claims input)) in
    payload ++ dot ∷ hmac_sign rt secret payload

-- `typeof value === "string"`.
abbrev pub a_text : Option Json → Option String
a_text (some (string s)) = some s
a_text _ = none

abbrev pub ticket_typ : Option Json → Bool
ticket_typ (some (string s)) = str_eq s "ticket"
ticket_typ _ = false

unfoldable pub read_ticket : Json → Verified VisitorTicketClaims
unfolding get_field
read_ticket v = do
  refuse_if bad_claims (not (ticket_typ (get_field "typ" v)))
  sub ← or_refuse bad_claims (a_text (get_field "sub" v))
  queue ← or_refuse bad_claims (a_text (get_field "queue" v))
  exp ← or_refuse bad_claims (some_number (get_field "exp" v))
  iat ← or_refuse bad_claims (some_number (get_field "iat" v))
  accepted (record { sub = sub; queue = queue; iat = iat; exp = exp })

pub record TicketOptions : Type 0 where
  pub expected_visitor_id : Option String
  pub expected_queue : Option String
  pub now_seconds : ℕ

unfoldable pub check_ticket : TicketOptions → VisitorTicketClaims → Verified VisitorTicketClaims
check_ticket options claims = do
  refuse_if expired_token (exp_reached claims.exp options.now_seconds)
  refuse_if visitor_mismatch (differs options.expected_visitor_id claims.sub)
  refuse_if queue_mismatch (differs options.expected_queue claims.queue)
  accepted claims

unfoldable pub verify_visitor_ticket :
    Runtime → Text → TicketOptions → Text → Verified VisitorTicketClaims
unfolding open_payload read_ticket check_ticket
verify_visitor_ticket rt secret options token = do
  value ← open_payload rt secret token
  claims ← read_ticket value
  check_ticket options claims
