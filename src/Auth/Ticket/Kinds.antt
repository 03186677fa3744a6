-- ===== src/Auth/Ticket/Kinds.antt =====
-- A ticket shown as an admission token, and the other way round (src/auth/visitor-ticket.ts,
-- src/auth/token.ts): both are signed with the secret of the visitors (src/auth/secrets.ts).
use tide_guard.Base.{
  ◌+◌, ◌/◌, ◌≡◌, refl, false, none, str_eq, Option-cases, inl, inr, if◌then◌else◌, arith,
}
use tide_guard.Js.{int}
use tide_guard.Auth.{Text, Runtime, get_field, find_field}
use tide_guard.Auth.Token.{
  AccessTokenClaims, accepted, refused, exp_reached, differs, epoch_differs, expired_token,
  queue_mismatch, revoked, bad_claims, TokenOptions, claims_object, sign_access_token,
  access_claims, check_access, verify_access_token,
}
use tide_guard.Auth.Token.Laws.{RuntimeLaws, Carried, open-signed}
use tide_guard.Auth.Ticket.{
  TicketInput, TicketOptions, VisitorTicketClaims, ticket_object, ticket_claims,
  sign_visitor_ticket, read_ticket, verify_visitor_ticket,
}

-- The claims that `verifyAccessToken` reads in a ticket.
abbrev pub as_access : VisitorTicketClaims → AccessTokenClaims
as_access t = record { sub = t.sub; queue = t.queue; exp = t.exp; iat = t.iat; epoch = none }

read_as_access :
    (t : VisitorTicketClaims)
    → str_eq t.sub "" ≡ false
    → str_eq t.queue "" ≡ false
    → access_claims (ticket_object t) ≡ accepted (as_access t)
unfolding access_claims ticket_object get_field find_field
read_as_access t hs hq = rw (hs, hq) refl

-- A visitor ticket that is shown as an admission token under the same secret is refused only when
-- it has expired, when its queue is not the expected one, or when the expected epoch is not 0:
-- otherwise it is accepted, and admits its visitor. (A room that never revoked its tokens has
-- epoch 0.) The visitor and the queue are not empty, the runtime does what its documentation says,
-- and JSON carries the claims.
pub ticket_as_token :
    (rt : Runtime)
    → RuntimeLaws rt
    → (secret : Text) (options : TokenOptions) (input : TicketInput)
    → Carried rt (ticket_object (ticket_claims input))
    → str_eq input.visitor_id "" ≡ false
    → str_eq input.queue "" ≡ false
    → verify_access_token rt secret options (sign_visitor_ticket rt secret input) ≡ (
        if exp_reached (int (input.now_ms / 1000 + input.ttl_seconds)) options.now_seconds
        then refused expired_token
        else (if differs options.expected_queue input.queue
            then refused queue_mismatch
            else (if epoch_differs options.expected_epoch none
                then refused revoked
                else accepted (as_access (ticket_claims input)))))
unfolding verify_access_token sign_visitor_ticket check_access ticket_claims
ticket_as_token rt laws secret options input carried hs hq =
    rw
      (
        open-signed rt laws secret (ticket_object (ticket_claims input)) carried,
        read_as_access (ticket_claims input) hs hq,
      )
      (ground arith)

not_ticket : (c : AccessTokenClaims) → read_ticket (claims_object c) ≡ refused bad_claims
unfolding read_ticket claims_object get_field find_field
not_ticket c = elim (Option-cases c.epoch) [ inl e ↦ rw e refl | inr (n, e) ↦ rw e refl ]

-- An admission token that is shown as a visitor ticket under the same secret is refused for its
-- claims, whatever they are and whatever is expected. The runtime does what its documentation
-- says, and JSON carries the claims.
pub token_as_ticket :
    (rt : Runtime)
    → RuntimeLaws rt
    → (secret : Text) (options : TicketOptions) (c : AccessTokenClaims)
    → Carried rt (claims_object c)
    → verify_visitor_ticket rt secret options (sign_access_token rt secret c) ≡ refused bad_claims
unfolding verify_visitor_ticket sign_access_token
token_as_ticket rt laws secret options c carried =
    rw (open-signed rt laws secret (claims_object c) carried, not_ticket c) refl
