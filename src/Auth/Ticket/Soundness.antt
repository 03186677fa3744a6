-- ===== src/Auth/Ticket/Soundness.antt =====
-- What a ticket must be to pass `verifyVisitorTicket` (src/auth/visitor-ticket.ts).
use tide_guard.Base.{ℕ, ◌≡◌, ap, ◌∙◌, subst, false, some, ◌∷◌, ◌++◌}
use tide_guard.Auth.{Text, Json, Runtime}
use tide_guard.Auth.Encoding.{dot, timing_safe_equal, hmac_sign, decode_json}
use tide_guard.Auth.Encoding.Compare.{equal_same_list}
use tide_guard.Auth.Token.{
  accepted, exp_reached, differs, expired_token, visitor_mismatch, queue_mismatch, open_payload,
}
use tide_guard.Auth.Token.Laws.{RuntimeLaws}
use tide_guard.Auth.Token.Soundness.{step-accepted, guard-accepted, accepted-eq, open-accepted}
use tide_guard.Auth.Ticket.{
  VisitorTicketClaims, TicketOptions, read_ticket, check_ticket, verify_visitor_ticket,
}

check_ticket-accepted :
    (options : TicketOptions) (d c : VisitorTicketClaims)
    → check_ticket options d ≡ accepted c
    → (d ≡ c)
      × (exp_reached d.exp options.now_seconds ≡ false)
      × (differs options.expected_visitor_id d.sub ≡ false)
      × (differs options.expected_queue d.queue ≡ false)
unfolding check_ticket
check_ticket-accepted options d c h =
    let (live, h1) = guard-accepted expired_token (exp_reached d.exp options.now_seconds) _ c h in
    let (visitor, h2) =
      guard-accepted visitor_mismatch (differs options.expected_visitor_id d.sub) _ c h1 in
    let (queue, h3) =
      guard-accepted queue_mismatch (differs options.expected_queue d.queue) _ c h2 in
    (accepted-eq d c h3, live, visitor, queue)

-- A text is a ticket under the secret: a payload, a dot and a signature that has the bytes of the
-- HMAC of the payload; the payload decodes to the claims of a ticket, which have not expired.
abbrev pub IsSigned : Runtime → Text → ℕ → Text → VisitorTicketClaims → Type 0
IsSigned rt secret now token c =
    (payload : Text) × (signature : Text) × (v : Json) × (token ≡ payload ++ dot ∷ signature)
    × (rt.encode signature ≡ rt.encode (hmac_sign rt secret payload))
    × (decode_json rt payload ≡ some v)
    × (read_ticket v ≡ accepted c)
    × (exp_reached c.exp now ≡ false)

-- A ticket that is verified is signed and has not expired, and its visitor and its queue are those
-- expected. The text encoder gives bytes, as the runtime's laws say.
pub ticket-accepted :
    (rt : Runtime)
    → RuntimeLaws rt
    → (secret : Text) (options : TicketOptions) (token : Text) (c : VisitorTicketClaims)
    → verify_visitor_ticket rt secret options token ≡ accepted c
    → IsSigned rt secret options.now_seconds token c
      × (differs options.expected_visitor_id c.sub ≡ false)
      × (differs options.expected_queue c.queue ≡ false)
unfolding verify_visitor_ticket timing_safe_equal
ticket-accepted rt laws secret options token c h =
    let (v, opened, rest) = step-accepted (open_payload rt secret token) _ c h in
    let (d, shaped, checked) = step-accepted (read_ticket v) _ c rest in
    let (payload, signature, cut, signed, decoded) = open-accepted rt secret token v opened in
    let (same, live, visitor, queue) = check_ticket-accepted options d c checked in
    (
      (
        payload,
        signature,
        v,
        cut,
        equal_same_list _ _ (laws.encode_bytes _) (laws.encode_bytes _) signed,
        decoded,
        shaped ∙ ap accepted same,
        subst (λ e. exp_reached e.exp options.now_seconds ≡ false) same live,
      ),
      subst (λ e. differs options.expected_visitor_id e.sub ≡ false) same visitor,
      subst (λ e. differs options.expected_queue e.queue ≡ false) same queue,
    )
