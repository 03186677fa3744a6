-- ===== src/Routes/Ownership.antt =====
-- Who may act for a visitor: the ticket that src/routes/queue.ts asks for before it calls the room.
use tide_guard.Base.{
  ℕ, ◌/◌, ◌≡◌, refl, sym, ap, ◌∙◌, subst, Bool, true, false, not, ◌&&◌, Option, none, some, String,
  str_eq, eq_iff, Bool-cases, inl, inr, ◌⊎◌, if◌then◌else◌, arith,
}
use tide_guard.Config.{QueueConfig}
use tide_guard.Auth.{Text, Json, string, null, codes, get_field}
use tide_guard.Auth.Token.{Verified, accepted, refused, Refusal, differs}
use tide_guard.Auth.Token.Laws.{RuntimeLaws}
use tide_guard.Auth.Ticket.{VisitorTicketClaims, TicketOptions, verify_visitor_ticket}
use tide_guard.Auth.Ticket.Soundness.{IsSigned, ticket-accepted}
use tide_guard.Room.{Room}
use tide_guard.Room.Admission.{Random}
use tide_guard.Room.Handlers.{Request, status, enter, heartbeat}
use tide_guard.Room.Departure.{leave}
use tide_guard.Gate.{Extracted, missing, bad_uri, token}
use tide_guard.Routes.Body.{
  read_json_body, parse_queue_name, queue_or, is_queue_name, visitor_of, is_visitor_id,
  parse_optional_visitor_id, parse_required_visitor_id, or_fail, read_ticket_cookie, bad_request,
  Result, ok, fail, ◌>>=◌, ◌>>◌, is_ok,
}
use tide_guard.Routes.{
  load_config, require_token_secret, or_else, param, RouteEnv, HttpRequest, check_extracted,
  require_visitor_ticket, owned_request, status_request, call_room, request_of, status_reply,
  enter_reply, leave_reply, heartbeat_reply, handle_status, handle_enter, handle_leave,
  handle_heartbeat,
}

step-ok {ℓ ℓ'} :
    {A : Type ℓ} {B : Type ℓ'} (m : Result A) (f : A → Result B) (b : B)
    → (m >>= f) ≡ ok b
    → (a : A) × (m ≡ ok a) × (f a ≡ ok b)
step-ok (ok a) f b h = (a, refl, h)
step-ok (fail e) f b h = cc

ok-eq {ℓ} : {A : Type ℓ} (a b : A) → ok a ≡ ok b → a ≡ b
ok-eq a b h = cc

-- A name that passes its test is not empty.
not_empty :
    (test : Text → Bool) (s : String)
    → test (codes "") ≡ false
    → test (codes s) ≡ true
    → str_eq s "" ≡ false
not_empty test s e h = elim (Bool-cases (str_eq s "")) [
  | inl same ↦
      let blank : s ≡ "" = (eq_iff s "").0 same in
      cc (sym h ∙ ap (λ (t : String). test (codes t)) blank ∙ e)
  | inr other ↦ other
]

checked :
    (passes : Bool) (raw out : String)
    → (if passes then ok raw else fail bad_request) ≡ ok out
    → (passes ≡ true) × (raw ≡ out)
checked true raw out h = (refl, ok-eq raw out h)
checked false raw out h = cc

checked_some :
    (passes : Bool) (raw out : String)
    → ((if passes then ok (some raw) else fail bad_request) >>= or_fail bad_request) ≡ ok out
    → (passes ≡ true) × (raw ≡ out)
checked_some true raw out h = (refl, ok-eq raw out h)
checked_some false raw out h = cc

queue_named :
    (value : Option Json) (fallback queue : String)
    → parse_queue_name value fallback ≡ ok queue
    → str_eq queue "" ≡ false
unfolding parse_queue_name is_queue_name
queue_named value fallback queue h =
    let raw = queue_or value fallback in
    let (good, same) = checked (is_queue_name (codes raw)) raw queue h in
    not_empty is_queue_name queue refl (subst (λ t. is_queue_name (codes t) ≡ true) same good)

visitor_named :
    (s id : String) → (visitor_of s >>= or_fail bad_request) ≡ ok id → str_eq id "" ≡ false
unfolding is_visitor_id
visitor_named String.[] id h = cc
visitor_named (String.◌∷◌ c s) id h =
    let raw = String.◌∷◌ c s in
    let (good, same) = checked_some (is_visitor_id (codes raw)) raw id h in
    not_empty is_visitor_id id refl (subst (λ t. is_visitor_id (codes t) ≡ true) same good)

required_named :
    (value : Option Json) (id : String)
    → parse_required_visitor_id value ≡ ok id
    → str_eq id "" ≡ false
unfolding parse_required_visitor_id parse_optional_visitor_id
required_named none id h = cc
required_named (some null) id h = cc
required_named (some (string s)) id h = visitor_named s id h
required_named (some _) id h = cc

-- The cookie of the request holds a ticket, signed under the Worker's secret and not expired, of
-- this visitor and this queue.
abbrev pub Owns : RouteEnv → HttpRequest → ℕ → String → String → Type 0
Owns env req now id queue =
    (t : Text) × (c : VisitorTicketClaims) × (read_ticket_cookie (env.decode_uri_component)
        (req.web.cookie)
      ≡ token t)
    × IsSigned (env.runtime) (env.token_secret) (now / 1000) t c
    × (c.sub ≡ id)
    × (c.queue ≡ queue)

both_false : (a b : Bool) → a ≡ false → (not a && not b) ≡ false → b ≡ true
both_false a b h k = ground arith

matched :
    (wanted value : String)
    → str_eq wanted "" ≡ false
    → differs (some wanted) value ≡ false
    → value ≡ wanted
matched wanted value named same =
    (eq_iff value wanted).0 (both_false (str_eq wanted "") (str_eq value wanted) named same)

verdict {ℓ} :
    {A : Type ℓ} (m : Verified A)
    → ((a : A) × (m ≡ accepted a)) ⊎ ((why : Refusal) × (m ≡ refused why))
verdict (accepted a) = inl (a, refl)
verdict (refused why) = inr (why, refl)

module _ (env : RouteEnv) (laws : RuntimeLaws env.runtime) (req : HttpRequest) (now : ℕ) where
  not_passed :
      (t : Text) (id queue : String) (why : Refusal)
      → verify_visitor_ticket env.runtime env.token_secret
          (record {
            expected_visitor_id = some id;
            expected_queue = some queue;
            now_seconds = now / 1000;
          })
          t
        ≡ refused why
      → is_ok (check_extracted env (token t) id queue now) ≡ false
  unfolding check_extracted
  not_passed t id queue why e = rw (e, check_extracted) refl

  -- A ticket that is asked for is there, and is of the visitor and the queue.
  asked_extracted :
      (cookie : Extracted) (id queue : String)
      → read_ticket_cookie env.decode_uri_component req.web.cookie ≡ cookie
      → is_ok (check_extracted env cookie id queue now) ≡ true
      → str_eq id "" ≡ false
      → str_eq queue "" ≡ false
      → Owns env req now id queue
  unfolding check_extracted
  asked_extracted missing id queue from pass i q = cc
  asked_extracted bad_uri id queue from pass i q = cc
  asked_extracted (token t) id queue from pass i q =
      let options : TicketOptions = record {
        expected_visitor_id = some id;
        expected_queue = some queue;
        now_seconds = now / 1000;
      } in
      elim (verdict (verify_visitor_ticket env.runtime env.token_secret options t)) [
        | inl (c, e) ↦
            let (signed, visitor, place) =
              ticket-accepted env.runtime laws env.token_secret options t c e in
            (t, c, from, signed, matched id c.sub i visitor, matched queue c.queue q place)
        | inr (why, e) ↦ cc (sym pass ∙ not_passed t id queue why e)
      ]

  asked :
      (config : QueueConfig) (id queue : String) (q : Request)
      → (require_visitor_ticket env req id queue now >> ok (request_of config queue id now)) ≡ ok q
      → str_eq id "" ≡ false
      → str_eq queue "" ≡ false
      → Owns env req now q.visitor_id q.queue
  unfolding require_visitor_ticket
  asked config id queue q h i j =
      let (done, pass, same) = step-ok (require_visitor_ticket env req id queue now) _ q h in
      subst (λ (w : Request). Owns env req now w.visitor_id w.queue)
        (ok-eq (request_of config queue id now) q same)
        (asked_extracted (read_ticket_cookie env.decode_uri_component req.web.cookie) id queue refl
          (ap is_ok pass) i j)

  owned : (q : Request) → owned_request env req now ≡ ok q → Owns env req now q.visitor_id q.queue
  unfolding owned_request
  owned q h =
      let (body, e1, h1) = step-ok (read_json_body env.runtime req.content_type req.body) _ q h in
      let (config, e2, h2) = step-ok (load_config env) _ q h1 in
      let (secret, e3, h3) = step-ok (require_token_secret env) _ q h2 in
      let (queue, e4, h4) =
        step-ok (parse_queue_name (get_field "queue" body) env.default_queue) _ q h3 in
      let (id, e5, h5) =
        step-ok
          (parse_required_visitor_id (or_else (get_field "visitorId" body) (get_field "id" body))) _
          q h4 in
      let chosen = or_else (get_field "visitorId" body) (get_field "id" body) in
      asked config id queue q h5 (required_named chosen id e5)
        (queue_named (get_field "queue" body) env.default_queue queue e4)

  status_owned :
      (q : Request) → status_request env req now ≡ ok q → Owns env req now q.visitor_id q.queue
  unfolding status_request
  status_owned q h =
      let (config, e2, h2) = step-ok (load_config env) _ q h in
      let (secret, e3, h3) = step-ok (require_token_secret env) _ q h2 in
      let (queue, e4, h4) =
        step-ok (parse_queue_name (param req.queue_param) env.default_queue) _ q h3 in
      let (id, e5, h5) = step-ok (parse_required_visitor_id (param req.id_param)) _ q h4 in
      asked config id queue q h5 (required_named (param req.id_param) id e5)
        (queue_named (param req.queue_param) env.default_queue queue e4)

-- The answer is that of the room to a request for a visitor whose ticket the cookie holds, or the
-- request is refused and the room is as it was.
abbrev pub Guarded {ℓ} :
    {A : Type ℓ}
    → RouteEnv
    → HttpRequest
    → ℕ
    → Room
    → Room × Result A
    → (Request → Room × Result A)
    → Type ℓ
Guarded env req now r answer f =
    ((q : Request) × Owns env req now (q.visitor_id) (q.queue) × (answer ≡ f q))
    ⊎ ((answer.0 ≡ r) × (is_ok (answer.1) ≡ false))

guarded {ℓ} :
    {A : Type ℓ} (env : RouteEnv) (req : HttpRequest) (now : ℕ) (r : Room) (m : Result Request)
    (f : Request → Room × Result A)
    → ((q : Request) → m ≡ ok q → Owns env req now q.visitor_id q.queue)
    → Guarded env req now r (call_room m r f) f
guarded env req now r (ok q) f h = inl (q, h q refl, refl)
guarded env req now r (fail e) f h = inr (refl, refl)

-- Asking for the status, entering, leaving and checking in: the room is called for a visitor and a
-- queue only if the request's cookie holds a ticket of that very visitor and queue, signed under
-- the Worker's secret and not expired; otherwise the room stays as it is and the request is
-- refused. The text encoder gives bytes, as the runtime's laws say.
pub ticket_owned :
    (env : RouteEnv)
    → RuntimeLaws env.runtime
    → (req : HttpRequest) (now : ℕ) (rnd : Random) (r : Room)
    → Guarded env req now r (handle_status env req now r) (λ q. status_reply env q (status q r))
      × Guarded env req now r (handle_enter env req now r) (λ q. enter_reply env q (enter q r))
      × Guarded env req now r (handle_leave env rnd req now r) (λ q. leave_reply (leave rnd q r))
      × Guarded env req now r
          (handle_heartbeat env req now r)
          (λ q. heartbeat_reply (heartbeat q r))
unfolding handle_status handle_enter handle_leave handle_heartbeat
ticket_owned env laws req now rnd r =
    let who = owned env laws req now in
    (
      guarded env req now r (status_request env req now) _ (status_owned env laws req now),
      guarded env req now r (owned_request env req now) _ who,
      guarded env req now r (owned_request env req now) _ who,
      guarded env req now r (owned_request env req now) _ who,
    )
