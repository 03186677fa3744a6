-- ===== src/Routes/Body.antt =====
-- What the routes read from a request: src/routes/validation.ts and `readTicketCookie` of
-- src/auth/visitor-ticket.ts, and the errors of src/core/errors.ts.
use tide_guard.Base.{
  ℕ, Bool, true, false, not, ◌&&◌, ◌||◌, Option, none, some, List, [], ◌∷◌, length, leb, ◌==◌,
  if◌then◌else◌, String,
}
use tide_guard.Auth.{Text, Json, string, null, object, done, codes, Runtime, is_empty}
use tide_guard.Auth.Texts.{every, trim, same_text}
use tide_guard.Auth.Encoding.{split_on}
use tide_guard.Gate.{Extracted, missing, decoded}
use tide_guard.Gate.Rules.{starts_with, before_equals}
use tide_guard.Gate.Clients.{is_alnum}

-- The codes of an `ApiError`; another exception is `internal`.
pub data ApiError : Type 0 where
  bad_request unauthorized forbidden not_found conflict queue_full invalid_config internal :
      ApiError

pub data Result {ℓ} (A : Type ℓ) : Type ℓ where
  ok : A → Result A
  fail : ApiError → Result A

infixl 5 ◌>>=◌ ◌>>◌
abbrev pub ◌>>=◌ {ℓ ℓ'} : {A : Type ℓ} {B : Type ℓ'} → Result A → (A → Result B) → Result B
ok a >>= f = f a
fail e >>= f = fail e

abbrev pub ◌>>◌ {ℓ ℓ'} : {A : Type ℓ} {B : Type ℓ'} → Result A → Result B → Result B
m >> k = m >>= λ _. k

abbrev pub fail_if : ApiError → Bool → Result (Unit {0})
fail_if e true = fail e
fail_if e false = ok tt

abbrev pub or_fail {ℓ} : {A : Type ℓ} → ApiError → Option A → Result A
or_fail e none = fail e
or_fail e (some a) = ok a

abbrev pub is_ok {ℓ} : {A : Type ℓ} → Result A → Bool
is_ok (ok a) = true
is_ok (fail e) = false

-- `[a-zA-Z0-9_-]`.
abbrev pub is_name_char : ℕ → Bool
is_name_char c = is_alnum c || c == b'_' || c == b'-'

-- `QUEUE_NAME_RE`.
unfoldable pub is_queue_name : Text → Bool
unfolding every
is_queue_name [] = false
is_queue_name (c ∷ t) = is_alnum c && leb (length t) 63 && every is_name_char t

-- `VISITOR_ID_RE`.
unfoldable pub is_visitor_id : Text → Bool
unfolding every is_empty
is_visitor_id t = not (is_empty t) && leb (length t) 128 && every is_name_char t

abbrev pub queue_or : Option Json → String → String
queue_or (some (string String.[])) fallback = fallback
queue_or (some (string s)) fallback = s
queue_or _ fallback = fallback

unfoldable pub parse_queue_name : Option Json → String → Result String
unfolding is_queue_name
parse_queue_name value fallback =
    let raw = queue_or value fallback in
    if is_queue_name (codes raw) then ok raw else fail bad_request

abbrev pub visitor_of : String → Result (Option String)
visitor_of String.[] = ok none
visitor_of s = if is_visitor_id (codes s) then ok (some s) else fail bad_request

unfoldable pub parse_optional_visitor_id : Option Json → Result (Option String)
unfolding is_visitor_id
parse_optional_visitor_id none = ok none
parse_optional_visitor_id (some null) = ok none
parse_optional_visitor_id (some (string s)) = visitor_of s
parse_optional_visitor_id (some _) = fail bad_request

unfoldable pub parse_required_visitor_id : Option Json → Result String
unfolding parse_optional_visitor_id
parse_required_visitor_id value = do id ← parse_optional_visitor_id value; or_fail bad_request id

unfoldable pub contains : Text → Text → Bool
unfolding starts_with
contains part [] = starts_with part []
contains part (c ∷ t) = starts_with part (c ∷ t) || contains part t

abbrev pub an_object : Option Json → Result Json
an_object (some (object fields)) = ok (object fields)
an_object _ = fail bad_request

abbrev pub header_or_empty : Option Text → Text
header_or_empty none = []
header_or_empty (some t) = t

unfoldable pub read_json_body : Runtime → Option Text → Text → Result Json
unfolding is_empty trim contains
read_json_body rt content_type text =
    if is_empty (trim text)
    then ok (object done)
    else (if not (contains (codes "application/json") (header_or_empty content_type))
        then fail bad_request
        else an_object (rt.parse text))

-- What stands behind the first `=`: `rest.join("=")`.
unfoldable pub after_equals : Text → Text
after_equals [] = []
after_equals (c ∷ t) = let rest = after_equals t in if c == b'=' then t else rest

unfoldable pub find_ticket : (Text → Option Text) → List Text → Extracted
unfolding before_equals after_equals trim
find_ticket decode [] = missing
find_ticket decode (p ∷ ps) =
    let rest = find_ticket decode ps in
    if same_text (before_equals (trim p)) (codes "tg_ticket")
    then decoded (decode (after_equals (trim p)))
    else rest

unfoldable pub read_ticket_cookie : (Text → Option Text) → Option Text → Extracted
unfolding find_ticket split_on
read_ticket_cookie decode none = missing
read_ticket_cookie decode (some header) = find_ticket decode (split_on b';' header)
