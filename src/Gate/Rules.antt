-- ===== src/Gate/Rules.antt =====
-- The rules of a room that let a request through: `evaluateRoomRuleBypass` of
-- src/admin/room-rules-store.ts, and the request as the gate reads it.
use tide_guard.Base.{
  ℕ, Bool, true, false, not, ◌&&◌, ◌||◌, Option, none, some, List, [], ◌∷◌, map, leb, ◌==◌,
  if◌then◌else◌,
}
use tide_guard.Auth.{Text, codes, is_empty}
use tide_guard.Auth.Encoding.{split_on}
use tide_guard.Auth.Texts.{trim, same_text}
use tide_guard.Auth.Ip.Allowlist.{to_lower_char, member}

-- The headers that the gate reads, the query's `accessToken`, and any other header by its name.
pub record WebRequest : Type 0 where
  pub user_agent : Option Text
  pub cookie : Option Text
  pub authorization : Option Text
  pub query_token : Option Text
  pub connecting_ip : Option Text
  pub ip_country : Option Text
  pub header : Text → Option Text

pub record RoomRules : Type 0 where
  pub seo_crawler_bypass : Bool
  pub cookie_bypass_name : Text
  pub header_bypass_name : Text
  pub header_bypass_value : Text

pub data RuleBypass : Type 0 where
  seo_crawler by_cookie by_header : RuleBypass

unfoldable pub starts_with : Text → Text → Bool
starts_with [] t = true
starts_with (c ∷ cs) [] = false
starts_with (c ∷ cs) (x ∷ t) = c == x && starts_with cs t

-- A character of `\w`.
abbrev pub is_word : ℕ → Bool
is_word c =
    (leb b'0' c && leb c b'9')
    || (leb b'A' c && leb c b'Z')
    || (leb b'a' c && leb c b'z')
    || c == b'_'

abbrev pub put_char : ℕ → List Text → List Text
put_char c [] = (c ∷ []) ∷ []
put_char c (p ∷ ps) = (c ∷ p) ∷ ps

-- The runs of word characters, with empty ones between two others.
unfoldable pub word_runs : Text → List Text
word_runs [] = [] ∷ []
word_runs (c ∷ t) = let rest = word_runs t in if is_word c then put_char c rest else [] ∷ rest

abbrev pub crawlers : List Text
crawlers =
    codes "googlebot"
    ∷ codes "bingbot"
    ∷ codes "duckduckbot"
    ∷ codes "baiduspider"
    ∷ codes "yandexbot"
    ∷ codes "slurp"
    ∷ []

unfoldable pub any_text : (Text → Bool) → List Text → Bool
any_text p [] = false
any_text p (t ∷ ts) = p t || any_text p ts

-- `CRAWLER_UA`: a name between word boundaries is a whole run of word characters.
unfoldable pub is_crawler : Option Text → Bool
unfolding word_runs any_text
is_crawler none = false
is_crawler (some ua) = any_text (λ run. member run crawlers) (word_runs (map to_lower_char ua))

unfoldable pub before_equals : Text → Text
before_equals [] = []
before_equals (c ∷ t) = if c == b'=' then [] else c ∷ before_equals t

unfoldable pub has_cookie : Text → Option Text → Bool
unfolding any_text trim before_equals split_on
has_cookie name none = same_text [] name
has_cookie name (some cookies) =
    any_text (λ part. same_text (before_equals (trim part)) name) (split_on b';' cookies)

abbrev pub header_is : Option Text → Text → Bool
header_is none value = false
header_is (some h) value = same_text h value

unfoldable pub evaluate_room_rule_bypass : WebRequest → RoomRules → Option RuleBypass
unfolding is_crawler has_cookie is_empty
evaluate_room_rule_bypass req rules =
    if rules.seo_crawler_bypass && is_crawler (req.user_agent)
    then some seo_crawler
    else (if not (is_empty rules.cookie_bypass_name)
          && has_cookie rules.cookie_bypass_name (req.cookie)
        then some by_cookie
        else (if not (is_empty rules.header_bypass_name)
              && header_is (req.header rules.header_bypass_name) rules.header_bypass_value
            then some by_header
            else none))
