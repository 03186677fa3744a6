-- ===== src/Gate/Clients.antt =====
-- Who a client is and where from: src/auth/client-ip.ts, src/auth/geo-country.ts,
-- src/admin/geo-block.ts, and what they read of the bypass and geo-block settings.
use tide_guard.Base.{
  ℕ, ◌-◌, Bool, true, false, not, ◌&&◌, ◌||◌, Option, none, some, List, [], ◌∷◌, ◌++◌, map, take,
  leb, ◌==◌, if◌then◌else◌, length,
}
use tide_guard.Auth.{Text, codes, is_empty}
use tide_guard.Auth.Texts.{trim, every}
use tide_guard.Auth.Ip.Allowlist.{member, ip_matches_allowlist}
use tide_guard.Gate.Rules.{WebRequest}

abbrev pub filled : Text → Option Text
filled [] = none
filled (c ∷ t) = some (c ∷ t)

unfoldable pub client_connecting_ip : WebRequest → Option Text
unfolding trim
client_connecting_ip req = elim (req.connecting_ip) [ none ↦ none | some raw ↦ filled (trim raw) ]

abbrev pub to_upper_char : ℕ → ℕ
to_upper_char c = if leb b'a' c && leb c b'z' then c - 32 else c

-- `/^[A-Z]{2}$/`.
unfoldable pub is_country : Text → Bool
unfolding every
is_country t = length t == 2 && every (λ c. leb b'A' c && leb c b'Z') t

unfoldable pub client_country_code : WebRequest → Option Text
unfolding is_country trim
client_country_code req = elim (req.ip_country) [
  | none ↦ none
  | some raw ↦
      let code = map to_upper_char (trim raw) in if is_country code then some code else none
]

-- The part of the settings that the decision reads.
pub record BypassSettings : Type 0 where
  pub allowlist : List Text

unfoldable pub is_ip_allowlisted : Option Text → BypassSettings → Bool
unfolding is_empty ip_matches_allowlist
is_ip_allowlisted none settings = false
is_ip_allowlisted (some ip) settings =
    not (is_empty ip)
    && not (is_empty settings.allowlist)
    && ip_matches_allowlist ip settings.allowlist

-- `updatedAt` is only shown.
pub record GeoBlockSettings : Type 0 where
  pub enabled : Bool
  pub countries : List Text
  pub expires_at : Option ℕ

abbrev pub has_passed : Option ℕ → ℕ → Bool
has_passed none now = false
has_passed (some t) now = leb t now

unfoldable pub is_geo_block_active : GeoBlockSettings → ℕ → Bool
unfolding is_empty
is_geo_block_active settings now =
    if not settings.enabled || is_empty settings.countries
    then false
    else (if has_passed settings.expires_at now then false else true)

unfoldable pub effective_blocked_countries : GeoBlockSettings → ℕ → List Text
unfolding is_geo_block_active
effective_blocked_countries settings now =
    if is_geo_block_active settings now then settings.countries else []

unfoldable pub is_country_blocked : Option Text → List Text → Bool
unfolding is_empty
is_country_blocked none blocked = false
is_country_blocked (some country) blocked = not (is_empty blocked) && member country blocked

pub record GeoBlockDecision : Type 0 where
  pub blocked : Bool
  pub country : Option Text

-- The count of hits that a blocked request adds to is kept elsewhere, and its failure is ignored.
unfoldable pub evaluate_geo_block :
    WebRequest → GeoBlockSettings → BypassSettings → ℕ → GeoBlockDecision
unfolding client_country_code effective_blocked_countries is_empty is_ip_allowlisted
    client_connecting_ip is_country_blocked
evaluate_geo_block req geo bypass now =
    let country = client_country_code req in
    let list = effective_blocked_countries geo now in
    if is_empty list
    then record { blocked = false; country = country }
    else (if is_ip_allowlisted (client_connecting_ip req) bypass
        then record { blocked = false; country = country }
        else record { blocked = is_country_blocked country list; country = country })

abbrev pub is_alnum : ℕ → Bool
is_alnum c = (leb b'0' c && leb c b'9') || (leb b'A' c && leb c b'Z') || (leb b'a' c && leb c b'z')

-- `bypass_` and the address, with other characters as `_`, at most 100 of them.
unfoldable pub bypass_visitor : Text → Text
bypass_visitor ip = codes "bypass_" ++ take 100 (map (λ c. if is_alnum c then c else b'_') ip)
