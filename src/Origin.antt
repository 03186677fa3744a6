-- ===== src/Origin.antt =====
-- The configuration of the proxy to the origin: src/core/origin.ts. Which hosts it may have is in
-- the child Hosts, which paths it serves in the child Paths.
pub mod Hosts
pub mod Paths
pub mod Guard
pub mod Merged
use tide_guard.Base.{
  Bool, true, false, not, ◌&&◌, ◌||◌, Option, none, some, List, [], ◌∷◌, ◌++◌, map, length, ltb,
  ◌==◌, if◌then◌else◌, filter,
}
use tide_guard.Auth.{Text, codes, is_empty}
use tide_guard.Auth.Ip.{slash}
use tide_guard.Auth.Texts.{trim, same_text}
use tide_guard.Auth.Ip.Allowlist.{to_lower_char, split_lines}
use tide_guard.Origin.Hosts.{is_blocked_origin_host, drop_end}
use tide_guard.Gate.Rules.{starts_with, any_text}
use tide_guard.Origin.Paths.{is_tide_guard_path, path_matches_prefix}

pub record OriginProxyConfig : Type 0 where
  pub enabled : Bool
  pub origin_url : Option Text
  pub protect_all : Bool
  pub path_prefixes : List Text
  pub queue : Text

-- What the code reads of a parsed `URL`.
pub record Url : Type 0 where
  pub protocol : Text
  pub hostname : Text
  pub host : Text

abbrev pub is_http : Text → Bool
is_http protocol = same_text protocol (codes "http:") || same_text protocol (codes "https:")

abbrev pub origin_of : Url → Text
origin_of url = url.protocol ++ codes "//" ++ url.host

abbrev pub checked_url : Option Url → Option Text
checked_url none = none
checked_url (some url) =
    if not (is_http (url.protocol))
    then none
    else (if is_blocked_origin_host (url.hostname) then none else some (origin_of url))

-- `parse_url` is the constructor of `URL`, with none where it throws.
unfoldable pub normalize_origin_url : (Text → Option Url) → Option Text → Option Text
unfolding is_empty trim is_blocked_origin_host
normalize_origin_url parse_url none = none
normalize_origin_url parse_url (some value) =
    let trimmed = trim value in if is_empty trimmed then none else checked_url (parse_url trimmed)

abbrev pub is_path : Text → Bool
is_path part = starts_with (codes "/") part && not (starts_with (codes "//") part)

abbrev pub without_slash : Text → Text
without_slash part = if ltb 1 (length part) then drop_end slash part else part

unfoldable pub parse_path_prefixes : Text → List Text
unfolding split_lines trim starts_with drop_end
parse_path_prefixes value = map without_slash (filter is_path (map trim (split_lines value)))

abbrev pub bool_of : Text → Bool → Bool
bool_of t fallback =
    if same_text t (codes "true") || same_text t (codes "1") || same_text t (codes "yes")
    then true
    else (if same_text t (codes "false") || same_text t (codes "0") || same_text t (codes "no")
        then false
        else fallback)

unfoldable pub parse_bool : Option Text → Bool → Bool
unfolding trim is_empty
parse_bool none fallback = fallback
parse_bool (some value) fallback =
    if is_empty value then fallback else bool_of (map to_lower_char (trim value)) fallback

pub record OriginEnv : Type 0 where
  pub origin_url : Option Text
  pub origin_protect_all : Option Text
  pub origin_path_prefixes : Option Text
  pub default_queue : Option Text

abbrev pub or_empty : Option Text → Text
or_empty none = []
or_empty (some t) = t

abbrev pub or_default : Option Text → Text → Text
or_default none fallback = fallback
or_default (some []) fallback = fallback
or_default (some (c ∷ t)) fallback = c ∷ t

abbrev pub has {ℓ} : {A : Type ℓ} → Option A → Bool
has none = false
has (some a) = true

unfoldable pub parse_origin_config_from_env : (Text → Option Url) → OriginEnv → OriginProxyConfig
unfolding normalize_origin_url parse_bool parse_path_prefixes
parse_origin_config_from_env parse_url env =
    let origin = normalize_origin_url parse_url (some (or_empty (env.origin_url))) in
    record {
      enabled = has origin;
      origin_url = origin;
      protect_all = parse_bool (env.origin_protect_all) true;
      path_prefixes = parse_path_prefixes (or_empty (env.origin_path_prefixes));
      queue = or_default (env.default_queue) (codes "default");
    }

-- A field of none is absent; a URL may also be present and null.
pub record OriginOverride : Type 0 where
  pub enabled : Option Bool
  pub origin_url : Option (Option Text)
  pub protect_all : Option Bool
  pub path_prefixes : Option (List Text)
  pub queue : Option Text

abbrev pub or_kept {ℓ} : {A : Type ℓ} → Option A → A → A
or_kept none kept = kept
or_kept (some a) kept = a

abbrev pub merged_url : (Text → Option Url) → Option (Option Text) → Option Text → Option Text
merged_url parse_url none kept = kept
merged_url parse_url (some value) kept = normalize_origin_url parse_url value

unfoldable pub merge_origin_config :
    (Text → Option Url) → OriginProxyConfig → Option OriginOverride → OriginProxyConfig
unfolding normalize_origin_url
merge_origin_config parse_url config none = config
merge_origin_config parse_url config (some o) =
    let origin = merged_url parse_url (o.origin_url) (config.origin_url) in
    record {
      enabled = or_kept (o.enabled) true && has origin;
      origin_url = origin;
      protect_all = or_kept (o.protect_all) (config.protect_all);
      path_prefixes = or_kept (o.path_prefixes) (config.path_prefixes);
      queue = or_default (o.queue) (config.queue);
    }

abbrev pub is_set : Option Text → Bool
is_set none = false
is_set (some []) = false
is_set (some (c ∷ t)) = true

unfoldable pub should_proxy_to_origin : Text → OriginProxyConfig → Bool
unfolding is_tide_guard_path
should_proxy_to_origin pathname config =
    if not (config.enabled) || not (is_set (config.origin_url))
    then false
    else not (is_tide_guard_path pathname true)

unfoldable pub should_require_admission : Text → OriginProxyConfig → Bool
unfolding is_tide_guard_path any_text path_matches_prefix
should_require_admission pathname config =
    if not (config.enabled) || not (is_set (config.origin_url))
    then false
    else (if is_tide_guard_path pathname true
        then false
        else (if config.protect_all
            then true
            else any_text (path_matches_prefix pathname) (config.path_prefixes)))
