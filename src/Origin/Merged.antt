-- ===== src/Origin/Merged.antt =====
-- Where the proxy sends a request: the configuration of src/core/origin.ts as the environment and
-- the stored override make it, and the paths that are forwarded.
use tide_guard.Base.{
  ◌≡◌, refl, Bool, true, false, not, ◌||◌, Option, none, some, if◌then◌else◌, arith, Bool-cases,
  inl, inr,
}
use tide_guard.Auth.{Text, is_empty}
use tide_guard.Auth.Texts.{trim}
use tide_guard.Gate.Rules.{any_text}
use tide_guard.Origin.{
  Url, OriginProxyConfig, OriginEnv, OriginOverride, is_http, origin_of, checked_url,
  normalize_origin_url, merged_url, parse_origin_config_from_env, merge_origin_config, is_set,
  should_proxy_to_origin, should_require_admission, or_empty,
}
use tide_guard.Origin.Hosts.{is_blocked_origin_host}
use tide_guard.Origin.Paths.{path_matches_prefix, is_tide_guard_path}

-- The origin is the scheme and the host of a URL that may be a target.
unfoldable pub Safe : (Text → Option Url) → Text → Type 0
Safe parse_url origin =
    (value : Text) × (url : Url) × (parse_url value ≡ some url)
    × (origin ≡ origin_of url)
    × (is_http (url.protocol) ≡ true)
    × (is_blocked_origin_host (url.hostname) ≡ false)

unfoldable pub SafeIfSome : (Text → Option Url) → Option Text → Type 0
SafeIfSome parse_url none = Unit
SafeIfSome parse_url (some origin) = Safe parse_url origin

checked-Safe :
    (parse_url : Text → Option Url) (value : Text) (o : Option Url)
    → parse_url value ≡ o
    → SafeIfSome parse_url (checked_url o)
unfolding SafeIfSome Safe
checked-Safe parse_url value none h = tt
checked-Safe parse_url value (some url) h = elim (Bool-cases (is_http (url.protocol))) [
  | inl e ↦ elim (Bool-cases (is_blocked_origin_host (url.hostname))) [
    | inl k ↦ rw (e, k) tt
    | inr k ↦ rw (e, k) (value, url, h, refl, e, k)
  ]
  | inr e ↦ rw e tt
]

normalize-Safe :
    (parse_url : Text → Option Url) (value : Option Text)
    → SafeIfSome parse_url (normalize_origin_url parse_url value)
unfolding normalize_origin_url SafeIfSome
normalize-Safe parse_url none = tt
normalize-Safe parse_url (some value) = elim (Bool-cases (is_empty (trim value))) [
  | inl e ↦ rw e tt
  | inr e ↦ rw e (checked-Safe parse_url (trim value) _ refl)
]

merged-Safe :
    (parse_url : Text → Option Url) (config : OriginProxyConfig) (override : Option OriginOverride)
    → SafeIfSome parse_url (config.origin_url)
    → SafeIfSome parse_url ((merge_origin_config parse_url config override).origin_url)
unfolding merge_origin_config
merged-Safe parse_url config none h = h
merged-Safe parse_url config (some o) h = url (o.origin_url)
  where
    url :
        (v : Option (Option Text))
        → SafeIfSome parse_url (merged_url parse_url v (config.origin_url))
    url none = h
    url (some v) = normalize-Safe parse_url v

set_origin :
    (parse_url : Text → Option Url) (o : Option Text)
    → SafeIfSome parse_url o
    → is_set o ≡ true
    → (origin : Text) × (o ≡ some origin) × Safe parse_url origin
unfolding SafeIfSome
set_origin parse_url none h k = ground arith
set_origin parse_url (some origin) h k = (origin, refl, h)

forwarded :
    (a b p : Bool) → (if not a || not b then false else not p) ≡ true → (b ≡ true) × (p ≡ false)
forwarded a b p h = ground arith

gated :
    (a b p q r : Bool)
    → (if not a || not b then false else (if p then false else (if q then true else r))) ≡ true
    → (if not a || not b then false else not p) ≡ true
gated a b p q r h = ground arith

-- A request that is forwarded under the configuration which the environment and any stored
-- override make goes to the scheme and host of a parsed URL, with http or https and a host that is
-- not refused, and its path is none of the Worker's own.
pub proxied-Safe :
    (parse_url : Text → Option Url) (env : OriginEnv) (override : Option OriginOverride)
    (pathname : Text)
    → let config =
        merge_origin_config parse_url (parse_origin_config_from_env parse_url env) override in
      should_proxy_to_origin pathname config ≡ true
      → ((origin : Text) × (config.origin_url ≡ some origin) × Safe parse_url origin)
        × (is_tide_guard_path pathname true ≡ false)
unfolding should_proxy_to_origin parse_origin_config_from_env
proxied-Safe parse_url env override pathname h =
    let config =
      merge_origin_config parse_url (parse_origin_config_from_env parse_url env) override in
    let (present, own) =
      forwarded (config.enabled) (is_set (config.origin_url)) (is_tide_guard_path pathname true)
        h in
    (
      set_origin parse_url (config.origin_url)
          (merged-Safe parse_url (parse_origin_config_from_env parse_url env) override
            (normalize-Safe parse_url (some (or_empty (env.origin_url)))))
          present,
      own,
    )

pub required-Proxied :
    (pathname : Text) (config : OriginProxyConfig)
    → should_require_admission pathname config ≡ true
    → should_proxy_to_origin pathname config ≡ true
unfolding should_proxy_to_origin should_require_admission
required-Proxied pathname config h =
    gated (config.enabled) (is_set (config.origin_url)) (is_tide_guard_path pathname true)
      (config.protect_all) (any_text (path_matches_prefix pathname) (config.path_prefixes)) h
