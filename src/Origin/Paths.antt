-- ===== src/Origin/Paths.antt =====
-- The paths that the Worker serves itself, gates or forwards: src/core/origin.ts.
use tide_guard.Base.{Bool, true, not, ◌||◌, List, [], ◌∷◌, ◌++◌, if◌then◌else◌}
use tide_guard.Auth.{Text, codes}
use tide_guard.Auth.Ip.{slash}
use tide_guard.Auth.Texts.{same_text}
use tide_guard.Auth.Ip.Allowlist.{member}
use tide_guard.Gate.Rules.{starts_with, any_text}
use tide_guard.Origin.Hosts.{drop_end}

abbrev pub reserved_exact : List Text
reserved_exact =
    codes "/health"
    ∷ codes "/wait"
    ∷ codes "/join"
    ∷ codes "/status"
    ∷ codes "/leave"
    ∷ codes "/heartbeat"
    ∷ codes "/enter"
    ∷ codes "/admit"
    ∷ codes "/mode"
    ∷ codes "/pause"
    ∷ codes "/metrics"
    ∷ codes "/admin"
    ∷ codes "/cost"
    ∷ codes "/demo"
    ∷ codes "/api/cost-estimate"
    ∷ codes "/sounds/notification.mp3"
    ∷ codes "/brand/logo.png"
    ∷ codes "/brand/favicon.png"
    ∷ []

abbrev pub reserved_prefixes : List Text
reserved_prefixes = codes "/api/admin" ∷ codes "/brand" ∷ []

abbrev pub is_under : Text → Text → Bool
is_under pathname prefix = same_text pathname prefix || starts_with (prefix ++ slash ∷ []) pathname

unfoldable pub is_static_tide_guard_path : Text → Bool
unfolding starts_with any_text
is_static_tide_guard_path pathname =
    if member pathname reserved_exact
    then true
    else (if same_text pathname (codes "/admin") || starts_with (codes "/admin/") pathname
        then true
        else any_text (is_under pathname) reserved_prefixes)

unfoldable pub is_tide_guard_path : Text → Bool → Bool
unfolding is_static_tide_guard_path
is_tide_guard_path pathname origin_enabled =
    if same_text pathname (codes "/")
    then not origin_enabled
    else is_static_tide_guard_path pathname

unfoldable pub path_matches_prefix : Text → Text → Bool
unfolding starts_with drop_end
path_matches_prefix pathname prefix =
    if same_text pathname prefix
    then true
    else starts_with (drop_end slash prefix ++ slash ∷ []) pathname
