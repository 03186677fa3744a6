-- ===== src/Origin/Hosts.antt =====
-- The hosts that the proxy refuses: `isBlockedOriginHost` of src/core/origin.ts.
use tide_guard.Base.{
  ℕ, Bool, true, false, ◌&&◌, ◌||◌, List, [], ◌∷◌, map, length, leb, ltb, ◌==◌, if◌then◌else◌,
}
use tide_guard.Auth.{Text, codes, is_empty}
use tide_guard.Auth.Encoding.{dot, split_on}
use tide_guard.Auth.Ip.{colon}
use tide_guard.Auth.Texts.{every, includes, is_decimal, read_digits, same_text}
use tide_guard.Auth.Ip.Allowlist.{to_lower_char}
use tide_guard.Gate.Rules.{starts_with}

-- Without one `c` at the end, and without all of them.
unfoldable pub drop_end : ℕ → Text → Text
drop_end c [] = []
drop_end c (x ∷ []) = if x == c then [] else x ∷ []
drop_end c (x ∷ y ∷ t) = x ∷ drop_end c (y ∷ t)

unfoldable pub strip_end : ℕ → Text → Text
unfolding is_empty
strip_end c [] = []
strip_end c (x ∷ t) = let rest = strip_end c t in if is_empty rest && x == c then [] else x ∷ rest

unfoldable pub ends_with : Text → Text → Bool
ends_with end [] = same_text end []
ends_with end (x ∷ t) = same_text end (x ∷ t) || ends_with end t

abbrev pub is_local_name : Text → Bool
is_local_name host =
    same_text host (codes "localhost")
    || ends_with (codes ".localhost") host
    || same_text host (codes "metadata.google.internal")
    || same_text host (codes "metadata")
    || same_text host (codes "0.0.0.0")
    || same_text host (codes "::")
    || same_text host (codes "::1")

-- One to three digits.
abbrev pub is_short_number : Text → Bool
is_short_number t = is_decimal t && leb (length t) 3

-- `/^\d{1,3}(\.\d{1,3}){3}$/`.
unfoldable pub is_dotted : Text → Bool
unfolding every is_decimal split_on
is_dotted host = let parts = split_on dot host in length parts == 4 && every is_short_number parts

abbrev pub is_private_pair : ℕ → ℕ → Bool
is_private_pair a b =
    a == 10
    || a == 127
    || a == 0
    || (a == 169 && b == 254)
    || (a == 172 && leb 16 b && leb b 31)
    || (a == 192 && b == 168)
    || (a == 100 && leb 64 b && leb b 127)

abbrev pub is_private_quad : List ℕ → Bool
is_private_quad (a ∷ b ∷ c ∷ d ∷ []) =
    if ltb 255 a || ltb 255 b || ltb 255 c || ltb 255 d then true else is_private_pair a b
is_private_quad _ = true

-- It is called on a dotted host.
unfoldable pub is_private_ipv4 : Text → Bool
unfolding split_on read_digits
is_private_ipv4 host = is_private_quad (map (read_digits 10 0) (split_on dot host))

unfoldable pub is_private_ipv6 : Text → Bool
unfolding starts_with
is_private_ipv6 host =
    let normalized = map to_lower_char host in
    same_text normalized (codes "::1")
    || same_text normalized (codes "::")
    || starts_with (codes "fc") normalized
    || starts_with (codes "fd") normalized
    || starts_with (codes "fe80:") normalized

abbrev pub is_blocked_name : Text → Bool
is_blocked_name host =
    if is_local_name host
    then true
    else (if is_dotted host
        then is_private_ipv4 host
        else (if includes colon host then is_private_ipv6 host else false))

unfoldable pub is_blocked_origin_host : Text → Bool
unfolding ends_with is_dotted is_private_ipv4 includes is_private_ipv6 strip_end
is_blocked_origin_host hostname = is_blocked_name (strip_end dot (map to_lower_char hostname))
