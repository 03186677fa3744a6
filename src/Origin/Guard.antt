-- ===== src/Origin/Guard.antt =====
-- What the guard of src/core/origin.ts makes of an IPv6 address as `URL.hostname` writes it, in
-- brackets.
use tide_guard.Base.{
  ℕ, All, ◌≡◌, refl, ◌∙◌, ap, Bool, true, false, ◌&&◌, Option, some, List, [], ◌∷◌, ◌++◌, map, ◌==◌,
  if◌then◌else◌, arith,
}
use tide_guard.Auth.{Text, codes, is_empty}
use tide_guard.Auth.Encoding.{dot, split_on, put_first}
use tide_guard.Auth.Texts.{every, is_decimal, trim, same_text}
use tide_guard.Auth.Ip.Allowlist.{to_lower_char}
use tide_guard.Gate.Rules.{starts_with}
use tide_guard.Origin.{Url, is_http, origin_of, normalize_origin_url}
use tide_guard.Origin.Hosts.{
  strip_end, ends_with, is_local_name, is_short_number, is_dotted, is_private_ipv6, is_blocked_name,
  is_blocked_origin_host,
}

abbrev pub bracketed : Text → Text
bracketed t = b'[' ∷ t ++ b']' ∷ []

strip-bracketed : (t : Text) → strip_end dot (t ++ b']' ∷ []) ≡ t ++ b']' ∷ []
unfolding strip_end is_empty
strip-bracketed [] = refl
strip-bracketed (c ∷ t) = rw (strip-bracketed t) (keep c t)
  where
    keep :
        (c : ℕ) (t : Text)
        → (if is_empty (t ++ b']' ∷ []) && c == dot then [] else c ∷ t ++ b']' ∷ [])
          ≡ c ∷ t ++ b']' ∷ []
    keep c [] = refl
    keep c (d ∷ t) = refl

same-end : (s t : Text) → All (λ c. (c == b']') ≡ false) s → same_text s (t ++ b']' ∷ []) ≡ false
same-end [] [] h = refl
same-end [] (x ∷ t) h = refl
same-end (c ∷ s) [] h = rw (h.0) refl
same-end (c ∷ s) (x ∷ t) h = ground (arith, same-end s t (h.1))

-- No text that ends in a bracket ends in a name without one.
ends-bracket :
    (c : ℕ) (s t : Text)
    → All (λ x. (x == b']') ≡ false) (c ∷ s)
    → ends_with (c ∷ s) (t ++ b']' ∷ []) ≡ false
unfolding ends_with
ends-bracket c s [] h = rw (h.0) refl
ends-bracket c s (x ∷ t) h = rw (same-end (c ∷ s) (x ∷ t) h, ends-bracket c s t h) refl

lower-bracketed : (t : Text) → map to_lower_char (t ++ b']' ∷ []) ≡ map to_lower_char t ++ b']' ∷ []
lower-bracketed [] = refl
lower-bracketed (c ∷ t) = ap (λ u. to_lower_char c ∷ u) (lower-bracketed t)

and-false : (b : Bool) → (b && false) ≡ false
and-false true = refl
and-false false = refl

bracket-first : (ps : List Text) → every is_short_number (put_first b'[' ps) ≡ false
unfolding every is_decimal is_empty
bracket-first [] = refl
bracket-first (p ∷ ps) = refl

not-dotted : (t : Text) → is_dotted (b'[' ∷ t) ≡ false
unfolding is_dotted split_on
not-dotted t = rw (bracket-first (split_on dot t)) (and-false _)

same_sides : (b : Bool) → (if b then false else false) ≡ false
same_sides true = refl
same_sides false = refl

not-local : (t : Text) → is_local_name (bracketed t) ≡ false
unfolding ends_with
not-local t =
    rw
      (ends-bracket b'.' (codes "localhost") t
        (refl, (refl, (refl, (refl, (refl, (refl, (refl, (refl, (refl, (refl, tt)))))))))))
      refl

not-private : (t : Text) → is_private_ipv6 (b'[' ∷ t) ≡ false
unfolding is_private_ipv6 starts_with
not-private t = refl

name-Allowed : (t : Text) → is_blocked_name (bracketed t) ≡ false
name-Allowed t =
    rw (not-local t, not-dotted (t ++ b']' ∷ []), not-private (t ++ b']' ∷ [])) (same_sides _)

host-Allowed : (t : Text) → is_blocked_origin_host (bracketed t) ≡ false
unfolding is_blocked_origin_host
host-Allowed t =
    ap (λ u. is_blocked_name (strip_end dot (b'[' ∷ u))) (lower-bracketed t)
    ∙ ap is_blocked_name (strip-bracketed (b'[' ∷ map to_lower_char t))
    ∙ name-Allowed (map to_lower_char t)

-- An origin URL whose host is an IPv6 address in brackets, which is how a parsed URL writes every
-- one, is taken whatever the address is, the loopback and the private ones included. The URL
-- parses, its scheme is http or https, and the value is not blank.
pub bracketed-Allowed :
    (parse_url : Text → Option Url) (value : Text) (url : Url) (t : Text)
    → is_empty (trim value) ≡ false
    → parse_url (trim value) ≡ some url
    → is_http (url.protocol) ≡ true
    → url.hostname ≡ bracketed t
    → normalize_origin_url parse_url (some value) ≡ some (origin_of url)
unfolding normalize_origin_url
bracketed-Allowed parse_url value url t filled h http host =
    let allowed : is_blocked_origin_host (url.hostname) ≡ false =
      ap is_blocked_origin_host host ∙ host-Allowed t in
    rw (filled, h, http, allowed) refl
