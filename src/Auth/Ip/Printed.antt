-- ===== src/Auth/Ip/Printed.antt =====
-- The characters that `formatIp` of src/auth/ip-allowlist.ts prints: none of them is trimmed, and
-- none is a slash.
use tide_guard.Base.{
  ℕ, ◌<◌, ◌≡◌, refl, ap, ◌∙◌, Bool, true, false, ◌&&◌, ◌||◌, none, some, List, [], ◌∷◌, ◌++◌, map,
  All, ◌==◌, if◌then◌else◌, arith,
}
use tide_guard.Js.{is_space}
use tide_guard.Auth.{Text, is_empty}
use tide_guard.Auth.Encoding.{dot, join_on, split_on}
use tide_guard.Auth.Encoding.Compare.{Bytes, holds_under, at_number}
use tide_guard.Auth.Ip.{colon, slash, parse_ipv4, IpVersion, v4, v6, Ip, parse_ip, format_ip}
use tide_guard.Auth.Texts.{
  includes, trim, trim_start, trim_end, every, is_hex, is_decimal, read_digits, show_small,
  show_hex, hex_digits,
}
use tide_guard.Auth.Ip.Separators.{every-All, All-weaken}
use tide_guard.Auth.Ip.Digits.{every-hex, hex_digits-Spells, Spells}
use tide_guard.Auth.Ip.RoundTrip.{size, pairs, show_words-pairs, pairs-words, SmallWords}
use tide_guard.Auth.Ip.Parsed.{Sized}
use tide_guard.Auth.Ip.Allowlist.{cut_at}

-- A character that `formatIp` prints.
unfoldable pub is_printed : ℕ → Bool
is_printed c = is_hex c || c == dot || c == colon

unfoldable pub Printed : Text → Type 0
Printed = All λ c. is_printed c ≡ true

pub All-append {ℓ κ} :
    {A : Type ℓ} (P : A → Type κ) (xs ys : List A) → All P xs → All P ys → All P (xs ++ ys)
All-append P [] ys h k = k
All-append P (x ∷ xs) ys h k = (h.0, All-append P xs ys (h.1) k)

pub join_on-Printed :
    (c : ℕ) (ps : List Text) → is_printed c ≡ true → All Printed ps → Printed (join_on c ps)
unfolding join_on Printed
join_on-Printed c [] h k = tt
join_on-Printed c (p ∷ []) h k = k.0
join_on-Printed c (p ∷ q ∷ ps) h k = All-append _ p _ (k.0) (h, join_on-Printed c (q ∷ ps) h (k.1))

pub hex-Printed : (t : Text) → every is_hex t ≡ true → Printed t
unfolding Printed is_printed
hex-Printed t h = All-weaken _ _ t (λ c k. ground arith) (every-All is_hex t h)

small_table :
    holds_under 256 (λ n.
      every is_hex (show_small n)
      && is_decimal (show_small n)
      && read_digits 10 0 (show_small n) == n)
    ≡ true
unfolding holds_under every show_small is_decimal read_digits
small_table = refl

pub small_laws :
    (n : ℕ)
    → n < 256
    → (every is_hex (show_small n) ≡ true)
      × (is_decimal (show_small n) ≡ true)
      × (read_digits 10 0 (show_small n) ≡ n)
small_laws n h =
    let laws = at_number 256 _ n small_table h in (ground arith, ground arith, ground arith)

pub show_small-all : (bs : List ℕ) → Bytes bs → All Printed (map show_small bs)
show_small-all [] h = tt
show_small-all (b ∷ bs) h = (hex-Printed _ ((small_laws b (h.0)).0), show_small-all bs (h.1))

pub show_hex-all : (ws : List ℕ) → SmallWords ws → All Printed (map show_hex ws)
unfolding show_hex Spells
show_hex-all [] h = tt
show_hex-all (w ∷ ws) h = (
  hex-Printed _ (every-hex (hex_digits w) ((hex_digits-Spells w (h.0)).0)),
  show_hex-all ws (h.1),
)

pub format_ip-Printed : (v : IpVersion) (bs : List ℕ) → Sized (size v) bs → Printed (format_ip v bs)
unfolding format_ip Sized is_printed
format_ip-Printed v4 bs h = join_on-Printed dot (map show_small bs) refl (show_small-all bs (h.0))
format_ip-Printed v6 bs h = rw (show_words-pairs bs) (
    join_on-Printed colon (map show_hex (pairs bs)) refl
      (show_hex-all (pairs bs) ((pairs-words 8 bs (h.1) (h.0)).1)))

trim_start-plain : (t : Text) → All (λ c. is_space c ≡ false) t → trim_start t ≡ t
unfolding trim_start
trim_start-plain [] h = refl
trim_start-plain (c ∷ t) h = rw (h.0) refl

keep {ℓ} : {A : Type ℓ} (a b : Bool) (x y : A) → b ≡ false → (if a && b then x else y) ≡ y
keep true b x y h = rw h refl
keep false b x y h = refl

trim_end-plain : (t : Text) → All (λ c. is_space c ≡ false) t → trim_end t ≡ t
unfolding trim_end
trim_end-plain [] h = refl
trim_end-plain (c ∷ t) h = rw (trim_end-plain t (h.1)) (keep (is_empty t) (is_space c) _ _ (h.0))

-- A text without white space is trimmed to itself.
pub trim-plain : (t : Text) → All (λ c. is_space c ≡ false) t → trim t ≡ t
unfolding trim
trim-plain t h = ap trim_end (trim_start-plain t h) ∙ trim_end-plain t h

pub printed-plain : (c : ℕ) → is_printed c ≡ true → (is_space c ≡ false) × ((c == slash) ≡ false)
unfolding is_printed
printed-plain c h = (ground arith, ground arith)

pub cut_at-none : (c : ℕ) (t : Text) → All (λ x. (x == c) ≡ false) t → cut_at c t ≡ none
unfolding cut_at
cut_at-none c [] h = refl
cut_at-none c (x ∷ t) h = rw (h.0, cut_at-none c t (h.1)) refl

pub cut_at-first :
    (c : ℕ) (t s : Text) → All (λ x. (x == c) ≡ false) t → cut_at c (t ++ c ∷ s) ≡ some (t, s)
unfolding cut_at
cut_at-first c [] s h = ground arith
cut_at-first c (x ∷ t) s h = rw (h.0, cut_at-first c t s (h.1)) refl

pub parsed-filled : (t : Text) (ip : Ip) → parse_ip t ≡ some ip → is_empty t ≡ false
unfolding parse_ip is_empty includes parse_ipv4 split_on
parsed-filled [] ip h = cc
parsed-filled (x ∷ t) ip h = refl

pub plain_text :
    (t : Text) → Printed t → All (λ c. is_space c ≡ false) t × All (λ c. (c == slash) ≡ false) t
unfolding Printed
plain_text t h = (
  All-weaken _ _ t (λ c k. (printed-plain c k).0) h,
  All-weaken _ _ t (λ c k. (printed-plain c k).1) h,
)
