-- ===== src/Auth/Ip.antt =====
-- Addresses and networks: parsing, printing and masks of src/auth/ip-allowlist.ts. The list of
-- networks is in the child Allowlist.
pub mod Allowlist
pub mod Networks
pub mod Separators
pub mod Digits
pub mod RoundTrip
pub mod Parsed
pub mod Printed
pub mod Canonical
use tide_guard.Base.{
  ℕ, zero, suc, ◌+◌, ◌-◌, ◌*◌, ◌/◌, ◌%◌, ◌^◌, Bool, true, false, not, ◌&&◌, ◌||◌, Option, none,
  some, List, [], ◌∷◌, ◌++◌, map, length, ltb, leb, ◌==◌, if◌then◌else◌,
}
use Prim.Native.Nat.{bit_and}
use tide_guard.Js.{is_space}
use tide_guard.Auth.{Text, is_empty}
use tide_guard.Auth.Texts.{
  trim_start, trim_end, trim, includes, is_digit, is_hex, every, is_decimal, is_hex_word, hex_value,
  read_digits, show_small, hex_digit, hex_digits, show_hex, show_hex_byte, same_text,
}
use tide_guard.Auth.Encoding.{dot, split_on, join_on, repeat}

abbrev pub colon : ℕ
colon = b':'

abbrev pub slash : ℕ
slash = b'/'

-- One part of an IPv4 address: decimal, at most 255, and written without leading zeros.
unfoldable pub parse_octet : Text → Option ℕ
unfolding is_decimal read_digits show_small
parse_octet part =
    let n = read_digits 10 0 part in
    if not (is_decimal part)
    then none
    else (if ltb 255 n
        then none
        else (if not (same_text (show_small n) part) then none else some n))

abbrev pub cons_option {ℓ} : {A : Type ℓ} → Option A → Option (List A) → Option (List A)
cons_option (some x) (some xs) = some (x ∷ xs)
cons_option _ _ = none

unfoldable pub parse_octets : List Text → Option (List ℕ)
unfolding parse_octet
parse_octets [] = some []
parse_octets (p ∷ ps) = cons_option (parse_octet p) (parse_octets ps)

unfoldable pub parse_ipv4 : Text → Option (List ℕ)
unfolding split_on parse_octets
parse_ipv4 value =
    let parts = split_on dot value in if length parts == 4 then parse_octets parts else none

abbrev pub put_before : ℕ → Option (Text × Text) → Option (Text × Text)
put_before c none = none
put_before c (some (h, t)) = some (c ∷ h, t)

-- The two sides of the first `::`.
unfoldable pub cut_pair : Text → Option (Text × Text)
cut_pair [] = none
cut_pair (x ∷ []) = none
cut_pair (x ∷ y ∷ xs) =
    let rest = cut_pair (y ∷ xs) in
    if x == colon && y == colon then some ([], xs) else put_before x rest

-- The text up to the last colon, and what follows it.
unfoldable pub cut_last_colon : Text → Option (Text × Text)
cut_last_colon [] = none
cut_last_colon (x ∷ xs) =
    let rest = cut_last_colon xs in
    elim rest [
      | some p ↦ put_before x (some p)
      | none ↦ if x == colon then some (x ∷ [], xs) else none
    ]

abbrev pub hex_tail : Text → Option (List ℕ) → Option Text
hex_tail h (some (a ∷ b ∷ c ∷ d ∷ [])) =
    some (h ++ show_hex_byte a ++ show_hex_byte b ++ colon ∷ show_hex_byte c ++ show_hex_byte d)
hex_tail h _ = none

abbrev pub mapped_tail : Option (Text × Text) → Text → Option Text
mapped_tail none input = some input
mapped_tail (some (h, t)) input = hex_tail h (parse_ipv4 t)

-- An IPv4 address at the end becomes two words.
unfoldable pub expand_mapped : Text → Option Text
unfolding includes cut_last_colon
expand_mapped input =
    if includes dot input then mapped_tail (cut_last_colon input) input else some input

-- `s === "" ? [] : s.split(":")`.
abbrev pub words_of : Text → List Text
words_of [] = []
words_of (x ∷ xs) = split_on colon (x ∷ xs)

abbrev pub read_word : Text → ℕ
read_word = read_digits 16 0

abbrev pub word_bytes : List ℕ → List ℕ
word_bytes [] = []
word_bytes (w ∷ ws) = w / 256 % 256 ∷ w % 256 ∷ word_bytes ws

abbrev pub parse_full : List Text → Option (List ℕ)
parse_full parts =
    if not (every is_hex_word parts)
    then none
    else (if not (length parts == 8) then none else some (word_bytes (map read_word parts)))

abbrev pub parse_halves : List Text → List Text → Option (List ℕ)
parse_halves head tail =
    if not (every is_hex_word (head ++ tail))
    then none
    else (if ltb 8 (length head + length tail)
        then none
        else some (
            word_bytes (
              map read_word head
              ++ repeat (8 - length head - length tail) 0
              ++ map read_word tail)))

-- A second `::` after the first one is refused.
abbrev pub parse_sides : Option (Text × Text) → Text → Text → Option (List ℕ)
parse_sides none h t = parse_halves (words_of h) (words_of t)
parse_sides (some p) h t = none

abbrev pub parse_around : Option (Text × Text) → Text → Option (List ℕ)
parse_around none input = parse_full (split_on colon input)
parse_around (some (h, t)) input = parse_sides (cut_pair t) h t

abbrev pub parse_expanded : Option Text → Option (List ℕ)
parse_expanded none = none
parse_expanded (some input) = parse_around (cut_pair input) input

unfoldable pub parse_ipv6 : Text → Option (List ℕ)
unfolding expand_mapped cut_pair split_on every is_hex_word read_digits repeat
parse_ipv6 value = parse_expanded (expand_mapped value)

pub data IpVersion : Type 0 where
  v4 v6 : IpVersion

pub record Ip : Type 0 where
  pub version : IpVersion
  pub bytes : List ℕ

abbrev pub of_version : IpVersion → Option (List ℕ) → Option Ip
of_version v none = none
of_version v (some bytes) = some (record { version = v; bytes = bytes })

unfoldable pub parse_ip : Text → Option Ip
unfolding includes parse_ipv4 parse_ipv6
parse_ip value =
    if includes colon value
    then of_version v6 (parse_ipv6 value)
    else of_version v4 (parse_ipv4 value)

-- The mask for the byte that the prefix ends in is `0xff << (8 - remaining)`. In all three branches
-- of the loop `remaining` goes down by 8, and stops at 0.
unfoldable pub mask_address : List ℕ → ℕ → List ℕ
mask_address [] remaining = []
mask_address (b ∷ bs) remaining =
    let rest = mask_address bs (remaining - 8) in
    if leb 8 remaining
    then b ∷ rest
    else (if ltb 0 remaining then bit_and b (255 * 2 ^ (8 - remaining)) ∷ rest else 0 ∷ rest)

unfoldable pub address_in_network : List ℕ → List ℕ → ℕ → Bool
unfolding mask_address
address_in_network address network prefix_length =
    if not (length address == length network)
    then false
    else same_text (mask_address address prefix_length) network

abbrev pub show_words : List ℕ → List Text
show_words (a ∷ b ∷ rest) = show_hex (a * 256 + b) ∷ show_words rest
show_words _ = []

unfoldable pub format_ip : IpVersion → List ℕ → Text
unfolding show_small show_hex join_on
format_ip v4 bytes = join_on dot (map show_small bytes)
format_ip v6 bytes = join_on colon (show_words bytes)
