-- ===== src/Auth/Encoding.antt =====
-- The base64url and JSON codecs, the signature and the comparison in constant time of
-- src/auth/crypto.ts, and the `split` that the verifiers apply to a token.
pub mod RoundTrip
pub mod Compare
pub mod Pieces
use tide_guard.Base.{
  ℕ, zero, suc, ◌+◌, ◌-◌, ◌%◌, Bool, true, false, not, Option, none, some, List, [], ◌∷◌, ◌++◌, map,
  filter, length, ◌==◌, if◌then◌else◌,
}
use Prim.Native.Nat.{bit_or, bit_xor}
use tide_guard.Auth.{Text, Json, Runtime, is_empty}

abbrev pub dot : ℕ
dot = b'.'

abbrev pub pad_char : ℕ
pad_char = b'='

-- `value.replaceAll(a, b)` for two characters.
unfoldable pub replace_all : ℕ → ℕ → Text → Text
replace_all a b = map λ c. if c == a then b else c

-- `value.replaceAll(a, "")`.
unfoldable pub remove_all : ℕ → Text → Text
remove_all a = filter λ c. not (c == a)

unfoldable pub bytes_to_base64_url : Runtime → List ℕ → Text
unfolding replace_all remove_all
bytes_to_base64_url rt bytes =
    remove_all pad_char (replace_all b'/' b'_' (replace_all b'+' b'-' (rt.btoa bytes)))

unfoldable pub repeat : ℕ → ℕ → Text
repeat zero c = []
repeat (suc n) c = c ∷ repeat n c

unfoldable pub base64_url_to_bytes : Runtime → Text → Option (List ℕ)
unfolding replace_all repeat
base64_url_to_bytes rt value =
    let padded = replace_all b'_' b'/' (replace_all b'-' b'+' value) in
    rt.atob (padded ++ repeat ((4 - length padded % 4) % 4) pad_char)

unfoldable pub encode_json : Runtime → Json → Text
unfolding bytes_to_base64_url
encode_json rt value = bytes_to_base64_url rt (rt.encode (rt.stringify value))

abbrev pub parse_bytes : Runtime → Option (List ℕ) → Option Json
parse_bytes rt none = none
parse_bytes rt (some bytes) = rt.parse (rt.decode bytes)

unfoldable pub decode_json : Runtime → Text → Option Json
unfolding base64_url_to_bytes
decode_json rt value = parse_bytes rt (base64_url_to_bytes rt value)

unfoldable pub hmac_sign : Runtime → Text → Text → Text
unfolding bytes_to_base64_url
hmac_sign rt secret payload =
    bytes_to_base64_url rt (rt.hmac (rt.encode secret) (rt.encode payload))

-- The loop over both byte arrays, of one length: `diff |= a[i] ^ b[i]`.
unfoldable pub diff_bytes : ℕ → List ℕ → List ℕ → ℕ
diff_bytes diff [] bs = diff
diff_bytes diff (a ∷ xs) [] = diff_bytes (bit_or diff (bit_xor a 0)) xs []
diff_bytes diff (a ∷ xs) (b ∷ ys) = diff_bytes (bit_or diff (bit_xor a b)) xs ys

unfoldable pub timing_safe_equal_bytes : List ℕ → List ℕ → Bool
unfolding diff_bytes
timing_safe_equal_bytes a b = if not (length a == length b) then false else diff_bytes 0 a b == 0

unfoldable pub timing_safe_equal : Runtime → Text → Text → Bool
unfolding timing_safe_equal_bytes
timing_safe_equal rt a b = timing_safe_equal_bytes (rt.encode a) (rt.encode b)

abbrev pub put_first : ℕ → List Text → List Text
put_first c [] = (c ∷ []) ∷ []
put_first c (p ∷ ps) = (c ∷ p) ∷ ps

-- `value.split(c)` for one character.
unfoldable pub split_on : ℕ → Text → List Text
split_on c [] = [] ∷ []
split_on c (x ∷ xs) = let rest = split_on c xs in if x == c then [] ∷ rest else put_first x rest

-- `parts.join(c)`.
unfoldable pub join_on : ℕ → List Text → Text
join_on c [] = []
join_on c (p ∷ []) = p
join_on c (p ∷ q ∷ ps) = p ++ c ∷ join_on c (q ∷ ps)

-- `parts.length !== 2 || !parts[0] || !parts[1]` refuses a token.
unfoldable pub two_parts : List Text → Option (Text × Text)
unfolding is_empty
two_parts (p ∷ s ∷ []) = if is_empty p then none else (if is_empty s then none else some (p, s))
two_parts _ = none
