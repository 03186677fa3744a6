-- ===== src/Auth/Texts.antt =====
-- The functions on JavaScript strings that the parsers and printers of src/auth and
-- src/core/origin.ts call, and the patterns of digits that they test.
use tide_guard.Base.{
  ℕ, ◌+◌, ◌-◌, ◌*◌, ◌/◌, ◌%◌, Bool, true, false, not, ◌&&◌, ◌||◌, List, [], ◌∷◌, map, length, ltb,
  leb, ◌==◌, if◌then◌else◌,
}
use tide_guard.Js.{is_space}
use tide_guard.Auth.{Text, is_empty}

unfoldable pub trim_start : Text → Text
trim_start [] = []
trim_start (x ∷ xs) = let rest = trim_start xs in if is_space x then rest else x ∷ xs

unfoldable pub trim_end : Text → Text
unfolding is_empty
trim_end [] = []
trim_end (x ∷ xs) = let rest = trim_end xs in if is_empty rest && is_space x then [] else x ∷ rest

unfoldable pub trim : Text → Text
unfolding trim_start trim_end
trim t = trim_end (trim_start t)

unfoldable pub includes : ℕ → Text → Bool
includes c [] = false
includes c (x ∷ xs) = x == c || includes c xs

-- `/^\d+$/` and `/^[0-9a-fA-F]{1,4}$/`.
abbrev pub is_digit : ℕ → Bool
is_digit c = leb b'0' c && leb c b'9'

abbrev pub is_hex : ℕ → Bool
is_hex c = is_digit c || (leb b'a' c && leb c b'f') || (leb b'A' c && leb c b'F')

unfoldable pub every {ℓ} : {A : Type ℓ} → (A → Bool) → List A → Bool
every p [] = true
every p (x ∷ xs) = p x && every p xs

unfoldable pub is_decimal : Text → Bool
unfolding is_empty every
is_decimal t = not (is_empty t) && every is_digit t

unfoldable pub is_hex_word : Text → Bool
unfolding is_empty every
is_hex_word t = not (is_empty t) && leb (length t) 4 && every is_hex t

abbrev pub hex_value : ℕ → ℕ
hex_value c = if leb c b'9' then c - b'0' else (if leb c b'F' then c - 55 else c - 87)

-- `Number(t)` for decimal digits and `parseInt(t, 16)` for hexadecimal ones.
unfoldable pub read_digits : ℕ → ℕ → Text → ℕ
read_digits base acc [] = acc
read_digits base acc (c ∷ cs) = read_digits base (acc * base + hex_value c) cs

-- `String(n)`, where the code prints a number below 1000.
unfoldable pub show_small : ℕ → Text
show_small n =
    if ltb n 10
    then (n + b'0') ∷ []
    else (if ltb n 100
        then (n / 10 + b'0') ∷ (n % 10 + b'0') ∷ []
        else (n / 100 + b'0') ∷ (n / 10 % 10 + b'0') ∷ (n % 10 + b'0') ∷ [])

abbrev pub hex_digit : ℕ → ℕ
hex_digit d = if ltb d 10 then d + b'0' else d + 87

-- The digits of a word below 2 ^ 16, without leading zeros.
unfoldable pub hex_digits : ℕ → List ℕ
hex_digits w =
    if ltb w 16
    then w ∷ []
    else (if ltb w 256
        then w / 16 ∷ w % 16 ∷ []
        else (if ltb w 4096
            then w / 256 ∷ w / 16 % 16 ∷ w % 16 ∷ []
            else w / 4096 ∷ w / 256 % 16 ∷ w / 16 % 16 ∷ w % 16 ∷ []))

-- `w.toString(16)`.
unfoldable pub show_hex : ℕ → Text
unfolding hex_digits
show_hex w = map hex_digit (hex_digits w)

-- `b.toString(16).padStart(2, "0")`.
abbrev pub show_hex_byte : ℕ → Text
show_hex_byte b = hex_digit (b / 16) ∷ hex_digit (b % 16) ∷ []

abbrev pub same_text : Text → Text → Bool
same_text [] [] = true
same_text [] (b ∷ bs) = false
same_text (x ∷ xs) [] = false
same_text (x ∷ xs) (b ∷ bs) = x == b && same_text xs bs
