-- ===== src/Auth/Ip/Digits.antt =====
-- The digits that `formatIp` of src/auth/ip-allowlist.ts prints, and what reads them.
use tide_guard.Base.{
  ℕ, ◌+◌, ◌*◌, ◌<◌, ◌≡◌, refl, ap, ◌∙◌, Bool, true, false, ◌&&◌, Option, none, some, List, [], ◌∷◌,
  map, length, All, ltb, leb, ◌==◌, if◌then◌else◌, arith,
}
use tide_guard.Auth.{Text, is_empty}
use tide_guard.Auth.Encoding.Compare.{holds_under, at_number}
use tide_guard.Auth.Ip.{parse_octet, read_word}
use tide_guard.Auth.Texts.{
  every, is_hex_word, is_hex, is_digit, hex_digit, hex_value, read_digits, show_small, show_hex,
  hex_digits,
}
use tide_guard.Auth.Ip.Separators.{Without, every-All, All-weaken, length-map, map-some, other}

same-eq : (x y : ℕ) → (x == y) ≡ true → x ≡ y
same-eq x y h = ground arith

is_octet : ℕ → Option ℕ → Bool
is_octet n none = false
is_octet n (some m) = m == n

octet_table : holds_under 256 (λ n. is_octet n (parse_octet (show_small n))) ≡ true
unfolding holds_under is_octet parse_octet
octet_table = refl

is_octet-some : (n : ℕ) (o : Option ℕ) → is_octet n o ≡ true → o ≡ some n
unfolding is_octet
is_octet-some n none h = ground arith
is_octet-some n (some m) h = ap some (same-eq m n h)

pub parse_octet-show : (n : ℕ) → n < 256 → parse_octet (show_small n) ≡ some n
parse_octet-show n h = is_octet-some n _ (at_number 256 _ n octet_table h)

digits_table : holds_under 256 (λ n. every is_digit (show_small n)) ≡ true
unfolding holds_under every show_small
digits_table = refl

pub show_small-Without : (c n : ℕ) → is_digit c ≡ false → n < 256 → Without c (show_small n)
unfolding Without
show_small-Without c n h hn =
    All-weaken _ _ _ (λ x d. ground arith)
      (every-All is_digit (show_small n) (at_number 256 _ n digits_table hn))

pub hex : (d : ℕ) → d < 16 → (is_hex (hex_digit d) ≡ true) × (hex_value (hex_digit d) ≡ d)
hex d h = (ground arith, ground arith)

unfoldable pub Nibbles : List ℕ → Type 0
Nibbles = All λ d. d < 16

pub number_of : ℕ → List ℕ → ℕ
number_of acc [] = acc
number_of acc (d ∷ ds) = number_of (acc * 16 + d) ds

-- What both sides of a test have, its value has.
pub if-both {ℓ κ} :
    {A : Type ℓ} (P : A → Type κ) (b : Bool) (x y : A)
    → (b ≡ true → P x)
    → (b ≡ false → P y)
    → P (if b then x else y)
if-both P true x y f g = f refl
if-both P false x y f g = g refl

unfoldable pub Spells : ℕ → List ℕ → Type 0
Spells w ds = Nibbles ds × (leb 1 (length ds) && leb (length ds) 4 ≡ true) × (number_of 0 ds ≡ w)

pub hex_digits-Spells : (w : ℕ) → w < 65536 → Spells w (hex_digits w)
unfolding hex_digits Spells Nibbles number_of
hex_digits-Spells w h =
    if-both (Spells w) (ltb w 16) _ _
      (λ e. let lt : w < 16 = ground arith in ((lt, tt), refl, omega arith))
      λ _.
        if-both (Spells w) (ltb w 256) _ _
          (λ e.
            let lt : w < 256 = ground arith in
            ((omega arith, (omega arith, tt)), refl, omega arith))
          λ _.
            if-both (Spells w) (ltb w 4096) _ _
              (λ e.
                let lt : w < 4096 = ground arith in
                ((omega arith, (omega arith, (omega arith, tt))), refl, omega arith))
              λ _.
                ((omega arith, (omega arith, (omega arith, (omega arith, tt)))), refl, omega arith)

pub every-hex : (ds : List ℕ) → Nibbles ds → every is_hex (map hex_digit ds) ≡ true
unfolding Nibbles every
every-hex [] h = refl
every-hex (d ∷ ds) h = rw ((hex d (h.0)).0) (every-hex ds (h.1))

pub read-hex :
    (acc : ℕ) (ds : List ℕ) → Nibbles ds → read_digits 16 acc (map hex_digit ds) ≡ number_of acc ds
unfolding Nibbles read_digits number_of
read-hex acc [] h = refl
read-hex acc (d ∷ ds) h =
    ap (λ v. read_digits 16 (acc * 16 + v) (map hex_digit ds)) ((hex d (h.0)).1)
    ∙ read-hex (acc * 16 + d) ds (h.1)

pub is_word :
    (t : Text)
    → is_empty t ≡ false
    → leb (length t) 4 ≡ true
    → every is_hex t ≡ true
    → is_hex_word t ≡ true
unfolding is_hex_word
is_word t filled short digits = rw (filled, short, digits) refl

pub show_hex-word : (w : ℕ) → w < 65536 → is_hex_word (show_hex w) ≡ true
unfolding is_hex_word show_hex Spells
show_hex-word w h =
    let (small, long, spelt) = hex_digits-Spells w h in
    let (filled, short) = map-some hex_digit (hex_digits w) _ long in
    is_word (map hex_digit (hex_digits w)) filled
      (ap (λ n. leb n 4) (length-map hex_digit (hex_digits w)) ∙ short)
      (every-hex (hex_digits w) small)

pub read_word-show : (w : ℕ) → w < 65536 → read_word (show_hex w) ≡ w
unfolding show_hex Spells
read_word-show w h =
    let (small, long, spelt) = hex_digits-Spells w h in read-hex 0 (hex_digits w) small ∙ spelt

pub show_hex-Without : (c w : ℕ) → is_hex c ≡ false → w < 65536 → Without c (show_hex w)
unfolding Without show_hex Spells
show_hex-Without c w h hw =
    All-weaken _ _ _ (λ x d. other x c d h)
      (every-All is_hex (show_hex w) (every-hex (hex_digits w) ((hex_digits-Spells w hw).0)))
