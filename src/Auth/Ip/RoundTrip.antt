-- ===== src/Auth/Ip/RoundTrip.antt =====
-- Parsing the text that `formatIp` of src/auth/ip-allowlist.ts prints.
use tide_guard.Base.{
  ℕ, zero, suc, ◌+◌, ◌*◌, ◌/◌, ◌%◌, ◌<◌, ◌≡◌, refl, ap, ◌∙◌, both, true, false, none, some, List,
  [], ◌∷◌, map, length, All, arith,
}
use tide_guard.Auth.{Text, is_empty}
use tide_guard.Auth.Encoding.{dot, split_on, join_on}
use tide_guard.Auth.Encoding.Compare.{Bytes}
use tide_guard.Auth.Ip.{
  colon, parse_octets, parse_ipv4, cut_pair, expand_mapped, parse_ipv6, word_bytes, read_word,
  IpVersion, v4, v6, parse_full, of_version, parse_ip, show_words, format_ip,
}
use tide_guard.Auth.Texts.{includes, every, is_hex_word, show_small, show_hex}
use tide_guard.Auth.Ip.Separators.{
  Without, split-join, All-weaken, length-map, Filled, includes-join, includes-separator, Word,
  cut_pair-join,
}
use tide_guard.Auth.Ip.Digits.{
  parse_octet-show, show_small-Without, show_hex-word, read_word-show, show_hex-Without,
}

no_colon :
    (a b c d : ℕ)
    → Bytes (a ∷ b ∷ c ∷ d ∷ [])
    → includes colon (format_ip v4 (a ∷ b ∷ c ∷ d ∷ [])) ≡ false
unfolding format_ip
no_colon a b c d h =
    let w : (n : ℕ) → n < 256 → Without colon (show_small n) =
      λ n k. show_small-Without colon n refl k in
    includes-join colon dot (map show_small (a ∷ b ∷ c ∷ d ∷ [])) refl
      (w a (h.0), (w b (h.1.0), (w c (h.1.1.0), (w d (h.1.1.1.0), tt))))

parse_ipv4-format :
    (a b c d : ℕ)
    → a < 256
    → b < 256
    → c < 256
    → d < 256
    → parse_ipv4 (format_ip v4 (a ∷ b ∷ c ∷ d ∷ [])) ≡ some (a ∷ b ∷ c ∷ d ∷ [])
unfolding parse_ipv4 format_ip parse_octets
parse_ipv4-format a b c d ha hb hc hd =
    let w : (n : ℕ) → n < 256 → Without dot (show_small n) =
      λ n h. show_small-Without dot n refl h in
    rw
      (
        split-join dot (show_small a) (show_small b ∷ show_small c ∷ show_small d ∷ [])
            (w a ha, (w b hb, (w c hc, (w d hd, tt)))),
        parse_octet-show a ha,
        parse_octet-show b hb,
        parse_octet-show c hc,
        parse_octet-show d hd,
      )
      refl

unfoldable pub pairs : List ℕ → List ℕ
pairs (a ∷ b ∷ bs) = (a * 256 + b) ∷ pairs bs
pairs _ = []

pub show_words-pairs : (bs : List ℕ) → show_words bs ≡ map show_hex (pairs bs)
unfolding pairs
show_words-pairs [] = refl
show_words-pairs (a ∷ []) = refl
show_words-pairs (a ∷ b ∷ bs) = ap (λ ws. show_hex (a * 256 + b) ∷ ws) (show_words-pairs bs)

abbrev pub SmallWords : List ℕ → Type 0
SmallWords = All λ w. w < 65536

pub pairs-words :
    (n : ℕ) (bs : List ℕ)
    → length bs ≡ n + n
    → Bytes bs
    → (word_bytes (pairs bs) ≡ bs) × SmallWords (pairs bs) × (length (pairs bs) ≡ n)
unfolding pairs
pairs-words zero [] l h = (refl, tt, refl)
pairs-words (suc n) [] l h = absurd (omega arith)
pairs-words zero (a ∷ bs) l h = absurd (omega arith)
pairs-words (suc n) (a ∷ []) l h = absurd (omega arith)
pairs-words (suc n) (a ∷ b ∷ bs) l h =
    let (back, small, long) = pairs-words n bs (omega arith) (h.1.1) in
    let high : (a * 256 + b) / 256 % 256 ≡ a = omega (arith, h.0, h.1.0) in
    let low : (a * 256 + b) % 256 ≡ b = omega (arith, h.0, h.1.0) in
    (both ◌∷◌ high (both ◌∷◌ low back), (omega (arith, h.0, h.1.0), small), omega (arith, long))

word-Filled : (t : Text) → is_hex_word t ≡ true → is_empty t ≡ false
unfolding is_hex_word
word-Filled t h = ground arith

show_all :
    (ws : List ℕ)
    → SmallWords ws
    → (map read_word (map show_hex ws) ≡ ws)
      × (every is_hex_word (map show_hex ws) ≡ true)
      × All Word (map show_hex ws)
      × All (Without dot) (map show_hex ws)
unfolding every Word Filled
show_all [] h = (refl, refl, tt, tt)
show_all (w ∷ ws) h =
    let (back, words, cut, plain) = show_all ws (h.1) in
    (
      both ◌∷◌ (read_word-show w (h.0)) back,
      rw (show_hex-word w (h.0)) words,
      ((show_hex-Without colon w refl (h.0), word-Filled _ (show_hex-word w (h.0))), cut),
      (show_hex-Without dot w refl (h.0), plain),
    )

parse_ipv6-plain :
    (t : Text)
    → includes dot t ≡ false
    → cut_pair t ≡ none
    → parse_ipv6 t ≡ parse_full (split_on colon t)
unfolding parse_ipv6 expand_mapped
parse_ipv6-plain t plain single = rw (plain, single) refl

parse_full-words :
    (ps : List Text) (ws : List ℕ)
    → every is_hex_word ps ≡ true
    → length ps ≡ 8
    → map read_word ps ≡ ws
    → parse_full ps ≡ some (word_bytes ws)
parse_full-words ps ws words l back = rw (words, l, back) refl

parse_ipv6-words :
    (w : ℕ) (ws : List ℕ)
    → SmallWords (w ∷ ws)
    → length (w ∷ ws) ≡ 8
    → parse_ipv6 (join_on colon (map show_hex (w ∷ ws))) ≡ some (word_bytes (w ∷ ws))
unfolding Word
parse_ipv6-words w ws h l =
    let (back, words, cut, plain) = show_all (w ∷ ws) h in
    parse_ipv6-plain _ (includes-join dot colon (map show_hex (w ∷ ws)) refl plain)
      (cut_pair-join (show_hex w) (map show_hex ws) cut)
    ∙ ap parse_full (
        split-join colon (show_hex w) (map show_hex ws)
          (All-weaken Word (Without colon) (map show_hex (w ∷ ws)) (λ t k. k.0) cut))
    ∙ parse_full-words (map show_hex (w ∷ ws)) (w ∷ ws) words (length-map show_hex (w ∷ ws) ∙ l)
        back

abbrev pub size : IpVersion → ℕ
size v4 = 4
size v6 = 16

four :
    (bytes : List ℕ)
    → length bytes ≡ 4
    → Bytes bytes
    → parse_ip (format_ip v4 bytes) ≡ some (record { version = v4; bytes = bytes })
unfolding parse_ip
four [] l h = absurd (omega arith)
four (a ∷ []) l h = absurd (omega arith)
four (a ∷ b ∷ []) l h = absurd (omega arith)
four (a ∷ b ∷ c ∷ []) l h = absurd (omega arith)
four (a ∷ b ∷ c ∷ d ∷ []) l h =
    rw (no_colon a b c d h, parse_ipv4-format a b c d (h.0) (h.1.0) (h.1.1.0) (h.1.1.1.0)) refl
four (a ∷ b ∷ c ∷ d ∷ e ∷ bytes) l h = absurd (omega arith)

eight_words :
    (ws : List ℕ)
    → SmallWords ws
    → length ws ≡ 8
    → parse_ip (join_on colon (map show_hex ws)) ≡ of_version v6 (some (word_bytes ws))
unfolding parse_ip join_on
eight_words [] h l = absurd (omega arith)
eight_words (w ∷ []) h l = absurd (omega arith)
eight_words (w ∷ v ∷ ws) h l =
    rw
      (
        includes-separator colon (show_hex w) (join_on colon (map show_hex (v ∷ ws))),
        parse_ipv6-words w (v ∷ ws) h l,
      )
      refl

-- The printed text of an address is parsed to that address again, for both versions. The address
-- has bytes, 4 or 16 of them.
pub parse-format :
    (version : IpVersion) (bytes : List ℕ)
    → length bytes ≡ size version
    → Bytes bytes
    → parse_ip (format_ip version bytes) ≡ some (record { version = version; bytes = bytes })
unfolding format_ip
parse-format v4 bytes l h = four bytes l h
parse-format v6 bytes l h =
    let (back, small, long) = pairs-words 8 bytes l h in
    ap (λ ws. parse_ip (join_on colon ws)) (show_words-pairs bytes)
    ∙ eight_words (pairs bytes) small long
    ∙ ap (λ bs. of_version v6 (some bs)) back
