-- ===== src/Auth/Ip/Parsed.antt =====
-- What `parseIp` of src/auth/ip-allowlist.ts gives: bytes, as many as the version has, and the
-- masks of such an address.
use tide_guard.Base.{
  ℕ, zero, suc, ◌+◌, ◌-◌, ◌*◌, ◌^◌, ◌≤◌, ◌<◌, ◌≡◌, refl, ap, ◌∙◌, both, subst, Bool, true, false,
  not, ◌&&◌, Option, none, some, List, [], ◌∷◌, ◌++◌, map, length, length-append, ltb, leb, ◌==◌,
  if◌then◌else◌, arith, Bool-cases, inl, inr,
}
use Prim.Native.Nat.{bit_and}
use tide_guard.Auth.{Text}
use tide_guard.Auth.Encoding.{dot, split_on, repeat}
use tide_guard.Auth.Encoding.Compare.{Bytes, holds_under, at_number}
use tide_guard.Auth.Ip.{
  colon, parse_octet, parse_octets, parse_ipv4, cut_pair, parse_ipv6, word_bytes, read_word,
  cons_option, parse_full, parse_halves, parse_sides, parse_around, parse_expanded, expand_mapped,
  words_of, of_version, IpVersion, v4, v6, parse_ip, mask_address,
}
use tide_guard.Auth.Texts.{
  includes, every, is_hex_word, read_digits, show_small, is_decimal, same_text,
}
use tide_guard.Auth.Ip.Separators.{length-map}
use tide_guard.Auth.Ip.RoundTrip.{size}
use tide_guard.Auth.Ip.Networks.{mask_head, mask-cons}

same-eq : (x y : ℕ) → (x == y) ≡ true → x ≡ y
same-eq x y h = ground arith

-- What a result has, where there is one.
unfoldable pub WhenSome {ℓ κ} : {A : Type ℓ} → (A → Type κ) → Option A → Type κ
WhenSome P none = Unit
WhenSome P (some a) = P a

unfoldable pub Sized : ℕ → List ℕ → Type 0
Sized n bs = Bytes bs × (length bs ≡ n)

pub none-or {ℓ κ} :
    {A : Type ℓ} (P : A → Type κ) (b : Bool) (o : Option A)
    → (b ≡ false → WhenSome P o)
    → WhenSome P (if b then none else o)
unfolding WhenSome
none-or P true o f = tt
none-or P false o f = f refl

parse_octet-small : (t : Text) → WhenSome (λ n. n < 256) (parse_octet t)
unfolding parse_octet WhenSome
parse_octet-small t = none-or _ (not (is_decimal t)) _ λ _.
    none-or _ (ltb 255 (read_digits 10 0 t)) _
      λ e. none-or _ (not (same_text (show_small (read_digits 10 0 t)) t)) _ λ _. ground arith

cons_option-Sized :
    (n : ℕ) (o : Option ℕ) (os : Option (List ℕ))
    → WhenSome (λ b. b < 256) o
    → WhenSome (Sized n) os
    → WhenSome (Sized (suc n)) (cons_option o os)
unfolding WhenSome Sized
cons_option-Sized n (some b) (some bs) h k = ((h, k.0), omega (arith, k.1))
cons_option-Sized n none none h k = tt
cons_option-Sized n none (some bs) h k = tt
cons_option-Sized n (some b) none h k = tt

parse_octets-Sized : (ps : List Text) → WhenSome (Sized (length ps)) (parse_octets ps)
unfolding parse_octets WhenSome Sized
parse_octets-Sized [] = (tt, refl)
parse_octets-Sized (p ∷ ps) =
    cons_option-Sized (length ps) _ _ (parse_octet-small p) (parse_octets-Sized ps)

four_octets :
    (ps : List Text) → WhenSome (Sized 4) (if length ps == 4 then parse_octets ps else none)
unfolding WhenSome
four_octets ps = elim (Bool-cases (length ps == 4)) [
  | inl e ↦
      rw e
        (subst (λ n. WhenSome (Sized n) (parse_octets ps)) (same-eq _ _ e) (parse_octets-Sized ps))
  | inr e ↦ rw e tt
]

parse_ipv4-Sized : (t : Text) → WhenSome (Sized 4) (parse_ipv4 t)
unfolding parse_ipv4
parse_ipv4-Sized t = four_octets (split_on dot t)

word_bytes-Bytes :
    (ws : List ℕ) → Bytes (word_bytes ws) × (length (word_bytes ws) ≡ length ws + length ws)
word_bytes-Bytes [] = (tt, refl)
word_bytes-Bytes (w ∷ ws) =
    let (b, l) = word_bytes-Bytes ws in ((omega arith, (omega arith, b)), omega (arith, l))

length-repeat : (n c : ℕ) → length (repeat n c) ≡ n
unfolding repeat
length-repeat zero c = refl
length-repeat (suc n) c = omega (arith, length-repeat n c)

words-Sized : (ws : List ℕ) → length ws ≡ 8 → Sized 16 (word_bytes ws)
unfolding Sized mask_address
words-Sized ws h = let (b, l) = word_bytes-Bytes ws in (b, omega (arith, l))

parse_full-Sized : (ps : List Text) → WhenSome (Sized 16) (parse_full ps)
unfolding WhenSome
parse_full-Sized ps = none-or _ (not (every is_hex_word ps)) _ λ _.
    none-or _ (not (length ps == 8)) _
      λ e. words-Sized _ (length-map read_word ps ∙ same-eq _ _ (ground arith))

halves_length :
    (h t : List Text)
    → ltb 8 (length h + length t) ≡ false
    → length (map read_word h ++ repeat (8 - length h - length t) 0 ++ map read_word t) ≡ 8
halves_length h t e =
    let le : length h + length t ≤ 8 = ground arith in
    omega (
      arith,
      length-append (map read_word h ++ repeat (8 - length h - length t) 0) (map read_word t),
      length-append (map read_word h) (repeat (8 - length h - length t) 0),
      length-repeat (8 - length h - length t) 0,
      length-map read_word h,
      length-map read_word t,
    )

parse_halves-Sized : (h t : List Text) → WhenSome (Sized 16) (parse_halves h t)
unfolding WhenSome
parse_halves-Sized h t =
    none-or _ (not (every is_hex_word (h ++ t))) _
      λ _. none-or _ (ltb 8 (length h + length t)) _ λ e. words-Sized _ (halves_length h t e)

parse_sides-Sized :
    (o : Option (Text × Text)) (h t : Text) → WhenSome (Sized 16) (parse_sides o h t)
unfolding WhenSome
parse_sides-Sized none h t = parse_halves-Sized (words_of h) (words_of t)
parse_sides-Sized (some p) h t = tt

parse_around-Sized : (o : Option (Text × Text)) (t : Text) → WhenSome (Sized 16) (parse_around o t)
parse_around-Sized none t = parse_full-Sized (split_on colon t)
parse_around-Sized (some (h, s)) t = parse_sides-Sized (cut_pair s) h s

parse_expanded-Sized : (o : Option Text) → WhenSome (Sized 16) (parse_expanded o)
unfolding WhenSome
parse_expanded-Sized none = tt
parse_expanded-Sized (some t) = parse_around-Sized (cut_pair t) t

of_version-Sized :
    (v : IpVersion) (o : Option (List ℕ))
    → WhenSome (Sized (size v)) o
    → WhenSome (λ ip. Sized (size (ip.version)) (ip.bytes)) (of_version v o)
unfolding WhenSome
of_version-Sized v none h = tt
of_version-Sized v (some bs) h = h

pub parse_ip-Sized : (t : Text) → WhenSome (λ ip. Sized (size (ip.version)) (ip.bytes)) (parse_ip t)
unfolding parse_ip parse_ipv6
parse_ip-Sized t = elim (Bool-cases (includes colon t)) [
  | inl e ↦ rw e (of_version-Sized v6 _ (parse_expanded-Sized (expand_mapped t)))
  | inr e ↦ rw e (of_version-Sized v4 _ (parse_ipv4-Sized t))
]

mask_table :
    holds_under 256 (λ b. holds_under 9 λ r.
      let m = bit_and b (255 * 2 ^ (8 - r)) in ltb m 256 && (bit_and m (255 * 2 ^ (8 - r)) == m))
    ≡ true
unfolding holds_under
mask_table = refl

mask_laws :
    (b r : ℕ)
    → b < 256
    → r < 9
    → (bit_and b (255 * 2 ^ (8 - r)) < 256)
      × (bit_and (bit_and b (255 * 2 ^ (8 - r))) (255 * 2 ^ (8 - r))
          ≡ bit_and b (255 * 2 ^ (8 - r)))
mask_laws b r hb hr =
    let both_laws = at_number 9 _ r (at_number 256 _ b mask_table hb) hr in ground arith

head_laws :
    (b p : ℕ) → b < 256 → (mask_head p b < 256) × (mask_head p (mask_head p b) ≡ mask_head p b)
unfolding mask_head
head_laws b p hb = elim (Bool-cases (leb 8 p)) [
  | inl e ↦ ground arith
  | inr e ↦ ground (arith, mask_laws b p hb (ground arith))
]

-- A masked address is one, and masking it again changes nothing.
pub mask_address-Sized :
    (n : ℕ) (bs : List ℕ) (p : ℕ)
    → Sized n bs
    → Sized n (mask_address bs p) × (mask_address (mask_address bs p) p ≡ mask_address bs p)
unfolding Sized mask_address
mask_address-Sized n [] p h = (h, refl)
mask_address-Sized n (b ∷ bs) p h =
    let (sized, again) = mask_address-Sized (length bs) bs (p - 8) (h.0.1, refl) in
    let (small, fixed) = head_laws b p (h.0.0) in
    rw (mask-cons b p bs, mask-cons (mask_head p b) p (mask_address bs (p - 8)))
      (((small, sized.0), ap suc (sized.1) ∙ h.1), both ◌∷◌ fixed again)
