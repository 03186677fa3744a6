-- ===== src/Auth/Ip/Networks.antt =====
-- What it means for an address to be in a network (`addressInNetwork` and `maskAddress` of
-- src/auth/ip-allowlist.ts), told in bits.
use tide_guard.Base.{
  ℕ, zero, suc, ◌+◌, ◌-◌, ◌*◌, ◌/◌, ◌%◌, ◌^◌, ◌≤◌, ◌<◌, ◌≡◌, refl, ap, sym, ◌∙◌, both, length-take,
  leb→le, true, ◌&&◌, List, [], ◌∷◌, ◌++◌, length, take, All, ltb, leb, ◌==◌, if◌then◌else◌, arith,
  Bool-cases, inl, inr,
}
use Prim.Native.Nat.{bit_and}
use native.Mathlib.Nat.{mul-div_cancel}
use tide_guard.Auth.Encoding.Compare.{Bytes, holds_under, at_number}
use tide_guard.Auth.Ip.{mask_address, address_in_network}
use tide_guard.Auth.Texts.{same_text}

abbrev pub byte_bits : ℕ → List ℕ
byte_bits b =
    b / 128 % 2
    ∷ b / 64 % 2
    ∷ b / 32 % 2
    ∷ b / 16 % 2
    ∷ b / 8 % 2
    ∷ b / 4 % 2
    ∷ b / 2 % 2
    ∷ b % 2
    ∷ []

-- The bits of an address, the most significant first.
unfoldable pub bits : List ℕ → List ℕ
bits [] = []
bits (b ∷ bs) = byte_bits b ++ bits bs

-- The number that a list of bits spells after `acc`.
horner : ℕ → List ℕ → ℕ
horner acc [] = acc
horner acc (x ∷ xs) = horner (acc * 2 + x) xs

abbrev pub mask_byte : ℕ → ℕ → ℕ
mask_byte r b = bit_and b (255 * 2 ^ (8 - r))

-- Every byte under every mask, by evaluation.
mask_table :
    holds_under 256
      (λ b. holds_under 9 λ r. mask_byte r b == horner 0 (take r (byte_bits b)) * 2 ^ (8 - r))
    ≡ true
unfolding holds_under horner
mask_table = refl

byte_table : holds_under 256 (λ b. b == horner 0 (byte_bits b)) ≡ true
unfolding holds_under horner
byte_table = refl

horner-same :
    (a b : ℕ) (xs ys : List ℕ)
    → All (λ x. x < 2) xs
    → All (λ y. y < 2) ys
    → length xs ≡ length ys
    → (horner a xs == horner b ys) ≡ (a == b && same_text xs ys)
unfolding horner
horner-same a b [] [] hx hy l = ground arith
horner-same a b [] (y ∷ ys) hx hy l = absurd (omega arith)
horner-same a b (x ∷ xs) [] hx hy l = absurd (omega arith)
horner-same a b (x ∷ xs) (y ∷ ys) hx hy l =
    ground
      (arith, horner-same (a * 2 + x) (b * 2 + y) xs ys (hx.1) (hy.1) (omega arith), hx.0, hy.0)

All-take {ℓ κ} : {A : Type ℓ} (P : A → Type κ) (n : ℕ) (xs : List A) → All P xs → All P (take n xs)
All-take P zero xs h = tt
All-take P (suc n) [] h = tt
All-take P (suc n) (x ∷ xs) h = (h.0, All-take P n xs (h.1))

take-append {ℓ} :
    {A : Type ℓ} (n : ℕ) (xs ys : List A) → take n (xs ++ ys) ≡ take n xs ++ take (n - length xs) ys
take-append zero [] ys = refl
take-append (suc n) [] ys = let e : suc n ≡ suc n - 0 = omega arith in ap (λ k. take k ys) e
take-append zero (x ∷ xs) ys =
    let e : 0 ≡ 0 - suc (length xs) = omega arith in ap (λ k. take k ys) e
take-append (suc n) (x ∷ xs) ys =
    ap (λ zs. x ∷ zs)
      (let e : n - length xs ≡ suc n - suc (length xs) = omega arith in
        take-append n xs ys ∙ ap (λ k. take n xs ++ take k ys) e)

same_text-append :
    (xs ys us vs : List ℕ)
    → length xs ≡ length ys
    → same_text (xs ++ us) (ys ++ vs) ≡ (same_text xs ys && same_text us vs)
same_text-append [] [] us vs l = refl
same_text-append [] (y ∷ ys) us vs l = absurd (omega arith)
same_text-append (x ∷ xs) [] us vs l = absurd (omega arith)
same_text-append (x ∷ xs) (y ∷ ys) us vs l =
    ground (arith, same_text-append xs ys us vs (omega arith))

byte_bits-small : (b : ℕ) → All (λ x. x < 2) (byte_bits b)
byte_bits-small b =
    let p : (x : ℕ) → x % 2 < 2 = λ x. omega arith in
    (p _, (p _, (p _, (p _, (p _, (p _, (p _, (p _, tt))))))))

pow_pos : (n : ℕ) → 0 < 2 ^ n
pow_pos zero = omega arith
pow_pos (suc n) = omega (arith, pow_pos n)

cancel : (x y k : ℕ) → 0 < k → x * k ≡ y * k → x ≡ y
cancel x y k h e = sym (mul-div_cancel x h) ∙ ap (λ z. z / k) e ∙ mul-div_cancel y h

test_eq : (x y : ℕ) → (x == y) ≡ true → x ≡ y
test_eq x y h = ground arith

scale : (x y k : ℕ) → 0 < k → (x * k == y * k) ≡ (x == y)
scale x y k h = elim (Bool-cases (x == y)) [
  | inl e ↦ rw (test_eq x y e) (ground arith)
  | inr e ↦ ground (arith, cancel x y k h)
]

masks-agree :
    (b c r : ℕ)
    → b < 256
    → c < 256
    → r < 9
    → (mask_byte r b == mask_byte r c) ≡ same_text (take r (byte_bits b)) (take r (byte_bits c))
masks-agree b c r hb hc hr =
    let at : (x : ℕ) → x < 256 → mask_byte r x ≡ horner 0 (take r (byte_bits x)) * 2 ^ (8 - r) =
      λ x hx. test_eq _ _ (at_number 9 _ r (at_number 256 _ x mask_table hx) hr) in
    rw (at b hb, at c hc, scale _ _ _ (pow_pos (8 - r)))
      (horner-same 0 0 _ _ (All-take _ r _ (byte_bits-small b)) (All-take _ r _ (byte_bits-small c))
        (length-take r (byte_bits b) ∙ sym (length-take r (byte_bits c))))

bytes-agree : (b c : ℕ) → b < 256 → c < 256 → (b == c) ≡ same_text (byte_bits b) (byte_bits c)
bytes-agree b c hb hc =
    let at : (x : ℕ) → x < 256 → x ≡ horner 0 (byte_bits x) =
      λ x hx. test_eq _ _ (at_number 256 _ x byte_table hx) in
    both ◌==◌ (at b hb) (at c hc) ∙ horner-same 0 0 _ _ (byte_bits-small b) (byte_bits-small c) refl

take-long {ℓ} : {A : Type ℓ} (n : ℕ) (xs : List A) → length xs ≤ n → take n xs ≡ xs
take-long zero [] h = refl
take-long (suc n) [] h = refl
take-long zero (x ∷ xs) h = absurd (omega arith)
take-long (suc n) (x ∷ xs) h = ap (λ ys. x ∷ ys) (take-long n xs (omega arith))

length-mask_address : (bs : List ℕ) (p : ℕ) → length (mask_address bs p) ≡ length bs
unfolding mask_address
length-mask_address [] p = refl
length-mask_address (b ∷ bs) p = ground (arith, length-mask_address bs (p - 8))

same_take :
    (b c p : ℕ) (bs cs : List ℕ)
    → same_text (take p (byte_bits b ++ bs)) (take p (byte_bits c ++ cs)) ≡ (
        same_text (take p (byte_bits b)) (take p (byte_bits c))
        && same_text (take (p - 8) bs) (take (p - 8) cs))
same_take b c p bs cs =
    rw (take-append p (byte_bits b) bs, take-append p (byte_bits c) cs)
      (same_text-append (take p (byte_bits b)) (take p (byte_bits c)) _ _
        (length-take p (byte_bits b) ∙ sym (length-take p (byte_bits c))))

unfoldable pub mask_head : ℕ → ℕ → ℕ
mask_head p b = if leb 8 p then b else (if ltb 0 p then mask_byte p b else 0)

pub mask-cons :
    (b p : ℕ) (bs : List ℕ) → mask_address (b ∷ bs) p ≡ mask_head p b ∷ mask_address bs (p - 8)
unfolding mask_address mask_head
mask-cons b p bs = ground arith

mask_head-long : (b p : ℕ) → leb 8 p ≡ true → mask_head p b ≡ b
unfolding mask_head
mask_head-long b p h = ground arith

head-agree :
    (a n p : ℕ)
    → a < 256
    → n < 256
    → (mask_head p a == mask_head p n) ≡ same_text (take p (byte_bits a)) (take p (byte_bits n))
unfolding mask_head
head-agree a n zero ha hn = refl
head-agree a n (suc p) ha hn = elim (Bool-cases (leb 8 (suc p))) [
  | inl e ↦
      let long : (b : ℕ) → take (suc p) (byte_bits b) ≡ byte_bits b =
        λ b. take-long (suc p) (byte_bits b) (leb→le _ _ e) in
      both ◌==◌ (mask_head-long a (suc p) e) (mask_head-long n (suc p) e)
      ∙ bytes-agree a n ha hn
      ∙ sym (both same_text (long a) (long n))
  | inr e ↦ ground (arith, masks-agree a n (suc p) ha hn)
]

masked-agree :
    (us ns : List ℕ) (p : ℕ)
    → Bytes us
    → Bytes ns
    → length us ≡ length ns
    → same_text (mask_address us p) (mask_address ns p)
      ≡ same_text (take p (bits us)) (take p (bits ns))
unfolding bits mask_address
masked-agree [] [] zero ha hn l = refl
masked-agree [] [] (suc p) ha hn l = refl
masked-agree [] (n ∷ ns) p ha hn l = absurd (omega arith)
masked-agree (a ∷ us) [] p ha hn l = absurd (omega arith)
masked-agree (a ∷ us) (n ∷ ns) p ha hn l =
    both same_text (mask-cons a p us) (mask-cons n p ns)
    ∙ both ◌&&◌ (head-agree a n p (ha.0) (hn.0))
        (masked-agree us ns (p - 8) (ha.1) (hn.1) (omega arith))
    ∙ sym (same_take a n p (bits us) (bits ns))

-- An address is in the network that an entry's address and its prefix make exactly when the two
-- addresses, told in bits, have the same first bits, as many as the prefix says. Both have bytes,
-- and the same number of them.
pub in_network-bits :
    (address entry : List ℕ) (prefix_length : ℕ)
    → Bytes address
    → Bytes entry
    → length address ≡ length entry
    → address_in_network address (mask_address entry prefix_length) prefix_length
      ≡ same_text (take prefix_length (bits address)) (take prefix_length (bits entry))
unfolding address_in_network
in_network-bits address entry n ha he l =
    rw (length-mask_address entry n, l) (ground (arith, masked-agree address entry n ha he l))
