-- ===== src/Auth/Encoding/RoundTrip.antt =====
-- Decoding what was encoded: base64url without its padding (src/auth/crypto.ts).
use tide_guard.Base.{
  ℕ, zero, suc, ◌+◌, ◌-◌, ◌%◌, ◌≤◌, ◌≡◌, refl, sym, Bool, true, ◌||◌, ◌&&◌, some, List, [], ◌∷◌,
  ◌++◌, map, length, ◌==◌, leb, if◌then◌else◌, All, arith,
}
use tide_guard.Auth.{Text, Runtime, is_empty}
use tide_guard.Auth.Encoding.{
  pad_char, replace_all, remove_all, repeat, bytes_to_base64_url, base64_url_to_bytes,
}

-- A character of standard base64.
unfoldable pub is_base64 : ℕ → Bool
is_base64 c =
    (leb b'A' c && leb c b'Z')
    || (leb b'a' c && leb c b'z')
    || (leb b'0' c && leb c b'9')
    || c == b'+'
    || c == b'/'

-- What the documentation of `btoa` and `atob` says of one array of bytes.
pub record Base64Law (rt : Runtime) (bytes : List ℕ) : Type 0 where
  pub body : Text
  pub padding : ℕ
  pub text : rt.btoa bytes ≡ body ++ repeat padding pad_char
  pub letters : All (λ c. is_base64 c ≡ true) body
  pub few : padding ≤ 2
  pub fours : (length body + padding) % 4 ≡ 0
  pub empty : is_empty body ≡ is_empty bytes
  pub back : rt.atob (rt.btoa bytes) ≡ some bytes

abbrev pub to_url : ℕ → ℕ
to_url c = let d = if c == b'+' then b'-' else c in if d == b'/' then b'_' else d

abbrev pub url_body : Text → Text
url_body = map to_url

strip-repeat :
    (n : ℕ)
    → remove_all pad_char (replace_all b'/' b'_' (replace_all b'+' b'-' (repeat n pad_char))) ≡ []
unfolding remove_all replace_all repeat
strip-repeat zero = refl
strip-repeat (suc n) = strip-repeat n

strip-body :
    (n : ℕ) (xs : Text)
    → All (λ c. is_base64 c ≡ true) xs
    → remove_all pad_char (replace_all b'/' b'_' (replace_all b'+' b'-' (xs ++ repeat n pad_char)))
      ≡ url_body xs
unfolding remove_all replace_all is_base64
strip-body n [] h = strip-repeat n
strip-body n (x ∷ xs) h = ground (arith, strip-body n xs (h.1), h.0)

pub to_base64_url :
    (rt : Runtime) (bytes : List ℕ) (law : Base64Law rt bytes)
    → bytes_to_base64_url rt bytes ≡ url_body (law.body)
unfolding bytes_to_base64_url
to_base64_url rt bytes law = rw (law.text) (strip-body (law.padding) (law.body) (law.letters))

restore :
    (xs : Text)
    → All (λ c. is_base64 c ≡ true) xs
    → replace_all b'_' b'/' (replace_all b'-' b'+' (url_body xs)) ≡ xs
unfolding replace_all is_base64
restore [] h = refl
restore (x ∷ xs) h = ground (arith, restore xs (h.1), h.0)

padding_lost : (n p : ℕ) → (n + p) % 4 ≡ 0 → p ≤ 2 → (4 - n % 4) % 4 ≡ p
padding_lost n p h le = omega arith

-- Every array of bytes comes back from its base64url text, where `btoa` and `atob` do what their
-- documentation says of it.
pub decode-encode :
    (rt : Runtime) (bytes : List ℕ)
    → Base64Law rt bytes
    → base64_url_to_bytes rt (bytes_to_base64_url rt bytes) ≡ some bytes
unfolding base64_url_to_bytes
decode-encode rt bytes law =
    rw
      (
        to_base64_url rt bytes law,
        base64_url_to_bytes,
        restore (law.body) (law.letters),
        padding_lost (length (law.body)) (law.padding) (law.fours) (law.few),
        sym (law.text),
      )
      (law.back)
