-- ===== src/Auth/Encoding/Pieces.antt =====
-- Splitting a token at its dot (src/auth/token.ts, `token.split(".")`).
use tide_guard.Base.{
  ℕ, ◌≡◌, refl, sym, true, false, some, List, [], ◌∷◌, ◌++◌, ◌==◌, All, arith, Bool-cases, inl, inr,
  ap, ◌∙◌,
}
use tide_guard.Auth.{Text, Runtime, is_empty}
use tide_guard.Auth.Encoding.{dot, split_on, join_on, two_parts, put_first, bytes_to_base64_url}
use tide_guard.Auth.Encoding.RoundTrip.{is_base64, Base64Law, url_body, to_base64_url}

unfoldable pub Clear : Text → Type 0
Clear = All λ c. (c == dot) ≡ false

pub cut_end : (c : ℕ) (s : Text) → All (λ x. (x == c) ≡ false) s → split_on c s ≡ s ∷ []
unfolding split_on
cut_end c [] h = refl
cut_end c (x ∷ s) h = ground (arith, cut_end c s (h.1), h.0)

-- A first piece without the separator is cut off whole.
pub split_on-first :
    (c : ℕ) (p s : Text)
    → All (λ x. (x == c) ≡ false) p
    → split_on c (p ++ c ∷ s) ≡ p ∷ split_on c s
unfolding split_on
split_on-first c [] s h = ground arith
split_on-first c (x ∷ p) s h = ground (arith, split_on-first c p s (h.1), h.0)

pub split_on-two : (p s : Text) → Clear p → Clear s → split_on dot (p ++ dot ∷ s) ≡ p ∷ s ∷ []
unfolding Clear
split_on-two p s hp hs = rw (split_on-first dot p s hp, cut_end dot s hs) refl

join_put : (c x : ℕ) (ps : List Text) → join_on c (put_first x ps) ≡ x ∷ join_on c ps
unfolding join_on
join_put c x [] = refl
join_put c x (p ∷ []) = refl
join_put c x (p ∷ q ∷ ps) = refl

join_nil : (c : ℕ) (p : Text) (ps : List Text) → join_on c ([] ∷ p ∷ ps) ≡ c ∷ join_on c (p ∷ ps)
unfolding join_on
join_nil c p ps = refl

pub split_on-some : (c : ℕ) (t : Text) → is_empty (split_on c t) ≡ false
unfolding split_on is_empty
split_on-some c [] = refl
split_on-some c (x ∷ t) = ground (arith, split_on-some c t)

put_empty :
    (c x : ℕ) (t : Text) (ps : List Text)
    → (x == c) ≡ true
    → is_empty ps ≡ false
    → join_on c ps ≡ t
    → join_on c ([] ∷ ps) ≡ x ∷ t
unfolding join_on is_empty
put_empty c x t [] e h k = ground arith
put_empty c x t (p ∷ ps) e h k = ground (arith, k)

-- Cutting loses nothing.
join-split : (c : ℕ) (t : Text) → join_on c (split_on c t) ≡ t
unfolding split_on join_on is_empty
join-split c [] = refl
join-split c (x ∷ t) = elim (Bool-cases (x == c)) [
  | inl e ↦ rw e (put_empty c x t (split_on c t) e (split_on-some c t) (join-split c t))
  | inr e ↦ rw (e, join_put c x (split_on c t)) (ap (λ ys. x ∷ ys) (join-split c t))
]

two_parts-join :
    (ps : List Text) (p s : Text) → two_parts ps ≡ some (p, s) → join_on dot ps ≡ p ++ dot ∷ s
unfolding two_parts join_on is_empty
two_parts-join [] p s h = ground arith
two_parts-join (a ∷ []) p s h = ground arith
two_parts-join ([] ∷ b ∷ []) p s h = ground arith
two_parts-join ((x ∷ a) ∷ [] ∷ []) p s h = ground arith
two_parts-join ((x ∷ a) ∷ (y ∷ b) ∷ []) p s h = ground arith
two_parts-join (a ∷ b ∷ c ∷ ps) p s h = ground arith

pub token-parts : (t p s : Text) → two_parts (split_on dot t) ≡ some (p, s) → t ≡ p ++ dot ∷ s
token-parts t p s h = sym (join-split dot t) ∙ two_parts-join (split_on dot t) p s h

-- The text of an encoded array of bytes has no dot.
url_body-Clear : (xs : Text) → All (λ c. is_base64 c ≡ true) xs → Clear (url_body xs)
unfolding Clear is_base64
url_body-Clear [] h = tt
url_body-Clear (x ∷ xs) h = (ground arith, url_body-Clear xs (h.1))

url_body-empty : (xs : Text) → is_empty (url_body xs) ≡ is_empty xs
unfolding is_empty
url_body-empty [] = refl
url_body-empty (x ∷ xs) = refl

pub base64_url-Clear :
    (rt : Runtime) (bytes : List ℕ) → Base64Law rt bytes → Clear (bytes_to_base64_url rt bytes)
base64_url-Clear rt bytes law =
    rw (to_base64_url rt bytes law) (url_body-Clear (law.body) (law.letters))

pub base64_url-empty :
    (rt : Runtime) (bytes : List ℕ)
    → Base64Law rt bytes
    → is_empty (bytes_to_base64_url rt bytes) ≡ is_empty bytes
base64_url-empty rt bytes law =
    rw (to_base64_url rt bytes law, url_body-empty (law.body)) (law.empty)

pub two_parts-pieces :
    (p s : Text)
    → Clear p
    → Clear s
    → is_empty p ≡ false
    → is_empty s ≡ false
    → two_parts (split_on dot (p ++ dot ∷ s)) ≡ some (p, s)
unfolding two_parts
two_parts-pieces p s hp hs ep es = rw (split_on-two p s hp hs, ep, es) refl
