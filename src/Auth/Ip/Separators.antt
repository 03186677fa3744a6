-- ===== src/Auth/Ip/Separators.antt =====
-- Texts that are put together with dots and colons, and cut again (`split` and `includes` in
-- src/auth/ip-allowlist.ts).
use tide_guard.Base.{
  ℕ, suc, ◌≡◌, refl, ap, ◌∙◌, Bool, true, false, ◌&&◌, none, List, [], ◌∷◌, ◌++◌, map, length, All,
  leb, ◌==◌, arith,
}
use tide_guard.Auth.{Text, is_empty}
use tide_guard.Auth.Encoding.{split_on, join_on}
use tide_guard.Auth.Encoding.Pieces.{cut_end, split_on-first}
use tide_guard.Auth.Ip.{colon, cut_pair}
use tide_guard.Auth.Texts.{includes, every, is_hex}

-- No character of a text is `c`.
unfoldable pub Without : ℕ → Text → Type 0
Without c = All λ x. (x == c) ≡ false

-- Pieces without the separator come back.
pub split-join :
    (c : ℕ) (p : Text) (ps : List Text)
    → All (Without c) (p ∷ ps)
    → split_on c (join_on c (p ∷ ps)) ≡ p ∷ ps
unfolding join_on Without
split-join c p [] h = cut_end c p (h.0)
split-join c p (q ∷ ps) h = split_on-first c p _ (h.0) ∙ ap (λ qs. p ∷ qs) (split-join c q ps (h.1))

pub every-All {ℓ} :
    {A : Type ℓ} (p : A → Bool) (xs : List A) → every p xs ≡ true → All (λ x. p x ≡ true) xs
unfolding every
every-All p [] h = tt
every-All p (x ∷ xs) h = (ground arith, every-All p xs (ground arith))

unfoldable pub All-weaken {ℓ κ κ'} :
    {A : Type ℓ} (P : A → Type κ) (Q : A → Type κ') (xs : List A)
    → ((x : A) → P x → Q x)
    → All P xs
    → All Q xs
All-weaken P Q [] f h = tt
All-weaken P Q (x ∷ xs) f h = (f x (h.0), All-weaken P Q xs f (h.1))

pub length-map {ℓ ℓ'} :
    {A : Type ℓ} {B : Type ℓ'} (f : A → B) (xs : List A) → length (map f xs) ≡ length xs
length-map f [] = refl
length-map f (x ∷ xs) = ap suc (length-map f xs)

pub map-some {ℓ ℓ'} :
    {A : Type ℓ} {B : Type ℓ'} (f : A → B) (xs : List A) (n : Bool)
    → (leb 1 (length xs) && n) ≡ true
    → (is_empty (map f xs) ≡ false) × (n ≡ true)
unfolding is_empty
map-some f [] n h = ground arith
map-some f (x ∷ xs) n h = (refl, ground arith)

pub other : (x c : ℕ) → is_hex x ≡ true → is_hex c ≡ false → (x == c) ≡ false
other x c h k = ground arith

unfoldable pub Filled : Text → Type 0
Filled t = is_empty t ≡ false

pub includes-append :
    (c : ℕ) (xs ys : Text) → Without c xs → includes c ys ≡ false → includes c (xs ++ ys) ≡ false
unfolding includes Without
includes-append c [] ys h k = k
includes-append c (x ∷ xs) ys h k = ground (arith, includes-append c xs ys (h.1) k, h.0)

pub includes-Without : (c : ℕ) (xs : Text) → Without c xs → includes c xs ≡ false
unfolding includes Without
includes-Without c [] h = refl
includes-Without c (x ∷ xs) h = ground (arith, includes-Without c xs (h.1), h.0)

pub includes-join :
    (c d : ℕ) (ps : List Text)
    → (d == c) ≡ false
    → All (Without c) ps
    → includes c (join_on d ps) ≡ false
unfolding join_on includes
includes-join c d [] e h = refl
includes-join c d (p ∷ []) e h = includes-Without c p (h.0)
includes-join c d (p ∷ q ∷ ps) e h =
    includes-append c p _ (h.0) (ground (arith, includes-join c d (q ∷ ps) e (h.1)))

pub includes-separator : (c : ℕ) (p t : Text) → includes c (p ++ c ∷ t) ≡ true
unfolding includes
includes-separator c [] t = ground arith
includes-separator c (x ∷ p) t = ground (arith, includes-separator c p t)

-- Pieces that are not empty have no pair of separators between them.
pub cut_pair-append :
    (p s : Text)
    → Without colon p
    → Filled p
    → cut_pair (colon ∷ s) ≡ none
    → cut_pair (p ++ colon ∷ s) ≡ none
unfolding cut_pair Without Filled is_empty
cut_pair-append [] s h f k = ground arith
cut_pair-append (x ∷ []) s h f k = rw (h.0, k) refl
cut_pair-append (x ∷ y ∷ p) s h f k = rw (h.0, cut_pair-append (y ∷ p) s (h.1) refl k) refl

pub cut_pair-alone : (p : Text) → Without colon p → cut_pair p ≡ none
unfolding cut_pair Without
cut_pair-alone [] h = refl
cut_pair-alone (x ∷ []) h = refl
cut_pair-alone (x ∷ y ∷ p) h = rw (h.0, cut_pair-alone (y ∷ p) (h.1)) refl

pub cut_pair-behind :
    (q : Text) (ps : List Text)
    → Without colon q
    → Filled q
    → cut_pair (join_on colon (q ∷ ps)) ≡ none
    → cut_pair (colon ∷ join_on colon (q ∷ ps)) ≡ none
unfolding cut_pair Without Filled is_empty join_on
cut_pair-behind [] ps h f k = ground arith
cut_pair-behind (y ∷ q) [] h f k = rw (h.0, k) refl
cut_pair-behind (y ∷ q) (r ∷ ps) h f k = rw (h.0, k) refl

unfoldable pub Word : Text → Type 0
Word t = Without colon t × Filled t

pub cut_pair-join :
    (p : Text) (ps : List Text) → All Word (p ∷ ps) → cut_pair (join_on colon (p ∷ ps)) ≡ none
unfolding join_on Word
cut_pair-join p [] h = cut_pair-alone p (h.0.0)
cut_pair-join p (q ∷ ps) h =
    cut_pair-append p _ (h.0.0) (h.0.1)
      (cut_pair-behind q ps (h.1.0.0) (h.1.0.1) (cut_pair-join q ps (h.1)))
