-- ===== src/Auth/Encoding/Compare.antt =====
-- What the comparison in constant time decides (timingSafeEqualBytes of src/auth/crypto.ts).
use tide_guard.Base.{
  ℕ, zero, suc, ◌<◌, ◌≡◌, refl, Bool, true, false, not, ◌&&◌, List, [], ◌∷◌, length, ◌==◌, ltb,
  if◌then◌else◌, All, arith,
}
use Prim.Native.Nat.{bit_or, bit_xor}
use tide_guard.Auth.Encoding.{diff_bytes, timing_safe_equal_bytes}

-- A test that holds for every number under `top`, by running it.
unfoldable pub holds_under : ℕ → (ℕ → Bool) → Bool
holds_under zero test = true
holds_under (suc top) test = if test top then holds_under top test else false

pub at_number :
    (top : ℕ) (test : ℕ → Bool) (n : ℕ) → holds_under top test ≡ true → n < top → test n ≡ true
unfolding holds_under
at_number zero test n all small = absurd (omega arith)
at_number (suc top) test n all small = ground (arith, at_number top test n)

-- One turn of the loop on bytes, checked on all of them.
turn : ℕ → ℕ → Bool
turn x y =
    (if bit_xor x y == 0 then x == y else not (x == y))
    && (if bit_or x y == 0 then x == 0 && y == 0 else not (x == 0 && y == 0))
    && ltb (bit_or x y) 256
    && ltb (bit_xor x y) 256

turn_table : holds_under 256 (λ x. holds_under 256 (turn x)) ≡ true
unfolding holds_under turn
turn_table = refl

turn_all : (x y : ℕ) → x < 256 → y < 256 → turn x y ≡ true
turn_all x y hx hy =
    at_number 256 (turn x) y (at_number 256 (λ x. holds_under 256 (turn x)) x turn_table hx) hy

xor-zero : (x y : ℕ) → x < 256 → y < 256 → (bit_xor x y == 0) ≡ (x == y)
unfolding turn
xor-zero x y hx hy = ground (arith, turn_all x y hx hy)

or-zero : (x y : ℕ) → x < 256 → y < 256 → (bit_or x y == 0) ≡ (x == 0 && y == 0)
unfolding turn
or-zero x y hx hy = ground (arith, turn_all x y hx hy)

or-byte : (x y : ℕ) → x < 256 → y < 256 → bit_or x y < 256
unfolding turn
or-byte x y hx hy = ground (arith, turn_all x y hx hy)

xor-byte : (x y : ℕ) → x < 256 → y < 256 → bit_xor x y < 256
unfolding turn
xor-byte x y hx hy = ground (arith, turn_all x y hx hy)

abbrev pub Bytes : List ℕ → Type 0
Bytes = All λ b. b < 256

pub same_list : List ℕ → List ℕ → Bool
same_list [] [] = true
same_list [] (y ∷ ys) = false
same_list (x ∷ xs) [] = false
same_list (x ∷ xs) (y ∷ ys) = x == y && same_list xs ys

and_assoc : (a b c : Bool) → ((a && b) && c) ≡ (a && (b && c))
and_assoc true b c = refl
and_assoc false b c = refl

diff-zero :
    (d : ℕ) (xs ys : List ℕ)
    → d < 256
    → Bytes xs
    → Bytes ys
    → length xs ≡ length ys
    → (diff_bytes d xs ys == 0) ≡ (d == 0 && same_list xs ys)
unfolding diff_bytes same_list
diff-zero d [] [] hd hx hy l = ground arith
diff-zero d [] (y ∷ ys) hd hx hy l = absurd (omega arith)
diff-zero d (x ∷ xs) [] hd hx hy l = absurd (omega arith)
diff-zero d (x ∷ xs) (y ∷ ys) hd hx hy l =
    let rest =
      diff-zero (bit_or d (bit_xor x y)) xs ys (or-byte d _ hd (xor-byte x y (hx.0) (hy.0))) (hx.1)
        (hy.1) (omega arith) in
    ground (
      arith,
      rest,
      or-zero d (bit_xor x y) hd (xor-byte x y (hx.0) (hy.0)),
      xor-zero x y (hx.0) (hy.0),
    )

same_list_eq : (xs ys : List ℕ) → same_list xs ys ≡ true → xs ≡ ys
unfolding same_list
same_list_eq [] [] h = refl
same_list_eq [] (y ∷ ys) h = ground arith
same_list_eq (x ∷ xs) [] h = ground arith
same_list_eq (x ∷ xs) (y ∷ ys) h = ground (arith, same_list_eq xs ys)

same_list_refl : (xs : List ℕ) → same_list xs xs ≡ true
unfolding same_list
same_list_refl [] = refl
same_list_refl (x ∷ xs) = ground (arith, same_list_refl xs)

pub equal_same_list :
    (xs ys : List ℕ) → Bytes xs → Bytes ys → timing_safe_equal_bytes xs ys ≡ true → xs ≡ ys
unfolding timing_safe_equal_bytes
equal_same_list xs ys hx hy h =
    same_list_eq xs ys (ground (arith, diff-zero 0 xs ys (omega arith) hx hy))

pub equal_refl : (xs : List ℕ) → Bytes xs → timing_safe_equal_bytes xs xs ≡ true
unfolding timing_safe_equal_bytes
equal_refl xs hx = ground (arith, diff-zero 0 xs xs (omega arith) hx hx refl, same_list_refl xs)
