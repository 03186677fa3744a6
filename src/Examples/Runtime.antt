-- ===== src/Examples/Runtime.antt =====
-- A small runtime: each byte as four letters, JSON for two values, and a signature of one byte. It
-- has the laws that the theorems on tokens ask for.
use tide_guard.Base.{
  ℕ, ◌+◌, ◌*◌, ◌-◌, ◌/◌, ◌%◌, ◌<◌, ◌≡◌, refl, ap, both, true, false, Option, none, some, List, [],
  ◌∷◌, ◌++◌, map, length, All, ◌==◌, arith,
}
use tide_guard.Js.{int}
use tide_guard.Auth.{Text, Json, Runtime, get_field, find_field, is_empty}
use tide_guard.Auth.Encoding.{repeat}
use tide_guard.Auth.Encoding.RoundTrip.{is_base64}
use tide_guard.Auth.Encoding.Compare.{Bytes}
use tide_guard.Auth.Token.{AccessTokenClaims, claims_object}
use tide_guard.Auth.Token.Laws.{RuntimeLaws}
use tide_guard.Auth.Ticket.{TicketInput, ticket_object, ticket_claims}

abbrev pub ann_claims : AccessTokenClaims
ann_claims = record { sub = "ann"; queue = "q"; exp = int 900; iat = int 0; epoch = some 0 }

abbrev pub ann_input : TicketInput
ann_input = record { visitor_id = "ann"; queue = "q"; ttl_seconds = 900; now_ms = 0 }

abbrev letter : ℕ → ℕ
letter n = 65 + n

abbrev pub btoa : List ℕ → Text
btoa [] = []
btoa (b ∷ bs) =
    letter (b / 64) ∷ letter (b / 16 % 4) ∷ letter (b / 4 % 4) ∷ letter (b % 4) ∷ btoa bs

abbrev cons_some : ℕ → Option (List ℕ) → Option (List ℕ)
cons_some b none = none
cons_some b (some bs) = some (b ∷ bs)

abbrev pub atob : Text → Option (List ℕ)
atob [] = some []
atob (a ∷ b ∷ c ∷ d ∷ t) =
    cons_some ((a - 65) * 64 + (b - 65) * 16 + (c - 65) * 4 + (d - 65)) (atob t)
atob _ = none

unfoldable pub stringify : Json → Text
unfolding get_field find_field
stringify v = elim (get_field "typ" v) [ none ↦ 1 ∷ [] | some _ ↦ 2 ∷ [] ]

unfoldable pub parse : Text → Option Json
unfolding claims_object ticket_object ticket_claims
parse [] = none
parse (c ∷ t) = elim (c == 1) [
  | true ↦ some (claims_object ann_claims)
  | false ↦ some (ticket_object (ticket_claims ann_input))
]

abbrev pub small_runtime : Runtime
small_runtime = record {
  stringify = stringify;
  parse = parse;
  encode = map (λ c. c % 256);
  decode = λ bytes. bytes;
  btoa = btoa;
  atob = atob;
  hmac = λ key message. length message % 256 ∷ [];
}

append-nil : (t : Text) → t ≡ t ++ []
append-nil [] = refl
append-nil (c ∷ t) = ap (λ u. c ∷ u) (append-nil t)

letters : (bs : List ℕ) → Bytes bs → All (λ c. is_base64 c ≡ true) (btoa bs)
unfolding is_base64
letters [] h = tt
letters (b ∷ bs) h = (
  digit (b / 64) (omega (arith, h.0)),
  (
    digit (b / 16 % 4) (omega arith),
    (digit (b / 4 % 4) (omega arith), (digit (b % 4) (omega arith), letters bs (h.1))),
  ),
)
  where
    digit : (n : ℕ) → n < 4 → is_base64 (65 + n) ≡ true
    digit n h = ground arith

fours : (bs : List ℕ) → (length (btoa bs) + 0) % 4 ≡ 0
fours [] = refl
fours (b ∷ bs) = omega (arith, fours bs)

same_empty : (bs : List ℕ) → is_empty (btoa bs) ≡ is_empty bs
unfolding is_empty
same_empty [] = refl
same_empty (b ∷ bs) = refl

back : (bs : List ℕ) → Bytes bs → atob (btoa bs) ≡ some bs
back [] h = refl
back (b ∷ bs) h = both cons_some (omega (arith, h.0)) (back bs (h.1))

encoded : (t : Text) → Bytes (map (λ c. c % 256) t)
encoded [] = tt
encoded (c ∷ t) = (omega arith, encoded t)

encoded_empty : (t : Text) → is_empty (map (λ c. c % 256) t) ≡ is_empty t
unfolding is_empty
encoded_empty [] = refl
encoded_empty (c ∷ t) = refl

some_text :
    (v : Option Json) → is_empty (elim v as (λ _. Text) [ none ↦ 1 ∷ [] | some _ ↦ 2 ∷ [] ]) ≡ false
unfolding is_empty
some_text none = refl
some_text (some v) = refl

pub small_laws : RuntimeLaws small_runtime
unfolding repeat is_empty stringify
small_laws = record {
  base64 = λ bytes h. record {
    body = btoa bytes;
    padding = 0;
    text = append-nil (btoa bytes);
    letters = letters bytes h;
    few = omega arith;
    fours = fours bytes;
    empty = same_empty bytes;
    back = back bytes h;
  };
  encode_bytes = encoded;
  encode_empty = encoded_empty;
  stringify_some = λ v. some_text (get_field "typ" v);
  hmac_bytes = λ k m. (omega arith, tt);
  hmac_some = λ k m. refl;
}
