-- ===== src/Auth.antt =====
-- What the tokens of src/auth are made of: JSON values, the texts that carry them, and the
-- functions of the JavaScript runtime that src/auth/crypto.ts calls.
pub mod Texts
pub mod Encoding
pub mod Token
pub mod Ticket
pub mod Ip
pub mod RateLimit
use tide_guard.Base.{
  ℕ, zero, suc, ◌<◌, ◌≡◌, Bool, true, false, Option, none, some, List, [], ◌∷◌, String, str_eq,
  if◌then◌else◌, code,
}
use tide_guard.Js.{JsNumber}

-- A JavaScript string as its code units, or bytes.
abbrev pub Text : Type 0
Text = List ℕ

-- The code units of a text: its bytes, if it is ASCII.
abbrev pub codes : String → Text
codes String.[] = []
codes (String.◌∷◌ c s) = code c ∷ codes s

-- A value as `JSON.parse` leaves it: an object has each key once. An array has no key that the
-- program reads, so its items are left out.
mutual
  pub data Json : Type 0 where
    null array : Json
    boolean : Bool → Json
    number : JsNumber → Json
    string : String → Json
    object : Fields → Json

  pub data Fields : Type 0 where
    done : Fields
    field : String → Json → Fields → Fields

unfoldable pub find_field : String → Fields → Option Json
find_field k done = none
find_field k (field j v fs) = let rest = find_field k fs in if str_eq j k then some v else rest

-- `value.k`, with none for undefined.
unfoldable pub get_field : String → Json → Option Json
unfolding find_field
get_field k (object fs) = find_field k fs
get_field k _ = none

-- The runtime: JSON.stringify, JSON.parse, TextEncoder, TextDecoder, btoa and atob (on the byte
-- string that the code builds for them), and crypto.subtle.sign with HMAC and SHA-256. What
-- throws gives none.
pub record Runtime : Type 0 where
  pub stringify : Json → Text
  pub parse : Text → Option Json
  pub encode : Text → List ℕ
  pub decode : List ℕ → Text
  pub btoa : List ℕ → Text
  pub atob : Text → Option (List ℕ)
  pub hmac : List ℕ → List ℕ → List ℕ

unfoldable pub is_empty {ℓ} : {A : Type ℓ} → List A → Bool
is_empty [] = true
is_empty (x ∷ xs) = false
