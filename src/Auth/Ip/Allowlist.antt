-- ===== src/Auth/Ip/Allowlist.antt =====
-- The list of networks that skip the queue: `parseCidr`, `parseAllowlistText` and
-- `ipMatchesAllowlist` of src/auth/ip-allowlist.ts.
use tide_guard.Base.{
  ℕ, ◌+◌, Bool, true, false, not, ◌&&◌, ◌||◌, Option, none, some, List, [], ◌∷◌, ◌++◌, map, length,
  ltb, leb, ◌==◌, if◌then◌else◌,
}
use tide_guard.Auth.{Text, is_empty}
use tide_guard.Auth.Ip.{
  Ip, IpVersion, v4, v6, slash, parse_ip, mask_address, address_in_network, format_ip,
}
use tide_guard.Auth.Texts.{trim, is_decimal, read_digits, show_small, same_text}

pub record ParsedCidr : Type 0 where
  pub version : IpVersion
  pub network : List ℕ
  pub prefix_length : ℕ
  pub raw : Text

abbrev pub put_front : ℕ → Option (Text × Text) → Option (Text × Text)
put_front c none = none
put_front c (some (h, t)) = some (c ∷ h, t)

-- The two sides of the first `c`.
unfoldable pub cut_at : ℕ → Text → Option (Text × Text)
cut_at c [] = none
cut_at c (x ∷ xs) = let rest = put_front x (cut_at c xs) in if x == c then some ([], xs) else rest

abbrev pub max_prefix : IpVersion → ℕ
max_prefix v4 = 32
max_prefix v6 = 128

abbrev pub of_address : Option Ip → Option ParsedCidr
of_address none = none
of_address (some ip) = some (record {
  version = ip.version;
  network = mask_address (ip.bytes) (max_prefix (ip.version));
  prefix_length = max_prefix (ip.version);
  raw = format_ip (ip.version) (ip.bytes);
})

abbrev pub of_network : Option Ip → Text → Option ParsedCidr
of_network none prefix_part = none
of_network (some ip) prefix_part =
    let n = read_digits 10 0 prefix_part in
    let network = mask_address (ip.bytes) n in
    if not (is_decimal prefix_part) || ltb (max_prefix (ip.version)) n
    then none
    else some (record {
      version = ip.version;
      network = network;
      prefix_length = n;
      raw = format_ip (ip.version) network ++ slash ∷ show_small n;
    })

abbrev pub of_parts : Option (Text × Text) → Text → Option ParsedCidr
of_parts none trimmed = of_address (parse_ip trimmed)
of_parts (some (addr_part, prefix_part)) trimmed = of_network (parse_ip addr_part) prefix_part

unfoldable pub parse_cidr : Text → Option ParsedCidr
unfolding trim is_empty cut_at parse_ip mask_address format_ip is_decimal read_digits show_small
parse_cidr input =
    let trimmed = trim input in
    if is_empty trimmed then none else of_parts (cut_at slash trimmed) trimmed

abbrev pub same_version : IpVersion → IpVersion → Bool
same_version v4 v4 = true
same_version v6 v6 = true
same_version _ _ = false

abbrev pub admits : Ip → Option ParsedCidr → Bool
admits client none = false
admits client (some cidr) =
    same_version (cidr.version) (client.version)
    && address_in_network (client.bytes) (cidr.network) (cidr.prefix_length)

unfoldable pub some_entry : Ip → List Text → Bool
unfolding parse_cidr address_in_network
some_entry client [] = false
some_entry client (entry ∷ entries) = admits client (parse_cidr entry) || some_entry client entries

abbrev pub client_matches : Option Ip → List Text → Bool
client_matches none entries = false
client_matches (some client) entries = some_entry client entries

unfoldable pub ip_matches_allowlist : Text → List Text → Bool
unfolding some_entry parse_ip
ip_matches_allowlist ip entries = client_matches (parse_ip ip) entries

-- `line.split(/[\n,]+/)`; an empty piece between two separators is skipped by the loop.
unfoldable pub split_lines : Text → List Text
split_lines [] = [] ∷ []
split_lines (x ∷ xs) =
    let rest = split_lines xs in if x == b'\n' || x == b',' then [] ∷ rest else put_piece x rest
  where
    put_piece : ℕ → List Text → List Text
    put_piece c [] = (c ∷ []) ∷ []
    put_piece c (p ∷ ps) = (c ∷ p) ∷ ps

abbrev pub to_lower_char : ℕ → ℕ
to_lower_char c = if leb b'A' c && leb c b'Z' then c + 32 else c

pub data EntryError : Type 0 where
  invalid_entry : Text → EntryError
  too_many_entries : EntryError

pub record Entries : Type 0 where
  pub entries : List Text
  pub errors : List EntryError

abbrev pub max_entries : ℕ
max_entries = 64

abbrev pub member : Text → List Text → Bool
member key [] = false
member key (k ∷ ks) = same_text k key || member key ks

abbrev pub skipped : Text → Bool
skipped [] = true
skipped (c ∷ cs) = c == b'#'

-- The lists grow at their ends. `seen` holds the keys of the entries.
abbrev pub add_error : EntryError → Entries → Entries
add_error e a = record a { errors = a.errors ++ e ∷ [] }

abbrev pub keys : Entries → List Text
keys a = map (map to_lower_char) (a.entries)

abbrev pub add_entry : Text → Entries → Entries
add_entry raw a = record a { entries = a.entries ++ raw ∷ [] }

unfoldable pub read_entries : List Text → Entries → Entries
unfolding parse_cidr trim
read_entries [] a = a
read_entries (line ∷ lines) a =
    let raw = trim line in
    elim (skipped raw) [
      | true ↦ read_entries lines a
      | false ↦ elim (parse_cidr raw) [
        | none ↦ read_entries lines (add_error (invalid_entry raw) a)
        | some cidr ↦ elim (member (map to_lower_char (cidr.raw)) (keys a)) [
          | true ↦ read_entries lines a
          | false ↦
              let grown = add_entry (cidr.raw) a in
              elim (ltb max_entries (length (grown.entries))) [
                | true ↦ add_error too_many_entries grown
                | false ↦ read_entries lines grown
              ]
        ]
      ]
    ]

unfoldable pub parse_allowlist_text : Text → Entries
unfolding split_lines read_entries
parse_allowlist_text text = read_entries (split_lines text) (record { entries = []; errors = [] })
