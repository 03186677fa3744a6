-- ===== src/Examples/Tokens.antt =====
-- Tokens and tickets of `ann`, signed on the small runtime, and the theorems applied to them.
use tide_guard.Base.{◌≡◌, refl, true, false, none, some, [], ◌∷◌, ◌++◌, if◌then◌else◌}
use tide_guard.Js.{int}
use tide_guard.Auth.{Text, Json, codes, is_empty}
use tide_guard.Auth.Ip.{
  parse_ip, parse_ipv4, parse_octets, parse_octet, mask_address, address_in_network,
}
use tide_guard.Auth.Texts.{
  trim, trim_start, trim_end, includes, is_decimal, every, read_digits, show_small,
}
use tide_guard.Auth.Ip.Allowlist.{ip_matches_allowlist, some_entry, parse_cidr, cut_at}
use tide_guard.Room.{new_room}
use tide_guard.Room.Controls.{bump_token_epoch}
use tide_guard.Gate.{
  GateEnv, token, unauthorized, extract_access_token, admit_extracted, require_admission,
  resolve_access_gate,
}
use tide_guard.Gate.Rules.{WebRequest}
use tide_guard.Gate.Clients.{is_ip_allowlisted, client_connecting_ip, evaluate_geo_block}
use tide_guard.Gate.Priority.{
  is_token_admission, is_admitted, lets_in, bump-Revoked, allowlisted_passes,
}
use tide_guard.Examples.{two_slots, small_room}
use tide_guard.Auth.Encoding.{
  dot, hmac_sign, decode_json, encode_json, bytes_to_base64_url, split_on,
}
use tide_guard.Auth.Token.{
  TokenOptions, accepted, refused, expired_token, queue_mismatch, revoked, exp_reached, differs,
  epoch_differs, claims_object, sign_access_token, verify_access_token, access_claims,
}
use tide_guard.Auth.Token.Laws.{Carried, verify-sign}
use tide_guard.Auth.Token.Soundness.{verify-accepted}
use tide_guard.Auth.Ticket.{ticket_object, ticket_claims, sign_visitor_ticket}
use tide_guard.Auth.Ticket.Kinds.{as_access, ticket_as_token}
use tide_guard.Examples.Runtime.{ann_claims, ann_input, small_runtime, small_laws, stringify, parse}

abbrev secret : Text
secret = codes "0123456789abcdef"

abbrev options : TokenOptions
options = record { now_seconds = 100; expected_queue = some "q"; expected_epoch = some 0 }

abbrev ann_token : Text
ann_token = sign_access_token small_runtime secret ann_claims

ann-Carried : Carried small_runtime (claims_object ann_claims)
unfolding stringify parse
ann-Carried = refl

verify-sign_example : verify_access_token small_runtime secret options ann_token ≡ (
    if exp_reached (int 900) 100
    then refused expired_token
    else (if differs (some "q") "q"
        then refused queue_mismatch
        else (if epoch_differs (some 0) (some 0) then refused revoked else accepted ann_claims)))
verify-sign_example =
    verify-sign small_runtime small_laws secret options ann_claims ann-Carried refl refl

verify-accepted_example :
    (payload : Text) × (signature : Text) × (v : Json) × (ann_token ≡ payload ++ dot ∷ signature)
    × (small_runtime.encode signature
        ≡ small_runtime.encode (hmac_sign small_runtime secret payload))
    × (decode_json small_runtime payload ≡ some v)
    × (access_claims v ≡ accepted ann_claims)
    × (exp_reached (int 900) 100 ≡ false)
    × (differs (some "q") "q" ≡ false)
    × (epoch_differs (some 0) (some 0) ≡ false)
verify-accepted_example =
    verify-accepted small_runtime small_laws secret options ann_token ann_claims verify-sign_example

ticket-Carried : Carried small_runtime (ticket_object (ticket_claims ann_input))
unfolding stringify parse ticket_claims ticket_object
ticket-Carried = refl

ticket_as_token_example :
    verify_access_token small_runtime secret options
      (sign_visitor_ticket small_runtime secret ann_input)
    ≡ (if exp_reached (int 900) 100
        then refused expired_token
        else (if differs (some "q") "q"
            then refused queue_mismatch
            else (if epoch_differs (some 0) none
                then refused revoked
                else accepted (as_access (ticket_claims ann_input)))))
ticket_as_token_example =
    ticket_as_token small_runtime small_laws secret options ann_input ticket-Carried refl refl

abbrev env : GateEnv
env = record {
  runtime = small_runtime;
  decode_uri_component = some;
  to_string = λ t. "bypass";
  token_secret = secret;
  config = some two_slots;
  rules = record {
    seo_crawler_bypass = false;
    cookie_bypass_name = [];
    header_bypass_name = [];
    header_bypass_value = [];
  };
  bypass = record { allowlist = codes "10.0.0.0/8" ∷ [] };
  geo = record { enabled = true; countries = codes "XX" ∷ []; expires_at = none };
}

abbrev visit : WebRequest
visit = record {
  user_agent = none;
  cookie = none;
  authorization = none;
  query_token = some ann_token;
  connecting_ip = some (codes "10.1.2.3");
  ip_country = some (codes "XX");
  header = λ name. none;
}

ann_extracted : extract_access_token env visit ≡ token ann_token
unfolding extract_access_token sign_access_token encode_json bytes_to_base64_url stringify
ann_extracted = refl

ann_admitted : is_token_admission (require_admission env visit "q" 0 100_000) ≡ true
unfolding require_admission
ann_admitted = rw (ann_extracted, admit_extracted, verify-sign_example) refl

bump-Revoked_example :
    (require_admission env visit "q" 1 200_000 ≡ unauthorized)
    × (is_admitted (resolve_access_gate env visit "q" (bump_token_epoch new_room).0 200_000)
        ≡ false)
unfolding bump_token_epoch
bump-Revoked_example = bump-Revoked env visit "q" new_room 100_000 200_000 ann_admitted

visit_allowlisted : is_ip_allowlisted (client_connecting_ip visit) env.bypass ≡ true
unfolding is_ip_allowlisted client_connecting_ip ip_matches_allowlist some_entry parse_cidr parse_ip
    trim trim_start trim_end is_empty includes parse_ipv4 split_on parse_octets parse_octet
    is_decimal every read_digits show_small cut_at mask_address address_in_network
visit_allowlisted = refl

allowlisted_passes_example :
    (lets_in (resolve_access_gate env visit "q" small_room 5_000) ≡ true)
    × ((evaluate_geo_block visit env.geo env.bypass 5_000).blocked ≡ false)
allowlisted_passes_example =
    allowlisted_passes env visit "q" small_room 5_000 visit_allowlisted refl refl
