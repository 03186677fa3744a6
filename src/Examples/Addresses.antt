-- ===== src/Examples/Addresses.antt =====
-- Addresses, networks and origins, and the theorems applied to them.
use tide_guard.Base.{ℕ, arith, ◌≡◌, refl, true, false, none, some, List, [], ◌∷◌, take}
use tide_guard.Auth.{Text, codes, is_empty}
use tide_guard.Auth.Encoding.{split_on, join_on}
use tide_guard.Auth.Ip.{
  v4, parse_ip, parse_ipv4, parse_octets, parse_octet, mask_address, address_in_network, format_ip,
}
use tide_guard.Auth.Texts.{
  trim, trim_start, trim_end, includes, is_decimal, every, read_digits, show_small, same_text,
}
use tide_guard.Auth.Ip.Allowlist.{ParsedCidr, parse_cidr, cut_at}
use tide_guard.Auth.Ip.Networks.{bits, in_network-bits}
use tide_guard.Auth.Ip.Canonical.{raw-Canonical}
use tide_guard.Origin.{
  Url, OriginEnv, normalize_origin_url, parse_origin_config_from_env, merge_origin_config,
  should_proxy_to_origin,
}
use tide_guard.Origin.Hosts.{
  is_blocked_origin_host, ends_with, is_dotted, is_private_ipv4, is_private_ipv6, strip_end,
  drop_end,
}
use tide_guard.Origin.Paths.{is_tide_guard_path, is_static_tide_guard_path}
use tide_guard.Gate.Rules.{starts_with, any_text}
use tide_guard.Origin.Guard.{bracketed-Allowed}
use tide_guard.Origin.Merged.{Safe, proxied-Safe}

abbrev office : List ℕ
office = 10 ∷ 1 ∷ 2 ∷ 3 ∷ []

abbrev entry : List ℕ
entry = 10 ∷ 1 ∷ 130 ∷ 9 ∷ []

in_network-bits_example :
    address_in_network office (mask_address entry 17) 17
    ≡ same_text (take 17 (bits office)) (take 17 (bits entry))
in_network-bits_example =
    in_network-bits office entry 17 (omega arith, (omega arith, (omega arith, (omega arith, tt))))
      (omega arith, (omega arith, (omega arith, (omega arith, tt)))) refl

abbrev office_network : ParsedCidr
office_network = record {
  version = v4;
  network = 10 ∷ 0 ∷ 0 ∷ 0 ∷ [];
  prefix_length = 8;
  raw = codes "10.0.0.0/8";
}

network_parsed : parse_cidr (codes " 10.1.2.3/8 ") ≡ some office_network
unfolding parse_cidr parse_ip trim trim_start trim_end is_empty includes parse_ipv4 split_on
    parse_octets parse_octet is_decimal every read_digits show_small cut_at mask_address format_ip
    join_on
network_parsed = refl

raw-Canonical_example : parse_cidr (codes "10.0.0.0/8") ≡ some office_network
raw-Canonical_example = raw-Canonical (codes " 10.1.2.3/8 ") office_network network_parsed

abbrev loopback : Url
loopback = record { protocol = codes "http:"; hostname = codes "[::1]"; host = codes "[::1]" }

bracketed-Allowed_example :
    normalize_origin_url (λ t. some loopback) (some (codes "http://[::1]"))
    ≡ some (codes "http://[::1]")
unfolding trim trim_start trim_end is_empty
bracketed-Allowed_example =
    bracketed-Allowed (λ t. some loopback) (codes "http://[::1]") loopback (codes "::1") refl refl
      refl refl

abbrev shop : Url
shop = record { protocol = codes "https:"; hostname = codes "shop.io"; host = codes "shop.io" }

abbrev shop_env : OriginEnv
shop_env = record {
  origin_url = some (codes "https://shop.io/a");
  origin_protect_all = none;
  origin_path_prefixes = none;
  default_queue = none;
}

shop_proxied :
    should_proxy_to_origin (codes "/buy") (
      merge_origin_config
        (λ t. some shop)
        (parse_origin_config_from_env (λ t. some shop) shop_env)
        none)
    ≡ true
unfolding should_proxy_to_origin merge_origin_config parse_origin_config_from_env
    normalize_origin_url trim trim_start trim_end is_empty is_blocked_origin_host ends_with
    is_dotted is_private_ipv4 is_private_ipv6 strip_end drop_end every is_decimal split_on includes
    is_tide_guard_path is_static_tide_guard_path starts_with any_text
shop_proxied = refl

proxied-Safe_example :
    let config =
      merge_origin_config
        (λ t. some shop)
        (parse_origin_config_from_env (λ t. some shop) shop_env)
        none in
    ((origin : Text) × (config.origin_url ≡ some origin) × Safe (λ t. some shop) origin)
    × (is_tide_guard_path (codes "/buy") true ≡ false)
proxied-Safe_example = proxied-Safe (λ t. some shop) shop_env none (codes "/buy") shop_proxied
