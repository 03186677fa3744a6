-- ===== src/Auth/Ip/Canonical.antt =====
-- The stored form of an entry (`raw` of `parseCidr`, src/auth/ip-allowlist.ts), parsed again.
use tide_guard.Base.{
  ℕ, ◌≤◌, ◌<◌, ◌≡◌, refl, ap, ◌∙◌, subst, true, false, not, ◌||◌, Option, none, some, [], ◌∷◌, ◌++◌,
  ltb, arith,
}
use tide_guard.Auth.{Text, is_empty}
use tide_guard.Auth.Ip.{slash, IpVersion, v4, v6, Ip, parse_ip, format_ip, mask_address}
use tide_guard.Auth.Texts.{trim, is_decimal, read_digits, show_small}
use tide_guard.Auth.Ip.RoundTrip.{size, parse-format}
use tide_guard.Auth.Ip.Parsed.{WhenSome, Sized, none-or, parse_ip-Sized, mask_address-Sized}
use tide_guard.Auth.Ip.Printed.{
  Printed, All-append, hex-Printed, small_laws, format_ip-Printed, trim-plain, cut_at-none,
  cut_at-first, parsed-filled, plain_text,
}
use tide_guard.Auth.Ip.Allowlist.{
  ParsedCidr, cut_at, max_prefix, of_address, of_network, of_parts, parse_cidr,
}

address_again :
    (ip : Ip) (t : Text) → Printed t → parse_ip t ≡ some ip → parse_cidr t ≡ of_address (some ip)
unfolding parse_cidr
address_again ip t h e =
    let (spaceless, slashless) = plain_text t h in
    rw (trim-plain t spaceless, parsed-filled t ip e, cut_at-none slash t slashless, e) refl

append-filled : (t s : Text) (c : ℕ) → is_empty (t ++ c ∷ s) ≡ false
unfolding is_empty
append-filled [] s c = refl
append-filled (x ∷ t) s c = refl

network_again :
    (ip : Ip) (t : Text) (n : ℕ)
    → Printed t
    → parse_ip t ≡ some ip
    → n < 256
    → parse_cidr (t ++ slash ∷ show_small n) ≡ of_network (some ip) (show_small n)
unfolding parse_cidr Printed
network_again ip t n h e k =
    let (spaceless, slashless) = plain_text t h in
    let (ending, unused) = plain_text (show_small n) (hex-Printed _ ((small_laws n k).0)) in
    rw
      (
        trim-plain (t ++ slash ∷ show_small n) (All-append _ t _ spaceless (refl, ending)),
        append-filled t (show_small n) slash,
        cut_at-first slash t (show_small n) slashless,
        e,
      )
      refl

of_address-Canonical :
    (o : Option Ip)
    → WhenSome (λ ip. Sized (size (ip.version)) (ip.bytes)) o
    → WhenSome (λ c. parse_cidr (c.raw) ≡ some c) (of_address o)
unfolding WhenSome Sized
of_address-Canonical none h = tt
of_address-Canonical (some ip) h =
    address_again ip _ (format_ip-Printed (ip.version) (ip.bytes) h)
      (parse-format (ip.version) (ip.bytes) (h.1) (h.0))

max_prefix-small : (v : IpVersion) → max_prefix v ≤ 128
max_prefix-small v4 = omega arith
max_prefix-small v6 = omega arith

network_form :
    (ip : Ip) (n : ℕ) (s : Text)
    → is_decimal s ≡ true
    → read_digits 10 0 s ≡ n
    → ltb (max_prefix (ip.version)) n ≡ false
    → of_network (some ip) s
      ≡ some (record {
        version = ip.version;
        network = mask_address (ip.bytes) n;
        prefix_length = n;
        raw = format_ip (ip.version) (mask_address (ip.bytes) n) ++ slash ∷ show_small n;
      })
network_form ip n s d e l = rw (d, e, l) refl

network_raw :
    (ip : Ip) (n : ℕ)
    → Sized (size (ip.version)) (ip.bytes)
    → ltb (max_prefix (ip.version)) n ≡ false
    → let network = mask_address (ip.bytes) n in
      let text = format_ip (ip.version) network ++ slash ∷ show_small n in
      parse_cidr text
      ≡ some (record { version = ip.version; network = network; prefix_length = n; raw = text })
unfolding Sized
network_raw ip n h l =
    let (sized, again) = mask_address-Sized _ (ip.bytes) n h in
    let small : n < 256 = ground (arith, max_prefix-small (ip.version)) in
    let (digits, decimal, back) = small_laws n small in
    let masked : Ip = record { version = ip.version; bytes = mask_address (ip.bytes) n } in
    network_again masked _ n (format_ip-Printed (ip.version) _ sized)
      (parse-format (ip.version) _ (sized.1) (sized.0)) small
    ∙ network_form masked n (show_small n) decimal back l
    ∙ ap
        (λ bs. some (record {
          version = ip.version;
          network = bs;
          prefix_length = n;
          raw = format_ip (ip.version) bs ++ slash ∷ show_small n;
        }))
        again

of_network-Canonical :
    (o : Option Ip) (s : Text)
    → WhenSome (λ ip. Sized (size (ip.version)) (ip.bytes)) o
    → WhenSome (λ c. parse_cidr (c.raw) ≡ some c) (of_network o s)
unfolding WhenSome
of_network-Canonical none s h = tt
of_network-Canonical (some ip) s h =
    none-or _ (not (is_decimal s) || ltb (max_prefix (ip.version)) (read_digits 10 0 s)) _
      λ e. network_raw ip (read_digits 10 0 s) h (ground arith)

of_parts-Canonical :
    (o : Option (Text × Text)) (t : Text)
    → WhenSome (λ c. parse_cidr (c.raw) ≡ some c) (of_parts o t)
of_parts-Canonical none t = of_address-Canonical (parse_ip t) (parse_ip-Sized t)
of_parts-Canonical (some (a, s)) t = of_network-Canonical (parse_ip a) s (parse_ip-Sized a)

some-eq {ℓ} : {A : Type ℓ} (a b : A) → some a ≡ some b → a ≡ b
some-eq a b h = cc

none≢ {ℓ} : {A : Type ℓ} (a : A) → none ≡ some a → ⊥
none≢ a h = cc

parsed : (text : Text) → WhenSome (λ c. parse_cidr (c.raw) ≡ some c) (parse_cidr text)
unfolding parse_cidr
parsed text =
    none-or _ (is_empty (trim text)) _
      λ _. of_parts-Canonical (cut_at slash (trim text)) (trim text)

when_some {ℓ κ} :
    {A : Type ℓ} (P : A → Type κ) (o : Option A) (a : A) → WhenSome P o → o ≡ some a → P a
unfolding WhenSome
when_some P none a h e = absurd (none≢ a e)
when_some P (some b) a h e = subst P (some-eq b a e) h

-- The stored form of an entry that is accepted parses again to the very same entry: the same
-- version, network, prefix and stored form.
pub raw-Canonical :
    (text : Text) (c : ParsedCidr) → parse_cidr text ≡ some c → parse_cidr (c.raw) ≡ some c
raw-Canonical text c h = when_some _ (parse_cidr text) c (parsed text) h
