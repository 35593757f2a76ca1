-- ===== src/Args/Dns.antt =====
-- The address of the cluster's DNS service.
use microkube.Base.{◌+◌, ◌%◌, ◌≤◌, true, [], ◌∷◌, ◌≡◌, ◌≢◌, refl, sym, ap, ◌∙◌, arith, length}
use microkube.Base.Bytes.{Bytes}
use microkube.Network.Ip.{IpNet, ipv4, net_contains}
use microkube.Network.Ip.Agree.{AreOctets, Agree, Agree-mono, Agree-sym, Agree-trans, bit_and_none}
use microkube.Network.Ranges.Cover.{IsV4Range, net_agrees, in_range}
use microkube.Args.{dns_address}

-- The next address within the same 256 addresses.
next_host : Bytes → Bytes
next_host (a ∷ b ∷ c ∷ d ∷ []) = a ∷ b ∷ c ∷ (d + 1) % 256 ∷ []
next_host octets = octets

dns_address-ipv4 :
    (octets : Bytes) → length octets ≡ 4 → dns_address (ipv4 octets) ≡ ipv4 (next_host octets)
unfolding dns_address next_host
dns_address-ipv4 (a ∷ b ∷ c ∷ d ∷ []) h = refl
dns_address-ipv4 _ h = absurd (omega arith)

length-next_host : (octets : Bytes) → length octets ≡ 4 → length (next_host octets) ≡ 4
unfolding next_host
length-next_host (a ∷ b ∷ c ∷ d ∷ []) h = refl
length-next_host _ h = absurd (omega arith)

next_host-AreOctets :
    (octets : Bytes) → length octets ≡ 4 → AreOctets octets → AreOctets (next_host octets)
unfolding next_host
next_host-AreOctets (a ∷ b ∷ c ∷ d ∷ []) h (ha, (hb, (hc, _))) = (ha, (hb, (hc, (omega arith, tt))))
next_host-AreOctets _ h o = absurd (omega arith)

Agree-next_host :
    (octets : Bytes) → length octets ≡ 4 → AreOctets octets → Agree 24 octets (next_host octets)
unfolding next_host
Agree-next_host (a ∷ b ∷ c ∷ d ∷ []) h o = (
  refl,
  (
    refl,
    (refl, (bit_and_none d (o.1.1.1.0) ∙ sym (bit_and_none ((d + 1) % 256) (omega arith)), tt)),
  ),
)
Agree-next_host _ h o = absurd (omega arith)

other_host :
    (octets : Bytes) → length octets ≡ 4 → AreOctets octets → ipv4 (next_host octets) ≢ ipv4 octets
unfolding next_host
other_host (a ∷ b ∷ c ∷ d ∷ []) h o e =
    let same : (d + 1) % 256 ≡ d = cc in omega (arith, same, o.1.1.1.0)
other_host _ h o e = absurd (omega arith)

-- For an IPv4 service range of at most 24 ones, the address of the DNS service lies in the service
-- network, and it is another address than that of the API server's service.
pub dns_address_lem :
    {s : Bytes × IpNet} (vs : IsV4Range s)
    → vs.ones ≤ 24
    → (net_contains s.1 (dns_address s.0) ≡ true) × (dns_address s.0 ≢ s.0)
dns_address_lem {s} vs h =
    let o = vs.octets in
    let four = vs.is_v4.four in
    let bytes = vs.is_v4.bytes in
    let dns : dns_address s.0 ≡ ipv4 (next_host o) =
      ap dns_address vs.address ∙ dns_address-ipv4 o four in
    let near : Agree vs.ones o (next_host o) =
      Agree-mono vs.ones 24 o (next_host o) h bytes (next_host-AreOctets o four bytes)
        (Agree-next_host o four bytes) in
    let agrees : Agree vs.ones s.1.ip (next_host o) =
      Agree-trans vs.ones s.1.ip o (next_host o)
        (Agree-sym vs.ones o s.1.ip (net_agrees vs vs.ones (omega arith))) near in
    (
      ap (net_contains s.1) dns ∙ (in_range vs (next_host o) (length-next_host o four)).1 agrees,
      λ e. other_host o four bytes (sym dns ∙ (e ∙ vs.address)),
    )
