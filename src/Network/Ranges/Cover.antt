-- ===== src/Network/Ranges/Cover.antt =====
-- When the cluster range of CalculateIPRanges contains the pod and the service range.
use Prim.Native.Nat.{min}
use microkube.Base.{
  ℕ, ◌≤◌, ◌<◌, some, true, false, ◌≡◌, ◌↔◌, ◌⊎◌, inl, inr, refl, sym, ap, subst, ◌∙◌, arith, length,
  ltb, if◌then◌else◌, Bool-cases, dec_lt,
}
use microkube.Base.Bytes.{Bytes}
use microkube.Network.Ip.{IpNet, ipv4, to4, mask_bytes, mask_octets, cidr_mask, net_contains}
use microkube.Network.Ip.Agree.{
  Agree, Agree-mono, Agree-sym, Agree-trans, Agree-mask_octets, All-mask_octets, length-mask_octets,
}
use microkube.Network.Ip.Contains.{IsV4, to4-ipv4, to4_four, net_contains_iff, length-mask_bytes}
use microkube.Network.Ranges.{Divergence, cluster_ip_range}
use microkube.Network.Ranges.Scan.{differing, Ends, scan_octets_one, scan_octets_more}

-- What net.ParseCIDR returns for an IPv4 text: an address, and its network of so many ones.
pub record IsV4Range (r : Bytes × IpNet) : Type 0 where
  pub octets : Bytes
  pub is_v4 : IsV4 octets
  pub ones : ℕ
  pub address : r.0 ≡ ipv4 octets
  pub net : r.1 ≡ record { ip = mask_octets octets (mask_bytes 4 ones); mask = mask_bytes 4 ones }

-- The two networks have no address in common.
abbrev pub AreDisjoint : {p s : Bytes × IpNet} → IsV4Range p → IsV4Range s → Type 0
AreDisjoint {p} {s} vp vs = ¬ Agree (min vp.ones vs.ones) p.1.ip s.1.ip

abbrev start : Divergence
start = record { base_offset = 0; service_below_pod = false }

-- The loop of CalculateIPRanges on two networks.
abbrev Scanned : Bytes × IpNet → Bytes × IpNet → ℕ → Type 0
Scanned p s bits = Ends 0 p.1.ip s.1.ip start bits

module _ {r : Bytes × IpNet} (v : IsV4Range r) where
  net_ip : r.1.ip ≡ mask_octets v.octets (mask_bytes 4 v.ones)
  net_ip = ap (λ (n : IpNet). n.ip) v.net

  net-IsV4 : IsV4 r.1.ip
  net-IsV4 = rw net_ip (record {
    four =
        length-mask_octets v.octets (mask_bytes 4 v.ones)
          (v.is_v4.four ∙ sym (length-mask_bytes 4 v.ones))
        ∙ v.is_v4.four;
    bytes = All-mask_octets 4 v.ones v.octets v.is_v4.bytes;
  })

  pub net_agrees : (bits : ℕ) → bits ≤ v.ones → Agree bits v.octets r.1.ip
  net_agrees bits h = Agree-sym bits r.1.ip v.octets (
      Agree-mono bits v.ones r.1.ip v.octets h net-IsV4.bytes v.is_v4.bytes
        (rw net_ip (Agree-mask_octets 4 v.ones v.octets v.is_v4.four v.is_v4.bytes)))

  -- The network accepts what agrees with it in its ones.
  pub in_range :
      (y : Bytes) → length y ≡ 4 → (net_contains r.1 (ipv4 y) ≡ true) ↔ Agree v.ones r.1.ip y
  in_range y k =
      subst (λ (n : IpNet). (net_contains n (ipv4 y) ≡ true) ↔ Agree v.ones r.1.ip y) (sym same)
        (net_contains_iff v.ones r.1.ip r.1.ip y (to4_four r.1.ip net-IsV4.four) net-IsV4.four k)
    where
      same : r.1 ≡ record { ip = r.1.ip; mask = mask_bytes 4 v.ones }
      same = v.net ∙ (λ i. record { ip = sym net_ip i; mask = mask_bytes 4 v.ones })

same_length : {p s : Bytes × IpNet} → IsV4Range p → IsV4Range s → length p.1.ip ≡ length s.1.ip
same_length vp vs = (net-IsV4 vp).four ∙ sym (net-IsV4 vs).four

module _ {p s : Bytes × IpNet} (vp : IsV4Range p) (vs : IsV4Range s) where
  -- The octets of the cluster range's address.
  base : Divergence → Bytes
  base d = if d.service_below_pod then vs.octets else vp.octets

  cluster_of : Divergence → ℕ → IpNet
  cluster_of d bits = record {
    ip = if d.service_below_pod then s.0 else p.0;
    mask = mask_bytes 4 bits;
  }

  cluster_computes :
      (bits : ℕ) (e : Scanned p s bits) → cluster_ip_range p s ≡ some (cluster_of e.last bits)
  unfolding cluster_ip_range cluster_of cidr_mask
  cluster_computes bits e =
      let short : ltb 32 e.last.base_offset ≡ false =
        ground (arith, e.offset, e.inside, net-IsV4 vp) in
      let offset : e.last.base_offset ≡ bits = omega (arith, e.offset) in
      rw (e.ends, cluster_ip_range, short, offset) refl

  to4-base : (d : Divergence) (bits : ℕ) → to4 (cluster_of d bits).ip ≡ some (base d)
  unfolding cluster_of base
  to4-base d bits = elim (Bool-cases d.service_below_pod) [
    | inl b ↦ rw (b, vs.address) (to4-ipv4 vs.octets vs.is_v4.four)
    | inr b ↦ rw (b, vp.address) (to4-ipv4 vp.octets vp.is_v4.four)
  ]

  base-IsV4 : (d : Divergence) → IsV4 (base d)
  unfolding base
  base-IsV4 d = elim (Bool-cases d.service_below_pod) [
    | inl b ↦ rw b vs.is_v4
    | inr b ↦ rw b vp.is_v4
  ]

  in_cluster :
      (d : Divergence) (bits : ℕ) (y : Bytes)
      → length y ≡ 4
      → (net_contains (cluster_of d bits) (ipv4 y) ≡ true) ↔ Agree bits (base d) y
  unfolding cluster_of
  in_cluster d bits y k =
      net_contains_iff bits (cluster_of d bits).ip (base d) y (to4-base d bits) (base-IsV4 d).four k

  disjoint_short :
      (bits : ℕ)
      → AreDisjoint vp vs
      → Agree bits p.1.ip s.1.ip
      → (bits ≤ vp.ones) × (bits ≤ vs.ones)
  disjoint_short bits apart a = elim (dec_lt bits (min vp.ones vs.ones)) [
    | yes lt ↦ (omega arith, omega arith)
    | no ge ↦ absurd (
        apart (
          Agree-mono (min vp.ones vs.ones) bits p.1.ip s.1.ip (omega arith) (net-IsV4 vp).bytes
            (net-IsV4 vs).bytes a))
  ]

  -- The cluster's address agrees with both networks, if these agree.
  base_agrees :
      (d : Divergence) (bits : ℕ)
      → (bits ≤ vp.ones) × (bits ≤ vs.ones)
      → Agree bits p.1.ip s.1.ip
      → Agree bits (base d) p.1.ip × Agree bits (base d) s.1.ip
  unfolding base
  base_agrees d bits (hp, hs) a = elim (Bool-cases d.service_below_pod) [
    | inl b ↦ rw b (
      Agree-trans bits vs.octets s.1.ip p.1.ip (net_agrees vs bits hs)
          (Agree-sym bits p.1.ip s.1.ip a),
      net_agrees vs bits hs,
    )
    | inr b ↦
        rw b (
          net_agrees vp bits hp,
          Agree-trans bits vp.octets p.1.ip s.1.ip (net_agrees vp bits hp) a,
        )
  ]

  -- Two IPv4 ranges with no common address whose networks differ in one octet only: the cluster
  -- range is computed, and it contains every IPv4 address of the pod range and of the service
  -- range.
  pub cluster_ip_range_covers :
      AreDisjoint vp vs
      → differing p.1.ip s.1.ip ≡ 1
      → (cluster : IpNet) × (cluster_ip_range p s ≡ some cluster)
        × ((y : Bytes)
            → IsV4 y
            → (net_contains p.1 (ipv4 y) ≡ true) ⊎ (net_contains s.1 (ipv4 y) ≡ true)
            → net_contains cluster (ipv4 y) ≡ true)
  cluster_ip_range_covers apart one =
      let (bits, e, agree) =
        scan_octets_one 0 p.1.ip s.1.ip start (same_length vp vs) (net-IsV4 vp).bytes
          (net-IsV4 vs).bytes one in
      let short = disjoint_short bits apart agree in
      let both = base_agrees e.last bits short agree in
      (
        cluster_of e.last bits,
        cluster_computes bits e,
        λ y v h. (in_cluster e.last bits y v.four).1 (elim h [
          | inl c ↦ Agree-trans bits (base e.last) p.1.ip y both.0 (
              Agree-mono bits vp.ones p.1.ip y short.0 (net-IsV4 vp).bytes v.bytes
                ((in_range vp y v.four).0 c))
          | inr c ↦ Agree-trans bits (base e.last) s.1.ip y both.1 (
              Agree-mono bits vs.ones s.1.ip y short.1 (net-IsV4 vs).bytes v.bytes
                ((in_range vs y v.four).0 c))
        ]),
      )

  -- Two IPv4 ranges whose networks differ in two octets or more: the cluster range is computed,
  -- and it misses the network address of the pod range or that of the service range.
  pub cluster_ip_range_misses :
      1 < differing p.1.ip s.1.ip
      → (cluster : IpNet) × (cluster_ip_range p s ≡ some cluster)
        × (¬ (
            (net_contains cluster (ipv4 p.1.ip) ≡ true)
            × (net_contains cluster (ipv4 s.1.ip) ≡ true)))
  cluster_ip_range_misses more =
      let (bits, e, apart) =
        scan_octets_more 0 p.1.ip s.1.ip start (same_length vp vs) (net-IsV4 vp).bytes
          (net-IsV4 vs).bytes more in
      (
        cluster_of e.last bits,
        cluster_computes bits e,
        λ h. apart (
            Agree-trans bits p.1.ip (base e.last) s.1.ip
              (Agree-sym bits (base e.last) p.1.ip
                ((in_cluster e.last bits p.1.ip (net-IsV4 vp).four).0 h.0))
              ((in_cluster e.last bits s.1.ip (net-IsV4 vs).four).0 h.1)),
      )
