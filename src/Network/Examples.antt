-- ===== src/Network/Examples.antt =====
-- The theorems on internal/cmd/Network.go at concrete inputs.
use microkube.Base.{Option, none, some, true, List, [], ◌∷◌, ◌≡◌, ◌⊎◌, refl, arith}
use microkube.Base.Bytes.{Bytes, codes}
use microkube.Base.Samples.{no_ipv6}
use microkube.Network.Ip.{IpNet, ipv4, mask_bytes, mask_octets, net_contains}
use microkube.Network.Ip.Contains.{IsV4}
use microkube.Network.Bind.{bound, fatal, find_address}
use microkube.Network.Bind.Choice.{IsUsable, readable, Collects, Chosen, find_address_cases}
use microkube.Network.Ranges.{cluster_ip_range}
use microkube.Network.Ranges.Scan.{differing}
use microkube.Network.Ranges.Cover.{
  IsV4Range, AreDisjoint, cluster_ip_range_covers, cluster_ip_range_misses,
}

abbrev interfaces : List (Option (List Bytes))
interfaces =
    some (codes "127.0.0.1/8" ∷ codes "8.8.8.8/24" ∷ codes "192.168.7.9/24" ∷ []) ∷ none ∷ []

find_address_cases_example :
    (items : List Bytes) × Collects no_ipv6 (readable no_ipv6 interfaces) items
    × (((find_address no_ipv6 (some interfaces) ≡ fatal) × (items ≡ []))
        ⊎ ((address : Bytes) × (find_address no_ipv6 (some interfaces) ≡ bound address)
            × Chosen no_ipv6 items address
            × IsUsable no_ipv6 address))
find_address_cases_example = find_address_cases no_ipv6 interfaces

-- What net.ParseCIDR returns for a.b.c.d/24.
abbrev range_of : Bytes → Bytes × IpNet
range_of octets =
    (ipv4 octets, record { ip = mask_octets octets (mask_bytes 4 24); mask = mask_bytes 4 24 })

abbrev pod_octets : Bytes
pod_octets = 10 ∷ 233 ∷ 42 ∷ 1 ∷ []

abbrev service_octets : Bytes
service_octets = 10 ∷ 233 ∷ 43 ∷ 1 ∷ []

abbrev far_octets : Bytes
far_octets = 10 ∷ 96 ∷ 0 ∷ 1 ∷ []

abbrev range_of_v4 : (octets : Bytes) → IsV4 octets → IsV4Range (range_of octets)
range_of_v4 octets h = record { octets = octets; is_v4 = h; ones = 24; address = refl; net = refl }

abbrev pod_v4 : IsV4Range (range_of pod_octets)
pod_v4 =
    range_of_v4 pod_octets (record {
      four = refl;
      bytes = (omega arith, (omega arith, (omega arith, (omega arith, tt))));
    })

abbrev service_v4 : IsV4Range (range_of service_octets)
service_v4 =
    range_of_v4 service_octets (record {
      four = refl;
      bytes = (omega arith, (omega arith, (omega arith, (omega arith, tt))));
    })

abbrev far_v4 : IsV4Range (range_of far_octets)
far_v4 =
    range_of_v4 far_octets (record {
      four = refl;
      bytes = (omega arith, (omega arith, (omega arith, (omega arith, tt))));
    })

pod_service-AreDisjoint : AreDisjoint pod_v4 service_v4
unfolding mask_octets mask_bytes
pod_service-AreDisjoint h = omega (arith, h.1.1.0)

cluster_ip_range_covers_example :
    (cluster : IpNet) × (cluster_ip_range (range_of pod_octets) (range_of service_octets)
      ≡ some cluster)
    × ((y : Bytes)
        → IsV4 y
        → (net_contains (range_of pod_octets).1 (ipv4 y) ≡ true)
          ⊎ (net_contains (range_of service_octets).1 (ipv4 y) ≡ true)
        → net_contains cluster (ipv4 y) ≡ true)
unfolding differing mask_octets mask_bytes
cluster_ip_range_covers_example =
    cluster_ip_range_covers pod_v4 service_v4 pod_service-AreDisjoint refl

cluster_ip_range_misses_example :
    (cluster : IpNet) × (cluster_ip_range (range_of pod_octets) (range_of far_octets)
      ≡ some cluster)
    × (¬ (
        (net_contains cluster (ipv4 (range_of pod_octets).1.ip) ≡ true)
        × (net_contains cluster (ipv4 (range_of far_octets).1.ip) ≡ true)))
unfolding differing mask_octets mask_bytes
cluster_ip_range_misses_example = cluster_ip_range_misses pod_v4 far_v4 (omega arith)
