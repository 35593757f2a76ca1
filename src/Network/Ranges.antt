-- ===== src/Network/Ranges.antt =====
-- CalculateIPRanges: the pod, the service and the cluster network.
pub mod Scan
pub mod Cover
use Prim.Native.Nat.{bit_and}
use microkube.Base.{
  ℕ, zero, suc, ◌+◌, ◌-◌, ◌*◌, ◌^◌, Option, none, some, Bool, true, false, List, [], ◌∷◌, ltb, ◌==◌,
  if◌then◌else◌,
}
use microkube.Base.Bytes.{Bytes}
use microkube.Network.Ip.{IpNet, cidr_mask, parse_cidr}
use microkube.Network.Bind.{bound, fatal, panicked, find_address}

pub record Divergence : Type 0 where
  pub base_offset : ℕ
  pub service_below_pod : Bool

-- The loop over `mask`: so many rounds are left, and `mask` is 2 ^ (rounds - 1).
unfoldable pub scan_bits : ℕ → ℕ → ℕ → Divergence → Divergence
scan_bits zero pod octet d = d
scan_bits (suc k) pod octet d =
    let next = record d { base_offset = d.base_offset + 1 } in
    elim (bit_and pod (2 ^ k) == bit_and octet (2 ^ k)) [
      | false ↦ record next { service_below_pod = ltb octet pod }
      | true ↦ scan_bits k pod octet next
    ]

-- The body of the loop over the octets of the service network.
unfoldable pub scan_octet : ℕ → ℕ → ℕ → Divergence → Divergence
unfolding scan_bits
scan_octet idx pod octet d =
    if pod == octet
    then d
    else let r = scan_bits 8 pod octet (record d { base_offset = idx * 8 }) in
      record r { base_offset = r.base_offset - 1 }

-- That loop; `none` is the panic on `podRangeNet.IP[idx]` out of range.
unfoldable pub scan_octets : ℕ → Bytes → Bytes → Divergence → Option Divergence
unfolding scan_octet
scan_octets idx pods [] d = some d
scan_octets idx [] (octet ∷ octets) d = none
scan_octets idx (pod ∷ pods) (octet ∷ octets) d =
    scan_octets (suc idx) pods octets (scan_octet idx pod octet d)

pub record Ranges : Type 0 where
  pub pod : IpNet
  pub service : IpNet
  pub cluster : IpNet
  pub bind : Bytes
  pub first_svc : Bytes

pub data Calculated : Type 0 where
  calculated : Ranges → Calculated
  parse_error : Calculated
  no_address : Calculated
  index_panic : Calculated

-- The cluster range from both parsed ranges.
unfoldable pub cluster_ip_range : Bytes × IpNet → Bytes × IpNet → Option IpNet
unfolding scan_octets cidr_mask
cluster_ip_range (pod_ip, pod_net) (service_ip, service_net) =
    elim (scan_octets 0 pod_net.ip service_net.ip
      (record { base_offset = 0; service_below_pod = false })) [
        | none ↦ none
        | some d ↦ some (record {
          ip = if d.service_below_pod then service_ip else pod_ip;
          mask = cidr_mask d.base_offset 32;
        })
      ]

unfoldable pub calculate_ip_ranges :
    (Bytes → Option Bytes) → Option (List (Option (List Bytes))) → Bytes → Bytes → Calculated
unfolding cluster_ip_range
calculate_ip_ranges parse_ipv6 interfaces pod_range service_range =
    elim (parse_cidr parse_ipv6 pod_range) [
      | none ↦ parse_error
      | some pod ↦ elim (parse_cidr parse_ipv6 service_range) [
        | none ↦ parse_error
        | some service ↦ elim (find_address parse_ipv6 interfaces) [
          | fatal ↦ no_address
          | panicked ↦ index_panic
          | bound bind ↦ elim (cluster_ip_range pod service) [
            | none ↦ index_panic
            | some cluster ↦ calculated (record {
              pod = pod.1;
              service = service.1;
              cluster = cluster;
              bind = bind;
              first_svc = service.0;
            })
          ]
        ]
      ]
    ]
