-- ===== src/Args/Examples.antt =====
-- The theorems on evalArgs at concrete flags.
use microkube.Base.{true, [], ◌∷◌, ◌≡◌, ◌≢◌, refl, arith, Option, some, String, false, Bool, List}
use microkube.Base.Bytes.{Bytes, codes}
use microkube.Base.Samples.{no_ipv6}
use microkube.Handlers.Env.{init_ports}
use microkube.Network.Ip.{parse_cidr, IpNet, ipv4, mask_bytes, mask_octets, net_contains}
use microkube.Network.Bind.{find_address, candidates, usable, in_net, find_bind_address, is_private}
use microkube.Network.Ranges.{Ranges, calculate_ip_ranges}
use microkube.Args.{ArgHandlerGlobalState, ArgHandler, base_exec_env, eval_args, dns_address}
use microkube.Args.Laws.{FromFlags, eval_args-FromFlags}
use microkube.Network.Ranges.Cover.{IsV4Range}
use microkube.Args.Dns.{dns_address_lem}

abbrev svc_octets : Bytes
svc_octets = 10 ∷ 233 ∷ 43 ∷ 1 ∷ []

-- 10.233.43.1/24, the default.
abbrev svc_range : Bytes × IpNet
svc_range = (
  ipv4 svc_octets,
  record { ip = mask_octets svc_octets (mask_bytes 4 24); mask = mask_bytes 4 24 },
)

abbrev svc_v4 : IsV4Range svc_range
svc_v4 = record {
  octets = svc_octets;
  is_v4 = record {
    four = refl;
    bytes = (omega arith, (omega arith, (omega arith, (omega arith, tt))));
  };
  ones = 24;
  address = refl;
  net = refl;
}

dns_address_lem_example :
    (net_contains svc_range.1 (dns_address svc_range.0) ≡ true)
    × (dns_address svc_range.0 ≢ svc_range.0)
dns_address_lem_example = dns_address_lem svc_v4 (omega arith)

abbrev keep_path : String → Option String
keep_path s = some s

abbrev any_file : String → Bool
any_file s = true

abbrev host : Option (List (Option (List Bytes)))
host = some (some (codes "127.0.0.1/8" ∷ codes "192.168.7.9/24" ∷ []) ∷ [])

-- The flags by default.
abbrev default_flags : ArgHandlerGlobalState
default_flags = record {
  verbose = false;
  root = "~/.mukube";
  extra_bin_dir = "";
  sudo_method = "/usr/bin/pkexec";
  pod_range = codes "10.233.42.1/24";
  service_range = codes "10.233.43.1/24";
  enable_kube_dash = true;
  enable_dns = true;
}

abbrev pod_octets : Bytes
pod_octets = 10 ∷ 233 ∷ 42 ∷ 1 ∷ []

abbrev default_ranges : Ranges
default_ranges = record {
  pod = record { ip = 10 ∷ 233 ∷ 42 ∷ 0 ∷ []; mask = 255 ∷ 255 ∷ 255 ∷ 0 ∷ [] };
  service = record { ip = 10 ∷ 233 ∷ 43 ∷ 0 ∷ []; mask = 255 ∷ 255 ∷ 255 ∷ 0 ∷ [] };
  cluster = record { ip = ipv4 pod_octets; mask = 255 ∷ 255 ∷ 254 ∷ 0 ∷ [] };
  bind = ipv4 (192 ∷ 168 ∷ 7 ∷ 9 ∷ []);
  first_svc = ipv4 svc_octets;
}

abbrev default_handler : ArgHandler
default_handler = record {
  base_dir = "~/.mukube";
  extra_bin_dir = "";
  pod_range_net = default_ranges.pod;
  service_range_net = default_ranges.service;
  cluster_ip_range = default_ranges.cluster;
  enable_kube_dash = true;
  enable_dns = true;
  verbose = false;
}

eval_args-FromFlags_example :
    FromFlags keep_path any_file no_ipv6 host default_flags default_handler
      (init_ports (base_exec_env default_ranges "/usr/bin/pkexec") 7000)
unfolding eval_args calculate_ip_ranges parse_cidr find_address candidates usable in_net
    net_contains find_bind_address is_private
eval_args-FromFlags_example = eval_args-FromFlags keep_path any_file no_ipv6 host default_flags refl
