-- ===== src/Args.antt =====
-- internal/cmd/ArgHandler.go: the environment that all services start from. `expand` stands for
-- homedir.Expand (`none` is an error), and `is_regular` for os.Stat with the test of the mode.
pub mod Dns
pub mod Laws
pub mod Examples
use microkube.Base.{
  ℕ, zero, suc, ◌+◌, ◌%◌, String, Bool, true, false, Option, none, some, List, [], ◌∷◌,
}
use microkube.Base.Bytes.{Bytes}
use microkube.Handlers.Env.{ExecutionEnvironment, init_ports}
use microkube.Network.Ip.{IpNet, ipv4}
use microkube.Network.Ranges.{
  Ranges, calculated, parse_error, no_address, index_panic, calculate_ip_ranges,
}

-- argHandlerGlobalState: the flags.
pub record ArgHandlerGlobalState : Type 0 where
  pub verbose : Bool
  pub root : String
  pub extra_bin_dir : String
  pub sudo_method : String
  pub pod_range : Bytes
  pub service_range : Bytes
  pub enable_kube_dash : Bool
  pub enable_dns : Bool

pub record ArgHandler : Type 0 where
  pub base_dir : String
  pub extra_bin_dir : String
  pub pod_range_net : IpNet
  pub service_range_net : IpNet
  pub cluster_ip_range : IpNet
  pub enable_kube_dash : Bool
  pub enable_dns : Bool
  pub verbose : Bool

-- What evalArgs comes to: `fatal` is a logrus Fatal, `panicked` an index out of range.
pub data Evaluated : Type 0 where
  evaluated : ArgHandler → ExecutionEnvironment → Evaluated
  fatal : Evaluated
  panicked : Evaluated

-- `copy(dst, src)`
unfoldable pub copy : Bytes → Bytes → Bytes
copy [] src = []
copy (x ∷ dst) [] = x ∷ dst
copy (x ∷ dst) (y ∷ src) = y ∷ copy dst src

-- `b[i]++` on bytes, for an index in range.
unfoldable pub increment_at : ℕ → Bytes → Bytes
increment_at i [] = []
increment_at zero (x ∷ xs) = (x + 1) % 256 ∷ xs
increment_at (suc i) (x ∷ xs) = x ∷ increment_at i xs

-- `dnsIP`, from `serviceRangeIP`.
unfoldable pub dns_address : Bytes → Bytes
unfolding copy increment_at
dns_address service_range_ip = increment_at 15 (copy (ipv4 (0 ∷ 0 ∷ 0 ∷ 0 ∷ [])) service_range_ip)

-- An environment of which only its addresses and the sudo method are set.
abbrev pub base_exec_env : Ranges → String → ExecutionEnvironment
unfolding dns_address
base_exec_env ranges sudo_method = record {
  binary = "";
  sudo_method = sudo_method;
  workdir = "";
  listen_address = ranges.bind;
  service_address = ranges.first_svc;
  dns_address = dns_address ranges.first_svc;
  output_handler = 0;
  exit_handler = 0;
  etcd_client_port = 0;
  etcd_peer_port = 0;
  kube_api_port = 0;
  kube_node_api_port = 0;
  kube_controller_manager_port = 0;
  kubelet_health_port = 0;
  kube_proxy_health_port = 0;
  kube_proxy_metrics_port = 0;
  kube_scheduler_health_port = 0;
  kube_scheduler_metrics_port = 0;
}

module _ (expand : String → Option String) (is_regular : String → Bool)
    (parse_ipv6 : Bytes → Option Bytes) (interfaces : Option (List (Option (List Bytes)))) where
  -- evalArgs
  unfoldable pub eval_args : ArgHandlerGlobalState → Evaluated
  unfolding init_ports base_exec_env
  eval_args gs = elim (expand gs.root) [
    | none ↦ fatal
    | some base_dir ↦ elim (expand gs.extra_bin_dir) [
      | none ↦ fatal
      | some extra_bin_dir ↦
          elim (calculate_ip_ranges parse_ipv6 interfaces gs.pod_range gs.service_range) [
            | parse_error ↦ fatal
            | no_address ↦ fatal
            | index_panic ↦ panicked
            | calculated ranges ↦ elim (is_regular gs.sudo_method) [
              | false ↦ fatal
              | true ↦
                  evaluated
                    (record {
                      base_dir = base_dir;
                      extra_bin_dir = extra_bin_dir;
                      pod_range_net = ranges.pod;
                      service_range_net = ranges.service;
                      cluster_ip_range = ranges.cluster;
                      enable_kube_dash = gs.enable_kube_dash;
                      enable_dns = gs.enable_dns;
                      verbose = gs.verbose;
                    })
                    (init_ports (base_exec_env ranges gs.sudo_method) 7000)
            ]
          ]
    ]
  ]
