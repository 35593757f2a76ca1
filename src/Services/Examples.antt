-- ===== src/Services/Examples.antt =====
-- The theorems on the services at concrete inputs.
use microkube.Base.{inr, some, ℕ, ◌≤◌, none, [], ◌∷◌, ◌≡◌, ◌↔◌, String}
use microkube.Base.Int.{pos}
use microkube.Base.Bytes.{Bytes, codes}
use microkube.Base.Texts.{itoa}
use microkube.Base.Samples.{sample_pkg}
use microkube.Handlers.Env.{ExecutionEnvironment, copy_information_from_base}
use microkube.Services.Shared.{RsaCertificate, MicrokubeCredentials}
use microkube.Services.Health.{
  Decoded, decoded, decode_error, EtcdStatus, KubeProxyStatus, etcd_validator, kube_proxy_validator,
}
use microkube.Services.Health.Laws.{validators_accept_all}
use microkube.Services.Etcd
use microkube.Services.Etcd.{new_etcd_handler}
use microkube.Services.ApiServer
use microkube.Services.ApiServer.{KubeApiServerHandler, new_kube_api_server_handler, service_ports}
use microkube.Services.ApiServer.Ports.{Holds, service_ports_range}
use microkube.Services.Kubeconfig.{Disk, create_client_kubeconfig}
use microkube.Services.Kubeconfig.Laws.{IsWritten, create_client_kubeconfig_iff}
use microkube.Services.Wiring.{EtcdLink, etcd_link}

abbrev not_ok : Bytes → String
not_ok body = "not ok"

-- A status of etcd that says that it is unhealthy.
abbrev sick : Decoded EtcdStatus
sick = decoded (record { health = codes "false" })

abbrev garbled : Decoded KubeProxyStatus
garbled = decode_error "invalid character"

validators_accept_all_example :
    ((etcd_validator sample_pkg sick ≡ none) ↔ ((status : EtcdStatus) × (sick ≡ decoded status)))
    × ((kube_proxy_validator sample_pkg garbled ≡ none)
        ↔ ((status : KubeProxyStatus) × (garbled ≡ decoded status)))
validators_accept_all_example = validators_accept_all sample_pkg sick garbled

abbrev ipv6_text : Bytes → String
ipv6_text address = "::1"

abbrev base_env : ExecutionEnvironment
base_env = record {
  binary = "hyperkube";
  sudo_method = "/usr/bin/pkexec";
  workdir = "/tmp";
  listen_address = 192 ∷ 168 ∷ 7 ∷ 9 ∷ [];
  service_address = [];
  dns_address = [];
  output_handler = 1;
  exit_handler = 2;
  etcd_client_port = 7000;
  etcd_peer_port = 7001;
  kube_api_port = 7002;
  kube_node_api_port = 7003;
  kube_controller_manager_port = 7004;
  kubelet_health_port = 7005;
  kube_proxy_health_port = 7006;
  kube_proxy_metrics_port = 7007;
  kube_scheduler_health_port = 7008;
  kube_scheduler_metrics_port = 7009;
}

abbrev cert_at : String → RsaCertificate
cert_at path = record { cert_path = path; key_path = path }

abbrev creds : MicrokubeCredentials
creds = record {
  etcd_ca = cert_at "etcd-ca";
  etcd_client = cert_at "etcd-client";
  etcd_server = cert_at "etcd-server";
  kube_ca = cert_at "kube-ca";
  kube_client = cert_at "kube-client";
  kube_server = cert_at "kube-server";
  kube_cluster_ca = cert_at "kube-cluster-ca";
  kube_svc_sign_cert = cert_at "kube-svc";
  kubeconfig = "kubeconfig";
}

abbrev api : KubeApiServerHandler
api = new_kube_api_server_handler ipv6_text base_env creds "10.233.43.0/24"

service_ports_range_example :
    Holds (service_ports api) (pos api.etcd_client_port)
    × Holds (service_ports api) (pos api.kube_api_port)
    × Holds (service_ports api) (pos api.kube_node_api_port)
    × ((port : ℕ) → 7000 ≤ port → port ≤ 9000 → Holds (service_ports api) (pos port))
service_ports_range_example = service_ports_range api

etcd_link_example :
    EtcdLink
      (Etcd.start (new_etcd_handler (copy_information_from_base base_env base_env) creds))
      (ApiServer.start (
        new_kube_api_server_handler ipv6_text
          (copy_information_from_base base_env base_env)
          creds
          "10.233.43.0/24"))
      (new_etcd_handler (copy_information_from_base base_env base_env) creds).health_check
      creds
      (itoa 7000)
etcd_link_example = etcd_link ipv6_text base_env base_env base_env creds "10.233.43.0/24"

-- A disk on which each file holds its own path.
abbrev sample_disk : Disk ℕ
sample_disk = record {
  read = λ path. inr path;
  create = λ path. none;
  put = λ path text. (text, none);
}

create_client_kubeconfig_iff_example :
    (create_client_kubeconfig
        (λ text. text)
        (λ text. text)
        sample_disk
        base_env
        creds
        "/tmp/kubeconfig"
        "10.0.0.1"
      ≡ (none, record creds { kubeconfig = "/tmp/kubeconfig" }, some "text"))
    ↔ IsWritten
        (λ text. text)
        (λ text. text)
        sample_disk
        base_env
        creds
        "/tmp/kubeconfig"
        "10.0.0.1"
        "text"
create_client_kubeconfig_iff_example =
    create_client_kubeconfig_iff (λ text. text) (λ text. text) sample_disk base_env creds
      "/tmp/kubeconfig" "10.0.0.1" "text"
