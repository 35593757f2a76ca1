-- ===== src/Handlers/Env.antt =====
-- pkg/handlers/ServiceHandler.go: HealthMessage, ExecutionEnvironment and its two methods. The two
-- function values of an environment are told apart by a number.
pub mod Laws
use microkube.Base.{ℕ, ◌+◌, String, Bool}
use microkube.Base.Bytes.{Bytes}
use microkube.Base.Errors.{GoError}

pub record HealthMessage : Type 0 where
  pub is_healthy : Bool
  pub error : GoError

pub record ExecutionEnvironment : Type 0 where
  pub binary : String
  pub sudo_method : String
  pub workdir : String
  pub listen_address : Bytes
  pub service_address : Bytes
  pub dns_address : Bytes
  pub output_handler : ℕ
  pub exit_handler : ℕ
  pub etcd_client_port : ℕ
  pub etcd_peer_port : ℕ
  pub kube_api_port : ℕ
  pub kube_node_api_port : ℕ
  pub kube_controller_manager_port : ℕ
  pub kubelet_health_port : ℕ
  pub kube_proxy_health_port : ℕ
  pub kube_proxy_metrics_port : ℕ
  pub kube_scheduler_health_port : ℕ
  pub kube_scheduler_metrics_port : ℕ

unfoldable pub init_ports : ExecutionEnvironment → ℕ → ExecutionEnvironment
init_ports e base = record e {
  etcd_client_port = base;
  etcd_peer_port = base + 1;
  kube_api_port = base + 2;
  kube_node_api_port = base + 3;
  kube_controller_manager_port = base + 4;
  kubelet_health_port = base + 5;
  kube_proxy_health_port = base + 6;
  kube_proxy_metrics_port = base + 7;
  kube_scheduler_health_port = base + 8;
  kube_scheduler_metrics_port = base + 9;
}

unfoldable pub copy_information_from_base :
    ExecutionEnvironment → ExecutionEnvironment → ExecutionEnvironment
copy_information_from_base e o = record e {
  etcd_client_port = o.etcd_client_port;
  etcd_peer_port = o.etcd_peer_port;
  kube_api_port = o.kube_api_port;
  kube_node_api_port = o.kube_node_api_port;
  kube_controller_manager_port = o.kube_controller_manager_port;
  kubelet_health_port = o.kubelet_health_port;
  kube_proxy_health_port = o.kube_proxy_health_port;
  kube_proxy_metrics_port = o.kube_proxy_metrics_port;
  kube_scheduler_health_port = o.kube_scheduler_health_port;
  kube_scheduler_metrics_port = o.kube_scheduler_metrics_port;
  listen_address = o.listen_address;
  service_address = o.service_address;
  dns_address = o.dns_address;
  sudo_method = o.sudo_method;
}
