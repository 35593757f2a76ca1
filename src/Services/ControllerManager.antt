-- ===== src/Services/ControllerManager.antt =====
-- pkg/handlers/kube/KubeControllerManagerHandler.go
use microkube.Base.{ℕ, String, some, [], ◌∷◌}
use microkube.Base.Bytes.{Bytes}
use microkube.Base.Texts.{◌++◌, itoa}
use microkube.Handlers.Env.{ExecutionEnvironment}
use microkube.Services.Shared.{MicrokubeCredentials, Command, HealthCheck, ip_string}

pub record ControllerManagerHandler : Type 0 where
  pub health_check : HealthCheck
  pub binary : String
  pub kube_server_cert : String
  pub kube_server_key : String
  pub kube_cluster_ca_cert : String
  pub kube_cluster_ca_key : String
  pub kube_svc_key : String
  pub pod_range : String
  pub kubeconfig : String
  pub bind_address : String
  pub out : ℕ
  pub kube_controller_manager_port : ℕ

unfoldable pub new_controller_manager_handler :
    (Bytes → String)
    → ExecutionEnvironment
    → MicrokubeCredentials
    → String
    → ControllerManagerHandler
new_controller_manager_handler ipv6_text exec_env creds pod_range =
    let bind_address = ip_string ipv6_text exec_env.listen_address in
    record {
      health_check = record {
        endpoint =
            "https://"
            ++ bind_address
            ++ ":"
            ++ itoa exec_env.kube_controller_manager_port
            ++ "/healthz";
        tls = some (creds.kube_ca, creds.kube_client);
      };
      binary = exec_env.binary;
      kube_server_cert = creds.kube_server.cert_path;
      kube_server_key = creds.kube_server.key_path;
      kube_cluster_ca_cert = creds.kube_cluster_ca.cert_path;
      kube_cluster_ca_key = creds.kube_cluster_ca.key_path;
      kube_svc_key = creds.kube_svc_sign_cert.key_path;
      pod_range = pod_range;
      kubeconfig = creds.kubeconfig;
      bind_address = bind_address;
      out = exec_env.output_handler;
      kube_controller_manager_port = exec_env.kube_controller_manager_port;
    }

-- The command that Start runs.
unfoldable pub start : ControllerManagerHandler → Command
start handler = record {
  binary = handler.binary;
  args =
      "kube-controller-manager"
      ∷ "--allocate-node-cidrs"
      ∷ "--cluster-cidr"
      ∷ handler.pod_range
      ∷ "--bind-address"
      ∷ handler.bind_address
      ∷ "--cluster-name"
      ∷ "microkube"
      ∷ "--cluster-signing-cert-file"
      ∷ handler.kube_cluster_ca_cert
      ∷ "--cluster-signing-key-file"
      ∷ handler.kube_cluster_ca_key
      ∷ "--enable-hostpath-provisioner"
      ∷ "--secure-port"
      ∷ itoa handler.kube_controller_manager_port
      ∷ "--kubeconfig"
      ∷ handler.kubeconfig
      ∷ "--tls-cert-file"
      ∷ handler.kube_server_cert
      ∷ "--tls-private-key-file"
      ∷ handler.kube_server_key
      ∷ "--service-account-private-key-file"
      ∷ handler.kube_svc_key
      ∷ "--port"
      ∷ "0"
      ∷ [];
}
