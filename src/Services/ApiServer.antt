-- ===== src/Services/ApiServer.antt =====
-- pkg/handlers/kube/KubeAPIServerHandler.go
pub mod Ports
use microkube.Base.{ℕ, String, some, List, [], ◌∷◌, if◌then◌else◌}
use microkube.Base.Bytes.{Bytes}
use microkube.Base.Int.{ℤ, pos, ◌+ℤ◌, ◌-ℤ◌, ltb_ℤ}
use microkube.Base.Texts.{◌++◌, itoa, itoa_ℤ}
use microkube.Handlers.Env.{ExecutionEnvironment}
use microkube.Services.Shared.{MicrokubeCredentials, Command, HealthCheck, ip_string}

pub record KubeApiServerHandler : Type 0 where
  pub health_check : HealthCheck
  pub binary : String
  pub kube_server_cert : String
  pub kube_server_key : String
  pub kube_client_cert : String
  pub kube_client_key : String
  pub kube_ca_cert : String
  pub etcd_ca_cert : String
  pub etcd_client_cert : String
  pub etcd_client_key : String
  pub svc_cert : String
  pub svc_key : String
  pub out : ℕ
  pub listen_address : String
  pub service_net : String
  pub kube_api_port : ℕ
  pub kube_node_api_port : ℕ
  pub etcd_client_port : ℕ

unfoldable pub new_kube_api_server_handler :
    (Bytes → String) → ExecutionEnvironment → MicrokubeCredentials → String → KubeApiServerHandler
new_kube_api_server_handler ipv6_text exec_env creds service_net =
    let listen_address = ip_string ipv6_text exec_env.listen_address in
    record {
      health_check = record {
        endpoint = "https://" ++ listen_address ++ ":" ++ itoa exec_env.kube_api_port ++ "/healthz";
        tls = some (creds.kube_ca, creds.kube_client);
      };
      binary = exec_env.binary;
      kube_server_cert = creds.kube_server.cert_path;
      kube_server_key = creds.kube_server.key_path;
      kube_client_cert = creds.kube_client.cert_path;
      kube_client_key = creds.kube_client.key_path;
      kube_ca_cert = creds.kube_ca.cert_path;
      etcd_ca_cert = creds.etcd_ca.cert_path;
      etcd_client_cert = creds.etcd_client.cert_path;
      etcd_client_key = creds.etcd_client.key_path;
      svc_cert = creds.kube_svc_sign_cert.cert_path;
      svc_key = creds.kube_svc_sign_cert.key_path;
      out = exec_env.output_handler;
      listen_address = listen_address;
      service_net = service_net;
      kube_api_port = exec_env.kube_api_port;
      kube_node_api_port = exec_env.kube_node_api_port;
      etcd_client_port = exec_env.etcd_client_port;
    }

-- The node port range, lower and upper end.
pub record PortRange : Type 0 where
  pub lower : ℤ
  pub upper : ℤ

-- The body of the loop over the ports.
unfoldable pub widen : PortRange → ℤ → PortRange
widen r port =
    let raised = if ltb_ℤ r.upper port then port +ℤ pos 100 else r.upper in
    let lowered = if ltb_ℤ port r.lower then port -ℤ pos 100 else r.lower in
    record { lower = lowered; upper = raised }

unfoldable pub widen_all : PortRange → List ℤ → PortRange
widen_all r [] = r
widen_all r (port ∷ ports) = widen_all (widen r port) ports

unfoldable pub service_ports : KubeApiServerHandler → PortRange
service_ports handler =
    widen_all (record { lower = pos 7000; upper = pos 9000 })
      (pos handler.etcd_client_port
        ∷ pos handler.kube_api_port
        ∷ pos handler.kube_node_api_port
        ∷ [])

-- The command that Start runs.
unfoldable pub start : KubeApiServerHandler → Command
start handler =
    let range = service_ports handler in
    record {
      binary = handler.binary;
      args =
          "kube-apiserver"
          ∷ "--bind-address"
          ∷ handler.listen_address
          ∷ "--secure-port"
          ∷ itoa handler.kube_api_port
          ∷ "--kubernetes-service-node-port"
          ∷ itoa handler.kube_node_api_port
          ∷ "--service-node-port-range"
          ∷ (itoa_ℤ range.lower ++ "-" ++ itoa_ℤ range.upper)
          ∷ "--service-cluster-ip-range"
          ∷ handler.service_net
          ∷ "--allow-privileged"
          ∷ "--anonymous-auth"
          ∷ "false"
          ∷ "--authorization-mode"
          ∷ "RBAC"
          ∷ "--client-ca-file"
          ∷ handler.kube_ca_cert
          ∷ "--etcd-cafile"
          ∷ handler.etcd_ca_cert
          ∷ "--etcd-certfile"
          ∷ handler.etcd_client_cert
          ∷ "--etcd-keyfile"
          ∷ handler.etcd_client_key
          ∷ "--etcd-servers"
          ∷ ("https://127.0.0.1:" ++ itoa handler.etcd_client_port)
          ∷ "--kubelet-certificate-authority"
          ∷ handler.kube_ca_cert
          ∷ "--kubelet-client-certificate"
          ∷ handler.kube_client_cert
          ∷ "--kubelet-client-key"
          ∷ handler.kube_client_key
          ∷ "--tls-cert-file"
          ∷ handler.kube_server_cert
          ∷ "--tls-private-key-file"
          ∷ handler.kube_server_key
          ∷ "--service-account-key-file"
          ∷ handler.svc_cert
          ∷ "--service-account-key-file"
          ∷ handler.svc_key
          ∷ "--insecure-port"
          ∷ "0"
          ∷ [];
    }
