-- ===== src/Services/Etcd.antt =====
-- pkg/handlers/etcd/EtcdHandler.go
use microkube.Base.{ℕ, String, some, [], ◌∷◌}
use microkube.Base.Texts.{◌++◌, itoa}
use microkube.Handlers.Env.{ExecutionEnvironment}
use microkube.Services.Shared.{MicrokubeCredentials, Command, HealthCheck}

pub record EtcdHandler : Type 0 where
  pub health_check : HealthCheck
  pub datadir : String
  pub binary : String
  pub clientport : ℕ
  pub peerport : ℕ
  pub servercert : String
  pub serverkey : String
  pub cacert : String
  pub out : ℕ
  pub exit : ℕ

unfoldable pub new_etcd_handler : ExecutionEnvironment → MicrokubeCredentials → EtcdHandler
new_etcd_handler exec_env creds = record {
  health_check = record {
    endpoint = "https://localhost:" ++ itoa exec_env.etcd_client_port ++ "/health";
    tls = some (creds.etcd_ca, creds.etcd_client);
  };
  datadir = exec_env.workdir;
  binary = exec_env.binary;
  clientport = exec_env.etcd_client_port;
  peerport = exec_env.etcd_peer_port;
  servercert = creds.etcd_server.cert_path;
  serverkey = creds.etcd_server.key_path;
  cacert = creds.etcd_ca.cert_path;
  out = exec_env.output_handler;
  exit = exec_env.exit_handler;
}

-- The command that Start runs.
unfoldable pub start : EtcdHandler → Command
start handler = record {
  binary = handler.binary;
  args =
      "--data-dir"
      ∷ handler.datadir
      ∷ "--listen-peer-urls"
      ∷ ("https://localhost:" ++ itoa handler.peerport)
      ∷ "--initial-advertise-peer-urls"
      ∷ ("https://localhost:" ++ itoa handler.peerport)
      ∷ "--initial-cluster"
      ∷ ("default=https://localhost:" ++ itoa handler.peerport)
      ∷ "--listen-client-urls"
      ∷ ("https://localhost:" ++ itoa handler.clientport)
      ∷ "--advertise-client-urls"
      ∷ ("https://localhost:" ++ itoa handler.clientport)
      ∷ "--trusted-ca-file"
      ∷ handler.cacert
      ∷ "--cert-file"
      ∷ handler.servercert
      ∷ "--key-file"
      ∷ handler.serverkey
      ∷ "--peer-trusted-ca-file"
      ∷ handler.cacert
      ∷ "--peer-cert-file"
      ∷ handler.servercert
      ∷ "--peer-key-file"
      ∷ handler.serverkey
      ∷ "--client-cert-auth"
      ∷ "--peer-client-cert-auth"
      ∷ [];
}
