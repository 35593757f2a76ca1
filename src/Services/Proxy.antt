-- ===== src/Services/Proxy.antt =====
-- pkg/handlers/kube/KubeProxyHandler.go, with the data of KubeProxyConfigHandler.go. `write_config`
-- stands for the text/template that is written to a file: what creating the config returns.
use microkube.Base.{ℕ, String, Option, none, some, [], ◌∷◌}
use microkube.Base.Errors.{GoError}
use microkube.Base.Texts.{◌++◌, itoa}
use microkube.Files.Path.{join}
use microkube.Handlers.Env.{ExecutionEnvironment}
use microkube.Services.Shared.{MicrokubeCredentials, Command, HealthCheck}

pub record KubeProxyConfigData : Type 0 where
  pub kubeconfig : String
  pub cluster_cidr : String
  pub kube_proxy_health_port : ℕ
  pub kube_proxy_metrics_port : ℕ

pub record KubeProxyHandler : Type 0 where
  pub health_check : HealthCheck
  pub binary : String
  pub sudo_bin : String
  pub kubeconfig : String
  pub config : String
  pub out : ℕ

unfoldable pub config_data : String → String → ExecutionEnvironment → KubeProxyConfigData
config_data cluster_cidr kubeconfig exec_env = record {
  kubeconfig = kubeconfig;
  cluster_cidr = cluster_cidr;
  kube_proxy_health_port = exec_env.kube_proxy_health_port;
  kube_proxy_metrics_port = exec_env.kube_proxy_metrics_port;
}

-- NewKubeProxyHandler; `none` is its error.
unfoldable pub new_kube_proxy_handler :
    (String → KubeProxyConfigData → GoError)
    → ExecutionEnvironment
    → MicrokubeCredentials
    → String
    → Option KubeProxyHandler
unfolding config_data
new_kube_proxy_handler write_config exec_env creds cidr =
    let config = join (exec_env.workdir ∷ "kube-proxy.cfg" ∷ []) in
    elim (write_config config (config_data cidr creds.kubeconfig exec_env)) [
      | some e ↦ none
      | none ↦ some (record {
        health_check = record {
          endpoint = "http://localhost:" ++ itoa exec_env.kube_proxy_health_port ++ "/healthz";
          tls = none;
        };
        binary = exec_env.binary;
        sudo_bin = exec_env.sudo_method;
        kubeconfig = creds.kubeconfig;
        config = config;
        out = exec_env.output_handler;
      })
    ]

-- The command that Start runs.
unfoldable pub start : KubeProxyHandler → Command
start handler = record {
  binary = handler.sudo_bin;
  args = handler.binary ∷ "kube-proxy" ∷ "--config" ∷ handler.config ∷ [];
}
