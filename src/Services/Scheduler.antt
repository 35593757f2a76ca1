-- ===== src/Services/Scheduler.antt =====
-- pkg/handlers/kube/KubeSchedulerHandler.go, with the data of KubeSchedulerConfigHandler.go.
-- `write_config` stands for the text/template that is written to a file: what creating the config
-- returns.
use microkube.Base.{ℕ, String, Option, none, some, [], ◌∷◌}
use microkube.Base.Errors.{GoError}
use microkube.Base.Texts.{◌++◌, itoa}
use microkube.Files.Path.{join}
use microkube.Handlers.Env.{ExecutionEnvironment}
use microkube.Services.Shared.{MicrokubeCredentials, Command, HealthCheck}

pub record KubeSchedulerConfigData : Type 0 where
  pub kubeconfig : String
  pub kube_scheduler_health_port : ℕ
  pub kube_scheduler_metrics_port : ℕ

pub record KubeSchedulerHandler : Type 0 where
  pub health_check : HealthCheck
  pub binary : String
  pub kubeconfig : String
  pub config : String
  pub out : ℕ

unfoldable pub config_data : String → ExecutionEnvironment → KubeSchedulerConfigData
config_data kubeconfig exec_env = record {
  kubeconfig = kubeconfig;
  kube_scheduler_health_port = exec_env.kube_scheduler_health_port;
  kube_scheduler_metrics_port = exec_env.kube_scheduler_metrics_port;
}

-- NewKubeSchedulerHandler; `none` is its error.
unfoldable pub new_kube_scheduler_handler :
    (String → KubeSchedulerConfigData → GoError)
    → ExecutionEnvironment
    → MicrokubeCredentials
    → Option KubeSchedulerHandler
unfolding config_data
new_kube_scheduler_handler write_config exec_env creds =
    let config = join (exec_env.workdir ∷ "kube-scheduler.cfg" ∷ []) in
    elim (write_config config (config_data creds.kubeconfig exec_env)) [
      | some e ↦ none
      | none ↦ some (record {
        health_check = record {
          endpoint = "http://localhost:" ++ itoa exec_env.kube_scheduler_health_port ++ "/healthz";
          tls = none;
        };
        binary = exec_env.binary;
        kubeconfig = creds.kubeconfig;
        config = config;
        out = exec_env.output_handler;
      })
    ]

-- The command that Start runs.
unfoldable pub start : KubeSchedulerHandler → Command
start handler = record {
  binary = handler.binary;
  args = "kube-scheduler" ∷ "--config" ∷ handler.config ∷ [];
}
