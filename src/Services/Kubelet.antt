-- ===== src/Services/Kubelet.antt =====
-- pkg/handlers/kube/KubeletHandler.go, with the data of KubeletConfigHandler.go. `write_config`
-- stands for the html/template that is written to a file: what creating the config returns. The errors of the two os.Mkdir are ignored, as in the source.
use microkube.Base.{ℕ, String, Bool, Option, none, some, [], ◌∷◌, if◌then◌else◌}
use microkube.Base.Bytes.{Bytes}
use microkube.Base.Errors.{GoError}
use microkube.Base.Texts.{◌++◌, itoa}
use microkube.Files.Path.{join}
use microkube.Handlers.Env.{ExecutionEnvironment}
use microkube.Services.Shared.{MicrokubeCredentials, Command, HealthCheck, ip_string}

pub record KubeletConfigData : Type 0 where
  pub ca_file : String
  pub cert_file : String
  pub key_file : String
  pub static_pod_path : String
  pub kubelet_health_port : ℕ
  pub cluster_dns : String

pub record KubeletHandler : Type 0 where
  pub health_check : HealthCheck
  pub binary : String
  pub sudo_bin : String
  pub kube_server_cert : String
  pub kube_server_key : String
  pub kube_ca_cert : String
  pub listen_address : String
  pub root_dir : String
  pub kubeconfig : String
  pub config : String
  pub out : ℕ

module _ (ipv6_text : Bytes → String) where
  unfoldable pub config_data :
      MicrokubeCredentials → ExecutionEnvironment → String → KubeletConfigData
  config_data creds exec_env static_pod_path = record {
    ca_file = creds.kube_ca.cert_path;
    cert_file = creds.kube_server.cert_path;
    key_file = creds.kube_server.key_path;
    static_pod_path = static_pod_path;
    kubelet_health_port = exec_env.kubelet_health_port;
    cluster_dns = ip_string ipv6_text exec_env.dns_address;
  }

  -- NewKubeletHandler; `none` is its error.
  unfoldable pub new_kubelet_handler :
      (String → KubeletConfigData → GoError)
      → ExecutionEnvironment
      → MicrokubeCredentials
      → Option KubeletHandler
  unfolding config_data
  new_kubelet_handler write_config exec_env creds =
      let config = join (exec_env.workdir ∷ "kubelet.cfg" ∷ []) in
      elim (write_config config
        (config_data creds exec_env (join (exec_env.workdir ∷ "staticpods" ∷ [])))) [
          | some e ↦ none
          | none ↦ some (record {
            health_check = record {
              endpoint = "http://localhost:" ++ itoa exec_env.kubelet_health_port ++ "/healthz";
              tls = some (creds.kube_ca, creds.kube_client);
            };
            binary = exec_env.binary;
            sudo_bin = exec_env.sudo_method;
            kube_server_cert = creds.kube_server.cert_path;
            kube_server_key = creds.kube_server.key_path;
            kube_ca_cert = creds.kube_ca.cert_path;
            listen_address = ip_string ipv6_text exec_env.listen_address;
            root_dir = exec_env.workdir;
            kubeconfig = creds.kubeconfig;
            config = config;
            out = exec_env.output_handler;
          })
        ]

  -- The command that Start runs, by what os.Stat finds.
  unfoldable pub start : (String → Bool) → KubeletHandler → Command
  start exists handler =
      let prepared = join (handler.root_dir ∷ "kubelet/cni" ∷ []) in
      let cni_dir =
        if exists (join (prepared ∷ "bridge" ∷ []))
        then prepared
        else "/usr/lib/x86_64-linux-gnu/libexec/cni-plugins" in
      record {
        binary = handler.sudo_bin;
        args =
            handler.binary
            ∷ "kubelet"
            ∷ "--config"
            ∷ handler.config
            ∷ "--node-ip"
            ∷ handler.listen_address
            ∷ "--kubeconfig"
            ∷ handler.kubeconfig
            ∷ "--cni-bin-dir"
            ∷ cni_dir
            ∷ "--root-dir"
            ∷ join (handler.root_dir ∷ "kubelet" ∷ [])
            ∷ "--seccomp-profile-root"
            ∷ join (handler.root_dir ∷ "kubelet/seccomp" ∷ [])
            ∷ "--bootstrap-checkpoint-path"
            ∷ join (handler.root_dir ∷ "kubelet/checkpoint" ∷ [])
            ∷ "--network-plugin"
            ∷ "kubenet"
            ∷ "--runtime-cgroups"
            ∷ "/systemd/system.slice"
            ∷ [];
      }
