-- ===== src/Services/Kubeconfig.antt =====
-- pkg/handlers/kube/KubeconfigHandler.go. `base64` stands for base64.StdEncoding. The template is
-- one of html/template, whose escaping of a value that stands in plain text is `escape`.
pub mod Text
pub mod Laws
use microkube.Base.{ℕ, String, Option, none, some, List, [], ◌∷◌, ◌⊎◌, inl, inr}
use microkube.Base.Texts.{◌++◌, itoa}
use microkube.Handlers.Env.{ExecutionEnvironment}
use microkube.Services.Shared.{MicrokubeCredentials}

-- clientTemplateData
pub record ClientTemplateData : Type 0 where
  pub ca : String
  pub clientcert : String
  pub clientkey : String
  pub address : String
  pub api_port : ℕ

-- What the machine answers: what is read from a file, whether the file can be created, and what of
-- the text is written to it, with the error if that was not all.
pub record Disk (E : Type 0) : Type 0 where
  pub read : String → E ⊎ String
  pub create : String → Option E
  pub put : String → String → String × Option E

-- The errors, by the message that they are wrapped with.
pub data KubeconfigError (E : Type 0) : Type 0 where
  ca_encode client_cert_encode client_key_encode file_creation execution : E → KubeconfigError E

abbrev lines : List String → String
lines [] = ""
lines (line ∷ rest) = line ++ "\n" ++ lines rest

-- The template with its data: html/template puts in every value escaped.
unfoldable pub client_text : (String → String) → ClientTemplateData → String
client_text escape data' =
    lines (
      "apiVersion: v1"
      ∷ "kind: Config"
      ∷ "clusters:"
      ∷ "- name: microkube"
      ∷ "  cluster:"
      ∷ ("    server: https://" ++ escape data'.address ++ ":" ++ escape (itoa data'.api_port))
      ∷ ("    certificate-authority-data: " ++ escape data'.ca ++ " ")
      ∷ "users:"
      ∷ "- name: admin"
      ∷ "  user:"
      ∷ ("    client-certificate-data: " ++ escape data'.clientcert)
      ∷ ("    client-key-data: " ++ escape data'.clientkey)
      ∷ "contexts:"
      ∷ "- context:"
      ∷ "    cluster: microkube"
      ∷ "    user: admin"
      ∷ "  name: default-ctx"
      ∷ [])
    ++ "current-context: default-ctx"

module _ {E : Type 0} (base64 escape : String → String) (disk : Disk E) where
  -- Base64EncodedPem
  unfoldable pub base64_encoded_pem : String → E ⊎ String
  base64_encoded_pem src = elim (disk.read src) [
    | inl e ↦ inl e
    | inr content ↦ inr (base64 content)
  ]

  -- The end of CreateClientKubeconfig: the error, the credentials and what is written.
  unfoldable pub write_kubeconfig :
      ClientTemplateData
      → MicrokubeCredentials
      → String
      → Option (KubeconfigError E) × MicrokubeCredentials × Option String
  unfolding client_text
  write_kubeconfig data' creds path = elim (disk.create path) [
    | some e ↦ (some (file_creation e), creds, none)
    | none ↦
        let (written, error) = disk.put path (client_text escape data') in
        (
          elim error [ none ↦ none | some e ↦ some (execution e) ],
          record creds { kubeconfig = path },
          some written,
        )
  ]

  -- CreateClientKubeconfig
  unfoldable pub create_client_kubeconfig :
      ExecutionEnvironment
      → MicrokubeCredentials
      → String
      → String
      → Option (KubeconfigError E) × MicrokubeCredentials × Option String
  unfolding base64_encoded_pem write_kubeconfig
  create_client_kubeconfig exec_env creds path host =
      elim (base64_encoded_pem creds.kube_ca.cert_path) [
        | inl e ↦ (some (ca_encode e), creds, none)
        | inr ca ↦ elim (base64_encoded_pem creds.kube_client.cert_path) [
          | inl e ↦ (some (client_cert_encode e), creds, none)
          | inr clientcert ↦ elim (base64_encoded_pem creds.kube_client.key_path) [
            | inl e ↦ (some (client_key_encode e), creds, none)
            | inr clientkey ↦
                write_kubeconfig
                  (record {
                    ca = ca;
                    clientcert = clientcert;
                    clientkey = clientkey;
                    address = host;
                    api_port = exec_env.kube_api_port;
                  })
                  creds path
          ]
        ]
      ]
