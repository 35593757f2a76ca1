-- ===== src/Services/Kubeconfig/Text.antt =====
-- pkg/handlers/kube/KubeconfigHandler.go: the text of a kubeconfig, written out.
use text.Mathlib.TextLemmas.{append_assoc}
use microkube.Base.{String, ◌≡◌, refl}
use microkube.Base.Texts.{◌++◌, itoa}
use microkube.Services.Kubeconfig.{ClientTemplateData, client_text}

-- The kubeconfig with these values in it, all of which are escaped.
abbrev pub kubeconfig_text : (String → String) → ClientTemplateData → String
kubeconfig_text escape data' =
    "apiVersion: v1"
    ++ "\n"
    ++ "kind: Config"
    ++ "\n"
    ++ "clusters:"
    ++ "\n"
    ++ "- name: microkube"
    ++ "\n"
    ++ "  cluster:"
    ++ "\n"
    ++ "    server: https://"
    ++ escape data'.address
    ++ ":"
    ++ escape (itoa data'.api_port)
    ++ "\n"
    ++ "    certificate-authority-data: "
    ++ escape data'.ca
    ++ " "
    ++ "\n"
    ++ "users:"
    ++ "\n"
    ++ "- name: admin"
    ++ "\n"
    ++ "  user:"
    ++ "\n"
    ++ "    client-certificate-data: "
    ++ escape data'.clientcert
    ++ "\n"
    ++ "    client-key-data: "
    ++ escape data'.clientkey
    ++ "\n"
    ++ "contexts:\n- context:\n    cluster: microkube\n    user: admin\n  name: default-ctx\ncurrent-context: default-ctx"

pub client_text_lem :
    (escape : String → String) (data' : ClientTemplateData)
    → client_text escape data' ≡ kubeconfig_text escape data'
unfolding client_text
client_text_lem escape data' = simp (append_assoc) refl
