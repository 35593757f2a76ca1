-- ===== src/Services/Kubeconfig/Laws.antt =====
-- pkg/handlers/kube/KubeconfigHandler.go: when a kubeconfig is written, and with what in it.
use microkube.Base.{
  String, Option, none, some, ◌⊎◌, inl, inr, ◌≡◌, ◌↔◌, refl, sym, ap, ◌∙◌, Option-cases,
}
use microkube.Handlers.Env.{ExecutionEnvironment}
use microkube.Services.Shared.{MicrokubeCredentials}
use microkube.Services.Kubeconfig.Text.{kubeconfig_text, client_text_lem}
use microkube.Services.Kubeconfig.{
  ClientTemplateData, Disk, KubeconfigError, execution, client_text, base64_encoded_pem,
  write_kubeconfig, create_client_kubeconfig,
}

sum_cases : {A B : Type 0} (x : A ⊎ B) → ((a : A) × (x ≡ inl a)) ⊎ ((b : B) × (x ≡ inr b))
sum_cases (inl a) = inl (a, refl)
sum_cases (inr b) = inr (b, refl)

some_injective : {a b : String} → some a ≡ some b → a ≡ b
some_injective e = cc

module _ {E : Type 0} (base64 escape : String → String) (disk : Disk E)
    (exec_env : ExecutionEnvironment) (creds : MicrokubeCredentials) (path host : String) where
  -- The template's data for the contents of the three files.
  abbrev pub data_of : String → String → String → ClientTemplateData
  data_of ca clientcert clientkey = record {
    ca = base64 ca;
    clientcert = base64 clientcert;
    clientkey = base64 clientkey;
    address = host;
    api_port = exec_env.kube_api_port;
  }

  -- The certificate of the CA and the certificate and key of the client can be read, and the text
  -- with them can be written.
  abbrev pub IsWritten : String → Type 0
  IsWritten written =
      (ca : String) × (clientcert : String) × (clientkey : String) × (disk.read
          creds.kube_ca.cert_path
        ≡ inr ca)
      × (disk.read creds.kube_client.cert_path ≡ inr clientcert)
      × (disk.read creds.kube_client.key_path ≡ inr clientkey)
      × (disk.create path ≡ none)
      × (disk.put path (kubeconfig_text escape (data_of ca clientcert clientkey)) ≡ (written, none))

  abbrev Result : Type 0
  Result = Option (KubeconfigError E) × MicrokubeCredentials × Option String

  write_lem :
      (data' : ClientTemplateData) (written : String)
      → disk.create path ≡ none
      → disk.put path (client_text escape data') ≡ (written, none)
      → write_kubeconfig base64 escape disk data' creds path
        ≡ (none, record creds { kubeconfig = path }, some written)
  unfolding write_kubeconfig
  write_lem data' written c p =
      rw (c, write_kubeconfig)
        (ap
          (λ t. (
            elim t.1 as (λ _. Option (KubeconfigError E)) [
              | none ↦ none
              | some e ↦ some (execution e)
            ],
            record creds { kubeconfig = path },
            some t.0,
          ))
          p)

  write_inv :
      (data' : ClientTemplateData) (written : String)
      → write_kubeconfig base64 escape disk data' creds path
        ≡ (none, record creds { kubeconfig = path }, some written)
      → (disk.create path ≡ none) × (disk.put path (client_text escape data') ≡ (written, none))
  unfolding write_kubeconfig
  write_inv data' written h = elim (Option-cases (disk.create path)) [
    | inr (e, c) ↦ let k = rw (c, write_kubeconfig) at h in cc
    | inl c ↦
        let k : ◌≡◌ {A = Result}
            (
              elim (disk.put path (client_text escape data')).1
                  as (λ _. Option (KubeconfigError E)) [
                    | none ↦ none
                    | some e ↦ some (execution e)
                  ],
              record creds { kubeconfig = path },
              some (disk.put path (client_text escape data')).0,
            )
            (none, record creds { kubeconfig = path }, some written) =
          rw (c, write_kubeconfig) at h in
        (
          c,
          pair (disk.put path (client_text escape data')).0
              (disk.put path (client_text escape data')).1 (ap (λ t. t.0) k)
              (some_injective (ap (λ t. t.2) k)),
        )
  ]
    where
      pair :
          (text : String) (error : Option E)
          → (elim error as (λ _. Option (KubeconfigError E)) [
            | none ↦ none
            | some e ↦ some (execution e)
          ])
            ≡ none
          → text ≡ written
          → ◌≡◌ {A = String × Option E} (text, error) (written, none)
      pair text none h e = ap (λ t. (t, none)) e
      pair text (some x) h e = cc

  -- CreateClientKubeconfig returns no error and points the credentials to the file exactly where
  -- the three files can be read and the text can be written in full: the API server's address and
  -- port with the base64 forms of the certificate of the CA and of the client's certificate and
  -- key, each escaped as html/template does it.
  pub create_client_kubeconfig_iff :
      (written : String)
      → (create_client_kubeconfig base64 escape disk exec_env creds path host
          ≡ (none, record creds { kubeconfig = path }, some written))
        ↔ IsWritten written
  unfolding create_client_kubeconfig base64_encoded_pem
  create_client_kubeconfig_iff written = (forth, back)
    where
      forth :
          create_client_kubeconfig base64 escape disk exec_env creds path host
            ≡ (none, record creds { kubeconfig = path }, some written)
          → IsWritten written
      forth h = elim (sum_cases (disk.read creds.kube_ca.cert_path)) [
        | inl (_, a) ↦ let k = rw (a, create_client_kubeconfig, base64_encoded_pem) at h in cc
        | inr (ca, a) ↦ elim (sum_cases (disk.read creds.kube_client.cert_path)) [
          | inl (_, b) ↦ let k = rw (a, b, create_client_kubeconfig, base64_encoded_pem) at h in cc
          | inr (clientcert, b) ↦ elim (sum_cases (disk.read creds.kube_client.key_path)) [
            | inl (_, c) ↦
                let k = rw (a, b, c, create_client_kubeconfig, base64_encoded_pem) at h in cc
            | inr (clientkey, c) ↦
                let (d, e) =
                  write_inv (data_of ca clientcert clientkey) written
                    (rw (a, b, c, create_client_kubeconfig, base64_encoded_pem) at h) in
                let same = client_text_lem escape (data_of ca clientcert clientkey) in
                (ca, clientcert, clientkey, a, b, c, d, ap (disk.put path) (sym same) ∙ e)
          ]
        ]
      ]

      back :
          IsWritten written
          → create_client_kubeconfig base64 escape disk exec_env creds path host
            ≡ (none, record creds { kubeconfig = path }, some written)
      back (ca, clientcert, clientkey, a, b, c, d, e) =
          rw (a, b, c, create_client_kubeconfig, base64_encoded_pem)
            (write_lem (data_of ca clientcert clientkey) written d
              (ap (disk.put path) (client_text_lem escape (data_of ca clientcert clientkey)) ∙ e))
