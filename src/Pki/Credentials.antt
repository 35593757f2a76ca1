-- ===== src/Pki/Credentials.antt =====
-- pkg/pki/MicrokubeCredentials.go. `uut_mode` is the field of the same name; the fields that a
-- failed call leaves nil are not kept, since the program ends then.
pub mod Names
pub mod Chain
pub mod Complete
pub mod Has
pub mod Calls
pub mod Loads
pub mod Again
use microkube.Base.{String, Bool, true, false, none, some, List, [], ◌∷◌, ◌++◌, ◌&&◌, if◌then◌else◌}
use microkube.Base.Bytes.{Bytes}
use microkube.Base.Texts as Texts
use microkube.Files.Path.{join}
use microkube.Files.Store.{exists, mkdir}
use microkube.Services.Shared.{RsaCertificate, MicrokubeCredentials, ip_string}
use microkube.Pki.{
  Name, Host, World, PkiError, no_hostname, etcd_pki, kube_pki, kube_cluster_pki, kube_signing_cert,
  ok, err, panicked, Action, Holding, pure, raise, ◌>>=◌, ◌>>◌,
}
use microkube.Pki.Manager.{
  CertManager, new_manager, uut_mode, key_path, cert_path, new_self_signed_ca_cert,
  new_self_signed_cert, new_cert,
}

-- A certificate by its paths in a directory, with nothing in memory.
abbrev pub paths_in : String → String → RsaCertificate
paths_in root name = record { cert_path = cert_path root name; key_path = key_path root name }

abbrev pub loaded : {Key : Type 0} → String → String → Holding Key
loaded root name = record { paths = paths_in root name; held = none }

-- MicrokubeCredentials with what each of its certificates keeps in memory.
pub record HeldCredentials (Key : Type 0) : Type 0 where
  pub etcd_ca : Holding Key
  pub etcd_server : Holding Key
  pub etcd_client : Holding Key
  pub kube_ca : Holding Key
  pub kube_server : Holding Key
  pub kube_client : Holding Key
  pub kube_cluster_ca : Holding Key
  pub kube_svc_sign_cert : Holding Key
  pub kubeconfig : String

-- What the services read of them.
abbrev pub paths_of : {Key : Type 0} → HeldCredentials Key → MicrokubeCredentials
paths_of c = record {
  etcd_ca = c.etcd_ca.paths;
  etcd_server = c.etcd_server.paths;
  etcd_client = c.etcd_client.paths;
  kube_ca = c.kube_ca.paths;
  kube_server = c.kube_server.paths;
  kube_client = c.kube_client.paths;
  kube_cluster_ca = c.kube_cluster_ca.paths;
  kube_svc_sign_cert = c.kube_svc_sign_cert.paths;
  kubeconfig = c.kubeconfig;
}

-- The manager of a call.
abbrev pub manager_of : Bool → String → CertManager
manager_of uut root = if uut then uut_mode (new_manager root) else new_manager root

abbrev pub named : String → Name
named common_name = record { common_name = common_name; organization = [] }

-- The name of the client certificate in ensureFullPKI.
abbrev pub client_name : String → Bool → Name
client_name name is_kube_ca = record {
  common_name = Texts.◌++◌ name " Client";
  organization = if is_kube_ca then "system:masters" ∷ [] else [];
}

module _ {Key : Type 0} (host : Host Key) (uut : Bool) where
  -- `os.Stat(path.Join(root, name + ".pem"))` returns no error: the file exists, and the machine
  -- does not answer with another error.
  abbrev pub is_there : String → String → World Key → Bool
  is_there root name w =
      exists w.files (cert_path root name) && host.stats w.files (cert_path root name)

  unfoldable pub ensure_ca : String → String → Action Key (Holding Key)
  unfolding exists new_self_signed_ca_cert
  ensure_ca root name w =
      if is_there root "ca" w
      then (ok (loaded root "ca"), w)
      else new_self_signed_ca_cert host (manager_of uut root) "ca" (named (Texts.◌++◌ name " CA")) 1
          w

  unfoldable pub ensure_signing_cert : String → String → Action Key (Holding Key)
  unfolding exists new_self_signed_cert
  ensure_signing_cert root name w =
      if is_there root "cert" w
      then (ok (loaded root "cert"), w)
      else new_self_signed_cert host (manager_of uut root) "cert"
          (named (Texts.◌++◌ name " Signing Cert")) 1 w

  unfoldable pub get_hostname : Action Key String
  get_hostname = elim host.hostname [ none ↦ raise no_hostname | some name ↦ pure name ]

  -- The branch of ensureFullPKI that creates.
  unfoldable pub create_full_pki :
      String
      → String
      → Bool
      → Bool
      → List String
      → Action Key (Holding Key × Holding Key × Holding Key)
  unfolding ensure_ca get_hostname new_cert
  create_full_pki root name is_kube_ca is_etcd_ca ip = do
    ca ← ensure_ca root name
    hostname ← get_hostname
    server ←
        new_cert host (manager_of uut root) "server" (named (Texts.◌++◌ name " Server")) 2 true
          is_etcd_ca (ip ++ ("127.0.0.1" ∷ "localhost" ∷ hostname ∷ [])) ca
    client ←
        new_cert host (manager_of uut root) "client" (client_name name is_kube_ca) 3 false true []
          ca
    pure (ca, server, client)

  unfoldable pub ensure_full_pki :
      String
      → String
      → Bool
      → Bool
      → List String
      → Action Key (Holding Key × Holding Key × Holding Key)
  unfolding exists create_full_pki
  ensure_full_pki root name is_kube_ca is_etcd_ca ip w =
      if is_there root "ca" w
      then (ok (loaded root "ca", loaded root "server", loaded root "client"), w)
      else create_full_pki root name is_kube_ca is_etcd_ca ip w

  -- `os.Mkdir(…, 0750)`
  unfoldable pub make_dir : String → Action Key (Unit {0})
  unfolding mkdir
  make_dir path w = (ok tt, record w { files = mkdir (host.makes_dir w.files path) w.files path })

  -- An error with a message in front.
  unfoldable pub wrapped : {A : Type 0} → (PkiError → PkiError) → Action Key A → Action Key A
  wrapped message m w =
      let (r, w') = m w in
      elim r [ ok a ↦ (ok a, w') | err e ↦ (err (message e), w') | panicked ↦ (panicked, w') ]

  -- CreateOrLoadCertificates; `kubeconfig` is a field that it leaves alone.
  unfoldable pub create_or_load_certificates :
      (Bytes → String) → String → String → Bytes → Bytes → Action Key (HeldCredentials Key)
  unfolding make_dir wrapped ensure_full_pki ensure_ca ensure_signing_cert ip_string
  create_or_load_certificates ipv6_text kubeconfig base_dir bind_addr service_addr = do
    make_dir (join (base_dir ∷ "etcdtls" ∷ []))
    etcd ← wrapped etcd_pki (
        ensure_full_pki (join (base_dir ∷ "etcdtls" ∷ [])) "Microkube ETCD" false true
          (ip_string ipv6_text bind_addr ∷ []))
    make_dir (join (base_dir ∷ "kubetls" ∷ []))
    kube ← wrapped kube_pki (
        ensure_full_pki (join (base_dir ∷ "kubetls" ∷ [])) "Microkube Kubernetes" true false
          (ip_string ipv6_text bind_addr ∷ ip_string ipv6_text service_addr ∷ []))
    make_dir (join (base_dir ∷ "kubectls" ∷ []))
    cluster ←
        wrapped kube_cluster_pki
          (ensure_ca (join (base_dir ∷ "kubectls" ∷ [])) "Microkube Cluster CA")
    make_dir (join (base_dir ∷ "kubestls" ∷ []))
    signing ←
        wrapped kube_signing_cert
          (ensure_signing_cert (join (base_dir ∷ "kubestls" ∷ [])) "Microkube Cluster SVC Signcert")
    pure (record {
      etcd_ca = etcd.0;
      etcd_server = etcd.1;
      etcd_client = etcd.2;
      kube_ca = kube.0;
      kube_server = kube.1;
      kube_client = kube.2;
      kube_cluster_ca = cluster;
      kube_svc_sign_cert = signing;
      kubeconfig = kubeconfig;
    })
