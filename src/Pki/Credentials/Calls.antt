-- ===== src/Pki/Credentials/Calls.antt =====
-- pkg/pki/MicrokubeCredentials.go: CreateOrLoadCertificates as a row of four calls.
use microkube.Base.{String, Bool, true, false, [], ◌∷◌, ◌≡◌, refl}
use microkube.Base.Bytes.{Bytes}
use microkube.Files.Path.{join}
use microkube.Services.Shared.{MicrokubeCredentials, ip_string}
use microkube.Pki.{
  Host, World, PkiError, etcd_pki, kube_pki, kube_cluster_pki, kube_signing_cert, Action, Holding,
  pure, ◌>>=◌,
}
use microkube.Pki.Post.{Post, bind-Post}
use microkube.Pki.Credentials.{
  HeldCredentials, loaded, paths_in, ensure_ca, ensure_signing_cert, ensure_full_pki, make_dir,
  wrapped, create_or_load_certificates,
}

-- One of the four directories.
abbrev pub dir_of : String → String → String
dir_of base_dir name = join (base_dir ∷ name ∷ [])

-- What the credentials point to: paths that depend on the directory only.
abbrev pub credentials_in : String → String → MicrokubeCredentials
credentials_in kubeconfig base_dir =
    let etcd = join (base_dir ∷ "etcdtls" ∷ []) in
    let kube = join (base_dir ∷ "kubetls" ∷ []) in
    record {
      etcd_ca = paths_in etcd "ca";
      etcd_server = paths_in etcd "server";
      etcd_client = paths_in etcd "client";
      kube_ca = paths_in kube "ca";
      kube_server = paths_in kube "server";
      kube_client = paths_in kube "client";
      kube_cluster_ca = paths_in (join (base_dir ∷ "kubectls" ∷ [])) "ca";
      kube_svc_sign_cert = paths_in (join (base_dir ∷ "kubestls" ∷ [])) "cert";
      kubeconfig = kubeconfig;
    }

-- Credentials with nothing in memory.
abbrev pub loaded_in : {Key : Type 0} → String → String → HeldCredentials Key
loaded_in kubeconfig base_dir =
    let etcd = join (base_dir ∷ "etcdtls" ∷ []) in
    let kube = join (base_dir ∷ "kubetls" ∷ []) in
    record {
      etcd_ca = loaded etcd "ca";
      etcd_server = loaded etcd "server";
      etcd_client = loaded etcd "client";
      kube_ca = loaded kube "ca";
      kube_server = loaded kube "server";
      kube_client = loaded kube "client";
      kube_cluster_ca = loaded (join (base_dir ∷ "kubectls" ∷ [])) "ca";
      kube_svc_sign_cert = loaded (join (base_dir ∷ "kubestls" ∷ [])) "cert";
      kubeconfig = kubeconfig;
    }

module _ {Key : Type 0} (like : String → String → Holding Key → Type 0) where
  -- What holds of the certificates of a PKI, by directory and name.
  abbrev pub Like : String → Holding Key × Holding Key × Holding Key → Type 0
  Like root (h₁, h₂, h₃) = like root "ca" h₁ × like root "server" h₂ × like root "client" h₃

  -- This, and what holds of the world.
  abbrev pub AtPki :
      String → (World Key → Type 0) → Holding Key × Holding Key × Holding Key → World Key → Type 0
  AtPki root P h w = Like root h × P w

  abbrev pub At : String → String → (World Key → Type 0) → Holding Key → World Key → Type 0
  At root name P h w = like root name h × P w

module _ {Key : Type 0} (host : Host Key) (uut : Bool) (bad : PkiError → World Key → Type 0)
    (ipv6_text : Bytes → String) (kubeconfig base_dir : String)
    (bind_addr service_addr : Bytes) where
  -- The four calls, and what follows each of them.
  abbrev etcd_call : Action Key (Holding Key × Holding Key × Holding Key)
  etcd_call =
      ensure_full_pki host uut (dir_of base_dir "etcdtls") "Microkube ETCD" false true
        (ip_string ipv6_text bind_addr ∷ [])

  abbrev kube_call : Action Key (Holding Key × Holding Key × Holding Key)
  kube_call =
      ensure_full_pki host uut (dir_of base_dir "kubetls") "Microkube Kubernetes" true false
        (ip_string ipv6_text bind_addr ∷ ip_string ipv6_text service_addr ∷ [])

  abbrev cluster_call : Action Key (Holding Key)
  cluster_call = ensure_ca host uut (dir_of base_dir "kubectls") "Microkube Cluster CA"

  abbrev signing_call : Action Key (Holding Key)
  signing_call =
      ensure_signing_cert host uut (dir_of base_dir "kubestls") "Microkube Cluster SVC Signcert"

  abbrev pub gathered :
      Holding Key × Holding Key × Holding Key
      → Holding Key × Holding Key × Holding Key
      → Holding Key
      → Holding Key
      → HeldCredentials Key
  gathered etcd kube cluster signing = record {
    etcd_ca = etcd.0;
    etcd_server = etcd.1;
    etcd_client = etcd.2;
    kube_ca = kube.0;
    kube_server = kube.1;
    kube_client = kube.2;
    kube_cluster_ca = cluster;
    kube_svc_sign_cert = signing;
    kubeconfig = kubeconfig;
  }

  abbrev after_cluster :
      Holding Key × Holding Key × Holding Key
      → Holding Key × Holding Key × Holding Key
      → Holding Key
      → Action Key (HeldCredentials Key)
  after_cluster etcd kube cluster = make_dir host uut (dir_of base_dir "kubestls") >>= λ _.
      wrapped host uut kube_signing_cert signing_call >>= λ signing.
      pure (gathered etcd kube cluster signing)

  abbrev after_kube :
      Holding Key × Holding Key × Holding Key
      → Holding Key × Holding Key × Holding Key
      → Action Key (HeldCredentials Key)
  after_kube etcd kube = make_dir host uut (dir_of base_dir "kubectls") >>= λ _.
      wrapped host uut kube_cluster_pki cluster_call >>= after_cluster etcd kube

  abbrev after_etcd : Holding Key × Holding Key × Holding Key → Action Key (HeldCredentials Key)
  after_etcd etcd = make_dir host uut (dir_of base_dir "kubetls") >>= λ _.
      wrapped host uut kube_pki kube_call >>= after_kube etcd

  -- The calls in a row, with what holds of the world between them.
  module _ (like : String → String → Holding Key → Type 0) (P Q R S T : World Key → Type 0) where
    pub record Steps : Type 0 where
      pub etcd :
          (w : World Key)
          → P w
          → Post bad (AtPki like (dir_of base_dir "etcdtls") Q) (
              wrapped host uut etcd_pki etcd_call
                (make_dir host uut (dir_of base_dir "etcdtls") w).1)
      pub kube :
          (w : World Key)
          → Q w
          → Post bad (AtPki like (dir_of base_dir "kubetls") R) (
              wrapped host uut kube_pki kube_call
                (make_dir host uut (dir_of base_dir "kubetls") w).1)
      pub cluster :
          (w : World Key)
          → R w
          → Post bad (At like (dir_of base_dir "kubectls") "ca" S) (
              wrapped host uut kube_cluster_pki cluster_call
                (make_dir host uut (dir_of base_dir "kubectls") w).1)
      pub signing :
          (w : World Key)
          → S w
          → Post bad (At like (dir_of base_dir "kubestls") "cert" T) (
              wrapped host uut kube_signing_cert signing_call
                (make_dir host uut (dir_of base_dir "kubestls") w).1)

    -- The credentials put together, with what holds of their parts and of the world.
    abbrev pub Gathers : HeldCredentials Key → World Key → Type 0
    Gathers c w' =
        (etcd : Holding Key × Holding Key × Holding Key) × (kube : Holding Key
          × Holding Key
          × Holding Key)
        × (cluster : Holding Key) × (signing : Holding Key) × (c
            ≡ gathered etcd kube cluster signing)
        × Like like (dir_of base_dir "etcdtls") etcd
        × Like like (dir_of base_dir "kubetls") kube
        × like (dir_of base_dir "kubectls") "ca" cluster
        × like (dir_of base_dir "kubestls") "cert" signing
        × T w'

    pub assembled-Post :
        Steps
        → (w : World Key) → P w
        → Post bad Gathers (
            create_or_load_certificates host uut ipv6_text kubeconfig base_dir bind_addr
              service_addr w)
    unfolding create_or_load_certificates make_dir
    assembled-Post steps w p =
        let w₁ = (make_dir host uut (dir_of base_dir "etcdtls") w).1 in
        bind-Post (wrapped host uut etcd_pki etcd_call) after_etcd w₁ (steps.etcd w p)
          (λ etcd w₂ (e, q).
            let w₃ = (make_dir host uut (dir_of base_dir "kubetls") w₂).1 in
            bind-Post (wrapped host uut kube_pki kube_call) (after_kube etcd) w₃ (steps.kube w₂ q)
              (λ kube w₄ (k, r).
                let w₅ = (make_dir host uut (dir_of base_dir "kubectls") w₄).1 in
                bind-Post (wrapped host uut kube_cluster_pki cluster_call) (after_cluster etcd kube)
                  w₅ (steps.cluster w₄ r)
                  (λ cluster w₆ (c, s).
                    let w₇ = (make_dir host uut (dir_of base_dir "kubestls") w₆).1 in
                    bind-Post (wrapped host uut kube_signing_cert signing_call)
                      (λ signing. pure (gathered etcd kube cluster signing)) w₇ (steps.signing w₆ s)
                      (λ signing w₈ (g, t). record {
                        holds = (etcd, kube, cluster, signing, refl, e, k, c, g, t);
                      }))))
