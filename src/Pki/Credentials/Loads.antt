-- ===== src/Pki/Credentials/Loads.antt =====
-- pkg/pki/MicrokubeCredentials.go: what a call of CreateOrLoadCertificates does that finds all it
-- looks for.
use microkube.Base.{String, Bool, true, ◌&&◌, List, ◌≡◌, refl, ap, ap₂, ◌∙◌}
use microkube.Base.Bytes.{Bytes}
use microkube.Files.Store.{Files, is_some, exists, mkdir_kept}
use microkube.Pki.{
  Content, Host, World, Holding, etcd_pki, kube_pki, kube_cluster_pki, kube_signing_cert,
}
use microkube.Pki.Post.{Post, Never, weaken-Post}
use microkube.Pki.Issue.Read.{Grows}
use microkube.Pki.Manager.{cert_path}
use microkube.Pki.Credentials.{
  paths_in, loaded, is_there, ensure_ca, ensure_signing_cert, ensure_full_pki, make_dir,
  create_or_load_certificates,
}
use microkube.Pki.Credentials.Has.{There, wrapped-Post}
use microkube.Pki.Credentials.Calls.{loaded_in, dir_of, AtPki, At, assembled-Post}

-- The four files that the calls look for.
pub record AllThere {Key : Type 0} (base_dir : String) (w : World Key) : Type 0 where
  pub etcd_there : There (dir_of base_dir "etcdtls") "ca" w
  pub kube_there : There (dir_of base_dir "kubetls") "ca" w
  pub cluster_there : There (dir_of base_dir "kubectls") "ca" w
  pub signing_there : There (dir_of base_dir "kubestls") "cert" w

-- The files that are there after one, two, three and four of the calls.
abbrev pub HasEtcd : {Key : Type 0} → String → World Key → Type 0
HasEtcd base_dir w = There (dir_of base_dir "etcdtls") "ca" w

abbrev pub HasKube : {Key : Type 0} → String → World Key → Type 0
HasKube base_dir w = There (dir_of base_dir "kubetls") "ca" w × HasEtcd base_dir w

abbrev pub HasCluster : {Key : Type 0} → String → World Key → Type 0
HasCluster base_dir w = There (dir_of base_dir "kubectls") "ca" w × HasKube base_dir w

abbrev pub HasSigning : {Key : Type 0} → String → World Key → Type 0
HasSigning base_dir w = There (dir_of base_dir "kubestls") "cert" w × HasCluster base_dir w

-- What holds of a certificate that was made or loaded, and of one that was loaded.
abbrev pub HasPaths : {Key : Type 0} → String → String → Holding Key → Type 0
HasPaths root name h = h.paths ≡ paths_in root name

abbrev IsLoaded : {Key : Type 0} → String → String → Holding Key → Type 0
IsLoaded root name h = h ≡ loaded root name

module _ {Key : Type 0} where
  -- No key was made, and every file that existed is as it was.
  pub record Kept (w w' : World Key) : Type 0 where
    pub drawn_same : w'.drawn ≡ w.drawn
    pub files_same : (q : String) → exists w.files q ≡ true → w'.files q ≡ w.files q

  Kept-trans : (a b c : World Key) → Kept a b → Kept b c → Kept a c
  unfolding exists
  Kept-trans a b c h k = record {
    drawn_same = k.drawn_same ∙ h.drawn_same;
    files_same = λ q e. k.files_same q (ap is_some (h.files_same q e) ∙ e) ∙ h.files_same q e;
  }

  still-There :
      (w w' : World Key) (root name : String) → Kept w w' → There root name w → There root name w'
  unfolding exists
  still-There w w' root name h e = ap is_some (h.files_same (cert_path root name) e) ∙ e

  module _ (host : Host Key) (uut : Bool) where
    make_dir-Kept : (path : String) (w : World Key) → Kept w (make_dir host uut path w).1
    unfolding make_dir
    make_dir-Kept path w = record {
      drawn_same = refl;
      files_same = λ q e. mkdir_kept (host.makes_dir w.files path) w.files path q e;
    }

    -- What was there is there after a directory was made and a call ran.
    pub since :
        (w : World Key) (path : String) (w' : World Key)
        → Grows (make_dir host uut path w).1.files w'.files
        → (q : String) → exists w.files q ≡ true
        → exists w'.files q ≡ true
    unfolding exists
    since w path w' g q e = g q (ap is_some ((make_dir-Kept path w).files_same q e) ∙ e)

    -- os.Stat works on every file that exists.
    abbrev pub StatWorks : Type 0
    StatWorks =
        (files : Files (Content Key)) (path : String)
        → exists files path ≡ true
        → host.stats files path ≡ true

    -- The certificate that a call looks for is found after a directory was made.
    There-made :
        StatWorks
        → (path root name : String) (w₀ w : World Key) → Kept w₀ w
        → There root name w₀
        → is_there host uut root name (make_dir host uut path w).1 ≡ true
    There-made works path root name w₀ w k e =
        let w₁ = (make_dir host uut path w).1 in
        let there = still-There w₀ w₁ root name (Kept-trans w₀ w w₁ k (make_dir-Kept path w)) e in
        ap₂ (λ x y. x && y) there (works w₁.files (cert_path root name) there)

    module _ (works : StatWorks) (w₀ : World Key) (path : String) (w : World Key)
        (k : Kept w₀ w) where
      Kept-now : Kept w₀ (make_dir host uut path w).1
      Kept-now = Kept-trans w₀ w (make_dir host uut path w).1 k (make_dir-Kept path w)

      full_pki_loads :
          (root name : String) (is_kube_ca is_etcd_ca : Bool) (ip : List String)
          → There root "ca" w₀
          → Post Never (AtPki IsLoaded root (Kept w₀)) (
              ensure_full_pki host uut root name is_kube_ca is_etcd_ca ip
                (make_dir host uut path w).1)
      unfolding ensure_full_pki
      full_pki_loads root name is_kube_ca is_etcd_ca ip e = record {
        holds =
            rw (There-made works path root "ca" w₀ w k e, ensure_full_pki)
              ((refl, refl, refl), Kept-now);
      }

      ca_loads :
          (root name : String)
          → There root "ca" w₀
          → Post Never
              (At IsLoaded root "ca" (Kept w₀))
              (ensure_ca host uut root name (make_dir host uut path w).1)
      unfolding ensure_ca
      ca_loads root name e = record {
        holds = rw (There-made works path root "ca" w₀ w k e, ensure_ca) (refl, Kept-now);
      }

      signing_cert_loads :
          (root name : String)
          → There root "cert" w₀
          → Post Never
              (At IsLoaded root "cert" (Kept w₀))
              (ensure_signing_cert host uut root name (make_dir host uut path w).1)
      unfolding ensure_signing_cert
      signing_cert_loads root name e = record {
        holds =
            rw (There-made works path root "cert" w₀ w k e, ensure_signing_cert) (refl, Kept-now);
      }

    module _ (ipv6_text : Bytes → String) (kubeconfig base_dir : String)
        (bind_addr service_addr : Bytes) where
      -- Where the four files are there, CreateOrLoadCertificates succeeds.
      pub loads-Post :
          StatWorks
          → (w : World Key) → AllThere base_dir w
          → Post Never
              (λ c w'. (c ≡ loaded_in kubeconfig base_dir) × Kept w w')
              (create_or_load_certificates host uut ipv6_text kubeconfig base_dir bind_addr
                service_addr w)
      loads-Post works w there =
          weaken-Post
            (create_or_load_certificates host uut ipv6_text kubeconfig base_dir bind_addr
              service_addr w)
            (λ c w' (etcd, kube, cluster, signing, same, (e₁, e₂, e₃), (k₁, k₂, k₃), d, g, kept).
              (same ∙ rw (e₁, e₂, e₃, k₁, k₂, k₃, d, g) refl, kept))
            (assembled-Post host uut Never ipv6_text kubeconfig base_dir bind_addr service_addr
              IsLoaded (Kept w) (Kept w) (Kept w) (Kept w) (Kept w)
              (record {
                etcd = λ w' k.
                    wrapped-Post host uut etcd_pki _ _ (λ e w'' x. x)
                      (full_pki_loads works w (dir_of base_dir "etcdtls") w' k _ _ _ _ _
                        there.etcd_there);
                kube = λ w' k.
                    wrapped-Post host uut kube_pki _ _ (λ e w'' x. x)
                      (full_pki_loads works w (dir_of base_dir "kubetls") w' k _ _ _ _ _
                        there.kube_there);
                cluster = λ w' k.
                    wrapped-Post host uut kube_cluster_pki _ _ (λ e w'' x. x)
                      (ca_loads works w (dir_of base_dir "kubectls") w' k _ _ there.cluster_there);
                signing = λ w' k.
                    wrapped-Post host uut kube_signing_cert _ _ (λ e w'' x. x)
                      (signing_cert_loads works w (dir_of base_dir "kubestls") w' k _ _
                        there.signing_there);
              })
              w (record { drawn_same = refl; files_same = λ q e. refl }))
