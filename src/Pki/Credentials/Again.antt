-- ===== src/Pki/Credentials/Again.antt =====
-- pkg/pki/MicrokubeCredentials.go: what a call of CreateOrLoadCertificates leaves, and what a
-- second call finds.
use microkube.Base.{String, Bool, true, false, [], ◌∷◌, ◌≡◌, refl, sym, ap, ◌∙◌}
use microkube.Base.Bytes.{Bytes}
use microkube.Services.Shared.{ip_string}
use microkube.Pki.{Host, World, PkiError, etcd_pki, kube_pki, kube_cluster_pki, kube_signing_cert}
use microkube.Pki.Post.{Post, Never, Refused, weaken-Post}
use microkube.Pki.Credentials.{paths_of, make_dir, create_or_load_certificates}
use microkube.Pki.Credentials.Has.{
  wrapped-Post, ca_requests, signing_requests, ensure_ca-Has, ensure_signing_cert-Has,
  ensure_full_pki-Has,
}
use microkube.Pki.Credentials.Chain.{requests}
use microkube.Pki.Credentials.Calls.{credentials_in, loaded_in, dir_of, assembled-Post}
use microkube.Pki.Credentials.Loads.{
  AllThere, HasEtcd, HasKube, HasCluster, HasSigning, HasPaths, Kept, since, StatWorks, loads-Post,
}

module _ {Key : Type 0} (host : Host Key) (uut : Bool) (ipv6_text : Bytes → String)
    (kubeconfig base_dir : String) (bind_addr service_addr : Bytes) where
  -- What an error of CreateOrLoadCertificates comes with: its message names one of the four
  -- calls, and the machine has refused what the error inside names and this call asks for.
  abbrev pub Fails : PkiError → World Key → Type 0
  Fails (etcd_pki e) w =
      Refused host
        (requests host uut (dir_of base_dir "etcdtls") "Microkube ETCD" false true
          (ip_string ipv6_text bind_addr ∷ []))
        e w
  Fails (kube_pki e) w =
      Refused host
        (requests host uut (dir_of base_dir "kubetls") "Microkube Kubernetes" true false
          (ip_string ipv6_text bind_addr ∷ ip_string ipv6_text service_addr ∷ []))
        e w
  Fails (kube_cluster_pki e) w =
      Refused host (ca_requests host uut (dir_of base_dir "kubectls") "Microkube Cluster CA") e w
  Fails (kube_signing_cert e) w =
      Refused host
        (signing_requests host uut (dir_of base_dir "kubestls") "Microkube Cluster SVC Signcert") e
        w
  Fails _ w = ⊥

  leaves-Post :
      (w : World Key)
      → Post Fails
          (λ c w'. (paths_of c ≡ credentials_in kubeconfig base_dir) × AllThere base_dir w')
          (create_or_load_certificates host uut ipv6_text kubeconfig base_dir bind_addr service_addr
            w)
  leaves-Post w =
      weaken-Post
        (create_or_load_certificates host uut ipv6_text kubeconfig base_dir bind_addr service_addr
          w)
        (λ c w' made.
          let (etcd, kube, cluster, signing, same, e, k, d, g, files) = made in
          let (e₁, e₂, e₃) = e in
          let (k₁, k₂, k₃) = k in
          let (s, (t, (r, q))) = files in
          (
            ap paths_of same ∙ rw (e₁, e₂, e₃, k₁, k₂, k₃, d, g) refl,
            record { etcd_there = q; kube_there = r; cluster_there = t; signing_there = s },
          ))
        (assembled-Post host uut Fails ipv6_text kubeconfig base_dir bind_addr service_addr HasPaths
          (λ w. Unit) (HasEtcd base_dir) (HasKube base_dir) (HasCluster base_dir)
          (HasSigning base_dir)
          (record {
            etcd = λ w p.
                let w₁ = (make_dir host uut (dir_of base_dir "etcdtls") w).1 in
                wrapped-Post host uut etcd_pki _ _ (λ e w' x. x)
                  (weaken-Post _ (λ h w' (a, b, c, e, g). ((a, b, c), e))
                    (ensure_full_pki-Has host uut (dir_of base_dir "etcdtls") _ _ _ _ w₁));
            kube = λ w p.
                let w₁ = (make_dir host uut (dir_of base_dir "kubetls") w).1 in
                wrapped-Post host uut kube_pki _ _ (λ e w' x. x)
                  (weaken-Post _
                    (λ h w' (a, b, c, e, g).
                      ((a, b, c), (e, since host uut w (dir_of base_dir "kubetls") w' g _ p)))
                    (ensure_full_pki-Has host uut (dir_of base_dir "kubetls") _ _ _ _ w₁));
            cluster = λ w (p, q).
                let w₁ = (make_dir host uut (dir_of base_dir "kubectls") w).1 in
                let later = since host uut w (dir_of base_dir "kubectls") in
                wrapped-Post host uut kube_cluster_pki _ _ (λ e w' x. x)
                  (weaken-Post _ (λ h w' (a, e, g). (a, (e, (later w' g _ p, later w' g _ q))))
                    (ensure_ca-Has host uut (dir_of base_dir "kubectls") _ w₁));
            signing = λ w (p, (q, r)).
                let w₁ = (make_dir host uut (dir_of base_dir "kubestls") w).1 in
                let later = since host uut w (dir_of base_dir "kubestls") in
                wrapped-Post host uut kube_signing_cert _ _ (λ e w' x. x)
                  (weaken-Post _
                    (λ h w' (a, e, g). (a, (e, (later w' g _ p, (later w' g _ q, later w' g _ r)))))
                    (ensure_signing_cert-Has host uut (dir_of base_dir "kubestls") _ w₁));
          })
          w tt)

-- CreateOrLoadCertificates does not panic. If it returns an error, this names one of its four calls,
-- and the machine has refused what the error inside names: a key of the manager's size, a file or a
-- certificate of that call, or the host's name. If it succeeds, the credentials point to the files
-- of the four directories, and whatever machine the program is started on again, as long as os.Stat
-- works there on every file that exists, with the same directory and any options and addresses it
-- succeeds again, makes no key, leaves every file that exists as it is, and returns credentials
-- that point to the same files and hold no certificate and no key in memory.
pub create_or_load_certificates-again :
    {Key : Type 0} (host host₂ : Host Key) (uut uut₂ : Bool) (ipv6_text ipv6_text₂ : Bytes → String)
    (kubeconfig base_dir : String) (bind_addr service_addr bind_addr₂ service_addr₂ : Bytes)
    (w : World Key)
    → StatWorks host₂ uut₂
    → Post
        (Fails host uut ipv6_text kubeconfig base_dir bind_addr service_addr)
        (λ c w'.
          (paths_of c ≡ credentials_in kubeconfig base_dir)
          × Post Never
              (λ c' w''.
                (c' ≡ loaded_in kubeconfig base_dir) × (paths_of c' ≡ paths_of c) × Kept w' w'')
              (create_or_load_certificates host₂ uut₂ ipv6_text₂ kubeconfig base_dir bind_addr₂
                service_addr₂ w'))
        (create_or_load_certificates host uut ipv6_text kubeconfig base_dir bind_addr service_addr
          w)
create_or_load_certificates-again host host₂ uut uut₂ ipv6_text ipv6_text₂ kubeconfig base_dir
      bind_addr service_addr bind_addr₂ service_addr₂ w works =
    weaken-Post
      (create_or_load_certificates host uut ipv6_text kubeconfig base_dir bind_addr service_addr w)
      (λ c w' (e, there). (
        e,
        weaken-Post
            (create_or_load_certificates host₂ uut₂ ipv6_text₂ kubeconfig base_dir bind_addr₂
              service_addr₂ w')
            (λ c' w'' (e', kept). (e', ap paths_of e' ∙ sym e, kept))
            (loads-Post host₂ uut₂ ipv6_text₂ kubeconfig base_dir bind_addr₂ service_addr₂ works w'
              there),
      ))
      (leaves-Post host uut ipv6_text kubeconfig base_dir bind_addr service_addr w)
