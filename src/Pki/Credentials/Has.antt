-- ===== src/Pki/Credentials/Has.antt =====
-- pkg/pki/MicrokubeCredentials.go: the paths that each call returns and the files it leaves.
use microkube.Base.{
  String, Bool, true, false, ◌&&◌, List, ◌≡◌, refl, ap, subst, ◌∙◌, inl, inr, Bool-cases,
}
use microkube.Base.Texts as Texts
use microkube.Files.Store.{exists}
use microkube.Pki.{Template, Host, World, PkiError, Result, ok, err, panicked, Action, Holding}
use microkube.Pki.Post.{Requests, Refused, PostOf, Post, weaken-Post}
use microkube.Pki.Issue.{stored, self_signed-Issues}
use microkube.Pki.Issue.Read.{Grows, Grows-by, Grows-trans, stored-Grows, stored_exists}
use microkube.Pki.Manager.{
  key_path, cert_path, ca_template, signing_template, self_signed, new_self_signed_ca_cert,
  new_self_signed_cert,
}
use microkube.Pki.Credentials.{
  paths_in, manager_of, named, is_there, ensure_ca, ensure_signing_cert, create_full_pki,
  ensure_full_pki, wrapped,
}
use microkube.Pki.Credentials.Names.{manager_workdir}
use microkube.Pki.Credentials.Chain.{requests, Creates, create_full_pki-Post}

-- The certificate of a directory exists.
abbrev pub There : {Key : Type 0} → String → String → World Key → Type 0
There root name w = exists w.files (cert_path root name) ≡ true

first_holds : (a b : Bool) → (a && b) ≡ true → a ≡ true
first_holds true b h = refl
first_holds false b h = h

module _ {Key : Type 0} (host : Host Key) (uut : Bool) where
  module _ {A : Type 0} {bad worse : PkiError → World Key → Type 0}
      {P : A → World Key → Type 0} where
    pub wrapped-Post :
        (message : PkiError → PkiError) (m : Action Key A) (w : World Key)
        → ((e : PkiError) (w' : World Key) → bad e w' → worse (message e) w')
        → Post bad P (m w)
        → Post worse P (wrapped host uut message m w)
    unfolding wrapped
    wrapped-Post message m w f h = record { holds = go (m w).0 (m w).1 h.holds }
      where
        go :
            (r : Result A) (w' : World Key)
            → PostOf bad P (r, w')
            → PostOf worse P (elim r as (λ _. Result A × World Key) [
              | ok a ↦ (ok a, w')
              | err e ↦ (err (message e), w')
              | panicked ↦ (panicked, w')
            ])
        go (ok a) w' p = p
        go (err e) w' p = f e w' p
        go panicked w' p = p

  -- What a call asks that makes one certificate.
  abbrev pub requests_for : String → String → Template → Requests
  requests_for root name template = record {
    size = (manager_of uut root).keysize;
    key_file = λ path. path ≡ key_path root name;
    cert_file = λ path. path ≡ cert_path root name;
    template = λ other. other ≡ template;
  }

  abbrev pub ca_requests : String → String → Requests
  ca_requests root name =
      requests_for root "ca" (ca_template (manager_of uut root) (named (Texts.◌++◌ name " CA")) 1)

  abbrev pub signing_requests : String → String → Requests
  signing_requests root name =
      requests_for root "cert"
        (signing_template (manager_of uut root) (named (Texts.◌++◌ name " Signing Cert")) 1)

  -- The paths that a call returns, and the certificate it leaves.
  abbrev pub Has : String → String → World Key → Holding Key → World Key → Type 0
  Has root name w c w' =
      (c.paths ≡ paths_in root name) × There root name w' × Grows w.files w'.files

  self_signed-Has :
      (root name : String) (template : Template) (w : World Key)
      → Post
          (Refused host (requests_for root name template))
          (Has root name w)
          (self_signed host (manager_of uut root) name template w)
  self_signed-Has root name template w =
      subst
        (λ workdir.
          Post (Refused host (requests_for root name template)) (Has workdir name w)
            (self_signed host (manager_of uut root) name template w))
        (manager_workdir uut root)
        (weaken-Post (self_signed host (manager_of uut root) name template w)
          (λ c w' issued.
            let (cert, _, held, files) = issued in
            let workdir = (manager_of uut root).workdir in
            (
              ap Holding.paths held,
              ap (λ f. exists f (cert_path workdir name)) files
                  ∙ stored_exists host workdir name cert w.files,
              Grows-trans w.files (stored host workdir name cert w.files) w'.files
                  (stored-Grows host workdir name cert w.files) (Grows-by _ _ files),
            ))
          (self_signed-Issues host (requests_for root name template) (manager_of uut root) name
            template w
            (record {
              size_asked = refl;
              key_asked = ap (λ dir. key_path dir name) (manager_workdir uut root);
              cert_asked = ap (λ dir. cert_path dir name) (manager_workdir uut root);
              template_asked = refl;
            })))

  pub ensure_ca-Has :
      (root name : String) (w : World Key)
      → Post
          (Refused host (ca_requests root name))
          (Has root "ca" w)
          (ensure_ca host uut root name w)
  unfolding ensure_ca new_self_signed_ca_cert
  ensure_ca-Has root name w = elim (Bool-cases (is_there host uut root "ca" w)) [
    | inl e ↦ record { holds = rw (e, ensure_ca) (refl, first_holds _ _ e, λ q h. h) }
    | inr e ↦ subst (Post (Refused host (ca_requests root name)) (Has root "ca" w)) (made e) (
        self_signed-Has root "ca"
          (ca_template (manager_of uut root) (named (Texts.◌++◌ name " CA")) 1) w)
  ]
    where
      made :
          is_there host uut root "ca" w ≡ false
          → self_signed host
              (manager_of uut root)
              "ca"
              (ca_template (manager_of uut root) (named (Texts.◌++◌ name " CA")) 1)
              w
            ≡ ensure_ca host uut root name w
      made e = rw (e, ensure_ca) refl

  pub ensure_signing_cert-Has :
      (root name : String) (w : World Key)
      → Post
          (Refused host (signing_requests root name))
          (Has root "cert" w)
          (ensure_signing_cert host uut root name w)
  unfolding ensure_signing_cert new_self_signed_cert
  ensure_signing_cert-Has root name w = elim (Bool-cases (is_there host uut root "cert" w)) [
    | inl e ↦ record { holds = rw (e, ensure_signing_cert) (refl, first_holds _ _ e, λ q h. h) }
    | inr e ↦
        subst (Post (Refused host (signing_requests root name)) (Has root "cert" w)) (made e) (
          self_signed-Has root "cert"
            (signing_template (manager_of uut root) (named (Texts.◌++◌ name " Signing Cert")) 1) w)
  ]
    where
      made :
          is_there host uut root "cert" w ≡ false
          → self_signed host
              (manager_of uut root)
              "cert"
              (signing_template (manager_of uut root) (named (Texts.◌++◌ name " Signing Cert")) 1)
              w
            ≡ ensure_signing_cert host uut root name w
      made e = rw (e, ensure_signing_cert) refl

  abbrev pub HasPki :
      String → World Key → Holding Key × Holding Key × Holding Key → World Key → Type 0
  HasPki root w (h₁, h₂, h₃) w' =
      (h₁.paths ≡ paths_in root "ca")
      × (h₂.paths ≡ paths_in root "server")
      × (h₃.paths ≡ paths_in root "client")
      × There root "ca" w'
      × Grows w.files w'.files

  pub ensure_full_pki-Has :
      (root name : String) (is_kube_ca is_etcd_ca : Bool) (ip : List String) (w : World Key)
      → Post
          (Refused host (requests host uut root name is_kube_ca is_etcd_ca ip))
          (HasPki root w)
          (ensure_full_pki host uut root name is_kube_ca is_etcd_ca ip w)
  unfolding ensure_full_pki
  ensure_full_pki-Has root name is_kube_ca is_etcd_ca ip w =
      elim (Bool-cases (is_there host uut root "ca" w)) [
        | inl e ↦ record {
          holds = rw (e, ensure_full_pki) (refl, refl, refl, first_holds _ _ e, λ q h. h);
        }
        | inr e ↦
            subst
              (Post (Refused host (requests host uut root name is_kube_ca is_etcd_ca ip))
                (HasPki root w))
              (made e)
              (weaken-Post (create_full_pki host uut root name is_kube_ca is_etcd_ca ip w)
                (λ h w' created. has w' h created)
                (create_full_pki-Post host uut root name is_kube_ca is_etcd_ca ip w e))
      ]
    where
      made :
          is_there host uut root "ca" w ≡ false
          → create_full_pki host uut root name is_kube_ca is_etcd_ca ip w
            ≡ ensure_full_pki host uut root name is_kube_ca is_etcd_ca ip w
      made e = rw (e, ensure_full_pki) refl

      has :
          (w' : World Key) (h : Holding Key × Holding Key × Holding Key)
          → Creates host uut root name is_kube_ca is_etcd_ca ip w h w'
          → HasPki root w h w'
      has w' h created =
          let (hostname, ca, server, client, _, h₁, h₂, h₃, files) = created in
          let f₁ = stored host root "ca" ca w.files in
          let f₂ = stored host root "server" server f₁ in
          let f₃ = stored host root "client" client f₂ in
          let later =
            Grows-trans f₁ f₂ f₃ (stored-Grows host root "server" server f₁)
              (stored-Grows host root "client" client f₂) in
          let grown = Grows-trans f₁ f₃ w'.files later (Grows-by _ _ files) in
          (
            ap Holding.paths h₁,
            ap Holding.paths h₂,
            ap Holding.paths h₃,
            grown (cert_path root "ca") (stored_exists host root "ca" ca w.files),
            Grows-trans w.files f₁ w'.files (stored-Grows host root "ca" ca w.files) grown,
          )
