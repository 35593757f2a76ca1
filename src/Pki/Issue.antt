-- ===== src/Pki/Issue.antt =====
-- What the certificate manager leaves on disk.
pub mod Read
use microkube.Base.{ℕ, String, Bool, Option, none, some, List, ◌≡◌, refl, sym, subst, ap, ◌∙◌}
use microkube.Files.Store.{Files, write}
use microkube.Pki.{
  Name, Template, Certificate, Content, private_key, certificate, Host, World, key_creation,
  keyfile_creation, certificate_file_creation, Action, Holding, pure, panic, ◌>>=◌, generate_key,
  create_certificate, write_pem,
}
use microkube.Pki.Post.{
  Requests, Refused, Post, bind-Post, weaken-Post, pem, generate_key-Post, create_certificate-Post,
  write_pem-Post,
}
use microkube.Pki.Manager.{
  CertManager, key_path, cert_path, cert_template, write_cert_to_files, self_signed, new_cert,
}

module _ {Key : Type 0} where
  -- What a call returns for a certificate that it has made.
  abbrev pub holding : String → String → Certificate Key → Holding Key
  holding workdir name cert = record {
    paths = record { cert_path = cert_path workdir name; key_path = key_path workdir name };
    held = some (cert.template, cert.key);
  }

module _ {Key : Type 0} (host : Host Key) where
  -- The files after a certificate and its key were written to a directory.
  abbrev pub stored : String → String → Certificate Key → Files (Content Key) → Files (Content Key)
  stored workdir name cert files =
      write
        (write files (key_path workdir name)
          (pem host (key_path workdir name) (private_key cert.key)))
        (cert_path workdir name) (pem host (cert_path workdir name) (certificate cert))

  -- The call returns a certificate with a template and a signer, and has written it.
  abbrev pub Issues :
      String → String → (Certificate Key → Type 0) → World Key → Holding Key → World Key → Type 0
  Issues workdir name P w c w' =
      (cert : Certificate Key) × P cert
      × (c ≡ holding workdir name cert)
      × (w'.files ≡ stored workdir name cert w.files)

  module _ (asked : Requests) (manager : CertManager) where
    -- The requests for a certificate are among those of a call.
    pub record Asks (name : String) (template : Template) : Type 0 where
      pub size_asked : asked.size ≡ manager.keysize
      pub key_asked : asked.key_file (key_path manager.workdir name)
      pub cert_asked : asked.cert_file (cert_path manager.workdir name)
      pub template_asked : asked.template template

    no_key :
        (w : World Key)
        → asked.size ≡ manager.keysize
        → host.generate w.drawn manager.keysize ≡ none
        → Refused host asked key_creation w
    no_key w e h = ap (host.generate w.drawn) e ∙ h

    pub write_cert_to_files-Issues :
        (name : String) (cert : Certificate Key) (w : World Key)
        → Asks name cert.template
        → Post
            (Refused host asked)
            (Issues manager.workdir name (λ c. c ≡ cert) w)
            (write_cert_to_files host manager name cert.key cert cert.template w)
    unfolding write_cert_to_files
    write_cert_to_files-Issues name cert w asks =
        bind-Post
          (write_pem host keyfile_creation (key_path manager.workdir name) (private_key cert.key)) _
          w
          (write_pem-Post host keyfile_creation (key_path manager.workdir name)
            (private_key cert.key) w (λ h. (_, asks.key_asked, h)))
          (λ _ w₁ e₁.
            bind-Post
              (write_pem host certificate_file_creation (cert_path manager.workdir name)
                (certificate cert))
              (λ _. pure (holding manager.workdir name cert)) w₁
              (write_pem-Post host certificate_file_creation (cert_path manager.workdir name)
                (certificate cert) w₁ (λ h. (_, asks.cert_asked, h)))
              (λ _ w₂ e₂. finished w₁ e₁ w₂ e₂))
      where
        finished :
            (w₁ : World Key)
            → w₁.files
              ≡ write w.files
                  (key_path manager.workdir name)
                  (pem host (key_path manager.workdir name) (private_key cert.key))
            → (w₂ : World Key)
            → w₂.files
              ≡ write w₁.files
                  (cert_path manager.workdir name)
                  (pem host (cert_path manager.workdir name) (certificate cert))
            → Post
                (Refused host asked)
                (Issues manager.workdir name (λ c. c ≡ cert) w)
                (pure (holding manager.workdir name cert) w₂)
        finished w₁ e₁ w₂ e₂ = record {
          holds = (
            cert,
            refl,
            refl,
            e₂
                ∙ ap
                    (λ f.
                      write f (cert_path manager.workdir name)
                        (pem host (cert_path manager.workdir name) (certificate cert)))
                    e₁,
          );
        }

    -- A certificate with these template, keys and signer.
    abbrev SignedBy : Template → Template → Key → Key → Certificate Key → Type 0
    SignedBy template parent key signer c =
        (c.template ≡ template) × (c.parent ≡ parent) × (c.key ≡ key) × (c.signer ≡ signer)

    signed-Issues :
        (name : String) (template parent : Template) (key signer : Key) (w w₁ : World Key)
        → w₁.files ≡ w.files
        → Asks name template
        → Post
            (Refused host asked)
            (Issues manager.workdir name (SignedBy template parent key signer) w)
            ((create_certificate host template parent key signer >>= λ cert.
                write_cert_to_files host manager name key cert template)
              w₁)
    signed-Issues name template parent key signer w w₁ e asks =
        bind-Post (create_certificate host template parent key signer)
          (λ cert. write_cert_to_files host manager name key cert template) w₁
          (create_certificate-Post host template parent key signer w₁
            (λ h. (_, _, _, _, asks.template_asked, h)))
          (λ cert w₂ made. written cert w₂ made.0 made.1)
      where
        made_cert : Certificate Key
        made_cert = record { template = template; parent = parent; key = key; signer = signer }

        from_cert :
            (w₂ : World Key)
            → w₂ ≡ w₁
            → Post
                (Refused host asked)
                (Issues manager.workdir name (SignedBy template parent key signer) w)
                (write_cert_to_files host manager name key made_cert template w₂)
        from_cert w₂ same =
            weaken-Post (write_cert_to_files host manager name key made_cert template w₂)
              (λ c w₃ issued.
                let (cert, p, held, files) = issued in
                (
                  cert,
                  (
                    ap Certificate.template p,
                    ap Certificate.parent p,
                    ap Certificate.key p,
                    ap Certificate.signer p,
                  ),
                  held,
                  files ∙ ap (stored manager.workdir name cert) (ap World.files same ∙ e),
                ))
              (write_cert_to_files-Issues name made_cert w₂ asks)

        written :
            (cert : Certificate Key) (w₂ : World Key)
            → w₂ ≡ w₁
            → cert ≡ made_cert
            → Post
                (Refused host asked)
                (Issues manager.workdir name (SignedBy template parent key signer) w)
                (write_cert_to_files host manager name key cert template w₂)
        written cert w₂ same made =
            subst
              (λ c.
                Post (Refused host asked)
                  (Issues manager.workdir name (SignedBy template parent key signer) w)
                  (write_cert_to_files host manager name key c template w₂))
              (sym made) (from_cert w₂ same)

    pub self_signed-Issues :
        (name : String) (template : Template) (w : World Key)
        → Asks name template
        → Post
            (Refused host asked)
            (Issues manager.workdir name
              (λ c. (c.template ≡ template) × (c.parent ≡ template) × (c.signer ≡ c.key))
              w)
            (self_signed host manager name template w)
    unfolding self_signed
    self_signed-Issues name template w asks =
        bind-Post (generate_key host manager.keysize)
          (λ key. create_certificate host template template key key >>= λ cert.
            write_cert_to_files host manager name key cert template)
          w (generate_key-Post host manager.keysize w (no_key w asks.size_asked))
          (λ key w₁ e.
            weaken-Post
              ((create_certificate host template template key key >>= λ cert.
                  write_cert_to_files host manager name key cert template)
                w₁)
              (λ c w₂ issued.
                let (cert, (t, p, k, g), held, files) = issued in
                (cert, (t, p, g ∙ sym k), held, files))
              (signed-Issues name template template key key w w₁ e asks))

    pub new_cert-Issues :
        (name : String) (x509_name : Name) (serial : ℕ) (is_server is_client : Bool)
        (sans : List String) (ca : Holding Key) (parent : Template) (signer : Key) (w : World Key)
        → ca.held ≡ some (parent, signer)
        → Asks name
            (cert_template host.parse_ipv6 manager x509_name serial is_server is_client sans)
        → Post
            (Refused host asked)
            (Issues manager.workdir name
              (λ c.
                (c.template
                  ≡ cert_template host.parse_ipv6 manager x509_name serial is_server is_client sans)
                × (c.parent ≡ parent)
                × (c.signer ≡ signer))
              w)
            (new_cert host manager name x509_name serial is_server is_client sans ca w)
    unfolding new_cert
    new_cert-Issues name x509_name serial is_server is_client sans ca parent signer w h asks =
        bind-Post (generate_key host manager.keysize) (λ key. issue ca.held key) w
          (generate_key-Post host manager.keysize w (no_key w asks.size_asked))
          (λ key w₁ e.
            subst
              (λ held.
                Post (Refused host asked) (Issues manager.workdir name P w) (issue held key w₁))
              (sym h)
              (weaken-Post (issue (some (parent, signer)) key w₁)
                (λ c w₂ issued.
                  let (cert, (t, p, k, g), held, files) = issued in (cert, (t, p, g), held, files))
                (signed-Issues name template parent key signer w w₁ e asks)))
      where
        template : Template
        template = cert_template host.parse_ipv6 manager x509_name serial is_server is_client sans

        P : Certificate Key → Type 0
        P c = (c.template ≡ template) × (c.parent ≡ parent) × (c.signer ≡ signer)

        issue : Option (Template × Key) → Key → Action Key (Holding Key)
        issue held key = elim held [
          | none ↦ panic
          | some (parent, signer) ↦ create_certificate host template parent key signer >>= λ cert.
              write_cert_to_files host manager name key cert template
        ]
