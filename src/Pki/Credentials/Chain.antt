-- ===== src/Pki/Credentials/Chain.antt =====
-- pkg/pki/MicrokubeCredentials.go: the PKI that ensureFullPKI makes.
use microkube.Base.{
  ℕ, String, Bool, true, false, Option, none, some, List, [], ◌≡◌, refl, sym, ap, subst, ◌∙◌, ◌⊎◌,
  inl, inr,
}
use microkube.Base.Texts as Texts
use microkube.Pki.{
  no_hostname, Name, Template, Certificate, Host, World, Action, Holding, raise, pure, ◌>>=◌,
}
use microkube.Pki.Post.{Requests, Refused, Post, bind-Post}
use microkube.Pki.Issue.{Asks, stored, holding, Issues, self_signed-Issues, new_cert-Issues}
use microkube.Pki.Manager.{
  key_path, cert_path, ca_template, cert_template, new_cert, self_signed, new_self_signed_ca_cert,
}
use microkube.Pki.Credentials.{
  manager_of, named, client_name, is_there, ensure_ca, get_hostname, create_full_pki,
}
use microkube.Pki.Credentials.Names.{server_names, manager_workdir}

-- The certificates of a PKI, by the names of their files.
abbrev pub IsRole : String → Type 0
IsRole role = (role ≡ "ca") ⊎ ((role ≡ "server") ⊎ (role ≡ "client"))

module _ {Key : Type 0} (host : Host Key) (uut : Bool) (root name : String)
    (is_kube_ca is_etcd_ca : Bool) (ip : List String) where
  -- A self-signed CA, and a server and a client certificate that are signed by it.
  pub record IsChain (hostname : String) (ca server client : Certificate Key) : Type 0 where
    pub ca_made : ca.template ≡ ca_template (manager_of uut root) (named (Texts.◌++◌ name " CA")) 1
    pub ca_signed : ca.signer ≡ ca.key
    pub server_made :
        server.template
        ≡ cert_template host.parse_ipv6
            (manager_of uut root)
            (named (Texts.◌++◌ name " Server"))
            2
            true
            is_etcd_ca
            (server_names ip hostname)
    pub server_parent : server.parent ≡ ca.template
    pub server_signed : server.signer ≡ ca.key
    pub client_made :
        client.template
        ≡ cert_template host.parse_ipv6
            (manager_of uut root)
            (client_name name is_kube_ca)
            3
            false
            true
            []
    pub client_parent : client.parent ≡ ca.template
    pub client_signed : client.signer ≡ ca.key

  -- What the call returns and leaves on disk where it succeeds.
  abbrev pub Creates : World Key → Holding Key × Holding Key × Holding Key → World Key → Type 0
  Creates w (h₁, h₂, h₃) w' =
      (hostname : String) × (ca : Certificate Key) × (server : Certificate Key)
      × (client : Certificate Key) × IsChain hostname ca server client
      × (h₁ ≡ holding root "ca" ca)
      × (h₂ ≡ holding root "server" server)
      × (h₃ ≡ holding root "client" client)
      × (w'.files
          ≡ stored host root "client" client
              (stored host root "server" server (stored host root "ca" ca w.files)))

  abbrev server_template : String → Template
  server_template hostname =
      cert_template host.parse_ipv6 (manager_of uut root) (named (Texts.◌++◌ name " Server")) 2 true
        is_etcd_ca (server_names ip hostname)

  abbrev client_template : Template
  client_template =
      cert_template host.parse_ipv6 (manager_of uut root) (client_name name is_kube_ca) 3 false true
        []

  abbrev the_ca_template : Template
  the_ca_template = ca_template (manager_of uut root) (named (Texts.◌++◌ name " CA")) 1

  -- What the call asks of the machine: keys of the manager's size, the six files in `root` and
  -- certificates with the templates of the three roles.
  abbrev pub requests : Requests
  requests = record {
    size = (manager_of uut root).keysize;
    key_file = λ path. (role : String) × IsRole role × (path ≡ key_path root role);
    cert_file = λ path. (role : String) × IsRole role × (path ≡ cert_path root role);
    template = λ template.
        (template ≡ the_ca_template)
        ⊎ (((hostname : String) × (template ≡ server_template hostname))
            ⊎ (template ≡ client_template));
  }

  requests-Asks :
      (role : String) (template : Template)
      → IsRole role
      → requests.template template
      → Asks host requests (manager_of uut root) role template
  requests-Asks role template is t = record {
    size_asked = refl;
    key_asked = (role, is, ap (λ dir. key_path dir role) (manager_workdir uut root));
    cert_asked = (role, is, ap (λ dir. cert_path dir role) (manager_workdir uut root));
    template_asked = t;
  }

  pub ensure_ca-Issues :
      (w : World Key)
      → is_there host uut root "ca" w ≡ false
      → Post
          (Refused host requests)
          (Issues host root "ca"
            (λ c.
              (c.template ≡ ca_template (manager_of uut root) (named (Texts.◌++◌ name " CA")) 1)
              × (c.parent ≡ ca_template (manager_of uut root) (named (Texts.◌++◌ name " CA")) 1)
              × (c.signer ≡ c.key))
            w)
          (ensure_ca host uut root name w)
  unfolding ensure_ca new_self_signed_ca_cert
  ensure_ca-Issues w e =
      let template = ca_template (manager_of uut root) (named (Texts.◌++◌ name " CA")) 1 in
      subst
        (λ workdir.
          Post (Refused host requests)
            (Issues host workdir "ca"
              (λ c. (c.template ≡ template) × (c.parent ≡ template) × (c.signer ≡ c.key)) w)
            (ensure_ca host uut root name w))
        (manager_workdir uut root)
        (subst
          (λ x.
            Post (Refused host requests)
              (Issues host (manager_of uut root).workdir "ca"
                (λ c. (c.template ≡ template) × (c.parent ≡ template) × (c.signer ≡ c.key)) w)
              x)
          (sym made)
          (self_signed-Issues host requests (manager_of uut root) "ca" template w
            (requests-Asks "ca" template (inl refl) (inl refl))))
    where
      made :
          ensure_ca host uut root name w
          ≡ self_signed host
              (manager_of uut root)
              "ca"
              (ca_template (manager_of uut root) (named (Texts.◌++◌ name " CA")) 1)
              w
      made = rw (e, ensure_ca) refl

  -- What NewCert makes with the CA that was just made.
  issued-Issues :
      (file_name : String) (x509_name : Name) (serial : ℕ) (is_server is_client : Bool)
      (sans : List String) (ca : Certificate Key) (w : World Key)
      → Asks host requests (manager_of uut root) file_name (
          cert_template host.parse_ipv6
            (manager_of uut root)
            x509_name
            serial
            is_server
            is_client
            sans)
      → Post
          (Refused host requests)
          (Issues host root file_name
            (λ c.
              (c.template
                ≡ cert_template host.parse_ipv6
                    (manager_of uut root)
                    x509_name
                    serial
                    is_server
                    is_client
                    sans)
              × (c.parent ≡ ca.template)
              × (c.signer ≡ ca.key))
            w)
          (new_cert host
            (manager_of uut root)
            file_name
            x509_name
            serial
            is_server
            is_client
            sans
            (holding root "ca" ca)
            w)
  issued-Issues file_name x509_name serial is_server is_client sans ca w asks =
      subst
        (λ workdir.
          Post (Refused host requests)
            (Issues host workdir file_name
              (λ c.
                (c.template
                  ≡ cert_template host.parse_ipv6 (manager_of uut root) x509_name serial is_server
                      is_client sans)
                × (c.parent ≡ ca.template)
                × (c.signer ≡ ca.key))
              w)
            (new_cert host (manager_of uut root) file_name x509_name serial is_server is_client sans
              (holding root "ca" ca) w))
        (manager_workdir uut root)
        (new_cert-Issues host requests (manager_of uut root) file_name x509_name serial is_server
          is_client sans (holding root "ca" ca) ca.template ca.key w refl asks)

  get_hostname-Post :
      (w : World Key) → Post (Refused host requests) (λ _ w'. w' ≡ w) (get_hostname host uut w)
  unfolding get_hostname
  get_hostname-Post w = asked host.hostname refl
    where
      asked :
          (answer : Option String)
          → host.hostname ≡ answer
          → Post
              (Refused host requests)
              (λ _ w'. w' ≡ w)
              ((elim answer as (λ _. Action Key String) [
                | none ↦ raise no_hostname
                | some name ↦ pure name
              ])
                w)
      asked none e = record { holds = e }
      asked (some name) e = record { holds = refl }

  -- The rest of the call once the CA is there, and once the host's name is known.
  abbrev after_host : Holding Key → String → Action Key (Holding Key × Holding Key × Holding Key)
  after_host ca hostname = do
    server ←
        new_cert host (manager_of uut root) "server" (named (Texts.◌++◌ name " Server")) 2 true
          is_etcd_ca (server_names ip hostname) ca
    client ←
        new_cert host (manager_of uut root) "client" (client_name name is_kube_ca) 3 false true []
          ca
    pure (ca, server, client)

  abbrev after_ca : Holding Key → Action Key (Holding Key × Holding Key × Holding Key)
  after_ca ca = get_hostname host uut >>= after_host ca

  after_host-Post :
      (w w₁ : World Key) (ca : Certificate Key) (hostname : String)
      → ca.template ≡ ca_template (manager_of uut root) (named (Texts.◌++◌ name " CA")) 1
      → ca.signer ≡ ca.key
      → w₁.files ≡ stored host root "ca" ca w.files
      → Post (Refused host requests) (Creates w) (after_host (holding root "ca" ca) hostname w₁)
  after_host-Post w w₁ ca hostname made signed files =
      bind-Post
        (new_cert host (manager_of uut root) "server" (named (Texts.◌++◌ name " Server")) 2 true
          is_etcd_ca (server_names ip hostname) (holding root "ca" ca))
        _ w₁
        (issued-Issues "server" (named (Texts.◌++◌ name " Server")) 2 true is_etcd_ca
          (server_names ip hostname) ca w₁
          (requests-Asks "server" (server_template hostname) (inr (inl refl))
            (inr (inl (hostname, refl)))))
        (λ h₂ w₂ served.
          bind-Post
            (new_cert host (manager_of uut root) "client" (client_name name is_kube_ca) 3 false true
              [] (holding root "ca" ca))
            (λ h₃. pure (holding root "ca" ca, h₂, h₃)) w₂
            (issued-Issues "client" (client_name name is_kube_ca) 3 false true [] ca w₂
              (requests-Asks "client" client_template (inr (inr refl)) (inr (inr refl))))
            (λ h₃ w₃ given.
              let (server, (t₂, p₂, s₂), held₂, files₂) = served in
              let (client, (t₃, p₃, s₃), held₃, files₃) = given in
              let chain : IsChain hostname ca server client = record {
                ca_made = made;
                ca_signed = signed;
                server_made = t₂;
                server_parent = p₂;
                server_signed = s₂;
                client_made = t₃;
                client_parent = p₃;
                client_signed = s₃;
              } in
              record {
                holds = (
                  hostname,
                  ca,
                  server,
                  client,
                  chain,
                  refl,
                  held₂,
                  held₃,
                  files₃
                      ∙ ap (stored host root "client" client)
                          (files₂ ∙ ap (stored host root "server" server) files),
                );
              }))

  pub create_full_pki-Post :
      (w : World Key)
      → is_there host uut root "ca" w ≡ false
      → Post
          (Refused host requests)
          (Creates w)
          (create_full_pki host uut root name is_kube_ca is_etcd_ca ip w)
  unfolding create_full_pki
  create_full_pki-Post w e =
      bind-Post (ensure_ca host uut root name) after_ca w (ensure_ca-Issues w e) (λ h₁ w₁ issued.
        let (ca, (made, _, signed), held, files) = issued in
        bind-Post (get_hostname host uut) (after_host h₁) w₁ (get_hostname-Post w₁)
          (λ hostname w₂ same.
            subst (λ h. Post (Refused host requests) (Creates w) (after_host h hostname w₂))
              (sym held)
              (after_host-Post w w₂ ca hostname made signed (ap World.files same ∙ files))))
