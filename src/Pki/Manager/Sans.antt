-- ===== src/Pki/Manager/Sans.antt =====
-- pkg/pki/CertManager.go: what the template of NewCert says.
use microkube.Base.{
  ℕ, String, Bool, true, false, ◌||◌, Option, none, some, List, [], ◌∷◌, ◌++◌, append-nil,
  append_assoc, ◌≡◌, refl, sym, ap, ap₂, ◌∙◌, inl, inr, Option-cases, if◌then◌else◌,
}
use microkube.Base.Bytes.{Bytes, codes}
use microkube.Network.Ip.{parse_ip}
use microkube.Pki.{server_auth, client_auth, Name, Template}
use microkube.Pki.Manager.{CertManager, add_sans, for_server, for_client, cert_template}

module _ (parse_ipv6 : Bytes → Option Bytes) where
  -- The names that are addresses, as addresses, and the others, each in their order.
  unfoldable pub addresses : List String → List Bytes
  addresses [] = []
  addresses (item ∷ sans) =
      let rest = addresses sans in
      elim (parse_ip parse_ipv6 (codes item)) [ none ↦ rest | some ip ↦ ip ∷ rest ]

  unfoldable pub host_names : List String → List String
  host_names [] = []
  host_names (item ∷ sans) =
      let rest = host_names sans in
      elim (parse_ip parse_ipv6 (codes item)) [ none ↦ item ∷ rest | some ip ↦ rest ]

  abbrev naming : Template → List Bytes → List String → Template
  naming template ips names = record template { ip_addresses = ips; dns_names = names }

  add_sans_lem :
      (sans : List String) (template : Template)
      → add_sans parse_ipv6 sans template
        ≡ naming template
            (template.ip_addresses ++ addresses sans)
            (template.dns_names ++ host_names sans)
  unfolding add_sans addresses host_names
  add_sans_lem [] template =
      ap₂ (naming template) (sym (append-nil template.ip_addresses))
        (sym (append-nil template.dns_names))
  add_sans_lem (item ∷ sans) template = elim (Option-cases (parse_ip parse_ipv6 (codes item))) [
    | inl e ↦
        rw (e, add_sans, addresses, host_names)
          (add_sans_lem sans
              (naming template template.ip_addresses (template.dns_names ++ item ∷ []))
            ∙ ap (naming template (template.ip_addresses ++ addresses sans))
                (append_assoc template.dns_names (item ∷ []) (host_names sans)))
    | inr (ip, e) ↦
        rw (e, add_sans, addresses, host_names)
          (add_sans_lem sans (naming template (template.ip_addresses ++ ip ∷ []) template.dns_names)
            ∙ ap (λ ips. naming template ips (template.dns_names ++ host_names sans))
                (append_assoc template.ip_addresses (ip ∷ []) (addresses sans)))
  ]

  -- The template of NewCert: of the alternative names those that net.ParseIP reads are its
  -- addresses and the others its DNS names, each in their order, and both only for a server; it
  -- may be used for authentication as a server and as a client as it was asked to be, with keys
  -- for encipherment and signatures if it is for any of them; it is no CA and signs no certificate.
  pub cert_template_lem :
      (manager : CertManager) (x509_name : Name) (serial : ℕ) (is_server is_client : Bool)
      (sans : List String)
      → cert_template parse_ipv6 manager x509_name serial is_server is_client sans ≡ record {
        serial_number = serial;
        subject = x509_name;
        validity_hours = manager.validity_hours;
        key_usage = record {
          cert_sign = false;
          key_encipherment = is_server || is_client;
          digital_signature = is_server || is_client;
        };
        is_ca = false;
        ext_key_usage =
            (if is_server then server_auth ∷ [] else [])
            ++ (if is_client then client_auth ∷ [] else []);
        ip_addresses = if is_server then addresses sans else [];
        dns_names = if is_server then host_names sans else [];
      }
  unfolding cert_template for_server for_client
  cert_template_lem manager x509_name serial true true sans = ap for_client (add_sans_lem sans _)
  cert_template_lem manager x509_name serial true false sans = add_sans_lem sans _
  cert_template_lem manager x509_name serial false true sans = refl
  cert_template_lem manager x509_name serial false false sans = refl
