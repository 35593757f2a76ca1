-- ===== src/Pki/Manager/Bound.antt =====
-- pkg/pki: the address that a server is bound to in the template of its certificate.
use microkube.Base.{
  ℕ, ◌<◌, String, Bool, true, Option, some, List, [], ◌∷◌, ◌≡◌, refl, sym, ap, ◌∙◌,
}
use microkube.Base.Bytes.{Bytes}
use microkube.Network.Ip.{to4, ipv4}
use microkube.Services.Shared.{ip_string}
use microkube.Services.Shared.Printed.{parse_ip-ip_string}
use microkube.Pki.{Name, Template}
use microkube.Pki.Manager.{CertManager, cert_template}
use microkube.Pki.Manager.Sans.{addresses, host_names, cert_template_lem}

-- An IPv4 address, in its form of 4 or of 16 bytes, that is given to NewCert for a server as the
-- text that IP.String() writes of it becomes the first address of the certificate, in its form of
-- 16 bytes, and no DNS name; the other names are treated as they would be without it.
pub cert_template-ip_string :
    (ipv6_text : Bytes → String) (parse_ipv6 : Bytes → Option Bytes) (manager : CertManager)
    (x509_name : Name) (serial : ℕ) (is_client : Bool) (sans : List String) (address : Bytes)
    (a b c d : ℕ)
    → to4 address ≡ some (a ∷ b ∷ c ∷ d ∷ [])
    → a < 256
    → b < 256
    → c < 256
    → d < 256
    → let bound =
        cert_template parse_ipv6 manager x509_name serial true is_client
          (ip_string ipv6_text address ∷ sans) in
      let other = cert_template parse_ipv6 manager x509_name serial true is_client sans in
      (bound.ip_addresses ≡ ipv4 (a ∷ b ∷ c ∷ d ∷ []) ∷ other.ip_addresses)
      × (bound.dns_names ≡ other.dns_names)
unfolding addresses host_names
cert_template-ip_string ipv6_text parse_ipv6 manager x509_name serial is_client sans address a b c d
      e la lb lc ld =
    let read = parse_ip-ip_string ipv6_text parse_ipv6 address a b c d e la lb lc ld in
    let names = ip_string ipv6_text address ∷ sans in
    let with_it = cert_template_lem parse_ipv6 manager x509_name serial true is_client names in
    let without = cert_template_lem parse_ipv6 manager x509_name serial true is_client sans in
    let ips : addresses parse_ipv6 names ≡ ipv4 (a ∷ b ∷ c ∷ d ∷ []) ∷ addresses parse_ipv6 sans =
      rw (read, addresses) refl in
    let dns : host_names parse_ipv6 names ≡ host_names parse_ipv6 sans =
      rw (read, host_names) refl in
    (
      ap Template.ip_addresses with_it
          ∙ (ips
              ∙ ap (λ t. ipv4 (a ∷ b ∷ c ∷ d ∷ []) ∷ t) (sym (ap Template.ip_addresses without))),
      ap Template.dns_names with_it ∙ (dns ∙ sym (ap Template.dns_names without)),
    )
