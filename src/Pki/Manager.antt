-- ===== src/Pki/Manager.antt =====
-- pkg/pki/CertManager.go. The two readers of randomness are not told apart: the key size is.
pub mod Sans
pub mod Bound
use microkube.Base.{
  ℕ, ◌*◌, String, Bool, true, false, Option, none, some, List, [], ◌∷◌, ◌++◌, if◌then◌else◌,
}
use microkube.Base.Bytes.{Bytes, codes}
use microkube.Base.Texts as Texts
use microkube.Files.Path.{join}
use microkube.Network.Ip.{parse_ip}
use microkube.Pki.{
  server_auth, client_auth, Name, Template, Certificate, private_key, certificate, Host,
  keyfile_creation, certificate_file_creation, Action, Holding, pure, panic, ◌>>=◌, ◌>>◌,
  generate_key, create_certificate, write_pem,
}

pub record CertManager : Type 0 where
  pub workdir : String
  pub keysize : ℕ
  pub validity_hours : ℕ

-- NewManager
abbrev pub new_manager : String → CertManager
new_manager workdir = record { workdir = workdir; keysize = 2048; validity_hours = 24 * 365 }

-- UutMode
abbrev pub uut_mode : CertManager → CertManager
uut_mode manager = record manager { keysize = 768 }

-- The paths of a certificate in the working directory.
abbrev pub key_path : String → String → String
key_path workdir name = join (workdir ∷ Texts.◌++◌ name ".key" ∷ [])

abbrev pub cert_path : String → String → String
cert_path workdir name = join (workdir ∷ Texts.◌++◌ name ".pem" ∷ [])

-- The template of NewSelfSignedCACert.
abbrev pub ca_template : CertManager → Name → ℕ → Template
ca_template manager x509_name serial = record {
  serial_number = serial;
  subject = x509_name;
  validity_hours = manager.validity_hours;
  key_usage = record { cert_sign = true; key_encipherment = false; digital_signature = false };
  is_ca = true;
  ext_key_usage = [];
  ip_addresses = [];
  dns_names = [];
}

-- The template of NewSelfSignedCert.
abbrev pub signing_template : CertManager → Name → ℕ → Template
signing_template manager x509_name serial = record (ca_template manager x509_name serial) {
  key_usage = record { cert_sign = true; key_encipherment = true; digital_signature = true };
  is_ca = false;
}

-- The loop of NewCert over the alternative names.
unfoldable pub add_sans : (Bytes → Option Bytes) → List String → Template → Template
add_sans parse_ipv6 [] template = template
add_sans parse_ipv6 (item ∷ sans) template = elim (parse_ip parse_ipv6 (codes item)) [
  | some ip ↦
      add_sans parse_ipv6 sans (record template { ip_addresses = template.ip_addresses ++ ip ∷ [] })
  | none ↦
      add_sans parse_ipv6 sans (record template { dns_names = template.dns_names ++ item ∷ [] })
]

-- `if isServer`
unfoldable pub for_server : (Bytes → Option Bytes) → List String → Template → Template
unfolding add_sans
for_server parse_ipv6 sans template = add_sans parse_ipv6 sans (record template {
  key_usage = record { cert_sign = false; key_encipherment = true; digital_signature = true };
  ext_key_usage = server_auth ∷ [];
})

-- `if isClient`
unfoldable pub for_client : Template → Template
for_client template = record template {
  key_usage = record template.key_usage { key_encipherment = true; digital_signature = true };
  ext_key_usage = template.ext_key_usage ++ client_auth ∷ [];
}

-- The template of NewCert.
unfoldable pub cert_template :
    (Bytes → Option Bytes) → CertManager → Name → ℕ → Bool → Bool → List String → Template
unfolding for_server for_client
cert_template parse_ipv6 manager x509_name serial is_server is_client sans =
    let plain : Template = record (ca_template manager x509_name serial) {
      key_usage = record { cert_sign = false; key_encipherment = false; digital_signature = false };
      is_ca = false;
    } in
    let served = if is_server then for_server parse_ipv6 sans plain else plain in
    if is_client then for_client served else served

module _ {Key : Type 0} (host : Host Key) (manager : CertManager) where
  unfoldable pub write_cert_to_files :
      String → Key → Certificate Key → Template → Action Key (Holding Key)
  unfolding write_pem
  write_cert_to_files name key cert template = do
    write_pem host keyfile_creation (key_path manager.workdir name) (private_key key)
    write_pem host certificate_file_creation (cert_path manager.workdir name) (certificate cert)
    pure (record {
      paths = record {
        cert_path = cert_path manager.workdir name;
        key_path = key_path manager.workdir name;
      };
      held = some (template, key);
    })

  -- What NewSelfSignedCACert and NewSelfSignedCert do with their templates.
  unfoldable pub self_signed : String → Template → Action Key (Holding Key)
  unfolding generate_key create_certificate write_cert_to_files
  self_signed name template = do
    key ← generate_key host manager.keysize
    cert ← create_certificate host template template key key
    write_cert_to_files name key cert template

  unfoldable pub new_self_signed_ca_cert : String → Name → ℕ → Action Key (Holding Key)
  unfolding self_signed
  new_self_signed_ca_cert name x509_name serial =
      self_signed name (ca_template manager x509_name serial)

  unfoldable pub new_self_signed_cert : String → Name → ℕ → Action Key (Holding Key)
  unfolding self_signed
  new_self_signed_cert name x509_name serial =
      self_signed name (signing_template manager x509_name serial)

  -- NewCert; with a CA that was loaded, `ca.cert` is nil.
  unfoldable pub new_cert :
      String → Name → ℕ → Bool → Bool → List String → Holding Key → Action Key (Holding Key)
  unfolding generate_key cert_template create_certificate write_cert_to_files
  new_cert name x509_name serial is_server is_client sans ca = do
    key ← generate_key host manager.keysize
    let template = cert_template host.parse_ipv6 manager x509_name serial is_server is_client sans
    elim ca.held [
      | none ↦ panic
      | some (parent, signer) ↦ do
        cert ← create_certificate host template parent key signer
        write_cert_to_files name key cert template
    ]
