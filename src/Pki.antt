-- ===== src/Pki.antt =====
-- pkg/pki: certificates on disk. What the program asks of crypto/rsa and crypto/x509 is a
-- parameter (Host): whether a key is generated and a certificate signed; a certificate is
-- what it was made from. Contents of PEM files are kept as what they encode.
pub mod Post
pub mod Manager
pub mod Issue
pub mod Credentials
mod Examples
use microkube.Base.{ℕ, suc, String, Bool, Option, none, some, List, if◌then◌else◌}
use microkube.Base.Bytes.{Bytes}
use microkube.Files.Store.{Files, file, write}
use microkube.Services.Shared.{RsaCertificate}

-- x509.ExtKeyUsageServerAuth and x509.ExtKeyUsageClientAuth
pub data ExtKeyUsage : Type 0 where
  server_auth client_auth : ExtKeyUsage

-- pkix.Name
pub record Name : Type 0 where
  pub common_name : String
  pub organization : List String

-- The bits of x509.KeyUsage that the program sets.
pub record KeyUsage : Type 0 where
  pub cert_sign : Bool
  pub key_encipherment : Bool
  pub digital_signature : Bool

-- x509.Certificate as a template; the certificate is valid for so many hours from now on.
pub record Template : Type 0 where
  pub serial_number : ℕ
  pub subject : Name
  pub validity_hours : ℕ
  pub key_usage : KeyUsage
  pub is_ca : Bool
  pub ext_key_usage : List ExtKeyUsage
  pub ip_addresses : List Bytes
  pub dns_names : List String

-- What x509.CreateCertificate makes: a certificate for a key pair, signed with another one.
pub record Certificate (Key : Type 0) : Type 0 where
  pub template : Template
  pub parent : Template
  pub key : Key
  pub signer : Key

-- What a file holds: a PEM block, or nothing where pem.Encode failed, whose error is ignored.
pub data Content (Key : Type 0) : Type 0 where
  private_key : Key → Content Key
  certificate : Certificate Key → Content Key
  nothing : Content Key

-- The files, and how many keys have been generated.
pub record World (Key : Type 0) : Type 0 where
  pub files : Files (Content Key)
  pub drawn : ℕ

-- What the machine answers while a call runs: for which existing files os.Stat returns no error,
-- which files can be opened for writing and encoded
-- to, which directories can be made, the host's name, the keys by their number and size, which
-- certificates can be created, and the IPv6 half of net.ParseIP.
pub record Host (Key : Type 0) : Type 0 where
  pub stats : Files (Content Key) → String → Bool
  pub creatable : Files (Content Key) → String → Bool
  pub encodes : String → Bool
  pub makes_dir : Files (Content Key) → String → Bool
  pub hostname : Option String
  pub generate : ℕ → ℕ → Option Key
  pub signs : Template → Template → Key → Key → Bool
  pub parse_ipv6 : Bytes → Option Bytes

-- The errors, by the message that they are wrapped with.
pub data PkiError : Type 0 where
  key_creation keyfile_creation certificate_file_creation certificate_creation : PkiError
  no_hostname : PkiError
  etcd_pki kube_pki kube_cluster_pki kube_signing_cert : PkiError → PkiError

-- `panicked` is a nil pointer that is dereferenced.
pub data Result (A : Type 0) : Type 0 where
  ok : A → Result A
  err : PkiError → Result A
  panicked : Result A

-- A call: what was written stays written when it fails.
abbrev pub Action : Type 0 → Type 0 → Type 0
Action Key A = World Key → Result A × World Key

-- RSACertificate: its paths, and the template and key in memory; both are nil in one that was
-- loaded.
pub record Holding (Key : Type 0) : Type 0 where
  pub paths : RsaCertificate
  pub held : Option (Template × Key)

module _ {Key : Type 0} where
  abbrev pub pure : {A : Type 0} → A → Action Key A
  pure a w = (ok a, w)

  abbrev pub raise : {A : Type 0} → PkiError → Action Key A
  raise e w = (err e, w)

  abbrev pub panic : {A : Type 0} → Action Key A
  panic w = (panicked, w)

  infixl 5 ◌>>=◌ ◌>>◌
  abbrev pub ◌>>=◌ : {A B : Type 0} → Action Key A → (A → Action Key B) → Action Key B
  ◌>>=◌ m f w =
      let (r, w') = m w in
      elim r [ ok a ↦ f a w' | err e ↦ (err e, w') | panicked ↦ (panicked, w') ]

  abbrev pub ◌>>◌ : {B : Type 0} → Action Key (Unit {0}) → Action Key B → Action Key B
  m >> k = m >>= λ _. k

module _ {Key : Type 0} (host : Host Key) where
  -- rsa.GenerateKey(manager.randReader, keysize)
  unfoldable pub generate_key : ℕ → Action Key Key
  generate_key keysize w = elim (host.generate w.drawn keysize) [
    | none ↦ (err key_creation, w)
    | some key ↦ (ok key, record w { drawn = suc w.drawn })
  ]

  -- x509.CreateCertificate for a key, signed with another one.
  unfoldable pub create_certificate : Template → Template → Key → Key → Action Key (Certificate Key)
  create_certificate template parent key signer w =
      if host.signs template parent key signer
      then (ok (record { template = template; parent = parent; key = key; signer = signer }), w)
      else (err certificate_creation, w)

  -- os.OpenFile for writing, and pem.Encode.
  unfoldable pub write_pem : PkiError → String → Content Key → Action Key (Unit {0})
  write_pem e path content w =
      if host.creatable w.files path
      then (
        ok tt,
        record w {
          files = write w.files path (file (if host.encodes path then content else nothing));
        },
      )
      else (err e, w)
