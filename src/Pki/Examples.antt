-- ===== src/Pki/Examples.antt =====
-- Certificates on a concrete machine: keys are numbers, everything can be written and signed.
use microkube.Base.{arith, ℕ, String, true, false, none, some, List, [], ◌∷◌, ◌≡◌, refl}
use microkube.Base.Bytes.{Bytes}
use microkube.Files.Path.{join}
use microkube.Network.Ip.{parse_ip}
use microkube.Pki.{server_auth, Host, World, Result}
use microkube.Pki.Post.{Post, Never}
use microkube.Pki.Manager.{new_manager, cert_template}
use microkube.Pki.Manager.Sans.{addresses, host_names, cert_template_lem}
use microkube.Pki.Manager.Bound.{cert_template-ip_string}
use microkube.Network.Ip.{to4, ipv4}
use microkube.Services.Shared.{ip_string}
use microkube.Pki.Credentials.{HeldCredentials, paths_of, named, create_or_load_certificates}
use microkube.Pki.Credentials.Calls.{credentials_in, loaded_in}
use microkube.Pki.Credentials.Loads.{Kept}
use microkube.Pki.Credentials.Again.{Fails, create_or_load_certificates-again}

abbrev machine : Host ℕ
machine = record {
  stats = λ files path. true;
  creatable = λ files path. true;
  encodes = λ path. true;
  makes_dir = λ files path. true;
  hostname = some "node";
  generate = λ n keysize. some n;
  signs = λ template parent key signer. true;
  parse_ipv6 = λ text. none;
}

abbrev fresh : World ℕ
fresh = record { files = λ path. none; drawn = 0 }

abbrev local : Bytes
local = 127 ∷ 0 ∷ 0 ∷ 1 ∷ []

local_octets : to4 local ≡ some (127 ∷ 0 ∷ 0 ∷ 1 ∷ [])
unfolding to4
local_octets = refl

-- A first call makes eight keys.
abbrev first : Result (HeldCredentials ℕ) × World ℕ
first = create_or_load_certificates machine true (λ ip. "") "kubeconfig" "/tmp/mk" local local fresh

eight_keys : first.1.drawn ≡ 8
unfolding create_or_load_certificates join
eight_keys = refl

create_or_load_certificates-again_example :
    Post
      (Fails machine true (λ ip. "") "kubeconfig" "/tmp/mk" local local)
      (λ c w'.
        (paths_of c ≡ credentials_in "kubeconfig" "/tmp/mk")
        × Post Never
            (λ c' w''.
              (c' ≡ loaded_in "kubeconfig" "/tmp/mk") × (paths_of c' ≡ paths_of c) × Kept w' w'')
            (create_or_load_certificates machine false
              (λ ip. "")
              "kubeconfig"
              "/tmp/mk"
              local
              local
              w'))
      (create_or_load_certificates machine true (λ ip. "") "kubeconfig" "/tmp/mk" local local fresh)
create_or_load_certificates-again_example =
    create_or_load_certificates-again machine machine true false (λ ip. "") (λ ip. "") "kubeconfig"
      "/tmp/mk" local local local local fresh (λ files path e. refl)

abbrev two_names : List String
two_names = "10.0.0.1" ∷ "localhost" ∷ []

two_names_apart :
    (addresses (λ text. none) two_names
      ≡ (0 ∷ 0 ∷ 0 ∷ 0 ∷ 0 ∷ 0 ∷ 0 ∷ 0 ∷ 0 ∷ 0 ∷ 255 ∷ 255 ∷ 10 ∷ 0 ∷ 0 ∷ 1 ∷ []) ∷ [])
    × (host_names (λ text. none) two_names ≡ "localhost" ∷ [])
unfolding addresses host_names parse_ip
two_names_apart = (refl, refl)

cert_template_lem_example :
    cert_template (λ text. none) (new_manager "/tmp") (named "Server") 2 true false two_names
    ≡ record {
      serial_number = 2;
      subject = named "Server";
      validity_hours = (new_manager "/tmp").validity_hours;
      key_usage = record { cert_sign = false; key_encipherment = true; digital_signature = true };
      is_ca = false;
      ext_key_usage = server_auth ∷ [];
      ip_addresses = addresses (λ text. none) two_names;
      dns_names = host_names (λ text. none) two_names;
    }
cert_template_lem_example =
    cert_template_lem (λ text. none) (new_manager "/tmp") (named "Server") 2 true false two_names

cert_template-ip_string_example :
    let bound =
      cert_template
        (λ text. none)
        (new_manager "/tmp")
        (named "Server")
        2
        true
        false
        (ip_string (λ ip. "") local ∷ two_names) in
    let other =
      cert_template (λ text. none) (new_manager "/tmp") (named "Server") 2 true false two_names in
    (bound.ip_addresses ≡ ipv4 (127 ∷ 0 ∷ 0 ∷ 1 ∷ []) ∷ other.ip_addresses)
    × (bound.dns_names ≡ other.dns_names)
cert_template-ip_string_example =
    cert_template-ip_string (λ ip. "") (λ text. none) (new_manager "/tmp") (named "Server") 2 false
      two_names local 127 0 0 1 local_octets (omega arith) (omega arith) (omega arith) (omega arith)
