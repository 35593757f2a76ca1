-- ===== src/Services/Shared.antt =====
-- What the services of pkg/handlers share: the credentials of pkg/pki/MicrokubeCredentials.go, the
-- arguments of NewCmdHandler and NewHandler, and addresses as text.
pub mod Printed
use microkube.Base.{String, Option, none, some, List, [], ◌∷◌}
use microkube.Base.Bytes.{Bytes}
use microkube.Base.Texts.{◌++◌, itoa}
use microkube.Network.Ip.{to4}

-- The parts of an RSACertificate that are kept on disk.
pub record RsaCertificate : Type 0 where
  pub cert_path : String
  pub key_path : String

pub record MicrokubeCredentials : Type 0 where
  pub etcd_ca : RsaCertificate
  pub etcd_client : RsaCertificate
  pub etcd_server : RsaCertificate
  pub kube_ca : RsaCertificate
  pub kube_client : RsaCertificate
  pub kube_server : RsaCertificate
  pub kube_cluster_ca : RsaCertificate
  pub kube_svc_sign_cert : RsaCertificate
  pub kubeconfig : String

-- NewCmdHandler(binary, args, …)
pub record Command : Type 0 where
  pub binary : String
  pub args : List String

-- What NewHandler is told: where to send health probes, and the CA and client certificate.
pub record HealthCheck : Type 0 where
  pub endpoint : String
  pub tls : Option (RsaCertificate × RsaCertificate)

dotted : Bytes → String
dotted [] = ""
dotted (a ∷ []) = itoa a
dotted (a ∷ b ∷ rest) = itoa a ++ "." ++ dotted (b ∷ rest)

-- IP.String(); `ipv6_text` stands for its form of an address that is not IPv4.
unfoldable pub ip_string : (Bytes → String) → Bytes → String
unfolding dotted to4
ip_string ipv6_text address = elim (to4 address) [
  | some octets ↦ dotted octets
  | none ↦ ipv6_text address
]

-- The arguments hold the flag with that value behind it.
pub data HasFlag (flag value : String) : List String → Type 0 where
  here : {rest : List String} → HasFlag flag value (flag ∷ value ∷ rest)
  there :
      {arg : String} {rest : List String}
      → HasFlag flag value rest
      → HasFlag flag value (arg ∷ rest)
