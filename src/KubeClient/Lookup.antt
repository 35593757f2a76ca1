-- ===== src/KubeClient/Lookup.antt =====
-- FindService and FindDashboardAdminSecret of pkg/kube/KubeClient.go.
pub mod Laws
use text.Mathlib.Text.{◌==◌, starts_with}
use microkube.Base.{ℕ, String, Option, none, some, List, [], ◌∷◌, if◌then◌else◌}
use microkube.KubeClient.Node.{KubeClient, Listing, find_node}

pub record ServicePort : Type 0 where
  pub protocol : String
  pub port : ℕ

pub record Service : Type 0 where
  pub cluster_ip : String
  pub ports : List ServicePort

-- A secret, with the entry `token` of its data.
pub record Secret : Type 0 where
  pub name : String
  pub token : Option String

-- The loop of FindService.
unfoldable pub tcp_port : List ServicePort → ℕ
tcp_port [] = 0
tcp_port (port ∷ ports) = if port.protocol == "TCP" then port.port else tcp_port ports

unfoldable pub service_address : Option Service → String × ℕ
unfolding tcp_port
service_address none = ("", 0)
service_address (some service) = (service.cluster_ip, tcp_port service.ports)

-- FindService, where `listing` and `service` are what the API server answers, and a service that
-- cannot be found is `none`. The result `none` is the Fatal of findNode.
unfoldable pub find_service :
    KubeClient → Listing → Option Service → Option (KubeClient × String × ℕ)
unfolding find_node service_address
find_service k listing service = elim (find_node k listing) [
  | none ↦ none
  | some k' ↦ some (
      let (ip, port) = if k'.node == "" then ("", 0) else service_address service in (k', ip, port))
]

-- The loop of FindDashboardAdminSecret.
unfoldable pub admin_token : List Secret → String
admin_token [] = ""
admin_token (sec ∷ secs) =
    let rest = admin_token secs in
    if starts_with sec.name "admin-user-token-"
    then elim sec.token [ some token ↦ token | none ↦ rest ]
    else rest

-- FindDashboardAdminSecret, where `secrets` is what the API server answers.
unfoldable pub find_dashboard_admin_secret :
    KubeClient → Listing → List Secret → Option (KubeClient × String)
unfolding find_node admin_token
find_dashboard_admin_secret k listing secrets = elim (find_node k listing) [
  | none ↦ none
  | some k' ↦ some (k', if k'.node == "" then "" else admin_token secrets)
]
