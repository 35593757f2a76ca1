-- ===== src/Supervisor/Addons.antt =====
-- startServices and printIndented of cmd/microkubed/cmd/Microkubed.go: the cluster addons, and the
-- framed lines of the info message.
pub mod Laws
use microkube.Base.{
  ◌-◌, ◌/◌, Bool, true, false, Option, none, some, List, [], ◌∷◌, ◌++◌, length, replicate, ltb,
  if◌then◌else◌,
}
use microkube.Base.Bytes.{Bytes}
use microkube.Base.Errors.{GoError}

-- The manifests that startServices knows.
pub data Addon : Type 0 where
  kube_dash : Addon
  dns : Addon

-- What its three steps answer for a manifest: the constructor with its two results, the first of
-- which may be a nil interface, ApplyToCluster, and InitHealthCheck.
pub record Deployment : Type 0 where
  pub is_nil : Bool
  pub init_error : GoError
  pub apply_error : GoError
  pub health_error : GoError

-- What is done for a manifest: it is applied, its health check is prepared, its goroutine starts.
pub data Deed : Type 0 where
  apply_to_cluster : Addon → Deed
  init_health_check : Addon → Deed
  monitor : Addon → Deed

unfoldable pub enabled_services : Bool → Bool → List Addon
enabled_services enable_kube_dash enable_dns =
    (if enable_kube_dash then kube_dash ∷ [] else []) ++ (if enable_dns then dns ∷ [] else [])

-- One round of the loop; each error ends it by `continue`. `manifest.Name()` panics on nil, which
-- `none` says.
unfoldable pub deploy : Addon → Deployment → Option (List Deed)
deploy service d = elim d.is_nil [
  | true ↦ none
  | false ↦ elim d.init_error [
    | some e ↦ some []
    | none ↦ elim d.apply_error [
      | some e ↦ some (apply_to_cluster service ∷ [])
      | none ↦ elim d.health_error [
        | some e ↦ some (apply_to_cluster service ∷ init_health_check service ∷ [])
        | none ↦ some (apply_to_cluster service ∷ init_health_check service ∷ monitor service ∷ [])
      ]
    ]
  ]
]

-- The loop of startServices: what is done, and whether it returns.
unfoldable pub start_services : (Addon → Deployment) → List Addon → List Deed × Bool
unfolding deploy
start_services answers [] = ([], true)
start_services answers (service ∷ services) =
    let (deeds, returns) = start_services answers services in
    elim (deploy service (answers service)) [
      | none ↦ ([], false)
      | some done ↦ (done ++ deeds, returns)
    ]

-- printIndented; `none` is the panic of strings.Repeat on a negative count. Go's division goes
-- towards 0, so the count is negative from 120 bytes on.
unfoldable pub print_indented : Bytes → Option Bytes
print_indented [] = some (replicate 120 b'#')
print_indented (c ∷ message) =
    let pad = replicate ((118 - length (c ∷ message)) / 2) b'#' in
    if ltb (length (c ∷ message)) 120
    then some (pad ++ ((b' ' ∷ (c ∷ message)) ++ (b' ' ∷ pad)))
    else none
