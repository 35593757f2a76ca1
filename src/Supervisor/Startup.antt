-- ===== src/Supervisor/Startup.antt =====
-- start and startService of cmd/microkubed/cmd/Microkubed.go, with the exit handler that Run
-- registers: the services come up one after the other, and a failure ends the process.
pub mod Laws
use microkube.Base.{
  ℕ, zero, suc, ◌+◌, String, Bool, true, false, Option, none, some, List, [], ◌∷◌, ◌++◌, map,
  if◌then◌else◌,
}
use microkube.Base.Errors.{GoError}
use microkube.Directories.{Done, done, fatal}

-- What starting one service meets: the errors of its constructor and of Start, whether the n-th
-- one-shot health check is healthy, whether there is a kubeconfig already, and the error of
-- CreateClientKubeconfig; the last two are asked of one service only.
pub record Attempt : Type 0 where
  pub create_error : GoError
  pub start_error : GoError
  pub healthy : ℕ → Bool
  pub has_kubeconfig : Bool
  pub kubeconfig_error : GoError

-- The last three end in a Fatal; `started` holds how many health checks were made.
pub data Startup : Type 0 where
  started : ℕ → Startup
  not_created : Startup
  not_started : Startup
  not_healthy : Startup

-- The loop of startService; the first argument is 8 - retries. Each round sleeps for a second.
unfoldable pub await_healthy : (ℕ → Bool) → ℕ → ℕ → Startup
await_healthy healthy zero retries = not_healthy
await_healthy healthy (suc left) retries =
    let rest = await_healthy healthy left (retries + 1) in
    if healthy retries then started (retries + 1) else rest

unfoldable pub start_service : Attempt → Startup
unfolding await_healthy
start_service attempt = elim attempt.create_error [
  | some e ↦ not_created
  | none ↦ elim attempt.start_error [
    | some e ↦ not_started
    | none ↦ await_healthy attempt.healthy 8 0
  ]
]

-- A start function: the service's name, whether the function makes the kubeconfig when the service
-- is up, and whether it defers a Stop of the handler.
pub record Service : Type 0 where
  pub name : String
  pub makes_kubeconfig : Bool
  pub defers_stop : Bool

-- The order of start, with the kubeconfig of startKubeAPIServer and the deferred call of
-- startKubeProxy.
abbrev pub cluster_services : List Service
cluster_services =
    record { name = "etcd"; makes_kubeconfig = false; defers_stop = false }
    ∷ record { name = "kube-apiserver"; makes_kubeconfig = true; defers_stop = false }
    ∷ record { name = "kube-controller-manager"; makes_kubeconfig = false; defers_stop = false }
    ∷ record { name = "kube-scheduler"; makes_kubeconfig = false; defers_stop = false }
    ∷ record { name = "kubelet"; makes_kubeconfig = false; defers_stop = false }
    ∷ record { name = "kube-proxy"; makes_kubeconfig = false; defers_stop = true }
    ∷ []

-- What becomes visible: a process is launched, a handler is stopped, Fatal is called.
pub data Act : Type 0 where
  launch : String → Act
  stop : String → Act
  log_fatal : String → Act

-- The exit handler of Run: during startup it stops all handlers known so far.
unfoldable pub exit_handler : Bool → List String → List Act
exit_handler graceful service_handlers = if graceful then [] else map stop service_handlers

-- The body of a start function that succeeds, as it is seen from outside.
unfoldable pub started_acts : Service → List Act
started_acts service =
    launch service.name ∷ (if service.defers_stop then stop service.name ∷ [] else [])

-- The kubeconfig is made where a start function does so and no such file is there.
abbrev pub kubeconfig_error_of : Attempt → Service → GoError
kubeconfig_error_of attempt service =
    if service.makes_kubeconfig
    then if attempt.has_kubeconfig then none else attempt.kubeconfig_error
    else none

-- The start functions one after the other: the acts, and the handlers in the order of
-- m.serviceHandlers if they all return.
unfoldable pub start_all :
    (String → Attempt) → List String → List Service → List Act × Option (List String)
unfolding start_service exit_handler started_acts
start_all attempt handlers [] = ([], some handlers)
start_all attempt handlers (service ∷ services) =
    let (acts, result) = start_all attempt (handlers ++ service.name ∷ []) services in
    elim (start_service (attempt service.name)) [
      | started n ↦ elim (kubeconfig_error_of (attempt service.name) service) [
        | none ↦ (started_acts service ++ acts, result)
        | some e ↦ (
          launch service.name
              ∷ log_fatal service.name
              ∷ exit_handler false (handlers ++ service.name ∷ []),
          none,
        )
      ]
      | not_created ↦ (log_fatal service.name ∷ exit_handler false handlers, none)
      | not_started ↦ (log_fatal service.name ∷ exit_handler false handlers, none)
      | not_healthy ↦
          (launch service.name ∷ log_fatal service.name ∷ exit_handler false handlers, none)
    ]

-- How the calls in front of the start functions end: createDirectories, CreateOrLoadCertificates
-- and findBinaries, where `none` is its Fatal.
pub record Preparation : Type 0 where
  pub directories : Done
  pub credentials_error : GoError
  pub binaries : Option (String × String)

-- start; until the first service is there, the exit handler has nothing to stop.
unfoldable pub start :
    Preparation → (String → Attempt) → List Service → List Act × Option (List String)
unfolding start_all exit_handler
start preparation attempt services =
    let acts = start_all attempt [] services in
    elim preparation.directories [
      | fatal ↦ (log_fatal "directories" ∷ exit_handler false [], none)
      | done ↦ elim preparation.credentials_error [
        | some e ↦ (log_fatal "credentials" ∷ exit_handler false [], none)
        | none ↦ elim preparation.binaries [
          | none ↦ (log_fatal "binaries" ∷ exit_handler false [], none)
          | some found ↦ acts
        ]
      ]
    ]
