-- ===== src/Supervisor/Examples.antt =====
-- The theorems on the supervisor at concrete inputs.
use text.Mathlib.Text.{◌==◌}
use microkube.Base.{
  ℕ, none, some, true, false, List, [], ◌∷◌, map, concat, ◌≡◌, ◌↔◌, refl, String, leb, replicate,
  All, if◌then◌else◌,
}
use microkube.Directories.{done}
use microkube.Supervisor.Addons.{Addon, kube_dash, dns, Deployment, start_services}
use microkube.Supervisor.Addons.Laws.{monitored, start_services_lem}
use microkube.Supervisor.Watch.{Event, exited, health, too_many_failures, check_service}
use microkube.Supervisor.Watch.Laws.{HasTenFailures, check_service_iff}
use microkube.Supervisor.Startup.{
  Attempt, Service, cluster_services, launch, log_fatal, stop, started, start_service,
  await_healthy, started_acts, Preparation, start,
}
use microkube.Supervisor.Startup.Laws.{
  Starts, name_of, IsPrepared, comes_up, start_unhealthy, start_lem,
}

abbrev failing : List Event
failing = health false ∷ health true ∷ exited true ∷ replicate 10 (health false)

check_service_iff_example : (check_service 0 failing ≡ too_many_failures) ↔ HasTenFailures failing
check_service_iff_example =
    check_service_iff failing
      (tt, (tt, (refl, (tt, (tt, (tt, (tt, (tt, (tt, (tt, (tt, (tt, (tt, tt)))))))))))))

-- A service that is healthy from the fourth check on.
abbrev slow : Attempt
slow = record {
  create_error = none;
  start_error = none;
  healthy = leb 3;
  has_kubeconfig = false;
  kubeconfig_error = none;
}

abbrev never : Attempt
never = record {
  create_error = none;
  start_error = none;
  healthy = λ n. false;
  has_kubeconfig = false;
  kubeconfig_error = none;
}

abbrev etcd : Service
etcd = record { name = "etcd"; makes_kubeconfig = false; defers_stop = false }

abbrev api : Service
api = record { name = "kube-apiserver"; makes_kubeconfig = true; defers_stop = false }

abbrev prepared : Preparation
prepared = record {
  directories = done;
  credentials_error = none;
  binaries = some ("/usr/bin/etcd", "/usr/bin/hyperkube");
}

prepared-IsPrepared : (attempt : String → Attempt) → IsPrepared prepared attempt
prepared-IsPrepared attempt = record {
  directories_done = refl;
  credentials_made = refl;
  paths = ("/usr/bin/etcd", "/usr/bin/hyperkube");
  binaries_found = refl;
}

-- Only etcd becomes healthy.
abbrev only_etcd : String → Attempt
only_etcd name = if name == "etcd" then slow else never

start_unhealthy_example : start prepared only_etcd (etcd ∷ api ∷ []) ≡ (
  launch "etcd" ∷ launch "kube-apiserver" ∷ log_fatal "kube-apiserver" ∷ stop "etcd" ∷ [],
  none,
)
unfolding start_service await_healthy started_acts
start_unhealthy_example =
    start_unhealthy prepared only_etcd (etcd ∷ []) api [] (prepared-IsPrepared only_etcd)
      (((4, refl), λ _ _. refl), tt) refl

abbrev all_slow : String → Attempt
all_slow name = slow

slow-starts : start_service slow ≡ started 4
unfolding start_service await_healthy
slow-starts = refl

all_slow-Starts : All (Starts all_slow) cluster_services
all_slow-Starts = (up, (up, (up, (up, (up, (up, tt))))))
  where
    up :
        {A B : Type 0}
        → ((n : ℕ) × (start_service slow ≡ started n)) × (A → B → slow.kubeconfig_error ≡ none)
    up = ((4, slow-starts), λ _ _. refl)

start_lem_example :
    start prepared all_slow cluster_services
    ≡ (concat (map comes_up cluster_services), some (map (name_of all_slow) cluster_services))
start_lem_example =
    start_lem prepared all_slow cluster_services (prepared-IsPrepared all_slow) all_slow-Starts

-- The dashboard cannot be applied.
abbrev no_dash : Addon → Deployment
no_dash kube_dash = record {
  is_nil = false;
  init_error = none;
  apply_error = some "exit 1";
  health_error = none;
}
no_dash dns = record { is_nil = false; init_error = none; apply_error = none; health_error = none }

start_services_lem_example :
    ((start_services no_dash (kube_dash ∷ dns ∷ [])).1 ≡ true)
    × (monitored (start_services no_dash (kube_dash ∷ dns ∷ [])).0 ≡ dns ∷ [])
start_services_lem_example = start_services_lem no_dash (kube_dash ∷ dns ∷ []) (refl, (refl, tt))

-- The template of the DNS manifest cannot be parsed.
abbrev no_dns : Addon → Deployment
no_dns kube_dash = record {
  is_nil = false;
  init_error = none;
  apply_error = none;
  health_error = none;
}
no_dns dns = record {
  is_nil = true;
  init_error = some "template";
  apply_error = none;
  health_error = none;
}
