-- ===== src/Handlers/Examples.antt =====
-- The theorems on pkg/handlers at concrete inputs.
use Prim.Native.Nat.{min}
use microkube.Base.{
  ℕ, zero, suc, ◌+◌, ◌<◌, ◌≤◌, none, some, true, false, [], ◌∷◌, ◌++◌, ◌≡◌, refl, arith, length,
  replicate, drop, map,
}
use microkube.Base.Int.{pos}
use microkube.Base.Errors.{GoError}
use microkube.Base.Samples.{sample_pkg}
use microkube.Handlers.Env.{ExecutionEnvironment}
use microkube.Handlers.Health.{Answer, response, dial_error, TlsFiles, Probe, health_check_fun}
use microkube.Handlers.Health.Laws.{settles, IsBounded, health_check_fun_ends}
use microkube.Handlers.Retry.{start, exit, initial_retries, handle_exits}
use microkube.Handlers.Retry.Laws.{handle_exits_lem}
use microkube.Handlers.Lifecycle.{
  Phase, Worker, probing, waiting, sent, Lifecycle, new_handler, enable_health_checks, after_send,
  enable, stop_running, send, go_on, Reach, here, next,
}
use microkube.Handlers.Lifecycle.Laws.{IsSound, reachable-IsSound, stopped_for_good}

abbrev etcd_env : ExecutionEnvironment
etcd_env = record {
  binary = "etcd";
  sudo_method = "/usr/bin/pkexec";
  workdir = "/tmp";
  listen_address = [];
  service_address = [];
  dns_address = [];
  output_handler = 1;
  exit_handler = 2;
  etcd_client_port = 0;
  etcd_peer_port = 0;
  kube_api_port = 0;
  kube_node_api_port = 0;
  kube_controller_manager_port = 0;
  kubelet_health_port = 0;
  kube_proxy_health_port = 0;
  kube_proxy_metrics_port = 0;
  kube_scheduler_health_port = 0;
  kube_scheduler_metrics_port = 0;
}

abbrev base_env : ExecutionEnvironment
base_env = record etcd_env { binary = ""; etcd_client_port = 7000 }

abbrev accept_one : ℕ → GoError
accept_one body = none

-- A service that answers the third request.
abbrev slow_service : ℕ → Answer ℕ
slow_service zero = dial_error "connection refused"
slow_service (suc zero) = dial_error "connection refused"
slow_service (suc (suc n)) = response 200

slow_at_first : (k : ℕ) → k < 2 → settles sample_pkg accept_one slow_service (slow_service k) ≡ none
slow_at_first zero h = refl
slow_at_first (suc zero) h = refl
slow_at_first (suc (suc k)) h = absurd (omega arith)

abbrev bad_ca : TlsFiles
bad_ca = record { read_ca = none; load_pair = none; append_ok = false }

health_check_fun_ends_example :
    (p : Probe) × (health_check_fun sample_pkg accept_one slow_service 8 (some bad_ca) ≡ some p)
    × IsBounded sample_pkg accept_one slow_service p
health_check_fun_ends_example =
    health_check_fun_ends sample_pkg accept_one slow_service (some bad_ca)

handle_exits_lem_example :
    (handle_exits (pos 3) (false ∷ true ∷ false ∷ [])
      ≡ replicate (min 2 3) start ++ map exit (drop 2 (false ∷ true ∷ false ∷ [])))
    × (handle_exits initial_retries (false ∷ true ∷ false ∷ [])
        ≡ map exit (false ∷ true ∷ false ∷ []))
handle_exits_lem_example = handle_exits_lem 2 (false ∷ true ∷ false ∷ [])

-- A health check goroutine that runs for good.
abbrev worker_at : Phase → Worker
worker_at phase = record { phase = phase; forever = true }

-- The handler with such a goroutine in a phase.
abbrev checked : Phase → ℕ → Lifecycle
checked phase reports = record {
  running = true;
  signals = 0;
  workers = worker_at phase ∷ [];
  stopped = 0;
  reports = reports;
}

-- The handler after its first report, and after a Stop then.
abbrev stopping : Lifecycle
stopping = record (checked waiting 1) { stopped = 1; signals = 1 }

stopping-reached : Reach new_handler stopping
unfolding new_handler enable_health_checks after_send
stopping-reached =
    next
      (next
        (next (next here (enable new_handler true))
          (send (checked probing 0) (worker_at probing) [] [] refl refl))
        (go_on (checked sent 1) (worker_at sent) [] [] refl refl))
      (stop_running (checked waiting 1) refl (omega arith))

reachable-IsSound_example : IsSound stopping
reachable-IsSound_example = reachable-IsSound stopping-reached

stopped_for_good_example :
    (length (record stopping { signals = 0; workers = [] }).workers ≡ 0)
    × ((record stopping { signals = 0; workers = [] }).reports ≡ 1)
    × ((record stopping { signals = 0; workers = [] }).stopped ≤ 1 + 2)
stopped_for_good_example =
    stopped_for_good (worker_at waiting) [] [] 0 stopping-reached refl refl refl here
