-- ===== src/Supervisor/Watch.antt =====
-- checkService of cmd/microkubed/cmd/Microkubed.go: the goroutine that watches one service.
pub mod Laws
use microkube.Base.{ℕ, ◌+◌, Bool, true, false, List, [], ◌∷◌, ◌==◌, if◌then◌else◌}

-- What the goroutine receives: the service has exited, with the value of gracefulTerminationMode
-- at that moment, or a health message.
pub data Event : Type 0 where
  exited : Bool → Event
  health : Bool → Event

-- The goroutine waits, with its count of unhealthy messages, or has ended the process by Fatal.
pub data Watch : Type 0 where
  watching : ℕ → Watch
  service_exited : Watch
  too_many_failures : Watch

unfoldable pub check_service : ℕ → List Event → Watch
check_service unhealthy_count [] = watching unhealthy_count
check_service unhealthy_count (exited graceful ∷ events) =
    let rest = check_service unhealthy_count events in if graceful then rest else service_exited
check_service unhealthy_count (health true ∷ events) = check_service 0 events
check_service unhealthy_count (health false ∷ events) =
    let rest = check_service (unhealthy_count + 1) events in
    if unhealthy_count + 1 == 10 then too_many_failures else rest
