-- ===== src/Process/Laws.antt =====
-- pkg/helpers/CmdHelper.go: in all orders in which the goroutines run, the exit callback is called
-- once.
use microkube.Base.{ℕ, suc, ◌≤◌, Bool, Option, some, List, [], ◌≡◌}
use microkube.Process.{
  End, ExitCall, Waiter, in_wait, reporting, finished, Running, calls_for, Step, waits, reports,
}

-- What the waiting goroutine has done, by how far it is.
abbrev pub Progress : Bool → Waiter → Option End → ℕ → List ExitCall → Type 0
Progress has_exit in_wait end states exits = (exits ≡ []) × (states ≡ 0)
Progress has_exit reporting end states exits =
    (exits ≡ []) × (states ≤ 1) × ((e : End) × (end ≡ some e))
Progress has_exit finished end states exits =
    (states ≤ 1) × ((e : End) × (end ≡ some e) × (exits ≡ calls_for has_exit e))

-- The two steps of the waiting goroutine.
abbrev pub IsWaiterStep : {has_exit : Bool} {s t : Running} → Step has_exit s t → Type 0
IsWaiterStep (waits s e w d room) = Unit
IsWaiterStep (reports s e w d) = Unit
IsWaiterStep _ = ⊥

-- So many steps, all of the waiting goroutine.
pub data WaiterSteps (has_exit : Bool) (s : Running) : ℕ → Running → Type 0 where
  no_step : WaiterSteps has_exit s 0 s
  one_more :
      {n : ℕ} {t u : Running} (step : Step has_exit t u)
      → WaiterSteps has_exit s n t
      → IsWaiterStep step
      → WaiterSteps has_exit s (suc n) u
