-- ===== src/Handlers/Lifecycle.antt =====
-- EnableHealthChecks and Stop of pkg/handlers/BaseServiceHandler.go, with the goroutines that they
-- start. The steps of the caller and of the goroutines interleave in any order; EnableHealthChecks
-- and Stop are called by one goroutine at a time.
pub mod Laws
use microkube.Base.{ℕ, suc, ◌+◌, ◌<◌, Bool, true, false, List, [], ◌∷◌, ◌++◌, ◌≡◌}

-- Where a health check goroutine is: before the send of its result, behind it, or in the select.
pub data Phase : Type 0 where
  probing sent waiting : Phase

-- A health check goroutine; `forever` is the argument of EnableHealthChecks.
pub record Worker : Type 0 where
  pub phase : Phase
  pub forever : Bool

-- `running` says that `healthCheckRunning` is 1, and `signals` counts what is buffered in
-- `healthCheck`; `stopped` counts the calls of the stop handler, `reports` the messages sent.
pub record Lifecycle : Type 0 where
  pub running : Bool
  pub signals : ℕ
  pub workers : List Worker
  pub stopped : ℕ
  pub reports : ℕ

-- NewHandler
unfoldable pub new_handler : Lifecycle
new_handler = record { running = false; signals = 0; workers = []; stopped = 0; reports = 0 }

-- `make(chan bool, 2)`
abbrev pub capacity : ℕ
capacity = 2

-- EnableHealthChecks(messages, forever)
unfoldable pub enable_health_checks : Lifecycle → Bool → Lifecycle
enable_health_checks s forever = elim s.running [
  | true ↦ s
  | false ↦ record s {
    running = true;
    workers = (record { phase = probing; forever = forever }) ∷ s.workers;
  }
]

-- What the goroutine does after its send: it goes to the select, or it resets the flag and ends.
unfoldable pub after_send : Lifecycle → Worker → List Worker → List Worker → Lifecycle
after_send s w before after = elim w.forever [
  | true ↦ record s { workers = before ++ (record w { phase = waiting }) ∷ after }
  | false ↦ record s { running = false; workers = before ++ after }
]

-- One step of the caller or of a goroutine.
pub data Step : Lifecycle → Lifecycle → Type 0 where
  enable : (s : Lifecycle) (forever : Bool) → Step s (enable_health_checks s forever)
  -- Stop with no health check goroutine to tell.
  stop_idle : (s : Lifecycle) → s.running ≡ false → Step s (record s { stopped = s.stopped + 1 })
  -- Stop, where the channel has room for `true`; without room the call blocks.
  stop_running :
      (s : Lifecycle)
      → s.running ≡ true
      → s.signals < capacity
      → Step s (record s { stopped = s.stopped + 1; signals = s.signals + 1 })
  -- A goroutine sends its message.
  send :
      (s : Lifecycle) (w : Worker) (before after : List Worker)
      → s.workers ≡ before ++ w ∷ after
      → w.phase ≡ probing
      → Step s (record s {
        reports = s.reports + 1;
        workers = before ++ (record w { phase = sent }) ∷ after;
      })
  go_on :
      (s : Lifecycle) (w : Worker) (before after : List Worker)
      → s.workers ≡ before ++ w ∷ after
      → w.phase ≡ sent
      → Step s (after_send s w before after)
  -- The select, on a buffered signal: the goroutine returns.
  leave :
      (s : Lifecycle) (w : Worker) (before after : List Worker) (n : ℕ)
      → s.workers ≡ before ++ w ∷ after
      → w.phase ≡ waiting
      → s.signals ≡ suc n
      → Step s (record s { signals = n; workers = before ++ after })
  -- The select, on its timer.
  again :
      (s : Lifecycle) (w : Worker) (before after : List Worker)
      → s.workers ≡ before ++ w ∷ after
      → w.phase ≡ waiting
      → Step s (record s { workers = before ++ (record w { phase = probing }) ∷ after })

pub data Reach (s : Lifecycle) : Lifecycle → Type 0 where
  here : Reach s s
  next : {t u : Lifecycle} → Reach s t → Step t u → Reach s u
