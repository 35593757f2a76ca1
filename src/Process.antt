-- ===== src/Process.antt =====
-- pkg/helpers/CmdHelper.go: a child process with its goroutines. What the operating system does
-- with the process is a step of its own.
pub mod Laws
mod Examples
use microkube.Base.{
  ℕ, suc, ◌+◌, ◌<◌, String, Bool, true, false, Option, none, some, List, [], ◌∷◌, ◌++◌, ◌≡◌,
  if◌then◌else◌,
}
use microkube.Base.Bytes.{Bytes}

-- The fields of CmdHandler, with the three callbacks by whether they are there; `prepared` says
-- that `cmd` is set, and `process` that it has a process.
pub record CmdHandler : Type 0 where
  pub binary : String
  pub args : List String
  pub has_exit : Bool
  pub has_stdout : Bool
  pub has_stderr : Bool
  pub prepared : Bool
  pub process : Bool

-- NewCmdHandler
abbrev pub new_cmd_handler : String → List String → Bool → Bool → Bool → CmdHandler
new_cmd_handler binary args has_exit has_stdout has_stderr = record {
  binary = binary;
  args = args;
  has_exit = has_exit;
  has_stdout = has_stdout;
  has_stderr = has_stderr;
  prepared = false;
  process = false;
}

-- The errors of Start, by the message that they are wrapped with.
pub data StartError (E : Type 0) : Type 0 where
  stdout_pipe stderr_pipe process_start : E → StartError E

-- What the operating system answers to Start, in the order of the calls.
pub record Answers (E : Type 0) : Type 0 where
  pub stdout : Option E
  pub stderr : Option E
  pub launch : Option E

module _ {E : Type 0} where
  -- A pipe, if there is a callback for it.
  abbrev pub piped : Bool → (E → StartError E) → Option E → Option (StartError E)
  piped false wrap answer = none
  piped true wrap none = none
  piped true wrap (some e) = some (wrap e)

  -- Start up to its goroutines, which run where it returns no error.
  unfoldable pub start : Answers E → CmdHandler → Option (StartError E) × CmdHandler
  start answers handler =
      let prepared : CmdHandler = record handler { prepared = true; process = false } in
      elim (piped handler.has_stdout stdout_pipe answers.stdout) [
        | some e ↦ (some e, prepared)
        | none ↦ elim (piped handler.has_stderr stderr_pipe answers.stderr) [
          | some e ↦ (some e, prepared)
          | none ↦ elim answers.launch [
            | some e ↦ (some (process_start e), prepared)
            | none ↦ (none, record prepared { process = true })
          ]
        ]
      ]

-- What Stop does: nothing, a kill, or the panic of a nil process.
pub data Stopped : Type 0 where
  idle killed panicked : Stopped

unfoldable pub stop : CmdHandler → Stopped
stop handler = if handler.prepared then if handler.process then killed else panicked else idle

-- The loop of a reading goroutine over what pipe.Read gives: bytes and whether it was an error;
-- what the callback is called with.
unfoldable pub read_pipe : List (Bytes × Bool) → List Bytes
read_pipe [] = []
read_pipe (([], failed) ∷ reads) = let rest = read_pipe reads in if failed then [] else rest
read_pipe ((c ∷ bytes, failed) ∷ reads) =
    let rest = read_pipe reads in if failed then (c ∷ bytes) ∷ [] else (c ∷ bytes) ∷ rest

-- How a process ends, as cmd.Wait says it: nil, an ExitError, or another error.
pub data End : Type 0 where
  success exit_error other_error : End

-- A call of the exit callback: whether the process succeeded, and whether an error comes along.
pub record ExitCall : Type 0 where
  pub succeeded : Bool
  pub has_error : Bool

unfoldable pub exit_call : End → ExitCall
exit_call success = record { succeeded = true; has_error = false }
exit_call exit_error = record { succeeded = false; has_error = true }
exit_call other_error = record { succeeded = false; has_error = false }

-- The goroutine that waits for the process: in cmd.Wait, behind its send on statechan, and done.
pub data Waiter : Type 0 where
  in_wait reporting finished : Waiter

-- A process with its two goroutines and their channels, and what they have done.
pub record Running : Type 0 where
  pub end : Option End
  pub waiter : Waiter
  pub watching : Bool
  pub states : ℕ
  pub signals : ℕ
  pub kills : ℕ
  pub exits : List ExitCall

abbrev pub launched : Running
launched = record {
  end = none;
  waiter = in_wait;
  watching = true;
  states = 0;
  signals = 0;
  kills = 0;
  exits = [];
}

-- `make(chan os.Signal, 2)` and `make(chan bool, 2)`
abbrev pub capacity : ℕ
capacity = 2

abbrev pub calls_for : Bool → End → List ExitCall
calls_for has_exit end = if has_exit then exit_call end ∷ [] else []

pub data Step (has_exit : Bool) : Running → Running → Type 0 where
  -- The process ends.
  ends : (s : Running) (end : End) → s.end ≡ none → Step has_exit s (record s { end = some end })
  -- Stop kills the process.
  stops : (s : Running) → Step has_exit s (record s { kills = s.kills + 1 })
  -- A signal arrives where the channel has room for it; others are dropped.
  arrives :
      (s : Running) → s.signals < capacity → Step has_exit s (record s { signals = s.signals + 1 })
  -- The select, on a signal.
  interrupts :
      (s : Running) (n : ℕ)
      → s.watching ≡ true
      → s.signals ≡ suc n
      → Step has_exit s (record s { watching = false; signals = n; kills = s.kills + 1 })
  -- The select, on the exit notification.
  notices :
      (s : Running) (n : ℕ)
      → s.watching ≡ true
      → s.states ≡ suc n
      → Step has_exit s (record s { watching = false; states = n })
  -- cmd.Wait returns, and the notification is sent where the channel has room for it.
  waits :
      (s : Running) (end : End)
      → s.waiter ≡ in_wait
      → s.end ≡ some end
      → s.states < capacity
      → Step has_exit s (record s { waiter = reporting; states = s.states + 1 })
  -- The exit callback.
  reports :
      (s : Running) (end : End)
      → s.waiter ≡ reporting
      → s.end ≡ some end
      → Step has_exit s (record s { waiter = finished; exits = s.exits ++ calls_for has_exit end })

pub data Reach (has_exit : Bool) (s : Running) : Running → Type 0 where
  here : Reach has_exit s s
  next : {t u : Running} → Reach has_exit s t → Step has_exit t u → Reach has_exit s u
