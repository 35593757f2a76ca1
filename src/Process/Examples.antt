-- ===== src/Process/Examples.antt =====
-- A process that is interrupted and ends with an error.
use microkube.Base.{ℕ, ℕ, true, false, none, some, [], ◌∷◌, ◌≡◌, refl}
use microkube.Process.{
  CmdHandler, new_cmd_handler, start, stop, panicked, read_pipe, exit_error, Running, launched,
}

abbrev handler : CmdHandler
handler = new_cmd_handler "etcd" [] true true true

-- After a Start that failed there is a command and no process, so that Stop panics.
failed_start :
    stop (start {E = ℕ} (record { stdout = none; stderr = none; launch = some 2 }) handler).1
    ≡ panicked
unfolding start stop
failed_start = refl

-- Bytes that come with an error are still handed on, and those behind it are not.
read_until_error :
    read_pipe ((1 ∷ [], false) ∷ ([], false) ∷ (2 ∷ [], true) ∷ (3 ∷ [], false) ∷ [])
    ≡ (1 ∷ []) ∷ (2 ∷ []) ∷ []
unfolding read_pipe
read_until_error = refl

abbrev signalled : Running
signalled = record launched { signals = 1 }

abbrev interrupted : Running
interrupted = record launched { watching = false; kills = 1 }

abbrev ended : Running
ended = record interrupted { end = some exit_error }
