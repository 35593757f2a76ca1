-- ===== src/Handlers/Retry.antt =====
-- HandleExit of pkg/handlers/BaseServiceHandler.go, and what NewHandler sets for it.
pub mod Laws
use microkube.Base.{zero, suc, Bool, true, false, List, [], ◌∷◌, if◌then◌else◌}
use microkube.Base.Int.{ℤ, pos, negsuc}

-- `n--`
abbrev pub pred_ℤ : ℤ → ℤ
pred_ℤ (pos zero) = negsuc 0
pred_ℤ (pos (suc n)) = pos n
pred_ℤ (negsuc n) = negsuc (suc n)

-- `n > 0`
abbrev pub is_pos : ℤ → Bool
is_pos (pos zero) = false
is_pos (pos (suc n)) = true
is_pos (negsuc n) = false

-- What the handler calls: its start handler, or its exit handler.
pub data Called : Type 0 where
  start : Called
  exit : Bool → Called

-- `retriesLeft` of NewHandler.
abbrev pub initial_retries : ℤ
initial_retries = pos 1

unfoldable pub handle_exit : ℤ → Bool → ℤ × Called
handle_exit retries_left success =
    let left = pred_ℤ retries_left in if is_pos left then (left, start) else (left, exit success)

-- The process exits so many times; each flag is the `success` of one exit.
unfoldable pub handle_exits : ℤ → List Bool → List Called
unfolding handle_exit
handle_exits retries_left [] = []
handle_exits retries_left (success ∷ others) =
    let r = handle_exit retries_left success in r.1 ∷ handle_exits r.0 others
