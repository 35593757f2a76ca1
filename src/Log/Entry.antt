-- ===== src/Log/Entry.antt =====
-- What the line handlers of internal/log write to their logrus logger.
use microkube.Base.{String, List, [], ◌∷◌, ◌++◌}
use microkube.Base.Bytes.{Bytes}

pub data Level : Type 0 where
  debug info warn error : Level

-- One call such as `WithFields(fields).Warn(message)`.
pub record Entry : Type 0 where
  pub level : Level
  pub fields : List (String × Bytes)
  pub message : Bytes

-- All that a logger was asked to write, oldest first.
abbrev pub Output : Type 0
Output = List Entry

abbrev pub write : Output → Level → List (String × Bytes) → Bytes → Output
write out level fields message =
    out ++ (record { level = level; fields = fields; message = message } ∷ [])
