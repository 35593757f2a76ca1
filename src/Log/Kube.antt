-- ===== src/Log/Kube.antt =====
-- internal/log/KubeLogParser.go. `extract` and `extract_restful` stand for KubeLogLine.Extract and
-- KubeLogLineRestful.Extract, which ldetool generates from logs.lde at build time; `none` is a line
-- that they do not accept.
pub mod Laws
use microkube.Base.{ℕ, Option, none, some, Bool, false, ◌&&◌, [], ◌∷◌, ◌==◌, if◌then◌else◌}
use microkube.Base.Bytes.{Bytes, codes, has_prefix, trim}
use microkube.Log.Entry.{Level, debug, info, warn, error, Output, write}
use microkube.Log.Stream.{Handled, returned, panicked}

-- The fields that the code generated from logs.lde fills.
pub record KubeLogLine : Type 0 where
  pub severity_id : Bytes
  pub time : Bytes
  pub unknown_attribute : Bytes
  pub location : Bytes
  pub message : Bytes

pub record KubeLogLineRestful : Type 0 where
  pub date : Bytes
  pub time : Bytes
  pub location : Bytes
  pub message : Bytes

-- `regexp.MustCompile("[ ]+").ReplaceAllString(s, " ")`; the flag says that the byte before is a
-- blank of the same run.
unfoldable pub collapse_from : Bool → Bytes → Bytes
collapse_from in_run [] = []
collapse_from in_run (c ∷ cs) =
    let rest = collapse_from (c == b' ') cs in if c == b' ' && in_run then rest else c ∷ rest

unfoldable pub collapse : Bytes → Bytes
unfolding collapse_from
collapse s = collapse_from false s

-- The switch on `line.SeverityID[0]`; `none` is its default case.
unfoldable pub level_of : ℕ → Option Level
level_of c =
    if c == b'I'
    then some info
    else if c == b'E'
    then some error
    else if c == b'W'
    then some warn
    else if c == b'D'
    then some debug
    else if c == b'N'
    then some info
    else if c == b'S'
    then some error
    else none

module _ (app : Bytes) where
  -- A line that no format fits.
  abbrev pub write_unformatted : Output → Bytes → Output
  write_unformatted out line_str = write out warn (("app", app) ∷ []) (trim (codes "\n") line_str)

  unfoldable pub log_severity : Output → KubeLogLine → Bytes → ℕ → Output
  log_severity out line line_str c = elim (level_of c) [
    | some level ↦ write out level (("app", app) ∷ ("location", line.location) ∷ []) line.message
    | none ↦
        write
          (write out warn
            (("component", codes "KubeLogParser")
              ∷ ("app", codes "microkube")
              ∷ ("level", c ∷ [])
              ∷ [])
            (codes "Unknown severity level in kube log parser"))
          warn (("app", app) ∷ []) line_str
  ]

  -- `line.SeverityID[0]` panics on an empty severity.
  unfoldable pub log_line : Output → KubeLogLine → Bytes → Bytes → Handled Output
  log_line out line line_str [] = panicked
  log_line out line line_str (c ∷ _) = returned (log_severity out line line_str c) none

  module _ (extract : Bytes → Option KubeLogLine)
      (extract_restful : Bytes → Option KubeLogLineRestful) where
    unfoldable pub handle_line : Output → Bytes → Handled Output
    handle_line out line_str =
        if has_prefix line_str (codes "[restful]")
        then elim (extract_restful line_str) [
          | none ↦ returned (write_unformatted out line_str) none
          | some line ↦
              returned
                (write out info
                  (("component", codes "restful") ∷ ("location", line.location) ∷ ("app", app) ∷ [])
                  line.message)
                none
        ]
        else elim (extract (collapse line_str)) [
          | none ↦ returned (write_unformatted out (collapse line_str)) none
          | some line ↦ log_line out line (collapse line_str) line.severity_id
        ]
