-- ===== src/Log/Etcd.antt =====
-- internal/log/EtcdLogParser.go. `extract` stands for ETCDLogLine.Extract, which ldetool generates
-- from logs.lde at build time; `none` is a line that it does not accept.
pub mod Laws
use microkube.Base.{Option, none, some, Bool, ◌&&◌, List, [], ◌∷◌, String, if◌then◌else◌}
use microkube.Base.Bytes.{Bytes, codes, equal, has_prefix, has_suffix, trim}
use microkube.Log.Entry.{Level, debug, info, warn, error, Output, write}
use microkube.Log.Stream.{Handled, returned}

-- The fields that the code generated from logs.lde fills.
pub record EtcdLogLine : Type 0 where
  pub date : Bytes
  pub time : Bytes
  pub severity : Bytes
  pub component : Bytes
  pub message : Bytes

-- The first and the second guard: messages that are dropped.
unfoldable pub is_rejected_healthcheck : EtcdLogLine → Bool
is_rejected_healthcheck line =
    equal line.component (codes "embed")
    && has_prefix line.message (codes "rejected connection from \"127.0.0.1:")
    && has_suffix line.message (codes "\" (error \"EOF\", ServerName \"\")")

unfoldable pub is_notify_warning : EtcdLogLine → Bool
is_notify_warning line =
    equal line.component (codes "etcdmain")
    && equal line.message (codes "forgot to set Type=notify in systemd service file?")

-- The switch on the severity; `none` is its default case.
unfoldable pub level_of : Bytes → Option Level
level_of severity =
    if equal severity (codes "I")
    then some info
    else if equal severity (codes "E")
    then some error
    else if equal severity (codes "C")
    then some error
    else if equal severity (codes "W")
    then some warn
    else if equal severity (codes "D")
    then some debug
    else if equal severity (codes "N")
    then some info
    else none

-- The fields of `entry`.
abbrev pub entry_fields : EtcdLogLine → List (String × Bytes)
entry_fields line = ("app", codes "etcd") ∷ ("component", line.component) ∷ []

unfoldable pub log_line : Output → EtcdLogLine → Output
log_line out line = elim (level_of line.severity) [
  | some level ↦ write out level (entry_fields line) line.message
  | none ↦
      write
        (write out warn
          (("component", codes "EtcdLogParser")
            ∷ ("app", codes "microkube")
            ∷ ("level", line.severity)
            ∷ [])
          (codes "Unknown severity level in etcd log parser"))
        warn (entry_fields line) line.message
]

module _ (extract : Bytes → Option EtcdLogLine) where
  unfoldable pub handle_line : Output → Bytes → Handled Output
  handle_line out line_str = elim (extract line_str) [
    | none ↦
        returned
          (write out warn (("component", codes "EtcdLogParser") ∷ ("app", codes "etcd") ∷ [])
            (trim (codes "\n") line_str))
          none
    | some line ↦
        if is_rejected_healthcheck line
        then returned out none
        else if is_notify_warning line
        then returned out none
        else returned (log_line out line) none
  ]
