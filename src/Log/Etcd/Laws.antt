-- ===== src/Log/Etcd/Laws.antt =====
-- What the etcd line handler makes of a line.
use microkube.Base.{
  Option, none, some, Bool, true, ◌&&◌, List, [], ◌∷◌, ◌++◌, append_assoc, append-nil, ◌≡◌, ◌↔◌,
  ◌⊎◌, inl, inr, refl, sym, ap, subst, ◌∙◌, arith, Bool-cases, Option-cases,
}
use microkube.Base.Bytes.{Bytes, codes, equal_iff, has_prefix_iff, has_suffix_iff, trim}
use microkube.Log.Entry.{Level, warn, Entry, Output}
use microkube.Log.Stream.{returned}
use microkube.Log.Etcd.{
  EtcdLogLine, is_rejected_healthcheck, is_notify_warning, level_of, entry_fields, log_line,
  handle_line,
}

-- A health check of kubernetes that gave up on the TLS handshake.
pub record IsRejectedHealthcheck (line : EtcdLogLine) : Type 0 where
  pub embedded : line.component ≡ codes "embed"
  pub behind : Bytes
  pub starts : line.message ≡ codes "rejected connection from \"127.0.0.1:" ++ behind
  pub before : Bytes
  pub ends : line.message ≡ before ++ codes "\" (error \"EOF\", ServerName \"\")"

-- The two messages that etcd repeats and nobody can turn off.
abbrev pub IsNoise : EtcdLogLine → Type 0
IsNoise line =
    IsRejectedHealthcheck line
    ⊎ ((line.component ≡ codes "etcdmain")
        × (line.message ≡ codes "forgot to set Type=notify in systemd service file?"))

and_parts₂ : (a b : Bool) → a && b ≡ true → (a ≡ true) × (b ≡ true)
and_parts₂ a b h = ground arith

and_true₂ : {a b : Bool} → a ≡ true → b ≡ true → a && b ≡ true
and_true₂ p q = ground arith

and_parts : (a b c : Bool) → a && b && c ≡ true → (a ≡ true) × (b ≡ true) × (c ≡ true)
and_parts a b c h = ground arith

and_true : {a b c : Bool} → a ≡ true → b ≡ true → c ≡ true → a && b && c ≡ true
and_true p q r = ground arith

rejected_iff :
    (line : EtcdLogLine) → (is_rejected_healthcheck line ≡ true) ↔ IsRejectedHealthcheck line
unfolding is_rejected_healthcheck
rejected_iff line = (
  λ h.
      let (c, p, s) = and_parts _ _ _ h in
      let start = (has_prefix_iff _ _).0 p in
      let finish = (has_suffix_iff _ _).0 s in
      record {
        embedded = (equal_iff _ _).0 c;
        behind = start.0;
        starts = start.1;
        before = finish.0;
        ends = finish.1;
      },
  λ r.
      and_true ((equal_iff _ _).1 r.embedded) ((has_prefix_iff _ _).1 (r.behind, r.starts))
        ((has_suffix_iff _ _).1 (r.before, r.ends)),
)

notify_iff :
    (line : EtcdLogLine)
    → (is_notify_warning line ≡ true) ↔ (
        (line.component ≡ codes "etcdmain")
        × (line.message ≡ codes "forgot to set Type=notify in systemd service file?"))
unfolding is_notify_warning
notify_iff line = (
  λ h. let (c, m) = and_parts₂ _ _ h in ((equal_iff _ _).0 c, (equal_iff _ _).0 m),
  λ r. and_true₂ ((equal_iff _ _).1 r.0) ((equal_iff _ _).1 r.1),
)

-- A line as the handler logs it.
abbrev pub entry_of : EtcdLogLine → Level → Entry
entry_of line level = record { level = level; fields = entry_fields line; message = line.message }

-- A severity that is not one of the six is logged as a warning.
abbrev pub level_or_warn : Option Level → Level
level_or_warn (some level) = level
level_or_warn none = warn

-- The complaint about a severity that is not one of the six.
abbrev unknown_severity : EtcdLogLine → Entry
unknown_severity line = record {
  level = warn;
  fields =
      ("component", codes "EtcdLogParser")
      ∷ ("app", codes "microkube")
      ∷ ("level", line.severity)
      ∷ [];
  message = codes "Unknown severity level in etcd log parser";
}

-- A line that etcd's format does not fit is logged as it is.
abbrev unparsed : Bytes → Entry
unparsed line_str = record {
  level = warn;
  fields = ("component", codes "EtcdLogParser") ∷ ("app", codes "etcd") ∷ [];
  message = trim (codes "\n") line_str;
}

log_line-keeps :
    (out : Output) (line : EtcdLogLine)
    → (before : List Entry) × (log_line out line
        ≡ out ++ (before ++ entry_of line (level_or_warn (level_of line.severity)) ∷ []))
unfolding log_line
log_line-keeps out line = go (level_of line.severity) refl
  where
    go :
        (o : Option Level)
        → level_of line.severity ≡ o
        → (before : List Entry) × (log_line out line
            ≡ out ++ (before ++ entry_of line (level_or_warn o) ∷ []))
    go (some level) e = ([], rw (e, log_line) refl)
    go none e = (
      unknown_severity line ∷ [],
      rw (e, log_line) (append_assoc out (unknown_severity line ∷ []) (entry_of line warn ∷ [])),
    )

module _ (extract : Bytes → Option EtcdLogLine) where
  handle_line_dropped :
      (out : Output) (line_str : Bytes) (line : EtcdLogLine)
      → extract line_str ≡ some line
      → IsNoise line
      → handle_line extract out line_str ≡ returned out none
  unfolding handle_line
  handle_line_dropped out line_str line e (inl r) =
      rw (e, handle_line, (rejected_iff line).1 r) refl
  handle_line_dropped out line_str line e (inr r) =
      elim (Bool-cases (is_rejected_healthcheck line)) [
        | inl p ↦ rw (e, handle_line, p) refl
        | inr p ↦ rw (e, handle_line, p, (notify_iff line).1 r) refl
      ]

  handle_line_logged :
      (out : Output) (line_str : Bytes) (line : EtcdLogLine)
      → extract line_str ≡ some line
      → ¬ IsNoise line
      → handle_line extract out line_str ≡ returned (log_line out line) none
  unfolding handle_line
  handle_line_logged out line_str line e n = elim (Bool-cases (is_rejected_healthcheck line)) [
    | inl p ↦ absurd (n (inl ((rejected_iff line).0 p)))
    | inr p ↦ elim (Bool-cases (is_notify_warning line)) [
      | inl q ↦ absurd (n (inr ((notify_iff line).0 q)))
      | inr q ↦ rw (e, handle_line, p, q) refl
    ]
  ]

  -- A line that etcd's format fits and that is not noise reaches the log whole: the last entry
  -- has its component, its message and the level of its severity, or a warning's level where the
  -- severity is unknown. What was logged before stays.
  pub handle_line-keeps :
      (out : Output) (line_str : Bytes) (line : EtcdLogLine)
      → extract line_str ≡ some line
      → ¬ IsNoise line
      → (before : List Entry) × (handle_line extract out line_str
          ≡ returned
              (out ++ (before ++ entry_of line (level_or_warn (level_of line.severity)) ∷ []))
              none)
  handle_line-keeps out line_str line e n =
      let (before, k) = log_line-keeps out line in
      (before, handle_line_logged out line_str line e n ∙ ap (λ t. returned t none) k)

  none_ne : {line : EtcdLogLine} → ¬ (none ≡ some line)
  none_ne h = cc

  append_ne : (xs : List Entry) (x : Entry) → ¬ (xs ++ x ∷ [] ≡ [])
  append_ne [] x h = cc
  append_ne (y ∷ ys) x h = cc

  IsNoise-dec : (line : EtcdLogLine) → IsNoise line ⊎ (¬ IsNoise line)
  IsNoise-dec line = elim (Bool-cases (is_rejected_healthcheck line)) [
    | inl p ↦ inl (inl ((rejected_iff line).0 p))
    | inr p ↦ elim (Bool-cases (is_notify_warning line)) [
      | inl q ↦ inl (inr ((notify_iff line).0 q))
      | inr q ↦ inr λ n. elim n [
        | inl r ↦ cc (p, (rejected_iff line).1 r)
        | inr r ↦ cc (q, (notify_iff line).1 r)
      ]
    ]
  ]

  -- An extracted line is the one at hand.
  IsNoise-of :
      (s : Bytes) (line : EtcdLogLine)
      → extract s ≡ some line
      → (l : EtcdLogLine) × (extract s ≡ some l) × IsNoise l
      → IsNoise line
  IsNoise-of s line e (l, e', n) = let p : l ≡ line = cc (e, e') in subst IsNoise p n

  -- The handler returns no error and only adds to the log, and the only lines for which it adds
  -- nothing are the two kinds of noise.
  pub handle_line-silent :
      (out : Output) (line_str : Bytes)
      → (new : List Entry) × (handle_line extract out line_str ≡ returned (out ++ new) none)
        × ((new ≡ []) ↔ ((line : EtcdLogLine) × (extract line_str ≡ some line) × IsNoise line))
  unfolding handle_line
  handle_line-silent out line_str = elim (Option-cases (extract line_str)) [
    | inl e ↦ (
      unparsed line_str ∷ [],
      rw (e, handle_line) refl,
      (λ h. absurd (append_ne [] _ h), λ h. absurd (none_ne (sym e ∙ h.1))),
    )
    | inr (line, e) ↦ elim (IsNoise-dec line) [
      | inl n ↦ (
        [],
        handle_line_dropped out line_str line e n
            ∙ ap (λ t. returned t none) (sym (append-nil out)),
        (λ _. (line, e, n), λ _. refl),
      )
      | inr n ↦
          let (before, k) = handle_line-keeps out line_str line e n in
          (
            before ++ entry_of line (level_or_warn (level_of line.severity)) ∷ [],
            k,
            (λ h. absurd (append_ne _ _ h), λ h. absurd (n (IsNoise-of line_str line e h))),
          )
    ]
  ]
