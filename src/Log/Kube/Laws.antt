-- ===== src/Log/Kube/Laws.antt =====
-- The kubernetes line handler: blanks are collapsed, nothing is dropped, and when it panics.
use microkube.Base.{
  ℕ, Option, none, some, Bool, true, false, ◌&&◌, List, [], ◌∷◌, ◌++◌, append_assoc, ◌≡◌, ◌⊎◌, inl,
  inr, refl, sym, ap, ◌∙◌, ◌==◌, if◌then◌else◌, Bool-cases, Option-cases,
}
use microkube.Base.Bytes.{Bytes, codes, has_prefix, trim}
use microkube.Log.Entry.{Level, warn, info, Entry, Output}
use microkube.Log.Stream.{returned, panicked}
use microkube.Log.Kube.{
  KubeLogLine, KubeLogLineRestful, collapse_from, collapse, level_of, log_severity, log_line,
  handle_line,
}

-- No two blanks stand side by side; the flag says that a blank stands before.
abbrev NoDouble : Bool → Bytes → Type 0
NoDouble blank [] = Unit
NoDouble blank (c ∷ cs) = ((c == b' ' && blank) ≡ false) × NoDouble (c == b' ') cs

abbrev pub IsCollapsed : Bytes → Type 0
IsCollapsed s = NoDouble false s

-- What is left of a text without its blanks.
abbrev pub non_blank : Bytes → Bytes
non_blank [] = []
non_blank (c ∷ cs) = let rest = non_blank cs in if c == b' ' then rest else c ∷ rest

collapse_from-NoDouble : (s : Bytes) (b : Bool) → NoDouble b (collapse_from b s)
unfolding collapse_from
collapse_from-NoDouble [] b = tt
collapse_from-NoDouble (c ∷ cs) true = elim (Bool-cases (c == b' ')) [
  | inl e ↦ rw e (collapse_from-NoDouble cs true)
  | inr e ↦ rw e (rw e refl, rw e (collapse_from-NoDouble cs false))
]
collapse_from-NoDouble (c ∷ cs) false = elim (Bool-cases (c == b' ')) [
  | inl e ↦ rw e (rw e refl, rw e (collapse_from-NoDouble cs true))
  | inr e ↦ rw e (rw e refl, rw e (collapse_from-NoDouble cs false))
]

collapse_from_fixed : (s : Bytes) (b : Bool) → NoDouble b s → collapse_from b s ≡ s
unfolding collapse_from
collapse_from_fixed [] b h = refl
collapse_from_fixed (c ∷ cs) b h = rw h.0 (ap (λ t. c ∷ t) (collapse_from_fixed cs _ h.1))

collapse_from-non_blank : (s : Bytes) (b : Bool) → non_blank (collapse_from b s) ≡ non_blank s
unfolding collapse_from
collapse_from-non_blank [] b = refl
collapse_from-non_blank (c ∷ cs) true = elim (Bool-cases (c == b' ')) [
  | inl e ↦ rw e (collapse_from-non_blank cs true)
  | inr e ↦ rw e (rw (e, collapse_from-non_blank cs false) refl)
]
collapse_from-non_blank (c ∷ cs) false = elim (Bool-cases (c == b' ')) [
  | inl e ↦ rw e (rw (e, collapse_from-non_blank cs true) refl)
  | inr e ↦ rw e (rw (e, collapse_from-non_blank cs false) refl)
]

-- Collapsing leaves no two blanks side by side and changes nothing but blanks, and a text with
-- no two blanks side by side is left as it is.
pub collapse_lem :
    (s : Bytes)
    → IsCollapsed (collapse s)
      × (non_blank (collapse s) ≡ non_blank s)
      × (IsCollapsed s → collapse s ≡ s)
unfolding collapse
collapse_lem s =
    (collapse_from-NoDouble s false, collapse_from-non_blank s false, collapse_from_fixed s false)

module _ (app : Bytes) (extract : Bytes → Option KubeLogLine)
    (extract_restful : Bytes → Option KubeLogLineRestful) where
  -- A line of the ordinary format whose severity is empty.
  pub record HasNoSeverity (line_str : Bytes) : Type 0 where
    pub ordinary : has_prefix line_str (codes "[restful]") ≡ false
    pub line : KubeLogLine
    pub extracted : extract (collapse line_str) ≡ some line
    pub empty : line.severity_id ≡ []

  -- A call that adds at least one entry to the log and returns no error.
  pub record Reports (out : Output) (line_str : Bytes) : Type 0 where
    pub severity_given : ¬ HasNoSeverity line_str
    pub first : Entry
    pub others : List Entry
    pub returns :
        handle_line app extract extract_restful out line_str ≡ returned (out ++ first ∷ others) none

  abbrev unformatted : Bytes → Entry
  unformatted s = record { level = warn; fields = ("app", app) ∷ []; message = trim (codes "\n") s }

  abbrev restful_entry : KubeLogLineRestful → Entry
  restful_entry line = record {
    level = info;
    fields = ("component", codes "restful") ∷ ("location", line.location) ∷ ("app", app) ∷ [];
    message = line.message;
  }

  abbrev entry_of : KubeLogLine → Level → Entry
  entry_of line level = record {
    level = level;
    fields = ("app", app) ∷ ("location", line.location) ∷ [];
    message = line.message;
  }

  abbrev unknown_severity : ℕ → Entry
  unknown_severity c = record {
    level = warn;
    fields =
        ("component", codes "KubeLogParser") ∷ ("app", codes "microkube") ∷ ("level", c ∷ []) ∷ [];
    message = codes "Unknown severity level in kube log parser";
  }

  abbrev whole_line : Bytes → Entry
  whole_line s = record { level = warn; fields = ("app", app) ∷ []; message = s }

  none_ne : {line : KubeLogLine} → ¬ (none ≡ some line)
  none_ne h = cc

  Reports-restful :
      (out : Output) (line_str : Bytes)
      → has_prefix line_str (codes "[restful]") ≡ true
      → Reports out line_str
  unfolding handle_line
  Reports-restful out line_str p = elim (Option-cases (extract_restful line_str)) [
    | inl e ↦ record {
      severity_given = λ h. cc (p, h.ordinary);
      first = unformatted line_str;
      others = [];
      returns = rw (p, handle_line, e) refl;
    }
    | inr (line, e) ↦ record {
      severity_given = λ h. cc (p, h.ordinary);
      first = restful_entry line;
      others = [];
      returns = rw (p, handle_line, e) refl;
    }
  ]

  Reports-unformatted :
      (out : Output) (line_str : Bytes)
      → has_prefix line_str (codes "[restful]") ≡ false
      → extract (collapse line_str) ≡ none
      → Reports out line_str
  unfolding handle_line
  Reports-unformatted out line_str p e = record {
    severity_given = λ h. none_ne (sym e ∙ h.extracted);
    first = unformatted (collapse line_str);
    others = [];
    returns = rw (p, handle_line, e) refl;
  }

  log_severity-adds :
      (out : Output) (line : KubeLogLine) (s : Bytes) (c : ℕ)
      → (first : Entry) × (others : List Entry) × (log_severity app out line s c
          ≡ out ++ first ∷ others)
  unfolding log_severity
  log_severity-adds out line s c = elim (Option-cases (level_of c)) [
    | inl e ↦ (
      unknown_severity c,
      whole_line s ∷ [],
      rw (e, log_severity) (append_assoc out (unknown_severity c ∷ []) (whole_line s ∷ [])),
    )
    | inr (level, e) ↦ (entry_of line level, [], rw (e, log_severity) refl)
  ]

  log_line-cons :
      (out : Output) (line : KubeLogLine) (s id : Bytes) {c : ℕ} {cs : Bytes}
      → id ≡ c ∷ cs
      → log_line app out line s id ≡ returned (log_severity app out line s c) none
  unfolding log_line
  log_line-cons out line s id i = rw i refl

  Reports-ordinary :
      (out : Output) (line_str : Bytes) (line : KubeLogLine) (c : ℕ) (cs : Bytes)
      → has_prefix line_str (codes "[restful]") ≡ false
      → extract (collapse line_str) ≡ some line
      → line.severity_id ≡ c ∷ cs
      → Reports out line_str
  unfolding handle_line
  Reports-ordinary out line_str line c cs p e i =
      let (first, others, a) = log_severity-adds out line (collapse line_str) c in
      record {
        severity_given =
            λ h. let same : h.line ≡ line = cc (e, h.extracted) in cc (h.empty, i, same);
        first = first;
        others = others;
        returns =
            rw (p, handle_line, e)
              (log_line-cons out line (collapse line_str) line.severity_id i
                ∙ ap (λ t. returned t none) a);
      }

  panics_without_severity :
      (out : Output) (line_str : Bytes)
      → HasNoSeverity line_str
      → handle_line app extract extract_restful out line_str ≡ panicked
  unfolding handle_line log_line
  panics_without_severity out line_str h =
      rw (h.ordinary, handle_line, h.extracted) (rw (h.empty, log_line) refl)

  -- A line of the ordinary format with an empty severity makes the handler panic. Every other line
  -- adds at least one entry to the log, and the handler returns no error: nothing is dropped.
  pub handle_line_cases :
      (out : Output) (line_str : Bytes)
      → (HasNoSeverity line_str × (handle_line app extract extract_restful out line_str ≡ panicked))
        ⊎ Reports out line_str
  handle_line_cases out line_str = elim (Bool-cases (has_prefix line_str (codes "[restful]"))) [
    | inl p ↦ inr (Reports-restful out line_str p)
    | inr p ↦ elim (Option-cases (extract (collapse line_str))) [
      | inl e ↦ inr (Reports-unformatted out line_str p e)
      | inr (line, e) ↦ go line p e line.severity_id refl
    ]
  ]
    where
      go :
          (line : KubeLogLine)
          → has_prefix line_str (codes "[restful]") ≡ false
          → extract (collapse line_str) ≡ some line
          → (id : Bytes) → line.severity_id ≡ id
          → (HasNoSeverity line_str
              × (handle_line app extract extract_restful out line_str ≡ panicked))
            ⊎ Reports out line_str
      go line p e [] i =
          let h : HasNoSeverity line_str = record {
            ordinary = p;
            line = line;
            extracted = e;
            empty = i;
          } in
          inl (h, panics_without_severity out line_str h)
      go line p e (c ∷ cs) i = inr (Reports-ordinary out line_str line c cs p e i)
