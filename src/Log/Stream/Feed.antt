-- ===== src/Log/Stream/Feed.antt =====
-- What HandleData comes to, for every line handler.
use microkube.Base.{
  ℕ, zero, suc, String, ◌<◌, true, false, Option, none, some, List, [], ◌∷◌, ◌++◌, ◌≡◌, refl, sym,
  ap, subst, ◌∙◌, arith, length, concat, All, append_assoc, append-nil, Bool-cases, inl, inr,
}
use microkube.Base.Bytes.{Bytes, contains}
use microkube.Base.Errors.{GoError, ErrorsPkg}
use microkube.Log.Stream.Split.{
  split, split-read_string, split_rest, IsLine, concat-split, contains-split, All-split,
}
use microkube.Log.Stream.{
  Handled, returned, panicked, LogParser, Outcome, finished, crashed, read_string, write_data,
  handle_data,
}

-- A handler that may panic, but returns no error.
abbrev pub NeverFails : {L : Type 0} → Handled L → Type 0
NeverFails (returned _ e) = e ≡ none
NeverFails panicked = Unit

module _ {L : Type 0} (pkg : ErrorsPkg) (handler : L → Bytes → Handled L) where
  -- The handler is run on these lines in turn, from one log to the other. It returns no error for
  -- any of them, or an error for the last one only, which is passed on with a message.
  pub data Passes : L → List Bytes → L → GoError → Type 0 where
    no_line : (log : L) → Passes log [] log none
    accepts :
        {log log' log'' : L} {line : Bytes} {lines : List Bytes} {e : GoError}
        → handler log line ≡ returned log' none
        → Passes log' lines log'' e
        → Passes log (line ∷ lines) log'' e
    refuses :
        {log log' : L} {line : Bytes} {x : String}
        → handler log line ≡ returned log' (some x)
        → Passes log (line ∷ []) log' (pkg.wrap (some x) "Couldn't decode buffer")

  -- Which complete lines a call has taken from the buffer's bytes `s` and run the handler on, and
  -- what is left.
  pub record Taken (log : L) (s : Bytes) (q : LogParser L) (e : GoError) : Type 0 where
    pub lines : List Bytes
    pub are_lines : All IsLine lines
    pub passed : Passes log lines q.log e
    pub conserved : concat lines ++ q.buf ≡ s
    pub drained : e ≡ none → contains b'\n' q.buf ≡ false

  -- The handler on each line in turn, up to the first error; then the lines behind it stay.
  unfoldable pub feed : L → List Bytes → Bytes → Outcome L
  feed log [] rest = finished (record { buf = rest; log = log }) none
  feed log (line ∷ lines) rest = elim (handler log line) [
    | panicked ↦ crashed
    | returned log' none ↦ feed log' lines rest
    | returned log' (some e) ↦
        finished (record { buf = concat lines ++ rest; log = log' })
          (pkg.wrap (some e) "Couldn't decode buffer")
  ]

  -- One round of HandleData on a buffer that holds a newline, by what the handler does.
  handle_data-line :
      (fuel : ℕ) (s : Bytes) (log : L) (r : Handled L)
      → contains b'\n' s ≡ true
      → handler log (read_string b'\n' s).0 ≡ r
      → ((log' : L)
          → handle_data pkg handler fuel (record { buf = (read_string b'\n' s).1; log = log' }) none
            ≡ feed log' (split (read_string b'\n' s).1).0 (split (read_string b'\n' s).1).1)
      → handle_data pkg handler (suc fuel) (record { buf = s; log = log }) none
        ≡ feed log (split s).0 (split s).1
  unfolding handle_data feed
  handle_data-line fuel s log panicked e r later =
      rw (split-read_string s e, e, r, feed, handle_data) refl
  handle_data-line fuel s log (returned log' none) e r later =
      rw (split-read_string s e, e, r, feed, handle_data) (later log')
  handle_data-line fuel s log (returned log' (some x)) e r later =
      rw (split-read_string s e, e, r, feed, handle_data, concat-split (read_string b'\n' s).1) refl

  handle_data-feed-none :
      (fuel : ℕ) (s : Bytes) (log : L)
      → length (split s).0 < fuel
      → handle_data pkg handler fuel (record { buf = s; log = log }) none
        ≡ feed log (split s).0 (split s).1
  unfolding handle_data feed
  handle_data-feed-none zero s log h = absurd (omega arith)
  handle_data-feed-none (suc fuel) s log h = elim (Bool-cases (contains b'\n' s)) [
    | inr e ↦ rw (e, split_rest s e) refl
    | inl e ↦
        let rest = (read_string b'\n' s).1 in
        let fewer : length (split rest).0 < fuel =
          omega (arith, ap (λ (t : List Bytes × Bytes). length t.0) (split-read_string s e)) in
        handle_data-line fuel s log _ e refl (λ log'. handle_data-feed-none fuel rest log' fewer)
  ]

  -- With more fuel than there are complete lines, a call does what feeding these lines to the
  -- handler does, in order and up to the first one that it refuses: where it refuses none, the
  -- text behind the last newline is kept; where it refuses one, the call returns the error and
  -- keeps the later lines with that text; where it panics, the call panics and feeds no more.
  pub handle_data-feed :
      (fuel : ℕ) (lp : LogParser L) (bytes : Option Bytes)
      → length (split (write_data lp bytes).buf).0 < fuel
      → handle_data pkg handler fuel lp bytes
        ≡ feed lp.log (split (write_data lp bytes).buf).0 (split (write_data lp bytes).buf).1
  unfolding handle_data
  handle_data-feed zero lp bytes h = absurd (omega arith)
  handle_data-feed (suc fuel) lp none h = handle_data-feed-none (suc fuel) lp.buf lp.log h
  handle_data-feed (suc fuel) lp (some b) h =
      handle_data-feed-none (suc fuel) (lp.buf ++ b) lp.log h

  parsers : {p q : LogParser L} {e f : GoError} → finished p e ≡ finished q f → p ≡ q
  parsers h = cc

  errors : {p q : LogParser L} {e f : GoError} → finished p e ≡ finished q f → e ≡ f
  errors h = cc

  -- What holds of a result holds of an equal one.
  Taken-same :
      {log : L} {s : Bytes} {p q : LogParser L} {e f : GoError}
      → finished p e ≡ finished q f
      → Taken log s p e
      → Taken log s q f
  Taken-same {log} {s} {p} {q} {e} {f} h t =
      subst (λ x. Taken log s x f) (parsers h) (subst (λ x. Taken log s p x) (errors h) t)

  Taken-cons :
      (line s : Bytes) (log log' : L) {q : LogParser L} {e : GoError}
      → IsLine line
      → handler log line ≡ returned log' none
      → Taken log' s q e
      → Taken log (line ++ s) q e
  Taken-cons line s log log' {q} i r t = record {
    lines = line ∷ t.lines;
    are_lines = (i, t.are_lines);
    passed = accepts r t.passed;
    conserved = append_assoc line (concat t.lines) q.buf ∙ ap (λ x. line ++ x) t.conserved;
    drained = t.drained;
  }

  -- The handler refuses a line: that line is gone from the buffer, and all behind it stays.
  Taken-failed :
      (line s : Bytes) (log log' : L) (x : String)
      → IsLine line
      → handler log line ≡ returned log' (some x)
      → Taken log
          (line ++ s)
          (record { buf = s; log = log' })
          (pkg.wrap (some x) "Couldn't decode buffer")
  Taken-failed line s log log' x i r = record {
    lines = line ∷ [];
    are_lines = (i, tt);
    passed = refuses r;
    conserved = ap (λ t. t ++ s) (append-nil line);
    drained = λ n. absurd (pkg.wrap_err x "Couldn't decode buffer" n);
  }

  Taken-none :
      (rest : Bytes) (log : L)
      → contains b'\n' rest ≡ false
      → Taken log rest (record { buf = rest; log = log }) none
  Taken-none rest log c = record {
    lines = [];
    are_lines = tt;
    passed = no_line log;
    conserved = refl;
    drained = λ _. c;
  }

  feed-Taken :
      (lines : List Bytes) (log : L) (rest : Bytes) {q : LogParser L} {e : GoError}
      → All IsLine lines
      → contains b'\n' rest ≡ false
      → feed log lines rest ≡ finished q e
      → Taken log (concat lines ++ rest) q e
  unfolding feed
  feed-Taken [] log rest a c h = Taken-same h (Taken-none rest log c)
  feed-Taken (line ∷ lines) log rest {q} {e} a c h =
      rw (append_assoc line (concat lines) rest)
        (go (handler log line) refl (λ log'. feed-Taken lines log' rest a.1 c))
    where
      go :
          (r : Handled L)
          → handler log line ≡ r
          → ((log' : L)
              → feed log' lines rest ≡ finished q e
              → Taken log' (concat lines ++ rest) q e)
          → Taken log (line ++ (concat lines ++ rest)) q e
      go panicked r later = ground arith
      go (returned log' none) r later =
          Taken-cons line _ log log' a.0 r (later log' (rw (r, feed) at h))
      go (returned log' (some x)) r later =
          Taken-same (rw (r, feed) at h) (Taken-failed line _ log log' x a.0 r)

  -- Whatever the handler does, a call that returns has run it on complete lines, one after the
  -- other from the parser's log on, until one was refused, and moved no byte: the lines taken and
  -- the buffer left make up the old buffer with the new bytes. The log and the error are those of
  -- the handler on these lines. If the call returns no error, no complete line is left in the
  -- buffer.
  pub handle_data-Taken :
      (fuel : ℕ) (lp : LogParser L) (bytes : Option Bytes) {q : LogParser L} {e : GoError}
      → length (split (write_data lp bytes).buf).0 < fuel
      → handle_data pkg handler fuel lp bytes ≡ finished q e
      → Taken lp.log (write_data lp bytes).buf q e
  handle_data-Taken fuel lp bytes h r =
      let s = (write_data lp bytes).buf in
      rw (concat-split s) at (
        feed-Taken (split s).0 lp.log (split s).1 (All-split s) (contains-split s)
          (sym (handle_data-feed fuel lp bytes h) ∙ r))
