-- ===== src/Handlers/Lifecycle/Laws.antt =====
-- At most one health check goroutine, and what becomes of a handler that was stopped.
use microkube.Base.{
  ℕ, suc, ◌+◌, ◌≤◌, ◌≡◌, refl, sym, ap, ◌∙◌, arith, Bool, true, false, List, ◌∷◌, ◌++◌, length,
  length-append, Bool-cases, inl, inr,
}
use microkube.Handlers.Lifecycle.{
  waiting, Worker, Lifecycle, new_handler, capacity, enable_health_checks, after_send, Step, enable,
  stop_idle, stop_running, send, go_on, leave, again, Reach, here, next,
}

-- One goroutine at most, and none but under the flag; a full channel at most.
pub record IsSound (s : Lifecycle) : Type 0 where
  pub single : length s.workers ≤ 1
  pub flagged : s.running ≡ false → length s.workers ≡ 0
  pub room : s.signals ≤ capacity

new_handler-IsSound : IsSound new_handler
unfolding new_handler
new_handler-IsSound = record { single = omega arith; flagged = λ _. refl; room = omega arith }

true-ne-false : ¬ (true ≡ false)
true-ne-false h = cc

-- Where there is a goroutine it is the only one.
alone :
    (ws before after : List Worker) (w : Worker)
    → length ws ≤ 1
    → ws ≡ before ++ w ∷ after
    → (length before ≡ 0) × (length after ≡ 0) × (length ws ≡ 1)
alone ws before after w h e =
    let counted = ap length e ∙ length-append before (w ∷ after) in
    (omega arith, omega arith, omega arith)

-- The workers after a step of one of them.
replaced :
    (before after : List Worker) (v : Worker)
    → length before ≡ 0
    → length after ≡ 0
    → (length (before ++ v ∷ after) ≡ 1) × (length (before ++ after) ≡ 0)
replaced before after v b a =
    (omega (arith, length-append before (v ∷ after)), omega (arith, length-append before after))

busy : {s : Lifecycle} → IsSound s → length s.workers ≡ 1 → s.running ≡ true
busy {s} h one = elim (Bool-cases s.running) [
  | inl e ↦ e
  | inr e ↦ absurd (omega (arith, h.flagged e))
]

-- A step that moves the one goroutine on and leaves the flag.
moved :
    {s : Lifecycle} (before after : List Worker) (w v : Worker) (reports : ℕ)
    → s.workers ≡ before ++ w ∷ after
    → IsSound s
    → IsSound (record s { reports = reports; workers = before ++ v ∷ after })
moved {s} before after w v reports e h =
    let (b, a, one) = alone s.workers before after w h.single e in
    let r = replaced before after v b a in
    record {
      single = omega (arith, r.0);
      flagged = λ f. absurd (true-ne-false (sym (busy h one) ∙ f));
      room = h.room;
    }

-- A step after which no goroutine is left.
gone :
    {s : Lifecycle} (before after : List Worker) (w : Worker) (running : Bool) (signals : ℕ)
    → s.workers ≡ before ++ w ∷ after
    → signals ≤ capacity
    → IsSound s
    → IsSound (record s { running = running; signals = signals; workers = before ++ after })
gone {s} before after w running signals e k h =
    let (b, a, one) = alone s.workers before after w h.single e in
    let r = replaced before after w b a in
    record { single = omega (arith, r.1); flagged = λ _. r.1; room = k }

after_send-IsSound :
    (s : Lifecycle) (w : Worker) (before after : List Worker)
    → s.workers ≡ before ++ w ∷ after
    → IsSound s
    → IsSound (after_send s w before after)
unfolding after_send
after_send-IsSound s w before after e h = elim (Bool-cases w.forever) [
  | inl f ↦ rw (f, after_send) (moved before after w _ s.reports e h)
  | inr f ↦ rw (f, after_send) (gone before after w false s.signals e h.room h)
]

Step-IsSound : {s t : Lifecycle} → Step s t → IsSound s → IsSound t
unfolding enable_health_checks
Step-IsSound (enable s forever) h = ground arith
Step-IsSound (stop_idle s e) h = ground arith
Step-IsSound (stop_running s e lt) h = ground arith
Step-IsSound (send s w before after e p) h = moved before after w _ (s.reports + 1) e h
Step-IsSound (go_on s w before after e p) h = after_send-IsSound s w before after e h
Step-IsSound (leave s w before after n e p k) h =
    gone before after w s.running n e (omega (arith, h.room)) h
Step-IsSound (again s w before after e p) h = moved before after w _ s.reports e h

Reach-IsSound : {s t : Lifecycle} → IsSound s → Reach s t → IsSound t
Reach-IsSound h here = h
Reach-IsSound h (next r st) = Step-IsSound st (Reach-IsSound h r)

-- In every interleaving of the calls of EnableHealthChecks and Stop with the goroutines there is
-- at most one health check goroutine, there is none while the flag is 0, and the signal channel
-- never holds more than two signals.
pub reachable-IsSound : {s : Lifecycle} → Reach new_handler s → IsSound s
reachable-IsSound r = Reach-IsSound new_handler-IsSound r

-- The flag is 1, and there is no goroutine.
abbrev pub IsOrphaned : Lifecycle → Type 0
IsOrphaned s = (s.running ≡ true) × (length s.workers ≡ 0)

-- What a handler does between two orphaned states: no report, and a signal for each Stop.
record Idles (s t : Lifecycle) : Type 0 where
  orphaned : IsOrphaned t
  silent : t.reports ≡ s.reports
  counted : t.stopped + s.signals ≡ s.stopped + t.signals

no_worker :
    {ws : List Worker} (before after : List Worker) (w : Worker)
    → length ws ≡ 0
    → ws ≡ before ++ w ∷ after
    → ⊥
no_worker before after w h e = omega (arith, ap length e, length-append before (w ∷ after))

Step-Idles : {s t u : Lifecycle} → Step t u → Idles s t → Idles s u
unfolding enable_health_checks
Step-Idles (enable s forever) h = ground arith
Step-Idles (stop_idle s e) h = absurd (true-ne-false (sym h.orphaned.0 ∙ e))
Step-Idles (stop_running s e lt) h = ground arith
Step-Idles (send s w before after e p) h = absurd (no_worker before after w h.orphaned.1 e)
Step-Idles (go_on s w before after e p) h = absurd (no_worker before after w h.orphaned.1 e)
Step-Idles (leave s w before after n e p k) h = absurd (no_worker before after w h.orphaned.1 e)
Step-Idles (again s w before after e p) h = absurd (no_worker before after w h.orphaned.1 e)

Reach-Idles : {s t : Lifecycle} → IsOrphaned s → Reach s t → Idles s t
Reach-Idles o here = record { orphaned = o; silent = refl; counted = refl }
Reach-Idles o (next r st) = Step-Idles st (Reach-Idles o r)

-- Once the health check goroutine of a handler has returned on a signal of Stop, no later call
-- starts another one and no result is ever reported again, and Stop returns at most twice more:
-- a third call finds the channel full and blocks.
pub stopped_for_good :
    {s t : Lifecycle} (w : Worker) (before after : List Worker) (n : ℕ)
    → Reach new_handler s
    → s.workers ≡ before ++ w ∷ after
    → w.phase ≡ waiting
    → s.signals ≡ suc n
    → Reach (record s { signals = n; workers = before ++ after }) t
    → (length t.workers ≡ 0) × (t.reports ≡ s.reports) × (t.stopped ≤ s.stopped + 2)
stopped_for_good {s} w before after n r e p k later =
    let h = reachable-IsSound r in
    let (b, a, one) = alone s.workers before after w h.single e in
    let i = Reach-Idles (busy h one, (replaced before after w b a).1) later in
    let sound = Reach-IsSound (gone before after w s.running n e (omega (arith, h.room)) h) later in
    (i.orphaned.1, i.silent, omega (arith, i.counted, sound.room))
