-- ===== src/Supervisor/Watch/Laws.antt =====
-- When the supervisor gives up on a service.
use microkube.Base.{
  ℕ, suc, ◌+◌, ◌<◌, ◌≤◌, true, false, List, [], ◌∷◌, ◌++◌, ◌==◌, ◌≡◌, ◌≢◌, ◌↔◌, ◌⊎◌, inl, inr, refl,
  sym, ap, subst, ◌∙◌, arith, All, Bool-cases, ==_iff, if◌then◌else◌,
}
use microkube.Supervisor.Watch.{Event, exited, health, too_many_failures, check_service}

-- An exit outside of graceful termination does not occur.
abbrev pub IsTolerated : Event → Type 0
IsTolerated (exited graceful) = graceful ≡ true
IsTolerated (health ok) = Unit

-- Neither a healthy message nor such an exit.
abbrev pub IsBad : Event → Type 0
IsBad (exited graceful) = graceful ≡ true
IsBad (health ok) = ok ≡ false

-- How many messages of unhealthiness there are.
abbrev pub failures : List Event → ℕ
failures [] = 0
failures (exited graceful ∷ events) = failures events
failures (health ok ∷ events) = if ok then failures events else suc (failures events)

-- A run of events that starts at once and brings the count from n to ten.
pub record Exhausts (n : ℕ) (events : List Event) : Type 0 where
  pub run : List Event
  pub after : List Event
  pub split : events ≡ run ++ after
  pub bad : All IsBad run
  pub ten : n + failures run ≡ 10

-- Ten unhealthy messages with no healthy one between them, somewhere in the events.
abbrev pub HasTenFailures : List Event → Type 0
HasTenFailures events =
    (before : List Event) × (rest : List Event) × (events ≡ before ++ rest) × Exhausts 0 rest

later : {e : Event} {events : List Event} → HasTenFailures events → HasTenFailures (e ∷ events)
later {e} (before, rest, s, h) = (e ∷ before, rest, ap (λ t. e ∷ t) s, h)

exit_in_run : {n : ℕ} {events : List Event} → Exhausts n events → Exhausts n (exited true ∷ events)
exit_in_run h = record {
  run = exited true ∷ h.run;
  after = h.after;
  split = ap (λ t. exited true ∷ t) h.split;
  bad = (refl, h.bad);
  ten = h.ten;
}

failure_in_run :
    {n : ℕ} {events : List Event} → Exhausts (n + 1) events → Exhausts n (health false ∷ events)
failure_in_run h = record {
  run = health false ∷ h.run;
  after = h.after;
  split = ap (λ t. health false ∷ t) h.split;
  bad = (refl, h.bad);
  ten = omega (arith, h.ten);
}

last_failure : {n : ℕ} (events : List Event) → n + 1 ≡ 10 → Exhausts n (health false ∷ events)
last_failure events e = record {
  run = health false ∷ [];
  after = events;
  split = refl;
  bad = (refl, tt);
  ten = omega (arith, e);
}

fatal_after_ten :
    (n : ℕ) (events : List Event)
    → check_service n events ≡ too_many_failures
    → Exhausts n events ⊎ HasTenFailures events
unfolding check_service
fatal_after_ten n [] h = cc
fatal_after_ten n (exited true ∷ events) h = elim (fatal_after_ten n events h) [
  | inl r ↦ inl (exit_in_run r)
  | inr r ↦ inr (later r)
]
fatal_after_ten n (exited false ∷ events) h = cc
fatal_after_ten n (health true ∷ events) h = elim (fatal_after_ten 0 events h) [
  | inl r ↦ inr (health true ∷ [], events, refl, r)
  | inr r ↦ inr (later r)
]
fatal_after_ten n (health false ∷ events) h = elim (Bool-cases (n + 1 == 10)) [
  | inl e ↦ inl (last_failure events ((==_iff (n + 1) 10).0 e))
  | inr e ↦ elim (fatal_after_ten (n + 1) events (rw e at h)) [
    | inl r ↦ inl (failure_in_run r)
    | inr r ↦ inr (later r)
  ]
]

true-ne-false : ¬ (true ≡ false)
true-ne-false h = cc

run_exhausts :
    (n : ℕ) (run after : List Event)
    → n < 10
    → All IsBad run
    → 10 ≤ n + failures run
    → check_service n (run ++ after) ≡ too_many_failures
unfolding check_service
run_exhausts n [] after lt h ten = absurd (omega arith)
run_exhausts n (exited graceful ∷ run) after lt h ten = rw h.0 (run_exhausts n run after lt h.1 ten)
run_exhausts n (health true ∷ run) after lt h ten = cc (h.0)
run_exhausts n (health false ∷ run) after lt h ten = elim (Bool-cases (n + 1 == 10)) [
  | inl e ↦ rw e refl
  | inr e ↦
      let more : n + 1 ≢ 10 = λ s. true-ne-false (sym ((==_iff (n + 1) 10).1 s) ∙ e) in
      rw e (run_exhausts (n + 1) run after (omega (arith, more)) h.1 (omega arith))
]

-- Whatever the count is when the rest begins, the rest ends the process: so do all the events.
passes :
    (n : ℕ) (before rest : List Event)
    → n < 10
    → All IsTolerated before
    → ((m : ℕ) → m < 10 → check_service m rest ≡ too_many_failures)
    → check_service n (before ++ rest) ≡ too_many_failures
unfolding check_service
passes n [] rest lt h r = r n lt
passes n (exited graceful ∷ before) rest lt h r = rw h.0 (passes n before rest lt h.1 r)
passes n (health true ∷ before) rest lt h r = passes 0 before rest (omega arith) h.1 r
passes n (health false ∷ before) rest lt h r = elim (Bool-cases (n + 1 == 10)) [
  | inl e ↦ rw e refl
  | inr e ↦
      let more : n + 1 ≢ 10 = λ s. true-ne-false (sym ((==_iff (n + 1) 10).1 s) ∙ e) in
      rw e (passes (n + 1) before rest (omega (arith, more)) h.1 r)
]

All-front : (before rest : List Event) → All IsTolerated (before ++ rest) → All IsTolerated before
All-front [] rest h = tt
All-front (e ∷ before) rest h = (h.0, All-front before rest h.1)

ten_after :
    (events : List Event)
    → All IsTolerated events
    → HasTenFailures events
    → check_service 0 events ≡ too_many_failures
ten_after events t (before, rest, s, h) = rw s (
    passes 0 before rest (omega arith) (All-front before rest (subst (All IsTolerated) s t))
      (λ m lt. rw h.split (run_exhausts m h.run h.after lt h.bad (omega (arith, h.ten)))))

-- As long as the service does not exit outside of graceful termination, its supervisor gives up
-- exactly if there are ten unhealthy messages with no healthy one between them.
pub check_service_iff :
    (events : List Event)
    → All IsTolerated events
    → (check_service 0 events ≡ too_many_failures) ↔ HasTenFailures events
check_service_iff events t = (
  λ h. elim (fatal_after_ten 0 events h) [ inl r ↦ ([], events, refl, r) | inr r ↦ r ],
  ten_after events t,
)
