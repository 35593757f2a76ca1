-- ===== src/KubeClient/Drain/Laws.antt =====
-- What a finished drain says of the pods.
use microkube.Base.{
  ℕ, zero, suc, ◌+◌, ◌-◌, ◌<◌, ◌≤◌, Bool, true, false, none, some, List, [], ◌∷◌, ◌++◌,
  append_assoc, append-nil, ◌≡◌, ◌⊎◌, inl, inr, refl, sym, ap, ap₂, ◌∙◌, arith, if◌then◌else◌, All,
  length, Bool-cases, dec_lt,
}
use microkube.KubeClient.Drain.{
  Pod, Cluster, Drained, drained, deadline_exceeded, no_node, fatal, out_of_fuel, evict_pods,
  running_pods, await_pods, drain_pods,
}

module _ (c : Cluster) where
  -- The pods whose eviction is accepted, in order.
  abbrev pub accepted : List Pod → List Pod
  accepted [] = []
  accepted (pod ∷ pods) = let rest = accepted pods in if c.evict pod then pod ∷ rest else rest

  -- No pod of the list is found in the round.
  abbrev pub AreGone : ℕ → List Pod → Type 0
  AreGone round = All (λ pod. c.found round pod ≡ false)

  running_pods-AreGone :
      (round : ℕ) (pods : List Pod) → running_pods c round pods ≡ 0 → AreGone round pods
  unfolding running_pods
  running_pods-AreGone round [] h = tt
  running_pods-AreGone round (pod ∷ pods) h = elim (Bool-cases (c.found round pod)) [
    | inl f ↦ absurd (omega (arith, rw f at h))
    | inr f ↦ (f, running_pods-AreGone round pods (omega (arith, rw f at h)))
  ]

  evict_on :
      (i : ℕ) (pending : List Pod) (pod : Pod) (pods : List Pod)
      → c.expired i ≡ false
      → evict_pods c i pending (pod ∷ pods)
        ≡ evict_pods c (i + 1) (if c.evict pod then pending ++ pod ∷ [] else pending) pods
  unfolding evict_pods
  evict_on i pending pod pods e = rw e refl

  joined :
      (b : Bool) (pending : List Pod) (pod : Pod) (rest : List Pod)
      → (if b then pending ++ pod ∷ [] else pending) ++ rest
        ≡ pending ++ (if b then pod ∷ rest else rest)
  joined true pending pod rest = append_assoc pending (pod ∷ []) rest
  joined false pending pod rest = refl

  -- No deadline check from the i-th on, of so many, finds the deadline passed.
  abbrev pub IsInTime : ℕ → ℕ → Type 0
  IsInTime i n = (j : ℕ) → j < n → c.expired (i + j) ≡ false

  in_time : (i n : ℕ) → c.expired i ≡ false → IsInTime (i + 1) n → IsInTime i (suc n)
  in_time i n e q zero h = let same : i + 0 ≡ i = omega arith in ap c.expired same ∙ e
  in_time i n e q (suc j) h =
      let same : i + suc j ≡ i + 1 + j = omega arith in ap c.expired same ∙ q j (omega arith)

  evict_pods_cases :
      (i : ℕ) (pending pods : List Pod)
      → (evict_pods c i pending pods ≡ none)
        ⊎ ((evict_pods c i pending pods ≡ some (pending ++ accepted pods, i + length pods))
            × IsInTime i (length pods))
  unfolding evict_pods
  evict_pods_cases i pending [] =
      let same : i + 0 ≡ i = omega arith in
      inr (rw (append-nil pending, same) refl, λ j h. elim h [ ])
  evict_pods_cases i pending (pod ∷ pods) = elim (Bool-cases (c.expired i)) [
    | inl e ↦ inl (rw e refl)
    | inr e ↦ elim (evict_pods_cases (i + 1) _ pods) [
      | inl r ↦ inl (evict_on i pending pod pods e ∙ r)
      | inr (r, q) ↦
          let next : i + 1 + length pods ≡ i + suc (length pods) = omega arith in
          inr (
            evict_on i pending pod pods e
                ∙ r
                ∙ ap some
                    (ap₂ (λ x y. (x, y)) (joined (c.evict pod) pending pod (accepted pods)) next),
            in_time i (length pods) e q,
          )
    ]
  ]

  evict_pods_in_time :
      (i : ℕ) (pending pods : List Pod)
      → IsInTime i (length pods)
      → evict_pods c i pending pods ≡ some (pending ++ accepted pods, i + length pods)
  unfolding evict_pods
  evict_pods_in_time i pending pods q = elim (evict_pods_cases i pending pods) [
    | inr (r, _) ↦ r
    | inl r ↦ absurd (not_none i pending pods q r)
  ]
    where
      not_none :
          (i : ℕ) (pending pods : List Pod)
          → IsInTime i (length pods)
          → ¬ (evict_pods c i pending pods ≡ none)
      not_none i pending [] q r = cc
      not_none i pending (pod ∷ pods) q r =
          let same : i + 0 ≡ i = omega arith in
          let e : c.expired i ≡ false = ap c.expired (sym same) ∙ q 0 (omega arith) in
          not_none (i + 1) _ pods
            (λ j h.
              let next : i + 1 + j ≡ i + suc j = omega arith in
              ap c.expired next ∙ q (suc j) (omega arith))
            (sym (evict_on i pending pod pods e) ∙ r)

  -- What may be said of the pending pods when the wait is over.
  abbrev pub IsSafe : List Pod → Drained → Type 0
  IsSafe pending (drained round) = AreGone round pending
  IsSafe pending deadline_exceeded = Unit
  IsSafe pending no_node = Unit
  IsSafe pending fatal = Unit
  IsSafe pending out_of_fuel = ⊥

  true-ne-false : ¬ (true ≡ false)
  true-ne-false h = cc

  -- A deadline that has passed in check d was checked after n checks in time.
  not_yet : (d n : ℕ) → c.expired d ≡ true → IsInTime 0 n → n ≤ d
  not_yet d n e q = elim (dec_lt d n) [
    | yes lt ↦
        let same : 0 + d ≡ d = omega arith in
        absurd (true-ne-false (sym e ∙ (ap c.expired (sym same) ∙ q d lt)))
    | no ge ↦ omega arith
  ]

  await_pods_ends :
      (fuel m i round : ℕ) (pending : List Pod)
      → m < fuel
      → c.expired (i + m) ≡ true
      → IsSafe pending (await_pods c fuel i round pending)
  unfolding await_pods
  await_pods_ends zero m i round pending h e = elim h [ ]
  await_pods_ends (suc fuel) m i round pending h e = elim (Bool-cases (c.expired i)) [
    | inl x ↦ rw (x, await_pods) tt
    | inr x ↦
        go x (running_pods c round pending) refl m h e
          (λ m' h' e'. await_pods_ends fuel m' (i + 1) (round + 1) pending h' e')
  ]
    where
      go :
          c.expired i ≡ false
          → (n : ℕ) → running_pods c round pending ≡ n
          → (m : ℕ) → m < suc fuel
          → c.expired (i + m) ≡ true
          → ((m' : ℕ)
              → m' < fuel
              → c.expired (i + 1 + m') ≡ true
              → IsSafe pending (await_pods c fuel (i + 1) (round + 1) pending))
          → IsSafe pending (await_pods c (suc fuel) i round pending)
      go x zero r m h e rest = rw (x, await_pods, r) (running_pods-AreGone round pending r)
      go x (suc n) r zero h e rest =
          let same : i + 0 ≡ i = omega arith in
          absurd (true-ne-false (sym e ∙ (ap c.expired same ∙ x)))
      go x (suc n) r (suc m) h e rest =
          let next : i + 1 + m ≡ i + suc m = omega arith in
          rw (x, await_pods, r) (rest m (omega arith) (ap c.expired next ∙ e))

  -- If the deadline passes by the d-th check, then d + 1 rounds of the wait are enough: the drain
  -- has come to an end by then, and if it returns no error, then no pod whose eviction was accepted
  -- is found in the last round.
  pub drain_pods_ends :
      (d : ℕ) (pods : List Pod)
      → c.pods ≡ some pods
      → c.expired d ≡ true
      → IsSafe (accepted pods) (drain_pods c (suc d))
  unfolding drain_pods
  drain_pods_ends d pods p e = elim (evict_pods_cases 0 [] pods) [
    | inl r ↦ rw (p, drain_pods, r) tt
    | inr (r, q) ↦
        let late : length pods ≤ d = not_yet d (length pods) e q in
        let check : 0 + length pods + (d - length pods) ≡ d = omega arith in
        rw (p, drain_pods, r)
          (await_pods_ends (suc d) (d - length pods) (0 + length pods) 0 (accepted pods)
            (omega arith) (ap c.expired check ∙ e))
  ]

  nothing : (pods : List Pod) → All (λ pod. c.evict pod ≡ false) pods → accepted pods ≡ []
  nothing [] h = refl
  nothing (pod ∷ pods) h = rw h.0 (nothing pods h.1)

  -- If no eviction is accepted and the deadline does not pass before the wait, the drain returns
  -- no error after its first round, whatever pods still run on the node.
  pub drain_pods_refused :
      (fuel : ℕ) (pods : List Pod)
      → c.pods ≡ some pods
      → All (λ pod. c.evict pod ≡ false) pods
      → ((i : ℕ) → i ≤ length pods → c.expired i ≡ false)
      → drain_pods c (suc fuel) ≡ drained 0
  unfolding drain_pods await_pods running_pods
  drain_pods_refused fuel pods p h e =
      let r = evict_pods_in_time 0 [] pods (λ j lt. e (0 + j) (omega arith)) in
      rw (p, drain_pods, r, nothing pods h)
        (settled (0 + length pods) (e (0 + length pods) (omega arith)))
    where
      settled : (i : ℕ) → c.expired i ≡ false → await_pods c (suc fuel) i 0 [] ≡ drained 0
      settled i x = rw (x, await_pods) refl
