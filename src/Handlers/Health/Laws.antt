-- ===== src/Handlers/Health/Laws.antt =====
-- How a health probe ends.
use native.Mathlib.Nat.{pow-suc}
use native.Mathlib.Numerals.{add-one}
use microkube.Base.{
  ℕ, zero, suc, ◌+◌, ◌-◌, ◌*◌, ◌^◌, ◌≤◌, ◌<◌, Bool, true, false, Option, none, some, ◌≡◌, ◌⊎◌, inl,
  inr, refl, ap, ◌∙◌, arith, ltb, if◌then◌else◌, Option-cases, dec_lt,
}
use microkube.Base.Errors.{GoError, ErrorsPkg}
use microkube.Handlers.Health.{
  Answer, response, dial_error, other_error, TlsFiles, Probe, await, health_check_fun,
}

-- The first seven pauses are below the limit.
short_pause : (n : ℕ) → n < 7 → ltb 7000 (100 * 2 ^ n) ≡ false
short_pause zero h = refl
short_pause (suc zero) h = refl
short_pause (suc (suc zero)) h = refl
short_pause (suc (suc (suc zero))) h = refl
short_pause (suc (suc (suc (suc zero)))) h = refl
short_pause (suc (suc (suc (suc (suc zero))))) h = refl
short_pause (suc (suc (suc (suc (suc (suc zero)))))) h = refl
short_pause (suc (suc (suc (suc (suc (suc (suc n))))))) h = absurd (omega arith)

pow_bound : (n : ℕ) → n < 8 → 2 ^ n ≤ 128
pow_bound zero h = omega arith
pow_bound (suc zero) h = omega arith
pow_bound (suc (suc zero)) h = omega arith
pow_bound (suc (suc (suc zero))) h = omega arith
pow_bound (suc (suc (suc (suc zero)))) h = omega arith
pow_bound (suc (suc (suc (suc (suc zero))))) h = omega arith
pow_bound (suc (suc (suc (suc (suc (suc zero)))))) h = omega arith
pow_bound (suc (suc (suc (suc (suc (suc (suc n))))))) h =
    let z : n ≡ 0 = omega arith in rw z (omega arith)

-- Pauses that double.
doubled : (n : ℕ) → 2 * (100 * 2 ^ n) ≡ 100 * 2 ^ suc n
doubled n = omega (arith, pow-suc 2 n)

pow_pos : (n : ℕ) → 0 < 2 ^ n
pow_pos zero = omega arith
pow_pos (suc n) = omega (arith, pow_pos n, pow-suc 2 n)

summed : (n : ℕ) → 100 * 2 ^ n - 100 + 100 * 2 ^ n ≡ 100 * 2 ^ suc n - 100
summed n = omega (arith, pow-suc 2 n, pow_pos n)

module _ {Body : Type 0} (pkg : ErrorsPkg) (validator : Body → GoError)
    (get : ℕ → Answer Body) where
  -- The error that an answer settles the probe with; a failed dial settles nothing.
  abbrev pub settles : Answer Body → Option GoError
  settles (response body) = some (validator body)
  settles (other_error e) = some (pkg.wrap (some e) "Health check failed")
  settles (dial_error e) = none

  abbrev pub AllDialErrors : ℕ → Type 0
  AllDialErrors n = (k : ℕ) → k < n → settles (get k) ≡ none

  pub await_settled :
      (fuel n wait slept : ℕ) {e : GoError}
      → settles (get n) ≡ some e
      → await pkg validator get (suc fuel) n wait slept
        ≡ some (record { error = e; requests = n + 1; slept = slept })
  unfolding await
  await_settled fuel n wait slept {e} h = go (get n) refl h
    where
      go :
          (a : Answer Body)
          → get n ≡ a
          → settles a ≡ some e
          → await pkg validator get (suc fuel) n wait slept
            ≡ some (record { error = e; requests = n + 1; slept = slept })
      go (response body) g s = rw (g, await) (cc s)
      go (other_error x) g s = rw (g, await) (cc s)
      go (dial_error x) g s = cc

  pub await_dial :
      (fuel n wait slept : ℕ)
      → settles (get n) ≡ none
      → await pkg validator get (suc fuel) n wait slept ≡ (
          if ltb 7000 wait
          then some (record {
            error = some "Timeout waiting for service to come up";
            requests = n + 1;
            slept = slept;
          })
          else await pkg validator get fuel (n + 1) (2 * wait) (slept + wait))
  unfolding await
  await_dial fuel n wait slept h = go (get n) refl h
    where
      go :
          (a : Answer Body)
          → get n ≡ a
          → settles a ≡ none
          → await pkg validator get (suc fuel) n wait slept ≡ (
              if ltb 7000 wait
              then some (record {
                error = some "Timeout waiting for service to come up";
                requests = n + 1;
                slept = slept;
              })
              else await pkg validator get fuel (n + 1) (2 * wait) (slept + wait))
      go (response body) g s = cc
      go (other_error x) g s = cc
      go (dial_error x) g s = rw (g, await) refl

  -- Where the limit is not exceeded, the probe goes on.
  await_on :
      (fuel n : ℕ)
      → n < 7
      → settles (get n) ≡ none
      → await pkg validator get (suc fuel) n (100 * 2 ^ n) (100 * 2 ^ n - 100)
        ≡ await pkg validator get fuel (suc n) (100 * 2 ^ suc n) (100 * 2 ^ suc n - 100)
  await_on fuel n h d =
      await_dial fuel n (100 * 2 ^ n) (100 * 2 ^ n - 100) d
      ∙ rw (short_pause n h, add-one n, doubled n, summed n) refl

  -- After `n` failed dials the next pause is 100 * 2 ^ n, and so far the pauses add up to
  -- 100 * 2 ^ n - 100.
  await_after :
      (n : ℕ)
      → n < 8
      → AllDialErrors n
      → await pkg validator get 8 0 100 0
        ≡ await pkg validator get (8 - n) n (100 * 2 ^ n) (100 * 2 ^ n - 100)
  await_after zero h d = refl
  await_after (suc n) h d =
      let fuel : 8 - n ≡ suc (8 - suc n) = omega arith in
      await_after n (omega arith) (λ k lt. d k (omega arith))
      ∙ ap (λ f. await pkg validator get f n (100 * 2 ^ n) (100 * 2 ^ n - 100)) fuel
      ∙ await_on (8 - suc n) n (omega arith) (d n (omega arith))

  -- The first answer that is no failed dial, if it is one of the first eight, settles the probe:
  -- a response by the validator, another error by a wrapped error. The probe has then made
  -- n + 1 requests and paused for 0.1 s * (2 ^ n - 1).
  pub await_first_answer :
      (n : ℕ) {e : GoError}
      → n < 8
      → AllDialErrors n
      → settles (get n) ≡ some e
      → health_check_fun pkg validator get 8 none
        ≡ some (record { error = e; requests = n + 1; slept = 100 * 2 ^ n - 100 })
  unfolding health_check_fun
  await_first_answer n h d s =
      let fuel : 8 - n ≡ suc (7 - n) = omega arith in
      await_after n h d
      ∙ ap (λ f. await pkg validator get f n (100 * 2 ^ n) (100 * 2 ^ n - 100)) fuel
      ∙ await_settled (7 - n) n (100 * 2 ^ n) (100 * 2 ^ n - 100) s

  await_timeout :
      AllDialErrors 8
      → health_check_fun pkg validator get 8 none
        ≡ some (record {
          error = some "Timeout waiting for service to come up";
          requests = 8;
          slept = 12700;
        })
  unfolding health_check_fun
  await_timeout d =
      await_after 7 (omega arith) (λ k lt. d k (omega arith))
      ∙ await_dial 0 7 12800 12700 (d 7 (omega arith))

  -- The first answer below `m` that settles the probe, if there is one.
  first_settled :
      (m : ℕ)
      → AllDialErrors m
        ⊎ ((n : ℕ) × (n < m) × AllDialErrors n × ((e : GoError) × (settles (get n) ≡ some e)))
  first_settled zero = inl (λ k h. elim h [ ])
  first_settled (suc m) = elim (first_settled m) [
    | inr (n, h, d, s) ↦ inr (n, omega arith, d, s)
    | inl d ↦ elim (Option-cases (settles (get m))) [
      | inr s ↦ inr (m, omega arith, d, s)
      | inl e ↦ inl (λ k h. elim (dec_lt k m) [
        | yes lt ↦ d k lt
        | no ge ↦ let same : k ≡ m = omega arith in rw same e
      ])
    ]
  ]

  -- The bounds of a probe.
  abbrev pub IsBounded : Probe → Type 0
  IsBounded p = (p.requests ≤ 8) × (p.slept ≤ 12700)

  -- A probe that has made no request.
  abbrev pub unsent : GoError → Probe
  unsent e = record { error = e; requests = 0; slept = 0 }

  probe_ends : (p : Probe) × (health_check_fun pkg validator get 8 none ≡ some p) × IsBounded p
  probe_ends = elim (first_settled 8) [
    | inl d ↦ (_, await_timeout d, (omega arith, omega arith))
    | inr (n, h, d, s) ↦ (
      record { error = s.0; requests = n + 1; slept = 100 * 2 ^ n - 100 },
      await_first_answer n h d s.1,
      (omega arith, omega (arith, pow_bound n h)),
    )
  ]

  -- Eight rounds are always enough: every probe, with or without certificates, comes to an end
  -- after eight requests and 12.7 seconds of pauses at most.
  pub health_check_fun_ends :
      (tls : Option TlsFiles)
      → (p : Probe) × (health_check_fun pkg validator get 8 tls ≡ some p) × IsBounded p
  unfolding health_check_fun
  health_check_fun_ends none = probe_ends
  health_check_fun_ends (some tls) = go tls.read_ca refl tls.load_pair refl tls.append_ok refl
    where
      go :
          (r : GoError)
          → tls.read_ca ≡ r
          → (l : GoError) → tls.load_pair ≡ l
          → (a : Bool) → tls.append_ok ≡ a
          → (p : Probe) × (health_check_fun pkg validator get 8 (some tls) ≡ some p) × IsBounded p
      go (some e) r l p a q = (
        unsent (pkg.wrap (some e) "CA load from file failed"),
        rw (r, health_check_fun) refl,
        (omega arith, omega arith),
      )
      go none r (some e) p a q = (
        unsent (pkg.wrap (some e) "client cert load from file failed"),
        rw (r, health_check_fun, p) refl,
        (omega arith, omega arith),
      )
      go none r none p false q = (
        unsent (pkg.wrap none "CA append to pool failed"),
        rw (r, health_check_fun, p, q) refl,
        (omega arith, omega arith),
      )
      go none r none p true q =
          let (probe, e, b) = probe_ends in (probe, rw (r, health_check_fun, p, q) e, b)
