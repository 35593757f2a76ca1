-- ===== src/Handlers/Health/Certificates.antt =====
-- Probes that end before a request.
use microkube.Base.{
  ℕ, zero, suc, ◌+◌, ◌*◌, ◌<◌, Bool, true, false, none, some, ◌≡◌, ◌↔◌, inl, inr, refl, sym, subst,
  ◌∙◌, arith, ltb, Option-cases, Bool-cases,
}
use microkube.Base.Errors.{GoError, ErrorsPkg}
use microkube.Handlers.Health.{Answer, TlsFiles, Probe, await, health_check_fun}
use microkube.Handlers.Health.Laws.{settles, unsent, await_settled, await_dial}

module _ {Body : Type 0} (pkg : ErrorsPkg) (validator : Body → GoError)
    (get : ℕ → Answer Body) where
  unsent_error :
      {e : GoError}
      → some (unsent pkg validator get e) ≡ some (unsent pkg validator get none)
      → e ≡ none
  unsent_error h = cc

  made : {r q : Probe} → 0 < r.requests → some r ≡ some q → 0 < q.requests
  made {r} {q} h e = let same : r ≡ q = cc in subst (λ (x : Probe). 0 < x.requests) same h

  -- A probe that comes out of the loop has made a request.
  await_requests :
      (fuel n wait slept : ℕ) {p : Probe}
      → await pkg validator get fuel n wait slept ≡ some p
      → 0 < p.requests
  await_requests zero n wait slept e = unfold await in cc
  await_requests (suc fuel) n wait slept {p} e =
      elim (Option-cases (settles pkg validator get (get n))) [
        | inr (x, s) ↦
            made (omega arith) (sym (await_settled pkg validator get fuel n wait slept s) ∙ e)
        | inl d ↦
            let step = sym (await_dial pkg validator get fuel n wait slept d) ∙ e in
            elim (Bool-cases (ltb 7000 wait)) [
              | inl late ↦ made (omega arith) (rw late at step)
              | inr early ↦ await_requests fuel (n + 1) (2 * wait) (slept + wait) (rw early at step)
            ]
      ]

  -- With certificates, a probe returns no error and has made no request exactly if the files can
  -- be read and the pool takes no certificate of the CA file: the service counts as healthy then.
  pub health_check_fun_unchecked :
      (fuel : ℕ) (tls : TlsFiles)
      → (health_check_fun pkg validator get fuel (some tls)
          ≡ some (record { error = none; requests = 0; slept = 0 }))
        ↔ ((tls.read_ca ≡ none) × (tls.load_pair ≡ none) × (tls.append_ok ≡ false))
  unfolding health_check_fun
  health_check_fun_unchecked fuel tls = (
    λ h. go tls.read_ca refl tls.load_pair refl tls.append_ok refl h,
    λ (r, l, a). rw (r, health_check_fun, l, a, pkg.wrap_nil "CA append to pool failed") refl,
  )
    where
      go :
          (r : GoError)
          → tls.read_ca ≡ r
          → (l : GoError) → tls.load_pair ≡ l
          → (a : Bool) → tls.append_ok ≡ a
          → health_check_fun pkg validator get fuel (some tls)
            ≡ some (record { error = none; requests = 0; slept = 0 })
          → (tls.read_ca ≡ none) × (tls.load_pair ≡ none) × (tls.append_ok ≡ false)
      go (some e) r l p a q h =
          absurd (pkg.wrap_err e _ (unsent_error (rw (r, health_check_fun) at h)))
      go none r (some e) p a q h =
          absurd (pkg.wrap_err e _ (unsent_error (rw (r, health_check_fun, p) at h)))
      go none r none p false q h = (r, p, q)
      go none r none p true q h =
          absurd (omega (arith, await_requests fuel 0 100 0 (rw (r, health_check_fun, p, q) at h)))
