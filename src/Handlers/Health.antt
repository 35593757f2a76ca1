-- ===== src/Handlers/Health.antt =====
-- healthCheckFun of pkg/handlers/BaseServiceHandler.go: one health probe. What the files, the
-- certificate pool and the HTTP client answer is a parameter; times are in milliseconds.
pub mod Laws
pub mod Certificates
use microkube.Base.{ℕ, zero, suc, ◌+◌, ◌*◌, String, Bool, Option, none, some, ltb, if◌then◌else◌}
use microkube.Base.Errors.{GoError, ErrorsPkg}

-- The answer to one httpClient.Get: a response with a body, a failed dial (a *url.Error around a
-- *net.OpError whose Op is "dial"), or any other error.
pub data Answer (Body : Type 0) : Type 0 where
  response : Body → Answer Body
  dial_error : String → Answer Body
  other_error : String → Answer Body

-- Loading the certificates, where the handler has a CA: ReadFile, LoadX509KeyPair and
-- AppendCertsFromPEM.
pub record TlsFiles : Type 0 where
  pub read_ca : GoError
  pub load_pair : GoError
  pub append_ok : Bool

-- The error that a probe returns, how many requests it has made, and how long it has slept.
pub record Probe : Type 0 where
  pub error : GoError
  pub requests : ℕ
  pub slept : ℕ

module _ {Body : Type 0} (pkg : ErrorsPkg) (validator : Body → GoError)
    (get : ℕ → Answer Body) where
  -- The loop over `err`, after `n` requests, the last of which answered `get n`; `none` says that
  -- the fuel has run out.
  unfoldable pub await : ℕ → ℕ → ℕ → ℕ → Option Probe
  await zero n wait_time slept = none
  await (suc fuel) n wait_time slept = elim (get n) [
    | response body ↦ some (record { error = validator body; requests = n + 1; slept = slept })
    | other_error e ↦ some (record {
      error = pkg.wrap (some e) "Health check failed";
      requests = n + 1;
      slept = slept;
    })
    | dial_error e ↦
        let later = await fuel (n + 1) (2 * wait_time) (slept + wait_time) in
        if ltb 7000 wait_time
        then some (record {
          error = some "Timeout waiting for service to come up";
          requests = n + 1;
          slept = slept;
        })
        else later
  ]

  -- Nothing is requested before the certificates are loaded.
  abbrev pub refused : GoError → Option Probe
  refused e = some (record { error = e; requests = 0; slept = 0 })

  -- healthCheckFun; `none` is a handler without a CA.
  unfoldable pub health_check_fun : ℕ → Option TlsFiles → Option Probe
  health_check_fun fuel none = await fuel 0 100 0
  health_check_fun fuel (some tls) = elim tls.read_ca [
    | some e ↦ refused (pkg.wrap (some e) "CA load from file failed")
    | none ↦ elim tls.load_pair [
      | some e ↦ refused (pkg.wrap (some e) "client cert load from file failed")
      | none ↦
          if tls.append_ok
          then await fuel 0 100 0
          else refused (pkg.wrap none "CA append to pool failed")
    ]
  ]
