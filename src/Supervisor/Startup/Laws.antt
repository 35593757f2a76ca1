-- ===== src/Supervisor/Startup/Laws.antt =====
-- How the start of the cluster ends.
use microkube.Base.{
  ℕ, zero, suc, ◌+◌, ◌<◌, String, Bool, true, false, none, some, List, [], ◌∷◌, ◌++◌, map, concat,
  append_assoc, append-nil, ◌≡◌, ◌⊎◌, inl, inr, refl, sym, ap, ap₂, if◌then◌else◌, ◌∙◌, arith, All,
  Bool-cases,
}
use microkube.Directories.{done}
use microkube.Supervisor.Startup.{
  Attempt, Startup, started, not_healthy, await_healthy, start_service, Service, Act, launch, stop,
  log_fatal, started_acts, exit_handler, kubeconfig_error_of, start_all, Preparation, start,
}

-- What the loop of health checks comes to, from check i on, with so many checks left.
abbrev pub AwaitsFirst : (ℕ → Bool) → ℕ → ℕ → Startup → Type 0
AwaitsFirst healthy left i s =
    (((j : ℕ) → j < left → healthy (i + j) ≡ false) × (s ≡ not_healthy))
    ⊎ ((n : ℕ) × (n < left)
        × ((j : ℕ) → j < n → healthy (i + j) ≡ false)
        × (healthy (i + n) ≡ true)
        × (s ≡ started (i + n + 1)))

module _ (healthy : ℕ → Bool) where
  unhealthy_before :
      (i n : ℕ)
      → healthy i ≡ false
      → ((j : ℕ) → j < n → healthy (i + 1 + j) ≡ false)
      → (j : ℕ) → j < suc n
      → healthy (i + j) ≡ false
  unhealthy_before i n e h zero lt = let same : i + 0 ≡ i = omega arith in ap healthy same ∙ e
  unhealthy_before i n e h (suc j) lt =
      let same : i + suc j ≡ i + 1 + j = omega arith in ap healthy same ∙ h j (omega arith)

  await_healthy_first : (left i : ℕ) → AwaitsFirst healthy left i (await_healthy healthy left i)
  unfolding await_healthy
  await_healthy_first zero i = inl (λ j h. elim h [ ], refl)
  await_healthy_first (suc left) i = elim (Bool-cases (healthy i)) [
    | inl e ↦
        let same : i + 0 ≡ i = omega arith in
        inr (0, omega arith, λ j h. elim h [ ], ap healthy same ∙ e, rw (e, same) refl)
    | inr e ↦ elim (await_healthy_first left (i + 1)) [
      | inl (h, s) ↦ inl (unhealthy_before i left e h, rw e s)
      | inr (n, lt, h, t, s) ↦
          let same : i + suc n ≡ i + 1 + n = omega arith in
          inr (
            suc n,
            omega arith,
            unhealthy_before i n e h,
            ap healthy same ∙ t,
            rw e (s ∙ ap (λ x. started (x + 1)) (sym same)),
          )
    ]
  ]

-- A service that can be created and started counts as started with its first healthy check, if
-- that is one of the first eight; if none of these is healthy, the process ends.
pub start_service_first :
    (attempt : Attempt)
    → attempt.create_error ≡ none
    → attempt.start_error ≡ none
    → AwaitsFirst attempt.healthy 8 0 (start_service attempt)
unfolding start_service
start_service_first attempt c s = rw (c, start_service, s) (await_healthy_first attempt.healthy 8 0)

-- A service that comes up is launched, and stopped again at once if its start function defers this.
abbrev pub comes_up : Service → List Act
comes_up service = came service.name service.defers_stop
  where
    came : String → Bool → List Act
    came name true = launch name ∷ stop name ∷ []
    came name false = launch name ∷ []

started_acts_lem : (service : Service) → started_acts service ≡ comes_up service
unfolding started_acts
started_acts_lem service = elim (Bool-cases service.defers_stop) [
  | inl e ↦ rw (e, started_acts) refl
  | inr e ↦ rw (e, started_acts) refl
]

all_acts : (services : List Service) → map started_acts services ≡ map comes_up services
all_acts [] = refl
all_acts (service ∷ services) = ap₂ (λ x xs. x ∷ xs) (started_acts_lem service) (all_acts services)

module _ (attempt : String → Attempt) where
  -- The service comes up, and so does the kubeconfig if its start function makes one.
  abbrev pub Starts : Service → Type 0
  Starts service =
      ((n : ℕ) × (start_service (attempt service.name) ≡ started n))
      × (service.makes_kubeconfig ≡ true
          → (attempt service.name).has_kubeconfig ≡ false
          → (attempt service.name).kubeconfig_error ≡ none)

  abbrev pub name_of : Service → String
  name_of service = service.name

  kubeconfig_made :
      (service : Service)
      → Starts service
      → kubeconfig_error_of (attempt service.name) service ≡ none
  kubeconfig_made service (_, k) =
      made service.makes_kubeconfig (attempt service.name).has_kubeconfig k
    where
      made :
          (makes there : Bool)
          → (makes ≡ true → there ≡ false → (attempt service.name).kubeconfig_error ≡ none)
          → (if makes
              then if there then none else (attempt service.name).kubeconfig_error
              else none)
            ≡ none
      made true true k = refl
      made true false k = k refl refl
      made false there k = refl

  -- Services that start hand over to the ones behind them.
  Starts-on :
      (handlers : List String) (services rest : List Service)
      → All Starts services
      → start_all attempt handlers (services ++ rest) ≡ (
          let (acts, result) = start_all attempt (handlers ++ map name_of services) rest in
          (concat (map started_acts services) ++ acts, result))
  unfolding start_all
  Starts-on handlers [] rest h = rw (append-nil handlers) refl
  Starts-on handlers (service ∷ services) rest (((n, e), k), h) =
      rw (e, kubeconfig_made service ((n, e), k), start_all)
        (rw (Starts-on (handlers ++ service.name ∷ []) services rest h) (
          rw (append_assoc handlers (service.name ∷ []) (map name_of services)) (
            ap
              (λ x.
                (x, (start_all attempt (handlers ++ service.name ∷ map name_of services) rest).1))
              (sym (append_assoc (started_acts service) (concat (map started_acts services)) _)))))

  unhealthy_at :
      (handlers : List String) (service : Service) (rest : List Service)
      → start_service (attempt service.name) ≡ not_healthy
      → start_all attempt handlers (service ∷ rest)
        ≡ (launch service.name ∷ log_fatal service.name ∷ map stop handlers, none)
  unfolding start_all exit_handler
  unhealthy_at handlers service rest e = rw (e, start_all) refl

  no_kubeconfig_at :
      (handlers : List String) (service : Service) (rest : List Service) (n : ℕ) (x : String)
      → start_service (attempt service.name) ≡ started n
      → kubeconfig_error_of (attempt service.name) service ≡ some x
      → start_all attempt handlers (service ∷ rest) ≡ (
        launch service.name ∷ log_fatal service.name ∷ map stop (handlers ++ service.name ∷ []),
        none,
      )
  unfolding start_all exit_handler
  no_kubeconfig_at handlers service rest n x e k = rw (e, k, start_all) refl

module _ (preparation : Preparation) (attempt : String → Attempt) where
  -- Nothing in front of the start functions is fatal.
  pub record IsPrepared : Type 0 where
    pub directories_done : preparation.directories ≡ done
    pub credentials_made : preparation.credentials_error ≡ none
    pub paths : String × String
    pub binaries_found : preparation.binaries ≡ some paths

  prepared_start :
      (services : List Service)
      → IsPrepared
      → start preparation attempt services ≡ start_all attempt [] services
  unfolding start
  prepared_start services p =
      rw (p.directories_done, p.credentials_made, p.binaries_found, start) refl

  -- If the preparations succeed and the services before one start, with the kubeconfig where one of
  -- them makes it, and if that one is launched but does not become healthy, then no later one is
  -- launched, and the exit handler stops the services before it in the order of their start; the
  -- service itself is not stopped.
  pub start_unhealthy :
      (before : List Service) (service : Service) (after : List Service)
      → IsPrepared
      → All (Starts attempt) before
      → start_service (attempt service.name) ≡ not_healthy
      → start preparation attempt (before ++ service ∷ after) ≡ (
        concat (map comes_up before)
            ++ launch service.name
              ∷ log_fatal service.name
              ∷ map stop (map (name_of attempt) before),
        none,
      )
  start_unhealthy before service after p h e =
      prepared_start (before ++ service ∷ after) p
      ∙ (Starts-on attempt [] before (service ∷ after) h
          ∙ rw
              (all_acts before, unhealthy_at attempt (map (name_of attempt) before) service after e)
              refl)

  -- Where the service is up and its kubeconfig cannot be made, it is stopped with those before it.
  start_no_kubeconfig :
      (before : List Service) (service : Service) (after : List Service) (n : ℕ) (x : String)
      → IsPrepared
      → All (Starts attempt) before
      → start_service (attempt service.name) ≡ started n
      → kubeconfig_error_of (attempt service.name) service ≡ some x
      → start preparation attempt (before ++ service ∷ after) ≡ (
        concat (map comes_up before)
            ++ launch service.name
              ∷ log_fatal service.name
              ∷ map stop (map (name_of attempt) before ++ service.name ∷ []),
        none,
      )
  start_no_kubeconfig before service after n x p h e k =
      prepared_start (before ++ service ∷ after) p
      ∙ (Starts-on attempt [] before (service ∷ after) h
          ∙ rw
              (
                all_acts before,
                no_kubeconfig_at attempt (map (name_of attempt) before) service after n x e k,
              )
              refl)

  -- If the preparations succeed, every service starts and the kubeconfig is there or can be made,
  -- then start returns with the handlers of all services in order, and the services have been
  -- launched in that order; a service whose start function defers a Stop, as that of kube-proxy
  -- does, has been stopped again at once.
  pub start_lem :
      (services : List Service)
      → IsPrepared
      → All (Starts attempt) services
      → start preparation attempt services
        ≡ (concat (map comes_up services), some (map (name_of attempt) services))
  unfolding start_all
  start_lem services p h =
      prepared_start services p
      ∙ (ap (start_all attempt []) (sym (append-nil services))
          ∙ (Starts-on attempt [] services [] h
              ∙ rw (all_acts services, append-nil (concat (map comes_up services))) refl))
