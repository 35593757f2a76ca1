-- ===== src/Manifests/Applied/Healthy.antt =====
-- internal/manifests/KubeManifestBase.go: health checks.
use text.Mathlib.Text.{◌==◌}
use microkube.Base.{
  ℕ, ◌≤◌, String, Bool, true, false, Option, none, some, ◌⊎◌, inl, inr, ltb, if◌then◌else◌, ◌≡◌,
  ◌≢◌, ◌↔◌, refl, sym, ap, subst, ◌∙◌, arith, Bool-cases,
}
use microkube.Base.Bytes.{Bytes, codes}
use microkube.Manifests.{Deployment, Object, apps_deployment, extensions_deployment, other_object}
use microkube.Manifests.Applied.{
  KubeManifestBase, Outcome, returned, panicked, Api, apps_v1, apps_v1beta1, DeploymentStatus,
  judge, judged, check_object, is_healthy, init_health_check,
}

-- The deployment that an object is, with the client that it is asked from.
abbrev pub deployment_of : Object → Option (Api × Deployment)
deployment_of (apps_deployment deployment) = some (apps_v1, deployment)
deployment_of (extensions_deployment deployment) = some (apps_v1beta1, deployment)
deployment_of (other_object kind) = none

ready_iff : (n ready : ℕ) → ((if ltb ready n then false else true) ≡ true) ↔ (n ≤ ready)
ready_iff n ready = ground arith

abbrev answer_of : {E : Type 0} → Outcome Bool E → Bool
answer_of (returned b) = b
answer_of _ = false

abbrev status_of : {E : Type 0} → DeploymentStatus → E ⊎ Option DeploymentStatus → DeploymentStatus
status_of other (inr (some status)) = status
status_of other _ = other

judge_iff :
    {E : Type 0} (answer : E ⊎ Option DeploymentStatus)
    → (judge answer ≡ returned true) ↔ (
        (status : DeploymentStatus) × (answer ≡ inr (some status))
        × (status.replicas ≤ status.ready_replicas))
unfolding judge
judge_iff (inl e) = (λ h. cc, λ (status, h, _). cc)
judge_iff (inr none) = (λ h. cc, λ (status, h, _). cc)
judge_iff (inr (some status)) = (
  λ h. (status, refl, (ready_iff status.replicas status.ready_replicas).0 (ap answer_of h)),
  λ (x, e, ready). ap returned (
      (ready_iff status.replicas status.ready_replicas).1
        (subst (λ x. x.replicas ≤ x.ready_replicas) (sym (ap (status_of status) e)) ready)),
)

judge-panicked : {E : Type 0} (answer : E ⊎ Option DeploymentStatus) → judge answer ≢ panicked
unfolding judge
judge-panicked (inl e) h = cc
judge-panicked (inr none) h = cc
judge-panicked (inr (some status)) h = cc

some_injective : {A : Type 0} {a b : A} → some a ≡ some b → a ≡ b
some_injective e = cc

inr_injective : {A B : Type 0} {a b : B} → ◌≡◌ {A = A ⊎ B} (inr a) (inr b) → a ≡ b
inr_injective e = cc

sum_cases : {A B : Type 0} (x : A ⊎ B) → ((a : A) × (x ≡ inl a)) ⊎ ((b : B) × (x ≡ inr b))
sum_cases (inl a) = inl (a, refl)
sum_cases (inr b) = inr (b, refl)

-- What a call of InitHealthCheck that returned no error has left.
initialized :
    {C E Config : Type 0} (decode : Bytes → E ⊎ Object) (build_config : String → E ⊎ Config)
    (new_for_config : Config → E ⊎ C) (kubeconfig : String) (m m' : KubeManifestBase C)
    → init_health_check decode build_config new_for_config kubeconfig m ≡ (none, m')
    → (client : C) × (object : Object) × (m'.client ≡ some client)
      × (m'.health_obj_parsed ≡ some object)
      × (decode (codes m.health_obj) ≡ inr object)
unfolding init_health_check
initialized decode build_config new_for_config kubeconfig m m' h =
    elim (Bool-cases (m.health_obj == "")) [
      | inl e ↦ let k = rw (e, init_health_check) at h in cc
      | inr e ↦ elim (sum_cases (decode (codes m.health_obj))) [
        | inl (_, d) ↦ let k = rw (e, d, init_health_check) at h in cc
        | inr (object, d) ↦ elim (sum_cases (build_config kubeconfig)) [
          | inl (_, b) ↦ let k = rw (e, d, b, init_health_check) at h in cc
          | inr (config, b) ↦ elim (sum_cases (new_for_config config)) [
            | inl (_, n) ↦ let k = rw (e, d, b, n, init_health_check) at h in cc
            | inr (client, n) ↦
                let k = rw (e, d, b, n, init_health_check) at h in
                (
                  client,
                  object,
                  ap (λ t. t.1.client) (sym k),
                  ap (λ t. t.1.health_obj_parsed) (sym k),
                  d,
                )
          ]
        ]
      ]
    ]

module _ {C E : Type 0} (get : C → Api → String → String → E ⊎ Option DeploymentStatus) where
  -- The object is a deployment that the cluster has with all of its replicas ready.
  abbrev pub AllReady : C → Object → Type 0
  AllReady client object =
      (deployment : Deployment) × (api : Api) × (status : DeploymentStatus) × (deployment_of object
        ≡ some (api, deployment))
      × (get client api deployment.namespace deployment.name ≡ inr (some status))
      × (status.replicas ≤ status.ready_replicas)

  same_answer :
      {api api' : Api} {d d' : Deployment} (client : C) (status : DeploymentStatus)
      → ◌≡◌ {A = Option (Api × Deployment)} (some (api, d)) (some (api', d'))
      → get client api' d'.namespace d'.name ≡ inr (some status)
      → get client api d.namespace d.name ≡ inr (some status)
  same_answer client status e found =
      subst (λ t. get client t.0 t.1.namespace t.1.name ≡ inr (some status))
        (sym (some_injective e)) found

  check_object_iff :
      (client : C) (object : Object)
      → (check_object get client object ≢ panicked)
        × ((check_object get client object ≡ returned true) ↔ AllReady client object)
  unfolding check_object judged
  check_object_iff client (apps_deployment d) =
      let (there, back) = judge_iff (get client apps_v1 d.namespace d.name) in
      (
        judge-panicked _,
        (
          λ h. let (status, found, ready) = there h in (d, apps_v1, status, refl, found, ready),
          λ (d', api, status, is, found, ready).
              back (status, same_answer client status is found, ready),
        ),
      )
  check_object_iff client (extensions_deployment d) =
      let (there, back) = judge_iff (get client apps_v1beta1 d.namespace d.name) in
      (
        judge-panicked _,
        (
          λ h.
              let (status, found, ready) = there h in (d, apps_v1beta1, status, refl, found, ready),
          λ (d', api, status, is, found, ready).
              back (status, same_answer client status is found, ready),
        ),
      )
  check_object_iff client (other_object kind) =
      ((λ h. cc), ((λ h. cc), (λ (_, _, _, is, _, _). cc)))

  -- Once InitHealthCheck has returned no error, IsHealthy does not panic, and it says that the
  -- manifest is healthy exactly where the health object that was registered decodes to a
  -- deployment which the cluster has with as many ready replicas as replicas at least.
  pub is_healthy_iff :
      {Config : Type 0} (decode : Bytes → E ⊎ Object) (build_config : String → E ⊎ Config)
      (new_for_config : Config → E ⊎ C) (kubeconfig : String) (m m' : KubeManifestBase C)
      → init_health_check decode build_config new_for_config kubeconfig m ≡ (none, m')
      → (is_healthy get m' ≢ panicked)
        × ((is_healthy get m' ≡ returned true) ↔ (
            (client : C) × (object : Object) × (m'.client ≡ some client)
            × (decode (codes m.health_obj) ≡ inr object)
            × AllReady client object))
  unfolding is_healthy init_health_check
  is_healthy_iff decode build_config new_for_config kubeconfig m m' h =
      let (client, object, c, o, d) =
        initialized decode build_config new_for_config kubeconfig m m' h in
      let (never, (there, back)) = check_object_iff client object in
      let same : is_healthy get m' ≡ check_object get client object = rw (c, o, is_healthy) refl in
      (
        λ p. never (sym same ∙ p),
        (
          λ p. (client, object, c, d, there (sym same ∙ p)),
          λ (client₂, object₂, c₂, d₂, ready).
              same
              ∙ back (
                  subst (λ x. AllReady x object) (some_injective (sym c₂ ∙ c))
                    (subst (AllReady client₂) (inr_injective (sym d₂ ∙ d)) ready)),
        ),
      )
