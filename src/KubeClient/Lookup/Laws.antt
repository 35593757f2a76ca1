-- ===== src/KubeClient/Lookup/Laws.antt =====
-- What the two lookups answer.
use text.Mathlib.Text.{◌==◌, starts_with}
use microkube.Base.{
  ℕ, String, Bool, true, false, Option, none, some, List, [], ◌∷◌, ◌++◌, ◌≡◌, ◌⊎◌, inl, inr, refl,
  sym, ap, subst, All, Bool-cases, Option-cases,
}
use microkube.KubeClient.Node.{KubeClient, Listing, find_node}
use microkube.KubeClient.Lookup.{
  ServicePort, Service, Secret, tcp_port, service_address, find_service, admin_token,
  find_dashboard_admin_secret,
}

-- The element is the first of the list with the property.
abbrev pub IsFirst {ℓ} : {A : Type ℓ} → (A → Type 0) → List A → A → Type ℓ
IsFirst {A = A} P xs x =
    (before : List A) × (after : List A) × (xs ≡ before ++ x ∷ after)
    × All (λ y. ¬ P y) before
    × P x

abbrev pub IsTcp : ServicePort → Type 0
IsTcp port = (port.protocol == "TCP") ≡ true

-- A secret of the dashboard's admin user that holds a token.
abbrev pub IsAdminSecret : Secret → Type 0
IsAdminSecret sec = (starts_with sec.name "admin-user-token-" ≡ true) × (¬ (sec.token ≡ none))

false-not-true : {b : Bool} → b ≡ false → ¬ (b ≡ true)
false-not-true h e = cc

module _ {ℓ} {A : Type ℓ} (P : A → Type 0) where
  -- The first element with the property stays the first behind an element without it.
  IsFirst-behind : {x y : A} {xs : List A} → ¬ P y → IsFirst P xs x → IsFirst P (y ∷ xs) x
  IsFirst-behind {x} {y} n (before, after, e, h, p) =
      (y ∷ before, after, ap (λ t. y ∷ t) e, (n, h), p)

-- Either no port of the service is a TCP port, or the first one is taken.
abbrev pub PortChoice : List ServicePort → ℕ → Type 0
PortChoice ports n =
    (All (λ port. ¬ IsTcp port) ports × (n ≡ 0))
    ⊎ ((port : ServicePort) × IsFirst IsTcp ports port × (n ≡ port.port))

tcp_port_cases : (ports : List ServicePort) → PortChoice ports (tcp_port ports)
unfolding tcp_port
tcp_port_cases [] = inl (tt, refl)
tcp_port_cases (port ∷ ports) = elim (Bool-cases (port.protocol == "TCP")) [
  | inl e ↦ inr (port, ([], ports, refl, tt, e), rw e refl)
  | inr e ↦ elim (tcp_port_cases ports) [
    | inl (h, z) ↦ inl ((false-not-true e, h), rw e z)
    | inr (p, f, q) ↦ inr (p, IsFirst-behind IsTcp (false-not-true e) f, rw e q)
  ]
]

known : (k : KubeClient) (listing : Listing) → (k.node == "") ≡ false → find_node k listing ≡ some k
unfolding find_node
known k listing h = rw h refl

-- Where a node is known, FindService does not list the nodes and answers the service's cluster
-- address with its first TCP port, or with 0 if it has none.
pub find_service_lem :
    (k : KubeClient) (listing : Listing) (service : Service)
    → (k.node == "") ≡ false
    → (n : ℕ) × (find_service k listing (some service) ≡ some (k, service.cluster_ip, n))
      × PortChoice service.ports n
unfolding find_service service_address
find_service_lem k listing service h = (
  tcp_port service.ports,
  rw (known k listing h, find_service, h) refl,
  tcp_port_cases service.ports,
)

-- Either no secret is one of the admin user with a token, or the first one's token is answered.
abbrev pub TokenChoice : List Secret → String → Type 0
TokenChoice secs token =
    (All (λ sec. ¬ IsAdminSecret sec) secs × (token ≡ ""))
    ⊎ ((sec : Secret) × IsFirst IsAdminSecret secs sec × (sec.token ≡ some token))

token_behind :
    {sec : Secret} {secs : List Secret} {token : String}
    → ¬ IsAdminSecret sec
    → TokenChoice secs token
    → TokenChoice (sec ∷ secs) token
token_behind n (inl (h, z)) = inl ((n, h), z)
token_behind n (inr (s, f, q)) = inr (s, IsFirst-behind IsAdminSecret n f, q)

some-not-none : {o : Option String} {s : String} → o ≡ some s → ¬ (o ≡ none)
some-not-none e h = cc

admin_token_skips :
    (sec : Secret) (secs : List Secret)
    → sec.token ≡ none
    → admin_token (sec ∷ secs) ≡ admin_token secs
unfolding admin_token
admin_token_skips sec secs t = elim (Bool-cases (starts_with sec.name "admin-user-token-")) [
  | inl e ↦ rw (e, t) refl
  | inr e ↦ rw e refl
]

admin_token_passes :
    (sec : Secret) (secs : List Secret)
    → starts_with sec.name "admin-user-token-" ≡ false
    → admin_token (sec ∷ secs) ≡ admin_token secs
unfolding admin_token
admin_token_passes sec secs e = rw e refl

admin_token_takes :
    (sec : Secret) (secs : List Secret) (token : String)
    → starts_with sec.name "admin-user-token-" ≡ true
    → sec.token ≡ some token
    → admin_token (sec ∷ secs) ≡ token
unfolding admin_token
admin_token_takes sec secs token e t = rw (e, t) refl

admin_token_cases : (secs : List Secret) → TokenChoice secs (admin_token secs)
unfolding admin_token
admin_token_cases [] = inl (tt, refl)
admin_token_cases (sec ∷ secs) = elim (Bool-cases (starts_with sec.name "admin-user-token-")) [
  | inr e ↦
      subst (TokenChoice (sec ∷ secs)) (sym (admin_token_passes sec secs e))
        (token_behind (λ h. false-not-true e h.0) (admin_token_cases secs))
  | inl e ↦ elim (Option-cases sec.token) [
    | inl t ↦
        subst (TokenChoice (sec ∷ secs)) (sym (admin_token_skips sec secs t))
          (token_behind (λ h. h.1 t) (admin_token_cases secs))
    | inr (token, t) ↦
        subst (TokenChoice (sec ∷ secs)) (sym (admin_token_takes sec secs token e t))
          (inr (sec, ([], secs, refl, tt, (e, some-not-none t)), t))
  ]
]

-- Where a node is known, FindDashboardAdminSecret answers the token of the first secret of the
-- dashboard's admin user that holds one, and the empty text if there is none.
pub find_dashboard_admin_secret_lem :
    (k : KubeClient) (listing : Listing) (secs : List Secret)
    → (k.node == "") ≡ false
    → (token : String) × (find_dashboard_admin_secret k listing secs ≡ some (k, token))
      × TokenChoice secs token
unfolding find_dashboard_admin_secret
find_dashboard_admin_secret_lem k listing secs h = (
  admin_token secs,
  rw (known k listing h, find_dashboard_admin_secret, h) refl,
  admin_token_cases secs,
)
