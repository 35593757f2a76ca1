-- ===== src/Services/Health/Laws.antt =====
-- When the services count as healthy.
use microkube.Base.{none, some, String, ◌||◌, ◌++◌, ◌≡◌, ◌↔◌, inl, inr, refl, ap, ◌∙◌, Bool-cases}
use microkube.Base.Bytes.{
  Bytes, codes, equal, equal_iff, trim, trim_left, contains, AllIn, trim-splits, trim-between,
}
use microkube.Base.Errors.{ErrorsPkg}
use microkube.Services.Health.{
  ReadResult, read, read_error, plain_validator, Decoded, decoded, decode_error, EtcdStatus,
  KubeProxyStatus, etcd_validator, kube_proxy_validator,
}

-- The body is `ok` between blanks and line ends.
pub record IsOk (r : ReadResult) : Type 0 where
  pub front : Bytes
  pub back : Bytes
  pub blank_front : AllIn (codes " \r\n") front
  pub blank_back : AllIn (codes " \r\n") back
  pub body : r ≡ read (front ++ (codes "ok" ++ back))

some-ne-none : {s : String} → ¬ (some s ≡ none)
some-ne-none h = cc

accepted : (not_ok : Bytes → String) (r : ReadResult) → plain_validator not_ok r ≡ none → IsOk r
unfolding plain_validator equal
accepted not_ok (read_error e) h = cc
accepted not_ok (read str) h = elim (Bool-cases (equal (trim (codes " \r\n") str) (codes "ok"))) [
  | inr e ↦ absurd (some-ne-none (rw (e, plain_validator) at h))
  | inl e ↦
      let (p, q, hp, hq, s) = trim-splits (codes " \r\n") str in
      record {
        front = p;
        back = q;
        blank_front = hp;
        blank_back = hq;
        body = ap read (s ∙ ap (λ t. p ++ (t ++ q)) ((equal_iff _ _).0 e));
      }
]

trim_ok :
    (p q : Bytes)
    → AllIn (codes " \r\n") p
    → AllIn (codes " \r\n") q
    → trim (codes " \r\n") (p ++ (codes "ok" ++ q)) ≡ codes "ok"
unfolding trim_left contains
trim_ok p q hp hq = trim-between (codes " \r\n") p (codes "ok") q hp hq refl refl

-- The API server, the controller manager, the scheduler and the kubelet count as healthy exactly
-- if the body of the response can be read and is `ok`, with nothing but blanks and line ends
-- around it.
pub plain_validator_iff :
    (not_ok : Bytes → String) (r : ReadResult) → (plain_validator not_ok r ≡ none) ↔ IsOk r
unfolding plain_validator equal
plain_validator_iff not_ok r = (
  accepted not_ok r,
  λ h. rw (h.body, plain_validator, trim_ok h.front h.back h.blank_front h.blank_back) refl,
)

module _ (pkg : ErrorsPkg) where
  etcd_accepts :
      (r : Decoded EtcdStatus)
      → (etcd_validator pkg r ≡ none) ↔ ((status : EtcdStatus) × (r ≡ decoded status))
  unfolding etcd_validator
  etcd_accepts (decode_error e) = (λ h. absurd (pkg.wrap_err e _ h), λ h. cc (h.1))
  etcd_accepts (decoded s) = (
    λ h. (s, refl),
    λ h. elim (Bool-cases (equal s.health (codes "true"))) [
      | inl e ↦ rw (e, etcd_validator) refl
      | inr e ↦ rw (e, etcd_validator) (pkg.wrap_nil _)
    ],
  )

  proxy_accepts :
      (r : Decoded KubeProxyStatus)
      → (kube_proxy_validator pkg r ≡ none) ↔ ((status : KubeProxyStatus) × (r ≡ decoded status))
  unfolding kube_proxy_validator
  proxy_accepts (decode_error e) = (λ h. absurd (pkg.wrap_err e _ h), λ h. cc (h.1))
  proxy_accepts (decoded s) = (
    λ h. (s, refl),
    λ h. elim (Bool-cases (equal s.last_updated (codes "") || equal s.current_time (codes ""))) [
      | inl e ↦ rw (e, kube_proxy_validator) (pkg.wrap_nil _)
      | inr e ↦ rw (e, kube_proxy_validator) refl
    ],
  )

  -- The validators of etcd and of kube-proxy return no error exactly for the responses that can be
  -- decoded, whatever these say of the service's health.
  pub validators_accept_all :
      (etcd : Decoded EtcdStatus) (proxy : Decoded KubeProxyStatus)
      → ((etcd_validator pkg etcd ≡ none) ↔ ((status : EtcdStatus) × (etcd ≡ decoded status)))
        × ((kube_proxy_validator pkg proxy ≡ none)
            ↔ ((status : KubeProxyStatus) × (proxy ≡ decoded status)))
  validators_accept_all etcd proxy = (etcd_accepts etcd, proxy_accepts proxy)
