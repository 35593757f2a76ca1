-- ===== src/Supervisor/Addons/Laws.antt =====
-- What the addons do to each other, and how wide the framed lines are.
use microkube.Base.{
  ℕ, ◌+◌, ◌-◌, ◌/◌, ◌≤◌, Bool, true, false, ◌&&◌, none, some, List, [], ◌∷◌, ◌++◌, ◌≡◌, ◌⊎◌, inl,
  inr, refl, ap, ◌∙◌, arith, length, length-append, length-replicate, replicate, ltb, ltb→lt, ◌<◌,
  if◌then◌else◌, All, Bool-cases,
}
use microkube.Base.Bytes.{Bytes}
use microkube.Base.Errors.{GoError}
use microkube.Supervisor.Addons.{
  Addon, Deployment, Deed, apply_to_cluster, init_health_check, monitor, deploy, start_services,
  print_indented,
}

abbrev is_nil_error : GoError → Bool
is_nil_error none = true
is_nil_error (some e) = false

-- All three steps succeed.
abbrev pub is_clean : Deployment → Bool
is_clean d = is_nil_error d.init_error && is_nil_error d.apply_error && is_nil_error d.health_error

-- The addons with a property, in order.
abbrev pub those : (Addon → Bool) → List Addon → List Addon
those p [] = []
those p (service ∷ services) =
    let rest = those p services in if p service then service ∷ rest else rest

-- The addons that a goroutine monitors.
abbrev pub monitored : List Deed → List Addon
monitored [] = []
monitored (apply_to_cluster service ∷ deeds) = monitored deeds
monitored (init_health_check service ∷ deeds) = monitored deeds
monitored (monitor service ∷ deeds) = service ∷ monitored deeds

-- What one round adds to the monitored addons.
deploy-monitored :
    (service : Addon) (d : Deployment)
    → d.is_nil ≡ false
    → (done : List Deed) × (deploy service d ≡ some done)
      × ((deeds : List Deed)
          → monitored (done ++ deeds)
            ≡ (if is_clean d then service ∷ monitored deeds else monitored deeds))
unfolding deploy
deploy-monitored service d n = go d.init_error refl d.apply_error refl d.health_error refl
  where
    go :
        (i : GoError)
        → d.init_error ≡ i
        → (a : GoError) → d.apply_error ≡ a
        → (h : GoError) → d.health_error ≡ h
        → (done : List Deed) × (deploy service d ≡ some done)
          × ((deeds : List Deed)
              → monitored (done ++ deeds)
                ≡ (if is_clean d then service ∷ monitored deeds else monitored deeds))
    go (some e) i a p h q = ([], rw (n, deploy, i) refl, λ deeds. rw i refl)
    go none i (some e) p h q =
        (apply_to_cluster service ∷ [], rw (n, deploy, i, p) refl, λ deeds. rw (i, p) refl)
    go none i none p (some e) q = (
      apply_to_cluster service ∷ init_health_check service ∷ [],
      rw (n, deploy, i, p, q) refl,
      λ deeds. rw (i, p, q) refl,
    )
    go none i none p none q = (
      apply_to_cluster service ∷ init_health_check service ∷ monitor service ∷ [],
      rw (n, deploy, i, p, q) refl,
      λ deeds. rw (i, p, q) refl,
    )

-- Where no constructor answers nil, startServices returns, and it monitors exactly the addons of
-- which all three steps succeed, in order: an error of one addon does not touch the others.
pub start_services_lem :
    (answers : Addon → Deployment) (services : List Addon)
    → All (λ service. (answers service).is_nil ≡ false) services
    → ((start_services answers services).1 ≡ true)
      × (monitored (start_services answers services).0
          ≡ those (λ service. is_clean (answers service)) services)
unfolding start_services
start_services_lem answers [] h = (refl, refl)
start_services_lem answers (service ∷ services) (n, h) =
    let (r, e) = start_services_lem answers services h in
    let (done, d, m) = deploy-monitored service (answers service) n in
    (rw (d, start_services) r, rw (d, start_services) (m _ ∙ rw e refl))

nil_stops :
    (answers : Addon → Deployment) (service : Addon) (services : List Addon)
    → (answers service).is_nil ≡ true
    → start_services answers (service ∷ services) ≡ ([], false)
unfolding start_services deploy
nil_stops answers service services n = rw (n, start_services) refl

-- A constructor that answers nil, as the generated ones do with an error, makes startServices
-- panic: the addons before it are monitored as they would be without it, and none behind it.
pub start_services_nil :
    (answers : Addon → Deployment) (before : List Addon) (service : Addon) (after : List Addon)
    → All (λ s. (answers s).is_nil ≡ false) before
    → (answers service).is_nil ≡ true
    → ((start_services answers (before ++ service ∷ after)).1 ≡ false)
      × (monitored (start_services answers (before ++ service ∷ after)).0
          ≡ those (λ s. is_clean (answers s)) before)
unfolding start_services
start_services_nil answers [] service after h n = (
  ap (λ r. r.1) (nil_stops answers service after n),
  ap (λ r. monitored r.0) (nil_stops answers service after n),
)
start_services_nil answers (s ∷ before) service after (h, hs) n =
    let (r, e) = start_services_nil answers before service after hs n in
    let (done, d, m) = deploy-monitored s (answers s) h in
    (rw (d, start_services) r, rw (d, start_services) (m _ ∙ rw e refl))

-- A message between blanks and a pad of so many characters on each side.
abbrev framed : ℕ → Bytes → Bytes
framed n text = let pad = replicate n b'#' in pad ++ ((b' ' ∷ text) ++ (b' ' ∷ pad))

length-framed : (n : ℕ) (text : Bytes) → length (framed n text) ≡ n + n + 2 + length text
length-framed n text =
    let hash : ℕ = b'#' in
    let parts : length (framed n text)
        ≡ length (replicate n hash ++ ((b' ' ∷ text) ++ (b' ' ∷ replicate n hash))) =
      refl in
    omega (
      arith,
      parts,
      length-append (replicate n hash) ((b' ' ∷ text) ++ (b' ' ∷ replicate n hash)),
      length-append text (b' ' ∷ replicate n hash),
      length-replicate n hash,
    )

-- Up to 119 bytes a message is framed to a line of 119 to 121 bytes; a longer message panics.
pub print_indented_cases :
    (message : Bytes)
    → ((120 ≤ length message) × (print_indented message ≡ none))
      ⊎ ((line : Bytes) × (print_indented message ≡ some line)
          × (119 ≤ length line)
          × (length line ≤ 121))
unfolding print_indented
print_indented_cases [] = inr (_, refl, omega arith, omega arith)
print_indented_cases (c ∷ message) = elim (Bool-cases (ltb (length (c ∷ message)) 120)) [
  | inr e ↦ inl (ground (arith, e), rw (e, print_indented) refl)
  | inl e ↦
      let width = length-framed ((118 - length (c ∷ message)) / 2) (c ∷ message) in
      let short : length (c ∷ message) < 120 = ltb→lt _ _ e in
      inr (
        framed ((118 - length (c ∷ message)) / 2) (c ∷ message),
        rw (e, print_indented) refl,
        omega (arith, width, short),
        omega (arith, width, short),
      )
]
