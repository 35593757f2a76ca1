-- ===== src/Pki/Post.antt =====
-- What holds after a call, put together along `>>=`, for the calls of pkg/pki.
use microkube.Base.{
  ℕ, String, false, none, ◌≡◌, refl, inl, inr, Bool-cases, Option-cases, if◌then◌else◌,
}
use microkube.Files.Store.{Entry, file, write}
use microkube.Pki.{
  Template, Content, nothing, key_creation, keyfile_creation, certificate_file_creation,
  certificate_creation, no_hostname, Host, World, PkiError, Result, ok, err, panicked, Action,
  ◌>>=◌, generate_key, create_certificate, write_pem,
}

-- What a call asks of the machine: keys of a size, files for keys and certificates by their
-- paths, and certificates by their templates.
pub record Requests : Type 1 where
  pub size : ℕ
  pub key_file : String → Type 0
  pub cert_file : String → Type 0
  pub template : Template → Type 0

-- What a file holds that was written.
abbrev pub pem : {Key : Type 0} → Host Key → String → Content Key → Entry (Content Key)
pem host path content = file (if host.encodes path then content else nothing)

module _ {Key : Type 0} where
  abbrev pub PostOf :
      {A : Type 0}
      → (PkiError → World Key → Type 0)
      → (A → World Key → Type 0)
      → Result A × World Key
      → Type 0
  PostOf bad Q (ok a, w) = Q a w
  PostOf bad Q (err e, w) = bad e w
  PostOf bad Q (panicked, w) = ⊥

  -- A call does not panic: if it returns no error, then `Q` holds of its result and the world, and
  -- if it returns an error, then `bad` holds of the error and the world.
  pub record Post {A : Type 0} (bad : PkiError → World Key → Type 0) (Q : A → World Key → Type 0)
      (x : Result A × World Key) : Type 0 where
    pub holds : PostOf bad Q x

  module _ {A B : Type 0} {bad : PkiError → World Key → Type 0} {P : A → World Key → Type 0}
      {Q : B → World Key → Type 0} where
    pub bind-Post :
        (m : Action Key A) (f : A → Action Key B) (w : World Key)
        → Post bad P (m w)
        → ((a : A) (w' : World Key) → P a w' → Post bad Q (f a w'))
        → Post bad Q ((m >>= f) w)
    bind-Post m f w h k = record { holds = go (m w).0 (m w).1 h.holds }
      where
        go :
            (r : Result A) (w' : World Key)
            → PostOf bad P (r, w')
            → PostOf bad Q (elim r as (λ _. Result B × World Key) [
              | ok a ↦ f a w'
              | err e ↦ (err e, w')
              | panicked ↦ (panicked, w')
            ])
        go (ok a) w' p = (k a w' p).holds
        go (err e) w' p = p
        go panicked w' p = p

  module _ {A : Type 0} {bad : PkiError → World Key → Type 0} {P Q : A → World Key → Type 0} where
    pub weaken-Post :
        (x : Result A × World Key)
        → ((a : A) (w' : World Key) → P a w' → Q a w')
        → Post bad P x
        → Post bad Q x
    weaken-Post (r, w) k h = record { holds = go r h.holds }
      where
        go : (r : Result A) → PostOf bad P (r, w) → PostOf bad Q (r, w)
        go (ok a) p = k a w p
        go (err e) p = p
        go panicked p = p

  -- A call that cannot fail.
  abbrev pub Never : PkiError → World Key → Type 0
  Never e w = ⊥

  -- The machine has refused the request that the error names, in the world in which the call ends.
  abbrev pub Refused : Host Key → Requests → PkiError → World Key → Type 0
  Refused host asked key_creation w = host.generate w.drawn asked.size ≡ none
  Refused host asked keyfile_creation w =
      (path : String) × asked.key_file path × (host.creatable w.files path ≡ false)
  Refused host asked certificate_file_creation w =
      (path : String) × asked.cert_file path × (host.creatable w.files path ≡ false)
  Refused host asked certificate_creation w =
      (template : Template) × (parent : Template) × (key : Key) × (signer : Key) × asked.template
        template
      × (host.signs template parent key signer ≡ false)
  Refused host asked no_hostname w = host.hostname ≡ none
  Refused host asked _ w = ⊥

  module _ (host : Host Key) {bad : PkiError → World Key → Type 0} where
    pub generate_key-Post :
        (keysize : ℕ) (w : World Key)
        → (host.generate w.drawn keysize ≡ none → bad key_creation w)
        → Post bad (λ _ w'. w'.files ≡ w.files) (generate_key host keysize w)
    unfolding generate_key
    generate_key-Post keysize w refused = elim (Option-cases (host.generate w.drawn keysize)) [
      | inl e ↦ record { holds = rw (e, generate_key) (refused e) }
      | inr (key, e) ↦ record { holds = rw (e, generate_key) refl }
    ]

    pub create_certificate-Post :
        (template parent : Template) (key signer : Key) (w : World Key)
        → (host.signs template parent key signer ≡ false → bad certificate_creation w)
        → Post bad
            (λ c w'.
              (w' ≡ w)
              × (c ≡ record { template = template; parent = parent; key = key; signer = signer }))
            (create_certificate host template parent key signer w)
    unfolding create_certificate
    create_certificate-Post template parent key signer w refused =
        elim (Bool-cases (host.signs template parent key signer)) [
          | inl e ↦ record { holds = rw (e, create_certificate) (refl, refl) }
          | inr e ↦ record { holds = rw (e, create_certificate) (refused e) }
        ]

    pub write_pem-Post :
        (e : PkiError) (path : String) (content : Content Key) (w : World Key)
        → (host.creatable w.files path ≡ false → bad e w)
        → Post bad
            (λ _ w'. w'.files ≡ write w.files path (pem host path content))
            (write_pem host e path content w)
    unfolding write_pem
    write_pem-Post e path content w refused = elim (Bool-cases (host.creatable w.files path)) [
      | inl c ↦ record { holds = rw (c, write_pem) refl }
      | inr c ↦ record { holds = rw (c, write_pem) (refused c) }
    ]
