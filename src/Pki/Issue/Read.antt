-- ===== src/Pki/Issue/Read.antt =====
-- What a directory of certificates reads as, after the certificate manager wrote to it.
use text.Mathlib.Text.{◌==◌}
use text.Mathlib.TextEquality.{eq_iff}
use microkube.Base.{String, true, false, some, [], ◌∷◌, ◌≡◌, ◌≢◌, refl, sym, ap, ◌∙◌}
use microkube.Base.Texts as Texts
use microkube.Files.Path.{join}
use microkube.Files.Path.Laws.{IsSimple, join-ne}
use microkube.Files.Store.{
  Files, file, exists, write_same, write_other, true-ne-false, exists-write, exists_written,
}
use microkube.Pki.{Certificate, Content, private_key, certificate, Host}
use microkube.Pki.Manager.{key_path, cert_path}
use microkube.Pki.Post.{pem}
use microkube.Pki.Issue.{stored}

-- Everything that existed before exists afterwards.
abbrev pub Grows : {C : Type 0} → Files C → Files C → Type 0
Grows files files' = (q : String) → exists files q ≡ true → exists files' q ≡ true

module _ {C : Type 0} where
  pub Grows-by : (files files' : Files C) → files' ≡ files → Grows files files'
  Grows-by files files' e q h = ap (λ f. exists f q) e ∙ h

  pub Grows-trans : (f g h : Files C) → Grows f g → Grows g h → Grows f h
  Grows-trans f g h a b q e = b q (a q e)

-- The two files of a certificate have different paths.
pub record IsName (name : String) : Type 0 where
  pub key_simple : IsSimple (Texts.◌++◌ name ".key")
  pub cert_simple : IsSimple (Texts.◌++◌ name ".pem")
  pub different : (Texts.◌++◌ name ".key" == Texts.◌++◌ name ".pem") ≡ false

-- The files of two certificates have different paths.
pub record Apart (name other : String) : Type 0 where
  pub key_key : (Texts.◌++◌ name ".key" == Texts.◌++◌ other ".key") ≡ false
  pub key_cert : (Texts.◌++◌ name ".key" == Texts.◌++◌ other ".pem") ≡ false
  pub cert_key : (Texts.◌++◌ name ".pem" == Texts.◌++◌ other ".key") ≡ false
  pub cert_cert : (Texts.◌++◌ name ".pem" == Texts.◌++◌ other ".pem") ≡ false

ne_by : (a b : String) → (a == b) ≡ false → a ≢ b
ne_by a b e h = true-ne-false (sym ((eq_iff a b).1 h) ∙ e)

module _ {Key : Type 0} (host : Host Key) (workdir : String) where
  pub stored-Grows :
      (name : String) (cert : Certificate Key) (files : Files (Content Key))
      → Grows files (stored host workdir name cert files)
  stored-Grows name cert files q h =
      exists-write _ (cert_path workdir name) q _ (exists-write files (key_path workdir name) q _ h)

  pub stored_exists :
      (name : String) (cert : Certificate Key) (files : Files (Content Key))
      → exists (stored host workdir name cert files) (cert_path workdir name) ≡ true
  stored_exists name cert files = exists_written _ (cert_path workdir name) _

  -- A certificate and its key are in their files.
  abbrev pub StoredAt : String → Certificate Key → Files (Content Key) → Type 0
  StoredAt name cert files =
      (files (cert_path workdir name) ≡ some (file (certificate cert)))
      × (files (key_path workdir name) ≡ some (file (private_key cert.key)))

  encoded :
      (path : String) (content : Content Key)
      → host.encodes path ≡ true
      → pem host path content ≡ file content
  encoded path content e = rw e refl

  pub stored-StoredAt :
      (name : String) (cert : Certificate Key) (files : Files (Content Key))
      → IsName name
      → ((path : String) → host.encodes path ≡ true)
      → StoredAt name cert (stored host workdir name cert files)
  stored-StoredAt name cert files n encodes = (
    write_same _ (cert_path workdir name) _ ∙ ap some (encoded _ (certificate cert) (encodes _)),
    write_other _ (cert_path workdir name) (key_path workdir name) _ (
          join-ne workdir (Texts.◌++◌ name ".key") (Texts.◌++◌ name ".pem") n.key_simple
            n.cert_simple (ne_by _ _ n.different))
        ∙ (write_same files (key_path workdir name) _
            ∙ ap some (encoded _ (private_key cert.key) (encodes _))),
  )

  -- Another file of the directory is left alone.
  stored_other :
      (name : String) (cert : Certificate Key) (files : Files (Content Key)) (other : String)
      → IsName name
      → IsSimple other
      → (other == Texts.◌++◌ name ".key") ≡ false
      → (other == Texts.◌++◌ name ".pem") ≡ false
      → stored host workdir name cert files (join (workdir ∷ other ∷ []))
        ≡ files (join (workdir ∷ other ∷ []))
  stored_other name cert files other n o not_key not_cert =
      write_other _ (cert_path workdir name) _ _
        (join-ne workdir other (Texts.◌++◌ name ".pem") o n.cert_simple (ne_by _ _ not_cert))
      ∙ write_other files (key_path workdir name) _ _
          (join-ne workdir other (Texts.◌++◌ name ".key") o n.key_simple (ne_by _ _ not_key))

  pub stored-kept :
      (name : String) (cert : Certificate Key) (other : String) (kept : Certificate Key)
      (files : Files (Content Key))
      → IsName name
      → IsName other
      → Apart other name
      → StoredAt other kept files
      → StoredAt other kept (stored host workdir name cert files)
  stored-kept name cert other kept files n o apart (c, k) = (
    stored_other name cert files (Texts.◌++◌ other ".pem") n o.cert_simple apart.cert_key
          apart.cert_cert
        ∙ c,
    stored_other name cert files (Texts.◌++◌ other ".key") n o.key_simple apart.key_key
          apart.key_cert
        ∙ k,
  )
