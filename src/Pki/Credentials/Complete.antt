-- ===== src/Pki/Credentials/Complete.antt =====
-- pkg/pki/MicrokubeCredentials.go: the directory that ensureFullPKI leaves.
use microkube.Base.{String, Bool, List, ◌≡◌}
use microkube.Pki.{Certificate, Host, World, Holding}
use microkube.Pki.Post.{Post}
use microkube.Pki.Issue.Read.{StoredAt}
use microkube.Pki.Credentials.{paths_in}
use microkube.Pki.Credentials.Chain.{IsChain}

module _ {Key : Type 0} (host : Host Key) (uut : Bool) (root name : String)
    (is_kube_ca is_etcd_ca : Bool) (ip : List String) where
  -- What a directory holds where every file of a PKI was written and encoded.
  abbrev pub Holds : Holding Key × Holding Key × Holding Key → World Key → Type 0
  Holds (h₁, h₂, h₃) w' =
      (hostname : String) × (ca : Certificate Key) × (server : Certificate Key)
      × (client : Certificate Key) × IsChain host uut root name is_kube_ca is_etcd_ca ip hostname ca
          server client
      × (h₁.paths ≡ paths_in root "ca")
      × (h₂.paths ≡ paths_in root "server")
      × (h₃.paths ≡ paths_in root "client")
      × StoredAt host root "ca" ca w'.files
      × StoredAt host root "server" server w'.files
      × StoredAt host root "client" client w'.files
