-- ===== src/Pki/Credentials/Names.antt =====
-- pkg/pki/MicrokubeCredentials.go: the names of the three certificates of a PKI.
use microkube.Base.{String, Bool, true, false, List, [], ◌∷◌, ◌++◌, ◌≡◌, refl}
use microkube.Files.Path.{parts_of, is_rooted, is_empty}
use microkube.Pki.Issue.Read.{IsName, Apart}
use microkube.Pki.Credentials.{manager_of}

-- The names that the server certificate is valid for.
abbrev pub server_names : List String → String → List String
server_names ip hostname = ip ++ ("127.0.0.1" ∷ "localhost" ∷ hostname ∷ [])

pub manager_workdir : (uut : Bool) (root : String) → (manager_of uut root).workdir ≡ root
manager_workdir true root = refl
manager_workdir false root = refl

pub ca_file : IsName "ca"
unfolding parts_of is_rooted is_empty
ca_file = record {
  key_simple = record {
    whole = refl;
    unrooted = refl;
    filled = refl;
    no_dot = refl;
    no_dots = refl;
  };
  cert_simple = record {
    whole = refl;
    unrooted = refl;
    filled = refl;
    no_dot = refl;
    no_dots = refl;
  };
  different = refl;
}

pub server_file : IsName "server"
unfolding parts_of is_rooted is_empty
server_file = record {
  key_simple = record {
    whole = refl;
    unrooted = refl;
    filled = refl;
    no_dot = refl;
    no_dots = refl;
  };
  cert_simple = record {
    whole = refl;
    unrooted = refl;
    filled = refl;
    no_dot = refl;
    no_dots = refl;
  };
  different = refl;
}

pub client_file : IsName "client"
unfolding parts_of is_rooted is_empty
client_file = record {
  key_simple = record {
    whole = refl;
    unrooted = refl;
    filled = refl;
    no_dot = refl;
    no_dots = refl;
  };
  cert_simple = record {
    whole = refl;
    unrooted = refl;
    filled = refl;
    no_dot = refl;
    no_dots = refl;
  };
  different = refl;
}

pub ca_server : Apart "ca" "server"
ca_server = record { key_key = refl; key_cert = refl; cert_key = refl; cert_cert = refl }

pub ca_client : Apart "ca" "client"
ca_client = record { key_key = refl; key_cert = refl; cert_key = refl; cert_cert = refl }

pub server_client : Apart "server" "client"
server_client = record { key_key = refl; key_cert = refl; cert_key = refl; cert_cert = refl }
