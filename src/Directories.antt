-- ===== src/Directories.antt =====
-- The directories and binaries of the program: EnsureDir of internal/cmd/FSHelpers.go, FindBinary
-- of pkg/helpers/CmdHelper.go, and createDirectories and findBinaries of
-- cmd/microkubed/cmd/Microkubed.go. Files hold their bytes.
pub mod Binaries
pub mod Laws
mod Examples
use microkube.Base.{ℕ, String, Bool, Option, none, some, List, [], ◌∷◌, length, ◌==◌, if◌then◌else◌}
use microkube.Base.Bytes.{Bytes}
use microkube.Files.Path.{join, dir}
use microkube.Files.Store.{Entry, directory, file, Files, write, exists, mkdir}

-- What the machine answers: which directories can be made, the working directory, which links can
-- be made, and which files can be opened for reading and for writing.
pub record Machine : Type 0 where
  pub makes_dir : Files Bytes → String → Bool
  pub getwd : Option String
  pub links : Files Bytes → String → String → Bool
  pub reads : Files Bytes → String → Bool
  pub creates : Files Bytes → String → Bool

-- What a call comes to; `fatal` is log.Fatal, which ends the program.
pub data Done : Type 0 where
  done fatal : Done

-- EnsureDir: the error, if any, and the files. `stat_error` stands for the error of os.Stat on a
-- path where nothing is.
unfoldable pub ensure_dir :
    {E : Type 0} → E → Machine → String → String → Files Bytes → Option E × Files Bytes
unfolding join mkdir
ensure_dir stat_error machine root subdirectory files =
    let path = join (root ∷ subdirectory ∷ []) in
    let made = mkdir (machine.makes_dir files path) files path in
    (
      elim (made path) [
        | none ↦ some stat_error
        | some directory ↦ none
        | some (file content) ↦ none
      ],
      made,
    )

-- The candidates of FindBinary.
unfoldable pub candidates : String → String → String → List String
unfolding join dir
candidates cwd app_dir extra_dir =
    join (dir (dir (dir cwd)) ∷ "third_party" ∷ [])
    ∷ join (dir (dir cwd) ∷ "third_party" ∷ [])
    ∷ join (dir cwd ∷ "third_party" ∷ [])
    ∷ join (cwd ∷ "third_party" ∷ [])
    ∷ join (app_dir ∷ "third_party" ∷ [])
    ∷ extra_dir
    ∷ "/usr/bin"
    ∷ []

-- The loop of FindBinary.
unfoldable pub first_there : String → List String → Files Bytes → Option String
unfolding join exists
first_there name [] files = none
first_there name (candidate ∷ rest) files =
    let test = join (candidate ∷ name ∷ []) in
    let later = first_there name rest files in if exists files test then some test else later

-- FindBinary; `none` is one of its two errors.
unfoldable pub find_binary : Machine → String → String → String → Files Bytes → Option String
unfolding candidates first_there
find_binary machine name app_dir extra_dir files = elim machine.getwd [
  | none ↦ none
  | some cwd ↦ first_there name (candidates cwd app_dir extra_dir) files
]

-- The bytes of a file.
abbrev pub content_of : Option (Entry Bytes) → Bytes
content_of (some (file bytes)) = bytes
content_of _ = []

-- io.Copy(in, out) on two files: `out` is read from its start to its end and written to `in`; the
-- number of bytes.
abbrev pub io_copy : Files Bytes → String → ℕ
io_copy files out = length (content_of (files out))

-- The destination of a plugin.
unfoldable pub plugin_dest : String → String → String
unfolding join
plugin_dest base_dir plugin = join (base_dir ∷ "kube" ∷ "kubelet" ∷ "cni" ∷ plugin ∷ [])

-- The copy of a plugin that could not be linked: the two files, and io.Copy. Nothing is at its
-- destination, so os.Remove does nothing.
unfoldable pub copy_plugin : Machine → String → String → Files Bytes → Done × Files Bytes
unfolding write
copy_plugin machine plugin_path dest files =
    if machine.reads files plugin_path
    then if machine.creates files dest
      then (let opened = write files dest (file []) in
          ((if io_copy opened dest == 0 then fatal else done), opened))
      else (fatal, files)
    else (fatal, files)

module _ (machine : Machine) (base_dir extra_bin_dir : String) where
  -- The body of the loop over the plugins; what is linked has the content of its source.
  unfoldable pub install_plugin : String → Files Bytes → Done × Files Bytes
  unfolding exists write find_binary copy_plugin plugin_dest
  install_plugin plugin files = elim (find_binary machine plugin base_dir extra_bin_dir files) [
    | none ↦ (done, files)
    | some plugin_path ↦
        if exists files (plugin_dest base_dir plugin)
        then (done, files)
        else if machine.links files plugin_path (plugin_dest base_dir plugin)
        then (
          done,
          write files (plugin_dest base_dir plugin) (file (content_of (files plugin_path))),
        )
        else copy_plugin machine plugin_path (plugin_dest base_dir plugin) files
  ]

  unfoldable pub install_plugins : List String → Files Bytes → Done × Files Bytes
  unfolding install_plugin
  install_plugins [] files = (done, files)
  install_plugins (plugin ∷ plugins) files =
      let (r, files') = install_plugin plugin files in
      let rest = install_plugins plugins files' in elim r [ done ↦ rest | fatal ↦ (fatal, files') ]

  -- The calls of EnsureDir, whose errors are ignored.
  unfoldable pub ensure_dirs : List String → Files Bytes → Files Bytes
  unfolding ensure_dir
  ensure_dirs [] files = files
  ensure_dirs (subdirectory ∷ rest) files =
      ensure_dirs rest (ensure_dir tt machine base_dir subdirectory files).1

  -- createDirectories
  unfoldable pub create_directories : Files Bytes → Done × Files Bytes
  unfolding join ensure_dirs install_plugins
  create_directories files = install_plugins ("bridge" ∷ "host-local" ∷ "loopback" ∷ []) (
      ensure_dirs
        (""
          ∷ "kube"
          ∷ "etcdtls"
          ∷ "kubesched"
          ∷ "kubetls"
          ∷ "kubectls"
          ∷ "kubestls"
          ∷ "etcddata"
          ∷ join ("kube" ∷ "kubelet" ∷ [])
          ∷ join ("kube" ∷ "kubelet" ∷ "cni" ∷ [])
          ∷ [])
        files)

  -- findBinaries: the paths of etcd and hyperkube; `none` is log.Fatal.
  unfoldable pub find_binaries : Files Bytes → Option (String × String)
  unfolding find_binary
  find_binaries files = elim (find_binary machine "etcd" base_dir extra_bin_dir files) [
    | none ↦ none
    | some etcd ↦ elim (find_binary machine "hyperkube" base_dir extra_bin_dir files) [
      | none ↦ none
      | some hyperkube ↦ some (etcd, hyperkube)
    ]
  ]
