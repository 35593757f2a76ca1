-- ===== src/Directories/Examples.antt =====
-- A machine with a CNI plugin in /usr/bin that cannot be linked.
use text.Mathlib.Text.{◌==◌}
use microkube.Base.{String, true, false, none, some, [], ◌∷◌, ◌≡◌, ◌↔◌, refl, if◌then◌else◌}
use microkube.Base.Bytes.{Bytes, codes}
use microkube.Files.Path.{join, dir}
use microkube.Files.Store.{Files, file, exists}
use microkube.Directories.{Machine, done, fatal, find_binary, plugin_dest, install_plugin}
use microkube.Directories.Binaries.{IsFirst, find_binary_iff}
use microkube.Directories.Laws.{install_plugin_empty}

abbrev machine : Machine
machine = record {
  makes_dir = λ files path. true;
  getwd = some "/home/user";
  links = λ files source dest. false;
  reads = λ files path. true;
  creates = λ files path. true;
}

abbrev files : Files Bytes
files path = if path == "/usr/bin/bridge" then some (file (codes "ELF")) else none

bridge_found : find_binary machine "bridge" "/tmp/mk" "/opt" files ≡ some "/usr/bin/bridge"
unfolding find_binary exists join
bridge_found = refl

bridge_not_installed : exists files (plugin_dest "/tmp/mk" "bridge") ≡ false
unfolding exists plugin_dest
bridge_not_installed = refl

find_binary_iff_example :
    (find_binary machine "bridge" "/tmp/mk" "/opt" files ≡ some "/usr/bin/bridge") ↔ (
      (cwd : String) × (machine.getwd ≡ some cwd)
      × IsFirst "bridge"
          (join (dir (dir (dir cwd)) ∷ "third_party" ∷ [])
            ∷ join (dir (dir cwd) ∷ "third_party" ∷ [])
            ∷ join (dir cwd ∷ "third_party" ∷ [])
            ∷ join (cwd ∷ "third_party" ∷ [])
            ∷ join ("/tmp/mk" ∷ "third_party" ∷ [])
            ∷ "/opt"
            ∷ "/usr/bin"
            ∷ [])
          files
          "/usr/bin/bridge")
find_binary_iff_example = find_binary_iff machine "bridge" "/tmp/mk" "/opt" files "/usr/bin/bridge"

install_plugin_empty_example :
    let (r, files') = install_plugin machine "/tmp/mk" "/opt" "bridge" files in
    (r ≡ fatal)
    × (files' (plugin_dest "/tmp/mk" "bridge") ≡ some (file []))
    × (install_plugin machine "/tmp/mk" "/opt" "bridge" files' ≡ (done, files'))
install_plugin_empty_example =
    install_plugin_empty machine machine "/tmp/mk" "/opt" "bridge" "/usr/bin/bridge" files
      bridge_found bridge_not_installed refl refl refl
