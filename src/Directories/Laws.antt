-- ===== src/Directories/Laws.antt =====
-- cmd/microkubed/cmd/Microkubed.go and internal/cmd/FSHelpers.go: directories and CNI plugins.
use microkube.Base.{
  String, true, false, Option, none, some, [], ◌∷◌, ◌≡◌, ◌↔◌, refl, ap, ◌∙◌, inl, inr, Option-cases,
  ◌==◌, length, if◌then◌else◌,
}
use microkube.Base.Bytes.{Bytes}
use microkube.Files.Path.{join}
use microkube.Files.Store.{
  Entry, directory, file, Files, is_some, write, exists, mkdir, mkdir_kept, write_same,
  exists_written,
}
use microkube.Directories.{
  Machine, done, fatal, ensure_dir, find_binary, plugin_dest, content_of, copy_plugin,
  install_plugin,
}

-- EnsureDir returns no error exactly where something is at the path afterwards, be it a directory
-- or a file, and whatever was there before is as it was.
pub ensure_dir_iff :
    {E : Type 0} (stat_error : E) (machine : Machine) (root subdirectory : String)
    (files : Files Bytes)
    → let (e, files') = ensure_dir stat_error machine root subdirectory files in
      ((e ≡ none) ↔ (exists files' (join (root ∷ subdirectory ∷ [])) ≡ true))
      × ((q : String) → exists files q ≡ true → files' q ≡ files q)
unfolding ensure_dir exists
ensure_dir_iff {E = E} stat_error machine root subdirectory files =
    let path = join (root ∷ subdirectory ∷ []) in
    (
      judged (mkdir (machine.makes_dir files path) files path path),
      λ q e. mkdir_kept (machine.makes_dir files path) files path q e,
    )
  where
    judged :
        (entry : Option (Entry Bytes))
        → ((elim entry as (λ _. Option E) [
          | none ↦ some stat_error
          | some directory ↦ none
          | some (file content) ↦ none
        ])
            ≡ none)
          ↔ (is_some entry ≡ true)
    judged none = (λ h. cc, λ h. cc)
    judged (some directory) = (λ h. refl, λ h. refl)
    judged (some (file content)) = (λ h. refl, λ h. refl)

copied :
    (machine : Machine) (plugin_path dest : String) (files : Files Bytes)
    → machine.reads files plugin_path ≡ true
    → machine.creates files dest ≡ true
    → copy_plugin machine plugin_path dest files ≡ (fatal, write files dest (file []))
unfolding copy_plugin
copied machine plugin_path dest files r c =
    rw (r, c, copy_plugin)
      (ap (λ t. ((if length (content_of t) == 0 then fatal else done), write files dest (file [])))
        (write_same files dest (file [])))

-- What is there already is left alone.
install_there :
    (machine : Machine) (base_dir extra_bin_dir plugin : String) (files : Files Bytes)
    → exists files (plugin_dest base_dir plugin) ≡ true
    → install_plugin machine base_dir extra_bin_dir plugin files ≡ (done, files)
unfolding install_plugin
install_there machine base_dir extra_bin_dir plugin files e =
    elim (Option-cases (find_binary machine plugin base_dir extra_bin_dir files)) [
      | inl f ↦ rw (f, install_plugin) refl
      | inr (path, f) ↦ rw (f, e, install_plugin) refl
    ]

-- A CNI plugin that is found, is not installed and cannot be linked, where its file can be read
-- and written: createDirectories ends the program in its attempt to copy the plugin and leaves an
-- empty file at its destination, and with that file a later start takes the plugin as installed,
-- whatever the machine answers then.
pub install_plugin_empty :
    (machine later : Machine) (base_dir extra_bin_dir plugin plugin_path : String)
    (files : Files Bytes)
    → find_binary machine plugin base_dir extra_bin_dir files ≡ some plugin_path
    → exists files (plugin_dest base_dir plugin) ≡ false
    → machine.links files plugin_path (plugin_dest base_dir plugin) ≡ false
    → machine.reads files plugin_path ≡ true
    → machine.creates files (plugin_dest base_dir plugin) ≡ true
    → let (r, files') = install_plugin machine base_dir extra_bin_dir plugin files in
      (r ≡ fatal)
      × (files' (plugin_dest base_dir plugin) ≡ some (file []))
      × (install_plugin later base_dir extra_bin_dir plugin files' ≡ (done, files'))
unfolding install_plugin
install_plugin_empty machine later base_dir extra_bin_dir plugin plugin_path files f e l r c =
    let dest = plugin_dest base_dir plugin in
    let first : install_plugin machine base_dir extra_bin_dir plugin files
        ≡ (fatal, write files dest (file [])) =
      rw (f, e, l, install_plugin) (copied machine plugin_path dest files r c) in
    (
      ap (λ t. t.0) first,
      ap (λ t. t.1 dest) first ∙ write_same files dest (file []),
      install_there later base_dir extra_bin_dir plugin _
          (ap (λ t. exists t.1 dest) first ∙ exists_written files dest (file [])),
    )
