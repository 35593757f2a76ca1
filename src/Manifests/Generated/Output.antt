-- ===== src/Manifests/Generated/Output.antt =====
-- internal/manifests/ManifestCodegen.go, WriteFiles.
use text.Mathlib.Text.{◌==◌}
use microkube.Base.{String, Option, none, some, if◌then◌else◌}
use microkube.Files.Store.{Files, file, write}
use microkube.Manifests.{Object}
use microkube.Manifests.Codegen.{ManifestCodegen}
use microkube.Manifests.Generated.{write_file}
use microkube.Manifests.Generated.MainFile.{write_main_file}

-- What the machine answers: whether a file can be opened for writing, and what of a text is
-- written to a file, with the error if that was not all.
pub record Disk (E : Type 0) : Type 0 where
  pub opens : Files String → String → Option E
  pub puts : String → String → String × Option E

module _ {E : Type 0} (disk : Disk E) (title : String → String)
    (encode : String → Object → Option String) where
  -- The second half of WriteFiles; what writeMainFile returns is ignored.
  unfoldable pub write_main : ManifestCodegen → Files String → Option E × Files String
  unfolding write_main_file
  write_main m files =
      if m.main_dest == "" then (none, files) else elim (disk.opens files m.main_dest) [
        | some e ↦ (some e, files)
        | none ↦
            (none, write files m.main_dest (file (disk.puts m.main_dest (write_main_file m)).0))
      ]

  -- WriteFiles: the error, the codegen and the files.
  unfoldable pub write_files :
      ManifestCodegen → Files String → Option E × ManifestCodegen × Files String
  unfolding write_file write_main
  write_files m files = elim (disk.opens files m.dst) [
    | some e ↦ (some e, m, files)
    | none ↦
        let (text, m') = write_file title encode m in
        elim text [
          | none ↦ let (e, files') = write_main m' (write files m.dst (file "")) in (e, m', files')
          | some text ↦
              let (put, e) = disk.puts m.dst text in
              let written = write files m.dst (file put) in
              let (e', files') = write_main m' written in
              elim e [ some e ↦ (some e, m', written) | none ↦ (e', m', files') ]
        ]
  ]
