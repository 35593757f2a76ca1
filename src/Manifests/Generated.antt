-- ===== src/Manifests/Generated.antt =====
-- internal/manifests/ManifestCodegen.go, writeFile: the text of the generated Go file. `encode`
-- stands for the JSON encoder of a group version.
pub mod MainFile
pub mod Output
pub mod Run
pub mod Objects
use text.Mathlib.Text.{◌==◌}
use Prim.Native.String
use microkube.Base.{String, ◌&&◌, Option, none, some, List, [], ◌∷◌, map, if◌then◌else◌}
use microkube.Base.Bytes.{codes, has_suffix}
use microkube.Base.Texts.{◌++◌}
use microkube.Files.Path.{is_empty, text_of}
use microkube.Manifests.{Object}
use microkube.Manifests.Codegen.{FileEntry, ManifestCodegen}

-- The lines of a text, each with its newline.
abbrev pub lines : List String → String
lines [] = ""
lines (line ∷ rest) = line ++ "\n" ++ lines rest

abbrev pub texts : List String → String
texts [] = ""
texts (text ∷ rest) = text ++ texts rest

-- `if buf[len(buf)-1] == '\n'`: the text without its last newline.
unfoldable pub drop_newline : String → String
drop_newline String.[] = ""
drop_newline (String.◌∷◌ c s) =
    let rest = drop_newline s in if is_empty s && text_of c == "\n" then "" else String.◌∷◌ c rest

-- A constant of the generated file: its name and the text between the back quotes.
abbrev pub Constant : Type 0
Constant = String × String

abbrev pub constant_text : Constant → String
constant_text (name, value) = "const " ++ name ++ " = `" ++ value ++ "`\n"

unfoldable pub constants :
    (String → Object → Option String) → List FileEntry → Option (List Constant)
unfolding drop_newline
constants encode [] = some []
constants encode (entry ∷ entries) =
    let rest = constants encode entries in
    elim (encode entry.gv entry.obj) [
      | none ↦ none
      | some text ↦ elim rest [
        | none ↦ none
        | some others ↦ some ((entry.name, drop_newline text) ∷ others)
      ]
    ]

-- What the generated constructor does with a constant.
pub data Call : Type 0 where
  register register_ho : String → Call

-- `!strings.HasSuffix(entry.name, "HO")`
unfoldable pub call_of : String → Call
unfolding has_suffix
call_of name = if has_suffix (codes name) (codes "HO") then register_ho name else register name

abbrev pub call_text : Call → String
call_text (register name) =
    "\ttmpl, err = template.New(\""
    ++ name
    ++ "\").Parse("
    ++ name
    ++ ")\n"
    ++ lines (
        "\tif err != nil {" ∷ "\t\treturn nil, err" ∷ "\t}" ∷ "\tbuf = bytes.NewBufferString(\"\")"
        ∷ "\ttmpl.Execute(buf, rtEnv)" ∷ "\tobj.Register(buf.String())" ∷ [])
call_text (register_ho name) = "\tobj.RegisterHO(" ++ name ++ ")\n"

abbrev pub package_path : ManifestCodegen → String
package_path m = m.main_pkg_base ++ "/" ++ m.pkg

-- `m.mainPkgBase+"/"+m.pkg != "github.com/vs-eth/microkube/internal/manifests"`
abbrev pub if_elsewhere : ManifestCodegen → String → String
if_elsewhere m text =
    if package_path m == "github.com/vs-eth/microkube/internal/manifests" then "" else text

abbrev file_head : ManifestCodegen → String
file_head m =
    lines (
      "/*" ∷ " * THIS FILE IS AUTOGENERATED by github.com/vs-eth/microkube/cmd/codegen/Manifest.go"
      ∷ " * DO NOT TOUCH." ∷ " * In case of issues, please fix the code generator ;)" ∷ " */" ∷ ""
      ∷ [])
    ++ "package "
    ++ m.pkg
    ++ lines ("" ∷ "" ∷ "import (" ∷ "\t\"bytes\"" ∷ "\t\"text/template\"" ∷ [])
    ++ if_elsewhere m (lines ("" ∷ "\t\"github.com/vs-eth/microkube/internal/manifests\"" ∷ []))
    ++ ")\n\n"

-- The type and the head of its constructor, under the name that strings.Title has changed.
abbrev type_text : ManifestCodegen → String
type_text m =
    "\n"
    ++ "type "
    ++ m.name
    ++ " struct {\n\t"
    ++ if_elsewhere m "manifests."
    ++ lines ("KubeManifestBase" ∷ "}" ∷ "" ∷ [])
    ++ "func New"
    ++ m.name
    ++ "(rtEnv "
    ++ if_elsewhere m "manifests."
    ++ "KubeManifestRuntimeInfo) (KubeManifest, error) {\n"
    ++ "\tobj := &"
    ++ m.name
    ++ "{}\n"
    ++ "\tobj.SetName(\""
    ++ m.name
    ++ "\")\n"
    ++ lines
        ("\tvar err error" ∷ "\tvar buf *bytes.Buffer" ∷ "\tvar tmpl *template.Template" ∷ "" ∷ [])

-- writeFile: the text for the current output, none where an object cannot be encoded (the call
-- returns nil then and has written nothing), and the codegen with its new name; `title` stands
-- for strings.Title.
unfoldable pub write_file :
    (String → String)
    → (String → Object → Option String)
    → ManifestCodegen
    → Option String × ManifestCodegen
unfolding constants call_of
write_file title encode m = elim (constants encode m.entries) [
  | none ↦ (none, m)
  | some declared ↦
      let m' : ManifestCodegen = record m { name = title m.name } in
      (
        some (
            file_head m
            ++ texts (map constant_text declared)
            ++ type_text m'
            ++ texts (map (λ entry. call_text (call_of entry.name)) m.entries)
            ++ lines ("" ∷ "\treturn obj, nil" ∷ "}" ∷ [])),
        m',
      )
]
