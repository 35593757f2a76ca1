-- ===== src/Manifests/Codegen.antt =====
-- internal/manifests/ManifestCodegen.go: the objects of a manifest and the names of their
-- constants. `decode` stands for the universal deserializer, which also gives the group version.
pub mod Entries
pub mod Apart
use microkube.Base.{
  ◌⊎◌, inl, inr, ℕ, String, Bool, true, false, Option, none, some, List, [], ◌∷◌, ◌++◌, length,
  if◌then◌else◌,
}
use microkube.Base.Bytes.{Bytes}
use microkube.Base.Texts as Texts
use microkube.Base.Texts.{itoa}
use microkube.Manifests.{Object, apps_deployment, extensions_deployment, other_object}
use microkube.Manifests.Documents.{split_docs}

-- fileEntry
pub record FileEntry : Type 0 where
  pub obj : Object
  pub gv : String
  pub name : String

pub record ManifestCodegen : Type 0 where
  pub source : String
  pub entries : List FileEntry
  pub has_health_check : Bool
  pub name : String
  pub dst : String
  pub pkg : String
  pub main_dest : String
  pub main_pkg_base : String

-- NewManifestCodegen
abbrev pub new_manifest_codegen :
    String → String → String → String → String → String → ManifestCodegen
new_manifest_codegen source pkg name dst main_dest main_pkg_base = record {
  source = source;
  entries = [];
  has_health_check = false;
  name = name;
  dst = dst;
  pkg = pkg;
  main_dest = main_dest;
  main_pkg_base = main_pkg_base;
}

-- `"kobjS" + m.name + "O" + strconv.Itoa(k)`
unfoldable pub object_name : String → ℕ → String
unfolding itoa
object_name name k = Texts.◌++◌ "kobjS" (Texts.◌++◌ name (Texts.◌++◌ "O" (itoa k)))

-- `"kobjS" + m.name + "HO"`
unfoldable pub health_name : String → String
health_name name = Texts.◌++◌ "kobjS" (Texts.◌++◌ name "HO")

-- The loop over the containers of a deployment.
unfoldable pub add_probes : FileEntry → List Bool → ManifestCodegen → ManifestCodegen
add_probes health [] m = m
add_probes health (probed ∷ probes) m =
    if probed
    then add_probes health probes
        (record m { entries = m.entries ++ health ∷ []; has_health_check = true })
    else add_probes health probes m

-- The containers that the two type assertions find.
unfoldable pub probes_of : Object → List Bool
probes_of (apps_deployment deployment) = deployment.probes
probes_of (extensions_deployment deployment) = deployment.probes
probes_of (other_object kind) = []

-- What parseDoc does with an object.
unfoldable pub add_object : Object → String → ManifestCodegen → ManifestCodegen
unfolding object_name health_name add_probes probes_of
add_object obj gv m =
    add_probes (record { obj = obj; gv = gv; name = health_name m.name }) (probes_of obj)
      (record m {
        entries =
            m.entries
            ++ (record { obj = obj; gv = gv; name = object_name m.name (length m.entries) }) ∷ [];
      })

module _ {E : Type 0} (decode : Bytes → E ⊎ (Object × String)) where
  -- parseDoc; the codegen as it is left, and the error.
  unfoldable pub parse_doc : Bytes → ManifestCodegen → Option E × ManifestCodegen
  unfolding add_object
  parse_doc doc m = elim (decode doc) [
    | inl e ↦ (some e, m)
    | inr (obj, gv) ↦ (none, add_object obj gv m)
  ]

  -- The loop of ParseFile over the documents.
  unfoldable pub parse_docs : List Bytes → ManifestCodegen → Option E × ManifestCodegen
  unfolding parse_doc
  parse_docs [] m = (none, m)
  parse_docs (doc ∷ docs) m =
      let (e, m') = parse_doc doc m in
      let rest = parse_docs docs m' in elim e [ none ↦ rest | some e ↦ (some e, m') ]

  -- ParseFile; `read` is what is read from the source file.
  unfoldable pub parse_file : (String → E ⊎ Bytes) → ManifestCodegen → Option E × ManifestCodegen
  unfolding parse_docs split_docs
  parse_file read m = elim (read m.source) [
    | inl e ↦ (some e, m)
    | inr text ↦ parse_docs (split_docs text) m
  ]
