-- ===== src/Manifests/Codegen/Entries.antt =====
-- internal/manifests/ManifestCodegen.go: the entries that a manifest's objects become.
use microkube.Base.{
  ℕ, suc, ◌+◌, String, Bool, true, false, List, [], ◌∷◌, ◌++◌, length, replicate, append_assoc,
  append-nil, if◌then◌else◌, ◌≡◌, refl, sym, ◌∙◌,
}
use microkube.Manifests.{Object}
use microkube.Manifests.Codegen.{
  FileEntry, ManifestCodegen, object_name, health_name, add_probes, probes_of, add_object,
}

-- The number of containers with a probe.
unfoldable pub count : List Bool → ℕ
count [] = 0
count (probed ∷ probes) = if probed then suc (count probes) else count probes

unfoldable pub total : List (Object × String) → ℕ
unfolding count
total [] = 0
total ((obj, gv) ∷ objects) = count (probes_of obj) + total objects

abbrev pub object_entry : String → ℕ → Object → String → FileEntry
object_entry name k obj gv = record { obj = obj; gv = gv; name = object_name name k }

abbrev pub health_entry : String → Object → String → FileEntry
health_entry name obj gv = record { obj = obj; gv = gv; name = health_name name }

-- The entries for an object behind other entries, and for several objects.
unfoldable pub with_object : String → List FileEntry → Object → String → List FileEntry
unfolding count
with_object name entries obj gv =
    (entries ++ object_entry name (length entries) obj gv ∷ [])
    ++ replicate (count (probes_of obj)) (health_entry name obj gv)

unfoldable pub with_objects : String → List FileEntry → List (Object × String) → List FileEntry
unfolding with_object
with_objects name entries [] = entries
with_objects name entries ((obj, gv) ∷ objects) =
    with_objects name (with_object name entries obj gv) objects

add_probes_lem :
    (health : FileEntry) (probes : List Bool) (m : ManifestCodegen)
    → ((add_probes health probes m).entries ≡ m.entries ++ replicate (count probes) health)
      × ((add_probes health probes m).name ≡ m.name)
unfolding add_probes count
add_probes_lem health [] m = (sym (append-nil m.entries), refl)
add_probes_lem health (true ∷ probes) m =
    let (e, n) =
      add_probes_lem health probes
        (record m { entries = m.entries ++ health ∷ []; has_health_check = true }) in
    (e ∙ append_assoc m.entries (health ∷ []) (replicate (count probes) health), n)
add_probes_lem health (false ∷ probes) m = add_probes_lem health probes m

pub add_object_lem :
    (obj : Object) (gv : String) (m : ManifestCodegen)
    → ((add_object obj gv m).entries ≡ with_object m.name m.entries obj gv)
      × ((add_object obj gv m).name ≡ m.name)
unfolding add_object with_object
add_object_lem obj gv m = add_probes_lem (health_entry m.name obj gv) (probes_of obj) _
