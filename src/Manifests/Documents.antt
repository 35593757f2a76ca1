-- ===== src/Manifests/Documents.antt =====
-- internal/manifests/ManifestCodegen.go, ParseFile: the documents of a YAML file. The regular
-- expression is compiled by MustCompilePOSIX, where `^` matches at the start of every line.
pub mod Laws
pub mod Printed
use microkube.Base.{ℕ, zero, suc, Bool, true, false, ◌&&◌, List, [], ◌∷◌, ◌==◌, if◌then◌else◌}
use microkube.Base.Bytes.{Bytes, codes, has_prefix}

abbrev pub separator : Bytes
separator = codes "---"

-- The first of the documents, and the others: `skip` bytes of a separator are still to be read,
-- and `at_start` says whether a line starts here.
unfoldable pub split_from : ℕ → Bool → Bytes → Bytes × List Bytes
unfolding has_prefix
split_from skip at_start [] = ([], [])
split_from (suc skip) at_start (c ∷ s) = split_from skip false s
split_from zero at_start (c ∷ s) =
    let (next, nexts) = split_from 2 false s in
    let (doc, docs) = split_from 0 (c == 10) s in
    if at_start && has_prefix (c ∷ s) separator then ([], next ∷ nexts) else (c ∷ doc, docs)

-- `splitRegex.Split(string(buf), -1)`
unfoldable pub split_docs : Bytes → List Bytes
unfolding split_from
split_docs text = let (doc, docs) = split_from 0 true text in doc ∷ docs
