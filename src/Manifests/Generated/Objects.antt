-- ===== src/Manifests/Generated/Objects.antt =====
-- internal/manifests/ManifestCodegen.go: from the documents of a manifest to the object that the
-- generated constructor returns.
use microkube.Base.{String, true, List, [], ◌∷◌, ◌⊎◌, inr, ◌≡◌}
use microkube.Base.Bytes.{Bytes}
use microkube.Manifests.{Object}
use microkube.Manifests.Codegen.Apart.{Apart}
use microkube.Manifests.Generated.{drop_newline}
use microkube.Manifests.Generated.Run.{is_raw}
use microkube.Manifests.Applied as Applied

-- The documents decode to these objects.
abbrev pub Decodes :
    {E : Type 0} → (Bytes → E ⊎ (Object × String)) → List Bytes → List (Object × String) → Type 0
Decodes decode [] [] = Unit
Decodes decode (doc ∷ docs) (object ∷ objects) =
    (decode doc ≡ inr object) × Decodes decode docs objects
Decodes decode _ _ = ⊥

module _ (json : String → Object → String) where
  -- The encoding of an object can stand between back quotes.
  abbrev pub IsRawObject : Object × String → Type 0
  IsRawObject (obj, gv) = is_raw (drop_newline (json gv obj)) ≡ true
