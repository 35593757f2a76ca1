-- ===== src/Manifests/Generated/Run.antt =====
-- internal/manifests/ManifestCodegen.go: what the generated constructor does when it runs. A Go
-- program with two constants of the same name, or with a back quote in a constant, does not
-- compile.
use text.Mathlib.Text.{◌==◌}
use text.Mathlib.TextEquality.{eq_iff}
use text.Mathlib.TextPositions.{eq_refl}
use mathlib.Core.List.{foldl}
use microkube.Base.{
  String, Bool, true, false, not, ◌&&◌, Option, none, some, List, [], ◌∷◌, ◌++◌, map, ltb, All,
  append_assoc, if◌then◌else◌, inl, inr, ◌≡◌, ◌≢◌, refl, sym, ap, ap₂, subst, ◌∙◌, Bool-cases,
}
use microkube.Base.Bytes.{codes, has_suffix}
use microkube.Files.Path.{text_of}
use microkube.Manifests.{Object}
use microkube.Manifests.Codegen.{FileEntry, probes_of}
use microkube.Manifests.Codegen.Entries.{count}
use microkube.Manifests.Codegen.Apart.{Apart}
use microkube.Manifests.Generated.{
  Constant, constants, Call, register, register_ho, call_of, drop_newline,
}
use microkube.Manifests.Applied as Applied
use microkube.Manifests.Applied.{KubeManifestBase, empty_base, set_name}

-- What comes of building and calling a generated constructor.
pub data Built (C : Type 0) : Type 0 where
  built : KubeManifestBase C → Built C
  no_compile template_error : Built C

unfoldable pub lookup : String → List Constant → Option String
lookup name [] = none
lookup name ((other, value) ∷ rest) =
    let found = lookup name rest in if other == name then some value else found

-- The name is that of none of the constants.
unfoldable pub is_new : String → List Constant → Bool
is_new name [] = true
is_new name ((other, value) ∷ rest) = not (other == name) && is_new name rest

unfoldable pub are_distinct : List Constant → Bool
unfolding is_new
are_distinct [] = true
are_distinct ((name, value) ∷ rest) = is_new name rest && are_distinct rest

-- What a raw string literal, which stands between back quotes, can hold. Carriage returns, which
-- are dropped from one, do not occur in JSON.
unfoldable pub is_raw : String → Bool
is_raw String.[] = true
is_raw (String.◌∷◌ c s) = let rest = is_raw s in not (text_of c == "`") && rest

unfoldable pub are_raw : List Constant → Bool
unfolding is_raw
are_raw [] = true
are_raw ((name, value) ∷ rest) = is_raw value && are_raw rest

module _ {C : Type 0} (render : String → Option String) (declared : List Constant) where
  -- The calls; `render` stands for text/template with what the runtime knows.
  unfoldable pub run_calls : List Call → KubeManifestBase C → Built C
  unfolding lookup Applied.register Applied.register_ho
  run_calls [] base = built base
  run_calls (register name ∷ calls) base = elim (lookup name declared) [
    | none ↦ no_compile
    | some value ↦ elim (render value) [
      | none ↦ template_error
      | some text ↦ run_calls calls (Applied.register text base)
    ]
  ]
  run_calls (register_ho name ∷ calls) base = elim (lookup name declared) [
    | none ↦ no_compile
    | some value ↦ run_calls calls (Applied.register_ho value base)
  ]

  -- New<name>
  unfoldable pub construct : String → List Call → Built C
  unfolding run_calls are_distinct are_raw set_name
  construct name calls =
      if are_distinct declared && are_raw declared
      then run_calls calls (set_name name empty_base)
      else no_compile

ne_false : (a b : String) → a ≢ b → (a == b) ≡ false
ne_false a b n = elim (Bool-cases (a == b)) [ inl e ↦ absurd (n ((eq_iff a b).0 e)) | inr e ↦ e ]

all_at :
    (P : FileEntry → Type 0) (front : List FileEntry) (x : FileEntry) (rest : List FileEntry)
    → All P (front ++ x ∷ rest)
    → P x
all_at P [] x rest (p, a) = p
all_at P (other ∷ front) x rest (p, a) = all_at P front x rest a

module _ (json : String → Object → String) where
  abbrev pub value_of : FileEntry → String
  value_of entry = drop_newline (json entry.gv entry.obj)

  abbrev pub constant_of : FileEntry → Constant
  constant_of entry = (entry.name, value_of entry)

  -- The encoding of an entry's object can stand between back quotes.
  abbrev pub IsRaw : FileEntry → Type 0
  IsRaw entry = is_raw (value_of entry) ≡ true

  pub raw-All :
      (entries : List FileEntry) → All IsRaw entries → are_raw (map constant_of entries) ≡ true
  unfolding are_raw
  raw-All [] a = refl
  raw-All (entry ∷ entries) (e, a) = ap₂ (λ x y. x && y) e (raw-All entries a)

  pub constants_lem :
      (encode : String → Object → Option String)
      → ((gv : String) (obj : Object) → encode gv obj ≡ some (json gv obj))
      → (entries : List FileEntry) → constants encode entries ≡ some (map constant_of entries)
  unfolding constants
  constants_lem encode e [] = refl
  constants_lem encode e (entry ∷ entries) =
      rw (e entry.gv entry.obj, constants_lem encode e entries, constants) refl

  lookup-Apart :
      (front : List FileEntry) (entry : FileEntry) (rest : List FileEntry)
      → Apart (front ++ entry ∷ rest)
      → lookup entry.name (map constant_of (front ++ entry ∷ rest)) ≡ some (value_of entry)
  unfolding lookup
  lookup-Apart [] entry rest a = rw (eq_refl entry.name) refl
  lookup-Apart (other ∷ front) entry rest (n, a) =
      rw
        (ne_false other.name entry.name
          (λ e. all_at (λ other'. other'.name ≢ other.name) front entry rest n (sym e)))
        (lookup-Apart front entry rest a)

  pub distinct-Apart :
      (entries : List FileEntry) → Apart entries → are_distinct (map constant_of entries) ≡ true
  unfolding are_distinct is_new
  distinct-Apart [] a = refl
  distinct-Apart (entry ∷ entries) (n, a) =
      ap₂ (λ x y. x && y) (new entries n) (distinct-Apart entries a)
    where
      new :
          (rest : List FileEntry)
          → All (λ other. other.name ≢ entry.name) rest
          → is_new entry.name (map constant_of rest) ≡ true
      new [] n = refl
      new (other ∷ rest) (d, n) =
          ap₂ (λ x y. not x && y) (ne_false other.name entry.name d) (new rest n)

  module _ {C : Type 0} (text : String → String) where
    -- What the constructor does for an object of the manifest: it registers the object and, where
    -- a container of it has a probe, makes it the health object.
    abbrev pub registered : KubeManifestBase C → Object × String → KubeManifestBase C
    registered base (obj, gv) =
        let base' = Applied.register (text (drop_newline (json gv obj))) base in
        if ltb 0 (count (probes_of obj))
        then Applied.register_ho (drop_newline (json gv obj)) base'
        else base'

    abbrev pub step : KubeManifestBase C → FileEntry → KubeManifestBase C
    step base entry =
        if has_suffix (codes entry.name) (codes "HO")
        then Applied.register_ho (value_of entry) base
        else Applied.register (text (value_of entry)) base

    pub run_calls-Apart :
        (render : String → Option String)
        → ((value : String) → render value ≡ some (text value))
        → (all front rest : List FileEntry) (base : KubeManifestBase C) → all ≡ front ++ rest
        → Apart all
        → run_calls render (map constant_of all) (map (λ entry. call_of entry.name) rest) base
          ≡ built (foldl step base rest)
    unfolding run_calls call_of
    run_calls-Apart render r all front [] base e a = refl
    run_calls-Apart render r all front (entry ∷ rest) base e a =
        let found : lookup entry.name (map constant_of all) ≡ some (value_of entry) =
          ap (λ es. lookup entry.name (map constant_of es)) e
          ∙ lookup-Apart front entry rest (subst Apart e a) in
        let after = λ (base : KubeManifestBase C).
          run_calls-Apart render r all (front ++ entry ∷ []) rest base
            (e ∙ sym (append_assoc front (entry ∷ []) rest)) a in
        elim (Bool-cases (has_suffix (codes entry.name) (codes "HO"))) [
          | inl h ↦
              rw (h, found, run_calls, call_of) (after (Applied.register_ho (value_of entry) base))
          | inr h ↦
              rw (h, found, r (value_of entry), run_calls, call_of)
                (after (Applied.register (text (value_of entry)) base))
        ]
