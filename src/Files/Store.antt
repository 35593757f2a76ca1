-- ===== src/Files/Store.antt =====
-- The files by their paths, with what package os does to them. The contents are of any type.
use text.Mathlib.Text.{◌==◌}
use text.Mathlib.TextEquality.{eq_iff}
use text.Mathlib.TextPositions.{eq_refl}
use microkube.Base.{
  String, Bool, true, false, Option, none, some, ◌≡◌, ◌≢◌, refl, sym, ap, ◌∙◌, if◌then◌else◌, inl,
  inr, Bool-cases,
}

pub data Entry (C : Type 0) : Type 0 where
  directory : Entry C
  file : C → Entry C

abbrev pub Files : Type 0 → Type 0
Files C = String → Option (Entry C)

pub true-ne-false : ¬ (true ≡ false)
true-ne-false h = cc

module _ {C : Type 0} where
  -- The files after a path was given an entry.
  unfoldable pub write : Files C → String → Entry C → Files C
  write files path entry q = if q == path then some entry else files q

  abbrev pub is_some : Option (Entry C) → Bool
  is_some none = false
  is_some (some entry) = true

  -- os.Stat returns no error.
  unfoldable pub exists : Files C → String → Bool
  exists files path = is_some (files path)

  -- os.Mkdir, where `permitted` says whether the directory could be made; its error is ignored.
  unfoldable pub mkdir : Bool → Files C → String → Files C
  unfolding exists write
  mkdir permitted files path =
      if exists files path then files else if permitted then write files path directory else files

  pub write_same :
      (files : Files C) (path : String) (entry : Entry C) → write files path entry path ≡ some entry
  unfolding write
  write_same files path entry = rw (eq_refl path) refl

  pub write_other :
      (files : Files C) (path q : String) (entry : Entry C)
      → q ≢ path
      → write files path entry q ≡ files q
  unfolding write
  write_other files path q entry n = elim (Bool-cases (q == path)) [
    | inl e ↦ absurd (n ((eq_iff q path).0 e))
    | inr e ↦ rw e refl
  ]

  -- A file that exists is not removed by a write.
  pub exists-write :
      (files : Files C) (path q : String) (entry : Entry C)
      → exists files q ≡ true
      → exists (write files path entry) q ≡ true
  unfolding write exists
  exists-write files path q entry h = elim (Bool-cases (q == path)) [
    | inl e ↦ ap is_some (written e)
    | inr e ↦ ap is_some (kept e) ∙ h
  ]
    where
      written : (q == path) ≡ true → write files path entry q ≡ some entry
      written e = rw e refl

      kept : (q == path) ≡ false → write files path entry q ≡ files q
      kept e = rw e refl

  pub exists_written :
      (files : Files C) (path : String) (entry : Entry C)
      → exists (write files path entry) path ≡ true
  unfolding exists
  exists_written files path entry = ap is_some (write_same files path entry)

  -- What exists is kept as it is by os.Mkdir.
  pub mkdir_kept :
      (permitted : Bool) (files : Files C) (path q : String)
      → exists files q ≡ true
      → mkdir permitted files path q ≡ files q
  unfolding mkdir
  mkdir_kept permitted files path q h = elim (Bool-cases (exists files path)) [
    | inl e ↦ rw e refl
    | inr e ↦ rw e (made permitted e)
  ]
    where
      different : exists files path ≡ false → q ≢ path
      different e same = true-ne-false (sym h ∙ (ap (exists files) same ∙ e))

      made :
          (b : Bool)
          → exists files path ≡ false
          → (if b then write files path directory else files) q ≡ files q
      made true e = write_other files path q directory (different e)
      made false e = refl
