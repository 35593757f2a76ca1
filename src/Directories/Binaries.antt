-- ===== src/Directories/Binaries.antt =====
-- pkg/helpers/CmdHelper.go: which file FindBinary returns.
use microkube.Base.{
  String, true, false, some, List, [], ◌∷◌, ◌++◌, All, ◌≡◌, ◌↔◌, refl, sym, ap, ◌∙◌, inl, inr,
  Bool-cases, Option-cases,
}
use microkube.Base.Bytes.{Bytes}
use microkube.Files.Path.{join, dir}
use microkube.Files.Store.{Files, exists}
use microkube.Directories.{Machine, candidates, first_there, find_binary}

-- A directory has the file and none of those in front of it has.
abbrev pub IsFirst : String → List String → Files Bytes → String → Type 0
IsFirst name dirs files path =
    (front : List String) × (dir : String) × (rest : List String) × (dirs ≡ front ++ dir ∷ rest)
    × All (λ other. exists files (join (other ∷ name ∷ [])) ≡ false) front
    × (path ≡ join (dir ∷ name ∷ []))
    × (exists files path ≡ true)

some_injective : {a b : String} → some a ≡ some b → a ≡ b
some_injective e = cc

first_there_sound :
    (name : String) (dirs : List String) (files : Files Bytes) (path : String)
    → first_there name dirs files ≡ some path
    → IsFirst name dirs files path
unfolding first_there
first_there_sound name [] files path h = cc
first_there_sound name (dir ∷ rest) files path h =
    elim (Bool-cases (exists files (join (dir ∷ name ∷ [])))) [
      | inl e ↦
          let same : join (dir ∷ name ∷ []) ≡ path = some_injective (rw (e, first_there) at h) in
          ([], dir, rest, refl, tt, sym same, ap (exists files) (sym same) ∙ e)
      | inr e ↦
          let (front, d, others, split, missing, is, there) =
            first_there_sound name rest files path (rw (e, first_there) at h) in
          (dir ∷ front, d, others, ap (λ t. dir ∷ t) split, (e, missing), is, there)
    ]

first_there_complete :
    (name : String) (front : List String) (dir : String) (rest : List String) (files : Files Bytes)
    → All (λ other. exists files (join (other ∷ name ∷ [])) ≡ false) front
    → exists files (join (dir ∷ name ∷ [])) ≡ true
    → first_there name (front ++ dir ∷ rest) files ≡ some (join (dir ∷ name ∷ []))
unfolding first_there
first_there_complete name [] dir rest files m e = rw (e, first_there) refl
first_there_complete name (other ∷ front) dir rest files (o, m) e =
    rw (o, first_there) (first_there_complete name front dir rest files m e)

-- FindBinary returns a path exactly where the working directory is known and the path is that of
-- a file of that name in the first of seven directories that has one: third_party three, two and
-- one levels above the working directory, in it and in the application's directory, then the
-- extra directory, then /usr/bin.
pub find_binary_iff :
    (machine : Machine) (name app_dir extra_dir : String) (files : Files Bytes) (path : String)
    → (find_binary machine name app_dir extra_dir files ≡ some path) ↔ (
        (cwd : String) × (machine.getwd ≡ some cwd)
        × IsFirst name
            (join (dir (dir (dir cwd)) ∷ "third_party" ∷ [])
              ∷ join (dir (dir cwd) ∷ "third_party" ∷ [])
              ∷ join (dir cwd ∷ "third_party" ∷ [])
              ∷ join (cwd ∷ "third_party" ∷ [])
              ∷ join (app_dir ∷ "third_party" ∷ [])
              ∷ extra_dir
              ∷ "/usr/bin"
              ∷ [])
            files
            path)
unfolding find_binary candidates
find_binary_iff machine name app_dir extra_dir files path = (forth, back)
  where
    found :
        (cwd : String)
        → machine.getwd ≡ some cwd
        → find_binary machine name app_dir extra_dir files
          ≡ first_there name (candidates cwd app_dir extra_dir) files
    found cwd g = rw (g, find_binary) refl

    forth :
        find_binary machine name app_dir extra_dir files ≡ some path
        → (cwd : String) × (machine.getwd ≡ some cwd)
          × IsFirst name (candidates cwd app_dir extra_dir) files path
    forth h = elim (Option-cases machine.getwd) [
      | inl g ↦ let k = rw (g, find_binary) at h in cc
      | inr (cwd, g) ↦ (
        cwd,
        g,
        first_there_sound name (candidates cwd app_dir extra_dir) files path
            (sym (found cwd g) ∙ h),
      )
    ]

    back :
        (cwd : String) × (machine.getwd ≡ some cwd)
          × IsFirst name (candidates cwd app_dir extra_dir) files path
        → find_binary machine name app_dir extra_dir files ≡ some path
    back (cwd, g, (front, at_dir, rest, split, missing, is, there)) =
        found cwd g
        ∙ (ap (λ dirs. first_there name dirs files) split
            ∙ (first_there_complete name front at_dir rest files missing
                  (ap (exists files) (sym is) ∙ there)
                ∙ ap some (sym is)))
