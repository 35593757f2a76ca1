-- ===== src/Manifests/Codegen/Apart.antt =====
-- internal/manifests/ManifestCodegen.go: the names of a manifest's entries differ.
use text.Mathlib.TextLemmas as Strings
use text.Mathlib.TextLemmas.{append_cancel_left}
use mathlib.Core.List.{reverse, reverse-append}
use microkube.Files.Store.{true-ne-false}
use microkube.Base.{
  ℕ, zero, suc, ◌+◌, ◌≤◌, ◌<◌, String, true, false, List, [], ◌∷◌, ◌++◌, length, length-append,
  replicate, All, All-append, append_assoc, append-nil, ◌⊎◌, inl, inr, ◌≡◌, ◌≢◌, refl, sym, ap,
  subst, ◌∙◌, arith,
}
use microkube.Base.Bytes.{codes, has_prefix, has_suffix}
use microkube.Base.Texts as Texts
use microkube.Base.Texts.{itoa}
use microkube.Base.Texts.Digits.{codes-append, itoa_injective, number_suffix}
use microkube.Manifests.{Object}
use microkube.Manifests.Codegen.{FileEntry, object_name, health_name, probes_of}
use microkube.Manifests.Codegen.Entries.{
  count, total, object_entry, health_entry, with_object, with_objects,
}

-- No two entries have the same name.
abbrev pub Apart : List FileEntry → Type 0
Apart [] = Unit
Apart (entry ∷ entries) = All (λ other. other.name ≢ entry.name) entries × Apart entries

Apart-snoc :
    (entries : List FileEntry) (x : FileEntry)
    → Apart entries
    → All (λ entry. entry.name ≢ x.name) entries
    → Apart (entries ++ x ∷ [])
Apart-snoc [] x a f = (tt, tt)
Apart-snoc (entry ∷ entries) x (h, a) (n, f) = (
  All-append (λ other. other.name ≢ entry.name) entries (x ∷ []) h ((λ e. n (sym e)), tt),
  Apart-snoc entries x a f,
)

object_name_injective : (name : String) (j k : ℕ) → object_name name j ≡ object_name name k → j ≡ k
unfolding object_name
object_name_injective name j k e =
    itoa_injective j k
      (append_cancel_left "O" _ _ (append_cancel_left name _ _ (append_cancel_left "kobjS" _ _ e)))

-- A generated name of an object does not end in "HO".
pub object_name_suffix :
    (name : String) (k : ℕ) → has_suffix (codes (object_name name k)) (codes "HO") ≡ false
unfolding object_name
object_name_suffix name k =
    ap (λ t. has_suffix (codes t) (codes "HO"))
      (ap (λ t. Texts.◌++◌ "kobjS" t) (sym (Strings.append_assoc name "O" (itoa k)))
        ∙ sym (Strings.append_assoc "kobjS" (Texts.◌++◌ name "O") (itoa k)))
    ∙ number_suffix (Texts.◌++◌ "kobjS" (Texts.◌++◌ name "O")) k (72 ∷ []) 79 (omega arith)

pub health_name_suffix : (name : String) → has_suffix (codes (health_name name)) (codes "HO") ≡ true
unfolding health_name has_suffix has_prefix
health_name_suffix name =
    ap (λ t. has_prefix (reverse t) (reverse (codes "HO")))
      (codes-append "kobjS" (Texts.◌++◌ name "HO")
        ∙ (ap (λ t. codes "kobjS" ++ t) (codes-append name "HO")
            ∙ sym (append_assoc (codes "kobjS") (codes name) (codes "HO"))))
    ∙ ap (λ t. has_prefix t (reverse (codes "HO")))
        (reverse-append (codes "kobjS" ++ codes name) (codes "HO"))

health_ne_object : (name : String) (k : ℕ) → health_name name ≢ object_name name k
health_ne_object name k e = true-ne-false (
    sym (health_name_suffix name)
    ∙ (ap (λ t. has_suffix (codes t) (codes "HO")) e ∙ object_name_suffix name k))

-- The name of the health object, or that of an object with a number below a bound.
abbrev IsNamed : String → ℕ → FileEntry → Type 0
IsNamed name bound entry =
    (entry.name ≡ health_name name) ⊎ ((j : ℕ) × (j < bound) × (entry.name ≡ object_name name j))

record Good (name : String) (entries : List FileEntry) : Type 0 where
  named : All (IsNamed name (length entries)) entries
  apart : Apart entries

abbrev NoHealth : String → List FileEntry → Type 0
NoHealth name entries = All (λ entry. entry.name ≢ health_name name) entries

all_weaken :
    {P Q : FileEntry → Type 0} (f : (x : FileEntry) → P x → Q x) (xs : List FileEntry)
    → All P xs
    → All Q xs
all_weaken f [] a = tt
all_weaken f (x ∷ xs) (p, a) = (f x p, all_weaken f xs a)

below :
    (name : String) (a b : ℕ) (entry : FileEntry)
    → a ≤ b
    → IsNamed name a entry
    → IsNamed name b entry
below name a b entry le (inl h) = inl h
below name a b entry le (inr (j, lt, h)) = inr (j, omega arith, h)

Good-snoc :
    (name : String) (entries : List FileEntry) (x : FileEntry)
    → Good name entries
    → IsNamed name (suc (length entries)) x
    → All (λ entry. entry.name ≢ x.name) entries
    → Good name (entries ++ x ∷ [])
Good-snoc name entries x g n f =
    let longer : length (entries ++ x ∷ []) ≡ suc (length entries) =
      length-append entries (x ∷ []) ∙ omega arith in
    record {
      named =
          subst (λ k. All (IsNamed name k) (entries ++ x ∷ [])) (sym longer)
            (All-append (IsNamed name (suc (length entries))) entries (x ∷ [])
              (all_weaken
                (λ entry. below name (length entries) (suc (length entries)) entry (omega arith))
                entries g.named)
              (n, tt));
      apart = Apart-snoc entries x g.apart f;
    }

Good-object :
    (name : String) (entries : List FileEntry) (obj : Object) (gv : String)
    → Good name entries
    → Good name (entries ++ object_entry name (length entries) obj gv ∷ [])
Good-object name entries obj gv g =
    Good-snoc name entries (object_entry name (length entries) obj gv) g
      (inr (length entries, omega arith, refl)) (all_weaken differs entries g.named)
  where
    differs :
        (entry : FileEntry)
        → IsNamed name (length entries) entry
        → entry.name ≢ object_name name (length entries)
    differs entry (inl h) e = health_ne_object name (length entries) (sym h ∙ e)
    differs entry (inr (j, lt, h)) e =
        let same = object_name_injective name j (length entries) (sym h ∙ e) in absurd (omega arith)

NoHealth-object :
    (name : String) (entries : List FileEntry) (obj : Object) (gv : String)
    → NoHealth name entries
    → NoHealth name (entries ++ object_entry name (length entries) obj gv ∷ [])
NoHealth-object name entries obj gv f =
    All-append (λ entry. entry.name ≢ health_name name) entries _ f
      ((λ e. health_ne_object name (length entries) (sym e)), tt)

Good-health :
    (name : String) (entries : List FileEntry) (obj : Object) (gv : String)
    → Good name entries
    → NoHealth name entries
    → Good name (entries ++ health_entry name obj gv ∷ [])
Good-health name entries obj gv g f =
    Good-snoc name entries (health_entry name obj gv) g (inl refl) f

-- One more object, where `rest` more health objects follow.
Good-with_object :
    (name : String) (entries : List FileEntry) (obj : Object) (gv : String) (rest : ℕ)
    → Good name entries
    → count (probes_of obj) + rest ≤ 1
    → NoHealth name entries ⊎ (count (probes_of obj) + rest ≡ 0)
    → Good name (with_object name entries obj gv)
      × (NoHealth name (with_object name entries obj gv) ⊎ (rest ≡ 0))
unfolding with_object
Good-with_object name entries obj gv rest g le h = few (count (probes_of obj)) le h
  where
    plain : List FileEntry
    plain = entries ++ object_entry name (length entries) obj gv ∷ []

    Holds : ℕ → Type 0
    Holds n =
        Good name (plain ++ replicate n (health_entry name obj gv))
        × (NoHealth name (plain ++ replicate n (health_entry name obj gv)) ⊎ (rest ≡ 0))

    still : NoHealth name entries ⊎ (0 + rest ≡ 0) → NoHealth name plain ⊎ (rest ≡ 0)
    still (inl f) = inl (NoHealth-object name entries obj gv f)
    still (inr e) = inr (omega arith)

    few : (n : ℕ) → n + rest ≤ 1 → NoHealth name entries ⊎ (n + rest ≡ 0) → Holds n
    few zero le h =
        subst (λ es. Good name es × (NoHealth name es ⊎ (rest ≡ 0))) (sym (append-nil plain))
          (Good-object name entries obj gv g, still h)
    few (suc zero) le (inl f) = (
      Good-health name plain obj gv (Good-object name entries obj gv g)
          (NoHealth-object name entries obj gv f),
      inr (omega arith),
    )
    few (suc zero) le (inr e) = absurd (omega arith)
    few (suc (suc n)) le h = absurd (omega arith)

with_objects-Apart :
    (name : String) (entries : List FileEntry) (objects : List (Object × String))
    → Good name entries
    → total objects ≤ 1
    → NoHealth name entries ⊎ (total objects ≡ 0)
    → Apart (with_objects name entries objects)
unfolding with_objects total
with_objects-Apart name entries [] g le h = g.apart
with_objects-Apart name entries ((obj, gv) ∷ objects) g le h =
    let (good, none_left) = Good-with_object name entries obj gv (total objects) g le h in
    with_objects-Apart name (with_object name entries obj gv) objects good (omega arith) none_left

-- Where no more than one container of all objects has a probe, the constants of a manifest's
-- entries have different names.
pub entries-Apart :
    (name : String) (objects : List (Object × String))
    → total objects ≤ 1
    → Apart (with_objects name [] objects)
entries-Apart name objects le =
    with_objects-Apart name [] objects (record { named = tt; apart = tt }) le (inl tt)
