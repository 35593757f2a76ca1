-- ===== src/Log/Stream/Split.antt =====
-- The specification of HandleData: all complete lines of the buffer, in order, go to the handler.
use microkube.Base.{
  ℕ, ◌≤◌, true, false, List, [], ◌∷◌, ◌++◌, ◌≡◌, refl, ap, ◌∙◌, arith, length, concat, All, ◌==◌,
  ==_iff, if◌then◌else◌, Bool-cases, inl, inr,
}
use microkube.Base.Bytes.{Bytes, contains}
use microkube.Log.Stream.{read_string}

abbrev add_front : ℕ → List Bytes × Bytes → List Bytes × Bytes
add_front c ([], rest) = ([], c ∷ rest)
add_front c (l ∷ ls, rest) = ((c ∷ l) ∷ ls, rest)

-- The complete lines, each with its newline, and what stands behind the last newline.
unfoldable pub split : Bytes → List Bytes × Bytes
split [] = ([], [])
split (c ∷ cs) = let r = split cs in if c == b'\n' then ((c ∷ []) ∷ r.0, r.1) else add_front c r

-- One newline, at the end.
abbrev pub IsLine : Bytes → Type 0
IsLine [] = ⊥
IsLine (c ∷ []) = c ≡ b'\n'
IsLine (c ∷ d ∷ ds) = ((c == b'\n') ≡ false) × IsLine (d ∷ ds)

pub split-read_string :
    (s : Bytes)
    → contains b'\n' s ≡ true
    → split s ≡ (
      (read_string b'\n' s).0 ∷ (split (read_string b'\n' s).1).0,
      (split (read_string b'\n' s).1).1,
    )
unfolding split read_string contains
split-read_string [] h = cc
split-read_string (c ∷ cs) h = elim (Bool-cases (c == b'\n')) [
  | inl e ↦ rw e refl
  | inr e ↦ rw e (rw (split-read_string cs (rw e at h)) refl)
]

pub split_rest : (s : Bytes) → contains b'\n' s ≡ false → split s ≡ ([], s)
unfolding split contains
split_rest [] h = refl
split_rest (c ∷ cs) h = elim (Bool-cases (c == b'\n')) [
  | inl e ↦ cc (rw e at h)
  | inr e ↦ rw e (rw (split_rest cs (rw e at h)) refl)
]

concat-add_front :
    (c : ℕ) (r : List Bytes × Bytes)
    → concat (add_front c r).0 ++ (add_front c r).1 ≡ c ∷ (concat r.0 ++ r.1)
concat-add_front c ([], rest) = refl
concat-add_front c (l ∷ ls, rest) = refl

-- No byte is lost or moved.
pub concat-split : (s : Bytes) → concat (split s).0 ++ (split s).1 ≡ s
unfolding split
concat-split [] = refl
concat-split (c ∷ cs) = elim (Bool-cases (c == b'\n')) [
  | inl e ↦ rw e (rw (concat-split cs) refl)
  | inr e ↦ rw e (concat-add_front c (split cs) ∙ ap (λ t. c ∷ t) (concat-split cs))
]

All-add_front :
    (c : ℕ) (r : List Bytes × Bytes)
    → (c == b'\n') ≡ false
    → All IsLine r.0
    → All IsLine (add_front c r).0
All-add_front c ([], rest) e h = tt
All-add_front c ([] ∷ ls, rest) e h = absurd h.0
All-add_front c ((d ∷ l) ∷ ls, rest) e h = ((e, h.0), h.1)

-- Each line of the split has exactly one newline, at its end.
pub All-split : (s : Bytes) → All IsLine (split s).0
unfolding split
All-split [] = tt
All-split (c ∷ cs) = elim (Bool-cases (c == b'\n')) [
  | inl e ↦ rw e ((==_iff c b'\n').0 e, All-split cs)
  | inr e ↦ rw e (All-add_front c (split cs) e (All-split cs))
]

contains-add_front :
    (c : ℕ) (r : List Bytes × Bytes)
    → (c == b'\n') ≡ false
    → contains b'\n' r.1 ≡ false
    → contains b'\n' (add_front c r).1 ≡ false
unfolding contains
contains-add_front c ([], rest) e h = rw e h
contains-add_front c (l ∷ ls, rest) e h = h

-- What stays in the buffer has no newline.
pub contains-split : (s : Bytes) → contains b'\n' (split s).1 ≡ false
unfolding split contains
contains-split [] = refl
contains-split (c ∷ cs) = elim (Bool-cases (c == b'\n')) [
  | inl e ↦ rw e (contains-split cs)
  | inr e ↦ rw e (contains-add_front c (split cs) e (contains-split cs))
]

add_front-append :
    (c : ℕ) (r : List Bytes × Bytes) (b : Bytes)
    → (c == b'\n') ≡ false
    → (add_front c (r.0 ++ (split (r.1 ++ b)).0, (split (r.1 ++ b)).1)) ≡ (
      (add_front c r).0 ++ (split ((add_front c r).1 ++ b)).0,
      (split ((add_front c r).1 ++ b)).1,
    )
unfolding split
add_front-append c ([], rest) b e = rw e refl
add_front-append c (l ∷ ls, rest) b e = refl

-- The lines of a text that arrives in two parts: the second part is read behind the rest of
-- the first.
pub split-append :
    (a b : Bytes)
    → split (a ++ b) ≡ ((split a).0 ++ (split ((split a).1 ++ b)).0, (split ((split a).1 ++ b)).1)
unfolding split
split-append [] b = refl
split-append (c ∷ cs) b = elim (Bool-cases (c == b'\n')) [
  | inl e ↦ rw e (rw (split-append cs b) refl)
  | inr e ↦ rw e (rw (split-append cs b) (add_front-append c (split cs) b e))
]

length-add_front : (c : ℕ) (r : List Bytes × Bytes) → length (add_front c r).0 ≡ length r.0
length-add_front c ([], rest) = refl
length-add_front c (l ∷ ls, rest) = refl

-- There are at most as many complete lines as bytes.
pub length-split : (s : Bytes) → length (split s).0 ≤ length s
unfolding split
length-split [] = omega arith
length-split (c ∷ cs) = elim (Bool-cases (c == b'\n')) [
  | inl e ↦ rw e (omega (arith, length-split cs))
  | inr e ↦ rw e (omega (arith, length-split cs, length-add_front c (split cs)))
]
