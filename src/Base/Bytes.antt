-- ===== src/Base/Bytes.antt =====
-- Go strings and byte slices that the program walks: lists of bytes, with the functions of Go's
-- package strings that the log parsers and the health checks call.
use Prim.Native.Char.{code}
use Prim.Native.Nat.{ℕ}
use Prim.Native.String.{String}
use mathlib.Core.Path.{◌≡◌, refl, sym, ap, subst, ◌∙◌}
use mathlib.Core.Bool.{Bool, true, false, ◌&&◌, ◌||◌}
use mathlib.Core.Logic.{◌↔◌, inl, inr}
use mathlib.Core.List.{List, [], ◌∷◌, ◌++◌, reverse, reverse-append, reverse-reverse}
use native.Mathlib.Omega.{arith}
use microkube.Base.Tests.{◌==◌, if◌then◌else◌, Bool-cases}

abbrev pub Bytes : Type 0
Bytes = List ℕ

-- The code points of a text: its bytes, if it is ASCII.
abbrev pub codes : String → Bytes
codes String.[] = []
codes (String.◌∷◌ c s) = code c ∷ codes s

-- s == t
unfoldable pub equal : Bytes → Bytes → Bool
equal [] [] = true
equal (x ∷ xs) (y ∷ ys) = x == y && equal xs ys
equal _ _ = false

-- strings.HasPrefix(s, prefix)
unfoldable pub has_prefix : Bytes → Bytes → Bool
has_prefix s [] = true
has_prefix [] (y ∷ ys) = false
has_prefix (x ∷ xs) (y ∷ ys) = x == y && has_prefix xs ys

-- strings.HasSuffix(s, suffix)
unfoldable pub has_suffix : Bytes → Bytes → Bool
unfolding has_prefix
has_suffix s suffix = has_prefix (reverse s) (reverse suffix)

-- strings.Contains(s, "c") for a single byte c
unfoldable pub contains : ℕ → Bytes → Bool
contains c [] = false
contains c (x ∷ xs) = x == c || contains c xs

-- strings.TrimLeft(s, cutset)
unfoldable pub trim_left : Bytes → Bytes → Bytes
unfolding contains
trim_left cutset [] = []
trim_left cutset (x ∷ xs) = if contains x cutset then trim_left cutset xs else x ∷ xs

-- strings.Trim(s, cutset)
unfoldable pub trim : Bytes → Bytes → Bytes
unfolding trim_left
trim cutset s = reverse (trim_left cutset (reverse (trim_left cutset s)))

pub equal_iff : (text other : Bytes) → (equal text other ≡ true) ↔ (text ≡ other)
unfolding equal
equal_iff [] [] = ground arith
equal_iff [] (d ∷ ds) = ground arith
equal_iff (c ∷ cs) [] = ground arith
equal_iff (c ∷ cs) (d ∷ ds) = ground (arith, equal_iff cs ds)

has_prefix_rest :
    (s prefix : Bytes) → has_prefix s prefix ≡ true → (rest : Bytes) × (s ≡ prefix ++ rest)
unfolding has_prefix
has_prefix_rest s [] h = (s, refl)
has_prefix_rest [] (y ∷ ys) h = cc
has_prefix_rest (x ∷ xs) (y ∷ ys) h =
    let (rest, e) = has_prefix_rest xs ys (ground arith) in (rest, ground arith)

has_prefix-append : (prefix rest : Bytes) → has_prefix (prefix ++ rest) prefix ≡ true
unfolding has_prefix
has_prefix-append [] rest = refl
has_prefix-append (x ∷ xs) rest = ground (arith, has_prefix-append xs rest)

pub has_prefix_iff :
    (s prefix : Bytes) → (has_prefix s prefix ≡ true) ↔ ((rest : Bytes) × (s ≡ prefix ++ rest))
has_prefix_iff s prefix = (has_prefix_rest s prefix, λ p. rw p.1 (has_prefix-append prefix p.0))

pub has_suffix_iff :
    (s suffix : Bytes) → (has_suffix s suffix ≡ true) ↔ ((front : Bytes) × (s ≡ front ++ suffix))
unfolding has_suffix
has_suffix_iff s suffix = (
  λ h.
      let (r, e) = has_prefix_rest (reverse s) (reverse suffix) h in
      (
        reverse r,
        sym (reverse-reverse s)
            ∙ ap reverse e
            ∙ reverse-append (reverse suffix) r
            ∙ ap (λ t. reverse r ++ t) (reverse-reverse suffix),
      ),
  λ p. rw (p.1, reverse-append p.0 suffix) (has_prefix-append (reverse suffix) (reverse p.0)),
)

-- Every byte of `s` is one of the cutset.
abbrev pub AllIn : Bytes → Bytes → Type 0
AllIn cutset [] = Unit
AllIn cutset (x ∷ xs) = (contains x cutset ≡ true) × AllIn cutset xs

AllIn-append : (cutset xs ys : Bytes) → AllIn cutset xs → AllIn cutset ys → AllIn cutset (xs ++ ys)
AllIn-append cutset [] ys hx hy = hy
AllIn-append cutset (x ∷ xs) ys hx hy = (hx.0, AllIn-append cutset xs ys hx.1 hy)

AllIn-reverse : (cutset xs : Bytes) → AllIn cutset xs → AllIn cutset (reverse xs)
AllIn-reverse cutset [] h = tt
AllIn-reverse cutset (x ∷ xs) h =
    subst (AllIn cutset) (sym (reverse-append (x ∷ []) xs))
      (AllIn-append cutset (reverse xs) (x ∷ []) (AllIn-reverse cutset xs h.1) (h.0, tt))

trim_left-splits : (cutset s : Bytes) → (p : Bytes) × AllIn cutset p × (s ≡ p ++ trim_left cutset s)
unfolding trim_left
trim_left-splits cutset [] = ([], tt, refl)
trim_left-splits cutset (x ∷ xs) = elim (Bool-cases (contains x cutset)) [
  | inl e ↦
      let (p, a, s) = trim_left-splits cutset xs in
      (x ∷ p, (e, a), rw (e, trim_left) (ap (λ t. x ∷ t) s))
  | inr e ↦ ([], tt, rw (e, trim_left) refl)
]

trim_left-append :
    (cutset p s : Bytes) → AllIn cutset p → trim_left cutset (p ++ s) ≡ trim_left cutset s
unfolding trim_left
trim_left-append cutset [] s h = refl
trim_left-append cutset (x ∷ xs) s h = rw (h.0, trim_left) (trim_left-append cutset xs s h.1)

-- Trimming takes bytes of the cutset from both ends, and no others.
pub trim-splits :
    (cutset s : Bytes)
    → (p q : Bytes) × AllIn cutset p × AllIn cutset q × (s ≡ p ++ (trim cutset s ++ q))
unfolding trim
trim-splits cutset s =
    let t = trim_left cutset s in
    let (p, a, front) = trim_left-splits cutset s in
    let (q, b, back) = trim_left-splits cutset (reverse t) in
    let turned : t ≡ reverse (trim_left cutset (reverse t)) ++ reverse q =
      sym (reverse-reverse t) ∙ ap reverse back ∙ reverse-append q (trim_left cutset (reverse t)) in
    (p, reverse q, a, AllIn-reverse cutset q b, front ∙ ap (λ x. p ++ x) turned)

-- What stands between bytes of the cutset is left, if its own ends are no such bytes.
pub trim-between :
    (cutset p m q : Bytes)
    → AllIn cutset p
    → AllIn cutset q
    → trim_left cutset (m ++ q) ≡ m ++ q
    → trim_left cutset (reverse m) ≡ reverse m
    → trim cutset (p ++ (m ++ q)) ≡ m
unfolding trim
trim-between cutset p m q hp hq left right =
    ap (λ t. reverse (trim_left cutset (reverse t))) (trim_left-append cutset p (m ++ q) hp ∙ left)
    ∙ ap (λ t. reverse (trim_left cutset t)) (reverse-append m q)
    ∙ ap reverse
        (trim_left-append cutset (reverse q) (reverse m) (AllIn-reverse cutset q hq) ∙ right)
    ∙ reverse-reverse m
