-- ===== src/Files/Path/Laws.antt =====
-- What path.Join makes of a directory and the name of a file in it.
use text.Mathlib.Text.{◌==◌}
use text.Mathlib.TextLemmas.{nil-append, cons-append, append_assoc, append_cancel_left}
use mathlib.Core.List.{reverse, foldl, foldl-append}
use microkube.Base.{
  String, Bool, true, false, List, [], ◌∷◌, ◌++◌, ◌≡◌, ◌≢◌, refl, sym, ap, ◌∙◌, inl, inr,
  Bool-cases, if◌then◌else◌,
}
use microkube.Base.Texts as Texts
use microkube.Files.Path.{
  is_empty, text_of, extend, parts_of, is_rooted, push, kept, slashed, joined, rendered, clean,
  with_slashes, join,
}

-- A name with no slash that is no dot or pair of dots.
pub record IsSimple (name : String) : Type 0 where
  pub whole : parts_of name ≡ name ∷ []
  pub unrooted : is_rooted name ≡ false
  pub filled : is_empty name ≡ false
  pub no_dot : (name == ".") ≡ false
  pub no_dots : (name == "..") ≡ false

parts_of-cons : (s : String) → (part : String) × (parts : List String) × (parts_of s ≡ part ∷ parts)
unfolding parts_of extend
parts_of-cons String.[] = ("", [], refl)
parts_of-cons (String.◌∷◌ c s) =
    let (part, parts, e) = parts_of-cons s in
    elim (Bool-cases (text_of c == "/")) [
      | inl h ↦ ("", part ∷ parts, rw (h, e) refl)
      | inr h ↦ (String.◌∷◌ c part, parts, rw (h, e) refl)
    ]

parts_of-append :
    (s name : String) → parts_of (Texts.◌++◌ s (Texts.◌++◌ "/" name)) ≡ parts_of s ++ parts_of name
unfolding parts_of extend
parts_of-append String.[] name = rw (nil-append, cons-append, nil-append name) refl
parts_of-append (String.◌∷◌ c s) name =
    let (part, parts, e) = parts_of-cons s in
    elim (Bool-cases (text_of c == "/")) [
      | inl h ↦ rw (cons-append c s, h) (ap (λ t. "" ∷ t) (parts_of-append s name))
      | inr h ↦ rw (cons-append c s, h) (ap (extend c) (parts_of-append s name) ∙ rw e refl)
    ]

push-simple :
    (rooted : Bool) (stack : List String) (name : String)
    → IsSimple name
    → push rooted stack name ≡ name ∷ stack
unfolding push
push-simple rooted stack name h = rw (h.filled, h.no_dot, h.no_dots) refl

kept-append :
    (rooted : Bool) (root name : String)
    → IsSimple name
    → kept rooted (parts_of (Texts.◌++◌ root (Texts.◌++◌ "/" name)))
      ≡ name ∷ kept rooted (parts_of root)
unfolding kept
kept-append rooted root name h =
    ap (foldl (push rooted) []) (parts_of-append root name ∙ ap (λ t. parts_of root ++ t) h.whole)
    ∙ (foldl-append (push rooted) [] (parts_of root) (name ∷ [])
        ∙ push-simple rooted (foldl (push rooted) [] (parts_of root)) name h)

-- What path.Join puts in front of a simple name.
unfoldable pub base_of : String → String
base_of root =
    if is_empty root
    then ""
    else Texts.◌++◌ (if is_rooted root then "/" else "")
        (slashed (reverse (kept (is_rooted root) (parts_of root))))

rendered-cons :
    (rooted : Bool) (name : String) (parts : List String)
    → rendered rooted (name ∷ parts)
      ≡ Texts.◌++◌ (Texts.◌++◌ (if rooted then "/" else "") (slashed (reverse parts))) name
unfolding rendered joined
rendered-cons true name parts = sym (append_assoc "/" (slashed (reverse parts)) name)
rendered-cons false name parts = rw nil-append refl

is_rooted-append :
    (root t : String) → is_empty root ≡ false → is_rooted (Texts.◌++◌ root t) ≡ is_rooted root
unfolding is_rooted is_empty
is_rooted-append String.[] t h = cc
is_rooted-append (String.◌∷◌ c s) t h = rw cons-append refl

is_empty-append : (root t : String) → is_empty root ≡ false → is_empty (Texts.◌++◌ root t) ≡ false
unfolding is_empty
is_empty-append String.[] t h = cc
is_empty-append (String.◌∷◌ c s) t h = rw cons-append refl

clean_filled :
    (path : String)
    → is_empty path ≡ false
    → clean path ≡ rendered (is_rooted path) (kept (is_rooted path) (parts_of path))
unfolding clean
clean_filled path e = rw (e, clean) refl

clean-simple : (name : String) → IsSimple name → clean name ≡ name
unfolding kept rendered joined slashed
clean-simple name h =
    clean_filled name h.filled
    ∙ (ap (rendered (is_rooted name))
          (ap (kept (is_rooted name)) h.whole ∙ push-simple (is_rooted name) [] name h)
        ∙ (ap (λ r. rendered r (name ∷ [])) h.unrooted ∙ nil-append name))

clean-file :
    (root name : String)
    → is_empty root ≡ false
    → IsSimple name
    → clean (Texts.◌++◌ root (Texts.◌++◌ "/" name)) ≡ Texts.◌++◌ (base_of root) name
unfolding base_of
clean-file root name e h =
    let path = Texts.◌++◌ root (Texts.◌++◌ "/" name) in
    clean_filled path (is_empty-append root _ e)
    ∙ (ap (λ r. rendered r (kept r (parts_of path))) (is_rooted-append root _ e)
        ∙ (ap (rendered (is_rooted root)) (kept-append (is_rooted root) root name h)
            ∙ (rendered-cons (is_rooted root) name (kept (is_rooted root) (parts_of root))
                ∙ rw (e, base_of) refl)))

join_two :
    (root name : String)
    → IsSimple name
    → join (root ∷ name ∷ [])
      ≡ (if is_empty root then clean name else clean (Texts.◌++◌ root (Texts.◌++◌ "/" name)))
unfolding join with_slashes
join_two root name h = elim (Bool-cases (is_empty root)) [
  | inl e ↦ rw (e, join, h.filled) refl
  | inr e ↦ rw (e, join) refl
]

-- path.Join of a directory and a simple name: what is put in front depends on the directory only.
pub join-file :
    (root name : String) → IsSimple name → join (root ∷ name ∷ []) ≡ Texts.◌++◌ (base_of root) name
unfolding base_of
join-file root name h = elim (Bool-cases (is_empty root)) [
  | inl e ↦ join_two root name h ∙ rw (e, base_of) (clean-simple name h ∙ sym (nil-append name))
  | inr e ↦ join_two root name h ∙ (rw e refl ∙ clean-file root name e h)
]

-- Files with different names in a directory have different paths.
pub join-ne :
    (root name other : String)
    → IsSimple name
    → IsSimple other
    → name ≢ other
    → join (root ∷ name ∷ []) ≢ join (root ∷ other ∷ [])
join-ne root name other h k n e = n (
    append_cancel_left (base_of root) name other
      (sym (join-file root name h) ∙ (e ∙ join-file root other k)))
