-- ===== src/Manifests/Documents/Printed.antt =====
-- The documents that are read back from a YAML file that was put together from documents.
use microkube.Base.{
  ℕ, Bool, true, false, not, ◌&&◌, List, [], ◌∷◌, ◌++◌, append-nil, ◌==◌, ==_iff, ◌≡◌, refl, ap,
  ◌∙◌, arith,
}
use microkube.Base.Bytes.{Bytes, has_prefix}
use microkube.Manifests.Documents.{separator, split_from, split_docs}
use microkube.Manifests.Documents.Laws.{with_separators, joined}

-- No line begins with a separator; `at_start` says whether a line starts in front of the text.
unfoldable pub is_clear : Bool → Bytes → Bool
unfolding has_prefix
is_clear at_start [] = true
is_clear at_start (c ∷ s) = not (at_start && has_prefix (c ∷ s) separator) && is_clear (c == 10) s

-- A line starts behind the text.
unfoldable pub ends_line : Bool → Bytes → Bool
ends_line at_start [] = at_start
ends_line at_start (c ∷ s) = ends_line (c == 10) s

-- Documents of a file: no line in them begins with a separator, and all but the last end a line.
unfoldable pub are_documents : Bool → List Bytes → Bool
unfolding is_clear ends_line
are_documents at_start [] = false
are_documents at_start (doc ∷ []) = is_clear at_start doc
are_documents at_start (doc ∷ next ∷ docs) =
    is_clear at_start doc && (ends_line at_start doc && are_documents false (next ∷ docs))

both : (a b : Bool) → a && b ≡ true → (a ≡ true) × (b ≡ true)
both a b h = ground arith

is_not : (a : Bool) → not a ≡ true → a ≡ false
is_not a h = ground arith

-- A line that ends inside a text is not continued behind it.
prefix_inside :
    (c : ℕ) (s rest : Bytes)
    → ends_line (c == 10) s ≡ true
    → has_prefix (c ∷ s ++ rest) separator ≡ has_prefix (c ∷ s) separator
unfolding has_prefix ends_line
prefix_inside c [] rest h = rw ((==_iff c 10).0 h) refl
prefix_inside c (d ∷ []) rest h = rw ((==_iff d 10).0 h) refl
prefix_inside c (d ∷ x ∷ s) rest h = refl

split_from-doc :
    (at_start : Bool) (doc rest : Bytes)
    → is_clear at_start doc ≡ true
    → ends_line at_start doc ≡ true
    → split_from 0 at_start (doc ++ (separator ++ rest))
      ≡ (doc, (split_from 0 false rest).0 ∷ (split_from 0 false rest).1)
unfolding split_from is_clear ends_line
split_from-doc at_start [] rest h e = rw e refl
split_from-doc at_start (c ∷ doc) rest h e =
    let (a, b) =
      both (not (at_start && has_prefix (c ∷ doc) separator)) (is_clear (c == 10) doc) h in
    let n : at_start && has_prefix (c ∷ doc ++ (separator ++ rest)) separator ≡ false =
      ap (λ t. at_start && t) (prefix_inside c doc (separator ++ rest) e) ∙ is_not _ a in
    rw (n, split_from) (ap (λ t. (c ∷ t.0, t.1)) (split_from-doc (c == 10) doc rest b e))

split_from-last :
    (at_start : Bool) (doc : Bytes)
    → is_clear at_start doc ≡ true
    → split_from 0 at_start doc ≡ (doc, [])
unfolding split_from is_clear
split_from-last at_start [] h = refl
split_from-last at_start (c ∷ doc) h =
    let (a, b) =
      both (not (at_start && has_prefix (c ∷ doc) separator)) (is_clear (c == 10) doc) h in
    rw (is_not _ a, split_from) (ap (λ t. (c ∷ t.0, t.1)) (split_from-last (c == 10) doc b))

split_from-joined :
    (at_start : Bool) (doc : Bytes) (docs : List Bytes)
    → are_documents at_start (doc ∷ docs) ≡ true
    → split_from 0 at_start (doc ++ with_separators docs) ≡ (doc, docs)
unfolding with_separators are_documents
split_from-joined at_start doc [] h = rw (append-nil doc) (split_from-last at_start doc h)
split_from-joined at_start doc (next ∷ docs) h =
    let (a, b) = both (is_clear at_start doc) _ h in
    let (e, others) = both (ends_line at_start doc) _ b in
    split_from-doc at_start doc (next ++ with_separators docs) a e
    ∙ ap (λ t. (doc, t.0 ∷ t.1)) (split_from-joined false next docs others)

-- A file that is put together from documents is split into these documents, where no line of
-- them begins with a separator and every one but the last ends with a newline.
pub split_docs-joined :
    (docs : List Bytes) → are_documents true docs ≡ true → split_docs (joined docs) ≡ docs
unfolding split_docs joined are_documents
split_docs-joined [] h = cc
split_docs-joined (doc ∷ docs) h = ap (λ t. t.0 ∷ t.1) (split_from-joined true doc docs h)
