-- ===== src/Manifests/Documents/Laws.antt =====
-- The documents of a YAML file and its text.
use microkube.Base.{
  ℕ, zero, suc, Bool, true, false, ◌&&◌, List, [], ◌∷◌, ◌++◌, ◌==◌, ==_iff, ◌≡◌, refl, sym, ap, ◌∙◌,
  inl, inr, Bool-cases, arith,
}
use microkube.Base.Bytes.{Bytes, has_prefix}
use microkube.Manifests.Documents.{separator, split_from, split_docs}

-- The documents with a separator in front of every one but the first.
unfoldable pub with_separators : List Bytes → Bytes
with_separators [] = []
with_separators (doc ∷ docs) = separator ++ (doc ++ with_separators docs)

unfoldable pub joined : List Bytes → Bytes
unfolding with_separators
joined [] = []
joined (doc ∷ docs) = doc ++ with_separators docs

-- What is left of a text behind its first bytes.
abbrev behind : ℕ → Bytes → Bytes
behind zero s = s
behind (suc k) [] = []
behind (suc k) (c ∷ s) = behind k s

false-ne-true : ¬ (false ≡ true)
false-ne-true h = cc

both : (a b : Bool) → a && b ≡ true → (a ≡ true) × (b ≡ true)
both a b h = ground arith

prefixed :
    (c : ℕ) (s : Bytes) → has_prefix (c ∷ s) separator ≡ true → c ∷ s ≡ separator ++ behind 2 s
unfolding has_prefix
prefixed c [] h = let (e, f) = both (c == 45) _ h in absurd (false-ne-true f)
prefixed c (d ∷ []) h =
    let (e, f) = both (c == 45) _ h in let (g, k) = both (d == 45) _ f in absurd (false-ne-true k)
prefixed c (d ∷ x ∷ s) h =
    let (e, f) = both (c == 45) _ h in
    let (g, k) = both (d == 45) _ f in
    let (l, _) = both (x == 45) _ k in
    rw ((==_iff c 45).0 e, (==_iff d 45).0 g, (==_iff x 45).0 l) refl

split_from-joined :
    (skip : ℕ) (at_start : Bool) (s : Bytes)
    → (split_from skip at_start s).0 ++ with_separators (split_from skip at_start s).1
      ≡ behind skip s
unfolding split_from with_separators
split_from-joined zero at_start [] = refl
split_from-joined (suc skip) at_start [] = refl
split_from-joined (suc skip) at_start (c ∷ s) = split_from-joined skip false s
split_from-joined zero at_start (c ∷ s) =
    elim (Bool-cases (at_start && has_prefix (c ∷ s) separator)) [
      | inl e ↦
          let (_, f) = both at_start _ e in
          rw (e, split_from, with_separators)
            (ap (λ t. separator ++ t) (split_from-joined 2 false s) ∙ sym (prefixed c s f))
      | inr e ↦ rw (e, split_from) (ap (λ t. c ∷ t) (split_from-joined 0 (c == 10) s))
    ]

-- Put together again with the separators between them, the documents are the text of the file.
pub joined-split_docs : (text : Bytes) → joined (split_docs text) ≡ text
unfolding split_docs joined
joined-split_docs text = split_from-joined 0 true text
