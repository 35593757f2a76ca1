-- ===== src/Network/Ranges/Scan.antt =====
-- The first diverging bit, as the loops of CalculateIPRanges find it.
use Prim.Native.Nat.{bit_and, min}
use microkube.Base.{
  ℕ, zero, suc, ◌+◌, ◌-◌, ◌*◌, ◌^◌, ◌≤◌, ◌<◌, some, true, false, [], ◌∷◌, ◌≡◌, ◌≢◌, refl, sym, ap,
  ap₂, subst, ◌∙◌, arith, length, ◌==◌, ==_iff, Bool-cases, inl, inr, dec_lt, if◌then◌else◌,
}
use microkube.Base.Bytes.{Bytes}
use microkube.Network.Ip.{octet_mask}
use microkube.Network.Ip.Agree.{
  AreOctets, Agree, Agree-refl, bit_and_step, bit_and_whole, bit_and_none,
}
use microkube.Network.Ranges.{Divergence, scan_bits, scan_octet, scan_octets}

-- How many octets of two addresses differ.
unfoldable pub differing : Bytes → Bytes → ℕ
differing (x ∷ xs) (y ∷ ys) = (if x == y then 0 else 1) + differing xs ys
differing _ _ = 0

-- One more bit on which two octets agree.
agree_more :
    (k pod octet : ℕ)
    → k < 8
    → pod < 256
    → octet < 256
    → bit_and pod (octet_mask (8 - suc k)) ≡ bit_and octet (octet_mask (8 - suc k))
    → bit_and pod (2 ^ k) ≡ bit_and octet (2 ^ k)
    → bit_and pod (octet_mask (8 - k)) ≡ bit_and octet (octet_mask (8 - k))
agree_more k pod octet hk hp ho e same =
    let up : 8 - k ≡ suc (8 - suc k) = omega arith in
    let down : k ≡ 7 - (8 - suc k) = omega arith in
    let more = λ (x : ℕ) (hx : x < 256). bit_and_step (8 - suc k) x (omega arith) hx in
    let bit : bit_and pod (2 ^ (7 - (8 - suc k))) ≡ bit_and octet (2 ^ (7 - (8 - suc k))) =
      subst (λ t. bit_and pod (2 ^ t) ≡ bit_and octet (2 ^ t)) down same in
    rw up (more pod hp ∙ ap₂ ◌+◌ e bit ∙ sym (more octet ho))

-- From bit `8 - k` on, the loop stops at a bit `j`: the octets agree in the `j` bits before it.
scan_bits-stops :
    (k pod octet : ℕ) (d : Divergence)
    → k ≤ 8
    → pod < 256
    → octet < 256
    → pod ≢ octet
    → bit_and pod (octet_mask (8 - k)) ≡ bit_and octet (octet_mask (8 - k))
    → (j : ℕ) × (j < 8)
      × ((scan_bits k pod octet d).base_offset + 8 ≡ d.base_offset + k + (j + 1))
      × (bit_and pod (octet_mask j) ≡ bit_and octet (octet_mask j))
unfolding scan_bits
scan_bits-stops zero pod octet d hk hp ho ne e =
    absurd (ne (sym (bit_and_whole pod hp) ∙ e ∙ bit_and_whole octet ho))
scan_bits-stops (suc k) pod octet d hk hp ho ne e =
    elim (Bool-cases (bit_and pod (2 ^ k) == bit_and octet (2 ^ k))) [
      | inr differs ↦ (8 - suc k, omega arith, rw (differs, scan_bits) (omega arith), e)
      | inl same ↦
          let next = record d { base_offset = d.base_offset + 1 } in
          let (j, lt, stop, agree) =
            scan_bits-stops k pod octet next (omega arith) hp ho ne
              (agree_more k pod octet hk hp ho e ((==_iff _ _).0 same)) in
          (j, lt, rw (same, scan_bits) (omega arith), agree)
    ]

-- On octets that differ, the body of the outer loop leaves the number of the diverging bit.
scan_octet-stops :
    (idx pod octet : ℕ) (d : Divergence)
    → pod < 256
    → octet < 256
    → pod ≢ octet
    → (j : ℕ) × (j < 8)
      × ((scan_octet idx pod octet d).base_offset ≡ idx * 8 + j)
      × (bit_and pod (octet_mask j) ≡ bit_and octet (octet_mask j))
unfolding scan_octet
scan_octet-stops idx pod octet d hp ho ne =
    let start = record d { base_offset = idx * 8 } in
    let (j, lt, stop, agree) =
      scan_bits-stops 8 pod octet start (omega arith) hp ho ne
        (bit_and_none pod hp ∙ sym (bit_and_none octet ho)) in
    (
      j,
      lt,
      elim (Bool-cases (pod == octet)) [
        | inl e ↦ absurd (ne ((==_iff _ _).0 e))
        | inr e ↦ rw (e, scan_octet) (omega arith)
      ],
      agree,
    )

scan_octet_same : (idx x : ℕ) (d : Divergence) → scan_octet idx x x d ≡ d
unfolding scan_octet
scan_octet_same idx x d = ground arith

-- The outer loop ends with an offset that is `bits` past the octet at which it began.
pub record Ends (idx : ℕ) (ps ss : Bytes) (d : Divergence) (bits : ℕ) : Type 0 where
  pub last : Divergence
  pub ends : scan_octets idx ps ss d ≡ some last
  pub offset : last.base_offset ≡ idx * 8 + bits
  pub inside : bits < 8 * length ps

scan_octets_same : (idx : ℕ) (ss : Bytes) (d : Divergence) → scan_octets idx ss ss d ≡ some d
unfolding scan_octets
scan_octets_same idx [] d = refl
scan_octets_same idx (x ∷ xs) d = rw (scan_octet_same idx x d) (scan_octets_same (suc idx) xs d)

head_differs :
    (x y : ℕ) (xs ys : Bytes)
    → (x == y) ≡ false
    → differing (x ∷ xs) (y ∷ ys) ≡ suc (differing xs ys)
unfolding differing
head_differs x y xs ys e = rw e (omega arith)

head_same :
    (x y : ℕ) (xs ys : Bytes) → (x == y) ≡ true → differing (x ∷ xs) (y ∷ ys) ≡ differing xs ys
unfolding differing
head_same x y xs ys e = rw e (omega arith)

==-false : (x y : ℕ) → (x == y) ≡ false → x ≢ y
==-false x y h e = ground arith

differing_none : (ps ss : Bytes) → length ps ≡ length ss → differing ps ss ≡ 0 → ps ≡ ss
differing_none [] [] l h = refl
differing_none [] (y ∷ ys) l h = absurd (omega arith)
differing_none (x ∷ xs) [] l h = absurd (omega arith)
differing_none (x ∷ xs) (y ∷ ys) l h = elim (Bool-cases (x == y)) [
  | inl e ↦
      let rest = differing_none xs ys (omega arith) (omega (arith, head_same x y xs ys e)) in
      ap₂ ◌∷◌ ((==_iff _ _).0 e) rest
  | inr e ↦ absurd (omega (arith, head_differs x y xs ys e))
]

differing-nil : (ys : Bytes) → differing [] ys ≡ 0
unfolding differing
differing-nil ys = refl

-- If one octet differs, the loop ends at the diverging bit: the addresses agree in all bits
-- before it.
pub scan_octets_one :
    (idx : ℕ) (ps ss : Bytes) (d : Divergence)
    → length ps ≡ length ss
    → AreOctets ps
    → AreOctets ss
    → differing ps ss ≡ 1
    → (bits : ℕ) × Ends idx ps ss d bits × Agree bits ps ss
unfolding scan_octets
scan_octets_one idx [] ss d l hp hs one = absurd (omega (arith, differing-nil ss))
scan_octets_one idx (x ∷ xs) [] d l hp hs one = absurd (omega arith)
scan_octets_one idx (x ∷ xs) (y ∷ ys) d l hp hs one = elim (Bool-cases (x == y)) [
  | inr e ↦
      let tails : xs ≡ ys =
        differing_none xs ys (omega arith) (omega (arith, head_differs x y xs ys e)) in
      let (j, lt, stop, agree) = scan_octet-stops idx x y d hp.0 hs.0 (==-false x y e) in
      let m : min j 8 ≡ j = omega arith in
      (
        j,
        record {
          last = scan_octet idx x y d;
          ends = rw tails (scan_octets_same (suc idx) ys _);
          offset = stop;
          inside = omega arith;
        },
        (rw m agree, rw tails (Agree-refl (j - 8) ys)),
      )
  | inl e ↦
      let (bits, r, agree) =
        scan_octets_one (suc idx) xs ys (scan_octet idx x y d) (omega arith) hp.1 hs.1
          (omega (arith, head_same x y xs ys e)) in
      (
        8 + bits,
        record {
          last = r.last;
          ends = r.ends;
          offset = omega (arith, r.offset);
          inside = omega (arith, r.inside);
        },
        (
          ap (λ t. bit_and t (octet_mask (min (8 + bits) 8))) ((==_iff _ _).0 e),
          let k : 8 + bits - 8 ≡ bits = omega arith in rw k agree,
        ),
      )
]

-- The loop never goes back: it ends at an offset in the octets that it reads, if one differs.
scan_octets_onward :
    (idx : ℕ) (ps ss : Bytes) (d : Divergence)
    → length ps ≡ length ss
    → AreOctets ps
    → AreOctets ss
    → 0 < differing ps ss
    → (bits : ℕ) × Ends idx ps ss d bits
unfolding scan_octets
scan_octets_onward idx [] ss d l hp hs some_differ = absurd (omega (arith, differing-nil ss))
scan_octets_onward idx (x ∷ xs) [] d l hp hs some_differ = absurd (omega arith)
scan_octets_onward idx (x ∷ xs) (y ∷ ys) d l hp hs some_differ = elim (dec_lt 0 (differing xs ys)) [
  | yes later ↦
      let (bits, r) =
        scan_octets_onward (suc idx) xs ys (scan_octet idx x y d) (omega arith) hp.1 hs.1 later in
      (
        8 + bits,
        record {
          last = r.last;
          ends = r.ends;
          offset = omega (arith, r.offset);
          inside = omega (arith, r.inside);
        },
      )
  | no none_later ↦ elim (Bool-cases (x == y)) [
    | inl e ↦ absurd (omega (arith, head_same x y xs ys e))
    | inr e ↦
        let tails : xs ≡ ys = differing_none xs ys (omega arith) (omega arith) in
        let (j, lt, stop, agree) = scan_octet-stops idx x y d hp.0 hs.0 (==-false x y e) in
        (
          j,
          record {
            last = scan_octet idx x y d;
            ends = rw tails (scan_octets_same (suc idx) ys _);
            offset = stop;
            inside = omega arith;
          },
        )
  ]
]

-- If two or more octets differ, the loop ends past the first diverging bit: the addresses do not
-- agree in all bits before the offset.
pub scan_octets_more :
    (idx : ℕ) (ps ss : Bytes) (d : Divergence)
    → length ps ≡ length ss
    → AreOctets ps
    → AreOctets ss
    → 1 < differing ps ss
    → (bits : ℕ) × Ends idx ps ss d bits × (¬ Agree bits ps ss)
unfolding scan_octets
scan_octets_more idx [] ss d l hp hs more = absurd (omega (arith, differing-nil ss))
scan_octets_more idx (x ∷ xs) [] d l hp hs more = absurd (omega arith)
scan_octets_more idx (x ∷ xs) (y ∷ ys) d l hp hs more = elim (Bool-cases (x == y)) [
  | inl e ↦
      let (bits, r, apart) =
        scan_octets_more (suc idx) xs ys (scan_octet idx x y d) (omega arith) hp.1 hs.1
          (omega (arith, head_same x y xs ys e)) in
      (
        8 + bits,
        record {
          last = r.last;
          ends = r.ends;
          offset = omega (arith, r.offset);
          inside = omega (arith, r.inside);
        },
        λ a. let k : 8 + bits - 8 ≡ bits = omega arith in apart (rw k at a.1),
      )
  | inr e ↦
      let (bits, r) =
        scan_octets_onward (suc idx) xs ys (scan_octet idx x y d) (omega arith) hp.1 hs.1
          (omega (arith, head_differs x y xs ys e)) in
      (
        8 + bits,
        record {
          last = r.last;
          ends = r.ends;
          offset = omega (arith, r.offset);
          inside = omega (arith, r.inside);
        },
        λ a.
            let m : min (8 + bits) 8 ≡ 8 = omega arith in
            ==-false x y e (sym (bit_and_whole x hp.0) ∙ rw m at a.0 ∙ bit_and_whole y hs.0),
      )
]
