-- ===== src/Network/Ip/Agree.antt =====
-- Addresses that agree in their first bits.
use Prim.Native.Nat.{bit_and, min}
use microkube.Base.{
  ℕ, zero, suc, ◌+◌, ◌-◌, ◌^◌, ◌≤◌, ◌<◌, Bool, true, ◌&&◌, [], ◌∷◌, ◌≡◌, ◌↔◌, refl, sym, ap, ◌∙◌,
  arith, All, length, leb, ltb, ltb→lt, ◌==◌, ==_iff, Bool-cases, inl, inr, dec_lt,
}
use microkube.Base.Bytes.{Bytes}
use microkube.Network.Ip.{octet_mask, mask_bytes, mask_octets, octets_match}

-- A test of every number below a bound, by evaluation.
unfoldable pub every_below : (ℕ → Bool) → ℕ → Bool
every_below test zero = true
every_below test (suc bound) = test bound && every_below test bound

pub every_below-lt :
    (test : ℕ → Bool) (bound : ℕ) {k : ℕ}
    → k < bound
    → every_below test bound ≡ true
    → test k ≡ true
unfolding every_below
every_below-lt test zero lt e = absurd (omega arith)
every_below-lt test (suc bound) {k} lt e =
    let (last, others) = both (test bound) (every_below test bound) e in
    elim (dec_lt k bound) [
      | yes below ↦ every_below-lt test bound below others
      | no above ↦ let same : k ≡ bound = omega arith in rw same last
    ]
  where
    both : (a b : Bool) → a && b ≡ true → (a ≡ true) × (b ≡ true)
    both a b h = ground arith

abbrev narrows : ℕ → ℕ → ℕ → Bool
narrows j i x =
    bit_and (bit_and x (octet_mask j)) (octet_mask (min i j)) == bit_and x (octet_mask (min i j))

narrow_table : every_below (λ j. every_below (λ i. every_below (narrows j i) 256) 9) 9 ≡ true
unfolding every_below
narrow_table = refl

abbrev steps : ℕ → ℕ → Bool
steps j x = bit_and x (octet_mask (suc j)) == bit_and x (octet_mask j) + bit_and x (2 ^ (7 - j))

step_table : every_below (λ j. every_below (steps j) 256) 8 ≡ true
unfolding every_below
step_table = refl

whole_table : every_below (λ x. bit_and x 255 == x) 256 ≡ true
unfolding every_below
whole_table = refl

none_table : every_below (λ x. bit_and x 0 == 0) 256 ≡ true
unfolding every_below
none_table = refl

-- Under a mask, a smaller mask selects what it selects of the whole octet.
bit_and_narrow :
    (j i x : ℕ)
    → j < 9
    → i ≤ j
    → x < 256
    → bit_and (bit_and x (octet_mask j)) (octet_mask i) ≡ bit_and x (octet_mask i)
bit_and_narrow j i x hj hi hx =
    let e : min i j ≡ i = omega arith in
    let all_i =
      every_below-lt (λ k. every_below (λ i. every_below (narrows k i) 256) 9) 9 hj narrow_table in
    let all_x = every_below-lt (λ k. every_below (narrows j k) 256) 9 (omega arith) all_i in
    (==_iff _ _).0 (rw e at (every_below-lt (narrows j i) 256 hx all_x))

pub bit_and_step :
    (j x : ℕ)
    → j < 8
    → x < 256
    → bit_and x (octet_mask (suc j)) ≡ bit_and x (octet_mask j) + bit_and x (2 ^ (7 - j))
bit_and_step j x hj hx =
    let all_x = every_below-lt (λ k. every_below (steps k) 256) 8 hj step_table in
    (==_iff _ _).0 (every_below-lt (steps j) 256 hx all_x)

pub bit_and_whole : (x : ℕ) → x < 256 → bit_and x 255 ≡ x
bit_and_whole x h = (==_iff _ _).0 (every_below-lt _ 256 h whole_table)

pub bit_and_none : (x : ℕ) → x < 256 → bit_and x 0 ≡ 0
bit_and_none x h = (==_iff _ _).0 (every_below-lt _ 256 h none_table)

-- The octets of an address are bytes.
abbrev pub AreOctets : Bytes → Type 0
AreOctets xs = All (λ x. x < 256) xs

-- Two octets agree in their first bits, 8 of them at most.
abbrev pub OctetsAgree : ℕ → ℕ → ℕ → Type 0
OctetsAgree n x y = bit_and x (octet_mask (min n 8)) ≡ bit_and y (octet_mask (min n 8))

-- Two lists of octets have the same length and agree in their first `n` bits.
abbrev pub Agree : ℕ → Bytes → Bytes → Type 0
Agree n [] [] = Unit
Agree n (x ∷ xs) (y ∷ ys) = OctetsAgree n x y × Agree (n - 8) xs ys
Agree n _ _ = ⊥

OctetsAgree-mono :
    {m n : ℕ} (x y : ℕ) → m ≤ n → x < 256 → y < 256 → OctetsAgree n x y → OctetsAgree m x y
OctetsAgree-mono {m} {n} x y h hx hy e =
    sym (bit_and_narrow (min n 8) (min m 8) x (omega arith) (omega arith) hx)
    ∙ ap (λ t. bit_and t (octet_mask (min m 8))) e
    ∙ bit_and_narrow (min n 8) (min m 8) y (omega arith) (omega arith) hy

pub Agree-mono :
    (m n : ℕ) (xs ys : Bytes) → m ≤ n → AreOctets xs → AreOctets ys → Agree n xs ys → Agree m xs ys
Agree-mono m n [] [] h hx hy a = tt
Agree-mono m n [] (y ∷ ys) h hx hy a = a
Agree-mono m n (x ∷ xs) [] h hx hy a = a
Agree-mono m n (x ∷ xs) (y ∷ ys) h hx hy a = (
  OctetsAgree-mono x y h hx.0 hy.0 a.0,
  Agree-mono (m - 8) (n - 8) xs ys (omega arith) hx.1 hy.1 a.1,
)

pub Agree-refl : (n : ℕ) (xs : Bytes) → Agree n xs xs
Agree-refl n [] = tt
Agree-refl n (x ∷ xs) = (refl, Agree-refl (n - 8) xs)

pub Agree-sym : (n : ℕ) (xs ys : Bytes) → Agree n xs ys → Agree n ys xs
Agree-sym n [] [] a = a
Agree-sym n [] (y ∷ ys) a = a
Agree-sym n (x ∷ xs) [] a = a
Agree-sym n (x ∷ xs) (y ∷ ys) a = (sym a.0, Agree-sym (n - 8) xs ys a.1)

pub Agree-trans : (n : ℕ) (xs ys zs : Bytes) → Agree n xs ys → Agree n ys zs → Agree n xs zs
Agree-trans n [] [] [] a b = tt
Agree-trans n [] [] (z ∷ zs) a b = b
Agree-trans n [] (y ∷ ys) zs a b = absurd a
Agree-trans n (x ∷ xs) [] zs a b = absurd a
Agree-trans n (x ∷ xs) (y ∷ ys) [] a b = b
Agree-trans n (x ∷ xs) (y ∷ ys) (z ∷ zs) a b = (a.0 ∙ b.0, Agree-trans (n - 8) xs ys zs a.1 b.1)

pub mask_bytes-suc : (l n : ℕ) → mask_bytes (suc l) n ≡ octet_mask (min n 8) ∷ mask_bytes l (n - 8)
unfolding mask_bytes
mask_bytes-suc l n = elim (Bool-cases (leb 8 n)) [
  | inl e ↦ let m : min n 8 ≡ 8 = ground arith in rw (e, m) refl
  | inr e ↦
      let m : min n 8 ≡ n = ground arith in let z : n - 8 ≡ 0 = ground arith in rw (e, m, z) refl
]

module _ (a b : ℕ) where
  both : {p : Bool} → (a == b) && p ≡ true → (a ≡ b) × (p ≡ true)
  both h = ground arith

  join : {p : Bool} → a ≡ b → p ≡ true → (a == b) && p ≡ true
  join e h = ground arith

match-Agree :
    (l n : ℕ) (xs ys : Bytes)
    → length xs ≡ l
    → length ys ≡ l
    → octets_match xs (mask_bytes l n) ys ≡ true
    → Agree n xs ys
unfolding octets_match
match-Agree l n [] [] hx hy h = tt
match-Agree l n [] (y ∷ ys) hx hy h = absurd (omega arith)
match-Agree l n (x ∷ xs) [] hx hy h = absurd (omega arith)
match-Agree zero n (x ∷ xs) (y ∷ ys) hx hy h = absurd (omega arith)
match-Agree (suc l) n (x ∷ xs) (y ∷ ys) hx hy h =
    let (e, t) = both _ _ (rw (mask_bytes-suc l n) at h) in
    (e, match-Agree l (n - 8) xs ys (omega arith) (omega arith) t)

Agree-match :
    (l n : ℕ) (xs ys : Bytes)
    → length xs ≡ l
    → Agree n xs ys
    → octets_match xs (mask_bytes l n) ys ≡ true
unfolding octets_match
Agree-match l n [] ys hx a = refl
Agree-match l n (x ∷ xs) [] hx a = absurd a
Agree-match zero n (x ∷ xs) (y ∷ ys) hx a = absurd (omega arith)
Agree-match (suc l) n (x ∷ xs) (y ∷ ys) hx a =
    rw (mask_bytes-suc l n) (join _ _ a.0 (Agree-match l (n - 8) xs ys (omega arith) a.1))

-- IPNet.Contains compares the first bits, as many as the mask has ones.
pub octets_match_iff :
    (l n : ℕ) (xs ys : Bytes)
    → length xs ≡ l
    → length ys ≡ l
    → (octets_match xs (mask_bytes l n) ys ≡ true) ↔ Agree n xs ys
octets_match_iff l n xs ys hx hy = (match-Agree l n xs ys hx hy, Agree-match l n xs ys hx)

-- Masking keeps as many bits as the mask has ones.
pub Agree-mask_octets :
    (l n : ℕ) (xs : Bytes)
    → length xs ≡ l
    → AreOctets xs
    → Agree n (mask_octets xs (mask_bytes l n)) xs
unfolding mask_octets
Agree-mask_octets l n [] hx o = tt
Agree-mask_octets zero n (x ∷ xs) hx o = absurd (omega arith)
Agree-mask_octets (suc l) n (x ∷ xs) hx o = rw (mask_bytes-suc l n) (
  bit_and_narrow (min n 8) (min n 8) x (omega arith) (omega arith) o.0,
  Agree-mask_octets l (n - 8) xs (omega arith) o.1,
)

pub length-mask_octets :
    (xs ms : Bytes) → length xs ≡ length ms → length (mask_octets xs ms) ≡ length xs
unfolding mask_octets
length-mask_octets [] ms h = refl
length-mask_octets (x ∷ xs) [] h = absurd (omega arith)
length-mask_octets (x ∷ xs) (m ∷ ms) h = ap suc (length-mask_octets xs ms (omega arith))

abbrev keeps_byte : ℕ → ℕ → Bool
keeps_byte j x = ltb (bit_and x (octet_mask j)) 256

byte_table : every_below (λ j. every_below (keeps_byte j) 256) 9 ≡ true
unfolding every_below
byte_table = refl

-- Masked octets are octets.
pub All-mask_octets :
    (l n : ℕ) (xs : Bytes) → AreOctets xs → AreOctets (mask_octets xs (mask_bytes l n))
unfolding mask_octets
All-mask_octets l n [] o = tt
All-mask_octets zero n (x ∷ xs) o = unfold mask_bytes in tt
All-mask_octets (suc l) n (x ∷ xs) o = rw (mask_bytes-suc l n) (
  ltb→lt _ _ (
      every_below-lt (keeps_byte (min n 8)) 256 o.0
        (every_below-lt (λ j. every_below (keeps_byte j) 256) 9 (omega arith) byte_table)),
  All-mask_octets l (n - 8) xs o.1,
)
