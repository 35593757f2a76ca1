-- ===== src/Network/Ip/Printed.antt =====
-- net.ParseIP on what IP.String() writes of an IPv4 address.
use microkube.Base.{
  ℕ, suc, ◌+◌, ◌-◌, ◌*◌, ◌<◌, Option, none, some, Bool, true, false, not, [], ◌∷◌, ◌++◌, leb, ◌==◌,
  ==_iff, ◌≡◌, append-nil, refl, sym, ap, subst, ◌∙◌, arith, inl, inr, Bool-cases,
}
use microkube.Base.Bytes.{Bytes, codes}
use microkube.Base.Texts.{itoa}
use microkube.Network.Ip.{is_digit, dtoi_from, dtoi, parse_octets, skip_dot, parse_ip, ipv4}
use microkube.Network.Ip.Agree.{every_below, every_below-lt}

-- No digit stands in front of the text.
abbrev stops : Bytes → Bool
stops [] = true
stops (c ∷ cs) = not (is_digit c)

dtoi_from-append :
    (ds : Bytes) (n v : ℕ) (rest : Bytes)
    → stops rest ≡ true
    → dtoi_from n ds ≡ some (v, [])
    → dtoi_from n (ds ++ rest) ≡ some (v, rest)
unfolding dtoi_from
dtoi_from-append [] n v [] s h = h
dtoi_from-append [] n v (c ∷ rest) s h =
    rw (s, dtoi_from) (ap (λ t. some (t, c ∷ rest)) (first_of h))
  where
    first_of : {a b : ℕ} → ◌≡◌ {A = Option (ℕ × Bytes)} (some (a, [])) (some (b, [])) → a ≡ b
    first_of e = cc
dtoi_from-append (c ∷ ds) n v rest s h = elim (Bool-cases (is_digit c)) [
  | inr e ↦ let k = rw (e, dtoi_from) at h in cc
  | inl e ↦ elim (Bool-cases (leb 0xFFFFFF (n * 10 + (c - b'0')))) [
    | inl big ↦ let k = rw (e, big, dtoi_from) at h in cc
    | inr small ↦
        rw (e, small, dtoi_from)
          (dtoi_from-append ds (n * 10 + (c - b'0')) v rest s (rw (e, small, dtoi_from) at h))
  ]
]

abbrev reads_back : ℕ → Bool
reads_back x = elim (dtoi (codes (itoa x))) [
  | none ↦ false
  | some (v, []) ↦ v == x
  | some (v, c ∷ rest) ↦ false
]

table : every_below reads_back 256 ≡ true
unfolding every_below dtoi itoa
table = refl

read_back :
    (r : Option (ℕ × Bytes)) (x : ℕ)
    → (elim r as (λ _. Bool) [ none ↦ false | some (v, []) ↦ v == x | some (v, c ∷ rest) ↦ false ])
      ≡ true
    → r ≡ some (x, [])
read_back none x h = cc
read_back (some (v, [])) x h = ap (λ t. some (t, [])) ((==_iff v x).0 h)
read_back (some (v, c ∷ rest)) x h = cc

dtoi-nil : dtoi [] ≡ none
unfolding dtoi
dtoi-nil = refl

dtoi-digit : (c : ℕ) (ds : Bytes) → is_digit c ≡ true → dtoi (c ∷ ds) ≡ dtoi_from 0 (c ∷ ds)
unfolding dtoi
dtoi-digit c ds e = rw (e, dtoi) refl

dtoi_other : (c : ℕ) (ds : Bytes) → is_digit c ≡ false → dtoi (c ∷ ds) ≡ none
unfolding dtoi
dtoi_other c ds e = rw (e, dtoi) refl

none-ne-some : {r : ℕ × Bytes} → ¬ (none ≡ some r)
none-ne-some h = cc

-- The digits of an octet are read up to what stands behind them.
dtoi-itoa :
    (x : ℕ) (rest : Bytes)
    → x < 256
    → stops rest ≡ true
    → dtoi (codes (itoa x) ++ rest) ≡ some (x, rest)
dtoi-itoa x rest lt s = go (codes (itoa x)) (read_back _ x (every_below-lt reads_back 256 lt table))
  where
    go : (ds : Bytes) → dtoi ds ≡ some (x, []) → dtoi (ds ++ rest) ≡ some (x, rest)
    go [] h = absurd (none-ne-some (sym dtoi-nil ∙ h))
    go (c ∷ ds) h = elim (Bool-cases (is_digit c)) [
      | inl e ↦
          dtoi-digit c (ds ++ rest) e
          ∙ dtoi_from-append (c ∷ ds) 0 x rest s (sym (dtoi-digit c ds e) ∙ h)
      | inr e ↦ absurd (none-ne-some (sym (dtoi_other c ds e) ∙ h))
    ]

octet_step :
    (k : ℕ) (first : Bool) (s t rest : Bytes) (x : ℕ) (octets : Bytes)
    → skip_dot first s ≡ some t
    → dtoi t ≡ some (x, rest)
    → x < 256
    → parse_octets k false rest ≡ some octets
    → parse_octets (suc k) first s ≡ some (x ∷ octets)
unfolding parse_octets
octet_step k first s t rest x octets a b lt c =
    let small : leb x 255 ≡ true = ground arith in rw (a, b, small, c, parse_octets) refl

begun : {r : ℕ × Bytes} (s : Bytes) → dtoi s ≡ some r → skip_dot true s ≡ some s
unfolding dtoi skip_dot
begun [] h = cc
begun (c ∷ s) h = refl

abbrev pub octet : ℕ → Bytes
octet x = codes (itoa x)

-- The text of four octets is read as their address.
pub parse_ip-octets :
    (parse_ipv6 : Bytes → Option Bytes) (a b c d : ℕ)
    → a < 256
    → b < 256
    → c < 256
    → d < 256
    → parse_ip parse_ipv6 (octet a ++ (b'.' ∷ (octet b ++ (b'.' ∷ (octet c ++ (b'.' ∷ octet d))))))
      ≡ some (ipv4 (a ∷ b ∷ c ∷ d ∷ []))
unfolding parse_ip skip_dot parse_octets
parse_ip-octets parse_ipv6 a b c d la lb lc ld =
    let t₃ = b'.' ∷ octet d in
    let t₂ = b'.' ∷ (octet c ++ t₃) in
    let t₁ = b'.' ∷ (octet b ++ t₂) in
    let text = octet a ++ t₁ in
    let last = subst (λ t. dtoi t ≡ some (d, [])) (append-nil (octet d)) (dtoi-itoa d [] ld refl) in
    let four = octet_step 0 false t₃ (octet d) [] d [] refl last ld refl in
    let three =
      octet_step 1 false t₂ (octet c ++ t₃) t₃ c (d ∷ []) refl (dtoi-itoa c t₃ lc refl) lc four in
    let two =
      octet_step 2 false t₁ (octet b ++ t₂) t₂ b (c ∷ d ∷ []) refl (dtoi-itoa b t₂ lb refl) lb
        three in
    let found = dtoi-itoa a t₁ la refl in
    let one = octet_step 3 true text text t₁ a (b ∷ c ∷ d ∷ []) (begun text found) found la two in
    rw (one, parse_ip) refl
