-- ===== src/Base/Texts/Digits.antt =====
-- What strconv.Itoa writes: its digits, and that different numbers have different texts.
use Prim.Native.String.{String}
use text.Mathlib.TextLemmas.{nil-append, cons-append}
use Prim.Native.Nat.{ℕ, zero, suc, ◌+◌, ◌-◌, ◌*◌, ◌/◌, ◌%◌, ◌≤◌, ◌<◌}
use mathlib.Core.Path.{◌≡◌, refl, sym, ap, ap₂, ◌∙◌}
use mathlib.Core.Bool.{true, false, ◌&&◌}
use mathlib.Core.Logic.{inl, inr}
use mathlib.Core.List.{[], ◌∷◌, ◌++◌, reverse, reverse-append, foldl, foldl-append, append_assoc}
use native.Mathlib.Omega.{arith}
use microkube.Base.Tests.{◌==◌, ltb, Bool-cases}
use microkube.Base.Bytes.{Bytes, codes, has_prefix, has_suffix}
use microkube.Base.Texts as Texts
use microkube.Base.Texts.{itoa, itoa_fuel, digit, nth}

pub codes-append : (s t : String) → codes (Texts.◌++◌ s t) ≡ codes s ++ codes t
codes-append String.[] t = rw (nil-append t) refl
codes-append (String.◌∷◌ c s) t =
    rw (cons-append c s) (ap (λ x. Prim.Native.Char.code c ∷ x) (codes-append s t))

abbrev digit_step : ℕ → ℕ → ℕ
digit_step acc c = acc * 10 + (c - 48)

codes-digit : (d : ℕ) → d < 10 → codes (digit d) ≡ (48 + d) ∷ []
unfolding digit nth
codes-digit zero h = refl
codes-digit (suc zero) h = refl
codes-digit (suc (suc zero)) h = refl
codes-digit (suc (suc (suc zero))) h = refl
codes-digit (suc (suc (suc (suc zero)))) h = refl
codes-digit (suc (suc (suc (suc (suc zero))))) h = refl
codes-digit (suc (suc (suc (suc (suc (suc zero)))))) h = refl
codes-digit (suc (suc (suc (suc (suc (suc (suc zero))))))) h = refl
codes-digit (suc (suc (suc (suc (suc (suc (suc (suc zero)))))))) h = refl
codes-digit (suc (suc (suc (suc (suc (suc (suc (suc (suc zero))))))))) h = refl
codes-digit (suc (suc (suc (suc (suc (suc (suc (suc (suc (suc n)))))))))) h = absurd (omega arith)

-- The number that digits stand for.
abbrev value : Bytes → ℕ
value xs = foldl digit_step 0 xs

itoa_fuel_small : (fuel n : ℕ) → ltb n 10 ≡ true → itoa_fuel (suc fuel) n ≡ digit n
unfolding itoa_fuel
itoa_fuel_small fuel n e = rw (e, itoa_fuel) refl

itoa_fuel_large :
    (fuel n : ℕ)
    → ltb n 10 ≡ false
    → itoa_fuel (suc fuel) n ≡ Texts.◌++◌ (itoa_fuel fuel (n / 10)) (digit (n % 10))
unfolding itoa_fuel
itoa_fuel_large fuel n e = rw (e, itoa_fuel) refl

value-itoa_fuel : (fuel n : ℕ) → n < fuel → value (codes (itoa_fuel fuel n)) ≡ n
value-itoa_fuel zero n h = absurd (omega arith)
value-itoa_fuel (suc fuel) n h = elim (Bool-cases (ltb n 10)) [
  | inl e ↦
      let small : n < 10 = ground arith in
      ap (λ t. value (codes t)) (itoa_fuel_small fuel n e)
      ∙ (ap value (codes-digit n small) ∙ omega arith)
  | inr e ↦
      let large : 10 ≤ n = ground arith in
      let front = codes (itoa_fuel fuel (n / 10)) in
      let last = codes (digit (n % 10)) in
      let shown : value (codes (itoa_fuel (suc fuel) n)) ≡ foldl digit_step (value front) last =
        ap (λ t. value (codes t)) (itoa_fuel_large fuel n e)
        ∙ (ap value (codes-append (itoa_fuel fuel (n / 10)) (digit (n % 10)))
            ∙ foldl-append digit_step 0 front last) in
      let before = value-itoa_fuel fuel (n / 10) (omega arith) in
      shown ∙ (ap₂ (foldl digit_step) before (codes-digit (n % 10) (omega arith)) ∙ omega arith)
]

-- Different numbers are written differently.
pub itoa_injective : (m n : ℕ) → itoa m ≡ itoa n → m ≡ n
unfolding itoa
itoa_injective m n e =
    sym (value-itoa_fuel (suc m) m (omega arith))
    ∙ (ap (λ t. value (codes t)) e ∙ value-itoa_fuel (suc n) n (omega arith))

last_digit : (n : ℕ) → (front : String) × (d : ℕ) × (d < 10) × (itoa n ≡ Texts.◌++◌ front (digit d))
unfolding itoa
last_digit n = elim (Bool-cases (ltb n 10)) [
  | inl e ↦
      let small : n < 10 = ground arith in
      ("", n, small, itoa_fuel_small n n e ∙ sym (nil-append (digit n)))
  | inr e ↦ (itoa_fuel n (n / 10), n % 10, omega arith, itoa_fuel_large n n e)
]

-- A text that ends with a number does not end with a word whose last byte is above the digits.
pub number_suffix :
    (s : String) (n : ℕ) (word : Bytes) (c : ℕ)
    → 57 < c
    → has_suffix (codes (Texts.◌++◌ s (itoa n))) (word ++ c ∷ []) ≡ false
unfolding has_suffix has_prefix
number_suffix s n word c h =
    let (front, d, small, e) = last_digit n in
    let shown : codes (Texts.◌++◌ s (itoa n)) ≡ (codes s ++ codes front) ++ (48 + d) ∷ [] =
      codes-append s (itoa n)
      ∙ (ap (λ t. codes s ++ codes t) e
          ∙ (ap (λ t. codes s ++ t)
                (codes-append front (digit d) ∙ ap (λ t. codes front ++ t) (codes-digit d small))
              ∙ sym (append_assoc (codes s) (codes front) ((48 + d) ∷ [])))) in
    let differs : (48 + d == c) ≡ false = ground arith in
    ap (λ t. has_suffix t (word ++ c ∷ [])) shown
    ∙ (ap₂ has_prefix (reverse-append (codes s ++ codes front) ((48 + d) ∷ []))
          (reverse-append word (c ∷ []))
        ∙ ap (λ b. b && has_prefix (reverse (codes s ++ codes front)) (reverse word)) differs)
