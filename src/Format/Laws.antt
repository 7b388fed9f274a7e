-- ===== src/Format/Laws.antt =====
-- Decimal numbers: how many digits, and that the digits give the number back.
use io_monitor.Prelude.{
  ℕ, zero, suc, ◌+◌, ◌-◌, ◌*◌, ◌/◌, ◌%◌, ◌^◌, ◌≤◌, ◌<◌, Bool, true, false, ◌&&◌, [], ◌∷◌, ◌++◌,
  Bytes, length, length-append, All, All-append, ltb, leb, ◌≡◌, refl, arith, inl, inr, Bool-cases,
}
use native.Mathlib.Nat.{pow-suc}
use io_monitor.Format.{digits_from, decimal}

abbrev pub is_digit : ℕ → Bool
is_digit c = leb b'0' c && leb c b'9'

-- The number that digits stand for, read from the left behind the number `acc`.
abbrev pub value_from : ℕ → Bytes → ℕ
value_from acc [] = acc
value_from acc (c ∷ s) = value_from (acc * 10 + (c - b'0')) s

value-append : (acc : ℕ) (s t : Bytes) → value_from acc (s ++ t) ≡ value_from (value_from acc s) t
value-append acc [] t = refl
value-append acc (c ∷ s) t = value-append (acc * 10 + (c - b'0')) s t

digits_low : (fuel n : ℕ) → ltb n 10 ≡ true → digits_from (suc fuel) n ≡ (b'0' + n) ∷ []
unfolding digits_from
digits_low fuel n e = rw (e, digits_from) refl

digits_high :
    (fuel n : ℕ)
    → ltb n 10 ≡ false
    → digits_from (suc fuel) n ≡ digits_from fuel (n / 10) ++ (b'0' + n % 10) ∷ []
unfolding digits_from
digits_high fuel n e = rw (e, digits_from) refl

value-digits_from : (fuel n : ℕ) → n ≤ fuel → value_from 0 (digits_from fuel n) ≡ n
unfolding digits_from
value-digits_from zero n h = omega arith
value-digits_from (suc fuel) n h = elim (Bool-cases (ltb n 10)) [
  | inl e ↦ rw (digits_low fuel n e) (omega arith)
  | inr e ↦
      rw
        (
          digits_high fuel n e,
          value-append 0 (digits_from fuel (n / 10)) ((b'0' + n % 10) ∷ []),
          value-digits_from fuel (n / 10) (ground (arith, e)),
        )
        (omega arith)
]

pub value-decimal : (n : ℕ) → value_from 0 (decimal n) ≡ n
unfolding decimal
value-decimal n = value-digits_from n n (omega arith)

digits_from-All : (fuel n : ℕ) → All (λ c. is_digit c ≡ true) (digits_from fuel n)
unfolding digits_from
digits_from-All zero n = (ground arith, tt)
digits_from-All (suc fuel) n = elim (Bool-cases (ltb n 10)) [
  | inl e ↦ rw (digits_low fuel n e) (ground (arith, e), tt)
  | inr e ↦ rw (digits_high fuel n e) (
      All-append _ (digits_from fuel (n / 10)) _ (digits_from-All fuel (n / 10)) (ground arith, tt))
]

pub decimal-All : (n : ℕ) → All (λ c. is_digit c ≡ true) (decimal n)
unfolding decimal
decimal-All n = digits_from-All n n

length-digits_from :
    (fuel n k : ℕ) → n ≤ fuel → n < 10 ^ suc k → length (digits_from fuel n) ≤ suc k
unfolding digits_from
length-digits_from zero n k h l = omega arith
length-digits_from (suc fuel) n zero h l = rw (digits_low fuel n (ground arith)) (omega arith)
length-digits_from (suc fuel) n (suc k) h l = elim (Bool-cases (ltb n 10)) [
  | inl e ↦ rw (digits_low fuel n e) (omega arith)
  | inr e ↦
      rw (digits_high fuel n e, length-append (digits_from fuel (n / 10)) ((b'0' + n % 10) ∷ []))
        (omega (
          arith,
          length-digits_from fuel (n / 10) k (ground (arith, e))
              (omega (arith, pow-suc 10 (suc k))),
        ))
]

-- A number below 10 to the power of `k + 1` has at most k + 1 digits.
pub length-decimal : (n k : ℕ) → n < 10 ^ suc k → length (decimal n) ≤ suc k
unfolding decimal
length-decimal n k l = length-digits_from n n k (omega arith) l
