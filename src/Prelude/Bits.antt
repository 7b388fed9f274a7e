-- ===== src/Prelude/Bits.antt =====
-- Bits of the native numbers: `|` and `&` with one flag, read bit by bit.
use Prim.Native.Nat.{
  ℕ, zero, suc, ◌+◌, ◌-◌, ◌*◌, ◌/◌, ◌%◌, ◌^◌, ◌≤◌, ◌<◌, min, max, digits, bitwise, bit_and, bit_or,
  bit_and-bitwise, bit_or-bitwise,
}
use mathlib.Core.Bool.{Bool, true, false, ◌||◌, ◌&&◌}
use mathlib.Core.Path.{◌≡◌, refl}
use native.Mathlib.Nat.{pow-suc, one-le-pow, le_refl}
use native.Mathlib.Omega.{arith}
use io_monitor.Prelude.Tests.{◌==◌, ltb, if◌then◌else◌}

-- `digits` recurses on fuel. A number with no digits needs none, and fuel beyond the number is not used.
module _ (rest : ℕ → ℕ) (digit : ℕ → ℕ → ℕ) where
  no_digits : (fuel y : ℕ) → digits rest digit fuel 0 y ≡ rest y
  no_digits zero y = refl
  no_digits (suc fuel) y = refl

  spare_fuel :
      (x y less more : ℕ)
      → x ≤ less
      → less ≤ more
      → digits rest digit more x y ≡ digits rest digit less x y
  spare_fuel zero y less more h l = rw (no_digits less y) (no_digits more y)
  spare_fuel (suc x) y zero more h l = absurd (omega arith)
  spare_fuel (suc x) y (suc less) zero h l = absurd (omega arith)
  spare_fuel (suc x) y (suc less) (suc more) h l =
      let behind = spare_fuel (suc x / 2) (y / 2) less more (omega arith) (omega arith) in rw behind

  lowest_digit :
      (x y : ℕ)
      → bitwise rest digit (suc x) y
        ≡ digit (suc x % 2) (y % 2) + 2 * bitwise rest digit (suc x / 2) (y / 2)
  lowest_digit x y =
      let half : suc x / 2 ≤ x = omega arith in
      omega (arith, spare_fuel (suc x / 2) (y / 2) (suc x / 2) x (le_refl (suc x / 2)) half)

bit_or_step : (a b : ℕ) → bit_or a b ≡ max (a % 2) (b % 2) + 2 * bit_or (a / 2) (b / 2)
bit_or_step zero b = simp bit_or-bitwise (omega arith)
bit_or_step (suc x) b = simp bit_or-bitwise (lowest_digit (λ rest. rest) max x b)

bit_and_step : (a b : ℕ) → bit_and a b ≡ min (a % 2) (b % 2) + 2 * bit_and (a / 2) (b / 2)
bit_and_step zero b = simp bit_and-bitwise (omega arith)
bit_and_step (suc x) b = simp bit_and-bitwise (lowest_digit (λ rest. 0) min x b)

bit_and-zero_below : (n a : ℕ) → a ≤ n → bit_and a 0 ≡ 0
bit_and-zero_below n zero h = refl
bit_and-zero_below zero (suc a) h = absurd (omega arith)
bit_and-zero_below (suc n) (suc a) h =
    omega (arith, bit_and_step (suc a) 0, bit_and-zero_below n (suc a / 2) (omega arith))

-- Bit `i` of a number.
unfoldable pub test_bit : ℕ → ℕ → Bool
test_bit m zero = m % 2 == 1
test_bit m (suc i) = test_bit (m / 2) i

or_mod : (a b : ℕ) → bit_or a b % 2 ≡ max (a % 2) (b % 2)
or_mod a b = omega (arith, bit_or_step a b)

or_div : (a b : ℕ) → bit_or a b / 2 ≡ bit_or (a / 2) (b / 2)
or_div a b = omega (arith, bit_or_step a b)

max_is_one : (a b : ℕ) → a < 2 → b < 2 → (max a b == 1) ≡ ((a == 1) || (b == 1))
max_is_one a b p q = ground arith

pub test_bit-bit_or : (i a b : ℕ) → test_bit (bit_or a b) i ≡ (test_bit a i || test_bit b i)
unfolding test_bit
test_bit-bit_or zero a b = rw (or_mod a b) (max_is_one (a % 2) (b % 2) (omega arith) (omega arith))
test_bit-bit_or (suc i) a b = rw (or_div a b) (test_bit-bit_or i (a / 2) (b / 2))

pub test_bit-zero : (i : ℕ) → test_bit 0 i ≡ false
unfolding test_bit
test_bit-zero zero = refl
test_bit-zero (suc i) = test_bit-zero i

half-pow : (j : ℕ) → 2 ^ suc j / 2 ≡ 2 ^ j
half-pow j = omega (arith, pow-suc 2 j)

even-pow : (j : ℕ) → 2 ^ suc j % 2 ≡ 0
even-pow j = omega (arith, pow-suc 2 j)

pub test_bit-pow : (i j : ℕ) → test_bit (2 ^ j) i ≡ (i == j)
unfolding test_bit
test_bit-pow zero zero = refl
test_bit-pow (suc i) zero = rw (test_bit-zero i) (ground arith)
test_bit-pow zero (suc j) = rw (even-pow j) (ground arith)
test_bit-pow (suc i) (suc j) = rw (half-pow j, test_bit-pow i j) (ground arith)

-- A mask of `k` ones.
pub test_bit-ones : (i k : ℕ) → test_bit (2 ^ k - 1) i ≡ ltb i k
unfolding test_bit
test_bit-ones i zero = rw (test_bit-zero i) (ground arith)
test_bit-ones zero (suc k) =
    let e : (2 ^ suc k - 1) % 2 ≡ 1 = omega (arith, pow-suc 2 k, one-le-pow k 2) in
    rw e (ground arith)
test_bit-ones (suc i) (suc k) =
    let e : (2 ^ suc k - 1) / 2 ≡ 2 ^ k - 1 = omega (arith, pow-suc 2 k, one-le-pow k 2) in
    rw (e, test_bit-ones i k) (ground arith)

-- `m & (1 << i)` is the flag or nothing.
bit_and-pow : (i m : ℕ) → bit_and m (2 ^ i) ≡ (if test_bit m i then 2 ^ i else 0)
unfolding test_bit
bit_and-pow zero m =
    ground (arith, bit_and_step m 1, bit_and-zero_below (m / 2) (m / 2) (le_refl _))
bit_and-pow (suc i) m =
    rw (bit_and_step m (2 ^ suc i), half-pow i, bit_and-pow i (m / 2), even-pow i)
      (ground (arith, pow-suc 2 i))

-- `0 == (m & (1 << i))` says that the bit is clear.
pub bit_and-pow_eq_zero :
    (i m : ℕ) → (0 == bit_and m (2 ^ i)) ≡ (if test_bit m i then false else true)
bit_and-pow_eq_zero i m = rw (bit_and-pow i m) (ground (arith, one-le-pow i 2))

and_mod : (a b : ℕ) → bit_and a b % 2 ≡ min (a % 2) (b % 2)
and_mod a b = omega (arith, bit_and_step a b)

and_div : (a b : ℕ) → bit_and a b / 2 ≡ bit_and (a / 2) (b / 2)
and_div a b = omega (arith, bit_and_step a b)

min_is_one : (a b : ℕ) → a < 2 → b < 2 → (min a b == 1) ≡ ((a == 1) && (b == 1))
min_is_one a b p q = ground arith

pub test_bit-bit_and : (i a b : ℕ) → test_bit (bit_and a b) i ≡ (test_bit a i && test_bit b i)
unfolding test_bit
test_bit-bit_and zero a b =
    rw (and_mod a b) (min_is_one (a % 2) (b % 2) (omega arith) (omega arith))
test_bit-bit_and (suc i) a b = rw (and_div a b) (test_bit-bit_and i (a / 2) (b / 2))

pub pow_lt : (j k : ℕ) → j < k → 2 ^ j < 2 ^ k
pow_lt j zero h = absurd (omega arith)
pow_lt zero (suc k) h = omega (arith, pow-suc 2 k, one-le-pow k 2)
pow_lt (suc j) (suc k) h = omega (arith, pow-suc 2 j, pow-suc 2 k, pow_lt j k (omega arith))

-- `~(1 << j)` in `k` bits.
pub test_bit-hole :
    (i j k : ℕ)
    → j < k
    → test_bit (2 ^ k - 1 - 2 ^ j) i ≡ (ltb i k && (if i == j then false else true))
unfolding test_bit
test_bit-hole i j zero h = absurd (omega arith)
test_bit-hole zero zero (suc k) h =
    let e : (2 ^ suc k - 1 - 1) % 2 ≡ 0 = omega (arith, pow-suc 2 k, one-le-pow k 2) in
    rw e (ground arith)
test_bit-hole (suc i) zero (suc k) h =
    let e : (2 ^ suc k - 1 - 1) / 2 ≡ 2 ^ k - 1 = omega (arith, pow-suc 2 k, one-le-pow k 2) in
    rw (e, test_bit-ones i k) (ground arith)
test_bit-hole zero (suc j) (suc k) h =
    let lt = pow_lt j k (omega arith) in
    let e : (2 ^ suc k - 1 - 2 ^ suc j) % 2 ≡ 1 = omega (arith, pow-suc 2 k, pow-suc 2 j, lt) in
    rw e (ground arith)
test_bit-hole (suc i) (suc j) (suc k) h =
    let lt = pow_lt j k (omega arith) in
    let e : (2 ^ suc k - 1 - 2 ^ suc j) / 2 ≡ 2 ^ k - 1 - 2 ^ j =
      omega (arith, pow-suc 2 k, pow-suc 2 j, lt) in
    rw (e, test_bit-hole i j k (omega arith)) (ground arith)

-- Two numbers below 2 ^ k with the same bits are equal.
pub eq_of_bits :
    (k a b : ℕ) → a < 2 ^ k → b < 2 ^ k → ((i : ℕ) → i < k → test_bit a i ≡ test_bit b i) → a ≡ b
unfolding test_bit
eq_of_bits zero a b p q h = omega arith
eq_of_bits (suc k) a b p q h =
    let ih =
      eq_of_bits k (a / 2) (b / 2) (omega (arith, pow-suc 2 k)) (omega (arith, pow-suc 2 k))
        (λ i l. h (suc i) (omega arith)) in
    let low : a % 2 ≡ b % 2 = ground (arith, h 0) in omega arith

pub bit_or-lt_pow : (k a b : ℕ) → a < 2 ^ k → b < 2 ^ k → bit_or a b < 2 ^ k
bit_or-lt_pow zero a b p q =
    let ea : a ≡ 0 = omega arith in let eb : b ≡ 0 = omega arith in rw (ea, eb) (omega arith)
bit_or-lt_pow (suc k) a b p q = omega (
  arith,
  bit_or_step a b,
  pow-suc 2 k,
  bit_or-lt_pow k (a / 2) (b / 2) (omega (arith, pow-suc 2 k)) (omega (arith, pow-suc 2 k)),
)

pub bit_and-lt_pow : (k a b : ℕ) → a < 2 ^ k → bit_and a b < 2 ^ k
bit_and-lt_pow zero a b p = let e : a ≡ 0 = omega arith in rw (e, bit_and-bitwise 0 b) (omega arith)
bit_and-lt_pow (suc k) a b p = omega (
  arith,
  bit_and_step a b,
  pow-suc 2 k,
  bit_and-lt_pow k (a / 2) (b / 2) (omega (arith, pow-suc 2 k)),
)

-- A number with a bit set is not 0, and one with no bit is 0.
pub eq_zero_of_bits : (k a : ℕ) → a < 2 ^ k → ((i : ℕ) → i < k → test_bit a i ≡ false) → a ≡ 0
eq_zero_of_bits k a p h =
    eq_of_bits k a 0 p (one-le-pow k 2 (omega arith)) (λ i l. rw (test_bit-zero i) (h i l))

-- A number below 2 ^ k has no bit from k on.
pub test_bit_beyond : (k m i : ℕ) → m < 2 ^ k → k ≤ i → test_bit m i ≡ false
unfolding test_bit
test_bit_beyond zero m i h l = let e : m ≡ 0 = omega arith in rw e (test_bit-zero i)
test_bit_beyond (suc k) m zero h l = absurd (omega arith)
test_bit_beyond (suc k) m (suc i) h l =
    test_bit_beyond k (m / 2) i (omega (arith, pow-suc 2 k)) (omega arith)
