-- ===== src/Format.antt =====
-- What the program asks of printf: `%u` and `%zu`, `%d`, and the widths of `%10s` and `%-20s`.
-- The digits of a float are a parameter.
pub mod Laws
use io_monitor.Prelude.{
  ℕ, zero, suc, ◌+◌, ◌-◌, ◌/◌, ◌%◌, ℤ, pos, negsuc, true, false, List, [], ◌∷◌, ◌++◌, Bytes, length,
  replicate, ltb,
}

-- The digits of `n`, the highest first. The fuel is the number itself, which has fewer digits.
unfoldable pub digits_from : ℕ → ℕ → Bytes
digits_from zero n = (b'0' + n % 10) ∷ []
digits_from (suc fuel) n = elim (ltb n 10) [
  | true ↦ (b'0' + n) ∷ []
  | false ↦ digits_from fuel (n / 10) ++ (b'0' + n % 10) ∷ []
]

-- `%u`, `%zu`
unfoldable pub decimal : ℕ → Bytes
unfolding digits_from
decimal n = digits_from n n

-- `%d`
unfoldable pub decimal_int : ℤ → Bytes
unfolding decimal
decimal_int (pos n) = decimal n
decimal_int (negsuc n) = b'-' ∷ decimal (suc n)

-- `%10s`: blanks in front of a text that is shorter.
unfoldable pub pad_left : ℕ → Bytes → Bytes
pad_left width s = replicate (width - length s) b' ' ++ s

-- `%-20s`
unfoldable pub pad_right : ℕ → Bytes → Bytes
pad_right width s = s ++ replicate (width - length s) b' '

-- The tables of names that the build generates, and printf's `%.<n>f` of a float's bit pattern.
pub record Tables : Type 0 where
  pub domains_names : List Bytes
  pub ops_names : List Bytes
  pub print_float : ℕ → ℕ → Bytes
