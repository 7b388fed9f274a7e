-- ===== src/Mask.antt =====
-- include/utility_routines.h: a comma-separated list of domain names read into a bit mask.
-- `names` stands for the generated array `domains_names` (include/domains_names.h).
pub mod Meaning
pub mod Join
pub mod Tests
use Prim.Native.Nat.{bit_or}
use io_monitor.Prelude.{
  ℕ, ◌+◌, ◌-◌, ◌^◌, Bool, Option, none, some, List, [], ◌∷◌, Bytes, codes, take, str_eq, ◌==◌,
  if◌then◌else◌,
}
use io_monitor.Domain.{end_domains}
use io_monitor.Tokens.{tokens}

abbrev pub is_comma : ℕ → Bool
is_comma c = c == b','

-- `~0`
abbrev pub all_ones : ℕ
all_ones = 2 ^ 32 - 1

-- The inner `for`: the index of the first name, from index `i` on, that is the token.
unfoldable pub index_of : Bytes → List Bytes → ℕ → Option ℕ
index_of token [] i = none
index_of token (n ∷ ns) i = if str_eq token n then some i else index_of token ns (i + 1)

-- `bit_mask |= (1 << i)` where the search stopped at `i`; it stopped below END_DOMAINS, so nothing is
-- shifted out.
unfoldable pub set_found : ℕ → Option ℕ → ℕ
set_found bit_mask none = bit_mask
set_found bit_mask (some i) = bit_or bit_mask (2 ^ i)

module _ (names : List Bytes) where
  -- One round of the `while`.
  unfoldable pub add_token : ℕ → Bytes → ℕ
  unfolding index_of set_found
  add_token bit_mask token =
      let found = set_found bit_mask (index_of token (take end_domains names) 0) in
      if str_eq token (codes "ALL") then bit_or found all_ones else found

  unfoldable pub add_tokens : ℕ → List Bytes → ℕ
  unfolding add_token
  add_tokens bit_mask [] = bit_mask
  add_tokens bit_mask (t ∷ ts) = add_tokens (add_token bit_mask t) ts

  unfoldable pub domain_list_to_bit_mask : Bytes → ℕ
  unfolding add_tokens tokens
  domain_list_to_bit_mask domain_list = add_tokens 0 (tokens is_comma domain_list)
