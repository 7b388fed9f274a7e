-- ===== src/Mask/Meaning.antt =====
-- What the mask of include/utility_routines.h means: which bits a list of names sets.
use Prim.Native.Nat.{bit_or}
use io_monitor.Prelude.{
  ℕ, zero, suc, ◌+◌, ◌^◌, ◌≤◌, ◌<◌, Bool, true, false, ◌||◌, Option, none, some, List, [], ◌∷◌,
  Bytes, codes, take, length, get_elem?, All, str_eq, str_eq_iff, ◌==◌, if◌then◌else◌, ◌≡◌, refl,
  arith, test_bit, test_bit-bit_or, test_bit-pow, test_bit-zero, test_bit-ones, bit_or-lt_pow,
  pow_lt, take-eq_self, length-take, get_elem?-lt,
}
use native.Mathlib.Nat.{zero-add}
use io_monitor.Domain.{end_domains}
use io_monitor.Tokens.{tokens, words, tokens-eq-words}
use io_monitor.Mask.{
  is_comma, all_ones, index_of, set_found, add_token, add_tokens, domain_list_to_bit_mask,
}

-- A text is one of a list.
abbrev pub contains : Bytes → List Bytes → Bool
contains n [] = false
contains n (t ∷ ts) = str_eq t n || contains n ts

-- No two names are equal.
abbrev pub Distinct : List Bytes → Type 0
Distinct [] = Unit
Distinct (n ∷ ns) = All (λ m. str_eq m n ≡ false) ns × Distinct ns

-- A table of domain names as the build generates it: END_DOMAINS names, no two alike.
pub record IsNames (names : List Bytes) : Type 0 where
  pub complete : length names ≡ end_domains
  pub distinct : Distinct names

abbrev hits : Option ℕ → ℕ → Bool
hits none k = false
hits (some i) k = k == i

pub distinct_get :
    (n m : Bytes) (ns : List Bytes) (j : ℕ)
    → All (λ x. str_eq x n ≡ false) ns
    → get_elem? ns j ≡ some m
    → str_eq m n ≡ false
distinct_get n m [] j h e = cc
distinct_get n m (x ∷ ns) zero h e = ground arith
distinct_get n m (x ∷ ns) (suc j) h e = distinct_get n m ns j h.1 e

-- An index that the search returns is not below the one that it starts at.
hits_below :
    (token : Bytes) (ns : List Bytes) (i k : ℕ) → k < i → hits (index_of token ns i) k ≡ false
unfolding index_of
hits_below token [] i k h = refl
hits_below token (n ∷ ns) i k h = ground (arith, hits_below token ns (i + 1) k)

-- With distinct names the search stops at a name exactly if the token is that name.
hits-index_of :
    (token n : Bytes) (ns : List Bytes) (i j : ℕ)
    → Distinct ns
    → get_elem? ns j ≡ some n
    → hits (index_of token ns i) (i + j) ≡ str_eq token n
unfolding index_of
hits-index_of token n [] i j d e = cc
hits-index_of token n (x ∷ ns) i zero d e = ground (arith, hits_below token ns (i + 1) (i + 0))
hits-index_of token n (x ∷ ns) i (suc j) d e = ground (
  arith,
  distinct_get x n ns j d.0 e,
  str_eq_iff token x,
  str_eq_iff token n,
  str_eq_iff n x,
  hits-index_of token n ns (i + 1) j d.1 e,
)

test_bit-set_found :
    (bit_mask : ℕ) (o : Option ℕ) (k : ℕ)
    → test_bit (set_found bit_mask o) k ≡ (test_bit bit_mask k || hits o k)
unfolding set_found
test_bit-set_found bit_mask none k = ground arith
test_bit-set_found bit_mask (some i) k = rw (test_bit-bit_or k bit_mask (2 ^ i), test_bit-pow k i)

abbrev pub is_all : Bytes → Bool
is_all t = str_eq t (codes "ALL")

test_bit-all_ones :
    (b : Bool) (m k : ℕ)
    → k < 32
    → test_bit (if b then bit_or m all_ones else m) k ≡ (test_bit m k || b)
test_bit-all_ones true m k h = rw (test_bit-bit_or k m all_ones, test_bit-ones k 32) (ground arith)
test_bit-all_ones false m k h = ground arith

module _ (names : List Bytes) (ok : IsNames names) (i : ℕ) (n : Bytes)
    (named : get_elem? names i ≡ some n) where
  index_lt : i < end_domains
  index_lt = rw (← ok.complete) (get_elem?-lt names i named)

  test_bit-add_token :
      (m : ℕ) (token : Bytes)
      → test_bit (add_token names m token) i ≡ (test_bit m i || (str_eq token n || is_all token))
  unfolding add_token
  test_bit-add_token m token =
      rw
        (
          test_bit-all_ones (is_all token) (set_found m (index_of token (take end_domains names) 0))
              i (omega (arith, index_lt)),
          test_bit-set_found m (index_of token (take end_domains names) 0) i,
          take-eq_self end_domains names (omega (arith, ok.complete)),
        )
        (let e = hits-index_of token n names 0 i ok.distinct named in
          let e' = rw (zero-add i) at e in ground arith)

  test_bit-add_tokens :
      (m : ℕ) (ts : List Bytes)
      → test_bit (add_tokens names m ts) i
        ≡ (test_bit m i || (contains n ts || contains (codes "ALL") ts))
  unfolding add_tokens
  test_bit-add_tokens m [] = ground arith
  test_bit-add_tokens m (t ∷ ts) =
      rw (test_bit-add_tokens (add_token names m t) ts, test_bit-add_token m t) (ground arith)

-- Let `names` be a table of END_DOMAINS distinct names, and `n` its name number `i`. The bit `i` of
-- the mask that is read from a text is set exactly if `n` or "ALL" is among the words between the
-- commas of the text.
pub domain_list_to_bit_mask-test_bit :
    (names : List Bytes) (i : ℕ) (n domain_list : Bytes)
    → IsNames names
    → get_elem? names i ≡ some n
    → test_bit (domain_list_to_bit_mask names domain_list) i ≡ (
        contains n (words is_comma domain_list)
        || contains (codes "ALL") (words is_comma domain_list))
unfolding domain_list_to_bit_mask
domain_list_to_bit_mask-test_bit names i n domain_list ok named =
    rw (← tokens-eq-words is_comma domain_list)
      (rw (test_bit-add_tokens names ok i n named 0 (tokens is_comma domain_list), test_bit-zero i))

set_found-lt :
    (m : ℕ) (o : Option ℕ) → m < 2 ^ 32 → ((k : ℕ) → o ≡ some k → k < 32) → set_found m o < 2 ^ 32
unfolding set_found
set_found-lt m none h f = h
set_found-lt m (some i) h f = bit_or-lt_pow 32 m (2 ^ i) h (pow_lt i 32 (f i refl))

index_of-lt :
    (token : Bytes) (ns : List Bytes) (i k : ℕ) → index_of token ns i ≡ some k → k < i + length ns
unfolding index_of
index_of-lt token [] i k e = cc
index_of-lt token (n ∷ ns) i k e = ground (arith, index_of-lt token ns (i + 1) k)

all_ones-lt : (b : Bool) (m : ℕ) → m < 2 ^ 32 → (if b then bit_or m all_ones else m) < 2 ^ 32
all_ones-lt true m h = bit_or-lt_pow 32 m all_ones h (omega arith)
all_ones-lt false m h = h

module _ (names : List Bytes) where
  add_token-lt : (m : ℕ) (token : Bytes) → m < 2 ^ 32 → add_token names m token < 2 ^ 32
  unfolding add_token
  add_token-lt m token h =
      let ns = take end_domains names in
      all_ones-lt (is_all token) (set_found m (index_of token ns 0)) (
        set_found-lt m (index_of token ns 0) h
          λ k e. omega (arith, index_of-lt token ns 0 k e, length-take end_domains names))

  add_tokens-lt : (m : ℕ) (ts : List Bytes) → m < 2 ^ 32 → add_tokens names m ts < 2 ^ 32
  unfolding add_tokens
  add_tokens-lt m [] h = h
  add_tokens-lt m (t ∷ ts) h = add_tokens-lt (add_token names m t) ts (add_token-lt m t h)

-- The mask fits an `unsigned int`, whatever the text and the table of names.
pub domain_list_to_bit_mask-lt :
    (names : List Bytes) (domain_list : Bytes) → domain_list_to_bit_mask names domain_list < 2 ^ 32
unfolding domain_list_to_bit_mask
domain_list_to_bit_mask-lt names domain_list =
    add_tokens-lt names 0 (tokens is_comma domain_list) (omega arith)

-- The flags behind the last domain are set by "ALL" alone.
module _ (names : List Bytes) (i : ℕ) (behind : end_domains ≤ i) (fits : i < 32) where
  hits_behind : (token : Bytes) → hits (index_of token (take end_domains names) 0) i ≡ false
  hits_behind token = hits_ge (index_of token (take end_domains names) 0) λ k e.
      omega (arith, index_of-lt token (take end_domains names) 0 k e, length-take end_domains names)
    where
      hits_ge : (o : Option ℕ) → ((k : ℕ) → o ≡ some k → k < i) → hits o i ≡ false
      hits_ge none h = refl
      hits_ge (some k) h = ground (arith, h k refl)

  test_bit-add_tokens_behind :
      (m : ℕ) (ts : List Bytes)
      → test_bit (add_tokens names m ts) i ≡ (test_bit m i || contains (codes "ALL") ts)
  unfolding add_tokens add_token
  test_bit-add_tokens_behind m [] = ground arith
  test_bit-add_tokens_behind m (t ∷ ts) =
      let found = set_found m (index_of t (take end_domains names) 0) in
      rw
        (
          test_bit-add_tokens_behind (add_token names m t) ts,
          test_bit-all_ones (is_all t) found i fits,
          test_bit-set_found m (index_of t (take end_domains names) 0) i,
          hits_behind t,
        )
        (ground arith)

  pub domain_list_to_bit_mask-test_bit_behind :
      (domain_list : Bytes)
      → test_bit (domain_list_to_bit_mask names domain_list) i
        ≡ contains (codes "ALL") (words is_comma domain_list)
  unfolding domain_list_to_bit_mask
  domain_list_to_bit_mask-test_bit_behind domain_list =
      rw (← tokens-eq-words is_comma domain_list)
        (rw (test_bit-add_tokens_behind 0 (tokens is_comma domain_list), test_bit-zero i))
