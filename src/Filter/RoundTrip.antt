-- ===== src/Filter/RoundTrip.antt =====
-- update-mask reads back what print-mask printed (plugins/filter_domains.c and the reader of
-- include/utility_routines.h).
use io_monitor.Prelude.{
  ℕ, zero, suc, ◌+◌, ◌^◌, ◌<◌, Bool, true, false, ◌||◌, ◌&&◌, if◌then◌else◌, some, List, [], ◌∷◌,
  Bytes, codes, length, get_elem?, All, str_eq, str_eq_iff, str_eq_refl, ltb, ◌≡◌, refl, arith, inl,
  inr, Bool-cases, test_bit, eq_of_bits, test_bit_beyond,
}
use native.Mathlib.Nat.{zero-add, add-zero}
use io_monitor.Domain.{end_domains}
use io_monitor.Tokens.{words, IsWord}
use io_monitor.Mask.{is_comma, domain_list_to_bit_mask}
use io_monitor.Mask.Meaning.{
  IsNames, Distinct, distinct_get, contains, domain_list_to_bit_mask-test_bit,
  domain_list_to_bit_mask-lt, domain_list_to_bit_mask-test_bit_behind,
}
use io_monitor.Mask.Join.{join, words-join}
use io_monitor.Filter.{print_mask}
use io_monitor.Filter.Printing.{enabled, print_mask-eq}

-- Domain names as the build generates them: they are words between commas, and none is "ALL".
pub record IsNameTable (names : List Bytes) : Type 0 where
  pub table : IsNames names
  pub words : All (IsWord is_comma) names
  pub not_all : All (λ n. str_eq n (codes "ALL") ≡ false) names

enabled-All {κ} :
    (P : Bytes → Type κ) (ns : List Bytes) (j m : ℕ) → All P ns → All P (enabled ns j m)
enabled-All P [] j m h = tt
enabled-All P (n ∷ ns) j m h = elim (Bool-cases (test_bit m j)) [
  | inl e ↦ rw e (h.0, enabled-All P ns (j + 1) m h.1)
  | inr e ↦ rw e (enabled-All P ns (j + 1) m h.1)
]

not-contains :
    (n : Bytes) (ts : List Bytes) → All (λ t. str_eq t n ≡ false) ts → contains n ts ≡ false
not-contains n [] h = refl
not-contains n (t ∷ ts) h = rw (h.0, not-contains n ts h.1)

contains-if :
    (n x : Bytes) (rest : List Bytes) (b : Bool)
    → contains n (if b then x ∷ rest else rest) ≡ (b && str_eq x n || contains n rest)
contains-if n x rest true = refl
contains-if n x rest false = refl

str_eq_comm : (a b : Bytes) → str_eq a b ≡ str_eq b a
str_eq_comm a b = ground (arith, str_eq_iff a b, str_eq_iff b a)

-- A name is enabled exactly if its flag is set.
contains-enabled :
    (ns : List Bytes) (n : Bytes) (j r m : ℕ)
    → Distinct ns
    → get_elem? ns r ≡ some n
    → contains n (enabled ns j m) ≡ test_bit m (j + r)
contains-enabled [] n j r m d e = cc
contains-enabled (x ∷ ns) n j zero m d e =
    let same : x ≡ n = ground arith in
    let none_left : contains x (enabled ns (j + 1) m) ≡ false =
      not-contains x (enabled ns (j + 1) m)
        (enabled-All (λ t. str_eq t x ≡ false) ns (j + 1) m d.0) in
    rw
      (
        contains-if n x (enabled ns (j + 1) m) (test_bit m j),
        ← same,
        none_left,
        str_eq_refl x,
        add-zero,
      )
      (ground arith)
contains-enabled (x ∷ ns) n j (suc r) m d e =
    let shift : j + suc r ≡ j + 1 + r = omega arith in
    rw
      (
        contains-if n x (enabled ns (j + 1) m) (test_bit m j),
        str_eq_comm x n,
        distinct_get x n ns r d.0 e,
        contains-enabled ns n (j + 1) r m d.1 e,
        shift,
      )
      (ground arith)

get_elem?-some : (ns : List Bytes) (i : ℕ) → i < length ns → (n : Bytes) × (get_elem? ns i ≡ some n)
get_elem?-some [] i h = absurd (omega arith)
get_elem?-some (n ∷ ns) zero h = (n, refl)
get_elem?-some (n ∷ ns) (suc i) h = get_elem?-some ns i (omega arith)

module _ (names : List Bytes) (ok : IsNameTable names) (m : ℕ) (domains : m < 2 ^ end_domains) where
  printed : Bytes
  printed = join (enabled names 0 m)

  words-printed : words is_comma printed ≡ enabled names 0 m
  unfolding printed
  words-printed = words-join (enabled names 0 m) (enabled-All (IsWord is_comma) names 0 m ok.words)

  no_all : contains (codes "ALL") (enabled names 0 m) ≡ false
  no_all =
      not-contains (codes "ALL") (enabled names 0 m)
        (enabled-All (λ n. str_eq n (codes "ALL") ≡ false) names 0 m ok.not_all)

  reread_bit : (i : ℕ) → i < 32 → test_bit (domain_list_to_bit_mask names printed) i ≡ test_bit m i
  reread_bit i h = elim (Bool-cases (ltb i end_domains)) [
    | inl is_domain ↦
        let (n, named) = get_elem?-some names i (ground (arith, ok.table.complete)) in
        let bit = contains-enabled names n 0 i m ok.table.distinct named in
        let bit' = rw (zero-add i) at bit in
        rw
          (
            domain_list_to_bit_mask-test_bit names i n printed ok.table named,
            words-printed,
            no_all,
            bit',
          )
          (ground arith)
    | inr behind ↦ rw (
      domain_list_to_bit_mask-test_bit_behind names i (ground arith) h printed,
      words-printed,
      no_all,
      test_bit_beyond end_domains m i domains (ground arith),
    )
  ]

-- Let the mask hold flags of domains alone, and `names` be a table of END_DOMAINS distinct names, each
-- a word without a comma and none of them "ALL". Then print-mask prints a list within the table, and
-- reading that list gives the mask back.
pub domain_list_to_bit_mask-print_mask :
    (names : List Bytes) (m : ℕ)
    → IsNameTable names
    → m < 2 ^ end_domains
    → (text : Bytes) × (print_mask names m ≡ some text) × (domain_list_to_bit_mask names text ≡ m)
unfolding printed
domain_list_to_bit_mask-print_mask names m ok h = (
  printed names ok m h,
  print_mask-eq names m ok.table h,
  eq_of_bits 32 (domain_list_to_bit_mask names (printed names ok m h)) m
      (domain_list_to_bit_mask-lt names (printed names ok m h)) (omega arith)
      (reread_bit names ok m h),
)
