-- ===== src/Filter/Printing.antt =====
-- print-mask of plugins/filter_domains.c: what it prints, and that update-mask reads it back.
use io_monitor.Prelude.{
  ℕ, zero, suc, ◌+◌, ◌^◌, ◌≤◌, ◌<◌, Bool, true, false, none, some, List, [], ◌∷◌, ◌++◌, Bytes,
  length, get_elem?, ◌==◌, ==_iff, ltb, if◌then◌else◌, ◌≡◌, ◌↔◌, refl, arith, inl, inr, Bool-cases,
  test_bit, test_bit-zero, bit_and-pow_eq_zero, append-nil, bit_and-lt_pow, test_bit-bit_and,
  test_bit-hole, eq_zero_of_bits, test_bit_beyond,
}
use Prim.Native.Nat.{bit_and}
use native.Mathlib.Nat.{add-zero, zero-add}
use io_monitor.Domain.{end_domains}
use io_monitor.Mask.Meaning.{IsNames}
use io_monitor.Mask.Join.{join}
use io_monitor.Filter.{print_from, print_mask, flag_complement}

-- The names whose flags are set, for the names from number `j` on.
abbrev pub enabled : List Bytes → ℕ → ℕ → List Bytes
enabled [] j m = []
enabled (n ∷ ns) j m = let rest = enabled ns (j + 1) m in if test_bit m j then n ∷ rest else rest

enabled-zero : (ns : List Bytes) (j : ℕ) → enabled ns j 0 ≡ []
enabled-zero [] j = refl
enabled-zero (n ∷ ns) j = rw (test_bit-zero j, enabled-zero ns (j + 1))

-- Only the flags from `j` on matter.
enabled-eq :
    (ns : List Bytes) (j m m' : ℕ)
    → ((i : ℕ) → j ≤ i → i < j + length ns → test_bit m i ≡ test_bit m' i)
    → enabled ns j m ≡ enabled ns j m'
enabled-eq [] j m m' h = refl
enabled-eq (n ∷ ns) j m m' h = rw (
  h j (omega arith) (omega arith),
  enabled-eq ns (j + 1) m m' (λ i l u. h i (omega arith) (omega arith)),
)

-- Where no name is enabled, no flag is set.
enabled-nil :
    (ns : List Bytes) (j m i : ℕ)
    → enabled ns j m ≡ []
    → j ≤ i
    → i < j + length ns
    → test_bit m i ≡ false
enabled-nil [] j m i e p q = absurd (omega arith)
enabled-nil (n ∷ ns) j m i e p q = elim (Bool-cases (i == j)) [
  | inl at ↦ ground (arith)
  | inr past ↦ ground (arith, enabled-nil ns (j + 1) m i)
]

-- Clearing flag `j` leaves the others.
test_bit-clear :
    (i j m : ℕ)
    → j < 32
    → i < 32
    → test_bit (bit_and m (flag_complement j)) i ≡ (if i == j then false else test_bit m i)
test_bit-clear i j m p q =
    rw (test_bit-bit_and i m (flag_complement j), test_bit-hole i j 32 p) (ground arith)

join_cons :
    (n : Bytes) (ns : List Bytes) (b : Bool)
    → (b ≡ true) ↔ (ns ≡ [])
    → n ++ (if b then join ns else b',' ∷ join ns) ≡ join (n ∷ ns)
join_cons n [] true h = append-nil n
join_cons n [] false h = cc (h.1 refl)
join_cons n (k ∷ ns) true h = cc (h.0 refl)
join_cons n (k ∷ ns) false h = refl

bit_and-pow_eq_zero' : (j m : ℕ) → (bit_and m (2 ^ j) == 0) ≡ (if test_bit m j then false else true)
bit_and-pow_eq_zero' j m = ground (arith, bit_and-pow_eq_zero j m)

-- What the loop has to know of the flags `m` that are left in round `j`, where `k` names are left.
record IsLeft (j k m : ℕ) : Type 0 where
  fits : m < 2 ^ 32
  room : j + k ≤ 32
  low : (i : ℕ) → i < j → test_bit m i ≡ false
  high : (i : ℕ) → j + k ≤ i → i < 32 → test_bit m i ≡ false

-- No name is enabled exactly if no flag is left.
left_iff :
    (ns : List Bytes) (j m : ℕ) → IsLeft j (length ns) m → ((m == 0) ≡ true) ↔ (enabled ns j m ≡ [])
left_iff ns j m h = (
  λ e. let z = (==_iff m 0).0 e in rw z (enabled-zero ns j),
  λ e. (==_iff m 0).1 (
      eq_zero_of_bits 32 m h.fits λ i l. elim (Bool-cases (ltb i j)) [
        | inl before ↦ h.low i (ground arith)
        | inr from ↦ elim (Bool-cases (ltb i (j + length ns))) [
          | inl inside ↦ enabled-nil ns j m i e (ground arith) (ground arith)
          | inr behind ↦ h.high i (ground arith) l
        ]
      ]),
)

skip-IsLeft : (j k m : ℕ) → IsLeft j (suc k) m → test_bit m j ≡ false → IsLeft (j + 1) k m
skip-IsLeft j k m h e = record {
  fits = h.fits;
  room = omega (arith, h.room);
  low = λ i l. elim (Bool-cases (i == j)) [
    | inl at ↦ rw ((==_iff i j).0 at) e
    | inr before ↦ h.low i (ground arith)
  ];
  high = λ i l u. h.high i (omega arith) u;
}

clear-IsLeft : (j k m : ℕ) → IsLeft j (suc k) m → IsLeft (j + 1) k (bit_and m (flag_complement j))
clear-IsLeft j k m h = record {
  fits = bit_and-lt_pow 32 m (flag_complement j) h.fits;
  room = omega (arith, h.room);
  low = λ i l. ground (arith, test_bit-clear i j m, h.low i, h.room);
  high = λ i l u. ground (arith, test_bit-clear i j m, h.high i, h.room);
}

-- One round of the loop.
module _ (names : List Bytes) (fuel j m : ℕ) where
  print_done : (m == 0) ≡ true → print_from names (suc fuel) j m ≡ some []
  unfolding print_from
  print_done e = ground arith

  print_skip :
      (m == 0) ≡ false
      → test_bit m j ≡ false
      → print_from names (suc fuel) j m ≡ print_from names fuel (j + 1) m
  unfolding print_from
  print_skip e f = ground (arith, bit_and-pow_eq_zero' j m)

  print_name :
      (name rest : Bytes)
      → (m == 0) ≡ false
      → test_bit m j ≡ true
      → get_elem? names j ≡ some name
      → print_from names fuel (j + 1) (bit_and m (flag_complement j)) ≡ some rest
      → print_from names (suc fuel) j m
        ≡ some (name ++ (if bit_and m (flag_complement j) == 0 then rest else b',' ∷ rest))
  unfolding print_from
  print_name name rest e f g h = ground (arith, bit_and-pow_eq_zero' j m)

first_name :
    (names ns : List Bytes) (j : ℕ) (n : Bytes)
    → ((r : ℕ) → get_elem? names (j + r) ≡ get_elem? (n ∷ ns) r)
    → get_elem? names j ≡ some n
first_name names ns j n at = let h = at 0 in rw (add-zero j) at h

next_name :
    (names ns : List Bytes) (j : ℕ) (n : Bytes)
    → ((r : ℕ) → get_elem? names (j + r) ≡ get_elem? (n ∷ ns) r)
    → (r : ℕ) → get_elem? names (j + 1 + r) ≡ get_elem? ns r
next_name names ns j n at r =
    let e : j + suc r ≡ j + 1 + r = omega arith in let h = at (suc r) in rw e at h

enabled-clear :
    (ns : List Bytes) (j m : ℕ)
    → IsLeft j (suc (length ns)) m
    → enabled ns (j + 1) (bit_and m (flag_complement j)) ≡ enabled ns (j + 1) m
enabled-clear ns j m h =
    enabled-eq ns (j + 1) (bit_and m (flag_complement j)) m
      λ i l u. ground (arith, test_bit-clear i j m, h.room)

-- With the names from number `j` on in `ns`, the loop prints the enabled ones, joined by commas.
print_from-eq :
    (names ns : List Bytes) (fuel j m : ℕ)
    → ((r : ℕ) → get_elem? names (j + r) ≡ get_elem? ns r)
    → IsLeft j (length ns) m
    → length ns < fuel
    → print_from names fuel j m ≡ some (join (enabled ns j m))
print_from-eq names ns zero j m at left h = absurd (omega arith)
print_from-eq names [] (suc fuel) j m at left h =
    print_done names fuel j m ((left_iff [] j m left).1 refl)
print_from-eq names (n ∷ ns) (suc fuel) j m at left h = elim (Bool-cases (m == 0)) [
  | inl e ↦ rw (print_done names fuel j m e, (left_iff (n ∷ ns) j m left).0 e)
  | inr e ↦ elim (Bool-cases (test_bit m j)) [
    | inr f ↦ rw (
      print_skip names fuel j m e f,
      print_from-eq names ns fuel (j + 1) m (next_name names ns j n at)
          (skip-IsLeft j (length ns) m left f) (omega arith),
      f,
    )
    | inl f ↦
        let m' = bit_and m (flag_complement j) in
        let left' = clear-IsLeft j (length ns) m left in
        rw (
          print_name names fuel j m n (join (enabled ns (j + 1) m')) e f
              (first_name names ns j n at)
              (print_from-eq names ns fuel (j + 1) m' (next_name names ns j n at) left'
                (omega arith)),
          join_cons n (enabled ns (j + 1) m') (m' == 0) (left_iff ns (j + 1) m' left'),
          f,
          enabled-clear ns j m left,
        )
  ]
]

-- With a table of END_DOMAINS distinct names, a mask that holds flags of domains alone is printed
-- as the names of its domains in the order of the table, joined by commas.
pub print_mask-eq :
    (names : List Bytes) (m : ℕ)
    → IsNames names
    → m < 2 ^ end_domains
    → print_mask names m ≡ some (join (enabled names 0 m))
unfolding print_mask
print_mask-eq names m ok h =
    print_from-eq names names 33 0 m (λ r. rw zero-add)
      (record {
        fits = omega arith;
        room = omega (arith, ok.complete);
        low = λ i l. absurd (omega arith);
        high = λ i l u. test_bit_beyond end_domains m i h (omega (arith, ok.complete));
      })
      (omega (arith, ok.complete))

-- One round over a flag that is still to be printed, behind the table.
print_from_behind :
    (names : List Bytes) (fuel j m i : ℕ)
    → j ≤ i
    → i < 32
    → test_bit m i ≡ true
    → get_elem? names i ≡ none
    → print_from names fuel j m ≡ none
unfolding print_from
print_from_behind names zero j m i p q set_i out = refl
print_from_behind names (suc fuel) j m i p q set_i out =
    let skip =
      λ (j<i : j < i). print_from_behind names fuel (j + 1) m i (omega arith) q set_i out in
    let clear = λ (j<i : j < i).
      print_from_behind names fuel (j + 1) (bit_and m (flag_complement j)) i (omega arith) q
        (ground (arith, test_bit-clear i j m)) out in
    ground (arith, bit_and-pow_eq_zero' j m, test_bit-zero i, skip, clear)

-- Where one of the 32 flags is set that the table has no name for, as after update-mask ALL, print-
-- mask reads behind the end of the table.
pub print_mask_behind :
    (names : List Bytes) (m i : ℕ)
    → i < 32
    → test_bit m i ≡ true
    → get_elem? names i ≡ none
    → print_mask names m ≡ none
unfolding print_mask
print_mask_behind names m i h = print_from_behind names 33 0 m i (omega arith) h
