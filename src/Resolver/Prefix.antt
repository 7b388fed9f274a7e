-- ===== src/Resolver/Prefix.antt =====
-- path_to_dev of mq_listener/resolver.cpp: which mount point decides.
use io_monitor.Prelude.{
  Option, ℕ, suc, ◌<◌, ◌≤◌, true, false, none, some, List, [], ◌∷◌, Bytes, length, All, str_eq,
  starts_with, ltb, ◌==◌, ==-refl, ◌≡◌, refl, ◌⊎◌, arith, Bool-cases, inl, inr, get_elem?, codes,
}
use io_monitor.CharArray.{c_string}
use io_monitor.Resolver.{
  Mounts, Resolver, lex_ltb, assign, first_mount, path_to_dev, parse_device_fields, name_of,
  capture_line, capture_lines, read_pieces, capture_device_info,
}

-- The keys stand in the order of the map.
abbrev pub IsSorted : Mounts → Type 0
IsSorted [] = Unit
IsSorted ((k, v) ∷ m) = All (λ e. lex_ltb k e.0 ≡ true) m × IsSorted m

lex_trans : (a b c : Bytes) → lex_ltb a b ≡ true → lex_ltb b c ≡ true → lex_ltb a c ≡ true
unfolding lex_ltb
lex_trans a b [] p q = cc
lex_trans a [] (z ∷ c) p q = cc
lex_trans [] (y ∷ b) (z ∷ c) p q = refl
lex_trans (x ∷ a) (y ∷ b) (z ∷ c) p q = ground (arith, lex_trans a b c)

-- Of two prefixes of a text the shorter comes first.
prefix_order :
    (a b path : Bytes)
    → starts_with a path ≡ true
    → starts_with b path ≡ true
    → length a < length b
    → lex_ltb a b ≡ true
unfolding lex_ltb starts_with
prefix_order a [] path p q h = absurd (omega arith)
prefix_order [] (y ∷ b) path p q h = refl
prefix_order (x ∷ a) (y ∷ b) [] p q h = cc
prefix_order (x ∷ a) (y ∷ b) (c ∷ path) p q h = ground (arith, prefix_order a b path)

lex_total : (a b : Bytes) → lex_ltb a b ≡ false → str_eq a b ≡ false → lex_ltb b a ≡ true
unfolding lex_ltb str_eq
lex_total [] [] p q = cc
lex_total [] (y ∷ b) p q = cc
lex_total (x ∷ a) [] p q = refl
lex_total (x ∷ a) (y ∷ b) p q = ground (arith, lex_total a b)

lex_irrefl : (a : Bytes) → lex_ltb a a ≡ false
unfolding lex_ltb
lex_irrefl [] = refl
lex_irrefl (x ∷ a) = rw (==-refl x) (lex_irrefl a)

-- Of two keys in order that are prefixes of a text the first is not longer.
first_shorter :
    (a b path : Bytes)
    → starts_with a path ≡ true
    → starts_with b path ≡ true
    → lex_ltb a b ≡ true
    → length a ≤ length b
first_shorter a b path p q h = elim (Bool-cases (ltb (length b) (length a))) [
  | inl shorter ↦ absurd (
      ground (
        arith,
        lex_irrefl a,
        lex_trans a b a h (prefix_order b a path q p (ground (arith, shorter))),
      ))
  | inr longer ↦ ground (arith, longer)
]

-- The entry of the key `k` is in `m`, the text starts with `k`, and no shorter key of `m` is a prefix
-- of the text.
pub record IsShortest (path : Bytes) (m : Mounts) (k dev : Bytes) : Type 0 where
  place : ℕ
  pub found : get_elem? m place ≡ some (k, dev)
  pub matches : starts_with k path ≡ true
  pub shortest : All (λ e. starts_with e.0 path ≡ true → length k ≤ length e.0) m

behind_shorter :
    (k path : Bytes) (m : Mounts)
    → starts_with k path ≡ true
    → All (λ e. lex_ltb k e.0 ≡ true) m
    → All (λ e. starts_with e.0 path ≡ true → length k ≤ length e.0) m
behind_shorter k path [] p h = tt
behind_shorter k path ((k', v) ∷ m) p h =
    (λ q. first_shorter k k' path p q h.0, behind_shorter k path m p h.1)

-- Either no key is a prefix, or the loop finds the shortest one that is.
first_mount_lem :
    (path : Bytes) (m : Mounts)
    → IsSorted m
    → ((first_mount path m ≡ none) × All (λ e. starts_with e.0 path ≡ false) m)
      ⊎ ((k dev : Bytes) × (first_mount path m ≡ some dev) × IsShortest path m k dev)
unfolding first_mount
first_mount_lem path [] h = inl (refl, tt)
first_mount_lem path ((k, v) ∷ m) h = elim (Bool-cases (starts_with k path)) [
  | inl e ↦ inr (
    k,
    v,
    rw e refl,
    record {
      place = 0;
      found = refl;
      matches = e;
      shortest = (λ q. omega arith, behind_shorter k path m e h.0);
    },
  )
  | inr e ↦ elim (first_mount_lem path m h.1) [
    | inl r ↦ inl (rw e r.0, (e, r.1))
    | inr (k', dev, r, s) ↦ inr (
      k',
      dev,
      rw e r,
      record {
        place = suc s.place;
        found = s.found;
        matches = s.matches;
        shortest = (λ q. absurd (ground (arith, q, e)), s.shortest);
      },
    )
  ]
]

behind_assign :
    (k key value : Bytes) (m : Mounts)
    → lex_ltb k key ≡ true
    → All (λ e. lex_ltb k e.0 ≡ true) m
    → All (λ e. lex_ltb k e.0 ≡ true) (assign key value m)
unfolding assign
behind_assign k key value [] p h = (p, tt)
behind_assign k key value ((k', v) ∷ m) p h = elim (Bool-cases (lex_ltb key k')) [
  | inl e ↦ rw e (p, (h.0, h.1))
  | inr e ↦ elim (Bool-cases (str_eq key k')) [
    | inl e' ↦ rw (e, e') (h.0, h.1)
    | inr e' ↦ rw (e, e') (h.0, behind_assign k key value m p h.1)
  ]
]

before_all :
    (key k : Bytes) (m : Mounts)
    → lex_ltb key k ≡ true
    → All (λ e. lex_ltb k e.0 ≡ true) m
    → All (λ e. lex_ltb key e.0 ≡ true) m
before_all key k [] p h = tt
before_all key k ((k', v) ∷ m) p h = (lex_trans key k k' p h.0, before_all key k m p h.1)

assign-IsSorted : (key value : Bytes) (m : Mounts) → IsSorted m → IsSorted (assign key value m)
unfolding assign
assign-IsSorted key value [] h = (tt, tt)
assign-IsSorted key value ((k, v) ∷ m) h = elim (Bool-cases (lex_ltb key k)) [
  | inl e ↦ rw e ((e, before_all key k m e h.0), h)
  | inr e ↦ elim (Bool-cases (str_eq key k)) [
    | inl e' ↦ rw (e, e') h
    | inr e' ↦
        rw (e, e')
          (behind_assign k key value m (lex_total key k e e') h.0, assign-IsSorted key value m h.1)
  ]
]

capture_line-IsSorted :
    (line : Bytes) (r : Resolver)
    → IsSorted r.fs_mount_path_to_dev
    → IsSorted (capture_line line r).fs_mount_path_to_dev
unfolding capture_line
capture_line-IsSorted line r h =
    let (fields_parsed, dc) = parse_device_fields line in
    elim (Bool-cases (fields_parsed == 7)) [
      | inr e ↦ rw e h
      | inl e ↦ elim (Bool-cases (str_eq (c_string dc.mount_point) (codes "/"))) [
        | inl e' ↦ rw (e, e') h
        | inr e' ↦
            rw (e, e')
              (assign-IsSorted (c_string dc.mount_point) (name_of dc) r.fs_mount_path_to_dev h)
      ]
    ]

capture-IsSorted :
    (lines : List Bytes) (r : Resolver)
    → IsSorted r.fs_mount_path_to_dev
    → IsSorted (capture_lines lines r).fs_mount_path_to_dev
unfolding capture_lines
capture-IsSorted [] r h = h
capture-IsSorted (line ∷ lines) r h =
    capture-IsSorted lines (capture_line line r) (capture_line-IsSorted line r h)

info-IsSorted :
    (output : Option Bytes) (r : Resolver)
    → IsSorted r.fs_mount_path_to_dev
    → IsSorted (capture_device_info output r).fs_mount_path_to_dev
unfolding capture_device_info
info-IsSorted none r h = h
info-IsSorted (some output) r h = capture-IsSorted (read_pieces 253 output) r h

-- Let the mount points stand in the order of the map before the output of lsblk is read, and let `r` be
-- the state after that. For a path that no mount point of `r` is a prefix of, path_to_dev gives the
-- device of the root; for any other it gives the device of the shortest mount point that is a prefix.
pub path_to_dev_lem :
    (output : Option Bytes) (r : Resolver) (path : Bytes)
    → IsSorted r.fs_mount_path_to_dev
    → (let r' = capture_device_info output r in
        (All (λ e. starts_with e.0 path ≡ false) r'.fs_mount_path_to_dev
          × (path_to_dev r' path ≡ r'.root_fs_dev))
        ⊎ ((k : Bytes) × IsShortest path r'.fs_mount_path_to_dev k (path_to_dev r' path)))
unfolding path_to_dev
path_to_dev_lem output r path h =
    let r' = capture_device_info output r in
    elim (first_mount_lem path r'.fs_mount_path_to_dev (info-IsSorted output r h)) [
      | inl (e, none_matches) ↦ inl (none_matches, rw (path_to_dev, e) refl)
      | inr (k, dev, e, s) ↦ inr (k, rw (path_to_dev, e) s)
    ]
