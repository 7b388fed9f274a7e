-- ===== src/Influx/Blank.antt =====
-- is_all_whitespace of plugins/output_influxdb.c and what it decides.
use io_monitor.Prelude.{
  ℕ, true, false, [], ◌∷◌, Bytes, ◌==◌, ◌≡◌, ◌↔◌, refl, arith, Bool-cases, inl, inr,
}
use io_monitor.Influx.{is_all_whitespace}

is_blank-newline : (c : ℕ) → (c == b' ') ≡ true → (c == 10) ≡ false
is_blank-newline c e = ground arith

is_all_whitespace-cons : (c : ℕ) (s : Bytes) → is_all_whitespace (c ∷ s) ≡ false
unfolding is_all_whitespace
is_all_whitespace-cons c s = elim (Bool-cases (c == b' ')) [
  | inl e ↦ rw (is_blank-newline c e, e) refl
  | inr e ↦ rw e refl
]

-- No text but the empty one is found blank: a text of one blank is not.
is_all_whitespace_iff : (s : Bytes) → (is_all_whitespace s ≡ true) ↔ (s ≡ [])
unfolding is_all_whitespace
is_all_whitespace_iff [] = ground arith
is_all_whitespace_iff (c ∷ s) = rw (is_all_whitespace-cons c s) (ground arith)
