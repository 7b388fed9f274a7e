-- ===== src/Exec/Arguments.antt =====
-- The exec helpers of io_monitor/io_monitor.c: which arguments reach the exec call.
use io_monitor.Prelude.{
  ℕ, ◌+◌, ◌≤◌, ◌<◌, Option, none, some, List, [], ◌∷◌, ◌++◌, Bytes, map, length, ltb, leb, ltb-true,
  ltb-false, length-append, if◌then◌else◌, ◌≡◌, refl, arith, Bool-cases, inl, inr,
}
use io_monitor.Exec.{
  made, out_of_block, execv, execvp, execvpe, table_slots, fill_table, va_list_to_table, with_first,
  orig_vexecl, take_last, orig_vexecle, orig_vexeclp,
}

-- The pointers `ps`, the NULL behind them, and what the caller passes behind the NULL.
abbrev pub passed {ℓ} : {P : Type ℓ} → List P → List (Option P) → List (Option P)
passed ps behind = map some ps ++ (none ∷ behind)

module _ {ℓ} {P : Type ℓ} where
  fill_table-fits :
      (i : ℕ) (ps : List P) (behind : List (Option P))
      → i + length ps < table_slots
      → fill_table i (passed ps behind) ≡ made ps
  unfolding fill_table
  fill_table-fits i [] behind h = rw (ltb-true i table_slots (omega (arith, h))) refl
  fill_table-fits i (p ∷ ps) behind h =
      rw
        (
          ltb-true i table_slots (omega (arith, h)),
          fill_table-fits (i + 1) ps behind (omega (arith, h)),
        )
        refl

  fill_table-overflows :
      (i : ℕ) (ps : List P) (behind : List (Option P))
      → table_slots ≤ i + length ps
      → fill_table i (passed ps behind) ≡ out_of_block
  unfolding fill_table
  fill_table-overflows i [] behind h = rw (ltb-false i table_slots (omega (arith, h))) refl
  fill_table-overflows i (p ∷ ps) behind h = elim (Bool-cases (ltb i table_slots)) [
    | inl e ↦ rw (e, fill_table-overflows (i + 1) ps behind (omega (arith, h))) refl
    | inr e ↦ rw e refl
  ]

  -- Up to 510 arguments behind the first reach execv and execvp in their order, whatever the caller
  -- passes behind their NULL; the 511th makes the helper store outside of its block.
  pub orig_vexecl_lem :
      (path : Bytes) (arg : P) (ps : List P) (behind : List (Option P))
      → (orig_vexecl path (some arg) (passed ps behind)
          ≡ (if leb (length ps) 510 then made (execv path (arg ∷ ps)) else out_of_block))
        × (orig_vexeclp path (some arg) (passed ps behind)
            ≡ (if leb (length ps) 510 then made (execvp path (arg ∷ ps)) else out_of_block))
  unfolding orig_vexecl orig_vexeclp va_list_to_table with_first
  orig_vexecl_lem path arg ps behind = elim (Bool-cases (leb (length ps) 510)) [
    | inl e ↦ rw (e, fill_table-fits 1 ps behind (ground (arith, e))) (refl, refl)
    | inr e ↦ rw (e, fill_table-overflows 1 ps behind (ground (arith, e))) (refl, refl)
  ]

  take_last-append : (ps : List P) (last : P) → take_last (ps ++ last ∷ []) ≡ made (ps, last)
  unfolding take_last
  take_last-append [] last = refl
  take_last-append (p ∷ []) last = refl
  take_last-append (p ∷ q ∷ ps) last = rw (take_last-append (q ∷ ps) last) refl

  -- For execle, the last argument in front of the NULL is taken away and becomes the environment; what
  -- the caller passes behind the NULL, where the environment stands, is not read.
  orig_vexecle_lem :
      (path : Bytes) (arg last : P) (ps : List P) (behind : List (Option P))
      → length ps < 510
      → orig_vexecle path (some arg) (passed (ps ++ last ∷ []) behind)
        ≡ made (execvpe path (arg ∷ ps) (some last))
  unfolding orig_vexecle va_list_to_table with_first
  orig_vexecle_lem path arg last ps behind h =
      rw
        (
          fill_table-fits 1 (ps ++ last ∷ []) behind
              (rw (length-append ps (last ∷ [])) (omega (arith, h))),
          take_last-append (arg ∷ ps) last,
        )
        refl
