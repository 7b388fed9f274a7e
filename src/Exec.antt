-- ===== src/Exec.antt =====
-- The helpers of io_monitor/io_monitor.c for the intercepted exec calls with a list of arguments. `P` is the type of
-- pointers that are not NULL; a pointer is an `Option P`, `none` for NULL.
pub mod Arguments
mod Tests
use io_monitor.Prelude.{
  ℕ, zero, suc, ◌+◌, ◌/◌, Option, none, some, List, [], ◌∷◌, Bytes, ltb, if◌then◌else◌,
}

-- How a helper ends: with a value, with a store outside of the block of malloc, or with a read behind
-- the arguments.
pub data Attempt {ℓ} (A : Type ℓ) : Type ℓ where
  made : A → Attempt A
  out_of_block : Attempt A
  no_argument : Attempt A

abbrev pub then_make {ℓ κ} : {A : Type ℓ} {B : Type κ} → Attempt A → (A → Attempt B) → Attempt B
then_make (made a) f = f a
then_make out_of_block f = out_of_block
then_make no_argument f = no_argument

-- The calls that the helpers end with: the path, the arguments up to NULL, and the environment.
pub data Call {ℓ} (P : Type ℓ) : Type ℓ where
  execv : Bytes → List P → Call P
  execvp : Bytes → List P → Call P
  execvpe : Bytes → List P → Option P → Call P

-- The pointers that the block has room for: `max_args * sizeof(**result)` are 4096 bytes, since a
-- `void` counts as one byte, and a pointer has eight.
abbrev pub table_slots : ℕ
table_slots = 4096 / 8

module _ {ℓ} {P : Type ℓ} where
  -- The `while` from index `i` on, and the store of the NULL behind it.
  unfoldable pub fill_table : ℕ → List (Option P) → Attempt (List P)
  fill_table i [] = no_argument
  fill_table i (none ∷ args) = if ltb i table_slots then made [] else out_of_block
  fill_table i (some p ∷ args) =
      let rest = fill_table (i + 1) args in
      if ltb i table_slots then then_make rest (λ ps. made (p ∷ ps)) else out_of_block

  -- The entries from index 1 on; the one at index 0 is not set.
  unfoldable pub va_list_to_table : List (Option P) → Attempt (List P)
  unfolding fill_table
  va_list_to_table args = fill_table 1 args

  -- `argt[0] = arg`: what an exec call reads of the table, which ends at NULL.
  unfoldable pub with_first : Option P → List P → List P
  with_first none ps = []
  with_first (some arg) ps = arg ∷ ps

  unfoldable pub orig_vexecl : Bytes → Option P → List (Option P) → Attempt (Call P)
  unfolding va_list_to_table with_first
  orig_vexecl path arg args =
      then_make (va_list_to_table args) λ argt. made (execv path (with_first arg argt))

  -- The loop to the end of the table, `envp = argt[i - 1]` and `argt[i - 1] = NULL`: the last pointer
  -- and those before it. Without a pointer the store is in front of the block.
  unfoldable pub take_last : List P → Attempt (List P × P)
  take_last [] = out_of_block
  take_last (p ∷ []) = made ([], p)
  take_last (p ∷ q ∷ ps) = then_make (take_last (q ∷ ps)) λ r. made (p ∷ r.0, r.1)

  unfoldable pub orig_vexecle : Bytes → Option P → List (Option P) → Attempt (Call P)
  unfolding va_list_to_table with_first take_last
  orig_vexecle path arg args =
      then_make (va_list_to_table args)
        λ argt. then_make (take_last (with_first arg argt)) λ r. made (execvpe path r.0 (some r.1))

  unfoldable pub orig_vexeclp : Bytes → Option P → List (Option P) → Attempt (Call P)
  unfolding va_list_to_table with_first
  orig_vexeclp path arg args =
      then_make (va_list_to_table args) λ argt. made (execvp path (with_first arg argt))
