-- ===== src/Outputs/Cadence.antt =====
-- plugins/output_table.c: how often the headers and blank lines come.
use io_monitor.Prelude.{
  ap, ◌∙◌, ℕ, suc, ◌+◌, ◌/◌, ◌^◌, ◌<◌, Option, some, List, [], ◌∷◌, ◌++◌, Bytes, All, length,
  length-append, get_elem?, ◌>>=◌, ◌≡◌, arith,
}
use io_monitor.Format.{Tables}
use io_monitor.Record.{MonitorRecord}
use io_monitor.Plugin.{plugin_accept_data}
use io_monitor.Outputs.Table.{before_row, row, process_data}

-- The rows of the records in their order.
abbrev pub print_all : Tables → List MonitorRecord → ℕ → Option (List Bytes × ℕ)
print_all tables [] ln = some ([], ln)
print_all tables (rec ∷ recs) ln = do
  (lines, rc, ln') ← process_data tables rec ln
  (rest, last) ← print_all tables recs ln'
  some (lines ++ rest, last)

-- A table of the names has an entry for the enumerators of the record.
abbrev pub IsNamed : Tables → MonitorRecord → Type 0
IsNamed tables rec =
    (domain op : Bytes) × (get_elem? tables.domains_names rec.dom_type ≡ some domain)
    × (get_elem? tables.ops_names rec.op_type ≡ some op)

length-before_row :
    (ln : ℕ)
    → length (before_row ln) + (ln + 3) / 4 + (ln + 15) / 16 ≡ (ln + 4) / 4 + (ln + 16) / 16
unfolding before_row
length-before_row ln = ground arith

-- Lines of `n` rows from the counter `ln` on.
Counts : ℕ → ℕ → List Bytes → Type 0
Counts ln n lines =
    length lines + (ln + 3) / 4 + (ln + 15) / 16 ≡ n + (ln + n + 3) / 4 + (ln + n + 15) / 16

none_yet : (ln : ℕ) → Counts ln 0 []
unfolding Counts
none_yet ln = omega arith

one_more :
    (ln n : ℕ) (line : Bytes) (rest : List Bytes)
    → Counts (ln + 1) n rest
    → Counts ln (suc n) ((before_row ln ++ line ∷ []) ++ rest)
unfolding Counts
one_more ln n line rest h =
    rw (length-append (before_row ln ++ line ∷ []) rest, length-append (before_row ln) (line ∷ []))
      (omega (arith, h, length-before_row ln))

process_data-named :
    (tables : Tables) (rec : MonitorRecord) (ln : ℕ) (domain op : Bytes)
    → get_elem? tables.domains_names rec.dom_type ≡ some domain
    → get_elem? tables.ops_names rec.op_type ≡ some op
    → ln + 1 < 2 ^ 32
    → process_data tables rec ln
      ≡ some (before_row ln ++ row tables rec domain op ∷ [], plugin_accept_data, ln + 1)
unfolding process_data
process_data-named tables rec ln domain op d o h =
    rw (d, o)
      (ap (λ n. some (before_row ln ++ row tables rec domain op ∷ [], plugin_accept_data, n))
        (omega (arith, h)))

print_all-from :
    (tables : Tables) (recs : List MonitorRecord) (ln : ℕ)
    → All (IsNamed tables) recs
    → ln + length recs < 2 ^ 31
    → (lines : List Bytes) × (print_all tables recs ln ≡ some (lines, ln + length recs))
      × Counts ln (length recs) lines
print_all-from tables [] ln named h = ([], ap (λ n. some ([], n)) (omega arith), none_yet ln)
print_all-from tables (rec ∷ recs) ln ((domain, op, d, o), named) h =
    let (rest, e, c) = print_all-from tables recs (ln + 1) named (omega (arith, h)) in
    (
      (before_row ln ++ row tables rec domain op ∷ []) ++ rest,
      rw (process_data-named tables rec ln domain op d o (omega (arith, h)), e)
          (ap (λ n. some ((before_row ln ++ row tables rec domain op ∷ []) ++ rest, n))
            (omega arith)),
      one_more ln (length recs) (row tables rec domain op) rest c,
    )

-- When the plugin is given n records in turn, each of a named domain and operation, and has been given
-- none before, then it prints a line for each, a blank line in front of every fourth from the first on
-- and a header in front of every sixteenth. The counter, an int, does not overflow below 2 ^ 31.
length-print_all :
    (tables : Tables) (recs : List MonitorRecord)
    → All (IsNamed tables) recs
    → length recs < 2 ^ 31
    → (lines : List Bytes) × (print_all tables recs 0 ≡ some (lines, length recs))
      × (length lines ≡ length recs + (length recs + 3) / 4 + (length recs + 15) / 16)
unfolding Counts
length-print_all tables recs named h =
    let (lines, e, c) = print_all-from tables recs 0 named (omega (arith, h)) in
    (lines, e ∙ ap (λ n. some (lines, n)) (omega arith), omega (arith, c))
