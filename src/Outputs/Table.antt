-- ===== src/Outputs/Table.antt =====
-- plugins/output_table.c: records as the rows of a table, with blank lines and headers in between.
use io_monitor.Prelude.{
  ℕ, ◌+◌, ◌%◌, ◌^◌, ℤ, Option, some, List, [], ◌∷◌, ◌++◌, Bytes, codes, get_elem?, ◌==◌,
  if◌then◌else◌, ◌>>=◌,
}
use io_monitor.CharArray.{c_string}
use io_monitor.Format.{decimal, decimal_int, pad_left, pad_right, Tables}
use io_monitor.Plugin.{plugin_open_success, plugin_accept_data}
use io_monitor.Record.{MonitorRecord}

unfoldable pub open_plugin : ℤ
open_plugin = plugin_open_success

unfoldable pub ok_to_accept_data : ℤ
ok_to_accept_data = plugin_accept_data

infixr 25 ◌then_blank◌
abbrev ◌then_blank◌ : Bytes → Bytes → Bytes
s then_blank t = s ++ (b' ' ∷ t)

-- The columns in front of the last, `%10s %10s %10d %8.4f %5d %20s  %-20s %3d %5d %8zu`, of the texts of
-- the arguments.
unfoldable pub columns :
    Bytes → Bytes → Bytes → Bytes → Bytes → Bytes → Bytes → Bytes → Bytes → Bytes → Bytes
unfolding pad_left pad_right
columns facility device timestamp elapsed pid domain op error fd transferred =
    pad_left 10 facility
    then_blank pad_left 10 device
    then_blank pad_left 10 timestamp
    then_blank pad_left 8 elapsed
    then_blank pad_left 5 pid
    then_blank pad_left 20 domain
    then_blank (b' ' ∷ pad_right 20 op)
    then_blank pad_left 3 error
    then_blank pad_left 5 fd
    then_blank pad_left 8 transferred

unfoldable pub header : Bytes
unfolding columns
header =
    columns (codes "FACILITY") (codes "DEV") (codes "TS.") (codes "ELAPSED") (codes "PID")
      (codes "DOMAIN") (codes "OPERATION") (codes "ERR") (codes "FD") (codes "XFER")
    then_blank codes "PARM"

unfoldable pub row_columns : Tables → MonitorRecord → Bytes → Bytes → Bytes
unfolding columns c_string decimal decimal_int
row_columns tables rec domain op =
    columns (c_string rec.facility) (c_string rec.device) (decimal_int rec.timestamp)
      (tables.print_float 4 rec.elapsed_time) (decimal_int rec.pid) domain op
      (decimal_int rec.error_code) (decimal_int rec.fd) (decimal rec.bytes_transferred)

unfoldable pub row : Tables → MonitorRecord → Bytes → Bytes → Bytes
unfolding row_columns c_string
row tables rec domain op =
    row_columns tables rec domain op then_blank c_string rec.s1 then_blank c_string rec.s2

-- The lines in front of a row. `ln` is the static counter of the rows.
unfoldable pub before_row : ℕ → List Bytes
unfolding header
before_row ln = (if ln % 4 == 0 then [] ∷ [] else []) ++ (if ln % 16 == 0 then header ∷ [] else [])

-- The lines that are printed, the answer and the counter; `none` where a table is read out of range.
unfoldable pub process_data : Tables → MonitorRecord → ℕ → Option (List Bytes × ℤ × ℕ)
unfolding before_row row
process_data tables rec ln = do
  domain ← get_elem? tables.domains_names rec.dom_type
  op ← get_elem? tables.ops_names rec.op_type
  some (before_row ln ++ row tables rec domain op ∷ [], plugin_accept_data, (ln + 1) % 2 ^ 32)
