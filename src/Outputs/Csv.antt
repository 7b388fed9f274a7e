-- ===== src/Outputs/Csv.antt =====
-- plugins/output_csv.c, and plugins/sample_plugin.c, which differs only in that it does not flush stdout.
use io_monitor.Prelude.{ℤ, Option, some, ◌∷◌, ◌++◌, Bytes, get_elem?, ◌>>=◌}
use io_monitor.CharArray.{c_string}
use io_monitor.Format.{decimal, decimal_int, Tables}
use io_monitor.Plugin.{plugin_open_success, plugin_accept_data}
use io_monitor.Record.{MonitorRecord}

unfoldable pub open_plugin : ℤ
open_plugin = plugin_open_success

unfoldable pub ok_to_accept_data : ℤ
ok_to_accept_data = plugin_accept_data

infixr 25 ◌then_comma◌
abbrev ◌then_comma◌ : Bytes → Bytes → Bytes
s then_comma t = s ++ (b',' ∷ t)

-- What printf prints in front of the newline; the two names are arguments.
unfoldable pub csv_line : Tables → MonitorRecord → Bytes → Bytes → Bytes
unfolding c_string decimal decimal_int
csv_line tables rec domain op =
    c_string rec.facility
    then_comma c_string rec.device
    then_comma decimal_int rec.timestamp
    then_comma tables.print_float 6 rec.elapsed_time
    then_comma decimal_int rec.pid
    then_comma domain
    then_comma op
    then_comma decimal_int rec.error_code
    then_comma decimal_int rec.fd
    then_comma decimal rec.bytes_transferred
    then_comma c_string rec.s1
    then_comma c_string rec.s2

-- The line that is printed and the answer; `none` where a table is read out of range.
unfoldable pub process_data : Tables → MonitorRecord → Option (Bytes × ℤ)
unfolding csv_line
process_data tables rec = do
  domain ← get_elem? tables.domains_names rec.dom_type
  op ← get_elem? tables.ops_names rec.op_type
  some (csv_line tables rec domain op, plugin_accept_data)

-- The sample plugin's.
unfoldable pub sample_process_data : Tables → MonitorRecord → Option (Bytes × ℤ)
unfolding csv_line
sample_process_data tables rec = do
  domain ← get_elem? tables.domains_names rec.dom_type
  op ← get_elem? tables.ops_names rec.op_type
  some (csv_line tables rec domain op, plugin_accept_data)
