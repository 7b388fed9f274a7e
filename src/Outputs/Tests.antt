-- ===== src/Outputs/Tests.antt =====
-- Records and lines to try the output plugins and the command line plugin on.
use io_monitor.Prelude.{
  ℕ, ◌-◌, ◌<◌, pos, false, none, some, List, [], ◌∷◌, ◌++◌, Bytes, codes, length, ◌==◌, any,
  All-any, ◌≡◌, ◌⊎◌, refl, arith,
}
use io_monitor.CharArray.{c_string}
use io_monitor.Format.{decimal, decimal_int, Tables}
use io_monitor.Plugin.{plugin_accept_data}
use io_monitor.Record.{path_max, MonitorRecord}
use io_monitor.Chain.{Heap, Plugin}
use io_monitor.Outputs.Csv
use io_monitor.Outputs.Split.{HasNoComma, IsPlain}
use io_monitor.Outputs.Table.{header, row}
use io_monitor.Outputs.Columns.{Fits, row-header}
use io_monitor.Outputs.Cadence.{IsNamed}
use io_monitor.Outputs.Cli.{
  Cli, close_plugin, open_plugin, Steps, stay, go, thread_loop, at_read, ended, advance,
}
use io_monitor.Outputs.Thread.{listener-Steps, place-Steps}
use io_monitor.Outputs.Typed.{
  IsLine, rounds, typed, repeat_command, run_typed, last_line, listener-rounds,
}

abbrev tables : Tables
tables = record {
  domains_names = codes "START_STOP" ∷ codes "FILE_READ" ∷ [];
  ops_names = codes "START" ∷ codes "READ" ∷ [];
  print_float = λ digits bits. codes "0.25";
}

abbrev read_rec : MonitorRecord
read_rec = record {
  facility = codes "u";
  hostname = codes "host";
  device = codes "sda";
  timestamp = pos 12;
  elapsed_time = 5;
  pid = pos 7;
  dom_type = 1;
  op_type = 1;
  error_code = pos 0;
  fd = pos 4;
  bytes_transferred = 10;
  s1 = codes "/f";
  s2 = [];
}

line_text :
    Csv.process_data tables read_rec
    ≡ some (codes "u,sda,12,0.25,7,FILE_READ,READ,0,4,10,/f,", plugin_accept_data)
unfolding Csv.process_data
line_text = refl

no_comma : (s : Bytes) → any (λ c. c == b',') s ≡ false → HasNoComma s
no_comma = All-any (λ c. c == b',')

read_rec-IsPlain : IsPlain tables read_rec (codes "FILE_READ") (codes "READ")
unfolding c_string
read_rec-IsPlain = record {
  facility = no_comma (codes "u") refl;
  device = no_comma (codes "sda") refl;
  elapsed = no_comma (codes "0.25") refl;
  domain_name = no_comma (codes "FILE_READ") refl;
  op_name = no_comma (codes "READ") refl;
  s1_text = no_comma (codes "/f") refl;
  s2_text = tt;
}

read_rec-Fits :
    Fits
      (c_string read_rec.facility)
      (c_string read_rec.device)
      (decimal_int read_rec.timestamp)
      (tables.print_float 4 read_rec.elapsed_time)
      (decimal_int read_rec.pid)
      (codes "FILE_READ")
      (codes "READ")
      (decimal_int read_rec.error_code)
      (decimal_int read_rec.fd)
      (decimal read_rec.bytes_transferred)
unfolding c_string decimal decimal_int
read_rec-Fits = record {
  in_facility = omega arith;
  in_device = omega arith;
  in_timestamp = omega arith;
  in_elapsed = omega arith;
  in_pid = omega arith;
  in_domain = omega arith;
  in_op = omega arith;
  in_error = omega arith;
  in_fd = omega arith;
  in_transferred = omega arith;
}

header_example :
    (titles front : Bytes) × (header ≡ titles ++ (b' ' ∷ codes "PARM"))
    × (row tables read_rec (codes "FILE_READ") (codes "READ")
        ≡ front ++ (b' ' ∷ (c_string read_rec.s1 ++ (b' ' ∷ c_string read_rec.s2))))
    × (length titles ≡ 109)
    × (length front ≡ 109)
header_example = row-header tables read_rec (codes "FILE_READ") (codes "READ") read_rec-Fits

abbrev five_records : List MonitorRecord
five_records = read_rec ∷ read_rec ∷ read_rec ∷ read_rec ∷ read_rec ∷ []

named : IsNamed tables read_rec
named = (codes "FILE_READ", codes "READ", refl, refl)

-- A listener that keeps the commands it was given, the last one first.
abbrev remember : Bytes → List Bytes → List Bytes
remember buf w = buf ∷ w

abbrev started : Cli (List Bytes)
started = (open_plugin [] (typed (codes "l csv" ∷ codes "q" ∷ [])) []).1

is_line : (s : Bytes) → any (λ c. c == 10) s ≡ false → length s < path_max - 1 → IsLine s
is_line s n h = (All-any (λ c. c == 10) s n, h)

typed_example :
    (rounds remember 2 (rounds remember 2 started)).listener
    ≡ repeat_command remember 2
        (last_line remember [] (codes "l csv" ∷ codes "q" ∷ []))
        (run_typed remember (codes "l csv" ∷ codes "q" ∷ []) [])
typed_example =
    listener-rounds remember [] (codes "l csv" ∷ codes "q" ∷ []) [] 2
      (is_line (codes "l csv") refl (omega arith), (is_line (codes "q") refl (omega arith), tt))

-- The plugin is closed while the thread waits for a line.
abbrev at_prompt : Cli (List Bytes)
at_prompt = record {
  place = at_read;
  kill_thread = false;
  buf = [];
  stdin = typed (codes "q" ∷ []);
  listener = [];
}

abbrev one : Cli (List Bytes)
one = advance remember (close_plugin at_prompt)

abbrev two : Cli (List Bytes)
two = advance remember one

abbrev three : Cli (List Bytes)
three = advance remember two

abbrev to_the_end : Steps remember (close_plugin at_prompt) three
to_the_end =
    go (thread_loop (close_plugin at_prompt)) (go (thread_loop one) (go (thread_loop two) stay))

one_more_example :
    (three.listener ≡ at_prompt.listener)
    ⊎ ((buf : Bytes) × (three.listener ≡ remember buf at_prompt.listener))
one_more_example = listener-Steps remember at_prompt three to_the_end

ended_example : three.place ≡ ended
ended_example = place-Steps remember at_prompt three to_the_end (omega arith)

-- Two plugins of output_csv.c, with no state.
abbrev csv_plugin : ℕ → Plugin (Unit {0})
csv_plugin state = record {
  plugin_library = codes "output_csv.so";
  plugin_options = none;
  plugin_alias = none;
  pfn_close_plugin = λ s. s;
  pfn_ok_to_accept_data = λ s. (plugin_accept_data, s);
  pfn_process_data = λ rec s. (plugin_accept_data, rec, s);
  pfn_plugin_command = none;
  plugin_paused = false;
  state = state;
}

abbrev no_heap : Heap (Unit {0})
no_heap a = tt
