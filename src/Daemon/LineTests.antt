-- ===== src/Daemon/LineTests.antt =====
-- Runs of input_loop of mq_listener/mq_listener.c with a filter and the csv plugin in the chain.
use io_monitor.Prelude.{
  ℕ, ℤ, pos, negsuc, false, Option, none, some, List, [], ◌∷◌, ◌++◌, Bytes, codes, str_eq, any,
  All-any, map, ◌+◌, inl, length, ◌==◌, ◌≡◌, refl,
}
use io_monitor.Tokens.{words}
use io_monitor.Mask.Tests.{domains_names, domains_names-IsNames, two_domains}
use io_monitor.Format.{Tables}
use io_monitor.Record.{MonitorRecord}
use io_monitor.Filter
use io_monitor.Filter.{PluginState}
use io_monitor.Outputs.Csv
use io_monitor.Outputs.Csv.{csv_line}
use io_monitor.Chain.{Plugin}
use io_monitor.Chain.Shield.{IsFilter}
use io_monitor.Chain.Tests.{read_record}
use io_monitor.CharArray.{c_string}
use io_monitor.Outputs.Split.{HasNoComma, IsPlain}
use io_monitor.Monitor.{make_record, send_out, record_intercept}
use io_monitor.Monitor.Tests.{whole, busy_queue, watching, read_call}
use io_monitor.Op.{op_value}
use io_monitor.Monitor.Outside.{Answers}
use io_monitor.Monitor.State.{Monitor, Intercept}
use io_monitor.Monitor.Delivered.{deliver_all}
use io_monitor.Daemon.Whole.{deliver_all-printed}
use io_monitor.Daemon.Reported.{Shows, record_intercept-line}
use io_monitor.Daemon.Listed.{handed, lines_of, IsCsv}
use io_monitor.Daemon.Lines.{Stands, input_loop-lines}
use io_monitor.Daemon.{Received, message, failed, track, Daemon, set_hostname, input_loop}

-- A filter at address 0 and the csv plugin at address 1 of a heap of masks and printed lines.
abbrev Part : Type 0
Part = PluginState × List Bytes

abbrev tables : Tables
tables = record {
  domains_names = domains_names;
  ops_names = codes "UNKNOWN" ∷ codes "OPEN" ∷ codes "CLOSE" ∷ codes "READ" ∷ [];
  print_float = λ digits bits. codes "0.25";
}

abbrev print_result : MonitorRecord → Part → Option (Bytes × ℤ) → ℤ × MonitorRecord × Part
print_result rec s none = (pos 1, rec, s)
print_result rec s (some (line, z)) = (z, rec, (s.0, s.1 ++ line ∷ []))

abbrev part_plugin : ℕ → (MonitorRecord → Part → ℤ × MonitorRecord × Part) → Plugin Part
part_plugin state f = record {
  plugin_library = codes "part.so";
  plugin_options = none;
  plugin_alias = none;
  pfn_close_plugin = λ s. s;
  pfn_ok_to_accept_data = λ s. (pos 1, s);
  pfn_process_data = f;
  pfn_plugin_command = none;
  plugin_paused = false;
  state = state;
}

abbrev filter : Plugin Part
filter = part_plugin 0 (λ rec s. (Filter.process_data rec s.0, rec, s))

abbrev csv : Plugin Part
csv = part_plugin 1 (λ rec s. print_result rec s (Csv.process_data tables rec))

filter-IsFilter : IsFilter (λ (s : Part). s.0) filter
filter-IsFilter = record { answers = λ rec s. refl; running = refl }

csv-IsCsv : IsCsv tables (λ (s : Part). s.1) csv
csv-IsCsv = record { answers = λ rec s line z e. rw e (refl, refl, refl); running = refl }

abbrev listening : Daemon Part
listening = record {
  world = record {
    s_commands = [];
    plugins = filter ∷ csv ∷ [];
    heap = λ a. ((Filter.open_plugin domains_names two_domains).1, []);
    fresh = 2;
    message_queue_key = negsuc 0;
    message_queue_id = negsuc 0;
    show_runtime_commands = false;
  };
  resolver = record { fs_mount_path_to_dev = []; root_fs_dev = codes "sda1"; fd_to_dev = [] };
}

listening-Stands :
    Stands tables two_domains
      (λ s. s.0)
      (λ s. s.1)
      filter
      csv
      listening.world.plugins
      listening.world.heap
      []
listening-Stands = record {
  back = [];
  in_front = refl;
  filter_elsewhere = (refl, tt);
  csv_elsewhere = tt;
  opened = refl;
  printed = refl;
}

abbrev seek_and_read : List Received
seek_and_read =
    message (record read_record { dom_type = 7; op_type = 0 }) ∷ failed ∷ message read_record ∷ []

lines_example :
    ((input_loop (codes "host") seek_and_read listening).world.heap 1).1
    ≡ [] ++ lines_of tables two_domains (handed (codes "host") seek_and_read listening.resolver)
lines_example =
    input_loop-lines tables two_domains (λ s. s.0) (λ s. s.1) filter csv domains_names-IsNames
      filter-IsFilter csv-IsCsv (codes "host") seek_and_read listening []
      (
        ((codes "SEEKS", refl), (codes "UNKNOWN", refl)),
        (((codes "FILE_READ", refl), (codes "READ", refl)), tt),
      )
      listening-Stands

-- The seek is not in the list of domains.
one_line :
    lines_of tables two_domains (handed (codes "host") seek_and_read listening.resolver)
    ≡ codes "u,,1,0.25,7,FILE_READ,READ,0,4,10,," ∷ []
unfolding track csv_line str_eq words set_hostname
one_line = refl

abbrev read_reported : MonitorRecord
read_reported = make_record whole read_call busy_queue watching

no_comma : (s : Bytes) → any (λ c. c == b',') s ≡ false → HasNoComma s
no_comma = All-any (λ c. c == b',')

read_reported-IsPlain :
    IsPlain tables
      (track (set_hostname (codes "host") read_reported) listening.resolver).0
      (codes "FILE_READ")
      (codes "READ")
unfolding track set_hostname make_record c_string
read_reported-IsPlain = record {
  facility = no_comma (codes "u") refl;
  device = tt;
  elapsed = no_comma (codes "0.25") refl;
  domain_name = no_comma (codes "FILE_READ") refl;
  op_name = no_comma (codes "READ") refl;
  s1_text = no_comma (codes "x") refl;
  s2_text = tt;
}

reported_example :
    (line : Bytes) × Shows read_call (codes "FILE_READ") (codes "READ") (codes "x") line
    × (((input_loop (codes "host") (message read_reported ∷ []) listening).world.heap 1).1
        ≡ [] ++ line ∷ [])
unfolding record_intercept words str_eq
reported_example =
    record_intercept-line whole tables two_domains (λ s. s.0) (λ s. s.1) filter csv
      domains_names-IsNames filter-IsFilter csv-IsCsv read_call busy_queue watching
      (send_out busy_queue watching) read_reported (codes "host") listening [] (codes "FILE_READ")
      (codes "READ") (codes "x") refl refl refl refl refl (refl, tt) read_reported-IsPlain
      listening-Stands

-- The filter lets everything through.
abbrev open_to_all : Daemon Part
open_to_all = record listening {
  world = record listening.world {
    heap = λ a. ((Filter.open_plugin domains_names (codes "ALL")).1, []);
  };
}

open_to_all-Stands :
    Stands tables
      (codes "ALL")
      (λ s. s.0)
      (λ s. s.1)
      filter
      csv
      open_to_all.world.plugins
      open_to_all.world.heap
      []
open_to_all-Stands = record {
  back = [];
  in_front = refl;
  filter_elsewhere = (refl, tt);
  csv_elsewhere = tt;
  opened = refl;
  printed = refl;
}

abbrev two_reads : List (Intercept × Answers)
two_reads = (read_call, busy_queue) ∷ (read_call, busy_queue) ∷ []

whole_example :
    (recs : List MonitorRecord) × (m' : Monitor) × (deliver_all whole two_reads watching
      ≡ some (recs, m'))
    × (length ((input_loop (codes "host") (map message recs) open_to_all).world.heap 1).1
          + watching.ipc_records
        ≡ length {A = Bytes} [] + m'.ipc_records)
unfolding op_value words str_eq
whole_example =
    deliver_all-printed whole tables (codes "ALL") (λ s. s.0) (λ s. s.1) filter csv
      domains_names-IsNames filter-IsFilter csv-IsCsv two_reads watching (codes "/tmp/q")
      (codes "host") open_to_all []
      (
        (inl refl, refl, (codes "FILE_READ", refl), (codes "READ", refl)),
        ((inl refl, refl, (codes "FILE_READ", refl), (codes "READ", refl)), tt),
      )
      refl refl open_to_all-Stands
