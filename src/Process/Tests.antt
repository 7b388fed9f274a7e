-- ===== src/Process/Tests.antt =====
-- A start and an end of a process, for io_monitor/io_monitor.c.
use io_monitor.Prelude.{
  pos, some, List, [], ◌∷◌, ◌++◌, Bytes, codes, ◌==◌, test_bit, All-any, ◌≡◌, refl, arith,
}
use io_monitor.Domain.{domain_value, start_stop}
use io_monitor.Monitor.{make_record, send_out}
use io_monitor.Monitor.State.{Monitor}
use io_monitor.Monitor.Tests.{whole, busy_queue, watching}
use io_monitor.Op.{op_value, start, stop}
use io_monitor.Process.{Times, Reported, stop_intercept, command_line, init, fini}
use io_monitor.Process.CommandLine.{arguments_text, joined}
use io_monitor.Process.Summary.{IsCounted, Says, init-joined}
use io_monitor.Process.Ending.{IsReporting, titled, counters_of, fini-titled}
use io_monitor.Record.{MonitorRecord}
use io_monitor.CharArray.{c_string}

abbrev now : Times
now = record { before = (pos 1, pos 0); after = (pos 1, pos 9) }

-- The domains START_STOP and DIRS are reported.
abbrev starting : Monitor
starting = record watching { domain_bit_flags = 65540 }

abbrev given : List Bytes
given = codes "ls" ∷ codes "-l" ∷ []

abbrev array : Bytes
array = codes "ls -l" ++ (0 ∷ [])

array_example : command_line [] (some (arguments_text given)) ≡ some array
unfolding command_line
array_example = refl

starting-IsCounted : IsCounted starting
starting-IsCounted = record {
  sends = omega arith;
  retries = omega arith;
  waits = omega arith;
  records = omega arith;
}

starting-IsReporting : IsReporting starting
unfolding domain_value test_bit
starting-IsReporting = record {
  connected = refl;
  no_socket = refl;
  monitored = refl;
  running = refl;
  no_count = refl;
  no_time = refl;
}

fini_example :
    (rec : MonitorRecord) × (m' : Monitor) × (fini whole (λ m. m) now busy_queue starting
      ≡ some (some rec, m'))
    × (rec.dom_type ≡ domain_value start_stop)
    × (rec.op_type ≡ op_value stop)
    × (c_string rec.s1 ≡ titled (counters_of starting))
fini_example =
    fini-titled whole (λ m. m) now busy_queue starting starting-IsCounted starting-IsReporting

init_example :
    (reports : Reported × Reported) × (init whole
        (λ m. m)
        []
        (some (arguments_text given))
        (pos 6)
        (some (codes "/"))
        now
        (busy_queue, busy_queue)
        starting
      ≡ some reports)
    × Says
        (domain_value start_stop)
        (op_value start)
        (joined (codes "ls") (codes "-l" ∷ []))
        reports.0
init_example =
    init-joined whole (λ m. m) [] b'l' (codes "s") (codes "-l" ∷ []) (pos 6) (some (codes "/")) now
      (busy_queue, busy_queue) starting (All-any (λ c. c == 0) (codes "ls") refl)
      (All-any (λ c. c == 0) (codes "-l") refl, tt) (omega arith)

-- With these domains the records are handed over.
stop_example :
    fini whole (λ m. m) now busy_queue starting
    ≡ some (
      some (make_record whole (stop_intercept starting now) busy_queue starting),
      send_out busy_queue starting,
    )
unfolding fini
stop_example = refl
