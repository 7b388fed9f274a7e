-- ===== src/Monitor/RunTests.antt =====
-- Runs of record() of io_monitor/io_monitor.c over several intercepts.
use io_monitor.Prelude.{true, false, ◌||◌, some, List, [], ◌∷◌, inr, codes, ◌≡◌, inl, refl, str_eq}
use io_monitor.Tokens.{words}
use io_monitor.Mask.{is_comma}
use io_monitor.Mask.Meaning.{contains}
use io_monitor.Mask.Tests.{domains_names, domains_names-IsNames, two_domains}
use io_monitor.Domain.{domain_value}
use io_monitor.Op.{op_value}
use io_monitor.Record.{MonitorRecord}
use io_monitor.Monitor.Outside.{Environment}
use io_monitor.Monitor.State.{Monitor, Intercept, initial}
use io_monitor.Monitor.Setup.{initialize_monitor}
use io_monitor.Monitor.Paused.{record_all-wakes}
use io_monitor.Monitor.Never.{IsBare, record_all-never_starts}
use io_monitor.Monitor.Sound.{IsSound, Ran-IsSound}
use io_monitor.Monitor.Totals.{record_all}
use io_monitor.Monitor.Runs.{Ran, at_start, then_record, Ran-record_intercept}
use io_monitor.Monitor.{ignored, opens_start, make_record, send_out, record_intercept}
use io_monitor.Monitor.Tests.{whole, busy_queue, watching, read_call, listed}

abbrev waiting : Monitor
waiting = record watching {
  domain_bit_flags = 12288;
  paused = true;
  start_on_open = some (codes "/data");
}

abbrev started : Monitor
started = initialize_monitor listed whole domains_names (initial whole)

abbrev after_read : Monitor
after_read = send_out busy_queue started

started-Ran : Ran whole started after_read
unfolding record_intercept initialize_monitor initial str_eq op_value
started-Ran =
    then_record read_call busy_queue started (some (make_record whole read_call busy_queue started))
      after_read at_start (inl refl) refl

any_run_example : IsSound after_read
any_run_example = Ran-IsSound listed whole domains_names after_read started-Ran

run_example :
    (contains (codes "FILE_READ") (words is_comma two_domains)
      || contains (codes "ALL") (words is_comma two_domains))
    ≡ true
unfolding record_intercept initialize_monitor initial str_eq
run_example =
    Ran-record_intercept whole listed domains_names two_domains (codes "FILE_READ") (initial whole)
      after_read read_call busy_queue (make_record whole read_call busy_queue after_read)
      (send_out busy_queue after_read) domains_names-IsNames refl refl started-Ran refl

abbrev started_by_open : Environment
started_by_open = record listed { start_on_open = some (codes "/data") }

abbrev open_call : Intercept
open_call = record read_call { dom_type = 13; op_type = 0; s1 = some (codes "/data/in") }

wakes_example :
    (recs : List MonitorRecord) × (m' : Monitor) × (record_all whole
        ((read_call, busy_queue) ∷ (open_call, busy_queue) ∷ (read_call, busy_queue) ∷ [])
        waiting
      ≡ some (recs, m'))
    × (record_all whole
          ((open_call, busy_queue) ∷ (read_call, busy_queue) ∷ [])
          (record waiting { paused = false })
        ≡ some (recs, m'))
    × (m'.paused ≡ false)
unfolding op_value str_eq ignored opens_start
wakes_example =
    record_all-wakes whole ((read_call, busy_queue) ∷ []) ((read_call, busy_queue) ∷ []) open_call
      busy_queue waiting refl ((inl refl, refl), tt) refl
      (inr (codes "/data/in", refl), (inl refl, tt))

initial-IsBare : IsBare (initial whole)
unfolding initial
initial-IsBare = record { unassigned = refl; untimed = refl }

never_starts_example :
    record_all whole
      ((open_call, busy_queue) ∷ (read_call, busy_queue) ∷ [])
      (initialize_monitor started_by_open whole domains_names (initial whole))
    ≡ some ([], initialize_monitor started_by_open whole domains_names (initial whole))
unfolding op_value str_eq domain_value words
never_starts_example =
    record_all-never_starts started_by_open whole domains_names two_domains
      (codes "FILE_OPEN_CLOSE") (codes "/data") (initial whole)
      ((open_call, busy_queue) ∷ (read_call, busy_queue) ∷ []) domains_names-IsNames refl refl refl
      refl initial-IsBare (inr refl, (inl refl, tt))
