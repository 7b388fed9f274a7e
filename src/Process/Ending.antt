-- ===== src/Process/Ending.antt =====
-- fini of io_monitor/io_monitor.c: the record of the end of a process.
use io_monitor.Prelude.{
  true, false, some, List, [], ◌∷◌, ◌++◌, ℕ, Bytes, codes, test_bit, bit_and-pow_eq_zero, ◌≡◌, refl,
  ◌∙◌, take-eq_self,
}
use io_monitor.CharArray.{c_string}
use io_monitor.Domain.{domain_value, start_stop}
use io_monitor.Format.{decimal}
use io_monitor.Monitor.{
  ignored, check_open, check_elapsed, sample_count, sample_time, decide, make_record, send_out,
  conclude, record_intercept,
}
use io_monitor.Monitor.Contents.{record_intercept-Tells}
use io_monitor.Monitor.Outside.{Floats, Answers}
use io_monitor.Monitor.State.{Monitor, goes_on}
use io_monitor.Op.{op_value, stop}
use io_monitor.Process.{Times, summary, stop_intercept, fini}
use io_monitor.Process.Summary.{IsCounted, summary-IsCString, length-summary}
use io_monitor.Record.{MonitorRecord, fd_none}

-- The monitor lets every record of START_STOP through.
pub record IsReporting (m : Monitor) : Type 0 where
  pub connected : m.failed_socket_connections ≡ 0
  pub no_socket : m.socket_fd ≡ fd_none
  pub monitored : test_bit m.domain_bit_flags (domain_value start_stop) ≡ true
  pub running : m.paused ≡ false
  pub no_count : m.count_based_sampling ≡ false
  pub no_time : m.time_based_sampling ≡ false

-- A list of titles and counters, the way they are printed.
abbrev pub titled : List (Bytes × ℕ) → Bytes
titled [] = []
titled (f ∷ fields) = f.0 ++ (codes " = " ++ (decimal f.1 ++ (codes "; " ++ titled fields)))

abbrev pub counters_of : Monitor → List (Bytes × ℕ)
counters_of m =
    (codes "failed_ipc_sends", m.failed_ipc_sends)
    ∷ (codes "ipc_retries", m.ipc_retries)
    ∷ (codes "ipc_retry_wait_lost_time", m.ipc_retry_wait_lost_time)
    ∷ (codes "ipc_records", m.ipc_records)
    ∷ []

summary-titled : (m : Monitor) → summary m ≡ titled (counters_of m)
unfolding summary
summary-titled m = refl

not_ignored :
    (m : Monitor) (times : Times) → IsReporting m → ignored (stop_intercept m times) m ≡ false
unfolding ignored stop_intercept domain_value
not_ignored m times h =
    rw (h.connected, h.no_socket, bit_and-pow_eq_zero 16 m.domain_bit_flags, h.monitored) refl

decide-stop :
    (floats : Floats) (times : Times) (os : Answers) (m : Monitor)
    → IsReporting m
    → decide floats (stop_intercept m times) os m ≡ goes_on m
unfolding decide check_open check_elapsed sample_count sample_time op_value
decide-stop floats times os m h =
    rw (not_ignored m times h) (unfold stop_intercept in rw (h.running, h.no_count, h.no_time) refl)

module _ (floats : Floats) (check_loaded_fns : Monitor → Monitor) where
  -- Let the counters be values of an `int`, and the monitor let records of START_STOP through: no
  -- connection has failed, no socket is held, the domain is monitored, and it is neither paused nor
  -- sampling. Then fini() hands over a record of the domain START_STOP and the operation STOP whose path
  -- is the four counters, each behind its own name.
  pub fini-titled :
      (times : Times) (os : Answers) (m : Monitor)
      → IsCounted (check_loaded_fns m)
      → IsReporting (check_loaded_fns m)
      → (rec : MonitorRecord) × (m' : Monitor) × (fini floats check_loaded_fns times os m
          ≡ some (some rec, m'))
        × (rec.dom_type ≡ domain_value start_stop)
        × (rec.op_type ≡ op_value stop)
        × (c_string rec.s1 ≡ titled (counters_of (check_loaded_fns m)))
  unfolding fini record_intercept conclude
  fini-titled times os m counted reporting =
      let m1 = check_loaded_fns m in
      let i = stop_intercept m1 times in
      let rec = make_record floats i os m1 in
      let e : record_intercept floats i os m1 ≡ some (some rec, send_out os m1) =
        rw (decide-stop floats times os m1 reporting) refl in
      let tells = (record_intercept-Tells floats i os m1 rec (send_out os m1) e).1 in
      (
        rec,
        send_out os m1,
        e,
        (unfold stop_intercept in tells.dom_type),
        (unfold stop_intercept in tells.op_type),
        (tells.path (summary m1) (unfold stop_intercept in refl) (summary-IsCString m1)
            ∙ (take-eq_self 4095 (summary m1) (length-summary m1 counted) ∙ summary-titled m1)),
      )
