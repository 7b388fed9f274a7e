-- ===== src/Monitor/Tests.antt =====
-- Runs of io_monitor/io_monitor.c. The floats of these runs are natural numbers.
use io_monitor.Prelude.{
  ℕ, ◌+◌, ◌*◌, ◌≤◌, ◌<◌, pos, negsuc, pos_part, true, false, none, some, codes, ltb, if◌then◌else◌,
  ◌≡◌, ◌⊎◌, refl, arith,
}
use io_monitor.Mask.Tests.{two_domains}
use io_monitor.Record.{MonitorRecord}
use io_monitor.Monitor.Outside.{Floats, Environment, Answers}
use io_monitor.Monitor.State.{Monitor, Intercept, returns, goes_on}
use io_monitor.Monitor.Send.{try_again, find_queue, send_msg_queue}
use io_monitor.Monitor.Attempts.{IsRetried, send_msg_queue_lem}
use io_monitor.Monitor.Sampling.{
  Continues, Begins, sample_counts, sample_count_lem, sample_time_lem,
}
use io_monitor.Monitor.Contents.{IsWatched, Tells, record_intercept-Tells}
use io_monitor.Monitor.{make_record, send_out, record_intercept, sample_time}

abbrev pub whole : Floats
whole = record {
  literal = λ text. 1;
  from_int = pos_part;
  add = λ a b. a + b;
  mul = λ a b. a * b;
  div = λ a b. a;
  less = ltb;
  atof = λ text. 5;
  to_float = λ a. a;
}

-- The queue asks for two retries.
abbrev pub busy_queue : Answers
busy_queue = record {
  time = 100;
  getpid = pos 7;
  ftok = λ path. pos 9;
  msgget = λ key. pos 3;
  msgsnd = λ retries. if ltb retries 2 then (negsuc 0, true) else (pos 0, false);
  socket = negsuc 0;
  connect = negsuc 0;
  write_header = negsuc 0;
  write_record = negsuc 0;
  record_size = pos 4740;
  no_value = negsuc 0;
  mq_key_none = negsuc 0;
}

abbrev pub listed : Environment
listed = record {
  start_on_open = none;
  start_on_elapsed = none;
  facility_id = none;
  message_queue_path = some (codes "/tmp/q");
  monitor_domains = some two_domains;
  count_sample_frequency = none;
  time_sample_frequency = none;
  time_sample_duration = none;
  atol = λ text. 0;
}

abbrev pub watching : Monitor
watching = record {
  failed_socket_connections = 0;
  failed_ipc_sends = 0;
  ipc_retries = 0;
  ipc_retry_wait_lost_time = 0;
  ipc_records = 0;
  message_queue_key = negsuc 0;
  message_queue_id = negsuc 0;
  message_queue_path = some (codes "/tmp/q");
  domain_bit_flags = 4096;
  facility = codes "u";
  start_on_open = none;
  socket_fd = negsuc 0;
  paused = false;
  have_elapsed_threshold = false;
  elapsed_threshold = 0;
  count_based_sampling = false;
  count_based_sample_frequency = pos 10;
  count_intercepts_since_last_report = 0;
  time_based_sampling = false;
  within_time_based_sample = false;
  start_time_based_sample = 0;
  time_based_sample_duration = 2;
  time_based_sample_frequency = 10;
  orig_open = true;
}

abbrev pub read_call : Intercept
read_call = record {
  dom_type = 12;
  op_type = 3;
  fd = pos 4;
  s1 = some (codes "x");
  s2 = none;
  start_time = (pos 1, pos 0);
  end_time = (pos 1, pos 30);
  error_code = pos 0;
  bytes_transferred = pos 10;
}

queue_example :
    (k : ℕ) × IsRetried busy_queue 0 k watching (send_msg_queue busy_queue watching).1
    × (((k ≡ 5) × ((send_msg_queue busy_queue watching).0 ≡ busy_queue.no_value))
        ⊎ ((k < 5)
            × (try_again busy_queue k ≡ false)
            × ((send_msg_queue busy_queue watching).0 ≡ (busy_queue.msgsnd k).0)))
unfolding find_queue
queue_example = send_msg_queue_lem busy_queue watching refl

abbrev counting : Monitor
counting = record watching { count_based_sampling = true; count_based_sample_frequency = pos 3 }

count_example :
    let (k, m') = sample_counts 7 counting in
    (k * 3 + m'.count_intercepts_since_last_report ≡ 0 + 7)
    × (m'.count_intercepts_since_last_report ≤ 2)
count_example = sample_count_lem 7 2 counting refl refl (omega arith)

abbrev timing : Monitor
timing = record watching {
  time_based_sampling = true;
  within_time_based_sample = true;
  start_time_based_sample = 90;
}

time_example :
    ((m' : Monitor) × (sample_time 100 timing ≡ goes_on m')
      × (m'.within_time_based_sample ≡ true)
      × (m'.start_time_based_sample ≤ 100)
      × (100 < m'.start_time_based_sample + m'.time_based_sample_duration)
      × (Continues timing m' ⊎ Begins 100 timing m'))
    ⊎ ((m' : Monitor) × (sample_time 100 timing ≡ returns m')
        × (m'.within_time_based_sample ≡ false)
        × (m'.start_time_based_sample ≡ timing.start_time_based_sample)
        × (if timing.within_time_based_sample
            then timing.start_time_based_sample + timing.time_based_sample_duration ≤ 100
            else 100 < timing.start_time_based_sample + timing.time_based_sample_frequency))
time_example =
    sample_time_lem 100 timing refl (omega arith) (omega arith) (omega arith) (omega arith)

abbrev read_made : MonitorRecord
read_made = make_record whole read_call busy_queue watching

tells_example : IsWatched read_call watching × Tells read_call read_made
unfolding record_intercept
tells_example =
    record_intercept-Tells whole read_call busy_queue watching read_made
      (send_out busy_queue watching) refl
