-- ===== src/Monitor.antt =====
-- record() of io_monitor/io_monitor.c, which every intercepted call ends with: what it ignores, when it
-- is paused, the two samplings, and the record that it sends.
pub mod Outside
pub mod State
pub mod Send
pub mod Setup
pub mod Keeps
pub mod Attempts
pub mod Sampling
pub mod Reports
pub mod Contents
pub mod Paused
pub mod Start
pub mod Runs
pub mod Totals
pub mod Delivered
pub mod Never
pub mod Sound
pub mod Tests
pub mod RunTests
use Prim.Native.Nat.{bit_and}
use io_monitor.Prelude.{
  ℕ, zero, suc, ◌+◌, ◌-◌, ◌%◌, ◌^◌, ℤ, pos, negsuc, ◌-ℤ◌, Bool, true, false, not, ◌&&◌, ◌||◌,
  Option, none, some, Bytes, codes, str_eq, has_substring, ltb, leb, ltb_ℤ, ◌==◌, ◌==ℤ◌,
  if◌then◌else◌,
}
use io_monitor.CharArray.{c_string, zeros, strncpy, terminate}
use io_monitor.Domain.{domain_value, start_stop}
use io_monitor.Op.{op_value, open_op}
use io_monitor.Record.{MonitorRecord, str_len, hostname_len, device_len, path_max, fd_none}
use Outside.{Floats, Answers}
use State.{Monitor, Intercept, Step, returns, goes_on, undefined, ◌>>=◌}
use Send.{send_msg_queue, send_tcp_socket}

-- The `if`s at the start that only return: no connection before, the own socket, the standard streams,
-- and a domain that is not monitored.
unfoldable pub ignored : Intercept → Monitor → Bool
unfolding domain_value
ignored i m =
    ltb 0 m.failed_socket_connections
    || (not (m.socket_fd ==ℤ fd_none) && i.fd ==ℤ m.socket_fd)
    || (ltb_ℤ (negsuc 0) i.fd && ltb_ℤ i.fd (pos 3) && not (i.dom_type == domain_value start_stop))
    || 0 == bit_and m.domain_bit_flags (2 ^ i.dom_type)

-- `start_on_open != NULL && strstr(s1, start_on_open) != NULL`
unfoldable pub opens_start : Bytes → Option Bytes → Bool
unfolding has_substring
opens_start s1 none = false
opens_start s1 (some name) = has_substring s1 name

unfoldable pub check_path : Option Bytes → Monitor → Step
unfolding opens_start
check_path none m = undefined
check_path (some s1) m =
    if str_eq s1 (codes ".") || str_eq s1 (codes "..")
    then returns m
    else if m.paused && opens_start s1 m.start_on_open
    then goes_on (record m { paused = false })
    else goes_on m

unfoldable pub check_open : Intercept → Monitor → Step
unfolding check_path op_value
check_open i m = if i.op_type == op_value open_op then check_path i.s1 m else goes_on m

-- The `if (count_based_sampling)`.
unfoldable pub sample_count : Monitor → Step
sample_count m =
    let count = m.count_intercepts_since_last_report + 1 in
    if m.count_based_sampling
    then (if ltb_ℤ (pos count) m.count_based_sample_frequency
        then returns (record m { count_intercepts_since_last_report = count })
        else goes_on (record m { count_intercepts_since_last_report = 0 }))
    else goes_on m

-- The branch of the time-based sampling in which a sample has been started before.
unfoldable pub turn : ℕ → Monitor → Monitor
turn timestamp m =
    if m.within_time_based_sample
    then (if leb ((m.start_time_based_sample + m.time_based_sample_duration) % 2 ^ 64) timestamp
        then record m { within_time_based_sample = false }
        else m)
    else if leb ((m.start_time_based_sample + m.time_based_sample_frequency) % 2 ^ 64) timestamp
    then record m { within_time_based_sample = true; start_time_based_sample = timestamp }
    else m

-- The `if (time_based_sampling)`.
unfoldable pub sample_time : ℕ → Monitor → Step
unfolding turn
sample_time timestamp m =
    if m.time_based_sampling
    then (if 0 == m.start_time_based_sample
        then goes_on
            (record m { start_time_based_sample = timestamp; within_time_based_sample = true })
        else if (turn timestamp m).within_time_based_sample
        then goes_on (turn timestamp m)
        else returns (turn timestamp m))
    else goes_on m

-- RECORD_FIELD_S into an array of zeros.
unfoldable pub record_field_s : ℕ → Option Bytes → Bytes
unfolding zeros strncpy terminate
record_field_s size none = zeros size
record_field_s size (some f) = terminate (strncpy size f)

-- An `unsigned long` stored into an `int`.
unfoldable pub to_int : ℕ → ℤ
to_int n = let r = n % 2 ^ 32 in if ltb r (2 ^ 31) then pos r else pos r -ℤ pos (2 ^ 32)

-- A `ssize_t` stored into a `size_t`.
unfoldable pub to_size : ℤ → ℕ
to_size (pos n) = n
to_size (negsuc n) = 2 ^ 64 - 1 - n

unfoldable pub count_sent : ℤ × Monitor → Monitor
count_sent (rc_ipc, m) =
    if rc_ipc ==ℤ pos 0
    then record m { ipc_records = m.ipc_records + 1 }
    else record m { failed_ipc_sends = m.failed_ipc_sends + 1 }

unfoldable pub send_out : Answers → Monitor → Monitor
unfolding count_sent send_msg_queue send_tcp_socket
send_out os m = elim m.message_queue_path [
  | none ↦ count_sent (send_tcp_socket os m)
  | some path ↦ count_sent (send_msg_queue os m)
]

module _ (floats : Floats) where
  -- In milliseconds.
  unfoldable pub elapsed_of : Intercept → ℕ
  elapsed_of i =
      floats.add
        (floats.mul (floats.from_int (i.end_time.0 -ℤ i.start_time.0))
          (floats.literal (codes "1000.0")))
        (floats.div (floats.from_int (i.end_time.1 -ℤ i.start_time.1))
          (floats.literal (codes "1000.0")))

  unfoldable pub check_elapsed : Intercept → Monitor → Step
  unfolding elapsed_of
  check_elapsed i m =
      if m.paused
      then (if m.have_elapsed_threshold && floats.less m.elapsed_threshold (elapsed_of i)
          then goes_on (record m { paused = false })
          else returns m)
      else goes_on m

  unfoldable pub make_record : Intercept → Answers → Monitor → MonitorRecord
  unfolding record_field_s to_int to_size elapsed_of c_string zeros
  make_record i os m = record {
    facility = record_field_s str_len (some (c_string m.facility));
    hostname = zeros hostname_len;
    device = zeros device_len;
    timestamp = to_int os.time;
    elapsed_time = floats.to_float (elapsed_of i);
    pid = os.getpid;
    dom_type = i.dom_type;
    op_type = i.op_type;
    error_code = i.error_code;
    fd = i.fd;
    bytes_transferred = to_size i.bytes_transferred;
    s1 = record_field_s path_max i.s1;
    s2 = record_field_s str_len i.s2;
  }

  -- All of record() before the record is made.
  unfoldable pub decide : Intercept → Answers → Monitor → Step
  unfolding ignored check_open check_elapsed sample_count sample_time
  decide i os m =
      if ignored i m
      then returns m
      else (check_open i m >>= check_elapsed i >>= sample_count >>= sample_time os.time)

  -- What a part leaves: nothing is sent, or the record is.
  unfoldable pub conclude : Intercept → Answers → Step → Option (Option MonitorRecord × Monitor)
  unfolding make_record send_out
  conclude i os undefined = none
  conclude i os (returns m) = some (none, m)
  conclude i os (goes_on m) = some (some (make_record i os m), send_out os m)

  -- record(): the record that it hands to one of the two functions that send, if it does, and the
  -- variables it leaves; `none` where it reads through NULL.
  unfoldable pub record_intercept :
      Intercept → Answers → Monitor → Option (Option MonitorRecord × Monitor)
  unfolding decide conclude
  record_intercept i os m = conclude i os (decide i os m)
