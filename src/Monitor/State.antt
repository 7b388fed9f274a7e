-- ===== src/Monitor/State.antt =====
-- The static variables of io_monitor/io_monitor.c, what a call of record() is given, and how a part of
-- it ends.
use io_monitor.Prelude.{ℕ, ℤ, pos, negsuc, Bool, false, Option, none, Bytes, codes}
use io_monitor.CharArray.{zeros}
use io_monitor.Monitor.Outside.{Floats}

-- The counters are numbers: an `int` overflows where they leave its range. A sampling frequency is an
-- `int`, and a time an `unsigned long` below 2 ^ 64. `orig_open` says whether the handlers were assigned.
pub record Monitor : Type 0 where
  pub failed_socket_connections : ℕ
  pub failed_ipc_sends : ℕ
  pub ipc_retries : ℕ
  pub ipc_retry_wait_lost_time : ℕ
  pub ipc_records : ℕ
  pub message_queue_key : ℤ
  pub message_queue_id : ℤ
  pub message_queue_path : Option Bytes
  pub domain_bit_flags : ℕ
  pub facility : Bytes
  pub start_on_open : Option Bytes
  pub socket_fd : ℤ
  pub paused : Bool
  pub have_elapsed_threshold : Bool
  pub elapsed_threshold : ℕ
  pub count_based_sampling : Bool
  pub count_based_sample_frequency : ℤ
  pub count_intercepts_since_last_report : ℕ
  pub time_based_sampling : Bool
  pub within_time_based_sample : Bool
  pub start_time_based_sample : ℕ
  pub time_based_sample_duration : ℕ
  pub time_based_sample_frequency : ℕ
  pub orig_open : Bool

-- The values that the variables are defined with.
unfoldable pub initial : Floats → Monitor
unfolding zeros
initial floats = record {
  failed_socket_connections = 0;
  failed_ipc_sends = 0;
  ipc_retries = 0;
  ipc_retry_wait_lost_time = 0;
  ipc_records = 0;
  message_queue_key = negsuc 0;
  message_queue_id = negsuc 0;
  message_queue_path = none;
  domain_bit_flags = 0;
  facility = zeros 5;
  start_on_open = none;
  socket_fd = negsuc 0;
  paused = false;
  have_elapsed_threshold = false;
  elapsed_threshold = floats.literal (codes "0.0");
  count_based_sampling = false;
  count_based_sample_frequency = pos 10;
  count_intercepts_since_last_report = 0;
  time_based_sampling = false;
  within_time_based_sample = false;
  start_time_based_sample = 0;
  time_based_sample_duration = 2;
  time_based_sample_frequency = 10;
  orig_open = false;
}

-- The parameters of record(). A `struct timeval` is its seconds and its microseconds. `dom_type` and
-- `op_type` hold the values of enumerators.
pub record Intercept : Type 0 where
  pub dom_type : ℕ
  pub op_type : ℕ
  pub fd : ℤ
  pub s1 : Option Bytes
  pub s2 : Option Bytes
  pub start_time : ℤ × ℤ
  pub end_time : ℤ × ℤ
  pub error_code : ℤ
  pub bytes_transferred : ℤ

-- A part of record() returns from it, goes on, or reads through NULL.
pub data Step : Type 0 where
  returns : Monitor → Step
  goes_on : Monitor → Step
  undefined : Step

infixl 5 ◌>>=◌
abbrev pub ◌>>=◌ : Step → (Monitor → Step) → Step
returns m >>= f = returns m
goes_on m >>= f = f m
undefined >>= f = undefined
