-- ===== src/Monitor/Outside.antt =====
-- What io_monitor takes from outside: floating-point arithmetic, the environment, and the answers of the
-- system during one call.
use io_monitor.Prelude.{ℕ, ℤ, Bool, Option, Bytes}

-- `double` as bit patterns. `literal` is the constant of that spelling, `from_int` the conversion of a
-- `long`, and `to_float` the conversion to the `float` of the record.
pub record Floats : Type 0 where
  pub literal : Bytes → ℕ
  pub from_int : ℤ → ℕ
  pub add : ℕ → ℕ → ℕ
  pub mul : ℕ → ℕ → ℕ
  pub div : ℕ → ℕ → ℕ
  pub less : ℕ → ℕ → Bool
  pub atof : Bytes → ℕ
  pub to_float : ℕ → ℕ

-- The variables that getenv reads, by the names of their macros, and `atol`, whose result is
-- converted to an `unsigned long`.
pub record Environment : Type 0 where
  pub start_on_open : Option Bytes
  pub start_on_elapsed : Option Bytes
  pub facility_id : Option Bytes
  pub message_queue_path : Option Bytes
  pub monitor_domains : Option Bytes
  pub count_sample_frequency : Option Bytes
  pub time_sample_frequency : Option Bytes
  pub time_sample_duration : Option Bytes
  pub atol : Bytes → ℕ

-- `msgsnd` by the number of retries before it: its result, and whether errno is EAGAIN then. `no_value`
-- is what a caller finds where an `int` function ends without a value, or a variable was never set.
-- `write_header` and `write_record` are the results of the two writes to the socket, and `record_size`
-- is the size of the record. `mq_key_none` is MQ_KEY_NONE.
pub record Answers : Type 0 where
  pub time : ℕ
  pub getpid : ℤ
  pub ftok : Bytes → ℤ
  pub msgget : ℤ → ℤ
  pub msgsnd : ℕ → ℤ × Bool
  pub socket : ℤ
  pub connect : ℤ
  pub write_header : ℤ
  pub write_record : ℤ
  pub record_size : ℤ
  pub no_value : ℤ
  pub mq_key_none : ℤ
