-- ===== src/Record.antt =====
-- include/monitor_record.h: the record that io_monitor sends and mq_listener hands to its plugins.
-- A float is its bit pattern: the program moves it, and computes with it only through
-- `Floats` (Monitor/Outside.antt).
use io_monitor.Prelude.{ℕ, ℤ, negsuc, Bytes}

abbrev pub str_len : ℕ
str_len = 256

abbrev pub hostname_len : ℕ
hostname_len = 64

abbrev pub device_len : ℕ
device_len = 10

-- PATH_MAX of <linux/limits.h>
abbrev pub path_max : ℕ
path_max = 4096

abbrev pub fd_none : ℤ
fd_none = negsuc 0

-- The first three fields, s1 and s2 are arrays. `dom_type` and `op_type` hold enumerators.
pub record MonitorRecord : Type 0 where
  pub facility : Bytes
  pub hostname : Bytes
  pub device : Bytes
  pub timestamp : ℤ
  pub elapsed_time : ℕ
  pub pid : ℤ
  pub dom_type : ℕ
  pub op_type : ℕ
  pub error_code : ℤ
  pub fd : ℤ
  pub bytes_transferred : ℕ
  pub s1 : Bytes
  pub s2 : Bytes
