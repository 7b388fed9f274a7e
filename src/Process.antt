-- ===== src/Process.antt =====
-- init and fini of io_monitor/io_monitor.c: what is reported when a process starts and when it ends.
pub mod CommandLine
pub mod Summary
pub mod Ending
mod Tests
use io_monitor.Prelude.{
  ℕ, zero, suc, ◌-◌, ℤ, pos, Option, none, some, List, [], ◌∷◌, ◌++◌, Bytes, codes, length, take,
  drop, ◌==◌, ◌>>=◌, if◌then◌else◌,
}
use io_monitor.CharArray.{c_string}
use io_monitor.Domain.{domain_value, start_stop, dirs}
use io_monitor.Format.{decimal, decimal_int}
use io_monitor.Op.{op_value, start, chdir, stop}
use io_monitor.Record.{MonitorRecord, path_max, fd_none}
use io_monitor.Monitor.{record_intercept}
use io_monitor.Monitor.Outside.{Floats, Answers}
use io_monitor.Monitor.State.{Monitor, Intercept}

-- `if (!cmdline[i]) cmdline[i] = ' '`
unfoldable pub blank_at : ℕ → Bytes → Bytes
blank_at i [] = []
blank_at zero (c ∷ cmdline) = (if c == 0 then b' ' else c) ∷ cmdline
blank_at (suc i) (c ∷ cmdline) = c ∷ blank_at i cmdline

-- The `while (--len)`: from an index down to 1.
unfoldable pub blank_down : ℕ → Bytes → Bytes
unfolding blank_at
blank_down zero cmdline = cmdline
blank_down (suc i) cmdline = blank_down i (blank_at (suc i) cmdline)

-- `sprintf(cmdline, text)` over what the array holds.
unfoldable pub overwrite : Bytes → Bytes → Bytes
overwrite text cmdline = text ++ (0 ∷ drop (suc (length text)) cmdline)

-- The array behind a read that got these bytes, up to where it is reported; `none` where the index runs
-- below 0, for a read of one byte.
unfoldable pub after_read : Bytes → Bytes → Option Bytes
unfolding blank_down overwrite
after_read cmdline got =
    if length got == 0
    then some (overwrite (codes "could not determine path") cmdline)
    else if length got == 1
    then none
    else some (blank_down (length got - 2) (got ++ drop (length got) cmdline))

-- The arguments are what the array holds before the read, and what can be read of /proc/<pid>/cmdline,
-- `none` where the read fails: the index then starts below 0.
unfoldable pub command_line : Bytes → Option Bytes → Option Bytes
unfolding after_read
command_line cmdline none = none
command_line cmdline (some contents) = after_read cmdline (take path_max contents)

-- The times that a call is reported with.
pub record Times : Type 0 where
  pub before : ℤ × ℤ
  pub after : ℤ × ℤ

unfoldable pub start_intercept : Bytes → ℤ → Times → Intercept
unfolding c_string decimal_int
start_intercept cmdline getppid times = record {
  dom_type = domain_value start_stop;
  op_type = op_value start;
  fd = pos 0;
  s1 = some (c_string cmdline);
  s2 = some (codes "PPID:" ++ decimal_int getppid);
  start_time = times.before;
  end_time = times.after;
  error_code = pos 0;
  bytes_transferred = pos 0;
}

unfoldable pub chdir_intercept : Option Bytes → Times → Intercept
chdir_intercept current_dir times = record {
  dom_type = domain_value dirs;
  op_type = op_value chdir;
  fd = fd_none;
  s1 = current_dir;
  s2 = none;
  start_time = times.before;
  end_time = times.after;
  error_code = pos 0;
  bytes_transferred = pos 0;
}

-- The four `smprintf`.
unfoldable pub summary : Monitor → Bytes
unfolding decimal
summary m =
    codes "failed_ipc_sends = "
    ++ (decimal m.failed_ipc_sends
        ++ (codes "; ipc_retries = "
            ++ (decimal m.ipc_retries
                ++ (codes "; ipc_retry_wait_lost_time = "
                    ++ (decimal m.ipc_retry_wait_lost_time
                        ++ (codes "; ipc_records = " ++ (decimal m.ipc_records ++ codes "; ")))))))

unfoldable pub stop_intercept : Monitor → Times → Intercept
unfolding summary
stop_intercept m times = record {
  dom_type = domain_value start_stop;
  op_type = op_value stop;
  fd = pos 0;
  s1 = some (summary m);
  s2 = none;
  start_time = times.before;
  end_time = times.after;
  error_code = pos 0;
  bytes_transferred = pos 0;
}

-- What a call of record() hands over, and the variables that it leaves.
abbrev pub Reported : Type 0
Reported = Option MonitorRecord × Monitor

-- `check_loaded_fns` is the macro of that name, which the build generates.
module _ (floats : Floats) (check_loaded_fns : Monitor → Monitor) where
  -- init(): the two calls of record(), in their order.
  unfoldable pub init :
      Bytes
      → Option Bytes
      → ℤ
      → Option Bytes
      → Times
      → Answers × Answers
      → Monitor
      → Option (Reported × Reported)
  unfolding command_line start_intercept chdir_intercept record_intercept
  init cmdline contents getppid current_dir times os m = do
    text ← command_line cmdline contents
    first ← record_intercept floats (start_intercept text getppid times) os.0 (check_loaded_fns m)
    second ← record_intercept floats (chdir_intercept current_dir times) os.1 first.1
    some (first, second)

  unfoldable pub fini : Times → Answers → Monitor → Option Reported
  unfolding stop_intercept record_intercept
  fini times os m =
      let m' = check_loaded_fns m in record_intercept floats (stop_intercept m' times) os m'
