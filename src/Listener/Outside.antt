-- ===== src/Listener/Outside.antt =====
-- What mq_listener takes from outside: the plugin libraries (dlopen, dlsym), the message queue (ftok,
-- msgget) and the config files. An answer is a function of the call, as on a machine at rest.
use io_monitor.Prelude.{ℕ, ℤ, Bool, false, Option, some, List, Bytes, ◌>>=◌}
use io_monitor.Record.{MonitorRecord}
use io_monitor.Chain.{Plugin}

-- The entry points that dlsym finds in a plugin library. `open_plugin` returns its code and the state
-- it left, or reads through NULL, as that of filter_domains.c does without options: that is `none`. That it starts threads or calls the listener back is not modelled.
pub record Module (S : Type 0) : Type 0 where
  pub open_plugin : Option (Option Bytes → Option (ℤ × S))
  pub close_plugin : Option (S → S)
  pub ok_to_accept_data : Option (S → ℤ × S)
  pub process_data : Option (MonitorRecord → S → ℤ × MonitorRecord × S)
  pub plugin_command : Option (Bytes → List Bytes → S → ℤ × S)

-- `fopen` with what fgets then reads, piece by piece; `msgget` with the flags of c_mq_path;
-- `left_behind` says of a plugin that was unloaded whether its code and its state are still there: dlclose
-- counts references, so that another plugin of the chain may hold the library, and a close_plugin may free
-- nothing. `no_return` is what a caller finds where an `int` function has ended without a return statement.
pub record System (S : Type 0) : Type 0 where
  pub dlopen : Bytes → Option (Module S)
  pub ftok : Bytes → ℤ → ℤ
  pub msgget : ℤ → ℤ
  pub fopen : Bytes → Option (List Bytes)
  pub no_return : ℤ
  pub left_behind : ℕ → List (Plugin S) → Bool

-- load_plugin asks for the first four entry points, and fails without one of them.
unfoldable pub make_plugin :
    {S : Type 0} → Bytes → Option Bytes → Option Bytes → Module S → ℕ → Option (Plugin S)
make_plugin library options alias m address = do
  open_entry ← m.open_plugin
  close_entry ← m.close_plugin
  accept_entry ← m.ok_to_accept_data
  process_entry ← m.process_data
  some (record {
    plugin_library = library;
    plugin_options = options;
    plugin_alias = alias;
    pfn_close_plugin = close_entry;
    pfn_ok_to_accept_data = accept_entry;
    pfn_process_data = process_entry;
    pfn_plugin_command = m.plugin_command;
    plugin_paused = false;
    state = address;
  })
