-- ===== src/Daemon.antt =====
-- main and input_loop of mq_listener/mq_listener.c: the start of the listener, and the loop that takes
-- the messages, finds their devices, and hands them to the chain of plugins.
pub mod Devices
pub mod Listed
pub mod Lines
pub mod Reported
pub mod Reach
pub mod Whole
pub mod Tests
mod FileTests
mod LineTests
use io_monitor.Prelude.{
  ℕ, ℤ, pos, negsuc, Bool, true, false, ◌||◌, Option, none, some, List, [], ◌∷◌, Bytes, codes, ◌==◌,
  ◌==ℤ◌, if◌then◌else◌,
}
use io_monitor.Outcome.{Outcome, done, exited, fault, ◌>>=◌}
use io_monitor.CharArray.{strncpy}
use io_monitor.Domain.{Domain, domain_value}
use io_monitor.Op.{op_value, open_op, close}
use io_monitor.Record.{MonitorRecord, hostname_len}
use io_monitor.Chain.{execute_plugin_chain}
use io_monitor.Commands.{Command, set_commands_array, parse_args}
use io_monitor.Listener.Outside.{System}
use io_monitor.Listener.State.{World, Handler, Builtin, builtin}
use io_monitor.Listener.{calls}
use io_monitor.Resolver.{
  Resolver, register_file, deregister_file, resolve_file, capture_device_info,
}

-- What msgrcv gives: a message, or no byte of one.
pub data Received : Type 0 where
  message : MonitorRecord → Received
  failed : Received

abbrev pub is_open_close : ℕ → Bool
is_open_close dom_type = dom_type == domain_value Domain.file_open_close

-- The domains whose records have a descriptor to resolve.
unfoldable pub has_descriptor : ℕ → Bool
unfolding domain_value
has_descriptor dom_type =
    dom_type == domain_value Domain.file_read
    || dom_type == domain_value Domain.file_write
    || dom_type == domain_value Domain.file_metadata
    || dom_type == domain_value Domain.file_space
    || dom_type == domain_value Domain.syncs

-- "track paths, descriptors, devices"
unfoldable pub track : MonitorRecord → Resolver → MonitorRecord × Resolver
unfolding register_file deregister_file resolve_file has_descriptor op_value
track rec r =
    if is_open_close rec.dom_type
    then (if rec.op_type == op_value open_op
        then (resolve_file rec (register_file rec r), register_file rec r)
        else if rec.op_type == op_value close
        then (resolve_file rec r, deregister_file rec r)
        else (rec, r))
    else if has_descriptor rec.dom_type
    then (resolve_file rec r, r)
    else (rec, r)

pub record Daemon (S : Type 0) : Type 0 where
  pub world : World S
  pub resolver : Resolver

-- `strncpy(..., hostname, HOSTNAME_LEN)`
unfoldable pub set_hostname : Bytes → MonitorRecord → MonitorRecord
unfolding strncpy
set_hostname hostname rec = record rec { hostname = strncpy hostname_len hostname }

module _ {S : Type 0} (hostname : Bytes) where
  -- One round of the `while`.
  unfoldable pub handle : Received → Daemon S → Daemon S
  unfolding set_hostname track execute_plugin_chain
  handle failed d = d
  handle (message rec) d =
      let (rec', r) = track (set_hostname hostname rec) d.resolver in
      let run = execute_plugin_chain d.world.plugins rec' d.world.heap in
      record { world = record d.world { plugins = run.plugins; heap = run.heap }; resolver = r }

  -- The rounds of a run so far; the loop has no end.
  unfoldable pub input_loop : List Received → Daemon S → Daemon S
  unfolding handle
  input_loop [] d = d
  input_loop (m ∷ ms) d = input_loop ms (handle m d)

module _ {S : Type 0} where
  abbrev entry : Bytes → Bytes → Builtin → Bool → Command (Handler S)
  entry name short_name b interactive_only = record {
    name = name;
    short_name = short_name;
    params_desc = [];
    help = [];
    command_function = some (builtin b);
    interactive_only = interactive_only;
  }

  -- The array `commands`, without the two texts that c_help prints.
  abbrev pub commands : List (Command (Handler S))
  commands =
      entry (codes "load-plugin") (codes "p") Builtin.load_plugin false
      ∷ entry (codes "unload-plugin") (codes "u") Builtin.unload_plugin true
      ∷ entry (codes "reorder-plugins") (codes "r") Builtin.reorder_plugins true
      ∷ entry (codes "list-plugins") (codes "l") Builtin.list_plugins true
      ∷ entry (codes "quit") (codes "q") Builtin.quit true
      ∷ entry (codes "mq-path") (codes "m") Builtin.mq_path false
      ∷ entry (codes "config") (codes "c") Builtin.config false
      ∷ entry (codes "help") (codes "h") Builtin.help false
      ∷ record {
        name = [];
        short_name = [];
        params_desc = [];
        help = [];
        command_function = none;
        interactive_only = false;
      }
      ∷ []

  -- main up to input_loop: `some rc` where it returns before.
  unfoldable pub check_queue : ℤ → World S → Outcome (World S) (Option ℤ)
  check_queue rc w =
      if rc ==ℤ pos 0
      then (if w.message_queue_id ==ℤ negsuc 0
          then done (some (pos 1)) w
          else done none (record w { show_runtime_commands = true }))
      else done (some rc) w

  unfoldable pub start : System S → ℕ → List Bytes → World S → Outcome (World S) (Option ℤ)
  unfolding check_queue set_commands_array parse_args
  start sys depth argv w = elim (set_commands_array commands w.s_commands) [
    | none ↦ fault
    | some s_commands ↦
        parse_args (calls sys depth) argv (record w { s_commands = s_commands }) >>= check_queue
  ]
