-- ===== src/Daemon/Reach.antt =====
-- What holds of mq_listener after its start, in whatever order messages come in and lines are typed into
-- plugins/input_cli.c.
use io_monitor.Prelude.{ℕ, negsuc, false, none, List, [], Bytes, ◌≡◌}
use io_monitor.Outcome.{done}
use io_monitor.Commands.{parse_command}
use io_monitor.Chain.{Heap}
use io_monitor.Listener.Outside.{System}
use io_monitor.Listener.State.{World}
use io_monitor.Listener.{calls}
use io_monitor.Resolver.{Resolver}
use io_monitor.Daemon.{Received, start, Daemon, handle}

module _ {S : Type 0} where
  -- The globals before main: no plugin and no command.
  abbrev pub before_main : Heap S → World S
  before_main heap = record {
    s_commands = [];
    plugins = [];
    heap = heap;
    fresh = 0;
    message_queue_key = negsuc 0;
    message_queue_id = negsuc 0;
    show_runtime_commands = false;
  }

  -- The states from the point on where main calls input_loop, which handles messages; the lines that are
  -- typed run in between.
  pub data Reach (sys : System S) (depth : ℕ) (hostname : Bytes) (argv : List Bytes) (heap : Heap S)
      : Daemon S → Type 0 where
    started :
        (r : Resolver) (w : World S)
        → start sys depth argv (before_main heap) ≡ done none w
        → Reach sys depth hostname argv heap (record { world = w; resolver = r })
    by_message :
        (d : Daemon S) (m : Received)
        → Reach sys depth hostname argv heap d
        → Reach sys depth hostname argv heap (handle hostname m d)
    by_line :
        (d : Daemon S) (line : Bytes) (u : Unit {0}) (w : World S)
        → Reach sys depth hostname argv heap d
        → parse_command (calls sys depth) line d.world ≡ done u w
        → Reach sys depth hostname argv heap (record d { world = w })
