-- ===== src/Listener/Nesting.antt =====
-- Config files that name config files, in mq_listener/mq_listener.c: how deep `call` has to follow them.
use io_monitor.Outcome.{Outcome}
