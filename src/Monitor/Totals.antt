-- ===== src/Monitor/Totals.antt =====
-- Runs of record() of io_monitor/io_monitor.c over any intercepts.
use io_monitor.Prelude.{◌>>=◌, Option, none, some, List, [], ◌∷◌}
use io_monitor.Record.{MonitorRecord}
use io_monitor.Monitor.Outside.{Floats, Answers}
use io_monitor.Monitor.State.{Monitor, Intercept}
use io_monitor.Monitor.{record_intercept}

abbrev pub with_sent : Option MonitorRecord → List MonitorRecord → List MonitorRecord
with_sent none recs = recs
with_sent (some rec) recs = rec ∷ recs

-- The intercepts one after the other: the records that are handed to the functions that send, and the
-- variables that are left; `none` where one reads through NULL.
unfoldable pub record_all :
    Floats → List (Intercept × Answers) → Monitor → Option (List MonitorRecord × Monitor)
record_all floats [] m = some ([], m)
record_all floats ((i, os) ∷ intercepts) m = do
  first ← record_intercept floats i os m
  rest ← record_all floats intercepts first.1
  some (with_sent first.0 rest.0, rest.1)
