-- ===== src/Daemon/Whole.antt =====
-- A whole run: any intercepts through record() of io_monitor/io_monitor.c, and the records that come into
-- the queue through the input_loop of mq_listener/mq_listener.c, with plugins/filter_domains.c and
-- plugins/output_csv.c in front of its chain.
use io_monitor.Prelude.{
  suc, ◌+◌, ◌++◌, pos, ◌==ℤ◌, Bool, true, false, if◌then◌else◌, Option, none, some, List, [], ◌∷◌,
  Bytes, codes, map, length, length-append, All, get_elem?, ◌≡◌, refl, ap, ◌∙◌, arith,
}
use io_monitor.Format.{Tables}
use io_monitor.Record.{MonitorRecord}
use io_monitor.Tokens.{words}
use io_monitor.Mask.{is_comma}
use io_monitor.Mask.Meaning.{IsNames, contains}
use io_monitor.Filter.{PluginState}
use io_monitor.Monitor.Outside.{Floats, Answers}
use io_monitor.Monitor.State.{Monitor, Intercept}
use io_monitor.Monitor.{record_intercept}
use io_monitor.Monitor.Keeps.{HasPath}
use io_monitor.Monitor.Delivered.{reaches, arrived, deliver_all, record_intercept-arrived}
use io_monitor.Monitor.Contents.{record_intercept-Tells}
use io_monitor.Chain.{Plugin}
use io_monitor.Chain.Shield.{IsFilter}
use io_monitor.Resolver.{Resolver}
use io_monitor.Daemon.{message, track, Daemon, set_hostname, input_loop}
use io_monitor.Daemon.Listed.{is_listed, IsCsv, AreNamed, IsNamed, track-rest, lines_of, handed}
use io_monitor.Daemon.Lines.{Stands, input_loop-lines}

-- The intercept's codes are in the tables, and it has a path if it is an OPEN. What send_msg_queue ends
-- with when it ends without a value is not taken for 0.
abbrev pub IsGood : Tables → Intercept × Answers → Type 0
IsGood tables (i, os) =
    HasPath i
    × ((os.no_value ==ℤ pos 0) ≡ false)
    × ((n : Bytes) × (get_elem? tables.domains_names i.dom_type ≡ some n))
    × ((o : Bytes) × (get_elem? tables.ops_names i.op_type ≡ some o))

one-AreNamed :
    (tables : Tables) (rec : MonitorRecord) (b : Bool) (recs : List MonitorRecord)
    → IsNamed tables rec
    → AreNamed tables (map message recs)
    → AreNamed tables (map message ((if b then rec ∷ [] else []) ++ recs))
one-AreNamed tables rec true recs own named = (own, named)
one-AreNamed tables rec false recs own named = named

arrived-AreNamed :
    (floats : Floats) (tables : Tables) (i : Intercept) (os : Answers) (m m' : Monitor)
    (o : Option MonitorRecord) (recs : List MonitorRecord)
    → IsGood tables (i, os)
    → record_intercept floats i os m ≡ some (o, m')
    → AreNamed tables (map message recs)
    → AreNamed tables (map message (arrived os m o ++ recs))
arrived-AreNamed floats tables i os m m' none recs good e named = named
arrived-AreNamed floats tables i os m m' (some rec) recs (path, set, (n, domain), (op, does)) e
      named =
    let told = (record_intercept-Tells floats i os m rec m' e).1 in
    one-AreNamed tables rec (reaches os m) recs
      (
        (n, ap (get_elem? tables.domains_names) told.dom_type ∙ domain),
        (op, ap (get_elem? tables.ops_names) told.op_type ∙ does),
      )
      named

listed_by_all :
    (plugin_config n : Bytes)
    → contains (codes "ALL") (words is_comma plugin_config) ≡ true
    → is_listed plugin_config n ≡ true
listed_by_all plugin_config n e = ground (arith, e)

length-lines :
    (tables : Tables) (plugin_config hostname : Bytes) (recs : List MonitorRecord) (r : Resolver)
    → contains (codes "ALL") (words is_comma plugin_config) ≡ true
    → AreNamed tables (map message recs)
    → length (lines_of tables plugin_config (handed hostname (map message recs) r)) ≡ length recs
unfolding set_hostname
length-lines tables plugin_config hostname [] r all named = refl
length-lines tables plugin_config hostname (rec ∷ recs) r all (((n, domain), (o, does)), named) =
    let own = set_hostname hostname rec in
    let rest = track-rest own r in
    rw
      (
        ap (λ s. get_elem? tables.domains_names s.dom_type) rest ∙ domain,
        ap (λ s. get_elem? tables.ops_names s.op_type) rest ∙ does,
        listed_by_all plugin_config n all,
      )
      (ap suc (length-lines tables plugin_config hostname recs (track own r).1 all named))

deliver_all-AreNamed :
    (floats : Floats) (tables : Tables) (path : Bytes) (intercepts : List (Intercept × Answers))
    (m : Monitor)
    → All (IsGood tables) intercepts
    → m.message_queue_path ≡ some path
    → (recs : List MonitorRecord) × (m' : Monitor) × (deliver_all floats intercepts m
        ≡ some (recs, m'))
      × (m'.ipc_records ≡ m.ipc_records + length recs)
      × AreNamed tables (map message recs)
unfolding deliver_all
deliver_all-AreNamed floats tables path [] m h queue = ([], m, refl, omega arith, tt)
deliver_all-AreNamed floats tables path ((i, os) ∷ intercepts) m (good, h) queue =
    let (o, m1, e, queue', counted) =
      record_intercept-arrived floats i os path m good.0 good.1 queue in
    let (recs, m2, e', counted', named) =
      deliver_all-AreNamed floats tables path intercepts m1 h queue' in
    (
      arrived os m o ++ recs,
      m2,
      rw (e, deliver_all, e') refl,
      omega (arith, counted, counted', length-append (arrived os m o) recs),
      arrived-AreNamed floats tables i os m m1 o recs good e named,
    )

module _ (floats : Floats) {S : Type 0} (tables : Tables) (plugin_config : Bytes)
    (view : S → PluginState) (stdout : S → List Bytes) (f c : Plugin S)
    (ok : IsNames tables.domains_names) (filter : IsFilter view f)
    (csv : IsCsv tables stdout c) where
  -- Any intercepts with codes of the tables, and with a path where they are OPENs, go through record() of
  -- a monitor that has a queue, and the records that come into the queue come to a listener in whose
  -- chain a running filter and a running csv plugin stand first, each with a state of its own. Let what
  -- send_msg_queue gives after five retries, where it ends without a value, not be 0. If the filter was
  -- opened with a list that has "ALL", the lines that are printed are as many as ipc_records has grown
  -- by: a record that could not be sent prints no line.
  pub deliver_all-printed :
      (intercepts : List (Intercept × Answers)) (m : Monitor) (path hostname : Bytes) (d : Daemon S)
      (text : List Bytes)
      → All (IsGood tables) intercepts
      → m.message_queue_path ≡ some path
      → contains (codes "ALL") (words is_comma plugin_config) ≡ true
      → Stands tables plugin_config view stdout f c d.world.plugins d.world.heap text
      → (recs : List MonitorRecord) × (m' : Monitor) × (deliver_all floats intercepts m
          ≡ some (recs, m'))
        × (length (stdout ((input_loop hostname (map message recs) d).world.heap c.state))
              + m.ipc_records
            ≡ length text + m'.ipc_records)
  deliver_all-printed intercepts m path hostname d text good queue all st =
      let (recs, m', e, counted, named) =
        deliver_all-AreNamed floats tables path intercepts m good queue in
      let printed = ap length (
        input_loop-lines tables plugin_config view stdout f c ok filter csv hostname
          (map message recs) d text named st) in
      let lines = lines_of tables plugin_config (handed hostname (map message recs) d.resolver) in
      (
        recs,
        m',
        e,
        omega (
          arith,
          printed,
          counted,
          length-append text lines,
          length-lines tables plugin_config hostname recs d.resolver all named,
        ),
      )
