-- ===== src/Daemon/Reported.antt =====
-- From an intercepted call to a line on stdout: record() of io_monitor/io_monitor.c, the input_loop of
-- mq_listener/mq_listener.c, and plugins/filter_domains.c and plugins/output_csv.c in its chain.
use io_monitor.Prelude.{
  ℕ, ◌-◌, true, some, List, [], ◌∷◌, ◌++◌, Bytes, take, get_elem?, ◌≡◌, refl, ap, ◌∙◌,
}
use io_monitor.CharArray.{c_string}
use io_monitor.CharArray.Laws.{IsCString}
use io_monitor.Format.{Tables, decimal_int}
use io_monitor.Record.{MonitorRecord, path_max}
use io_monitor.Mask.Meaning.{IsNames}
use io_monitor.Filter.{PluginState}
use io_monitor.Outputs.Csv.{csv_line}
use io_monitor.Outputs.Split.{fields_of, IsPlain, fields_of-csv_line}
use io_monitor.Monitor.Outside.{Floats, Answers}
use io_monitor.Monitor.State.{Monitor, Intercept}
use io_monitor.Monitor.{record_intercept}
use io_monitor.Monitor.Contents.{record_intercept-Tells}
use io_monitor.Chain.{Plugin}
use io_monitor.Chain.Shield.{IsFilter}
use io_monitor.Daemon.{message, track, Daemon, set_hostname, input_loop}
use io_monitor.Daemon.Listed.{is_listed, IsCsv, track-rest, lines_of}
use io_monitor.Daemon.Lines.{Stands, input_loop-lines}

-- The line shows the intercept: the names of its domain and its operation, its error code, its
-- descriptor, and what fits of its path.
pub record Shows (i : Intercept) (n o s1 line : Bytes) : Type 0 where
  pub domain : get_elem? (fields_of line) 5 ≡ some n
  pub operation : get_elem? (fields_of line) 6 ≡ some o
  pub error_code : get_elem? (fields_of line) 7 ≡ some (decimal_int i.error_code)
  pub descriptor : get_elem? (fields_of line) 8 ≡ some (decimal_int i.fd)
  pub path : get_elem? (fields_of line) 10 ≡ some (take (path_max - 1) s1)

csv_line-Shows :
    (tables : Tables) (i : Intercept) (rec : MonitorRecord) (n o s1 : Bytes)
    → IsPlain tables rec n o
    → rec.error_code ≡ i.error_code
    → rec.fd ≡ i.fd
    → c_string rec.s1 ≡ take (path_max - 1) s1
    → Shows i n o s1 (csv_line tables rec n o)
csv_line-Shows tables i rec n o s1 plain code fd path =
    let field =
      λ (k : ℕ). ap (λ fields. get_elem? fields k) (fields_of-csv_line tables rec n o plain) in
    record {
      domain = field 5;
      operation = field 6;
      error_code = field 7 ∙ ap (λ z. some (decimal_int z)) code;
      descriptor = field 8 ∙ ap (λ z. some (decimal_int z)) fd;
      path = field 10 ∙ ap some path;
    }

one_line :
    (tables : Tables) (plugin_config : Bytes) (rec : MonitorRecord) (n o : Bytes)
    → get_elem? tables.domains_names rec.dom_type ≡ some n
    → get_elem? tables.ops_names rec.op_type ≡ some o
    → is_listed plugin_config n ≡ true
    → lines_of tables plugin_config (rec ∷ []) ≡ csv_line tables rec n o ∷ []
one_line tables plugin_config rec n o named does listed = rw (named, does, listed) refl

module _ (floats : Floats) {S : Type 0} (tables : Tables) (plugin_config : Bytes)
    (view : S → PluginState) (stdout : S → List Bytes) (f c : Plugin S)
    (ok : IsNames tables.domains_names) (filter : IsFilter view f)
    (csv : IsCsv tables stdout c) where
  -- An intercept of a path is reported by record(), and its record comes to a listener in whose chain a
  -- running filter and a running csv plugin stand first, each with a state of its own. If the filter was
  -- opened with a list that has "ALL" or the name of the domain, and the texts of the record hold no
  -- comma, one line is printed, and it splits into fields that show the intercept: the names of its
  -- domain and its operation, its error code, its descriptor, and the part of its path that fits.
  pub record_intercept-line :
      (i : Intercept) (os : Answers) (m m' : Monitor) (rec : MonitorRecord) (hostname : Bytes)
      (d : Daemon S) (text : List Bytes) (n o s1 : Bytes)
      → record_intercept floats i os m ≡ some (some rec, m')
      → get_elem? tables.domains_names i.dom_type ≡ some n
      → get_elem? tables.ops_names i.op_type ≡ some o
      → is_listed plugin_config n ≡ true
      → i.s1 ≡ some s1
      → IsCString s1
      → IsPlain tables (track (set_hostname hostname rec) d.resolver).0 n o
      → Stands tables plugin_config view stdout f c d.world.plugins d.world.heap text
      → (line : Bytes) × Shows i n o s1 line
        × (stdout ((input_loop hostname (message rec ∷ []) d).world.heap c.state)
            ≡ text ++ line ∷ [])
  unfolding set_hostname
  record_intercept-line i os m m' rec hostname d text n o s1 sent named does listed path clean plain
        st =
      let told = (record_intercept-Tells floats i os m rec m' sent).1 in
      let named' = ap (get_elem? tables.domains_names) told.dom_type ∙ named in
      let does' = ap (get_elem? tables.ops_names) told.op_type ∙ does in
      let own = set_hostname hostname rec in
      let seen = (track own d.resolver).0 in
      let rest = track-rest own d.resolver in
      let printed =
        input_loop-lines tables plugin_config view stdout f c ok filter csv hostname
          (message rec ∷ []) d text (((n, named'), (o, does')), tt) st in
      let line =
        one_line tables plugin_config seen n o
          (ap (λ r. get_elem? tables.domains_names r.dom_type) rest ∙ named')
          (ap (λ r. get_elem? tables.ops_names r.op_type) rest ∙ does') listed in
      (
        csv_line tables seen n o,
        csv_line-Shows tables i seen n o s1 plain (ap (λ r. r.error_code) rest ∙ told.error_code)
            (ap (λ r. r.fd) rest ∙ told.fd)
            (ap (λ r. c_string r.s1) rest ∙ told.path s1 path clean),
        printed ∙ ap (λ lines. text ++ lines) line,
      )
