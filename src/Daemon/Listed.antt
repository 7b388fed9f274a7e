-- ===== src/Daemon/Listed.antt =====
-- What a run of input_loop of mq_listener/mq_listener.c hands to the chain, and the lines that the filter
-- of plugins/filter_domains.c and the plugin of plugins/output_csv.c make of it.
use io_monitor.Prelude.{
  ℤ, Bool, false, ◌||◌, Option, none, some, List, [], ◌∷◌, ◌++◌, Bytes, codes, get_elem?,
  if◌then◌else◌, ◌≡◌, arith,
}
use io_monitor.Record.{MonitorRecord}
use io_monitor.Format.{Tables}
use io_monitor.Tokens.{words}
use io_monitor.Mask.{is_comma}
use io_monitor.Mask.Meaning.{contains}
use io_monitor.Outputs.Csv
use io_monitor.Outputs.Csv.{csv_line}
use io_monitor.Chain.{Plugin}
use io_monitor.Resolver.{Resolver, register_file, resolve_file}
use io_monitor.Daemon.{Received, message, failed, track, set_hostname}

-- The records that the loop hands to the chain, in their order.
abbrev pub handed : Bytes → List Received → Resolver → List MonitorRecord
handed hostname [] r = []
handed hostname (failed ∷ ms) r = handed hostname ms r
handed hostname (message rec ∷ ms) r =
    let (rec', r') = track (set_hostname hostname rec) r in rec' ∷ handed hostname ms r'

-- The domain is one of the list, or the list has "ALL".
abbrev pub is_listed : Bytes → Bytes → Bool
is_listed plugin_config n =
    contains n (words is_comma plugin_config)
    || contains (codes "ALL") (words is_comma plugin_config)

-- The line of a record whose domain is listed.
abbrev pub line_of : Tables → Bytes → MonitorRecord → Option Bytes → Option Bytes → List Bytes
line_of tables plugin_config rec (some n) (some o) =
    if is_listed plugin_config n then csv_line tables rec n o ∷ [] else []
line_of tables plugin_config rec (some n) none = []
line_of tables plugin_config rec none o = []

abbrev pub lines_of : Tables → Bytes → List MonitorRecord → List Bytes
lines_of tables plugin_config [] = []
lines_of tables plugin_config (rec ∷ recs) =
    line_of tables plugin_config rec (get_elem? tables.domains_names rec.dom_type)
      (get_elem? tables.ops_names rec.op_type)
    ++ lines_of tables plugin_config recs

-- The codes of the record are those of a domain and of an operation in the tables.
abbrev pub IsNamed : Tables → MonitorRecord → Type 0
IsNamed tables rec =
    ((n : Bytes) × (get_elem? tables.domains_names rec.dom_type ≡ some n))
    × ((o : Bytes) × (get_elem? tables.ops_names rec.op_type ≡ some o))

abbrev pub AreNamed : Tables → List Received → Type 0
AreNamed tables [] = Unit
AreNamed tables (failed ∷ ms) = AreNamed tables ms
AreNamed tables (message rec ∷ ms) = IsNamed tables rec × AreNamed tables ms

resolve-rest :
    (rec : MonitorRecord) (r : Resolver)
    → resolve_file rec r ≡ record rec { device = (resolve_file rec r).device }
unfolding resolve_file
resolve-rest rec r = ground arith

-- Tracking a record sets no field but its device.
pub track-rest :
    (rec : MonitorRecord) (r : Resolver)
    → (track rec r).0 ≡ record rec { device = (track rec r).0.device }
unfolding track
track-rest rec r = ground (arith, resolve-rest rec r, resolve-rest rec (register_file rec r))

-- A loaded plugin that runs output_csv.c; `stdout` shows the lines that it has printed.
pub record IsCsv {S : Type 0} (tables : Tables) (stdout : S → List Bytes) (p : Plugin S)
    : Type 0 where
  pub answers :
      (rec : MonitorRecord) (s : S) (line : Bytes) (z : ℤ)
      → Csv.process_data tables rec ≡ some (line, z)
      → ((p.pfn_process_data rec s).0 ≡ z)
        × ((p.pfn_process_data rec s).1 ≡ rec)
        × (stdout (p.pfn_process_data rec s).2 ≡ stdout s ++ line ∷ [])
  pub running : p.plugin_paused ≡ false
