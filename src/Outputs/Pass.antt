-- ===== src/Outputs/Pass.antt =====
-- The output plugins in a chain: they leave the records alone.
use io_monitor.Prelude.{
  ℕ, ℤ, Bool, true, false, Option, none, some, List, [], ◌∷◌, ◌++◌, Bytes, All, ◌==ℤ◌, ◌>>=◌, subst,
  if◌then◌else◌, ◌≡◌, refl, ap, ◌∙◌, arith,
}
use io_monitor.Plugin.{plugin_accept_data, plugin_refuse_data, plugin_drop_data}
use io_monitor.Record.{MonitorRecord}
use mathlib.Core.Option.{some-injective}
use io_monitor.Format.{Tables}
use io_monitor.Influx
use io_monitor.Influx.{Curl}
use io_monitor.Outputs.Csv
use io_monitor.Outputs.Table
use io_monitor.Outputs.Cli
use io_monitor.Chain.{Heap, Plugin, visit, execute_plugin_chain}
use io_monitor.Chain.Execute.{stops, execute-append, takes, ready_state, visit_lem}

-- The answer is one of an output plugin's to the record: of output_csv.c, sample_plugin.c, output_table.c,
-- output_influxdb.c or input_cli.c.
pub data IsAnswer (tables : Tables) (rec : MonitorRecord) : ℤ → Type 0 where
  of_csv :
      {z : ℤ} (line : Bytes) → Csv.process_data tables rec ≡ some (line, z) → IsAnswer tables rec z
  of_sample :
      {z : ℤ} (line : Bytes)
      → Csv.sample_process_data tables rec ≡ some (line, z)
      → IsAnswer tables rec z
  of_table :
      {z : ℤ} (ln ln' : ℕ) (lines : List Bytes)
      → Table.process_data tables rec ln ≡ some (lines, z, ln')
      → IsAnswer tables rec z
  of_influx :
      {z : ℤ} (last1 last2 : ℕ) (curl : Curl) (text : Option Bytes)
      → Influx.process_data last1 last2 tables curl rec ≡ some (text, z)
      → IsAnswer tables rec z
  of_cli : IsAnswer tables rec Cli.process_data

named_result {ℓ} :
    {R : Type ℓ} (domain op : Option Bytes) (f : Bytes → Bytes → R) {r : R}
    → (domain >>= λ d. op >>= λ o. some (f d o)) ≡ some r
    → (d o : Bytes) × (f d o ≡ r)
named_result none op f e = cc
named_result (some d) none f e = cc
named_result (some d) (some o) f e = (d, o, some-injective _ _ e)

accepts_is_no_drop : (z : ℤ) → plugin_accept_data ≡ z → (z ==ℤ plugin_drop_data) ≡ false
accepts_is_no_drop z e = rw (← e) refl

either_answer :
    (b : Bool)
    → ((if b then plugin_accept_data else plugin_refuse_data) ==ℤ plugin_drop_data) ≡ false
either_answer true = refl
either_answer false = refl

posts_no_drop :
    (handle : Bool) (post : Option Bytes) (perform : Bytes → Bool) (r : Option Bytes × ℤ)
    → (if handle
        then (post >>= λ text.
            some (some text, if perform text then plugin_accept_data else plugin_refuse_data))
        else some (none, plugin_refuse_data))
      ≡ some r
    → (r.1 ==ℤ plugin_drop_data) ≡ false
posts_no_drop false post perform r e = rw (← some-injective _ _ e) refl
posts_no_drop true none perform r e = cc
posts_no_drop true (some text) perform r e =
    subst (λ q. (q.1 ==ℤ plugin_drop_data) ≡ false) (some-injective _ _ e)
      (either_answer (perform text))

never_drops :
    (tables : Tables) (rec : MonitorRecord) (z : ℤ)
    → IsAnswer tables rec z
    → (z ==ℤ plugin_drop_data) ≡ false
unfolding Influx.process_data Csv.process_data Csv.sample_process_data Table.process_data
    Cli.process_data
never_drops tables rec z (of_csv line e) =
    accepts_is_no_drop z (ap (λ r. r.1) (named_result _ _ _ e).2)
never_drops tables rec z (of_sample line e) =
    accepts_is_no_drop z (ap (λ r. r.1) (named_result _ _ _ e).2)
never_drops tables rec z (of_table ln ln' lines e) =
    accepts_is_no_drop z (ap (λ r. r.1) (named_result _ _ _ e).2)
never_drops tables rec z (of_influx last1 last2 curl text e) = posts_no_drop _ _ _ (text, z) e
never_drops tables rec z of_cli = refl

same_if : (b : Bool) {x y : MonitorRecord} → x ≡ y → (if b then x else y) ≡ y
same_if true e = e
same_if false e = refl

module _ {S : Type 0} where
  -- The plugin hands on the record that it is given, whatever its state.
  abbrev Passes : MonitorRecord → Plugin S → Type 0
  Passes rec p =
      (s : S)
      → ((p.pfn_process_data rec s).1 ≡ rec)
        × (((p.pfn_process_data rec s).0 ==ℤ plugin_drop_data) ≡ false)

  visit-Passes :
      (p : Plugin S) (rec : MonitorRecord) (h : Heap S)
      → Passes rec p
      → ((visit p rec h).rec ≡ rec) × ((visit p rec h).dropped ≡ false)
  visit-Passes p rec h passes =
      let seen = visit_lem p rec h in
      let (same, no_drop) = passes (ready_state p h) in
      (seen.2 ∙ same_if (takes p h) same, seen.1 ∙ ground (arith, no_drop))

  -- The plugin leaves the record and gives such an answer, whatever its state.
  abbrev pub Prints : Tables → MonitorRecord → Plugin S → Type 0
  Prints tables rec p =
      (s : S)
      → ((p.pfn_process_data rec s).1 ≡ rec) × IsAnswer tables rec (p.pfn_process_data rec s).0

  all_pass :
      (tables : Tables) (rec : MonitorRecord) (front : List (Plugin S))
      → All (Prints tables rec) front
      → All (Passes rec) front
  all_pass tables rec [] h = tt
  all_pass tables rec (p ∷ front) (here, h) =
      ((λ s. ((here s).0, never_drops tables rec _ (here s).1)), all_pass tables rec front h)

  run-Passes :
      (front : List (Plugin S)) (rec : MonitorRecord) (h : Heap S)
      → All (Passes rec) front
      → (stops front rec h ≡ false) × ((execute_plugin_chain front rec h).rec ≡ rec)
  unfolding execute_plugin_chain
  run-Passes [] rec h passes = (refl, refl)
  run-Passes (p ∷ front) rec h (here, passes) =
      let (same, on) = visit-Passes p rec h here in
      let next = run-Passes front rec (visit p rec h).heap passes in rw (on, same) next

  -- When each plugin in front answers as an output plugin does and leaves the record, the plugins
  -- behind them get the record as it came in, on the states that those in front leave, and the run gives
  -- the record back as the plugins behind leave it.
  execute-IsAnswer :
      (tables : Tables) (front back : List (Plugin S)) (rec : MonitorRecord) (h : Heap S)
      → All (Prints tables rec) front
      → execute_plugin_chain (front ++ back) rec h ≡ (
          let first = execute_plugin_chain front rec h in
          let second = execute_plugin_chain back rec first.heap in
          record {
            plugins = first.plugins ++ second.plugins;
            rec = second.rec;
            heap = second.heap;
          })
  execute-IsAnswer tables front back rec h prints =
      let (on, same) = run-Passes front rec h (all_pass tables rec front prints) in
      execute-append front back rec h ∙ rw (on, same) refl
