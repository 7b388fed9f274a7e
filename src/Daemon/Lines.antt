-- ===== src/Daemon/Lines.antt =====
-- input_loop of mq_listener/mq_listener.c with plugins/filter_domains.c and plugins/output_csv.c in front
-- of its chain: what is printed for the messages that come in.
use io_monitor.Prelude.{
  ℕ, false, some, List, [], ◌∷◌, ◌++◌, Bytes, All, map, get_elem?, ◌==◌, ◌==ℤ◌, ◌≡◌, refl, sym, ap,
  ◌∙◌, append_assoc, append-nil, Bool-cases, inl, inr,
}
use io_monitor.Plugin.{plugin_accept_data, plugin_refuse_data, plugin_drop_data}
use io_monitor.Record.{MonitorRecord}
use io_monitor.Format.{Tables}
use io_monitor.Mask.Meaning.{IsNames}
use io_monitor.Filter.{PluginState}
use io_monitor.Filter
use io_monitor.Outputs.Csv
use io_monitor.Outputs.Csv.{csv_line}
use io_monitor.Chain.{Heap, store, Plugin, visit, resume, deliver, execute_plugin_chain}
use io_monitor.Chain.Execute.{store_self, execute-frame, execute-identity, identity}
use io_monitor.Chain.Shield.{IsFilter, execute-filter}
use io_monitor.Daemon.{Received, message, failed, track, Daemon, set_hostname, handle, input_loop}
use io_monitor.Daemon.Listed.{track-rest, handed, line_of, lines_of, is_listed, AreNamed, IsCsv}

module _ {S : Type 0} where
  -- No plugin of the list has its state at the address.
  abbrev pub Elsewhere : ℕ → List (Plugin S) → Type 0
  Elsewhere a = All (λ q. (a == q.state) ≡ false)

  Elsewhere-identity :
      (a : ℕ) (ps qs : List (Plugin S))
      → map identity qs ≡ map identity ps
      → Elsewhere a ps
      → Elsewhere a qs
  Elsewhere-identity a ps [] e h = tt
  Elsewhere-identity a [] (q ∷ qs) e h = cc
  Elsewhere-identity a (p ∷ ps) (q ∷ qs) e h =
      let same : q.state ≡ p.state = cc in (rw same h.0, Elsewhere-identity a ps qs (cc) h.1)

  execute-Elsewhere :
      (a : ℕ) (ps : List (Plugin S)) (rec : MonitorRecord) (h : Heap S)
      → Elsewhere a ps
      → Elsewhere a (execute_plugin_chain ps rec h).plugins
  execute-Elsewhere a ps rec h =
      Elsewhere-identity a ps (execute_plugin_chain ps rec h).plugins (execute-identity ps rec h)

-- A plugin that is not paused is given the record.
visit_running :
    {S : Type 0} (p : Plugin S) (rec : MonitorRecord) (h : Heap S)
    → p.plugin_paused ≡ false
    → visit p rec h ≡ (
        let (rc, rec', s) = p.pfn_process_data rec (h p.state) in
        record {
          plugin = record p { plugin_paused = rc ==ℤ plugin_refuse_data };
          rec = rec';
          heap = store h p.state s;
          dropped = rc ==ℤ plugin_drop_data;
        })
unfolding visit resume deliver
visit_running p rec h e = simp e

module _ {S : Type 0} (tables : Tables) (stdout : S → List Bytes) (c : Plugin S)
    (csv : IsCsv tables stdout c) where
  visit_csv :
      (rec : MonitorRecord) (h : Heap S) (line : Bytes)
      → Csv.process_data tables rec ≡ some (line, plugin_accept_data)
      → ((visit c rec h).plugin ≡ c)
        × ((visit c rec h).dropped ≡ false)
        × (stdout ((visit c rec h).heap c.state) ≡ stdout (h c.state) ++ line ∷ [])
  visit_csv rec h line e =
      let (code, same, prints) = csv.answers rec (h c.state) line plugin_accept_data e in
      let seen = visit_running c rec h csv.running in
      (
        ap (λ v. v.plugin) seen
            ∙ (λ i. record c { plugin_paused = code i ==ℤ plugin_refuse_data })
            ∙ (λ i. record c { plugin_paused = sym csv.running i }),
        ap (λ v. v.dropped) seen ∙ ap (λ z. z ==ℤ plugin_drop_data) code,
        ap (λ v. stdout (v.heap c.state)) seen ∙ ap stdout (store_self h c.state _) ∙ prints,
      )

  -- What the plugin and those behind it leave, when none of them has its state at `a`.
  execute_csv :
      (back : List (Plugin S)) (rec : MonitorRecord) (h : Heap S) (line : Bytes)
      → Csv.process_data tables rec ≡ some (line, plugin_accept_data)
      → Elsewhere c.state back
      → ((execute_plugin_chain (c ∷ back) rec h).plugins
          ≡ c ∷ (execute_plugin_chain back (visit c rec h).rec (visit c rec h).heap).plugins)
        × (stdout ((execute_plugin_chain (c ∷ back) rec h).heap c.state)
            ≡ stdout (h c.state) ++ line ∷ [])
  unfolding execute_plugin_chain
  execute_csv back rec h line e apart =
      let (same, on, prints) = visit_csv rec h line e in
      let v = visit c rec h in
      rw on (
        ap (λ p. p ∷ (execute_plugin_chain back v.rec v.heap).plugins) same,
        ap stdout (execute-frame back v.rec v.heap c.state apart) ∙ prints,
      )

module _ {S : Type 0} (tables : Tables) (plugin_config : Bytes) (view : S → PluginState)
    (stdout : S → List Bytes) (f c : Plugin S) where
  -- The filter `f` was opened with the list of domains and stands first, the csv plugin `c` is the
  -- next and has printed `text`, and no plugin shares its state with one of them.
  pub record Stands (ps : List (Plugin S)) (h : Heap S) (text : List Bytes) : Type 0 where
    pub back : List (Plugin S)
    pub in_front : ps ≡ f ∷ c ∷ back
    pub filter_elsewhere : Elsewhere f.state (c ∷ back)
    pub csv_elsewhere : Elsewhere c.state back
    pub opened : view (h f.state) ≡ (Filter.open_plugin tables.domains_names plugin_config).1
    pub printed : stdout (h c.state) ≡ text

  module _ (ok : IsNames tables.domains_names) (filter : IsFilter view f)
      (csv : IsCsv tables stdout c) where
    execute-Stands :
        (ps : List (Plugin S)) (rec : MonitorRecord) (h : Heap S) (text : List Bytes) (n o : Bytes)
        → get_elem? tables.domains_names rec.dom_type ≡ some n
        → get_elem? tables.ops_names rec.op_type ≡ some o
        → Stands ps h text
        → Stands
            (execute_plugin_chain ps rec h).plugins
            (execute_plugin_chain ps rec h).heap
            (text ++ line_of tables plugin_config rec (some n) (some o))
    unfolding Csv.process_data
    execute-Stands ps rec h text n o named does st =
        let verdict =
          execute-filter view f filter tables.domains_names plugin_config n (c ∷ st.back) rec h ok
            named st.opened in
        let line = csv_line tables rec n o in
        let after =
          execute_csv tables stdout c csv st.back rec h line (rw (named, does)) st.csv_elsewhere in
        let v = visit c rec h in
        let ran = execute_plugin_chain (c ∷ st.back) rec h in
        elim (Bool-cases (is_listed plugin_config n)) [
          | inr out ↦
              rw (st.in_front, rw out at verdict, out)
                (record {
                  back = st.back;
                  in_front = refl;
                  filter_elsewhere = st.filter_elsewhere;
                  csv_elsewhere = st.csv_elsewhere;
                  opened = st.opened;
                  printed = st.printed ∙ sym (append-nil text);
                })
          | inl in_list ↦
              rw (st.in_front, rw in_list at verdict, in_list)
                (record {
                  back = (execute_plugin_chain st.back v.rec v.heap).plugins;
                  in_front = ap (λ ps. f ∷ ps) after.0;
                  filter_elsewhere = (
                    st.filter_elsewhere.0,
                    execute-Elsewhere f.state st.back v.rec v.heap st.filter_elsewhere.1,
                  );
                  csv_elsewhere = execute-Elsewhere c.state st.back v.rec v.heap st.csv_elsewhere;
                  opened =
                      ap view (execute-frame (c ∷ st.back) rec h f.state st.filter_elsewhere)
                      ∙ st.opened;
                  printed = after.1 ∙ ap (λ t. t ++ line ∷ []) st.printed;
                })
        ]

    run-Stands :
        (hostname : Bytes) (ms : List Received) (d : Daemon S) (text : List Bytes)
        → AreNamed tables ms
        → Stands d.world.plugins d.world.heap text
        → Stands
            (input_loop hostname ms d).world.plugins
            (input_loop hostname ms d).world.heap
            (text ++ lines_of tables plugin_config (handed hostname ms d.resolver))
    unfolding input_loop handle
    run-Stands hostname [] d text named st = rw (append-nil text) st
    run-Stands hostname (failed ∷ ms) d text named st = run-Stands hostname ms d text named st
    run-Stands hostname (message rec ∷ ms) d text (((n, names), (o, does)), named) st =
        let own = set_hostname hostname rec in
        let rest = track-rest own d.resolver in
        let names' = ap (λ r. get_elem? tables.domains_names r.dom_type) rest ∙ names in
        let does' = ap (λ r. get_elem? tables.ops_names r.op_type) rest ∙ does in
        let next =
          execute-Stands d.world.plugins (track own d.resolver).0 d.world.heap text n o names' does'
            st in
        rw (names', does', ← append_assoc text)
          (run-Stands hostname ms (handle hostname (message rec) d) _ named next)

    -- A running filter that was opened with a list of domains stands first in the chain, a running
    -- csv plugin that has printed `text` stands behind it, and no plugin of the chain shares its state
    -- with one of the two. For messages whose domains and operations are in the tables, the csv plugin
    -- prints, behind `text`, one line for each message whose domain is in the list, or for each if the
    -- list has "ALL": the record with the device that was found for it, in the order of the messages,
    -- whatever the plugins behind it do.
    pub input_loop-lines :
        (hostname : Bytes) (ms : List Received) (d : Daemon S) (text : List Bytes)
        → AreNamed tables ms
        → Stands d.world.plugins d.world.heap text
        → stdout ((input_loop hostname ms d).world.heap c.state)
          ≡ text ++ lines_of tables plugin_config (handed hostname ms d.resolver)
    input_loop-lines hostname ms d text named st = (run-Stands hostname ms d text named st).printed
