-- ===== src/Chain/Shield.antt =====
-- plugins/filter_domains.c in front of other plugins, as README.md recommends it ("correct order of
-- plugins is important").
use io_monitor.Prelude.{
  ℕ, false, ◌||◌, some, List, ◌∷◌, Bytes, codes, get_elem?, ◌==◌, ◌==ℤ◌, ==_iff, if◌then◌else◌, ◌≡◌,
  sym, ap, Bool-cases, inl, inr,
}
use mathlib.Core.Path.{fun_ext}
use io_monitor.Plugin.{plugin_accept_data, plugin_refuse_data, plugin_drop_data}
use io_monitor.Record.{MonitorRecord}
use io_monitor.Tokens.{words}
use io_monitor.Mask.{is_comma}
use io_monitor.Mask.Meaning.{IsNames, contains}
use io_monitor.Filter.{PluginState, process_data, open_plugin}
use io_monitor.Filter.Verdict.{process_data-open_plugin}
use io_monitor.Chain.{Heap, store, Plugin, resume, deliver, visit, execute_plugin_chain}

-- A loaded plugin that runs filter_domains.c on the part of its state that `view` shows.
pub record IsFilter {S : Type 0} (view : S → PluginState) (p : Plugin S) : Type 0 where
  pub answers :
      (rec : MonitorRecord) (s : S) → p.pfn_process_data rec s ≡ (process_data rec (view s), rec, s)
  pub running : p.plugin_paused ≡ false

store_same : {S : Type 0} (h : Heap S) (a : ℕ) → store h a (h a) ≡ h
unfolding store
store_same h a =
    fun_ext λ q. elim (Bool-cases (q == a)) [
      | inl e ↦ rw e (ap h (sym ((==_iff q a).0 e)))
      | inr e ↦ rw e
    ]

module _ {S : Type 0} (view : S → PluginState) (p : Plugin S) (filter : IsFilter view p) where
  visit_filter :
      (rec : MonitorRecord) (h : Heap S)
      → visit p rec h ≡ record {
        plugin = record p {
          plugin_paused = process_data rec (view (h p.state)) ==ℤ plugin_refuse_data;
        };
        rec = rec;
        heap = h;
        dropped = process_data rec (view (h p.state)) ==ℤ plugin_drop_data;
      }
  unfolding visit resume deliver
  visit_filter rec h = simp (filter.running, filter.answers rec (h p.state), store_same h p.state)

  unpaused : record p { plugin_paused = false } ≡ p
  unpaused = λ i. record p { plugin_paused = sym filter.running i }

  chain_accept :
      (back : List (Plugin S)) (rec : MonitorRecord) (h : Heap S)
      → process_data rec (view (h p.state)) ≡ plugin_accept_data
      → execute_plugin_chain (p ∷ back) rec h
        ≡ (let r = execute_plugin_chain back rec h in record r { plugins = p ∷ r.plugins })
  unfolding execute_plugin_chain
  chain_accept back rec h e =
      rw (visit_filter rec h, e)
        λ i.
          let r = execute_plugin_chain back rec h in record r { plugins = unpaused i ∷ r.plugins }

  chain_drop :
      (back : List (Plugin S)) (rec : MonitorRecord) (h : Heap S)
      → process_data rec (view (h p.state)) ≡ plugin_drop_data
      → execute_plugin_chain (p ∷ back) rec h ≡ record { plugins = p ∷ back; rec = rec; heap = h }
  unfolding execute_plugin_chain
  chain_drop back rec h e =
      rw (visit_filter rec h, e) λ i. record { plugins = unpaused i ∷ back; rec = rec; heap = h }

  -- A running filter stands first in the chain and was opened with a list of domains, and the record's
  -- domain is number `rec.dom_type` of a table of END_DOMAINS distinct names. If that name or "ALL" is
  -- among the words between the commas of the list, the plugins behind the filter run on the record as
  -- they would without it, and the filter stays as it is. If not, the run changes nothing at all: not
  -- the record, not a plugin, not a state.
  pub execute-filter :
      (names : List Bytes) (plugin_config n : Bytes) (back : List (Plugin S)) (rec : MonitorRecord)
      (h : Heap S)
      → IsNames names
      → get_elem? names rec.dom_type ≡ some n
      → view (h p.state) ≡ (open_plugin names plugin_config).1
      → execute_plugin_chain (p ∷ back) rec h ≡ (
          if contains n (words is_comma plugin_config)
            || contains (codes "ALL") (words is_comma plugin_config)
          then (let r = execute_plugin_chain back rec h in record r { plugins = p ∷ r.plugins })
          else record { plugins = p ∷ back; rec = rec; heap = h })
  execute-filter names plugin_config n back rec h ok named opened =
      let verdict = process_data-open_plugin names plugin_config n rec ok named in
      let verdict' = rw (← opened) at verdict in
      elim (Bool-cases (
        contains n (words is_comma plugin_config)
        || contains (codes "ALL") (words is_comma plugin_config))) [
          | inl passes ↦ rw passes (chain_accept back rec h (rw passes at verdict'))
          | inr stays ↦ rw stays (chain_drop back rec h (rw stays at verdict'))
        ]
