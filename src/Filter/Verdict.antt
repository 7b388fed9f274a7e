-- ===== src/Filter/Verdict.antt =====
-- Which records the filter of plugins/filter_domains.c passes on.
use io_monitor.Prelude.{
  ◌||◌, some, List, Bytes, codes, get_elem?, if◌then◌else◌, ◌≡◌, arith, test_bit,
  bit_and-pow_eq_zero,
}
use io_monitor.Plugin.{plugin_accept_data, plugin_drop_data}
use io_monitor.Record.{MonitorRecord}
use io_monitor.Tokens.{words}
use io_monitor.Mask.{is_comma}
use io_monitor.Mask.Meaning.{IsNames, contains, domain_list_to_bit_mask-test_bit}
use io_monitor.Filter.{PluginState, open_plugin, process_data}

process_data-test_bit :
    (rec : MonitorRecord) (ps : PluginState)
    → process_data rec ps
      ≡ (if test_bit ps.domain_bit_flags rec.dom_type then plugin_accept_data else plugin_drop_data)
unfolding process_data
process_data-test_bit rec ps =
    rw (bit_and-pow_eq_zero rec.dom_type ps.domain_bit_flags) (ground arith)

-- A filter that was opened with a list of domains accepts a record if the name of the record's domain
-- or "ALL" is among the words between the commas of the list, and drops it otherwise. The table of
-- names has END_DOMAINS distinct names, and the record's domain is one of them.
pub process_data-open_plugin :
    (names : List Bytes) (plugin_config n : Bytes) (rec : MonitorRecord)
    → IsNames names
    → get_elem? names rec.dom_type ≡ some n
    → process_data rec (open_plugin names plugin_config).1 ≡ (
        if contains n (words is_comma plugin_config)
          || contains (codes "ALL") (words is_comma plugin_config)
        then plugin_accept_data
        else plugin_drop_data)
process_data-open_plugin names plugin_config n rec ok named =
    rw (process_data-test_bit rec (open_plugin names plugin_config).1) (
      unfold open_plugin in
      rw (domain_list_to_bit_mask-test_bit names rec.dom_type n plugin_config ok named))
