-- ===== src/Chain/Tests.antt =====
-- Plugins and a record to try the chain of mq_listener/plugin_chain.c on.
use io_monitor.Prelude.{
  str_eq, ◌&&◌, none, false, true, ℕ, ◌+◌, pos, some, [], ◌∷◌, Bytes, codes, ◌≡◌, refl,
}
use io_monitor.Plugin.{plugin_accept_data, plugin_drop_data}
use io_monitor.Record.{MonitorRecord}
use io_monitor.Chain.Threads.{
  Threads, by_loop, fetched, walking, head_of, from_node, fetch, lock_loop, Steps, stay, go, quiet,
}
use io_monitor.Chain.Race.{is_walking, is_unloading, not_both-Steps, walk_dangling}
use io_monitor.Chain.{is_named, Heap, Plugin}

abbrev pub read_record : MonitorRecord
read_record = record {
  facility = codes "u";
  hostname = [];
  device = [];
  timestamp = pos 1;
  elapsed_time = 0;
  pid = pos 7;
  dom_type = 12;
  op_type = 3;
  error_code = pos 0;
  fd = pos 4;
  bytes_transferred = 10;
  s1 = [];
  s2 = [];
}

-- A plugin that counts the records that it gets.
abbrev pub counter : Bytes → ℕ → Plugin ℕ
counter library state = record {
  plugin_library = library;
  plugin_options = none;
  plugin_alias = some (codes "count");
  pfn_close_plugin = λ s. 0;
  pfn_ok_to_accept_data = λ s. (plugin_accept_data, s);
  pfn_process_data = λ rec s. (plugin_accept_data, rec, s + 1);
  pfn_plugin_command = some (λ name args s. (pos 0, s + 1));
  plugin_paused = false;
  state = state;
}

-- One that drops every record.
abbrev pub dropper : Plugin ℕ
dropper = record (counter (codes "drop.so") 1) {
  pfn_process_data = λ rec s. (plugin_drop_data, rec, s);
}

abbrev pub zero_heap : Heap ℕ
zero_heap a = 0

abbrev csv : Plugin ℕ
csv = counter (codes "csv.so") 0

csv-named : is_named (codes "csv.so") csv ≡ true
unfolding is_named str_eq
csv-named = refl

walk_dangling_example :
    (last : Threads ℕ) × Steps (quiet (csv ∷ dropper ∷ []) zero_heap) last
    × (last.loop ≡ walking (some 0))
    × (from_node 0 last.plugins ≡ none)
walk_dangling_example =
    walk_dangling (codes "csv.so") csv (dropper ∷ []) zero_heap csv-named (refl, tt)

-- The loop has read the head of the list and taken the lock.
abbrev in_walk : Threads ℕ
in_walk = record (quiet (csv ∷ []) zero_heap) { lock = by_loop; loop = walking (some 0) }

to_walk : Steps (quiet (csv ∷ []) zero_heap) in_walk
unfolding head_of
to_walk = go (fetch (quiet (csv ∷ []) zero_heap) refl) (
    go
      (lock_loop (record (quiet (csv ∷ []) zero_heap) { loop = fetched (some 0) }) (some 0) refl
        refl)
      stay)

not_both_example : (is_walking in_walk.loop && is_unloading in_walk.command) ≡ false
not_both_example = not_both-Steps (csv ∷ []) zero_heap in_walk to_walk
