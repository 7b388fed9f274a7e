-- ===== src/Listener/Tests.antt =====
-- Runs of the listener with the plugins of Chain/Tests.antt.
use io_monitor.Prelude.{
  ℕ, suc, ◌+◌, ℤ, pos, negsuc, false, none, some, List, [], ◌∷◌, Bytes, codes, str_eq, ◌≡◌, refl,
  arith, ◌⊎◌,
}
use io_monitor.Plugin.{plugin_accept_data}
use io_monitor.Outcome.{done, fault}
use io_monitor.Chain.{Plugin, is_named}
use io_monitor.Chain.Tests.{counter, zero_heap}
use io_monitor.Listener.Outside.{Module, System}
use io_monitor.Listener.State.{World, plugin_command}
use io_monitor.Listener.Load.{Refuses, Crashes, Loads, load_plugin-cases}
use io_monitor.Listener.Unload.{unload-link, left_call, unload_dangling}
use io_monitor.Listener.Together.{unload_in_turn, unload_all_plugins-eq}
use io_monitor.Listener.{
  load_plugin, unload_all_plugins, link_plugin, unload_plugin_by_name, make_command, call,
}

abbrev pub count_module : Module ℕ
count_module = record {
  open_plugin = some (λ options. some (pos 0, 0));
  close_plugin = some (λ s. s);
  ok_to_accept_data = some (λ s. (plugin_accept_data, s));
  process_data = some (λ rec s. (plugin_accept_data, rec, s + 1));
  plugin_command = some (λ name args s. (pos 0, s));
}

abbrev pub one_library : System ℕ
one_library = record {
  dlopen = λ library. some count_module;
  ftok = λ path project. pos 9;
  msgget = λ key. pos 3;
  fopen = λ path. none;
  no_return = pos 0;
  left_behind = λ address plugins. false;
}

abbrev empty_world : World ℕ
empty_world = record {
  s_commands = [];
  plugins = [];
  heap = zero_heap;
  fresh = 0;
  message_queue_key = negsuc 0;
  message_queue_id = negsuc 0;
  show_runtime_commands = false;
}

load_example :
    ((load_plugin one_library (codes "csv.so") none (some (codes "c")) empty_world
        ≡ done (pos 1) empty_world)
      × Refuses one_library (codes "csv.so") none)
    ⊎ (((load_plugin one_library (codes "csv.so") none (some (codes "c")) empty_world ≡ fault)
          × Crashes one_library (codes "csv.so") none)
        ⊎ ((w' : World ℕ) × (load_plugin one_library
                (codes "csv.so")
                none
                (some (codes "c"))
                empty_world
              ≡ done (pos 0) w')
            × Loads one_library (codes "csv.so") none (some (codes "c")) empty_world w'))
load_example = load_plugin-cases one_library (codes "csv.so") none (some (codes "c")) empty_world

abbrev count_command : Bytes → List Bytes → ℕ → ℤ × ℕ
count_command name args s = (pos 0, s + 1)

abbrev csv : Plugin ℕ
csv = record (counter (codes "csv.so") 0) {
  plugin_alias = some (codes "c");
  pfn_plugin_command = some count_command;
}

abbrev table : Plugin ℕ
table = record (counter (codes "table.so") 1) {
  plugin_alias = some (codes "t");
  pfn_plugin_command = some count_command;
}

unload_example :
    (w' : World ℕ) × (unload_plugin_by_name (codes "c") (link_plugin csv 5 empty_world)
      ≡ done (pos 0) w')
    × (w'.plugins ≡ [])
    × (w'.s_commands ≡ [])
    × (w'.heap 0 ≡ 0)
unfolding is_named str_eq
unload_example = unload-link (codes "c") csv 5 empty_world count_command refl (omega arith) refl tt

dangling_example :
    (w' : World ℕ) × (unload_plugin_by_name
        (codes "c")
        (link_plugin table 6 (link_plugin csv 5 empty_world))
      ≡ done (pos 0) w')
    × (w'.s_commands ≡ make_command (codes "csv.so") (some (codes "c")) 0 count_command ∷ [])
    × (w'.plugins ≡ table ∷ [])
    × ((depth : ℕ) (called : Bytes) (args : List Bytes)
        → call one_library (suc depth) (plugin_command count_command 0) called args w'
          ≡ left_call one_library count_command 0 5 called args w')
unfolding is_named str_eq make_command
dangling_example =
    unload_dangling one_library (codes "c") csv table 5 6 empty_world count_command count_command
      refl refl (omega arith) refl tt refl refl refl

abbrev both_loaded : World ℕ
both_loaded = link_plugin table 6 (link_plugin csv 5 empty_world)

in_turn_example :
    unload_in_turn both_loaded.plugins both_loaded ≡ done tt (unload_all_plugins both_loaded)
in_turn_example = unload_all_plugins-eq both_loaded
