-- ===== src/Chain.antt =====
-- mq_listener/plugin_chain.c: the linked list of loaded plugins. `S` is the type of plugin states. A
-- plugin's entry points are functions of another library (dlsym), and are kept as functions. Its state
-- stands behind a pointer that the plugin's command shares, so the states are a heap.
pub mod Execute
pub mod Shield
pub mod Names
pub mod Threads
pub mod Race
pub mod Tests
use io_monitor.Prelude.{
  ℕ, suc, ◌+◌, ℤ, pos, Bool, true, false, ◌||◌, not, Option, none, some, List, [], ◌∷◌, ◌++◌, Bytes,
  length, str_eq, ◌==◌, ◌==ℤ◌, if◌then◌else◌,
}
use io_monitor.Plugin.{plugin_accept_data, plugin_refuse_data, plugin_drop_data}
use io_monitor.Record.{MonitorRecord}

abbrev pub Heap : Type 0 → Type 0
Heap S = ℕ → S

unfoldable pub store : {S : Type 0} → Heap S → ℕ → S → Heap S
store h p v q = if q == p then v else h q

-- `struct plugin_chain`, without the handles that only dlsym and dlclose read. `state` is the cell
-- of the heap for what the member `state` of the node leads to. `process_data` may write to the record. `plugin_command` is optional.
pub record Plugin (S : Type 0) : Type 0 where
  pub plugin_library : Bytes
  pub plugin_options : Option Bytes
  pub plugin_alias : Option Bytes
  pub pfn_close_plugin : S → S
  pub pfn_ok_to_accept_data : S → ℤ × S
  pub pfn_process_data : MonitorRecord → S → ℤ × MonitorRecord × S
  pub pfn_plugin_command : Option (Bytes → List Bytes → S → ℤ × S)
  pub plugin_paused : Bool
  pub state : ℕ

-- What a round of execute_plugin_chain leaves: the plugin, the record, the states, and whether the
-- plugin dropped the record.
pub record Visit (S : Type 0) : Type 0 where
  pub plugin : Plugin S
  pub rec : MonitorRecord
  pub heap : Heap S
  pub dropped : Bool

pub record Run (S : Type 0) : Type 0 where
  pub plugins : List (Plugin S)
  pub rec : MonitorRecord
  pub heap : Heap S

module _ {S : Type 0} where
  -- A paused plugin is asked whether it takes data again.
  unfoldable pub resume : Plugin S → Heap S → Plugin S × Heap S
  unfolding store
  resume p h =
      if p.plugin_paused
      then (let (rc, s) = p.pfn_ok_to_accept_data (h p.state) in
          (record p { plugin_paused = not (rc ==ℤ plugin_accept_data) }, store h p.state s))
      else (p, h)

  -- A plugin that is not paused is given the record.
  unfoldable pub deliver : Plugin S → MonitorRecord → Heap S → Visit S
  unfolding store
  deliver p rec h =
      if p.plugin_paused
      then record { plugin = p; rec = rec; heap = h; dropped = false }
      else let (rc, rec', s) = p.pfn_process_data rec (h p.state) in
        record {
          plugin = record p { plugin_paused = rc ==ℤ plugin_refuse_data };
          rec = rec';
          heap = store h p.state s;
          dropped = rc ==ℤ plugin_drop_data;
        }

  unfoldable pub visit : Plugin S → MonitorRecord → Heap S → Visit S
  unfolding resume deliver
  visit p rec h = let (p', h') = resume p h in deliver p' rec h'

  -- The `while` of execute_plugin_chain, which holds the lock of the chain throughout.
  unfoldable pub execute_plugin_chain : List (Plugin S) → MonitorRecord → Heap S → Run S
  unfolding visit
  execute_plugin_chain [] rec h = record { plugins = []; rec = rec; heap = h }
  execute_plugin_chain (p ∷ ps) rec h =
      let v = visit p rec h in
      let rest = execute_plugin_chain ps v.rec v.heap in
      if v.dropped
      then record { plugins = v.plugin ∷ ps; rec = v.rec; heap = v.heap }
      else record { plugins = v.plugin ∷ rest.plugins; rec = rest.rec; heap = rest.heap }

  unfoldable pub count_plugins : List (Plugin S) → ℕ
  count_plugins [] = 0
  count_plugins (p ∷ plugins) = suc (count_plugins plugins)

  unfoldable pub label : Plugin S → Bytes
  label p = elim p.plugin_alias [
    | none ↦ p.plugin_library
    | some alias ↦ p.plugin_library ++ (b':' ∷ alias)
  ]

  -- The size that list_plugins gives to malloc for an entry.
  unfoldable pub label_size : Plugin S → ℕ
  label_size p =
      length p.plugin_library + elim p.plugin_alias [ none ↦ 0 | some alias ↦ 1 + length alias ]

  -- The bytes that strcpy and sprintf write for it, with the NUL.
  unfoldable pub label_written : Plugin S → ℕ
  unfolding label
  label_written p = length (label p) + 1

  unfoldable pub list_plugins : List (Plugin S) → List Bytes
  unfolding label
  list_plugins [] = []
  list_plugins (p ∷ plugins) = label p ∷ list_plugins plugins

  unfoldable pub is_named : Bytes → Plugin S → Bool
  is_named name p =
      str_eq name p.plugin_library
      || elim p.plugin_alias [ none ↦ false | some alias ↦ str_eq alias name ]

  -- The position of the first plugin that has the name as its library or its alias.
  unfoldable pub locate_plugin_by_name : Bytes → List (Plugin S) → Option (Plugin S)
  unfolding is_named
  locate_plugin_by_name name [] = none
  locate_plugin_by_name name (p ∷ plugins) =
      if is_named name p then some p else locate_plugin_by_name name plugins

  -- unload_plugin_by_name takes the located plugin out of the list: it is the first of that name.
  unfoldable pub unlink : Bytes → List (Plugin S) → List (Plugin S)
  unfolding is_named
  unlink name [] = []
  unlink name (p ∷ plugins) = if is_named name p then plugins else p ∷ unlink name plugins

  -- The end of load_plugin: the new plugin is the last.
  unfoldable pub link_last : Plugin S → List (Plugin S) → List (Plugin S)
  link_last new_plugin [] = new_plugin ∷ []
  link_last new_plugin (p ∷ plugins) = p ∷ link_last new_plugin plugins
