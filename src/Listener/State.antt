-- ===== src/Listener/State.antt =====
-- The globals of mq_listener: the list of commands, the chain, the message queue.
use io_monitor.Prelude.{ℕ, ℤ, Bool, false, ◌||◌, List, [], ◌∷◌, Bytes, ◌==◌}
use io_monitor.Commands.{Command}
use io_monitor.Chain.{Plugin, Heap}

-- The functions of the array `commands`.
pub data Builtin : Type 0 where
  load_plugin unload_plugin reorder_plugins list_plugins quit mq_path config help : Builtin

-- A command function: one of the listener's own, or a plugin's with the cell of its state.
pub data Handler (S : Type 0) : Type 0 where
  builtin : Builtin → Handler S
  plugin_command : (Bytes → List Bytes → S → ℤ × S) → ℕ → Handler S

-- Each node of the chain has a cell of the heap of its own, for what its member `state` leads to; the cell
-- of a plugin that leaves `state` NULL is one that nothing looks at. `fresh` is a cell that no node has had.
pub record World (S : Type 0) : Type 0 where
  pub s_commands : List (Command (Handler S))
  pub plugins : List (Plugin S)
  pub heap : Heap S
  pub fresh : ℕ
  pub message_queue_key : ℤ
  pub message_queue_id : ℤ
  pub show_runtime_commands : Bool

-- A plugin of the chain has its state in the cell.
abbrev pub is_loaded : {S : Type 0} → ℕ → List (Plugin S) → Bool
is_loaded address [] = false
is_loaded address (p ∷ plugins) = p.state == address || is_loaded address plugins
