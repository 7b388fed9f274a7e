-- ===== src/Listener.antt =====
-- mq_listener/mq_listener.c and the parts of mq_listener/plugin_chain.c that use the list of commands:
-- the listener's state, its commands, and the loading and unloading of plugins. What is printed is left
-- out, but for Printed. `S` is the type of plugin states.
pub mod Outside
pub mod State
pub mod Load
pub mod Unload
pub mod Together
pub mod Printed
pub mod Keeps
pub mod Naming
pub mod Agree
pub mod Nesting
pub mod Itself
pub mod Tests
use io_monitor.Prelude.{
  ℕ, zero, suc, ◌+◌, ℤ, pos, negsuc, Bool, true, false, ◌||◌, Option, none, some, List, [], ◌∷◌,
  Bytes, drop, take, length, ◌++◌, leb, ltb, cut_at, ◌==◌, ◌==ℤ◌, if◌then◌else◌, codes,
}
use io_monitor.Plugin.{plugin_open_fail}
use io_monitor.Outcome.{Outcome, done, exited, fault, ◌>>=◌}
use io_monitor.Commands.{
  Command, Calls, set_command, set_commands_array, free_command, parse_command, parse_args,
}
use io_monitor.Chain.{Plugin, Heap, store, locate_plugin_by_name, unlink, link_last}
use Outside.{Module, System, make_plugin}
use State.{Handler, World, plugin_command, builtin, Builtin, is_loaded}

-- The part behind the colon, if there is one and it is not empty.
unfoldable pub split_alias : Bytes → Bytes × Option Bytes
unfolding cut_at
split_alias arg = elim (cut_at b':' arg) [
  | none ↦ (arg, none)
  | some (library, alias) ↦ (library, elim alias [ [] ↦ none | c ∷ s ↦ some (c ∷ s) ])
]

unfoldable pub first : List Bytes → Option Bytes
first [] = none
first (a ∷ args) = some a

-- What load_plugin prints into `short_name`.
abbrev pub short_text : Bytes → Option Bytes → Bytes
short_text library alias = elim alias [ none ↦ library | some a ↦ a ]

-- The arrays of a command stand one behind the other, and both texts are written without a bound: the
-- library from the start of `name` on, and then the short text from the start of `short_name` on, 256
-- bytes behind it. What strcmp or printf reads `k` bytes behind the start of `short_name`.
abbrev pub text_behind : ℕ → Bytes → Bytes → Bytes
text_behind k library short = if leb k (length short) then drop k short else drop (256 + k) library

module _ {S : Type 0} where
  -- unload_plugin: the plugin is closed, and free_command is called with its library.
  unfoldable pub unload_plugin : Plugin S → World S → World S
  unfolding store free_command
  unload_plugin p w = record w {
    heap = store w.heap p.state (p.pfn_close_plugin (w.heap p.state));
    s_commands = free_command p.plugin_library w.s_commands;
  }

  -- The loop of unload_all_plugins over the list from its head on.
  unfoldable pub unload_each : List (Plugin S) → World S → World S
  unfolding unload_plugin
  unload_each [] w = w
  unload_each (p ∷ ps) w = unload_each ps (unload_plugin p w)

  unfoldable pub unload_all_plugins : World S → World S
  unfolding unload_each
  unload_all_plugins w = record (unload_each w.plugins w) { plugins = [] }

  -- The plugin that is located is in the list, so that the loop that unlinks it finds it. Without one
  -- unload_plugin reads through NULL.
  unfoldable pub unload_located : Bytes → Option (Plugin S) → World S → Outcome (World S) ℤ
  unfolding unload_plugin unlink
  unload_located name none w = fault
  unload_located name (some p) w =
      done (pos 0) (record (unload_plugin p w) { plugins = unlink name w.plugins })

  unfoldable pub unload_plugin_by_name : Bytes → World S → Outcome (World S) ℤ
  unfolding unload_located locate_plugin_by_name
  unload_plugin_by_name name w = unload_located name (locate_plugin_by_name name w.plugins) w

  -- The command that load_plugin adds for a plugin that has the entry point plugin_command. A library
  -- of 256 bytes or more has no NUL in `name`, and is read on in `short_name`. (Texts that also reach
  -- the pointers behind the 4608 bytes of `short_name` and `help` are not followed.)
  unfoldable pub make_command :
      Bytes → Option Bytes → ℕ → (Bytes → List Bytes → S → ℤ × S) → Command (Handler S)
  make_command library alias address f = record {
    name =
        if ltb (length library) 256 then library else take 256 library ++ short_text library alias;
    short_name = short_text library alias;
    params_desc = text_behind 16 library (short_text library alias);
    help = text_behind 528 library (short_text library alias);
    command_function = some (plugin_command f address);
    interactive_only = false;
  }

  -- Whether the plugin has commands is the first argument.
  unfoldable pub add_entry :
      Option (Bytes → List Bytes → S → ℤ × S)
      → Plugin S
      → List (Command (Handler S))
      → List (Command (Handler S))
  unfolding make_command set_command
  add_entry none p s_commands = s_commands
  add_entry (some f) p s_commands =
      set_command (make_command p.plugin_library p.plugin_alias p.state f) s_commands

  unfoldable pub add_command : Plugin S → List (Command (Handler S)) → List (Command (Handler S))
  unfolding add_entry
  add_command p s_commands = add_entry p.pfn_plugin_command p s_commands

  -- What follows a successful open_plugin, which left the state `s`: it goes into the cell of the new node.
  unfoldable pub link_plugin : Plugin S → S → World S → World S
  unfolding add_command store link_last
  link_plugin p s w = record w {
    s_commands = add_command p w.s_commands;
    heap = store w.heap p.state s;
    fresh = suc w.fresh;
    plugins = link_last p w.plugins;
  }

  -- What open_plugin answered: `none` is its read through NULL.
  unfoldable pub link_opened : Plugin S → Option (ℤ × S) → World S → Outcome (World S) ℤ
  unfolding link_plugin
  link_opened p none w = fault
  link_opened p (some (rc, s)) w =
      if rc ==ℤ plugin_open_fail then done (pos 1) w else done (pos 0) (link_plugin p s w)

  unfoldable pub open_and_link :
      Option (Plugin S) → Option (Option Bytes → Option (ℤ × S)) → World S → Outcome (World S) ℤ
  unfolding link_opened
  open_and_link none o w = done (pos 1) w
  open_and_link (some p) none w = done (pos 1) w
  open_and_link (some p) (some o) w = link_opened p (o p.plugin_options) w

  unfoldable pub c_unload_plugin : List Bytes → World S → Outcome (World S) ℤ
  unfolding unload_plugin_by_name
  c_unload_plugin [] w = done (pos 1) w
  c_unload_plugin (a ∷ args) w = unload_plugin_by_name a w

  unfoldable pub c_quit : World S → Outcome (World S) ℤ
  unfolding unload_all_plugins
  c_quit w = exited (pos 1) (unload_all_plugins w)

  -- The `while` of c_config over what fgets reads; `parse` is parse_command. fgets reads no empty text.
  unfoldable pub run_lines :
      (Bytes → World S → Outcome (World S) (Unit {0})) → List Bytes → World S → Outcome (World S) ℤ
  run_lines parse [] w = done (pos 0) w
  run_lines parse ([] ∷ lines) w = parse [] w >>= λ u w'. run_lines parse lines w'
  run_lines parse ((c ∷ s) ∷ lines) w =
      if c == b'#'
      then run_lines parse lines w
      else (parse (c ∷ s) w >>= λ u w'. run_lines parse lines w')

module _ {S : Type 0} (sys : System S) where
  unfoldable pub load_plugin : Bytes → Option Bytes → Option Bytes → World S → Outcome (World S) ℤ
  unfolding open_and_link make_plugin
  load_plugin library options alias w = elim (sys.dlopen library) [
    | none ↦ done (pos 1) w
    | some m ↦ open_and_link (make_plugin library options alias m w.fresh) m.open_plugin w
  ]

  unfoldable pub c_load_plugin : List Bytes → World S → Outcome (World S) ℤ
  unfolding load_plugin split_alias first
  c_load_plugin [] w = fault
  c_load_plugin (a ∷ args) w =
      load_plugin (split_alias a).0 (first args) (split_alias a).1 w >>= λ res w'.
      if res ==ℤ pos 0 then done (pos 0) w' else exited (pos 1) w'

  -- Without an argument the path is read before it was set.
  unfoldable pub c_mq_path : List Bytes → World S → Outcome (World S) ℤ
  c_mq_path [] w = fault
  c_mq_path (path ∷ args) w =
      let key = sys.ftok path (pos b'm') in
      let id = sys.msgget key in
      if key ==ℤ negsuc 0
      then done (pos 1) (record w { message_queue_key = key })
      else if id ==ℤ negsuc 0
      then done (pos 1) (record w { message_queue_key = key; message_queue_id = id })
      else done (pos 0) (record w { message_queue_key = key; message_queue_id = id })

  -- Without an argument, or where the file cannot be opened, the code goes on with a NULL.
  unfoldable pub c_config :
      (Bytes → World S → Outcome (World S) (Unit {0})) → List Bytes → World S → Outcome (World S) ℤ
  unfolding run_lines
  c_config parse [] w = fault
  c_config parse (path ∷ args) w = elim (sys.fopen path) [
    | none ↦ fault
    | some lines ↦ run_lines parse lines w
  ]

  -- c_list_plugins and c_reorder_plugins print, and end without a return statement.
  unfoldable pub run_builtin :
      (Bytes → World S → Outcome (World S) (Unit {0}))
      → Builtin
      → List Bytes
      → World S
      → Outcome (World S) ℤ
  unfolding c_load_plugin c_unload_plugin c_mq_path c_quit c_config
  run_builtin parse Builtin.load_plugin args w = c_load_plugin args w
  run_builtin parse Builtin.unload_plugin args w = c_unload_plugin args w
  run_builtin parse Builtin.reorder_plugins args w = done sys.no_return w
  run_builtin parse Builtin.list_plugins args w = done sys.no_return w
  run_builtin parse Builtin.quit args w = c_quit w
  run_builtin parse Builtin.mq_path args w = c_mq_path args w
  run_builtin parse Builtin.config args w = c_config parse args w
  run_builtin parse Builtin.help args w = done (pos 0) w

  -- A plugin's command works on the plugin's state, also when the plugin has been unloaded and both its
  -- code and its state are still there.
  unfoldable pub c_plugin :
      (Bytes → List Bytes → S → ℤ × S) → ℕ → Bytes → List Bytes → World S → Outcome (World S) ℤ
  unfolding store
  c_plugin f address name args w =
      if is_loaded address w.plugins || sys.left_behind address w.plugins
      then (let (rc, s) = f name args (w.heap address) in
          done rc (record w { heap = store w.heap address s }))
      else fault

  -- A call of a command's function. `depth` bounds how deep config files may name config files: each
  -- level takes stack, and without a bound a file that names itself runs out of it.
  unfoldable pub call : ℕ → Handler S → Bytes → List Bytes → World S → Outcome (World S) ℤ
  unfolding run_builtin c_plugin
  call zero h name args w = fault
  call (suc depth) (builtin b) name args w =
      run_builtin (parse_command (record { s_commands = λ u. u.s_commands; call = call depth })) b
        args w
  call (suc depth) (plugin_command f address) name args w = c_plugin f address name args w

  abbrev pub calls : ℕ → Calls (Handler S) (World S)
  calls depth = record { s_commands = λ w. w.s_commands; call = call depth }
