-- ===== src/Listener/Keeps.antt =====
-- What loading, unloading and the message queue of mq_listener/mq_listener.c keep of the globals, every
-- command and every command line keeps.
use io_monitor.Prelude.{
  ℕ, zero, suc, ℤ, pos, negsuc, ◌||◌, ◌==◌, ◌==ℤ◌, Option, none, some, List, [], ◌∷◌, Bytes,
}
use io_monitor.Outcome.{Outcome, done, exited, fault}
use io_monitor.Commands.{parse_command, parse_args}
use io_monitor.Commands.Keeps.{
  Leaves, Leaves-bind, Leaves-if, parse_command-Leaves, parse_args-Leaves,
}
use io_monitor.Chain.{Plugin, Heap, locate_plugin_by_name}
use io_monitor.Listener.Outside.{System}
use io_monitor.Listener.State.{World, Handler, Builtin, builtin, plugin_command, is_loaded}
use io_monitor.Listener.{
  unload_all_plugins, unload_located, unload_plugin_by_name, split_alias, first, load_plugin,
  c_load_plugin, c_unload_plugin, c_mq_path, c_quit, run_lines, c_config, c_plugin, run_builtin,
  call, calls,
}

pub record IsKept {S : Type 0} (sys : System S) (P : World S → Type 0) : Type 0 where
  pub loading :
      (library : Bytes) (options alias : Option Bytes) (w : World S)
      → P w
      → Leaves P (load_plugin sys library options alias w)
  pub unloading :
      (name : Bytes) (o : Option (Plugin S)) (w : World S)
      → P w
      → Leaves P (unload_located name o w)
  pub unloading_all : (w : World S) → P w → P (unload_all_plugins w)
  pub keyed : (key : ℤ) (w : World S) → P w → P (record w { message_queue_key = key })
  pub found : (id : ℤ) (w : World S) → P w → P (record w { message_queue_id = id })
  pub stored : (heap : Heap S) (w : World S) → P w → P (record w { heap = heap })

module _ {S : Type 0} (sys : System S) (P : World S → Type 0) (kept : IsKept sys P) where
  abbrev ParseKeeps : (Bytes → World S → Outcome (World S) (Unit {0})) → Type 0
  ParseKeeps parse = (buf : Bytes) (w : World S) → P w → Leaves P (parse buf w)

  c_plugin-Leaves :
      (f : Bytes → List Bytes → S → ℤ × S) (a : ℕ) (name : Bytes) (args : List Bytes) (w : World S)
      → P w
      → Leaves P (c_plugin sys f a name args w)
  unfolding c_plugin
  c_plugin-Leaves f a name args w h =
      Leaves-if P (is_loaded a w.plugins || sys.left_behind a w.plugins) _ fault (kept.stored _ w h)
        tt

  run_lines-Leaves :
      (parse : Bytes → World S → Outcome (World S) (Unit {0}))
      → ParseKeeps parse
      → (lines : List Bytes) (w : World S) → P w
      → Leaves P (run_lines parse lines w)
  unfolding run_lines
  run_lines-Leaves parse keeps [] w h = h
  run_lines-Leaves parse keeps ([] ∷ lines) w h =
      Leaves-bind P (parse [] w) _ (keeps [] w h)
        (λ u w' h'. run_lines-Leaves parse keeps lines w' h')
  run_lines-Leaves parse keeps ((c ∷ s) ∷ lines) w h =
      Leaves-if P (c == b'#') _ _ (run_lines-Leaves parse keeps lines w h) (
        Leaves-bind P (parse (c ∷ s) w) _ (keeps (c ∷ s) w h)
          (λ u w' h'. run_lines-Leaves parse keeps lines w' h'))

  c_mq_path-Leaves : (args : List Bytes) (w : World S) → P w → Leaves P (c_mq_path sys args w)
  unfolding c_mq_path
  c_mq_path-Leaves [] w h = tt
  c_mq_path-Leaves (path ∷ args) w h =
      let key = sys.ftok path (pos b'm') in
      let keyed = kept.keyed key w h in
      let found = kept.found (sys.msgget key) (record w { message_queue_key = key }) keyed in
      Leaves-if P (key ==ℤ negsuc 0) _ _ keyed
        (Leaves-if P (sys.msgget key ==ℤ negsuc 0) _ _ found found)

  c_load_plugin-Leaves :
      (args : List Bytes) (w : World S) → P w → Leaves P (c_load_plugin sys args w)
  unfolding c_load_plugin
  c_load_plugin-Leaves [] w h = tt
  c_load_plugin-Leaves (a ∷ args) w h =
      Leaves-bind P (load_plugin sys (split_alias a).0 (first args) (split_alias a).1 w) _
        (kept.loading (split_alias a).0 (first args) (split_alias a).1 w h)
        (λ res w' h'. Leaves-if P (res ==ℤ pos 0) (done (pos 0) w') (exited (pos 1) w') h' h')

  c_unload_plugin-Leaves :
      (args : List Bytes) (w : World S) → P w → Leaves P (c_unload_plugin args w)
  unfolding c_unload_plugin unload_plugin_by_name
  c_unload_plugin-Leaves [] w h = h
  c_unload_plugin-Leaves (a ∷ args) w h = kept.unloading a (locate_plugin_by_name a w.plugins) w h

  c_config-Leaves :
      (parse : Bytes → World S → Outcome (World S) (Unit {0}))
      → ParseKeeps parse
      → (args : List Bytes) (w : World S) → P w
      → Leaves P (c_config sys parse args w)
  unfolding c_config
  c_config-Leaves parse keeps [] w h = tt
  c_config-Leaves parse keeps (path ∷ args) w h = opened (sys.fopen path)
    where
      opened :
          (f : Option (List Bytes))
          → Leaves P (elim f [ none ↦ fault | some lines ↦ run_lines parse lines w ])
      opened none = tt
      opened (some lines) = run_lines-Leaves parse keeps lines w h

  run_builtin-Leaves :
      (parse : Bytes → World S → Outcome (World S) (Unit {0}))
      → ParseKeeps parse
      → (b : Builtin) (args : List Bytes) (w : World S) → P w
      → Leaves P (run_builtin sys parse b args w)
  unfolding run_builtin c_quit
  run_builtin-Leaves parse keeps Builtin.load_plugin args w h = c_load_plugin-Leaves args w h
  run_builtin-Leaves parse keeps Builtin.unload_plugin args w h = c_unload_plugin-Leaves args w h
  run_builtin-Leaves parse keeps Builtin.reorder_plugins args w h = h
  run_builtin-Leaves parse keeps Builtin.list_plugins args w h = h
  run_builtin-Leaves parse keeps Builtin.quit args w h = kept.unloading_all w h
  run_builtin-Leaves parse keeps Builtin.mq_path args w h = c_mq_path-Leaves args w h
  run_builtin-Leaves parse keeps Builtin.config args w h = c_config-Leaves parse keeps args w h
  run_builtin-Leaves parse keeps Builtin.help args w h = h

  -- So does a command, whichever it is and however deep its config files nest.
  pub call-Leaves :
      (depth : ℕ) (handler : Handler S) (name : Bytes) (args : List Bytes) (w : World S)
      → P w
      → Leaves P (call sys depth handler name args w)
  unfolding call
  call-Leaves zero handler name args w h = tt
  call-Leaves (suc depth) (builtin b) name args w h =
      run_builtin-Leaves (parse_command (calls sys depth))
        (parse_command-Leaves (calls sys depth) P (call-Leaves depth)) b args w h
  call-Leaves (suc depth) (plugin_command f address) name args w h =
      c_plugin-Leaves f address name args w h

  pub line-Leaves :
      (depth : ℕ) (buf : Bytes) (w : World S)
      → P w
      → Leaves P (parse_command (calls sys depth) buf w)
  line-Leaves depth = parse_command-Leaves (calls sys depth) P (call-Leaves depth)

  pub args-Leaves :
      (depth : ℕ) (argv : List Bytes) (w : World S)
      → P w
      → Leaves P (parse_args (calls sys depth) argv w)
  args-Leaves depth = parse_args-Leaves (calls sys depth) P (call-Leaves depth)
