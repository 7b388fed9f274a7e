-- ===== src/Listener/Naming.antt =====
-- An invariant of mq_listener: c_config answers to no name but its own two, of the array `commands` in
-- mq_listener/mq_listener.c, whatever plugins are loaded and unloaded.
use io_monitor.Prelude.{
  ℤ, Bool, true, ◌||◌, Option, none, some, List, [], ◌∷◌, Bytes, codes, All, str_eq, ◌≡◌, subst,
  inl, inr, Bool-cases,
}
use mathlib.Core.Option.{some-injective}
use io_monitor.Commands.{Command, answers_to, free_command, free_from, drop_head, find_command}
use io_monitor.Commands.Keeps.{Leaves}
use io_monitor.Chain.{Plugin}
use io_monitor.Listener.Outside.{System}
use io_monitor.Listener.State.{World, Handler, Builtin, builtin}
use io_monitor.Listener
use io_monitor.Listener.{
  make_command, add_entry, link_plugin, unload_plugin, unload_each, unload_all_plugins,
  unload_located,
}
use io_monitor.Listener.Keeps.{IsKept}
use io_monitor.Listener.Load.{load_plugin-cases}

-- The two names of c_config.
abbrev pub names_config : Bytes → Bool
names_config name = str_eq (codes "config") name || str_eq (codes "c") name

module _ {S : Type 0} where
  abbrev pub IsOwn : Command (Handler S) → Type 0
  IsOwn c =
      c.command_function ≡ some (builtin Builtin.config)
      → (c.name ≡ codes "config") × (c.short_name ≡ codes "c")

  -- c_config stands in the list under its own names only.
  abbrev pub IsConfigNamed : World S → Type 0
  IsConfigNamed w = All IsOwn w.s_commands

  drop_head-All :
      (P : Command (Handler S) → Type 0) (cs : List (Command (Handler S)))
      → All P cs
      → All P (drop_head cs)
  unfolding drop_head
  drop_head-All P [] h = tt
  drop_head-All P (c ∷ cs) h = h.1

  free_from-All :
      (P : Command (Handler S) → Type 0) (name : Bytes) (cs rest : List (Command (Handler S)))
      → All P cs
      → All P (free_from name cs rest)
  unfolding free_from
  free_from-All P name cs [] h = h
  free_from-All P name cs (p ∷ rest) h = elim (Bool-cases (answers_to name p)) [
    | inl e ↦ rw e (drop_head-All P cs h)
    | inr e ↦ rw e (free_from-All P name cs rest h)
  ]

  unload-IsConfigNamed :
      (p : Plugin S) (w : World S) → IsConfigNamed w → IsConfigNamed (unload_plugin p w)
  unfolding unload_plugin free_command
  unload-IsConfigNamed p w h = free_from-All IsOwn p.plugin_library w.s_commands w.s_commands h

  unload_each-IsConfigNamed :
      (ps : List (Plugin S)) (w : World S) → IsConfigNamed w → IsConfigNamed (unload_each ps w)
  unfolding unload_each
  unload_each-IsConfigNamed [] w h = h
  unload_each-IsConfigNamed (p ∷ ps) w h =
      unload_each-IsConfigNamed ps (unload_plugin p w) (unload-IsConfigNamed p w h)

  unload_located-IsConfigNamed :
      (name : Bytes) (o : Option (Plugin S)) (w : World S)
      → IsConfigNamed w
      → Leaves IsConfigNamed (unload_located name o w)
  unfolding unload_located
  unload_located-IsConfigNamed name none w h = tt
  unload_located-IsConfigNamed name (some p) w h = unload-IsConfigNamed p w h

  add_entry-All :
      (o : Option (Bytes → List Bytes → S → ℤ × S)) (p : Plugin S) (cs : List (Command (Handler S)))
      → All IsOwn cs
      → All IsOwn (add_entry o p cs)
  unfolding add_entry make_command
  add_entry-All none p cs h = h
  add_entry-All (some f) p cs h = ((λ e. cc), h)

  load-IsConfigNamed :
      (sys : System S) (library : Bytes) (options alias : Option Bytes) (w : World S)
      → IsConfigNamed w
      → Leaves IsConfigNamed (Listener.load_plugin sys library options alias w)
  load-IsConfigNamed sys library options alias w h =
      elim (load_plugin-cases sys library options alias w) [
        | inl (failed, reason) ↦ rw failed h
        | inr (inl (crashed, reason)) ↦ rw crashed tt
        | inr (inr (w', returned, loads)) ↦
            rw (returned, loads.linked)
              (unfold link_plugin in
                add_entry-All loads.plugin.pfn_plugin_command loads.plugin w.s_commands h)
      ]

  pub IsConfigNamed-IsKept : (sys : System S) → IsKept sys IsConfigNamed
  unfolding unload_all_plugins
  IsConfigNamed-IsKept sys = record {
    loading = load-IsConfigNamed sys;
    unloading = unload_located-IsConfigNamed;
    unloading_all = λ w h. unload_each-IsConfigNamed w.plugins w h;
    keyed = λ key w h. h;
    found = λ id w h. h;
    stored = λ heap w h. h;
  }

  -- A command that is found answers to the name, and has what all of the list have.
  pub find_command-All :
      (P : Command (Handler S) → Type 0) (name : Bytes) (cs : List (Command (Handler S)))
      (c : Command (Handler S))
      → All P cs
      → find_command name cs ≡ some c
      → P c × (answers_to name c ≡ true)
  unfolding find_command
  find_command-All P name [] c h e = cc
  find_command-All P name (d ∷ cs) c h e = elim (Bool-cases (answers_to name d)) [
    | inl e' ↦
        subst (λ x. P x × (answers_to name x ≡ true)) (some-injective d c (rw e' at e)) (h.0, e')
    | inr e' ↦ find_command-All P name cs c h.1 (rw e' at e)
  ]

  -- So a line that runs c_config begins with one of its names.
  pub names_config-IsOwn :
      (name : Bytes) (c : Command (Handler S))
      → IsOwn c
      → answers_to name c ≡ true
      → c.command_function ≡ some (builtin Builtin.config)
      → names_config name ≡ true
  names_config-IsOwn name c own answers is_config =
      let (long, short) = own is_config in rw (long, short) at answers
