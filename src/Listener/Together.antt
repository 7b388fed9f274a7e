-- ===== src/Listener/Together.antt =====
-- unload_all_plugins of mq_listener/plugin_chain.c, which c_quit calls, against unload_plugin_by_name.
use io_monitor.Prelude.{pos, true, List, [], ◌∷◌, ◌≡◌, refl, ap, ◌∙◌, str_eq_refl}
use io_monitor.Outcome.{Outcome, done, ◌>>=◌}
use io_monitor.Chain.{Plugin, is_named, locate_plugin_by_name, unlink}
use io_monitor.Listener.State.{World}
use io_monitor.Listener.Unload.{unload_found}
use io_monitor.Listener.{unload_plugin, unload_each, unload_all_plugins, unload_plugin_by_name}

module _ {S : Type 0} where
  -- The plugins of the list are unloaded one after the other, each by the path of its library.
  abbrev pub unload_in_turn : List (Plugin S) → World S → Outcome (World S) (Unit {0})
  unload_in_turn [] w = done tt w
  unload_in_turn (p ∷ ps) w =
      unload_plugin_by_name p.plugin_library w >>= λ rc w'. unload_in_turn ps w'

  head-named : (p : Plugin S) → is_named p.plugin_library p ≡ true
  unfolding is_named
  head-named p = rw (str_eq_refl p.plugin_library) refl

  unload_head :
      (p : Plugin S) (ps : List (Plugin S)) (w : World S)
      → w.plugins ≡ p ∷ ps
      → unload_plugin_by_name p.plugin_library w
        ≡ done (pos 0) (record (unload_plugin p w) { plugins = ps })
  unfolding locate_plugin_by_name unlink
  unload_head p ps w e =
      unload_found p.plugin_library p w (rw (e, locate_plugin_by_name, head-named p) refl)
      ∙ ap (λ l. done (pos 0) (record (unload_plugin p w) { plugins = l }))
          (ap (unlink p.plugin_library) e ∙ rw (head-named p) refl)

  unload_each-plugins :
      (ps qs : List (Plugin S)) (w : World S)
      → unload_each ps (record w { plugins = qs }) ≡ record (unload_each ps w) { plugins = qs }
  unfolding unload_each unload_plugin
  unload_each-plugins [] qs w = refl
  unload_each-plugins (p ∷ ps) qs w = unload_each-plugins ps qs (unload_plugin p w)

  in_turn :
      (ps : List (Plugin S)) (w : World S)
      → w.plugins ≡ ps
      → unload_in_turn ps w ≡ done tt (record (unload_each ps w) { plugins = [] })
  unfolding unload_each
  in_turn [] w e = ap (λ l. done tt (record w { plugins = l })) e
  in_turn (p ∷ ps) w e = rw (unload_head p ps w e) (
      in_turn ps (record (unload_plugin p w) { plugins = ps }) refl
      ∙ ap (λ (u : World S). done tt (record u { plugins = [] }))
          (unload_each-plugins ps ps (unload_plugin p w)))

  -- Unloading all plugins is the same as unloading the plugins one after the other, from the first on,
  -- each by the path of its library: each of these calls returns, and they leave the same states, the
  -- same commands and no plugin.
  pub unload_all_plugins-eq :
      (w : World S) → unload_in_turn w.plugins w ≡ done tt (unload_all_plugins w)
  unfolding unload_all_plugins
  unload_all_plugins-eq w = in_turn w.plugins w refl
