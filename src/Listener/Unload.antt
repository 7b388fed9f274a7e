-- ===== src/Listener/Unload.antt =====
-- Unloading in mq_listener: it undoes the load of the last plugin, and what it does to the commands of
-- an earlier one.
use io_monitor.Prelude.{
  if◌then◌else◌, ℕ, suc, ℤ, pos, true, false, ◌||◌, ◌==◌, some, List, [], ◌∷◌, ◌++◌, Bytes, All,
  append_assoc, ◌≡◌, refl, ◌∙◌, ap, arith, append_assoc, append-nil, str_eq_refl, length, ltb, ◌<◌,
}
use io_monitor.Outcome.{Outcome, done, fault}
use io_monitor.Commands.{Command, answers_to, set_command, free_command, find_command}
use io_monitor.Commands.Table.{free_command-set_command, free_command-keeps_it}
use io_monitor.Chain.{Plugin, store, is_named, locate_plugin_by_name, unlink}
use io_monitor.Chain.Names.{link_last-append, unlink-append, locate-append}
use io_monitor.Listener.Outside.{System}
use io_monitor.Listener.State.{World, Handler, plugin_command, is_loaded}
use io_monitor.Listener.{
  short_text, unload_plugin, unload_located, unload_plugin_by_name, make_command, add_entry,
  add_command, link_plugin, c_plugin, call,
}

module _ {S : Type 0} where
  pub link-plugins :
      (p : Plugin S) (s : S) (w : World S) → (link_plugin p s w).plugins ≡ w.plugins ++ p ∷ []
  unfolding link_plugin
  link-plugins p s w = link_last-append p w.plugins

  add-s_commands :
      (p : Plugin S) (s_commands : List (Command (Handler S))) (f : Bytes → List Bytes → S → ℤ × S)
      → p.pfn_plugin_command ≡ some f
      → add_command p s_commands
        ≡ make_command p.plugin_library p.plugin_alias p.state f ∷ s_commands
  unfolding add_command
  add-s_commands p s_commands f e = ap (λ o. add_entry o p s_commands) e

  link-s_commands :
      (p : Plugin S) (s : S) (w : World S) (f : Bytes → List Bytes → S → ℤ × S)
      → p.pfn_plugin_command ≡ some f
      → (link_plugin p s w).s_commands
        ≡ make_command p.plugin_library p.plugin_alias p.state f ∷ w.s_commands
  unfolding link_plugin
  link-s_commands p s w f e = rw (add-s_commands p w.s_commands f e)

  unload-s_commands :
      (p : Plugin S) (w : World S)
      → (unload_plugin p w).s_commands ≡ free_command p.plugin_library w.s_commands
  unfolding unload_plugin
  unload-s_commands p w = refl

  free_own :
      (p : Plugin S) (s_commands : List (Command (Handler S))) (f : Bytes → List Bytes → S → ℤ × S)
      → ltb (length p.plugin_library) 256 ≡ true
      → free_command p.plugin_library
          (make_command p.plugin_library p.plugin_alias p.state f ∷ s_commands)
        ≡ s_commands
  unfolding make_command set_command
  free_own p s_commands f short = rw short (
      free_command-set_command
        (record {
          name = p.plugin_library;
          short_name = short_text p.plugin_library p.plugin_alias;
          params_desc = _;
          help = _;
          command_function = some (plugin_command f p.state);
          interactive_only = false;
        })
        s_commands)

  -- What is left when the plugin that a name finds is unloaded.
  pub unload_found :
      (name : Bytes) (p : Plugin S) (w : World S)
      → locate_plugin_by_name name w.plugins ≡ some p
      → unload_plugin_by_name name w
        ≡ done (pos 0) (record (unload_plugin p w) { plugins = unlink name w.plugins })
  unfolding unload_plugin_by_name
  unload_found name p w e = rw e (unfold unload_located in refl)

  unload_last :
      (p : Plugin S) (s : S) (w : World S) (f : Bytes → List Bytes → S → ℤ × S)
      → p.pfn_plugin_command ≡ some f
      → ltb (length p.plugin_library) 256 ≡ true
      → (unload_plugin p (link_plugin p s w)).s_commands ≡ w.s_commands
  unload_last p s w f has short =
      rw (unload-s_commands p (link_plugin p s w), link-s_commands p s w f has)
        (free_own p w.s_commands f short)

  unload-state :
      (p : Plugin S) (w : World S)
      → (unload_plugin p w).heap p.state ≡ p.pfn_close_plugin (w.heap p.state)
  unfolding unload_plugin store
  unload-state p w = ground arith

  pub link-state : (p : Plugin S) (s : S) (w : World S) → (link_plugin p s w).heap p.state ≡ s
  unfolding link_plugin store
  link-state p s w = ground arith

  -- A plugin that has commands and a library of fewer than 256 bytes, and a name that no other plugin of the chain has, is unloaded by that
  -- name as soon as it is loaded: the call returns 0, the chain and the list of commands are those
  -- before the load, and the plugin's own close function has run on its state.
  pub unload-link :
      (name : Bytes) (p : Plugin S) (s : S) (w : World S) (f : Bytes → List Bytes → S → ℤ × S)
      → p.pfn_plugin_command ≡ some f
      → length p.plugin_library < 256
      → is_named name p ≡ true
      → All (λ q. is_named name q ≡ false) w.plugins
      → (w' : World S) × (unload_plugin_by_name name (link_plugin p s w) ≡ done (pos 0) w')
        × (w'.plugins ≡ w.plugins)
        × (w'.s_commands ≡ w.s_commands)
        × (w'.heap p.state ≡ p.pfn_close_plugin s)
  unload-link name p s w f has short named others =
      let w1 = link_plugin p s w in
      let where_ = link-plugins p s w in
      let found : locate_plugin_by_name name w1.plugins ≡ some p =
        rw where_ (locate-append name w.plugins [] p others named) in
      (
        record (unload_plugin p w1) { plugins = unlink name w1.plugins },
        unload_found name p w1 found,
        rw where_ (unlink-append name w.plugins [] p others named ∙ append-nil w.plugins),
        unload_last p s w f has (ground (arith, short)),
        unload-state p w1 ∙ ap p.pfn_close_plugin (link-state p s w),
      )

  is_loaded-append :
      (a : ℕ) (xs ys : List (Plugin S))
      → is_loaded a (xs ++ ys) ≡ (is_loaded a xs || is_loaded a ys)
  is_loaded-append a [] ys = refl
  is_loaded-append a (x ∷ xs) ys = rw (is_loaded-append a xs ys) (ground arith)

  -- What a call of the command of an unloaded plugin does, whose cell holds `s`: it works on that, if code
  -- and state are still there.
  abbrev pub left_call :
      System S
      → (Bytes → List Bytes → S → ℤ × S)
      → ℕ
      → S
      → Bytes
      → List Bytes
      → World S
      → Outcome (World S) ℤ
  left_call sys f a s called args w =
      if sys.left_behind a w.plugins
      then (let (rc, s') = f called args s in done rc (record w { heap = store w.heap a s' }))
      else fault

  call_gone :
      (sys : System S) (depth : ℕ) (f : Bytes → List Bytes → S → ℤ × S) (a : ℕ) (s : S)
      (called : Bytes) (args : List Bytes) (w : World S)
      → is_loaded a w.plugins ≡ false
      → w.heap a ≡ s
      → call sys (suc depth) (plugin_command f a) called args w ≡ left_call sys f a s called args w
  unfolding call c_plugin
  call_gone sys depth f a s called args w e held =
      rw e (ap (λ x. left_call sys f a x called args w) held)

  linked_twice :
      (p q : Plugin S) (s t : S) (w : World S)
      → (q.state == p.state) ≡ false
      → (link_plugin q t (link_plugin p s w)).heap p.state ≡ s
  unfolding link_plugin store
  linked_twice p q s t w distinct = ground (arith, distinct)

  -- The command of `q` in front keeps free_command from that of `p`.
  free_other :
      (p q : Plugin S) (s_commands : List (Command (Handler S)))
      (f g : Bytes → List Bytes → S → ℤ × S)
      → ltb (length p.plugin_library) 256 ≡ true
      → answers_to p.plugin_library (make_command q.plugin_library q.plugin_alias q.state g) ≡ false
      → free_command p.plugin_library (
          make_command q.plugin_library q.plugin_alias q.state g
          ∷ make_command p.plugin_library p.plugin_alias p.state f
          ∷ s_commands)
        ≡ make_command p.plugin_library p.plugin_alias p.state f ∷ s_commands
  free_other p q s_commands f g short other =
      let c = make_command p.plugin_library p.plugin_alias p.state f in
      (free_command-keeps_it p.plugin_library
        (make_command q.plugin_library q.plugin_alias q.state g) c (c ∷ s_commands) other
        (unfold find_command make_command in rw (short, str_eq_refl p.plugin_library))).0

  -- Let two plugins with commands be loaded one after the other, the first with a cell that neither the
  -- second nor any plugin before them has and with a library of fewer than 256 bytes, the name `name`
  -- find the first of them, and the command of the second not answer to the library of the first.
  -- Unloading the first by that name returns 0. Then the second plugin stands behind those before, but its
  -- command is gone from the list, and the command of the first one stands there: calling it, where the
  -- depth allows a call, runs the code of the unloaded plugin on what its close function left, if code and
  -- state happen to be there still, and is a fault otherwise.
  pub unload_dangling :
      (sys : System S) (name : Bytes) (p q : Plugin S) (s t : S) (w : World S)
      (f g : Bytes → List Bytes → S → ℤ × S)
      → p.pfn_plugin_command ≡ some f
      → q.pfn_plugin_command ≡ some g
      → length p.plugin_library < 256
      → is_named name p ≡ true
      → All (λ r. is_named name r ≡ false) w.plugins
      → answers_to p.plugin_library (make_command q.plugin_library q.plugin_alias q.state g) ≡ false
      → is_loaded p.state w.plugins ≡ false
      → (q.state == p.state) ≡ false
      → (w' : World S) × (unload_plugin_by_name name (link_plugin q t (link_plugin p s w))
          ≡ done (pos 0) w')
        × (w'.s_commands ≡ make_command p.plugin_library p.plugin_alias p.state f ∷ w.s_commands)
        × (w'.plugins ≡ w.plugins ++ q ∷ [])
        × ((depth : ℕ) (called : Bytes) (args : List Bytes)
            → call sys (suc depth) (plugin_command f p.state) called args w'
              ≡ left_call sys f p.state (p.pfn_close_plugin s) called args w')
  unload_dangling sys name p q s t w f g has_f has_g short named others other apart distinct =
      let w1 = link_plugin p s w in
      let w2 = link_plugin q t w1 in
      let plugins : w2.plugins ≡ w.plugins ++ p ∷ q ∷ [] =
        link-plugins q t w1
        ∙ (ap (λ l. l ++ q ∷ []) (link-plugins p s w) ∙ append_assoc w.plugins (p ∷ []) (q ∷ [])) in
      let found : locate_plugin_by_name name w2.plugins ≡ some p =
        rw plugins (locate-append name w.plugins (q ∷ []) p others named) in
      let left : unlink name w2.plugins ≡ w.plugins ++ q ∷ [] =
        rw plugins (unlink-append name w.plugins (q ∷ []) p others named) in
      let gone : is_loaded p.state (unlink name w2.plugins) ≡ false =
        rw left (is_loaded-append p.state w.plugins (q ∷ []) ∙ rw (apart, distinct)) in
      (
        record (unload_plugin p w2) { plugins = unlink name w2.plugins },
        unload_found name p w2 found,
        rw (unload-s_commands p w2, link-s_commands q t w1 g has_g, link-s_commands p s w f has_f)
            (free_other p q w.s_commands f g (ground (arith, short)) other),
        left,
        λ depth called args.
            call_gone sys depth f p.state (p.pfn_close_plugin s) called args _ gone
              (unload-state p w2 ∙ ap p.pfn_close_plugin (linked_twice p q s t w distinct)),
      )
