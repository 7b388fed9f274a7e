-- ===== src/Chain/Race.antt =====
-- The lock of mq_listener/plugin_chain.c: what it keeps apart, and what it does not.
use io_monitor.Prelude.{
  ℕ, Bool, true, false, ◌&&◌, none, some, List, [], ◌∷◌, Bytes, All, ◌==◌, ==-refl, ◌≡◌, refl, sym,
  ap, ◌∙◌,
}
use io_monitor.Chain.{Heap, Plugin, is_named, locate_plugin_by_name}
use io_monitor.Chain.Threads.{
  Holder, nobody, by_loop, by_command, LoopPlace, resting, fetched, walking, CommandPlace, idle,
  located, unloading, Threads, head_of, from_node, without_node, Step, fetch, lock_loop, walk,
  walk_none, locate, lock_command, unload, load, Steps, stay, go, quiet,
}

abbrev pub is_walking : LoopPlace → Bool
is_walking resting = false
is_walking (fetched p) = false
is_walking (walking p) = true

abbrev pub is_unloading : CommandPlace → Bool
is_unloading idle = false
is_unloading (located a) = false
is_unloading (unloading a) = true

abbrev held_by_loop : Holder → Bool
held_by_loop nobody = false
held_by_loop by_loop = true
held_by_loop by_command = false

abbrev held_by_command : Holder → Bool
held_by_command nobody = false
held_by_command by_loop = false
held_by_command by_command = true

only_loop : (l : Holder) → held_by_loop l ≡ true → held_by_command l ≡ false
only_loop nobody e = refl
only_loop by_loop e = refl
only_loop by_command e = sym e

only_command : (l : Holder) → held_by_command l ≡ true → held_by_loop l ≡ false
only_command nobody e = refl
only_command by_loop e = sym e
only_command by_command e = refl

module _ {S : Type 0} where
  -- A thread is behind its plugins_lock() exactly when it holds the lock.
  record IsLocked (t : Threads S) : Type 0 where
    pub loop_holds : is_walking t.loop ≡ held_by_loop t.lock
    pub command_holds : is_unloading t.command ≡ held_by_command t.lock

  lock_kept : {t t' : Threads S} → Step t t' → IsLocked t → IsLocked t'
  lock_kept (fetch t e) h = record {
    loop_holds = sym (ap is_walking e) ∙ h.loop_holds;
    command_holds = h.command_holds;
  }
  lock_kept (lock_loop t p e free) h = record {
    loop_holds = refl;
    command_holds = h.command_holds ∙ ap held_by_command free;
  }
  lock_kept (walk t a front back rec e f) h = record {
    loop_holds = refl;
    command_holds = h.command_holds ∙ only_loop t.lock (sym h.loop_holds ∙ ap is_walking e);
  }
  lock_kept (walk_none t e) h = record {
    loop_holds = refl;
    command_holds = h.command_holds ∙ only_loop t.lock (sym h.loop_holds ∙ ap is_walking e);
  }
  lock_kept (locate t name p e f) h = record {
    loop_holds = h.loop_holds;
    command_holds = sym (ap is_unloading e) ∙ h.command_holds;
  }
  lock_kept (lock_command t a e free) h = record {
    loop_holds = h.loop_holds ∙ ap held_by_loop free;
    command_holds = refl;
  }
  lock_kept (unload t a heap e) h = record {
    loop_holds = h.loop_holds ∙ only_command t.lock (sym h.command_holds ∙ ap is_unloading e);
    command_holds = refl;
  }
  lock_kept (load t p heap e free) h = record {
    loop_holds = h.loop_holds;
    command_holds = h.command_holds;
  }

  lock_kept_on : {t last : Threads S} → Steps t last → IsLocked t → IsLocked last
  lock_kept_on stay h = h
  lock_kept_on (go step steps) h = lock_kept_on steps (lock_kept step h)

  never_both : (t : Threads S) → IsLocked t → (is_walking t.loop && is_unloading t.command) ≡ false
  never_both t h = rw (h.loop_holds, h.command_holds) (apart t.lock)
    where
      apart : (l : Holder) → (held_by_loop l && held_by_command l) ≡ false
      apart nobody = refl
      apart by_loop = refl
      apart by_command = refl

  -- In whatever order the two threads take their steps, the list is never walked while a plugin is
  -- being taken out of it.
  pub not_both-Steps :
      (plugins : List (Plugin S)) (h : Heap S) (last : Threads S)
      → Steps (quiet plugins h) last
      → (is_walking last.loop && is_unloading last.command) ≡ false
  not_both-Steps plugins h last steps =
      never_both last (lock_kept_on steps (record { loop_holds = refl; command_holds = refl }))

  not_there :
      (a : ℕ) (plugins : List (Plugin S))
      → All (λ q. (q.state == a) ≡ false) plugins
      → from_node a plugins ≡ none
  unfolding from_node
  not_there a [] h = refl
  not_there a (q ∷ plugins) h = rw (h.0, not_there a plugins h.1) refl

  locate_first :
      (name : Bytes) (p : Plugin S) (plugins : List (Plugin S))
      → is_named name p ≡ true
      → locate_plugin_by_name name (p ∷ plugins) ≡ some p
  unfolding locate_plugin_by_name
  locate_first name p plugins e = rw e refl

  without_first :
      (p : Plugin S) (plugins : List (Plugin S)) → without_node p.state (p ∷ plugins) ≡ plugins
  unfolding without_node
  without_first p plugins = rw (==-refl p.state) refl

  -- The head of the list is read before the lock is taken. So when a command that names the first
  -- plugin unloads it just then, the walk starts at a node that is no longer in the list, and was freed.
  pub walk_dangling :
      (name : Bytes) (p : Plugin S) (plugins : List (Plugin S)) (h : Heap S)
      → is_named name p ≡ true
      → All (λ q. (q.state == p.state) ≡ false) plugins
      → (last : Threads S) × Steps (quiet (p ∷ plugins) h) last
        × (last.loop ≡ walking (some p.state))
        × (from_node p.state last.plugins ≡ none)
  unfolding head_of
  walk_dangling name p plugins h named apart =
      let read = record (quiet (p ∷ plugins) h) { loop = fetched (some p.state) } in
      let found = record read { command = located p.state } in
      let taken = record found { lock = by_command; command = unloading p.state } in
      let gone = record found { plugins = without_node p.state (p ∷ plugins); command = idle } in
      (
        record gone { lock = by_loop; loop = walking (some p.state) },
        go (fetch (quiet (p ∷ plugins) h) refl) (
            go (locate read name p refl (locate_first name p plugins named)) (
              go (lock_command found p.state refl refl) (
                go (unload taken p.state h refl)
                  (go (lock_loop gone (some p.state) refl refl) stay)))),
        refl,
        rw (without_first p plugins) (not_there p.state plugins apart),
      )
