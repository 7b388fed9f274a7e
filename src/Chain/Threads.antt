-- ===== src/Chain/Threads.antt =====
-- The lock of mq_listener/plugin_chain.c: the thread that runs execute_plugin_chain and the thread that
-- runs commands, in the steps into which the lock divides them. A node of the list is known by the
-- address of its plugin's state.
use io_monitor.Prelude.{ℕ, Option, none, some, List, [], ◌∷◌, ◌++◌, Bytes, ◌==◌, if◌then◌else◌, ◌≡◌}
use io_monitor.Record.{MonitorRecord}
use io_monitor.Chain.{Heap, Plugin, execute_plugin_chain, locate_plugin_by_name, link_last}

-- `plugin_mutex`
pub data Holder : Type 0 where
  nobody by_loop by_command : Holder

-- In execute_plugin_chain: outside, behind `p = plugins`, and behind plugins_lock().
pub data LoopPlace : Type 0 where
  resting : LoopPlace
  fetched : Option ℕ → LoopPlace
  walking : Option ℕ → LoopPlace

-- In unload_plugin_by_name: outside, behind locate_plugin_by_name, and behind plugins_lock().
pub data CommandPlace : Type 0 where
  idle : CommandPlace
  located : ℕ → CommandPlace
  unloading : ℕ → CommandPlace

pub record Threads (S : Type 0) : Type 0 where
  pub plugins : List (Plugin S)
  pub heap : Heap S
  pub lock : Holder
  pub loop : LoopPlace
  pub command : CommandPlace

module _ {S : Type 0} where
  unfoldable pub head_of : List (Plugin S) → Option ℕ
  head_of [] = none
  head_of (p ∷ plugins) = some p.state

  -- The nodes in front of one, and those from it on; `none` when it is not in the list.
  unfoldable pub from_node : ℕ → List (Plugin S) → Option (List (Plugin S) × List (Plugin S))
  from_node a [] = none
  from_node a (p ∷ plugins) =
      if p.state == a
      then some ([], p ∷ plugins)
      else elim (from_node a plugins) [ none ↦ none | some r ↦ some (p ∷ r.0, r.1) ]

  -- `i->next_plugin = p->next_plugin`, or `plugins = p->next_plugin` at the head.
  unfoldable pub without_node : ℕ → List (Plugin S) → List (Plugin S)
  without_node a [] = []
  without_node a (p ∷ plugins) = if p.state == a then plugins else p ∷ without_node a plugins

  -- A walk goes on from its node in the list as it is then. Closing and opening a plugin may leave any
  -- heap.
  pub data Step : Threads S → Threads S → Type 0 where
    fetch :
        (t : Threads S)
        → t.loop ≡ resting
        → Step t (record t { loop = fetched (head_of t.plugins) })
    lock_loop :
        (t : Threads S) (p : Option ℕ)
        → t.loop ≡ fetched p
        → t.lock ≡ nobody
        → Step t (record t { lock = by_loop; loop = walking p })
    walk :
        (t : Threads S) (a : ℕ) (front back : List (Plugin S)) (rec : MonitorRecord)
        → t.loop ≡ walking (some a)
        → from_node a t.plugins ≡ some (front, back)
        → Step t (record t {
          plugins = front ++ (execute_plugin_chain back rec t.heap).plugins;
          heap = (execute_plugin_chain back rec t.heap).heap;
          lock = nobody;
          loop = resting;
        })
    walk_none :
        (t : Threads S)
        → t.loop ≡ walking none
        → Step t (record t { lock = nobody; loop = resting })
    locate :
        (t : Threads S) (name : Bytes) (p : Plugin S)
        → t.command ≡ idle
        → locate_plugin_by_name name t.plugins ≡ some p
        → Step t (record t { command = located p.state })
    lock_command :
        (t : Threads S) (a : ℕ)
        → t.command ≡ located a
        → t.lock ≡ nobody
        → Step t (record t { lock = by_command; command = unloading a })
    unload :
        (t : Threads S) (a : ℕ) (h : Heap S)
        → t.command ≡ unloading a
        → Step t (record t {
          plugins = without_node a t.plugins;
          heap = h;
          lock = nobody;
          command = idle;
        })
    load :
        (t : Threads S) (p : Plugin S) (h : Heap S)
        → t.command ≡ idle
        → t.lock ≡ nobody
        → Step t (record t { plugins = link_last p t.plugins; heap = h })

  pub data Steps : Threads S → Threads S → Type 0 where
    stay : {t : Threads S} → Steps t t
    go : {t next last : Threads S} → Step t next → Steps next last → Steps t last

  -- Both threads outside.
  abbrev pub quiet : List (Plugin S) → Heap S → Threads S
  quiet plugins h = record {
    plugins = plugins;
    heap = h;
    lock = nobody;
    loop = resting;
    command = idle;
  }
