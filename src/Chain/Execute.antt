-- ===== src/Chain/Execute.antt =====
-- execute_plugin_chain of mq_listener/plugin_chain.c: pauses, drops, and what a run leaves alone.
use io_monitor.Prelude.{
  ℕ, ℤ, Bool, false, ◌||◌, ◌&&◌, not, Option, List, [], ◌∷◌, ◌++◌, Bytes, map, All, ◌==◌, ◌==ℤ◌,
  if◌then◌else◌, ◌≡◌, refl, ap, arith, Bool-cases, inl, inr,
}
use io_monitor.Plugin.{plugin_accept_data, plugin_refuse_data, plugin_drop_data}
use io_monitor.Record.{MonitorRecord}
use io_monitor.Chain.{Heap, store, Plugin, Run, resume, deliver, visit, execute_plugin_chain}

module _ {S : Type 0} where
  -- The plugin is given the record: it is not paused, or it is and says that it takes data again.
  abbrev pub takes : Plugin S → Heap S → Bool
  takes p h = not p.plugin_paused || (p.pfn_ok_to_accept_data (h p.state)).0 ==ℤ plugin_accept_data

  -- Its state by then.
  abbrev pub ready_state : Plugin S → Heap S → S
  ready_state p h = if p.plugin_paused then (p.pfn_ok_to_accept_data (h p.state)).1 else h p.state

  -- Its answer.
  abbrev pub answer : Plugin S → MonitorRecord → Heap S → ℤ × MonitorRecord × S
  answer p rec h = p.pfn_process_data rec (ready_state p h)

  pub store_self : (h : Heap S) (p : ℕ) (v : S) → store h p v p ≡ v
  unfolding store
  store_self h p v = ground arith

  store_ne : (h : Heap S) (p q : ℕ) (v : S) → (q == p) ≡ false → store h p v q ≡ h q
  unfolding store
  store_ne h p q v e = rw e

  -- A round gives the record to the plugin exactly if the plugin is not paused or says that it takes
  -- data again. Afterwards the plugin is paused exactly if it was not given the record or refused it;
  -- the record is dropped exactly if it was given and the answer was PLUGIN_DROP_DATA; and the record
  -- is changed by that answer alone.
  pub visit_lem :
      (p : Plugin S) (rec : MonitorRecord) (h : Heap S)
      → ((visit p rec h).plugin.plugin_paused
          ≡ (not (takes p h) || (answer p rec h).0 ==ℤ plugin_refuse_data))
        × ((visit p rec h).dropped ≡ (takes p h && (answer p rec h).0 ==ℤ plugin_drop_data))
        × ((visit p rec h).rec ≡ (if takes p h then (answer p rec h).1 else rec))
        × ((visit p rec h).heap p.state
            ≡ (if takes p h then (answer p rec h).2 else ready_state p h))
  unfolding visit resume deliver store
  visit_lem p rec h = ground arith

  -- Whether some plugin of the list drops the record.
  abbrev pub stops : List (Plugin S) → MonitorRecord → Heap S → Bool
  stops [] rec h = false
  stops (p ∷ ps) rec h =
      (visit p rec h).dropped || stops ps (visit p rec h).rec (visit p rec h).heap

  abbrev pub then_run : Run S → List (Plugin S) → Run S
  then_run r back =
      let r' = execute_plugin_chain back r.rec r.heap in
      record { plugins = r.plugins ++ r'.plugins; rec = r'.rec; heap = r'.heap }

  -- A chain runs its front part; if a plugin there drops the record, the back part is left as it is,
  -- and otherwise it runs on the record and the states that the front part leaves.
  pub execute-append :
      (front back : List (Plugin S)) (rec : MonitorRecord) (h : Heap S)
      → execute_plugin_chain (front ++ back) rec h ≡ (
          if stops front rec h
          then (let r = execute_plugin_chain front rec h in
              record r { plugins = r.plugins ++ back })
          else then_run (execute_plugin_chain front rec h) back)
  unfolding execute_plugin_chain
  execute-append [] back rec h = refl
  execute-append (p ∷ front) back rec h =
      let v = visit p rec h in
      elim (Bool-cases v.dropped) [
        | inl e ↦ rw e
        | inr e ↦ rw e (
            rw (execute-append front back v.rec v.heap)
              (elim (Bool-cases (stops front v.rec v.heap)) [ inl d ↦ rw d | inr d ↦ rw d ]))
      ]

  visit-frame :
      (p : Plugin S) (rec : MonitorRecord) (h : Heap S) (q : ℕ)
      → (q == p.state) ≡ false
      → (visit p rec h).heap q ≡ h q
  unfolding visit resume deliver store
  visit-frame p rec h q e = ground arith

  -- A run changes no state but those of the plugins of the list.
  pub execute-frame :
      (ps : List (Plugin S)) (rec : MonitorRecord) (h : Heap S) (q : ℕ)
      → All (λ p. (q == p.state) ≡ false) ps
      → (execute_plugin_chain ps rec h).heap q ≡ h q
  unfolding execute_plugin_chain
  execute-frame [] rec h q apart = refl
  execute-frame (p ∷ ps) rec h q apart =
      let v = visit p rec h in
      ground (arith, visit-frame p rec h q apart.0, execute-frame ps v.rec v.heap q apart.1)

  -- What identifies a plugin: its library, options, alias and the cell of its state.
  abbrev pub identity : Plugin S → Bytes × Option Bytes × Option Bytes × ℕ
  identity p = (p.plugin_library, p.plugin_options, p.plugin_alias, p.state)

  visit-identity :
      (p : Plugin S) (rec : MonitorRecord) (h : Heap S)
      → identity (visit p rec h).plugin ≡ identity p
  unfolding visit resume deliver
  visit-identity p rec h = ground arith

  -- A run keeps the plugins of the chain in their order, each with its library, its options, its alias
  -- and the cell of its state.
  pub execute-identity :
      (ps : List (Plugin S)) (rec : MonitorRecord) (h : Heap S)
      → map identity (execute_plugin_chain ps rec h).plugins ≡ map identity ps
  unfolding execute_plugin_chain
  execute-identity [] rec h = refl
  execute-identity (p ∷ ps) rec h =
      let v = visit p rec h in
      elim (Bool-cases v.dropped) [
        | inl e ↦ rw e (ap (λ t. t ∷ map identity ps) (visit-identity p rec h))
        | inr e ↦ rw e (
            rw (execute-identity ps v.rec v.heap)
              (ap (λ t. t ∷ map identity ps) (visit-identity p rec h)))
      ]
