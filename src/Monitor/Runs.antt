-- ===== src/Monitor/Runs.antt =====
-- Runs of record() of io_monitor/io_monitor.c: what holds after any intercepts.
use io_monitor.Prelude.{
  ◌||◌, true, Option, some, List, Bytes, codes, get_elem?, ◌≡◌, refl, ap, sym, subst, ◌∙◌,
}
use mathlib.Core.Option.{some-injective}
use io_monitor.Tokens.{words}
use io_monitor.Mask.{is_comma}
use io_monitor.Mask.Meaning.{IsNames, contains}
use io_monitor.Record.{MonitorRecord}
use io_monitor.Monitor.Outside.{Floats, Environment, Answers}
use io_monitor.Monitor.State.{Monitor, Intercept}
use io_monitor.Monitor.Setup.{flags_of, initialize_monitor}
use io_monitor.Monitor.Keeps.{HasPath, IsDecided, IsSent, record_intercept-keeps}
use io_monitor.Monitor.Contents.{record_intercept-Tells}
use io_monitor.Monitor.Start.{flags_of-some, initialize-flags}
use io_monitor.Monitor.{record_intercept}

-- The states that intercepts lead to from `m`; those that report an OPEN have a path.
pub data Ran (floats : Floats) (m : Monitor) : Monitor → Type 0 where
  at_start : Ran floats m m
  then_record :
      (i : Intercept) (os : Answers) (m1 : Monitor) (o : Option MonitorRecord) (m2 : Monitor)
      → Ran floats m m1
      → HasPath i
      → record_intercept floats i os m1 ≡ some (o, m2)
      → Ran floats m m2

module _ (floats : Floats) where
  -- A predicate that every assignment of record() keeps holds after any intercepts.
  pub Ran-keeps :
      (P : Monitor → Type 0) {m m' : Monitor}
      → IsDecided P
      → IsSent P
      → P m
      → Ran floats m m'
      → P m'
  Ran-keeps P decided sent h at_start = h
  Ran-keeps P decided sent h (then_record i os m1 o m2 before path e) =
      let (o', m', e', h') =
        record_intercept-keeps floats P decided sent i os m1 path
          (Ran-keeps P decided sent h before) in
      subst P (ap (λ r. r.1) (some-injective (o', m') (o, m2) (sym e' ∙ e))) h'

  Ran-flags : {m m' : Monitor} → Ran floats m m' → m'.domain_bit_flags ≡ m.domain_bit_flags
  Ran-flags {m} {m'} ran =
      Ran-keeps (λ m1. m1.domain_bit_flags ≡ m.domain_bit_flags)
        (record { started = λ m h. h; counted = λ m c below h. h; turned = λ m w t h. h })
        (record {
          retried = λ m r w h. h;
          looked_up = λ m key id h. h;
          connected = λ m n h. h;
          counted = λ m n k h. h;
        })
        refl ran

  -- Let the environment name a list of domains, and `n` be the name of the domain of an intercept in a
  -- table of END_DOMAINS distinct names. If a record of it is sent after the monitor was initialized
  -- and any intercepts were recorded, those that report an OPEN with a path, then `n` or "ALL" is among
  -- the words between the commas of the list.
  pub Ran-record_intercept :
      (env : Environment) (names : List Bytes) (l n : Bytes) (m0 m : Monitor) (i : Intercept)
      (os : Answers) (rec : MonitorRecord) (m' : Monitor)
      → IsNames names
      → get_elem? names i.dom_type ≡ some n
      → env.monitor_domains ≡ some l
      → Ran floats (initialize_monitor env floats names m0) m
      → record_intercept floats i os m ≡ some (some rec, m')
      → (contains n (words is_comma l) || contains (codes "ALL") (words is_comma l)) ≡ true
  Ran-record_intercept env names l n m0 m i os rec m' ok named listed ran sent =
      let watched = (record_intercept-Tells floats i os m rec m' sent).0 in
      let flags : m.domain_bit_flags ≡ flags_of names (some l) =
        Ran-flags ran ∙ (initialize-flags env floats names m0 ∙ ap (flags_of names) listed) in
      flags_of-some names i.dom_type n l ok named (rw (← flags) watched.monitored)
