-- ===== src/Monitor/Paused.antt =====
-- The pause of record() of io_monitor/io_monitor.c: what ends it, and what comes before and after that.
use io_monitor.Prelude.{
  Bool, true, false, not, ◌&&◌, ◌||◌, none, some, List, [], ◌∷◌, ◌++◌, codes, str_eq, ◌==◌, ◌≡◌,
  refl, inl, inr, All, Bool-cases, if◌then◌else◌,
}
use io_monitor.Op.{op_value, open_op}
use io_monitor.Record.{MonitorRecord}
use io_monitor.Monitor.Outside.{Floats, Answers}
use io_monitor.Monitor.State.{Monitor, Intercept, returns, goes_on, ◌>>=◌}
use io_monitor.Monitor.Keeps.{HasPath, record_intercept-keeps}
use io_monitor.Monitor.Totals.{record_all, with_sent}
use io_monitor.Monitor.{
  ignored, opens_start, check_path, check_open, check_elapsed, elapsed_of, decide, conclude,
  record_intercept,
}

-- The intercept is an OPEN of the current or of the parent directory.
abbrev pub opens_dot : Intercept → Bool
opens_dot i =
    i.op_type == op_value open_op
    && elim i.s1 [ none ↦ false | some s1 ↦ str_eq s1 (codes ".") || str_eq s1 (codes "..") ]

-- The path of an OPEN contains the text that starts the monitor.
abbrev pub starts_by_path : Intercept → Monitor → Bool
starts_by_path i m =
    i.op_type == op_value open_op
    && elim i.s1 [ none ↦ false | some s1 ↦ opens_start s1 m.start_on_open ]

-- The call took longer than the threshold.
abbrev pub starts_by_time : Floats → Intercept → Monitor → Bool
starts_by_time floats i m =
    m.have_elapsed_threshold && floats.less m.elapsed_threshold (elapsed_of floats i)

-- The intercept ends the pause: it is not ignored, and its path or its time starts the monitor.
abbrev pub wakes : Floats → Intercept → Monitor → Bool
wakes floats i m =
    not (ignored i m) && not (opens_dot i) && (starts_by_path i m || starts_by_time floats i m)

abbrev awake : Monitor → Monitor
awake m = record m { paused = false }

open-dot :
    (i : Intercept) (m : Monitor) → HasPath i → opens_dot i ≡ true → check_open i m ≡ returns m
unfolding check_open check_path
open-dot i m (inl other) h = let no : false ≡ true = rw other at h in cc
open-dot i m (inr (s1, e)) h = elim (Bool-cases (i.op_type == op_value open_op)) [
  | inl e' ↦
      let dot : (str_eq s1 (codes ".") || str_eq s1 (codes "..")) ≡ true = rw (e', e) at h in
      rw (e', e, dot) refl
  | inr e' ↦ let no : false ≡ true = rw e' at h in cc
]

open-asleep :
    (i : Intercept) (m : Monitor)
    → HasPath i
    → m.paused ≡ true
    → opens_dot i ≡ false
    → check_open i m ≡ (if starts_by_path i m then goes_on (awake m) else goes_on m)
unfolding check_open check_path
open-asleep i m (inl other) p h = rw other refl
open-asleep i m (inr (s1, e)) p h = elim (Bool-cases (i.op_type == op_value open_op)) [
  | inl e' ↦
      let dot : (str_eq s1 (codes ".") || str_eq s1 (codes "..")) ≡ false = rw (e', e) at h in
      rw (e', e, dot, p) refl
  | inr e' ↦ rw e' refl
]

open-awake :
    (i : Intercept) (m : Monitor)
    → HasPath i
    → m.paused ≡ false
    → opens_dot i ≡ false
    → check_open i m ≡ goes_on m
unfolding check_open check_path
open-awake i m (inl other) p h = rw other refl
open-awake i m (inr (s1, e)) p h = elim (Bool-cases (i.op_type == op_value open_op)) [
  | inl e' ↦
      let dot : (str_eq s1 (codes ".") || str_eq s1 (codes "..")) ≡ false = rw (e', e) at h in
      rw (e', e, dot, p) refl
  | inr e' ↦ rw e' refl
]

module _ (floats : Floats) where
  elapsed-asleep :
      (i : Intercept) (m : Monitor)
      → m.paused ≡ true
      → check_elapsed floats i m
        ≡ (if starts_by_time floats i m then goes_on (awake m) else returns m)
  unfolding check_elapsed
  elapsed-asleep i m p = rw p refl

  elapsed-awake :
      (i : Intercept) (m : Monitor) → m.paused ≡ false → check_elapsed floats i m ≡ goes_on m
  unfolding check_elapsed
  elapsed-awake i m p = rw p refl

  -- What a paused monitor does with an intercept that is not ignored.
  begin-asleep :
      (i : Intercept) (m : Monitor)
      → HasPath i
      → m.paused ≡ true
      → (check_open i m >>= check_elapsed floats i) ≡ (
          if not (opens_dot i) && (starts_by_path i m || starts_by_time floats i m)
          then goes_on (awake m)
          else returns m)
  begin-asleep i m path p = elim (Bool-cases (opens_dot i)) [
    | inl dot ↦ rw (open-dot i m path dot, dot) refl
    | inr dot ↦ elim (Bool-cases (starts_by_path i m)) [
      | inl opens ↦ rw (open-asleep i m path p dot, opens, elapsed-awake i (awake m) refl, dot) refl
      | inr closed ↦ rw (open-asleep i m path p dot, closed, elapsed-asleep i m p, dot) refl
    ]
  ]

  begin-awake :
      (i : Intercept) (m : Monitor)
      → HasPath i
      → m.paused ≡ false
      → opens_dot i ≡ false
      → (check_open i m >>= check_elapsed floats i) ≡ goes_on m
  begin-awake i m path p dot = rw (open-awake i m path p dot, elapsed-awake i m p) refl

  decide-asleep :
      (i : Intercept) (os : Answers) (m : Monitor)
      → HasPath i
      → m.paused ≡ true
      → decide floats i os m
        ≡ (if wakes floats i m then decide floats i os (awake m) else returns m)
  unfolding decide
  decide-asleep i os m path p = elim (Bool-cases (ignored i m)) [
    | inl e ↦ rw e refl
    | inr e ↦ elim (Bool-cases (opens_dot i)) [
      | inl dot ↦ rw (e, begin-asleep i m path p, dot) refl
      | inr dot ↦ elim (Bool-cases (starts_by_path i m || starts_by_time floats i m)) [
        | inl starts ↦
            rw (e, begin-asleep i m path p, dot, starts, begin-awake i (awake m) path refl dot) refl
        | inr stays ↦ rw (e, begin-asleep i m path p, dot, stays) refl
      ]
    ]
  ]

  -- An intercept that does not end the pause: nothing is sent, and every variable stays as it was.
  pub record_intercept-asleep :
      (i : Intercept) (os : Answers) (m : Monitor)
      → HasPath i
      → m.paused ≡ true
      → wakes floats i m ≡ false
      → record_intercept floats i os m ≡ some (none, m)
  unfolding record_intercept conclude
  record_intercept-asleep i os m path p h = rw (decide-asleep i os m path p, h) refl

  record_intercept-woken :
      (i : Intercept) (os : Answers) (m : Monitor)
      → HasPath i
      → m.paused ≡ true
      → wakes floats i m ≡ true
      → record_intercept floats i os m ≡ record_intercept floats i os (awake m)
  unfolding record_intercept
  record_intercept-woken i os m path p h = rw (decide-asleep i os m path p, h) refl

  -- A monitor that is not paused is never paused again.
  record_all-awake :
      (intercepts : List (Intercept × Answers)) (m : Monitor)
      → All (λ c. HasPath c.0) intercepts
      → m.paused ≡ false
      → (recs : List MonitorRecord) × (m' : Monitor) × (record_all floats intercepts m
          ≡ some (recs, m'))
        × (m'.paused ≡ false)
  unfolding record_all
  record_all-awake [] m h p = ([], m, refl, p)
  record_all-awake ((i, os) ∷ intercepts) m (path, h) p =
      let (o, m1, e, p1) =
        record_intercept-keeps floats (λ m. m.paused ≡ false)
          (record { started = λ m h. refl; counted = λ m c below h. h; turned = λ m w t h. h })
          (record {
            retried = λ m r w h. h;
            looked_up = λ m key id h. h;
            connected = λ m n h. h;
            counted = λ m n k h. h;
          })
          i os m path p in
      let (recs, m', e', p') = record_all-awake intercepts m1 h p1 in
      (with_sent o recs, m', rw (e, record_all, e') refl, p')

  -- A paused monitor, and intercepts that have a path where they are OPENs. Those in front of the first
  -- one that is not ignored and starts the monitor by its path or by its time change nothing and send
  -- nothing. From that one on, itself included, the monitor sends the records, and ends with the
  -- variables, of one that was never paused; it does return, and is not paused at the end.
  pub record_all-wakes :
      (quiet rest : List (Intercept × Answers)) (i : Intercept) (os : Answers) (m : Monitor)
      → m.paused ≡ true
      → All (λ c. HasPath c.0 × (wakes floats c.0 m ≡ false)) quiet
      → wakes floats i m ≡ true
      → All (λ c. HasPath c.0) ((i, os) ∷ rest)
      → (recs : List MonitorRecord) × (m' : Monitor) × (record_all floats
            (quiet ++ (i, os) ∷ rest)
            m
          ≡ some (recs, m'))
        × (record_all floats ((i, os) ∷ rest) (record m { paused = false }) ≡ some (recs, m'))
        × (m'.paused ≡ false)
  unfolding record_all
  record_all-wakes [] rest i os m p h w paths =
      let (recs, m', e, p') = record_all-awake ((i, os) ∷ rest) (awake m) paths refl in
      (recs, m', rw (record_intercept-woken i os m paths.0 p w) e, e, p')
  record_all-wakes ((i1, os1) ∷ quiet) rest i os m p ((path, asleep), h) w paths =
      let (recs, m', e, e', p') = record_all-wakes quiet rest i os m p h w paths in
      (recs, m', rw (record_intercept-asleep i1 os1 m path p asleep, e) refl, e', p')
