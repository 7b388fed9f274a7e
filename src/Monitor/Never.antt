-- ===== src/Monitor/Never.antt =====
-- START_ON_OPEN with a list of domains that leaves out FILE_OPEN_CLOSE: initialize_monitor and record() of
-- io_monitor/io_monitor.c.
use io_monitor.Prelude.{
  ℕ, true, false, ◌&&◌, ◌||◌, none, some, List, [], ◌∷◌, Bytes, codes, All, ltb, get_elem?,
  test_bit, bit_and-pow_eq_zero, ◌==◌, ◌≡◌, ◌⊎◌, inl, inr, refl, arith, Bool-cases,
}
use io_monitor.Domain.{domain_value, file_open_close}
use io_monitor.Op.{op_value, open_op}
use io_monitor.Tokens.{words}
use io_monitor.Mask.{is_comma}
use io_monitor.Mask.Meaning.{IsNames, contains}
use io_monitor.Monitor.Outside.{Floats, Environment, Answers}
use io_monitor.Monitor.State.{Monitor, Intercept}
use io_monitor.Monitor.Setup.{
  flags_of, set_count_sampling, set_time_sampling, positive, load_library_functions,
  initialize_monitor,
}
use io_monitor.Monitor.Start.{flags_of-some, initialize-flags}
use io_monitor.Monitor.Paused.{wakes, record_intercept-asleep}
use io_monitor.Monitor.Totals.{record_all}
use io_monitor.Monitor.{ignored, decide, conclude, record_intercept}

-- The intercept is of FILE_OPEN_CLOSE if it is an OPEN.
abbrev pub IsFileOpen : Intercept → Type 0
IsFileOpen i =
    ((i.op_type == op_value open_op) ≡ false) ⊎ (i.dom_type ≡ domain_value file_open_close)

-- The monitor is paused, no time starts it, and FILE_OPEN_CLOSE is not monitored.
record IsStuck (m : Monitor) : Type 0 where
  pub paused : m.paused ≡ true
  pub untimed : m.have_elapsed_threshold ≡ false
  pub unmonitored : test_bit m.domain_bit_flags (domain_value file_open_close) ≡ false

ignored-unmonitored :
    (i : Intercept) (m : Monitor)
    → test_bit m.domain_bit_flags i.dom_type ≡ false
    → ignored i m ≡ true
unfolding ignored
ignored-unmonitored i m e = ground (arith, bit_and-pow_eq_zero i.dom_type m.domain_bit_flags, e)

module _ (floats : Floats) where
  wakes-other :
      (i : Intercept) (m : Monitor)
      → (i.op_type == op_value open_op) ≡ false
      → m.have_elapsed_threshold ≡ false
      → wakes floats i m ≡ false
  wakes-other i m other untimed = elim (Bool-cases (ignored i m)) [
    | inl e ↦ rw e refl
    | inr e ↦ rw (e, other, untimed) refl
  ]

  stuck_step :
      (i : Intercept) (os : Answers) (m : Monitor)
      → IsFileOpen i
      → IsStuck m
      → record_intercept floats i os m ≡ some (none, m)
  unfolding record_intercept conclude decide
  stuck_step i os m (inl other) stuck =
      record_intercept-asleep floats i os m (inl other) stuck.paused
        (wakes-other i m other stuck.untimed)
  stuck_step i os m (inr opens) stuck =
      rw (ignored-unmonitored i m (rw opens stuck.unmonitored)) refl

  stuck_run :
      (intercepts : List (Intercept × Answers)) (m : Monitor)
      → All (λ c. IsFileOpen c.0) intercepts
      → IsStuck m
      → record_all floats intercepts m ≡ some ([], m)
  unfolding record_all
  stuck_run [] m h stuck = refl
  stuck_run ((i, os) ∷ intercepts) m (one, h) stuck =
      rw (stuck_step i os m one stuck, record_all, stuck_run intercepts m h stuck) refl

flags_of-missing :
    (names : List Bytes) (i : ℕ) (n l : Bytes)
    → IsNames names
    → get_elem? names i ≡ some n
    → (contains n (words is_comma l) || contains (codes "ALL") (words is_comma l)) ≡ false
    → test_bit (flags_of names (some l)) i ≡ false
flags_of-missing names i n l ok named missing =
    elim (Bool-cases (test_bit (flags_of names (some l)) i)) [
      | inl e ↦ let held = flags_of-some names i n l ok named e in cc
      | inr e ↦ e
    ]

-- The two samplings leave the handlers and the threshold of time as they were.
pub record IsBare (m : Monitor) : Type 0 where
  pub unassigned : m.orig_open ≡ false
  pub untimed : m.have_elapsed_threshold ≡ false

module _ (env : Environment) where
  count-IsBare : (m : Monitor) → IsBare m → IsBare (set_count_sampling env m)
  unfolding set_count_sampling
  count-IsBare m b = elim (Bool-cases (ltb 0 (positive env env.count_sample_frequency))) [
    | inl e ↦ rw e (record { unassigned = b.unassigned; untimed = b.untimed })
    | inr e ↦ rw e b
  ]

  time-IsBare : (m : Monitor) → IsBare m → IsBare (set_time_sampling env m)
  unfolding set_time_sampling
  time-IsBare m b =
      elim (Bool-cases (
        ltb 0 (positive env env.time_sample_frequency)
        && ltb 0 (positive env env.time_sample_duration))) [
          | inl e ↦ rw e (record { unassigned = b.unassigned; untimed = b.untimed })
          | inr e ↦ rw e b
        ]

  module _ (floats : Floats) where
    load-paused :
        (m : Monitor) (name : Bytes)
        → env.start_on_open ≡ some name
        → IsBare m
        → ((load_library_functions env floats m).paused ≡ true)
          × ((load_library_functions env floats m).have_elapsed_threshold ≡ false)
    unfolding load_library_functions
    load-paused m name e b = rw (b.unassigned, e) (refl, b.untimed)

    initialize-paused :
        (names : List Bytes) (m : Monitor) (name : Bytes)
        → env.start_on_open ≡ some name
        → IsBare m
        → ((initialize_monitor env floats names m).paused ≡ true)
          × ((initialize_monitor env floats names m).have_elapsed_threshold ≡ false)
    unfolding initialize_monitor
    initialize-paused names m name e b =
        load-paused _ name e (
          time-IsBare _
            (count-IsBare _ (record { unassigned = b.unassigned; untimed = b.untimed })))

    -- A process whose environment sets START_ON_OPEN and a list of domains with neither
    -- FILE_OPEN_CLOSE nor ALL among its words: after the start, from variables with no handler assigned
    -- and no threshold of time, any intercepts, the OPENs among them of FILE_OPEN_CLOSE, send nothing
    -- and leave every variable as the start set it, whatever paths are opened.
    pub record_all-never_starts :
        (names : List Bytes) (l n name : Bytes) (m : Monitor)
        (intercepts : List (Intercept × Answers))
        → IsNames names
        → get_elem? names (domain_value file_open_close) ≡ some n
        → env.start_on_open ≡ some name
        → env.monitor_domains ≡ some l
        → (contains n (words is_comma l) || contains (codes "ALL") (words is_comma l)) ≡ false
        → IsBare m
        → All (λ c. IsFileOpen c.0) intercepts
        → record_all floats intercepts (initialize_monitor env floats names m)
          ≡ some ([], initialize_monitor env floats names m)
    record_all-never_starts names l n name m intercepts ok named opens listed missing b h =
        stuck_run floats intercepts (initialize_monitor env floats names m) h (record {
          paused = (initialize-paused names m name opens b).0;
          untimed = (initialize-paused names m name opens b).1;
          unmonitored =
              rw (initialize-flags env floats names m, listed)
                (flags_of-missing names (domain_value file_open_close) n l ok named missing);
        })
