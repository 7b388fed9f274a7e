-- ===== src/Monitor/Sound.antt =====
-- The variables of io_monitor/io_monitor.c after any intercepts: the invariant of record().
use io_monitor.Prelude.{
  ◌^◌, ◌<◌, pos, ltb_ℤ, ltb, true, ◌&&◌, Option, none, some, List, [], ◌∷◌, ◌++◌, Bytes, codes,
  str_eq, length, length-append, ◌≡◌, refl, ◌⊎◌, inl, inr, Bool-cases, arith,
}
use io_monitor.CharArray.{zeros, strncpy, is_terminated}
use io_monitor.CharArray.Laws.{length-strncpy}
use io_monitor.Mask.Meaning.{domain_list_to_bit_mask-lt}
use io_monitor.Record.{fd_none}
use io_monitor.Monitor.Outside.{Floats, Environment}
use io_monitor.Monitor.State.{Monitor, initial}
use io_monitor.Monitor.Setup.{
  facility_of, flags_of, positive, set_count_sampling, set_time_sampling, set_threshold, set_pause,
  load_library_functions, initialize_monitor,
}
use io_monitor.Monitor.Keeps.{IsDecided, IsSent, kept-if}
use io_monitor.Monitor.Runs.{Ran, Ran-keeps}

-- The array `facility` is whole and holds a terminated text, the mask fits an `unsigned int`, no
-- descriptor of a socket is kept, and what is counted towards the next sample is 0 or below the frequency.
abbrev pub IsSound : Monitor → Type 0
IsSound m =
    (length m.facility ≡ 5)
    × (is_terminated m.facility ≡ true)
    × (m.domain_bit_flags < 2 ^ 32)
    × (m.socket_fd ≡ fd_none)
    × ((m.count_intercepts_since_last_report ≡ 0)
        ⊎ (ltb_ℤ (pos m.count_intercepts_since_last_report) m.count_based_sample_frequency ≡ true))

IsSound-IsDecided : IsDecided IsSound
IsSound-IsDecided = record {
  started = λ m h. h;
  counted = λ m c below (whole, ended, mask, socket, count). (whole, ended, mask, socket, below);
  turned = λ m w t h. h;
}

IsSound-IsSent : IsSent IsSound
IsSound-IsSent = record {
  retried = λ m r w h. h;
  looked_up = λ m key id h. h;
  connected = λ m n (whole, ended, mask, socket, count). (whole, ended, mask, refl, count);
  counted = λ m n k h. h;
}

is_terminated-append_zero : (a : Bytes) → is_terminated (a ++ 0 ∷ []) ≡ true
unfolding is_terminated
is_terminated-append_zero [] = refl
is_terminated-append_zero (c ∷ a) = ground (arith, is_terminated-append_zero a)

facility_of-whole : (o : Option Bytes) → length (facility_of o) ≡ 5
unfolding facility_of zeros
facility_of-whole none = refl
facility_of-whole (some text) =
    omega (arith, length-append (strncpy 4 text) (0 ∷ []), length-strncpy 4 text)

facility_of-is_terminated : (o : Option Bytes) → is_terminated (facility_of o) ≡ true
unfolding facility_of zeros
facility_of-is_terminated none = unfold is_terminated in refl
facility_of-is_terminated (some text) = is_terminated-append_zero (strncpy 4 text)

flags_of-lt : (names : List Bytes) (o : Option Bytes) → flags_of names o < 2 ^ 32
unfolding flags_of
flags_of-lt names none = omega arith
flags_of-lt names (some l) = elim (Bool-cases (str_eq l (codes "ALL"))) [
  | inl e ↦ rw e (omega arith)
  | inr e ↦ rw e (domain_list_to_bit_mask-lt names l)
]

-- Before the first intercept nothing is counted.
abbrev IsFresh : Monitor → Type 0
IsFresh m = IsSound m × (m.count_intercepts_since_last_report ≡ 0)

module _ (env : Environment) where
  set_count-IsFresh : (m : Monitor) → IsFresh m → IsFresh (set_count_sampling env m)
  unfolding set_count_sampling
  set_count-IsFresh m (h, none_yet) =
      kept-if IsFresh (ltb 0 (positive env env.count_sample_frequency)) _ m
        ((h.0, h.1, h.2, h.3, inl none_yet), none_yet) (h, none_yet)

  set_time-IsFresh : (m : Monitor) → IsFresh m → IsFresh (set_time_sampling env m)
  unfolding set_time_sampling
  set_time-IsFresh m h =
      kept-if IsFresh
        (ltb 0 (positive env env.time_sample_frequency)
          && ltb 0 (positive env env.time_sample_duration))
        _ m h h

  module _ (floats : Floats) where
    threshold-IsFresh :
        (o : Option Bytes) (m : Monitor) → IsFresh m → IsFresh (set_threshold env floats o m)
    threshold-IsFresh none m h = h
    threshold-IsFresh (some text) m h =
        kept-if IsFresh (floats.less (floats.literal (codes "0.1")) (floats.atof text)) _ m h h

    pause-IsFresh :
        (o : Option Bytes) (m : Monitor) → IsFresh m → IsFresh (set_pause env floats o m)
    pause-IsFresh none m h = threshold-IsFresh env.start_on_elapsed _ h
    pause-IsFresh (some name) m h = h

    load-IsFresh : (m : Monitor) → IsFresh m → IsFresh (load_library_functions env floats m)
    unfolding load_library_functions
    load-IsFresh m h = kept-if IsFresh m.orig_open m _ h (pause-IsFresh env.start_on_open m h)

    initialize-IsFresh :
        (names : List Bytes) → IsFresh (initialize_monitor env floats names (initial floats))
    unfolding initialize_monitor initial
    initialize-IsFresh names = load-IsFresh _ (
        set_time-IsFresh _ (
          set_count-IsFresh _ (
            (
              facility_of-whole env.facility_id,
              facility_of-is_terminated env.facility_id,
              flags_of-lt names env.monitor_domains,
              refl,
              inl refl,
            ),
            refl,
          )))

    -- After the start, whatever the environment is and the table of names holds, and after any
    -- intercepts, those that report an OPEN with a path: the array `facility` has its five bytes and a
    -- NUL among them, the mask of the domains is below 2 ^ 32, socket_fd is FD_NONE, and what is counted
    -- towards the next sample is 0 or below the frequency.
    pub Ran-IsSound :
        (names : List Bytes) (m : Monitor)
        → Ran floats (initialize_monitor env floats names (initial floats)) m
        → IsSound m
    Ran-IsSound names m ran =
        Ran-keeps floats IsSound IsSound-IsDecided IsSound-IsSent (initialize-IsFresh names).0 ran
