-- ===== src/Monitor/Start.antt =====
-- initialize_monitor of io_monitor/io_monitor.c: which domains the environment lets record() report.
use io_monitor.Prelude.{
  ℕ, true, ◌&&◌, ◌||◌, Option, none, some, List, Bytes, codes, str_eq, str_eq_iff, get_elem?,
  test_bit, ltb, ◌≡◌, refl, arith, inl, inr, Bool-cases, ◌∙◌,
}
use io_monitor.Tokens.{words}
use io_monitor.Mask.{is_comma, domain_list_to_bit_mask}
use io_monitor.Mask.Meaning.{IsNames, contains, domain_list_to_bit_mask-test_bit}
use io_monitor.Monitor.Outside.{Floats, Environment}
use io_monitor.Monitor.State.{Monitor}
use io_monitor.Monitor.Setup.{
  flags_of, set_count_sampling, set_time_sampling, load_library_functions, initialize_monitor,
  positive, set_threshold, set_pause,
}

-- "ALL" is a word of itself.
all_word : contains (codes "ALL") (words is_comma (codes "ALL")) ≡ true
unfolding words str_eq
all_word = refl

pub flags_of-some :
    (names : List Bytes) (i : ℕ) (n l : Bytes)
    → IsNames names
    → get_elem? names i ≡ some n
    → test_bit (flags_of names (some l)) i ≡ true
    → (contains n (words is_comma l) || contains (codes "ALL") (words is_comma l)) ≡ true
unfolding flags_of
flags_of-some names i n l ok named h = elim (Bool-cases (str_eq l (codes "ALL"))) [
  | inl e ↦ rw ((str_eq_iff l (codes "ALL")).0 e) (rw all_word (ground arith))
  | inr e ↦
      let b : test_bit (domain_list_to_bit_mask names l) i ≡ true = rw e at h in
      rw (← domain_list_to_bit_mask-test_bit names i n l ok named) b
]

module _ (env : Environment) where
  count-flags : (m : Monitor) → (set_count_sampling env m).domain_bit_flags ≡ m.domain_bit_flags
  unfolding set_count_sampling
  count-flags m = elim (Bool-cases (ltb 0 (positive env env.count_sample_frequency))) [
    | inl e ↦ rw e refl
    | inr e ↦ rw e refl
  ]

  time-flags : (m : Monitor) → (set_time_sampling env m).domain_bit_flags ≡ m.domain_bit_flags
  unfolding set_time_sampling
  time-flags m =
      elim (Bool-cases (
        ltb 0 (positive env env.time_sample_frequency)
        && ltb 0 (positive env env.time_sample_duration))) [ inl e ↦ rw e refl | inr e ↦ rw e refl ]

  module _ (floats : Floats) where
    threshold-flags :
        (o : Option Bytes) (m : Monitor)
        → (set_threshold env floats o m).domain_bit_flags ≡ m.domain_bit_flags
    threshold-flags none m = refl
    threshold-flags (some text) m =
        elim (Bool-cases (floats.less (floats.literal (codes "0.1")) (floats.atof text))) [
          | inl e ↦ rw e refl
          | inr e ↦ rw e refl
        ]

    pause-flags :
        (o : Option Bytes) (m : Monitor)
        → (set_pause env floats o m).domain_bit_flags ≡ m.domain_bit_flags
    pause-flags none m = threshold-flags env.start_on_elapsed _
    pause-flags (some name) m = refl

    load-flags :
        (m : Monitor) → (load_library_functions env floats m).domain_bit_flags ≡ m.domain_bit_flags
    unfolding load_library_functions
    load-flags m = elim (Bool-cases m.orig_open) [
      | inl e ↦ rw e refl
      | inr e ↦ rw e (pause-flags env.start_on_open _)
    ]

    pub initialize-flags :
        (names : List Bytes) (m : Monitor)
        → (initialize_monitor env floats names m).domain_bit_flags
          ≡ flags_of names env.monitor_domains
    unfolding initialize_monitor
    initialize-flags names m = load-flags _ ∙ (time-flags _ ∙ count-flags _)
