-- ===== src/Monitor/Sampling.antt =====
-- The two samplings of record() of io_monitor/io_monitor.c.
use io_monitor.Prelude.{
  ℕ, zero, suc, ◌+◌, ◌*◌, ◌%◌, ◌^◌, ◌≤◌, ◌<◌, pos, ltb_ℤ, true, false, if◌then◌else◌, ltb, leb,
  ◌==◌, ◌≡◌, refl, arith, ◌⊎◌, inl, inr, Bool-cases,
}
use io_monitor.Monitor.State.{Monitor, Step, returns, goes_on, undefined}
use io_monitor.Monitor.{sample_count, sample_time, turn}

-- `n` intercepts come to the count-based sampling: how many of them go on, and the variables left.
abbrev pub counted : Step → ℕ × Monitor → ℕ × Monitor
counted undefined rest = rest
counted (returns m) (n, m') = (n, m')
counted (goes_on m) (n, m') = (suc n, m')

abbrev pub left_by : Step → Monitor → Monitor
left_by undefined m = m
left_by (returns m') m = m'
left_by (goes_on m') m = m'

abbrev pub sample_counts : ℕ → Monitor → ℕ × Monitor
sample_counts zero m = (0, m)
sample_counts (suc n) m = counted (sample_count m) (sample_counts n (left_by (sample_count m) m))

count_below :
    (f : ℕ) (m : Monitor)
    → m.count_based_sampling ≡ true
    → m.count_based_sample_frequency ≡ pos (suc f)
    → m.count_intercepts_since_last_report < f
    → sample_count m
      ≡ returns (record m {
        count_intercepts_since_last_report = m.count_intercepts_since_last_report + 1;
      })
unfolding sample_count
count_below f m on e h =
    let below : ltb_ℤ (pos (m.count_intercepts_since_last_report + 1)) (pos (suc f)) ≡ true =
      ground arith in
    rw (on, e, below) refl

count_full :
    (f : ℕ) (m : Monitor)
    → m.count_based_sampling ≡ true
    → m.count_based_sample_frequency ≡ pos (suc f)
    → m.count_intercepts_since_last_report ≡ f
    → sample_count m ≡ goes_on (record m { count_intercepts_since_last_report = 0 })
unfolding sample_count
count_full f m on e h =
    let full : ltb_ℤ (pos (m.count_intercepts_since_last_report + 1)) (pos (suc f)) ≡ false =
      ground arith in
    rw (on, e, full) refl

-- With count-based sampling on, a frequency of f + 1, and f at most counted, of `n` intercepts one
-- in f + 1 goes on: what was counted before and the `n` new ones are f + 1 for each that goes on,
-- and what is counted afterwards, which is at most f.
pub sample_count_lem :
    (n f : ℕ) (m : Monitor)
    → m.count_based_sampling ≡ true
    → m.count_based_sample_frequency ≡ pos (suc f)
    → m.count_intercepts_since_last_report ≤ f
    → (let (k, m') = sample_counts n m in
        (k * suc f + m'.count_intercepts_since_last_report
          ≡ m.count_intercepts_since_last_report + n)
        × (m'.count_intercepts_since_last_report ≤ f))
sample_count_lem zero f m on e h = (omega arith, h)
sample_count_lem (suc n) f m on e h =
    elim (Bool-cases (ltb m.count_intercepts_since_last_report f)) [
      | inl below ↦
          let m1 = record m {
            count_intercepts_since_last_report = m.count_intercepts_since_last_report + 1;
          } in
          let rest = sample_count_lem n f m1 on e (ground (arith, below)) in
          rw (count_below f m on e (ground (arith, below))) (omega (arith, rest.0), rest.1)
      | inr full ↦
          let m1 = record m { count_intercepts_since_last_report = 0 } in
          let rest = sample_count_lem n f m1 on e (omega arith) in
          rw (count_full f m on e (ground (arith, full, h)))
            (grind (arith, rest.0, full, h), rest.1)
    ]

-- The sample that was running goes on.
abbrev pub Continues : Monitor → Monitor → Type 0
Continues m m' =
    (m.within_time_based_sample ≡ true) × (m'.start_time_based_sample ≡ m.start_time_based_sample)

-- A sample begins at `t`: it is the first one, or none was running and the frequency has gone by
-- since the start of the one before.
abbrev pub Begins : ℕ → Monitor → Monitor → Type 0
Begins t m m' =
    (m'.start_time_based_sample ≡ t)
    × ((m.start_time_based_sample ≡ 0)
        ⊎ ((m.within_time_based_sample ≡ false)
            × (m.start_time_based_sample + m.time_based_sample_frequency ≤ t)))

-- With time-based sampling on, a duration above 0, the last sample started not after the time `t`, and
-- no sum of its start with the duration or the frequency beyond 2 ^ 64: what goes on at `t` is within
-- the duration from the start of the sample that is then current, and is in a sample. That is the one
-- that was running before, or one that begins at `t`: the first one at all, or one that begins because
-- none was running and the frequency has gone by since the start of the last. What returns leaves no
-- sample running and the start as it was; a sample that was running has lasted its duration by `t`,
-- and if none was, `t` is before the start and the frequency.
pub sample_time_lem :
    (t : ℕ) (m : Monitor)
    → m.time_based_sampling ≡ true
    → 0 < m.time_based_sample_duration
    → m.start_time_based_sample ≤ t
    → m.start_time_based_sample + m.time_based_sample_duration < 2 ^ 64
    → m.start_time_based_sample + m.time_based_sample_frequency < 2 ^ 64
    → ((m' : Monitor) × (sample_time t m ≡ goes_on m')
        × (m'.within_time_based_sample ≡ true)
        × (m'.start_time_based_sample ≤ t)
        × (t < m'.start_time_based_sample + m'.time_based_sample_duration)
        × (Continues m m' ⊎ Begins t m m'))
      ⊎ ((m' : Monitor) × (sample_time t m ≡ returns m')
          × (m'.within_time_based_sample ≡ false)
          × (m'.start_time_based_sample ≡ m.start_time_based_sample)
          × (if m.within_time_based_sample
              then m.start_time_based_sample + m.time_based_sample_duration ≤ t
              else t < m.start_time_based_sample + m.time_based_sample_frequency))
unfolding sample_time turn
sample_time_lem t m on positive before fits fits' =
    let t_end = m.start_time_based_sample + m.time_based_sample_duration in
    let t_next = m.start_time_based_sample + m.time_based_sample_frequency in
    let started = record m { start_time_based_sample = t; within_time_based_sample = true } in
    let ended = record m { within_time_based_sample = false } in
    let no_wrap : (t_end % 2 ^ 64 ≡ t_end) × (t_next % 2 ^ 64 ≡ t_next) =
      (omega arith, omega arith) in
    elim (Bool-cases (0 == m.start_time_based_sample)) [
      | inl first ↦ inl (
        started,
        rw (on, first) refl,
        refl,
        omega arith,
        omega arith,
        inr (refl, inl (ground (arith, first))),
      )
      | inr later ↦ elim (Bool-cases m.within_time_based_sample) [
        | inl within ↦ elim (Bool-cases (leb t_end t)) [
          | inl over ↦ inr (
            ended,
            rw (on, later, within, no_wrap.0, over) refl,
            refl,
            refl,
            rw within (ground (arith, over)),
          )
          | inr inside ↦ inl (
            m,
            rw (on, later, within, no_wrap.0, inside) refl,
            within,
            before,
            ground (arith, inside),
            inl (within, refl),
          )
        ]
        | inr between ↦ elim (Bool-cases (leb t_next t)) [
          | inl again ↦ inl (
            started,
            rw (on, later, between, no_wrap.1, again) refl,
            refl,
            omega arith,
            omega arith,
            inr (refl, inr (between, ground (arith, again))),
          )
          | inr not_yet ↦ inr (
            m,
            rw (on, later, between, no_wrap.1, not_yet) refl,
            between,
            refl,
            rw between (ground (arith, not_yet)),
          )
        ]
      ]
    ]
