-- ===== src/Monitor/Keeps.antt =====
-- What record() of io_monitor/io_monitor.c keeps: a predicate on the variables that holds after each
-- assignment of record() and of the functions that send.
use io_monitor.Prelude.{
  ℕ, zero, suc, ◌+◌, ◌%◌, ◌^◌, ℤ, pos, negsuc, ltb_ℤ, Bool, true, false, ◌&&◌, ◌||◌, Option, none,
  some, Bytes, codes, str_eq, leb, ◌==◌, ◌==ℤ◌, if◌then◌else◌, ◌≡◌, refl, ◌⊎◌, inl, inr, Bool-cases,
}
use io_monitor.Op.{op_value, open_op}
use io_monitor.Record.{MonitorRecord, fd_none}
use io_monitor.Monitor.Outside.{Floats, Answers}
use io_monitor.Monitor.State.{Monitor, Intercept, Step, returns, goes_on, undefined, ◌>>=◌}
use io_monitor.Monitor.Send.{
  try_again, msgsnd_from, queue_of_path, find_queue, send_msg_queue, send_tcp_socket,
}
use io_monitor.Monitor.{
  ignored, opens_start, check_path, check_open, check_elapsed, elapsed_of, sample_count,
  sample_time, turn, decide, make_record, count_sent, send_out, conclude, record_intercept,
}

-- A part of record() does not read through NULL; it leaves `P` where it returns or goes on.
abbrev pub Leaves : (Monitor → Type 0) → Step → Type 0
Leaves P (returns m) = P m
Leaves P (goes_on m) = P m
Leaves P undefined = ⊥

Leaves-bind :
    (P : Monitor → Type 0) (s : Step) (f : Monitor → Step)
    → Leaves P s
    → ((m : Monitor) → P m → Leaves P (f m))
    → Leaves P (s >>= f)
Leaves-bind P (returns m) f h k = h
Leaves-bind P (goes_on m) f h k = k m h
Leaves-bind P undefined f h k = h

Leaves-if :
    (P : Monitor → Type 0) (b : Bool) (s t : Step)
    → Leaves P s
    → Leaves P t
    → Leaves P (if b then s else t)
Leaves-if P true s t h k = h
Leaves-if P false s t h k = k

pub kept-if :
    (P : Monitor → Type 0) (b : Bool) (m m' : Monitor) → P m → P m' → P (if b then m else m')
kept-if P true m m' h k = h
kept-if P false m m' h k = k

-- An intercept that reports an OPEN has a path.
abbrev pub HasPath : Intercept → Type 0
HasPath i = ((i.op_type == op_value open_op) ≡ false) ⊎ ((path : Bytes) × (i.s1 ≡ some path))

-- The assignments of record() in front of the record keep `P`.
pub record IsDecided (P : Monitor → Type 0) : Type 0 where
  pub started : (m : Monitor) → P m → P (record m { paused = false })
  pub counted :
      (m : Monitor) (c : ℕ)
      → ((c ≡ 0) ⊎ (ltb_ℤ (pos c) m.count_based_sample_frequency ≡ true))
      → P m
      → P (record m { count_intercepts_since_last_report = c })
  pub turned :
      (m : Monitor) (w : Bool) (t : ℕ)
      → P m
      → P (record m { within_time_based_sample = w; start_time_based_sample = t })

-- The assignments that sending makes keep `P`.
pub record IsSent (P : Monitor → Type 0) : Type 0 where
  pub retried :
      (m : Monitor) (r w : ℕ) → P m → P (record m { ipc_retries = r; ipc_retry_wait_lost_time = w })
  pub looked_up :
      (m : Monitor) (key id : ℤ)
      → P m
      → P (record m { message_queue_key = key; message_queue_id = id })
  pub connected :
      (m : Monitor) (n : ℕ)
      → P m
      → P (record m { failed_socket_connections = n; socket_fd = fd_none })
  pub counted :
      (m : Monitor) (n k : ℕ) → P m → P (record m { ipc_records = n; failed_ipc_sends = k })

module _ (P : Monitor → Type 0) (kept : IsDecided P) where
  check_path-keeps : (s1 : Bytes) (m : Monitor) → P m → Leaves P (check_path (some s1) m)
  unfolding check_path
  check_path-keeps s1 m h =
      Leaves-if P (str_eq s1 (codes ".") || str_eq s1 (codes "..")) (returns m) _ h
        (Leaves-if P (m.paused && opens_start s1 m.start_on_open) _ _ (kept.started m h) h)

  check_open-keeps : (i : Intercept) (m : Monitor) → HasPath i → P m → Leaves P (check_open i m)
  unfolding check_open
  check_open-keeps i m (inl other) h = rw other h
  check_open-keeps i m (inr (path, e)) h =
      Leaves-if P (i.op_type == op_value open_op) _ _ (rw e (check_path-keeps path m h)) h

  sample_count-keeps : (m : Monitor) → P m → Leaves P (sample_count m)
  unfolding sample_count
  sample_count-keeps m h =
      let count = m.count_intercepts_since_last_report + 1 in
      Leaves-if P m.count_based_sampling _ _
        (elim (Bool-cases (ltb_ℤ (pos count) m.count_based_sample_frequency)) [
          | inl e ↦ rw e (kept.counted m count (inr e) h)
          | inr e ↦ rw e (kept.counted m 0 (inl refl) h)
        ])
        h

  turn-keeps : (t : ℕ) (m : Monitor) → P m → P (turn t m)
  unfolding turn
  turn-keeps t m h =
      kept-if P m.within_time_based_sample _ _
        (kept-if P (leb ((m.start_time_based_sample + m.time_based_sample_duration) % 2 ^ 64) t) _ m
          (kept.turned m false m.start_time_based_sample h) h)
        (kept-if P (leb ((m.start_time_based_sample + m.time_based_sample_frequency) % 2 ^ 64) t) _
          m (kept.turned m true t h) h)

  sample_time-keeps : (t : ℕ) (m : Monitor) → P m → Leaves P (sample_time t m)
  unfolding sample_time
  sample_time-keeps t m h =
      Leaves-if P m.time_based_sampling _ _
        (Leaves-if P (0 == m.start_time_based_sample) _ _ (kept.turned m true t h) (
          Leaves-if P (turn t m).within_time_based_sample _ _ (turn-keeps t m h)
            (turn-keeps t m h)))
        h

  module _ (floats : Floats) where
    check_elapsed-keeps : (i : Intercept) (m : Monitor) → P m → Leaves P (check_elapsed floats i m)
    unfolding check_elapsed
    check_elapsed-keeps i m h =
        Leaves-if P m.paused _ _
          (Leaves-if P
            (m.have_elapsed_threshold && floats.less m.elapsed_threshold (elapsed_of floats i)) _ _
            (kept.started m h) h)
          h

    pub decide-keeps :
        (i : Intercept) (os : Answers) (m : Monitor)
        → HasPath i
        → P m
        → Leaves P (decide floats i os m)
    unfolding decide
    decide-keeps i os m path h = Leaves-if P (ignored i m) (returns m) _ h (
        Leaves-bind P _ (sample_time os.time)
          (Leaves-bind P _ sample_count
            (Leaves-bind P (check_open i m) (check_elapsed floats i) (check_open-keeps i m path h)
              (check_elapsed-keeps i))
            sample_count-keeps)
          (sample_time-keeps os.time))

module _ (P : Monitor → Type 0) (kept : IsSent P) (os : Answers) where
  msgsnd-keeps : (left retries : ℕ) (m : Monitor) → P m → P (msgsnd_from os left retries m).1
  unfolding msgsnd_from
  msgsnd-keeps zero retries m h = h
  msgsnd-keeps (suc left) retries m h = elim (Bool-cases (try_again os retries)) [
    | inl e ↦ rw e (msgsnd-keeps left (retries + 1) _ (kept.retried m _ _ h))
    | inr e ↦ rw e h
  ]

  path-keeps : (path : Option Bytes) (m : Monitor) → P m → P (queue_of_path os path m)
  path-keeps none m h = h
  path-keeps (some path) m h =
      kept-if P (os.ftok path ==ℤ negsuc 0) _ _ (kept.looked_up m _ m.message_queue_id h)
        (kept.looked_up m _ _ h)

  find-keeps : (m : Monitor) → P m → P (find_queue os m)
  unfolding find_queue
  find-keeps m h =
      kept-if P (m.message_queue_key ==ℤ os.mq_key_none) _ m (path-keeps m.message_queue_path m h) h

  queue-keeps : (m : Monitor) → P m → P (send_msg_queue os m).1
  unfolding send_msg_queue
  queue-keeps m h = elim (Bool-cases ((find_queue os m).message_queue_id ==ℤ os.mq_key_none)) [
    | inl e ↦ rw e (find-keeps m h)
    | inr e ↦ rw e (msgsnd-keeps 5 0 (find_queue os m) (find-keeps m h))
  ]

  tcp-keeps : (m : Monitor) → P m → P (send_tcp_socket os m).1
  unfolding send_tcp_socket
  tcp-keeps m h = elim (Bool-cases (ltb_ℤ (pos 0) os.socket)) [
    | inr e ↦ rw e h
    | inl e ↦ elim (Bool-cases (os.connect ==ℤ pos 0)) [
      | inl e' ↦ rw (e, e') (kept.connected m m.failed_socket_connections h)
      | inr e' ↦ rw (e, e') (kept.connected m _ h)
    ]
  ]

  count_sent-keeps : (r : ℤ × Monitor) → P r.1 → P (count_sent r)
  unfolding count_sent
  count_sent-keeps (rc, m) h =
      kept-if P (rc ==ℤ pos 0) _ _ (kept.counted m _ m.failed_ipc_sends h)
        (kept.counted m m.ipc_records _ h)

  pub send_out-keeps : (m : Monitor) → P m → P (send_out os m)
  unfolding send_out
  send_out-keeps m h =
      elim m.message_queue_path
        as (λ path. P (elim path [
          | none ↦ count_sent (send_tcp_socket os m)
          | some p ↦ count_sent (send_msg_queue os m)
        ])) [
          | none ↦ count_sent-keeps (send_tcp_socket os m) (tcp-keeps m h)
          | some p ↦ count_sent-keeps (send_msg_queue os m) (queue-keeps m h)
        ]

module _ (floats : Floats) (P : Monitor → Type 0) (decided : IsDecided P) (sent : IsSent P) where
  conclude-keeps :
      (i : Intercept) (os : Answers) (s : Step)
      → Leaves P s
      → (o : Option MonitorRecord) × (m' : Monitor) × (conclude floats i os s ≡ some (o, m')) × P m'
  unfolding conclude
  conclude-keeps i os undefined h = absurd h
  conclude-keeps i os (returns m) h = (none, m, refl, h)
  conclude-keeps i os (goes_on m) h =
      (some (make_record floats i os m), send_out os m, refl, send_out-keeps P sent os m h)

  -- An intercept with a path, if it is an OPEN, is recorded without a read through NULL, and keeps `P`.
  pub record_intercept-keeps :
      (i : Intercept) (os : Answers) (m : Monitor)
      → HasPath i
      → P m
      → (o : Option MonitorRecord) × (m' : Monitor) × (record_intercept floats i os m
          ≡ some (o, m'))
        × P m'
  unfolding record_intercept
  record_intercept-keeps i os m path h =
      conclude-keeps i os (decide floats i os m) (decide-keeps P decided floats i os m path h)
