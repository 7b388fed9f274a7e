-- ===== src/Monitor/Attempts.antt =====
-- send_msg_queue of io_monitor/io_monitor.c: how often it calls msgsnd, and what it counts.
use io_monitor.Prelude.{
  ℕ, zero, suc, ◌+◌, ◌*◌, ◌^◌, ◌≤◌, ◌<◌, ◌==◌, ==_iff, negsuc, ◌==ℤ◌, ◌∙◌, Option, none, some,
  Bytes, true, false, ◌≡◌, refl, arith, ◌⊎◌, inl, inr, Bool-cases,
}
use native.Mathlib.Nat.{pow-suc}
use io_monitor.Monitor.Outside.{Answers}
use io_monitor.Monitor.State.{Monitor}
use io_monitor.Monitor.Send.{try_again, msgsnd_from, queue_of_path, find_queue, send_msg_queue}

-- `k` retries from retry `first` on: each was asked for, and `m'` counts them.
pub record IsRetried (os : Answers) (first k : ℕ) (m m' : Monitor) : Type 0 where
  pub asked : (j : ℕ) → first ≤ j → j < first + k → try_again os j ≡ true
  pub retries : m'.ipc_retries ≡ m.ipc_retries + k
  pub lost :
      m'.ipc_retry_wait_lost_time + 1024 * 2 ^ first
      ≡ m.ipc_retry_wait_lost_time + 1024 * 2 ^ (first + k)
  pub records : m'.ipc_records ≡ m.ipc_records
  pub failed : m'.failed_ipc_sends ≡ m.failed_ipc_sends

module _ (os : Answers) where
  stay : (first : ℕ) → first + 0 ≡ first
  stay first = omega arith

  IsRetried-zero : (first : ℕ) (m : Monitor) → IsRetried os first 0 m m
  IsRetried-zero first m =
      let same = stay first in
      record {
        asked = λ j low high. absurd (omega arith);
        retries = omega arith;
        lost = rw same refl;
        records = refl;
        failed = refl;
      }

  asked_from :
      (first k : ℕ)
      → try_again os first ≡ true
      → ((j : ℕ) → first + 1 ≤ j → j < first + 1 + k → try_again os j ≡ true)
      → (j : ℕ) → first ≤ j
      → j < first + suc k
      → try_again os j ≡ true
  asked_from first k e h j low high = elim (Bool-cases (j == first)) [
    | inl own ↦ rw ((==_iff j first).0 own) e
    | inr other ↦ h j (ground (arith, other)) (omega arith)
  ]

  shift : (first k : ℕ) → first + suc k ≡ first + 1 + k
  shift first k = omega arith

  more_lost :
      (first k : ℕ)
      → (2 ^ (first + 1 + k) ≡ 2 ^ (first + suc k)) × (2 ^ (first + 1) ≡ 2 * 2 ^ first)
  more_lost first k =
      let same : first + 1 + k ≡ first + suc k = omega arith in
      let next : first + 1 ≡ suc first = omega arith in
      (rw same refl, rw next (omega (arith, pow-suc 2 first)))

  -- Either every call that is left asks for another, or the last call decides.
  msgsnd_from_lem :
      (left first : ℕ) (m : Monitor)
      → (k : ℕ) × IsRetried os first k m (msgsnd_from os left first m).1
        × (((k ≡ left) × ((msgsnd_from os left first m).0 ≡ os.no_value))
            ⊎ ((k < left)
                × (try_again os (first + k) ≡ false)
                × ((msgsnd_from os left first m).0 ≡ (os.msgsnd (first + k)).0)))
  unfolding msgsnd_from
  msgsnd_from_lem zero first m = (0, IsRetried-zero first m, inl (refl, refl))
  msgsnd_from_lem (suc left) first m = elim (Bool-cases (try_again os first)) [
    | inr e ↦ (
      0,
      rw e (IsRetried-zero first m),
      inr (omega arith, rw (stay first) e, rw (e, stay first) refl),
    )
    | inl e ↦
        let m1 = record m {
          ipc_retries = m.ipc_retries + 1;
          ipc_retry_wait_lost_time = m.ipc_retry_wait_lost_time + 512 * 2 ^ (first + 1);
        } in
        let (k, r, ends) = msgsnd_from_lem left (first + 1) m1 in
        (
          suc k,
          rw e (record {
            asked = asked_from first k e r.asked;
            retries = omega (arith, r.retries);
            lost = omega (arith, r.lost, more_lost first k);
            records = r.records;
            failed = r.failed;
          }),
          rw e (elim ends [
            | inl (all, value) ↦ inl (omega (arith, all), value)
            | inr (fewer, last, value) ↦
                inr (omega (arith, fewer), rw (shift first k) last, rw (shift first k) value)
          ]),
        )
  ]

  -- Looking up the queue counts nothing.
  abbrev SameCounters : Monitor → Monitor → Type 0
  SameCounters m m' =
      (m'.ipc_retries ≡ m.ipc_retries)
      × (m'.ipc_retry_wait_lost_time ≡ m.ipc_retry_wait_lost_time)
      × (m'.ipc_records ≡ m.ipc_records)
      × (m'.failed_ipc_sends ≡ m.failed_ipc_sends)

  queue_of_path-counters :
      (path : Option Bytes) (m : Monitor) → SameCounters m (queue_of_path os path m)
  queue_of_path-counters none m = (refl, refl, refl, refl)
  queue_of_path-counters (some path) m = elim (Bool-cases (os.ftok path ==ℤ negsuc 0)) [
    | inl e ↦ rw e (refl, refl, refl, refl)
    | inr e ↦ rw e (refl, refl, refl, refl)
  ]

  find_queue-counters : (m : Monitor) → SameCounters m (find_queue os m)
  unfolding find_queue
  find_queue-counters m = elim (Bool-cases (m.message_queue_key ==ℤ os.mq_key_none)) [
    | inl e ↦ rw e (queue_of_path-counters m.message_queue_path m)
    | inr e ↦ rw e (refl, refl, refl, refl)
  ]

  -- With a queue, send_msg_queue retries at most five times, each time because msgsnd failed with
  -- EAGAIN, and adds the retries and their waits, 1024, 2048 and so on, to their counters; the
  -- counters of records and of failures stay. Either there are fewer than five, and the result is
  -- that of the call after them, which did not fail so, or there are five, and the function ends
  -- without a value.
  pub send_msg_queue_lem :
      (m : Monitor)
      → ((find_queue os m).message_queue_id ==ℤ os.mq_key_none) ≡ false
      → (k : ℕ) × IsRetried os 0 k m (send_msg_queue os m).1
        × (((k ≡ 5) × ((send_msg_queue os m).0 ≡ os.no_value))
            ⊎ ((k < 5) × (try_again os k ≡ false) × ((send_msg_queue os m).0 ≡ (os.msgsnd k).0)))
  unfolding send_msg_queue
  send_msg_queue_lem m h =
      let m1 = find_queue os m in
      let c = find_queue-counters m in
      let (k, r, ends) = msgsnd_from_lem 5 0 m1 in
      let start : k ≡ 0 + k = omega arith in
      (
        k,
        rw h (record {
          asked = r.asked;
          retries = omega (arith, r.retries, c.0);
          lost = omega (arith, r.lost, c.1);
          records = r.records ∙ c.2;
          failed = r.failed ∙ c.3;
        }),
        rw h (elim ends [
          | inl all ↦ inl all
          | inr (fewer, last, value) ↦ inr (fewer, rw start last, rw start value)
        ]),
      )

  -- It leaves the counters of record() alone.
  pub send_msg_queue-counters :
      (m : Monitor)
      → ((send_msg_queue os m).1.ipc_records ≡ m.ipc_records)
        × ((send_msg_queue os m).1.failed_ipc_sends ≡ m.failed_ipc_sends)
  send_msg_queue-counters m =
      elim (Bool-cases ((find_queue os m).message_queue_id ==ℤ os.mq_key_none)) [
        | inl e ↦ let c = find_queue-counters m in unfold send_msg_queue in rw e (c.2, c.3)
        | inr e ↦ let (k, r, ends) = send_msg_queue_lem m e in (r.records, r.failed)
      ]
