-- ===== src/Monitor/Reports.antt =====
-- record() of io_monitor/io_monitor.c: when it sends a record, what the record holds, and what it counts.
use io_monitor.Prelude.{
  ℕ, ◌+◌, ℤ, pos, ltb_ℤ, Option, none, some, ◌==ℤ◌, ◌≡◌, refl, arith, inl, inr, Bool-cases,
  Option-cases,
}
use io_monitor.Record.{MonitorRecord}
use io_monitor.Monitor.Outside.{Floats, Answers}
use io_monitor.Monitor.State.{Monitor, Intercept, Step, returns, goes_on, undefined}
use io_monitor.Monitor.Send.{send_msg_queue, send_tcp_socket}
use io_monitor.Monitor.Keeps.{Leaves, HasPath, IsDecided, decide-keeps}
use io_monitor.Monitor.Attempts.{send_msg_queue-counters}
use io_monitor.Monitor.{decide, make_record, count_sent, send_out, conclude, record_intercept}

-- The variables that only sending and the start change.
abbrev pub Fixed : Monitor → Monitor → Type 0
Fixed m m' =
    (m'.ipc_records ≡ m.ipc_records)
    × (m'.failed_ipc_sends ≡ m.failed_ipc_sends)
    × (m'.domain_bit_flags ≡ m.domain_bit_flags)
    × (m'.facility ≡ m.facility)

Fixed-IsDecided : (m0 : Monitor) → IsDecided (Fixed m0)
Fixed-IsDecided m0 = record {
  started = λ m h. h;
  counted = λ m c below h. h;
  turned = λ m w t h. h;
}

abbrev pub sent_count : Option MonitorRecord → ℕ
sent_count none = 0
sent_count (some rec) = 1

module _ (floats : Floats) where
  -- Sending counts one record or one failure.
  count_sent-sum :
      (r : ℤ × Monitor)
      → (count_sent r).ipc_records + (count_sent r).failed_ipc_sends
        ≡ r.1.ipc_records + r.1.failed_ipc_sends + 1
  unfolding count_sent
  count_sent-sum (rc, m) = elim (Bool-cases (rc ==ℤ pos 0)) [
    | inl e ↦ rw e (omega arith)
    | inr e ↦ rw e (omega arith)
  ]

  tcp-counters :
      (os : Answers) (m : Monitor)
      → ((send_tcp_socket os m).1.ipc_records ≡ m.ipc_records)
        × ((send_tcp_socket os m).1.failed_ipc_sends ≡ m.failed_ipc_sends)
  unfolding send_tcp_socket
  tcp-counters os m = elim (Bool-cases (ltb_ℤ (pos 0) os.socket)) [
    | inr e ↦ rw e (refl, refl)
    | inl e ↦ elim (Bool-cases (os.connect ==ℤ pos 0)) [
      | inl e' ↦ rw (e, e') (refl, refl)
      | inr e' ↦ rw (e, e') (refl, refl)
    ]
  ]

  send_out-sum :
      (os : Answers) (m : Monitor)
      → (send_out os m).ipc_records + (send_out os m).failed_ipc_sends
        ≡ m.ipc_records + m.failed_ipc_sends + 1
  unfolding send_out
  send_out-sum os m = elim (Option-cases m.message_queue_path) [
    | inl e ↦
        let m1 = record m { message_queue_path = none } in
        rw e (omega (arith, count_sent-sum (send_tcp_socket os m1), tcp-counters os m1))
    | inr (path, e) ↦
        let m1 = record m { message_queue_path = some path } in
        rw e (omega (arith, count_sent-sum (send_msg_queue os m1), send_msg_queue-counters os m1))
  ]

  counts-conclude :
      (i : Intercept) (os : Answers) (m : Monitor) (s : Step)
      → Leaves (Fixed m) s
      → (o : Option MonitorRecord) × (m' : Monitor) × (conclude floats i os s ≡ some (o, m'))
        × (m'.ipc_records + m'.failed_ipc_sends ≡ m.ipc_records + m.failed_ipc_sends + sent_count o)
  unfolding conclude
  counts-conclude i os m undefined h = absurd h
  counts-conclude i os m (returns m1) h = (none, m1, refl, omega (arith, h))
  counts-conclude i os m (goes_on m1) h = (
    some (make_record floats i os m1),
    send_out os m1,
    refl,
    omega (arith, h, send_out-sum os m1),
  )

  -- An intercept with a path, if it is an OPEN, is recorded without a read through NULL, and the two
  -- counters of sending together grow by one if a record is sent and by nothing otherwise.
  pub record_intercept-counters :
      (i : Intercept) (os : Answers) (m : Monitor)
      → HasPath i
      → (o : Option MonitorRecord) × (m' : Monitor) × (record_intercept floats i os m
          ≡ some (o, m'))
        × (m'.ipc_records + m'.failed_ipc_sends ≡ m.ipc_records + m.failed_ipc_sends + sent_count o)
  unfolding record_intercept
  record_intercept-counters i os m path =
      counts-conclude i os m (decide floats i os m)
        (decide-keeps (Fixed m) (Fixed-IsDecided m) floats i os m path (refl, refl, refl, refl))
