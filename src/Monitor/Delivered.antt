-- ===== src/Monitor/Delivered.antt =====
-- Which records of io_monitor/io_monitor.c come into the message queue, and how record() counts them.
use io_monitor.Prelude.{
  ℕ, zero, suc, ◌+◌, ℤ, pos, negsuc, Bool, true, false, not, ◌&&◌, ◌||◌, ◌>>=◌, Option, none, some,
  List, [], ◌∷◌, ◌++◌, Bytes, length, ◌==ℤ◌, if◌then◌else◌, ◌≡◌, refl, ap, sym, ◌∙◌, arith, inl,
  inr, Bool-cases,
}
use io_monitor.Record.{MonitorRecord}
use io_monitor.Monitor.Outside.{Floats, Answers}
use io_monitor.Monitor.State.{Monitor, Intercept, Step, returns, goes_on, undefined}
use io_monitor.Monitor.Send.{
  msgsnd_from, queue_of_path, find_queue, send_msg_queue, send_tcp_socket,
}
use io_monitor.Monitor.Attempts.{send_msg_queue-counters}
use io_monitor.Monitor.Keeps.{Leaves, HasPath, IsDecided, IsSent, decide-keeps, send_out-keeps}
use io_monitor.Monitor.{decide, count_sent, send_out, make_record, conclude, record_intercept}

-- One of the calls of msgsnd that are left succeeds, and those before it failed with EAGAIN.
abbrev pub arrives : Answers → ℕ → ℕ → Bool
arrives os zero k = false
arrives os (suc left) k =
    let rest = arrives os left (k + 1) in (os.msgsnd k).0 ==ℤ pos 0 || ((os.msgsnd k).1 && rest)

-- The queue that is known, or that the path leads to.
abbrev pub queue_id : Answers → ℤ → ℤ → Option Bytes → ℤ
queue_id os key id none = id
queue_id os key id (some path) =
    if key ==ℤ os.mq_key_none
    then (if os.ftok path ==ℤ negsuc 0 then id else os.msgget (os.ftok path))
    else id

-- A record that is sent now comes into the queue, by one of five calls.
abbrev pub reaches : Answers → Monitor → Bool
reaches os m =
    not (queue_id os m.message_queue_key m.message_queue_id m.message_queue_path ==ℤ os.mq_key_none)
    && arrives os 5 0

abbrev pub arrived : Answers → Monitor → Option MonitorRecord → List MonitorRecord
arrived os m none = []
arrived os m (some rec) = if reaches os m then rec ∷ [] else []

-- The intercepts one after the other: the records that come into the queue, and the variables that are
-- left; `none` where record() reads through NULL.
unfoldable pub deliver_all :
    Floats → List (Intercept × Answers) → Monitor → Option (List MonitorRecord × Monitor)
deliver_all floats [] m = some ([], m)
deliver_all floats ((i, os) ∷ intercepts) m = do
  first ← record_intercept floats i os m
  rest ← deliver_all floats intercepts first.1
  some (arrived os m first.0 ++ rest.0, rest.1)

module _ (os : Answers) (set : (os.no_value ==ℤ pos 0) ≡ false) where
  msgsnd-arrives :
      (left k : ℕ) (m : Monitor) → ((msgsnd_from os left k m).0 ==ℤ pos 0) ≡ arrives os left k
  unfolding msgsnd_from
  msgsnd-arrives zero k m = set
  msgsnd-arrives (suc left) k m = elim (Bool-cases ((os.msgsnd k).0 ==ℤ pos 0)) [
    | inl e ↦ rw e e
    | inr e ↦ elim (Bool-cases (os.msgsnd k).1) [
      | inl again ↦ rw (e, again) (msgsnd-arrives left (k + 1) _)
      | inr other ↦ rw (e, other) e
    ]
  ]

  path-queue_id :
      (path : Option Bytes) (m : Monitor)
      → (if m.message_queue_key ==ℤ os.mq_key_none
          then queue_of_path os path m
          else m).message_queue_id
        ≡ queue_id os m.message_queue_key m.message_queue_id path
  path-queue_id none m = elim (Bool-cases (m.message_queue_key ==ℤ os.mq_key_none)) [
    | inl e ↦ rw e refl
    | inr e ↦ rw e refl
  ]
  path-queue_id (some path) m = elim (Bool-cases (m.message_queue_key ==ℤ os.mq_key_none)) [
    | inl e ↦ elim (Bool-cases (os.ftok path ==ℤ negsuc 0)) [
      | inl e' ↦ rw (e, e') refl
      | inr e' ↦ rw (e, e') refl
    ]
    | inr e ↦ rw e refl
  ]

  find-queue_id :
      (m : Monitor)
      → (find_queue os m).message_queue_id
        ≡ queue_id os m.message_queue_key m.message_queue_id m.message_queue_path
  unfolding find_queue
  find-queue_id m = path-queue_id m.message_queue_path m

  found :
      (m : Monitor)
      → ((find_queue os m).message_queue_id ==ℤ os.mq_key_none) ≡ (
          queue_id os m.message_queue_key m.message_queue_id m.message_queue_path
          ==ℤ os.mq_key_none)
  found m = ap (λ x. x ==ℤ os.mq_key_none) (find-queue_id m)

  send-reaches : (m : Monitor) → ((send_msg_queue os m).0 ==ℤ pos 0) ≡ reaches os m
  unfolding send_msg_queue
  send-reaches m = elim (Bool-cases ((find_queue os m).message_queue_id ==ℤ os.mq_key_none)) [
    | inl e ↦ rw (e, sym (found m) ∙ e) refl
    | inr e ↦ rw (e, sym (found m) ∙ e, msgsnd-arrives 5 0 (find_queue os m)) refl
  ]

  count_sent-records :
      (r : ℤ × Monitor)
      → (count_sent r).ipc_records ≡ r.1.ipc_records + (if r.0 ==ℤ pos 0 then 1 else 0)
  unfolding count_sent
  count_sent-records (rc, m) = elim (Bool-cases (rc ==ℤ pos 0)) [
    | inl e ↦ rw e refl
    | inr e ↦ rw e (omega arith)
  ]

  send_out-queue :
      (m : Monitor) (path : Bytes)
      → m.message_queue_path ≡ some path
      → send_out os m ≡ count_sent (send_msg_queue os m)
  unfolding send_out
  send_out-queue m path e =
      ap
        (λ (o : Option Bytes). elim o [
          | none ↦ count_sent (send_tcp_socket os m)
          | some p ↦ count_sent (send_msg_queue os m)
        ])
        e

  send_out-records :
      (m : Monitor) (path : Bytes)
      → m.message_queue_path ≡ some path
      → (send_out os m).ipc_records ≡ m.ipc_records + (if reaches os m then 1 else 0)
  send_out-records m path e =
      ap (λ (x : Monitor). x.ipc_records) (send_out-queue m path e)
      ∙ (count_sent-records (send_msg_queue os m)
          ∙ rw (send-reaches m, (send_msg_queue-counters os m).0) refl)

length-one :
    (b : Bool) (rec : MonitorRecord) → (if b then 1 else 0) ≡ length (if b then rec ∷ [] else [])
length-one true rec = refl
length-one false rec = refl

-- What record() leaves in front of the record: the count, the path of the queue, and whether a record
-- sent now would come into it.
abbrev Ready : Answers → Bytes → Monitor → Monitor → Type 0
Ready os path m m' =
    (m'.message_queue_path ≡ some path)
    × (m'.ipc_records ≡ m.ipc_records)
    × (reaches os m' ≡ reaches os m)

Ready-IsDecided : (os : Answers) (path : Bytes) (m : Monitor) → IsDecided (Ready os path m)
Ready-IsDecided os path m = record {
  started = λ m h. h;
  counted = λ m c below h. h;
  turned = λ m w t h. h;
}

HasQueue-IsSent : (path : Bytes) → IsSent (λ m. m.message_queue_path ≡ some path)
HasQueue-IsSent path = record {
  retried = λ m r w h. h;
  looked_up = λ m key id h. h;
  connected = λ m n h. h;
  counted = λ m n k h. h;
}

module _ (floats : Floats) where
  conclude-arrived :
      (i : Intercept) (os : Answers) (path : Bytes) (m : Monitor) (s : Step)
      → (os.no_value ==ℤ pos 0) ≡ false
      → Leaves (Ready os path m) s
      → (o : Option MonitorRecord) × (m' : Monitor) × (conclude floats i os s ≡ some (o, m'))
        × (m'.message_queue_path ≡ some path)
        × (m'.ipc_records ≡ m.ipc_records + length (arrived os m o))
  unfolding conclude
  conclude-arrived i os path m undefined set h = absurd h
  conclude-arrived i os path m (returns m1) set h = (none, m1, refl, h.0, omega (arith, h.1))
  conclude-arrived i os path m (goes_on m1) set (queue, same, reach) = (
    some (make_record floats i os m1),
    send_out os m1,
    refl,
    send_out-keeps _ (HasQueue-IsSent path) os m1 queue,
    send_out-records os set m1 path queue
        ∙ (ap (λ n. n + (if reaches os m1 then 1 else 0)) same
            ∙ ap (λ n. m.ipc_records + n)
                (ap (λ b. if b then 1 else 0) reach
                  ∙ length-one (reaches os m) (make_record floats i os m1))),
  )

  -- An intercept with a path, if it is an OPEN, is recorded while a queue is used: no read through NULL,
  -- the path of the queue stays, and ipc_records grows by the records that come into the queue.
  pub record_intercept-arrived :
      (i : Intercept) (os : Answers) (path : Bytes) (m : Monitor)
      → HasPath i
      → (os.no_value ==ℤ pos 0) ≡ false
      → m.message_queue_path ≡ some path
      → (o : Option MonitorRecord) × (m' : Monitor) × (record_intercept floats i os m
          ≡ some (o, m'))
        × (m'.message_queue_path ≡ some path)
        × (m'.ipc_records ≡ m.ipc_records + length (arrived os m o))
  unfolding record_intercept
  record_intercept-arrived i os path m has set queue =
      conclude-arrived i os path m (decide floats i os m) set (
        decide-keeps (Ready os path m) (Ready-IsDecided os path m) floats i os m has
          (queue, refl, refl))
