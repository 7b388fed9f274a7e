-- ===== src/Daemon/Devices.antt =====
-- input_loop of mq_listener/mq_listener.c: the devices that it finds, against the messages before.
use io_monitor.Prelude.{
  true, false, List, [], ◌∷◌, ◌++◌, Bytes, ◌==◌, ◌==ℤ◌, if◌then◌else◌, ◌≡◌, refl, inl, inr,
  Bool-cases,
}
use io_monitor.Op.{op_value, open_op, close}
use io_monitor.Record.{MonitorRecord, fd_none}
use io_monitor.Resolver.{Resolver, find_fd}
use io_monitor.Resolver.Descriptors.{
  Event, registered, deregistered, perform, perform_all, last_effect, with_device,
  resolve_file-perform_all,
}
use io_monitor.Daemon.{
  Received, message, failed, is_open_close, has_descriptor, track, Daemon, set_hostname, handle,
  input_loop,
}

-- The opening or closing of a file that a record tells of.
abbrev pub events_of_record : MonitorRecord → List Event
events_of_record rec =
    if is_open_close rec.dom_type
    then (if rec.op_type == op_value open_op
        then registered rec ∷ []
        else if rec.op_type == op_value close
        then deregistered rec ∷ []
        else [])
    else []

abbrev pub events_of : Bytes → List Received → List Event
events_of hostname [] = []
events_of hostname (failed ∷ ms) = events_of hostname ms
events_of hostname (message rec ∷ ms) =
    events_of_record (set_hostname hostname rec) ++ events_of hostname ms

perform-append :
    (xs ys : List Event) (r : Resolver)
    → perform_all (xs ++ ys) r ≡ perform_all ys (perform_all xs r)
perform-append [] ys r = refl
perform-append (x ∷ xs) ys r = perform-append xs ys (perform x r)

track-resolver :
    (rec : MonitorRecord) (r : Resolver) → (track rec r).1 ≡ perform_all (events_of_record rec) r
unfolding track op_value
track-resolver rec r = elim (Bool-cases (is_open_close rec.dom_type)) [
  | inr e ↦ elim (Bool-cases (has_descriptor rec.dom_type)) [
    | inl e' ↦ rw (e, e') refl
    | inr e' ↦ rw (e, e') refl
  ]
  | inl e ↦ elim (Bool-cases (rec.op_type == op_value open_op)) [
    | inl e' ↦ rw (e, e') refl
    | inr e' ↦ elim (Bool-cases (rec.op_type == op_value close)) [
      | inl d ↦ rw (e, e', d) refl
      | inr d ↦ rw (e, e', d) refl
    ]
  ]
]

module _ {S : Type 0} (hostname : Bytes) where
  loop-resolver :
      (ms : List Received) (d : Daemon S)
      → (input_loop hostname ms d).resolver ≡ perform_all (events_of hostname ms) d.resolver
  unfolding input_loop handle
  loop-resolver [] d = refl
  loop-resolver (failed ∷ ms) d = loop-resolver ms d
  loop-resolver (message rec ∷ ms) d =
      let own = set_hostname hostname rec in
      rw
        (
          loop-resolver ms (handle hostname (message rec) d),
          perform-append (events_of_record own) (events_of hostname ms) d.resolver,
          track-resolver own d.resolver,
        )
        refl

  -- After any messages, a record of reading, writing, metadata, allocation or syncing with a
  -- descriptor other than FD_NONE is handed on with the device that the last opening of this
  -- descriptor among them left, unless a later closing removed it; an opening with an empty path
  -- counts for nothing. Where the messages do neither, the device known before them decides, and
  -- without a device the record is handed on as it is.
  pub input_loop-track :
      (ms : List Received) (d : Daemon S) (rec : MonitorRecord)
      → is_open_close rec.dom_type ≡ false
      → has_descriptor rec.dom_type ≡ true
      → (rec.fd ==ℤ fd_none) ≡ false
      → (track rec (input_loop hostname ms d).resolver).0
        ≡ with_device
            (last_effect d.resolver rec.fd
              (events_of hostname ms)
              (find_fd rec.fd d.resolver.fd_to_dev))
            rec
  unfolding track
  input_loop-track ms d rec other descriptor known =
      rw (other, descriptor, loop-resolver ms d)
        (resolve_file-perform_all (events_of hostname ms) d.resolver rec known)
