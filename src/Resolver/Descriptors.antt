-- ===== src/Resolver/Descriptors.antt =====
-- register_file, deregister_file and resolve_file of mq_listener/resolver.cpp: the map of the file
-- descriptors against the history of opening and closing.
use io_monitor.Prelude.{
  ℤ, true, false, not, ◌&&◌, Option, none, some, List, [], ◌∷◌, Bytes, length, ltb, ◌==ℤ◌,
  if◌then◌else◌, ◌≡◌, refl, ap, ◌∙◌, arith, inl, inr, Bool-cases, ==ℤ_iff, ==ℤ-refl,
}
use io_monitor.CharArray.{c_string, strncpy}
use io_monitor.Record.{MonitorRecord, fd_none, device_len}
use io_monitor.Resolver.{
  Resolver, path_to_dev, find_fd, assign_fd, erase_fd, register_file, deregister_file, resolve_file,
}

-- What the listener makes of a record before it resolves another.
pub data Event : Type 0 where
  registered : MonitorRecord → Event
  deregistered : MonitorRecord → Event

abbrev pub perform : Event → Resolver → Resolver
perform (registered rec) r = register_file rec r
perform (deregistered rec) r = deregister_file rec r

abbrev pub perform_all : List Event → Resolver → Resolver
perform_all [] r = r
perform_all (e ∷ es) r = perform_all es (perform e r)

-- What an event does to the device of `fd`: nothing (`none`), or it sets or removes it.
abbrev pub effect : Resolver → ℤ → Event → Option (Option Bytes)
effect r fd (registered rec) =
    if rec.fd ==ℤ fd && ltb 0 (length (c_string rec.s1))
    then some (some (path_to_dev r (c_string rec.s1)))
    else none
effect r fd (deregistered rec) = if rec.fd ==ℤ fd then some none else none

-- The last event that does something decides; before any, the device is `o`.
abbrev pub last_effect : Resolver → ℤ → List Event → Option Bytes → Option Bytes
last_effect r fd [] o = o
last_effect r fd (e ∷ es) o = last_effect r fd es (elim (effect r fd e) [ none ↦ o | some o' ↦ o' ])

differ : (k' k fd : ℤ) → (k' ==ℤ k) ≡ false → (k' ==ℤ fd) ≡ true → (k ==ℤ fd) ≡ false
differ k' k fd e e' = elim (Bool-cases (k ==ℤ fd)) [
  | inl e2 ↦
      let first : k' ≡ fd = (==ℤ_iff k' fd).0 e' in
      let second : k ≡ fd = (==ℤ_iff k fd).0 e2 in
      let own : (k' ==ℤ k) ≡ true = rw (first, second) (==ℤ-refl fd) in
      absurd (ground (arith, own, e))
  | inr e2 ↦ e2
]

find-assign :
    (fd k : ℤ) (dev : Bytes) (m : List (ℤ × Bytes))
    → find_fd fd (assign_fd k dev m) ≡ (if k ==ℤ fd then some dev else find_fd fd m)
unfolding find_fd assign_fd
find-assign fd k dev [] = refl
find-assign fd k dev ((k', v) ∷ m) = elim (Bool-cases (k' ==ℤ k)) [
  | inl e ↦
      let same : k' ≡ k = (==ℤ_iff k' k).0 e in
      rw (e, same) (elim (Bool-cases (k ==ℤ fd)) [ inl e' ↦ rw e' refl | inr e' ↦ rw e' refl ])
  | inr e ↦ elim (Bool-cases (k' ==ℤ fd)) [
    | inl e' ↦ rw (e, e', differ k' k fd e e') refl
    | inr e' ↦ rw (e, e') (find-assign fd k dev m)
  ]
]

find-erase :
    (fd k : ℤ) (m : List (ℤ × Bytes))
    → find_fd fd (erase_fd k m) ≡ (if k ==ℤ fd then none else find_fd fd m)
unfolding find_fd erase_fd
find-erase fd k [] = elim (Bool-cases (k ==ℤ fd)) [ inl e ↦ rw e refl | inr e ↦ rw e refl ]
find-erase fd k ((k', v) ∷ m) = elim (Bool-cases (k' ==ℤ k)) [
  | inl e ↦
      let same : k' ≡ k = (==ℤ_iff k' k).0 e in
      rw (e, find-erase fd k m, same)
        (elim (Bool-cases (k ==ℤ fd)) [ inl e' ↦ rw e' refl | inr e' ↦ rw e' refl ])
  | inr e ↦ elim (Bool-cases (k' ==ℤ fd)) [
    | inl e' ↦ rw (e, e', differ k' k fd e e') refl
    | inr e' ↦ rw (e, e') (find-erase fd k m)
  ]
]

find_own :
    (fd k : ℤ) (dev : Bytes) (m : List (ℤ × Bytes))
    → (k ==ℤ fd) ≡ true
    → find_fd fd (assign_fd k dev m) ≡ some dev
find_own fd k dev m e = find-assign fd k dev m ∙ rw e refl

find_other :
    (fd k : ℤ) (dev : Bytes) (m : List (ℤ × Bytes))
    → (k ==ℤ fd) ≡ false
    → find_fd fd (assign_fd k dev m) ≡ find_fd fd m
find_other fd k dev m e = find-assign fd k dev m ∙ rw e refl

path_to_dev-perform :
    (e : Event) (r : Resolver) (path : Bytes) → path_to_dev (perform e r) path ≡ path_to_dev r path
unfolding path_to_dev register_file deregister_file
path_to_dev-perform (registered rec) r path =
    elim (Bool-cases (not (rec.fd ==ℤ fd_none) && ltb 0 (length (c_string rec.s1)))) [
      | inl e ↦ rw e refl
      | inr e ↦ rw e refl
    ]
path_to_dev-perform (deregistered rec) r path = elim (Bool-cases (rec.fd ==ℤ fd_none)) [
  | inl e ↦ rw e refl
  | inr e ↦ rw e refl
]

effect-perform :
    (e e' : Event) (r : Resolver) (fd : ℤ) → effect (perform e r) fd e' ≡ effect r fd e'
effect-perform e (registered rec) r fd = rw (path_to_dev-perform e r (c_string rec.s1)) refl
effect-perform e (deregistered rec) r fd = refl

last-perform :
    (e : Event) (r : Resolver) (fd : ℤ) (es : List Event) (o : Option Bytes)
    → last_effect (perform e r) fd es o ≡ last_effect r fd es o
last-perform e r fd [] o = refl
last-perform e r fd (e' ∷ es) o =
    rw (effect-perform e e' r fd)
      (last-perform e r fd es (elim (effect r fd e') [ none ↦ o | some o' ↦ o' ]))

find-perform :
    (e : Event) (r : Resolver) (fd : ℤ)
    → (fd ==ℤ fd_none) ≡ false
    → find_fd fd (perform e r).fd_to_dev
      ≡ elim (effect r fd e) [ none ↦ find_fd fd r.fd_to_dev | some o' ↦ o' ]
unfolding register_file deregister_file
find-perform (registered rec) r fd h = elim (Bool-cases (rec.fd ==ℤ fd)) [
  | inl e ↦
      let guard : (rec.fd ==ℤ fd_none) ≡ false = rw ((==ℤ_iff rec.fd fd).0 e) h in
      elim (Bool-cases (ltb 0 (length (c_string rec.s1)))) [
        | inl e' ↦
            rw (e, guard, e') (find_own fd rec.fd (path_to_dev r (c_string rec.s1)) r.fd_to_dev e)
        | inr e' ↦ rw (e, guard, e') refl
      ]
  | inr e ↦ elim (Bool-cases (not (rec.fd ==ℤ fd_none) && ltb 0 (length (c_string rec.s1)))) [
    | inl e' ↦ rw (e, e') (find_other fd rec.fd (path_to_dev r (c_string rec.s1)) r.fd_to_dev e)
    | inr e' ↦ rw (e, e') refl
  ]
]
find-perform (deregistered rec) r fd h = elim (Bool-cases (rec.fd ==ℤ fd)) [
  | inl e ↦
      let guard : (rec.fd ==ℤ fd_none) ≡ false = rw ((==ℤ_iff rec.fd fd).0 e) h in
      rw (e, guard) (find-erase fd rec.fd r.fd_to_dev ∙ rw e refl)
  | inr e ↦ elim (Bool-cases (rec.fd ==ℤ fd_none)) [
    | inl e' ↦ rw (e, e') refl
    | inr e' ↦ rw (e, e') (find-erase fd rec.fd r.fd_to_dev ∙ rw e refl)
  ]
]

find-perform_all :
    (es : List Event) (r : Resolver) (fd : ℤ)
    → (fd ==ℤ fd_none) ≡ false
    → find_fd fd (perform_all es r).fd_to_dev ≡ last_effect r fd es (find_fd fd r.fd_to_dev)
find-perform_all [] r fd h = refl
find-perform_all (e ∷ es) r fd h =
    find-perform_all es (perform e r) fd h
    ∙ (last-perform e r fd es (find_fd fd (perform e r).fd_to_dev)
        ∙ ap (last_effect r fd es) (find-perform e r fd h))

-- `rec->device` for the device that is known.
abbrev pub with_device : Option Bytes → MonitorRecord → MonitorRecord
with_device none rec = rec
with_device (some dev_id) rec = record rec { device = strncpy device_len dev_id }

with_device_lem :
    (o : Option Bytes) (rec : MonitorRecord)
    → (elim o [ none ↦ rec | some dev_id ↦ record rec { device = strncpy device_len dev_id } ])
      ≡ with_device o rec
with_device_lem none rec = refl
with_device_lem (some dev_id) rec = refl

-- After any sequence of registering and deregistering, the device of a record with a descriptor other
-- than FD_NONE is the one that the last event of this descriptor which is not a registering with an
-- empty path set, or none if it removed it; without such an event, it is the one known before.
pub resolve_file-perform_all :
    (es : List Event) (r : Resolver) (rec : MonitorRecord)
    → (rec.fd ==ℤ fd_none) ≡ false
    → resolve_file rec (perform_all es r)
      ≡ with_device (last_effect r rec.fd es (find_fd rec.fd r.fd_to_dev)) rec
unfolding resolve_file
resolve_file-perform_all es r rec h = rw h (
    with_device_lem (find_fd rec.fd (perform_all es r).fd_to_dev) rec
    ∙ ap (λ o. with_device o rec) (find-perform_all es r rec.fd h))
