-- ===== src/Monitor/Contents.antt =====
-- record() of io_monitor/io_monitor.c: which intercepts are reported, and what the record of one holds.
use io_monitor.Prelude.{
  ℕ, suc, ◌-◌, ◌^◌, pos, negsuc, ltb_ℤ, Bool, true, false, not, ◌&&◌, ◌||◌, Option, none, some,
  Bytes, take, length, ltb, ◌==◌, ◌==ℤ◌, test_bit, bit_and-pow_eq_zero, if◌then◌else◌, ◌≡◌, refl,
  ap, arith, ◌⊎◌, inl, inr, Bool-cases,
}
use Prim.Native.Nat.{bit_and}
use io_monitor.CharArray.{c_string, is_terminated, zeros, strncpy}
use io_monitor.CharArray.Laws.{
  IsCString, c_string-terminate, is_terminated-terminate, length-strncpy,
}
use io_monitor.Domain.{domain_value, start_stop}
use io_monitor.Record.{MonitorRecord, path_max, fd_none}
use io_monitor.Monitor.Outside.{Floats, Answers}
use io_monitor.Monitor.State.{Monitor, Intercept, Step, returns, goes_on, undefined}
use io_monitor.Monitor.{ignored, decide, make_record, record_field_s, conclude, record_intercept}

-- The intercept is of a monitored domain, not of a standard stream unless it reports a start or a stop,
-- and no connection has failed.
pub record IsWatched (i : Intercept) (m : Monitor) : Type 0 where
  pub monitored : test_bit m.domain_bit_flags i.dom_type ≡ true
  pub no_stream :
      ((i.dom_type == domain_value start_stop) ≡ true)
      ⊎ ((ltb_ℤ (negsuc 0) i.fd && ltb_ℤ i.fd (pos 3)) ≡ false)
  pub connected : m.failed_socket_connections ≡ 0

-- The record holds what the intercept says, and `s1` is the path, cut to what fits in front of the NUL.
pub record Tells (i : Intercept) (rec : MonitorRecord) : Type 0 where
  pub dom_type : rec.dom_type ≡ i.dom_type
  pub op_type : rec.op_type ≡ i.op_type
  pub fd : rec.fd ≡ i.fd
  pub error_code : rec.error_code ≡ i.error_code
  pub terminated : is_terminated rec.s1 ≡ true
  pub path : (s1 : Bytes) → i.s1 ≡ some s1 → IsCString s1 → c_string rec.s1 ≡ take (path_max - 1) s1

all_false :
    (a b c d : Bool)
    → (a || b || c || d) ≡ false
    → (a ≡ false) × (b ≡ false) × (c ≡ false) × (d ≡ false)
all_false a b c d h = (ground arith, ground arith, ground arith, ground arith)

watched : (i : Intercept) (m : Monitor) → ignored i m ≡ false → IsWatched i m
unfolding ignored
watched i m h =
    let (no_failure, other, no_standard, wanted) =
      all_false (ltb 0 m.failed_socket_connections)
        (not (m.socket_fd ==ℤ fd_none) && i.fd ==ℤ m.socket_fd)
        (ltb_ℤ (negsuc 0) i.fd && ltb_ℤ i.fd (pos 3) && not (i.dom_type == domain_value start_stop))
        (0 == bit_and m.domain_bit_flags (2 ^ i.dom_type)) h in
    record {
      monitored = flagged (rw (← bit_and-pow_eq_zero i.dom_type m.domain_bit_flags) wanted);
      no_stream = elim (Bool-cases (i.dom_type == domain_value start_stop)) [
        | inl e ↦ inl e
        | inr e ↦ inr (streams (ltb_ℤ (negsuc 0) i.fd) (ltb_ℤ i.fd (pos 3)) e no_standard)
      ];
      connected = ground (arith, no_failure);
    }
  where
    flagged : {b : Bool} → (if b then false else true) ≡ false → b ≡ true
    flagged {b} e = ground arith

    streams : (a b : Bool) {c : Bool} → c ≡ false → (a && b && not c) ≡ false → (a && b) ≡ false
    streams a b e h' = ground arith

field-is_terminated :
    (size : ℕ) (f : Option Bytes) → is_terminated (record_field_s (suc size) f) ≡ true
unfolding record_field_s is_terminated zeros
field-is_terminated size none = refl
field-is_terminated size (some f) =
    is_terminated-terminate (strncpy (suc size) f)
      (λ e. omega (arith, length-strncpy (suc size) f, ap length e))

field-c_string :
    (size : ℕ) (f : Bytes) (o : Option Bytes)
    → o ≡ some f
    → IsCString f
    → c_string (record_field_s (suc size) o) ≡ take size f
unfolding record_field_s
field-c_string size f o e c = rw e (c_string-terminate size f c)

module _ (floats : Floats) where
  tells : (i : Intercept) (os : Answers) (m : Monitor) → Tells i (make_record floats i os m)
  unfolding make_record
  tells i os m = record {
    dom_type = refl;
    op_type = refl;
    fd = refl;
    error_code = refl;
    terminated = field-is_terminated 4095 i.s1;
    path = λ s1 e c. field-c_string 4095 s1 i.s1 e c;
  }

  made :
      (i : Intercept) (os : Answers) (s : Step) (rec : MonitorRecord) (m' : Monitor)
      → conclude floats i os s ≡ some (some rec, m')
      → (m : Monitor) × (make_record floats i os m ≡ rec)
  unfolding conclude
  made i os undefined rec m' e = cc
  made i os (returns m) rec m' e = cc
  made i os (goes_on m) rec m' e = (m, cc)

  not_made :
      (i : Intercept) (os : Answers) (m : Monitor) (rec : MonitorRecord) (m' : Monitor)
      → ignored i m ≡ true
      → conclude floats i os (decide floats i os m) ≡ some (some rec, m')
      → ⊥
  unfolding conclude decide
  not_made i os m rec m' e' e =
      let nothing : conclude floats i os (decide floats i os m) ≡ some (none, m) = rw e' refl in cc

  -- A record that is sent is of a monitored domain, not of a standard stream unless it reports a
  -- start or a stop, and comes after no failed connection. It holds the domain, the operation, the
  -- descriptor and the error code of the intercept, and its s1 is a terminated string: of a path
  -- that is a C string, what fits.
  pub record_intercept-Tells :
      (i : Intercept) (os : Answers) (m : Monitor) (rec : MonitorRecord) (m' : Monitor)
      → record_intercept floats i os m ≡ some (some rec, m')
      → IsWatched i m × Tells i rec
  unfolding record_intercept
  record_intercept-Tells i os m rec m' e =
      let (m1, own) = made i os (decide floats i os m) rec m' e in
      (
        elim (Bool-cases (ignored i m)) [
          | inr e' ↦ watched i m e'
          | inl e' ↦ absurd (not_made i os m rec m' e' e)
        ],
        rw (← own) (tells i os m1),
      )
