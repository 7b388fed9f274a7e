-- ===== src/Process/Summary.antt =====
-- init and fini of io_monitor/io_monitor.c: what the records of the start and of the end hold.
use io_monitor.Prelude.{
  ◌⊎◌, none, inl, inr, subst, ℕ, ◌+◌, ◌^◌, ◌≤◌, ◌<◌, ℤ, true, false, Option, some, List, [], ◌∷◌,
  ◌++◌, Bytes, codes, All, All-append, any, All-any, Bool-cases, length, length-append,
  take-eq_self, ◌==◌, ◌≡◌, refl, sym, ◌∙◌, arith,
}
use io_monitor.CharArray.{c_string}
use io_monitor.CharArray.Laws.{IsCString}
use io_monitor.Domain.{domain_value, start_stop}
use io_monitor.Format.{decimal}
use io_monitor.Format.Laws.{is_digit, decimal-All, length-decimal}
use io_monitor.Monitor.{record_intercept}
use io_monitor.Monitor.Contents.{record_intercept-Tells}
use io_monitor.Monitor.Keeps.{HasPath}
use io_monitor.Monitor.Reports.{record_intercept-counters}
use io_monitor.Monitor.Outside.{Floats, Answers}
use io_monitor.Monitor.State.{Monitor, Intercept}
use io_monitor.Op.{op_value, start}
use io_monitor.Process.{Times, start_intercept, chdir_intercept, summary, Reported, init}
use io_monitor.Process.CommandLine.{arguments_text, joined, c_string-command_line}
use io_monitor.Record.{MonitorRecord, path_max}

digits-IsCString : (s : Bytes) → All (λ c. is_digit c ≡ true) s → IsCString s
digits-IsCString [] h = tt
digits-IsCString (c ∷ s) h = (ground (arith, h), digits-IsCString s h.1)

append-IsCString : (s t : Bytes) → IsCString s → IsCString t → IsCString (s ++ t)
append-IsCString = All-append (λ c. (c == 0) ≡ false)

c_string-IsCString : (a : Bytes) → IsCString (c_string a)
unfolding c_string
c_string-IsCString [] = tt
c_string-IsCString (c ∷ a) = elim (Bool-cases (c == 0)) [
  | inl e ↦ rw e tt
  | inr e ↦ rw e (e, c_string-IsCString a)
]

-- A counter of the summary, with the text in front of it.
counter-IsCString :
    (title : Bytes) (n : ℕ) (s : Bytes)
    → any (λ c. c == 0) title ≡ false
    → IsCString s
    → IsCString (title ++ (decimal n ++ s))
counter-IsCString title n s t h =
    append-IsCString title _ (All-any (λ c. c == 0) title t)
      (append-IsCString (decimal n) s (digits-IsCString (decimal n) (decimal-All n)) h)

pub summary-IsCString : (m : Monitor) → IsCString (summary m)
unfolding summary
summary-IsCString m = counter-IsCString (codes "failed_ipc_sends = ") m.failed_ipc_sends _ refl (
    counter-IsCString (codes "; ipc_retries = ") m.ipc_retries _ refl (
      counter-IsCString (codes "; ipc_retry_wait_lost_time = ") m.ipc_retry_wait_lost_time _ refl (
        counter-IsCString (codes "; ipc_records = ") m.ipc_records _ refl
          (All-any (λ c. c == 0) (codes "; ") refl))))

-- The counters are values of an `int`.
pub record IsCounted (m : Monitor) : Type 0 where
  pub sends : m.failed_ipc_sends < 2 ^ 31
  pub retries : m.ipc_retries < 2 ^ 31
  pub waits : m.ipc_retry_wait_lost_time < 2 ^ 31
  pub records : m.ipc_records < 2 ^ 31

length-counter :
    (title : Bytes) (n : ℕ) (s : Bytes)
    → n < 2 ^ 31
    → length (title ++ (decimal n ++ s)) ≤ length title + 10 + length s
length-counter title n s h =
    rw (length-append title (decimal n ++ s), length-append (decimal n) s)
      (omega (arith, length-decimal n 9 (omega (arith, h))))

pub length-summary : (m : Monitor) → IsCounted m → length (summary m) ≤ 4095
unfolding summary
length-summary m h = omega (
  arith,
  length-counter (codes "failed_ipc_sends = ") m.failed_ipc_sends _ h.sends,
  length-counter (codes "; ipc_retries = ") m.ipc_retries _ h.retries,
  length-counter (codes "; ipc_retry_wait_lost_time = ") m.ipc_retry_wait_lost_time _ h.waits,
  length-counter (codes "; ipc_records = ") m.ipc_records (codes "; ") h.records,
)

length-joined :
    (first : Bytes) (arguments : List Bytes)
    → length (joined first arguments) + 1 ≡ length (arguments_text (first ∷ arguments))
length-joined first [] = sym (length-append first (0 ∷ []))
length-joined first (argument ∷ arguments) =
    rw
      (
        length-append first (b' ' ∷ joined argument arguments),
        length-append first (0 ∷ arguments_text (argument ∷ arguments)),
      )
      (omega (arith, length-joined argument arguments))

-- A call of record() hands over nothing, or a record of this domain, operation and path.
abbrev pub Says : ℕ → ℕ → Bytes → Reported → Type 0
Says dom_type op_type text report =
    (report.0 ≡ none)
    ⊎ ((rec : MonitorRecord) × (report.0 ≡ some rec)
        × (rec.dom_type ≡ dom_type)
        × (rec.op_type ≡ op_type)
        × (c_string rec.s1 ≡ text))

start-HasPath :
    (text : Bytes) (getppid : ℤ) (times : Times) → HasPath (start_intercept text getppid times)
unfolding start_intercept op_value
start-HasPath text getppid times = inl refl

chdir-HasPath :
    (current_dir : Option Bytes) (times : Times) → HasPath (chdir_intercept current_dir times)
unfolding chdir_intercept op_value
chdir-HasPath current_dir times = inl refl

module _ (floats : Floats) where
  says :
      (i : Intercept) (os : Answers) (m : Monitor) (text : Bytes) (o : Option MonitorRecord)
      (m' : Monitor)
      → record_intercept floats i os m ≡ some (o, m')
      → i.s1 ≡ some text
      → IsCString text
      → length text ≤ 4095
      → Says i.dom_type i.op_type text (o, m')
  says i os m text none m' e path c fits = inl refl
  says i os m text (some rec) m' e path c fits =
      let tells = (record_intercept-Tells floats i os m rec m' e).1 in
      inr (
        rec,
        refl,
        tells.dom_type,
        tells.op_type,
        tells.path text path c ∙ take-eq_self 4095 text fits,
      )

  reported :
      (i : Intercept) (os : Answers) (m : Monitor) (text : Bytes)
      → HasPath i
      → i.s1 ≡ some text
      → IsCString text
      → length text ≤ 4095
      → (report : Reported) × (record_intercept floats i os m ≡ some report)
        × Says i.dom_type i.op_type text report
  reported i os m text has path c fits =
      let (o, m', e, counts) = record_intercept-counters floats i os m has in
      ((o, m'), e, says i os m text o m' e path c fits)

module _ (floats : Floats) (check_loaded_fns : Monitor → Monitor) where
  -- When the arguments of the process, of which the first is not empty, fit the array, init() goes
  -- through, and its first call of record() hands over nothing, or a record of the domain START_STOP
  -- and the operation START with the arguments, blanks between them, as its path.
  pub init-joined :
      (cmdline : Bytes) (c : ℕ) (first : Bytes) (arguments : List Bytes) (getppid : ℤ)
      (current_dir : Option Bytes) (times : Times) (os : Answers × Answers) (m : Monitor)
      → IsCString (c ∷ first)
      → All IsCString arguments
      → length (arguments_text ((c ∷ first) ∷ arguments)) ≤ path_max
      → (reports : Reported × Reported) × (init floats check_loaded_fns cmdline
            (some (arguments_text ((c ∷ first) ∷ arguments)))
            getppid
            current_dir
            times
            os
            m
          ≡ some reports)
        × Says (domain_value start_stop) (op_value start) (joined (c ∷ first) arguments) reports.0
  unfolding init start_intercept
  init-joined cmdline c first arguments getppid current_dir times os m h hs fits =
      let (text, read, same) = c_string-command_line cmdline c first arguments h hs fits in
      let (r1, e1, says1) =
        reported floats (start_intercept text getppid times) os.0 (check_loaded_fns m)
          (c_string text) (start-HasPath text getppid times) refl (c_string-IsCString text)
          (rw same (omega (arith, fits, length-joined (c ∷ first) arguments))) in
      let (o, m', e2, counts) =
        record_intercept-counters floats (chdir_intercept current_dir times) os.1 r1.1
          (chdir-HasPath current_dir times) in
      (
        (r1, (o, m')),
        rw (read, e1, e2) refl,
        subst (λ t. Says (domain_value start_stop) (op_value start) t r1) same says1,
      )
