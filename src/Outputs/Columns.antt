-- ===== src/Outputs/Columns.antt =====
-- plugins/output_table.c: where the columns stand, and how often the headers and blank lines come.
use io_monitor.Prelude.{
  ℕ, zero, suc, ◌+◌, ◌-◌, ◌≤◌, ◌∷◌, ◌++◌, Bytes, codes, length, length-append, replicate, ◌≡◌, refl,
  ap, arith,
}
use io_monitor.CharArray.{c_string}
use io_monitor.Format.{decimal, decimal_int, pad_left, pad_right, Tables}
use io_monitor.Record.{MonitorRecord}
use io_monitor.Outputs.Table.{columns, header, row_columns, row}

length-replicate : (n c : ℕ) → length (replicate n c) ≡ n
length-replicate zero c = refl
length-replicate (suc n) c = ap suc (length-replicate n c)

length-pad_left : (w : ℕ) (s : Bytes) → length s ≤ w → length (pad_left w s) ≡ w
unfolding pad_left
length-pad_left w s h =
    rw (length-append (replicate (w - length s) b' ') s, length-replicate (w - length s) b' ')
      (omega (arith, h))

length-pad_right : (w : ℕ) (s : Bytes) → length s ≤ w → length (pad_right w s) ≡ w
unfolding pad_right
length-pad_right w s h =
    rw (length-append s (replicate (w - length s) b' '), length-replicate (w - length s) b' ')
      (omega (arith, h))

-- The texts of a row fit their columns.
pub record Fits (facility device timestamp elapsed pid domain op error fd transferred : Bytes)
    : Type 0 where
  pub in_facility : length facility ≤ 10
  pub in_device : length device ≤ 10
  pub in_timestamp : length timestamp ≤ 10
  pub in_elapsed : length elapsed ≤ 8
  pub in_pid : length pid ≤ 5
  pub in_domain : length domain ≤ 20
  pub in_op : length op ≤ 20
  pub in_error : length error ≤ 3
  pub in_fd : length fd ≤ 5
  pub in_transferred : length transferred ≤ 8

length-then_blank :
    (s t : Bytes) {w k : ℕ} → length s ≡ w → length t ≡ k → length (s ++ (b' ' ∷ t)) ≡ w + suc k
length-then_blank s t {w} {k} e f = rw (length-append s (b' ' ∷ t), e, f) refl

length-columns :
    (facility device timestamp elapsed pid domain op error fd transferred : Bytes)
    → Fits facility device timestamp elapsed pid domain op error fd transferred
    → length (columns facility device timestamp elapsed pid domain op error fd transferred) ≡ 109
unfolding columns
length-columns facility device timestamp elapsed pid domain op error fd transferred h =
    length-then_blank (pad_left 10 facility) _ (length-pad_left 10 facility h.in_facility) (
      length-then_blank (pad_left 10 device) _ (length-pad_left 10 device h.in_device) (
        length-then_blank (pad_left 10 timestamp) _ (length-pad_left 10 timestamp h.in_timestamp) (
          length-then_blank (pad_left 8 elapsed) _ (length-pad_left 8 elapsed h.in_elapsed) (
            length-then_blank (pad_left 5 pid) _ (length-pad_left 5 pid h.in_pid) (
              length-then_blank (pad_left 20 domain) _ (length-pad_left 20 domain h.in_domain) (
                length-then_blank (b' ' ∷ pad_right 20 op) _
                  (ap suc (length-pad_right 20 op h.in_op))
                  (length-then_blank (pad_left 3 error) _ (length-pad_left 3 error h.in_error) (
                    length-then_blank (pad_left 5 fd) _ (length-pad_left 5 fd h.in_fd)
                      (length-pad_left 8 transferred h.in_transferred)))))))))

-- In a row whose printed texts fit their columns, s1 stands in the column in which the header has its
-- last title: behind 109 bytes and a blank.
pub row-header :
    (tables : Tables) (rec : MonitorRecord) (domain op : Bytes)
    → Fits
        (c_string rec.facility)
        (c_string rec.device)
        (decimal_int rec.timestamp)
        (tables.print_float 4 rec.elapsed_time)
        (decimal_int rec.pid)
        domain
        op
        (decimal_int rec.error_code)
        (decimal_int rec.fd)
        (decimal rec.bytes_transferred)
    → (titles front : Bytes) × (header ≡ titles ++ (b' ' ∷ codes "PARM"))
      × (row tables rec domain op ≡ front ++ (b' ' ∷ (c_string rec.s1 ++ (b' ' ∷ c_string rec.s2))))
      × (length titles ≡ 109)
      × (length front ≡ 109)
unfolding header row row_columns
row-header tables rec domain op h = (
  columns (codes "FACILITY") (codes "DEV") (codes "TS.") (codes "ELAPSED") (codes "PID")
      (codes "DOMAIN") (codes "OPERATION") (codes "ERR") (codes "FD") (codes "XFER"),
  row_columns tables rec domain op,
  refl,
  refl,
  refl,
  length-columns _ _ _ _ _ _ _ _ _ _ h,
)
