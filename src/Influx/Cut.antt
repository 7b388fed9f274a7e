-- ===== src/Influx/Cut.antt =====
-- The array of 1024 bytes that process_data of plugins/output_influxdb.c prints into.
use io_monitor.Prelude.{
  ℕ, zero, suc, ◌+◌, ◌≤◌, ℤ, some, [], ◌∷◌, ◌++◌, Bytes, take, length, length-append, get_elem?,
  append_assoc, ◌>>=◌, Option, ◌≡◌, refl, sym, ap, ◌∙◌, arith,
}
use io_monitor.Format.{Tables}
use io_monitor.Record.{MonitorRecord, path_max, str_len}
use io_monitor.Influx.{concat, before_s1, behind_s1, tag_text, postdata}

take-append : (n : ℕ) (xs ys : Bytes) → n ≤ length xs → take n (xs ++ ys) ≡ take n xs
take-append zero xs ys h = refl
take-append (suc n) [] ys h = absurd (omega arith)
take-append (suc n) (x ∷ xs) ys h = ap (λ t. x ∷ t) (take-append n xs ys (omega arith))

take-front :
    (n : ℕ) (front s back : Bytes)
    → n ≤ length front + length s
    → take n (front ++ (s ++ back)) ≡ take n (front ++ s)
take-front n front s back h =
    ap (take n) (sym (append_assoc front s back))
    ∙ take-append n (front ++ s) back (omega (arith, length-append front s))

printed :
    (domain op : Option Bytes) (text : Bytes → Bytes → Bytes) {d o : Bytes}
    → domain ≡ some d
    → op ≡ some o
    → (domain >>= λ d'. op >>= λ o'. some (text d' o')) ≡ some (text d o)
printed domain op text e e' = rw (e, e') refl

postdata-eq :
    (last1 last2 : ℕ) (tables : Tables) (rec : MonitorRecord) {domain op : Bytes}
    → get_elem? tables.domains_names rec.dom_type ≡ some domain
    → get_elem? tables.ops_names rec.op_type ≡ some op
    → postdata last1 last2 tables rec
      ≡ some (
          take 1023 (
            concat (before_s1 rec domain op)
            ++ (tag_text last1 rec.s1 path_max
                ++ concat (behind_s1 tables rec (tag_text last2 rec.s2 str_len)))))
unfolding postdata
postdata-eq last1 last2 tables rec named does =
    printed (get_elem? tables.domains_names rec.dom_type) (get_elem? tables.ops_names rec.op_type)
      (λ domain op. take 1023 (
        concat (before_s1 rec domain op)
        ++ (tag_text last1 rec.s1 path_max
            ++ concat (behind_s1 tables rec (tag_text last2 rec.s2 str_len)))))
      named does

module _ (last1 last2 last2' : ℕ) (tables : Tables) (rec : MonitorRecord) (domain op : Bytes)
    (named : get_elem? tables.domains_names rec.dom_type ≡ some domain)
    (does : get_elem? tables.ops_names rec.op_type ≡ some op) where
  -- When what is printed up to the end of s1 has 1023 bytes or more, nothing of what follows is in the
  -- text that is posted: records that differ in s2, the times, the process, the error code, the
  -- descriptor and the count of bytes give the same text.
  pub postdata-cut :
      (timestamp : ℤ) (elapsed_time : ℕ) (pid error_code fd : ℤ) (bytes_transferred : ℕ)
      (s2 : Bytes)
      → 1023 ≤ length (concat (before_s1 rec domain op)) + length (tag_text last1 rec.s1 path_max)
      → postdata last1 last2 tables rec
        ≡ postdata last1 last2' tables (record rec {
          timestamp = timestamp;
          elapsed_time = elapsed_time;
          pid = pid;
          error_code = error_code;
          fd = fd;
          bytes_transferred = bytes_transferred;
          s2 = s2;
        })
  unfolding before_s1
  postdata-cut timestamp elapsed_time pid error_code fd bytes_transferred s2 full =
      let other : MonitorRecord = record rec {
        timestamp = timestamp;
        elapsed_time = elapsed_time;
        pid = pid;
        error_code = error_code;
        fd = fd;
        bytes_transferred = bytes_transferred;
        s2 = s2;
      } in
      let front = concat (before_s1 rec domain op) in
      let text = tag_text last1 rec.s1 path_max in
      postdata-eq last1 last2 tables rec named does
      ∙ ap some (take-front 1023 front text _ full)
      ∙ sym (ap some (take-front 1023 front text _ full))
      ∙ sym (postdata-eq last1 last2' tables other named does)
