-- ===== src/Http.antt =====
-- check_for_http of io_monitor/check_for_http.cpp: whether what a process reads or writes begins an HTTP
-- message, and the intercept that is reported for it.
pub mod Scanning
pub mod Messages
mod Tests
use io_monitor.Prelude.{
  ℕ, suc, ◌+◌, ℤ, pos, Bool, true, false, ◌&&◌, ◌||◌, Option, none, some, [], ◌∷◌, ◌++◌, Bytes,
  codes, length, starts_with, has_substring, ltb, ltb_ℤ, ◌==◌, if◌then◌else◌,
}
use io_monitor.Domain.{domain_value, file_write, http}
use io_monitor.Op.{Op, op_value, http_req_send, http_req_recv, http_resp_send, http_resp_recv}
use io_monitor.Record.{str_len, path_max}
use io_monitor.Monitor.State.{Intercept}

-- Where the loop stands: the number of the line, whether the byte before was a carriage return, and what
-- the two arrays hold.
pub record Place : Type 0 where
  pub line : ℕ
  pub after_return : Bool
  pub buffer1 : Bytes
  pub buffer2 : Bytes

-- How the loop ends: the function returns, the index passes the end, or the lines are there.
pub data Scan : Type 0 where
  returned : Scan
  runs_past : Scan
  scanned : Bytes → Bytes → Scan

pub data Round : Type 0 where
  stops : Scan → Round
  goes_on : Place → Round

-- The end of a round: a byte is stored.
unfoldable pub store_byte : ℕ → Place → Round
store_byte c at =
    if ltb 0 at.line
    then (if ltb (length at.buffer2 + 1) str_len
        then goes_on (record at { after_return = false; buffer2 = at.buffer2 ++ c ∷ [] })
        else stops returned)
    else (if ltb (length at.buffer1 + 1) path_max
        then goes_on (record at { after_return = false; buffer1 = at.buffer1 ++ c ∷ [] })
        else stops returned)

-- The byte behind a carriage return.
unfoldable pub end_line : ℕ → Place → Round
unfolding store_byte
end_line c at =
    if c == 10
    then (if ltb 1 (at.line + 1)
        then stops (scanned at.buffer1 at.buffer2)
        else store_byte c (record at { line = at.line + 1 }))
    else stops returned

unfoldable pub take_byte : ℕ → Place → Round
unfolding end_line store_byte
take_byte c at =
    if at.after_return
    then end_line c at
    else if c == 0
    then stops returned
    else if c == 13
    then goes_on (record at { after_return = true })
    else store_byte c at

-- The bytes are over. Behind a carriage return the byte behind them, `behind`, is read as well, and when
-- it ends the first line the index steps over the end.
unfoldable pub at_end : ℕ → Place → Scan
at_end behind at =
    if at.after_return
    then (if behind == 10
        then (if ltb 1 (at.line + 1) then scanned at.buffer1 at.buffer2 else runs_past)
        else returned)
    else scanned at.buffer1 at.buffer2

-- The `for`.
unfoldable pub scan : ℕ → Place → Bytes → Scan
unfolding take_byte at_end
scan behind at [] = at_end behind at
scan behind at (c ∷ buf) = elim (take_byte c at) [ stops s ↦ s | goes_on at' ↦ scan behind at' buf ]

abbrev pub at_start : Place
at_start = record { line = 0; after_return = false; buffer1 = []; buffer2 = [] }

unfoldable pub is_request : Bytes → Bool
unfolding starts_with
is_request text =
    starts_with (codes "GET ") text
    || starts_with (codes "PUT ") text
    || starts_with (codes "HEAD ") text
    || starts_with (codes "POST ") text
    || starts_with (codes "DELETE ") text

-- The arguments of record().
unfoldable pub http_intercept : Op → ℤ → Bytes → (ℤ × ℤ) × (ℤ × ℤ) → Intercept
http_intercept op fd text times = record {
  dom_type = domain_value http;
  op_type = op_value op;
  fd = fd;
  s1 = some text;
  s2 = none;
  start_time = times.0;
  end_time = times.1;
  error_code = pos 0;
  bytes_transferred = pos 0;
}

-- The function reports nothing or an intercept, or reads where it must not.
pub data Found : Type 0 where
  nothing : Found
  reports : Intercept → Found
  reads_past : Found

-- The text of an array that is not set is `unset`; `sscanf` is the number that it reads of a text, if it
-- does, and otherwise `resp_code` is not set either.
pub record Unset : Type 0 where
  pub unset : Bytes
  pub resp_code : ℤ
  pub sscanf : Bytes → Option ℤ

abbrev pub in_range : ℤ → Bool
in_range code = ltb_ℤ (pos 99) code && ltb_ℤ code (pos 1000)

abbrev pub code_of : Unset → Bytes → ℤ
code_of u text = elim (u.sscanf text) [ none ↦ u.resp_code | some code ↦ code ]

abbrev direction : ℕ → Op → Op → Op
direction dom sent received = if dom == domain_value file_write then sent else received

-- What follows the loop.
unfoldable pub judge : Unset → ℕ → ℤ → (ℤ × ℤ) × (ℤ × ℤ) → Bytes → Found
unfolding has_substring starts_with is_request http_intercept
judge u dom fd times text =
    if has_substring text (codes "HTTP")
    then (if is_request text
        then reports (http_intercept (direction dom http_req_send http_req_recv) fd text times)
        else if starts_with (codes "HTTP/1") text && in_range (code_of u text)
        then reports (http_intercept (direction dom http_resp_send http_resp_recv) fd text times)
        else nothing)
    else nothing

abbrev pub first_line : Unset → Bytes → Bytes
first_line u [] = u.unset
first_line u (c ∷ s) = c ∷ s

unfoldable pub after_loop : Unset → ℕ → ℤ → (ℤ × ℤ) × (ℤ × ℤ) → Scan → Found
unfolding judge
after_loop u dom fd times returned = nothing
after_loop u dom fd times runs_past = reads_past
after_loop u dom fd times (scanned buffer1 buffer2) = judge u dom fd times (first_line u buffer1)

-- `behind` is the byte behind the `count` bytes of `buf`.
unfoldable pub check_for_http : Unset → ℕ → ℤ → Bytes → ℕ → (ℤ × ℤ) × (ℤ × ℤ) → Found
unfolding scan after_loop
check_for_http u dom fd buf behind times = after_loop u dom fd times (scan behind at_start buf)
