-- ===== src/Http/Scanning.antt =====
-- The loop of check_for_http (io_monitor/check_for_http.cpp) on the first two lines of a message.
use io_monitor.Prelude.{
  ℕ, ◌+◌, ◌<◌, false, [], ◌∷◌, ◌++◌, Bytes, All, length, length-append, ltb-true, ◌==◌,
  append_assoc, append-nil, ◌≡◌, refl, sym, ap, ◌∙◌, arith,
}
use io_monitor.Record.{str_len, path_max}
use io_monitor.Http.{
  Place, Scan, runs_past, scanned, stops, goes_on, store_byte, end_line, take_byte, at_end, scan,
  at_start,
}

-- The text of a line: no NUL and no carriage return.
abbrev pub IsText : Bytes → Type 0
IsText = All (λ c. ((c == 0) ≡ false) × ((c == 13) ≡ false))

scan-goes_on :
    (behind c : ℕ) (at at' : Place) (buf : Bytes)
    → take_byte c at ≡ goes_on at'
    → scan behind at (c ∷ buf) ≡ scan behind at' buf
unfolding scan
scan-goes_on behind c at at' buf e = rw (e, scan) refl

scan-stops :
    (behind c : ℕ) (at : Place) (buf : Bytes) (s : Scan)
    → take_byte c at ≡ stops s
    → scan behind at (c ∷ buf) ≡ s
unfolding scan
scan-stops behind c at buf s e = rw (e, scan) refl

-- In the first line.
abbrev in_first : Bytes → Place
in_first buffer1 = record { line = 0; after_return = false; buffer1 = buffer1; buffer2 = [] }

abbrev in_second : Bytes → Bytes → Place
in_second buffer1 buffer2 = record {
  line = 1;
  after_return = false;
  buffer1 = buffer1;
  buffer2 = buffer2;
}

take_byte-first :
    (c : ℕ) (buffer1 : Bytes)
    → (c == 0) ≡ false
    → (c == 13) ≡ false
    → length buffer1 + 1 < path_max
    → take_byte c (in_first buffer1) ≡ goes_on (in_first (buffer1 ++ c ∷ []))
unfolding take_byte store_byte
take_byte-first c buffer1 n r h = rw (n, r, ltb-true (length buffer1 + 1) path_max h) refl

take_byte-second :
    (c : ℕ) (buffer1 buffer2 : Bytes)
    → (c == 0) ≡ false
    → (c == 13) ≡ false
    → length buffer2 + 1 < str_len
    → take_byte c (in_second buffer1 buffer2) ≡ goes_on (in_second buffer1 (buffer2 ++ c ∷ []))
unfolding take_byte store_byte
take_byte-second c buffer1 buffer2 n r h = rw (n, r, ltb-true (length buffer2 + 1) str_len h) refl

scan-first :
    (behind : ℕ) (buffer1 text buf : Bytes)
    → IsText text
    → length buffer1 + length text < path_max
    → scan behind (in_first buffer1) (text ++ buf) ≡ scan behind (in_first (buffer1 ++ text)) buf
scan-first behind buffer1 [] buf t h =
    ap (λ b. scan behind (in_first b) buf) (sym (append-nil buffer1))
scan-first behind buffer1 (c ∷ text) buf t h =
    scan-goes_on behind c (in_first buffer1) _ (text ++ buf)
      (take_byte-first c buffer1 t.0.0 t.0.1 (omega (arith, h)))
    ∙ scan-first behind (buffer1 ++ c ∷ []) text buf t.1
        (rw (length-append buffer1 (c ∷ [])) (omega (arith, h)))
    ∙ ap (λ b. scan behind (in_first b) buf) (append_assoc buffer1 (c ∷ []) text)

scan-second :
    (behind : ℕ) (buffer1 buffer2 text buf : Bytes)
    → IsText text
    → length buffer2 + length text < str_len
    → scan behind (in_second buffer1 buffer2) (text ++ buf)
      ≡ scan behind (in_second buffer1 (buffer2 ++ text)) buf
scan-second behind buffer1 buffer2 [] buf t h =
    ap (λ b. scan behind (in_second buffer1 b) buf) (sym (append-nil buffer2))
scan-second behind buffer1 buffer2 (c ∷ text) buf t h =
    scan-goes_on behind c (in_second buffer1 buffer2) _ (text ++ buf)
      (take_byte-second c buffer1 buffer2 t.0.0 t.0.1 (omega (arith, h)))
    ∙ scan-second behind buffer1 (buffer2 ++ c ∷ []) text buf t.1
        (rw (length-append buffer2 (c ∷ [])) (omega (arith, h)))
    ∙ ap (λ b. scan behind (in_second buffer1 b) buf) (append_assoc buffer2 (c ∷ []) text)

-- The end of the first line.
scan-newline :
    (behind : ℕ) (buffer1 buf : Bytes)
    → scan behind (in_first buffer1) (13 ∷ 10 ∷ buf) ≡ scan behind (in_second buffer1 (10 ∷ [])) buf
unfolding take_byte end_line store_byte
scan-newline behind buffer1 buf =
    scan-goes_on behind 13 (in_first buffer1) _ (10 ∷ buf) refl
    ∙ scan-goes_on behind 10 _ (in_second buffer1 (10 ∷ [])) buf refl

-- The end of the second.
scan-end :
    (behind : ℕ) (buffer1 buffer2 buf : Bytes)
    → scan behind (in_second buffer1 buffer2) (13 ∷ 10 ∷ buf) ≡ scanned buffer1 buffer2
unfolding take_byte end_line
scan-end behind buffer1 buffer2 buf =
    scan-goes_on behind 13 (in_second buffer1 buffer2) _ (10 ∷ buf) refl
    ∙ scan-stops behind 10 _ buf (scanned buffer1 buffer2) refl

pub scan-lines :
    (behind : ℕ) (line1 line2 more : Bytes)
    → IsText line1
    → IsText line2
    → length line1 < path_max
    → length line2 + 1 < str_len
    → scan behind at_start (line1 ++ (13 ∷ 10 ∷ (line2 ++ (13 ∷ 10 ∷ more))))
      ≡ scanned line1 (10 ∷ line2)
scan-lines behind line1 line2 more t1 t2 h1 h2 =
    scan-first behind [] line1 _ t1 (omega (arith, h1))
    ∙ scan-newline behind line1 (line2 ++ (13 ∷ 10 ∷ more))
    ∙ scan-second behind line1 (10 ∷ []) line2 (13 ∷ 10 ∷ more) t2 (omega (arith, h2))
    ∙ scan-end behind line1 (10 ∷ line2) more

-- A first line whose carriage return is the last of the bytes, with a newline behind them.
pub scan-cut :
    (line1 : Bytes)
    → IsText line1
    → length line1 < path_max
    → scan 10 at_start (line1 ++ (13 ∷ [])) ≡ runs_past
unfolding scan take_byte at_end
scan-cut line1 t h = scan-first 10 [] line1 (13 ∷ []) t (omega (arith, h)) ∙ refl
