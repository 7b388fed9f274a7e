-- ===== src/Influx/Escape.antt =====
-- copy_escaped_tag_value of plugins/output_influxdb.c, against a plain description: the source is
-- cleaned, the cleaned text escaped, and as much of that is kept as fits.
use io_monitor.Prelude.{
  ℕ, ◌+◌, ◌-◌, ◌≤◌, ◌<◌, true, false, [], ◌∷◌, ◌++◌, Bytes, length, length-append, ltb, ◌==◌,
  if◌then◌else◌, ◌≡◌, refl, sym, ap, ◌∙◌, subst, arith, ◌⊎◌, inl, inr, Bool-cases, append_assoc,
  append-nil, ltb-true, All-left, ltb-false,
}
use io_monitor.CharArray.{c_string, is_terminated, zeros}
use io_monitor.CharArray.Laws.{IsCString, length-zeros, c_string-zeros, is_terminated-zeros}
use io_monitor.Influx.Clean.{clean, mark, escaped, escaped-IsCString, clean-IsCString}
use io_monitor.Influx.{
  is_special, repeats, returned, continued, put, copy_char, copy_from, copy_escaped_tag_value,
}

-- `text` is cut to `kept`, whose escaped form has room behind `used` bytes and in front of a NUL; it is
-- cut before a byte that has none.
pub record IsCut (dest_len used : ℕ) (text kept : Bytes) : Type 0 where
  pub rest : Bytes
  pub split : text ≡ kept ++ rest
  pub room : used + length (escaped kept) < dest_len
  pub full :
      (rest ≡ [])
      ⊎ ((c : ℕ) × (s : Bytes) × (rest ≡ c ∷ s)
          × (dest_len ≤ used + length (escaped kept) + length (mark c)))

-- A round on a byte that is copied.
copy_char-mark :
    (dest_len last_ch ch : ℕ) (out : Bytes)
    → repeats last_ch ch ≡ false
    → (ch == 10) ≡ false
    → (ch == b'\\') ≡ false
    → copy_char dest_len last_ch ch out ≡ (
        if ltb (length out + length (mark ch)) dest_len
        then continued ch (out ++ mark ch)
        else returned out)
unfolding copy_char put mark
copy_char-mark dest_len last_ch ch out r n b = elim (Bool-cases (is_special ch)) [
  | inl e ↦ elim (Bool-cases (ltb (length out) (dest_len - 2))) [
    | inl f ↦
        rw
          (
            r,
            n,
            b,
            e,
            f,
            length-append out (b'\\' ∷ []),
            append_assoc out (b'\\' ∷ []) (ch ∷ []),
            ltb-true (length out + 1) (dest_len - 1) (ground (arith, f)),
            ltb-true (length out + 2) dest_len (ground (arith, f)),
          )
          refl
    | inr f ↦ rw (r, n, b, e, f, ltb-false (length out + 2) dest_len (ground (arith, f))) refl
  ]
  | inr e ↦ elim (Bool-cases (ltb (length out + 1) dest_len)) [
    | inl f ↦ rw (r, n, b, e, ltb-true (length out) (dest_len - 1) (ground (arith, f)), f) refl
    | inr f ↦ rw (r, n, b, e, ltb-false (length out) (dest_len - 1) (ground (arith, f)), f) refl
  ]
]

copy_from-continued :
    (dest_len last_ch ch next_ch : ℕ) (src out out' : Bytes)
    → copy_char dest_len last_ch ch out ≡ continued next_ch out'
    → copy_from dest_len last_ch (ch ∷ src) out ≡ copy_from dest_len next_ch src out'
unfolding copy_from
copy_from-continued dest_len last_ch ch next_ch src out out' e = rw (e, copy_from) refl

copy_from-returned :
    (dest_len last_ch ch : ℕ) (src out out' : Bytes)
    → copy_char dest_len last_ch ch out ≡ returned out'
    → copy_from dest_len last_ch (ch ∷ src) out ≡ out'
unfolding copy_from
copy_from-returned dest_len last_ch ch src out out' e = rw (e, copy_from) refl

-- What the loop leaves, when the cleaned text is `text`.
abbrev Copies : ℕ → Bytes → Bytes → Bytes → Type 0
Copies dest_len out result text =
    (kept : Bytes) × (result ≡ out ++ escaped kept) × IsCut dest_len (length out) text kept

stops : (dest_len : ℕ) (out : Bytes) → length out < dest_len → Copies dest_len out out []
unfolding escaped
stops dest_len out h = (
  [],
  sym (append-nil out),
  record { rest = []; split = refl; room = omega arith; full = inl refl },
)

no_room :
    (dest_len ch : ℕ) (out s : Bytes)
    → length out < dest_len
    → ltb (length out + length (mark ch)) dest_len ≡ false
    → Copies dest_len out out (ch ∷ s)
unfolding escaped
no_room dest_len ch out s h f = (
  [],
  sym (append-nil out),
  record {
    rest = ch ∷ s;
    split = refl;
    room = omega arith;
    full = inr (ch, s, refl, ground (arith, f));
  },
)

same_room : (out m kept : Bytes) → length (out ++ m) + length kept ≡ length out + length (m ++ kept)
same_room out m kept = rw (length-append out m, length-append m kept) (omega arith)

goes_on :
    (dest_len ch : ℕ) (out s result : Bytes)
    → Copies dest_len (out ++ mark ch) result s
    → Copies dest_len out result (ch ∷ s)
unfolding escaped
goes_on dest_len ch out s result (kept, e, cut) = (
  ch ∷ kept,
  e ∙ append_assoc out (mark ch) (escaped kept),
  record {
    rest = cut.rest;
    split = ap (λ x. ch ∷ x) cut.split;
    room = rw (← same_room out (mark ch) (escaped kept)) cut.room;
    full = rw (← same_room out (mark ch) (escaped kept)) cut.full;
  },
)

clean-mark :
    (last_ch ch : ℕ) (src : Bytes)
    → repeats last_ch ch ≡ false
    → (ch == 10) ≡ false
    → (ch == b'\\') ≡ false
    → clean last_ch (ch ∷ src) ≡ ch ∷ clean ch src
unfolding clean
clean-mark last_ch ch src r n b = rw (r, n, b) refl

copy_from_lem :
    (dest_len last_ch : ℕ) (src out : Bytes)
    → length out < dest_len
    → Copies dest_len out (copy_from dest_len last_ch src out) (clean last_ch src)
unfolding copy_from clean copy_char
copy_from_lem dest_len last_ch [] out h = stops dest_len out h
copy_from_lem dest_len last_ch (ch ∷ src) out h = elim (Bool-cases (repeats last_ch ch)) [
  | inl r ↦
      rw (copy_from-continued dest_len last_ch ch last_ch src out out (rw r refl), r)
        (copy_from_lem dest_len last_ch src out h)
  | inr r ↦ elim (Bool-cases (ch == 10)) [
    | inl n ↦
        rw (copy_from-returned dest_len last_ch ch src out out (rw (r, n) refl), r, n)
          (stops dest_len out h)
    | inr n ↦ elim (Bool-cases (ch == b'\\')) [
      | inl b ↦
          rw (copy_from-continued dest_len last_ch ch ch src out out (rw (r, n, b) refl), r, n, b)
            (copy_from_lem dest_len ch src out h)
      | inr b ↦
          rw (clean-mark last_ch ch src r n b)
            (elim (Bool-cases (ltb (length out + length (mark ch)) dest_len)) [
              | inl f ↦
                  rw
                    (copy_from-continued dest_len last_ch ch ch src out (out ++ mark ch)
                      (copy_char-mark dest_len last_ch ch out r n b ∙ rw f refl))
                    (goes_on dest_len ch out (clean ch src)
                      (copy_from dest_len ch src (out ++ mark ch))
                      (copy_from_lem dest_len ch src (out ++ mark ch)
                        (rw (length-append out (mark ch)) (ground (arith, f)))))
              | inr f ↦
                  rw
                    (copy_from-returned dest_len last_ch ch src out out
                      (copy_char-mark dest_len last_ch ch out r n b ∙ rw f refl))
                    (no_room dest_len ch out (clean ch src) h f)
            ])
    ]
  ]
]

placed :
    (dest_len : ℕ) (out text : Bytes)
    → 0 < dest_len
    → IsCString text
    → Copies dest_len [] out text
    → let result = out ++ zeros (dest_len - length out) in
      (length result ≡ dest_len)
      × (is_terminated result ≡ true)
      × ((kept : Bytes) × (c_string result ≡ escaped kept) × IsCut dest_len 0 text kept)
placed dest_len out text h t (kept, e, cut) = rw e (
  (rw
      (
        length-append (escaped kept) (zeros (dest_len - length (escaped kept))),
        length-zeros (dest_len - length (escaped kept)),
      )
      (omega (arith, cut.room))),
  is_terminated-zeros (escaped kept) (dest_len - length (escaped kept)) (omega (arith, cut.room)),
  (
    kept,
    c_string-zeros (escaped kept) _
        (escaped-IsCString kept (All-left _ kept cut.rest (subst IsCString cut.split t))),
    cut,
  ),
)

-- The array is filled to its length, its text ends inside it, and the text is the escaped form of what
-- is kept of the cleaned source, which is all that has room. The first value of `last_ch`, which the
-- code does not set, is arbitrary.
pub copy_escaped_tag_value_lem :
    (last_ch dest_len : ℕ) (src : Bytes)
    → 0 < dest_len
    → IsCString src
    → let result = copy_escaped_tag_value last_ch src dest_len in
      (length result ≡ dest_len)
      × (is_terminated result ≡ true)
      × ((kept : Bytes) × (c_string result ≡ escaped kept)
          × IsCut dest_len 0 (clean last_ch src) kept)
unfolding copy_escaped_tag_value
copy_escaped_tag_value_lem last_ch dest_len src h s =
    placed dest_len _ (clean last_ch src) h (clean-IsCString last_ch src s)
      (copy_from_lem dest_len last_ch src [] h)
