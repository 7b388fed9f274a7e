-- ===== src/Influx/Clean.antt =====
-- copy_escaped_tag_value of plugins/output_influxdb.c, described: the cleaned text and its escaped form.
use io_monitor.Prelude.{
  ℕ, [], ◌∷◌, ◌++◌, Bytes, ◌==◌, if◌then◌else◌, ◌≡◌, refl, inl, inr, Bool-cases, append_assoc,
  All-if,
}
use io_monitor.CharArray.Laws.{IsCString}
use io_monitor.Influx.{is_special, repeats}

-- The text up to the first newline, without backslashes, and of each run of blanks, commas or equals
-- signs the first. A byte equal to the one before the text counts as in a run.
unfoldable pub clean : ℕ → Bytes → Bytes
unfolding repeats
clean last_ch [] = []
clean last_ch (ch ∷ src) =
    let same = clean last_ch src in
    let next = clean ch src in
    if repeats last_ch ch
    then same
    else if ch == 10
    then []
    else if ch == b'\\'
    then next
    else ch ∷ next

unfoldable pub mark : ℕ → Bytes
unfolding is_special
mark c = if is_special c then b'\\' ∷ c ∷ [] else c ∷ []

unfoldable pub escaped : Bytes → Bytes
unfolding mark
escaped [] = []
escaped (c ∷ s) = mark c ++ escaped s

pub escaped-append : (s t : Bytes) → escaped (s ++ t) ≡ escaped s ++ escaped t
unfolding escaped
escaped-append [] t = refl
escaped-append (c ∷ s) t =
    rw (escaped-append s t, append_assoc (mark c) (escaped s) (escaped t)) refl

-- The marked bytes hold no NUL.
pub escaped-IsCString : (s : Bytes) → IsCString s → IsCString (escaped s)
unfolding escaped mark
escaped-IsCString [] h = tt
escaped-IsCString (c ∷ s) h = elim (Bool-cases (is_special c)) [
  | inl e ↦ rw e (refl, (h.0, escaped-IsCString s h.1))
  | inr e ↦ rw e (h.0, escaped-IsCString s h.1)
]

pub clean-IsCString : (last_ch : ℕ) (s : Bytes) → IsCString s → IsCString (clean last_ch s)
unfolding clean
clean-IsCString last_ch [] h = tt
clean-IsCString last_ch (ch ∷ s) h =
    All-if _ (repeats last_ch ch) _ _ (clean-IsCString last_ch s h.1) (
      All-if _ (ch == 10) _ _ tt
        (All-if _ (ch == b'\\') _ _ (clean-IsCString ch s h.1) (h.0, clean-IsCString ch s h.1)))
