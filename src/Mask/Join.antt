-- ===== src/Mask/Join.antt =====
-- Names joined by commas, as print-mask writes them, and read back as the words between commas.
use io_monitor.Prelude.{List, [], ◌∷◌, ◌++◌, Bytes, All, ◌≡◌, refl}
use io_monitor.Tokens.{words, IsWord, words-cons, words_word}
use io_monitor.Mask.{is_comma}

abbrev pub join : List Bytes → Bytes
join [] = []
join (n ∷ []) = n
join (n ∷ m ∷ ns) = n ++ (b',' ∷ join (m ∷ ns))

pub words-join : (ns : List Bytes) → All (IsWord is_comma) ns → words is_comma (join ns) ≡ ns
words-join [] h = unfold words in refl
words-join (n ∷ []) h = words_word is_comma n h.0
words-join (n ∷ m ∷ ns) h =
    rw (words-cons is_comma n (join (m ∷ ns)) b',' h.0 refl, words-join (m ∷ ns) h.1)
