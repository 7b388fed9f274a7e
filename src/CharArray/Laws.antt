-- ===== src/CharArray/Laws.antt =====
-- What a text keeps when it is copied into an array.
use io_monitor.Prelude.{
  ℕ, zero, suc, true, false, [], ◌∷◌, ◌++◌, Bytes, length, take, All, ◌==◌, ltb, ◌≡◌, ◌<◌, ◌≢◌,
  refl, ap, arith,
}
use io_monitor.CharArray.{c_string, is_terminated, strncpy, terminate, zeros}

-- A C string holds no NUL.
abbrev pub IsCString : Bytes → Type 0
IsCString = All (λ c. (c == 0) ≡ false)

pub length-strncpy : (size : ℕ) (s : Bytes) → length (strncpy size s) ≡ size
unfolding strncpy
length-strncpy zero s = refl
length-strncpy (suc size) [] = ap suc (length-strncpy size [])
length-strncpy (suc size) (c ∷ s) = ap suc (length-strncpy size s)

-- A copied text is cut to the size of the array.
pub c_string-strncpy :
    (size : ℕ) (s : Bytes) → IsCString s → c_string (strncpy size s) ≡ take size s
unfolding c_string strncpy
c_string-strncpy zero s h = refl
c_string-strncpy (suc size) [] h = refl
c_string-strncpy (suc size) (c ∷ s) h = rw (h.0, c_string-strncpy size s h.1)

-- It is terminated exactly if it is shorter than the array.
pub is_terminated-strncpy :
    (size : ℕ) (s : Bytes) → IsCString s → is_terminated (strncpy size s) ≡ ltb (length s) size
unfolding is_terminated strncpy
is_terminated-strncpy zero s h = ground arith
is_terminated-strncpy (suc size) [] h = ground arith
is_terminated-strncpy (suc size) (c ∷ s) h =
    rw (h.0, is_terminated-strncpy size s h.1) (ground arith)

pub is_terminated-terminate : (a : Bytes) → a ≢ [] → is_terminated (terminate a) ≡ true
unfolding is_terminated terminate
is_terminated-terminate [] h = absurd (h refl)
is_terminated-terminate (c ∷ []) h = refl
is_terminated-terminate (c ∷ d ∷ a) h = ground (arith, is_terminated-terminate (d ∷ a) (λ e. cc))

-- A text that is copied and then terminated by force keeps what fits before the last byte.
pub c_string-terminate :
    (size : ℕ) (s : Bytes) → IsCString s → c_string (terminate (strncpy (suc size) s)) ≡ take size s
unfolding c_string terminate strncpy
c_string-terminate zero [] h = refl
c_string-terminate zero (c ∷ s) h = refl
c_string-terminate (suc size) [] h = refl
c_string-terminate (suc zero) (c ∷ []) h = rw h.0
c_string-terminate (suc (suc size)) (c ∷ []) h = rw h.0
c_string-terminate (suc size) (c ∷ d ∷ s) h = rw (h.0, c_string-terminate size (d ∷ s) h.1)

pub length-zeros : (size : ℕ) → length (zeros size) ≡ size
unfolding zeros
length-zeros zero = refl
length-zeros (suc size) = ap suc (length-zeros size)

-- A text in front of NULs.
pub c_string-zeros : (s : Bytes) (size : ℕ) → IsCString s → c_string (s ++ zeros size) ≡ s
unfolding c_string zeros
c_string-zeros [] zero h = refl
c_string-zeros [] (suc size) h = refl
c_string-zeros (c ∷ s) size h = rw (h.0, c_string-zeros s size h.1)

pub is_terminated-zeros : (s : Bytes) (size : ℕ) → 0 < size → is_terminated (s ++ zeros size) ≡ true
unfolding is_terminated zeros
is_terminated-zeros [] zero h = absurd (omega arith)
is_terminated-zeros [] (suc size) h = refl
is_terminated-zeros (c ∷ s) size h = ground (arith, is_terminated-zeros s size h)
