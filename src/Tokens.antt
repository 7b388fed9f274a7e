-- ===== src/Tokens.antt =====
-- `strtok_r`, which parse_command (mq_listener/command_parser.c), domain_list_to_bit_mask
-- (include/utility_routines.h) and parse_device_fields (mq_listener/resolver.cpp) loop on:
-- `while (token = strtok_r(rest, delimiters, &rest))`. The loop is run on fuel, and meets the
-- plain one-pass reading of a text as the words between delimiters.
use io_monitor.Prelude.{
  ℕ, zero, suc, ◌≤◌, ◌<◌, Bool, true, false, Option, none, some, List, [], ◌∷◌, ◌++◌, ◌≡◌, refl,
  ◌≢◌, arith, Bytes, length, All, if◌then◌else◌, Bool-cases, inl, inr, append_assoc, append-nil,
  All-append,
}

module _ (is_delimiter : ℕ → Bool) where
  -- The delimiters before a token are passed over.
  skip : Bytes → Bytes
  skip [] = []
  skip (c ∷ s) = if is_delimiter c then skip s else c ∷ s

  -- The token, and the text behind the delimiter that ends it.
  take_token : Bytes → Bytes × Bytes
  take_token [] = ([], [])
  take_token (c ∷ s) = if is_delimiter c then ([], s) else (c ∷ (take_token s).0, (take_token s).1)

  strtok_rest : Bytes → Option (Bytes × Bytes)
  strtok_rest [] = none
  strtok_rest (c ∷ s) = some (take_token (c ∷ s))

  pub strtok_r : Bytes → Option (Bytes × Bytes)
  strtok_r s = strtok_rest (skip s)

  -- The tokens that the loop sees, for at most `fuel` rounds.
  loop : ℕ → Bytes → List Bytes
  loop zero rest = []
  loop (suc fuel) rest = elim (strtok_r rest) [
    | none ↦ []
    | some (token, rest') ↦ token ∷ loop fuel rest'
  ]

  unfoldable pub tokens : Bytes → List Bytes
  unfolding loop strtok_r strtok_rest take_token skip
  tokens s = loop (suc (length s)) s

  flush : Bytes → List Bytes
  flush [] = []
  flush (c ∷ s) = (c ∷ s) ∷ []

  -- The words of a text in one pass: `cur` is the word being read.
  words_from : Bytes → Bytes → List Bytes
  words_from [] cur = flush cur
  words_from (c ∷ s) cur =
      if is_delimiter c then flush cur ++ words_from s [] else words_from s (cur ++ c ∷ [])

  unfoldable pub words : Bytes → List Bytes
  unfolding words_from flush
  words s = words_from s []

  words_from-cons :
      (c : ℕ) (cur s : Bytes)
      → words_from s (c ∷ cur) ≡ ((c ∷ cur) ++ (take_token s).0) ∷ words_from (take_token s).1 []
  unfolding words_from take_token flush
  words_from-cons c cur [] = rw append-nil
  words_from-cons c cur (d ∷ s) = elim (Bool-cases (is_delimiter d)) [
    | inl e ↦ rw (e, append-nil)
    | inr e ↦ rw (e, words_from-cons c (cur ++ d ∷ []) s) (simp append_assoc)
  ]

  loop-nil : (fuel : ℕ) → loop fuel [] ≡ []
  unfolding loop strtok_r strtok_rest skip
  loop-nil zero = refl
  loop-nil (suc fuel) = refl

  length-take_token : (s : Bytes) → length (take_token s).1 ≤ length s
  unfolding take_token
  length-take_token [] = omega arith
  length-take_token (c ∷ s) = ground (arith, length-take_token s)

  loop_delimiter :
      (fuel c : ℕ) (s : Bytes) → is_delimiter c ≡ true → loop (suc fuel) (c ∷ s) ≡ loop (suc fuel) s
  unfolding loop strtok_r strtok_rest skip
  loop_delimiter fuel c s e = rw (e, loop)

  strtok_r_token :
      (c : ℕ) (s : Bytes)
      → is_delimiter c ≡ false
      → strtok_r (c ∷ s) ≡ some (c ∷ (take_token s).0, (take_token s).1)
  unfolding strtok_r strtok_rest skip take_token
  strtok_r_token c s e = rw (e, strtok_rest) (rw e)

  loop_token :
      (fuel c : ℕ) (s : Bytes)
      → is_delimiter c ≡ false
      → loop (suc fuel) (c ∷ s) ≡ (c ∷ (take_token s).0) ∷ loop fuel (take_token s).1
  unfolding loop
  loop_token fuel c s e = rw (strtok_r_token c s e, loop)

  loop-words : (fuel : ℕ) (s : Bytes) → length s < fuel → loop fuel s ≡ words_from s []
  loop-words zero s h = absurd (omega arith)
  loop-words (suc fuel) [] h = unfold words_from flush in loop-nil (suc fuel)
  loop-words (suc fuel) (c ∷ s) h = elim (Bool-cases (is_delimiter c)) [
    | inl e ↦
        rw (loop_delimiter fuel c s e, loop-words (suc fuel) s (omega arith))
          (unfold words_from flush in rw e)
    | inr e ↦
        rw
          (
            loop_token fuel c s e,
            loop-words fuel (take_token s).1 (omega (arith, length-take_token s)),
          )
          (unfold words_from in rw (e, words_from-cons c [] s))
  ]

  -- Any fuel beyond the length of the text is enough: the loop ends by a NULL from strtok_r, and
  -- has then seen exactly the words of the text.
  pub tokens-eq-words : (s : Bytes) → tokens s ≡ words s
  unfolding tokens words
  tokens-eq-words s = loop-words (suc (length s)) s (omega arith)

  abbrev pub IsWord : Bytes → Type 0
  IsWord w = (w ≢ []) × All (λ c. is_delimiter c ≡ false) w

  words_from-append :
      (w s cur : Bytes)
      → All (λ c. is_delimiter c ≡ false) w
      → words_from (w ++ s) cur ≡ words_from s (cur ++ w)
  unfolding words_from
  words_from-append [] s cur h = rw append-nil
  words_from-append (c ∷ w) s cur h =
      rw (h.0, words_from-append w s (cur ++ c ∷ []) h.1) (simp append_assoc)

  -- A word in front of a delimiter is the first word.
  pub words-cons :
      (w s : Bytes) (c : ℕ) → IsWord w → is_delimiter c ≡ true → words (w ++ c ∷ s) ≡ w ∷ words s
  unfolding words flush
  words-cons [] s c h e = absurd (h.0 refl)
  words-cons (x ∷ w) s c h e =
      rw (words_from-append (x ∷ w) (c ∷ s) [] h.1) (unfold words_from flush in rw e)

  pub words_word : (w : Bytes) → IsWord w → words w ≡ w ∷ []
  unfolding words flush
  words_word [] h = absurd (h.0 refl)
  words_word (x ∷ w) h = let e = words_from-append (x ∷ w) [] [] h.1 in rw (append-nil w) at e

  All-flush : (cur : Bytes) → All (λ c. is_delimiter c ≡ false) cur → All IsWord (flush cur)
  unfolding flush
  All-flush [] h = tt
  All-flush (c ∷ s) h = (((λ e. cc), h), tt)

  words_from-IsWord :
      (s cur : Bytes) → All (λ c. is_delimiter c ≡ false) cur → All IsWord (words_from s cur)
  unfolding words_from
  words_from-IsWord [] cur h = All-flush cur h
  words_from-IsWord (c ∷ s) cur h = elim (Bool-cases (is_delimiter c)) [
    | inl e ↦ rw e (
        All-append IsWord (flush cur) (words_from s []) (All-flush cur h)
          (words_from-IsWord s [] tt))
    | inr e ↦ rw e (words_from-IsWord s (cur ++ c ∷ []) (All-append _ cur (c ∷ []) h (e, tt)))
  ]

  -- Every token is a nonempty text without delimiters.
  tokens-IsWord : (s : Bytes) → All IsWord (tokens s)
  tokens-IsWord s = rw (tokens-eq-words s) (unfold words in words_from-IsWord s [] tt)
