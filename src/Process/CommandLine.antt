-- ===== src/Process/CommandLine.antt =====
-- init of io_monitor/io_monitor.c: the command line in the record of the start.
use io_monitor.Prelude.{
  ℕ, zero, suc, ◌+◌, ◌-◌, ◌≤◌, false, some, List, [], ◌∷◌, ◌++◌, Bytes, All, map, drop, length,
  length-append, take-eq_self, ◌==◌, if◌then◌else◌, append_assoc, ==-false, ◌≡◌, refl, sym, ap, ◌∙◌,
  arith,
}
use io_monitor.CharArray.{c_string}
use io_monitor.CharArray.Laws.{IsCString}
use io_monitor.Process.{blank_at, blank_down, after_read, command_line}
use io_monitor.Record.{path_max}

abbrev blanked : ℕ → ℕ
blanked c = if c == 0 then b' ' else c

-- The first `n` bytes, each with `blanked`.
blank_first : ℕ → Bytes → Bytes
blank_first zero s = s
blank_first (suc n) [] = []
blank_first (suc n) (c ∷ s) = blanked c ∷ blank_first n s

blank_first-blank_at : (n : ℕ) (s : Bytes) → blank_first n (blank_at n s) ≡ blank_first (suc n) s
unfolding blank_first blank_at
blank_first-blank_at zero [] = refl
blank_first-blank_at zero (c ∷ s) = refl
blank_first-blank_at (suc n) [] = refl
blank_first-blank_at (suc n) (c ∷ s) = ap (λ t. blanked c ∷ t) (blank_first-blank_at n s)

blank_down-cons : (n c : ℕ) (s : Bytes) → blank_down n (c ∷ s) ≡ c ∷ blank_first n s
unfolding blank_down blank_first blank_at
blank_down-cons zero c s = refl
blank_down-cons (suc n) c s =
    blank_down-cons n c (blank_at n s) ∙ ap (λ t. c ∷ t) (blank_first-blank_at n s)

c_string-blank : (c : ℕ) (s : Bytes) → c_string (blanked c ∷ s) ≡ blanked c ∷ c_string s
unfolding c_string
c_string-blank c s = ground arith

c_string-blank_first :
    (body old : Bytes) → c_string (blank_first (length body) (body ++ (0 ∷ old))) ≡ map blanked body
unfolding blank_first c_string
c_string-blank_first [] old = refl
c_string-blank_first (c ∷ body) old =
    c_string-blank c (blank_first (length body) (body ++ (0 ∷ old)))
    ∙ ap (λ t. blanked c ∷ t) (c_string-blank_first body old)

-- /proc/<pid>/cmdline: each argument with its NUL.
abbrev pub arguments_text : List Bytes → Bytes
arguments_text [] = []
arguments_text (argument ∷ arguments) = argument ++ (0 ∷ arguments_text arguments)

-- The arguments with blanks between them.
abbrev pub joined : Bytes → List Bytes → Bytes
joined first [] = first
joined first (argument ∷ arguments) = first ++ (b' ' ∷ joined argument arguments)

-- The arguments with NULs between them.
abbrev inner : Bytes → List Bytes → Bytes
inner first [] = first
inner first (argument ∷ arguments) = first ++ (0 ∷ inner argument arguments)

arguments_text-inner :
    (first : Bytes) (arguments : List Bytes)
    → arguments_text (first ∷ arguments) ≡ inner first arguments ++ (0 ∷ [])
arguments_text-inner first [] = refl
arguments_text-inner first (argument ∷ arguments) =
    rw (append_assoc first (0 ∷ inner argument arguments) (0 ∷ []))
      (ap (λ t. first ++ (0 ∷ t)) (arguments_text-inner argument arguments))

map-append : (s t : Bytes) → map blanked (s ++ t) ≡ map blanked s ++ map blanked t
map-append [] t = refl
map-append (c ∷ s) t = ap (λ u. blanked c ∷ u) (map-append s t)

map-blanked : (s : Bytes) → IsCString s → map blanked s ≡ s
map-blanked [] h = refl
map-blanked (c ∷ s) h = rw (h.0, map-blanked s h.1) refl

map-inner :
    (first : Bytes) (arguments : List Bytes)
    → IsCString first
    → All IsCString arguments
    → map blanked (inner first arguments) ≡ joined first arguments
map-inner first [] h hs = map-blanked first h
map-inner first (argument ∷ arguments) h hs =
    rw
      (
        map-append first (0 ∷ inner argument arguments),
        map-blanked first h,
        map-inner argument arguments hs.0 hs.1,
      )
      refl

after_read-many :
    (cmdline got : Bytes)
    → 2 ≤ length got
    → after_read cmdline got ≡ some (blank_down (length got - 2) (got ++ drop (length got) cmdline))
unfolding after_read
after_read-many cmdline got h =
    rw (==-false (length got) 0 (omega (arith, h)), ==-false (length got) 1 (omega (arith, h))) refl

blank_down-inner :
    (n c : ℕ) (body rest : Bytes)
    → n ≡ length body
    → blank_down n ((c ∷ body ++ (0 ∷ [])) ++ rest)
      ≡ c ∷ blank_first (length body) (body ++ (0 ∷ rest))
blank_down-inner n c body rest e =
    blank_down-cons n c ((body ++ (0 ∷ [])) ++ rest) ∙ rw (e, append_assoc body (0 ∷ []) rest) refl

after_read-inner :
    (cmdline body : Bytes) (c : ℕ)
    → after_read cmdline (c ∷ body ++ (0 ∷ []))
      ≡ some (
          c
          ∷ blank_first (length body) (body ++ (0 ∷ drop (length (c ∷ body ++ (0 ∷ []))) cmdline)))
after_read-inner cmdline body c =
    let size : length (c ∷ body ++ (0 ∷ [])) ≡ length body + 2 =
      omega (arith, length-append body (0 ∷ [])) in
    after_read-many cmdline (c ∷ body ++ (0 ∷ [])) (omega (arith, size))
    ∙ ap some (
        blank_down-inner _ c body (drop (length (c ∷ body ++ (0 ∷ []))) cmdline)
          (omega (arith, size)))

inner-cons :
    (c : ℕ) (first : Bytes) (arguments : List Bytes)
    → inner (c ∷ first) arguments ≡ c ∷ inner first arguments
inner-cons c first [] = refl
inner-cons c first (argument ∷ arguments) = refl

joined-cons :
    (c : ℕ) (first : Bytes) (arguments : List Bytes)
    → joined (c ∷ first) arguments ≡ c ∷ joined first arguments
joined-cons c first [] = refl
joined-cons c first (argument ∷ arguments) = refl

c_string-cons : (c : ℕ) (s : Bytes) → (c == 0) ≡ false → c_string (c ∷ s) ≡ c ∷ c_string s
unfolding c_string
c_string-cons c s h = rw h refl

-- When the arguments of the process, of which the first is not empty, are read whole, the text that is
-- reported is the arguments with blanks between them.
pub c_string-command_line :
    (cmdline : Bytes) (c : ℕ) (first : Bytes) (arguments : List Bytes)
    → IsCString (c ∷ first)
    → All IsCString arguments
    → length (arguments_text ((c ∷ first) ∷ arguments)) ≤ path_max
    → (text : Bytes) × (command_line cmdline (some (arguments_text ((c ∷ first) ∷ arguments)))
        ≡ some text)
      × (c_string text ≡ joined (c ∷ first) arguments)
unfolding command_line
c_string-command_line cmdline c first arguments h hs fits =
    let body = inner first arguments in
    let rest = drop (length (c ∷ body ++ (0 ∷ []))) cmdline in
    (
      c ∷ blank_first (length body) (body ++ (0 ∷ rest)),
      ap (after_read cmdline) (
            take-eq_self path_max _ fits
            ∙ arguments_text-inner (c ∷ first) arguments
            ∙ ap (λ t. t ++ (0 ∷ [])) (inner-cons c first arguments))
          ∙ after_read-inner cmdline body c,
      c_string-cons c _ h.0
          ∙ ap (λ t. c ∷ t) (c_string-blank_first body rest ∙ map-inner first arguments h.1 hs)
          ∙ sym (joined-cons c first arguments),
    )
