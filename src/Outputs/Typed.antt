-- ===== src/Outputs/Typed.antt =====
-- plugins/input_cli.c: which commands the lines of stdin become.
use io_monitor.Prelude.{
  ℕ, zero, suc, ◌-◌, ◌<◌, false, List, [], ◌∷◌, ◌++◌, Bytes, All, length, ◌==◌, ◌≡◌, refl, ap, ◌∙◌,
  arith,
}
use io_monitor.Record.{path_max}
use io_monitor.Outputs.Cli.{read_line, fgets, at_test, Cli, advance_at, advance, open_plugin}

abbrev HasNoNewline : Bytes → Type 0
HasNoNewline = All (λ c. (c == 10) ≡ false)

read_line-newline :
    (size : ℕ) (text rest : Bytes)
    → HasNoNewline text
    → length text < size
    → read_line size (text ++ (10 ∷ rest)) ≡ (text ++ (10 ∷ []), rest)
unfolding read_line
read_line-newline zero text rest n h = absurd (omega (arith, h))
read_line-newline (suc size) [] rest n h = refl
read_line-newline (suc size) (c ∷ text) rest n h =
    rw (n.0, read_line-newline size text rest n.1 (omega (arith, h))) refl

-- What stdin holds when lines are typed into it.
abbrev pub typed : List Bytes → Bytes
typed [] = []
typed (text ∷ lines) = text ++ (10 ∷ typed lines)

fgets-typed :
    (size : ℕ) (buf text : Bytes) (lines : List Bytes)
    → HasNoNewline text
    → length text < size
    → fgets size buf (typed (text ∷ lines)) ≡ (text ++ (10 ∷ []), typed lines)
unfolding fgets
fgets-typed size buf [] lines n h = read_line-newline size [] (typed lines) n h
fgets-typed size buf (c ∷ text) lines n h = read_line-newline size (c ∷ text) (typed lines) n h

-- A line that fits the buffer.
abbrev pub IsLine : Bytes → Type 0
IsLine text = HasNoNewline text × (length text < path_max - 1)

module _ {ℓ} {W : Type ℓ} (command_function : Bytes → W → W) where
  -- The three steps of a round of the loop, `n` times.
  abbrev pub rounds : ℕ → Cli W → Cli W
  rounds zero cli = cli
  rounds (suc n) cli =
      rounds n (advance command_function (advance command_function (advance command_function cli)))

  -- The thread in front of the test, which is not to end.
  abbrev waiting : Bytes → Bytes → W → Cli W
  waiting buf stdin w = record {
    place = at_test;
    kill_thread = false;
    buf = buf;
    stdin = stdin;
    listener = w;
  }

  abbrev pub run_typed : List Bytes → W → W
  run_typed [] w = w
  run_typed (text ∷ lines) w = run_typed lines (command_function (text ++ (10 ∷ [])) w)

  -- What the buffer holds behind the lines.
  abbrev pub last_line : Bytes → List Bytes → Bytes
  last_line buf [] = buf
  last_line buf (text ∷ lines) = last_line (text ++ (10 ∷ [])) lines

  abbrev pub repeat_command : ℕ → Bytes → W → W
  repeat_command zero buf w = w
  repeat_command (suc n) buf w = repeat_command n buf (command_function buf w)

  round-typed :
      (buf text : Bytes) (lines : List Bytes) (w : W)
      → IsLine text
      → rounds 1 (waiting buf (typed (text ∷ lines)) w)
        ≡ waiting (text ++ (10 ∷ [])) (typed lines) (command_function (text ++ (10 ∷ [])) w)
  unfolding advance advance_at
  round-typed buf text lines w h = rw (fgets-typed (path_max - 1) buf text lines h.0 h.1) refl

  rounds-typed :
      (buf : Bytes) (lines : List Bytes) (w : W)
      → All IsLine lines
      → rounds (length lines) (waiting buf (typed lines) w)
        ≡ waiting (last_line buf lines) [] (run_typed lines w)
  rounds-typed buf [] w h = refl
  rounds-typed buf (text ∷ lines) w h =
      ap (rounds (length lines)) (round-typed buf text lines w h.0)
      ∙ rounds-typed (text ++ (10 ∷ [])) lines (command_function (text ++ (10 ∷ [])) w) h.1

  rounds-end :
      (n : ℕ) (buf : Bytes) (w : W)
      → rounds n (waiting buf [] w) ≡ waiting buf [] (repeat_command n buf w)
  unfolding advance advance_at fgets
  rounds-end zero buf w = refl
  rounds-end (suc n) buf w = rounds-end n buf (command_function buf w)

  -- With lines in stdin that are shorter than the buffer, and while the plugin is not closed, each round
  -- gives the listener the next line, with its newline. When stdin is at its end, every further round
  -- gives it the last line again, or what the buffer held at first when there was no line.
  pub listener-rounds :
      (buf : Bytes) (lines : List Bytes) (w : W) (n : ℕ)
      → All IsLine lines
      → (rounds n (rounds (length lines) (open_plugin buf (typed lines) w).1)).listener
        ≡ repeat_command n (last_line buf lines) (run_typed lines w)
  unfolding open_plugin
  listener-rounds buf lines w n h =
      rw (rounds-typed buf lines w h, rounds-end n (last_line buf lines) (run_typed lines w)) refl
