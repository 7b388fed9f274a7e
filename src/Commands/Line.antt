-- ===== src/Commands/Line.antt =====
-- parse_command of mq_listener/command_parser.c: a line of words runs its first word as a command on
-- the others.
use io_monitor.Prelude.{◌<◌, ◌≤◌, List, [], ◌∷◌, ◌++◌, Bytes, length, All, ◌≡◌, refl, arith}
use io_monitor.Outcome.{done, fault, ◌>>=◌}
use io_monitor.Tokens.{words, tokens-eq-words, IsWord, words-cons}
use io_monitor.Commands.{Calls, is_blank, max_tokens, run_command, run_tokens, parse_command}

-- Words with a space between them and a newline behind the last.
abbrev pub line : Bytes → List Bytes → Bytes
line name [] = name ++ 10 ∷ []
line name (a ∷ args) = name ++ (b' ' ∷ line a args)

words-line :
    (name : Bytes) (args : List Bytes)
    → IsWord is_blank name
    → All (IsWord is_blank) args
    → words is_blank (line name args) ≡ name ∷ args
words-line name [] h hs = rw (words-cons is_blank name [] 10 h refl) (unfold words in refl)
words-line name (a ∷ args) h hs =
    rw (words-cons is_blank name (line a args) b' ' h refl, words-line a args hs.0 hs.1)

module _ {F W : Type 0} (calls : Calls F W) where
  -- A line of a command name and fewer than 127 arguments, all of them words without blanks, with a
  -- space between any two and a newline at its end, runs the command on the arguments; its result
  -- is dropped.
  parse_command-line :
      (name : Bytes) (args : List Bytes) (w : W)
      → IsWord is_blank name
      → All (IsWord is_blank) args
      → length args < 127
      → parse_command calls (line name args) w
        ≡ (run_command calls name args w >>= λ rc w'. done tt w')
  unfolding parse_command run_tokens
  parse_command-line name args w h hs short =
      rw (tokens-eq-words is_blank (line name args), words-line name args h hs) (ground arith)

  -- A line of 128 tokens or more is written behind the array of tokens.
  parse_command_overflow :
      (buf : Bytes) (w : W)
      → max_tokens ≤ length (words is_blank buf)
      → parse_command calls buf w ≡ fault
  unfolding parse_command
  parse_command_overflow buf w long = rw (tokens-eq-words is_blank buf) (ground arith)
