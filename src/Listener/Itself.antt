-- ===== src/Listener/Itself.antt =====
-- A config file that names itself, in c_config of mq_listener/mq_listener.c.
use io_monitor.Prelude.{
  ℕ, zero, suc, ◌+◌, ◌<◌, some, false, List, ◌∷◌, Bytes, length, ltb-true, ◌==◌, ◌≡◌, refl, arith,
}
use io_monitor.Tokens.{tokens}
use io_monitor.Outcome.{fault}
use io_monitor.Commands.{
  Command, call_command, run_command, run_tokens, parse_command, find_command, max_tokens, is_blank,
}
use io_monitor.Listener.{run_lines, c_config, run_builtin, call, calls}
use io_monitor.Listener.Outside.{System}
use io_monitor.Listener.State.{Handler, World, builtin, Builtin}

module _ {S : Type 0} (sys : System S) (w : World S) (path name s : Bytes) (c : ℕ)
    (lines : List Bytes) (args : List Bytes) (entry : Command (Handler S))
    (opens : sys.fopen path ≡ some ((c ∷ s) ∷ lines)) (no_comment : (c == b'#') ≡ false)
    (words : tokens is_blank (c ∷ s) ≡ name ∷ path ∷ args) (fits : length args + 2 < max_tokens)
    (found : find_command name w.s_commands ≡ some entry)
    (is_config : entry.command_function ≡ some (builtin Builtin.config)) where
  line-itself :
      (depth : ℕ)
      → call sys depth (builtin Builtin.config) name (path ∷ args) w ≡ fault
      → parse_command (calls sys depth) (c ∷ s) w ≡ fault
  unfolding parse_command run_tokens run_command call_command
  line-itself depth fails =
      rw
        (
          words,
          ltb-true (length (name ∷ path ∷ args)) max_tokens (omega arith),
          found,
          is_config,
          fails,
        )
        refl

  -- A config file begins with a line that is no comment and whose words, fewer than 128, are a name
  -- under which c_config is found, the path of the same file, and any others. Reading the file ends in a
  -- fault at every depth: the calls nest until the stack is gone.
  pub c_config-itself :
      (depth : ℕ) (called : Bytes) (args' : List Bytes)
      → call sys depth (builtin Builtin.config) called (path ∷ args') w ≡ fault
  unfolding call run_builtin c_config run_lines
  c_config-itself zero called args' = refl
  c_config-itself (suc depth) called args' =
      let fails = line-itself depth (c_config-itself depth name args) in
      rw (opens, c_config, run_lines, no_comment, fails) refl
