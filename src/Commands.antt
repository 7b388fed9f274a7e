-- ===== src/Commands.antt =====
-- mq_listener/command_parser.c: the list of commands and the two command lines that run them. `F` is
-- the type of command functions, and `W` what they work on, the list of commands included. The
-- strings of a command are C strings, without the bounds of their arrays.
pub mod Table
pub mod Line
pub mod Args
pub mod Keeps
mod Tests
use io_monitor.Prelude.{
  ℕ, suc, ◌+◌, ◌<◌, ℤ, pos, negsuc, Bool, true, false, ◌||◌, Option, none, some, List, [], ◌∷◌,
  ◌++◌, Bytes, length, str_eq, ltb, ◌==◌, ◌==ℤ◌, if◌then◌else◌,
}
use io_monitor.Tokens.{tokens}
use io_monitor.Outcome.{Outcome, done, exited, fault, ◌>>=◌}

pub record Command {ℓ} (F : Type ℓ) : Type ℓ where
  pub name : Bytes
  pub short_name : Bytes
  pub params_desc : Bytes
  pub help : Bytes
  pub command_function : Option F
  pub interactive_only : Bool

-- `!strcmp(p->name, name) || !strcmp(p->short_name, name)`
abbrev pub answers_to {ℓ} : {F : Type ℓ} → Bytes → Command F → Bool
answers_to name c = str_eq c.name name || str_eq c.short_name name

module _ {ℓ} {F : Type ℓ} where
  -- The list `s_commands`, its head first.
  unfoldable pub set_command : Command F → List (Command F) → List (Command F)
  set_command c s_commands = c ∷ s_commands

  -- The array ends at the first entry without a function; `none` is a read behind an array without one.
  unfoldable pub set_commands_array :
      List (Command F) → List (Command F) → Option (List (Command F))
  unfolding set_command
  set_commands_array [] s_commands = none
  set_commands_array (c ∷ array) s_commands = elim c.command_function [
    | none ↦ some s_commands
    | some f ↦ set_commands_array array (set_command c s_commands)
  ]

  unfoldable pub drop_head : List (Command F) → List (Command F)
  drop_head [] = []
  drop_head (c ∷ s_commands) = s_commands

  -- The `while` of free_command, from `p_command` on. In the `if` that asks for the head of the list
  -- the source assigns, `p_command = s_commands`, so that a match anywhere takes this branch.
  unfoldable pub free_from : Bytes → List (Command F) → List (Command F) → List (Command F)
  unfolding drop_head
  free_from name s_commands [] = s_commands
  free_from name s_commands (p ∷ rest) =
      if answers_to name p then drop_head s_commands else free_from name s_commands rest

  unfoldable pub free_command : Bytes → List (Command F) → List (Command F)
  unfolding free_from
  free_command name s_commands = free_from name s_commands s_commands

  -- The `while` of run_command: the first command that answers to the name.
  unfoldable pub find_command : Bytes → List (Command F) → Option (Command F)
  find_command name [] = none
  find_command name (p ∷ rest) = if answers_to name p then some p else find_command name rest

-- What a command function needs and does: the list of commands that `W` holds, and the call of a
-- function through its pointer.
pub record Calls (F W : Type 0) : Type 0 where
  pub s_commands : W → List (Command F)
  pub call : F → Bytes → List Bytes → W → Outcome W ℤ

-- The entries that `command_tokenized` and `command_parameters` have, the NULL behind the last included.
abbrev pub max_tokens : ℕ
max_tokens = 128

abbrev pub is_blank : ℕ → Bool
is_blank c = c == b' ' || c == 10

-- `argv[i]`: what parse_args takes it for.
pub data Argument : Type 0 where
  option : Bytes → Argument
  parameter : Bytes → Argument
  command_expected : Argument

-- The bytes behind a leading dash. `argv[i][1]` of "-" is the NULL.
unfoldable pub read_option : Bytes → Argument
read_option [] = command_expected
read_option (c ∷ s) =
    if c == b'-' then elim s [ [] ↦ command_expected | d ∷ t ↦ option (d ∷ t) ] else option (c ∷ s)

unfoldable pub read_argument : Bytes → Argument
unfolding read_option
read_argument [] = parameter []
read_argument (c ∷ s) = if c == b'-' then read_option s else parameter (c ∷ s)

module _ {F W : Type 0} (calls : Calls F W) where
  open calls use {s_commands, call}

  -- A command without a function is not in the list that set_commands_array makes; calling one is a
  -- call through NULL.
  unfoldable pub call_command : Bytes → List Bytes → Option (Command F) → W → Outcome W ℤ
  call_command name args none w = done (pos 1) w
  call_command name args (some c) w = elim c.command_function [
    | none ↦ fault
    | some f ↦ call f name args w
  ]

  unfoldable pub run_command : Bytes → List Bytes → W → Outcome W ℤ
  unfolding call_command find_command
  run_command name args w = call_command name args (find_command name (s_commands w)) w

  unfoldable pub run_tokens : List Bytes → W → Outcome W ℤ
  unfolding run_command
  run_tokens [] w = done (pos 0) w
  run_tokens (name ∷ args) w = run_command name args w

  -- The result of run_command is dropped, and parse_command returns no value; no caller reads it. A
  -- line of more tokens than the array holds with its NULL is written behind the array.
  unfoldable pub parse_command : Bytes → W → Outcome W (Unit {0})
  unfolding run_tokens tokens
  parse_command buf w =
      if ltb (length (tokens is_blank buf)) max_tokens
      then (run_tokens (tokens is_blank buf) w >>= λ rc w'. done tt w')
      else fault

  -- `command` and `command_parameters` of parse_args: `apn` is the number of parameters, and is -1
  -- exactly while there is no command.
  unfoldable pub run_pending : Option (Bytes × List Bytes) → W → Outcome W ℤ
  unfolding run_command
  run_pending none w = done (pos 0) w
  run_pending (some (command, params)) w =
      if ltb (length params) max_tokens then run_command command params w else fault

  -- Behind the last argument: the last command runs, and a failure of it becomes -1.
  unfoldable pub finish : Option (Bytes × List Bytes) → W → Outcome W ℤ
  unfolding run_pending
  finish none w = done (negsuc 0) w
  finish (some pending) w =
      run_pending (some pending) w >>= λ rc w'. done (if rc ==ℤ pos 0 then pos 0 else negsuc 0) w'

  -- The body of the loop over argv[i]; `continue` is the rest of the loop.
  unfoldable pub parse_argument :
      Argument
      → Option (Bytes × List Bytes)
      → W
      → (Option (Bytes × List Bytes) → W → Outcome W ℤ)
      → Outcome W ℤ
  unfolding run_pending
  parse_argument (parameter p) none w continue = done (negsuc 0) w
  parse_argument (parameter p) (some (command, params)) w continue =
      continue (some (command, params ++ p ∷ [])) w
  parse_argument (option command) pending w continue = run_pending pending w >>= λ rc w'.
      if rc ==ℤ pos 0 then continue (some (command, [])) w' else done (negsuc 0) w'
  parse_argument command_expected pending w continue =
      run_pending pending w >>= λ rc w'. done (negsuc 0) w'

  unfoldable pub parse_from : Option (Bytes × List Bytes) → List Bytes → W → Outcome W ℤ
  unfolding finish read_argument parse_argument
  parse_from pending [] w = finish pending w
  parse_from pending (arg ∷ argv) w =
      parse_argument (read_argument arg) pending w (λ pending' w'. parse_from pending' argv w')

  -- argv[0] is the name of the program; without it the loop would start behind the array.
  unfoldable pub parse_args : List Bytes → W → Outcome W ℤ
  unfolding parse_from
  parse_args [] w = fault
  parse_args (program ∷ argv) w = parse_from none argv w
