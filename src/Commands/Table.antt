-- ===== src/Commands/Table.antt =====
-- The list of commands of mq_listener/command_parser.c: what is found in it, and what free_command
-- does to it.
use io_monitor.Prelude.{
  Bool, true, false, ◌||◌, none, some, List, [], ◌∷◌, ◌++◌, Bytes, All, str_eq_refl, if◌then◌else◌,
  ◌≡◌, refl, arith, append_assoc,
}
use mathlib.Core.List.{reverse, reverse-cons}
use io_monitor.Commands.{
  Command, answers_to, set_command, set_commands_array, drop_head, free_from, free_command,
  find_command,
}

module _ {ℓ} {F : Type ℓ} where
  -- Some command of the list answers to the name.
  abbrev pub any_answers : Bytes → List (Command F) → Bool
  any_answers name [] = false
  any_answers name (p ∷ rest) = answers_to name p || any_answers name rest

  free_from-eq :
      (name : Bytes) (s_commands rest : List (Command F))
      → free_from name s_commands rest
        ≡ (if any_answers name rest then drop_head s_commands else s_commands)
  unfolding free_from
  free_from-eq name s_commands [] = refl
  free_from-eq name s_commands (p ∷ rest) = ground (arith, free_from-eq name s_commands rest)

  -- free_command removes the head of the list, whichever command it is, if any command of the list
  -- answers to the name; otherwise it changes nothing.
  free_command-eq :
      (name : Bytes) (s_commands : List (Command F))
      → free_command name s_commands
        ≡ (if any_answers name s_commands then drop_head s_commands else s_commands)
  unfolding free_command
  free_command-eq name s_commands = free_from-eq name s_commands s_commands

  any_answers-find :
      (name : Bytes) (s_commands : List (Command F)) (c : Command F)
      → find_command name s_commands ≡ some c
      → any_answers name s_commands ≡ true
  unfolding find_command
  any_answers-find name [] c h = cc
  any_answers-find name (p ∷ rest) c h = ground (arith, any_answers-find name rest c)

  -- If the head of the list does not answer to the name and a command behind it does, then free_command
  -- removes the head, and the command that it was called for is still found.
  pub free_command-keeps_it :
      (name : Bytes) (head c : Command F) (rest : List (Command F))
      → answers_to name head ≡ false
      → find_command name rest ≡ some c
      → (free_command name (head ∷ rest) ≡ rest)
        × (find_command name (free_command name (head ∷ rest)) ≡ some c)
  free_command-keeps_it name head c rest other found =
      let e : free_command name (head ∷ rest) ≡ rest =
        rw (free_command-eq name (head ∷ rest), other, any_answers-find name rest c found)
          (unfold drop_head in refl) in
      (e, rw e found)

  -- The command that was added last is removed again by its name.
  pub free_command-set_command :
      (c : Command F) (s_commands : List (Command F))
      → free_command c.name (set_command c s_commands) ≡ s_commands
  unfolding set_command
  free_command-set_command c s_commands =
      rw (free_command-eq c.name (c ∷ s_commands), str_eq_refl c.name) (unfold drop_head in refl)

  abbrev pub HasFunction : Command F → Type ℓ
  HasFunction c = (f : F) × (c.command_function ≡ some f)

  set_array_step :
      (c : Command F) (array s_commands : List (Command F))
      → HasFunction c
      → set_commands_array (c ∷ array) s_commands ≡ set_commands_array array (c ∷ s_commands)
  unfolding set_commands_array set_command
  set_array_step c array s_commands h = simp h.1

  -- The commands of an array, all with a function and followed by an entry without one, come to
  -- stand in front of the list, the last of them first.
  set_commands_array-eq :
      (commands : List (Command F)) (stop : Command F) (s_commands : List (Command F))
      → All HasFunction commands
      → stop.command_function ≡ none
      → set_commands_array (commands ++ stop ∷ []) s_commands
        ≡ some (reverse commands ++ s_commands)
  set_commands_array-eq [] stop s_commands h e = unfold set_commands_array in rw e
  set_commands_array-eq (c ∷ commands) stop s_commands h e = rw (
    set_array_step c (commands ++ stop ∷ []) s_commands h.0,
    set_commands_array-eq commands stop (c ∷ s_commands) h.1 e,
    reverse-cons,
    append_assoc,
  )
