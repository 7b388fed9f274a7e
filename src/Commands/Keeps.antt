-- ===== src/Commands/Keeps.antt =====
-- What every command function keeps, the command lines of mq_listener/command_parser.c keep.
use io_monitor.Prelude.{
  ℤ, pos, negsuc, Bool, true, false, ◌==ℤ◌, Option, none, some, List, [], ◌∷◌, ◌++◌, Bytes,
  if◌then◌else◌, length, ltb,
}
use io_monitor.Outcome.{Outcome, done, exited, fault, ◌>>=◌}
use io_monitor.Tokens.{tokens}
use io_monitor.Commands.{
  Command, Calls, Argument, option, parameter, command_expected, max_tokens, is_blank,
  read_argument, call_command, run_command, run_tokens, run_pending, finish, parse_argument,
  parse_from, parse_command, parse_args, find_command,
}

-- The state that a call leaves, if it returns or ends the process, has the property.
abbrev pub Leaves : {W A : Type 0} → (W → Type 0) → Outcome W A → Type 0
Leaves P (done a w) = P w
Leaves P (exited code w) = P w
Leaves P fault = Unit

pub Leaves-bind :
    {W A B : Type 0} (P : W → Type 0) (m : Outcome W A) (f : A → W → Outcome W B)
    → Leaves P m
    → ((a : A) (w : W) → P w → Leaves P (f a w))
    → Leaves P (m >>= f)
Leaves-bind P (done a w) f h k = k a w h
Leaves-bind P (exited code w) f h k = h
Leaves-bind P fault f h k = tt

pub Leaves-if :
    {W A : Type 0} (P : W → Type 0) (b : Bool) (m n : Outcome W A)
    → Leaves P m
    → Leaves P n
    → Leaves P (if b then m else n)
Leaves-if P true m n h k = h
Leaves-if P false m n h k = k

-- Command lines keep what every command function keeps.
module _ {F W : Type 0} (calls : Calls F W) (P : W → Type 0)
    (keeps : (f : F) (name : Bytes) (args : List Bytes) (w : W)
      → P w
      → Leaves P (calls.call f name args w)) where
  run_command-Leaves :
      (name : Bytes) (args : List Bytes) (w : W) → P w → Leaves P (run_command calls name args w)
  unfolding run_command
  run_command-Leaves name args w h = go (find_command name (calls.s_commands w))
    where
      entry :
          (o : Option F) → Leaves P (elim o [ none ↦ fault | some f ↦ calls.call f name args w ])
      entry none = tt
      entry (some f) = keeps f name args w h

      go : (o : Option (Command F)) → Leaves P (call_command calls name args o w)
      go none = h
      go (some c) = entry c.command_function

  pub parse_command-Leaves : (buf : Bytes) (w : W) → P w → Leaves P (parse_command calls buf w)
  unfolding parse_command run_tokens
  parse_command-Leaves buf w h =
      Leaves-if P (ltb (length (tokens is_blank buf)) max_tokens)
        (run_tokens calls (tokens is_blank buf) w >>= λ rc w'. done tt w') fault
        (Leaves-bind P (run_tokens calls (tokens is_blank buf) w) _ (go (tokens is_blank buf))
          (λ rc w' h'. h'))
        tt
    where
      go : (ts : List Bytes) → Leaves P (run_tokens calls ts w)
      go [] = h
      go (name ∷ args) = run_command-Leaves name args w h

  pub run_pending-Leaves :
      (pending : Option (Bytes × List Bytes)) (w : W) → P w → Leaves P (run_pending calls pending w)
  unfolding run_pending
  run_pending-Leaves none w h = h
  run_pending-Leaves (some (command, params)) w h =
      Leaves-if P (ltb (length params) max_tokens) (run_command calls command params w) fault
        (run_command-Leaves command params w h) tt

  finish-Leaves :
      (pending : Option (Bytes × List Bytes)) (w : W) → P w → Leaves P (finish calls pending w)
  unfolding finish
  finish-Leaves none w h = h
  finish-Leaves (some pending) w h =
      Leaves-bind P (run_pending calls (some pending) w) _ (run_pending-Leaves (some pending) w h)
        (λ rc w' h'. h')

  parse_argument-Leaves :
      (a : Argument) (pending : Option (Bytes × List Bytes)) (w : W)
      (continue : Option (Bytes × List Bytes) → W → Outcome W ℤ)
      → P w
      → ((pending' : Option (Bytes × List Bytes)) (w' : W) → P w' → Leaves P (continue pending' w'))
      → Leaves P (parse_argument calls a pending w continue)
  unfolding parse_argument
  parse_argument-Leaves (parameter p) none w continue h k = h
  parse_argument-Leaves (parameter p) (some (command, params)) w continue h k =
      k (some (command, params ++ p ∷ [])) w h
  parse_argument-Leaves (option command) pending w continue h k =
      Leaves-bind P (run_pending calls pending w) _ (run_pending-Leaves pending w h) λ rc w' h'.
        Leaves-if P (rc ==ℤ pos 0) (continue (some (command, [])) w') (done (negsuc 0) w')
          (k (some (command, [])) w' h') h'
  parse_argument-Leaves command_expected pending w continue h k =
      Leaves-bind P (run_pending calls pending w) _ (run_pending-Leaves pending w h)
        (λ rc w' h'. h')

  parse_from-Leaves :
      (pending : Option (Bytes × List Bytes)) (argv : List Bytes) (w : W)
      → P w
      → Leaves P (parse_from calls pending argv w)
  unfolding parse_from
  parse_from-Leaves pending [] w h = finish-Leaves pending w h
  parse_from-Leaves pending (arg ∷ argv) w h =
      parse_argument-Leaves (read_argument arg) pending w _ h
        (λ pending' w' h'. parse_from-Leaves pending' argv w' h')

  pub parse_args-Leaves : (argv : List Bytes) (w : W) → P w → Leaves P (parse_args calls argv w)
  unfolding parse_args
  parse_args-Leaves [] w h = tt
  parse_args-Leaves (program ∷ argv) w h = parse_from-Leaves none argv w h
