-- ===== src/Commands/Args.antt =====
-- parse_args of mq_listener/command_parser.c: the command line is a sequence of commands, each with
-- its parameters, which run in order until one fails.
use io_monitor.Prelude.{
  ◌<◌, ℤ, pos, negsuc, Option, none, some, List, [], ◌∷◌, ◌++◌, Bytes, length, All, ◌==ℤ◌, ◌≡◌,
  refl, arith, append_assoc, append-nil, ◌∙◌, if◌then◌else◌,
}
use io_monitor.Outcome.{Outcome, done, exited, fault, ◌>>=◌}
use io_monitor.Commands.{
  Calls, option, parameter, read_argument, max_tokens, run_command, run_pending, finish, parse_from,
  parse_args,
}

-- A command as it stands on the command line: behind two dashes, or behind one.
pub record Invocation : Type 0 where
  pub dashes : Bytes
  pub command : Bytes
  pub params : List Bytes

abbrev pub spelled : Invocation → Bytes
spelled i = i.dashes ++ i.command

-- The text is read as the command, the parameters are no options, and they fit the array.
pub record IsInvocation (i : Invocation) : Type 0 where
  pub reads : read_argument (spelled i) ≡ option i.command
  pub plain : All (λ p. read_argument p ≡ parameter p) i.params
  pub fits : length i.params < max_tokens

abbrev pub render : List Invocation → List Bytes
render [] = []
render (i ∷ is) = spelled i ∷ (i.params ++ render is)

module _ {F W : Type 0} (calls : Calls F W) where
  -- The commands run in order; the first that does not return 0 ends the program's start with -1.
  abbrev pub run_all : List Invocation → W → Outcome W ℤ
  run_all [] w = done (pos 0) w
  run_all (i ∷ is) w = run_command calls i.command i.params w >>= λ rc w'.
      if rc ==ℤ pos 0 then run_all is w' else done (negsuc 0) w'

  parse_parameter :
      (command p : Bytes) (params argv : List Bytes) (w : W)
      → read_argument p ≡ parameter p
      → parse_from calls (some (command, params)) (p ∷ argv) w
        ≡ parse_from calls (some (command, params ++ p ∷ [])) argv w
  unfolding parse_from
  parse_parameter command p params argv w e = rw e

  parse_option :
      (pending : Option (Bytes × List Bytes)) (arg command : Bytes) (argv : List Bytes) (w : W)
      → read_argument arg ≡ option command
      → parse_from calls pending (arg ∷ argv) w ≡ (
          run_pending calls pending w >>= λ rc w'.
          if rc ==ℤ pos 0
          then parse_from calls (some (command, [])) argv w'
          else done (negsuc 0) w')
  unfolding parse_from
  parse_option pending arg command argv w e = rw e

  parse_params :
      (command : Bytes) (ps params argv : List Bytes) (w : W)
      → All (λ p. read_argument p ≡ parameter p) params
      → parse_from calls (some (command, ps)) (params ++ argv) w
        ≡ parse_from calls (some (command, ps ++ params)) argv w
  parse_params command ps [] argv w h = rw append-nil
  parse_params command ps (p ∷ params) argv w h = rw (
    parse_parameter command p ps (params ++ argv) w h.0,
    parse_params command (ps ++ p ∷ []) params argv w h.1,
    append_assoc,
  )

  run_pending_fits :
      (command : Bytes) (params : List Bytes) (w : W)
      → length params < max_tokens
      → run_pending calls (some (command, params)) w ≡ run_command calls command params w
  unfolding run_pending
  run_pending_fits command params w fits = ground arith

  status :
      (m : Outcome W ℤ)
      → (m >>= λ rc w'. done (if rc ==ℤ pos 0 then pos 0 else negsuc 0) w')
        ≡ (m >>= λ rc w'. if rc ==ℤ pos 0 then done (pos 0) w' else done (negsuc 0) w')
  status (done rc w') = ground arith
  status (exited code w') = refl
  status fault = refl

  parse_rest :
      (command : Bytes) (params : List Bytes) (is : List Invocation) (w : W)
      → length params < max_tokens
      → All IsInvocation is
      → parse_from calls (some (command, params)) (render is) w ≡ (
          run_command calls command params w >>= λ rc w'.
          if rc ==ℤ pos 0 then run_all is w' else done (negsuc 0) w')
  parse_rest command params [] w fits h =
      unfold parse_from finish in
      rw (run_pending_fits command params w fits) (status (run_command calls command params w))
  parse_rest command params (i ∷ is) w fits h =
      let next : (w' : W)
          → parse_from calls (some (i.command, [])) (i.params ++ render is) w'
            ≡ run_all (i ∷ is) w' =
        λ w'.
          parse_params i.command [] i.params (render is) w' h.0.plain
          ∙ parse_rest i.command i.params is w' h.0.fits h.1 in
      rw
        (
          parse_option (some (command, params)) (spelled i) i.command (i.params ++ render is) w
              h.0.reads,
          run_pending_fits command params w fits,
        )
        (simp next)

  -- A command line of one command or more, each spelled so that it is read as that command, each with
  -- fewer than 128 parameters that are no options: parse_args runs the commands on their parameters in
  -- that order. The first that does not return 0 makes it return -1, and no later one runs; otherwise
  -- it returns 0.
  pub parse_args-render :
      (program : Bytes) (i : Invocation) (is : List Invocation) (w : W)
      → All IsInvocation (i ∷ is)
      → parse_args calls (program ∷ render (i ∷ is)) w ≡ run_all (i ∷ is) w
  unfolding parse_args
  parse_args-render program i is w h =
      rw (parse_option none (spelled i) i.command (i.params ++ render is) w h.0.reads) (
        unfold run_pending in
        rw (
          parse_params i.command [] i.params (render is) w h.0.plain,
          parse_rest i.command i.params is w h.0.fits h.1,
        ))
