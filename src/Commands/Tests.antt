-- ===== src/Commands/Tests.antt =====
-- Runs of mq_listener/command_parser.c with commands that are numbers: calling one returns it, and
-- writes it down in front of what was called before.
use io_monitor.Prelude.{ℕ, pos, false, none, some, List, [], ◌∷◌, codes, ◌≡◌, refl, arith}
use io_monitor.Outcome.{done}
use io_monitor.Commands.Args.{Invocation, IsInvocation, render, run_all, parse_args-render}
use io_monitor.Commands.{Command, Calls, parse_args, read_argument}

abbrev load : Command ℕ
load = record {
  name = codes "load-plugin";
  short_name = codes "p";
  params_desc = [];
  help = [];
  command_function = some 1;
  interactive_only = false;
}

abbrev csv : Command ℕ
csv = record load { name = codes "csv.so"; short_name = codes "c"; command_function = some 0 }

abbrev stop : Command ℕ
stop = record load { name = []; short_name = []; command_function = none }

abbrev numbers : Calls ℕ (List ℕ)
numbers = record { s_commands = λ w. csv ∷ load ∷ []; call = λ f name args w. done (pos f) (f ∷ w) }

abbrev invocation : Invocation
invocation = record { dashes = codes "--"; command = codes "csv.so"; params = codes "x" ∷ [] }

invocation-IsInvocation : IsInvocation invocation
unfolding read_argument
invocation-IsInvocation = record { reads = refl; plain = (refl, tt); fits = omega arith }

args_example :
    parse_args numbers (codes "mq_listener" ∷ render (invocation ∷ invocation ∷ [])) []
    ≡ run_all numbers (invocation ∷ invocation ∷ []) []
args_example =
    parse_args-render numbers (codes "mq_listener") invocation (invocation ∷ []) []
      (invocation-IsInvocation, (invocation-IsInvocation, tt))
