-- ===== src/Daemon/FileTests.antt =====
-- Runs of mq_listener with config files that name config files.
use io_monitor.Prelude.{
  ℕ, pos, negsuc, false, none, some, Option, List, [], ◌∷◌, ◌++◌, Bytes, codes, str_eq,
  if◌then◌else◌, ◌≡◌, refl, arith,
}
use io_monitor.Tokens.{tokens}
use io_monitor.Outcome.{done, exited, fault}
use io_monitor.Commands.{
  Command, set_commands_array, find_command, is_blank, parse_args, parse_command,
}
use io_monitor.Chain.Tests.{zero_heap}
use io_monitor.Listener.{call, calls}
use io_monitor.Listener.Outside.{System}
use io_monitor.Listener.State.{World, Handler, Builtin, builtin}
use io_monitor.Listener.Itself.{c_config-itself}
use io_monitor.Listener.Tests.{one_library}
use io_monitor.Resolver.{Resolver}
use io_monitor.Chain.{count_plugins}
use io_monitor.Daemon.Reach.{before_main}
use io_monitor.Daemon.{commands, start, Daemon}

abbrev own_commands : List (Command (Handler ℕ))
own_commands = elim (set_commands_array commands []) [ none ↦ [] | some cs ↦ cs ]

abbrev idle_world : World ℕ
idle_world = record {
  s_commands = own_commands;
  plugins = [];
  heap = zero_heap;
  fresh = 0;
  message_queue_key = negsuc 0;
  message_queue_id = negsuc 0;
  show_runtime_commands = false;
}

-- `all` names `site`, and `own` names itself.
abbrev three_files : Bytes → Option (List Bytes)
three_files path =
    if str_eq path (codes "all")
    then some ((codes "config site" ++ 10 ∷ []) ∷ [])
    else if str_eq path (codes "site")
    then some ((codes "mq-path q" ++ 10 ∷ []) ∷ [])
    else none

abbrev files : (Bytes → Option (List Bytes)) → System ℕ
files fopen = record {
  dlopen = λ library. none;
  ftok = λ path project. pos 9;
  msgget = λ key. pos 3;
  fopen = fopen;
  no_return = pos 0;
  left_behind = λ address plugins. false;
}

abbrev rank : Bytes → ℕ
rank path = if str_eq path (codes "all") then 1 else 0

-- At that depth the last file is read: the queue is looked up, and parse_args returns 0.
nested_returns :
    parse_args (calls (files three_files) 3) (codes "l" ∷ codes "-c" ∷ codes "all" ∷ []) idle_world
    ≡ done (pos 0) (record idle_world { message_queue_key = pos 9; message_queue_id = pos 3 })
unfolding parse_args call tokens set_commands_array str_eq parse_command
nested_returns = refl

-- A file that names itself.
abbrev own_file : Bytes → Option (List Bytes)
own_file path = some ((codes "c own" ++ 10 ∷ []) ∷ [])

own_words : tokens is_blank (codes "c own" ++ 10 ∷ []) ≡ codes "c" ∷ codes "own" ∷ []
unfolding tokens
own_words = refl

abbrev config_command : Command (Handler ℕ)
config_command = record {
  name = codes "config";
  short_name = codes "c";
  params_desc = [];
  help = [];
  command_function = some (builtin Builtin.config);
  interactive_only = false;
}

own_found : find_command (codes "c") own_commands ≡ some config_command
unfolding find_command set_commands_array str_eq
own_found = refl

itself_example :
    call (files own_file) 9 (builtin Builtin.config) (codes "config") (codes "own" ∷ []) idle_world
    ≡ fault
itself_example =
    c_config-itself (files own_file) idle_world (codes "own") (codes "c") (codes " own" ++ 10 ∷ [])
      b'c' [] [] config_command refl refl own_words (omega arith) own_found refl 9 (codes "config")
      []

-- main with a queue and two plugins.
abbrev two_plugins : List Bytes
two_plugins =
    codes "mq_listener"
    ∷ codes "-m"
    ∷ codes "q"
    ∷ codes "-p"
    ∷ codes "csv.so:c"
    ∷ codes "--load-plugin"
    ∷ codes "table.so"
    ∷ []

abbrev loading : System ℕ
loading = record one_library { fopen = three_files }

abbrev started_world : World ℕ
started_world = elim (start loading 2 two_plugins (before_main zero_heap)) [
  | done rc w ↦ w
  | exited code w ↦ w
  | fault ↦ idle_world
]

two_loaded : count_plugins started_world.plugins ≡ 2
unfolding start count_plugins str_eq call
two_loaded = refl

abbrev no_mounts : Resolver
no_mounts = record { fs_mount_path_to_dev = []; root_fs_dev = codes "sda1"; fd_to_dev = [] }

abbrev looping : Daemon ℕ
looping = record { world = started_world; resolver = no_mounts }
