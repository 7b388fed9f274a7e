-- ===== src/Outputs/Cli.antt =====
-- plugins/input_cli.c: the plugin whose thread reads command lines from stdin.
use io_monitor.Prelude.{
  ℕ, zero, suc, ◌-◌, ℤ, Bool, true, false, [], ◌∷◌, Bytes, ◌==◌, if◌then◌else◌,
}
use io_monitor.Plugin.{plugin_open_success, plugin_accept_data}
use io_monitor.Record.{path_max}

-- The line that `fgets(buf, size + 1, stdin)` reads of the bytes that stdin still has, up to a newline
-- and with it, and the bytes behind it.
unfoldable pub read_line : ℕ → Bytes → Bytes × Bytes
read_line zero s = ([], s)
read_line (suc size) [] = ([], [])
read_line (suc size) (c ∷ s) =
    let (line, rest) = read_line size s in if c == 10 then (c ∷ [], s) else (c ∷ line, rest)

-- `buf` keeps what it holds when stdin is at its end.
unfoldable pub fgets : ℕ → Bytes → Bytes → Bytes × Bytes
unfolding read_line
fgets size buf [] = (buf, [])
fgets size buf (c ∷ s) = read_line size (c ∷ s)

-- Where the thread stands: before the test of the loop, before fgets, before the command, or behind
-- the loop.
pub data Place : Type 0 where
  at_test : Place
  at_read : Place
  at_command : Place
  ended : Place

-- The thread with its buffer and what it shares: `kill_thread` with the thread that closes the plugin,
-- the listener, of type `W`, with all of the program.
pub record Cli {ℓ} (W : Type ℓ) : Type ℓ where
  pub place : Place
  pub kill_thread : Bool
  pub buf : Bytes
  pub stdin : Bytes
  pub listener : W

unfoldable pub process_data : ℤ
process_data = plugin_accept_data

unfoldable pub ok_to_accept_data : ℤ
ok_to_accept_data = plugin_accept_data

module _ {ℓ} {W : Type ℓ} (command_function : Bytes → W → W) where
  -- One step of thread_loop.
  unfoldable pub advance_at : Place → Cli W → Cli W
  unfolding fgets
  advance_at at_test cli = record cli { place = if cli.kill_thread then ended else at_read }
  advance_at at_read cli =
      let (line, rest) = fgets (path_max - 1) cli.buf cli.stdin in
      record cli { place = at_command; buf = line; stdin = rest }
  advance_at at_command cli = record cli {
    place = at_test;
    listener = command_function cli.buf cli.listener;
  }
  advance_at ended cli = record cli { place = ended }

  unfoldable pub advance : Cli W → Cli W
  unfolding advance_at
  advance cli = advance_at cli.place cli

-- What open_plugin sets up for the thread that it starts, and its answer. The buffer is not set.
unfoldable pub open_plugin {ℓ} : {W : Type ℓ} → Bytes → Bytes → W → ℤ × Cli W
open_plugin buf stdin listener = (
  plugin_open_success,
  record { place = at_test; kill_thread = false; buf = buf; stdin = stdin; listener = listener },
)

-- close_plugin, up to where it waits for the thread to end.
unfoldable pub close_plugin {ℓ} : {W : Type ℓ} → Cli W → Cli W
close_plugin cli = record cli { kill_thread = true }

-- The steps of the two threads.
pub data Step {ℓ} {W : Type ℓ} (command_function : Bytes → W → W) : Cli W → Cli W → Type ℓ where
  thread_loop : (cli : Cli W) → Step command_function cli (advance command_function cli)
  closing : (cli : Cli W) → Step command_function cli (close_plugin cli)

pub data Steps {ℓ} {W : Type ℓ} (command_function : Bytes → W → W) : Cli W → Cli W → Type ℓ where
  stay : {cli : Cli W} → Steps command_function cli cli
  go :
      {cli next last : Cli W}
      → Step command_function cli next
      → Steps command_function next last
      → Steps command_function cli last
