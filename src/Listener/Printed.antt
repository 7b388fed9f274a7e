-- ===== src/Listener/Printed.antt =====
-- What the commands `help` and `list-plugins` of mq_listener/mq_listener.c print, line by line.
use io_monitor.Prelude.{
  ℕ, zero, suc, ◌+◌, Bool, not, ◌&&◌, Option, none, some, List, [], ◌∷◌, ◌++◌, Bytes, codes,
  get_elem?, if◌then◌else◌, ◌>>=◌, ◌≡◌, ap, ◌∙◌, arith,
}
use mathlib.Core.Option.{some-injective}
use io_monitor.Chain.{Plugin, list_plugins, label}
use io_monitor.Commands.{Command}
use io_monitor.Format.{decimal}

module _ {ℓ} {F : Type ℓ} where
  -- The two lines of a command, in the spelling of config files or of the command line.
  unfoldable pub help_entry : Bool → Command F → List Bytes
  help_entry show_runtime_commands c =
      (if show_runtime_commands
        then c.name ++ (codes " (" ++ (c.short_name ++ (codes ") " ++ c.params_desc)))
        else codes "--"
          ++ (c.name ++ (codes " / -" ++ (c.short_name ++ (codes " " ++ c.params_desc)))))
      ∷ (codes "     " ++ c.help)
      ∷ []

  -- The `for` over the array; `none` is a read behind an array without an entry that ends it.
  unfoldable pub help_entries : Bool → List (Command F) → Option (List Bytes)
  unfolding help_entry
  help_entries show_runtime_commands [] = none
  help_entries show_runtime_commands (c ∷ array) = elim c.command_function [
    | none ↦ some []
    | some f ↦ (do
      rest ← help_entries show_runtime_commands array
      some (
          if c.interactive_only && not show_runtime_commands
          then rest
          else help_entry show_runtime_commands c ++ rest))
  ]

  unfoldable pub c_help : Bool → List (Command F) → Option (List Bytes)
  unfolding help_entries
  c_help show_runtime_commands array = do
    entries ← help_entries show_runtime_commands array
    some (
        codes "mq_listener: listening end of io_monitor."
        ∷ codes "Example invocation:"
        ∷ codes "   ./mq_listener/mq_listener -m mq1 -p plugins/output_table.so"
        ∷ codes "   ./mq_listener/mq_listener -c mq_listener/listener.conf.example"
        ∷ entries)

-- The loop of c_list_plugins, from an index on.
unfoldable pub numbered : ℕ → List Bytes → List Bytes
unfolding decimal
numbered i [] = []
numbered i (entry ∷ labels) = (decimal i ++ (codes ". " ++ entry)) ∷ numbered (i + 1) labels

unfoldable pub c_list_plugins : {S : Type 0} → List (Plugin S) → List Bytes
unfolding numbered list_plugins
c_list_plugins plugins = numbered 0 (list_plugins plugins)

numbered-get :
    (i n : ℕ) (labels : List Bytes) (l : Bytes)
    → get_elem? labels n ≡ some l
    → get_elem? (numbered i labels) n ≡ some (decimal (i + n) ++ (codes ". " ++ l))
unfolding numbered
numbered-get i n [] l e = cc
numbered-get i zero (entry ∷ labels) l e = ap some (
    ap (λ k. decimal k ++ (codes ". " ++ entry)) {x = i} {y = i + 0} (omega arith)
    ∙ ap (λ t. decimal (i + 0) ++ (codes ". " ++ t)) (some-injective entry l e))
numbered-get i (suc n) (entry ∷ labels) l e =
    numbered-get (i + 1) n labels l e
    ∙ ap (λ k. some (decimal k ++ (codes ". " ++ l))) {x = i + 1 + n} {y = i + suc n} (omega arith)

list_plugins-get :
    {S : Type 0} (plugins : List (Plugin S)) (n : ℕ) (p : Plugin S)
    → get_elem? plugins n ≡ some p
    → get_elem? (list_plugins plugins) n ≡ some (label p)
unfolding list_plugins
list_plugins-get [] n p e = cc
list_plugins-get (q ∷ plugins) zero p e = ap (λ x. some (label x)) (some-injective q p e)
list_plugins-get (q ∷ plugins) (suc n) p e = list_plugins-get plugins n p e

-- The line number n of list-plugins is the number n and the label of the plugin number n.
c_list_plugins-get :
    {S : Type 0} (plugins : List (Plugin S)) (n : ℕ) (p : Plugin S)
    → get_elem? plugins n ≡ some p
    → get_elem? (c_list_plugins plugins) n ≡ some (decimal n ++ (codes ". " ++ label p))
unfolding c_list_plugins
c_list_plugins-get plugins n p e =
    numbered-get 0 n (list_plugins plugins) (label p) (list_plugins-get plugins n p e)
    ∙ ap (λ k. some (decimal k ++ (codes ". " ++ label p))) {x = 0 + n} {y = n} (omega arith)
