-- ===== src/Filter.antt =====
-- plugins/filter_domains.c: the plugin that drops the records of domains outside its mask.
-- `names` stands for the generated array `domains_names`.
pub mod Verdict
pub mod Printing
pub mod RoundTrip
mod Tests
use Prim.Native.Nat.{bit_and}
use io_monitor.Prelude.{
  ℕ, zero, suc, ◌+◌, ◌-◌, ◌^◌, ℤ, Bool, true, false, Option, none, some, List, [], ◌∷◌, ◌++◌, Bytes,
  codes, str_eq, get_elem?, ◌==◌, if◌then◌else◌, ◌>>=◌,
}
use io_monitor.Plugin.{plugin_open_success, plugin_accept_data, plugin_drop_data}
use io_monitor.Record.{MonitorRecord}
use io_monitor.Mask.{domain_list_to_bit_mask}

pub record PluginState : Type 0 where
  pub domain_bit_flags : ℕ

-- `~(1 << j)` as an `unsigned int`
abbrev pub flag_complement : ℕ → ℕ
flag_complement j = 2 ^ 32 - 1 - 2 ^ j

unfoldable pub ok_to_accept_data : ℤ
ok_to_accept_data = plugin_accept_data

-- `1 << dom_type` is defined for a `dom_type` below 32, which every enumerator is.
unfoldable pub process_data : MonitorRecord → PluginState → ℤ
process_data rec ps =
    if 0 == bit_and ps.domain_bit_flags (2 ^ rec.dom_type)
    then plugin_drop_data
    else plugin_accept_data

module _ (names : List Bytes) where
  -- For options that are there: without them the text is NULL, which strtok_r reads through.
  unfoldable pub open_plugin : Bytes → ℤ × PluginState
  unfolding domain_list_to_bit_mask
  open_plugin plugin_config = (
    plugin_open_success,
    record { domain_bit_flags = domain_list_to_bit_mask names plugin_config },
  )

  -- The loop of print-mask from round `j` on, over the flags `m` that are left: what it prints, or
  -- `none` where it reads behind the end of `domains_names`. The flags are below 2 ^ 32, so that
  -- 33 rounds are enough.
  unfoldable pub print_from : ℕ → ℕ → ℕ → Option Bytes
  print_from zero j m = none
  print_from (suc fuel) j m = elim (m == 0) [
    | true ↦ some []
    | false ↦ elim (bit_and m (2 ^ j) == 0) [
      | true ↦ print_from fuel (j + 1) m
      | false ↦ do
        name ← get_elem? names j
        rest ← print_from fuel (j + 1) (bit_and m (flag_complement j))
        some (name ++ (if bit_and m (flag_complement j) == 0 then rest else b',' ∷ rest))
    ]
  ]

  unfoldable pub print_mask : ℕ → Option Bytes
  unfolding print_from
  print_mask m = print_from 33 0 m

  -- update-mask with the arguments behind it
  unfoldable pub update_mask : List Bytes → PluginState → PluginState
  unfolding domain_list_to_bit_mask
  update_mask [] ps = ps
  update_mask (l ∷ args) ps = record ps { domain_bit_flags = domain_list_to_bit_mask names l }

  -- What plugin_command prints (`none` for the read out of range), and the state it leaves. `args` is
  -- the list of arguments before the NULL.
  unfoldable pub plugin_command : List Bytes → PluginState → Option (Bytes × PluginState)
  unfolding update_mask print_mask
  plugin_command [] ps = some ([], ps)
  plugin_command (a ∷ args) ps =
      let print = do
        text ← print_mask ps.domain_bit_flags
        some (codes "domain_mask:" ++ (text ++ (10 ∷ [])), ps)
      in if str_eq a (codes "update-mask")
        then some ([], update_mask args ps)
        else if str_eq a (codes "print-mask")
        then print
        else some ([], ps)
