-- ===== src/Monitor/Setup.antt =====
-- load_library_functions and initialize_monitor of io_monitor/io_monitor.c: the variables that the
-- environment sets. `names` stands for the generated array `domains_names`.
use io_monitor.Prelude.{
  ℕ, true, ◌&&◌, Option, none, some, List, ◌∷◌, ◌++◌, Bytes, codes, str_eq, length, ltb,
  if◌then◌else◌,
}
use io_monitor.CharArray.{zeros, strncpy}
use io_monitor.Mask.{domain_list_to_bit_mask, all_ones}
use io_monitor.Monitor.Outside.{Floats, Environment}
use io_monitor.Monitor.State.{Monitor}
use io_monitor.Monitor.{to_int}

-- The first four bytes of `facility`, and the NUL that it is filled with before.
unfoldable pub facility_of : Option Bytes → Bytes
unfolding strncpy zeros
facility_of none = b'u' ∷ zeros 4
facility_of (some facility_id) = strncpy 4 facility_id ++ zeros 1

unfoldable pub flags_of : List Bytes → Option Bytes → ℕ
unfolding domain_list_to_bit_mask
flags_of names none = 0
flags_of names (some monitor_domain_list) =
    if str_eq monitor_domain_list (codes "ALL")
    then all_ones
    else domain_list_to_bit_mask names monitor_domain_list

module _ (env : Environment) where
  -- A variable that is not set, or set to the empty text, gives no frequency.
  abbrev pub positive : Option Bytes → ℕ
  positive none = 0
  positive (some text) = if ltb 0 (length text) then env.atol text else 0

  unfoldable pub set_count_sampling : Monitor → Monitor
  unfolding to_int
  set_count_sampling m =
      let frequency = positive env.count_sample_frequency in
      if ltb 0 frequency
      then record m { count_based_sampling = true; count_based_sample_frequency = to_int frequency }
      else m

  unfoldable pub set_time_sampling : Monitor → Monitor
  set_time_sampling m =
      let frequency = positive env.time_sample_frequency in
      let duration = positive env.time_sample_duration in
      if ltb 0 frequency && ltb 0 duration
      then record m {
        time_based_sampling = true;
        time_based_sample_frequency = frequency;
        time_based_sample_duration = duration;
      }
      else m

  module _ (floats : Floats) where
    abbrev pub set_threshold : Option Bytes → Monitor → Monitor
    set_threshold none m = m
    set_threshold (some start_on_elapsed) m =
        let elapsed_value = floats.atof start_on_elapsed in
        if floats.less (floats.literal (codes "0.1")) elapsed_value
        then record m {
          elapsed_threshold = elapsed_value;
          have_elapsed_threshold = true;
          paused = true;
        }
        else m

    abbrev pub set_pause : Option Bytes → Monitor → Monitor
    set_pause none m = set_threshold env.start_on_elapsed (record m { start_on_open = none })
    set_pause (some name) m = record m { start_on_open = some name; paused = true }

    -- The handlers are assigned once.
    unfoldable pub load_library_functions : Monitor → Monitor
    load_library_functions m =
        if m.orig_open then m else record (set_pause env.start_on_open m) { orig_open = true }

    unfoldable pub initialize_monitor : List Bytes → Monitor → Monitor
    unfolding facility_of flags_of set_count_sampling set_time_sampling load_library_functions
    initialize_monitor names m = load_library_functions (
        set_time_sampling (
          set_count_sampling (record m {
            facility = facility_of env.facility_id;
            message_queue_path = env.message_queue_path;
            domain_bit_flags = flags_of names env.monitor_domains;
          })))
