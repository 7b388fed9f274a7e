-- ===== src/Influx.antt =====
-- plugins/output_influxdb.c: the plugin that posts each record to a database by curl.
pub mod Clean
pub mod Escape
pub mod Unescape
pub mod Cut
pub mod Blank
mod Tests
use io_monitor.Prelude.{
  ℕ, ◌+◌, ◌-◌, ℤ, Bool, true, false, not, ◌&&◌, ◌||◌, Option, none, some, List, [], ◌∷◌, ◌++◌,
  Bytes, codes, length, take, get_elem?, ltb, ◌==◌, if◌then◌else◌, ◌>>=◌,
}
use io_monitor.CharArray.{c_string, zeros}
use io_monitor.Format.{decimal, decimal_int, Tables}
use io_monitor.Plugin.{plugin_open_success, plugin_accept_data, plugin_refuse_data}
use io_monitor.Record.{MonitorRecord, str_len, path_max}

-- The bytes that the escaping marks with a backslash.
unfoldable pub is_special : ℕ → Bool
is_special c = c == b' ' || c == b',' || c == b'='

-- The three tests at the start of the loop.
unfoldable pub repeats : ℕ → ℕ → Bool
repeats last_ch ch =
    ch == b' ' && last_ch == b' ' || ch == b',' && last_ch == b',' || ch == b'=' && last_ch == b'='

-- How a round of the loop ends, with `last_ch` and with the bytes written to `dest`.
pub data Round : Type 0 where
  returned : Bytes → Round
  continued : ℕ → Bytes → Round

-- The end of a round.
unfoldable pub put : ℕ → ℕ → Bytes → Round
put dest_len ch out =
    if ltb (length out) (dest_len - 1) then continued ch (out ++ ch ∷ []) else returned out

unfoldable pub copy_char : ℕ → ℕ → ℕ → Bytes → Round
unfolding repeats is_special put
copy_char dest_len last_ch ch out =
    if repeats last_ch ch
    then continued last_ch out
    else if ch == 10
    then returned out
    else if ch == b'\\'
    then continued ch out
    else if is_special ch
    then (if ltb (length out) (dest_len - 2)
        then put dest_len ch (out ++ b'\\' ∷ [])
        else returned out)
    else put dest_len ch out

-- The `for`.
unfoldable pub copy_from : ℕ → ℕ → Bytes → Bytes → Bytes
unfolding copy_char
copy_from dest_len last_ch [] out = out
copy_from dest_len last_ch (ch ∷ src) out = elim (copy_char dest_len last_ch ch out) [
  | returned out' ↦ out'
  | continued last_ch' out' ↦ copy_from dest_len last_ch' src out'
]

-- `last_ch` is read before it is set: its first value is an argument.
unfoldable pub copy_escaped_tag_value : ℕ → Bytes → ℕ → Bytes
unfolding copy_from zeros
copy_escaped_tag_value last_ch src dest_len =
    let out = copy_from dest_len last_ch src [] in out ++ zeros (dest_len - length out)

-- The loop returns 0 at the first byte that differs from one of four.
unfoldable pub is_all_whitespace : Bytes → Bool
is_all_whitespace [] = true
is_all_whitespace (ch ∷ s) =
    if not (ch == b' ') || not (ch == 10) || not (ch == 13) || not (ch == 9)
    then false
    else is_all_whitespace s

-- What curl answers: whether there is a handle, and whether a post of the text to the url goes through.
pub record Curl : Type 0 where
  pub easy_init : Bool
  pub easy_perform : Bytes → Bytes → Bool

abbrev pub url : Bytes
url = codes "http://localhost:8086/write?db=testDB"

unfoldable pub open_plugin : ℤ
open_plugin = plugin_open_success

unfoldable pub ok_to_accept_data : ℤ
ok_to_accept_data = plugin_accept_data

-- `have_s1` and what follows from it: the text that is printed for s1, in an array of `size` bytes.
unfoldable pub tag_text : ℕ → Bytes → ℕ → Bytes
unfolding copy_escaped_tag_value is_all_whitespace c_string zeros
tag_text last_ch s size =
    let text = c_string s in
    let have = ltb 0 (length text) && not (is_all_whitespace text) in
    let copied = c_string (if have then copy_escaped_tag_value last_ch text size else zeros size) in
    if ltb 0 (length copied) then copied else codes "NULL"

abbrev pub or_none : Bytes → Bytes
or_none text = if ltb 0 (length text) then text else codes "none"

-- The texts one behind the other.
unfoldable pub concat : List Bytes → Bytes
concat [] = []
concat (text ∷ texts) = text ++ concat texts

-- What snprintf prints in front of the text of s1, piece by piece; the two names are arguments.
unfoldable pub before_s1 : MonitorRecord → Bytes → Bytes → List Bytes
unfolding c_string
before_s1 rec domain op =
    codes "iometrics,facility="
    ∷ c_string rec.facility
    ∷ codes ",dom_tag="
    ∷ domain
    ∷ codes ",op_tag="
    ∷ op
    ∷ codes " device=\""
    ∷ or_none (c_string rec.device)
    ∷ codes "\",dom_type=\""
    ∷ domain
    ∷ codes "\",hostname=\""
    ∷ c_string rec.hostname
    ∷ codes "\",op_type=\""
    ∷ op
    ∷ codes "\",s1=\""
    ∷ []

-- What it prints behind the text of s1.
unfoldable pub behind_s1 : Tables → MonitorRecord → Bytes → List Bytes
unfolding decimal decimal_int
behind_s1 tables rec s2 =
    codes "\",s2=\""
    ∷ s2
    ∷ codes "\",timestamp="
    ∷ decimal_int rec.timestamp
    ∷ codes ",elapsed_time="
    ∷ tables.print_float 6 rec.elapsed_time
    ∷ codes ",pid="
    ∷ decimal_int rec.pid
    ∷ codes ",error_code="
    ∷ decimal_int rec.error_code
    ∷ codes ",fd="
    ∷ decimal_int rec.fd
    ∷ codes ",bytes_transferred="
    ∷ decimal rec.bytes_transferred
    ∷ []

-- What snprintf prints, before it is cut. The arguments are the two names and the two texts.
unfoldable pub line_protocol : Tables → MonitorRecord → Bytes → Bytes → Bytes → Bytes → Bytes
unfolding concat before_s1 behind_s1
line_protocol tables rec domain op s1 s2 =
    concat (before_s1 rec domain op) ++ (s1 ++ concat (behind_s1 tables rec s2))

-- `postdata`, of 1024 bytes; `none` where a table is read out of range. The first two arguments are the
-- values that `last_ch` has at first, in the two calls of copy_escaped_tag_value.
unfoldable pub postdata : ℕ → ℕ → Tables → MonitorRecord → Option Bytes
unfolding line_protocol tag_text
postdata last1 last2 tables rec = do
  domain ← get_elem? tables.domains_names rec.dom_type
  op ← get_elem? tables.ops_names rec.op_type
  some (
      take 1023 (
        line_protocol tables rec domain op (tag_text last1 rec.s1 path_max)
          (tag_text last2 rec.s2 str_len)))

-- What stands in `postdata` when it is printed and posted (nothing, without a handle), and the answer.
unfoldable pub process_data : ℕ → ℕ → Tables → Curl → MonitorRecord → Option (Option Bytes × ℤ)
unfolding postdata
process_data last1 last2 tables curl rec =
    if curl.easy_init
    then (do
      text ← postdata last1 last2 tables rec
      some (
        some text,
        if curl.easy_perform url text then plugin_accept_data else plugin_refuse_data,
      ))
    else some (none, plugin_refuse_data)
