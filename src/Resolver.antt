-- ===== src/Resolver.antt =====
-- mq_listener/resolver.cpp: which device a file descriptor belongs to. A `std::map<string, string>` is
-- the list of its entries in the order of the keys, which is the order that path_to_dev walks it in;
-- `map<int, string>` is only looked up, and is an association list.
pub mod Prefix
pub mod Fields
pub mod Lines
pub mod Descriptors
mod Tests
use Prim.Native.Nat.{min}
use io_monitor.Prelude.{
  ℕ, zero, suc, ◌+◌, ◌-◌, ℤ, Bool, true, false, ◌&&◌, not, Option, none, some, List, [], ◌∷◌, ◌++◌,
  Bytes, length, take, str_eq, starts_with, cut_at, ltb, ◌==◌, ◌==ℤ◌, if◌then◌else◌, ◌>>=◌, codes,
}
use io_monitor.CharArray.{c_string, zeros, strncpy}
use io_monitor.Tokens.{tokens}
use io_monitor.Record.{MonitorRecord, fd_none, device_len}

-- `a < b` of std::string: by the bytes.
unfoldable pub lex_ltb : Bytes → Bytes → Bool
lex_ltb a [] = false
lex_ltb [] (y ∷ b) = true
lex_ltb (x ∷ a) (y ∷ b) = if x == y then lex_ltb a b else ltb x y

abbrev pub Mounts : Type 0
Mounts = List (Bytes × Bytes)

-- `m[key] = value`
unfoldable pub assign : Bytes → Bytes → Mounts → Mounts
unfolding lex_ltb
assign key value [] = (key, value) ∷ []
assign key value ((k, v) ∷ m) =
    if lex_ltb key k
    then (key, value) ∷ (k, v) ∷ m
    else if str_eq key k
    then (k, value) ∷ m
    else (k, v) ∷ assign key value m

pub record Resolver : Type 0 where
  pub fs_mount_path_to_dev : Mounts
  pub root_fs_dev : Bytes
  pub fd_to_dev : List (ℤ × Bytes)

-- `struct _device_config`, field by field as they lie in memory.
pub record DeviceConfig : Type 0 where
  pub device_name : Bytes
  pub maj_min : Bytes
  pub rm : ℕ
  pub device_size : Bytes
  pub ro : ℕ
  pub device_type : Bytes
  pub mount_point : Bytes

-- `memset(dc, 0, sizeof(struct _device_config))`
unfoldable pub blank : DeviceConfig
unfolding zeros
blank = record {
  device_name = zeros 40;
  maj_min = zeros 10;
  rm = 0;
  device_size = zeros 10;
  ro = 0;
  device_type = zeros 40;
  mount_point = zeros 256;
}

-- `memcpy(a, value, MIN(size, n))` over an array of zeros, where `value` has n bytes.
unfoldable pub fill : ℕ → Bytes → Bytes
unfolding strncpy
fill size value = strncpy size value

-- `pos_field_value[0]`, which is the closing quote of an empty value.
unfoldable pub first_char : Bytes → ℕ
first_char [] = b'"'
first_char (c ∷ s) = c

-- The `switch (j)`.
unfoldable pub set_field : ℕ → Bytes → DeviceConfig → DeviceConfig
unfolding fill first_char
set_field j value dc =
    if j == 0
    then record dc { device_name = fill 40 value }
    else if j == 1
    then record dc { maj_min = fill 10 value }
    else if j == 2
    then record dc { rm = first_char value }
    else if j == 3
    then record dc { device_size = fill 10 value }
    else if j == 4
    then record dc { ro = first_char value }
    else if j == 5
    then record dc { device_type = fill 40 value }
    else if j == 6
    then record dc { mount_point = fill 256 value }
    else dc

-- The text between the first two quotes behind the first `=` of a token.
unfoldable pub quoted : Bytes → Option Bytes
unfolding cut_at
quoted token = do
  (key, behind) ← cut_at b'=' token
  (before, rest) ← cut_at b'"' behind
  (value, after) ← cut_at b'"' rest
  some value

-- A token without a quoted value is passed over.
unfoldable pub read_field : Option Bytes → ℕ × DeviceConfig → ℕ × DeviceConfig
unfolding set_field
read_field none (j, dc) = (j, dc)
read_field (some value) (j, dc) = (j + 1, set_field j value dc)

unfoldable pub parse_tokens : List Bytes → ℕ × DeviceConfig → ℕ × DeviceConfig
unfolding read_field quoted
parse_tokens [] s = s
parse_tokens (t ∷ ts) s = parse_tokens ts (read_field (quoted t) s)

abbrev pub is_space : ℕ → Bool
is_space c = c == b' '

unfoldable pub parse_device_fields : Bytes → ℕ × DeviceConfig
unfolding parse_tokens tokens blank
parse_device_fields device_fields = parse_tokens (tokens is_space device_fields) (0, blank)

-- `string(dc.device_name)`: an array that is full runs on into the next.
unfoldable pub name_of : DeviceConfig → Bytes
unfolding c_string
name_of dc = c_string (
    dc.device_name
    ++ (dc.maj_min ++ (dc.rm ∷ (dc.device_size ++ (dc.ro ∷ (dc.device_type ++ dc.mount_point))))))

-- The body of the `while` of capture_device_info, for what fgets has read.
unfoldable pub capture_line : Bytes → Resolver → Resolver
unfolding parse_device_fields name_of assign c_string
capture_line line r =
    let (fields_parsed, dc) = parse_device_fields line in
    if fields_parsed == 7
    then (if str_eq (c_string dc.mount_point) (codes "/")
        then record r { root_fs_dev = name_of dc }
        else record r {
          fs_mount_path_to_dev =
              assign (c_string dc.mount_point) (name_of dc) r.fs_mount_path_to_dev;
        })
    else r

abbrev pub put_front : ℕ → List Bytes → List Bytes
put_front c [] = (c ∷ []) ∷ []
put_front c (piece ∷ pieces) = (c ∷ piece) ∷ pieces

-- What fgets reads into `path`, piece by piece: a piece ends behind a newline, or with 254 bytes.
-- `left` is how many bytes the piece has room for behind the next one.
unfoldable pub read_pieces : ℕ → Bytes → List Bytes
read_pieces left [] = []
read_pieces zero (c ∷ s) = (c ∷ []) ∷ read_pieces 253 s
read_pieces (suc left) (c ∷ s) = elim (c == 10) [
  | true ↦ (c ∷ []) ∷ read_pieces 253 s
  | false ↦ put_front c (read_pieces left s)
]

-- The `while` of capture_device_info over the pieces.
unfoldable pub capture_lines : List Bytes → Resolver → Resolver
unfolding capture_line
capture_lines [] r = r
capture_lines (line ∷ lines) r = capture_lines lines (capture_line line r)

-- The argument is what `lsblk -P` prints, or nothing if popen returns NULL.
unfoldable pub capture_device_info : Option Bytes → Resolver → Resolver
unfolding read_pieces capture_lines
capture_device_info none r = r
capture_device_info (some output) r = capture_lines (read_pieces 253 output) r

-- The loop of path_to_dev: `!path.compare(0, mount_point.size(), mount_point)` says that the path
-- starts with the mount point.
unfoldable pub first_mount : Bytes → Mounts → Option Bytes
unfolding starts_with
first_mount path [] = none
first_mount path ((mount_point, dev) ∷ m) =
    if starts_with mount_point path then some dev else first_mount path m

unfoldable pub path_to_dev : Resolver → Bytes → Bytes
unfolding first_mount
path_to_dev r path = elim (first_mount path r.fs_mount_path_to_dev) [
  | none ↦ r.root_fs_dev
  | some dev ↦ dev
]

unfoldable pub find_fd : ℤ → List (ℤ × Bytes) → Option Bytes
find_fd fd [] = none
find_fd fd ((k, dev) ∷ m) = if k ==ℤ fd then some dev else find_fd fd m

unfoldable pub assign_fd : ℤ → Bytes → List (ℤ × Bytes) → List (ℤ × Bytes)
assign_fd fd dev [] = (fd, dev) ∷ []
assign_fd fd dev ((k, v) ∷ m) = if k ==ℤ fd then (k, dev) ∷ m else (k, v) ∷ assign_fd fd dev m

unfoldable pub erase_fd : ℤ → List (ℤ × Bytes) → List (ℤ × Bytes)
erase_fd fd [] = []
erase_fd fd ((k, v) ∷ m) = let rest = erase_fd fd m in if k ==ℤ fd then rest else (k, v) ∷ rest

-- `strlen(rec->s1) > 0`; the array is never NULL.
unfoldable pub register_file : MonitorRecord → Resolver → Resolver
unfolding path_to_dev assign_fd c_string
register_file rec r =
    let path = c_string rec.s1 in
    if not (rec.fd ==ℤ fd_none) && ltb 0 (length path)
    then record r { fd_to_dev = assign_fd rec.fd (path_to_dev r path) r.fd_to_dev }
    else r

unfoldable pub deregister_file : MonitorRecord → Resolver → Resolver
unfolding erase_fd
deregister_file rec r =
    if not (rec.fd ==ℤ fd_none) then record r { fd_to_dev = erase_fd rec.fd r.fd_to_dev } else r

unfoldable pub resolve_file : MonitorRecord → Resolver → MonitorRecord
unfolding find_fd strncpy
resolve_file rec r =
    if not (rec.fd ==ℤ fd_none)
    then elim (find_fd rec.fd r.fd_to_dev) [
      | none ↦ rec
      | some dev_id ↦ record rec { device = strncpy device_len dev_id }
    ]
    else rec
