-- ===== src/Resolver/Tests.antt =====
-- Runs of mq_listener/resolver.cpp.
use io_monitor.Prelude.{
  ◌==◌, any, All-any, arith, false, [], ◌∷◌, ◌++◌, some, Bytes, codes, All, starts_with, ◌≡◌, refl,
  ◌⊎◌,
}
use io_monitor.Record.{MonitorRecord}
use io_monitor.Chain.Tests.{read_record}
use io_monitor.Resolver.Fields.{IsField, Device, lsblk_fields}
use io_monitor.Resolver.Lines.{text, IsRead, output_of, with_devices, capture_device_info-output}
use io_monitor.Resolver.{Resolver, is_space, lex_ltb, capture_device_info, path_to_dev}
use io_monitor.Resolver.Prefix.{IsSorted, IsShortest, path_to_dev_lem}

abbrev two_mounts : Resolver
two_mounts = record {
  fs_mount_path_to_dev = (codes "/home", codes "sda2") ∷ (codes "/home/a", codes "sdb1") ∷ [];
  root_fs_dev = codes "sda1";
  fd_to_dev = [];
}

abbrev lsblk : Bytes
lsblk =
    codes
      "NAME=\"sdc1\" MAJ:MIN=\"8:1\" RM=\"0\" SIZE=\"9G\" RO=\"0\" TYPE=\"part\" MOUNTPOINT=\"/srv\""
    ++ 10 ∷ []

two_mounts-IsSorted : IsSorted two_mounts.fs_mount_path_to_dev
unfolding lex_ltb
two_mounts-IsSorted = assumption refl

mount_example :
    let r' = capture_device_info (some lsblk) two_mounts in
    (All (λ e. starts_with e.0 (codes "/home/a/x") ≡ false) r'.fs_mount_path_to_dev
      × (path_to_dev r' (codes "/home/a/x") ≡ r'.root_fs_dev))
    ⊎ ((k : Bytes) × IsShortest
          (codes "/home/a/x")
          r'.fs_mount_path_to_dev
          k
          (path_to_dev r' (codes "/home/a/x")))
mount_example = path_to_dev_lem (some lsblk) two_mounts (codes "/home/a/x") two_mounts-IsSorted

abbrev open_record : MonitorRecord
open_record = record read_record { dom_type = 13; op_type = 0; s1 = codes "/home/x" }

abbrev server_disk : Device
server_disk = record {
  name = codes "sdc1";
  numbers = codes "8:1";
  removable = codes "0";
  size = codes "9G";
  read_only = codes "0";
  kind = codes "part";
  mount_point = codes "/srv";
}

-- A field of texts without blanks, quotes and `=`.
is_field :
    (key value : Bytes)
    → any (λ c. c == b'=') key ≡ false
    → any is_space key ≡ false
    → any (λ c. c == b'"') value ≡ false
    → any is_space value ≡ false
    → IsField (key, value)
is_field key value e b q v = record {
  key_equal = All-any (λ c. c == b'=') key e;
  key_blank = All-any is_space key b;
  value_quote = All-any (λ c. c == b'"') value q;
  value_blank = All-any is_space value v;
}

server_disk-fields : All IsField (lsblk_fields server_disk)
server_disk-fields = (
  is_field (codes "NAME") (codes "sdc1") refl refl refl refl,
  (
    is_field (codes "MAJ:MIN") (codes "8:1") refl refl refl refl,
    (
      is_field (codes "RM") (codes "0") refl refl refl refl,
      (
        is_field (codes "SIZE") (codes "9G") refl refl refl refl,
        (
          is_field (codes "RO") (codes "0") refl refl refl refl,
          (
            is_field (codes "TYPE") (codes "part") refl refl refl refl,
            (is_field (codes "MOUNTPOINT") (codes "/srv") refl refl refl refl, tt),
          ),
        ),
      ),
    ),
  ),
)

server_disk-IsRead : IsRead server_disk
server_disk-IsRead = record {
  fields = server_disk-fields;
  one_line = All-any (λ c. c == 10) (text (lsblk_fields server_disk)) refl;
  name_text = All-any (λ c. c == 0) (codes "sdc1") refl;
  name_fits = omega arith;
  mount_text = All-any (λ c. c == 0) (codes "/srv") refl;
  mount_fits = omega arith;
  line_fits = omega arith;
}

output_example :
    capture_device_info (some (output_of (server_disk ∷ server_disk ∷ []))) two_mounts
    ≡ with_devices (server_disk ∷ server_disk ∷ []) two_mounts
output_example =
    capture_device_info-output (server_disk ∷ server_disk ∷ []) two_mounts
      (server_disk-IsRead, (server_disk-IsRead, tt))
