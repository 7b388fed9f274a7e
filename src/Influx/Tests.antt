-- ===== src/Influx/Tests.antt =====
-- Texts to try plugins/output_influxdb.c on.
use io_monitor.Prelude.{
  ◌+◌, leb, leb→le, pos, negsuc, replicate, [], ◌∷◌, true, Bytes, codes, length, ◌==◌, All-any, ◌≡◌,
  refl, arith,
}
use io_monitor.CharArray.{c_string, is_terminated}
use io_monitor.Format.{Tables}
use io_monitor.Record.{MonitorRecord, path_max}
use io_monitor.Influx.{copy_escaped_tag_value, concat, before_s1, tag_text, postdata}
use io_monitor.Influx.Cut.{postdata-cut}
use io_monitor.Influx.Clean.{clean, escaped}
use io_monitor.Influx.Escape.{IsCut, copy_escaped_tag_value_lem}

abbrev path : Bytes
path = codes "a  b=c\\d,e"

cleaned : clean 0 path ≡ codes "a b=cd,e"
unfolding clean
cleaned = refl

escaped_text : c_string (copy_escaped_tag_value 0 path 64) ≡ codes "a\\ b\\=cd\\,e"
unfolding copy_escaped_tag_value c_string
escaped_text = refl

cut_text : c_string (copy_escaped_tag_value 0 path 4) ≡ codes "a\\ "
unfolding copy_escaped_tag_value c_string
cut_text = refl

copy_example :
    (length (copy_escaped_tag_value 0 path 4) ≡ 4)
    × (is_terminated (copy_escaped_tag_value 0 path 4) ≡ true)
    × ((kept : Bytes) × (c_string (copy_escaped_tag_value 0 path 4) ≡ escaped kept)
        × IsCut 4 0 (clean 0 path) kept)
copy_example = copy_escaped_tag_value_lem 0 4 path (omega arith) (All-any (λ c. c == 0) path refl)

-- A record with a path of 950 bytes.
abbrev long_record : MonitorRecord
long_record = record {
  facility = codes "u";
  hostname = codes "host";
  device = codes "sda";
  timestamp = pos 12;
  elapsed_time = 5;
  pid = pos 7;
  dom_type = 0;
  op_type = 0;
  error_code = pos 0;
  fd = pos 4;
  bytes_transferred = 10;
  s1 = replicate 950 b'x';
  s2 = [];
}

abbrev tables : Tables
tables = record {
  domains_names = codes "FILE_READ" ∷ [];
  ops_names = codes "READ" ∷ [];
  print_float = λ digits bits. codes "0.25";
}

long_text :
    leb 1023 (
      length (concat (before_s1 long_record (codes "FILE_READ") (codes "READ")))
      + length (tag_text 0 long_record.s1 path_max))
    ≡ true
unfolding tag_text before_s1 concat c_string
long_text = refl

cut_example :
    postdata 0 0 tables long_record
    ≡ postdata 0 0 tables (record long_record {
      timestamp = pos 99;
      elapsed_time = 7;
      pid = pos 8;
      error_code = negsuc 4;
      fd = pos 5;
      bytes_transferred = 20;
      s2 = codes "z";
    })
cut_example =
    postdata-cut 0 0 0 tables long_record (codes "FILE_READ") (codes "READ") refl refl (pos 99) 7
      (pos 8) (negsuc 4) (pos 5) 20 (codes "z") (leb→le _ _ long_text)
