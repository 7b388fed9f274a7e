-- ===== src/Outputs/Split.antt =====
-- What reading a line of plugins/output_csv.c back gives.
use io_monitor.Prelude.{
  ℕ, suc, ℤ, pos, negsuc, true, false, some, List, [], ◌∷◌, ◌++◌, Bytes, All, get_elem?, ◌==◌,
  if◌then◌else◌, ◌≡◌, refl, arith,
}
use io_monitor.CharArray.{c_string}
use io_monitor.Format.{decimal, decimal_int, Tables}
use io_monitor.Format.Laws.{is_digit, decimal-All}
use io_monitor.Plugin.{plugin_accept_data}
use io_monitor.Record.{MonitorRecord}
use io_monitor.Outputs.Csv.{csv_line, process_data}

onto_first : ℕ → List Bytes → List Bytes
onto_first c [] = (c ∷ []) ∷ []
onto_first c (field ∷ fields) = (c ∷ field) ∷ fields

-- The texts between the commas of a line.
unfoldable pub fields_of : Bytes → List Bytes
unfolding onto_first
fields_of [] = [] ∷ []
fields_of (c ∷ s) = if c == b',' then [] ∷ fields_of s else onto_first c (fields_of s)

abbrev pub HasNoComma : Bytes → Type 0
HasNoComma = All (λ c. (c == b',') ≡ false)

fields_of-last : (s : Bytes) → HasNoComma s → fields_of s ≡ s ∷ []
unfolding fields_of onto_first
fields_of-last [] h = refl
fields_of-last (c ∷ s) h = rw (h.0, fields_of-last s h.1) refl

fields_of-append : (s t : Bytes) → HasNoComma s → fields_of (s ++ (b',' ∷ t)) ≡ s ∷ fields_of t
unfolding fields_of onto_first
fields_of-append [] t h = refl
fields_of-append (c ∷ s) t h = rw (h.0, fields_of-append s t h.1) refl

digits-HasNoComma : (s : Bytes) → All (λ c. is_digit c ≡ true) s → HasNoComma s
digits-HasNoComma [] h = tt
digits-HasNoComma (c ∷ s) h = (ground (arith, h), digits-HasNoComma s h.1)

decimal-HasNoComma : (n : ℕ) → HasNoComma (decimal n)
decimal-HasNoComma n = digits-HasNoComma (decimal n) (decimal-All n)

decimal_int-HasNoComma : (z : ℤ) → HasNoComma (decimal_int z)
unfolding decimal_int
decimal_int-HasNoComma (pos n) = decimal-HasNoComma n
decimal_int-HasNoComma (negsuc n) = (refl, decimal-HasNoComma (suc n))

-- The fields that the header of the plugin's output would name, as printed.
abbrev pub csv_fields : Tables → MonitorRecord → Bytes → Bytes → List Bytes
csv_fields tables rec domain op =
    c_string rec.facility
    ∷ c_string rec.device
    ∷ decimal_int rec.timestamp
    ∷ tables.print_float 6 rec.elapsed_time
    ∷ decimal_int rec.pid
    ∷ domain
    ∷ op
    ∷ decimal_int rec.error_code
    ∷ decimal_int rec.fd
    ∷ decimal rec.bytes_transferred
    ∷ c_string rec.s1
    ∷ c_string rec.s2
    ∷ []

-- The texts of a record hold no comma.
pub record IsPlain (tables : Tables) (rec : MonitorRecord) (domain op : Bytes) : Type 0 where
  pub facility : HasNoComma (c_string rec.facility)
  pub device : HasNoComma (c_string rec.device)
  pub elapsed : HasNoComma (tables.print_float 6 rec.elapsed_time)
  pub domain_name : HasNoComma domain
  pub op_name : HasNoComma op
  pub s1_text : HasNoComma (c_string rec.s1)
  pub s2_text : HasNoComma (c_string rec.s2)

pub fields_of-csv_line :
    (tables : Tables) (rec : MonitorRecord) (domain op : Bytes)
    → IsPlain tables rec domain op
    → fields_of (csv_line tables rec domain op) ≡ csv_fields tables rec domain op
unfolding csv_line
fields_of-csv_line tables rec domain op plain =
    rw
      (
        fields_of-append (c_string rec.facility) _ plain.facility,
        fields_of-append (c_string rec.device) _ plain.device,
        fields_of-append (decimal_int rec.timestamp) _ (decimal_int-HasNoComma rec.timestamp),
        fields_of-append (tables.print_float 6 rec.elapsed_time) _ plain.elapsed,
        fields_of-append (decimal_int rec.pid) _ (decimal_int-HasNoComma rec.pid),
        fields_of-append domain _ plain.domain_name,
        fields_of-append op _ plain.op_name,
        fields_of-append (decimal_int rec.error_code) _ (decimal_int-HasNoComma rec.error_code),
        fields_of-append (decimal_int rec.fd) _ (decimal_int-HasNoComma rec.fd),
        fields_of-append (decimal rec.bytes_transferred) _
            (decimal-HasNoComma rec.bytes_transferred),
        fields_of-append (c_string rec.s1) _ plain.s1_text,
        fields_of-last (c_string rec.s2) plain.s2_text,
      )
      refl

-- A record with a domain and an operation of the tables, whose texts hold no comma, is accepted, and
-- the line that is printed for it splits at its commas into the twelve fields.
fields_of-process_data :
    (tables : Tables) (rec : MonitorRecord) (domain op : Bytes)
    → get_elem? tables.domains_names rec.dom_type ≡ some domain
    → get_elem? tables.ops_names rec.op_type ≡ some op
    → IsPlain tables rec domain op
    → (line : Bytes) × (process_data tables rec ≡ some (line, plugin_accept_data))
      × (fields_of line ≡ csv_fields tables rec domain op)
unfolding process_data
fields_of-process_data tables rec domain op d o plain =
    (csv_line tables rec domain op, rw (d, o) refl, fields_of-csv_line tables rec domain op plain)
