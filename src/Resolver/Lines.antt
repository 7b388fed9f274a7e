-- ===== src/Resolver/Lines.antt =====
-- capture_device_info of mq_listener/resolver.cpp: what is made of the whole output of lsblk, which fgets
-- reads in pieces.
use io_monitor.Prelude.{
  ℕ, zero, suc, ◌<◌, ◌≤◌, false, some, List, [], ◌∷◌, ◌++◌, Bytes, codes, All, length,
  length-append, append_assoc, ◌==◌, ◌≡◌, refl, ap, sym, ◌∙◌, arith,
}
use io_monitor.CharArray.Laws.{IsCString}
use io_monitor.Resolver.{Resolver, read_pieces, capture_lines, capture_device_info}
use io_monitor.Resolver.Fields.{
  field, IsField, line, Device, lsblk_fields, with_mount, capture_line-line,
}

-- A line without its newline.
abbrev pub text : List (Bytes × Bytes) → Bytes
text [] = []
text (f ∷ []) = field f.0 f.1 []
text (f ∷ g ∷ fields) = field f.0 f.1 [] ++ (b' ' ∷ text (g ∷ fields))

field-behind : (key value behind : Bytes) → field key value behind ≡ field key value [] ++ behind
field-behind key value behind =
    ap (λ t. key ++ (b'=' ∷ (b'"' ∷ t))) (sym (append_assoc value (b'"' ∷ []) behind))
    ∙ sym (append_assoc key (b'=' ∷ (b'"' ∷ (value ++ b'"' ∷ []))) behind)

line-text :
    (f : Bytes × Bytes) (fields : List (Bytes × Bytes))
    → line (f ∷ fields) ≡ text (f ∷ fields) ++ 10 ∷ []
line-text f [] = field-behind f.0 f.1 (10 ∷ [])
line-text f (g ∷ fields) =
    ap (λ t. field f.0 f.1 [] ++ (b' ' ∷ t)) (line-text g fields)
    ∙ sym (append_assoc (field f.0 f.1 []) (b' ' ∷ text (g ∷ fields)) (10 ∷ []))

-- There is no newline in the text.
abbrev pub IsOneLine : Bytes → Type 0
IsOneLine = All (λ c. (c == 10) ≡ false)

-- A line that fits is read as one piece.
read_line :
    (left : ℕ) (s rest : Bytes)
    → IsOneLine s
    → length s ≤ left
    → read_pieces left (s ++ 10 ∷ rest) ≡ (s ++ 10 ∷ []) ∷ read_pieces 253 rest
unfolding read_pieces
read_line zero [] rest h fits = refl
read_line (suc left) [] rest h fits = refl
read_line zero (c ∷ s) rest h fits = absurd (omega arith)
read_line (suc left) (c ∷ s) rest h fits =
    rw (h.0, read_pieces, read_line left s rest h.1 (omega arith)) refl

-- The output of lsblk for some devices.
abbrev pub output_of : List Device → Bytes
output_of [] = []
output_of (d ∷ devices) = line (lsblk_fields d) ++ output_of devices

-- The devices are taken in, one after the other.
abbrev pub with_devices : List Device → Resolver → Resolver
with_devices [] r = r
with_devices (d ∷ devices) r = with_devices devices (with_mount d.mount_point d.name r)

-- The values hold no blanks, no quotes and no newlines, the name and the mount point are shorter than the
-- arrays for them, and the whole line with its newline has at most 254 bytes.
pub record IsRead (d : Device) : Type 0 where
  pub fields : All IsField (lsblk_fields d)
  pub one_line : IsOneLine (text (lsblk_fields d))
  pub name_text : IsCString d.name
  pub name_fits : length d.name < 40
  pub mount_text : IsCString d.mount_point
  pub mount_fits : length d.mount_point < 256
  pub line_fits : length (line (lsblk_fields d)) ≤ 254

read_pieces-line :
    (d : Device) (rest : Bytes)
    → IsRead d
    → read_pieces 253 (line (lsblk_fields d) ++ rest) ≡ line (lsblk_fields d) ∷ read_pieces 253 rest
read_pieces-line d rest h =
    let s = text (lsblk_fields d) in
    let same : line (lsblk_fields d) ≡ s ++ 10 ∷ [] =
      line-text (codes "NAME", d.name)
        ((codes "MAJ:MIN", d.numbers)
          ∷ (codes "RM", d.removable)
          ∷ (codes "SIZE", d.size)
          ∷ (codes "RO", d.read_only)
          ∷ (codes "TYPE", d.kind)
          ∷ (codes "MOUNTPOINT", d.mount_point)
          ∷ []) in
    let fits : length s ≤ 253 =
      omega (arith, h.line_fits, ap length same, length-append s (10 ∷ [])) in
    ap (λ t. read_pieces 253 (t ++ rest)) same
    ∙ (ap (read_pieces 253) (append_assoc s (10 ∷ []) rest)
        ∙ (read_line 253 s rest h.one_line fits ∙ ap (λ t. t ∷ read_pieces 253 rest) (sym same)))

capture_lines-output :
    (devices : List Device) (r : Resolver)
    → All IsRead devices
    → capture_lines (read_pieces 253 (output_of devices)) r ≡ with_devices devices r
unfolding capture_lines read_pieces
capture_lines-output [] r h = refl
capture_lines-output (d ∷ devices) r (one, h) =
    ap (λ ps. capture_lines ps r) (read_pieces-line d (output_of devices) one)
    ∙ (ap (capture_lines (read_pieces 253 (output_of devices))) (
          capture_line-line d r one.fields one.name_text one.name_fits one.mount_text
            one.mount_fits)
        ∙ capture_lines-output devices (with_mount d.mount_point d.name r) h)

-- The output of lsblk for devices whose values hold no blanks, no quotes and no newlines, whose names and mount
-- points are shorter than the arrays for them, and whose lines fit the 254 bytes that fgets reads at
-- once: each device becomes that of its mount point, or the device of the root when that is `/`, one
-- after the other.
pub capture_device_info-output :
    (devices : List Device) (r : Resolver)
    → All IsRead devices
    → capture_device_info (some (output_of devices)) r ≡ with_devices devices r
unfolding capture_device_info
capture_device_info-output = capture_lines-output
