-- ===== src/Resolver/Fields.antt =====
-- parse_device_fields and capture_device_info of mq_listener/resolver.cpp: what is read from a line that
-- lsblk prints.
use io_monitor.Prelude.{
  ℕ, ◌<◌, true, false, some, List, [], ◌∷◌, ◌++◌, Bytes, codes, All, All-append, cut_at, str_eq,
  take-eq_self, length, ◌==◌, ==-refl, if◌then◌else◌, ◌≡◌, ◌≢◌, refl, ap, ◌∙◌, arith, Bool-cases,
  inl, inr, ltb-true,
}
use io_monitor.CharArray.{c_string, is_terminated, strncpy}
use io_monitor.CharArray.Laws.{IsCString, c_string-strncpy, is_terminated-strncpy}
use io_monitor.Tokens.{words, tokens-eq-words, IsWord, words-cons, words_word}
use io_monitor.Resolver.{
  Resolver, DeviceConfig, fill, first_char, assign, set_field, quoted, read_field, parse_tokens,
  is_space, blank, parse_device_fields, name_of, capture_line,
}

cut_at-append :
    (c : ℕ) (s t : Bytes) → All (λ x. (x == c) ≡ false) s → cut_at c (s ++ (c ∷ t)) ≡ some (s, t)
unfolding cut_at
cut_at-append c [] t h = rw (==-refl c) refl
cut_at-append c (x ∷ s) t h = rw (h.0, cut_at-append c s t h.1) refl

-- `KEY="value"`, with what stands behind it.
abbrev pub field : Bytes → Bytes → Bytes → Bytes
field key value behind = key ++ (b'=' ∷ (b'"' ∷ (value ++ (b'"' ∷ behind))))

-- A key and a value without blanks, the key without `=` and the value without quotes.
pub record IsField (f : Bytes × Bytes) : Type 0 where
  pub key_equal : All (λ c. (c == b'=') ≡ false) f.0
  pub key_blank : All (λ c. is_space c ≡ false) f.0
  pub value_quote : All (λ c. (c == b'"') ≡ false) f.1
  pub value_blank : All (λ c. is_space c ≡ false) f.1

-- What lsblk prints for a device.
abbrev pub line : List (Bytes × Bytes) → Bytes
line [] = []
line (f ∷ []) = field f.0 f.1 (10 ∷ [])
line (f ∷ g ∷ fields) = field f.0 f.1 [] ++ (b' ' ∷ line (g ∷ fields))

quoted-field :
    (f : Bytes × Bytes) (behind : Bytes) → IsField f → quoted (field f.0 f.1 behind) ≡ some f.1
unfolding quoted
quoted-field f behind h =
    rw (cut_at-append b'=' f.0 _ h.key_equal, cut_at-append b'"' f.1 behind h.value_quote) refl

field-IsWord :
    (f : Bytes × Bytes) (behind : Bytes)
    → IsField f
    → All (λ c. is_space c ≡ false) behind
    → IsWord is_space (field f.0 f.1 behind)
field-IsWord f behind h b = (
  not_empty f.0 _ _,
  All-append _ f.0 _ h.key_blank (refl, (refl, All-append _ f.1 _ h.value_blank (refl, b))),
)
  where
    not_empty : (s : Bytes) (c : ℕ) (t : Bytes) → s ++ (c ∷ t) ≢ []
    not_empty [] c t e = cc
    not_empty (x ∷ s) c t e = cc

-- The values one after the other.
abbrev set_all : List (Bytes × Bytes) → ℕ × DeviceConfig → ℕ × DeviceConfig
set_all [] s = s
set_all (f ∷ fields) s = set_all fields (read_field (some f.1) s)

parse_tokens-cons :
    (token : Bytes) (rest : List Bytes) (value : Bytes) (s : ℕ × DeviceConfig)
    → quoted token ≡ some value
    → parse_tokens (token ∷ rest) s ≡ parse_tokens rest (read_field (some value) s)
unfolding parse_tokens
parse_tokens-cons token rest value s e = ap (λ q. parse_tokens rest (read_field q s)) e

parse_tokens-line :
    (fields : List (Bytes × Bytes)) (s : ℕ × DeviceConfig)
    → All IsField fields
    → parse_tokens (words is_space (line fields)) s ≡ set_all fields s
unfolding parse_tokens
parse_tokens-line [] s h = unfold words in refl
parse_tokens-line (f ∷ []) s h =
    ap (λ ts. parse_tokens ts s)
      (words_word is_space (field f.0 f.1 (10 ∷ [])) (field-IsWord f (10 ∷ []) h.0 (refl, tt)))
    ∙ parse_tokens-cons (field f.0 f.1 (10 ∷ [])) [] f.1 s (quoted-field f (10 ∷ []) h.0)
parse_tokens-line (f ∷ g ∷ fields) s h =
    ap (λ ts. parse_tokens ts s)
      (words-cons is_space (field f.0 f.1 []) (line (g ∷ fields)) b' ' (field-IsWord f [] h.0 tt)
        refl)
    ∙ parse_tokens-cons (field f.0 f.1 []) (words is_space (line (g ∷ fields))) f.1 s
        (quoted-field f [] h.0)
    ∙ parse_tokens-line (g ∷ fields) (read_field (some f.1) s) h.1

c_string-terminated : (a t : Bytes) → is_terminated a ≡ true → c_string (a ++ t) ≡ c_string a
unfolding c_string is_terminated
c_string-terminated [] t h = cc
c_string-terminated (c ∷ a) t h = elim (Bool-cases (c == 0)) [
  | inl e ↦ rw e refl
  | inr e ↦ rw (e, c_string-terminated a t (ground (arith, h, e))) refl
]

c_string-copied :
    (size : ℕ) (s t : Bytes) → IsCString s → length s < size → c_string (strncpy size s ++ t) ≡ s
c_string-copied size s t h l =
    c_string-terminated (strncpy size s) t
      (is_terminated-strncpy size s h ∙ ltb-true (length s) size l)
    ∙ c_string-strncpy size s h
    ∙ take-eq_self size s (omega (arith, l))

c_string-fill : (size : ℕ) (s : Bytes) → IsCString s → length s < size → c_string (fill size s) ≡ s
unfolding fill
c_string-fill size s h l = c_string-strncpy size s h ∙ take-eq_self size s (omega (arith, l))

-- The fields of a device, under the keys of lsblk.
pub record Device : Type 0 where
  pub name : Bytes
  pub numbers : Bytes
  pub removable : Bytes
  pub size : Bytes
  pub read_only : Bytes
  pub kind : Bytes
  pub mount_point : Bytes

abbrev pub lsblk_fields : Device → List (Bytes × Bytes)
lsblk_fields d =
    (codes "NAME", d.name)
    ∷ (codes "MAJ:MIN", d.numbers)
    ∷ (codes "RM", d.removable)
    ∷ (codes "SIZE", d.size)
    ∷ (codes "RO", d.read_only)
    ∷ (codes "TYPE", d.kind)
    ∷ (codes "MOUNTPOINT", d.mount_point)
    ∷ []

-- What the device is to the resolver: the one of the root, or that of a mount point.
abbrev pub with_mount : Bytes → Bytes → Resolver → Resolver
with_mount mount_point name r =
    if str_eq mount_point (codes "/")
    then record r { root_fs_dev = name }
    else record r { fs_mount_path_to_dev = assign mount_point name r.fs_mount_path_to_dev }

-- What the fields are read into.
abbrev read_of : Device → DeviceConfig
read_of d = record {
  device_name = fill 40 d.name;
  maj_min = fill 10 d.numbers;
  rm = first_char d.removable;
  device_size = fill 10 d.size;
  ro = first_char d.read_only;
  device_type = fill 40 d.kind;
  mount_point = fill 256 d.mount_point;
}

set_all-lsblk_fields : (d : Device) → set_all (lsblk_fields d) (0, blank) ≡ (7, read_of d)
unfolding read_field set_field
set_all-lsblk_fields d = refl

parse_device_fields-line :
    (d : Device)
    → All IsField (lsblk_fields d)
    → parse_device_fields (line (lsblk_fields d)) ≡ (7, read_of d)
unfolding parse_device_fields
parse_device_fields-line d h =
    ap (λ ts. parse_tokens ts (0, blank)) (tokens-eq-words is_space (line (lsblk_fields d)))
    ∙ parse_tokens-line (lsblk_fields d) (0, blank) h
    ∙ set_all-lsblk_fields d

-- A line that reaches capture_device_info whole makes the device that of its mount point, or the device
-- of the root when that is `/`.
pub capture_line-line :
    (d : Device) (r : Resolver)
    → All IsField (lsblk_fields d)
    → IsCString d.name
    → length d.name < 40
    → IsCString d.mount_point
    → length d.mount_point < 256
    → capture_line (line (lsblk_fields d)) r ≡ with_mount d.mount_point d.name r
unfolding capture_line name_of fill
capture_line-line d r h n ln m lm =
    rw
      (
        parse_device_fields-line d h,
        c_string-copied 40 d.name _ n ln,
        c_string-fill 256 d.mount_point m lm,
      )
      refl
