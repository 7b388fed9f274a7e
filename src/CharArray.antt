-- ===== src/CharArray.antt =====
-- The `char` arrays of include/monitor_record.h and the calls that fill them. An array is the list of
-- its bytes, of the array's length; the C string in it ends before the first NUL.
pub mod Laws
use io_monitor.Prelude.{
  ℕ, zero, suc, ◌-◌, Bool, true, false, ◌||◌, List, [], ◌∷◌, ◌++◌, Bytes, length, take, replicate,
  ◌==◌, if◌then◌else◌,
}

-- What `%s`, strcmp or strlen read of an array.
unfoldable pub c_string : Bytes → Bytes
c_string [] = []
c_string (c ∷ a) = if c == 0 then [] else c ∷ c_string a

-- There is a NUL in the array, so that reading it as a string stays inside.
unfoldable pub is_terminated : Bytes → Bool
is_terminated [] = false
is_terminated (c ∷ a) = c == 0 || is_terminated a

-- `memset(a, 0, size)`
unfoldable pub zeros : ℕ → Bytes
zeros size = replicate size 0

-- `strncpy(a, s, size)` into an array of `size` bytes: NULs behind a short text, none behind a long one.
unfoldable pub strncpy : ℕ → Bytes → Bytes
strncpy zero s = []
strncpy (suc size) [] = 0 ∷ strncpy size []
strncpy (suc size) (c ∷ s) = c ∷ strncpy size s

-- `a[size - 1] = 0`
unfoldable pub terminate : Bytes → Bytes
terminate [] = []
terminate (c ∷ []) = 0 ∷ []
terminate (c ∷ d ∷ a) = c ∷ terminate (d ∷ a)
