-- ===== src/Influx/Unescape.antt =====
-- copy_escaped_tag_value of plugins/output_influxdb.c: what is read back of the escaped text.
use io_monitor.Prelude.{false, [], ◌∷◌, Bytes, All, ◌==◌, if◌then◌else◌, ◌≡◌}

-- The reader of the line protocol drops each backslash and takes the byte behind it.
unfoldable pub unescape : Bytes → Bytes
unescape [] = []
unescape (c ∷ []) = if c == b'\\' then [] else c ∷ []
unescape (c ∷ d ∷ s) = if c == b'\\' then d ∷ unescape s else c ∷ unescape (d ∷ s)

abbrev HasNoBackslash : Bytes → Type 0
HasNoBackslash = All (λ c. (c == b'\\') ≡ false)
