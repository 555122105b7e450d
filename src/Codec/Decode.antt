-- ===== src/Codec/Decode.antt =====
-- `merlin_decode`: offsets into a block become addresses again.
use monitor_merlin.Base.{
  ℕ, ◌+◌, ◌-◌, ◌%◌, ◌^◌, Bool, ◌&&◌, Option, none, some, List, [], ◌∷◌, if◌then◌else◌, ltb, ◌==◌,
  take, drop,
}
use monitor_merlin.Codec.{Bytes, Sizes, Layout, layout}

-- `(off_t)ptr > len`: an offset from `2 ^ 63` on is a negative `off_t`.
unfoldable pub overshoots : ℕ → ℕ → Bool
overshoots ptr len = ltb ptr (2 ^ 63) && ltb len ptr

-- One turn of the loop.
unfoldable pub decode_field : ℕ → ℕ → ℕ → ℕ
decode_field ds len ptr =
    if ptr == 0 then 0 else if overshoots ptr len then 0 else (ptr + ds) % 2 ^ 64

-- `1 << i` where a field is refused.
unfoldable pub error_bit : ℕ → ℕ → ℕ → ℕ
error_bit len i ptr = if ptr == 0 then 0 else if overshoots ptr len then 2 ^ i else 0

unfoldable pub decode_fields : ℕ → ℕ → List ℕ → List ℕ
decode_fields ds len [] = []
decode_fields ds len (ptr ∷ fields) = decode_field ds len ptr ∷ decode_fields ds len fields

-- `ret`: no bit is set twice, so that `|` is a sum.
unfoldable pub errors : ℕ → ℕ → List ℕ → ℕ
errors len i [] = 0
errors len i (ptr ∷ fields) = error_bit len i ptr + errors len (i + 1) fields

-- The answer, `none` for -1, and the string fields afterwards, by the row of the type.
unfoldable pub decode_by : ℕ → ℕ → List ℕ → Option Layout → Option ℕ × List ℕ
decode_by ds len fields none = (none, fields)
decode_by ds len fields (some l) =
    (some (errors len 0 (take l.strings fields)), decode_fields ds len (take l.strings fields))

-- `ds` is the block's address, 0 for a null pointer.
unfoldable pub merlin_decode : Sizes → ℕ → ℕ → ℕ → List ℕ → Option ℕ × List ℕ
merlin_decode nagios ds len cb_type fields =
    if ds == 0
    then (none, fields)
    else if len == 0
    then (none, fields)
    else decode_by ds len fields (layout nagios cb_type)

-- The bytes before the first NUL.
unfoldable pub until_nul : Bytes → Bytes
until_nul [] = []
until_nul (b ∷ bytes) = let rest = until_nul bytes in if b == 0 then [] else b ∷ rest

-- The string at an address of a block that lies at `ds`, and whose structure has `base` bytes.
unfoldable pub string_of : ℕ → ℕ → Bytes → ℕ → Bytes
string_of ds base area ptr = until_nul (drop (ptr - ds - base) area)
