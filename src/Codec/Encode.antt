-- ===== src/Codec/Encode.antt =====
-- `merlin_encode`: one block of memory from a structure and the strings that it points to.
use monitor_merlin.Base.{
  ℕ, ◌+◌, ◌-◌, ◌%◌, ◌^◌, Bool, true, false, Option, none, some, List, [], ◌∷◌, ◌++◌, if◌then◌else◌,
  leb, ◌==◌, length, take, replicate,
}
use monitor_merlin.Codec.{Bytes, Sizes, Layout, layout}

-- What the encoder has written: the structure's string fields, the bytes from the structure's end
-- on, and where it would write next. `overran` says that a memcpy(3) got a negative `int` as its size,
-- which ends the run.
pub record Block : Type 0 where
  pub fields : List ℕ
  pub area : Bytes
  pub offset : ℕ
  pub overran : Bool

-- The loop over the string fields. `string_at` is the string at an address, without its NUL, and `len`
-- its length as an `int`, by its 32 bits. A negative one passes the test of what remains. `buflen`
-- is not negative; a negative one stops the loop where 0 does.
unfoldable pub encode_strings : (ℕ → Bytes) → ℕ → List ℕ → ℕ → Block
encode_strings string_at buflen [] offset = record {
  fields = [];
  area = [];
  offset = offset;
  overran = false;
}
encode_strings string_at buflen (sp ∷ fields) offset =
    let skipped = encode_strings string_at buflen fields offset in
    let len = length (string_at sp) % 2 ^ 32 in
    let str = take (buflen - offset - 1) (take len (string_at sp)) in
    let next = encode_strings string_at buflen fields (offset + length str + 1) in
    if sp == 0
    then record skipped { fields = 0 ∷ skipped.fields }
    else if leb buflen offset
    then record {
      fields = 0 ∷ replicate (length fields) 0;
      area = [];
      offset = offset;
      overran = false;
    }
    else if leb (2 ^ 31) len
    then record { fields = sp ∷ fields; area = []; offset = offset; overran = true }
    else record next { fields = offset ∷ next.fields; area = str ++ 0 ∷ next.area }

-- `if (offset % 8) offset += 8 - offset % 8`
unfoldable pub align8 : ℕ → ℕ
align8 offset = if offset % 8 == 0 then offset else offset + (8 - offset % 8)

-- The answer, an `int` by its 32 bits, and the block it is the length of, by the row of the type.
unfoldable pub encode_by : (ℕ → Bytes) → List ℕ → ℕ → Option Layout → ℕ × Option Block
encode_by string_at fields buflen none = (0, none)
encode_by string_at fields buflen (some l) =
    let block = encode_strings string_at buflen (take l.strings fields) l.offset in
    (align8 block.offset % 2 ^ 32, some block)

-- `data` is `none` for a null pointer, otherwise the structure's string fields.
unfoldable pub merlin_encode : Sizes → (ℕ → Bytes) → Option (List ℕ) → ℕ → ℕ → ℕ × Option Block
merlin_encode nagios string_at none cb_type buflen = (0, none)
merlin_encode nagios string_at (some fields) cb_type buflen =
    encode_by string_at fields buflen (layout nagios cb_type)
