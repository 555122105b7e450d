-- ===== src/Codec/RoundTrip.antt =====
-- `merlin_decode` undoes `merlin_encode` when the strings fit, and accepts all that it writes.
use native.Mathlib.Nat.{mod-eq_of_lt}
use monitor_merlin.Base.{
  ℕ, zero, suc, ◌+◌, ◌-◌, ◌^◌, ◌≤◌, ◌<◌, ◌≡◌, ◌≢◌, ◌⊎◌, inl, inr, refl, sym, ap, ◌∙◌, true, false,
  some, List, [], ◌∷◌, ◌++◌, if◌then◌else◌, ltb, leb, ◌==◌, length, arith, take_all, drop-length,
  append_assoc, length-append,
}
use monitor_merlin.Codec.{Bytes, Sizes, Layout, layout}
use monitor_merlin.Codec.Encode.{Block, align8, merlin_encode}
use monitor_merlin.Codec.Accept.{
  Short, encode_short, length-encode_short, errors-encode_short, merlin_encode_known,
  overran-encode_short, merlin_decode_known, align8-le, align8-lt,
}
use monitor_merlin.Codec.Decode.{
  overshoots, decode_field, decode_fields, errors, merlin_decode, until_nul, string_of,
}

-- No byte is a NUL.
abbrev pub NoNul : Bytes → Type 0
NoNul [] = Unit
NoNul (b ∷ bytes) = (b ≢ 0) × NoNul bytes

until_nul-append : (s rest : Bytes) → NoNul s → until_nul (s ++ 0 ∷ rest) ≡ s
unfolding until_nul
until_nul-append [] rest h = refl
until_nul-append (b ∷ s) rest h = ground (arith, h.0, until_nul-append s rest h.1)

-- The bytes that the strings of the fields take, each with its NUL.
unfoldable pub room : (ℕ → Bytes) → List ℕ → ℕ
room string_at [] = 0
room string_at (sp ∷ fields) =
    (if sp == 0 then 0 else length (string_at sp) + 1) + room string_at fields

-- A null field is null again, and any other points to the same string as before.
abbrev pub SameString : (ℕ → Bytes) → ℕ → ℕ → Bytes → ℕ → ℕ → Type 0
SameString string_at ds base area sp ptr =
    ((sp ≡ 0) × (ptr ≡ 0)) ⊎ ((sp ≢ 0) × (ptr ≢ 0) × (string_of ds base area ptr ≡ string_at sp))

abbrev pub Restored : (ℕ → Bytes) → ℕ → ℕ → Bytes → List ℕ → List ℕ → Type 0
Restored string_at ds base area [] [] = Unit
Restored string_at ds base area (sp ∷ olds) (ptr ∷ news) =
    SameString string_at ds base area sp ptr × Restored string_at ds base area olds news
Restored string_at ds base area olds news = ⊥

module _ (string_at : ℕ → Bytes) where
  room_none : room string_at [] ≡ 0
  unfolding room
  room_none = refl

  room_null : (fields : List ℕ) → room string_at (0 ∷ fields) ≡ room string_at fields
  unfolding room
  room_null fields = omega arith

  room_string :
      (sp : ℕ) (fields : List ℕ)
      → room string_at (suc sp ∷ fields) ≡ length (string_at (suc sp)) + 1 + room string_at fields
  unfolding room
  room_string sp fields = ground arith

zero-ne : (n : ℕ) → suc n ≢ 0
zero-ne n = omega arith

module _ (string_at : ℕ → Bytes) (buflen : ℕ) where
  encode_null :
      (fields : List ℕ) (offset : ℕ)
      → encode_short string_at buflen (0 ∷ fields) offset
        ≡ record (encode_short string_at buflen fields offset) {
          fields = 0 ∷ (encode_short string_at buflen fields offset).fields;
        }
  unfolding encode_short
  encode_null fields offset = refl

  -- One string that fits.
  abbrev placed : ℕ → List ℕ → ℕ → Block
  placed sp fields offset =
      let next = encode_short string_at buflen fields (offset + length (string_at sp) + 1) in
      record next { fields = offset ∷ next.fields; area = string_at sp ++ 0 ∷ next.area }

  encode_fits :
      (sp : ℕ) (fields : List ℕ) (offset : ℕ)
      → sp ≢ 0
      → offset + length (string_at sp) + 1 ≤ buflen
      → encode_short string_at buflen (sp ∷ fields) offset ≡ placed sp fields offset
  unfolding encode_short
  encode_fits sp fields offset ne h =
      rw (not_null, below, take_all (buflen - offset - 1) (string_at sp) (omega (arith, h))) refl
    where
      not_null : (sp == 0) ≡ false
      not_null = ground (arith, ne)

      below : leb buflen offset ≡ false
      below = ground (arith, h)

  encode_room :
      (fields : List ℕ) (offset : ℕ)
      → offset + room string_at fields ≤ buflen
      → (encode_short string_at buflen fields offset).offset ≡ offset + room string_at fields
  unfolding encode_short
  encode_room [] offset h = omega (arith, room_none string_at)
  encode_room (zero ∷ fields) offset h = omega (
    arith,
    room_null string_at fields,
    encode_room fields offset (omega (arith, h, room_null string_at fields)),
  )
  encode_room (suc sp ∷ fields) offset h =
      let some_room = room_string string_at sp fields in
      ap (λ b. b.offset)
        (encode_fits (suc sp) fields offset (zero-ne sp) (omega (arith, h, some_room)))
      ∙ omega (
        arith,
        some_room,
        encode_room fields (offset + length (string_at (suc sp)) + 1) (omega (arith, h, some_room)),
      )

  module _ (ds len base : ℕ) (base_pos : 0 < base) (len_lt : len < 2 ^ 63)
      (end_lt : len + ds < 2 ^ 64) where
    decode_in : (ptr : ℕ) → 0 < ptr → ptr ≤ len → decode_field ds len ptr ≡ ptr + ds
    unfolding decode_field overshoots
    decode_in ptr h le =
        rw
          (
            not_null,
            small,
            in_block,
            mod-eq_of_lt {n = ptr + ds} {m = 2 ^ 64} (omega (arith, le, end_lt)),
          )
          refl
      where
        not_null : (ptr == 0) ≡ false
        not_null = ground (arith, h)

        small : ltb ptr (2 ^ 63) ≡ true
        small = ground (arith, le, len_lt)

        in_block : ltb len ptr ≡ false
        in_block = ground (arith, le)

    string_of-append :
        (offset : ℕ) (pre s rest : Bytes)
        → offset ≡ base + length pre
        → NoNul s
        → string_of ds base (pre ++ (s ++ 0 ∷ rest)) (offset + ds) ≡ s
    unfolding string_of
    string_of-append offset pre s rest e h =
        let k : offset + ds - ds - base ≡ length pre = omega (arith, e) in
        rw (k, drop-length pre (s ++ 0 ∷ rest)) (until_nul-append s rest h)

    encode-Restored :
        ((sp : ℕ) → NoNul (string_at sp))
        → (fields : List ℕ) (offset : ℕ) (pre area : Bytes) → offset ≡ base + length pre
        → offset + room string_at fields ≤ buflen
        → offset + room string_at fields ≤ len
        → area ≡ pre ++ (encode_short string_at buflen fields offset).area
        → Restored string_at ds base area fields
            (decode_fields ds len (encode_short string_at buflen fields offset).fields)
    unfolding decode_fields encode_short decode_field
    encode-Restored nul [] offset pre area e fits le ea = tt
    encode-Restored nul (zero ∷ fields) offset pre area e fits le ea = (
      inl (refl, refl),
      encode-Restored nul fields offset pre area e (omega (arith, fits, room_null string_at fields))
          (omega (arith, le, room_null string_at fields)) ea,
    )
    encode-Restored nul (suc sp ∷ fields) offset pre area e fits le ea = rw fitted (
      inr (zero-ne sp, omega (arith, e, base_pos, place), same),
      encode-Restored nul fields (offset + length (string_at (suc sp)) + 1)
          (pre ++ (string_at (suc sp) ++ 0 ∷ [])) area
          (omega (
            arith,
            e,
            length-append pre (string_at (suc sp) ++ 0 ∷ []),
            length-append (string_at (suc sp)) (0 ∷ []),
          ))
          (omega (arith, fits, room_string string_at sp fields))
          (omega (arith, le, room_string string_at sp fields)) (ea' ∙ regroup),
    )
      where
        fitted :
            encode_short string_at buflen (suc sp ∷ fields) offset ≡ placed (suc sp) fields offset
        fitted =
            encode_fits (suc sp) fields offset (zero-ne sp)
              (omega (arith, fits, room_string string_at sp fields))

        place : decode_field ds len offset ≡ offset + ds
        place =
            decode_in offset (omega (arith, e, base_pos))
              (omega (arith, le, room_string string_at sp fields))

        next : Block
        next = encode_short string_at buflen fields (offset + length (string_at (suc sp)) + 1)

        ea' : area ≡ pre ++ (string_at (suc sp) ++ 0 ∷ next.area)
        ea' = ea ∙ ap (λ b. pre ++ b.area) fitted

        regroup :
            pre ++ (string_at (suc sp) ++ 0 ∷ next.area)
            ≡ pre ++ (string_at (suc sp) ++ 0 ∷ []) ++ next.area
        regroup = sym (
            append_assoc pre (string_at (suc sp) ++ 0 ∷ []) next.area
            ∙ ap (λ t. pre ++ t) (append_assoc (string_at (suc sp)) (0 ∷ []) next.area))

        same : string_of ds base area (decode_field ds len offset) ≡ string_at (suc sp)
        same =
            rw (place, ea')
              (string_of-append offset pre (string_at (suc sp)) next.area e (nul (suc sp)))

-- What `merlin_encode` makes of a structure is, for `merlin_decode` of the same length and type at
-- any address, a structure with the same strings: the answer is 0, null fields are null, and every
-- other field points to the bytes of its string. The structure has the fields that its row says and at
-- least one byte, so that the row's offset is not 0; the strings have no NUL inside and fewer than
-- `2 ^ 31` bytes, the buffer has room for all of them and its length and 8 more are below `2 ^ 31`, the
-- block's address is not null, and the block ends 8 bytes below `2 ^ 64`. No string's length is taken for
-- a negative one.
pub decode-encode :
    (nagios : Sizes) (string_at : ℕ → Bytes) (fields : List ℕ) (cb_type buflen ds : ℕ) (l : Layout)
    → layout nagios cb_type ≡ some l
    → length fields ≡ l.strings
    → 0 < l.offset
    → ((sp : ℕ) → NoNul (string_at sp))
    → Short string_at
    → l.offset + room string_at fields ≤ buflen
    → 0 < ds
    → buflen + 8 < 2 ^ 31
    → buflen + 8 + ds < 2 ^ 64
    → let sent = merlin_encode nagios string_at (some fields) cb_type buflen in
      (block : Block) × (sent.1 ≡ some block)
      × (block.overran ≡ false)
      × ((merlin_decode nagios ds sent.0 cb_type block.fields).0 ≡ some 0)
      × Restored string_at ds l.offset block.area fields
          (merlin_decode nagios ds sent.0 cb_type block.fields).1
decode-encode nagios string_at fields cb_type buflen ds l el en base nul short_strings fits hds hb
      he =
    rw known (
      written,
      refl,
      overran-encode_short string_at buflen fields l.offset,
      rw decoded (
          ap some (
            errors-encode_short string_at buflen len 0 fields l.offset (align8-le written.offset))),
      rw decoded (
          encode-Restored string_at buflen ds len l.offset base (omega (arith, short, hb))
            (omega (arith, short, he)) nul fields l.offset [] written.area (omega arith) fits
            (omega (arith, reach, align8-le written.offset)) refl),
    )
  where
    written : Block
    written = encode_short string_at buflen fields l.offset

    len : ℕ
    len = align8 written.offset

    reach : written.offset ≡ l.offset + room string_at fields
    reach = encode_room string_at buflen fields l.offset fits

    known : merlin_encode nagios string_at (some fields) cb_type buflen ≡ (len, some written)
    known =
        merlin_encode_known nagios string_at fields cb_type buflen el en short_strings
          (omega (arith, reach, fits, hb))

    short : len ≤ buflen + 8
    short = omega (arith, align8-lt written.offset, reach, fits)

    decoded :
        merlin_decode nagios ds len cb_type written.fields
        ≡ (some (errors len 0 written.fields), decode_fields ds len written.fields)
    decoded =
        merlin_decode_known nagios ds len cb_type written.fields hds
          (omega (arith, base, reach, align8-le written.offset)) el
          (length-encode_short string_at buflen fields l.offset ∙ en)
