-- ===== src/Codec/Accept.antt =====
-- What `merlin_encode` writes in every case, strings cut short included: offsets that lie in the
-- block, which `merlin_decode` accepts, and a block that ends in the buffer.
use monitor_merlin.Base.{
  ℕ, zero, suc, ◌++◌, ◌^◌, if◌then◌else◌, ◌+◌, ◌-◌, ◌*◌, ◌%◌, ◌≤◌, ◌<◌, ◌≡◌, inl, inr, refl, sym,
  ap, ◌∙◌, false, some, List, [], ◌∷◌, leb, ◌==◌, take, length, length-take, arith, Bool-cases,
  take_self, length-replicate, replicate,
}
use mathlib.Core.Option.{some-injective}
use monitor_merlin.Codec.{Bytes, Sizes, Layout, layout}
use monitor_merlin.Codec.Encode.{Block, encode_strings, align8, encode_by, merlin_encode}
use monitor_merlin.Codec.Decode.{
  overshoots, error_bit, decode_fields, errors, decode_by, merlin_decode,
}

-- Strings whose length an `int` can hold.
abbrev pub Short : (ℕ → Bytes) → Type 0
Short string_at = (sp : ℕ) → length (string_at sp) < 2 ^ 31

-- What the loop of `merlin_encode` does for them.
unfoldable pub encode_short : (ℕ → Bytes) → ℕ → List ℕ → ℕ → Block
encode_short string_at buflen [] offset = record {
  fields = [];
  area = [];
  offset = offset;
  overran = false;
}
encode_short string_at buflen (sp ∷ fields) offset =
    let skipped = encode_short string_at buflen fields offset in
    let str = take (buflen - offset - 1) (string_at sp) in
    let next = encode_short string_at buflen fields (offset + length str + 1) in
    if sp == 0
    then record skipped { fields = 0 ∷ skipped.fields }
    else if leb buflen offset
    then record {
      fields = 0 ∷ replicate (length fields) 0;
      area = [];
      offset = offset;
      overran = false;
    }
    else record next { fields = offset ∷ next.fields; area = str ++ 0 ∷ next.area }

encode_strings-encode_short :
    (string_at : ℕ → Bytes) (buflen : ℕ) (fields : List ℕ) (offset : ℕ)
    → Short string_at
    → encode_strings string_at buflen fields offset ≡ encode_short string_at buflen fields offset
unfolding encode_strings encode_short
encode_strings-encode_short string_at buflen [] offset short = refl
encode_strings-encode_short string_at buflen (sp ∷ fields) offset short =
    rw
      (
        small,
        whole,
        fits,
        encode_strings-encode_short string_at buflen fields offset short,
        encode_strings-encode_short string_at buflen fields
            (offset + length (take (buflen - offset - 1) (string_at sp)) + 1) short,
      )
      refl
  where
    small : length (string_at sp) % 2 ^ 32 ≡ length (string_at sp)
    small = omega (arith, short sp)

    whole : take (length (string_at sp)) (string_at sp) ≡ string_at sp
    whole = take_self (string_at sp)

    fits : leb (2 ^ 31) (length (string_at sp)) ≡ false
    fits = ground (arith, short sp)

module _ (string_at : ℕ → Bytes) (buflen : ℕ) where
  pub length-encode_short :
      (fields : List ℕ) (offset : ℕ)
      → length (encode_short string_at buflen fields offset).fields ≡ length fields
  unfolding encode_short
  length-encode_short [] offset = refl
  length-encode_short (sp ∷ fields) offset =
      let str = take (buflen - offset - 1) (string_at sp) in
      ground (
        arith,
        length-encode_short fields offset,
        length-encode_short fields (offset + length str + 1),
        length-replicate {A = ℕ} (length fields) 0,
      )

  pub offset-le :
      (fields : List ℕ) (offset : ℕ) → offset ≤ (encode_short string_at buflen fields offset).offset
  unfolding encode_short
  offset-le [] offset = omega arith
  offset-le (sp ∷ fields) offset =
      let str = take (buflen - offset - 1) (string_at sp) in
      ground (arith, offset-le fields offset, offset-le fields (offset + length str + 1))

  -- A string that is cut ends at the last byte of the buffer.
  cut :
      (sp offset : ℕ)
      → leb buflen offset ≡ false
      → offset + length (take (buflen - offset - 1) (string_at sp)) + 1 ≤ buflen
  cut sp offset e = ground (arith, e, length-take (buflen - offset - 1) (string_at sp))

  pub encode_short-le :
      (fields : List ℕ) (offset : ℕ)
      → offset ≤ buflen
      → (encode_short string_at buflen fields offset).offset ≤ buflen
  unfolding encode_short
  encode_short-le [] offset h = h
  encode_short-le (sp ∷ fields) offset h = elim (Bool-cases (leb buflen offset)) [
    | inl e ↦ ground (arith, h, e, encode_short-le fields offset h)
    | inr e ↦ ground (
      arith,
      h,
      e,
      encode_short-le fields offset h,
      encode_short-le fields (offset + length (take (buflen - offset - 1) (string_at sp)) + 1)
          (cut sp offset e),
    )
  ]

  errors_none : (len i k : ℕ) → errors len i (replicate k 0) ≡ 0
  unfolding errors error_bit
  errors_none len i zero = refl
  errors_none len i (suc k) = omega (arith, errors_none len (i + 1) k)

  pub errors-encode_short :
      (len i : ℕ) (fields : List ℕ) (offset : ℕ)
      → (encode_short string_at buflen fields offset).offset ≤ len
      → errors len i (encode_short string_at buflen fields offset).fields ≡ 0
  unfolding encode_short errors error_bit overshoots
  errors-encode_short len i [] offset h = refl
  errors-encode_short len i (sp ∷ fields) offset h =
      let str = take (buflen - offset - 1) (string_at sp) in
      ground (
        arith,
        h,
        errors-encode_short len (i + 1) fields offset,
        errors-encode_short len (i + 1) fields (offset + length str + 1),
        offset-le fields (offset + length str + 1),
        errors_none len (i + 1) (length fields),
      )

pub align8-le : (offset : ℕ) → offset ≤ align8 offset
unfolding align8
align8-le offset = ground arith

pub align8-lt : (offset : ℕ) → align8 offset < offset + 8
unfolding align8
align8-lt offset = ground arith

-- The two routines on a structure that has the fields its row says.
pub merlin_encode_known :
    (nagios : Sizes) (string_at : ℕ → Bytes) (fields : List ℕ) (cb_type buflen : ℕ) {l : Layout}
    → layout nagios cb_type ≡ some l
    → length fields ≡ l.strings
    → Short string_at
    → (encode_short string_at buflen fields l.offset).offset + 8 < 2 ^ 32
    → merlin_encode nagios string_at (some fields) cb_type buflen ≡ (
      align8 (encode_short string_at buflen fields l.offset).offset,
      some (encode_short string_at buflen fields l.offset),
    )
unfolding merlin_encode encode_by
merlin_encode_known nagios string_at fields cb_type buflen {l = l} e n short few =
    rw (e, whole, encode_strings-encode_short string_at buflen fields l.offset short, counted) refl
  where
    counted :
        align8 (encode_short string_at buflen fields l.offset).offset % 2 ^ 32
        ≡ align8 (encode_short string_at buflen fields l.offset).offset
    counted = omega (arith, few, align8-lt (encode_short string_at buflen fields l.offset).offset)

    whole : take l.strings fields ≡ fields
    whole = ap (λ k. take k fields) (sym n) ∙ take_self fields

pub merlin_decode_known :
    (nagios : Sizes) (ds len cb_type : ℕ) (fields : List ℕ) {l : Layout}
    → 0 < ds
    → 0 < len
    → layout nagios cb_type ≡ some l
    → length fields ≡ l.strings
    → merlin_decode nagios ds len cb_type fields
      ≡ (some (errors len 0 fields), decode_fields ds len fields)
unfolding merlin_decode decode_by
merlin_decode_known nagios ds len cb_type fields {l = l} hds hlen e n =
    rw (not_null ds hds, not_null len hlen, e, whole) refl
  where
    not_null : (k : ℕ) → 0 < k → (k == 0) ≡ false
    not_null k h = ground (arith, h)

    whole : take l.strings fields ≡ fields
    whole = ap (λ k. take k fields) (sym n) ∙ take_self fields

align8-bound : (offset k : ℕ) → offset ≤ 8 * k → align8 offset ≤ 8 * k
unfolding align8
align8-bound offset k h = ground (arith, h)

align8-whole : (offset : ℕ) → align8 offset % 8 ≡ 0
unfolding align8
align8-whole offset = ground arith

pub overran-encode_short :
    (string_at : ℕ → Bytes) (buflen : ℕ) (fields : List ℕ) (offset : ℕ)
    → (encode_short string_at buflen fields offset).overran ≡ false
unfolding encode_short
overran-encode_short string_at buflen [] offset = refl
overran-encode_short string_at buflen (sp ∷ fields) offset =
    let str = take (buflen - offset - 1) (string_at sp) in
    ground (
      arith,
      overran-encode_short string_at buflen fields offset,
      overran-encode_short string_at buflen fields (offset + length str + 1),
    )

-- For strings that are shorter than `2 ^ 31`, cut or not, and a structure that fits into the buffer,
-- which is shorter than `2 ^ 31` and whose length is a multiple of 8: the length that
-- `merlin_encode` answers is a multiple of 8 and no longer than the buffer, and no string's length is
-- taken for a negative one.
pub merlin_encode-fits :
    (nagios : Sizes) (string_at : ℕ → Bytes) (fields : List ℕ) (cb_type k : ℕ) (l : Layout)
    → layout nagios cb_type ≡ some l
    → length fields ≡ l.strings
    → Short string_at
    → l.offset ≤ 8 * k
    → 8 * k < 2 ^ 31
    → let sent = merlin_encode nagios string_at (some fields) cb_type (8 * k) in
      (block : Block) × (sent.1 ≡ some block)
      × (block.overran ≡ false)
      × (sent.0 % 8 ≡ 0)
      × (sent.0 ≤ 8 * k)
merlin_encode-fits nagios string_at fields cb_type k l e n short h hk =
    let fits = encode_short-le string_at (8 * k) fields l.offset h in
    rw (merlin_encode_known nagios string_at fields cb_type (8 * k) e n short (omega (arith, fits)))
      (
        encode_short string_at (8 * k) fields l.offset,
        refl,
        overran-encode_short string_at (8 * k) fields l.offset,
        align8-whole (encode_short string_at (8 * k) fields l.offset).offset,
        align8-bound (encode_short string_at (8 * k) fields l.offset).offset k fits,
      )

-- `merlin_decode` answers 0 for what `merlin_encode` wrote of strings shorter than `2 ^ 31` and of a
-- structure that has some bytes and fits into the buffer, cut strings and skipped ones included.
pub merlin_decode-accepts :
    (nagios : Sizes) (string_at : ℕ → Bytes) (fields : List ℕ) (cb_type buflen ds : ℕ) (l : Layout)
    → layout nagios cb_type ≡ some l
    → length fields ≡ l.strings
    → Short string_at
    → 0 < l.offset
    → l.offset ≤ buflen
    → buflen < 2 ^ 31
    → 0 < ds
    → (block : Block) → (merlin_encode nagios string_at (some fields) cb_type buflen).1 ≡ some block
    → (merlin_decode nagios ds
        (merlin_encode nagios string_at (some fields) cb_type buflen).0
        cb_type
        block.fields).0
      ≡ some 0
merlin_decode-accepts nagios string_at fields cb_type buflen ds l e n short base fits few hds block
      eb =
    rw (known, ap (λ b. b.fields) is_block)
      (rw
        (merlin_decode_known nagios ds (align8 written.offset) cb_type written.fields hds
          (omega (arith, base, reach, align8-le written.offset)) e
          (length-encode_short string_at buflen fields l.offset ∙ n))
        (ap some (
          errors-encode_short string_at buflen (align8 written.offset) 0 fields l.offset
            (align8-le written.offset))))
  where
    written : Block
    written = encode_short string_at buflen fields l.offset

    known :
        merlin_encode nagios string_at (some fields) cb_type buflen
        ≡ (align8 written.offset, some written)
    known =
        merlin_encode_known nagios string_at fields cb_type buflen e n short
          (omega (arith, encode_short-le string_at buflen fields l.offset fits, few))

    is_block : block ≡ written
    is_block = sym (some-injective written block (sym (ap (λ r. r.1) known) ∙ eb))

    reach : l.offset ≤ written.offset
    reach = offset-le string_at buflen fields l.offset
