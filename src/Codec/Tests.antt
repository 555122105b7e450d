-- ===== src/Codec/Tests.antt =====
-- Runs of the codec, and its theorems at a concrete event.
use monitor_merlin.Base.{
  false, ℕ, zero, suc, ◌+◌, ◌%◌, ◌≤◌, ◌≡◌, refl, none, some, List, [], ◌∷◌, arith,
}
use monitor_merlin.Codec.{Bytes, Sizes, Layout, layout, hook_info, no_data}
use monitor_merlin.Codec.Encode.{Block, encode_strings, align8, encode_by, merlin_encode}
use monitor_merlin.Codec.Decode.{
  merlin_decode, decode_by, decode_fields, decode_field, error_bit, errors, overshoots,
}
use monitor_merlin.Codec.Accept.{Short, merlin_encode-fits}
use monitor_merlin.Codec.RoundTrip.{NoNul, Restored, decode-encode, room}
use monitor_merlin.Codec.Reject.{AllInBlock, decode_fields-safe}

abbrev nagios : Sizes
nagios = record { numitems = 26; sizeof = λ t. 24 }

-- "hi" at address 1, the empty string at any other.
abbrev strings : ℕ → Bytes
strings (suc zero) = 104 ∷ 105 ∷ []
strings other = []

NoNul-strings : (sp : ℕ) → NoNul (strings sp)
NoNul-strings zero = tt
NoNul-strings (suc zero) = omega arith
NoNul-strings (suc (suc sp)) = tt

Short-strings : Short strings
Short-strings zero = omega arith
Short-strings (suc zero) = omega arith
Short-strings (suc (suc sp)) = omega arith

-- The string fields of a downtime.
abbrev downtime : List ℕ
downtime = 1 ∷ 0 ∷ 7 ∷ 1 ∷ []

abbrev row : Layout
row = record { offset = 24; strings = 4 }

abbrev sent : Block
sent = record {
  fields = 24 ∷ 0 ∷ 27 ∷ 28 ∷ [];
  area = 104 ∷ 105 ∷ 0 ∷ 0 ∷ 104 ∷ 105 ∷ 0 ∷ [];
  offset = 31;
  overran = false;
}

layout-downtime : layout nagios 9 ≡ some row
unfolding layout hook_info no_data
layout-downtime = refl

encodes : merlin_encode nagios strings (some downtime) 9 64 ≡ (32, some sent)
unfolding merlin_encode encode_by encode_strings layout hook_info no_data align8
encodes = refl

-- The second string is cut to the one byte that is left, and the third has no room.
encodes_short : merlin_encode nagios strings (some downtime) 9 27 ≡ (
  32,
  some (record {
    fields = 24 ∷ 0 ∷ 0 ∷ 0 ∷ [];
    area = 104 ∷ 105 ∷ 0 ∷ [];
    offset = 27;
    overran = false;
  }),
)
unfolding merlin_encode encode_by encode_strings layout hook_info no_data align8
encodes_short = refl

refuses_type : merlin_encode nagios strings (some downtime) 26 64 ≡ (0, none)
unfolding merlin_encode encode_by layout
refuses_type = refl

decodes : merlin_decode nagios 4096 32 9 sent.fields ≡ (some 0, 4120 ∷ 0 ∷ 4123 ∷ 4124 ∷ [])
unfolding merlin_decode decode_by decode_fields decode_field errors error_bit overshoots layout
    hook_info no_data
decodes = refl

room-downtime : 24 + room strings downtime ≤ 64
unfolding room
room-downtime = omega arith

decode-encode_example :
    (block : Block) × ((merlin_encode nagios strings (some downtime) 9 64).1 ≡ some block)
    × (block.overran ≡ false)
    × ((merlin_decode nagios 4096
          (merlin_encode nagios strings (some downtime) 9 64).0
          9
          block.fields).0
        ≡ some 0)
    × Restored strings 4096 24 block.area downtime
        (merlin_decode nagios 4096
          (merlin_encode nagios strings (some downtime) 9 64).0
          9
          block.fields).1
decode-encode_example =
    decode-encode nagios strings downtime 9 64 4096 row layout-downtime refl (omega arith)
      NoNul-strings Short-strings room-downtime (omega arith) (omega arith) (omega arith)

merlin_encode-fits_example :
    let sent = merlin_encode nagios strings (some downtime) 9 32 in
    (block : Block) × (sent.1 ≡ some block)
    × (block.overran ≡ false)
    × (sent.0 % 8 ≡ 0)
    × (sent.0 ≤ 32)
merlin_encode-fits_example =
    merlin_encode-fits nagios strings downtime 9 4 row layout-downtime refl Short-strings
      (omega arith) (omega arith)

decode_fields-safe_example : AllInBlock 4096 32 (decode_fields 4096 32 (24 ∷ 0 ∷ 32 ∷ 33 ∷ []))
decode_fields-safe_example =
    decode_fields-safe 4096 32 (24 ∷ 0 ∷ 32 ∷ 33 ∷ []) (omega arith) (omega arith)
