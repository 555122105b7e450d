-- ===== src/Codec/Reject.antt =====
-- What `merlin_decode` does with offsets that no encoder wrote.
use monitor_merlin.Base.{
  ℕ, zero, suc, ◌+◌, ◌-◌, ◌^◌, ◌≤◌, ◌<◌, ◌≡◌, ◌⊎◌, inl, inr, refl, List, [], ◌∷◌, ltb, Bool-cases,
  arith,
}
use monitor_merlin.Codec.Decode.{overshoots, decode_field, error_bit, decode_fields}

-- A field is null or points into the block of `len` bytes at `ds`, or to its end.
abbrev pub InBlock : ℕ → ℕ → ℕ → Type 0
InBlock ds len ptr = (ptr ≡ 0) ⊎ ((ds ≤ ptr) × (ptr ≤ ds + len))

-- No offset is a negative `off_t`.
abbrev pub Offsets : List ℕ → Type 0
Offsets [] = Unit
Offsets (ptr ∷ fields) = (ptr < 2 ^ 63) × Offsets fields

abbrev pub AllInBlock : ℕ → ℕ → List ℕ → Type 0
AllInBlock ds len [] = Unit
AllInBlock ds len (ptr ∷ fields) = InBlock ds len ptr × AllInBlock ds len fields

field-InBlock :
    (ds len ptr : ℕ) → ptr < 2 ^ 63 → ds + len < 2 ^ 64 → InBlock ds len (decode_field ds len ptr)
unfolding decode_field overshoots
field-InBlock ds len zero h end = inl refl
field-InBlock ds len (suc ptr) h end = elim (Bool-cases (ltb len (suc ptr))) [
  | inl e ↦ inl (ground (arith, h, e))
  | inr e ↦ inr (ground (arith, h, e, end))
]

-- Whatever offsets below `2 ^ 63` a packet brings, after the loop every string field is null or
-- points into the block, its end included.
pub decode_fields-safe :
    (ds len : ℕ) (fields : List ℕ)
    → Offsets fields
    → ds + len < 2 ^ 64
    → AllInBlock ds len (decode_fields ds len fields)
unfolding decode_fields
decode_fields-safe ds len [] h end = tt
decode_fields-safe ds len (ptr ∷ fields) h end =
    (field-InBlock ds len ptr h.0 end, decode_fields-safe ds len fields h.1 end)

-- An offset that is a negative `off_t` passes the test: no error bit is set, and the field then
-- points that far before the block.
pub decode_negative :
    (ds len i back : ℕ)
    → 0 < back
    → back ≤ ds
    → back ≤ 2 ^ 63
    → ds < 2 ^ 64
    → (error_bit len i (2 ^ 64 - back) ≡ 0) × (decode_field ds len (2 ^ 64 - back) ≡ ds - back)
unfolding decode_field error_bit overshoots
decode_negative ds len i back pos le small end = ground (arith, pos, le, small, end)
