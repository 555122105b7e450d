-- ===== src/Codec.antt =====
-- The data of shared/codec.c: which strings the events of each callback type carry.
pub mod Encode
pub mod Decode
pub mod Accept
pub mod RoundTrip
pub mod Reject
pub mod Tests
use monitor_merlin.Base.{
  ℕ, Option, none, some, List, [], ◌∷◌, if◌then◌else◌, ◌==◌, leb, get_or, length,
}

abbrev pub Bytes : Type 0
Bytes = List ℕ

-- What Nagios's headers say: the number of callback types, which is the table's length, and what
-- `sizeof` answers for the structure of a callback type.
pub record Sizes : Type 0 where
  pub numitems : ℕ
  pub sizeof : ℕ → ℕ

-- One row of `hook_info`: `offset` and `strings`. The strings' own offsets `ptrs` are not numbers
-- here: a structure's string fields are a list, in the order of `ptrs`.
pub record Layout : Type 0 where
  pub offset : ℕ
  pub strings : ℕ

-- The column `strings` of `hook_info`, by callback type.
abbrev pub hook_strings : List ℕ
hook_strings =
    0 ∷ 0 ∷ 1 ∷ 2 ∷ 4 ∷ 5 ∷ 5 ∷ 4 ∷ 4 ∷ 4 ∷ 2 ∷ 2 ∷ 4 ∷ 5 ∷ 0 ∷ 0 ∷ 0 ∷ 2 ∷ 0 ∷ 0 ∷ 6 ∷ 7 ∷ 4 ∷ 3
    ∷ 0 ∷ 0 ∷ []

-- The rows whose column `offset` is written as 0.
unfoldable pub no_data : ℕ → ℕ → ℕ
no_data cb_type size =
    if leb 14 cb_type
    then (if leb cb_type 16
        then 0
        else if leb 18 cb_type
        then (if leb cb_type 19 then 0 else if leb 24 cb_type then 0 else size)
        else size)
    else size

unfoldable pub hook_info : Sizes → ℕ → Layout
hook_info nagios cb_type = record {
  offset = no_data cb_type (nagios.sizeof cb_type);
  strings = get_or hook_strings cb_type 0;
}

-- `RUNCMD_PACKET`
abbrev pub runcmd_packet : ℕ
runcmd_packet = 65532

-- `struct merlin_runcmd`: packed, an `int` and its one string
abbrev pub runcmd_layout : Layout
runcmd_layout = record { offset = 12; strings = 1 }

-- The row for a callback type, `none` where both routines refuse it. A negative type is its
-- 32-bit two's complement, which no table reaches.
unfoldable pub layout : Sizes → ℕ → Option Layout
layout nagios cb_type =
    if cb_type == runcmd_packet
    then some runcmd_layout
    else if leb nagios.numitems cb_type
    then none
    else some (hook_info nagios cb_type)
