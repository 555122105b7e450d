-- ===== src/Node/Packet.antt =====
-- `struct merlin_header` and `struct merlin_event` of shared/node.h, as bytes.
use monitor_merlin.Base.{
  ℕ, ◌+◌, ◌*◌, ◌%◌, ◌^◌, ◌≤◌, ◌≡◌, refl, sym, ap, ◌∙◌, Bool, ◌&&◌, [], ◌∷◌, ◌++◌, arith, length,
  take, drop, ltb, length-append, length-take, length-drop, drop-append_le, take-drop, false,
}
use monitor_merlin.Binlog.{Bytes, u32, value32}

abbrev pub hdr_size : ℕ
hdr_size = 128

-- sizeof(struct merlin_event): a header and a body of 128 KiB
abbrev pub max_pkt_size : ℕ
max_pkt_size = hdr_size + 131072

-- A `uint16_t` at the start of the bytes.
unfoldable pub value16 : Bytes → ℕ
value16 (a ∷ b ∷ rest) = a + 256 * b
value16 other = 0

abbrev pub hdr_type : Bytes → ℕ
hdr_type pkt = value16 (drop 10 pkt)

abbrev pub hdr_code : Bytes → ℕ
hdr_code pkt = value16 (drop 12 pkt)

abbrev pub hdr_len : Bytes → ℕ
hdr_len pkt = value32 (drop 16 pkt)

-- `packet_size`, an `int` by its 32 bits
abbrev pub packet_size : Bytes → ℕ
packet_size pkt = (hdr_len pkt + hdr_size) % u32

-- `packet_size(pkt) > MAX_PKT_SIZE`, as a comparison of `int`s
abbrev pub is_oversized : Bytes → Bool
is_oversized pkt = ltb (packet_size pkt) (2 ^ 31) && ltb max_pkt_size (packet_size pkt)

-- `strcpy(pkt->hdr.from_uuid, uuid)`, the NUL of `uuid` included.
unfoldable pub stamp : Bytes → Bytes → Bytes
stamp uuid pkt = take 76 pkt ++ (uuid ++ drop (76 + length uuid) pkt)

-- A packet whose header says how long it is, within the limits.
pub record Valid (pkt : Bytes) : Type 0 where
  pub len_le : hdr_len pkt ≤ 131072
  pub whole : length pkt ≡ hdr_len pkt + hdr_size

value32-append : (a x : Bytes) → 4 ≤ length a → value32 (a ++ x) ≡ value32 a
unfolding value32
value32-append (a ∷ b ∷ c ∷ d ∷ r) x h = refl
value32-append (a ∷ b ∷ c ∷ []) x h = absurd (omega arith)
value32-append (a ∷ b ∷ []) x h = absurd (omega arith)
value32-append (a ∷ []) x h = absurd (omega arith)
value32-append [] x h = absurd (omega arith)

-- The length of a packet stands in the bytes before its `from_uuid`.
pub hdr_len-append : (a x : Bytes) → 76 ≤ length a → hdr_len (a ++ x) ≡ hdr_len a
hdr_len-append a x h =
    ap value32 (drop-append_le 16 a x (omega arith))
    ∙ value32-append (drop 16 a) x (omega (arith, length-drop 16 a))

hdr_len-take : (pkt : Bytes) → 76 ≤ length pkt → hdr_len (take 76 pkt) ≡ hdr_len pkt
hdr_len-take pkt h =
    sym (hdr_len-append (take 76 pkt) (drop 76 pkt) (omega (arith, length-take 76 pkt)))
    ∙ ap hdr_len (take-drop 76 pkt)

-- Writing the identity of the sender changes neither the length of the packet nor what its header says
-- of it; the identity fits into its field.
pub stamp-Valid :
    (uuid pkt : Bytes)
    → length uuid ≤ 37
    → Valid pkt
    → (hdr_len (stamp uuid pkt) ≡ hdr_len pkt) × Valid (stamp uuid pkt)
unfolding stamp
stamp-Valid uuid pkt h v = (
  same,
  record { len_le = omega (arith, same, v.len_le); whole = omega (arith, same, v.whole, long) },
)
  where
    rest : Bytes
    rest = uuid ++ drop (76 + length uuid) pkt

    same : hdr_len (take 76 pkt ++ rest) ≡ hdr_len pkt
    same =
        hdr_len-append (take 76 pkt) rest (omega (arith, length-take 76 pkt, v.whole))
        ∙ hdr_len-take pkt (omega (arith, v.whole))

    long : length (take 76 pkt ++ rest) ≡ length pkt
    long = omega (
      arith,
      length-append (take 76 pkt) rest,
      length-append uuid (drop (76 + length uuid) pkt),
      length-take 76 pkt,
      length-drop (76 + length uuid) pkt,
      v.whole,
    )

-- The size of a valid packet does not wrap around.
pub packet_size-Valid : (pkt : Bytes) → Valid pkt → packet_size pkt ≡ length pkt
packet_size-Valid pkt v = omega (arith, v.len_le, v.whole)

pub is_oversized-Valid : (pkt : Bytes) → Valid pkt → is_oversized pkt ≡ false
is_oversized-Valid pkt v = ground (arith, v.len_le, v.whole)
