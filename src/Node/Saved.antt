-- ===== src/Node/Saved.antt =====
-- The backlog that an earlier run has saved is read: `node_binlog_read_saved` of shared/node.c.
use monitor_merlin.Base.{
  ℕ, zero, suc, Bool, not, ◌&&◌, Option, none, some, ◌==◌, if◌then◌else◌, true, length,
}
use monitor_merlin.Binlog.{Bytes, Status, ok, error, fault, Binlog, Os}
use monitor_merlin.Binlog.Log.{add, read}
use monitor_merlin.Binlog.Flush.{destroy}
use monitor_merlin.Binlog.Save.{Dir, absent, Files, get_saved}
use monitor_merlin.Node.Packet.{packet_size, is_oversized}

-- `node->binlog`; `freed` points at a backlog that is destroyed.
pub data Pointer : Type 0 where
  null freed : Pointer
  to : Binlog → Pointer

-- the test of what `binlog_read` gives
abbrev pub is_packet : Bytes → Bool
is_packet pkt =
    (packet_size pkt == length pkt)
    && not (length pkt == 0)
    && not (packet_size pkt == 0)
    && not (is_oversized pkt)

-- What a round of the loop comes to: its end, a bad packet, or the next round. The backlogs are
-- the saved one and that of the node.
pub data Round : Type 0 where
  end bad : Binlog → Round
  next : Binlog → Binlog → Round

-- The packet is added, whatever `binlog_add` answers.
unfoldable pub saved_round : Os → Binlog → Binlog × Status × Option Bytes → Round
saved_round os bl (saved, ok, some pkt) =
    if is_packet pkt then next saved (add os bl pkt).0 else bad saved
saved_round os bl (saved, ok, none) = bad saved
saved_round os bl (saved, ret, out) = end saved

-- The loop and what follows it; `none` where the fuel runs out.
unfoldable pub read_all : ℕ → Os → Binlog → Binlog → Option (Pointer × Dir × Status)
unfolding saved_round
read_all zero os saved bl = none
read_all (suc n) os saved bl = elim (saved_round os bl (read os saved)) [
  | end s ↦ some (to bl, record { meta = absent; saved = destroy os s true }, ok)
  | bad s ↦ some (freed, record { meta = absent; saved = s.disk }, error)
  | next s bl' ↦ read_all n os s bl'
]

unfoldable pub read_found : ℕ → Os → Binlog → Option Binlog × Dir → Option (Pointer × Dir × Status)
unfolding read_all
read_found n os bl (none, d) = some (to bl, d, ok)
read_found n os bl (some saved, d) = read_all n os saved bl

-- `node_create_binlog`, where `made` is what `binlog_create` answers
abbrev pub create_binlog : Option Binlog → Pointer → Pointer
create_binlog none null = null
create_binlog (some bl) null = to bl
create_binlog made p = p

unfoldable pub read_saved :
    ℕ
    → Os
    → Files
    → Bool
    → Option Binlog
    → Option Bytes
    → Pointer
    → Dir
    → Option (Pointer × Dir × Status)
unfolding read_found
read_saved n os files persist made name node d =
    if persist
    then elim (create_binlog made node) [
      | null ↦ some (null, d, error)
      | freed ↦ some (freed, d, fault)
      | to bl ↦ read_found n os bl (get_saved os files name d)
    ]
    else some (node, d, ok)
