-- ===== src/Module/Routing.antt =====
-- Where the module sends an event of Naemon: `is_dupe` and `send_generic` of module/hooks.c,
-- `net_sendto` of module/net.c, `ipc_send_event` of shared/ipc.c and `daemon_wants` of shared/shared.h.
use monitor_merlin.Base.{
  ℕ, ◌+◌, ◌/◌, ◌%◌, Bool, true, false, not, ◌&&◌, ◌||◌, List, [], ◌∷◌, ◌++◌, length, take, drop,
  ◌==◌, if◌then◌else◌, replicate,
}
use monitor_merlin.Binlog.{Bytes}
use monitor_merlin.Node.Config.{same_bytes}
use monitor_merlin.Node.Packet.{value16, hdr_type, hdr_code, hdr_len, packet_size, stamp}
use monitor_merlin.Node.Send.{mark, add64}
use monitor_merlin.Node.Select.{Selection, Looked, null, outside, here, nodes_by_sel_id}

abbrev pub hdr_selection : Bytes → ℕ
hdr_selection pkt = value16 (drop 14 pkt)

abbrev pub ctrl_packet : ℕ
ctrl_packet = 65535

abbrev pub ctrl_generic : ℕ
ctrl_generic = 0

-- MAGIC_NONET
abbrev pub magic_nonet : ℕ
magic_nonet = 65535

-- `(selection & 0xfff0) == 0xfff0`, for a `uint16_t`
abbrev pub magic_destination : ℕ → Bool
magic_destination selection = selection / 16 == 4095

-- `(selection & dest) == dest`, where `dest` is DEST_MAGIC with one more bit
abbrev pub has_dest : ℕ → ℕ → Bool
has_dest selection bit = magic_destination selection && (selection / bit % 2 == 1)

-- The bits of DEST_POLLERS, DEST_PEERS and DEST_MASTERS
abbrev pub to_pollers : ℕ
to_pollers = 2

abbrev pub to_peers : ℕ
to_peers = 4

abbrev pub to_masters : ℕ
to_masters = 8

-- The numbers that Naemon gives to some of its callbacks.
pub record Callbacks : Type 0 where
  pub notification : ℕ
  pub contact_notification : ℕ
  pub external_command : ℕ
  pub program_status : ℕ
  pub comment : ℕ

unfoldable pub daemon_wants : Callbacks → ℕ → Bool
daemon_wants cb t = not (
    t == cb.notification
    || (t == cb.contact_notification
        || (t == cb.external_command || (t == cb.program_status || t == cb.comment))))

-- What becomes of a packet for the daemon in `node_send_event`: it is sent, it is kept in the
-- backlog, or neither; in the last two cases, whether `node_send` was tried with it before.
pub data Delivery : Type 0 where
  delivered : Delivery
  backlogged lost : Bool → Delivery

-- `node_table` holds the masters, then the peers, then the pollers. `daemon` says what becomes of the `k`-th
-- packet for the daemon, and `sent_at` are the 16 bytes of the time that is written into it.
pub record Site : Type 0 where
  pub callbacks : Callbacks
  pub masters : List ℕ
  pub peers : List ℕ
  pub pollers : List ℕ
  pub selections : List Selection
  pub uuid : Bytes
  pub daemon : ℕ → Delivery
  pub sent_at : ℕ → Bytes

abbrev pub num_nodes : Site → ℕ
num_nodes m = length m.masters + length m.peers + length m.pollers

-- The static variables of hooks.c that count here. `sent` are the calls of `net_sendto`, `told` the
-- packets that the daemon gets, of `calls` that were for it, and `last_pkt` has at least a header.
pub record Sender : Type 0 where
  pub last_pkt : Bytes
  pub check_dupes : Bool
  pub dupes : ℕ
  pub dupe_bytes : ℕ
  pub calls : ℕ
  pub told : List Bytes
  pub sent : List (ℕ × Bytes)

-- The answer 0, the answer -1, or a read outside of the table of selections.
pub data Answer : Type 0 where
  fine minus beyond : Answer

-- The first packet of a run is compared with this one.
abbrev pub blank : Bytes
blank = replicate 128 0

unfoldable pub is_dupe : Sender → Bytes → Bool
is_dupe s pkt =
    if not s.check_dupes
    then false
    else if not (hdr_type s.last_pkt == hdr_type pkt)
    then false
    else if not (packet_size s.last_pkt == packet_size pkt)
    then false
    else same_bytes (take (packet_size pkt) s.last_pkt) (take (packet_size pkt) pkt)

unfoldable pub count_dupe : Sender → Bytes → Sender
count_dupe s pkt = record s {
  dupes = add64 s.dupes 1;
  dupe_bytes = add64 s.dupe_bytes (packet_size pkt);
}

-- `gettimeofday(&pkt->hdr.sent, NULL)`
unfoldable pub set_sent : Bytes → Bytes → Bytes
set_sent time pkt = take 20 pkt ++ (time ++ drop 36 pkt)

-- `node_send` writes the identity, whether it then sends or not.
abbrev pub tried_with : Site → Bool → Bytes → Bytes
tried_with m tried pkt = if tried then stamp m.uuid pkt else pkt

-- `ipc_send_event`, the `k`-th time: the packet as it is left, and whether the answer is 0.
unfoldable pub ipc_send_event : Site → ℕ → Bytes → Bytes × Bool
ipc_send_event m k pkt = elim (m.daemon k) [
  | delivered ↦ (stamp m.uuid (mark (set_sent (m.sent_at k) pkt)), true)
  | backlogged tried ↦ (tried_with m tried (mark (set_sent (m.sent_at k) pkt)), true)
  | lost tried ↦ (tried_with m tried (mark (set_sent (m.sent_at k) pkt)), false)
]

-- The packet is kept to find its duplicates, if it was sent.
unfoldable pub remember : Sender → Bytes × Bool → Sender
remember s (pkt, true) = record s { calls = s.calls + 1; last_pkt = pkt; told = s.told ++ pkt ∷ [] }
remember s (pkt, false) = record s { calls = s.calls + 1; last_pkt = blank }

-- After the packet for the daemon: the packet as it is left, and the answer so far.
unfoldable pub tell_daemon : Site → Sender → Bytes → Sender × Bytes × Bool
tell_daemon m s pkt =
    if daemon_wants m.callbacks (hdr_type pkt)
    then (let out = ipc_send_event m s.calls pkt in (remember s out, out.0, out.1))
    else (s, pkt, true)

-- A loop that calls `net_sendto` for each of these nodes.
unfoldable pub send_to : Sender → List ℕ → Bytes → Sender
send_to s [] pkt = s
send_to s (n ∷ nodes) pkt = send_to (record s { sent = s.sent ++ (n, pkt) ∷ [] }) nodes pkt

unfoldable pub send_if : Bool → Sender → List ℕ → Bytes → Sender
send_if c s nodes pkt = if c then send_to s nodes pkt else s

-- A magic destination.
unfoldable pub send_magic : Site → Sender → Bytes → Sender
send_magic m s pkt =
    send_if (has_dest (hdr_selection pkt) to_pollers)
      (send_if (has_dest (hdr_selection pkt) to_peers)
        (send_if (has_dest (hdr_selection pkt) to_masters) s m.masters pkt) m.peers pkt)
      m.pollers pkt

abbrev pub reply : Bool → Answer
reply c = if c then fine else minus

-- To the pollers of a selection; `ok` is the answer of the daemon.
unfoldable pub send_selected : Sender → Looked (List ℕ) → Bytes → Bool → Sender × Answer
send_selected s null pkt ok = (s, minus)
send_selected s outside pkt ok = (s, beyond)
send_selected s (here nodes) pkt ok = (send_to s nodes pkt, reply ok)

-- A "normal" packet.
unfoldable pub send_normal : Site → Sender → Bytes → Bool → Sender × Answer
send_normal m s pkt ok =
    if hdr_selection pkt == ctrl_generic && hdr_type pkt == ctrl_packet
    then (send_to s (m.masters ++ (m.peers ++ m.pollers)) pkt, fine)
    else if length m.pollers == 0
    then (send_to s (m.masters ++ m.peers) pkt, fine)
    else send_selected (send_to s (m.masters ++ m.peers) pkt)
        (nodes_by_sel_id m.selections (hdr_selection pkt)) pkt ok

-- From the test of `num_nodes` on.
unfoldable pub send_network : Site → Sender × Bytes × Bool → Sender × Answer
send_network m (s, pkt, ok) =
    if num_nodes m == 0
    then (s, fine)
    else if hdr_code pkt == magic_nonet
    then (s, fine)
    else if magic_destination (hdr_selection pkt)
    then (send_magic m s pkt, fine)
    else send_normal m s pkt ok

-- From the test of the length on, for the packet as `merlin_encode_event` leaves it.
unfoldable pub send_encoded : Site → Sender → Bytes → Sender × Answer
send_encoded m s pkt =
    if hdr_len pkt == 0
    then (s, minus)
    else if is_dupe s pkt
    then (count_dupe s pkt, fine)
    else send_network m (tell_daemon m s pkt)

-- `!code`, as an `int`
abbrev pub not_int : ℕ → ℕ
not_int n = if n == 0 then 1 else 0

-- `encode` is `merlin_encode_event` for the data of the event, with the length set.
unfoldable pub send_generic : Site → (Bytes → Bytes) → Sender → Bytes → Sender × Answer
send_generic m encode s pkt =
    if (num_nodes m == 0 || hdr_code pkt == magic_nonet)
      && not (daemon_wants m.callbacks (hdr_type pkt))
    then (s, fine)
    else if not_int (hdr_code pkt) == magic_nonet && not (daemon_wants m.callbacks (hdr_type pkt))
    then (s, fine)
    else send_encoded m s (encode pkt)
