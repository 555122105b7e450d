-- ===== src/Node/Send.antt =====
-- How events are sent to a node or kept for it: `node_send`, `node_disconnect`,
-- `node_binlog_add`, `node_send_binlog` and `node_send_event` of shared/node.c.
use monitor_merlin.Base.{
  ℕ, zero, suc, ◌+◌, ◌-◌, ◌%◌, ◌^◌, true, false, Bool, not, ◌&&◌, ◌||◌, Option, none, some, List,
  [], ◌∷◌, ◌++◌, length, take, drop, ◌==◌, if◌then◌else◌,
}
use mathlib.Core.Option as Option
use monitor_merlin.Binlog.{Bytes, Status, ok, error, enospc}
use monitor_merlin.Node.{NodeState, state_none, is_connected}
use monitor_merlin.Node.Packet.{hdr_type, hdr_code, packet_size, is_oversized, stamp}
use monitor_merlin.Node.Backlog.{Backlog}

-- `unsigned long long` arithmetic
abbrev pub add64 : ℕ → ℕ → ℕ
add64 a b = (a + b) % 2 ^ 64

abbrev pub sub64 : ℕ → ℕ → ℕ
sub64 a b = (a + 2 ^ 64 - b) % 2 ^ 64

-- What `io_send_all` does with a packet: sends all of it, would block, fails, or sends less.
pub data Attempt : Type 0 where
  complete blocked broken partial : Attempt

-- The socket: what the `k`-th call of `io_write_ok` or `io_send_all` answers; and `ipc.uuid`.
pub record Net : Type 0 where
  pub writable : ℕ → Bool
  pub attempt : ℕ → Attempt
  pub uuid : Bytes

-- The fields of a node that count here. `wire` are the packets that the socket has taken whole.
pub record Link (Store : Type 0) : Type 0 where
  pub has_sock : Bool
  pub state : NodeState
  pub binlog : Option Store
  pub events_sent : ℕ
  pub events_logged : ℕ
  pub events_dropped : ℕ
  pub bytes_sent : ℕ
  pub bytes_logged : ℕ
  pub bytes_dropped : ℕ
  pub wire : List Bytes
  pub calls : ℕ

-- The answer of `node_send`: the length, 0, or less.
pub data Sent : Type 0 where
  whole nothing minus : Sent

-- The signature "MRLNEVT\0" and the protocol version, which `node_send_event` writes.
unfoldable pub mark : Bytes → Bytes
mark pkt = (77 ∷ 82 ∷ 76 ∷ 78 ∷ 69 ∷ 86 ∷ 84 ∷ 0 ∷ 3 ∷ 0 ∷ []) ++ drop 10 pkt

-- CTRL_ACTIVE and CTRL_INACTIVE packets are not kept.
unfoldable pub is_transient : Bytes → Bool
is_transient pkt = (hdr_type pkt == 65535) && ((hdr_code pkt == 3) || (hdr_code pkt == 2))

-- The test that a packet from the backlog is the one that was put there.
unfoldable pub is_damaged : Bytes → Bool
is_damaged e =
    not (packet_size e == length e) || (length e == 0) || (packet_size e == 0) || is_oversized e

module _ {Store : Type 0} where
  unfoldable pub disconnect : Link Store → Link Store
  disconnect l = record l { has_sock = false; state = state_none }

  -- After `io_send_all` of a packet of `len` bytes.
  unfoldable pub after_attempt : Link Store → Bytes → ℕ → Attempt → Link Store × Sent
  after_attempt l pkt len complete =
      (record l { wire = l.wire ++ pkt ∷ []; bytes_sent = add64 l.bytes_sent len }, whole)
  after_attempt l pkt len blocked = (disconnect l, nothing)
  after_attempt l pkt len broken = (disconnect l, minus)
  after_attempt l pkt len partial = (disconnect l, minus)

  -- The node, the answer, and the packet, into which `ipc.uuid` was written. Packets are sent as
  -- they are: the node is not encrypted.
  unfoldable pub node_send : Net → Link Store → Bytes → Link Store × Sent × Bytes
  node_send net l pkt =
      if l.has_sock
      then (let done =
            after_attempt (record l { calls = l.calls + 1 }) (stamp net.uuid pkt) (packet_size pkt)
              (net.attempt l.calls) in
          (done.0, done.1, stamp net.uuid pkt))
      else (l, nothing, pkt)

-- Whether the loop of `node_send_binlog` goes on.
pub data Turn (Store : Type 0) : Type 0 where
  again : Link Store → Store → Turn Store
  stop : Link Store × Status → Turn Store

abbrev pub is_ok : Status → Bool
is_ok ok = true
is_ok other = false

module _ (b : Backlog) where
  open b use {Store}

  -- `node_create_binlog`
  unfoldable pub create_binlog : Option Store → Option Store
  create_binlog none = b.create
  create_binlog (some s) = some s

  -- After `binlog_add` of a packet of `size` bytes.
  unfoldable pub added : Link Store → ℕ → Store × Status → Link Store × Status
  added l size (s, enospc) = (record l { binlog = some (b.full_warning s).0 }, ok)
  added l size (s, ok) = (
    record l {
      binlog = some s;
      events_logged = add64 l.events_logged 1;
      bytes_logged = add64 l.bytes_logged size;
    },
    ok,
  )
  added l size (s, ret) = (
    record l {
      binlog = some (b.wipe s);
      events_dropped = add64 l.events_dropped (add64 l.events_logged 1);
      bytes_dropped = add64 l.bytes_dropped (add64 l.bytes_logged size);
      events_logged = 0;
      bytes_logged = 0;
    },
    ret,
  )

  -- `node_binlog_add` of an event that is kept.
  unfoldable pub keep : Link Store → Bytes → Option Store → Link Store × Status
  keep l pkt none = (l, error)
  keep l pkt (some s) = added l (packet_size pkt) (b.add s (take (packet_size pkt) pkt))

  unfoldable pub node_binlog_add : Link Store → Bytes → Link Store × Status
  node_binlog_add l pkt = if is_transient pkt then (l, ok) else keep l pkt (create_binlog l.binlog)

  unfoldable pub binlog_has_entries : Option Store → Bool
  binlog_has_entries none = false
  binlog_has_entries (some s) = not (b.num_entries s == 0)

  -- The packet that waits for the backlog, where there is one.
  unfoldable pub add_waiting : Link Store → Option Bytes → Link Store × Status
  add_waiting l none = (l, ok)
  add_waiting l (some pkt) = node_binlog_add l pkt

  unfoldable pub count_dropped : Link Store → Option Bytes → Link Store
  count_dropped l none = l
  count_dropped l (some pkt) = record l {
    events_dropped = add64 l.events_dropped (add64 l.events_logged 1);
    bytes_dropped = add64 l.bytes_dropped (add64 l.bytes_logged (packet_size pkt));
  }

  -- After `binlog_unread` of a packet that could not be sent.
  unfoldable pub after_unread : Link Store → Option Bytes → Store × Status → Link Store × Status
  after_unread l waiting (s, ok) = add_waiting (record l { binlog = some s }) waiting
  after_unread l waiting (s, ret) =
      (count_dropped (record l { binlog = some (b.wipe s) }) waiting, error)

  -- A packet `e` of the backlog could not be sent. The answer of `node_send` is never BINLOG_EMPTY.
  unfoldable pub put_back : Link Store → Option Bytes → Store → Bytes → Link Store × Status
  put_back l waiting s e =
      after_unread l waiting (b.unread (if b.num_entries s == 0 then b.wipe s else s) e)

  unfoldable pub count_sent : Link Store → Bytes → Link Store
  count_sent l e = record l {
    events_sent = add64 l.events_sent 1;
    events_logged = sub64 l.events_logged 1;
    bytes_logged = sub64 l.bytes_logged (packet_size e);
  }

  -- After `node_send` of the packet `e` of the backlog.
  unfoldable pub after_send : Option Bytes → Store → Link Store × Sent × Bytes → Turn Store
  after_send waiting s (l, whole, e) = again (count_sent l e) s
  after_send waiting s (l, other, e) = stop (put_back l waiting s e)

  -- After `binlog_read`.
  unfoldable pub after_read :
      Net → Link Store → Option Bytes → Store × Status × Option Bytes → Turn Store
  after_read net l waiting (s, ok, some e) =
      if is_damaged e
      then stop (record l { binlog = some (b.wipe s) }, error)
      else after_send waiting s (node_send net (record l { binlog = some s }) e)
  after_read net l waiting (s, ok, none) = stop (record l { binlog = some (b.wipe s) }, error)
  after_read net l waiting (s, ret, out) = stop (record l { binlog = some s }, ok)

  -- One turn of the loop of `node_send_binlog`, over the store `s`.
  unfoldable pub turn : Net → Link Store → Option Bytes → Store → Turn Store
  turn net l waiting s =
      let polled = record l { calls = l.calls + 1 } in
      if net.writable l.calls then after_read net polled waiting (b.read s) else stop (polled, ok)

  -- The loop, with fuel; `none` means that the fuel ran out.
  unfoldable pub send_binlog :
      Net → ℕ → Link Store → Option Bytes → Store → Option (Link Store × Status)
  send_binlog net zero l waiting s = none
  send_binlog net (suc fuel) l waiting s = elim (turn net l waiting s) [
    | again l' s' ↦ send_binlog net fuel l' waiting s'
    | stop done ↦ some done
  ]

  -- `if (binlog_has_entries(node->binlog)) node_send_binlog(node, pkt)`, whose answer is not looked at
  unfoldable pub flush_first : Net → ℕ → Link Store → Bytes → Option Store → Option (Link Store)
  flush_first net fuel l pkt none = some l
  flush_first net fuel l pkt (some s) =
      if b.num_entries s == 0
      then some l
      else Option.map (λ done. done.0) (send_binlog net fuel l (some pkt) s)

  -- After the last `node_send` of `node_send_event`.
  unfoldable pub settle : Link Store × Sent × Bytes → Link Store × Status
  settle (l, whole, pkt) = (record l { events_sent = add64 l.events_sent 1 }, ok)
  settle (l, other, pkt) =
      let kept = node_binlog_add l pkt in (kept.0, if is_ok kept.1 then ok else error)

  -- From the second test of the backlog on.
  unfoldable pub send_or_keep : Net → Bytes → Link Store → Link Store × Status
  send_or_keep net pkt l =
      if binlog_has_entries l.binlog then node_binlog_add l pkt else settle (node_send net l pkt)

  -- The call of `io_write_ok`, where there is one.
  unfoldable pub polled : Bool → Link Store → Link Store
  polled poll l = if poll then record l { calls = l.calls + 1 } else l

  -- `poll` says that `msec` is not negative.
  unfoldable pub send_event : Net → ℕ → Link Store → Bytes → Bool → Option (Link Store × Status)
  send_event net fuel l pkt' poll =
      let pkt = mark pkt' in
      if is_oversized pkt
      then some (l, error)
      else if not l.has_sock || not (is_connected l.state)
      then some (node_binlog_add l pkt)
      else if poll && not (net.writable l.calls)
      then some (node_binlog_add (record l { calls = l.calls + 1 }) pkt)
      else Option.map (send_or_keep net pkt) (flush_first net fuel (polled poll l) pkt l.binlog)
