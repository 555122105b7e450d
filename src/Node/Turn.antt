-- ===== src/Node/Turn.antt =====
-- What one turn of the loop of `node_send_binlog` does with a valid packet.
use monitor_merlin.Base.{◌+◌, ◌≡◌, refl, true, false, Option, some, [], ◌∷◌, ◌++◌, arith}
use monitor_merlin.Binlog.{Bytes, Status, ok, empty}
use monitor_merlin.Node.Packet.{Valid, stamp, packet_size, packet_size-Valid, is_oversized-Valid}
use monitor_merlin.Node.Backlog.{Backlog}
use monitor_merlin.Node.Send.{
  Net, Link, complete, whole, node_send, turn, again, stop, after_read, after_send, count_sent,
  after_attempt, is_damaged, add64,
}

pub is_damaged-Valid : (e : Bytes) → Valid e → is_damaged e ≡ false
unfolding is_damaged
is_damaged-Valid e v = ground (arith, packet_size-Valid e v, is_oversized-Valid e v, v.whole)

module _ (b : Backlog) (net : Net) where
  open b use {Store}

  pub turn_blocked :
      (l : Link Store) (w : Option Bytes) (s : Store)
      → net.writable l.calls ≡ false
      → turn b net l w s ≡ stop (record l { calls = l.calls + 1 }, ok)
  unfolding turn
  turn_blocked l w s e = rw e refl

  after_read_empty :
      (l : Link Store) (w : Option Bytes) (r : Store × Status × Option Bytes)
      → r.1 ≡ empty
      → after_read b net l w r ≡ stop (record l { binlog = some r.0 }, ok)
  unfolding after_read
  after_read_empty l w (s, st, out) e = rw e refl

  pub turn_empty :
      (l : Link Store) (w : Option Bytes) (s : Store)
      → net.writable l.calls ≡ true
      → (b.read s).1 ≡ empty
      → turn b net l w s ≡ stop (record l { calls = l.calls + 1; binlog = some (b.read s).0 }, ok)
  unfolding turn
  turn_empty l w s e r = rw e (after_read_empty (record l { calls = l.calls + 1 }) w (b.read s) r)

  pub node_send_complete :
      (l : Link Store) (e : Bytes)
      → l.has_sock ≡ true
      → net.attempt l.calls ≡ complete
      → node_send net l e ≡ (
        record l {
          calls = l.calls + 1;
          wire = l.wire ++ stamp net.uuid e ∷ [];
          bytes_sent = add64 l.bytes_sent (packet_size e);
        },
        whole,
        stamp net.uuid e,
      )
  unfolding node_send after_attempt
  node_send_complete l e sock c = rw (sock, c) refl

  -- The node after the packet `e`, read from the backlog, was sent whole.
  abbrev pub passed : Link Store → Store → Bytes → Link Store
  passed l s e =
      count_sent b
        (record l {
          binlog = some s;
          calls = l.calls + 1;
          wire = l.wire ++ stamp net.uuid e ∷ [];
          bytes_sent = add64 l.bytes_sent (packet_size e);
        })
        (stamp net.uuid e)

  after_read_next :
      (l : Link Store) (w : Option Bytes) (e : Bytes) (r : Store × Status × Option Bytes)
      → r.1 ≡ ok
      → r.2 ≡ some e
      → Valid e
      → l.has_sock ≡ true
      → net.attempt l.calls ≡ complete
      → after_read b net l w r ≡ again (passed l r.0 e) r.0
  unfolding after_read after_send
  after_read_next l w e (s, st, out) okay got v sock c =
      rw
        (
          okay,
          got,
          is_damaged-Valid e v,
          node_send_complete (record l { binlog = some s }) e sock c,
        )
        refl

  pub turn_next :
      (l : Link Store) (w : Option Bytes) (e : Bytes) (s : Store)
      → net.writable l.calls ≡ true
      → (b.read s).1 ≡ ok
      → (b.read s).2 ≡ some e
      → Valid e
      → l.has_sock ≡ true
      → net.attempt (l.calls + 1) ≡ complete
      → turn b net l w s
        ≡ again (passed (record l { calls = l.calls + 1 }) (b.read s).0 e) (b.read s).0
  unfolding turn
  turn_next l w e s wr okay got v sock c =
      rw wr (after_read_next (record l { calls = l.calls + 1 }) w e (b.read s) okay got v sock c)
