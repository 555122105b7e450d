-- ===== src/Node/EndToEnd.antt =====
-- From one node to another: what `node_send_event` puts on the wire, `net_input` of the other side hands
-- to `handle_event`.
use monitor_merlin.Base.{
  ℕ, ◌+◌, ◌≤◌, ◌<◌, ◌≡◌, sym, ap, ◌∙◌, inl, true, false, Bool, some, List, [], ◌∷◌, ◌++◌, map,
  arith, length, length-append, length-map,
}
use monitor_merlin.Binlog.{Bytes, ok, u32}
use monitor_merlin.Node.{is_connected}
use monitor_merlin.Node.Packet.{Valid, stamp}
use monitor_merlin.Node.Backlog.{Backlog, Laws, limit}
use monitor_merlin.Node.Send.{Net, Link, mark, is_transient, send_event}
use monitor_merlin.Node.Deliver.{Sends, Open, AllValid}
use monitor_merlin.Node.Event.{mark-Valid}
use monitor_merlin.Node.Order.{send_event-delivers}
use monitor_merlin.Node.Receive.{BufferQueue, QueueLaws, Intake}
use monitor_merlin.Node.Framing.{
  Framed, AllFramed, Framed-mark, AllFramed-stamp, stream, stream-append,
}
use monitor_merlin.Node.Arrive.{deliver}
use monitor_merlin.Node.Arrivals.{Piece, joined, inputs, Arrive, inputs-Arrive}

AllValid-framed : (q : List Bytes) → AllFramed q → AllValid q
AllValid-framed [] f = tt
AllValid-framed (e ∷ q) (f, fs) = (f.valid, AllValid-framed q fs)

AllFramed-snoc : (q : List Bytes) (e : Bytes) → AllFramed q → Framed e → AllFramed (q ++ e ∷ [])
AllFramed-snoc [] e fs f = (f, tt)
AllFramed-snoc (e' ∷ q) e (f', fs) f = (f', AllFramed-snoc q e fs f)

-- The packets that the other side gets: those that were waiting, then the new one, each with the identity
-- of the sender.
abbrev pub sent : Net → List Bytes → Bytes → List Bytes
sent net q pkt = map (stamp net.uuid) (q ++ mark pkt ∷ [])

module _ (b : Backlog) (laws : Laws b) (net : Net) (bq : BufferQueue) (queue : QueueLaws bq)
    {World : Type 0} (handle : World → Bytes → World × Bool) where
  -- The sender is as for `node_send_event` of a connected node on a clear network: it has a backlog with
  -- fewer than 2^30 - 1 slots used, fewer than 2^32 events `q` in it and more fuel than these; they and the
  -- new packet are valid, those in the backlog start with the signature, the new one is not a
  -- CTRL_ACTIVE or CTRL_INACTIVE packet, and the identity has at most 37 bytes.
  -- The receiver has a socket and an empty buffer. Then the call succeeds, and however the
  -- bytes that it puts on the wire are cut into pieces, the calls of `net_input` on the
  -- other side end and hand all events that were waiting and then the new one, in this order, to
  -- `handle_event`, up to the first that disconnects the node.
  pub send_event-Arrives :
      (l : Link b.Store) (pkt : Bytes) (poll : Bool) (fuel : ℕ) (s : b.Store) (q : List Bytes)
      (n : ℕ) (cs : List Piece) (more : ℕ) (w : World) (r : Intake bq.Store)
      → l.has_sock ≡ true
      → is_connected l.state ≡ true
      → Valid pkt
      → AllFramed q
      → length net.uuid ≤ 37
      → Sends net
      → Open net
      → length q < fuel
      → laws.Queue s q n
      → n + 1 < limit
      → length q < u32
      → l.binlog ≡ some s
      → is_transient (mark pkt) ≡ false
      → r.has_sock ≡ true
      → queue.Holds r.bq []
      → length q + 1 < more
      → joined cs ≡ stream (sent net q pkt)
      → (l' : Link b.Store) × (send_event b net fuel l pkt poll ≡ some (l', ok))
        × (stream l'.wire ≡ stream l.wire ++ joined cs)
        × Arrive bq queue handle
            (inputs bq handle more (w, r) cs)
            (deliver handle w (sent net q pkt))
            r
  send_event-Arrives l pkt poll fuel s q n cs more w r sock up v f short sends clear enough h room
        few held kept open' empty enough' eq =
      let (l', answer, wire, none_left) =
        send_event-delivers b laws net l pkt poll sock up v fuel s q n sends clear enough
          (AllValid-framed q f) h room few held kept in
      (
        l',
        answer,
        ap stream wire
            ∙ stream-append l.wire (sent net q pkt)
            ∙ ap (λ t. stream l.wire ++ t) (sym eq),
        inputs-Arrive bq queue handle cs (sent net q pkt) [] more w r
            (AllFramed-stamp net.uuid (q ++ mark pkt ∷ []) short
              (AllFramed-snoc q (mark pkt) f (Framed-mark pkt (mark-Valid pkt v))))
            (omega (
              arith,
              enough',
              length-map (stamp net.uuid) (q ++ mark pkt ∷ []),
              length-append q (mark pkt ∷ []),
            ))
            (inl (omega arith)) open' empty eq,
      )
