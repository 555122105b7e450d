-- ===== src/Node/Order.antt =====
-- The events that reach a node, and their order: `node_send_event` for a connected node.
use monitor_merlin.Base.{
  ℕ, ◌+◌, ◌<◌, ◌≡◌, refl, sym, ap, ◌∙◌, inl, inr, true, false, Bool, not, ◌&&◌, ◌||◌, some, List,
  [], ◌∷◌, ◌++◌, map, append-nil, arith, length, Bool-cases, ◌==◌, if_true, if_false,
}
use mathlib.Core.Option as Option
use monitor_merlin.Binlog.{Bytes, Status, ok, u32}
use monitor_merlin.Node.{is_connected}
use monitor_merlin.Node.Packet.{Valid, stamp, is_oversized-Valid}
use monitor_merlin.Node.Backlog.{Backlog, Laws, limit}
use monitor_merlin.Node.Send.{
  Net, Link, mark, is_transient, node_binlog_add, binlog_has_entries, polled, flush_first,
  send_or_keep, send_event,
}
use monitor_merlin.Node.Deliver.{Sends, Open, AllValid, Flushed}
use monitor_merlin.Node.Event.{
  mark-Valid, Takes, Taken, node_binlog_add-Takes, send_or_keep-Takes, flush_first-Flushed,
}

module _ (b : Backlog) (laws : Laws b) (net : Net) where
  open b use {Store}
  open laws use {Queue}

  recount :
      (l l' : Link Store) (k : ℕ) (q : List Bytes) (n : ℕ)
      → Flushed b laws net (record l { calls = k }) l' q n
      → Flushed b laws net l l' q n
  recount l l' k q n f = record {
    sent = f.sent;
    rest = f.rest;
    split = f.split;
    on_wire = f.on_wire;
    store = f.store;
    held = f.held;
    queue = f.queue;
    sock = f.sock;
    state = f.state;
    drained = f.drained;
  }

  recount-Taken :
      (l l' : Link Store) (k : ℕ) (q : List Bytes) (e : Bytes) (n : ℕ)
      → Taken b laws net (record l { calls = k }) l' q e n
      → Taken b laws net l l' q e n
  recount-Taken l l' k q e n (inl f) = inl (recount l l' k (q ++ e ∷ []) (n + 1) f)
  recount-Taken l l' k q e n (inr (f, shut)) = inr (recount l l' k q (n + 1) f, shut)

  -- Nothing was sent, as the socket cannot be written to.
  unsent :
      (l : Link Store) (s : Store) (q : List Bytes) (n : ℕ)
      → l.binlog ≡ some s
      → Queue s q n
      → ¬ (Open net)
      → Flushed b laws net l l q n
  unsent l s q n held h shut = record {
    sent = [];
    rest = q;
    split = refl;
    on_wire = sym (append-nil l.wire);
    store = s;
    held = held;
    queue = h;
    sock = refl;
    state = refl;
    drained = λ o. absurd (shut o);
  }

  blocked_shut : (p w : Bool) → w ≡ true → (p && not w) ≡ true → false ≡ true
  blocked_shut true w e wait = rw e at wait
  blocked_shut false w e wait = wait

  Taken-emptied :
      (l l' : Link Store) (e : Bytes) (q : List Bytes) (n : ℕ)
      → Open net
      → n + 1 < limit
      → Taken b laws net l l' q e n
      → (l'.wire ≡ l.wire ++ map (stamp net.uuid) (q ++ e ∷ []))
        × (binlog_has_entries b l'.binlog ≡ false)
  unfolding binlog_has_entries
  Taken-emptied l l' e q n clear room (inr (f, shut)) = absurd (shut clear)
  Taken-emptied l l' e q n clear room (inl f) = (
    f.on_wire ∙ ap (λ t. l.wire ++ map (stamp net.uuid) t) (all ∙ f.split),
    ap (binlog_has_entries b) f.held ∙ ap not zero_left,
  )
    where
      all : f.sent ≡ f.sent ++ f.rest
      all = sym (append-nil f.sent) ∙ ap (λ r. f.sent ++ r) (sym (f.drained clear))

      zero_left : (b.num_entries f.store == 0) ≡ true
      zero_left = ground (
        arith,
        laws.count f.store f.rest (n + 1) f.queue,
        ap (length {A = Bytes}) (f.drained clear),
      )

  module _ (l : Link Store) (pkt : Bytes) (poll : Bool) (sock : l.has_sock ≡ true)
      (up : is_connected l.state ≡ true) (v : Valid pkt) where
    connected : (not l.has_sock || not (is_connected l.state)) ≡ false
    connected = rw (sock, up) refl

    send_event_blocked :
        (fuel : ℕ)
        → (poll && not (net.writable l.calls)) ≡ true
        → send_event b net fuel l pkt poll
          ≡ some (node_binlog_add b (record l { calls = l.calls + 1 }) (mark pkt))
    unfolding send_event
    send_event_blocked fuel e =
        if_false _ _ (is_oversized-Valid (mark pkt) (mark-Valid pkt v))
        ∙ if_false _ _ connected
        ∙ if_true _ _ e

    pub send_event_free :
        (fuel : ℕ)
        → (poll && not (net.writable l.calls)) ≡ false
        → send_event b net fuel l pkt poll
          ≡ Option.map
              (send_or_keep b net (mark pkt))
              (flush_first b net fuel (polled b poll l) (mark pkt) l.binlog)
    unfolding send_event
    send_event_free fuel e =
        if_false _ _ (is_oversized-Valid (mark pkt) (mark-Valid pkt v))
        ∙ if_false _ _ connected
        ∙ if_false _ _ e

    abbrev pub Answers : ℕ → List Bytes → ℕ → Type 0
    Answers fuel q n =
        (out : Link Store × Status) × (send_event b net fuel l pkt poll ≡ some out)
        × Takes b laws net out l q (mark pkt) n

    freely :
        (fuel : ℕ) (s : Store) (q : List Bytes) (n : ℕ)
        → Sends net
        → length q < fuel
        → AllValid q
        → Queue s q n
        → n < limit
        → length q < u32
        → l.binlog ≡ some s
        → is_transient (mark pkt) ≡ false
        → (p : Bool)
        → send_event b net fuel l pkt poll
          ≡ Option.map
              (send_or_keep b net (mark pkt))
              (flush_first b net fuel (polled b p l) (mark pkt) l.binlog)
        → Answers fuel q n
    unfolding polled
    freely fuel s q n sends enough vq h room few held kept false e =
        let (l', answer, f) =
          flush_first-Flushed b laws net fuel l (mark pkt) s q n sends enough vq h room few held
            sock in
        (
          _,
          e ∙ ap (Option.map (send_or_keep b net (mark pkt))) answer,
          send_or_keep-Takes b laws net l l' (mark pkt) q n f sends few kept (mark-Valid pkt v) room
              (f.sock ∙ sock),
        )
    freely fuel s q n sends enough vq h room few held kept true e =
        let l1 = record l { calls = l.calls + 1 } in
        let (l', answer, f) =
          flush_first-Flushed b laws net fuel l1 (mark pkt) s q n sends enough vq h room few held
            sock in
        let (fine, taken) =
          send_or_keep-Takes b laws net l1 l' (mark pkt) q n f sends few kept (mark-Valid pkt v)
            room (f.sock ∙ sock) in
        (
          _,
          e ∙ ap (Option.map (send_or_keep b net (mark pkt))) answer,
          (fine, recount-Taken l _ (l.calls + 1) q (mark pkt) n taken),
        )

    -- On a network on which every packet is sent whole, to a connected node that has a backlog, with fewer
    -- than 2^30 slots of it used, fewer than 2^32 events in it and more fuel than these, all valid like the
    -- new one, which is not a CTRL_ACTIVE or CTRL_INACTIVE packet: `node_send_event` ends with a success,
    -- whether it polls the socket or not, and either the old
    -- events and the new one behind them are a part that was sent, in that order, and a part that is kept,
    -- in that order; or the socket could not always be written to, the backlog had no room, and this holds
    -- of the old events alone. The connection stays.
    pub send_event-Takes :
        (fuel : ℕ) (s : Store) (q : List Bytes) (n : ℕ)
        → Sends net
        → length q < fuel
        → AllValid q
        → Queue s q n
        → n < limit
        → length q < u32
        → l.binlog ≡ some s
        → is_transient (mark pkt) ≡ false
        → Answers fuel q n
    send_event-Takes fuel s q n sends enough vq h room few held kept =
        elim (Bool-cases (poll && not (net.writable l.calls))) [
          | inr go ↦
              freely fuel s q n sends enough vq h room few held kept poll (send_event_free fuel go)
          | inl wait ↦
              (let l1 = record l { calls = l.calls + 1 } in
                let shut : ¬ (Open net) =
                  (λ o. absurd (cc (blocked_shut poll (net.writable l.calls) (o l.calls) wait))) in
                let (fine, taken) =
                  node_binlog_add-Takes b laws net l1 l1 (mark pkt) q n
                    (unsent l1 s q n held h shut) shut kept (mark-Valid pkt v) room in
                (
                  _,
                  send_event_blocked fuel wait,
                  (fine, recount-Taken l _ (l.calls + 1) q (mark pkt) n taken),
                ))
        ]

    -- Every packet is sent whole, the socket can always be written to, and the node is connected and has a
    -- backlog, with fewer than 2^30 - 1 slots of it used, fewer than 2^32 events in it and more fuel than
    -- these, all valid like the new one, which is not a CTRL_ACTIVE or CTRL_INACTIVE packet. Then
    -- `node_send_event` succeeds: all the events that were waiting and then the new one are sent, in this
    -- order, and nothing is left in the backlog.
    pub send_event-delivers :
        (fuel : ℕ) (s : Store) (q : List Bytes) (n : ℕ)
        → Sends net
        → Open net
        → length q < fuel
        → AllValid q
        → Queue s q n
        → n + 1 < limit
        → length q < u32
        → l.binlog ≡ some s
        → is_transient (mark pkt) ≡ false
        → (l' : Link Store) × (send_event b net fuel l pkt poll ≡ some (l', ok))
          × (l'.wire ≡ l.wire ++ map (stamp net.uuid) (q ++ mark pkt ∷ []))
          × (binlog_has_entries b l'.binlog ≡ false)
    send_event-delivers fuel s q n sends clear enough vq h room few held kept =
        let (out, answer, (fine, taken)) =
          send_event-Takes fuel s q n sends enough vq h (omega arith) few held kept in
        let (there, gone) = Taken-emptied l out.0 (mark pkt) q n clear room taken in
        (out.0, answer ∙ ap (λ st. some (out.0, st)) fine, there, gone)
