-- ===== src/Node/Resend.antt =====
-- An event that is sent while the backlog cannot be: `node_send_event` and `node_send_binlog`.
use monitor_merlin.Base.{
  ℕ, suc, ◌+◌, ◌%◌, ◌≤◌, ◌<◌, ◌≡◌, ◌≢◌, refl, ap, ◌∙◌, inl, inr, true, false, not, Option, some,
  List, [], ◌∷◌, ◌++◌, append_assoc, arith, length, length-append, ◌==◌, if_true, if_false,
}
use mathlib.Core.Option as Option
use monitor_merlin.Binlog.{Bytes, Status, ok, u32}
use monitor_merlin.Node.{is_connected}
use monitor_merlin.Node.Packet.{Valid, stamp, packet_size, stamp-Valid}
use monitor_merlin.Node.Backlog.{Backlog, Laws, limit}
use monitor_merlin.Node.Send.{
  Net, Link, Attempt, complete, blocked, broken, partial, mark, is_transient, node_send,
  node_binlog_add, added, binlog_has_entries, flush_first, send_or_keep, send_event, turn, stop,
  after_attempt, after_send, after_read, put_back, after_unread, add_waiting, disconnect, add64,
  polled,
}
use monitor_merlin.Node.Turn.{is_damaged-Valid}
use monitor_merlin.Node.Deliver.{send_binlog_stop}
use monitor_merlin.Node.Event.{mark-Valid, node_binlog_add_eq}
use monitor_merlin.Node.Order.{send_event_free}

after_send_failed :
    (b : Backlog) (l : Link b.Store) (w : Option Bytes) (s : b.Store) (p e : Bytes) (len : ℕ)
    (a : Attempt)
    → a ≢ complete
    → after_send b w s ((after_attempt l p len a).0, (after_attempt l p len a).1, e)
      ≡ stop (put_back b (disconnect l) w s e)
unfolding after_send after_attempt
after_send_failed b l w s p e len complete h = absurd (h refl)
after_send_failed b l w s p e len blocked h = refl
after_send_failed b l w s p e len broken h = refl
after_send_failed b l w s p e len partial h = refl

module _ (b : Backlog) (net : Net) where
  open b use {Store}

  -- The node after a packet of the backlog, which is then `s`, could not be sent.
  abbrev pub lost : Link Store → Store → Link Store
  lost l s = disconnect (record l { calls = l.calls + 1 + 1; binlog = some s })

  after_read_failed :
      (l : Link Store) (w : Option Bytes) (e : Bytes) (r : Store × Status × Option Bytes)
      → r.1 ≡ ok
      → r.2 ≡ some e
      → Valid e
      → l.has_sock ≡ true
      → net.attempt l.calls ≢ complete
      → after_read b net l w r
        ≡ stop (
            put_back b
              (disconnect (record l { calls = l.calls + 1; binlog = some r.0 }))
              w
              r.0
              (stamp net.uuid e))
  unfolding after_read node_send
  after_read_failed l w e (s, st, out) okay got v sock fails =
      rw (okay, got, is_damaged-Valid e v)
        (ap (after_send b w s) (if_true _ _ sock)
          ∙ after_send_failed b (record l { calls = l.calls + 1; binlog = some s }) w s
              (stamp net.uuid e) (stamp net.uuid e) (packet_size e) (net.attempt l.calls) fails)

  turn_failed :
      (l : Link Store) (w : Option Bytes) (e : Bytes) (s : Store)
      → net.writable l.calls ≡ true
      → (b.read s).1 ≡ ok
      → (b.read s).2 ≡ some e
      → Valid e
      → l.has_sock ≡ true
      → net.attempt (l.calls + 1) ≢ complete
      → turn b net l w s ≡ stop (put_back b (lost l (b.read s).0) w (b.read s).0 (stamp net.uuid e))
  unfolding turn
  turn_failed l w e s wr okay got v sock fails =
      if_true _ _ wr
      ∙ after_read_failed (record l { calls = l.calls + 1 }) w e (b.read s) okay got v sock fails

  -- The node after an event was added to its backlog, which is then `s`.
  abbrev pub counted : Link Store → Store → ℕ → Link Store
  counted l s size = record l {
    binlog = some s;
    events_logged = add64 l.events_logged 1;
    bytes_logged = add64 l.bytes_logged size;
  }

  added_ok :
      (l : Link Store) (size : ℕ) (out : Store × Status)
      → out.1 ≡ ok
      → added b l size out ≡ (counted l out.0 size, ok)
  unfolding added
  added_ok l size (s, st) e = rw e refl

  after_unread_ok :
      (l : Link Store) (pkt : Bytes) (out : Store × Status)
      → out.1 ≡ ok
      → after_unread b l (some pkt) out ≡ node_binlog_add b (record l { binlog = some out.0 }) pkt
  unfolding after_unread add_waiting
  after_unread_ok l pkt (s, st) e = rw e refl

  put_back_waiting :
      (l : Link Store) (pkt e : Bytes) (s : Store)
      → (b.num_entries s == 0) ≡ false
      → (b.unread s e).1 ≡ ok
      → put_back b l (some pkt) s e
        ≡ node_binlog_add b (record l { binlog = some (b.unread s e).0 }) pkt
  unfolding put_back
  put_back_waiting l pkt e s more fine = rw more (after_unread_ok l pkt (b.unread s e) fine)

module _ (b : Backlog) (laws : Laws b) (net : Net) where
  open b use {Store}
  open laws use {Queue}

  node_binlog_add_ok :
      (l : Link Store) (e : Bytes) (s : Store)
      → is_transient e ≡ false
      → Valid e
      → l.binlog ≡ some s
      → (b.add s e).1 ≡ ok
      → node_binlog_add b l e ≡ (counted b net l (b.add s e).0 (packet_size e), ok)
  node_binlog_add_ok l e s t v held fine =
      node_binlog_add_eq b laws net l e s t v held
      ∙ added_ok b net l (packet_size e) (b.add s e) fine

  -- An answer of `add` that is a success.
  add-Queue :
      (s : Store) (q : List Bytes) (n : ℕ) (e : Bytes)
      → Queue s q n
      → Valid e
      → n < limit
      → (b.add s e).1 ≡ ok
      → Queue (b.add s e).0 (q ++ e ∷ []) (n + 1)
  add-Queue s q n e h v room fine =
      elim (laws.add_last s q n e h (omega (arith, v.len_le, v.whole)) room) [
        | inl (answer, after) ↦ after
        | inr (answer, after) ↦ absurd (cc (answer, fine))
      ]

  not_empty :
      (s : Store) (e : Bytes) (q : List Bytes)
      → b.num_entries s ≡ length (e ∷ q) % u32
      → length (e ∷ q) < u32
      → (b.num_entries s == 0) ≡ false
  not_empty s e q count few = ground (arith, count)

  module _ (l : Link Store) (s : Store) (e e' : Bytes) (q : List Bytes) (n : ℕ) (pkt : Bytes)
      (sock : l.has_sock ≡ true) (up : is_connected l.state ≡ true) (held : l.binlog ≡ some s)
      (queued : laws.Undoable s (e ∷ e' ∷ q) n) (room : n + 2 < limit) (few : length q + 4 < u32)
      (writable : net.writable l.calls ≡ true) (fails : net.attempt (l.calls + 1) ≢ complete)
      (short : length net.uuid ≤ 37) (first_valid : Valid e) (valid : Valid pkt)
      (kept : is_transient (mark pkt) ≡ false) where
    abbrev s1 : Store
    s1 = (b.read s).0

    -- the first event is back
    abbrev pub s2 : Store
    s2 = (b.unread s1 (stamp net.uuid e)).0

    abbrev pub s3 : Store
    s3 = (b.add s2 (mark pkt)).0

    abbrev pub s4 : Store
    s4 = (b.add s3 (mark pkt)).0

    abbrev l3 : Link Store
    l3 = counted b net (record (lost b net l s1) { binlog = some s2 }) s3 (packet_size (mark pkt))

    same_length : length (stamp net.uuid e) ≡ length e
    same_length =
        let (len, v) = stamp-Valid net.uuid e short first_valid in
        omega (arith, len, v.whole, first_valid.whole)

    flush_fails :
        (fuel : ℕ)
        → (b.add s2 (mark pkt)).1 ≡ ok
        → flush_first b net (suc fuel) l (mark pkt) (some s) ≡ some l3
    unfolding flush_first
    flush_fails fuel fits =
        if_false _ _ (
          not_empty s e (e' ∷ q) (laws.count s (e ∷ e' ∷ q) n (laws.waits s (e ∷ e' ∷ q) n queued))
            (omega arith))
        ∙ ap (Option.map (λ (done : Link Store × Status). done.0))
            (send_binlog_stop b laws net fuel l (some (mark pkt)) s turned)
      where
        turned : turn b net l (some (mark pkt)) s ≡ stop (l3, ok)
        turned =
            let (answer, out, count, back, h) =
              laws.undo s e (stamp net.uuid e) e' q n queued (omega arith) same_length in
            turn_failed b net l (some (mark pkt)) e s writable answer out first_valid sock fails
            ∙ ap stop (
                put_back_waiting b net (lost b net l s1) (mark pkt) (stamp net.uuid e) s1
                  (not_empty s1 e' q count (omega arith)) back
                ∙ node_binlog_add_ok (record (lost b net l s1) { binlog = some s2 }) (mark pkt) s2
                    kept (mark-Valid pkt valid) refl fits)

    -- The events `e`, `e'` and more, `q`, fewer than 2^32 - 2 in all, wait for a connected node, with fewer
    -- than 2^30 - 2 slots of its backlog used and `e` such that it can be put back after it was read; the
    -- socket can be written to, but sending `e`, a valid packet, fails. `node_send_event` of a valid event,
    -- no CTRL_ACTIVE or CTRL_INACTIVE packet, for which there is room twice, on a socket that was polled
    -- before, puts the event into the backlog twice, behind the others, sends nothing, and answers with a
    -- success. The identity of the sender fits into its field.
    pub send_event-duplicates :
        (fuel : ℕ)
        → (b.add s2 (mark pkt)).1 ≡ ok
        → (b.add s3 (mark pkt)).1 ≡ ok
        → (l' : Link Store) × (send_event b net (suc fuel) l pkt false ≡ some (l', ok))
          × (l'.wire ≡ l.wire)
          × (l'.binlog ≡ some s4)
          × Queue s4 (stamp net.uuid e ∷ e' ∷ (q ++ mark pkt ∷ mark pkt ∷ [])) (n + 3)
    unfolding send_or_keep binlog_has_entries polled disconnect
    send_event-duplicates fuel fits again_fits =
        let (answer, out, count, back, h2) =
          laws.undo s e (stamp net.uuid e) e' q n queued (omega arith) same_length in
        let h3 =
          add-Queue s2 (stamp net.uuid e ∷ e' ∷ q) (n + 1) (mark pkt) h2 v (omega arith) fits in
        let h4 =
          add-Queue s3 (stamp net.uuid e ∷ e' ∷ (q ++ mark pkt ∷ [])) (n + 1 + 1) (mark pkt) h3 v
            (omega arith) again_fits in
        (
          counted b net l3 s4 (packet_size (mark pkt)),
          says (laws.count s3 _ (n + 1 + 1) h3),
          refl,
          refl,
          tidy h4,
        )
      where
        v : Valid (mark pkt)
        v = mark-Valid pkt valid

        n3 : n + 1 + 1 + 1 ≡ n + 3
        n3 = omega arith

        tidy :
            Queue s4
              (stamp net.uuid e ∷ e' ∷ ((q ++ mark pkt ∷ []) ++ mark pkt ∷ []))
              (n + 1 + 1 + 1)
            → Queue s4 (stamp net.uuid e ∷ e' ∷ (q ++ mark pkt ∷ mark pkt ∷ [])) (n + 3)
        tidy h = rw (n3, append_assoc q (mark pkt ∷ []) (mark pkt ∷ [])) at h

        says :
            b.num_entries s3 ≡ length (stamp net.uuid e ∷ e' ∷ (q ++ mark pkt ∷ [])) % u32
            → send_event b net (suc fuel) l pkt false
              ≡ some (counted b net l3 s4 (packet_size (mark pkt)), ok)
        says count =
            send_event_free b laws net l pkt false sock up valid (suc fuel) refl
            ∙ ap
                (λ o.
                  Option.map (send_or_keep b net (mark pkt))
                    (flush_first b net (suc fuel) l (mark pkt) o))
                held
            ∙ ap (Option.map (send_or_keep b net (mark pkt))) (flush_fails fuel fits)
            ∙ ap some (
                if_true _ _ (
                  ap not (
                    not_empty s3 (stamp net.uuid e) (e' ∷ (q ++ mark pkt ∷ [])) count
                      (omega (arith, length-append q (mark pkt ∷ [])))))
                ∙ node_binlog_add_ok l3 (mark pkt) s3 kept v refl again_fits)
