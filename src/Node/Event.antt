-- ===== src/Node/Event.antt =====
-- What `node_send_event` does with an event for a node that is connected.
use monitor_merlin.Base.{
  ℕ, ◌+◌, ◌<◌, ◌≡◌, refl, sym, ap, ◌∙◌, ◌⊎◌, ◌≢◌, inl, inr, true, false, Bool, not, some, List, [],
  ◌∷◌, ◌++◌, map, append-nil, append_assoc, arith, length, take, take_self, drop, drop-drop,
  length-drop, length-append, ◌==◌,
}
use mathlib.Core.List.{map-append}
use monitor_merlin.Binlog.{Bytes, Status, ok, enospc, u32, value32}
use monitor_merlin.Node.Packet.{Valid, hdr_len, stamp, packet_size, packet_size-Valid}
use monitor_merlin.Node.Backlog.{Backlog, Laws, limit}
use monitor_merlin.Node.Send.{
  Net, Link, mark, is_transient, create_binlog, added, keep, node_binlog_add, binlog_has_entries,
  flush_first, settle, send_or_keep, node_send,
}
use monitor_merlin.Node.Turn.{node_send_complete}
use monitor_merlin.Node.Deliver.{Sends, Open, AllValid, Flushed, send_binlog-Flushes}

pub mark-Valid : (pkt : Bytes) → Valid pkt → Valid (mark pkt)
unfolding mark
mark-Valid pkt v = record {
  len_le = omega (arith, same, v.len_le);
  whole = omega (arith, same, v.whole, length-drop 10 pkt);
}
  where
    same : value32 (drop 6 (drop 10 pkt)) ≡ hdr_len pkt
    same = ap value32 (drop-drop 6 10 pkt)

module _ (b : Backlog) (laws : Laws b) (net : Net) where
  open b use {Store}
  open laws use {Queue}

  -- The event joined the others, or it found the backlog full.
  abbrev pub Taken : Link Store → Link Store → List Bytes → Bytes → ℕ → Type 0
  Taken l l' q e n =
      Flushed b laws net l l' (q ++ e ∷ []) (n + 1)
      ⊎ (Flushed b laws net l l' q (n + 1) × ¬ (Open net))

  -- The answer is a success that took the event.
  abbrev pub Takes : Link Store × Status → Link Store → List Bytes → Bytes → ℕ → Type 0
  Takes out l q e n = (out.1 ≡ ok) × Taken l out.0 q e n

  pub node_binlog_add_eq :
      (l : Link Store) (e : Bytes) (s : Store)
      → is_transient e ≡ false
      → Valid e
      → l.binlog ≡ some s
      → node_binlog_add b l e ≡ added b l (packet_size e) (b.add s e)
  unfolding node_binlog_add keep create_binlog
  node_binlog_add_eq l e s t v held = rw t (
      ap (λ o. keep b l e (create_binlog b o)) held
      ∙ ap (λ x. added b l (packet_size e) (b.add s x)) whole_packet)
    where
      whole_packet : take (packet_size e) e ≡ e
      whole_packet = ap (λ k. take k e) (packet_size-Valid e v) ∙ take_self e

  added-Takes :
      (l l1 : Link Store) (size : ℕ) (e : Bytes) (q : List Bytes) (n : ℕ) (out : Store × Status)
      → (f : Flushed b laws net l l1 q n) → ¬ (Open net)
      → ((out.1 ≡ ok) × Queue out.0 (f.rest ++ e ∷ []) (n + 1))
        ⊎ ((out.1 ≡ enospc) × Queue out.0 f.rest (n + 1))
      → Takes (added b l1 size out) l q e n
  unfolding added
  added-Takes l l1 size e q n (s, st) f shut (inl (answer, h)) = rw answer (
    refl,
    inl record {
      sent = f.sent;
      rest = f.rest ++ e ∷ [];
      split = sym (append_assoc f.sent f.rest (e ∷ [])) ∙ ap (λ t. t ++ e ∷ []) f.split;
      on_wire = f.on_wire;
      store = s;
      held = refl;
      queue = h;
      sock = f.sock;
      state = f.state;
      drained = λ o. absurd (shut o);
    },
  )
  added-Takes l l1 size e q n (s, st) f shut (inr (answer, h)) = rw answer (
    refl,
    inr (
      record {
        sent = f.sent;
        rest = f.rest;
        split = f.split;
        on_wire = f.on_wire;
        store = (b.full_warning s).0;
        held = refl;
        queue = laws.warned s f.rest (n + 1) h;
        sock = f.sock;
        state = f.state;
        drained = f.drained;
      },
      shut,
    ),
  )

  -- The event for which a place in the backlog is asked.
  pub node_binlog_add-Takes :
      (l l1 : Link Store) (e : Bytes) (q : List Bytes) (n : ℕ)
      → Flushed b laws net l l1 q n
      → ¬ (Open net)
      → is_transient e ≡ false
      → Valid e
      → n < limit
      → Takes (node_binlog_add b l1 e) l q e n
  node_binlog_add-Takes l l1 e q n f shut t v room =
      rw (node_binlog_add_eq l1 e f.store t v f.held) (
        added-Takes l l1 (packet_size e) e q n (b.add f.store e) f shut
          (laws.add_last f.store f.rest n e f.queue (omega (arith, v.len_le, v.whole)) room))

  settle-Takes :
      (l l1 : Link Store) (e : Bytes) (q : List Bytes) (n : ℕ) (f : Flushed b laws net l l1 q n)
      → Sends net
      → f.rest ≡ []
      → l1.has_sock ≡ true
      → Takes (settle b (node_send net l1 e)) l q e n
  unfolding settle
  settle-Takes l l1 e q n f sends none_left sock =
      rw (node_send_complete b net l1 e sock (sends l1.calls)) (
        refl,
        inl record {
          sent = f.sent ++ e ∷ [];
          rest = [];
          split =
              append-nil (f.sent ++ e ∷ [])
              ∙ ap (λ t. t ++ e ∷ [])
                  (sym (append-nil f.sent) ∙ ap (λ r. f.sent ++ r) (sym none_left) ∙ f.split);
          on_wire = rw f.on_wire (
              append_assoc l.wire (map (stamp net.uuid) f.sent) (stamp net.uuid e ∷ [])
              ∙ ap (λ t. l.wire ++ t) (sym (map-append (stamp net.uuid) f.sent (e ∷ []))));
          store = f.store;
          held = f.held;
          queue = laws.later f.store [] n (rw none_left at f.queue);
          sock = f.sock;
          state = f.state;
          drained = λ o. refl;
        },
      )

  -- Whether the backlog says that it is empty.
  pub entries_cases :
      (s : Store) (q : List Bytes) (n : ℕ)
      → Queue s q n
      → length q < u32
      → ((q ≡ []) × ((b.num_entries s == 0) ≡ true)) ⊎ ((q ≢ []) × ((b.num_entries s == 0) ≡ false))
  entries_cases s [] n h few = inl (refl, ground (arith, laws.count s [] n h))
  entries_cases s (e ∷ q) n h few = inr (cons_not_nil, ground (arith, laws.count s (e ∷ q) n h))
    where
      cons_not_nil : (e ∷ q) ≢ []
      cons_not_nil p = absurd (omega (arith, ap (length {A = Bytes}) p))

  pub send_or_keep-Takes :
      (l l1 : Link Store) (e : Bytes) (q : List Bytes) (n : ℕ)
      → Flushed b laws net l l1 q n
      → Sends net
      → length q < u32
      → is_transient e ≡ false
      → Valid e
      → n < limit
      → l1.has_sock ≡ true
      → Takes (send_or_keep b net e l1) l q e n
  unfolding send_or_keep binlog_has_entries
  send_or_keep-Takes l l1 e q n f sends few t v room sock =
      elim (entries_cases f.store f.rest n f.queue
        (omega (arith, length-append f.sent f.rest, ap (length {A = Bytes}) f.split))) [
          | inl (nothing, z) ↦ rw (says z) (settle-Takes l l1 e q n f sends nothing sock)
          | inr (more, z) ↦
              rw (says z) (node_binlog_add-Takes l l1 e q n f (λ o. more (f.drained o)) t v room)
        ]
    where
      says : {x : Bool} → (b.num_entries f.store == 0) ≡ x → binlog_has_entries b l1.binlog ≡ not x
      says z = ap (binlog_has_entries b) f.held ∙ ap not z

  pub flush_first-Flushed :
      (fuel : ℕ) (l : Link Store) (e : Bytes) (s : Store) (q : List Bytes) (n : ℕ)
      → Sends net
      → length q < fuel
      → AllValid q
      → Queue s q n
      → n < limit
      → length q < u32
      → l.binlog ≡ some s
      → l.has_sock ≡ true
      → (l' : Link Store) × (flush_first b net fuel l e l.binlog ≡ some l')
        × Flushed b laws net l l' q n
  unfolding flush_first
  flush_first-Flushed fuel l e s q n sends enough v h room few held sock =
      elim (entries_cases s q n h few) [
        | inl (nothing, z) ↦ (
          l,
          ap (flush_first b net fuel l e) held ∙ rw z refl,
          record {
            sent = [];
            rest = q;
            split = refl;
            on_wire = sym (append-nil l.wire);
            store = s;
            held = held;
            queue = h;
            sock = refl;
            state = refl;
            drained = λ o. nothing;
          },
        )
        | inr (more, z) ↦
            (let (l', answer, f) =
                send_binlog-Flushes b laws net fuel l (some e) s q n sends enough v h room held
                  sock in
              (l', ap (flush_first b net fuel l e) held ∙ rw (z, answer) refl, f))
      ]
