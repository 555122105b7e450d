-- ===== src/Node/Deliver.antt =====
-- What the loop of `node_send_binlog` delivers.
use monitor_merlin.Base.{
  ℕ, zero, suc, ◌+◌, ◌<◌, ◌≡◌, refl, sym, ap, ◌∙◌, true, false, Option, some, List, [], ◌∷◌, ◌++◌,
  map, append-nil, append_assoc, arith, length, Bool-cases, inl, inr,
}
use monitor_merlin.Binlog.{Bytes, Status, ok}
use monitor_merlin.Node.Packet.{Valid, stamp}
use monitor_merlin.Node.Backlog.{Backlog, Laws, limit}
use monitor_merlin.Node.Send.{Net, Link, complete, turn, Turn, again, stop, send_binlog, count_sent}
use monitor_merlin.Node.Turn.{turn_blocked, turn_empty, turn_next, passed}

-- A network on which every packet is sent whole.
abbrev pub Sends : Net → Type 0
Sends net = (k : ℕ) → net.attempt k ≡ complete

-- The socket can always be written to.
abbrev pub Open : Net → Type 0
Open net = (k : ℕ) → net.writable k ≡ true

abbrev pub AllValid : List Bytes → Type 0
AllValid [] = Unit
AllValid (e ∷ q) = Valid e × AllValid q

module _ (b : Backlog) (laws : Laws b) (net : Net) where
  open b use {Store}
  open laws use {Queue}

  -- From `l` to `l'` the first events of `q` were sent, in their order, and the others are kept. On
  -- a socket that can always be written to, none is left.
  pub record Flushed (l l' : Link Store) (q : List Bytes) (n : ℕ) : Type 0 where
    pub sent : List Bytes
    pub rest : List Bytes
    pub split : sent ++ rest ≡ q
    pub on_wire : l'.wire ≡ l.wire ++ map (stamp net.uuid) sent
    pub store : Store
    pub held : l'.binlog ≡ some store
    pub queue : Queue store rest n
    pub sock : l'.has_sock ≡ l.has_sock
    pub state : l'.state ≡ l.state
    pub drained : Open net → rest ≡ []

  Flushed-next :
      (l l' : Link Store) (s : Store) (e : Bytes) (q : List Bytes) (n : ℕ)
      → Flushed (passed b net (record l { calls = l.calls + 1 }) s e) l' q n
      → Flushed l l' (e ∷ q) n
  unfolding count_sent
  Flushed-next l l' s e q n f = record {
    sent = e ∷ f.sent;
    rest = f.rest;
    split = ap (λ t. e ∷ t) f.split;
    on_wire = f.on_wire ∙ append_assoc l.wire (stamp net.uuid e ∷ []) (map (stamp net.uuid) f.sent);
    store = f.store;
    held = f.held;
    queue = f.queue;
    sock = f.sock;
    state = f.state;
    drained = f.drained;
  }

  abbrev pub Flushes : Option (Link Store × Status) → Link Store → List Bytes → ℕ → Type 0
  Flushes out l q n = (l' : Link Store) × (out ≡ some (l', ok)) × Flushed l l' q n

  -- How the loop goes on after a turn.
  abbrev loop : ℕ → Option Bytes → Turn Store → Option (Link Store × Status)
  loop fuel w t = elim t [ again l' s' ↦ send_binlog b net fuel l' w s' | stop done ↦ some done ]

  send_binlog_step :
      (fuel : ℕ) (l : Link Store) (w : Option Bytes) (s : Store) {l' : Link Store} {s' : Store}
      → turn b net l w s ≡ again l' s'
      → send_binlog b net (suc fuel) l w s ≡ send_binlog b net fuel l' w s'
  unfolding send_binlog
  send_binlog_step fuel l w s e = ap (loop fuel w) e

  pub send_binlog_stop :
      (fuel : ℕ) (l : Link Store) (w : Option Bytes) (s : Store) {l' : Link Store}
      → turn b net l w s ≡ stop (l', ok)
      → send_binlog b net (suc fuel) l w s ≡ some (l', ok)
  unfolding send_binlog
  send_binlog_stop fuel l w s e = ap (loop fuel w) e

  send_binlog_blocked :
      (fuel : ℕ) (l : Link Store) (w : Option Bytes) (s : Store) (q : List Bytes) (n : ℕ)
      → Queue s q n
      → l.binlog ≡ some s
      → net.writable l.calls ≡ false
      → Flushes (send_binlog b net (suc fuel) l w s) l q n
  send_binlog_blocked fuel l w s q n h held busy = (
    record l { calls = l.calls + 1 },
    send_binlog_stop fuel l w s (turn_blocked b net l w s busy),
    record {
      sent = [];
      rest = q;
      split = refl;
      on_wire = sym (append-nil l.wire);
      store = s;
      held = held;
      queue = h;
      sock = refl;
      state = refl;
      drained = λ o. absurd (cc (o l.calls, busy));
    },
  )

  send_binlog_drained :
      (fuel : ℕ) (l : Link Store) (w : Option Bytes) (s : Store) (n : ℕ)
      → Queue s [] n
      → n < limit
      → net.writable l.calls ≡ true
      → Flushes (send_binlog b net (suc fuel) l w s) l [] n
  send_binlog_drained fuel l w s n h room free =
      let (st, out, rest) = laws.read_first s [] n h room in
      (
        record l { calls = l.calls + 1; binlog = some (b.read s).0 },
        send_binlog_stop fuel l w s (turn_empty b net l w s free st),
        record {
          sent = [];
          rest = [];
          split = refl;
          on_wire = sym (append-nil l.wire);
          store = (b.read s).0;
          held = refl;
          queue = rest;
          sock = refl;
          state = refl;
          drained = λ o. refl;
        },
      )

  -- On a network on which every packet is sent whole, for a node with a socket and this backlog, of which
  -- fewer than 2^30 slots are used, with more fuel than events in it, all of them valid: the loop of
  -- `node_send_binlog` ends with no error; the first events were sent, in their order, and the others are
  -- kept. None is left where the socket can always be written to.
  pub send_binlog-Flushes :
      (fuel : ℕ) (l : Link Store) (w : Option Bytes) (s : Store) (q : List Bytes) (n : ℕ)
      → Sends net
      → length q < fuel
      → AllValid q
      → Queue s q n
      → n < limit
      → l.binlog ≡ some s
      → l.has_sock ≡ true
      → Flushes (send_binlog b net fuel l w s) l q n
  unfolding count_sent
  send_binlog-Flushes zero l w s q n sends enough v h room held sock = absurd (omega arith)
  send_binlog-Flushes (suc fuel) l w s [] n sends enough v h room held sock =
      elim (Bool-cases (net.writable l.calls)) [
        | inr busy ↦ send_binlog_blocked fuel l w s [] n h held busy
        | inl free ↦ send_binlog_drained fuel l w s n h room free
      ]
  send_binlog-Flushes (suc fuel) l w s (e ∷ q) n sends enough (ve, vq) h room held sock =
      let (st, out, rest) = laws.read_first s (e ∷ q) n h room in
      let l1 = passed b net (record l { calls = l.calls + 1 }) (b.read s).0 e in
      let (l', answer, f) =
        send_binlog-Flushes fuel l1 w (b.read s).0 q n sends (omega arith) vq rest room refl sock in
      elim (Bool-cases (net.writable l.calls)) [
        | inr busy ↦ send_binlog_blocked fuel l w s (e ∷ q) n h held busy
        | inl free ↦ (
          l',
          send_binlog_step fuel l w s
                (turn_next b net l w e s free st out ve sock (sends (l.calls + 1)))
              ∙ answer,
          Flushed-next l l' (b.read s).0 e q n f,
        )
      ]
