-- ===== src/Node/ReceiveTests.antt =====
-- Bytes that arrive at concrete nodes.
use monitor_merlin.Base.{
  ℕ, ◌≤◌, ◌≡◌, refl, ap, arith, true, false, Bool, inl, Option, none, some, List, [], ◌∷◌, ◌++◌,
  length, take, drop, ltb, if◌then◌else◌, if_true, if_false, lt→ltb, replicate, map,
}
use monitor_merlin.Binlog.{Bytes, Binlog, ok, value32}
use monitor_merlin.Node.{state_connected}
use monitor_merlin.Node.Packet.{Valid, stamp}
use monitor_merlin.Node.Send.{Link, mark, send_event}
use monitor_merlin.Node.Receive.{BufferQueue, QueueLaws, Intake, got, handle_all, net_input}
use monitor_merlin.Node.Framing.{Framed, stream}
use monitor_merlin.Node.Arrive.{Handles}
use monitor_merlin.Node.Arrivals.{Piece, joined, inputs, Arrive, inputs-Arrive}
use monitor_merlin.Node.Hostile.{Ends, net_input-Ends, handle_all-Refuses}
use monitor_merlin.Node.EndToEnd.{sent, send_event-Arrives}
use monitor_merlin.Node.Tests.{
  event, queue, waiting, fast, kept, kept_laws, link, Queued-waiting, Valid-event, plain,
}

abbrev shifted : Bytes → ℕ → Bytes × Option Bytes
shifted s n = if ltb (length s) n then (s, none) else (drop n s, some (take n s))

-- A buffer queue that is a list of bytes.
abbrev bytes_queue : BufferQueue
bytes_queue = record {
  Store = Bytes;
  create = [];
  push = λ s y. s ++ y;
  available = λ s. length s;
  peek = λ s n. if ltb (length s) n then none else some (take n s);
  unshift = shifted;
}

not_less : (x : Bytes) (n : ℕ) → n ≤ length x → ltb (length x) n ≡ false
not_less x n h = ground arith

shifted_whole : (x : Bytes) (n : ℕ) → n ≤ length x → shifted x n ≡ (drop n x, some (take n x))
shifted_whole x n h = if_false _ _ (not_less x n h)

abbrev bytes_laws : QueueLaws bytes_queue
bytes_laws = record {
  Holds = λ s x. s ≡ x;
  created = refl;
  pushed = λ s x y h. ap (λ t. t ++ y) h;
  counts = λ s x h. ap (length {A = ℕ}) h;
  peeks = λ s x n h le. rw h (if_false _ _ (not_less x n le));
  peeks_short = λ s x n h lt. rw h (if_true _ _ (lt→ltb (length x) n lt));
  unshifts = λ s x n h le. rw h (ap (λ (o : Bytes × Option Bytes). o.1) (shifted_whole x n le));
  shortens = λ s x n h le. rw h (ap (λ (o : Bytes × Option Bytes). o.0) (shifted_whole x n le));
}

-- `handle_event` as far as these tests go: it keeps what it gets.
abbrev keep : List Bytes → Bytes → List Bytes × Bool
keep w pkt = (w ++ pkt ∷ [], false)

abbrev node : Intake Bytes
node = record {
  has_sock = true;
  state = state_connected;
  bq = [];
  last_recv = 0;
  last_action = 0;
  events_read = 0;
  bytes_read = 0;
}

-- Two packets in three pieces, cut in the middle of a header and of a packet.
abbrev two : List Bytes
two = event 1 ∷ event 2 ∷ []

abbrev pieces : List Piece
pieces =
    record { bytes = take 50 (stream two); now = 10; later = 10 }
    ∷ record { bytes = take 100 (drop 50 (stream two)); now = 11; later = 11 }
    ∷ record { bytes = drop 150 (stream two); now = 12; later = 12 }
    ∷ []

Framed-event : (k : ℕ) → Framed (event k)
Framed-event k = record { valid = Valid-event k; signed = refl }

inputs-Arrive_example :
    Arrive bytes_queue bytes_laws keep
      (inputs bytes_queue keep 3 ([], node) pieces)
      (two, false)
      node
inputs-Arrive_example =
    inputs-Arrive bytes_queue bytes_laws keep pieces two [] 3 [] node
      (Framed-event 1, (Framed-event 2, tt)) (omega arith) (inl (omega arith)) refl refl refl

net_input-Ends_example :
    Ends bytes_queue bytes_laws keep
      (net_input bytes_queue keep 300 ([], node) 10 10 (got (replicate 200 255)))
net_input-Ends_example =
    net_input-Ends bytes_queue bytes_laws keep 300 [] node 10 10 [] (got (replicate 200 255)) refl
      (omega arith)

-- No signature.
abbrev bad : Bytes
bad = replicate 128 0

Valid-bad : Valid bad
unfolding value32
Valid-bad = record { len_le = omega arith; whole = refl }

handle_all-Refuses_example :
    Handles bytes_queue bytes_laws keep
      (handle_all bytes_queue keep 3 0 ([], record node { bq = event 1 ++ (bad ++ event 2) }))
      (event 1 ∷ [], true)
      (record node { bq = event 1 ++ (bad ++ event 2) })
      []
handle_all-Refuses_example =
    handle_all-Refuses bytes_queue bytes_laws keep (event 1 ∷ []) bad (event 2) 3 0 []
      (record node { bq = event 1 ++ (bad ++ event 2) }) (omega arith) (Framed-event 1, tt)
      Valid-bad refl refl

-- The wire of the sender in two pieces.
abbrev wire : Bytes
wire = stream (sent fast queue (event 3))

abbrev halves : List Piece
halves =
    record { bytes = take 200 wire; now = 10; later = 10 }
    ∷ record { bytes = drop 200 wire; now = 11; later = 11 }
    ∷ []

same_wire : joined halves ≡ wire
unfolding stamp mark
same_wire = refl

send_event-Arrives_example :
    (l' : Link Binlog) × (send_event kept fast 3 link (event 3) true ≡ some (l', ok))
    × (stream l'.wire ≡ joined halves)
    × Arrive bytes_queue bytes_laws keep
        (inputs bytes_queue keep 4 ([], node) halves)
        (map (stamp fast.uuid) (queue ++ mark (event 3) ∷ []), false)
        node
send_event-Arrives_example =
    send_event-Arrives kept kept_laws fast bytes_queue bytes_laws keep link (event 3) true 3 waiting
      queue 2 halves 4 [] node refl refl (Valid-event 3) (Framed-event 1, (Framed-event 2, tt))
      (omega arith) (λ k. refl) (λ k. refl) (omega arith) Queued-waiting (omega arith) (omega arith)
      refl plain refl refl (omega arith) same_wire
