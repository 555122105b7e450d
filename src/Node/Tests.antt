-- ===== src/Node/Tests.antt =====
-- The comparisons of nodes, and the sending of events, at concrete nodes.
use monitor_merlin.Base.{
  ℕ, ◌≡◌, ◌↔◌, ◌≢◌, refl, arith, true, false, none, some, List, [], ◌∷◌, ◌++◌, replicate,
}
use monitor_merlin.Binlog.{Bytes, ok, Binlog, value32}
use monitor_merlin.Binlog.Inv.{Holds}
use monitor_merlin.Binlog.Fifo.{Queued}
use monitor_merlin.Binlog.Tests.{good, Works-good}
use monitor_merlin.Binlog.Log.{add, read, unread, num_entries}
use monitor_merlin.Binlog.Memory.{mem_add, mem_read, mem_unread, put_back}
use monitor_merlin.Node.{mode_poller, state_connected}
use monitor_merlin.Node.Compat.{
  fits, eproto, NodeInfo, Build, node_compat_cmp, node_mconf_cmp, Compatible, node_compat_cmp_iff,
}
use monitor_merlin.Node.Packet.{Valid, stamp, value16}
use monitor_merlin.Node.Backlog.{Backlog, Laws}
use monitor_merlin.Node.Send.{
  Net, Link, complete, blocked, send_binlog, send_event, mark, is_transient,
}
use monitor_merlin.Node.Deliver.{Flushes, send_binlog-Flushes}
use monitor_merlin.Node.Resend.{send_event-duplicates}
use monitor_merlin.Node.Receive.{signature}
use monitor_merlin.Node.Stored.{stored, stored-Laws, Cached}

abbrev ours : Build
ours = record { word_size = 64; byte_order = 1234; object_structure_version = 402 }

-- One of two masters, and a poller of theirs that has a peer.
abbrev master : NodeInfo
master = record {
  version = 1;
  word_size = 64;
  byte_order = 1234;
  object_structure_version = 402;
  configured_peers = 1;
  configured_pollers = 2;
  configured_masters = 0;
}

abbrev poller : NodeInfo
poller = record master { configured_masters = 2; configured_pollers = 0 }

short : node_compat_cmp ours 99 master ≡ eproto
unfolding node_compat_cmp
short = refl

node_compat_cmp_iff_example : (node_compat_cmp ours 100 master ≡ fits) ↔ Compatible ours 100 master
node_compat_cmp_iff_example = node_compat_cmp_iff ours 100 master (omega arith)

accepted : node_mconf_cmp mode_poller 2 master poller ≡ fits
unfolding node_mconf_cmp
accepted = refl

-- A header with no body, of an event of type `k`.
abbrev pub event : ℕ → Bytes
event k = signature ++ 3 ∷ 0 ∷ k ∷ replicate 117 0

abbrev pub queue : List Bytes
queue = event 1 ∷ event 2 ∷ []

-- Both are in the cache.
abbrev pub waiting : Binlog
waiting = record {
  cache = some (some (event 1) ∷ some (event 2) ∷ none ∷ none ∷ []);
  write_index = 2;
  read_index = 0;
  file_entries = 0;
  alloc = 4;
  mem_size = 288;
  max_mem_size = 100000;
  mem_avail = 256;
  max_file_size = 100000;
  file_size = 0;
  file_read_pos = 0;
  file_write_pos = 0;
  is_valid = true;
  should_warn_if_full = true;
  path = some (1 ∷ []);
  fd = none;
  disk = none;
}

Holds-waiting : Holds waiting queue []
Holds-waiting = record {
  valid = refl;
  named = refl;
  memory = record { room = refl; read_in = omega arith; write_in = omega arith; entries = refl };
  on_disk = (refl, refl, refl, refl, refl, refl);
  small_mem = omega arith;
  small_file = tt;
}

pub Queued-waiting : Queued waiting queue 2
Queued-waiting = record {
  mem = queue;
  file = [];
  holds = Holds-waiting;
  order = refl;
  slots_used = omega arith;
}

Cached-waiting : Cached waiting (event 1) (event 2 ∷ []) 2
Cached-waiting = record {
  mem = event 2 ∷ [];
  file = [];
  holds = Holds-waiting;
  order = refl;
  unread_file = refl;
  not_empty = omega arith;
  countable = omega arith;
  slots_used = omega arith;
}

pub Valid-event : (k : ℕ) → Valid (event k)
unfolding value32
Valid-event k = record { len_le = omega arith; whole = refl }

abbrev pub fast : Net
fast = record { writable = λ k. true; attempt = λ k. complete; uuid = 65 ∷ 0 ∷ [] }

-- Packets would block.
abbrev slow : Net
slow = record fast { attempt = λ k. blocked }

abbrev pub kept : Backlog
kept = stored good none

abbrev pub kept_laws : Laws kept
kept_laws = stored-Laws good Works-good none

abbrev pub link : Link Binlog
link = record {
  has_sock = true;
  state = state_connected;
  binlog = some waiting;
  events_sent = 0;
  events_logged = 2;
  events_dropped = 0;
  bytes_sent = 0;
  bytes_logged = 256;
  bytes_dropped = 0;
  wire = [];
  calls = 0;
}

pub plain : is_transient (mark (event 3)) ≡ false
unfolding is_transient mark value16
plain = refl

send_binlog-Flushes_example :
    Flushes kept kept_laws fast (send_binlog kept fast 3 link none waiting) link queue 2
send_binlog-Flushes_example =
    send_binlog-Flushes kept kept_laws fast 3 link none waiting queue 2 (λ k. refl) (omega arith)
      (Valid-event 1, (Valid-event 2, tt)) Queued-waiting (omega arith) refl refl

-- The backlog with the first event put back, then with the new one.
abbrev restored : Binlog
restored = (unread good (read good waiting).0 (stamp slow.uuid (event 1))).0

abbrev once : Binlog
once = (add good restored (mark (event 3))).0

unlike_complete : blocked ≢ complete
unlike_complete e = cc e

first_add : (add good restored (mark (event 3))).1 ≡ ok
unfolding add unread read mem_add mem_read mem_unread put_back stamp mark num_entries
first_add = refl

second_add : (add good once (mark (event 3))).1 ≡ ok
unfolding add unread read mem_add mem_read mem_unread put_back stamp mark num_entries
second_add = refl

send_event-duplicates_example :
    (l' : Link Binlog) × (send_event kept slow 3 link (event 3) false ≡ some (l', ok))
    × (l'.wire ≡ [])
    × (l'.binlog ≡ some (add good once (mark (event 3))).0)
    × Queued
        (add good once (mark (event 3))).0
        (stamp slow.uuid (event 1) ∷ event 2 ∷ mark (event 3) ∷ mark (event 3) ∷ [])
        5
send_event-duplicates_example =
    send_event-duplicates kept kept_laws slow link waiting (event 1) (event 2) [] 2 (event 3) refl
      refl refl Cached-waiting (omega arith) (omega arith) refl unlike_complete (omega arith)
      (Valid-event 1) (Valid-event 3) plain 2 first_add second_add
