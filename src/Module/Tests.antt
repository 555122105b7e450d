-- ===== src/Module/Tests.antt =====
-- The module at concrete sites.
use monitor_merlin.Base.{
  ℕ, ◌<◌, ◌≡◌, ◌≢◌, ◌↔◌, refl, ◌⊎◌, inr, arith, true, false, Option, none, some, [], ◌∷◌, ◌++◌,
  take, drop, replicate, length-append, length-drop, length, ◌≤◌,
}
use monitor_merlin.Binlog.{Bytes, value32}
use monitor_merlin.Node.{
  mode_peer, mode_poller, state_none, state_negotiating, state_connected, NodeState,
}
use monitor_merlin.Node.State.{is_state}
use monitor_merlin.Node.Packet.{value16}
use monitor_merlin.Node.Select.{nodes_by_sel_id, nodes_at}
use monitor_merlin.Module.Routing.{Site, Sender, delivered, blank, send_generic, is_dupe}
use monitor_merlin.Module.Fields.{Alike, Alike-front}
use monitor_merlin.Module.Recipients.{recipients, calls_of, when}
use monitor_merlin.Module.Destinations.{passes, send_generic-Sends}
use monitor_merlin.Module.Dupes.{Call, Unsent, send_each, send_each-no_dupes}
use monitor_merlin.Module.Hooks.{
  Broker, host_result, unrelated, Origin, host_check, processed, merlin_mod_hook,
}
use monitor_merlin.Module.Echo.{Encodes, merlin_mod_hook-no_echo}
use monitor_merlin.Module.ResultFirst.{ResultFirst, shared_packet, host_check-ResultFirst}
use monitor_merlin.Module.Notify.{Owner, Stats, allowed, pgroup_num_notify, num_notify, count_flag}
use monitor_merlin.Module.OneNotifies.{polled, ruling, notification-one}
use monitor_merlin.Module.NoneNotifies.{Cluster, checker, at_master, at_poller, notification-none}
use monitor_merlin.Pgroup.Tables.{assigned_peer}
use monitor_merlin.Module.Lookup.{Listed, net_source_port, find_node, find_node-first}
use monitor_merlin.Module.Net.{
  Address, Names, Conn, refused, net_negotiate_socket, node_accept, net_is_connected, conn_writable,
  progress,
}
use monitor_merlin.Module.Accept.{net_negotiate_socket-agree}
use monitor_merlin.Module.AcceptStates.{Fresh, node_accept-connected, node_accept-none}
use monitor_merlin.Module.Closing.{attempted, conn_writable-closes_twice}

-- A master with a peer and two pollers, one in each selection.
abbrev site : Site
site = record {
  callbacks = record {
    notification = 20;
    contact_notification = 21;
    external_command = 22;
    program_status = 23;
    comment = 24;
  };
  masters = [];
  peers = 1 ∷ [];
  pollers = 2 ∷ 3 ∷ [];
  selections =
      record { id = 0; name = 97 ∷ []; nodes = 2 ∷ [] }
      ∷ record { id = 1; name = 98 ∷ []; nodes = 3 ∷ [] }
      ∷ [];
  uuid = 65 ∷ 0 ∷ [];
  daemon = λ k. delivered;
  sent_at = λ k. replicate 16 7;
}

abbrev sender : Sender
sender = record {
  last_pkt = blank;
  check_dupes = true;
  dupes = 0;
  dupe_bytes = 0;
  calls = 0;
  told = [];
  sent = [];
}

-- An event of type 5 for selection 1, and with its body of two bytes.
abbrev event : Bytes
event = replicate 10 0 ++ 5 ∷ 0 ∷ 0 ∷ 0 ∷ 1 ∷ 0 ∷ replicate 112 0

abbrev encode : Bytes → Bytes
encode pkt = take 16 pkt ++ 2 ∷ 0 ∷ 0 ∷ 0 ∷ (drop 20 pkt ++ 8 ∷ 9 ∷ [])

Alike-event : Alike (encode event) event
unfolding value16
Alike-event = record { kind = refl; code = refl; selection = refl }

Unsent-event : Unsent (encode event)
unfolding value32
Unsent-event = record {
  unsigned = refl;
  some_body = λ e. absurd (omega arith);
  len_le = omega arith;
}

send_generic-Sends_example :
    (p' : Bytes) × Alike p' event
    × ((send_generic site encode sender event).0.sent
        ≡ calls_of p'
            (when (passes site (λ k. refl) sender (encode event)) (recipients site event)))
send_generic-Sends_example =
    send_generic-Sends site (λ k. refl) encode sender event (omega arith) Alike-event

-- It goes to the peer, and to the poller of selection 1.
routed : when (passes site (λ k. refl) sender (encode event)) (recipients site event) ≡ 1 ∷ 3 ∷ []
unfolding nodes_by_sel_id nodes_at value16 value32 is_dupe
routed = refl

abbrev call : Call
call = record { check = true; encode = encode; pkt = event }

send_each-no_dupes_example : (send_each site sender (call ∷ call ∷ [])).dupes ≡ 0
send_each-no_dupes_example =
    send_each-no_dupes site sender (call ∷ call ∷ []) (inr refl) (Unsent-event, (Unsent-event, tt))

abbrev stats : Stats
stats = record { sent = 0; master = 0; poller = 0; peer = 0 }

-- One of two pollers, neither of which notifies.
abbrev quiet : Owner
quiet = record {
  is_ipc = false;
  mode = mode_poller;
  notifies = false;
  group = false ∷ false ∷ [];
  active_nodes = 2;
}

none_notifies : pgroup_num_notify quiet ≡ 0
unfolding pgroup_num_notify num_notify count_flag
none_notifies = refl

notification-one_example :
    (k : ℕ) × (k < 3) × ((j : ℕ) → j < 3 → (ruling 3 j (polled 7 quiet) stats ≡ allowed) ↔ (j ≡ k))
notification-one_example =
    notification-one 3 (polled 7 quiet) (λ j. stats) (omega arith) (omega arith)
      (refl, refl, refl, none_notifies)

-- Two masters and two pollers; the first poller checks the object, and only the second one notifies.
abbrev half : Cluster
half = record { masters = 2; flags = false ∷ true ∷ []; id = 7; number = 4 }

first_checks : checker half ≡ 0
unfolding assigned_peer
first_checks = refl

notification-none_example :
    ((j : ℕ) (stats : Stats) → at_master half j stats ≢ allowed)
    × ((i : ℕ) (stats : Stats) → at_poller half i stats ≢ allowed)
unfolding assigned_peer
notification-none_example = notification-none half 1 (omega arith) refl (omega arith) refl

abbrev here' : Address
here' = record { ip = 10; port = 15551 }

abbrev there : Address
there = record { ip = 11; port = 15551 }

abbrev names_here : Names
names_here = record { own_name = λ sd. some here'; peer_name = λ sd. some there }

abbrev names_there : Names
names_there = record { own_name = λ sd. some there; peer_name = λ sd. some here' }

abbrev conn : NodeState → Option ℕ → Conn
conn s sock = record {
  node = record {
    mode = mode_peer;
    state = s;
    is_ipc = false;
    has_sock = false;
    has_action = true;
    csync_num_attempts = 0;
    actions = [];
  };
  counts = record { active_pollers = 0; active_peers = 1; active_masters = 0 };
  sock = sock;
  conn_sock = some 8;
  last_recv = 0;
  last_conn_attempt = 0;
  last_conn_attempt_logged = 0;
  closed = [];
  inputs = [];
}

abbrev met : Conn
met = conn state_none (some 9)

net_negotiate_socket-agree_example :
    ((net_negotiate_socket names_here met (some 8) (some 9) ≡ (met, some 8))
      × (net_negotiate_socket names_there met (some 4) (some 5) ≡ (met, some 5)))
    ⊎ ((net_negotiate_socket names_here met (some 8) (some 9) ≡ (met, some 9))
        × (net_negotiate_socket names_there met (some 4) (some 5) ≡ (met, some 4)))
net_negotiate_socket-agree_example =
    net_negotiate_socket-agree names_here names_there met met 8 9 4 5 here' there refl refl refl
      refl (λ e. absurd (omega (arith, e.0)))

node_accept-connected_example :
    (node_accept names_here false (conn state_connected (some 9)) 10).sock ≡ none
node_accept-connected_example =
    node_accept-connected names_here false (conn state_connected (some 9)) 10 refl refl

node_accept-none_example : Fresh names_here false (conn state_none none) 10
node_accept-none_example = node_accept-none names_here false (conn state_none none) 10 refl refl

attempt_failed : (net_is_connected (attempted (conn state_negotiating none) 8) 5 refused).1 ≡ false
unfolding net_is_connected is_state progress
attempt_failed = refl

conn_writable-closes_twice_example :
    (conn_writable names_here false 5 refused (conn state_negotiating none) 8).closed ≡ 8 ∷ 8 ∷ []
conn_writable-closes_twice_example =
    conn_writable-closes_twice names_here false 5 refused (conn state_negotiating none) 8 refl
      attempt_failed

-- Two nodes behind one address: the first uses a fixed port, the second has the port of the connection.
abbrev fixed : Listed
fixed = record { ip = 10; port = 15551; has_uuid = false; fixed_srcport = true }

abbrev other : Listed
other = record { ip = 10; port = 2; has_uuid = false; fixed_srcport = false }

find_node-first_example : find_node 15551 10 15553 (fixed ∷ other ∷ []) ≡ some other
unfolding net_source_port
find_node-first_example = find_node-first 15551 10 15553 (fixed ∷ other ∷ [])

-- A host check of another node that is processed while its result is handled, and one of our own that is
-- followed by a notification.
abbrev broker : Broker
broker = record { sender = sender; held = none; last_host = none; last_service = none }

abbrev away : Origin
away = record { from_node = true; received = host_result }

abbrev here_made : Origin
here_made = record { from_node = false; received = unrelated }

-- Two bytes of body, for a packet of a header.
abbrev body : Bytes → Bytes
body p = take 16 p ++ (2 ∷ 0 ∷ 0 ∷ 0 ∷ (drop 20 p ++ 8 ∷ 9 ∷ []))

length-body : (p : Bytes) → 128 ≤ length p → 76 ≤ length (body p)
length-body p h = omega (
  arith,
  length-append (take 16 p) (2 ∷ 0 ∷ 0 ∷ 0 ∷ (drop 20 p ++ 8 ∷ 9 ∷ [])),
  length-append (drop 20 p) (8 ∷ 9 ∷ []),
  length-drop 20 p,
)

Encodes-body : Encodes body
Encodes-body = record {
  keeps_header = length-body;
  keeps_fields = λ p h.
      Alike-front 16 p (2 ∷ 0 ∷ 0 ∷ 0 ∷ (drop 20 p ++ 8 ∷ 9 ∷ [])) (omega arith) (omega arith);
}

merlin_mod_hook-no_echo_example :
    (merlin_mod_hook site body broker away 13 (host_check 4 processed)).0.sender.sent ≡ []
merlin_mod_hook-no_echo_example =
    merlin_mod_hook-no_echo site (λ k. refl) body Encodes-body 13 away refl broker
      (host_check 4 processed) refl

abbrev held_one : Broker
held_one = record broker { held = some (record { pkt = shared_packet 20; encode = body }) }

host_check-ResultFirst_example :
    ResultFirst site
      (λ k. refl)
      body
      body
      held_one
      13
      20
      (record sender { check_dupes = false })
      (merlin_mod_hook site body held_one here_made 13 (host_check 4 processed)).0
host_check-ResultFirst_example =
    host_check-ResultFirst site (λ k. refl) body body Encodes-body Encodes-body held_one here_made
      13 20 4 refl refl
