-- ===== src/Node/TreeIds.antt =====
-- `node_by_id` after `create_node_tree`.
use monitor_merlin.Base.{
  ℕ, ◌+◌, ◌<◌, ◌≤◌, ◌≡◌, ap, ◌∙◌, true, not, ◌&&◌, Option, none, some, List, [], ◌∷◌, get_elem?,
  get_or, replicate, length, ltb, ◌==◌, if_true, arith, length-replicate, get_or-get_elem?,
}
use monitor_merlin.Binlog.{u32, add32}
use monitor_merlin.Node.{Mode, mode_local, mode_noc, mode_peer, mode_poller, mode_internal}
use monitor_merlin.Node.Counted.{is_counted}
use monitor_merlin.Node.Tree.{
  Configured, num_nodes, count_nodes, Fan, place_all, create_node_tree, entry, node_by_id,
}
use monitor_merlin.Node.TreeLaws.{number, Room, Placed}
use monitor_merlin.Node.TreePlaced.{finishes}

-- The first loop counts the nodes of each type.
record Counted (c : Configured) (ms : List Mode) (c' : Configured) : Type 0 where
  masters : c'.masters ≡ c.masters + number mode_noc ms
  peers : c'.peers ≡ c.peers + number mode_peer ms
  pollers : c'.pollers ≡ c.pollers + number mode_poller ms

count_nodes-Counted :
    (c : Configured) (ms : List Mode)
    → c.masters + c.peers + c.pollers + length ms < u32
    → Counted c ms (count_nodes c ms)
unfolding count_nodes
count_nodes-Counted c [] h = record {
  masters = omega arith;
  peers = omega arith;
  pollers = omega arith;
}
count_nodes-Counted c (mode_noc ∷ ms) h =
    let r = count_nodes-Counted (record c { masters = add32 c.masters 1 }) ms (omega arith) in
    record {
      masters = omega (arith, r.masters);
      peers = omega (arith, r.peers);
      pollers = omega (arith, r.pollers);
    }
count_nodes-Counted c (mode_peer ∷ ms) h =
    let r = count_nodes-Counted (record c { peers = add32 c.peers 1 }) ms (omega arith) in
    record {
      masters = omega (arith, r.masters);
      peers = omega (arith, r.peers);
      pollers = omega (arith, r.pollers);
    }
count_nodes-Counted c (mode_poller ∷ ms) h =
    let r = count_nodes-Counted (record c { pollers = add32 c.pollers 1 }) ms (omega arith) in
    record {
      masters = omega (arith, r.masters);
      peers = omega (arith, r.peers);
      pollers = omega (arith, r.pollers);
    }
count_nodes-Counted c (mode_local ∷ ms) h =
    let r = count_nodes-Counted c ms (omega arith) in
    record {
      masters = omega (arith, r.masters);
      peers = omega (arith, r.peers);
      pollers = omega (arith, r.pollers);
    }
count_nodes-Counted c (mode_internal ∷ ms) h =
    let r = count_nodes-Counted c ms (omega arith) in
    record {
      masters = omega (arith, r.masters);
      peers = omega (arith, r.peers);
      pollers = omega (arith, r.pollers);
    }

number_total :
    (ms : List Mode) → number mode_noc ms + number mode_peer ms + number mode_poller ms ≤ length ms
number_total [] = omega arith
number_total (mode_noc ∷ ms) = omega (arith, number_total ms)
number_total (mode_peer ∷ ms) = omega (arith, number_total ms)
number_total (mode_poller ∷ ms) = omega (arith, number_total ms)
number_total (mode_local ∷ ms) = omega (arith, number_total ms)
number_total (mode_internal ∷ ms) = omega (arith, number_total ms)

abbrev pub unset : Configured
unset = record { masters = 0; peers = 0; pollers = 0 }

abbrev start : Configured → ℕ → Fan
start c n = record {
  xnoc = 0;
  xpeer = 0;
  xpoll = 0;
  table = replicate (num_nodes c) none;
  ids = replicate n 0;
}

start_room :
    (ms : List Mode) (c : Configured)
    → length ms < u32
    → Counted unset ms c
    → Room c (start c (length ms)) 0 ms
start_room ms c few n = record {
  masters = omega (arith, n.masters);
  peers = omega (arith, n.peers);
  pollers = omega (arith, n.pollers);
  few = omega (arith, n.masters, n.peers, n.pollers, number_total ms);
  table =
      length-replicate (num_nodes c) none
      ∙ omega (arith, n.masters, n.peers, n.pollers, number_total ms);
  ids = length-replicate (length ms) 0 ∙ omega arith;
}

-- The ids of a type of nodes.
abbrev pub InBlock : Configured → Mode → ℕ → Type 0
InBlock c mode_noc id = id < c.masters
InBlock c mode_peer id = (c.masters ≤ id) × (id < c.masters + c.peers)
InBlock c mode_poller id = (c.masters + c.peers ≤ id) × (id < c.masters + c.peers + c.pollers)
InBlock c other id = ⊥

Placed-InBlock :
    (c : Configured) (f : Fan) (n i j p : ℕ) (m : Mode)
    → Room c f n []
    → Placed c f i j p m
    → InBlock c m p × (p < c.masters + c.peers + c.pollers)
Placed-InBlock c f n i j p mode_noc r h =
    (omega (arith, h.upto, r.masters), omega (arith, h.upto, r.masters))
Placed-InBlock c f n i j p mode_peer r h =
    ((omega (arith, h.from), omega (arith, h.upto, r.peers)), omega (arith, h.upto, r.peers))
Placed-InBlock c f n i j p mode_poller r h =
    ((omega (arith, h.from), omega (arith, h.upto, r.pollers)), omega (arith, h.upto, r.pollers))
Placed-InBlock c f n i j p mode_local r h = absurd (cc h.counted)
Placed-InBlock c f n i j p mode_internal r h = absurd (cc h.counted)

node_by_id_lem :
    (c : Configured) (table : List (Option ℕ)) (id j : ℕ)
    → id < c.masters + c.peers + c.pollers
    → c.masters + c.peers + c.pollers < u32
    → get_elem? table id ≡ some (some j)
    → node_by_id c table id ≡ some j
unfolding node_by_id
node_by_id_lem c table id j inside few h = if_true _ _ valid ∙ ap entry h
  where
    valid : (not (num_nodes c == 0) && ltb id (num_nodes c)) ≡ true
    valid = ground arith

-- In a configuration of fewer than 2^32 nodes, when none was counted before: for every master, peer or
-- poller, `node_by_id` of the id that `create_node_tree` gives it is this node, and the ids of the masters
-- are below those of the peers, which are below those of the pollers.
pub node_by_id-create_node_tree :
    (ms : List Mode) (j : ℕ) (m : Mode)
    → length ms < u32
    → get_elem? ms j ≡ some m
    → is_counted m m ≡ true
    → (node_by_id
          (create_node_tree unset ms).0
          (create_node_tree unset ms).1.table
          (get_or (create_node_tree unset ms).1.ids j 0)
        ≡ some j)
      × InBlock (create_node_tree unset ms).0 m (get_or (create_node_tree unset ms).1.ids j 0)
unfolding create_node_tree
node_by_id-create_node_tree ms j m few h e =
    let c = count_nodes unset ms in
    let n = count_nodes-Counted unset ms (omega arith) in
    let fin = finishes c (start c (length ms)) 0 j m ms (start_room ms c few n) h e in
    let same : 0 + j ≡ j = omega arith in
    let known =
      get_or-get_elem? (place_all c 0 ms (start c (length ms))).ids j 0
        (rw same at fin.is_placed.known) in
    let held = rw same at fin.is_placed.held in
    let (block, inside) = Placed-InBlock c _ _ _ _ fin.at_position m fin.room fin.is_placed in
    rw known (node_by_id_lem c _ fin.at_position j inside fin.room.few held, block)
