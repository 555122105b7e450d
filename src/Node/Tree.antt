-- ===== src/Node/Tree.antt =====
-- The table of nodes by type, `create_node_tree`, and `node_by_id`, of shared/node.c.
use monitor_merlin.Base.{
  ℕ, ◌+◌, not, ◌&&◌, Option, none, some, List, [], ◌∷◌, get_elem?, set, replicate, length, ltb,
  ◌==◌, if◌then◌else◌,
}
use monitor_merlin.Binlog.{add32}
use monitor_merlin.Node.{Mode, mode_noc, mode_peer, mode_poller}

-- The numbers of configured nodes in `self`.
pub record Configured : Type 0 where
  pub masters : ℕ
  pub peers : ℕ
  pub pollers : ℕ

-- `num_nodes`
abbrev pub num_nodes : Configured → ℕ
num_nodes c = add32 (add32 c.masters c.pollers) c.peers

-- The first loop. A node is given by its type.
unfoldable pub count_nodes : Configured → List Mode → Configured
count_nodes c [] = c
count_nodes c (mode_noc ∷ ms) = count_nodes (record c { masters = add32 c.masters 1 }) ms
count_nodes c (mode_poller ∷ ms) = count_nodes (record c { pollers = add32 c.pollers 1 }) ms
count_nodes c (mode_peer ∷ ms) = count_nodes (record c { peers = add32 c.peers 1 }) ms
count_nodes c (other ∷ ms) = count_nodes c ms

-- What the second loop changes: a slot of `table` holds the index of a node, `ids` are the nodes' ids.
pub record Fan : Type 0 where
  pub xnoc : ℕ
  pub xpeer : ℕ
  pub xpoll : ℕ
  pub table : List (Option ℕ)
  pub ids : List ℕ

unfoldable pub put : ℕ → ℕ → Fan → Fan
put i p f = record f { table = set f.table p (some i); ids = set f.ids i p }

unfoldable pub place : Configured → ℕ → Mode → Fan → Fan
place c i mode_noc f = record (put i f.xnoc f) { xnoc = add32 f.xnoc 1 }
place c i mode_peer f = record (put i (add32 c.masters f.xpeer) f) { xpeer = add32 f.xpeer 1 }
place c i mode_poller f = record (put i (add32 (add32 c.masters c.peers) f.xpoll) f) {
  xpoll = add32 f.xpoll 1;
}
place c i other f = f

unfoldable pub place_all : Configured → ℕ → List Mode → Fan → Fan
place_all c i [] f = f
place_all c i (m ∷ ms) f = place_all c (i + 1) ms (place c i m f)

-- The numbers, the table and the ids, which are 0 at first.
unfoldable pub create_node_tree : Configured → List Mode → Configured × Fan
create_node_tree start ms =
    let c = count_nodes start ms in
    (
      c,
      place_all c 0 ms (record {
        xnoc = 0;
        xpeer = 0;
        xpoll = 0;
        table = replicate (num_nodes c) none;
        ids = replicate (length ms) 0;
      }),
    )

-- What a slot of the table says.
abbrev pub entry : Option (Option ℕ) → Option ℕ
entry none = none
entry (some o) = o

unfoldable pub node_by_id : Configured → List (Option ℕ) → ℕ → Option ℕ
node_by_id c table id =
    if not (num_nodes c == 0) && ltb id (num_nodes c) then entry (get_elem? table id) else none
