-- ===== src/Node/TreeTests.antt =====
-- The table of nodes at a concrete configuration.
use monitor_merlin.Base.{◌≡◌, refl, some, List, [], ◌∷◌, get_or, arith}
use monitor_merlin.Node.{Mode, mode_noc, mode_peer, mode_poller}
use monitor_merlin.Node.Tree.{count_nodes, put, place, place_all, create_node_tree, node_by_id}
use monitor_merlin.Node.TreeIds.{unset, InBlock, node_by_id-create_node_tree}

abbrev modes : List Mode
modes = mode_poller ∷ mode_peer ∷ mode_noc ∷ mode_poller ∷ []

tree : (create_node_tree unset modes).1.table ≡ some 2 ∷ some 1 ∷ some 0 ∷ some 3 ∷ []
unfolding create_node_tree place_all place put count_nodes
tree = refl

node_by_id-create_node_tree_example :
    (node_by_id
        (create_node_tree unset modes).0
        (create_node_tree unset modes).1.table
        (get_or (create_node_tree unset modes).1.ids 3 0)
      ≡ some 3)
    × InBlock
        (create_node_tree unset modes).0
        mode_poller
        (get_or (create_node_tree unset modes).1.ids 3 0)
node_by_id-create_node_tree_example =
    node_by_id-create_node_tree modes 3 mode_poller (omega arith) refl refl
