-- ===== src/Node/ConfigTests.antt =====
-- The comparison of configurations at concrete nodes.
use monitor_merlin.Base.{◌≡◌, refl, none, some, not, [], ◌∷◌, arith, inl}
use monitor_merlin.Node.{mode_noc, mode_poller}
use monitor_merlin.Node.Config.{
  ConfInfo, fetch_text, fetches, minus_one, is_positive, is_negative, delta, master_cmp, tie_cmp,
  hash_cmp, node_oconf_cmp,
}
use monitor_merlin.Node.ConfigLaws.{peer_cmp, peer_cmp_agree}

abbrev old : ConfInfo
old = record { start_sec = 5; start_usec = 0; last_cfg_change = 100; config_hash = 1 ∷ [] }

abbrev new : ConfInfo
new = record { start_sec = 7; start_usec = 0; last_cfg_change = 160; config_hash = 2 ∷ [] }

from_master : node_oconf_cmp mode_noc (some fetch_text) 100 (1 ∷ []) old new ≡ 1
unfolding node_oconf_cmp master_cmp fetches delta
from_master = refl

-- A poller with another configuration of the same time is older.
tied : node_oconf_cmp mode_poller none 160 (1 ∷ []) old new ≡ minus_one
unfolding node_oconf_cmp hash_cmp tie_cmp delta
tied = refl

peer_cmp_agree_example :
    (is_positive (peer_cmp none old new) ≡ not (is_positive (peer_cmp none new old)))
    × (is_negative (peer_cmp none old new) ≡ is_positive (peer_cmp none new old))
peer_cmp_agree_example =
    peer_cmp_agree none none old new refl (omega arith) (omega arith) (omega arith) (omega arith)
      (inl (λ e. absurd (omega (arith, e))))
