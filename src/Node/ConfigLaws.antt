-- ===== src/Node/ConfigLaws.antt =====
-- Two peers with different configurations agree on whose is the newer one.
use monitor_merlin.Base.{
  ℕ, ◌+◌, ◌^◌, ◌<◌, ◌≡◌, ◌≢◌, ◌⊎◌, refl, ◌∙◌, false, not, Option, [], ◌∷◌, arith,
}
use monitor_merlin.Binlog.{Bytes}
use monitor_merlin.Node.{mode_peer}
use monitor_merlin.Node.Config.{
  ConfInfo, same_bytes, is_negative, is_positive, delta, start_cmp, tie_cmp, hash_cmp,
  node_oconf_cmp,
}

same_bytes_comm : (x y : Bytes) → same_bytes x y ≡ same_bytes y x
same_bytes_comm [] [] = refl
same_bytes_comm [] (b ∷ bs) = refl
same_bytes_comm (a ∷ as') [] = refl
same_bytes_comm (a ∷ as') (b ∷ bs) = ground (arith, same_bytes_comm as' bs)

-- One of the two differs from the other in time of change or of start.
abbrev pub Apart : ConfInfo → ConfInfo → Type 0
Apart a b =
    (a.last_cfg_change ≢ b.last_cfg_change)
    ⊎ ((a.start_sec ≢ b.start_sec) ⊎ (a.start_usec ≢ b.start_usec))

-- What the peer `a` finds of the peer `b`.
abbrev pub peer_cmp : Option Bytes → ConfInfo → ConfInfo → ℕ
peer_cmp fetch_cmd a b = node_oconf_cmp mode_peer fetch_cmd a.last_cfg_change a.config_hash a b

-- Two peers expect of each other the configuration that they have themselves, the configurations are
-- different and were changed less than 2^31 seconds apart, and the peers differ in the time of the change
-- or of their start: then one of them finds the other's newer, and the other finds that one's older.
pub peer_cmp_agree :
    (cmd cmd' : Option Bytes) (a b : ConfInfo)
    → same_bytes a.config_hash b.config_hash ≡ false
    → a.last_cfg_change < 2 ^ 63
    → b.last_cfg_change < 2 ^ 63
    → a.last_cfg_change < b.last_cfg_change + 2 ^ 31
    → b.last_cfg_change < a.last_cfg_change + 2 ^ 31
    → Apart a b
    → (is_positive (peer_cmp cmd a b) ≡ not (is_positive (peer_cmp cmd' b a)))
      × (is_negative (peer_cmp cmd a b) ≡ is_positive (peer_cmp cmd' b a))
unfolding node_oconf_cmp hash_cmp tie_cmp start_cmp delta
peer_cmp_agree cmd cmd' a b other small small' near near' apart =
    let other' : same_bytes b.config_hash a.config_hash ≡ false =
      same_bytes_comm b.config_hash a.config_hash ∙ other in
    ground (arith, other, other')
