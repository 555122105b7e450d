-- ===== src/Node/Compat.antt =====
-- `node_compat_cmp` and `node_mconf_cmp` of shared/node.c: whether another node may be talked to.
use monitor_merlin.Base.{
  ℕ, ◌^◌, ◌≤◌, ◌<◌, ◌≡◌, ◌↔◌, true, false, Bool, not, ◌&&◌, arith, if◌then◌else◌, ltb, ◌==◌,
}
use monitor_merlin.Binlog.{add32, sub32}
use monitor_merlin.Node.{Mode, mode_local, mode_noc, mode_peer, mode_poller, mode_internal}

-- 0 and the ESYNC codes that the two functions answer.
pub data Verdict : Type 0 where
  fits eversion ewordsize eendian eobjects eproto enodes : Verdict

-- The fields of `struct merlin_nodeinfo` that they read.
pub record NodeInfo : Type 0 where
  pub version : ℕ
  pub word_size : ℕ
  pub byte_order : ℕ
  pub object_structure_version : ℕ
  pub configured_peers : ℕ
  pub configured_pollers : ℕ
  pub configured_masters : ℕ

-- What the build says of this side: COMPAT_WORDSIZE, endianness() and
-- CURRENT_OBJECT_STRUCTURE_VERSION, which is Nagios's.
pub record Build : Type 0 where
  pub word_size : ℕ
  pub byte_order : ℕ
  pub object_structure_version : ℕ

-- sizeof(struct merlin_nodeinfo), which is packed
abbrev pub info_size : ℕ
info_size = 100

-- `info->version - MERLIN_NODEINFO_VERSION`, as an `int`, is negative.
unfoldable pub is_older : ℕ → Bool
is_older version = not (ltb (sub32 version 1) (2 ^ 31))

-- For a packet with `len` bytes of body; node and packet are not null.
unfoldable pub node_compat_cmp : Build → ℕ → NodeInfo → Verdict
node_compat_cmp build len info =
    if ltb len info_size
    then eproto
    else if is_older info.version
    then eversion
    else if ltb len info_size
    then eversion
    else if not (info.word_size == build.word_size)
    then ewordsize
    else if not (info.byte_order == build.byte_order)
    then eendian
    else if not (info.object_structure_version == build.object_structure_version)
    then eobjects
    else fits

-- `err ? ESYNC_ENODES : 0`, where `agrees` says that no test counted an error
abbrev pub unless_error : Bool → Verdict
unless_error true = fits
unless_error false = enodes

-- `type` is the other node's, `nodes` the number of nodes in its group, `ours` what we say of ourselves
-- and `info` what the other says.
unfoldable pub node_mconf_cmp : Mode → ℕ → NodeInfo → NodeInfo → Verdict
node_mconf_cmp mode_peer nodes ours info = unless_error (
    (info.configured_peers == ours.configured_peers)
    && (info.configured_masters == ours.configured_masters)
    && (info.configured_pollers == ours.configured_pollers))
node_mconf_cmp mode_poller nodes ours info = unless_error (
    (info.configured_masters == add32 ours.configured_peers 1)
    && (info.configured_peers == sub32 nodes 1))
node_mconf_cmp mode_noc nodes ours info =
    unless_error (info.configured_peers == sub32 ours.configured_masters 1)
node_mconf_cmp mode_local nodes ours info = fits
node_mconf_cmp mode_internal nodes ours info = fits

-- What it takes to be compatible.
abbrev pub Compatible : Build → ℕ → NodeInfo → Type 0
Compatible build len info =
    (info_size ≤ len)
    × (1 ≤ info.version)
    × (info.version ≤ 2 ^ 31)
    × (info.word_size ≡ build.word_size)
    × (info.byte_order ≡ build.byte_order)
    × (info.object_structure_version ≡ build.object_structure_version)

-- `node_compat_cmp` answers 0 just for a body of full length, a version from ours on that is at most
-- 2^31, and the word size, byte order and object structure version of this side.
pub node_compat_cmp_iff :
    (build : Build) (len : ℕ) (info : NodeInfo)
    → info.version < 2 ^ 32
    → (node_compat_cmp build len info ≡ fits) ↔ Compatible build len info
unfolding node_compat_cmp is_older
node_compat_cmp_iff build len info h = ground (arith, h)

-- A poller that a master accepts accepts the master: where the master's `node_mconf_cmp` of the
-- poller answers 0, so does the poller's of the master.
pub node_mconf_cmp-poller :
    (master poller : NodeInfo) (nodes nodes' : ℕ)
    → master.configured_peers < 2 ^ 32
    → node_mconf_cmp mode_poller nodes master poller ≡ fits
    → node_mconf_cmp mode_noc nodes' poller master ≡ fits
unfolding node_mconf_cmp
node_mconf_cmp-poller master poller nodes nodes' h e = ground (arith, h, e)
