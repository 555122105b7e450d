-- ===== src/Node/Config.antt =====
-- `node_oconf_cmp` and `handle_ctrl_active` of shared/node.c: whose object configuration is newer.
use monitor_merlin.Base.{
  ℕ, ◌+◌, ◌-◌, ◌%◌, ◌^◌, Bool, true, false, not, ◌&&◌, ◌||◌, Option, none, some, [], ◌∷◌, ltb, leb,
  ◌==◌, if◌then◌else◌,
}
use monitor_merlin.Binlog.{Bytes, u32}
use monitor_merlin.Node.{Mode, mode_noc, mode_poller}
use monitor_merlin.Node.Compat.{Verdict, fits, NodeInfo, Build, node_compat_cmp, node_mconf_cmp}

-- What a node says of its configuration in `struct merlin_nodeinfo`.
pub record ConfInfo : Type 0 where
  pub start_sec : ℕ
  pub start_usec : ℕ
  pub last_cfg_change : ℕ
  pub config_hash : Bytes

-- memcmp(3) or strcmp(3) answers 0.
abbrev pub same_bytes : Bytes → Bytes → Bool
same_bytes [] [] = true
same_bytes (a ∷ as') (b ∷ bs) = (a == b) && same_bytes as' bs
same_bytes x y = false

abbrev pub starts_with : Bytes → Bytes → Bool
starts_with [] s = true
starts_with (a ∷ as') [] = false
starts_with (a ∷ as') (b ∷ bs) = (a == b) && starts_with as' bs

-- strstr(3) finds the needle.
abbrev pub contains : Bytes → Bytes → Bool
contains needle [] = starts_with needle []
contains needle (b ∷ bs) = starts_with needle (b ∷ bs) || contains needle bs

-- "no" and "mon oconf fetch"
abbrev pub no_text : Bytes
no_text = 110 ∷ 111 ∷ []

abbrev pub fetch_text : Bytes
fetch_text =
    109 ∷ 111 ∷ 110 ∷ 32 ∷ 111 ∷ 99 ∷ 111 ∷ 110 ∷ 102 ∷ 32 ∷ 102 ∷ 101 ∷ 116 ∷ 99 ∷ 104 ∷ []

-- The command to fetch a configuration with says to fetch it.
unfoldable pub fetches : Option Bytes → Bool
fetches none = false
fetches (some cmd) = not (same_bytes cmd no_text) && contains fetch_text cmd

-- An `int` is kept as its 32 bits.
abbrev pub minus_one : ℕ
minus_one = u32 - 1

abbrev pub is_negative : ℕ → Bool
is_negative d = leb (2 ^ 31) d

abbrev pub is_positive : ℕ → Bool
is_positive d = ltb 0 d && ltb d (2 ^ 31)

-- The difference of two `time_t`, as an `int`.
unfoldable pub delta : ℕ → ℕ → ℕ
delta theirs ours = (theirs + 2 ^ 64 - ours) % u32

unfoldable pub master_cmp : Bool → ℕ → ℕ
master_cmp fetch tdelta =
    if fetch
    then (if is_positive tdelta then 1 else if is_negative tdelta then minus_one else 0)
    else 0

-- The earliest started wins: `ours` is `ipc.info`.
unfoldable pub start_cmp : ConfInfo → ConfInfo → ℕ
start_cmp ours info =
    if ltb ours.start_sec info.start_sec
    then minus_one
    else if ltb info.start_sec ours.start_sec
    then 1
    else if ltb ours.start_usec info.start_usec
    then minus_one
    else if ours.start_usec == info.start_usec
    then minus_one
    else 1

-- Different configurations of the same time.
unfoldable pub tie_cmp : Mode → ConfInfo → ConfInfo → ℕ
tie_cmp mode_poller ours info = minus_one
tie_cmp mode_noc ours info = 1
tie_cmp other ours info = start_cmp ours info

unfoldable pub hash_cmp : Mode → ConfInfo → Bytes → ConfInfo → ℕ → ℕ
hash_cmp mode ours hash info tdelta =
    if same_bytes info.config_hash hash
    then 0
    else if tdelta == 0
    then tie_cmp mode ours info
    else tdelta

-- `change` and `hash` are what is expected of the node, `fetch_cmd` its command to fetch with, `ours` is
-- `ipc.info`, and `info` what the node says.
unfoldable pub node_oconf_cmp : Mode → Option Bytes → ℕ → Bytes → ConfInfo → ConfInfo → ℕ
node_oconf_cmp mode_noc fetch_cmd change hash ours info =
    master_cmp (fetches fetch_cmd) (delta info.last_cfg_change change)
node_oconf_cmp mode fetch_cmd change hash ours info =
    hash_cmp mode ours hash info (delta info.last_cfg_change change)

-- The answer to CTRL_ACTIVE: 0, ESYNC_ECONFTIME, or what a comparison before answered.
pub data Active : Type 0 where
  accepted econftime : Active
  refused : Verdict → Active

unfoldable pub time_verdict : ℕ → Active
time_verdict d = if d == 0 then accepted else econftime

unfoldable pub unless_refused : Verdict → Active → Active
unless_refused fits rest = rest
unless_refused v rest = refused v

-- The second and the third comparison are made only where those before answer 0.
unfoldable pub handle_ctrl_active :
    Mode
    → Option Bytes
    → ℕ
    → Bytes
    → Build
    → ℕ
    → NodeInfo
    → ConfInfo
    → ℕ
    → NodeInfo
    → ConfInfo
    → Active
handle_ctrl_active mode fetch_cmd change hash build nodes ours our_conf len info conf =
    unless_refused (node_compat_cmp build len info) (
      unless_refused (node_mconf_cmp mode nodes ours info)
        (time_verdict (node_oconf_cmp mode fetch_cmd change hash our_conf conf)))
