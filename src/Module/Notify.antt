-- ===== src/Module/Notify.antt =====
-- Who sends a notification, runs an event handler or obeys a command on an object: `should_run_check`,
-- `pgroup_num_notify`, `hook_event_handler`, and the first part of `hook_notification`, of
-- module/hooks.c.
use monitor_merlin.Base.{
  ℕ, zero, suc, ◌+◌, ◌%◌, Bool, true, false, not, ◌&&◌, ◌||◌, Option, some, List, get_elem?, ◌==◌,
  if◌then◌else◌,
}
use monitor_merlin.Binlog.{u32}
use monitor_merlin.Node.{Mode, mode_poller, mode_peer}
use monitor_merlin.Node.Send.{add64}
use monitor_merlin.Pgroup.Tables.{assigned_peer}

-- The node that `pgroup_host_node` or `pgroup_service_node` answers: whether it is `&ipc`, its mode, its flag
-- MERLIN_NODE_NOTIFIES, and that flag of the nodes of its peer group, the active ones first.
pub record Owner : Type 0 where
  pub is_ipc : Bool
  pub mode : Mode
  pub notifies : Bool
  pub group : List Bool
  pub active_nodes : ℕ

-- What a node knows of itself: `ipc` and the counters of the other nodes.
pub record Self : Type 0 where
  pub online_masters : ℕ
  pub notifies : Bool
  pub num_peers : ℕ
  pub active_peers : ℕ
  pub peer_id : ℕ

-- `merlin_notify_stats` for one kind of notification
pub record Stats : Type 0 where
  pub sent : ℕ
  pub master : ℕ
  pub poller : ℕ
  pub peer : ℕ

-- The notification goes out, or it is cancelled in favour of others.
pub data Ruling : Type 0 where
  allowed by_master by_poller by_peer : Ruling

unfoldable pub should_run_check : Self → ℕ → Bool
should_run_check self id = assigned_peer id ((self.active_peers + 1) % u32) == self.peer_id

-- One turn of the loop, for the flag of a node, where the group has one at this index.
unfoldable pub count_flag : Option Bool → ℕ → ℕ
count_flag (some true) n = n + 1
count_flag other n = n

unfoldable pub num_notify : List Bool → ℕ → ℕ
num_notify group zero = 0
num_notify group (suc i) = count_flag (get_elem? group i) (num_notify group i)

unfoldable pub pgroup_num_notify : Owner → ℕ
pgroup_num_notify owner = num_notify owner.group owner.active_nodes

abbrev pub is_poller : Mode → Bool
is_poller mode_poller = true
is_poller other = false

abbrev pub is_peer : Mode → Bool
is_peer mode_peer = true
is_peer other = false

-- The test that this node notifies in place of a poller that does not.
unfoldable pub steps_in : Self → Owner → ℕ → Bool
steps_in self owner id =
    (self.num_peers == 0 || should_run_check self id) && (pgroup_num_notify owner == 0)

-- For a NEBTYPE_NOTIFICATION_START of the object with this id.
unfoldable pub hook_notification_start : Self → Owner → ℕ → Stats → Stats × Ruling
hook_notification_start self owner id stats =
    if not (self.online_masters == 0) && not self.notifies
    then (record stats { master = add64 stats.master 1 }, by_master)
    else if owner.is_ipc
    then (record stats { sent = add64 stats.sent 1 }, allowed)
    else if is_poller owner.mode
    then (if owner.notifies
        then (record stats { poller = add64 stats.poller 1 }, by_poller)
        else if steps_in self owner id
        then (record stats { sent = add64 stats.sent 1 }, allowed)
        else (record stats { peer = add64 stats.peer 1 }, by_peer))
    else if is_peer owner.mode
    then (record stats { peer = add64 stats.peer 1 }, by_peer)
    else (record stats { sent = add64 stats.sent 1 }, allowed)

abbrev pub is_allowed : Ruling → Bool
is_allowed allowed = true
is_allowed other = false

-- What a custom notification command leads to: NEB_OK at once, without a packet, or the answer, after
-- `send_generic`.
pub data Obeys : Type 0 where
  at_once goes_on cancelled : Obeys

-- The cases CMD_SEND_CUSTOM_HOST_NOTIFICATION and CMD_SEND_CUSTOM_SVC_NOTIFICATION of
-- `hook_external_command`, for a known object.
unfoldable pub custom_notification : Self → Owner → ℕ → Obeys
custom_notification self owner id =
    if not (self.online_masters == 0) && not self.notifies
    then cancelled
    else if owner.is_ipc
    then at_once
    else if is_poller owner.mode
    then (if steps_in self owner id then at_once else cancelled)
    else goes_on

-- The other commands on an object that only its owner obeys.
unfoldable pub check_result_command : Owner → Obeys
check_result_command owner = if owner.is_ipc then goes_on else cancelled

-- Whether `hook_event_handler` answers NEB_OK for a NEBTYPE_EVENTHANDLER_START.
unfoldable pub hook_event_handler : Owner → Bool
hook_event_handler owner = owner.is_ipc
