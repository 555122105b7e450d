-- ===== src/Module/Hooks.antt =====
-- What the module does with the events of Naemon: `merlin_mod_hook` of module/hooks.c and the hooks behind
-- it. What they read of Naemon's objects is given, and what they write there is left out, as are the
-- periodic CTRL_ACTIVE packet and the first part of `hook_notification`, which stands in Module.Notify.
use monitor_merlin.Base.{
  ℕ, ◌/◌, ◌%◌, Bool, true, false, not, ◌&&◌, ◌||◌, Option, none, some, [], ◌∷◌, ◌++◌, take, drop,
  replicate, ◌==◌, if◌then◌else◌,
}
use monitor_merlin.Binlog.{Bytes}
use monitor_merlin.Module.Routing.{Site, Sender, Answer, fine, minus, magic_nonet, send_generic}
use monitor_merlin.Module.Notify.{Obeys, at_once, goes_on, cancelled}

-- DEST_PEERS_MASTERS, DEST_PEERS_POLLERS and DEST_BROADCAST
abbrev pub dest_peers_masters : ℕ
dest_peers_masters = 65532

abbrev pub dest_peers_pollers : ℕ
dest_peers_pollers = 65526

abbrev pub dest_broadcast : ℕ
dest_broadcast = 65535

-- A `uint16_t` as its bytes.
abbrev pub bytes16 : ℕ → Bytes
bytes16 n = n % 256 ∷ n / 256 % 256 ∷ []

-- `pkt->hdr.selection = selection` and `pkt->hdr.code = code`
unfoldable pub set_selection : ℕ → Bytes → Bytes
set_selection selection pkt = take 14 pkt ++ (bytes16 selection ++ drop 16 pkt)

unfoldable pub set_code : ℕ → Bytes → Bytes
set_code code pkt = take 12 pkt ++ (bytes16 code ++ drop 14 pkt)

-- A packet of zeros with the number of the callback and DEST_BROADCAST.
unfoldable pub new_packet : ℕ → Bytes
new_packet cb =
    replicate 10 0 ++ (bytes16 cb ++ (0 ∷ 0 ∷ (bytes16 dest_broadcast ++ replicate 112 0)))

-- `tmp_notif_pkt`, with `merlin_encode_event` for the copy of its data.
pub record Held : Type 0 where
  pub pkt : Bytes
  pub encode : Bytes → Bytes

-- The static variables of hooks.c. `last_host` and `last_service` are the objects of the last status packets.
pub record Broker : Type 0 where
  pub sender : Sender
  pub held : Option Held
  pub last_host : Option ℕ
  pub last_service : Option ℕ

-- The type of `recv_event`: NEBCALLBACK_HOST_CHECK_DATA or NEBCALLBACK_HOST_STATUS_DATA, the two for
-- services, or another, or there is none.
pub data Received : Type 0 where
  host_result service_result unrelated : Received

abbrev pub is_host_result : Received → Bool
is_host_result host_result = true
is_host_result other = false

abbrev pub is_service_result : Received → Bool
is_service_result service_result = true
is_service_result other = false

-- `merlin_sender` is set, and `recv_event`.
pub record Origin : Type 0 where
  pub from_node : Bool
  pub received : Received

-- The answer 0, an error, or that Naemon is not to go on.
pub data Reply : Type 0 where
  done : Answer → Reply
  cancel : Reply

unfoldable pub get_selection : Option ℕ → ℕ
get_selection none = dest_peers_masters
get_selection (some id) = id % 65536

unfoldable pub get_hostgroup_selection : Option ℕ → ℕ
get_hostgroup_selection none = dest_peers_pollers
get_hostgroup_selection (some id) = id % 65536

-- `send_generic` over the state of the hooks.
unfoldable pub send : Site → (Bytes → Bytes) → Broker → Bytes → Broker × Answer
send m encode b pkt =
    let out = send_generic m encode b.sender pkt in (record b { sender = out.0 }, out.1)

unfoldable pub hold_notification_packet : Broker → Held → Broker × Answer
hold_notification_packet b h = elim b.held [
  | some other ↦ (b, minus)
  | none ↦ (record b { held = some h }, fine)
]

unfoldable pub flush_held : Site → Broker → Option Held → Broker
flush_held m b none = b
flush_held m b (some h) = record (send m h.encode b h.pkt).0 { held = none }

-- Its answer is not looked at.
abbrev pub flush_notification : Site → Broker → Broker
flush_notification m b = flush_held m b b.held

abbrev pub same_object : Option ℕ → ℕ → Bool
same_object none id = false
same_object (some last) id = last == id

-- Duplicates are looked for when the same object is sent again.
unfoldable pub send_host_status : Site → (Bytes → Bytes) → Broker → Bytes → ℕ → Broker × Answer
send_host_status m encode b pkt id =
    send m encode
      (record b {
        sender = record b.sender { check_dupes = same_object b.last_host id };
        last_host = some id;
      })
      pkt

unfoldable pub send_service_status : Site → (Bytes → Bytes) → Broker → Bytes → ℕ → Broker × Answer
send_service_status m encode b pkt id =
    send m encode
      (record b {
        sender = record b.sender { check_dupes = same_object b.last_service id };
        last_service = some id;
      })
      pkt

-- What a check event says: before the check, whether we own the object and whether its host group is
-- blocked here; or that the check was processed.
pub data CheckEvent : Type 0 where
  precheck : Bool → Bool → CheckEvent
  processed other : CheckEvent

-- After the packet with the result: the notification that waits for it.
unfoldable pub then_flush : Site → Broker × Answer → Broker × Reply
then_flush m (b, answer) = (flush_notification m b, done answer)

-- Both hooks on results, with the sending of the status, and whether `recv_event` came from a node
-- and is a result for the same kind of object.
unfoldable pub on_check :
    Site → (Broker → Bytes → Broker × Answer) → Broker → Bool → Bytes → CheckEvent → Broker × Reply
on_check m status b came pkt (precheck mine blocked) =
    (b, if not mine then cancel else if blocked then cancel else done fine)
on_check m status b came pkt processed =
    if came then (b, done fine) else then_flush m (status b (set_selection dest_peers_masters pkt))
on_check m status b came pkt other = (b, done fine)

unfoldable pub hook_host_result :
    Site → (Bytes → Bytes) → Broker → Origin → Bytes → ℕ → CheckEvent → Broker × Reply
hook_host_result m encode b o pkt id e =
    on_check m (λ b' p. send_host_status m encode b' p id) b
      (o.from_node && is_host_result o.received) pkt e

unfoldable pub hook_service_result :
    Site → (Bytes → Bytes) → Broker → Origin → Bytes → ℕ → CheckEvent → Broker × Reply
hook_service_result m encode b o pkt id e =
    on_check m (λ b' p. send_service_status m encode b' p id) b
      (o.from_node && is_service_result o.received) pkt e

-- The answer of a hook that sends.
unfoldable pub answered : Broker × Answer → Broker × Reply
answered (b, answer) = (b, done answer)

-- A comment: its event, whether it belongs to a downtime or an acknowledgement, whether it is the one that
-- `block_comment` holds, and the selection of its host.
pub record Comment : Type 0 where
  pub is_add : Bool
  pub is_delete : Bool
  pub by_command : Bool
  pub is_blocked : Bool
  pub selection : Option ℕ

unfoldable pub mark_comment : Comment → Bytes → Bytes
mark_comment c pkt =
    let quiet = set_code magic_nonet pkt in
    let routed = set_selection (get_selection c.selection) pkt in
    let both = set_selection (get_selection c.selection) quiet in
    if c.by_command && not c.is_delete then both else if c.is_blocked then quiet else routed

unfoldable pub hook_comment :
    Site → (Bytes → Bytes) → Broker → Origin → Bytes → Comment → Broker × Reply
hook_comment m encode b o pkt c =
    if c.is_add
    then (b, done fine)
    else if o.from_node
    then (b, done fine)
    else answered (send m encode b (mark_comment c pkt))

-- `stop_cancelled` says that the attribute is NEBATTR_DOWNTIME_STOP_CANCELLED.
unfoldable pub hook_downtime :
    Site → (Bytes → Bytes) → Broker → Origin → Bytes → Bool → Option ℕ → Broker × Reply
hook_downtime m encode b o pkt stop_cancelled selection =
    if o.from_node
    then (b, done fine)
    else answered (
        send m encode b (
          if stop_cancelled
          then set_selection (get_selection selection) pkt
          else set_code magic_nonet pkt))

-- The classes of external commands: those that are not forwarded; on a host or service; the same, obeyed by
-- its owner, or not at all where the object is not known; on a host group, a service group, or all.
pub data Command : Type 0 where
  ignored global servicegroup : Command
  on_object on_hostgroup : Option ℕ → Command
  for_owner : Option ℕ → Obeys → Command

unfoldable pub command_selection : Command → ℕ
command_selection (on_object found) = get_selection found
command_selection (for_owner found obeys) = get_selection found
command_selection (on_hostgroup found) = get_hostgroup_selection found
command_selection any = dest_peers_pollers

unfoldable pub address_command : Origin → ℕ → Bytes → Bytes
address_command o selection pkt =
    if o.from_node then set_code magic_nonet pkt else set_selection selection pkt

-- The packet, and whether Naemon obeys. What `send_generic` answers is only logged.
unfoldable pub forward :
    Site → (Bytes → Bytes) → Broker → Origin → Bytes → Command → Obeys → Broker × Reply
forward m encode b o pkt c at_once = (b, done fine)
forward m encode b o pkt c goes_on =
    ((send m encode b (address_command o (command_selection c) pkt)).0, done fine)
forward m encode b o pkt c cancelled =
    ((send m encode b (address_command o (command_selection c) pkt)).0, cancel)

-- For a NEBTYPE_EXTERNALCOMMAND_START.
unfoldable pub hook_external_command :
    Site → (Bytes → Bytes) → Broker → Origin → Bytes → Command → Broker × Reply
hook_external_command m encode b o pkt ignored = (b, done fine)
hook_external_command m encode b o pkt (for_owner found obeys) =
    forward m encode b o pkt (for_owner found obeys) obeys
hook_external_command m encode b o pkt global = elim m.peers [
  | ◌∷◌ n rest ↦ forward m encode b o pkt global goes_on
  | [] ↦ elim m.pollers [
    | ◌∷◌ n rest ↦ forward m encode b o pkt global goes_on
    | [] ↦ (b, done fine)
  ]
]
hook_external_command m encode b o pkt c = forward m encode b o pkt c goes_on

-- At the end of a notification: whether it is a custom one, and the selection of the host groups of the
-- sender where the event that led to it was no external command.
unfoldable pub hook_notification_end :
    Site → (Bytes → Bytes) → Broker → Bytes → Bool → Bool → Option ℕ → Broker × Answer
hook_notification_end m encode b pkt custom received reselect =
    let pkt' = set_selection dest_peers_masters pkt in
    if custom || received
    then send m encode b
        (elim reselect [ none ↦ pkt' | some selection ↦ set_selection (selection % 65536) pkt' ])
    else hold_notification_packet b (record { pkt = pkt'; encode = encode })

-- The callbacks that `merlin_mod_hook` hands on.
pub data Callback : Type 0 where
  host_check service_check : ℕ → CheckEvent → Callback
  comment : Comment → Callback
  downtime : Bool → Option ℕ → Callback
  command : Command → Callback
  contact_method local_only status : Callback

unfoldable pub dispatch :
    Site → (Bytes → Bytes) → Broker → Origin → Bytes → Callback → Broker × Reply
dispatch m encode b o pkt (host_check id e) = hook_host_result m encode b o pkt id e
dispatch m encode b o pkt (service_check id e) = hook_service_result m encode b o pkt id e
dispatch m encode b o pkt (comment c) = hook_comment m encode b o pkt c
dispatch m encode b o pkt (downtime stopped selection) =
    hook_downtime m encode b o pkt stopped selection
dispatch m encode b o pkt (command c) = hook_external_command m encode b o pkt c
dispatch m encode b o pkt contact_method =
    answered (send m encode b (set_selection dest_peers_masters pkt))
dispatch m encode b o pkt local_only = answered (send m encode b (set_code magic_nonet pkt))
dispatch m encode b o pkt status = (b, done fine)

-- `cb` is the number of the callback.
unfoldable pub merlin_mod_hook :
    Site → (Bytes → Bytes) → Broker → Origin → ℕ → Callback → Broker × Reply
merlin_mod_hook m encode b o cb c =
    dispatch m encode (record b { sender = record b.sender { check_dupes = false } }) o
      (new_packet cb) c
