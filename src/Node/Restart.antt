-- ===== src/Node/Restart.antt =====
-- The events of a backlog that is saved at the end of a run and read at the start of the next.
use monitor_merlin.Base.{◌≡◌, true, List, [], ◌∷◌}
use monitor_merlin.Binlog.{Bytes, Binlog, Os}
use monitor_merlin.Binlog.Log.{add}
use monitor_merlin.Binlog.Fifo.{has_room}
use monitor_merlin.Node.Packet.{Valid}

abbrev pub AllValid : List Bytes → Type 0
AllValid [] = Unit
AllValid (b ∷ q) = Valid b × AllValid q

-- Each event finds room in the backlog when its turn comes.
abbrev pub AllRoom : Os → Binlog → List Bytes → Type 0
AllRoom os bl [] = Unit
AllRoom os bl (b ∷ q) = (has_room bl b ≡ true) × AllRoom os (add os bl b).0 q
