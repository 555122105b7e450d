-- ===== src/Node/TreeLaws.antt =====
-- The second loop of `create_node_tree` in shared/node.c, one node at a time.
use monitor_merlin.Base.{
  ℕ, ◌+◌, ◌<◌, ◌≤◌, ◌≡◌, ◌≢◌, ap, ◌∙◌, true, some, List, [], ◌∷◌, get_elem?, set, length,
  if◌then◌else◌, arith, length-set, get_elem?-set_ne,
}
use monitor_merlin.Binlog.{u32, add32}
use monitor_merlin.Node.{Mode, mode_local, mode_noc, mode_peer, mode_poller, mode_internal}
use monitor_merlin.Node.Counted.{is_counted}
use monitor_merlin.Node.Tree.{Configured, Fan, put, place}

-- The number of nodes of a type.
abbrev pub number : Mode → List Mode → ℕ
number m [] = 0
number m (k ∷ ks) = (if is_counted m k then 1 else 0) + number m ks

abbrev pub next : Mode → Fan → ℕ
next mode_noc f = f.xnoc
next mode_peer f = f.xpeer
next mode_poller f = f.xpoll
next other f = 0

abbrev pub base : Mode → Configured → ℕ
base mode_noc c = 0
base mode_peer c = c.masters
base mode_poller c = c.masters + c.peers
base other c = 0

-- There is room for the nodes still to be placed.
pub record Room (c : Configured) (f : Fan) (i : ℕ) (ms : List Mode) : Type 0 where
  pub masters : f.xnoc + number mode_noc ms ≤ c.masters
  pub peers : f.xpeer + number mode_peer ms ≤ c.peers
  pub pollers : f.xpoll + number mode_poller ms ≤ c.pollers
  pub few : c.masters + c.peers + c.pollers < u32
  pub table : length f.table ≡ c.masters + c.peers + c.pollers
  pub ids : length f.ids ≡ i + length ms

pub Room-place :
    (c : Configured) (f : Fan) (i : ℕ) (m : Mode) (ms : List Mode)
    → Room c f i (m ∷ ms)
    → Room c (place c i m f) (i + 1) ms
unfolding place put
Room-place c f i mode_noc ms r = record {
  masters = omega (arith, r.masters, r.few);
  peers = omega (arith, r.peers);
  pollers = omega (arith, r.pollers);
  few = r.few;
  table = length-set f.table f.xnoc (some i) ∙ r.table;
  ids = length-set f.ids i f.xnoc ∙ r.ids ∙ omega arith;
}
Room-place c f i mode_peer ms r = record {
  masters = omega (arith, r.masters);
  peers = omega (arith, r.peers, r.few);
  pollers = omega (arith, r.pollers);
  few = r.few;
  table = length-set f.table (add32 c.masters f.xpeer) (some i) ∙ r.table;
  ids = length-set f.ids i (add32 c.masters f.xpeer) ∙ r.ids ∙ omega arith;
}
Room-place c f i mode_poller ms r = record {
  masters = omega (arith, r.masters);
  peers = omega (arith, r.peers);
  pollers = omega (arith, r.pollers, r.few);
  few = r.few;
  table = length-set f.table (add32 (add32 c.masters c.peers) f.xpoll) (some i) ∙ r.table;
  ids = length-set f.ids i (add32 (add32 c.masters c.peers) f.xpoll) ∙ r.ids ∙ omega arith;
}
Room-place c f i mode_local ms r = record {
  masters = omega (arith, r.masters);
  peers = omega (arith, r.peers);
  pollers = omega (arith, r.pollers);
  few = r.few;
  table = r.table;
  ids = r.ids ∙ omega arith;
}
Room-place c f i mode_internal ms r = record {
  masters = omega (arith, r.masters);
  peers = omega (arith, r.peers);
  pollers = omega (arith, r.pollers);
  few = r.few;
  table = r.table;
  ids = r.ids ∙ omega arith;
}

-- The node `j` was placed at the position `p`, which is not used again.
pub record Placed (c : Configured) (f : Fan) (i j p : ℕ) (m : Mode) : Type 0 where
  pub before : j < i
  pub counted : is_counted m m ≡ true
  pub from : base m c ≤ p
  pub upto : p < base m c + next m f
  pub held : get_elem? f.table p ≡ some (some j)
  pub known : get_elem? f.ids j ≡ some p

-- The position of the next node of a type.
abbrev pub position : Configured → Mode → Fan → ℕ
position c mode_noc f = f.xnoc
position c mode_peer f = add32 c.masters f.xpeer
position c mode_poller f = add32 (add32 c.masters c.peers) f.xpoll
position c other f = c.masters + c.peers + c.pollers

pub next-place :
    (c : Configured) (f : Fan) (i : ℕ) (m k : Mode) (ms : List Mode)
    → Room c f i (k ∷ ms)
    → next m f ≤ next m (place c i k f)
unfolding place put
next-place c f i mode_noc mode_noc ms r = omega (arith, r.masters, r.peers, r.pollers, r.few)
next-place c f i mode_noc mode_peer ms r = omega (arith, r.masters, r.peers, r.pollers, r.few)
next-place c f i mode_noc mode_poller ms r = omega (arith, r.masters, r.peers, r.pollers, r.few)
next-place c f i mode_noc mode_local ms r = omega (arith, r.masters, r.peers, r.pollers, r.few)
next-place c f i mode_noc mode_internal ms r = omega (arith, r.masters, r.peers, r.pollers, r.few)
next-place c f i mode_peer mode_noc ms r = omega (arith, r.masters, r.peers, r.pollers, r.few)
next-place c f i mode_peer mode_peer ms r = omega (arith, r.masters, r.peers, r.pollers, r.few)
next-place c f i mode_peer mode_poller ms r = omega (arith, r.masters, r.peers, r.pollers, r.few)
next-place c f i mode_peer mode_local ms r = omega (arith, r.masters, r.peers, r.pollers, r.few)
next-place c f i mode_peer mode_internal ms r = omega (arith, r.masters, r.peers, r.pollers, r.few)
next-place c f i mode_poller mode_noc ms r = omega (arith, r.masters, r.peers, r.pollers, r.few)
next-place c f i mode_poller mode_peer ms r = omega (arith, r.masters, r.peers, r.pollers, r.few)
next-place c f i mode_poller mode_poller ms r = omega (arith, r.masters, r.peers, r.pollers, r.few)
next-place c f i mode_poller mode_local ms r = omega (arith, r.masters, r.peers, r.pollers, r.few)
next-place c f i mode_poller mode_internal ms r =
    omega (arith, r.masters, r.peers, r.pollers, r.few)
next-place c f i mode_local mode_noc ms r = omega (arith, r.masters, r.peers, r.pollers, r.few)
next-place c f i mode_local mode_peer ms r = omega (arith, r.masters, r.peers, r.pollers, r.few)
next-place c f i mode_local mode_poller ms r = omega (arith, r.masters, r.peers, r.pollers, r.few)
next-place c f i mode_local mode_local ms r = omega (arith, r.masters, r.peers, r.pollers, r.few)
next-place c f i mode_local mode_internal ms r = omega (arith, r.masters, r.peers, r.pollers, r.few)
next-place c f i mode_internal mode_noc ms r = omega (arith, r.masters, r.peers, r.pollers, r.few)
next-place c f i mode_internal mode_peer ms r = omega (arith, r.masters, r.peers, r.pollers, r.few)
next-place c f i mode_internal mode_poller ms r =
    omega (arith, r.masters, r.peers, r.pollers, r.few)
next-place c f i mode_internal mode_local ms r = omega (arith, r.masters, r.peers, r.pollers, r.few)
next-place c f i mode_internal mode_internal ms r =
    omega (arith, r.masters, r.peers, r.pollers, r.few)

pub apart :
    (c : Configured) (f : Fan) (i j p : ℕ) (m k : Mode) (ms : List Mode)
    → Room c f i (k ∷ ms)
    → Placed c f i j p m
    → position c k f ≢ p
apart c f i j p mode_noc mode_noc ms r h =
    omega (arith, h.from, h.upto, r.masters, r.peers, r.pollers, r.few)
apart c f i j p mode_noc mode_peer ms r h =
    omega (arith, h.from, h.upto, r.masters, r.peers, r.pollers, r.few)
apart c f i j p mode_noc mode_poller ms r h =
    omega (arith, h.from, h.upto, r.masters, r.peers, r.pollers, r.few)
apart c f i j p mode_peer mode_noc ms r h =
    omega (arith, h.from, h.upto, r.masters, r.peers, r.pollers, r.few)
apart c f i j p mode_peer mode_peer ms r h =
    omega (arith, h.from, h.upto, r.masters, r.peers, r.pollers, r.few)
apart c f i j p mode_peer mode_poller ms r h =
    omega (arith, h.from, h.upto, r.masters, r.peers, r.pollers, r.few)
apart c f i j p mode_poller mode_noc ms r h =
    omega (arith, h.from, h.upto, r.masters, r.peers, r.pollers, r.few)
apart c f i j p mode_poller mode_peer ms r h =
    omega (arith, h.from, h.upto, r.masters, r.peers, r.pollers, r.few)
apart c f i j p mode_poller mode_poller ms r h =
    omega (arith, h.from, h.upto, r.masters, r.peers, r.pollers, r.few)
apart c f i j p mode_local k ms r h = absurd (cc h.counted)
apart c f i j p mode_internal k ms r h = absurd (cc h.counted)
apart c f i j p mode_noc mode_local ms r h =
    omega (arith, h.from, h.upto, r.masters, r.peers, r.pollers, r.few)
apart c f i j p mode_noc mode_internal ms r h =
    omega (arith, h.from, h.upto, r.masters, r.peers, r.pollers, r.few)
apart c f i j p mode_peer mode_local ms r h =
    omega (arith, h.from, h.upto, r.masters, r.peers, r.pollers, r.few)
apart c f i j p mode_peer mode_internal ms r h =
    omega (arith, h.from, h.upto, r.masters, r.peers, r.pollers, r.few)
apart c f i j p mode_poller mode_local ms r h =
    omega (arith, h.from, h.upto, r.masters, r.peers, r.pollers, r.few)
apart c f i j p mode_poller mode_internal ms r h =
    omega (arith, h.from, h.upto, r.masters, r.peers, r.pollers, r.few)

pub kept :
    (c : Configured) (f f' : Fan) (i j p q : ℕ) (m : Mode)
    → Placed c f i j p m
    → f'.table ≡ set f.table q (some i)
    → f'.ids ≡ set f.ids i q
    → q ≢ p
    → next m f ≤ next m f'
    → Placed c f' (i + 1) j p m
kept c f f' i j p q m h table ids other more = record {
  before = omega (arith, h.before);
  counted = h.counted;
  from = h.from;
  upto = omega (arith, h.upto);
  held = ap (λ t. get_elem? t p) table ∙ get_elem?-set_ne f.table (some i) other ∙ h.held;
  known =
      ap (λ t. get_elem? t j) ids
      ∙ get_elem?-set_ne f.ids q (λ e. absurd (omega (arith, h.before, e)))
      ∙ h.known;
}
