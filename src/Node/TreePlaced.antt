-- ===== src/Node/TreePlaced.antt =====
-- Every node keeps its place in the second loop of `create_node_tree` in shared/node.c.
use monitor_merlin.Base.{
  ℕ, zero, suc, ◌+◌, ◌<◌, ◌≤◌, ◌≡◌, refl, ap, ◌∙◌, true, some, List, [], ◌∷◌, get_elem?, set,
  length, arith, get_elem?-set_self,
}
use monitor_merlin.Node.{Mode, mode_local, mode_noc, mode_peer, mode_poller, mode_internal}
use monitor_merlin.Node.Counted.{is_counted}
use monitor_merlin.Node.Tree.{Configured, Fan, put, place, place_all}
use monitor_merlin.Node.TreeLaws.{
  next, base, position, Room, Placed, apart, kept, next-place, Room-place,
}

Placed-place :
    (c : Configured) (f : Fan) (i j p : ℕ) (m k : Mode) (ms : List Mode)
    → Room c f i (k ∷ ms)
    → Placed c f i j p m
    → Placed c (place c i k f) (i + 1) j p m
unfolding place put
Placed-place c f i j p m mode_noc ms r h =
    kept c f (place c i mode_noc f) i j p (position c mode_noc f) m h refl refl
      (apart c f i j p m mode_noc ms r h) (next-place c f i m mode_noc ms r)
Placed-place c f i j p m mode_peer ms r h =
    kept c f (place c i mode_peer f) i j p (position c mode_peer f) m h refl refl
      (apart c f i j p m mode_peer ms r h) (next-place c f i m mode_peer ms r)
Placed-place c f i j p m mode_poller ms r h =
    kept c f (place c i mode_poller f) i j p (position c mode_poller f) m h refl refl
      (apart c f i j p m mode_poller ms r h) (next-place c f i m mode_poller ms r)
Placed-place c f i j p m mode_local ms r h = record {
  before = omega (arith, h.before);
  counted = h.counted;
  from = h.from;
  upto = h.upto;
  held = h.held;
  known = h.known;
}
Placed-place c f i j p m mode_internal ms r h = record {
  before = omega (arith, h.before);
  counted = h.counted;
  from = h.from;
  upto = h.upto;
  held = h.held;
  known = h.known;
}

placed_at :
    (c : Configured) (f f' : Fan) (i q : ℕ) (m : Mode)
    → is_counted m m ≡ true
    → f'.table ≡ set f.table q (some i)
    → f'.ids ≡ set f.ids i q
    → base m c ≤ q
    → q < base m c + next m f'
    → q < length f.table
    → i < length f.ids
    → Placed c f' (i + 1) i q m
placed_at c f f' i q m e table ids from upto in_table in_ids = record {
  before = omega arith;
  counted = e;
  from = from;
  upto = upto;
  held = ap (λ t. get_elem? t q) table ∙ get_elem?-set_self f.table q (some i) in_table;
  known = ap (λ t. get_elem? t i) ids ∙ get_elem?-set_self f.ids i q in_ids;
}

placed :
    (c : Configured) (f : Fan) (i : ℕ) (k : Mode) (ms : List Mode)
    → Room c f i (k ∷ ms)
    → is_counted k k ≡ true
    → Placed c (place c i k f) (i + 1) i (position c k f) k
unfolding place put
placed c f i mode_noc ms r e =
    placed_at c f (place c i mode_noc f) i (position c mode_noc f) mode_noc refl refl refl
      (omega (arith, r.masters, r.peers, r.pollers, r.few))
      (omega (arith, r.masters, r.peers, r.pollers, r.few))
      (omega (arith, r.table, r.masters, r.peers, r.pollers, r.few)) (omega (arith, r.ids))
placed c f i mode_peer ms r e =
    placed_at c f (place c i mode_peer f) i (position c mode_peer f) mode_peer refl refl refl
      (omega (arith, r.masters, r.peers, r.pollers, r.few))
      (omega (arith, r.masters, r.peers, r.pollers, r.few))
      (omega (arith, r.table, r.masters, r.peers, r.pollers, r.few)) (omega (arith, r.ids))
placed c f i mode_poller ms r e =
    placed_at c f (place c i mode_poller f) i (position c mode_poller f) mode_poller refl refl refl
      (omega (arith, r.masters, r.peers, r.pollers, r.few))
      (omega (arith, r.masters, r.peers, r.pollers, r.few))
      (omega (arith, r.table, r.masters, r.peers, r.pollers, r.few)) (omega (arith, r.ids))
placed c f i mode_local ms r e = absurd (cc e)
placed c f i mode_internal ms r e = absurd (cc e)

-- At the end of the second loop.
pub record Finished (c : Configured) (f : Fan) (n j : ℕ) (m : Mode) : Type 0 where
  pub at_position : ℕ
  pub is_placed : Placed c f n j at_position m
  pub room : Room c f n []

keeps_placed :
    (c : Configured) (f : Fan) (i j p : ℕ) (m : Mode) (ms : List Mode)
    → Room c f i ms
    → Placed c f i j p m
    → Finished c (place_all c i ms f) (i + length ms) j m
unfolding place_all
keeps_placed c f i j p m [] r h = record {
  at_position = p;
  is_placed = rw no_more h;
  room = rw no_more r;
}
  where
    no_more : i + 0 ≡ i
    no_more = omega arith
keeps_placed c f i j p m (k ∷ ms) r h = rw (shifted) (
    keeps_placed c (place c i k f) (i + 1) j p m ms (Room-place c f i k ms r)
      (Placed-place c f i j p m k ms r h))
  where
    shifted : i + suc (length ms) ≡ i + 1 + length ms
    shifted = omega arith

pub finishes :
    (c : Configured) (f : Fan) (i j : ℕ) (m : Mode) (ms : List Mode)
    → Room c f i ms
    → get_elem? ms j ≡ some m
    → is_counted m m ≡ true
    → Finished c (place_all c i ms f) (i + length ms) (i + j) m
unfolding place_all
finishes c f i j m [] r h e = absurd (cc h)
finishes c f i zero m (k ∷ ms) r h e =
    let same : k ≡ m = cc h in
    rw (shifted, ← same, first)
      (keeps_placed c (place c i k f) (i + 1) i (position c k f) k ms (Room-place c f i k ms r)
        (placed c f i k ms r (rw same e)))
  where
    shifted : i + suc (length ms) ≡ i + 1 + length ms
    shifted = omega arith

    first : i + 0 ≡ i
    first = omega arith
finishes c f i (suc j) m (k ∷ ms) r h e =
    rw (shifted, later) (finishes c (place c i k f) (i + 1) j m ms (Room-place c f i k ms r) h e)
  where
    shifted : i + suc (length ms) ≡ i + 1 + length ms
    shifted = omega arith

    later : i + suc j ≡ i + 1 + j
    later = omega arith
