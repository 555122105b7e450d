-- ===== src/Module/NoneNotifies.antt =====
-- An object that pollers check, where its poller does not notify and another poller of the group does.
use monitor_merlin.Base.{
  ℕ, zero, suc, ◌-◌, ◌≤◌, ◌<◌, ◌≡◌, ◌≢◌, inl, inr, refl, ap, ap₂, ◌∙◌, Bool, true, false, not, ◌&&◌,
  ◌||◌, List, [], ◌∷◌, Option, none, some, get_elem?, get_or, arith, ◌==◌, ==_iff, if◌then◌else◌,
  if_true, if_false, length, Bool-cases,
}
use monitor_merlin.Node.{mode_poller, mode_peer}
use monitor_merlin.Node.Send.{add64}
use monitor_merlin.Pgroup.Tables.{assigned_peer}
use monitor_merlin.Module.Notify.{
  Owner, Self, Stats, Ruling, allowed, by_master, by_peer, count_flag, num_notify,
  pgroup_num_notify, should_run_check, steps_in, hook_notification_start, is_allowed,
}
use monitor_merlin.Module.OneNotifies.{peer, pick}

abbrev of_peer : Bool → Stats → Stats → Stats × Ruling
of_peer c x y = if c then (x, by_master) else (y, by_peer)

not_picked : (c : Bool) (x y : Stats) → is_allowed (of_peer c x y).1 ≡ false
not_picked true x y = refl
not_picked false x y = refl

-- A site whose nodes are all connected: its masters, which notify, the flag MERLIN_NODE_NOTIFIES of each
-- poller of the group, and the object, by its id for the masters and by its number in the group.
pub record Cluster : Type 0 where
  pub masters : ℕ
  pub flags : List Bool
  pub id : ℕ
  pub number : ℕ

-- The poller that checks the object.
abbrev pub checker : Cluster → ℕ
checker c = assigned_peer c.number (length c.flags)

abbrev pub notifies : Cluster → ℕ → Bool
notifies c k = get_or c.flags k false

-- Every master sees the object owned by the poller that checks it.
abbrev pub master_view : Cluster → Owner
master_view c = record {
  is_ipc = false;
  mode = mode_poller;
  notifies = notifies c (checker c);
  group = c.flags;
  active_nodes = length c.flags;
}

-- Poller `k` of the group: the other pollers are its peers.
abbrev pub poller : Cluster → ℕ → Self
poller c k = record {
  online_masters = c.masters;
  notifies = notifies c k;
  num_peers = length c.flags - 1;
  active_peers = length c.flags - 1;
  peer_id = k;
}

abbrev pub poller_view : Cluster → ℕ → Owner
poller_view c k = record {
  is_ipc = checker c == k;
  mode = mode_peer;
  notifies = notifies c (checker c);
  group = c.flags;
  active_nodes = length c.flags;
}

-- What becomes of the notification on master `j` and on poller `k`.
abbrev pub at_master : Cluster → ℕ → Stats → Ruling
at_master c j stats = (hook_notification_start (peer c.masters j) (master_view c) c.id stats).1

abbrev pub at_poller : Cluster → ℕ → Stats → Ruling
at_poller c k stats = (hook_notification_start (poller c k) (poller_view c k) c.number stats).1

flag_at : (group : List Bool) (k : ℕ) → get_or group k false ≡ true → get_elem? group k ≡ some true
flag_at [] zero e = absurd (cc e)
flag_at [] (suc k) e = absurd (cc e)
flag_at (b ∷ group) zero e = ap some e
flag_at (b ∷ group) (suc k) e = flag_at group k e

count_flag-le : (o : Option Bool) (n : ℕ) → n ≤ count_flag o n
unfolding count_flag
count_flag-le (some true) n = omega arith
count_flag-le (some false) n = omega arith
count_flag-le none n = omega arith

count_flag-some : (o : Option Bool) (n : ℕ) → o ≡ some true → 0 < count_flag o n
unfolding count_flag
count_flag-some o n e = rw e (omega arith)

-- A flag that is set is counted.
num_notify-counts :
    (group : List Bool) (k n : ℕ) → get_or group k false ≡ true → k < n → 0 < num_notify group n
unfolding num_notify
num_notify-counts group k zero set lt = absurd (omega arith)
num_notify-counts group k (suc n) set lt = elim (Bool-cases (k == n)) [
  | inl e ↦
      count_flag-some (get_elem? group n) (num_notify group n)
        (flag_at group n (rw ((==_iff k n).0 e) at set))
  | inr e ↦ omega (
    arith,
    num_notify-counts group k n set (ground (arith, e, lt)),
    count_flag-le (get_elem? group n) (num_notify group n),
  )
]

is_allowed-not : (r : Ruling) → is_allowed r ≡ false → r ≢ allowed
is_allowed-not r e h = absurd (cc (e, ap is_allowed h))

no_step :
    (self : Self) (owner : Owner) (id : ℕ)
    → pgroup_num_notify owner ≢ 0
    → steps_in self owner id ≡ false
unfolding steps_in
no_step self owner id some_one =
    ap (λ b. (self.num_peers == 0 || should_run_check self id) && b) none' ∙ and_false _
  where
    none' : (pgroup_num_notify owner == 0) ≡ false
    none' = ground (arith, some_one)

    and_false : (b : Bool) → (b && false) ≡ false
    and_false true = refl
    and_false false = refl

module _ (c : Cluster) (quiet : notifies c (checker c) ≡ false) where
  -- A master leaves it to the poller that notifies.
  master_silent :
      (k j : ℕ) (stats : Stats)
      → k < length c.flags
      → notifies c k ≡ true
      → at_master c j stats ≢ allowed
  unfolding hook_notification_start pgroup_num_notify
  master_silent k j stats lt loud = is_allowed-not (at_master c j stats) (
      ap (λ (r : Stats × Ruling). is_allowed r.1) (if_false _ _ quiet)
      ∙ pick (steps_in (peer c.masters j) (master_view c) c.id) _ _
      ∙ no_step (peer c.masters j) (master_view c) c.id
          (omega (arith, num_notify-counts c.flags k (length c.flags) loud lt)))

  -- The poller that checks the object leaves it to the masters.
  checker_silent :
      (k : ℕ) (stats : Stats) → 0 < c.masters → checker c ≡ k → at_poller c k stats ≢ allowed
  unfolding hook_notification_start
  checker_silent k stats up e = is_allowed-not (at_poller c k stats) (
      ap (λ (r : Stats × Ruling). is_allowed r.1)
        (if_true _ _ (ap₂ (λ a b. not a && not b) some_master (rw e at quiet))))
    where
      some_master : (c.masters == 0) ≡ false
      some_master = ground (arith, up)

  -- Another poller leaves it to its peer.
  fellow_silent : (k : ℕ) (stats : Stats) → (checker c == k) ≡ false → at_poller c k stats ≢ allowed
  unfolding hook_notification_start
  fellow_silent k stats other = is_allowed-not (at_poller c k stats) (
      ap
        (λ (x : Stats × Ruling).
          is_allowed
            (if not (c.masters == 0) && not (notifies c k)
              then (record stats { master = add64 stats.master 1 }, by_master)
              else x).1)
        (if_false _ _ other)
      ∙ not_picked (not (c.masters == 0) && not (notifies c k)) _ _)

-- At a site with a master, where all nodes are connected and the masters notify, for an object of a group of pollers: if the
-- poller that checks it does not notify and some poller of the group does, no node sends its
-- notification, neither any of the masters nor any poller of the group.
pub notification-none :
    (c : Cluster) (k : ℕ)
    → 0 < c.masters
    → notifies c (checker c) ≡ false
    → k < length c.flags
    → notifies c k ≡ true
    → ((j : ℕ) (stats : Stats) → at_master c j stats ≢ allowed)
      × ((i : ℕ) (stats : Stats) → at_poller c i stats ≢ allowed)
notification-none c k up quiet lt loud = (
  (λ j stats. master_silent c quiet k j stats lt loud),
  (λ i stats. elim (Bool-cases (checker c == i)) [
    | inl e ↦ checker_silent c quiet i stats up ((==_iff (checker c) i).0 e)
    | inr e ↦ fellow_silent c quiet i stats e
  ]),
)
