-- ===== src/Module/OneNotifies.antt =====
-- Of the peers of a group, which one sends a notification.
use native.Mathlib.Nat.{mod-lt}
use monitor_merlin.Base.{
  ℕ, zero, suc, ◌-◌, ◌<◌, ◌≡◌, ◌↔◌, refl, sym, ap, ap₂, ◌∙◌, Bool, true, false, ◌&&◌, ◌||◌, [],
  arith, ◌==◌, ==_iff, if◌then◌else◌, if_true, if_false,
}
use monitor_merlin.Binlog.{u32}
use monitor_merlin.Node.{mode_poller, mode_peer}
use monitor_merlin.Pgroup.Tables.{assigned_peer}
use monitor_merlin.Module.Notify.{
  Owner, Self, Stats, Ruling, allowed, by_master, by_poller, by_peer, should_run_check,
  pgroup_num_notify, is_poller, steps_in, hook_notification_start, is_allowed,
}

-- An object of the configuration: checked by the peers themselves, with the id that picks one of them, or
-- by a poller that they all see alike.
pub data Object : Type 0 where
  own : ℕ → Object
  polled : ℕ → Owner → Object

abbrev pub id_of : Object → ℕ
id_of (own id) = id
id_of (polled id owner) = id

-- The owner of an object, as peer `k` of `d` sees it.
abbrev pub seen_by : ℕ → ℕ → Object → Owner
seen_by d k (own id) = record {
  is_ipc = assigned_peer id d == k;
  mode = mode_peer;
  notifies = true;
  group = [];
  active_nodes = d;
}
seen_by d k (polled id owner) = owner

-- Peer `k` of `d` that are all connected to each other, and have no master.
abbrev pub peer : ℕ → ℕ → Self
peer d k = record {
  online_masters = 0;
  notifies = true;
  num_peers = d - 1;
  active_peers = d - 1;
  peer_id = k;
}

abbrev pub ruling : ℕ → ℕ → Object → Stats → Ruling
ruling d k o stats = (hook_notification_start (peer d k) (seen_by d k o) (id_of o) stats).1

-- The poller that owns the object does not notify, and none of its group does.
abbrev pub Silent : Object → Type 0
Silent (own id) = Unit
Silent (polled id owner) =
    (owner.is_ipc ≡ false)
    × (owner.mode ≡ mode_poller)
    × (owner.notifies ≡ false)
    × (pgroup_num_notify owner ≡ 0)

pub assigned_peer-lt : (id d : ℕ) → 0 < d → assigned_peer id d < d
unfolding assigned_peer
assigned_peer-lt id zero h = h
assigned_peer-lt id (suc d) h = mod-lt id (omega arith)

assigned_one : (id : ℕ) → assigned_peer id 1 ≡ 0
unfolding assigned_peer
assigned_one id = omega arith

-- A peer among `d` runs the checks that are assigned to it.
should_run_check-peer :
    (d k id : ℕ) → 0 < d → d < u32 → should_run_check (peer d k) id ≡ (assigned_peer id d == k)
unfolding should_run_check
should_run_check-peer d k id some_peer few = ap (λ n. assigned_peer id n == k) (omega arith)

abbrev pub either : Bool → Stats → Stats → Stats × Ruling
either c x y = if c then (x, allowed) else (y, by_peer)

pub pick : (c : Bool) (x y : Stats) → is_allowed (either c x y).1 ≡ c
pick true x y = refl
pick false x y = refl

own-ruling :
    (d k id : ℕ) (stats : Stats)
    → is_allowed (ruling d k (own id) stats) ≡ (assigned_peer id d == k)
unfolding hook_notification_start
own-ruling d k id stats = pick (assigned_peer id d == k) _ _

-- The peer to which the object is assigned steps in for its poller, and no other.
steps_in-peer :
    (d k id : ℕ) (owner : Owner)
    → 0 < d
    → d < u32
    → k < d
    → pgroup_num_notify owner ≡ 0
    → steps_in (peer d k) owner id ≡ (assigned_peer id d == k)
unfolding steps_in
steps_in-peer zero k id owner some_peer few mine e = absurd (omega arith)
steps_in-peer (suc zero) k id owner some_peer few mine e =
    ap (λ n. n == 0) e ∙ sym ((==_iff (assigned_peer id 1) k).1 (assigned_one id ∙ omega arith))
steps_in-peer (suc (suc d)) k id owner some_peer few mine e =
    ap₂ (λ a b. a && (b == 0)) (ap (λ z. z || should_run_check (peer (suc (suc d)) k) id) more) e
    ∙ and_true (should_run_check (peer (suc (suc d)) k) id)
    ∙ should_run_check-peer (suc (suc d)) k id some_peer few
  where
    more : (suc (suc d) - 1 == 0) ≡ false
    more = ground arith

    and_true : (b : Bool) → (b && true) ≡ b
    and_true true = refl
    and_true false = refl

polled-ruling :
    (d k id : ℕ) (owner : Owner) (stats : Stats)
    → 0 < d
    → d < u32
    → k < d
    → Silent (polled id owner)
    → is_allowed (ruling d k (polled id owner) stats) ≡ (assigned_peer id d == k)
unfolding hook_notification_start
polled-ruling d k id owner stats some_peer few mine (a, b, c, e) =
    ap (λ (r : Stats × Ruling). is_allowed r.1)
      (if_false _ _ a ∙ if_true _ _ (ap is_poller b) ∙ if_false _ _ c)
    ∙ pick (steps_in (peer d k) owner id) _ _
    ∙ steps_in-peer d k id owner some_peer few mine e

peer-ruling :
    (d k : ℕ) (o : Object) (stats : Stats)
    → 0 < d
    → d < u32
    → k < d
    → Silent o
    → is_allowed (ruling d k o stats) ≡ (assigned_peer (id_of o) d == k)
peer-ruling d k (own id) stats some_peer few mine silent = own-ruling d k id stats
peer-ruling d k (polled id owner) stats some_peer few mine silent =
    polled-ruling d k id owner stats some_peer few mine silent

-- Among peers that are all connected to each other, fewer than 2^32 and without a master, for an object of
-- theirs or of a group of pollers of which none notifies: one of them sends the notification, and no
-- other does.
pub notification-one :
    (d : ℕ) (o : Object) (stats : ℕ → Stats)
    → 0 < d
    → d < u32
    → Silent o
    → (k : ℕ) × (k < d) × ((j : ℕ) → j < d → (ruling d j o (stats j) ≡ allowed) ↔ (j ≡ k))
notification-one d o stats some_peer few silent = (
  assigned_peer (id_of o) d,
  assigned_peer-lt (id_of o) d some_peer,
  λ j h. (
    (λ e. sym (
        (==_iff (assigned_peer (id_of o) d) j).0
          (sym (peer-ruling d j o (stats j) some_peer few h silent) ∙ ap is_allowed e))),
    (λ e. only_allowed (ruling d j o (stats j)) (
        peer-ruling d j o (stats j) some_peer few h silent
        ∙ (==_iff (assigned_peer (id_of o) d) j).1 (sym e))),
  ),
)
  where
    only_allowed : (r : Ruling) → is_allowed r ≡ true → r ≡ allowed
    only_allowed allowed e = refl
    only_allowed by_master e = absurd (cc e)
    only_allowed by_poller e = absurd (cc e)
    only_allowed by_peer e = absurd (cc e)
