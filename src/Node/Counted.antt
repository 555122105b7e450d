-- ===== src/Node/Counted.antt =====
-- The counters of connected nodes over any sequence of changes of state.
use monitor_merlin.Base.{
  ℕ, ◌+◌, ◌%◌, ◌≡◌, ◌<◌, refl, Bool, true, false, not, ◌&&◌, [], ◌∷◌, ◌++◌, if◌then◌else◌, arith,
}
use monitor_merlin.Binlog.{u32}
use monitor_merlin.Node.{
  NodeState, state_none, state_pending, state_negotiating, state_connected, is_connected, Mode,
  mode_local, mode_noc, mode_peer, mode_poller, mode_internal,
}
use monitor_merlin.Node.State.{
  Peer, Counts, up, down, add_to, is_state, is_allowed, change, react, set_none, node_disconnect,
  greet, node_set_state,
}

-- The counter of the nodes of a mode.
abbrev pub count_of : Mode → Counts → ℕ
count_of mode_poller c = c.active_pollers
count_of mode_peer c = c.active_peers
count_of mode_noc c = c.active_masters
count_of other c = 0

-- Modes that have a counter, and are the same.
abbrev pub is_counted : Mode → Mode → Bool
is_counted mode_poller mode_poller = true
is_counted mode_peer mode_peer = true
is_counted mode_noc mode_noc = true
is_counted m k = false

-- 1 for a connected node of the mode
abbrev pub here : Mode → Peer → ℕ
here m p = if is_counted m p.mode && is_connected p.state then 1 else 0

count_of-add_to :
    (m k : Mode) (f : ℕ → ℕ) (c : Counts)
    → count_of m (add_to k f c) ≡ (if is_counted m k then f (count_of m c) else count_of m c)
unfolding add_to
count_of-add_to mode_poller mode_poller f c = refl
count_of-add_to mode_poller mode_peer f c = refl
count_of-add_to mode_poller mode_noc f c = refl
count_of-add_to mode_poller mode_local f c = refl
count_of-add_to mode_poller mode_internal f c = refl
count_of-add_to mode_peer mode_poller f c = refl
count_of-add_to mode_peer mode_peer f c = refl
count_of-add_to mode_peer mode_noc f c = refl
count_of-add_to mode_peer mode_local f c = refl
count_of-add_to mode_peer mode_internal f c = refl
count_of-add_to mode_noc mode_poller f c = refl
count_of-add_to mode_noc mode_peer f c = refl
count_of-add_to mode_noc mode_noc f c = refl
count_of-add_to mode_noc mode_local f c = refl
count_of-add_to mode_noc mode_internal f c = refl
count_of-add_to mode_local k f c = refl
count_of-add_to mode_internal k f c = refl

-- The counter of the mode `m` follows a node from `w` to `w'`.
pub record Tracks (m : Mode) (w w' : Peer × Counts) : Type 0 where
  pub bound : count_of m w.1 < u32 → count_of m w'.1 < u32
  pub follows :
      count_of m w.1 < u32
      → (count_of m w'.1 + here m w.0) % u32 ≡ (count_of m w.1 + here m w'.0) % u32

Tracks-refl : (m : Mode) (w : Peer × Counts) → Tracks m w w
Tracks-refl m w = record { bound = λ h. h; follows = λ h. refl }

Tracks-trans : (m : Mode) (u v w : Peer × Counts) → Tracks m u v → Tracks m v w → Tracks m u w
Tracks-trans m u v w f g = record {
  bound = λ h. g.bound (f.bound h);
  follows = λ h. omega (arith, f.follows h, g.follows (f.bound h));
}

-- Only what is not counted changes.
Tracks-same :
    (m : Mode) (p p' : Peer) (c : Counts)
    → p'.mode ≡ p.mode
    → p'.state ≡ p.state
    → Tracks m (p, c) (p', c)
Tracks-same m p p' c same_mode same_state = record {
  bound = λ h. h;
  follows = λ h. rw (same_mode, same_state) refl;
}

gained :
    (m : Bool) (n : ℕ)
    → n < u32
    → ((if m then up n else n) < u32)
      × (((if m then up n else n) + (if m && false then 1 else 0)) % u32
          ≡ (n + (if m && true then 1 else 0)) % u32)
gained true n h = (omega arith, omega arith)
gained false n h = (h, refl)

dropped :
    (m : Bool) (n : ℕ)
    → n < u32
    → ((if m then down n else n) < u32)
      × (((if m then down n else n) + (if m && true then 1 else 0)) % u32
          ≡ (n + (if m && false then 1 else 0)) % u32)
dropped true n h = (omega arith, omega arith)
dropped false n h = (h, refl)

gain :
    (m : Mode) (p p' : Peer) (c : Counts)
    → p'.mode ≡ p.mode
    → is_connected p.state ≡ false
    → is_connected p'.state ≡ true
    → Tracks m (p, c) (p', add_to p.mode up c)
gain m p p' c mode_same before after = record {
  bound = λ h. rw (count_of-add_to m p.mode up c) (gained (is_counted m p.mode) (count_of m c) h).0;
  follows = λ h.
      rw (count_of-add_to m p.mode up c, mode_same, before, after)
        (gained (is_counted m p.mode) (count_of m c) h).1;
}

lose :
    (m : Mode) (p p' : Peer) (c : Counts)
    → p'.mode ≡ p.mode
    → is_connected p.state ≡ true
    → is_connected p'.state ≡ false
    → Tracks m (p, c) (p', add_to p.mode down c)
lose m p p' c mode_same before after = record {
  bound =
      λ h. rw (count_of-add_to m p.mode down c) (dropped (is_counted m p.mode) (count_of m c) h).0;
  follows = λ h.
      rw (count_of-add_to m p.mode down c, mode_same, before, after)
        (dropped (is_counted m p.mode) (count_of m c) h).1;
}

-- Neither before nor after is the node connected.
stay :
    (m : Mode) (p p' : Peer) (c : Counts)
    → p'.mode ≡ p.mode
    → is_connected p.state ≡ false
    → is_connected p'.state ≡ false
    → Tracks m (p, c) (p', c)
stay m p p' c mode_same before after = record {
  bound = λ h. h;
  follows = λ h. rw (mode_same, before, after) refl;
}

change_at :
    (m : Mode) (s prev : NodeState) (p : Peer) (c : Counts)
    → is_state prev s ≡ false
    → Tracks m (record p { state = prev }, c) (change s (record p { state = prev }, c))
unfolding change is_state
change_at m state_none state_none p c new =
    stay m (record p { state = state_none }) (record p { state = state_none }) c refl refl refl
change_at m state_none state_pending p c new =
    stay m (record p { state = state_pending }) (record p { state = state_none }) c refl refl refl
change_at m state_none state_negotiating p c new =
    stay m (record p { state = state_negotiating }) (record p { state = state_none }) c refl refl
      refl
change_at m state_none state_connected p c new =
    lose m (record p { state = state_connected }) (record p { state = state_none }) c refl refl refl
change_at m state_pending state_none p c new =
    stay m (record p { state = state_none }) (record p { state = state_pending }) c refl refl refl
change_at m state_pending state_pending p c new =
    stay m (record p { state = state_pending }) (record p { state = state_pending }) c refl refl
      refl
change_at m state_pending state_negotiating p c new =
    stay m (record p { state = state_negotiating }) (record p { state = state_pending }) c refl refl
      refl
change_at m state_pending state_connected p c new =
    lose m (record p { state = state_connected }) (record p { state = state_pending }) c refl refl
      refl
change_at m state_negotiating state_none p c new =
    stay m (record p { state = state_none }) (record p { state = state_negotiating }) c refl refl
      refl
change_at m state_negotiating state_pending p c new =
    stay m (record p { state = state_pending }) (record p { state = state_negotiating }) c refl refl
      refl
change_at m state_negotiating state_negotiating p c new =
    stay m (record p { state = state_negotiating }) (record p { state = state_negotiating }) c refl
      refl refl
change_at m state_negotiating state_connected p c new =
    lose m (record p { state = state_connected }) (record p { state = state_negotiating }) c refl
      refl refl
change_at m state_connected state_none p c new =
    gain m (record p { state = state_none })
      (record p { state = state_connected; csync_num_attempts = 0 }) c refl refl refl
change_at m state_connected state_pending p c new =
    gain m (record p { state = state_pending })
      (record p { state = state_connected; csync_num_attempts = 0 }) c refl refl refl
change_at m state_connected state_negotiating p c new =
    gain m (record p { state = state_negotiating })
      (record p { state = state_connected; csync_num_attempts = 0 }) c refl refl refl
change_at m state_connected state_connected p c new = absurd (cc new)

change-Tracks :
    (m : Mode) (s : NodeState) (p : Peer) (c : Counts)
    → is_state p.state s ≡ false
    → Tracks m (p, c) (change s (p, c))
change-Tracks m s p c new = change_at m s p.state p c new

-- A test decides between two ways on.
if-Tracks :
    (m : Mode) (t : Bool) (w x y : Peer × Counts)
    → (t ≡ true → Tracks m w x)
    → (t ≡ false → Tracks m w y)
    → Tracks m w (if t then x else y)
if-Tracks m true w x y yes_way no_way = yes_way refl
if-Tracks m false w x y yes_way no_way = no_way refl

react-Tracks : (m : Mode) (prev : NodeState) (w : Peer × Counts) → Tracks m w (react prev w)
unfolding react
react-Tracks m prev (p, c) =
    if-Tracks m (not (is_connected p.state) && not (is_connected prev)) _ _ _
      (λ e. Tracks-refl m (p, c))
      (λ e.
        if-Tracks m p.has_action _ _ _
          (λ e'. Tracks-same m p (record p { actions = p.actions ++ prev ∷ [] }) c refl refl)
          (λ e'. Tracks-refl m (p, c)))

set_none-Tracks : (m : Mode) (w : Peer × Counts) → Tracks m w (set_none w)
unfolding set_none
set_none-Tracks m (p, c) =
    if-Tracks m (is_state p.state state_none) _ _ _ (λ e. Tracks-refl m (p, c))
      (λ e.
        Tracks-trans m _ _ _ (change-Tracks m state_none p c e)
          (react-Tracks m p.state (change state_none (p, c))))

pub disconnect-Tracks : (m : Mode) (w : Peer × Counts) → Tracks m w (node_disconnect w)
unfolding node_disconnect
disconnect-Tracks m (p, c) =
    Tracks-trans m _ _ _ (Tracks-same m p (record p { has_sock = false }) c refl refl)
      (set_none-Tracks m (record p { has_sock = false }, c))

greet-Tracks : (m : Mode) (fails : Bool) (w : Peer × Counts) → Tracks m w (greet fails w)
unfolding greet
greet-Tracks m fails (p, c) =
    if-Tracks m (is_state p.state state_negotiating && not p.is_ipc && p.has_sock && fails) _ _ _
      (λ e. disconnect-Tracks m (p, c)) (λ e. Tracks-refl m (p, c))

pub set_state-Tracks :
    (m : Mode) (fails : Bool) (s : NodeState) (w : Peer × Counts)
    → Tracks m w (node_set_state fails s w)
unfolding node_set_state
set_state-Tracks m fails s (p, c) =
    if-Tracks m (is_state p.state s) _ _ _ (λ e. Tracks-refl m (p, c))
      (λ e.
        if-Tracks m (not (is_state s state_none) && not p.is_ipc && not (is_allowed p.state s)) _ _
          _ (λ e'. disconnect-Tracks m (p, c))
          (λ e'. Tracks-trans m _ _ _ (change-Tracks m s p c e) (
            Tracks-trans m _ _ _ (greet-Tracks m fails (change s (p, c)))
              (react-Tracks m p.state (greet fails (change s (p, c)))))))
