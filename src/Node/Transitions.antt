-- ===== src/Node/Transitions.antt =====
-- The transitions between the states of a node, and when its callback is called.
use monitor_merlin.Base.{
  ◌≡◌, ◌≢◌, ◌↔◌, ◌⊎◌, ◌∙◌, arith, if_true, if_false, refl, append-nil, sym, Bool, true, false, not,
  ◌&&◌, ◌||◌, [], ◌∷◌, ◌++◌, if◌then◌else◌, Bool-cases, inl, inr,
}
use monitor_merlin.Node.{
  NodeState, state_none, state_pending, state_negotiating, state_connected, is_connected,
}
use monitor_merlin.Node.State.{
  Peer, Counts, is_state, is_allowed, change, react, set_none, node_disconnect, greet,
  node_set_state,
}

-- The transitions that the comment in `node_set_state` allows.
pub data Allowed : NodeState → NodeState → Type 0 where
  to_none : {s : NodeState} → Allowed s state_none
  start : Allowed state_none state_pending
  accept : Allowed state_none state_negotiating
  from_pending : {s : NodeState} → Allowed state_pending s
  agree : Allowed state_negotiating state_connected

-- The test of the code is this list, but for STATE_NONE, which it leaves out.
allowed_iff : (s t : NodeState) → Allowed s t ↔ ((is_state t state_none || is_allowed s t) ≡ true)
unfolding is_state is_allowed
allowed_iff s t = (tested s t, listed s t)
  where
    tested : (s t : NodeState) → Allowed s t → (is_state t state_none || is_allowed s t) ≡ true
    tested s state_none to_none = refl
    tested state_none state_pending start = refl
    tested state_none state_negotiating accept = refl
    tested state_pending t from_pending = ground arith
    tested state_negotiating state_connected agree = refl

    listed : (s t : NodeState) → (is_state t state_none || is_allowed s t) ≡ true → Allowed s t
    listed s state_none h = to_none
    listed state_none state_pending h = start
    listed state_none state_negotiating h = accept
    listed state_none state_connected h = absurd (cc h)
    listed state_pending t h = from_pending
    listed state_negotiating state_pending h = absurd (cc h)
    listed state_negotiating state_negotiating h = absurd (cc h)
    listed state_negotiating state_connected h = agree
    listed state_connected state_pending h = absurd (cc h)
    listed state_connected state_negotiating h = absurd (cc h)
    listed state_connected state_connected h = absurd (cc h)

abbrev pub xor : Bool → Bool → Bool
xor true b = not b
xor false b = b

actions_at :
    (fails : Bool) (s prev : NodeState) (p : Peer) (c : Counts)
    → (node_set_state fails s (record p { state = prev; has_action = true }, c)).0.actions
      ≡ p.actions
        ++ (if xor (is_connected prev) (
              is_connected
                (node_set_state fails s (record p { state = prev; has_action = true }, c)).0.state)
            then prev ∷ []
            else [])
unfolding node_set_state node_disconnect set_none change react greet is_state is_allowed
actions_at fails state_none state_none p c = ground (arith, append-nil p.actions)
actions_at fails state_none state_pending p c = ground (arith, append-nil p.actions)
actions_at fails state_none state_negotiating p c = ground (arith, append-nil p.actions)
actions_at fails state_none state_connected p c = ground (arith, append-nil p.actions)
actions_at fails state_pending state_none p c = ground (arith, append-nil p.actions)
actions_at fails state_pending state_pending p c = ground (arith, append-nil p.actions)
actions_at fails state_pending state_negotiating p c = ground (arith, append-nil p.actions)
actions_at fails state_pending state_connected p c = ground (arith, append-nil p.actions)
actions_at fails state_negotiating state_none p c = ground (arith, append-nil p.actions)
actions_at fails state_negotiating state_pending p c = ground (arith, append-nil p.actions)
actions_at fails state_negotiating state_negotiating p c = ground (arith, append-nil p.actions)
actions_at fails state_negotiating state_connected p c = ground (arith, append-nil p.actions)
actions_at fails state_connected state_none p c = ground (arith, append-nil p.actions)
actions_at fails state_connected state_pending p c = ground (arith, append-nil p.actions)
actions_at fails state_connected state_negotiating p c = ground (arith, append-nil p.actions)
actions_at fails state_connected state_connected p c = ground (arith, append-nil p.actions)

-- When the greeting is sent, where there is one.
end_state :
    (s prev : NodeState) (p : Peer) (c : Counts)
    → is_state prev s ≡ false
    → (node_set_state false s (record p { state = prev; is_ipc = false }, c)).0.state
      ≡ (if is_state s state_none || is_allowed prev s then s else state_none)
unfolding node_set_state node_disconnect set_none change react greet is_state is_allowed
end_state state_none state_none p c new = absurd (cc new)
end_state state_none state_pending p c new = ground arith
end_state state_none state_negotiating p c new = ground arith
end_state state_none state_connected p c new = ground arith
end_state state_pending state_none p c new = ground arith
end_state state_pending state_pending p c new = absurd (cc new)
end_state state_pending state_negotiating p c new = ground arith
end_state state_pending state_connected p c new = ground arith
end_state state_negotiating state_none p c new = ground arith
end_state state_negotiating state_pending p c new = ground arith
end_state state_negotiating state_negotiating p c new = absurd (cc new)
end_state state_negotiating state_connected p c new = ground arith
end_state state_connected state_none p c new = ground arith
end_state state_connected state_pending p c new = ground arith
end_state state_connected state_negotiating p c new = ground arith
end_state state_connected state_connected p c new = absurd (cc new)

-- A node that does not end in the state asked for has lost its connection.
end_cases :
    (fails : Bool) (s prev : NodeState) (p : Peer) (c : Counts)
    → (is_state (node_set_state fails s (record p { state = prev }, c)).0.state s
        || is_state (node_set_state fails s (record p { state = prev }, c)).0.state state_none
          && not (node_set_state fails s (record p { state = prev }, c)).0.has_sock)
      ≡ true
unfolding node_set_state node_disconnect set_none change react greet is_state is_allowed
end_cases fails state_none state_none p c = ground arith
end_cases fails state_none state_pending p c = ground arith
end_cases fails state_none state_negotiating p c = ground arith
end_cases fails state_none state_connected p c = ground arith
end_cases fails state_pending state_none p c = ground arith
end_cases fails state_pending state_pending p c = ground arith
end_cases fails state_pending state_negotiating p c = ground arith
end_cases fails state_pending state_connected p c = ground arith
end_cases fails state_negotiating state_none p c = ground arith
end_cases fails state_negotiating state_pending p c = ground arith
end_cases fails state_negotiating state_negotiating p c = ground arith
end_cases fails state_negotiating state_connected p c = ground arith
end_cases fails state_connected state_none p c = ground arith
end_cases fails state_connected state_pending p c = ground arith
end_cases fails state_connected state_negotiating p c = ground arith
end_cases fails state_connected state_connected p c = ground arith

is_state-eq : (s t : NodeState) → is_state s t ≡ true → s ≡ t
unfolding is_state
is_state-eq state_none state_none h = refl
is_state-eq state_none state_pending h = absurd (cc h)
is_state-eq state_none state_negotiating h = absurd (cc h)
is_state-eq state_none state_connected h = absurd (cc h)
is_state-eq state_pending state_none h = absurd (cc h)
is_state-eq state_pending state_pending h = refl
is_state-eq state_pending state_negotiating h = absurd (cc h)
is_state-eq state_pending state_connected h = absurd (cc h)
is_state-eq state_negotiating state_none h = absurd (cc h)
is_state-eq state_negotiating state_pending h = absurd (cc h)
is_state-eq state_negotiating state_negotiating h = refl
is_state-eq state_negotiating state_connected h = absurd (cc h)
is_state-eq state_connected state_none h = absurd (cc h)
is_state-eq state_connected state_pending h = absurd (cc h)
is_state-eq state_connected state_negotiating h = absurd (cc h)
is_state-eq state_connected state_connected h = refl

differs : (s t : NodeState) → s ≢ t → is_state s t ≡ false
differs s t h = elim (Bool-cases (is_state s t)) [
  | inl e ↦ absurd (h (is_state-eq s t e))
  | inr e ↦ e
]

end_state_of :
    (s : NodeState) (p : Peer) (c : Counts) (ipc : Bool)
    → ipc ≡ false
    → p.state ≢ s
    → (node_set_state false s (record p { is_ipc = ipc }, c)).0.state
      ≡ (if is_state s state_none || is_allowed p.state s then s else state_none)
end_state_of s p c ipc e new = rw e (end_state s p.state p c (differs p.state s new))

both : (a b : Bool) → (a && b) ≡ true → (a ≡ true) × (b ≡ true)
both true b h = (refl, h)
both false b h = absurd (cc h)

either : (a b : Bool) → (a || b) ≡ true → (a ≡ true) ⊎ (b ≡ true)
either true b h = inl refl
either false b h = inr h

-- Where the node ends.
pub Ends : Peer → NodeState → Type 0
Ends p s = (p.state ≡ s) ⊎ ((p.state ≡ state_none) × (p.has_sock ≡ false))

ends :
    (fails : Bool) (s : NodeState) (p : Peer) (c : Counts)
    → Ends (node_set_state fails s (p, c)).0 s
unfolding Ends
ends fails s p c = elim (either _ _ (end_cases fails s p.state p c)) [
  | inl e ↦ inl (is_state-eq _ s e)
  | inr e ↦
      (let (gone, closed) = both _ _ e in inr (is_state-eq _ state_none gone, not_true _ closed))
]
  where
    not_true : (b : Bool) → not b ≡ true → b ≡ false
    not_true false h = refl
    not_true true h = absurd (cc h)

-- A node that is not `&ipc` is asked to go to another state. When its greeting is sent, where there is
-- one, it gets there just if the comment in the code lists the transition. Whatever the network answers,
-- it ends in the state asked for, or with none and its socket closed.
pub node_set_state_iff :
    (fails : Bool) (s : NodeState) (p : Peer) (c : Counts)
    → p.is_ipc ≡ false
    → p.state ≢ s
    → (((node_set_state false s (p, c)).0.state ≡ s) ↔ Allowed p.state s)
      × Ends (node_set_state fails s (p, c)).0 s
node_set_state_iff fails s p c other new = ((arrives, allowed), ends fails s p c)
  where
    result :
        (node_set_state false s (p, c)).0.state
        ≡ (if is_state s state_none || is_allowed p.state s then s else state_none)
    result = end_state_of s p c p.is_ipc other new

    arrives : (node_set_state false s (p, c)).0.state ≡ s → Allowed p.state s
    arrives e = elim (Bool-cases (is_state s state_none || is_allowed p.state s)) [
      | inl t ↦ (allowed_iff p.state s).1 t
      | inr t ↦ rw (sym e ∙ result ∙ if_false _ _ t) to_none
    ]

    allowed : Allowed p.state s → (node_set_state false s (p, c)).0.state ≡ s
    allowed h = result ∙ if_true _ _ ((allowed_iff p.state s).0 h)

actions_of :
    (fails : Bool) (s : NodeState) (p : Peer) (c : Counts) (has : Bool)
    → has ≡ true
    → (node_set_state fails s (record p { has_action = has }, c)).0.actions
      ≡ p.actions
        ++ (if xor
              (is_connected p.state)
              (is_connected (node_set_state fails s (record p { has_action = has }, c)).0.state)
            then p.state ∷ []
            else [])
actions_of fails s p c has e = rw e (actions_at fails s p.state p c)

-- The callback of a node that has one is called just once, with the state before, when
-- `node_set_state` makes the node connected or ends its being connected, and not otherwise.
pub node_set_state-actions :
    (fails : Bool) (s : NodeState) (p : Peer) (c : Counts)
    → p.has_action ≡ true
    → (node_set_state fails s (p, c)).0.actions
      ≡ p.actions
        ++ (if xor (is_connected p.state) (is_connected (node_set_state fails s (p, c)).0.state)
            then p.state ∷ []
            else [])
node_set_state-actions fails s p c h = actions_of fails s p c p.has_action h
