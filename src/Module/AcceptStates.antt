-- ===== src/Module/AcceptStates.antt =====
-- What accepting a connection, or the end of a connection attempt, does to a node in each state.
use mathlib.Core.Path.{subst}
use monitor_merlin.Base.{
  ℕ, ◌≡◌, refl, sym, ap, ap₂, ◌∙◌, ◌⊎◌, inl, inr, Bool, true, false, not, ◌&&◌, Option, none, some,
  [], ◌∷◌, ◌++◌, append-nil, if◌then◌else◌, if_true, if_false, Bool-cases,
}
use monitor_merlin.Node.{NodeState, state_none, state_pending, state_negotiating, state_connected}
use monitor_merlin.Node.State.{
  Peer, Counts, is_state, is_allowed, change, react, set_none, greet, node_set_state,
  node_disconnect,
}
use monitor_merlin.Module.Net.{
  Names, Conn, is_open, shut, close_sock, inner, outer, disconnect, set_state, Choice, listener,
  connector, neither, drop_both, chosen, net_negotiate_socket, same_sock, listen_to, settle_accept,
  take_in, node_accept,
}

-- A node that was disconnected.
abbrev pub Gone : Peer × Counts → Type 0
Gone (p, k) = (p.has_sock ≡ false) × (p.state ≡ state_none)

Gone-at :
    (s : NodeState) (action : Bool) (p : Peer) (k : Counts)
    → Gone (node_disconnect (record p { state = s; has_action = action }, k))
unfolding node_disconnect set_none is_state react change
Gone-at state_none action p k = (refl, refl)
Gone-at state_pending action p k = (refl, refl)
Gone-at state_negotiating action p k = (refl, refl)
Gone-at state_connected true p k = (refl, refl)
Gone-at state_connected false p k = (refl, refl)

pub disconnect-Gone : (w : Peer × Counts) → Gone (node_disconnect w)
disconnect-Gone (p, k) = Gone-at p.state p.has_action p k

-- A connection that ended: no socket, and the node is in STATE_NONE.
abbrev pub Ended : Conn → Type 0
Ended c = (c.sock ≡ none) × (c.node.state ≡ state_none)

outer_at :
    (sock : Option ℕ) (has : Bool) (c : Conn) (p : Peer) (k : Counts)
    → has ≡ false
    → p.state ≡ state_none
    → Ended (outer (record c { sock = sock }) (record p { has_sock = has }, k))
unfolding outer close_sock
outer_at none has c p k e s = (refl, s)
outer_at (some sd) false c p k e s = (refl, s)
outer_at (some sd) true c p k e s = absurd (cc e)

outer-Ended : (c : Conn) (out : Peer × Counts) → Gone out → Ended (outer c out)
outer-Ended c (p, k) (no_sock, no_state) = outer_at c.sock p.has_sock c p k no_sock no_state

pub disconnect-Ended : (c : Conn) → Ended (disconnect c)
unfolding disconnect
disconnect-Ended c = outer-Ended c (node_disconnect (inner c)) (disconnect-Gone (inner c))

-- A connected node cannot start negotiating again: it is disconnected.
refuses_again :
    (fails : Bool) (p : Peer) (k : Counts)
    → p.is_ipc ≡ false
    → p.state ≡ state_connected
    → node_set_state fails state_negotiating (p, k) ≡ node_disconnect (p, k)
unfolding node_set_state is_state is_allowed
refuses_again fails p k other up =
    if_false _ _ (ap (λ s. is_state s state_negotiating) up) ∙ if_true _ _ tested
  where
    tested : (true && (not p.is_ipc && not (is_allowed p.state state_negotiating))) ≡ true
    tested = ap₂ (λ i s. true && (not i && not (is_allowed s state_negotiating))) other up

renegotiate-Ended :
    (fails : Bool) (c : Conn)
    → c.node.is_ipc ≡ false
    → c.node.state ≡ state_connected
    → Ended (set_state fails state_negotiating c)
unfolding set_state
renegotiate-Ended fails c other up =
    outer-Ended c (node_set_state fails state_negotiating (inner c)) (
      subst Gone
        (sym (refuses_again fails (record c.node { has_sock = is_open c.sock }) c.counts other up))
        (disconnect-Gone (inner c)))

outer-none : (c : Conn) (out : Peer × Counts) → (outer (record c { sock = none }) out).sock ≡ none
unfolding outer
outer-none c (p, k) = refl

-- Without a socket, a change of the state gives none.
socketless :
    (fails : Bool) (s : NodeState) (c : Conn) → c.sock ≡ none → (set_state fails s c).sock ≡ none
unfolding set_state
socketless fails s c e =
    subst (λ o. (outer (record c { sock = o }) (node_set_state fails s (inner c))).sock ≡ none)
      (sym e) (outer-none c (node_set_state fails s (inner c)))

-- A node that is connected, and not the daemon, or one that has no socket.
Lost : Conn → Type 0
Lost c = ((c.node.is_ipc ≡ false) × (c.node.state ≡ state_connected)) ⊎ (c.sock ≡ none)

renegotiate-Lost :
    (fails : Bool) (c : Conn) → Lost c → (set_state fails state_negotiating c).sock ≡ none
unfolding Lost
renegotiate-Lost fails c (inl (other, up)) = (renegotiate-Ended fails c other up).0
renegotiate-Lost fails c (inr no_sock) = socketless fails state_negotiating c no_sock

chosen-Lost : (c : Conn) (con lis : ℕ) (x : Choice) → Lost c → Lost (chosen c con lis x).0
unfolding chosen drop_both Lost
chosen-Lost c con lis listener h = h
chosen-Lost c con lis connector h = h
chosen-Lost c con lis neither h = inr refl

negotiate-Lost :
    (names : Names) (c : Conn) (con lis : Option ℕ)
    → Lost c
    → Lost (net_negotiate_socket names c con lis).0
unfolding net_negotiate_socket
negotiate-Lost names c none lis h = h
negotiate-Lost names c (some con) none h = h
negotiate-Lost names c (some con) (some lis) h = chosen-Lost c con lis _ h

settle-Lost : (sock : ℕ) (out : Conn × Option ℕ) → Lost out.0 → Lost (settle_accept sock out)
unfolding settle_accept Lost
settle-Lost sock (c, sel) h = elim (Bool-cases (same_sock sel (some sock))) [
  | inl same ↦ rw same h
  | inr other ↦ rw other h
]

take_in-Lost :
    (names : Names) (c : Conn) (sock : ℕ) → Lost c → Lost (take_in names state_connected c sock)
unfolding take_in
take_in-Lost names c sock h = elim (Bool-cases (is_open c.sock)) [
  | inl there ↦ rw there (settle-Lost sock _ (negotiate-Lost names c c.sock (some sock) h))
  | inr none_there ↦ rw none_there h
]

listen_to-sock : (c : Conn) → (listen_to c).sock ≡ c.sock
unfolding listen_to
listen_to-sock c = refl

-- A connection is accepted from a node, other than the daemon, that is connected already. Whichever of the
-- two connections is chosen, the node has no socket afterwards.
pub node_accept-connected :
    (names : Names) (fails : Bool) (c : Conn) (sock : ℕ)
    → c.node.is_ipc ≡ false
    → c.node.state ≡ state_connected
    → (node_accept names fails c sock).sock ≡ none
unfolding node_accept
node_accept-connected names fails c sock other up =
    listen_to-sock _
    ∙ renegotiate-Lost fails (take_in names c.node.state c sock) (
        subst (λ s. Lost (take_in names s c sock)) (sym up)
          (take_in-Lost names c sock (unfold Lost in inl (other, up))))

-- The node after a connection was accepted from it in STATE_NONE.
abbrev pub Fresh : Names → Bool → Conn → ℕ → Type 0
Fresh names fails c sock =
    let after = node_accept names fails c sock in
    ((after.sock ≡ (if fails then none else some sock))
      × (after.node.state ≡ (if fails then state_none else state_negotiating))
      × (after.closed ≡ shut c.sock c.closed ++ (if fails then sock ∷ [] else []))
      × (after.inputs ≡ c.inputs ++ (if fails then [] else sock ∷ [])))

accept-Fresh :
    (names : Names) (fails : Bool) (c : Conn) (p : Peer) (old : Option ℕ) (sock : ℕ)
    → Fresh names fails
        (record c { node = record p { state = state_none; is_ipc = false }; sock = old })
        sock
unfolding node_accept listen_to set_state take_in disconnect outer close_sock node_set_state
    node_disconnect set_none is_state is_allowed react change greet shut
accept-Fresh names false c p none sock = (refl, refl, sym (append-nil c.closed), refl)
accept-Fresh names false c p (some sd) sock =
    (refl, refl, sym (append-nil (c.closed ++ sd ∷ [])), refl)
accept-Fresh names true c p none sock = (refl, refl, refl, sym (append-nil c.inputs))
accept-Fresh names true c p (some sd) sock = (refl, refl, refl, sym (append-nil c.inputs))

-- A connection is accepted from a node, other than the daemon, that is in STATE_NONE. Its old socket is closed,
-- where it has one. If the CTRL_ACTIVE packet can be sent, the node starts negotiating on the new
-- socket, which is registered for input; else the new socket is closed as well, and nothing else of this
-- changes.
pub node_accept-none :
    (names : Names) (fails : Bool) (c : Conn) (sock : ℕ)
    → c.node.is_ipc ≡ false
    → c.node.state ≡ state_none
    → Fresh names fails c sock
node_accept-none names fails c sock other down =
    subst (λ s. Fresh names fails (record c { node = record c.node { state = s } }) sock) (sym down)
      (subst
        (λ i.
          Fresh names fails (record c { node = record c.node { state = state_none; is_ipc = i } })
            sock)
        (sym other) (accept-Fresh names fails c c.node c.sock sock))
