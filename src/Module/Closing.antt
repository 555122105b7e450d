-- ===== src/Module/Closing.antt =====
-- Which sockets are closed when a connection attempt fails: `conn_writable` of module/net.c.
use monitor_merlin.Base.{
  ℕ, ◌+◌, ◌≡◌, refl, ap, ◌∙◌, ◌⊎◌, inl, inr, Bool, true, false, not, Option, none, some, List, [],
  ◌∷◌, ◌++◌, append_assoc, ltb, if◌then◌else◌, if_false,
}
use monitor_merlin.Node.{state_none, state_connected}
use monitor_merlin.Node.State.{Peer, Counts, is_state, node_disconnect}
use monitor_merlin.Module.AcceptStates.{disconnect-Gone, disconnect-Ended}
use monitor_merlin.Module.Net.{
  Names, Conn, is_open, shut, close_sock, inner, outer, disconnect, progress, Progress, done,
  refused, bad_option, bad_peer, waiting, net_is_connected, connected_out, conn_writable,
}

-- What is closed once the socket of the node is.
abbrev all_closed : Conn → List ℕ
all_closed c = shut c.sock c.closed

closed_at :
    (sock : Option ℕ) (has : Bool) (c : Conn) (p : Peer) (k : Counts)
    → has ≡ false
    → (outer (record c { sock = sock }) (record p { has_sock = has }, k)).closed
      ≡ shut sock c.closed
unfolding outer close_sock shut
closed_at none has c p k e = refl
closed_at (some sd) false c p k e = refl
closed_at (some sd) true c p k e = absurd (cc e)

disconnect-closed : (c : Conn) → (disconnect c).closed ≡ all_closed c
unfolding disconnect
disconnect-closed c =
    let w = node_disconnect (inner c) in
    closed_at c.sock w.0.has_sock c w.0 w.1 (disconnect-Gone (inner c)).0

disconnect-all_closed : (c : Conn) → all_closed (disconnect c) ≡ all_closed c
unfolding shut
disconnect-all_closed c =
    ap (λ o. shut o (disconnect c).closed) (disconnect-Ended c).0 ∙ disconnect-closed c

-- A node that is not connected after a call of `net_is_connected` has had its socket closed at most once.
Same : Conn → Conn × Bool → Type 0
Same c (c', up) = (up ≡ true) ⊎ (all_closed c' ≡ all_closed c)

late : (c : Conn) (b : Bool) → all_closed (if b then disconnect c else c) ≡ all_closed c
late c true = disconnect-all_closed c
late c false = refl

progress-Same : (c : Conn) (now : ℕ) (p : Progress) → Same c (progress c now p)
unfolding progress Same
progress-Same c now done = inl refl
progress-Same c now refused = inr (disconnect-all_closed c)
progress-Same c now bad_option = inr (
    late (disconnect c) (ltb ((disconnect c).last_conn_attempt + 20) now) ∙ disconnect-all_closed c)
progress-Same c now bad_peer = inr refl
progress-Same c now waiting = inr (late c (ltb (c.last_conn_attempt + 20) now))

either {ℓ κ} :
    {A : Type ℓ} (P : A → Type κ) (c : Bool) {x y : A} → P x → P y → P (if c then x else y)
either P true a b = a
either P false a b = b

net_is_connected-Same : (c : Conn) (now : ℕ) (p : Progress) → Same c (net_is_connected c now p)
unfolding net_is_connected
net_is_connected-Same c now p =
    either (Same c) (not (is_open c.sock)) {x = (c, false)} (unfold Same in inr refl) (
      either (Same c) (is_state c.node.state state_connected) {x = (c, true)}
        (unfold Same in inl refl)
        (either (Same c) (is_state c.node.state state_none) {x = (c, false)}
          (unfold Same in inr refl) (progress-Same c now p)))

-- The node as `conn_writable` tests it, with the socket of the attempt for its own.
abbrev pub attempted : Conn → ℕ → Conn
attempted c sd = record c { sock = some sd; conn_sock = none }

connected_out-closed :
    (fails : Bool) (sd : ℕ) (c : Conn) (out : Conn × Bool)
    → out.1 ≡ false
    → Same c out
    → (connected_out fails sd out).closed ≡ all_closed c ++ sd ∷ []
unfolding connected_out Same
connected_out-closed fails sd c (c', true) e h = absurd (cc e)
connected_out-closed fails sd c (c', false) e (inl h) = absurd (cc h)
connected_out-closed fails sd c (c', false) e (inr h) =
    ap (λ l. l ++ sd ∷ []) (disconnect-closed c' ∙ h)

-- For a node with no accepted connection, whose connection attempt fails: `conn_writable` closes the socket of
-- the attempt twice.
pub conn_writable-closes_twice :
    (names : Names) (fails : Bool) (now : ℕ) (p : Progress) (c : Conn) (sd : ℕ)
    → c.sock ≡ none
    → (net_is_connected (attempted c sd) now p).1 ≡ false
    → (conn_writable names fails now p c sd).closed ≡ c.closed ++ sd ∷ sd ∷ []
unfolding conn_writable shut
conn_writable-closes_twice names fails now p c sd no_sock failed =
    ap (λ (r : Conn). r.closed) (if_false _ _ (ap is_open no_sock))
    ∙ connected_out-closed fails sd (attempted c sd) (net_is_connected (attempted c sd) now p)
        failed (net_is_connected-Same (attempted c sd) now p)
    ∙ append_assoc c.closed (sd ∷ []) (sd ∷ [])
