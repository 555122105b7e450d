-- ===== src/Module/Net.antt =====
-- How nodes get connected: `net_negotiate_socket`, `conn_writable`, `net_is_connected`, `node_accept`,
-- `find_node`, `net_source_port` and `disconnect_inactive` of module/net.c. Sockets are the system's, and
-- what its calls answer is given.
use monitor_merlin.Base.{
  ℕ, ◌+◌, Bool, true, false, not, ◌&&◌, ◌||◌, Option, none, some, List, [], ◌∷◌, ◌++◌, ltb, leb,
  ◌==◌, if◌then◌else◌,
}
use monitor_merlin.Binlog.{sub32}
use monitor_merlin.Node.{NodeState, state_none, state_negotiating, state_connected}
use monitor_merlin.Node.State.{Peer, Counts, is_state, node_set_state, node_disconnect}

-- `struct sockaddr_in`: the address and the port, in the byte order of the network, read as numbers.
pub record Address : Type 0 where
  pub ip : ℕ
  pub port : ℕ

-- getsockname(2) and getpeername(2) for a socket, `none` where they fail.
pub record Names : Type 0 where
  pub own_name : ℕ → Option Address
  pub peer_name : ℕ → Option Address

-- A node with its sockets, `none` for -1, and what was done to sockets: closed, or registered for
-- `net_input`. What `node_disconnect` does to its buffer stands in Node.Receive.
pub record Conn : Type 0 where
  pub node : Peer
  pub counts : Counts
  pub sock : Option ℕ
  pub conn_sock : Option ℕ
  pub last_recv : ℕ
  pub last_conn_attempt : ℕ
  pub last_conn_attempt_logged : ℕ
  pub closed : List ℕ
  pub inputs : List ℕ

abbrev pub is_open : Option ℕ → Bool
is_open none = false
is_open (some sd) = true

-- The socket of the node is closed.
unfoldable pub shut : Option ℕ → List ℕ → List ℕ
shut none closed = closed
shut (some sd) closed = closed ++ sd ∷ []

unfoldable pub close_sock : Conn → Conn
close_sock c = record c { closed = shut c.sock c.closed; sock = none; last_recv = 0 }

-- The node with its socket as `node_set_state` and `node_disconnect` see it.
abbrev pub inner : Conn → Peer × Counts
inner c = (record c.node { has_sock = is_open c.sock }, c.counts)

-- What these leave: a node without a socket was disconnected.
unfoldable pub outer : Conn → Peer × Counts → Conn
outer c (p, k) =
    let c' = record c { node = p; counts = k } in
    if is_open c.sock && not p.has_sock then close_sock c' else c'

unfoldable pub disconnect : Conn → Conn
disconnect c = record (outer c (node_disconnect (inner c))) { last_recv = 0 }

-- `fails` says that the CTRL_ACTIVE packet cannot be sent.
unfoldable pub set_state : Bool → NodeState → Conn → Conn
set_state fails s c = outer c (node_set_state fails s (inner c))

-- Of two connections, by the name of our side of the accepted one and that of the other side of ours:
-- the accepted one, our own, or none.
pub data Choice : Type 0 where
  listener connector neither : Choice

unfoldable pub compare_names : Address → Address → Choice
compare_names lis con =
    if ltb con.ip lis.ip
    then connector
    else if ltb lis.ip con.ip
    then listener
    else if ltb con.port lis.port
    then connector
    else if ltb lis.port con.port
    then listener
    else neither

-- From the call of getsockname(2) on.
unfoldable pub choose : Option Address → Option Address → Choice
choose none con = connector
choose (some lis) none = listener
choose (some lis) (some con) = compare_names lis con

-- None of the two: the node is disconnected and the accepted socket closed.
unfoldable pub drop_both : Conn → ℕ → Conn
drop_both c lis =
    let c' = disconnect (record c { last_conn_attempt_logged = 0 }) in
    record c' { closed = c'.closed ++ lis ∷ []; sock = none }

unfoldable pub chosen : Conn → ℕ → ℕ → Choice → Conn × Option ℕ
chosen c con lis listener = (c, some lis)
chosen c con lis connector = (c, some con)
chosen c con lis neither = (drop_both c lis, none)

-- The node, and the chosen socket.
unfoldable pub net_negotiate_socket : Names → Conn → Option ℕ → Option ℕ → Conn × Option ℕ
net_negotiate_socket names c none lis = (c, lis)
net_negotiate_socket names c (some con) none = (c, some con)
net_negotiate_socket names c (some con) (some lis) =
    chosen c con lis (choose (names.own_name lis) (names.peer_name con))

abbrev pub same_sock : Option ℕ → Option ℕ → Bool
same_sock none none = true
same_sock (some a) (some b) = a == b
same_sock a b = false

-- `iobroker_register` for input; it fails on -1.
unfoldable pub listen_to : Conn → Conn
listen_to c = record c { inputs = shut c.sock c.inputs }

-- After the choice between the socket of the node and the accepted one, which is closed unless chosen.
unfoldable pub settle_accept : ℕ → Conn × Option ℕ → Conn
settle_accept sock (c, sel) =
    if same_sock sel (some sock) then c else record c { closed = c.closed ++ sock ∷ [] }

-- By the state of the node, whose values are all known.
unfoldable pub take_in : Names → NodeState → Conn → ℕ → Conn
take_in names state_none c sock = record (disconnect c) { sock = some sock }
take_in names other c sock =
    if is_open c.sock
    then settle_accept sock (net_negotiate_socket names c c.sock (some sock))
    else c

unfoldable pub node_accept : Names → Bool → Conn → ℕ → Conn
node_accept names fails c sock =
    listen_to (set_state fails state_negotiating (take_in names c.node.state c sock))

-- What getpeername(2) and getsockopt(2) say of a socket that is connecting: it is connected; the
-- error that is pending; another error of getsockopt, or of getpeername, where ENOTCONN is none of these.
pub data Progress : Type 0 where
  done refused bad_option bad_peer waiting : Progress

-- For a node that is neither CONNECTED nor NONE. After a failed getsockopt the other tests follow.
unfoldable pub progress : Conn → ℕ → Progress → Conn × Bool
progress c now done = (c, true)
progress c now refused = (disconnect c, false)
progress c now bad_option =
    (let c' = disconnect c in
      (if ltb (c'.last_conn_attempt + 20) now then disconnect c' else c', false))
progress c now bad_peer = (c, false)
progress c now waiting = (if ltb (c.last_conn_attempt + 20) now then disconnect c else c, false)

-- The node, and whether it is connected.
unfoldable pub net_is_connected : Conn → ℕ → Progress → Conn × Bool
net_is_connected c now p =
    if not (is_open c.sock)
    then (c, false)
    else if is_state c.node.state state_connected
    then (c, true)
    else if is_state c.node.state state_none
    then (c, false)
    else progress c now p

-- The connection attempt succeeded, or the socket is closed again.
unfoldable pub connected_out : Bool → ℕ → Conn × Bool → Conn
connected_out fails sd (c, true) =
    set_state fails state_negotiating (record c { inputs = c.inputs ++ sd ∷ [] })
connected_out fails sd (c, false) =
    let c' = disconnect c in record c' { closed = c'.closed ++ sd ∷ [] }

-- After the choice: the other socket is closed.
unfoldable pub settle_writable : Bool → Conn × Option ℕ → Conn
settle_writable fails (c, none) = disconnect c
settle_writable fails (c, some sel) =
    let other = if same_sock (some sel) c.conn_sock then c.sock else c.conn_sock in
    listen_to (
      set_state fails state_negotiating
        (record c { closed = shut other c.closed; sock = some sel; conn_sock = none }))

-- `sd` is the socket of our connection attempt.
unfoldable pub conn_writable : Names → Bool → ℕ → Progress → Conn → ℕ → Conn
conn_writable names fails now p c sd =
    if is_open c.sock
    then settle_writable fails (net_negotiate_socket names c c.conn_sock c.sock)
    else connected_out fails sd
        (net_is_connected (record c { sock = some sd; conn_sock = none }) now p)

-- `delta_receive_time` is an `unsigned int`.
unfoldable pub disconnect_inactive : ℕ → ℕ → Conn → Conn
disconnect_inactive data_timeout now c =
    if not (is_open c.sock) || not (is_state c.node.state state_connected)
    then c
    else if data_timeout == 0
    then c
    else if leb data_timeout (sub32 now c.last_recv)
    then disconnect c
    else c
