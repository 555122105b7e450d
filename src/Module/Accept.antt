-- ===== src/Module/Accept.antt =====
-- Two nodes that connect to each other: the choice of a connection, and what an accepted one does to a node.
use monitor_merlin.Base.{ℕ, ◌≡◌, refl, ap, ap₂, ◌∙◌, ◌⊎◌, inl, inr, Option, none, some, arith}
use monitor_merlin.Module.Net.{
  Address, Names, Conn, Choice, listener, connector, neither, compare_names, choose, chosen,
  net_negotiate_socket,
}

-- The same connection, as the other side names it.
abbrev pub other_side : Choice → Choice
other_side listener = connector
other_side connector = listener
other_side neither = neither

compare_names_flip : (a b : Address) → compare_names b a ≡ other_side (compare_names a b)
unfolding compare_names
compare_names_flip a b = ground arith

compare_names_neither :
    (a b : Address) → compare_names a b ≡ neither → (a.ip ≡ b.ip) × (a.port ≡ b.port)
unfolding compare_names
compare_names_neither a b e = (ground (arith, e), ground (arith, e))

-- The socket of a choice.
abbrev pub socket : ℕ → ℕ → Choice → Option ℕ
socket con lis listener = some lis
socket con lis connector = some con
socket con lis neither = none

-- Nodes with the addresses `a` and `b`, which differ in their IP address or their port, where each has
-- accepted a connection of the other: `net_negotiate_socket` leaves both nodes as they are, and both
-- choose the same one of the two connections, whose socket is the one that connected on one side and the
-- one that was accepted on the other.
pub net_negotiate_socket-agree :
    (names_a names_b : Names) (ca cb : Conn) (con_a lis_a con_b lis_b : ℕ) (a b : Address)
    → names_a.own_name lis_a ≡ some a
    → names_a.peer_name con_a ≡ some b
    → names_b.own_name lis_b ≡ some b
    → names_b.peer_name con_b ≡ some a
    → ¬ ((a.ip ≡ b.ip) × (a.port ≡ b.port))
    → ((net_negotiate_socket names_a ca (some con_a) (some lis_a) ≡ (ca, some con_a))
        × (net_negotiate_socket names_b cb (some con_b) (some lis_b) ≡ (cb, some lis_b)))
      ⊎ ((net_negotiate_socket names_a ca (some con_a) (some lis_a) ≡ (ca, some lis_a))
          × (net_negotiate_socket names_b cb (some con_b) (some lis_b) ≡ (cb, some con_b)))
unfolding net_negotiate_socket choose chosen
net_negotiate_socket-agree names_a names_b ca cb con_a lis_a con_b lis_b a b own_a peer_a own_b
      peer_b differ =
    both (compare_names a b) refl
  where
    at_a :
        net_negotiate_socket names_a ca (some con_a) (some lis_a)
        ≡ chosen ca con_a lis_a (compare_names a b)
    at_a = ap₂ (λ x y. chosen ca con_a lis_a (choose x y)) own_a peer_a

    at_b :
        net_negotiate_socket names_b cb (some con_b) (some lis_b)
        ≡ chosen cb con_b lis_b (other_side (compare_names a b))
    at_b =
        ap₂ (λ x y. chosen cb con_b lis_b (choose x y)) own_b peer_b
        ∙ ap (chosen cb con_b lis_b) (compare_names_flip a b)

    both :
        (x : Choice)
        → compare_names a b ≡ x
        → ((net_negotiate_socket names_a ca (some con_a) (some lis_a) ≡ (ca, some con_a))
            × (net_negotiate_socket names_b cb (some con_b) (some lis_b) ≡ (cb, some lis_b)))
          ⊎ ((net_negotiate_socket names_a ca (some con_a) (some lis_a) ≡ (ca, some lis_a))
              × (net_negotiate_socket names_b cb (some con_b) (some lis_b) ≡ (cb, some con_b)))
    both connector e = inl (
      at_a ∙ ap (chosen ca con_a lis_a) e,
      at_b ∙ ap (λ x. chosen cb con_b lis_b (other_side x)) e,
    )
    both listener e = inr (
      at_a ∙ ap (chosen ca con_a lis_a) e,
      at_b ∙ ap (λ x. chosen cb con_b lis_b (other_side x)) e,
    )
    both neither e = absurd (differ (compare_names_neither a b e))
