-- ===== src/Module/Recipients.antt =====
-- The nodes that the last part of `send_generic` of module/hooks.c sends a packet to.
use monitor_merlin.Base.{
  ℕ, ◌/◌, ◌%◌, ◌≡◌, refl, sym, ap, ◌∙◌, inl, inr, Bool, true, false, not, ◌&&◌, ◌||◌, List, [], ◌∷◌,
  ◌++◌, map, append-nil, append_assoc, length, ◌==◌, if◌then◌else◌, if_true, if_false, Bool-cases,
}
use mathlib.Core.List.{map-append}
use monitor_merlin.Binlog.{Bytes}
use monitor_merlin.Node.Packet.{hdr_type, hdr_code}
use monitor_merlin.Node.Select.{Looked, null, outside, here, nodes_by_sel_id}
use monitor_merlin.Module.Routing.{
  Site, Sender, Answer, hdr_selection, ctrl_packet, ctrl_generic, magic_nonet, magic_destination,
  has_dest, to_pollers, to_peers, to_masters, num_nodes, send_to, send_if, send_magic,
  send_selected, send_normal, send_network,
}

abbrev pub when : Bool → List ℕ → List ℕ
when c nodes = if c then nodes else []

abbrev pub selected : Looked (List ℕ) → List ℕ
selected (here nodes) = nodes
selected other = []

-- A control packet for everyone.
abbrev pub is_general : Bytes → Bool
is_general pkt = hdr_selection pkt == ctrl_generic && hdr_type pkt == ctrl_packet

-- The pollers that are to get a packet: on a magic destination, all or none by its bit; else all get a
-- general control packet, and those of the selection any other.
abbrev pub pollers_for : Site → Bytes → List ℕ
pollers_for m pkt =
    if magic_destination (hdr_selection pkt)
    then when (has_dest (hdr_selection pkt) to_pollers) m.pollers
    else if is_general pkt
    then m.pollers
    else when (not (length m.pollers == 0))
        (selected (nodes_by_sel_id m.selections (hdr_selection pkt)))

-- The masters, then the peers, unless a magic destination leaves them out; then pollers.
abbrev pub recipients : Site → Bytes → List ℕ
recipients m pkt =
    when (not (magic_destination (hdr_selection pkt)) || has_dest (hdr_selection pkt) to_masters)
      m.masters
    ++ (when (not (magic_destination (hdr_selection pkt)) || has_dest (hdr_selection pkt) to_peers)
          m.peers
        ++ pollers_for m pkt)

-- The calls of `net_sendto` with a packet.
abbrev pub calls_of : Bytes → List ℕ → List (ℕ × Bytes)
calls_of pkt nodes = map (λ n. (n, pkt)) nodes

send_to-sent :
    (s : Sender) (nodes : List ℕ) (pkt : Bytes)
    → (send_to s nodes pkt).sent ≡ s.sent ++ calls_of pkt nodes
unfolding send_to
send_to-sent s [] pkt = sym (append-nil s.sent)
send_to-sent s (n ∷ nodes) pkt =
    send_to-sent (record s { sent = s.sent ++ (n, pkt) ∷ [] }) nodes pkt
    ∙ append_assoc s.sent ((n, pkt) ∷ []) (calls_of pkt nodes)

send_if-sent :
    (c : Bool) (s : Sender) (nodes : List ℕ) (pkt : Bytes)
    → (send_if c s nodes pkt).sent ≡ s.sent ++ calls_of pkt (when c nodes)
unfolding send_if
send_if-sent true s nodes pkt = send_to-sent s nodes pkt
send_if-sent false s nodes pkt = sym (append-nil s.sent)

-- Sending to some nodes after others.
extend :
    (pkt : Bytes) (before : List (ℕ × Bytes)) (a b : List ℕ) {x y : List (ℕ × Bytes)}
    → x ≡ before ++ calls_of pkt a
    → y ≡ x ++ calls_of pkt b
    → y ≡ before ++ calls_of pkt (a ++ b)
extend pkt before a b e f =
    f
    ∙ ap (λ t. t ++ calls_of pkt b) e
    ∙ append_assoc before (calls_of pkt a) (calls_of pkt b)
    ∙ ap (λ t. before ++ t) (sym (map-append (λ n. (n, pkt)) a b))

module _ (m : Site) (s : Sender) (pkt : Bytes) where
  abbrev in_masters : Bool
  in_masters = has_dest (hdr_selection pkt) to_masters

  abbrev in_peers : Bool
  in_peers = has_dest (hdr_selection pkt) to_peers

  send_magic-sent :
      (send_magic m s pkt).sent
      ≡ s.sent
        ++ calls_of pkt (
            when in_masters m.masters
            ++ (when in_peers m.peers ++ when (has_dest (hdr_selection pkt) to_pollers) m.pollers))
  unfolding send_magic
  send_magic-sent =
      extend pkt s.sent (when in_masters m.masters ++ when in_peers m.peers) _
        (extend pkt s.sent (when in_masters m.masters) (when in_peers m.peers)
          (send_if-sent in_masters s m.masters pkt) (send_if-sent in_peers _ m.peers pkt))
        (send_if-sent (has_dest (hdr_selection pkt) to_pollers) _ m.pollers pkt)
      ∙ ap (λ t. s.sent ++ calls_of pkt t)
          (append_assoc (when in_masters m.masters) (when in_peers m.peers) _)

  send_selected-sent :
      (l : Sender) (found : Looked (List ℕ)) (ok : Bool)
      → (send_selected l found pkt ok).0.sent ≡ l.sent ++ calls_of pkt (selected found)
  unfolding send_selected
  send_selected-sent l null ok = sym (append-nil l.sent)
  send_selected-sent l outside ok = sym (append-nil l.sent)
  send_selected-sent l (here nodes) ok = send_to-sent l nodes pkt

  -- The pollers of a normal packet.
  abbrev normal_pollers : List ℕ
  normal_pollers =
      if is_general pkt
      then m.pollers
      else when (not (length m.pollers == 0))
          (selected (nodes_by_sel_id m.selections (hdr_selection pkt)))

  send_normal-sent :
      (ok : Bool)
      → (send_normal m s pkt ok).0.sent
        ≡ s.sent ++ calls_of pkt (m.masters ++ (m.peers ++ normal_pollers))
  unfolding send_normal
  send_normal-sent ok = elim (Bool-cases (is_general pkt)) [
    | inl general ↦ rw general (send_to-sent s (m.masters ++ (m.peers ++ m.pollers)) pkt)
    | inr other ↦ rw other (elim (Bool-cases (length m.pollers == 0)) [
      | inl none_there ↦ rw none_there (
          send_to-sent s (m.masters ++ m.peers) pkt
          ∙ ap (λ t. s.sent ++ calls_of pkt (m.masters ++ t)) (sym (append-nil m.peers)))
      | inr some_there ↦ rw some_there (
          extend pkt s.sent (m.masters ++ m.peers) _ (send_to-sent s (m.masters ++ m.peers) pkt)
            (send_selected-sent (send_to s (m.masters ++ m.peers) pkt) _ ok)
          ∙ ap (λ t. s.sent ++ calls_of pkt t) (append_assoc m.masters m.peers _))
    ])
  ]

  abbrev shape : Bool → Bool → Bool → Bool → List ℕ
  shape mg x y z =
      when (not mg || mg && x) m.masters
      ++ (when (not mg || mg && y) m.peers
          ++ (if mg then when (mg && z) m.pollers else normal_pollers))

  shape_magic :
      (mg x y z : Bool)
      → mg ≡ true
      → when (mg && x) m.masters ++ (when (mg && y) m.peers ++ when (mg && z) m.pollers)
        ≡ shape mg x y z
  shape_magic true x y z e = refl
  shape_magic false x y z e = absurd (cc e)

  shape_normal :
      (mg x y z : Bool) → mg ≡ false → m.masters ++ (m.peers ++ normal_pollers) ≡ shape mg x y z
  shape_normal false x y z e = refl
  shape_normal true x y z e = absurd (cc e)

  abbrev mg : Bool
  mg = magic_destination (hdr_selection pkt)

  abbrev bit : ℕ → Bool
  bit b = hdr_selection pkt / b % 2 == 1

  pub send_network-sent :
      (ok : Bool)
      → (num_nodes m == 0) ≡ false
      → (hdr_code pkt == magic_nonet) ≡ false
      → (send_network m (s, pkt, ok)).0.sent ≡ s.sent ++ calls_of pkt (recipients m pkt)
  unfolding send_network
  send_network-sent ok some_node net = elim (Bool-cases mg) [
    | inl magic ↦
        ap (λ (r : Sender × Answer). r.0.sent)
          (if_false _ _ some_node ∙ if_false _ _ net ∙ if_true _ _ magic)
        ∙ send_magic-sent
        ∙ ap (λ t. s.sent ++ calls_of pkt t)
            (shape_magic mg (bit to_masters) (bit to_peers) (bit to_pollers) magic)
    | inr normal ↦
        ap (λ (r : Sender × Answer). r.0.sent)
          (if_false _ _ some_node ∙ if_false _ _ net ∙ if_false _ _ normal)
        ∙ send_normal-sent ok
        ∙ ap (λ t. s.sent ++ calls_of pkt t)
            (shape_normal mg (bit to_masters) (bit to_peers) (bit to_pollers) normal)
  ]

  -- Nothing goes to the network where there are no nodes, or for MAGIC_NONET.
  pub send_network-none :
      (ok : Bool)
      → (num_nodes m == 0 || hdr_code pkt == magic_nonet) ≡ true
      → (send_network m (s, pkt, ok)).0.sent ≡ s.sent
  unfolding send_network
  send_network-none ok e = elim (Bool-cases (num_nodes m == 0)) [
    | inl empty ↦ ap (λ (r : Sender × Answer). r.0.sent) (if_true _ _ empty)
    | inr some_node ↦
        ap (λ (r : Sender × Answer). r.0.sent)
          (if_false _ _ some_node ∙ if_true _ _ (rw some_node at e))
  ]
